-- ===== src/Hashtable.antt =====
-- src/mghashtable.c: a table of lines, each with a key of its own and a circular list of entries,
-- which is modelled as the list of the entries in order (Mglist.Insert and Mglist.Delete say what
-- appending and deleting make of it). Bytes are numbers; an empty list stands for a NULL pointer
-- or a length 0. Whether an allocation succeeds is a parameter, `none` is an access out of bounds
-- or through NULL. The comparison function is a parameter that is given the number of lines.
pub mod Lines
pub mod Laws
pub mod Default
pub mod Ints
pub mod Distinct
pub mod Storage
mod Tests
use mg_std.Base.{
  ℕ, zero, suc, ◌+◌, ◌-◌, ◌/◌, ◌%◌, ◌^◌, ℤ, pos, negsuc, Bool, true, false, ◌&&◌, ◌||◌, Option,
  none, some, List, [], ◌∷◌, ◌++◌, ◌==◌, ltb, leb, if◌then◌else◌, length, take, drop,
}
use mg_std.Digest.Load.{little_endian}
use mg_std.Murmurhash.Wide.{murmurhash32}

abbrev pub Bytes : Type 0
Bytes = List ℕ

-- `mghashtable_line_node`; `key_len` is the length of `key`, and `murm_key` a 32-bit word. `data_len` is a field of its own: a
-- failed `realloc` leaves it as it was.
pub record Entry : Type 0 where
  pub key : Bytes
  pub content : Bytes
  pub data_len : ℕ
  pub murm_key : ℕ

pub record Line : Type 0 where
  pub key : Bytes
  pub entries : List Entry

pub record Table : Type 0 where
  pub line_num : ℕ
  pub lines : List Line

module _ {A B : Type 0} where
  abbrev pub and_then : Option A → (A → Option B) → Option B
  and_then none f = none
  and_then (some a) f = f a

-- `*(int *)p` of the 32-bit word `u`, and the bytes of a word of `n` bytes.
unfoldable pub signed : ℕ → ℤ
signed u = if ltb u (2 ^ 31) then pos u else negsuc (2 ^ 32 - 1 - u)

unfoldable pub int_at : Bytes → Option ℤ
unfolding signed little_endian
int_at p = if ltb (length p) 4 then none else some (signed (little_endian (take 4 p)))

unfoldable pub bytes_of : ℕ → ℕ → Bytes
bytes_of zero u = []
bytes_of (suc n) u = u % 256 ∷ bytes_of n (u / 256)

-- `key_len` equal and `memcmp` 0.
unfoldable pub same_key : Bytes → Bytes → Bool
same_key [] [] = true
same_key (a ∷ p) (b ∷ q) = let rest = same_key p q in a == b && rest
same_key _ _ = false

module _ (allocates : ℕ → Bool) where
  -- `node_init`: no node without the structure (48 bytes), a fault if the copies have no room.
  unfoldable pub node_init : Bytes → Bytes → Option (Option Entry)
  unfolding murmurhash32
  node_init key content =
      if not_empty key && allocates 48
      then (if allocates (length key)
          then (if not_empty content
              then (if allocates (length content) then some (some (made key content)) else none)
              else some (some (made key [])))
          else none)
      else some none
    where
      not_empty : Bytes → Bool
      not_empty [] = false
      not_empty _ = true

      made : Bytes → Bytes → Entry
      made key content = record {
        key = key;
        content = content;
        data_len = length content;
        murm_key = murmurhash32 key 16;
      }

  -- `node_replace_data`: the returned number and the node.
  unfoldable pub node_replace_data : Entry → Bytes → ℕ × Entry
  node_replace_data e [] = (0, e)
  node_replace_data e (b ∷ content) =
      if allocates (length (b ∷ content))
      then (1, record e { content = b ∷ content; data_len = length (b ∷ content) })
      else (0, record e { content = [] })

-- The first node of the key, in the order of `mglist_for_each_entry`.
unfoldable pub find_entry : Bytes → List Entry → Option Entry
unfolding same_key
find_entry key [] = none
find_entry key (e ∷ es) =
    let rest = find_entry key es in if same_key e.key key then some e else rest

-- The list after that node has changed in place, and after it has been unlinked.
unfoldable pub change_entry : Bytes → (Entry → Entry) → List Entry → List Entry
unfolding same_key
change_entry key f [] = []
change_entry key f (e ∷ es) =
    let rest = change_entry key f es in if same_key e.key key then f e ∷ es else e ∷ rest

unfoldable pub unlink_entry : Bytes → List Entry → List Entry
unfolding same_key
unlink_entry key [] = []
unlink_entry key (e ∷ es) =
    let rest = unlink_entry key es in if same_key e.key key then es else e ∷ rest

abbrev pub entries_at : ℕ → List Line → List Entry
entries_at i [] = []
entries_at zero (l ∷ ls) = l.entries
entries_at (suc i) (l ∷ ls) = entries_at i ls

abbrev pub change_line : ℕ → (List Entry → List Entry) → List Line → List Line
change_line i f [] = []
change_line zero f (l ∷ ls) = record l { entries = f l.entries } ∷ ls
change_line (suc i) f (l ∷ ls) = l ∷ change_line i f ls

abbrev pub shifted : Option ℕ → Option ℕ
shifted none = none
shifted (some i) = some (suc i)

-- A node with the index of its line.
abbrev pub tagged : ℕ → Option Entry → Option (ℕ × Entry)
tagged i none = none
tagged i (some e) = some (i, e)

-- The search in the line that was found.
abbrev pub located : Table → Bytes → Option ℕ → Option (ℕ × Entry)
located t key none = none
located t key (some i) = tagged i (find_entry key (entries_at i t.lines))

-- The data and the length that is stored through the last argument, if a node was found.
abbrev pub reported : Option (ℕ × Entry) → Option (Bytes × ℕ)
reported none = none
reported (some (i, e)) = some (e.content, e.data_len)

-- `if (!data || len != sizeof(int)) return 0; return *(int *)data`
abbrev pub int_of : Option (Bytes × ℕ) → Option ℤ
int_of none = some (pos 0)
int_of (some (content, len)) =
    if length content == 0 then some (pos 0) else if len == 4 then int_at content else some (pos 0)

-- The string that `mghashtable_get_str` makes of them, with a null byte after it.
abbrev pub str_of : (ℕ → Bool) → Option (Bytes × ℕ) → Option (Option Bytes)
str_of allocates none = some none
str_of allocates (some (content, len)) =
    if length content == 0 || len == 0
    then some none
    else if allocates (len + 1) && leb len (length content)
    then some (some (take len content))
    else none

abbrev pub removed : Table → Bytes → Option (ℕ × Entry) → Option Entry × Table
removed t key none = (none, t)
removed t key (some (i, e)) =
    (some e, record t { lines = change_line i (unlink_entry key) t.lines })

module _ (allocates : ℕ → Bool) where
  -- The node is appended to the line `i`, if there is one.
  abbrev pub appended : Table → ℕ → Option Entry → ℕ × Table
  appended t i none = (0, t)
  appended t i (some e) = (1, record t { lines = change_line i (λ es. es ++ (e ∷ [])) t.lines })

  abbrev pub added : Table → Bytes → Bytes → Option ℕ → Option (ℕ × Table)
  added t key content none = some (0, t)
  added t key content (some i) =
      and_then (node_init allocates key content) λ made. some (appended t i made)

  -- The node that was found gets new data in place.
  abbrev pub replaced : Table → Bytes → Bytes → ℕ → Entry → ℕ × Table
  replaced t key content i e = (
    (node_replace_data allocates e content).0,
    record t {
      lines =
          change_line i (change_entry key (λ old. (node_replace_data allocates old content).1))
            t.lines;
    },
  )

module _ (cmp : ℕ → Bytes → Bytes → Option Bool) where
  -- The loop of `mghashtable_get_line`: the index of the first line that the comparison accepts.
  unfoldable pub find_line : ℕ → Bytes → List Line → Option (Option ℕ)
  find_line n key [] = some none
  find_line n key (l ∷ ls) =
      let rest = find_line n key ls in
      and_then (cmp n l.key key)
        λ hit. if hit then some (some zero) else and_then rest λ i. some (shifted i)

  unfoldable pub get_line : Table → Bytes → Option (Option ℕ)
  unfolding find_line
  get_line t [] = some none
  get_line t (b ∷ key) = find_line t.line_num (b ∷ key) t.lines

  unfoldable pub get_node : Table → Bytes → Option (Option (ℕ × Entry))
  unfolding get_line find_entry
  get_node t key = and_then (get_line t key) λ found. some (located t key found)

  unfoldable pub remove_node : Table → Bytes → Option (Option Entry × Table)
  unfolding get_node unlink_entry
  remove_node t key = and_then (get_node t key) λ found. some (removed t key found)

  unfoldable pub get_data : Table → Bytes → Option (Option (Bytes × ℕ))
  unfolding get_node
  get_data t key = and_then (get_node t key) λ found. some (reported found)

  unfoldable pub get_int : Table → Bytes → Option ℤ
  unfolding get_data int_at
  get_int t key = and_then (get_data t key) int_of

  module _ (allocates : ℕ → Bool) where
    -- A string without its null byte.
    unfoldable pub get_str : Table → Bytes → Option (Option Bytes)
    unfolding get_data
    get_str t key = and_then (get_data t key) (str_of allocates)

    unfoldable pub add_node : Table → Bytes → Bytes → Option (ℕ × Table)
    unfolding get_line node_init
    add_node t key content = and_then (get_line t key) (added allocates t key content)

    -- Either branch of `mghashtable_put_data`.
    unfoldable pub put_at : Table → Bytes → Bytes → Option (ℕ × Entry) → Option (ℕ × Table)
    unfolding add_node node_replace_data change_entry
    put_at t key content none = add_node t key content
    put_at t key content (some (i, e)) = some (replaced allocates t key content i e)

    unfoldable pub put_data : Table → Bytes → Bytes → Option (ℕ × Table)
    unfolding get_node put_at
    put_data t key content = and_then (get_node t key) (put_at t key content)

    -- `data` is an `int`, given as its 32-bit word.
    unfoldable pub put_int : Table → Bytes → ℕ → Option (ℕ × Table)
    unfolding put_data bytes_of
    put_int t key u = put_data t key (bytes_of 4 u)

    -- `content` is a string, given without its null byte, or NULL, given as the empty list.
    unfoldable pub put_str : Table → Bytes → Bytes → Option (ℕ × Table)
    unfolding put_data
    put_str t key content = put_data t key content
