-- ===== src/Hashtable/Default.antt =====
-- src/mghashtable.c: the table that `mghashtable_init` makes while allocations succeed, and
-- `default_key_cmp`, which the table gets where the caller gives no comparison.
use mg_std.Base.{
  ℕ, zero, suc, ◌+◌, ◌%◌, ℤ, pos, negsuc, Bool, false, Option, none, some, List, [], ◌∷◌, ◌==◌, ltb,
  if◌then◌else◌, length, take, drop,
}
use mg_std.Hashtable.{Bytes, Line, Table, and_then, bytes_of, int_at}

-- `-a` of a number that is not negative.
abbrev pub negated : ℕ → ℤ
negated zero = pos 0
negated (suc k) = negsuc k

-- `a % n` of C: the remainder has the sign of `a`.
unfoldable pub remainder : ℤ → ℕ → ℤ
remainder (pos a) n = pos (a % n)
remainder (negsuc a) n = negated ((a + 1) % n)

abbrev pub same_int : ℤ → ℤ → Bool
same_int (pos a) (pos b) = a == b
same_int (negsuc a) (negsuc b) = a == b
same_int _ _ = false

unfoldable pub default_key_cmp : ℕ → Bytes → Bytes → Option Bool
unfolding int_at remainder
default_key_cmp line_num key1 key2 =
    and_then (int_at key1)
      λ num1. and_then (int_at key2) λ b. some (same_int num1 (remainder b line_num))

-- The lines of `line_init_num` after `mghashtable_set_line_key` without keys, from number `i` on:
-- the key of a line is its number.
unfoldable pub default_lines : ℕ → ℕ → List Line
unfolding bytes_of
default_lines i zero = []
default_lines i (suc n) = record { key = bytes_of 4 i; entries = [] } ∷ default_lines (i + 1) n

-- The lines with keys that stand one after another in `keys`.
unfoldable pub keyed_lines : Bytes → List ℕ → Option (List Line)
keyed_lines keys [] = some []
keyed_lines keys (l ∷ key_len) =
    let rest = keyed_lines (drop l keys) key_len in
    if ltb (length keys) l
    then none
    else and_then rest λ ls. some (record { key = take l keys; entries = [] } ∷ ls)

-- `mghashtable_init(num, cmpfun, NULL, NULL)`, and with one key for each line.
unfoldable pub mghashtable_init : ℕ → Table
unfolding default_lines
mghashtable_init num = record { line_num = num; lines = default_lines 0 num }

unfoldable pub init_with_keys : Bytes → List ℕ → Option Table
unfolding keyed_lines
init_with_keys keys key_len =
    and_then (keyed_lines keys key_len)
      λ ls. some (record { line_num = length key_len; lines = ls })
