-- ===== src/Hashtable/Tests.antt =====
-- src/mghashtable.c: a table of two lines.
use mg_std.Base.{ℕ, ◌≡◌, ◌≢◌, refl, negsuc, Bool, true, none, some, [], ◌∷◌, arith}
use mg_std.Hashtable.{
  Bytes, Table, signed, int_at, find_entry, entries_at, get_line, get_data, get_int, get_str,
  put_int, put_str, remove_node,
}
use mg_std.Hashtable.Laws.{remove-get, put-get, Stores}
use mg_std.Hashtable.Default.{remainder, default_key_cmp, mghashtable_init}
use mg_std.Hashtable.Ints.{line_of, get_line-default}
use mg_std.Hashtable.Distinct.{HasDistinct, init-HasDistinct, put_data-HasDistinct}
use mg_std.Hashtable.Storage.{put_int-get_int, put_str-get_str}

abbrev always : ℕ → Bool
always n = true

abbrev key_7 : Bytes
key_7 = 7 ∷ 0 ∷ 0 ∷ 0 ∷ []

-- -3 as four bytes.
abbrev key_minus_3 : Bytes
key_minus_3 = 253 ∷ 255 ∷ 255 ∷ 255 ∷ []

abbrev line_1 : get_line default_key_cmp (mghashtable_init 2) key_7 ≡ some (some 1)
unfolding get_line mghashtable_init default_key_cmp
line_1 = refl

minus_3_no_line : get_line default_key_cmp (mghashtable_init 2) key_minus_3 ≡ some none
unfolding get_line mghashtable_init default_key_cmp
minus_3_no_line = refl

-- `default_key_cmp` reads four bytes of a key of one byte.
short_key_fault : get_line default_key_cmp (mghashtable_init 2) (7 ∷ []) ≡ none
unfolding get_line mghashtable_init default_key_cmp
short_key_fault = refl

put-get_example :
    (t' : Table) × Stores default_key_cmp always
      (λ n. refl)
      (mghashtable_init 2)
      key_7
      (9 ∷ 8 ∷ [])
      t'
put-get_example =
    put-get default_key_cmp always (λ n. refl) (mghashtable_init 2) key_7 9 (8 ∷ []) 1 line_1

remove-get_example :
    (t' : Table) × (remove_node default_key_cmp (mghashtable_init 2) key_7
      ≡ some (find_entry key_7 (entries_at 1 (mghashtable_init 2).lines), t'))
    × (get_data default_key_cmp t' key_7 ≡ some none)
    × ((other : Bytes)
        → key_7 ≢ other
        → get_data default_key_cmp t' other ≡ get_data default_key_cmp (mghashtable_init 2) other)
unfolding mghashtable_init
remove-get_example = remove-get default_key_cmp (mghashtable_init 2) key_7 1 line_1 tt

get_line-default_example :
    get_line default_key_cmp (mghashtable_init 2) key_minus_3
    ≡ some (line_of (remainder (negsuc 2) 2))
unfolding int_at signed
get_line-default_example =
    get_line-default 2 253 (255 ∷ 255 ∷ 255 ∷ []) (negsuc 2) (ground arith) (ground arith) refl

put_int-get_int_example :
    (t' : Table) × (put_int default_key_cmp always (mghashtable_init 2) key_7 4294967295
      ≡ some (1, t'))
    × (get_int default_key_cmp t' key_7 ≡ some (signed 4294967295))
put_int-get_int_example =
    put_int-get_int default_key_cmp always (λ n. refl) (mghashtable_init 2) key_7 4294967295 1
      (ground arith) line_1

put_str-get_str_example :
    (t' : Table) × (put_str default_key_cmp always (mghashtable_init 2) key_7 (104 ∷ 105 ∷ [])
      ≡ some (1, t'))
    × (get_str default_key_cmp always t' key_7 ≡ some (some (104 ∷ 105 ∷ [])))
put_str-get_str_example =
    put_str-get_str default_key_cmp always (λ n. refl) (mghashtable_init 2) key_7 104 (105 ∷ []) 1
      line_1

abbrev table_7 : Table
table_7 =
    (put-get default_key_cmp always (λ n. refl) (mghashtable_init 2) key_7 9 (8 ∷ []) 1 line_1).0

put_data-HasDistinct_example : HasDistinct table_7
put_data-HasDistinct_example =
    put_data-HasDistinct default_key_cmp always (mghashtable_init 2) key_7 (9 ∷ 8 ∷ []) 1 table_7
      (init-HasDistinct 2)
      (put-get default_key_cmp always (λ n. refl) (mghashtable_init 2) key_7 9 (8 ∷ []) 1
        line_1).1.0
