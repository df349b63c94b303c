-- ===== src/Hashtable/Ints.antt =====
-- src/mghashtable.c: integers in memory, and the line that `default_key_cmp` gives a key.
use mg_std.Base.{
  ℕ, zero, suc, ◌+◌, ◌-◌, ◌%◌, ◌^◌, ◌<◌, ◌≡◌, ◌≢◌, refl, ap, ◌∙◌, inl, inr, ℤ, pos, negsuc, Option,
  none, some, ◌∷◌, arith, ◌==◌, ltb, if◌then◌else◌, Bool-cases,
}
use native.Mathlib.Nat.{mod-lt}
use mg_std.Digest.Load.{little_endian}
use mg_std.Hashtable.{Bytes, shifted, signed, int_at, bytes_of, find_line, get_line}
use mg_std.Hashtable.Default.{
  negated, remainder, same_int, default_key_cmp, default_lines, mghashtable_init,
}

-- A word that is stored and loaded.
pub int_at-bytes_of : (u : ℕ) → u < 2 ^ 32 → int_at (bytes_of 4 u) ≡ some (signed u)
unfolding int_at bytes_of little_endian
int_at-bytes_of u h = ap (λ v. some (signed v)) (omega arith)

pub signed_small : (u : ℕ) → u < 2 ^ 31 → signed u ≡ pos u
unfolding signed
signed_small u h = ground arith

-- The number of the line, if a remainder is one.
abbrev pub line_of : ℤ → Option ℕ
line_of (pos r) = some r
line_of (negsuc r) = none

-- The lines from `i` to `i + m`.
abbrev among : ℕ → ℕ → ℤ → Option ℕ
among i m (pos r) = if ltb r i then none else if ltb r (i + m) then some (r - i) else none
among i m (negsuc r) = none

default_key_cmp_lem :
    (n : ℕ) (key : Bytes) (v : ℤ)
    → int_at key ≡ some v
    → (i : ℕ) → i < 2 ^ 31
    → default_key_cmp n (bytes_of 4 i) key ≡ some (same_int (pos i) (remainder v n))
unfolding default_key_cmp
default_key_cmp_lem n key v e i h = rw (int_at-bytes_of i (ground arith), e, signed_small i h) refl

-- One step of the search for the line of a remainder.
among-suc :
    (i m : ℕ) (r : ℤ)
    → (if same_int (pos i) r then some (some 0) else some (shifted (among (i + 1) m r)))
      ≡ some (among i (suc m) r)
among-suc i m (negsuc r) = refl
among-suc i m (pos r) = elim (Bool-cases (i == r)) [
  | inl e ↦ rw e (ground arith)
  | inr ne ↦ rw ne (ap (λ o. some o) (others (ground arith)))
]
  where
    others : i ≢ r → shifted (among (i + 1) m (pos r)) ≡ among i (suc m) (pos r)
    others d = ground arith

find_line-default_lines :
    (n : ℕ) (key : Bytes) (v : ℤ)
    → int_at key ≡ some v
    → (i m : ℕ) → i + m < 2 ^ 31
    → find_line default_key_cmp n key (default_lines i m) ≡ some (among i m (remainder v n))
unfolding find_line default_lines
find_line-default_lines n key v e i zero h = ends (remainder v n)
  where
    ends : (r : ℤ) → some none ≡ some (among i 0 r)
    ends (pos r) = ground arith
    ends (negsuc r) = refl
find_line-default_lines n key v e i (suc m) h =
    rw
      (
        default_key_cmp_lem n key v e i (omega arith),
        find_line-default_lines n key v e (i + 1) m (omega arith),
      )
      (among-suc i m (remainder v n))

-- `mghashtable_get_line` of a table that `mghashtable_init` made without keys, for a key whose
-- first four bytes are an `int`.
pub get_line-default :
    (n : ℕ) (b : ℕ) (key : Bytes) (v : ℤ)
    → 0 < n
    → n < 2 ^ 31
    → int_at (b ∷ key) ≡ some v
    → get_line default_key_cmp (mghashtable_init n) (b ∷ key) ≡ some (line_of (remainder v n))
unfolding get_line mghashtable_init remainder
get_line-default n b key v pos_n h e =
    find_line-default_lines n (b ∷ key) v e 0 n (omega arith) ∙ ap (λ o. some o) (inside v)
  where
    inside : (v : ℤ) → among 0 n (remainder v n) ≡ line_of (remainder v n)
    inside (pos a) = let bound : a % n < n = mod-lt a pos_n in ground arith
    inside (negsuc a) = smaller ((a + 1) % n) (mod-lt (a + 1) pos_n)
      where
        smaller : (r : ℕ) → r < n → among 0 n (negated r) ≡ line_of (negated r)
        smaller zero q = ground arith
        smaller (suc r) q = refl
