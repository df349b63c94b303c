-- ===== src/Hashtable/Storage.antt =====
-- src/mghashtable.c: integers and strings as the data of a key.
use mg_std.Base.{
  ℕ, ◌+◌, ◌/◌, ◌%◌, ◌^◌, ◌<◌, ◌≡◌, refl, ap, ◌∙◌, Bool, true, Option, some, [], ◌∷◌, arith, length,
  take,
}
use mg_std.Hashtable.{
  Bytes, Table, and_then, signed, bytes_of, int_of, str_of, get_line, get_int, get_str, put_int,
  put_str,
}
use mg_std.Hashtable.Laws.{put-get}
use mg_std.Hashtable.Ints.{int_at-bytes_of}

take_all : (a : Bytes) → take (length a) a ≡ a
take_all [] = refl
take_all (x ∷ a) = ap (λ r. x ∷ r) (take_all a)

module _ (cmp : ℕ → Bytes → Bytes → Option Bool) (allocates : ℕ → Bool)
    (enough : (n : ℕ) → allocates n ≡ true) where
  -- While allocations succeed, an `int` that is put under a key that a line accepts is got again.
  pub put_int-get_int :
      (t : Table) (key : Bytes) (u i : ℕ)
      → u < 2 ^ 32
      → get_line cmp t key ≡ some (some i)
      → (t' : Table) × (put_int cmp allocates t key u ≡ some (1, t'))
        × (get_int cmp t' key ≡ some (signed u))
  unfolding put_int get_int bytes_of
  put_int-get_int t key u i h line =
      let (t', (put, got, others)) =
        put-get cmp allocates enough t key (u % 256)
          (u / 256 % 256 ∷ u / 256 / 256 % 256 ∷ u / 256 / 256 / 256 % 256 ∷ []) i line in
      (t', put, ap (λ o. and_then o int_of) got ∙ int_at-bytes_of u h)

  -- The same for a string that is not empty.
  pub put_str-get_str :
      (t : Table) (key : Bytes) (c : ℕ) (content : Bytes) (i : ℕ)
      → get_line cmp t key ≡ some (some i)
      → (t' : Table) × (put_str cmp allocates t key (c ∷ content) ≡ some (1, t'))
        × (get_str cmp allocates t' key ≡ some (some (c ∷ content)))
  unfolding put_str get_str
  put_str-get_str t key c content i line =
      let (t', (put, got, others)) = put-get cmp allocates enough t key c content i line in
      (t', put, ap (λ o. and_then o (str_of allocates)) got ∙ whole)
    where
      whole :
          str_of allocates (some (c ∷ content, length (c ∷ content))) ≡ some (some (c ∷ content))
      whole = rw (enough (length (c ∷ content) + 1), take_all content) (ground arith)
