-- ===== src/Digest/Pad.antt =====
-- The padding of the Secure Hash Standard, as an independent description of what `_final` of
-- src/mgsha1.c and its siblings appends, and the loops that store the length field.
use mg_std.Base.{
  ℕ, zero, suc, ◌+◌, ◌-◌, ◌*◌, ◌/◌, ◌%◌, ◌^◌, ◌≤◌, ◌≡◌, refl, ap, ◌∙◌, sym, List, [], ◌∷◌, ◌++◌,
  arith, length, set, replicate, length-append, length-replicate, set-append, append_assoc,
  replicate-append,
}
use mg_std.Digest.{len_byte, put_len_down, put_len_up}
use mg_std.Digest.Fold.{fold_blocks}

-- `n` bytes of `v`, the most significant first.
abbrev pub big_endian : ℕ → ℕ → List ℕ
big_endian zero v = []
big_endian (suc n) v = v / 256 ^ n % 256 ∷ big_endian n v

module _ (block limit : ℕ) where
  -- The zeros after the bit 1, up to the eight bytes that hold the length: as many as bring the
  -- message to `limit + 1` modulo the block size, and the upper bytes of a longer length field.
  unfoldable pub pad_zeros : ℕ → ℕ
  pad_zeros n = (limit + block - n % block) % block + (block - 9 - limit)

  unfoldable pub pad : List ℕ → List ℕ
  unfolding pad_zeros
  pad msg = msg ++ (0x80 ∷ (replicate (pad_zeros (length msg)) 0 ++ big_endian 8 (8 * length msg)))

  -- The chaining value that the standard assigns to a message: the fold over its padded blocks.
  unfoldable pub hash_core : {S : Type 0} → (List ℕ → S → S) → S → List ℕ → S
  unfolding pad
  hash_core process start msg = fold_blocks block process (length (pad msg) / block) (pad msg) start

len_bytes : ℕ → ℕ → List ℕ
len_bytes real_len zero = []
len_bytes real_len (suc n) = len_byte real_len (suc n) ∷ len_bytes real_len n

-- The bytes that `n` rounds of the rising loop from `i` store, by position.
up_bytes : ℕ → ℕ → ℕ → List ℕ
up_bytes real_len zero i = []
up_bytes real_len (suc n) i = up_bytes real_len n (i + 1) ++ (len_byte real_len i ∷ [])

put_len_down-eq :
    (real_len n end : ℕ) (xs ys : List ℕ)
    → end ≡ length xs + n
    → put_len_down real_len n end (xs ++ (replicate n 0 ++ ys)) ≡ xs ++ (len_bytes real_len n ++ ys)
unfolding put_len_down len_bytes
put_len_down-eq real_len zero end xs ys e = refl
put_len_down-eq real_len (suc n) end xs ys e =
    let v = len_byte real_len (suc n) in
    ap (put_len_down real_len n end) (
      set-append xs (0 ∷ (replicate n 0 ++ ys)) (end - suc n) 0 v (omega arith)
      ∙ sym (append_assoc xs (v ∷ []) (replicate n 0 ++ ys)))
    ∙ put_len_down-eq real_len n end (xs ++ (v ∷ [])) ys (omega (arith, length-append xs (v ∷ [])))
    ∙ append_assoc xs (v ∷ []) (len_bytes real_len n ++ ys)

put_len_up-eq :
    (real_len n i end : ℕ) (xs ys : List ℕ)
    → end + 1 ≡ length xs + n + i
    → 1 ≤ i
    → put_len_up real_len n i end (xs ++ (replicate n 0 ++ ys))
      ≡ xs ++ (up_bytes real_len n i ++ ys)
unfolding put_len_up up_bytes
put_len_up-eq real_len zero i end xs ys e p = refl
put_len_up-eq real_len (suc n) i end xs ys e p =
    let v = len_byte real_len i in
    ap (λ (zs : List ℕ). put_len_up real_len n (i + 1) end (set zs (end - i) v)) last_zero
    ∙ ap (put_len_up real_len n (i + 1) end) (
        set-append (xs ++ replicate n 0) (0 ∷ ys) (end - i) 0 v
          (omega (arith, length-append xs (replicate n 0), length-replicate {A = ℕ} n 0))
        ∙ append_assoc xs (replicate n 0) (v ∷ ys))
    ∙ put_len_up-eq real_len n (i + 1) end xs (v ∷ ys) (omega arith) (omega arith)
    ∙ ap (λ (zs : List ℕ). xs ++ zs) (sym (append_assoc (up_bytes real_len n (i + 1)) (v ∷ []) ys))
  where
    last_zero : xs ++ (replicate (suc n) 0 ++ ys) ≡ (xs ++ replicate n 0) ++ (0 ∷ ys)
    last_zero =
        ap (λ (zs : List ℕ). xs ++ (zs ++ ys))
          (ap (λ (k : ℕ). replicate k 0) {x = suc n} {y = n + 1} (omega arith)
            ∙ replicate-append n 1 0)
        ∙ ap (λ (zs : List ℕ). xs ++ zs) (append_assoc (replicate n 0) (0 ∷ []) ys)
        ∙ sym (append_assoc xs (replicate n 0) (0 ∷ ys))

-- The length field holds eight times the length, although `all_len` is kept modulo 2^64.
len_bytes-eq :
    (n real_len : ℕ) → real_len ≡ n % 2 ^ 64 → len_bytes real_len 8 ≡ big_endian 8 (8 * n)
unfolding len_bytes
len_bytes-eq n real_len e =
    let b = λ (i : ℕ). len_byte real_len i in
    let b1 : b 1 ≡ 8 * n / 256 ^ 0 % 256 = omega arith in
    let b2 : b 2 ≡ 8 * n / 256 ^ 1 % 256 = omega arith in
    let b3 : b 3 ≡ 8 * n / 256 ^ 2 % 256 = omega arith in
    let b4 : b 4 ≡ 8 * n / 256 ^ 3 % 256 = omega arith in
    let b5 : b 5 ≡ 8 * n / 256 ^ 4 % 256 = omega arith in
    let b6 : b 6 ≡ 8 * n / 256 ^ 5 % 256 = omega arith in
    let b7 : b 7 ≡ 8 * n / 256 ^ 6 % 256 = omega arith in
    let b8 : b 8 ≡ 8 * n / 256 ^ 7 % 256 = omega arith in cc

up_bytes-eq : (real_len : ℕ) → up_bytes real_len 8 1 ≡ len_bytes real_len 8
unfolding up_bytes len_bytes
up_bytes-eq real_len = refl

-- Both loops of `_final` store the length of the message, big-endian.
module _ (n real_len end : ℕ) (xs ys : List ℕ) (e : real_len ≡ n % 2 ^ 64)
    (at : end ≡ length xs + 8) where
  pub put_len_down-big_endian :
      put_len_down real_len 8 end (xs ++ (replicate 8 0 ++ ys)) ≡ xs ++ (big_endian 8 (8 * n) ++ ys)
  put_len_down-big_endian =
      put_len_down-eq real_len 8 end xs ys at
      ∙ ap (λ (zs : List ℕ). xs ++ (zs ++ ys)) (len_bytes-eq n real_len e)

  pub put_len_up-big_endian :
      put_len_up real_len 8 1 end (xs ++ (replicate 8 0 ++ ys)) ≡ xs ++ (big_endian 8 (8 * n) ++ ys)
  put_len_up-big_endian =
      put_len_up-eq real_len 8 1 end xs ys (omega arith) (omega arith)
      ∙ ap (λ (zs : List ℕ). xs ++ (zs ++ ys)) (up_bytes-eq real_len ∙ len_bytes-eq n real_len e)
