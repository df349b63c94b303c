-- ===== src/Mgbitmap/Bits.antt =====
-- src/mgbitmap.c: one bit of the map, and the others.
use mg_std.Base.{
  ℕ, zero, suc, ◌/◌, ◌%◌, ◌<◌, ◌≡◌, ◌≢◌, refl, sym, ap, ◌∙◌, ◌⊎◌, inl, inr, Bool, true, false, List,
  [], ◌∷◌, arith, ◌==◌, Bool-cases, get_or, set, length,
}
use mg_std.Mgbitmap.{Bitmap, word, test_bit, put_bit, is_set, put}

test_bit-put_bit_self : (v : Bool) (b w : ℕ) → test_bit b (put_bit v b w) ≡ v
unfolding test_bit put_bit
test_bit-put_bit_self true zero w = ground arith
test_bit-put_bit_self false zero w = ground arith
test_bit-put_bit_self v (suc b) w =
    ap (test_bit b) (omega arith) ∙ test_bit-put_bit_self v b (w / 2)

test_bit-put_bit_ne : (v : Bool) (b c w : ℕ) → b ≢ c → test_bit c (put_bit v b w) ≡ test_bit c w
unfolding test_bit put_bit
test_bit-put_bit_ne v zero zero w h = absurd (h refl)
test_bit-put_bit_ne true zero (suc c) w h = ap (test_bit c) (omega arith)
test_bit-put_bit_ne false zero (suc c) w h = ap (test_bit c) (omega arith)
test_bit-put_bit_ne v (suc b) zero w h = ap (λ r. r == 1) (omega arith)
test_bit-put_bit_ne v (suc b) (suc c) w h =
    ap (test_bit c) (omega arith) ∙ test_bit-put_bit_ne v b c (w / 2) (λ q. h (ap suc q))

get_or-set_self : (xs : List ℕ) (i v : ℕ) → i < length xs → get_or (set xs i v) i 0 ≡ v
get_or-set_self [] i v h = absurd (omega arith)
get_or-set_self (x ∷ xs) zero v h = refl
get_or-set_self (x ∷ xs) (suc i) v h = get_or-set_self xs i v (omega arith)

get_or-set_ne : (xs : List ℕ) (i j v : ℕ) → i ≢ j → get_or (set xs i v) j 0 ≡ get_or xs j 0
get_or-set_ne [] i j v h = refl
get_or-set_ne (x ∷ xs) zero zero v h = absurd (h refl)
get_or-set_ne (x ∷ xs) zero (suc j) v h = refl
get_or-set_ne (x ∷ xs) (suc i) zero v h = refl
get_or-set_ne (x ∷ xs) (suc i) (suc j) v h = get_or-set_ne xs i j v (λ q. h (ap suc q))

pub is_set-put_self :
    (v : Bool) (bm : Bitmap) (o : ℕ) → word o < length bm.map → is_set (put v bm o) o ≡ v
unfolding is_set put
is_set-put_self v bm o h =
    ap (test_bit (o % 16)) (get_or-set_self bm.map (word o) _ h)
    ∙ test_bit-put_bit_self v (o % 16) (get_or bm.map (word o) 0)

-- Numbers that share a word have different bits of it.
pub is_set-put_ne :
    (v : Bool) (bm : Bitmap) (o p : ℕ)
    → word o < length bm.map
    → o ≢ p
    → is_set (put v bm o) p ≡ is_set bm p
unfolding is_set put
is_set-put_ne v bm o p h ne = elim (Bool-cases (word o == word p)) [
  | inl e ↦
      let q : word o ≡ word p = ground arith in
      let d : o % 16 ≢ p % 16 = omega arith in
      rw (sym q) (
        ap (test_bit (p % 16)) (get_or-set_self bm.map (word o) _ h)
        ∙ test_bit-put_bit_ne v (o % 16) (p % 16) (get_or bm.map (word o) 0) d)
  | inr differ ↦ ap (test_bit (p % 16)) (get_or-set_ne bm.map (word o) (word p) _ (ground arith))
]

-- The bits of the map other than that of `o`, in every word.
abbrev pub OtherBits : Bitmap → Bitmap → ℕ → Type 0
OtherBits bm bm' o =
    (i b : ℕ)
    → (i ≢ word o) ⊎ (b ≢ o % 16)
    → test_bit b (get_or bm'.map i 0) ≡ test_bit b (get_or bm.map i 0)

pub put-OtherBits :
    (v : Bool) (bm : Bitmap) (o : ℕ) → word o < length bm.map → OtherBits bm (put v bm o) o
unfolding put
put-OtherBits v bm o h i b (inl ne) =
    ap (test_bit b) (get_or-set_ne bm.map (word o) i _ (λ e. ne (sym e)))
put-OtherBits v bm o h i b (inr ne) = elim (Bool-cases (word o == i)) [
  | inl e ↦
      let q : word o ≡ i = ground arith in
      rw (sym q) (
        ap (test_bit b) (get_or-set_self bm.map (word o) _ h)
        ∙ test_bit-put_bit_ne v (o % 16) b (get_or bm.map (word o) 0) (λ e. ne (sym e)))
  | inr differ ↦ ap (test_bit b) (get_or-set_ne bm.map (word o) i _ (ground arith))
]
