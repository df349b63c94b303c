-- ===== src/Murmurhash/Seed64.antt =====
-- src/mgmurmurhash.c: with the key fixed, different seeds give different values of
-- `mgMurmurhash64`.
use mg_std.Base.{
  ℕ, zero, suc, ◌+◌, ◌*◌, ◌/◌, ◌^◌, ◌<◌, ◌≡◌, ◌≢◌, List, [], ◌∷◌, arith, bit_xor, length, drop,
  get_or, shl64, if◌then◌else◌, ltb, Bool, true, false,
}
use mg_std.Bits.Xor.{bit_xor-lt}
use mg_std.Digest.Load.{load_words}
use mg_std.Murmurhash.{shift_xor, mul64, tail64, scramble64, words64, end64, murmurhash64}
use mg_std.Murmurhash.Mix.{xor_cancel, shift_xor_injective, shift_xor-lt, mul64_injective}

abbrev m : ℕ
m = 0xc6a4a7935bd1e995

scramble-lt : (k : ℕ) → scramble64 k < 2 ^ 64
unfolding scramble64
scramble-lt k = omega arith

words-lt : (h : ℕ) (ks : List ℕ) → h < 2 ^ 64 → words64 h ks < 2 ^ 64
unfolding words64
words-lt h [] l = l
words-lt h (k ∷ ks) l = words-lt (mul64 (bit_xor h (scramble64 k)) m) ks (omega arith)

words_injective :
    (x y : ℕ) (ks : List ℕ) → x < 2 ^ 64 → y < 2 ^ 64 → words64 x ks ≡ words64 y ks → x ≡ y
unfolding words64
words_injective x y [] h g e = e
words_injective x y (k ∷ ks) h g e =
    let sx = bit_xor x (scramble64 k) in
    let sy = bit_xor y (scramble64 k) in
    let next = words_injective (mul64 sx m) (mul64 sy m) ks (omega arith) (omega arith) e in
    xor_cancel x y (scramble64 k) (
      mul64_injective sx sy (bit_xor-lt 64 x (scramble64 k) h (scramble-lt k))
        (bit_xor-lt 64 y (scramble64 k) g (scramble-lt k)) next)

tail-lt : (n base : ℕ) (tail : List ℕ) (k : ℕ) → k < 2 ^ 64 → tail64 n base tail k < 2 ^ 64
unfolding tail64
tail-lt zero base tail k h = h
tail-lt (suc n) base tail k h =
    let v = shl64 (get_or tail (base + n) 0) (8 * n) in
    tail-lt n base tail (if ltb (base + n) (length tail) then bit_xor k v else k)
      (elim (ltb (base + n) (length tail))
        as (λ (b : Bool). (if b then bit_xor k v else k) < 2 ^ 64) [
          | true ↦ bit_xor-lt 64 k v h (omega arith)
          | false ↦ h
        ])

tail_injective :
    (n base : ℕ) (tail : List ℕ) (x y : ℕ) → tail64 n base tail x ≡ tail64 n base tail y → x ≡ y
unfolding tail64
tail_injective zero base tail x y e = e
tail_injective (suc n) base tail x y e =
    let v = shl64 (get_or tail (base + n) 0) (8 * n) in
    let b = ltb (base + n) (length tail) in
    let next =
      tail_injective n base tail (if b then bit_xor x v else x) (if b then bit_xor y v else y) e in
    elim b
        as (λ (c : Bool). (if c then bit_xor x v else x) ≡ (if c then bit_xor y v else y) → x ≡ y) [
          | true ↦ λ q. xor_cancel x y v q
          | false ↦ λ q. q
        ]
      next

mixed_injective :
    (x y : ℕ)
    → x < 2 ^ 64
    → y < 2 ^ 64
    → shift_xor 47 (mul64 (shift_xor 47 x) m) ≡ shift_xor 47 (mul64 (shift_xor 47 y) m)
    → x ≡ y
mixed_injective x y h g e =
    let x1 = shift_xor 47 x in
    let y1 = shift_xor 47 y in
    shift_xor_injective 46 x y (
      mul64_injective x1 y1 (shift_xor-lt 64 47 x h) (shift_xor-lt 64 47 y g)
        (shift_xor_injective 46 (mul64 x1 m) (mul64 y1 m) e))

-- The end of a tail switch: `b` tells whether any case is taken.
switch_injective :
    (b : Bool) (tx ty x y : ℕ)
    → tx < 2 ^ 64
    → ty < 2 ^ 64
    → (tx ≡ ty → x ≡ y)
    → (if b then mul64 tx m else x) ≡ (if b then mul64 ty m else y)
    → x ≡ y
switch_injective true tx ty x y h g f e = f (mul64_injective tx ty h g e)
switch_injective false tx ty x y h g f e = e

switch-lt : (b : Bool) (t x : ℕ) → x < 2 ^ 64 → (if b then mul64 t m else x) < 2 ^ 64
switch-lt true t x h = omega arith
switch-lt false t x h = h

end_injective :
    (x y : ℕ) (tail : List ℕ) → x < 2 ^ 64 → y < 2 ^ 64 → end64 x tail ≡ end64 y tail → x ≡ y
unfolding end64
end_injective x y tail h g e =
    let b = ltb 0 (length tail) in
    let tx = tail64 7 0 tail x in
    let ty = tail64 7 0 tail y in
    let lx = switch-lt b tx x h in
    let ly = switch-lt b ty y g in
    switch_injective b tx ty x y (tail-lt 7 0 tail x h) (tail-lt 7 0 tail y g)
      (tail_injective 7 0 tail x y)
      (mixed_injective (if b then mul64 tx m else x) (if b then mul64 ty m else y) lx ly e)

murmurhash64_seed_injective :
    (key : List ℕ) (seed seed' : ℕ)
    → seed < 2 ^ 32
    → seed' < 2 ^ 32
    → murmurhash64 key seed ≡ murmurhash64 key seed'
    → seed ≡ seed'
unfolding murmurhash64
murmurhash64_seed_injective key seed seed' h g e =
    let len = length key in
    let l = mul64 len m in
    let ks = load_words 8 (len / 8) key in
    let x = bit_xor seed l in
    let y = bit_xor seed' l in
    let lx = bit_xor-lt 64 seed l (omega arith) (omega arith) in
    let ly = bit_xor-lt 64 seed' l (omega arith) (omega arith) in
    xor_cancel seed seed' l (
      words_injective x y ks lx ly (
        end_injective (words64 x ks) (words64 y ks) (drop (len / 8 * 8) key) (words-lt x ks lx)
          (words-lt y ks ly) e))

-- For every key, `mgMurmurhash64` gives different values for different 32-bit seeds.
pub murmurhash64_seed_differs :
    (key : List ℕ) (seed seed' : ℕ)
    → seed < 2 ^ 32
    → seed' < 2 ^ 32
    → seed ≢ seed'
    → murmurhash64 key seed ≢ murmurhash64 key seed'
murmurhash64_seed_differs key seed seed' h g ne e =
    ne (murmurhash64_seed_injective key seed seed' h g e)
