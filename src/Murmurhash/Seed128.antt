-- ===== src/Murmurhash/Seed128.antt =====
-- src/mgmurmurhash.c: with the key fixed, different seeds give different results of
-- `mgMurmurhash3_x64_128`.
use mg_std.Base.{
  ℕ, ◌*◌, ◌/◌, ◌^◌, ◌<◌, ◌≡◌, ◌≢◌, ap, List, [], ◌∷◌, arith, bit_xor, length, drop, if◌then◌else◌,
  ltb, Bool, true, false,
}
use mg_std.Bits.Xor.{bit_xor-lt}
use mg_std.Digest.Load.{load_words}
use mg_std.Murmurhash.{mix64, fmix64, tail64}
use mg_std.Murmurhash.Mix.{xor_cancel}
use mg_std.Murmurhash.Mix64.{
  fmix64-lt, fmix64_injective, turn64-lt, turn64_27_injective, turn64_31_injective, mix64-lt,
  mix64_injective,
}
use mg_std.Murmurhash.Wide.{
  Halves, turn64, step_x64_128, words_x64_128, tail_x64_128, join_halves, murmurhash3_x64_128,
}

abbrev Fits : Halves → Type 0
Fits s = (s.h1 < 2 ^ 64) × (s.h2 < 2 ^ 64)

-- The two states agree in both halves.
abbrev Same : Halves → Halves → Type 0
Same s t = (s.h1 ≡ t.h1) × (s.h2 ≡ t.h2)

halves_agree : (s t : Halves) → s ≡ t → Same s t
halves_agree s t e = (ap (λ (h : Halves). h.h1) e, ap (λ (h : Halves). h.h2) e)

step-Fits : (s : Halves) (k1 k2 : ℕ) → Fits (step_x64_128 s k1 k2)
unfolding step_x64_128
step-Fits s k1 k2 =
    let h1 = turn64 27 0x52dce729 s.h2 (mix64 0x87c37b91114253d5 31 0x4cf5ad432745937f s.h1 k1) in
    (
      turn64-lt 27 0x52dce729 s.h2 (mix64 0x87c37b91114253d5 31 0x4cf5ad432745937f s.h1 k1),
      turn64-lt 31 0x38495ab5 h1 (mix64 0x4cf5ad432745937f 33 0x87c37b91114253d5 s.h2 k2),
    )

step_injective :
    (s t : Halves) (k1 k2 : ℕ)
    → Fits s
    → Fits t
    → Same (step_x64_128 s k1 k2) (step_x64_128 t k1 k2)
    → Same s t
unfolding step_x64_128
step_injective s t k1 k2 h g e =
    let c : ℕ = 0x87c37b91114253d5 in
    let d : ℕ = 0x4cf5ad432745937f in
    let sa = mix64 c 31 d s.h1 k1 in
    let ta = mix64 c 31 d t.h1 k1 in
    let sb = mix64 d 33 c s.h2 k2 in
    let tb = mix64 d 33 c t.h2 k2 in
    let second : turn64 31 0x38495ab5 (turn64 27 0x52dce729 t.h2 ta) sb
        ≡ turn64 31 0x38495ab5 (turn64 27 0x52dce729 t.h2 ta) tb =
      rw e.0 at e.1 in
    let low : s.h2 ≡ t.h2 = mix64_injective d 33 c s.h2 t.h2 k2 (
      turn64_31_injective 0x38495ab5 (turn64 27 0x52dce729 t.h2 ta) sb tb
        (mix64-lt d 33 c s.h2 k2 h.1) (mix64-lt d 33 c t.h2 k2 g.1) second) in
    let first : turn64 27 0x52dce729 t.h2 sa ≡ turn64 27 0x52dce729 t.h2 ta = rw low at e.0 in
    (
      mix64_injective c 31 d s.h1 t.h1 k1 (
          turn64_27_injective 0x52dce729 t.h2 sa ta (mix64-lt c 31 d s.h1 k1 h.0)
            (mix64-lt c 31 d t.h1 k1 g.0) first),
      low,
    )

words-Fits : (s : Halves) (ks : List ℕ) → Fits s → Fits (words_x64_128 s ks)
unfolding words_x64_128
words-Fits s [] h = h
words-Fits s (k1 ∷ []) h = h
words-Fits s (k1 ∷ (k2 ∷ ks)) h = words-Fits (step_x64_128 s k1 k2) ks (step-Fits s k1 k2)

words_injective :
    (s t : Halves) (ks : List ℕ)
    → Fits s
    → Fits t
    → Same (words_x64_128 s ks) (words_x64_128 t ks)
    → Same s t
unfolding words_x64_128
words_injective s t [] h g e = e
words_injective s t (k1 ∷ []) h g e = e
words_injective s t (k1 ∷ (k2 ∷ ks)) h g e = step_injective s t k1 k2 h g (
    words_injective (step_x64_128 s k1 k2) (step_x64_128 t k1 k2) ks (step-Fits s k1 k2)
      (step-Fits t k1 k2) e)

switch-lt : (b : Bool) (c r d h k : ℕ) → h < 2 ^ 64 → (if b then mix64 c r d h k else h) < 2 ^ 64
switch-lt true c r d h k l = mix64-lt c r d h k l
switch-lt false c r d h k l = l

switch_injective :
    (b : Bool) (c r d x y k : ℕ)
    → (if b then mix64 c r d x k else x) ≡ (if b then mix64 c r d y k else y)
    → x ≡ y
switch_injective true c r d x y k e = mix64_injective c r d x y k e
switch_injective false c r d x y k e = e

tail-Fits : (s : Halves) (tail : List ℕ) → Fits s → Fits (tail_x64_128 s tail)
unfolding tail_x64_128
tail-Fits s tail h = (
  switch-lt (ltb 0 (length tail)) 0x87c37b91114253d5 31 0x4cf5ad432745937f s.h1 (tail64 8 0 tail 0)
      h.0,
  switch-lt (ltb 8 (length tail)) 0x4cf5ad432745937f 33 0x87c37b91114253d5 s.h2 (tail64 7 8 tail 0)
      h.1,
)

tail_injective :
    (s t : Halves) (tail : List ℕ) → Same (tail_x64_128 s tail) (tail_x64_128 t tail) → Same s t
unfolding tail_x64_128
tail_injective s t tail e = (
  switch_injective (ltb 0 (length tail)) 0x87c37b91114253d5 31 0x4cf5ad432745937f s.h1 t.h1
      (tail64 8 0 tail 0) e.0,
  switch_injective (ltb 8 (length tail)) 0x4cf5ad432745937f 33 0x87c37b91114253d5 s.h2 t.h2
      (tail64 7 8 tail 0) e.1,
)

join_injective : (s t : Halves) → Fits s → Fits t → Same (join_halves s) (join_halves t) → Same s t
unfolding join_halves
join_injective s t h g e = let low : s.h2 ≡ t.h2 = omega arith in (omega arith, low)

join-Fits : (s : Halves) → Fits (join_halves s)
unfolding join_halves
join-Fits s = (omega arith, omega arith)

-- The finalisation, from the exclusive or with the length on.
abbrev with_len : ℕ → Halves → Halves
with_len len s = record { h1 = bit_xor s.h1 len; h2 = bit_xor s.h2 len }

abbrev mixed : Halves → Halves
mixed s = record { h1 = fmix64 s.h1; h2 = fmix64 s.h2 }

end_injective :
    (len : ℕ) (s t : Halves)
    → len < 2 ^ 64
    → Fits s
    → Fits t
    → join_halves (mixed (join_halves (with_len len s)))
      ≡ join_halves (mixed (join_halves (with_len len t)))
    → Same s t
end_injective len s t l h g e =
    let sl = with_len len s in
    let tl = with_len len t in
    let sj = join_halves sl in
    let tj = join_halves tl in
    let hs = join-Fits sl in
    let ht = join-Fits tl in
    let m : Same (mixed sj) (mixed tj) =
      join_injective (mixed sj) (mixed tj) (fmix64-lt sj.h1, fmix64-lt sj.h2)
        (fmix64-lt tj.h1, fmix64-lt tj.h2)
        (halves_agree (join_halves (mixed sj)) (join_halves (mixed tj)) e) in
    let j : Same sj tj =
      (fmix64_injective sj.h1 tj.h1 hs.0 ht.0 m.0, fmix64_injective sj.h2 tj.h2 hs.1 ht.1 m.1) in
    let x : Same sl tl =
      join_injective sl tl (bit_xor-lt 64 s.h1 len h.0 l, bit_xor-lt 64 s.h2 len h.1 l)
        (bit_xor-lt 64 t.h1 len g.0 l, bit_xor-lt 64 t.h2 len g.1 l) j in
    (xor_cancel s.h1 t.h1 len x.0, xor_cancel s.h2 t.h2 len x.1)

abbrev seeded : ℕ → Halves
seeded seed = record { h1 = seed; h2 = seed }

x64_128_seed_injective :
    (key : List ℕ) (seed seed' : ℕ)
    → length key < 2 ^ 32
    → seed < 2 ^ 32
    → seed' < 2 ^ 32
    → murmurhash3_x64_128 key seed ≡ murmurhash3_x64_128 key seed'
    → seed ≡ seed'
unfolding murmurhash3_x64_128
x64_128_seed_injective key seed seed' short h g e =
    let len = length key in
    let ks = load_words 8 (len / 16 * 2) key in
    let tail = drop (len / 16 * 16) key in
    let x = words_x64_128 (seeded seed) ks in
    let y = words_x64_128 (seeded seed') ks in
    let wx : Fits (seeded seed) = (omega arith, omega arith) in
    let wy : Fits (seeded seed') = (omega arith, omega arith) in
    let lx = words-Fits (seeded seed) ks wx in
    let ly = words-Fits (seeded seed') ks wy in
    let ends =
      end_injective len (tail_x64_128 x tail) (tail_x64_128 y tail) (omega arith)
        (tail-Fits x tail lx) (tail-Fits y tail ly) e in
    (words_injective (seeded seed) (seeded seed') ks wx wy (tail_injective x y tail ends)).0

-- For every key shorter than 2^32 bytes, `mgMurmurhash3_x64_128` gives different results for
-- different 32-bit seeds.
pub x64_128_seed_differs :
    (key : List ℕ) (seed seed' : ℕ)
    → length key < 2 ^ 32
    → seed < 2 ^ 32
    → seed' < 2 ^ 32
    → seed ≢ seed'
    → murmurhash3_x64_128 key seed ≢ murmurhash3_x64_128 key seed'
x64_128_seed_differs key seed seed' short h g ne e =
    ne (x64_128_seed_injective key seed seed' short h g e)
