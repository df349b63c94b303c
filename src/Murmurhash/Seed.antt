-- ===== src/Murmurhash/Seed.antt =====
-- src/mgmurmurhash.c: with the key fixed, different seeds give different hashes.
use mg_std.Base.{
  ℕ, ◌*◌, ◌/◌, ◌^◌, ◌<◌, ◌≡◌, ◌≢◌, List, [], ◌∷◌, arith, bit_xor, length, drop, if◌then◌else◌, ltb,
  Bool, true, false,
}
use mg_std.Bits.Xor.{bit_xor-lt}
use mg_std.Digest.Load.{load_words}
use mg_std.Murmurhash.{
  rotl32, mul32, mix32, tail32, tail_mix32, step_x86_32, words_x86_32, murmurhash3_x86_32,
}
use mg_std.Murmurhash.Mix.{
  xor_cancel, five_injective, fmix32_injective, rotl32_13-lt, rotl32_13_injective,
}

mix32-lt : (c r d h k : ℕ) → h < 2 ^ 32 → mix32 c r d h k < 2 ^ 32
unfolding mix32
mix32-lt c r d h k l = bit_xor-lt 32 h (mul32 (rotl32 (mul32 k c) r) d) l (omega arith)

mix32_injective : (c r d x y k : ℕ) → mix32 c r d x k ≡ mix32 c r d y k → x ≡ y
unfolding mix32
mix32_injective c r d x y k e = xor_cancel x y (mul32 (rotl32 (mul32 k c) r) d) e

step-lt : (h k : ℕ) → step_x86_32 h k < 2 ^ 32
unfolding step_x86_32
step-lt h k = omega arith

step_injective : (x y k : ℕ) → x < 2 ^ 32 → y < 2 ^ 32 → step_x86_32 x k ≡ step_x86_32 y k → x ≡ y
unfolding step_x86_32
step_injective x y k h g e =
    let mx = mix32 0xcc9e2d51 15 0x1b873593 x k in
    let my = mix32 0xcc9e2d51 15 0x1b873593 y k in
    let lx = mix32-lt 0xcc9e2d51 15 0x1b873593 x k h in
    let ly = mix32-lt 0xcc9e2d51 15 0x1b873593 y k g in
    mix32_injective 0xcc9e2d51 15 0x1b873593 x y k (
      rotl32_13_injective mx my lx ly (
        five_injective (rotl32 mx 13) (rotl32 my 13) 0xe6546b64 (rotl32_13-lt mx lx)
          (rotl32_13-lt my ly) e))

words-lt : (h : ℕ) (ks : List ℕ) → h < 2 ^ 32 → words_x86_32 h ks < 2 ^ 32
unfolding words_x86_32
words-lt h [] l = l
words-lt h (k ∷ ks) l = words-lt (step_x86_32 h k) ks (step-lt h k)

words_injective :
    (x y : ℕ) (ks : List ℕ)
    → x < 2 ^ 32
    → y < 2 ^ 32
    → words_x86_32 x ks ≡ words_x86_32 y ks
    → x ≡ y
unfolding words_x86_32
words_injective x y [] h g e = e
words_injective x y (k ∷ ks) h g e =
    step_injective x y k h g
      (words_injective (step_x86_32 x k) (step_x86_32 y k) ks (step-lt x k) (step-lt y k) e)

tail-lt :
    (n base c r d h : ℕ) (tail : List ℕ) → h < 2 ^ 32 → tail_mix32 n base c r d h tail < 2 ^ 32
tail-lt n base c r d h tail l =
    elim (ltb base (length tail))
      as (λ (b : Bool). (if b then mix32 c r d h (tail32 n base tail 0) else h) < 2 ^ 32) [
        | true ↦ mix32-lt c r d h (tail32 n base tail 0) l
        | false ↦ l
      ]

tail_injective :
    (n base c r d x y : ℕ) (tail : List ℕ)
    → tail_mix32 n base c r d x tail ≡ tail_mix32 n base c r d y tail
    → x ≡ y
tail_injective n base c r d x y tail =
    elim (ltb base (length tail))
      as (λ (b : Bool).
        (if b then mix32 c r d x (tail32 n base tail 0) else x)
          ≡ (if b then mix32 c r d y (tail32 n base tail 0) else y)
        → x ≡ y) [ true ↦ λ e. mix32_injective c r d x y (tail32 n base tail 0) e | false ↦ λ e. e ]

x86_32_seed_injective :
    (key : List ℕ) (seed seed' : ℕ)
    → length key < 2 ^ 32
    → seed < 2 ^ 32
    → seed' < 2 ^ 32
    → murmurhash3_x86_32 key seed ≡ murmurhash3_x86_32 key seed'
    → seed ≡ seed'
unfolding murmurhash3_x86_32
x86_32_seed_injective key seed seed' short h g e =
    let len = length key in
    let ks = load_words 4 (len / 4) key in
    let tail = drop (len / 4 * 4) key in
    let x = words_x86_32 seed ks in
    let y = words_x86_32 seed' ks in
    let tx = tail_mix32 3 0 0xcc9e2d51 15 0x1b873593 x tail in
    let ty = tail_mix32 3 0 0xcc9e2d51 15 0x1b873593 y tail in
    let lx = tail-lt 3 0 0xcc9e2d51 15 0x1b873593 x tail (words-lt seed ks h) in
    let ly = tail-lt 3 0 0xcc9e2d51 15 0x1b873593 y tail (words-lt seed' ks g) in
    words_injective seed seed' ks h g (
      tail_injective 3 0 0xcc9e2d51 15 0x1b873593 x y tail (
        xor_cancel tx ty len (
          fmix32_injective (bit_xor tx len) (bit_xor ty len) (bit_xor-lt 32 tx len lx short)
            (bit_xor-lt 32 ty len ly short) e)))

-- For every key shorter than 2^32 bytes, `mgMurmurhash3_x86_32` gives different results for
-- different 32-bit seeds.
pub x86_32_seed_differs :
    (key : List ℕ) (seed seed' : ℕ)
    → length key < 2 ^ 32
    → seed < 2 ^ 32
    → seed' < 2 ^ 32
    → seed ≢ seed'
    → murmurhash3_x86_32 key seed ≢ murmurhash3_x86_32 key seed'
x86_32_seed_differs key seed seed' short h g ne e =
    ne (x86_32_seed_injective key seed seed' short h g e)
