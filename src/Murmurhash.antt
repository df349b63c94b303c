-- ===== src/Murmurhash.antt =====
-- src/mgmurmurhash.c: MurmurHash2 (two variants) and MurmurHash3 (three variants). A key is the
-- list of its bytes, shorter than 2^31, and `len` is its length; words are read from it on a
-- little-endian machine. `int` and `unsigned int` have 32 bits.
pub mod Mix
pub mod Seed
pub mod Seed64
pub mod Wide
pub mod Mix64
pub mod Seed128
pub mod Seeds
mod Tests
use mg_std.Base.{
  ℕ, zero, suc, ◌+◌, ◌-◌, ◌*◌, ◌/◌, ◌%◌, ◌^◌, List, [], ◌∷◌, bit_xor, bit_or, if◌then◌else◌, ltb,
  get_or, drop, length, u32, u64, ◌>>>◌, shl32, shl64,
}
use mg_std.Digest.Load.{load_words}

-- `x *= m`
abbrev pub mul32 : ℕ → ℕ → ℕ
mul32 x m = u32 (x * m)

abbrev pub mul64 : ℕ → ℕ → ℕ
mul64 x m = u64 (x * m)

-- `h ^= h >> r`
abbrev pub shift_xor : ℕ → ℕ → ℕ
shift_xor r h = bit_xor h (h >>> r)

unfoldable pub rotl32 : ℕ → ℕ → ℕ
rotl32 x r = bit_or (shl32 x r) (x >>> (32 - r))

unfoldable pub rotl64 : ℕ → ℕ → ℕ
rotl64 x r = bit_or (shl64 x r) (x >>> (64 - r))

unfoldable pub fmix32 : ℕ → ℕ
fmix32 h = shift_xor 16 (mul32 (shift_xor 13 (mul32 (shift_xor 16 h) 0x85ebca6b)) 0xc2b2ae35)

unfoldable pub fmix64 : ℕ → ℕ
fmix64 k =
    shift_xor 33
      (mul64 (shift_xor 33 (mul64 (shift_xor 33 k) 0xff51afd7ed558ccd)) 0xc4ceb9fe1a85ec53)

-- The cases `base + n` to `base + 1` of a tail switch, which fall through: each that the tail
-- reaches adds one byte to `k`.
unfoldable pub tail32 : ℕ → ℕ → List ℕ → ℕ → ℕ
tail32 zero base tail k = k
tail32 (suc n) base tail k =
    let k' = bit_xor k (shl32 (get_or tail (base + n) 0) (8 * n)) in
    tail32 n base tail (if ltb (base + n) (length tail) then k' else k)

unfoldable pub tail64 : ℕ → ℕ → List ℕ → ℕ → ℕ
tail64 zero base tail k = k
tail64 (suc n) base tail k =
    let k' = bit_xor k (shl64 (get_or tail (base + n) 0) (8 * n)) in
    tail64 n base tail (if ltb (base + n) (length tail) then k' else k)

-- `k *= c; k = ROTL32(k, r); k *= d; h ^= k`
unfoldable pub mix32 : (c r d h k : ℕ) → ℕ
unfolding rotl32
mix32 c r d h k = bit_xor h (mul32 (rotl32 (mul32 k c) r) d)

unfoldable pub mix64 : (c r d h k : ℕ) → ℕ
unfolding rotl64
mix64 c r d h k = bit_xor h (mul64 (rotl64 (mul64 k c) r) d)

-- The same at the end of the cases of a tail switch above `base`, for the word of `n` bytes there.
abbrev pub tail_mix32 : (n base c r d h : ℕ) → List ℕ → ℕ
tail_mix32 n base c r d h tail =
    if ltb base (length tail) then mix32 c r d h (tail32 n base tail 0) else h

abbrev pub tail_mix64 : (n base c r d h : ℕ) → List ℕ → ℕ
tail_mix64 n base c r d h tail =
    if ltb base (length tail) then mix64 c r d h (tail64 n base tail 0) else h

-- `mgMurmurhash64`: one word of the key.
unfoldable pub scramble64 : ℕ → ℕ
scramble64 k = mul64 (shift_xor 47 (mul64 k 0xc6a4a7935bd1e995)) 0xc6a4a7935bd1e995

unfoldable pub words64 : ℕ → List ℕ → ℕ
unfolding scramble64
words64 h [] = h
words64 h (k ∷ ks) = words64 (mul64 (bit_xor h (scramble64 k)) 0xc6a4a7935bd1e995) ks

unfoldable pub end64 : ℕ → List ℕ → ℕ
unfolding tail64
end64 h tail =
    let m : ℕ = 0xc6a4a7935bd1e995 in
    let h' = if ltb 0 (length tail) then mul64 (tail64 7 0 tail h) m else h in
    shift_xor 47 (mul64 (shift_xor 47 h') m)

unfoldable pub murmurhash64 : List ℕ → ℕ → ℕ
unfolding words64 end64
murmurhash64 key seed =
    let len = length key in
    end64 (words64 (bit_xor seed (mul64 len 0xc6a4a7935bd1e995)) (load_words 8 (len / 8) key))
      (drop (len / 8 * 8) key)

-- `mgMurmurhash3_x86_32`: one word of the key.
unfoldable pub step_x86_32 : ℕ → ℕ → ℕ
unfolding mix32
step_x86_32 h1 k1 = u32 (mul32 (rotl32 (mix32 0xcc9e2d51 15 0x1b873593 h1 k1) 13) 5 + 0xe6546b64)

unfoldable pub words_x86_32 : ℕ → List ℕ → ℕ
unfolding step_x86_32
words_x86_32 h1 [] = h1
words_x86_32 h1 (k1 ∷ ks) = words_x86_32 (step_x86_32 h1 k1) ks

unfoldable pub murmurhash3_x86_32 : List ℕ → ℕ → ℕ
unfolding words_x86_32 mix32 tail32 fmix32
murmurhash3_x86_32 key seed =
    let len = length key in
    let h1 = words_x86_32 seed (load_words 4 (len / 4) key) in
    let h1' = tail_mix32 3 0 0xcc9e2d51 15 0x1b873593 h1 (drop (len / 4 * 4) key) in
    fmix32 (bit_xor h1' len)
