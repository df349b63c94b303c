-- ===== src/Murmurhash/Wide.antt =====
-- src/mgmurmurhash.c: `mgMurmurhash32`, `mgMurmurhash3_x86_128` and `mgMurmurhash3_x64_128`.
use mg_std.Base.{
  ℕ, ◌+◌, ◌*◌, ◌/◌, List, [], ◌∷◌, bit_xor, bit_or, if◌then◌else◌, ltb, drop, length, u32, u64,
  ◌>>>◌,
}
use mg_std.Digest.Load.{load_words}
use mg_std.Murmurhash.{
  mul32, mul64, shift_xor, rotl32, rotl64, fmix32, fmix64, tail32, tail64, mix32, mix64, tail_mix32,
  tail_mix64,
}

-- `mgMurmurhash32`: a word of the key added to one of the two halves.
unfoldable pub mix_half : ℕ → ℕ → ℕ
mix_half h k = bit_xor (mul32 h 0x5bd1e995) (mul32 (shift_xor 24 (mul32 k 0x5bd1e995)) 0x5bd1e995)

pub record Halves : Type 0 where
  pub h1 : ℕ
  pub h2 : ℕ

-- Words go to the two halves in turn; the last of an odd number goes to the first.
unfoldable pub words_halves : Halves → List ℕ → Halves
unfolding mix_half
words_halves s [] = s
words_halves s (k1 ∷ []) = record s { h1 = mix_half s.h1 k1 }
words_halves s (k1 ∷ (k2 ∷ ks)) =
    words_halves (record { h1 = mix_half s.h1 k1; h2 = mix_half s.h2 k2 }) ks

unfoldable pub murmurhash32 : List ℕ → ℕ → ℕ
unfolding words_halves tail32
murmurhash32 key seed =
    let len = length key in
    let tail = drop (len / 4 * 4) key in
    let m : ℕ = 0x5bd1e995 in
    let s = words_halves (record { h1 = bit_xor seed len; h2 = 0 }) (load_words 4 (len / 4) key) in
    let h2 = if ltb 0 (length tail) then mul32 (tail32 3 0 tail s.h2) m else s.h2 in
    let h1 = mul32 (bit_xor s.h1 (h2 >>> 18)) m in
    let h2' = mul32 (bit_xor h2 (h1 >>> 22)) m in
    let h1' = mul32 (bit_xor h1 (h2' >>> 17)) m in
    let h2'' = mul32 (bit_xor h2' (h1' >>> 19)) m in bit_or h1' h2''

pub record Lanes : Type 0 where
  pub a : ℕ
  pub b : ℕ
  pub c : ℕ
  pub d : ℕ

-- `h = ROTL32(h, r); h += other; h = h*5+add`
unfoldable pub turn32 : (r add other h : ℕ) → ℕ
turn32 r add other h = u32 (mul32 (u32 (rotl32 h r + other)) 5 + add)

unfoldable pub step_x86_128 : Lanes → (k1 k2 k3 k4 : ℕ) → Lanes
unfolding mix32 turn32
step_x86_128 s k1 k2 k3 k4 =
    let a = turn32 19 0x561ccd1b s.b (mix32 0x239b961b 15 0xab0e9789 s.a k1) in
    let b = turn32 17 0x0bcaa747 s.c (mix32 0xab0e9789 16 0x38b34ae5 s.b k2) in
    let c = turn32 15 0x96cd1c35 s.d (mix32 0x38b34ae5 17 0xa1e38b93 s.c k3) in
    let d = turn32 13 0x32ac3b17 a (mix32 0xa1e38b93 18 0x239b961b s.d k4) in
    record { a = a; b = b; c = c; d = d }

-- Blocks of four words.
unfoldable pub words_x86_128 : Lanes → List ℕ → Lanes
unfolding step_x86_128
words_x86_128 s (k1 ∷ (k2 ∷ (k3 ∷ (k4 ∷ ks)))) = words_x86_128 (step_x86_128 s k1 k2 k3 k4) ks
words_x86_128 s _ = s

unfoldable pub tail_x86_128 : Lanes → List ℕ → Lanes
unfolding mix32 tail32
tail_x86_128 s tail = record {
  a = tail_mix32 4 0 0x239b961b 15 0xab0e9789 s.a tail;
  b = tail_mix32 4 4 0xab0e9789 16 0x38b34ae5 s.b tail;
  c = tail_mix32 4 8 0x38b34ae5 17 0xa1e38b93 s.c tail;
  d = tail_mix32 3 12 0xa1e38b93 18 0x239b961b s.d tail;
}

-- `h1 += h2; h1 += h3; h1 += h4; h2 += h1; h3 += h1; h4 += h1`
unfoldable pub join_lanes : Lanes → Lanes
join_lanes s =
    let a = u32 (u32 (u32 (s.a + s.b) + s.c) + s.d) in
    record { a = a; b = u32 (s.b + a); c = u32 (s.c + a); d = u32 (s.d + a) }

unfoldable pub murmurhash3_x86_128 : List ℕ → ℕ → Lanes
unfolding words_x86_128 tail_x86_128 join_lanes fmix32
murmurhash3_x86_128 key seed =
    let len = length key in
    let start : Lanes = record { a = seed; b = seed; c = seed; d = seed } in
    let body = words_x86_128 start (load_words 4 (len / 16 * 4) key) in
    let s = tail_x86_128 body (drop (len / 16 * 16) key) in
    let t = join_lanes (record {
      a = bit_xor s.a len;
      b = bit_xor s.b len;
      c = bit_xor s.c len;
      d = bit_xor s.d len;
    }) in
    join_lanes (record { a = fmix32 t.a; b = fmix32 t.b; c = fmix32 t.c; d = fmix32 t.d })

-- `h = ROTL64(h, r); h += other; h = h*5+add`
unfoldable pub turn64 : (r add other h : ℕ) → ℕ
turn64 r add other h = u64 (mul64 (u64 (rotl64 h r + other)) 5 + add)

unfoldable pub step_x64_128 : Halves → (k1 k2 : ℕ) → Halves
unfolding mix64 turn64
step_x64_128 s k1 k2 =
    let h1 = turn64 27 0x52dce729 s.h2 (mix64 0x87c37b91114253d5 31 0x4cf5ad432745937f s.h1 k1) in
    let h2 = turn64 31 0x38495ab5 h1 (mix64 0x4cf5ad432745937f 33 0x87c37b91114253d5 s.h2 k2) in
    record { h1 = h1; h2 = h2 }

unfoldable pub words_x64_128 : Halves → List ℕ → Halves
unfolding step_x64_128
words_x64_128 s (k1 ∷ (k2 ∷ ks)) = words_x64_128 (step_x64_128 s k1 k2) ks
words_x64_128 s _ = s

unfoldable pub tail_x64_128 : Halves → List ℕ → Halves
unfolding mix64 tail64
tail_x64_128 s tail = record {
  h1 = tail_mix64 8 0 0x87c37b91114253d5 31 0x4cf5ad432745937f s.h1 tail;
  h2 = tail_mix64 7 8 0x4cf5ad432745937f 33 0x87c37b91114253d5 s.h2 tail;
}

-- `h1 += h2; h2 += h1`
unfoldable pub join_halves : Halves → Halves
join_halves s = let h1 = u64 (s.h1 + s.h2) in record { h1 = h1; h2 = u64 (s.h2 + h1) }

unfoldable pub murmurhash3_x64_128 : List ℕ → ℕ → Halves
unfolding words_x64_128 tail_x64_128 join_halves fmix64
murmurhash3_x64_128 key seed =
    let len = length key in
    let body = words_x64_128 (record { h1 = seed; h2 = seed }) (load_words 8 (len / 16 * 2) key) in
    let s = tail_x64_128 body (drop (len / 16 * 16) key) in
    let t = join_halves (record { h1 = bit_xor s.h1 len; h2 = bit_xor s.h2 len }) in
    join_halves (record { h1 = fmix64 t.h1; h2 = fmix64 t.h2 })
