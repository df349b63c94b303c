-- ===== src/Murmurhash/Mix64.antt =====
-- src/mgmurmurhash.c: the steps that mix one word of 64 bits can be undone.
use mg_std.Base.{ℕ, ◌+◌, ◌*◌, ◌/◌, ◌%◌, ◌^◌, ◌<◌, ◌≡◌, ap, ◌∙◌, bit_or, arith, u64, shl64}
use mg_std.Bits.{or_low}
use mg_std.Bits.Xor.{bit_xor-lt}
use mg_std.Murmurhash.{shift_xor, rotl64, mul64, mix64, fmix64}
use mg_std.Murmurhash.Mix.{undone, xor_cancel, shift_xor_injective, shift_xor-lt}
use mg_std.Murmurhash.Wide.{turn64}

first64_injective :
    (x y : ℕ)
    → x < 2 ^ 64
    → y < 2 ^ 64
    → mul64 x 0xff51afd7ed558ccd ≡ mul64 y 0xff51afd7ed558ccd
    → x ≡ y
first64_injective =
    undone (λ x. mul64 x 0xff51afd7ed558ccd) (λ x. mul64 x 5725274745694666757) (2 ^ 64)
      (λ x h. omega arith)

second64_injective :
    (x y : ℕ)
    → x < 2 ^ 64
    → y < 2 ^ 64
    → mul64 x 0xc4ceb9fe1a85ec53 ≡ mul64 y 0xc4ceb9fe1a85ec53
    → x ≡ y
second64_injective =
    undone (λ x. mul64 x 0xc4ceb9fe1a85ec53) (λ x. mul64 x 11291846944257947611) (2 ^ 64)
      (λ x h. omega arith)

five64_injective :
    (x y c : ℕ) → x < 2 ^ 64 → y < 2 ^ 64 → u64 (mul64 x 5 + c) ≡ u64 (mul64 y 5 + c) → x ≡ y
five64_injective x y c h g e =
    let same : mul64 x 5 ≡ mul64 y 5 = omega arith in
    undone (λ x. mul64 x 5) (λ x. mul64 x 14757395258967641293) (2 ^ 64) (λ x h. omega arith) x y h
      g same

pub fmix64-lt : (x : ℕ) → fmix64 x < 2 ^ 64
unfolding fmix64
fmix64-lt x =
    let x3 = shift_xor 33 (mul64 (shift_xor 33 x) 0xff51afd7ed558ccd) in
    shift_xor-lt 64 33 (mul64 x3 0xc4ceb9fe1a85ec53) (omega arith)

pub fmix64_injective : (x y : ℕ) → x < 2 ^ 64 → y < 2 ^ 64 → fmix64 x ≡ fmix64 y → x ≡ y
unfolding fmix64
fmix64_injective x y h g e =
    let x1 = shift_xor 33 x in
    let y1 = shift_xor 33 y in
    let x2 = mul64 x1 0xff51afd7ed558ccd in
    let y2 = mul64 y1 0xff51afd7ed558ccd in
    let x3 = shift_xor 33 x2 in
    let y3 = shift_xor 33 y2 in
    let last =
      shift_xor_injective 32 (mul64 x3 0xc4ceb9fe1a85ec53) (mul64 y3 0xc4ceb9fe1a85ec53) e in
    let mid =
      second64_injective x3 y3 (shift_xor-lt 64 33 x2 (omega arith))
        (shift_xor-lt 64 33 y2 (omega arith)) last in
    shift_xor_injective 32 x y (
      first64_injective x1 y1 (shift_xor-lt 64 33 x h) (shift_xor-lt 64 33 y g)
        (shift_xor_injective 32 x2 y2 mid))

-- The rotations of the two halves.
rotl64_27 : (x : ℕ) → x < 2 ^ 64 → rotl64 x 27 ≡ x % 2 ^ 37 * 2 ^ 27 + x / 2 ^ 37
unfolding rotl64
rotl64_27 x h =
    ap (λ (t : ℕ). bit_or t (x / 2 ^ 37)) {x = shl64 x 27} {y = x % 2 ^ 37 * 2 ^ 27} (omega arith)
    ∙ or_low 27 (x % 2 ^ 37) (x / 2 ^ 37) (omega arith)

rotl64_31 : (x : ℕ) → x < 2 ^ 64 → rotl64 x 31 ≡ x % 2 ^ 33 * 2 ^ 31 + x / 2 ^ 33
unfolding rotl64
rotl64_31 x h =
    ap (λ (t : ℕ). bit_or t (x / 2 ^ 33)) {x = shl64 x 31} {y = x % 2 ^ 33 * 2 ^ 31} (omega arith)
    ∙ or_low 31 (x % 2 ^ 33) (x / 2 ^ 33) (omega arith)

rotl64_27-lt : (x : ℕ) → x < 2 ^ 64 → rotl64 x 27 < 2 ^ 64
rotl64_27-lt x h = omega (arith, rotl64_27 x h)

rotl64_31-lt : (x : ℕ) → x < 2 ^ 64 → rotl64 x 31 < 2 ^ 64
rotl64_31-lt x h = omega (arith, rotl64_31 x h)

pub turn64-lt : (r add other h : ℕ) → turn64 r add other h < 2 ^ 64
unfolding turn64
turn64-lt r add other h = omega arith

-- With the other half fixed, a turn gives back what was rotated.
turn64_undone :
    (r add other x y : ℕ)
    → rotl64 x r < 2 ^ 64
    → rotl64 y r < 2 ^ 64
    → turn64 r add other x ≡ turn64 r add other y
    → rotl64 x r ≡ rotl64 y r
unfolding turn64
turn64_undone r add other x y h g e =
    let sx = u64 (rotl64 x r + other) in
    let sy = u64 (rotl64 y r + other) in
    let sums : sx ≡ sy = five64_injective sx sy add (omega arith) (omega arith) e in omega arith

pub turn64_27_injective :
    (add other x y : ℕ)
    → x < 2 ^ 64
    → y < 2 ^ 64
    → turn64 27 add other x ≡ turn64 27 add other y
    → x ≡ y
turn64_27_injective add other x y h g e =
    let same = turn64_undone 27 add other x y (rotl64_27-lt x h) (rotl64_27-lt y g) e in
    omega (arith, rotl64_27 x h, rotl64_27 y g)

pub turn64_31_injective :
    (add other x y : ℕ)
    → x < 2 ^ 64
    → y < 2 ^ 64
    → turn64 31 add other x ≡ turn64 31 add other y
    → x ≡ y
turn64_31_injective add other x y h g e =
    let same = turn64_undone 31 add other x y (rotl64_31-lt x h) (rotl64_31-lt y g) e in
    omega (arith, rotl64_31 x h, rotl64_31 y g)

pub mix64-lt : (c r d h k : ℕ) → h < 2 ^ 64 → mix64 c r d h k < 2 ^ 64
unfolding mix64
mix64-lt c r d h k l = bit_xor-lt 64 h (mul64 (rotl64 (mul64 k c) r) d) l (omega arith)

pub mix64_injective : (c r d x y k : ℕ) → mix64 c r d x k ≡ mix64 c r d y k → x ≡ y
unfolding mix64
mix64_injective c r d x y k e = xor_cancel x y (mul64 (rotl64 (mul64 k c) r) d) e
