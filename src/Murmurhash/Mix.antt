-- ===== src/Murmurhash/Mix.antt =====
-- src/mgmurmurhash.c: the steps that mix one word can be undone.
use mg_std.Base.{
  ℕ, zero, suc, ◌+◌, ◌*◌, ◌/◌, ◌%◌, ◌^◌, ◌<◌, ◌≡◌, ap, ap₂, ◌∙◌, sym, bit_xor, bit_or, arith, u32,
  shl32,
}
use native.Mathlib.Nat.{pow-suc, div-div-eq-div-mul, mul_comm, div-le_self}
use mg_std.Bits.{or_low}
use mg_std.Bits.Xor.{
  bit_xor_comm, bit_xor_assoc, bit_xor_self, bit_xor-zero, zero-bit_xor, bit_xor-div, bit_xor-lt,
}
use mg_std.Murmurhash.{shift_xor, rotl32, mul32, mul64, fmix32}

pub eq_of_xor : (a b : ℕ) → bit_xor a b ≡ 0 → a ≡ b
eq_of_xor a b e =
    sym (bit_xor-zero a)
    ∙ ap (bit_xor a) (sym (bit_xor_self b))
    ∙ sym (bit_xor_assoc a b b)
    ∙ ap (λ (t : ℕ). bit_xor t b) e
    ∙ zero-bit_xor b

pub xor_cancel : (a b c : ℕ) → bit_xor a c ≡ bit_xor b c → a ≡ b
xor_cancel a b c e = sym (undo a) ∙ ap (λ (t : ℕ). bit_xor t c) e ∙ undo b
  where
    undo : (x : ℕ) → bit_xor (bit_xor x c) c ≡ x
    undo x = bit_xor_assoc x c c ∙ ap (bit_xor x) (bit_xor_self c) ∙ bit_xor-zero x

shift : (k x : ℕ) → x / 2 ^ suc k ≡ x / 2 / 2 ^ k
shift k x =
    ap (λ (t : ℕ). x / t) (pow-suc 2 k ∙ mul_comm (2 ^ k) 2) ∙ sym (div-div-eq-div-mul x 2 (2 ^ k))

xor_shift : (k a b : ℕ) → bit_xor a b / 2 ^ k ≡ bit_xor (a / 2 ^ k) (b / 2 ^ k)
xor_shift zero a b = omega (arith, ap₂ bit_xor (half a) (half b))
  where
    half : (x : ℕ) → x / 2 ^ 0 ≡ x
    half x = omega arith
xor_shift (suc k) a b =
    shift k (bit_xor a b)
    ∙ ap (λ (t : ℕ). t / 2 ^ k) (bit_xor-div a b)
    ∙ xor_shift k (a / 2) (b / 2)
    ∙ sym (ap₂ bit_xor (shift k a) (shift k b))

xor_swap : (a b c d : ℕ) → bit_xor (bit_xor a b) (bit_xor c d) ≡ bit_xor (bit_xor a c) (bit_xor b d)
xor_swap a b c d =
    bit_xor_assoc a b (bit_xor c d)
    ∙ ap (bit_xor a) (
        sym (bit_xor_assoc b c d)
        ∙ ap (λ (t : ℕ). bit_xor t d) (bit_xor_comm b c)
        ∙ bit_xor_assoc c b d)
    ∙ sym (bit_xor_assoc a c (bit_xor b d))

-- A number that is its own shift is 0.
zero_of_shift : (r d : ℕ) → d ≡ d / 2 ^ suc r → d ≡ 0
zero_of_shift r d e = omega (arith, shift r d, div-le_self (d / 2) (2 ^ r))

-- `h ^= h >> r` can be undone, for `r` above 0.
pub shift_xor_injective : (r x y : ℕ) → shift_xor (suc r) x ≡ shift_xor (suc r) y → x ≡ y
shift_xor_injective r x y e =
    let d = bit_xor x y in
    let both : bit_xor d (d / 2 ^ suc r) ≡ 0 =
      ap (bit_xor d) (xor_shift (suc r) x y)
      ∙ sym (xor_swap x (x / 2 ^ suc r) y (y / 2 ^ suc r))
      ∙ ap (λ (t : ℕ). bit_xor t (shift_xor (suc r) y)) e
      ∙ bit_xor_self (shift_xor (suc r) y) in
    eq_of_xor x y (zero_of_shift r d (eq_of_xor d (d / 2 ^ suc r) both))

-- What has an inverse below `w` can be undone.
pub undone :
    (f g : ℕ → ℕ) (w : ℕ)
    → ((x : ℕ) → x < w → g (f x) ≡ x)
    → (x y : ℕ) → x < w
    → y < w
    → f x ≡ f y
    → x ≡ y
undone f g w undo x y h k e = sym (undo x h) ∙ ap g e ∙ undo y k

-- Multiplications by odd constants can be undone.
first32_injective :
    (x y : ℕ) → x < 2 ^ 32 → y < 2 ^ 32 → mul32 x 0x85ebca6b ≡ mul32 y 0x85ebca6b → x ≡ y
first32_injective =
    undone (λ x. mul32 x 0x85ebca6b) (λ x. mul32 x 2781581891) (2 ^ 32) (λ x h. omega arith)

second32_injective :
    (x y : ℕ) → x < 2 ^ 32 → y < 2 ^ 32 → mul32 x 0xc2b2ae35 ≡ mul32 y 0xc2b2ae35 → x ≡ y
second32_injective =
    undone (λ x. mul32 x 0xc2b2ae35) (λ x. mul32 x 2127672349) (2 ^ 32) (λ x h. omega arith)

pub five_injective :
    (x y c : ℕ) → x < 2 ^ 32 → y < 2 ^ 32 → u32 (mul32 x 5 + c) ≡ u32 (mul32 y 5 + c) → x ≡ y
five_injective x y c h g e =
    let same : mul32 x 5 ≡ mul32 y 5 = omega arith in
    undone (λ x. mul32 x 5) (λ x. mul32 x 3435973837) (2 ^ 32) (λ x h. omega arith) x y h g same

pub mul64_injective :
    (x y : ℕ)
    → x < 2 ^ 64
    → y < 2 ^ 64
    → mul64 x 0xc6a4a7935bd1e995 ≡ mul64 y 0xc6a4a7935bd1e995
    → x ≡ y
mul64_injective =
    undone (λ x. mul64 x 0xc6a4a7935bd1e995) (λ x. mul64 x 6879827495036328381) (2 ^ 64)
      (λ x h. omega arith)

pub shift_xor-lt : (k r x : ℕ) → x < 2 ^ k → shift_xor r x < 2 ^ k
shift_xor-lt k r x h = bit_xor-lt k x (x / 2 ^ r) h (omega (arith, div-le_self x (2 ^ r)))

-- The finaliser gives different results for different words.
pub fmix32_injective : (x y : ℕ) → x < 2 ^ 32 → y < 2 ^ 32 → fmix32 x ≡ fmix32 y → x ≡ y
unfolding fmix32
fmix32_injective x y h g e =
    let x1 = shift_xor 16 x in
    let y1 = shift_xor 16 y in
    let x2 = mul32 x1 0x85ebca6b in
    let y2 = mul32 y1 0x85ebca6b in
    let x3 = shift_xor 13 x2 in
    let y3 = shift_xor 13 y2 in
    let last = shift_xor_injective 15 (mul32 x3 0xc2b2ae35) (mul32 y3 0xc2b2ae35) e in
    let mid =
      second32_injective x3 y3 (shift_xor-lt 32 13 x2 (omega arith))
        (shift_xor-lt 32 13 y2 (omega arith)) last in
    shift_xor_injective 15 x y (
      first32_injective x1 y1 (shift_xor-lt 32 16 x h) (shift_xor-lt 32 16 y g)
        (shift_xor_injective 12 x2 y2 mid))

-- A rotation by 13 moves the upper 19 bits below the lower 13.
rotl32_13 : (x : ℕ) → x < 2 ^ 32 → rotl32 x 13 ≡ x % 2 ^ 19 * 2 ^ 13 + x / 2 ^ 19
unfolding rotl32
rotl32_13 x h =
    ap (λ (t : ℕ). bit_or t (x / 2 ^ 19)) {x = shl32 x 13} {y = x % 2 ^ 19 * 2 ^ 13} (omega arith)
    ∙ or_low 13 (x % 2 ^ 19) (x / 2 ^ 19) (omega arith)

pub rotl32_13-lt : (x : ℕ) → x < 2 ^ 32 → rotl32 x 13 < 2 ^ 32
rotl32_13-lt x h = omega (arith, rotl32_13 x h)

pub rotl32_13_injective : (x y : ℕ) → x < 2 ^ 32 → y < 2 ^ 32 → rotl32 x 13 ≡ rotl32 y 13 → x ≡ y
rotl32_13_injective x y h g e = omega (arith, rotl32_13 x h, rotl32_13 y g)
