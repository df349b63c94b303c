-- ===== src/Bits.antt =====
-- Bit operations on disjoint fields as arithmetic, at every position and width: what the shifts,
-- masks and ors of the hash functions under src/ come to.
pub mod Xor
use Prim.Native.Nat.{digits, bitwise, bit_and-bitwise, bit_or-bitwise}
use native.Mathlib.Nat.{pow-suc, div-div-eq-div-mul, le_refl, mul_comm}
use mg_std.Base.{
  ℕ, zero, suc, ◌+◌, ◌-◌, ◌*◌, ◌/◌, ◌%◌, ◌^◌, ◌≤◌, ◌<◌, min, max, bit_and, bit_or, ◌≡◌, refl, ap,
  ◌∙◌, sym, arith, two-pow-pos, mod-two-mul,
}

-- `bitwise` runs on fuel, its first argument; any fuel from there on gives the same.
module _ (on_zero : ℕ → ℕ) (digit : ℕ → ℕ → ℕ) where
  same_digits :
      (n k a b : ℕ) → a ≤ n → a ≤ k → digits on_zero digit n a b ≡ digits on_zero digit k a b
  same_digits zero zero a b h g = refl
  same_digits zero (suc k) zero b h g = refl
  same_digits zero (suc k) (suc a) b h g = absurd (omega arith)
  same_digits (suc n) zero zero b h g = refl
  same_digits (suc n) zero (suc a) b h g = absurd (omega arith)
  same_digits (suc n) (suc k) zero b h g = refl
  same_digits (suc n) (suc k) (suc a) b h g =
      ap (λ (t : ℕ). t * 2 + digit (suc a % 2) (b % 2))
        (same_digits n k (suc a / 2) (b / 2) (omega arith) (omega arith))

  half_digits :
      (a b : ℕ)
      → bitwise on_zero digit (suc a) b
        ≡ bitwise on_zero digit (suc a / 2) (b / 2) * 2 + digit (suc a % 2) (b % 2)
  half_digits a b =
      ap (λ (t : ℕ). t * 2 + digit (suc a % 2) (b % 2))
        (same_digits a (suc a / 2) (suc a / 2) (b / 2) (omega arith) (le_refl _))

pub bit_or-half : (a b : ℕ) → bit_or a b ≡ bit_or (a / 2) (b / 2) * 2 + max (a % 2) (b % 2)
bit_or-half zero b = simp bit_or-bitwise (omega arith)
bit_or-half (suc a) b = simp bit_or-bitwise (half_digits (λ y. y) max a b)

pub bit_and-half : (a b : ℕ) → bit_and a b ≡ bit_and (a / 2) (b / 2) * 2 + min (a % 2) (b % 2)
bit_and-half zero b = simp bit_and-bitwise (omega arith)
bit_and-half (suc a) b = simp bit_and-bitwise (half_digits (λ y. zero) min a b)

bit_or-zero_upto : (n a : ℕ) → a ≤ n → bit_or a 0 ≡ a
bit_or-zero_upto n zero h = refl
bit_or-zero_upto zero (suc a) h = absurd (omega arith)
bit_or-zero_upto (suc n) (suc a) h =
    omega (arith, bit_or-half (suc a) 0, bit_or-zero_upto n (suc a / 2) (omega arith))

bit_and-zero_upto : (n a : ℕ) → a ≤ n → bit_and a 0 ≡ 0
bit_and-zero_upto n zero h = refl
bit_and-zero_upto zero (suc a) h = absurd (omega arith)
bit_and-zero_upto (suc n) (suc a) h =
    omega (arith, bit_and-half (suc a) 0, bit_and-zero_upto n (suc a / 2) (omega arith))

pub double : (p k : ℕ) → p * 2 ^ suc k ≡ 2 * (p * 2 ^ k)
double p k = omega (arith, ap (λ (t : ℕ). p * t) (pow-suc 2 k))

-- Or with a field of `j` bits into the gap above bit `k`.
pub or_low : (j p c : ℕ) → c < 2 ^ j → bit_or (p * 2 ^ j) c ≡ p * 2 ^ j + c
or_low zero p c h = ground (arith, bit_or-zero_upto p p)
or_low (suc j) p c h = ground (
  arith,
  bit_or-half (p * 2 ^ suc j) c,
  double p j,
  pow-suc 2 j,
  or_low j p (c / 2) (omega (arith, pow-suc 2 j)),
)

-- `c` fills the `j` bits from bit `k` on, which are free between `q` below and `p` above.
pub bit_or_gap :
    (k j p c q : ℕ)
    → q < 2 ^ k
    → c < 2 ^ j
    → bit_or (p * 2 ^ j * 2 ^ k + q) (c * 2 ^ k) ≡ p * 2 ^ j * 2 ^ k + c * 2 ^ k + q
bit_or_gap zero j p c q h g = ground (arith, or_low j p c)
bit_or_gap (suc k) j p c q h g = ground (
  arith,
  bit_or-half (p * 2 ^ j * 2 ^ suc k + q) (c * 2 ^ suc k),
  double (p * 2 ^ j) k,
  double c k,
  pow-suc 2 k,
  bit_or_gap k j p c (q / 2) (omega (arith, pow-suc 2 k)) g,
)

and_low : (j x : ℕ) → bit_and x (2 ^ j - 1) ≡ x % 2 ^ j
and_low zero x = bit_and-zero_upto x x (le_refl _) ∙ omega arith
and_low (suc j) x = ground (
  arith,
  bit_and-half x (2 ^ suc j - 1),
  pow-suc 2 j,
  two-pow-pos j,
  and_low j (x / 2),
  mod-two-mul x (2 ^ j),
)

-- A mask of `j` bits from bit `k` on.
pub bit_and_field : (k j x : ℕ) → bit_and x ((2 ^ j - 1) * 2 ^ k) ≡ x / 2 ^ k % 2 ^ j * 2 ^ k
bit_and_field zero j x =
    ap (bit_and x) {x = (2 ^ j - 1) * 2 ^ 0} {y = 2 ^ j - 1} (omega arith)
    ∙ and_low j x
    ∙ ap (λ (t : ℕ). t % 2 ^ j) {x = x} {y = x / 2 ^ 0} (omega arith)
    ∙ omega arith
bit_and_field (suc k) j x =
    let halves : x / 2 ^ suc k ≡ x / 2 / 2 ^ k =
      ap (λ (t : ℕ). x / t) (pow-suc 2 k ∙ mul_comm (2 ^ k) 2)
      ∙ sym (div-div-eq-div-mul x 2 (2 ^ k)) in
    bit_and-half x ((2 ^ j - 1) * 2 ^ suc k)
    ∙ ground (arith, double (2 ^ j - 1) k, bit_and_field k j (x / 2))
    ∙ sym (double (x / 2 / 2 ^ k % 2 ^ j) k)
    ∙ ap (λ (t : ℕ). t % 2 ^ j * 2 ^ suc k) (sym halves)
