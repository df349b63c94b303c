-- ===== src/Bits/Xor.antt =====
-- Laws of exclusive or at variables, digit by digit.
use Prim.Native.Nat.{differ, bit_xor-bitwise}
use native.Mathlib.Nat.{pow-suc}
use mg_std.Base.{
  ℕ, zero, suc, ◌+◌, ◌*◌, ◌/◌, ◌%◌, ◌^◌, ◌≤◌, ◌<◌, bit_xor, ◌≡◌, refl, ap, ◌∙◌, sym, arith,
}
use mg_std.Bits.{half_digits, double}

differ_bits : (x y : ℕ) → x < 2 → y < 2 → differ x y ≡ (x + y) % 2
differ_bits zero y h g = omega arith
differ_bits (suc zero) zero h g = refl
differ_bits (suc zero) (suc zero) h g = refl
differ_bits (suc zero) (suc (suc y)) h g = absurd (omega arith)
differ_bits (suc (suc x)) y h g = absurd (omega arith)

half_step : (a b : ℕ) → bit_xor a b ≡ bit_xor (a / 2) (b / 2) * 2 + differ (a % 2) (b % 2)
half_step zero b = simp bit_xor-bitwise (omega arith)
half_step (suc a) b = simp bit_xor-bitwise (half_digits (λ y. y) differ a b)

-- The lowest digit is the sum of the digits, modulo 2.
pub bit_xor-half : (a b : ℕ) → bit_xor a b ≡ bit_xor (a / 2) (b / 2) * 2 + (a + b) % 2
bit_xor-half a b =
    half_step a b ∙ omega (arith, differ_bits (a % 2) (b % 2) (omega arith) (omega arith))

pub bit_xor-div : (a b : ℕ) → bit_xor a b / 2 ≡ bit_xor (a / 2) (b / 2)
bit_xor-div a b = omega (arith, bit_xor-half a b)

pub bit_xor-mod : (a b : ℕ) → bit_xor a b % 2 ≡ (a + b) % 2
bit_xor-mod a b = omega (arith, bit_xor-half a b)

pub zero-bit_xor : (b : ℕ) → bit_xor 0 b ≡ b
zero-bit_xor b = bit_xor-bitwise 0 b

comm_upto : (n a b : ℕ) → a ≤ n → b ≤ n → bit_xor a b ≡ bit_xor b a
comm_upto zero zero zero h g = refl
comm_upto zero (suc a) b h g = absurd (omega arith)
comm_upto zero zero (suc b) h g = absurd (omega arith)
comm_upto (suc n) a b h g = omega (
  arith,
  bit_xor-half a b,
  bit_xor-half b a,
  comm_upto n (a / 2) (b / 2) (omega arith) (omega arith),
)

pub bit_xor_comm : (a b : ℕ) → bit_xor a b ≡ bit_xor b a
bit_xor_comm a b = comm_upto (a + b) a b (omega arith) (omega arith)

pub bit_xor-zero : (a : ℕ) → bit_xor a 0 ≡ a
bit_xor-zero a = bit_xor_comm a 0 ∙ zero-bit_xor a

assoc_upto :
    (n a b c : ℕ) → a ≤ n → b ≤ n → c ≤ n → bit_xor (bit_xor a b) c ≡ bit_xor a (bit_xor b c)
assoc_upto zero zero b c h g k = rw (zero-bit_xor b) (sym (zero-bit_xor (bit_xor b c)))
assoc_upto zero (suc a) b c h g k = absurd (omega arith)
assoc_upto (suc n) a b c h g k = omega (
  arith,
  bit_xor-half (bit_xor a b) c,
  ap (λ (t : ℕ). bit_xor t (c / 2)) (bit_xor-div a b),
  bit_xor-half a (bit_xor b c),
  ap (bit_xor (a / 2)) (bit_xor-div b c),
  bit_xor-mod a b,
  bit_xor-mod b c,
  assoc_upto n (a / 2) (b / 2) (c / 2) (omega arith) (omega arith) (omega arith),
)

pub bit_xor_assoc : (a b c : ℕ) → bit_xor (bit_xor a b) c ≡ bit_xor a (bit_xor b c)
bit_xor_assoc a b c = assoc_upto (a + b + c) a b c (omega arith) (omega arith) (omega arith)

self_upto : (n a : ℕ) → a ≤ n → bit_xor a a ≡ 0
self_upto zero zero h = refl
self_upto zero (suc a) h = absurd (omega arith)
self_upto (suc n) a h = omega (arith, bit_xor-half a a, self_upto n (a / 2) (omega arith))

pub bit_xor_self : (a : ℕ) → bit_xor a a ≡ 0
bit_xor_self a = self_upto a a (omega arith)

-- Exclusive or acts on the bits from bit `k` on and on those below it apart.
pub bit_xor_fields :
    (k p q c d : ℕ)
    → c < 2 ^ k
    → d < 2 ^ k
    → bit_xor (p * 2 ^ k + c) (q * 2 ^ k + d) ≡ bit_xor p q * 2 ^ k + bit_xor c d
bit_xor_fields zero p q zero zero h g = ground (arith, bit_xor-zero 0)
bit_xor_fields zero p q (suc c) d h g = absurd (omega arith)
bit_xor_fields zero p q zero (suc d) h g = absurd (omega arith)
bit_xor_fields (suc k) p q c d h g = ground (
  arith,
  bit_xor-half (p * 2 ^ suc k + c) (q * 2 ^ suc k + d),
  bit_xor-half c d,
  double p k,
  double q k,
  double (bit_xor p q) k,
  bit_xor_fields k p q (c / 2) (d / 2) (omega (arith, pow-suc 2 k)) (omega (arith, pow-suc 2 k)),
)

pub bit_xor-lt : (k a b : ℕ) → a < 2 ^ k → b < 2 ^ k → bit_xor a b < 2 ^ k
bit_xor-lt zero zero zero h g = omega arith
bit_xor-lt zero (suc a) b h g = absurd (omega arith)
bit_xor-lt zero zero (suc b) h g = absurd (omega arith)
bit_xor-lt (suc k) a b h g = omega (
  arith,
  pow-suc 2 k,
  bit_xor-half a b,
  bit_xor-lt k (a / 2) (b / 2) (omega (arith, pow-suc 2 k)) (omega (arith, pow-suc 2 k)),
)
