-- ===== src/Base/Arith.antt =====
-- Facts about quotients and remainders that the arithmetic tactics do not have.
use Prim.Native.Nat.{ℕ, ◌+◌, ◌*◌, ◌/◌, ◌%◌, ◌^◌, ◌<◌}
use mathlib.Core.Path.{◌≡◌, ◌∙◌}
use native.Mathlib.Nat.{div-eq_of_lt-le, mod-eq-sub-mul-div, div-add-mod', mod-lt, one-le-pow}
use native.Mathlib.Omega.{arith}

-- Quotient and remainder from the equation that determines them.
pub div-mod_of_eq :
    (n block q r : ℕ) → n ≡ q * block + r → r < block → (n / block ≡ q) × (n % block ≡ r)
div-mod_of_eq n block q r e h =
    let d : n / block ≡ q = div-eq_of_lt-le {k = q} block (omega arith) (omega arith) in
    (d, mod-eq-sub-mul-div n block ∙ rw d (omega arith))

pub two-pow-pos : (k : ℕ) → 0 < 2 ^ k
two-pow-pos k = omega (arith, one-le-pow k 2)

-- The lowest digit of a remainder.
pub mod-two-mul : (x m : ℕ) → 0 < m → x % (2 * m) ≡ x / 2 % m * 2 + x % 2
mod-two-mul x m h =
    (div-mod_of_eq x (2 * m) (x / 2 / m) (x / 2 % m * 2 + x % 2)
      (omega (arith, div-add-mod' (x / 2) m)) (omega (arith, mod-lt (x / 2) h))).1
