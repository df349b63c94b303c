-- ===== src/Base/Tally.antt =====
-- How often a number stands in a list.
use Prim.Native.Nat.{ℕ, ◌+◌}
use mathlib.Core.Path.{◌≡◌}
use mathlib.Core.Bool.{Bool, true, false}
use mathlib.Core.List.{List, [], ◌∷◌, ◌++◌}
use native.Mathlib.Omega.{arith}
use mg_std.Base.Tests.{◌==◌}

abbrev pub one_if : Bool → ℕ
one_if true = 1
one_if false = 0

abbrev pub tally : ℕ → List ℕ → ℕ
tally p [] = 0
tally p (q ∷ qs) = one_if (p == q) + tally p qs

pub tally-append : (p : ℕ) (xs ys : List ℕ) → tally p (xs ++ ys) ≡ tally p xs + tally p ys
tally-append p [] ys = omega arith
tally-append p (x ∷ xs) ys = omega (arith, tally-append p xs ys)
