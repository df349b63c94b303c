-- ===== src/Digest/Fill.antt =====
-- The loops that fill an array in ascending order: the array satisfies the recurrence that its
-- entries are stored by.
use mg_std.Base.{
  ℕ, zero, suc, ◌+◌, ◌≤◌, ◌<◌, ◌≡◌, ◌≢◌, refl, ap, ◌∙◌, sym, ◌⊎◌, inl, inr, List, [], ◌∷◌, arith,
  length, get_or, set, length-set,
}
use mg_std.Digest.Load.{fill}

get_or-set_self : (w : List ℕ) (i v : ℕ) → i < length w → get_or (set w i v) i 0 ≡ v
get_or-set_self [] i v h = absurd (omega arith)
get_or-set_self (x ∷ w) zero v h = refl
get_or-set_self (x ∷ w) (suc i) v h = get_or-set_self w i v (omega arith)

get_or-set_ne : (w : List ℕ) (i j v : ℕ) → i ≢ j → get_or (set w i v) j 0 ≡ get_or w j 0
get_or-set_ne [] i j v h = refl
get_or-set_ne (x ∷ w) zero zero v h = absurd (h refl)
get_or-set_ne (x ∷ w) zero (suc j) v h = refl
get_or-set_ne (x ∷ w) (suc i) zero v h = refl
get_or-set_ne (x ∷ w) (suc i) (suc j) v h = get_or-set_ne w i j v (λ e. h (ap suc e))

pub length-fill : (f : List ℕ → ℕ → ℕ) (n i : ℕ) (w : List ℕ) → length (fill f n i w) ≡ length w
unfolding fill
length-fill f zero i w = refl
length-fill f (suc n) i w = length-fill f n (i + 1) (set w i (f w i)) ∙ length-set w i (f w i)

-- What is stored at an index reads only the entries below it.
abbrev pub ReadsBelow : (List ℕ → ℕ → ℕ) → Type 0
ReadsBelow f =
    (w w' : List ℕ) (i : ℕ) → ((j : ℕ) → j < i → get_or w j 0 ≡ get_or w' j 0) → f w i ≡ f w' i

-- Entries outside the range of the loop stay.
pub fill_outside :
    (f : List ℕ → ℕ → ℕ) (n i j : ℕ) (w : List ℕ)
    → (j < i) ⊎ (i + n ≤ j)
    → get_or (fill f n i w) j 0 ≡ get_or w j 0
unfolding fill
fill_outside f zero i j w h = refl
fill_outside f (suc n) i j w h =
    fill_outside f n (i + 1) j (set w i (f w i)) (omega arith)
    ∙ get_or-set_ne w i j (f w i) (omega arith)

-- Every entry of the range is the one that the loop body asks for in the finished array.
pub fill_inside :
    (f : List ℕ → ℕ → ℕ) (n i j : ℕ) (w : List ℕ)
    → ReadsBelow f
    → i ≤ j
    → j < i + n
    → i + n ≤ length w
    → get_or (fill f n i w) j 0 ≡ f (fill f n i w) j
unfolding fill
fill_inside f zero i j w b lo hi len = absurd (omega arith)
fill_inside f (suc n) i j w b lo hi len = elim cases [
  | inl here ↦ rw here (
      fill_outside f n (i + 1) i next (inl (omega arith))
      ∙ get_or-set_self w i (f w i) (omega arith)
      ∙ b w (fill f n (i + 1) next) i (λ k p. sym (
          fill_outside f n (i + 1) k next (inl (omega arith))
          ∙ get_or-set_ne w i k (f w i) (omega arith))))
  | inr later ↦
      fill_inside f n (i + 1) j next b later (omega arith) (omega (arith, length-set w i (f w i)))
]
  where
    next : List ℕ
    next = set w i (f w i)

    cases : (j ≡ i) ⊎ (i + 1 ≤ j)
    cases = omega arith
