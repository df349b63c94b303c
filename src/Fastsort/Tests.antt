-- ===== src/Fastsort/Tests.antt =====
-- src/mgfastsort.c: a run, and numbers as the elements.
use mg_std.Base.{ℕ, zero, suc, ◌≡◌, refl, Option, none, some, List, [], ◌∷◌, ◌==◌, if◌then◌else◌}
use mg_std.Fastsort.{by_element, mgfastsort, sort, partition, scan_up, scan_down}
use mg_std.Fastsort.Numbers.{difference, difference-IsOrder}
use mg_std.Fastsort.Laws.{Sorts, mgfastsort-IsSorted}

abbrev exchange : (ℕ → ℕ) → ℕ → ℕ → (ℕ → ℕ)
exchange list i j k = if k == i then list j else if k == j then list i else list k

abbrev mixed : ℕ → ℕ
mixed zero = 3
mixed (suc zero) = 5
mixed (suc (suc zero)) = 1
mixed (suc (suc (suc zero))) = 5
mixed (suc (suc (suc (suc n)))) = 2

mgfastsort-IsSorted_example :
    (b : ℕ → ℕ) × (mgfastsort (by_element difference) exchange mixed 0 4 ≡ some b)
    × Sorts difference exchange 0 5 mixed b
mgfastsort-IsSorted_example =
    mgfastsort-IsSorted difference exchange difference-IsOrder (λ list i j k. refl) mixed 0 4

-- The cells of the result of a run, 3, 5, 1, 5, 2 before it.
abbrev cells_of : Option (ℕ → ℕ) → List ℕ
cells_of none = []
cells_of (some b) = b 0 ∷ b 1 ∷ b 2 ∷ b 3 ∷ b 4 ∷ []

sorts_mixed :
    cells_of (mgfastsort (by_element difference) exchange mixed 0 4) ≡ 1 ∷ 2 ∷ 3 ∷ 5 ∷ 5 ∷ []
unfolding mgfastsort sort partition scan_up scan_down
sorts_mixed = refl
