-- ===== src/Mgstack/Tests.antt =====
-- Runs of src/mgstack.c on a stack with one element and room for one more.
use mg_std.Base.{◌+◌, ◌-◌, ◌<◌, ℕ, length, some, ◌≡◌, refl, ◌⊎◌, true, false, [], ◌∷◌, arith}
use mg_std.Mgstack.{Stack, push, pop}
use mg_std.Fastsort.{by_element}
use mg_std.Fastsort.Order.{Swaps}
use mg_std.Fastsort.Laws.{IsSorted}
use mg_std.Fastsort.Numbers.{difference, difference-IsOrder}
use mg_std.Mgstack.Sort.{mg_stack_swap, stack_ptr_comp, mg_stack_sort}
use mg_std.Mgstack.Sorted.{cell, mg_stack_sort-IsSorted, mg_stack_sort-rotates}
use mg_std.Mgstack.Laws.{IsValid, accepts, Pushed, Refused, Popped, push_outcome, pop_outcome}

abbrev one : Stack
one = record { data_num = 1; alloc_num = 2; sorted = false; limited = true; slots = 5 ∷ (0 ∷ []) }

abbrev one_valid : IsValid one
one_valid = record { sized = refl; room = omega arith; some_room = omega arith }

push_outcome_example :
    ((accepts (λ n. true) (λ n. 0) one 6 ≡ true)
      × Pushed (λ n. true) (λ n. 0) one 6 (push (λ n. true) (λ n. 0) one 6))
    ⊎ ((accepts (λ n. true) (λ n. 0) one 6 ≡ false)
        × Refused (λ n. true) (λ n. 0) one (push (λ n. true) (λ n. 0) one 6))
push_outcome_example = push_outcome (λ n. true) (λ n. 0) one 6 one_valid (omega arith)

pop_outcome_example : Popped one (pop one)
pop_outcome_example = pop_outcome one one_valid

abbrev three : Stack
three = record {
  data_num = 3;
  alloc_num = 4;
  sorted = false;
  limited = true;
  slots = 30 ∷ 20 ∷ 10 ∷ 0 ∷ [];
}

mg_stack_sort-IsSorted_example :
    (b : ℕ → ℕ) × (s' : Stack) × (mg_stack_sort (by_element difference) three ≡ some s')
    × (s'.data_num ≡ 3)
    × (s'.sorted ≡ true)
    × (length s'.slots ≡ 4)
    × ((k : ℕ) → k < 4 → cell s' k ≡ b k)
    × Swaps mg_stack_swap 0 3 (cell three) b
    × IsSorted difference mg_stack_swap 0 3 b
mg_stack_sort-IsSorted_example =
    mg_stack_sort-IsSorted difference difference-IsOrder three (omega arith) (omega arith) refl

-- The default comparison leaves 20, 10, 30.
mg_stack_sort-rotates_example :
    (s' : Stack) × (mg_stack_sort stack_ptr_comp three ≡ some s')
    × (s'.data_num ≡ 3)
    × (s'.sorted ≡ true)
    × ((k : ℕ) → k + 1 < 3 → cell s' k ≡ cell three (k + 1))
    × (cell s' (3 - 1) ≡ cell three 0)
mg_stack_sort-rotates_example = mg_stack_sort-rotates three (omega arith) (omega arith) refl
