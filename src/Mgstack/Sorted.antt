-- ===== src/Mgstack/Sorted.antt =====
-- src/mgstack.c: what `mg_stack_sort` leaves, with a comparison that reads the cells it is given,
-- and with `_stack_ptr_comp`, the default.
use mg_std.Base.{
  ℕ, zero, suc, ◌+◌, ◌-◌, ◌*◌, ◌≤◌, ◌<◌, ◌≡◌, refl, ap, ◌∙◌, subst, ℤ, pos, inl, inr, true, false,
  some, arith, Bool-cases, ltb, leb, get_or, length,
}
use mg_std.Fastsort.{not_positive, by_element, mgfastsort}
use mg_std.Fastsort.Order.{IsOrder, Exchanges, Swaps}
use mg_std.Fastsort.Laws.{IsSorted, mgfastsort-IsSorted}
use mg_std.Fastsort.Rotate.{ByAddress, mgfastsort-Rotated}
use mg_std.Mgstack.{Stack}
use mg_std.Mgstack.Sort.{mg_stack_swap, stack_ptr_comp, listed, mg_stack_sort}

pub mg_stack_swap-Exchanges : Exchanges mg_stack_swap
unfolding mg_stack_swap
mg_stack_swap-Exchanges list i j k = refl

get_or-listed : (f : ℕ → ℕ) (n i k : ℕ) → k < n → get_or (listed n i f) k 0 ≡ f (i + k)
get_or-listed f zero i k h = absurd (omega arith)
get_or-listed f (suc n) i zero h = ap f (omega arith)
get_or-listed f (suc n) i (suc k) h = get_or-listed f n (i + 1) k (omega arith) ∙ ap f (omega arith)

get_or-listed_all : (f : ℕ → ℕ) (n k : ℕ) → k < n → get_or (listed n 0 f) k 0 ≡ f k
get_or-listed_all f n k h = get_or-listed f n 0 k h ∙ ap f (omega arith)

length-listed : (f : ℕ → ℕ) (n i : ℕ) → length (listed n i f) ≡ n
length-listed f zero i = refl
length-listed f (suc n) i = ap suc (length-listed f n (i + 1))

-- The cells of a stack by index.
abbrev pub cell : Stack → ℕ → ℕ
cell s k = get_or s.slots k 0

sorted_with :
    (comp : (ℕ → ℕ) → ℕ → ℕ → ℤ) (s : Stack) (b : ℕ → ℕ)
    → 1 < s.data_num
    → s.sorted ≡ false
    → mgfastsort comp mg_stack_swap (cell s) 0 (s.data_num - 1) ≡ some b
    → mg_stack_sort comp s ≡ some (record s { slots = listed (length s.slots) 0 b; sorted = true })
unfolding mg_stack_sort
sorted_with comp s b h fresh runs =
    let more : leb s.data_num 1 ≡ false = ground arith in rw (more, fresh, runs) refl

-- `mg_stack_sort` of a stack that is not marked as sorted, with a comparison that reads the cells
-- that it is given and is an order, returns: the cells in use ascend, they come from the old ones
-- by exchanges among them, and the other cells stay.
pub mg_stack_sort-IsSorted :
    (c : ℕ → ℕ → ℤ)
    → IsOrder c
    → (s : Stack) → 1 < s.data_num
    → s.data_num ≤ length s.slots
    → s.sorted ≡ false
    → (b : ℕ → ℕ) × (s' : Stack) × (mg_stack_sort (by_element c) s ≡ some s')
      × (s'.data_num ≡ s.data_num)
      × (s'.sorted ≡ true)
      × (length s'.slots ≡ length s.slots)
      × ((k : ℕ) → k < length s.slots → cell s' k ≡ b k)
      × Swaps mg_stack_swap 0 s.data_num (cell s) b
      × IsSorted c mg_stack_swap 0 s.data_num b
mg_stack_sort-IsSorted c order s h room fresh =
    let (b, runs, (swaps, sorts)) =
      mgfastsort-IsSorted c mg_stack_swap order mg_stack_swap-Exchanges (cell s) 0
        (s.data_num - 1) in
    let all : s.data_num - 1 + 1 ≡ s.data_num = omega arith in
    (
      b,
      record s { slots = listed (length s.slots) 0 b; sorted = true },
      sorted_with (by_element c) s b h fresh runs,
      refl,
      refl,
      length-listed b (length s.slots) 0,
      get_or-listed_all b (length s.slots),
      subst (λ n. Swaps mg_stack_swap 0 n (cell s) b) all swaps,
      subst (λ n. IsSorted c mg_stack_swap 0 n b) all sorts,
    )

not_positive_pos : (n : ℕ) → not_positive (pos n) ≡ leb n 0
not_positive_pos zero = refl
not_positive_pos (suc n) = ground arith

stack_ptr_comp-ByAddress : ByAddress stack_ptr_comp
unfolding stack_ptr_comp
stack_ptr_comp-ByAddress list i j = elim (Bool-cases (ltb j i)) [
  | inl lt ↦ rw lt (ground arith, ground arith)
  | inr ge ↦ rw ge (not_positive_pos (8 * (j - i)) ∙ ground arith, ground arith)
]

-- `mg_stack_sort` with `_stack_ptr_comp` does not compare elements: whatever they are, each moves
-- one place down and the first one to the end.
pub mg_stack_sort-rotates :
    (s : Stack)
    → 1 < s.data_num
    → s.data_num ≤ length s.slots
    → s.sorted ≡ false
    → (s' : Stack) × (mg_stack_sort stack_ptr_comp s ≡ some s')
      × (s'.data_num ≡ s.data_num)
      × (s'.sorted ≡ true)
      × ((k : ℕ) → k + 1 < s.data_num → cell s' k ≡ cell s (k + 1))
      × (cell s' (s.data_num - 1) ≡ cell s 0)
mg_stack_sort-rotates s h room fresh =
    let (b, runs, (down, at_last, above)) =
      mgfastsort-Rotated stack_ptr_comp stack_ptr_comp-ByAddress mg_stack_swap
        mg_stack_swap-Exchanges (cell s) 0 (s.data_num - 1) (omega arith) in
    let at = get_or-listed_all b (length s.slots) in
    (
      record s { slots = listed (length s.slots) 0 b; sorted = true },
      sorted_with stack_ptr_comp s b h fresh runs,
      refl,
      refl,
      (λ k l. at k (omega arith) ∙ down k (omega arith) (omega arith)),
      at (s.data_num - 1) (omega arith) ∙ at_last,
    )
