-- ===== src/Mgstack/Sort.antt =====
-- src/mgstack.c: `mg_stack_sort` of the quicksort, which `USE_FAST_SORT` selects. mgfastsort gives
-- the comparison pointers to two cells of the array `data`, whatever the stack's `comp` expects.
use mg_std.Base.{
  ℕ, zero, suc, ◌+◌, ◌-◌, ◌*◌, ℤ, pos, negsuc, true, Option, some, List, [], ◌∷◌, ◌==◌, ◌||◌, ltb,
  leb, if◌then◌else◌, get_or, length,
}
use mg_std.Fastsort.{and_then, mgfastsort}
use mg_std.Mgstack.{Stack}

unfoldable pub mg_stack_swap : (ℕ → ℕ) → ℕ → ℕ → (ℕ → ℕ)
mg_stack_swap list i j k = if k == i then list j else if k == j then list i else list k

-- `_stack_ptr_comp`: `data2 - data1`, of the addresses of the cells `i` and `j`.
unfoldable pub stack_ptr_comp : (ℕ → ℕ) → ℕ → ℕ → ℤ
stack_ptr_comp list i j = if ltb j i then negsuc (8 * (i - j) - 1) else pos (8 * (j - i))

-- The cells of an array from index `i` on.
abbrev pub listed : ℕ → ℕ → (ℕ → ℕ) → List ℕ
listed zero i f = []
listed (suc n) i f = f i ∷ listed n (i + 1) f

unfoldable pub mg_stack_sort : ((ℕ → ℕ) → ℕ → ℕ → ℤ) → Stack → Option Stack
unfolding mgfastsort mg_stack_swap
mg_stack_sort comp s =
    if leb s.data_num 1 || s.sorted
    then some s
    else and_then (mgfastsort comp mg_stack_swap (λ k. get_or s.slots k 0) 0 (s.data_num - 1))
        λ list. some (record s { slots = listed (length s.slots) 0 list; sorted = true })
