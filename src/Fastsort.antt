-- ===== src/Fastsort.antt =====
-- src/mgfastsort.c: quicksort of a part of an array. An array is a function from its indices; the
-- comparison, which gets pointers to two elements, here the array and two indices, and the exchange
-- of two elements are the caller's: two parameters. The bounds
-- are not negative; `j - 1` for j = 0 ends at 0, where the call returns as it does at -1.
pub mod Order
pub mod Split
pub mod Laws
pub mod Rotate
pub mod Numbers
mod Tests
use mg_std.Base.{
  ℕ, zero, suc, ◌+◌, ◌-◌, ℤ, pos, negsuc, Bool, true, false, Option, none, some, ltb, leb,
  if◌then◌else◌,
}

abbrev pub not_positive : ℤ → Bool
not_positive (pos zero) = true
not_positive (pos (suc n)) = false
not_positive (negsuc n) = true

abbrev pub not_negative : ℤ → Bool
not_negative (pos n) = true
not_negative (negsuc n) = false

module _ {ℓ} {A B : Type ℓ} where
  abbrev pub and_then : Option A → (A → Option B) → Option B
  and_then none f = none
  and_then (some a) f = f a

-- A comparison that reads the two elements.
module _ {ℓ} {A : Type ℓ} where
  abbrev pub by_element : (A → A → ℤ) → (ℕ → A) → ℕ → ℕ → ℤ
  by_element cmp list i j = cmp (list i) (list j)

module _ {ℓ} {A : Type ℓ} (cmp : (ℕ → A) → ℕ → ℕ → ℤ) where
  -- `while ((i < list_sort_end) && (cmp(list + i, key) <= 0)) i++`, where n = list_sort_end - i.
  unfoldable pub scan_up : (ℕ → A) → ℕ → ℕ → ℕ → ℕ
  scan_up list key zero i = i
  scan_up list key (suc n) i =
      let rest = scan_up list key n (i + 1) in if not_positive (cmp list i key) then rest else i

  -- `while ((j > list_sort_start) && (cmp(list + j, key) >= 0)) j--`, where
  -- n = j - list_sort_start.
  unfoldable pub scan_down : (ℕ → A) → ℕ → ℕ → ℕ → ℕ
  scan_down list key zero j = j
  scan_down list key (suc n) j =
      let rest = scan_down list key n (j - 1) in if not_negative (cmp list j key) then rest else j

  module _ (swap : (ℕ → A) → ℕ → ℕ → (ℕ → A)) where
    -- `if (i < j) swap(list, i, j)`
    abbrev pub swap_below : (ℕ → A) → ℕ → ℕ → (ℕ → A)
    swap_below list i j = if ltb i j then swap list i j else list

    -- `while (i < j)`, where `key` points at `first`: the array and j at the end.
    unfoldable pub partition : ℕ → ℕ → ℕ → (ℕ → A) → ℕ → ℕ → Option ((ℕ → A) × ℕ)
    unfolding scan_up scan_down
    partition zero first last list i j = none
    partition (suc fuel) first last list i j =
        let i' = scan_up list first (last - i) i in
        let j' = scan_down list first (j - first) j in
        let rest = partition fuel first last (swap_below list i' j') i' j' in
        if ltb i j then rest else some (list, j)

    unfoldable pub sort : ℕ → ℕ → ℕ → (ℕ → A) → Option (ℕ → A)
    unfolding partition
    sort zero first last list = none
    sort (suc fuel) first last list =
        if leb last first
        then some list
        else and_then (partition (last - first + 2) first last list first last) λ r.
          and_then (sort fuel first (r.1 - 1) (swap r.0 first r.1))
            λ list'. sort fuel (r.1 + 1) last list'

    unfoldable pub mgfastsort : (ℕ → A) → ℕ → ℕ → Option (ℕ → A)
    unfolding sort
    mgfastsort list list_sort_start list_sort_end =
        sort (list_sort_end - list_sort_start + 1) list_sort_start list_sort_end list
