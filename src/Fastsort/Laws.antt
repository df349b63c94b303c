-- ===== src/Fastsort/Laws.antt =====
-- src/mgfastsort.c: `mgfastsort` sorts, by exchanges inside the bounds.
use mg_std.Base.{
  ℕ, zero, suc, ◌+◌, ◌-◌, ◌<◌, ◌≤◌, ◌≡◌, refl, sym, subst, ap, ap₂, ◌∙◌, inl, inr, ℤ, true, some,
  arith, leb, Bool-cases, lt_or_le,
}
use mg_std.Fastsort.{not_positive, not_negative, by_element, and_then, partition, sort, mgfastsort}
use mg_std.Fastsort.Order.{
  IsOrder, Exchanges, Swaps, done, step, swap-second, swap-other, swap-all, Swaps-append,
  Swaps-widen, Swaps-outside, Swaps-all, sort_stop,
}
use mg_std.Fastsort.Split.{Below, Above, Split, to_last, partition_lem}

module _ {ℓ} {A : Type ℓ} (cmp : A → A → ℤ) (swap : (ℕ → A) → ℕ → ℕ → (ℕ → A)) where
  -- The elements from `lo` on and below `hi` ascend.
  abbrev pub IsSorted : ℕ → ℕ → (ℕ → A) → Type 0
  IsSorted lo hi a = (k m : ℕ) → lo ≤ k → k ≤ m → m < hi → not_positive (cmp (a k) (a m)) ≡ true

  -- The array b is the range of a from `lo` on and below `hi` in order, and a elsewhere.
  abbrev pub Sorts : ℕ → ℕ → (ℕ → A) → (ℕ → A) → Type ℓ
  Sorts lo hi a b = Swaps swap lo hi a b × IsSorted lo hi b

  module _ (order : IsOrder cmp) (law : Exchanges swap) where
    short : (lo hi : ℕ) (a : ℕ → A) → hi ≤ lo + 1 → IsSorted lo hi a
    short lo hi a h k m l e u =
        let q : k ≡ m = omega arith in
        ap (λ x. not_positive (cmp (a k) (a x))) (sym q) ∙ order.refl_cmp (a k)

    -- The array after the split, with the key between two parts, and after each part is sorted.
    join :
        (first last j : ℕ) (b c d : ℕ → A)
        → first ≤ j
        → j ≤ last
        → Below cmp (b j) first j b
        → Above cmp (b j) (j + 1) (last + 1) b
        → Sorts first j b c
        → Sorts (j + 1) (last + 1) c d
        → Sorts first (last + 1) b d
    join first last j b c d l u below above (to_c, sorted_c) (to_d, sorted_d) = (
      Swaps-append (Swaps-widen (omega arith) (omega arith) to_c)
          (Swaps-widen (omega arith) (omega arith) to_d),
      λ k m lk km um. elim (lt_or_le j k) [
        | inl right ↦ sorted_d k m (omega arith) km um
        | inr left ↦ elim (lt_or_le m j) [
          | inl both ↦
              ap₂ (λ x y. not_positive (cmp x y)) (kept k (omega arith)) (kept m (omega arith))
              ∙ sorted_c k m lk km both
          | inr across ↦ order.trans_cmp (d k) (b j) (d m) (to_key k lk left) (from_key m across um)
        ]
      ],
    )
      where
        -- Up to the key the second part of the sorting changes nothing.
        kept : (k : ℕ) → k < j + 1 → d k ≡ c k
        kept k h = Swaps-outside law to_d k (inl h)

        to_key : (k : ℕ) → first ≤ k → k ≤ j → not_positive (cmp (d k) (b j)) ≡ true
        to_key k lk h =
            ap (λ x. not_positive (cmp x (b j))) (kept k (omega arith))
            ∙ to_last (λ x. not_positive (cmp (c x) (b j)) ≡ true) j k (omega arith)
                (ap (λ x. not_positive (cmp x (b j))) (Swaps-outside law to_c j (inr (omega arith)))
                  ∙ order.refl_cmp (b j))
                (λ h'. Swaps-all law (λ x. not_positive (cmp x (b j)) ≡ true) to_c below k lk h')

        right : (k : ℕ) → j + 1 ≤ k → k < last + 1 → not_negative (cmp (c k) (b j)) ≡ true
        right k lk uk =
            ap (λ x. not_negative (cmp x (b j))) (Swaps-outside law to_c k (inr (omega arith)))
            ∙ above k lk uk

        from_key : (m : ℕ) → j ≤ m → m < last + 1 → not_positive (cmp (b j) (d m)) ≡ true
        from_key m lm um = elim (lt_or_le j m) [
          | inl past ↦
              sym (order.flip (d m) (b j))
              ∙ Swaps-all law (λ x. not_negative (cmp x (b j)) ≡ true) to_d right m (omega arith) um
          | inr here ↦
              let q : m ≡ j = omega arith in
              ap (λ x. not_positive (cmp (b j) x))
                (ap d q ∙ kept j (omega arith) ∙ Swaps-outside law to_c j (inr (omega arith)))
              ∙ order.refl_cmp (b j)
        ]

    -- The array that the split gives, after the key has been moved between the two parts.
    abbrev Divided : ℕ → ℕ → ℕ → (ℕ → A) → Type 0
    Divided first last j b = Below cmp (b j) first j b × Above cmp (b j) (j + 1) (last + 1) b

    divide :
        (first last j : ℕ) (p : ℕ → A)
        → first ≤ j
        → Below cmp (p first) first (j + 1) p
        → Above cmp (p first) (j + 1) (last + 1) p
        → Divided first last j (swap p first j)
    divide first last j p l below above = (
      (λ k lk uk.
          ap (λ x. not_positive (cmp (swap p first j k) x)) key
          ∙ swap-all law p first j (λ x. not_positive (cmp x (p first)) ≡ true) k
              (order.refl_cmp (p first)) (below j l (omega arith)) (below k lk (omega arith))),
      λ k lk uk.
          ap₂ (λ x y. not_negative (cmp x y))
            (swap-other law p first j k (omega arith) (omega arith)) key
          ∙ above k lk uk,
    )
      where
        key : swap p first j j ≡ p first
        key = swap-second law p first j

    pub sort_lem :
        (fuel first last : ℕ) (a : ℕ → A)
        → last + 1 ≤ first + fuel
        → 1 ≤ fuel
        → (b : ℕ → A) × (sort (by_element cmp) swap fuel first last a ≡ some b)
          × Sorts first (last + 1) a b
    unfolding sort
    sort_lem zero first last a f1 f2 = absurd (omega arith)
    sort_lem (suc fuel) first last a f1 f2 = elim (Bool-cases (leb last first)) [
      | inl stop ↦ rw stop (a, refl, (done, short first (last + 1) a (ground arith)))
      | inr go ↦
          let (r, runs, split) = halves (ground arith) in
          rw (go, runs) (parts (ground arith) (sort_lem fuel) r split)
    ]
      where
        halves :
            first < last
            → (r : (ℕ → A) × ℕ) × (partition
                  (by_element cmp)
                  swap
                  (last - first + 2)
                  first
                  last
                  a
                  first
                  last
                ≡ some r)
              × Split cmp swap first last a r
        halves lt =
            partition_lem cmp swap order law (last - first + 2) first last a first last
              (omega arith) (omega arith)
              (
                omega arith,
                omega arith,
                omega arith,
                omega arith,
                (λ k l u. absurd (omega arith)),
                (λ k l u. absurd (omega arith)),
                (λ h. order.refl_cmp (a first)),
                (λ h. absurd (omega arith)),
              )

        parts :
            first < last
            → ((first last : ℕ) (a : ℕ → A)
                → last + 1 ≤ first + fuel
                → 1 ≤ fuel
                → (b : ℕ → A) × (sort (by_element cmp) swap fuel first last a ≡ some b)
                  × Sorts first (last + 1) a b)
            → (r : (ℕ → A) × ℕ) → Split cmp swap first last a r
            → (d : ℕ → A) × (and_then
                  (sort (by_element cmp) swap fuel first (r.1 - 1) (swap r.0 first r.1))
                  (λ list'. sort (by_element cmp) swap fuel (r.1 + 1) last list')
                ≡ some d)
              × Sorts first (last + 1) a d
        parts lt again (p, j) (swaps, l, u, below, above) =
            let b = swap p first j in
            let (under, over) = divide first last j p l below above in
            let (c, runs_c, sorts_c) = left j l u b in
            let (d, runs_d, sorts_d) = again (j + 1) last c (omega arith) (omega arith) in
            let (to_d, sorted_d) = join first last j b c d l u under over sorts_c sorts_d in
            (
              d,
              rw runs_c runs_d,
              (
                Swaps-append swaps
                    (step first j (omega arith) (omega arith) (omega arith) (omega arith) to_d),
                sorted_d,
              ),
            )
          where
            left :
                (j : ℕ)
                → first ≤ j
                → j ≤ last
                → (b : ℕ → A)
                → (c : ℕ → A) × (sort (by_element cmp) swap fuel first (j - 1) b ≡ some c)
                  × Sorts first j b c
            left zero l u b = (
              b,
              sort_stop (by_element cmp) swap fuel first 0 b (omega arith) (omega arith),
              (done, short first 0 b (omega arith)),
            )
            left (suc j) l u b =
                let (c, runs, (to_c, sorted_c)) = again first j b (omega arith) (omega arith) in
                let same : suc j - 1 ≡ j = omega arith in
                let next : j + 1 ≡ suc j = omega arith in
                (
                  c,
                  ap (λ x. sort (by_element cmp) swap fuel first x b) same ∙ runs,
                  subst (λ x. Sorts first x b c) next (to_c, sorted_c),
                )

    -- `mgfastsort` of a comparison that reads the two elements and is an order returns, the elements from the start to the
    -- end ascend afterwards, and it only exchanges elements from the start to the end.
    pub mgfastsort-IsSorted :
        (list : ℕ → A) (list_sort_start list_sort_end : ℕ)
        → (b : ℕ → A) × (mgfastsort (by_element cmp) swap list list_sort_start list_sort_end
            ≡ some b)
          × Sorts list_sort_start (list_sort_end + 1) list b
    unfolding mgfastsort
    mgfastsort-IsSorted list list_sort_start list_sort_end =
        sort_lem (list_sort_end - list_sort_start + 1) list_sort_start list_sort_end list
          (omega arith) (omega arith)
