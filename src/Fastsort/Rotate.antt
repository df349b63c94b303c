-- ===== src/Fastsort/Rotate.antt =====
-- src/mgfastsort.c: what a comparison of addresses makes of the array, which never looks at an
-- element: the first element goes to the end.
use mg_std.Base.{
  ℕ, zero, suc, ◌+◌, ◌-◌, ◌<◌, ◌≤◌, ◌≡◌, ◌≢◌, refl, sym, ap, ◌∙◌, inl, inr, ℤ, true, false, some,
  arith, ltb, leb, Bool-cases, lt_or_le,
}
use mg_std.Fastsort.{
  not_positive, not_negative, and_then, scan_up, scan_down, partition, sort, mgfastsort,
}
use mg_std.Fastsort.Order.{Exchanges, swap-first, swap-second, swap-other, sort_stop}

module _ {ℓ} {A : Type ℓ} (cmp : (ℕ → A) → ℕ → ℕ → ℤ) where
  -- The answer is `second - first` of the indices, up to a positive factor.
  abbrev pub ByAddress : Type ℓ
  ByAddress =
      (list : ℕ → A) (i j : ℕ)
      → (not_positive (cmp list i j) ≡ leb j i) × (not_negative (cmp list i j) ≡ leb i j)

  module _ (address : ByAddress) where
    scan_up-all : (a : ℕ → A) (first n i : ℕ) → first ≤ i → scan_up cmp a first n i ≡ i + n
    unfolding scan_up
    scan_up-all a first zero i h = omega arith
    scan_up-all a first (suc n) i h =
        let hit = (address a i first).0 in
        let rest = scan_up-all a first n (i + 1) (omega arith) in ground arith

    scan_down-none : (a : ℕ → A) (first n j : ℕ) → first < j → scan_down cmp a first n j ≡ j
    unfolding scan_down
    scan_down-none a first zero j h = refl
    scan_down-none a first (suc n) j h = let hit = (address a j first).1 in ground arith

    module _ (swap : (ℕ → A) → ℕ → ℕ → (ℕ → A)) (law : Exchanges swap) where
      partition-all :
          (fuel first last : ℕ) (a : ℕ → A)
          → 1 < fuel
          → first < last
          → partition cmp swap fuel first last a first last ≡ some (a, last)
      unfolding partition
      partition-all zero first last a f h = absurd (omega arith)
      partition-all (suc zero) first last a f h = absurd (omega arith)
      partition-all (suc (suc fuel)) first last a f h =
          let up = scan_up-all a first (last - first) first (omega arith) in
          let down = scan_down-none a first (last - first) last h in
          let all : first + (last - first) ≡ last = omega arith in
          let starts : ltb first last ≡ true = ground arith in
          let ends : ltb last last ≡ false = ground arith in rw (up ∙ all, down, starts, ends) refl

      -- The elements from `first` to `last` one place down, and the first one at the end.
      abbrev pub Rotated : ℕ → ℕ → (ℕ → A) → (ℕ → A) → Type ℓ
      Rotated first last a b =
          ((k : ℕ) → first ≤ k → k < last → b k ≡ a (k + 1))
          × (b last ≡ a first)
          × ((k : ℕ) → last < k → b k ≡ a k)

      rotates :
          (fuel first last : ℕ) (a : ℕ → A)
          → first ≤ last
          → last + 1 ≤ first + fuel
          → (b : ℕ → A) × (sort cmp swap fuel first last a ≡ some b) × Rotated first last a b
      unfolding sort
      rotates zero first last a h f = absurd (omega arith)
      rotates (suc fuel) first last a h f = elim (Bool-cases (leb last first)) [
        | inl stop ↦
            let same : first ≡ last = ground arith in
            rw stop (a, refl, ((λ k l u. absurd (omega arith)), ap a (sym same), λ k l. refl))
        | inr go ↦
            rw (go, partition-all (last - first + 2) first last a (omega arith) (ground arith))
              (parts (ground arith) (rotates fuel))
      ]
        where
          parts :
              first < last
              → ((first last : ℕ) (a : ℕ → A)
                  → first ≤ last
                  → last + 1 ≤ first + fuel
                  → (b : ℕ → A) × (sort cmp swap fuel first last a ≡ some b)
                    × Rotated first last a b)
              → (d : ℕ → A) × (and_then
                    (sort cmp swap fuel first (last - 1) (swap a first last))
                    (λ list'. sort cmp swap fuel (last + 1) last list')
                  ≡ some d)
                × Rotated first last a d
          parts lt again =
              let b = swap a first last in
              let (c, runs, (down, at_last, above)) =
                again first (last - 1) b (omega arith) (omega arith) in
              let second = swap-second law a first last in
              let still =
                λ (k : ℕ) (nf : k ≢ first) (nl : k ≢ last). swap-other law a first last k nf nl in
              let last_of : last - 1 + 1 ≡ last = omega arith in
              (
                c,
                rw runs (sort_stop cmp swap fuel (last + 1) last c (omega arith) (omega arith)),
                (
                  (λ k l u. elim (lt_or_le k (last - 1)) [
                    | inl before ↦ down k l before ∙ still (k + 1) (omega arith) (omega arith)
                    | inr here ↦
                        let q : k ≡ last - 1 = omega arith in
                        let r : last ≡ k + 1 = omega arith in
                        ap c q ∙ at_last ∙ swap-first law a first last ∙ ap a r
                  ]),
                  above last (omega arith) ∙ second,
                  λ k l. above k (omega arith) ∙ still k (omega arith) (omega arith),
                ),
              )

      -- `mgfastsort` with such a comparison.
      pub mgfastsort-Rotated :
          (list : ℕ → A) (list_sort_start list_sort_end : ℕ)
          → list_sort_start ≤ list_sort_end
          → (b : ℕ → A) × (mgfastsort cmp swap list list_sort_start list_sort_end ≡ some b)
            × Rotated list_sort_start list_sort_end list b
      unfolding mgfastsort
      mgfastsort-Rotated list list_sort_start list_sort_end h =
          rotates (list_sort_end - list_sort_start + 1) list_sort_start list_sort_end list h
            (omega arith)
