-- ===== src/Fastsort/Split.antt =====
-- src/mgfastsort.c: the two scans, and the loop that splits the array at its first element.
use mg_std.Base.{
  ℕ, zero, suc, ◌+◌, ◌-◌, ◌<◌, ◌≤◌, ◌≡◌, ◌≢◌, refl, subst, ap, ap₂, ◌∙◌, ◌⊎◌, inl, inr, ℤ, pos,
  negsuc, true, false, some, arith, ltb, Bool-cases, lt_or_le,
}
use mg_std.Fastsort.{
  not_positive, not_negative, by_element, scan_up, scan_down, swap_below, partition,
}
use mg_std.Fastsort.Order.{IsOrder, Exchanges, Swaps, done, step, swap-first, swap-other}

-- One more index at either end of a range.
from_first : (P : ℕ → Type 0) (i k : ℕ) → i ≤ k → P i → (i + 1 ≤ k → P k) → P k
from_first P i k l h more = elim cases [ inl e ↦ subst P e h | inr lt ↦ more lt ]
  where
    cases : (i ≡ k) ⊎ (i + 1 ≤ k)
    cases = omega arith

pub to_last : (P : ℕ → Type 0) (j k : ℕ) → k < j + 1 → P j → (k < j → P k) → P k
to_last P j k u h more = elim cases [ inl e ↦ subst P e h | inr lt ↦ more lt ]
  where
    cases : (j ≡ k) ⊎ (k < j)
    cases = omega arith

positive_or : (z : ℤ) → not_negative z ≡ false → not_positive z ≡ true
positive_or (pos n) h = absurd (ground arith)
positive_or (negsuc n) h = refl

module _ {ℓ} {A : Type ℓ} (cmp : A → A → ℤ) where
  -- Everything from `lo` on and below `hi` is at most, or at least, the key.
  abbrev pub Below : A → ℕ → ℕ → (ℕ → A) → Type 0
  Below key lo hi a = (k : ℕ) → lo ≤ k → k < hi → not_positive (cmp (a k) key) ≡ true

  abbrev pub Above : A → ℕ → ℕ → (ℕ → A) → Type 0
  Above key lo hi a = (k : ℕ) → lo ≤ k → k < hi → not_negative (cmp (a k) key) ≡ true

  -- Where the first scan stops.
  abbrev UpTo : A → ℕ → ℕ → (ℕ → A) → ℕ → Type 0
  UpTo key i last a r =
      (i ≤ r) × (r ≤ last) × Below key i r a × ((r ≡ last) ⊎ (not_positive (cmp (a r) key) ≡ false))

  scan_up_lem :
      (a : ℕ → A) (start n i last : ℕ)
      → i + n ≡ last
      → UpTo (a start) i last a (scan_up (by_element cmp) a start n i)
  unfolding scan_up
  scan_up_lem a start zero i last h =
      (omega arith, omega arith, (λ k l u. absurd (omega arith)), inl (omega arith))
  scan_up_lem a start (suc n) i last h = elim (Bool-cases (not_positive (cmp (a i) (a start)))) [
    | inl go ↦ rw go (further go (scan_up_lem a start n (i + 1) last (omega arith)))
    | inr stop ↦ rw stop (omega arith, omega arith, (λ k l u. absurd (omega arith)), inr stop)
  ]
    where
      further :
          not_positive (cmp (a i) (a start)) ≡ true
          → UpTo (a start) (i + 1) last a (scan_up (by_element cmp) a start n (i + 1))
          → UpTo (a start) i last a (scan_up (by_element cmp) a start n (i + 1))
      further go (l, u, below, end) = (
        omega arith,
        u,
        (λ k l' u'.
            from_first (λ x. not_positive (cmp (a x) (a start)) ≡ true) i k l' go
              (λ l''. below k l'' u')),
        end,
      )

  -- Where the second scan stops.
  abbrev DownTo : A → ℕ → ℕ → (ℕ → A) → ℕ → Type 0
  DownTo key first j a r =
      (first ≤ r)
      × (r ≤ j)
      × Above key (r + 1) (j + 1) a
      × ((r ≡ first) ⊎ (not_negative (cmp (a r) key) ≡ false))

  scan_down_lem :
      (a : ℕ → A) (start n first j : ℕ)
      → first + n ≡ j
      → DownTo (a start) first j a (scan_down (by_element cmp) a start n j)
  unfolding scan_down
  scan_down_lem a start zero first j h =
      (omega arith, omega arith, (λ k l u. absurd (omega arith)), inl (omega arith))
  scan_down_lem a start (suc n) first j h = elim (Bool-cases (not_negative (cmp (a j) (a start)))) [
    | inl go ↦ rw go (further go (scan_down_lem a start n first (j - 1) (omega arith)))
    | inr stop ↦ rw stop (omega arith, omega arith, (λ k l u. absurd (omega arith)), inr stop)
  ]
    where
      further :
          not_negative (cmp (a j) (a start)) ≡ true
          → DownTo (a start) first (j - 1) a (scan_down (by_element cmp) a start n (j - 1))
          → DownTo (a start) first j a (scan_down (by_element cmp) a start n (j - 1))
      further go (l, u, above, end) = (
        l,
        omega arith,
        (λ k l' u'.
            to_last (λ x. not_negative (cmp (a x) (a start)) ≡ true) j k u' go
              (λ u''. above k l' (omega arith))),
        end,
      )

  module _ (swap : (ℕ → A) → ℕ → ℕ → (ℕ → A)) where
    -- Before each turn of the loop.
    abbrev Ready : ℕ → ℕ → (ℕ → A) → ℕ → ℕ → Type 0
    Ready first last a i j =
        (first ≤ i)
        × (i ≤ last)
        × (first ≤ j)
        × (j ≤ last)
        × Below (a first) first i a
        × Above (a first) (j + 1) (last + 1) a
        × (i < j → not_positive (cmp (a i) (a first)) ≡ true)
        × (j ≤ i → not_positive (cmp (a j) (a first)) ≡ true)

    -- The array after the loop, and j.
    abbrev pub Split : ℕ → ℕ → (ℕ → A) → (ℕ → A) × ℕ → Type ℓ
    Split first last a (b, j) =
        Swaps swap first (last + 1) a b
        × (first ≤ j)
        × (j ≤ last)
        × Below (b first) first (j + 1) b
        × Above (b first) (j + 1) (last + 1) b

    module _ (order : IsOrder cmp) (law : Exchanges swap) where
      at_most :
          {x y x' y' : A}
          → x' ≡ x
          → y' ≡ y
          → not_positive (cmp x y) ≡ true
          → not_positive (cmp x' y') ≡ true
      at_most p q h = ap₂ (λ u v. not_positive (cmp u v)) p q ∙ h

      at_least :
          {x y x' y' : A}
          → x' ≡ x
          → y' ≡ y
          → not_negative (cmp x y) ≡ true
          → not_negative (cmp x' y') ≡ true
      at_least p q h = ap₂ (λ u v. not_negative (cmp u v)) p q ∙ h

      module _ (first last : ℕ) (a : ℕ → A) (i j i' j' : ℕ) (ready : Ready first last a i j)
          (lt : i < j) (up : UpTo (a first) i last a i')
          (down : DownTo (a first) first j a j') where
        low : Below (a first) first i' a
        low k l u =
            let (l1, l2, l3, l4, below, above, at_i, at_j) = ready in
            elim (lt_or_le k i) [ inl e ↦ below k l e | inr e ↦ up.2 k e u ]

        high : Above (a first) (j' + 1) (last + 1) a
        high k l u =
            let (l1, l2, l3, l4, below, above, at_i, at_j) = ready in
            elim (lt_or_le k (j + 1)) [ inl e ↦ down.2 k l e | inr e ↦ above k e u ]

        forward : i < i'
        forward =
            let (l1, l2, l3, l4, below, above, at_i, at_j) = ready in
            let (u1, u2, scanned, end) = up in
            elim end [
              | inl e ↦ omega arith
              | inr e ↦ elim (lt_or_le i i') [
                | inl moves ↦ moves
                | inr stays ↦
                    let q : i' ≡ i = omega arith in
                    absurd (ground (arith, ap (λ k. not_positive (cmp (a k) (a first))) q, at_i lt))
              ]
            ]

        at_end : not_positive (cmp (a j') (a first)) ≡ true
        at_end = elim down.3 [
          | inl e ↦ at_most (ap a e) refl (order.refl_cmp (a first))
          | inr e ↦ positive_or (cmp (a j') (a first)) e
        ]

        stay : j' ≤ i' → Ready first last a i' j'
        stay h =
            let (l1, l2, l3, l4, below, above, at_i, at_j) = ready in
            (
              omega (arith, forward),
              up.1,
              down.0,
              omega (arith, down.1),
              low,
              high,
              (λ h'. absurd (omega arith)),
              (λ h'. at_end),
            )

        exchange : i' < j' → Ready first last (swap a i' j') i' j'
        exchange h =
            let (l1, l2, l3, l4, below, above, at_i, at_j) = ready in
            let ahead = forward in
            let keeps = λ (k : ℕ) (ni : k ≢ i') (nj : k ≢ j'). swap-other law a i' j' k ni nj in
            let key = keeps first (omega arith) (omega arith) in
            (
              omega arith,
              up.1,
              down.0,
              omega (arith, down.1),
              (λ k l u. at_most (keeps k (omega arith) (omega arith)) key (low k l u)),
              (λ k l u. at_least (keeps k (omega arith) (omega arith)) key (high k l u)),
              (λ h'. at_most (swap-first law a i' j') key at_end),
              (λ h'. absurd (omega arith)),
            )

        -- The step that follows the scans.
        next :
            Ready first last (swap_below (by_element cmp) swap a i' j') i' j'
            × ((r : (ℕ → A) × ℕ)
                → Split first last (swap_below (by_element cmp) swap a i' j') r
                → Split first last a r)
        next = elim (Bool-cases (ltb i' j')) [
          | inl below ↦
              rw below (exchange (ground arith), λ r split. further (ground arith) r split)
          | inr past ↦ rw past (stay (ground arith), λ r split. split)
        ]
          where
            further :
                i' < j'
                → (r : (ℕ → A) × ℕ) → Split first last (swap a i' j') r
                → Split first last a r
            further h (b, m) (swaps, m1, m2, below', above') =
                let (l1, l2, l3, l4, below, above, at_i, at_j) = ready in
                (
                  step i' j' (omega (arith, forward)) (omega (arith, up.1)) (omega (arith, down.0))
                      (omega (arith, down.1)) swaps,
                  m1,
                  m2,
                  below',
                  above',
                )

      pub partition_lem :
          (fuel first last : ℕ) (a : ℕ → A) (i j : ℕ)
          → last + 1 ≤ i + fuel
          → 1 ≤ fuel
          → Ready first last a i j
          → (r : (ℕ → A) × ℕ) × (partition (by_element cmp) swap fuel first last a i j ≡ some r)
            × Split first last a r
      unfolding partition
      partition_lem zero first last a i j f1 f2 ready = absurd (omega arith)
      partition_lem (suc fuel) first last a i j f1 f2 ready = elim (Bool-cases (ltb i j)) [
        | inl go ↦ rw go (more (partition_lem fuel first last) (ground arith))
        | inr stop ↦
            let past : j ≤ i = ground arith in
            let (l1, l2, l3, l4, below, above, at_i, at_j) = ready in
            rw stop (
              (a, j),
              refl,
              (
                done,
                l3,
                l4,
                (λ k l u.
                    to_last (λ x. not_positive (cmp (a x) (a first)) ≡ true) j k u (at_j past)
                      (λ u'. below k l (omega arith))),
                above,
              ),
            )
      ]
        where
          i' : ℕ
          i' = scan_up (by_element cmp) a first (last - i) i

          j' : ℕ
          j' = scan_down (by_element cmp) a first (j - first) j

          more :
              ((b : ℕ → A) (i j : ℕ)
                → last + 1 ≤ i + fuel
                → 1 ≤ fuel
                → Ready first last b i j
                → (r : (ℕ → A) × ℕ) × (partition (by_element cmp) swap fuel first last b i j
                    ≡ some r)
                  × Split first last b r)
              → i < j
              → (r : (ℕ → A) × ℕ) × (partition
                    (by_element cmp)
                    swap
                    fuel
                    first
                    last
                    (swap_below (by_element cmp) swap a i' j')
                    i'
                    j'
                  ≡ some r)
                × Split first last a r
          more again lt =
              let (l1, l2, l3, l4, below, above, at_i, at_j) = ready in
              let up = scan_up_lem a first (last - i) i last (omega arith) in
              let down = scan_down_lem a first (j - first) first j (omega arith) in
              let ahead = forward first last a i j i' j' ready lt up down in
              let (ready', back) = next first last a i j i' j' ready lt up down in
              let (r, runs, split) =
                again (swap_below (by_element cmp) swap a i' j') i' j' (omega arith) (omega arith)
                  ready' in
              (r, runs, back r split)
