-- ===== src/Rbtree/Loop.antt =====
-- src/mgrbtree.c: `mgrbtree_fixup_remove` ends, and leaves a red-black tree.
use mg_std.Base.{
  on_if, ℕ, zero, suc, ◌+◌, ◌≤◌, ◌≡◌, refl, sym, subst, ap, ◌∙◌, inl, inr, true, false, not, ◌&&◌,
  some, List, [], ◌∷◌, arith, Bool-cases, length,
}
use mg_std.Bintree.{Ptr, leaf, node}
use mg_std.Rbtree.{
  Node, Rb, Side, left_side, right_side, Frame, plug, zip, parent_at, is_red, paint, other,
}
use mg_std.Rbtree.Balance.{
  count, Allows, IsRb, IsWay, zip-IsRbTree, join_ok, is_red-join, IsRb-set_parent,
  is_red-set_parent,
}
use mg_std.Rbtree.Rotated.{paint-join}
use mg_std.Rbtree.Insertion.{Fixed, painted}
use mg_std.Rbtree.Removal.{child, borrow, lowered, fixup_remove}
use mg_std.Rbtree.Repair.{
  borrow-Stands, IsShort, fixup_remove-root, fixup_remove-red, paint_down, count-suc, both, either,
  brother,
}

-- A red brother has black subtrees.
red_brother :
    (s : Side) (p : Ptr) (h : ℕ) (a b : Rb) (m : Node)
    → m.red ≡ true
    → IsRb p h (node a m b)
    → (is_red (child s (node a m b)) ≡ false)
      × IsRb m.at h (child s (node a m b))
      × IsRb m.at h (child (other s) (node a m b))
red_brother left_side p h a b m red (e, al, ar, (k, q, vl, vr)) =
    let same : k ≡ h = sym (q ∙ ap (λ c. count c k) red) in
    (
      subst (λ c. Allows c a) red al,
      subst (λ x. IsRb m.at x a) same vl,
      subst (λ x. IsRb m.at x b) same vr,
    )
red_brother right_side p h a b m red (e, al, ar, (k, q, vl, vr)) =
    let same : k ≡ h = sym (q ∙ ap (λ c. count c k) red) in
    (
      subst (λ c. Allows c b) red ar,
      subst (λ x. IsRb m.at x b) same vr,
      subst (λ x. IsRb m.at x a) same vl,
    )

black_children :
    (s : Side) (a b : Rb) (m : Node)
    → is_red (child s (node a m b)) ≡ false
    → is_red (child (other s) (node a m b)) ≡ false
    → (is_red a ≡ false) × (is_red b ≡ false)
black_children left_side a b m p q = (p, q)
black_children right_side a b m p q = (q, p)

-- The turns that go on from a place below the frame of a brother.
module _ (fuel h : ℕ) (x : Rb) (s : Side) (n : Node) (a b : Rb) (m : Node) (fs : List Frame)
    (black : is_red x ≡ false) (v : IsRb n.at h x)
    (w : IsWay (suc h) (record { side = s; above = n; sibling = node a m b } ∷ fs)) where
  abbrev here : Frame
  here = record { side = s; above = n; sibling = node a m b }

  abbrev near : Rb
  near = child s (node a m b)

  abbrev far : Rb
  far = child (other s) (node a m b)

  abbrev painted_brother : Rb
  painted_brother = plug (record here { sibling = paint true (node a m b) }) x

  -- Case 1: the parent is red afterwards.
  lowered-IsWay : m.red ≡ true → IsWay (suc h) (lowered here near m far fs)
  lowered-IsWay red =
      let (e, vs, ok, color, up) = w in
      let (bn, vn, vf) = red_brother s n.at (suc h) a b m red vs in
      let parent_black : n.red ≡ false = elim (Bool-cases n.red) [
        | inl r ↦ absurd (ground (arith, subst (λ c. Allows c (node a m b)) r ok))
        | inr r ↦ r
      ] in
      (
        refl,
        IsRb-set_parent m.at n.at (suc h) near vn,
        is_red-set_parent n.at near ∙ bn,
        (λ q. refl),
        (
          e,
          vf,
          tt,
          (λ q. absurd (ground arith)),
          subst (λ c. IsWay (count c (suc h)) fs) parent_black up,
        ),
      )

  -- Case 2: the parent is the short place.
  painted_brother-IsShort :
      m.red ≡ false
      → is_red near ≡ false
      → is_red far ≡ false
      → IsShort (parent_at fs) (count n.red h) painted_brother
  painted_brother-IsShort bm bn bf =
      let (e, vs, ok, color, up) = w in
      let (ba, bb) = black_children s a b m bn bf in
      let u = paint true (node a m b) in
      let vu : IsRb n.at h u = paint_down n.at h a b m bm ba bb vs in
      elim (Bool-cases n.red) [
        | inl r ↦ inr (
          is_red-join s x n u ∙ r,
          subst (λ c. IsRb (parent_at fs) (suc (count c h)) (paint false painted_brother)) (sym r)
              (subst (IsRb (parent_at fs) (suc h)) (sym (paint-join false s x n u))
                (join_ok s (parent_at fs) h x (record n { red = false }) u e tt tt v vu)),
        )
        | inr r ↦ inl (
          is_red-join s x n u ∙ r,
          join_ok s (parent_at fs) h x n u e (subst (λ c. Allows c x) (sym r) tt)
              (subst (λ c. Allows c u) (sym r) tt) v vu,
        )
      ]

  turn-Fixed :
      (m.red ≡ true → Fixed (fixup_remove fuel x (lowered here near m far fs)))
      → (m.red ≡ false
          → is_red near ≡ false
          → is_red far ≡ false
          → Fixed (fixup_remove fuel painted_brother fs))
      → Fixed (fixup_remove (suc fuel) x (here ∷ fs))
  unfolding fixup_remove
  turn-Fixed again up =
      on_if Fixed (is_red x) (λ q. absurd (ground arith))
        (λ q. on_if Fixed m.red again (λ bm.
          on_if Fixed (not (is_red near) && not (is_red far))
            (λ c. let (bn, bf) = both (is_red near) (is_red far) c in up bm bn bf)
            (λ c. ends bm c)))
    where
      ends :
          m.red ≡ false
          → not (is_red near) && not (is_red far) ≡ false
          → Fixed (some (paint false (zip fs (borrow x here))))
      ends bm c =
          let (e, vs, ok, color, up') = w in
          let (st, red) =
            borrow-Stands s (parent_at fs) h x n (node a m b) e v (brother s n.at h a b m bm vs)
              (either (is_red near) (is_red far) c) in
          (
            paint false (zip fs (borrow x here)),
            refl,
            painted (zip fs (borrow x here)) (
                zip-IsRbTree fs (count n.red (suc h)) (borrow x here) up' st
                  (λ q. color (sym red ∙ q))),
          )

-- Two turns are enough below a red parent.
below_red :
    (fuel h : ℕ) (x : Rb) (f : Frame) (fs : List Frame)
    → f.above.red ≡ true
    → is_red x ≡ false
    → IsRb f.above.at h x
    → IsWay (suc h) (f ∷ fs)
    → Fixed (fixup_remove (suc (suc fuel)) x (f ∷ fs))
below_red fuel h x f fs red black v w = go f.side f.above f.sibling red v w
  where
    go :
        (s : Side) (n : Node) (t : Rb)
        → n.red ≡ true
        → IsRb n.at h x
        → IsWay (suc h) (record { side = s; above = n; sibling = t } ∷ fs)
        → Fixed (fixup_remove (suc (suc fuel)) x (record { side = s; above = n; sibling = t } ∷ fs))
    go s n leaf red v w = absurd (ground (arith, w.1))
    go s n (node a m b) red v w =
        turn-Fixed (suc fuel) h x s n a b m fs black v w
          (λ rm. absurd (ground (arith, subst (λ c. Allows c (node a m b)) red w.2)))
          (λ bm bn bf.
            fixup_remove-red fuel (count n.red h) _ fs (is_red-join s x n _ ∙ red)
              (painted_brother-IsShort (suc fuel) h x s n a b m fs black v w bm bn bf)
              (subst (λ k. IsWay k fs) (count-suc n.red h) w.4))

-- As many turns as there are frames, and two more, are enough.
pub fixup_remove-Fixed :
    (fs : List Frame) (fuel h : ℕ) (x : Rb)
    → length fs + 2 ≤ fuel
    → IsShort (parent_at fs) h x
    → IsWay (suc h) fs
    → Fixed (fixup_remove fuel x fs)
fixup_remove-Fixed fs zero h x le v w = absurd (omega (arith, le))
fixup_remove-Fixed [] (suc fuel) h x le v w = fixup_remove-root fuel h x v
fixup_remove-Fixed (f ∷ fs) (suc zero) h x le v w = absurd (omega (arith, le))
fixup_remove-Fixed (f ∷ fs) (suc (suc zero)) h x le v w = absurd (omega (arith, le))
fixup_remove-Fixed (f ∷ fs) (suc (suc (suc fuel))) h x le (inr (red, v)) w =
    fixup_remove-red (suc (suc fuel)) h x (f ∷ fs) red (inr (red, v)) w
fixup_remove-Fixed (f ∷ fs) (suc (suc (suc fuel))) h x le (inl (black, v)) w =
    go (λ k y. fixup_remove-Fixed fs (suc (suc fuel)) k y (omega (arith, le))) f.side f.above
      f.sibling v w
  where
    go :
        ((k : ℕ) (y : Rb)
          → IsShort (parent_at fs) k y
          → IsWay (suc k) fs
          → Fixed (fixup_remove (suc (suc fuel)) y fs))
        → (s : Side) (n : Node) (t : Rb) → IsRb n.at h x
        → IsWay (suc h) (record { side = s; above = n; sibling = t } ∷ fs)
        → Fixed (
            fixup_remove
              (suc (suc (suc fuel)))
              x
              (record { side = s; above = n; sibling = t } ∷ fs))
    go above s n leaf v w = absurd (ground (arith, w.1))
    go above s n (node a m b) v w =
        turn-Fixed (suc (suc fuel)) h x s n a b m fs black v w
          (λ rm.
            below_red fuel h x _ _ refl black v
              (lowered-IsWay (suc (suc fuel)) h x s n a b m fs black v w rm))
          (λ bm bn bf.
            above (count n.red h) _
              (painted_brother-IsShort (suc (suc fuel)) h x s n a b m fs black v w bm bn bf)
              (subst (λ k. IsWay k fs) (count-suc n.red h) w.4))
