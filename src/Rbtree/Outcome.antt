-- ===== src/Rbtree/Outcome.antt =====
-- src/mgrbtree.c: what `mgrbtree_remove` leaves, and when it does not end.
use Prim.Native.Nat.{Ordering}
use Prim.Native.Nat.Ordering.{lt, eq, gt}
use mg_std.Base.{
  ap, ◌∙◌, ◌==◌, one_if, tally, tally-append, ℕ, ◌+◌, ◌≤◌, ◌≡◌, refl, sym, subst, inl, inr, Bool,
  true, false, not, Option, none, some, List, [], ◌∷◌, arith, length,
}
use mg_std.Bintree.{Ptr, leaf, node}
use mg_std.Rbtree.{Node, Rb, left_side, right_side, Frame, zip, parent_at, is_red, mgrbtree_search}
use mg_std.Rbtree.Order.{nodes, orderings}
use mg_std.Rbtree.Balance.{IsRb, may_be_red, IsWay, IsRbTree}
use mg_std.Rbtree.Insertion.{Fixed, forbids}
use mg_std.Rbtree.Laws.{depth}
use mg_std.Rbtree.Removal.{
  if_black, repaired_at_stray, Left, unended, untouched, holds, write_rchild, replace_by,
  mgrbtree_remove_node, remove_below, mgrbtree_remove,
}
use mg_std.Rbtree.Deletion.{stuck, repaired_at_stray-none, mgrbtree_remove_node-Fixed}
use mg_std.Rbtree.Gone.{Gone, HasGone, mgrbtree_remove_node-HasGone}

-- The nodes are the same, or one of them is gone.
abbrev pub Leaves : Option Ptr → List Ptr → List Ptr → Type 0
Leaves none xs ys = xs ≡ ys
Leaves (some p) xs ys = Gone p xs ys

-- There is a tree left, a red-black tree.
abbrev Shrunk : Rb → Option Ptr → Option Rb → Type 0
Shrunk root found o = (t : Rb) × (o ≡ some t) × IsRbTree t × Leaves found (nodes root) (nodes t)

-- The same, and the write to the right child of the given node leaves it as it is.
abbrev pub Removed : Rb → Option Ptr → Left → Type 0
Removed root found w =
    (t : Rb) × (w ≡ untouched t) × IsRbTree t × Leaves found (nodes root) (nodes t)

-- How often a node is the one that has been found.
abbrev pub was_found : Ptr → Option Ptr → ℕ
was_found x none = 0
was_found x (some p) = one_if (x == p)

tally-Leaves :
    (x : Ptr) (found : Option Ptr) (xs ys : List Ptr)
    → Leaves found xs ys
    → tally x xs ≡ was_found x found
    → tally x ys ≡ 0
tally-Leaves x none xs ys e h = sym (ap (tally x) e) ∙ h
tally-Leaves x (some p) xs ys (ws, bs, e, q) h =
    omega
      (arith, h, ap (tally x) e, ap (tally x) q, tally-append x ws (p ∷ bs), tally-append x ws bs)

tally-holds : (x : Ptr) (t : Rb) → tally x (nodes t) ≡ 0 → holds x t ≡ false
tally-holds x leaf h = refl
tally-holds x (node l n r) h =
    let e : tally x (nodes l) + (one_if (x == n.at) + tally x (nodes r)) ≡ 0 =
      sym (tally-append x (nodes l) (n.at ∷ nodes r)) ∙ h in
    let hl = tally-holds x l (omega (arith, e)) in
    let hr = tally-holds x r (omega (arith, e)) in ground (arith, e, hl, hr)

write_rchild-Removed :
    (x : Ptr) (root : Rb) (found : Option Ptr) (o : Option Rb)
    → tally x (nodes root) ≡ was_found x found
    → Shrunk root found o
    → Removed root found (write_rchild x o)
write_rchild-Removed x root found o once (t, e, v, l) =
    let free = tally-holds x t (tally-Leaves x found (nodes root) (nodes t) l once) in
    (t, ap (write_rchild x) e ∙ rw free refl, v, l)

Fixed-Shrunk :
    (root : Rb) (p : Ptr) (o : Option Rb)
    → Fixed o
    → HasGone p (nodes root) o
    → Shrunk root (some p) o
Fixed-Shrunk root p o (t, e, v) g = (t, e, v, subst (HasGone p (nodes root)) e g)

module _ (cmp : Ptr → Ptr → Ordering) where
  -- The subtree of the node that the search finds.
  abbrev pub found : Rb → Ptr → Rb
  found leaf x = leaf
  found (node l n r) x = elim (cmp n.at x) [ eq ↦ node l n r | gt ↦ found l x | lt ↦ found r x ]

  module _ (fuel : ℕ) (x : Ptr) (root : Rb) (whole : IsRbTree root) where
    remove_below-Shrunk :
        (t : Rb) (fs : List Frame) (h : ℕ)
        → root ≡ zip fs t
        → IsRb (parent_at fs) h t
        → IsWay h fs
        → (is_red t ≡ true → may_be_red fs ≡ true)
        → stuck (found t x) ≡ false
        → length fs + depth t + 2 ≤ fuel
        → Shrunk root (mgrbtree_search cmp t x) (remove_below cmp fuel t x fs root)
    unfolding mgrbtree_search remove_below zip
    remove_below-Shrunk leaf fs h at v w color = λ free le. (root, refl, whole, refl)
    remove_below-Shrunk (node l n r) fs h at (e, al, ar, (k, q, vl, vr)) w color =
        elim (orderings cmp (cmp n.at x)) [
          | inl o ↦
              rw (o, mgrbtree_search, remove_below, found)
                (λ free le.
                  remove_below-Shrunk r (record { side = right_side; above = n; sibling = l } ∷ fs)
                    k at vr (e, vl, al, color, subst (λ j. IsWay j fs) q w) (forbids n.red r ar)
                    free (omega (arith, le)))
          | inr (inl o) ↦
              rw (o, mgrbtree_search, remove_below, found)
                (λ free le.
                  Fixed-Shrunk root n.at (mgrbtree_remove_node fuel l n r fs)
                    (mgrbtree_remove_node-Fixed fuel h l n r fs (e, al, ar, (k, q, vl, vr)) w color
                      free le)
                    (subst (λ u. HasGone n.at (nodes u) (mgrbtree_remove_node fuel l n r fs))
                      (sym at) (mgrbtree_remove_node-HasGone fuel l n r fs)))
          | inr (inr o) ↦
              rw (o, mgrbtree_search, remove_below, found)
                (λ free le.
                  remove_below-Shrunk l (record { side = left_side; above = n; sibling = r } ∷ fs) k
                    at vl (e, vr, ar, color, subst (λ j. IsWay j fs) q w) (forbids n.red l al) free
                    (omega (arith, le)))
        ]

  -- `mgrbtree_remove` of a red-black tree, in which the given node stands once if it is the node that
  -- is found, and else not at all, ends within the number of levels and two turns, unless the node
  -- that is found has two children of which the right one is a black leaf. It leaves a red-black
  -- tree of the same nodes in the same order, without the node that is stored in `node->rchild`, or
  -- with all if that is NULL, and that store changes none of them.
  pub mgrbtree_remove-Removed :
      (fuel : ℕ) (t : Rb) (x : Ptr)
      → IsRbTree t
      → tally x (nodes t) ≡ was_found x (mgrbtree_search cmp t x)
      → stuck (found t x) ≡ false
      → depth t + 2 ≤ fuel
      → Removed t ((mgrbtree_remove cmp fuel t x).0) ((mgrbtree_remove cmp fuel t x).1)
  unfolding mgrbtree_remove zip
  mgrbtree_remove-Removed fuel t x (black, (h, v)) once free le =
      write_rchild-Removed x t (mgrbtree_search cmp t x) (remove_below cmp fuel t x [] t) once (
        remove_below-Shrunk fuel x t (black, (h, v)) t [] h refl v tt (λ q. absurd (ground arith))
          free (omega (arith, le)))

  stuck-none :
      (fuel : ℕ) (l : Rb) (n : Node) (r : Rb) (fs : List Frame)
      → stuck (node l n r) ≡ true
      → mgrbtree_remove_node fuel l n r fs ≡ none
  unfolding mgrbtree_remove_node replace_by
  stuck-none fuel leaf n r fs h = absurd (ground arith)
  stuck-none fuel (node a m b) n leaf fs h = absurd (ground arith)
  stuck-none fuel (node a m b) n (node leaf y leaf) fs h = ends y.red h _
    where
      ends : (c : Bool) → not c ≡ true → (t : Rb) → if_black c (repaired_at_stray fuel n t) t ≡ none
      ends true q t = absurd (ground arith)
      ends false q t = repaired_at_stray-none fuel n t
  stuck-none fuel (node a m b) n (node leaf y (node c k d)) fs h = absurd (ground arith)
  stuck-none fuel (node a m b) n (node (node c k d) y e) fs h = absurd (ground arith)

  remove_below-none :
      (fuel : ℕ) (t : Rb) (x : Ptr) (fs : List Frame) (root : Rb)
      → stuck (found t x) ≡ true
      → remove_below cmp fuel t x fs root ≡ none
  unfolding remove_below
  remove_below-none fuel leaf x fs root = λ h. absurd (ground arith)
  remove_below-none fuel (node l n r) x fs root = elim (orderings cmp (cmp n.at x)) [
    | inl o ↦
        rw (o, remove_below, found)
          (λ h.
            remove_below-none fuel r x (record { side = right_side; above = n; sibling = l } ∷ fs)
              root h)
    | inr (inl o) ↦ rw (o, remove_below, found) (λ h. stuck-none fuel l n r fs h)
    | inr (inr o) ↦
        rw (o, remove_below, found)
          (λ h.
            remove_below-none fuel l x (record { side = left_side; above = n; sibling = r } ∷ fs)
              root h)
  ]

  -- `mgrbtree_remove` never ends if the node that is found has two children of which the right one
  -- is a black leaf.
  pub mgrbtree_remove-none :
      (fuel : ℕ) (t : Rb) (x : Ptr)
      → stuck (found t x) ≡ true
      → (mgrbtree_remove cmp fuel t x).1 ≡ unended
  unfolding mgrbtree_remove
  mgrbtree_remove-none fuel t x h = ap (write_rchild x) (remove_below-none fuel t x [] t h)
