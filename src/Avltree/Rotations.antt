-- ===== src/Avltree/Rotations.antt =====
-- src/mgavltree.c: validity of a tree, and that each rotation restores it.
use Prim.Native.Nat.{Ordering}
use Prim.Native.Nat.Ordering.{lt, gt}
use mg_std.Base.{ℕ, ◌+◌, ◌≤◌, max, ◌≡◌, refl, ◌⊎◌, Option, none, some, arith}
use mg_std.Bintree.{Ptr, leaf, node}
use mg_std.Avltree.{
  Node, Avl, height1, set_parent, update_height, and_then, left_left_rotation, right_right_rotation,
  left_right_rotation, right_left_rotation,
}

-- Below the parent `p`: the parent pointers are right, a height is that of the subtree, and the
-- heights of siblings differ by at most one.
abbrev pub IsValid : Ptr → Avl → Type 0
IsValid p leaf = Unit
IsValid p (node l n r) =
    (n.parent ≡ p)
    × (n.height ≡ max (height1 l) (height1 r))
    × (height1 l ≤ height1 r + 1)
    × (height1 r ≤ height1 l + 1)
    × IsValid n.at l
    × IsValid n.at r

-- There is a result, and it has the property.
abbrev pub Returns : {A : Type 0} → (A → Type 0) → Option A → Type 0
Returns P none = ⊥
Returns P (some a) = P a

pub Returns-imp :
    {A : Type 0} (P Q : A → Type 0) (o : Option A)
    → ((a : A) → P a → Q a)
    → Returns P o
    → Returns Q o
Returns-imp P Q none f h = h
Returns-imp P Q (some a) f h = f a h

pub Returns-and_then :
    {A B : Type 0} (P : A → Type 0) (Q : B → Type 0) (o : Option A) (f : A → Option B)
    → Returns P o
    → ((a : A) → P a → Returns Q (f a))
    → Returns Q (and_then o f)
Returns-and_then P Q none f h k = h
Returns-and_then P Q (some a) f h k = k a h

IsValid-set_parent : (p q : Ptr) (t : Avl) → IsValid p t → IsValid q (set_parent q t)
IsValid-set_parent p q leaf v = tt
IsValid-set_parent p q (node l n r) v = (refl, v.1, v.2, v.3, v.4, v.5)

height1-set_parent : (q : Ptr) (t : Avl) → height1 (set_parent q t) ≡ height1 t
height1-set_parent q leaf = refl
height1-set_parent q (node l n r) = refl

-- The higher side of a left subtree that has grown.
module _ (cmp : Ptr → Ptr → Ordering) (x : Ptr) where
  -- The subtree has grown by one, at the side where the search for `x` goes on.
  abbrev pub Leans : Avl → Type 0
  Leans leaf = ⊥
  Leans (node l n r) =
      ((cmp n.at x ≡ gt) × (height1 l ≡ height1 r + 1))
      ⊎ ((cmp n.at x ≡ lt) × (height1 r ≡ height1 l + 1))

  -- After the rotations: valid, and of the height that the tree had before the insertion.
  abbrev pub Restored : Ptr → ℕ → Avl → Type 0
  Restored p h t = IsValid p t × (height1 t ≡ h)

  pub left_left-Restored :
      (p : Ptr) (a : Avl) (m : Node) (b : Avl) (n : Node) (c : Avl)
      → n.parent ≡ p
      → IsValid m.at a
      → IsValid m.at b
      → IsValid n.at c
      → height1 a ≡ height1 c + 1
      → height1 b ≤ height1 c
      → height1 c ≤ height1 b + 1
      → Returns
          (Restored p (height1 c + 2))
          (and_then (left_left_rotation (node (node a m b) n c)) update_height)
  unfolding left_left_rotation
  left_left-Restored p a m b n c e va vb vc h k g =
      let s = height1-set_parent n.at b in
      let n' = record n { parent = m.at; height = max (height1 b) (height1 c) } in
      let low : IsValid m.at (node (set_parent n.at b) n' c) = (
        refl,
        omega (arith, s),
        omega (arith, s),
        omega (arith, s),
        IsValid-set_parent m.at n.at b vb,
        vc,
      ) in
      ((e, omega (arith, s), omega (arith, s), omega (arith, s), va, low), omega (arith, s))

  pub right_right-Restored :
      (p : Ptr) (a : Avl) (n : Node) (b : Avl) (m : Node) (c : Avl)
      → n.parent ≡ p
      → IsValid n.at a
      → IsValid m.at b
      → IsValid m.at c
      → height1 c ≡ height1 a + 1
      → height1 b ≤ height1 a
      → height1 a ≤ height1 b + 1
      → Returns
          (Restored p (height1 a + 2))
          (and_then (right_right_rotation (node a n (node b m c))) update_height)
  unfolding right_right_rotation
  right_right-Restored p a n b m c e va vb vc h k g =
      let s = height1-set_parent n.at b in
      let n' = record n { parent = m.at; height = max (height1 a) (height1 b) } in
      let low : IsValid m.at (node a n' (set_parent n.at b)) = (
        refl,
        omega (arith, s),
        omega (arith, s),
        omega (arith, s),
        va,
        IsValid-set_parent m.at n.at b vb,
      ) in
      ((e, omega (arith, s), omega (arith, s), omega (arith, s), low, vc), omega (arith, s))

  pub left_right-Restored :
      (p : Ptr) (a : Avl) (m : Node) (b : Avl) (n : Node) (c : Avl)
      → n.parent ≡ p
      → IsValid m.at a
      → IsValid m.at b
      → IsValid n.at c
      → height1 b ≡ height1 a + 1
      → height1 a ≡ height1 c
      → Returns
          (Restored p (height1 c + 2))
          (and_then (left_right_rotation (node (node a m b) n c)) update_height)
  unfolding left_right_rotation right_right_rotation
  left_right-Restored p a m leaf n c e va vb vc h k = absurd (omega arith)
  left_right-Restored p a m (node b1 z b2) n c e va (vp, vh, v1, v2, vb1, vb2) vc h k =
      let s = height1-set_parent m.at b1 in
      let h1 = max (height1 a) (height1 b1) in
      let m' = record m { parent = z.at; height = h1 } in
      let z' = record z { parent = m.parent; height = max (height1 b2) (h1 + 1) } in
      let low : IsValid z.at (node a m' (set_parent m.at b1)) = (
        refl,
        omega (arith, s),
        omega (arith, s),
        omega (arith, s),
        va,
        IsValid-set_parent z.at m.at b1 vb1,
      ) in
      left_left-Restored p (node a m' (set_parent m.at b1)) z' b2 n c e low vb2 vc
        (omega (arith, s)) (omega arith) (omega arith)

  pub right_left-Restored :
      (p : Ptr) (a : Avl) (n : Node) (b : Avl) (m : Node) (c : Avl)
      → n.parent ≡ p
      → IsValid n.at a
      → IsValid m.at b
      → IsValid m.at c
      → height1 b ≡ height1 c + 1
      → height1 c ≡ height1 a
      → Returns
          (Restored p (height1 a + 2))
          (and_then (right_left_rotation (node a n (node b m c))) update_height)
  unfolding right_left_rotation left_left_rotation
  right_left-Restored p a n leaf m c e va vb vc h k = absurd (omega arith)
  right_left-Restored p a n (node b1 z b2) m c e va (vp, vh, v1, v2, vb1, vb2) vc h k =
      let s = height1-set_parent m.at b2 in
      let h1 = max (height1 b2) (height1 c) in
      let m' = record m { parent = z.at; height = h1 } in
      let z' = record z { parent = m.parent; height = max (height1 b1) (h1 + 1) } in
      let low : IsValid z.at (node (set_parent m.at b2) m' c) = (
        refl,
        omega (arith, s),
        omega (arith, s),
        omega (arith, s),
        IsValid-set_parent z.at m.at b2 vb2,
        vc,
      ) in
      right_right-Restored p a n b1 z' (node (set_parent m.at b2) m' c) e va vb1 low
        (omega (arith, s)) (omega arith) (omega arith)
