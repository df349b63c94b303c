-- ===== src/Avltree/Balance.antt =====
-- src/mgavltree.c: insertion keeps the heights, the balance and the parent pointers right, and
-- never reads through NULL.
use Prim.Native.Nat.{Ordering}
use Prim.Native.Nat.Ordering.{lt, eq, gt}
use mg_std.Base.{
  ℕ, ◌+◌, ◌≤◌, ◌≡◌, refl, ap, ◌∙◌, ◌⊎◌, inl, inr, Bool, true, false, Option, arith, ◌==◌,
  if◌then◌else◌, Bool-cases, lt_or_le,
}
use mg_std.Bintree.{Ptr, leaf, node}
use mg_std.Avltree.{
  Node, Avl, height1, adopt, update_height, and_then, left_left_rotation, right_right_rotation,
  left_right_rotation, right_left_rotation, balance_left, balance_right, insert_node,
}
use mg_std.Avltree.Order.{insert_at_gt, insert_at_lt, insert_at_eq}
use mg_std.Avltree.Rotations.{
  IsValid, Returns, Returns-imp, Returns-and_then, Leans, Restored, left_left-Restored,
  right_right-Restored, left_right-Restored, right_left-Restored,
}

module _ (cmp : Ptr → Ptr → Ordering) (x : Ptr) where
  -- What an insertion below the parent `p` makes of `t`: a valid tree that is as high as before,
  -- or higher by one and leaning.
  abbrev pub Inserted : Ptr → Avl → Avl → Type 0
  Inserted p t t' =
      IsValid p t'
      × ((height1 t' ≡ height1 t) ⊎ ((height1 t' ≡ height1 t + 1) × ((t ≡ leaf) ⊎ Leans cmp x t')))

  -- How a subtree has changed.
  abbrev Grown : Avl → Avl → Type 0
  Grown l l' =
      (height1 l' ≡ height1 l) ⊎ ((height1 l' ≡ height1 l + 1) × ((l ≡ leaf) ⊎ Leans cmp x l'))

  module _ (p : Ptr) (l l' : Avl) (n : Node) (r : Avl) (old : IsValid p (node l n r)) where
    settled_left :
        cmp n.at x ≡ gt
        → IsValid n.at l'
        → Grown l l'
        → (height1 l' == height1 r + 2) ≡ false
        → Returns (Inserted p (node l n r)) (update_height (node l' n r))
    settled_left c v grown level =
        let (vp, vh, v1, v2, vl, vr) = old in
        elim grown [
          | inl same ↦ ((vp, refl, omega arith, omega arith, v, vr), inl (omega arith))
          | inr (more, _) ↦
              let small : height1 l' ≤ height1 r + 1 = ground arith in
              (
                (vp, refl, small, omega arith, v, vr),
                elim (lt_or_le (height1 r) (height1 l')) [
                  | inl above ↦ inr (omega arith, inr (inl (c, omega arith)))
                  | inr below ↦ inl (omega arith)
                ],
              )
        ]

    restored :
        (o : Option Avl) (h : ℕ)
        → h ≡ n.height + 1
        → Returns (Restored cmp x p h) o
        → Returns (Inserted p (node l n r)) o
    restored o h e =
        Returns-imp (Restored cmp x p h) (Inserted p (node l n r)) o (λ t (v, k). (v, inl (k ∙ e)))

  -- Which rotation is made.
  module _ (a : Avl) (m : Node) (b : Avl) (n : Node) (r : Avl) where
    balance_left-gt :
        (height1 (node a m b) == height1 r + 2) ≡ true
        → cmp m.at x ≡ gt
        → balance_left cmp (node (node a m b) n r) x ≡ left_left_rotation (node (node a m b) n r)
    unfolding balance_left
    balance_left-gt h c = ground arith

    balance_left-lt :
        (height1 (node a m b) == height1 r + 2) ≡ true
        → cmp m.at x ≡ lt
        → balance_left cmp (node (node a m b) n r) x ≡ left_right_rotation (node (node a m b) n r)
    unfolding balance_left
    balance_left-lt h c = ground arith

    balance_right-lt :
        (height1 (node a m b) == height1 r + 2) ≡ true
        → cmp m.at x ≡ lt
        → balance_right cmp (node r n (node a m b)) x ≡ right_right_rotation (node r n (node a m b))
    unfolding balance_right
    balance_right-lt h c = ground arith

    balance_right-gt :
        (height1 (node a m b) == height1 r + 2) ≡ true
        → cmp m.at x ≡ gt
        → balance_right cmp (node r n (node a m b)) x ≡ right_left_rotation (node r n (node a m b))
    unfolding balance_right
    balance_right-gt h c = ground arith

  fixed_left :
      (p : Ptr) (l l' : Avl) (n : Node) (r : Avl)
      → IsValid p (node l n r)
      → cmp n.at x ≡ gt
      → IsValid n.at l'
      → Grown l l'
      → Returns
          (Inserted p (node l n r))
          (and_then (balance_left cmp (node l' n r) x) update_height)
  unfolding balance_left
  fixed_left p l leaf n r old c v grown =
      let level : (0 == height1 r + 2) ≡ false = ground arith in
      rw level (settled_left p l leaf n r old c v grown level)
  fixed_left p l (node a m b) n r old c v grown =
      let (vp, vh, v1, v2, vl, vr) = old in
      let (wp, wh, w1, w2, va, vb) = v in
      elim (Bool-cases (height1 (node a m b) == height1 r + 2)) [
        | inr level ↦ rw level (settled_left p l (node a m b) n r old c v grown level)
        | inl high ↦
            let h : m.height + 1 ≡ height1 r + 2 = ground arith in
            elim grown [
              | inl same ↦ absurd (omega arith)
              | inr (more, inl nil) ↦ let z : height1 l ≡ 0 = ap height1 nil in absurd (omega arith)
              | inr (more, inr (inl (d, side))) ↦ rw (balance_left-gt a m b n r high d) (
                  restored p l (node a m b) n r old
                    (and_then (left_left_rotation (node (node a m b) n r)) update_height)
                    (height1 r + 2) (omega arith)
                    (left_left-Restored cmp x p a m b n r vp va vb vr (omega arith) (omega arith)
                      (omega arith)))
              | inr (more, inr (inr (d, side))) ↦ rw (balance_left-lt a m b n r high d) (
                  restored p l (node a m b) n r old
                    (and_then (left_right_rotation (node (node a m b) n r)) update_height)
                    (height1 r + 2) (omega arith)
                    (left_right-Restored cmp x p a m b n r vp va vb vr (omega arith) (omega arith)))
            ]
      ]

  module _ (p : Ptr) (l r r' : Avl) (n : Node) (old : IsValid p (node l n r)) where
    settled_right :
        cmp n.at x ≡ lt
        → IsValid n.at r'
        → Grown r r'
        → (height1 r' == height1 l + 2) ≡ false
        → Returns (Inserted p (node l n r)) (update_height (node l n r'))
    settled_right c v grown level =
        let (vp, vh, v1, v2, vl, vr) = old in
        elim grown [
          | inl same ↦ ((vp, refl, omega arith, omega arith, vl, v), inl (omega arith))
          | inr (more, _) ↦
              let small : height1 r' ≤ height1 l + 1 = ground arith in
              (
                (vp, refl, omega arith, small, vl, v),
                elim (lt_or_le (height1 l) (height1 r')) [
                  | inl above ↦ inr (omega arith, inr (inr (c, omega arith)))
                  | inr below ↦ inl (omega arith)
                ],
              )
        ]

  fixed_right :
      (p : Ptr) (l r r' : Avl) (n : Node)
      → IsValid p (node l n r)
      → cmp n.at x ≡ lt
      → IsValid n.at r'
      → Grown r r'
      → Returns
          (Inserted p (node l n r))
          (and_then (balance_right cmp (node l n r') x) update_height)
  unfolding balance_right
  fixed_right p l r leaf n old c v grown =
      let level : (0 == height1 l + 2) ≡ false = ground arith in
      rw level (settled_right p l r leaf n old c v grown level)
  fixed_right p l r (node a m b) n old c v grown =
      let (vp, vh, v1, v2, vl, vr) = old in
      let (wp, wh, w1, w2, va, vb) = v in
      elim (Bool-cases (height1 (node a m b) == height1 l + 2)) [
        | inr level ↦ rw level (settled_right p l r (node a m b) n old c v grown level)
        | inl high ↦
            let h : m.height + 1 ≡ height1 l + 2 = ground arith in
            elim grown [
              | inl same ↦ absurd (omega arith)
              | inr (more, inl nil) ↦ let z : height1 r ≡ 0 = ap height1 nil in absurd (omega arith)
              | inr (more, inr (inr (d, side))) ↦ rw (balance_right-lt a m b n l high d) (
                  restored p l leaf n r old
                    (and_then (right_right_rotation (node l n (node a m b))) update_height)
                    (height1 l + 2) (omega arith)
                    (right_right-Restored cmp x p l n a m b vp vl va vb (omega arith) (omega arith)
                      (omega arith)))
              | inr (more, inr (inl (d, side))) ↦ rw (balance_right-gt a m b n l high d) (
                  restored p l leaf n r old
                    (and_then (right_left_rotation (node l n (node a m b))) update_height)
                    (height1 l + 2) (omega arith)
                    (right_left-Restored cmp x p l n a m b vp vl va vb (omega arith) (omega arith)))
            ]
      ]

  height1-adopt : (v : Ptr) (t : Avl) → height1 (adopt v x t) ≡ height1 t
  height1-adopt v leaf = refl
  height1-adopt v (node l n r) = ground arith

  Leans-adopt : (v : Ptr) (t : Avl) → Leans cmp x t → Leans cmp x (adopt v x t)
  Leans-adopt v leaf h = h
  Leans-adopt v (node l n r) h =
      elim (n.at == x)
        as (λ (b : Bool).
          Leans cmp x (if b then node l (record n { parent = v }) r else node l n r)) [
            | true ↦ h
            | false ↦ h
          ]

  IsValid-adopt : (v : Ptr) (t : Avl) → IsValid v t → IsValid v (adopt v x t)
  IsValid-adopt v leaf h = h
  IsValid-adopt v (node l n r) h =
      elim (n.at == x)
        as (λ (b : Bool).
          IsValid v (if b then node l (record n { parent = v }) r else node l n r)) [
            | true ↦ (refl, h.1, h.2, h.3, h.4, h.5)
            | false ↦ h
          ]

  abbrev pub parent_of : Ptr → Avl → Ptr
  parent_of p leaf = 0
  parent_of p (node l n r) = p

  -- The new subtree, once its root has been given its parent.
  adopted :
      (v : Ptr) (l : Avl)
      → Returns (Inserted (parent_of v l) l) (insert_node cmp l x)
      → Returns (λ l'. IsValid v (adopt v x l') × Grown l (adopt v x l')) (insert_node cmp l x)
  unfolding insert_node
  adopted v leaf h =
      let e : (x == x) ≡ true = ground arith in
      rw e ((refl, refl, omega arith, omega arith, tt, tt), inr (refl, inl refl))
  adopted v (node a n b) h =
      Returns-imp (Inserted v (node a n b))
        (λ l'. IsValid v (adopt v x l') × Grown (node a n b) (adopt v x l'))
        (insert_node cmp (node a n b) x)
        (λ l' (valid, grown). (
          IsValid-adopt v l' valid,
          elim grown [
            | inl same ↦ inl (height1-adopt v l' ∙ same)
            | inr (more, inl nil) ↦ inr (height1-adopt v l' ∙ more, inl nil)
            | inr (more, inr side) ↦ inr (height1-adopt v l' ∙ more, inr (Leans-adopt v l' side))
          ],
        ))
        h

  order_cases : (o : Ordering) → (o ≡ lt) ⊎ ((o ≡ eq) ⊎ (o ≡ gt))
  order_cases lt = inl refl
  order_cases eq = inr (inl refl)
  order_cases gt = inr (inr refl)

  leaf-Inserted : Returns (Inserted 0 leaf) (insert_node cmp leaf x)
  unfolding insert_node
  leaf-Inserted = ((refl, refl, omega arith, omega arith, tt, tt), inr (refl, inl refl))

  -- Insertion in a valid tree returns a valid tree, as high as before or higher by one.
  pub insert_node-Inserted :
      (p : Ptr) (t : Avl) → IsValid p t → Returns (Inserted (parent_of p t) t) (insert_node cmp t x)
  insert_node-Inserted p leaf v = leaf-Inserted
  insert_node-Inserted p (node l n r) v =
      let (vp, vh, v1, v2, vl, vr) = v in
      elim (order_cases (cmp n.at x)) [
        | inl c ↦ rw (insert_at_lt cmp l n r x c) (
            Returns-and_then (λ r'. IsValid n.at (adopt n.at x r') × Grown r (adopt n.at x r'))
              (Inserted p (node l n r)) (insert_node cmp r x)
              (λ r'. and_then (balance_right cmp (node l n (adopt n.at x r')) x) update_height)
              (adopted n.at r (insert_node-Inserted n.at r vr))
              (λ r' (w, grown). fixed_right p l r (adopt n.at x r') n v c w grown))
        | inr (inl c) ↦ rw (insert_at_eq cmp l n r x c) (v, inl refl)
        | inr (inr c) ↦ rw (insert_at_gt cmp l n r x c) (
            Returns-and_then (λ l'. IsValid n.at (adopt n.at x l') × Grown l (adopt n.at x l'))
              (Inserted p (node l n r)) (insert_node cmp l x)
              (λ l'. and_then (balance_left cmp (node (adopt n.at x l') n r) x) update_height)
              (adopted n.at l (insert_node-Inserted n.at l vl))
              (λ l' (w, grown). fixed_left p l (adopt n.at x l') n r v c w grown))
      ]
