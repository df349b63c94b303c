-- ===== src/Rbtree/Order.antt =====
-- src/mgrbtree.c: the nodes of a tree as a list in order, equal nodes in the order of insertion.
use Prim.Native.Nat.{Ordering}
use Prim.Native.Nat.Ordering.{lt, eq, gt}
use mg_std.Rbtree.Ascending.{
  IsAscending, IsAscending-split, insert_after, insert_before, insert_behind,
}
use mg_std.Base.{
  on_if, ℕ, ◌≡◌, refl, sym, ap, ap₂, ◌∙◌, ◌⊎◌, inl, inr, Bool, true, false, Option, none, some,
  List, [], ◌∷◌, ◌++◌, append_assoc, arith, if◌then◌else◌,
}
use mg_std.Bintree.{Ptr, leaf, node, inorder}
use mg_std.Bintree.Order.{Agrees, compared}
use mg_std.Rbtree.{
  Node, Rb, Side, left_side, right_side, Frame, same_side, join, plug, zip, is_red, paint,
  set_parent, left_rote, right_rote, rote, other, restructure, recolour, fixup_insert, descend,
  linked, parent_at, mgrbtree_insert,
}

abbrev pub nodes : Rb → List Ptr
nodes = inorder (λ n. n.at)

pub nodes-paint : (c : Bool) (t : Rb) → nodes (paint c t) ≡ nodes t
nodes-paint c leaf = refl
nodes-paint c (node l n r) = refl

pub nodes-set_parent : (v : Ptr) (t : Rb) → nodes (set_parent v t) ≡ nodes t
nodes-set_parent v leaf = refl
nodes-set_parent v (node l n r) = refl

pub nodes-rote : (s : Side) (t : Rb) → nodes (rote s t) ≡ nodes t
unfolding left_rote right_rote
nodes-rote left_side leaf = refl
nodes-rote left_side (node a n leaf) = refl
nodes-rote left_side (node a n (node b m c)) =
    ap (λ (ys : List Ptr). (nodes a ++ (n.at ∷ ys)) ++ (m.at ∷ nodes c)) (nodes-set_parent n.at b)
    ∙ append_assoc (nodes a) (n.at ∷ nodes b) (m.at ∷ nodes c)
nodes-rote right_side leaf = refl
nodes-rote right_side (node leaf n c) = refl
nodes-rote right_side (node (node a m b) n c) =
    ap (λ (ys : List Ptr). nodes a ++ (m.at ∷ (ys ++ (n.at ∷ nodes c)))) (nodes-set_parent n.at b)
    ∙ sym (append_assoc (nodes a) (m.at ∷ nodes b) (n.at ∷ nodes c))

-- The nodes of a joined tree depend on those of its parts.
pub nodes-join :
    (s : Side) (t t' : Rb) (n n' : Node) (u u' : Rb)
    → nodes t ≡ nodes t'
    → n.at ≡ n'.at
    → nodes u ≡ nodes u'
    → nodes (join s t n u) ≡ nodes (join s t' n' u')
nodes-join left_side t t' n n' u u' p q r =
    ap₂ (λ (x : List Ptr) y. x ++ y) p (ap₂ (λ (a : Ptr) y. a ∷ y) q r)
nodes-join right_side t t' n n' u u' p q r =
    ap₂ (λ (x : List Ptr) y. x ++ y) r (ap₂ (λ (a : Ptr) y. a ∷ y) q p)

pub nodes-plug : (f : Frame) (t t' : Rb) → nodes t ≡ nodes t' → nodes (plug f t) ≡ nodes (plug f t')
nodes-plug f t t' h = nodes-join f.side t t' f.above f.above f.sibling f.sibling h refl refl

pub nodes-zip :
    (fs : List Frame) (t t' : Rb) → nodes t ≡ nodes t' → nodes (zip fs t) ≡ nodes (zip fs t')
unfolding zip
nodes-zip [] t t' h = h
nodes-zip (f ∷ fs) t t' h = nodes-zip fs (plug f t) (plug f t') (nodes-plug f t t' h)

nodes-recolour : (z : Rb) (p g : Frame) → nodes (recolour z p g) ≡ nodes (plug g (plug p z))
nodes-recolour z p g =
    nodes-join g.side _ _ _ _ _ _ (nodes-paint false (plug p z)) refl (nodes-paint false g.sibling)

nodes-restructure : (z : Rb) (p g : Frame) → nodes (restructure z p g) ≡ nodes (plug g (plug p z))
unfolding restructure
nodes-restructure z p g =
    nodes-rote (other g.side) _
    ∙ nodes-join g.side _ _ _ _ _ _
        (nodes-paint false (if same_side p.side g.side then plug p z else rote g.side (plug p z))
          ∙ inner (same_side p.side g.side))
        refl refl
  where
    inner : (b : Bool) → nodes (if b then plug p z else rote g.side (plug p z)) ≡ nodes (plug p z)
    inner true = refl
    inner false = nodes-rote g.side (plug p z)

-- The nodes of a result, if there is one.
abbrev pub Has : List Ptr → Option Rb → Type 0
Has xs none = Unit
Has xs (some t) = nodes t ≡ xs

pub Has-eq : {xs ys : List Ptr} (o : Option Rb) → xs ≡ ys → Has xs o → Has ys o
Has-eq none q h = tt
Has-eq (some t) q h = h ∙ q

pub Has-fixup_insert : (z : Rb) (fs : List Frame) → Has (nodes (zip fs z)) (fixup_insert z fs)
unfolding fixup_insert zip
Has-fixup_insert z [] = nodes-paint false z
Has-fixup_insert z (p ∷ []) =
    on_if (Has (nodes (plug p z))) p.above.red (λ red. tt) (λ black. nodes-paint false (plug p z))
Has-fixup_insert z (p ∷ (g ∷ fs)) =
    on_if (Has (nodes (zip fs (plug g (plug p z))))) p.above.red
      (λ red.
        on_if (Has (nodes (zip fs (plug g (plug p z))))) (is_red g.sibling)
          (λ again.
            Has-eq (fixup_insert (recolour z p g) fs)
              (nodes-zip fs (recolour z p g) (plug g (plug p z)) (nodes-recolour z p g))
              (Has-fixup_insert (recolour z p g) fs))
          (λ ends.
            nodes-paint false (zip fs (restructure z p g))
            ∙ nodes-zip fs (restructure z p g) (plug g (plug p z)) (nodes-restructure z p g)))
      (λ black. nodes-paint false (zip fs (plug g (plug p z))))

module _ (cmp : Ptr → Ptr → Ordering) where
  pub orderings : (o : Ordering) → (o ≡ lt) ⊎ ((o ≡ eq) ⊎ (o ≡ gt))
  orderings lt = inl refl
  orderings eq = inr (inl refl)
  orderings gt = inr (inr refl)

  -- The tree with the node `v` at the free place where the descent ends.
  abbrev pub place : Rb → Ptr → Node → Rb
  place leaf x v = node leaf v leaf
  place (node l n r) x v = elim (cmp n.at x) [
    | gt ↦ node (place l x v) n r
    | _ ↦ node l n (place r x v)
  ]

  zip-descend :
      (t : Rb) (x : Ptr) (v : Node) (fs : List Frame)
      → zip (descend cmp t x fs) (node leaf v leaf) ≡ zip fs (place t x v)
  unfolding descend zip
  zip-descend leaf x v fs = refl
  zip-descend (node l n r) x v fs = elim (orderings (cmp n.at x)) [
    | inl e ↦
        rw (e, descend, place)
          (zip-descend r x v (record { side = right_side; above = n; sibling = l } ∷ fs))
    | inr (inl e) ↦
        rw (e, descend, place)
          (zip-descend r x v (record { side = right_side; above = n; sibling = l } ∷ fs))
    | inr (inr e) ↦
        rw (e, descend, place)
          (zip-descend l x v (record { side = left_side; above = n; sibling = r } ∷ fs))
  ]

  module _ (rank : Ptr → ℕ) (agrees : Agrees cmp rank) where
    nodes-place :
        (t : Rb) (x : Ptr) (v : Node)
        → v.at ≡ x
        → IsAscending rank (nodes t)
        → nodes (place t x v) ≡ insert_after rank x (nodes t)
    nodes-place leaf x v h s = ap (λ a. a ∷ []) h
    nodes-place (node l n r) x v h s =
        let (sl, before, behind, sr) = IsAscending-split rank (nodes l) (nodes r) n.at s in
        elim (compared cmp rank agrees n.at x) [
          | inl (c, q) ↦
              rw (c, place)
                (ap (λ (ys : List Ptr). nodes l ++ (n.at ∷ ys)) (nodes-place r x v h sr))
              ∙ sym (insert_behind rank x n.at (nodes l) (nodes r) (omega arith) before)
          | inr (inl (c, q)) ↦
              rw (c, place)
                (ap (λ (ys : List Ptr). nodes l ++ (n.at ∷ ys)) (nodes-place r x v h sr))
              ∙ sym (insert_behind rank x n.at (nodes l) (nodes r) (omega arith) before)
          | inr (inr (c, q)) ↦
              rw (c, place)
                (ap (λ (ys : List Ptr). ys ++ (n.at ∷ nodes r)) (nodes-place l x v h sl))
              ∙ sym (insert_before rank x n.at (nodes l) (nodes r) q)
        ]

    -- The comparison of the new node with its parent chooses the side where the descent ended.
    pub linked-descend :
        (t : Rb) (x : Ptr) (fs : List Frame)
        → linked cmp x fs ≡ fs
        → linked cmp x (descend cmp t x fs) ≡ descend cmp t x fs
    unfolding linked descend
    linked-descend leaf x fs h = h
    linked-descend (node l n r) x fs h = elim (compared cmp rank agrees n.at x) [
      | inl (c, q) ↦
          rw (c, descend)
            (linked-descend r x (record { side = right_side; above = n; sibling = l } ∷ fs)
              (elim (compared cmp rank agrees x n.at) [
                | inl (d, q') ↦ absurd (omega arith)
                | inr (inl (d, q')) ↦ rw (d, linked) refl
                | inr (inr (d, q')) ↦ rw (d, linked) refl
              ]))
      | inr (inl (c, q)) ↦
          rw (c, descend)
            (linked-descend r x (record { side = right_side; above = n; sibling = l } ∷ fs)
              (elim (compared cmp rank agrees x n.at) [
                | inl (d, q') ↦ absurd (omega arith)
                | inr (inl (d, q')) ↦ rw (d, linked) refl
                | inr (inr (d, q')) ↦ rw (d, linked) refl
              ]))
      | inr (inr (c, q)) ↦
          rw (c, descend)
            (linked-descend l x (record { side = left_side; above = n; sibling = r } ∷ fs)
              (elim (compared cmp rank agrees x n.at) [
                | inl (d, q') ↦ rw (d, linked) refl
                | inr (inl (d, q')) ↦ absurd (omega arith)
                | inr (inr (d, q')) ↦ absurd (omega arith)
              ]))
    ]

    -- The nodes that an insertion leaves, if it returns.
    pub Has-mgrbtree_insert :
        (t : Rb) (x : Ptr)
        → IsAscending rank (nodes t)
        → Has (insert_after rank x (nodes t)) (mgrbtree_insert cmp t x)
    unfolding mgrbtree_insert zip
    Has-mgrbtree_insert t x s =
        let fs = linked cmp x (descend cmp t x []) in
        let v : Node = record { at = x; parent = parent_at fs; red = true } in
        Has-eq (fixup_insert (node leaf v leaf) fs)
          (ap (λ gs. nodes (zip gs (node leaf v leaf))) (linked-descend t x [] refl)
            ∙ ap nodes (zip-descend t x v [])
            ∙ nodes-place t x v refl s)
          (Has-fixup_insert (node leaf v leaf) fs)
