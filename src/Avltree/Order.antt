-- ===== src/Avltree/Order.antt =====
-- src/mgavltree.c: the nodes of the tree as a list in order.
use Prim.Native.Nat.{Ordering}
use Prim.Native.Nat.Ordering.{lt, eq, gt}
use mg_std.Base.{
  ℕ, ◌≡◌, refl, sym, ap, ◌∙◌, inl, inr, Option, none, some, List, [], ◌∷◌, ◌++◌, append_assoc,
  arith,
}
use mg_std.Bintree.{Ptr, leaf, node, inorder}
use mg_std.Bintree.Order.{
  IsSorted, insert_sorted, find, IsSorted-split, insert_left, insert_right, insert_middle,
  find_left, find_right, find_middle, Agrees, compared,
}
use mg_std.Avltree.{
  Node, Avl, set_parent, adopt, update_height, and_then, left_left_rotation, right_right_rotation,
  left_right_rotation, right_left_rotation, balance_left, balance_right, insert_node, search_loop,
}

abbrev pub nodes : Avl → List Ptr
nodes = inorder (λ n. n.at)

-- What holds of a result, if there is one.
abbrev pub Holds : {A : Type 0} → (A → Type 0) → Option A → Type 0
Holds P none = Unit
Holds P (some a) = P a

pub Holds-and_then :
    {A B : Type 0} {P : A → Type 0} (Q : B → Type 0) (o : Option A) (f : A → Option B)
    → Holds P o
    → ((a : A) → P a → Holds Q (f a))
    → Holds Q (and_then o f)
Holds-and_then Q none f h k = tt
Holds-and_then Q (some a) f h k = k a h

-- The result has the nodes `xs`.
abbrev pub Has : List Ptr → Option Avl → Type 0
Has xs = Holds (λ t. nodes t ≡ xs)

nodes-set_parent : (v : Ptr) (t : Avl) → nodes (set_parent v t) ≡ nodes t
nodes-set_parent v leaf = refl
nodes-set_parent v (node l n r) = refl

pub nodes-adopt : (root x : Ptr) (t : Avl) → nodes (adopt root x t) ≡ nodes t
nodes-adopt root x leaf = refl
nodes-adopt root x (node l n r) = ground arith

Has-update_height : (t : Avl) (xs : List Ptr) → nodes t ≡ xs → Has xs (update_height t)
Has-update_height leaf xs h = tt
Has-update_height (node l n r) xs h = h

-- The rotations keep the nodes and their order.
Has-left_left : (t : Avl) → Has (nodes t) (left_left_rotation t)
unfolding left_left_rotation
Has-left_left leaf = tt
Has-left_left (node leaf n c) = tt
Has-left_left (node (node a m b) n c) =
    ap (λ (ys : List Ptr). nodes a ++ (m.at ∷ (ys ++ (n.at ∷ nodes c)))) (nodes-set_parent n.at b)
    ∙ sym (append_assoc (nodes a) (m.at ∷ nodes b) (n.at ∷ nodes c))

Has-right_right : (t : Avl) → Has (nodes t) (right_right_rotation t)
unfolding right_right_rotation
Has-right_right leaf = tt
Has-right_right (node a n leaf) = tt
Has-right_right (node a n (node b m c)) =
    ap (λ (ys : List Ptr). (nodes a ++ (n.at ∷ ys)) ++ (m.at ∷ nodes c)) (nodes-set_parent n.at b)
    ∙ append_assoc (nodes a) (n.at ∷ nodes b) (m.at ∷ nodes c)

Has-same : (o : Option Avl) {xs ys : List Ptr} → xs ≡ ys → Has xs o → Has ys o
Has-same none e h = tt
Has-same (some t) e h = h ∙ e

Has-left_right : (t : Avl) → Has (nodes t) (left_right_rotation t)
unfolding left_right_rotation
Has-left_right leaf = tt
Has-left_right (node l n r) =
    Holds-and_then (λ t. nodes t ≡ nodes l ++ (n.at ∷ nodes r)) (right_right_rotation l)
      (λ l'. left_left_rotation (node l' n r)) (Has-right_right l)
      (λ l' h.
        Has-same (left_left_rotation (node l' n r))
          (ap (λ (ys : List Ptr). ys ++ (n.at ∷ nodes r)) h) (Has-left_left (node l' n r)))

Has-right_left : (t : Avl) → Has (nodes t) (right_left_rotation t)
unfolding right_left_rotation
Has-right_left leaf = tt
Has-right_left (node l n r) =
    Holds-and_then (λ t. nodes t ≡ nodes l ++ (n.at ∷ nodes r)) (left_left_rotation r)
      (λ r'. right_right_rotation (node l n r')) (Has-left_left r)
      (λ r' h.
        Has-same (right_right_rotation (node l n r'))
          (ap (λ (ys : List Ptr). nodes l ++ (n.at ∷ ys)) h) (Has-right_right (node l n r')))

module _ (cmp : Ptr → Ptr → Ordering) where
  Has-balance_left : (t : Avl) (x : Ptr) → Has (nodes t) (balance_left cmp t x)
  unfolding balance_left
  Has-balance_left leaf x = tt
  Has-balance_left (node leaf n r) x = ground arith
  Has-balance_left (node (node a b c) n r) x =
      ground (arith, Has-left_left (node (node a b c) n r), Has-left_right (node (node a b c) n r))

  Has-balance_right : (t : Avl) (x : Ptr) → Has (nodes t) (balance_right cmp t x)
  unfolding balance_right
  Has-balance_right leaf x = tt
  Has-balance_right (node l n leaf) x = ground arith
  Has-balance_right (node l n (node a b c)) x =
      ground
        (arith, Has-right_right (node l n (node a b c)), Has-right_left (node l n (node a b c)))

  -- The three ways of an insertion at a node.
  module _ (l : Avl) (n : Node) (r : Avl) (x : Ptr) where
    pub insert_at_gt :
        cmp n.at x ≡ gt
        → insert_node cmp (node l n r) x
          ≡ and_then
              (insert_node cmp l x)
              (λ l'. and_then (balance_left cmp (node (adopt n.at x l') n r) x) update_height)
    unfolding insert_node
    insert_at_gt c = rw (c, insert_node)

    pub insert_at_lt :
        cmp n.at x ≡ lt
        → insert_node cmp (node l n r) x
          ≡ and_then
              (insert_node cmp r x)
              (λ r'. and_then (balance_right cmp (node l n (adopt n.at x r')) x) update_height)
    unfolding insert_node
    insert_at_lt c = rw (c, insert_node)

    pub insert_at_eq : cmp n.at x ≡ eq → insert_node cmp (node l n r) x ≡ some (node l n r)
    unfolding insert_node
    insert_at_eq c = rw (c, insert_node)

  Has-leaf : (x : Ptr) → Has (x ∷ []) (insert_node cmp leaf x)
  unfolding insert_node
  Has-leaf x = refl

  Has-balanced :
      (o : Option Avl) {xs ys : List Ptr} → xs ≡ ys → Has xs o → Has ys (and_then o update_height)
  Has-balanced none e h = tt
  Has-balanced (some t) e h = Has-update_height t _ (h ∙ e)

  module _ (rank : Ptr → ℕ) (agrees : Agrees cmp rank) where
    pub Has-insert_node :
        (t : Avl) (x : Ptr)
        → IsSorted rank (nodes t)
        → Has (insert_sorted rank x (nodes t)) (insert_node cmp t x)
    Has-insert_node leaf x s = Has-leaf x
    Has-insert_node (node l n r) x s =
        let (sl, below, above, sr) = IsSorted-split rank (nodes l) (nodes r) n.at s in
        elim (compared cmp rank agrees n.at x) [
          | inl (c, h) ↦
              rw (insert_at_lt l n r x c, insert_right rank x n.at (nodes l) (nodes r) h below)
                (Holds-and_then (λ t. nodes t ≡ nodes l ++ (n.at ∷ insert_sorted rank x (nodes r)))
                  (insert_node cmp r x)
                  (λ r'. and_then (balance_right cmp (node l n (adopt n.at x r')) x) update_height)
                  (Has-insert_node r x sr)
                  (λ r' e.
                    Has-balanced (balance_right cmp (node l n (adopt n.at x r')) x)
                      (ap (λ (ys : List Ptr). nodes l ++ (n.at ∷ ys)) (nodes-adopt n.at x r' ∙ e))
                      (Has-balance_right (node l n (adopt n.at x r')) x)))
          | inr (inl (c, h)) ↦
              rw
                (
                  insert_at_eq l n r x c,
                  insert_middle rank x n.at (nodes l) (nodes r) (sym h) below,
                )
                refl
          | inr (inr (c, h)) ↦
              rw (insert_at_gt l n r x c, insert_left rank x n.at (nodes l) (nodes r) h)
                (Holds-and_then (λ t. nodes t ≡ insert_sorted rank x (nodes l) ++ (n.at ∷ nodes r))
                  (insert_node cmp l x)
                  (λ l'. and_then (balance_left cmp (node (adopt n.at x l') n r) x) update_height)
                  (Has-insert_node l x sl)
                  (λ l' e.
                    Has-balanced (balance_left cmp (node (adopt n.at x l') n r) x)
                      (ap (λ (ys : List Ptr). ys ++ (n.at ∷ nodes r)) (nodes-adopt n.at x l' ∙ e))
                      (Has-balance_left (node (adopt n.at x l') n r) x)))
        ]

    -- `mg_avltree_search` finds the node of the rank, if there is one.
    pub search_loop-find :
        (t : Avl) (x : Ptr) → IsSorted rank (nodes t) → search_loop cmp t x ≡ find rank x (nodes t)
    unfolding search_loop
    search_loop-find leaf x s = refl
    search_loop-find (node l n r) x s =
        let (sl, below, above, sr) = IsSorted-split rank (nodes l) (nodes r) n.at s in
        elim (compared cmp rank agrees n.at x) [
          | inl (c, h) ↦
              rw (c, search_loop) (search_loop-find r x sr)
              ∙ sym (find_right rank x n.at (nodes l) (nodes r) h below)
          | inr (inl (c, h)) ↦
              rw (c, search_loop) (sym (find_middle rank x n.at (nodes l) (nodes r) h below))
          | inr (inr (c, h)) ↦
              rw (c, search_loop) (search_loop-find l x sl)
              ∙ sym (find_left rank x n.at (nodes l) (nodes r) h above)
        ]
