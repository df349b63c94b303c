-- ===== src/Bstree/Laws.antt =====
-- src/mgbstree.c: what insertion, search and the traversals mean for the list of nodes.
use Prim.Native.Nat.{Ordering}
use mg_std.Base.{ℕ, ◌≡◌, refl, sym, subst, ap, ◌∙◌, inl, inr, Option, none, some, List, ◌∷◌, ◌++◌}
use mg_std.Bintree.{Ptr, leaf, node, inorder}
use mg_std.Bintree.Order.{
  IsSorted, IsSorted-split, insert_sorted, insert_sorted-IsSorted, insert_left, insert_right,
  insert_middle, find, find_left, find_right, find_middle, Agrees, compared,
}
use mg_std.Bstree.{Node, Bst, init_node, attach, insert, search, search_recursive}

-- The nodes of a tree in order.
abbrev pub nodes : Bst → List Ptr
nodes t = inorder (λ (n : Node). n.at) t

-- Every node knows its parent, which is `p` for the root.
abbrev pub HasParents : Ptr → Bst → Type 0
HasParents p leaf = Unit
HasParents p (node l n r) = (n.parent ≡ p) × HasParents n.at l × HasParents n.at r

-- A search tree below no parent.
abbrev pub IsBst : (Ptr → ℕ) → Bst → Type 0
IsBst rank t = HasParents 0 t × IsSorted rank (nodes t)

-- What `mg_Bstree_insert` returns: 0 if a node of the rank is there, no number otherwise.
abbrev pub code_of : Option Ptr → Option ℕ
code_of none = none
code_of (some y) = some 0

module _ (cmp : Ptr → Ptr → Ordering) (rank : Ptr → ℕ) (agrees : Agrees cmp rank) where
  -- What an insertion below a node with the parent `p` gives.
  abbrev Inserts : Ptr → Bst → Ptr → Option ℕ × Bst → Type 0
  Inserts p t x (code, t') =
      (nodes t' ≡ insert_sorted rank x (nodes t))
      × HasParents p t'
      × (code ≡ code_of (find rank x (nodes t)))

  -- An insertion at a place below the node `p`, free or not.
  attach_lem :
      (p : Ptr) (t : Bst) (x : Ptr)
      → HasParents p t
      → IsSorted rank (nodes t)
      → Inserts p t x (attach cmp p t (init_node x) (insert cmp t (init_node x)))
  unfolding insert
  attach_lem p leaf x h s = (refl, (refl, tt, tt), refl)
  attach_lem p (node l n r) x (e, pl, pr) s =
      let (sl, before, after, sr) = IsSorted-split rank (nodes l) (nodes r) n.at s in
      elim (compared cmp rank agrees n.at x) [
        | inl (c, h) ↦
            let (same, parents, code) = attach_lem n.at r x pr sr in
            rw c (
              ap (λ ys. nodes l ++ (n.at ∷ ys)) same
                  ∙ sym (insert_right rank x n.at (nodes l) (nodes r) h before),
              (e, pl, parents),
              code ∙ ap code_of (sym (find_right rank x n.at (nodes l) (nodes r) h before)),
            )
        | inr (inl (c, h)) ↦
            rw
              (
                c,
                insert_middle rank x n.at (nodes l) (nodes r) (sym h) before,
                find_middle rank x n.at (nodes l) (nodes r) h before,
              )
              (refl, (e, pl, pr), refl)
        | inr (inr (c, h)) ↦
            let (same, parents, code) = attach_lem n.at l x pl sl in
            rw c (
              ap (λ ys. ys ++ (n.at ∷ nodes r)) same
                  ∙ sym (insert_left rank x n.at (nodes l) (nodes r) h),
              (e, parents, pr),
              code ∙ ap code_of (sym (find_left rank x n.at (nodes l) (nodes r) h after)),
            )
      ]

  -- `mg_Bstree_insert` of a node without children in a search tree that is not empty: the result is
  -- a search tree, whose nodes are the old ones with the new one inserted in order, or the old ones
  -- if one of the same rank was there. The number 0 is returned if one was there, and no number
  -- otherwise.
  pub insert-IsBst :
      (l : Bst) (n : Node) (r : Bst) (x : Ptr)
      → IsBst rank (node l n r)
      → (code : Option ℕ) × (t : Bst) × (insert cmp (node l n r) (init_node x) ≡ (code, t))
        × IsBst rank t
        × (nodes t ≡ insert_sorted rank x (nodes (node l n r)))
        × (code ≡ code_of (find rank x (nodes (node l n r))))
  insert-IsBst l n r x (p, s) =
      let result = insert cmp (node l n r) (init_node x) in
      let (same, parents, code) = attach_lem 0 (node l n r) x p s in
      (
        result.0,
        result.1,
        refl,
        (
          parents,
          subst (IsSorted rank) (sym same) (insert_sorted-IsSorted rank x (nodes (node l n r)) s),
        ),
        same,
        code,
      )

  search_lem :
      (t : Bst) (x : Ptr) → IsSorted rank (nodes t) → search cmp t x ≡ find rank x (nodes t)
  unfolding search
  search_lem leaf x s = refl
  search_lem (node l n r) x s =
      let (sl, before, after, sr) = IsSorted-split rank (nodes l) (nodes r) n.at s in
      elim (compared cmp rank agrees n.at x) [
        | inl (c, h) ↦
            rw (c, search) (search_lem r x sr)
            ∙ sym (find_right rank x n.at (nodes l) (nodes r) h before)
        | inr (inl (c, h)) ↦
            rw (c, search) (sym (find_middle rank x n.at (nodes l) (nodes r) h before))
        | inr (inr (c, h)) ↦
            rw (c, search) (search_lem l x sl)
            ∙ sym (find_left rank x n.at (nodes l) (nodes r) h after)
      ]

  -- What is stored, if a node is found.
  abbrev pub stored_or : Ptr → Option Ptr → Ptr
  stored_or result none = result
  stored_or result (some y) = y

  recursive_same :
      (t : Bst) (x result : Ptr)
      → search_recursive cmp t x result ≡ stored_or result (search cmp t x)
  unfolding search search_recursive
  recursive_same leaf x result = refl
  recursive_same (node l n r) x result = elim (compared cmp rank agrees n.at x) [
    | inl (c, h) ↦ rw (c, search, search_recursive) (recursive_same r x result)
    | inr (inl (c, h)) ↦ rw (c, search, search_recursive) refl
    | inr (inr (c, h)) ↦ rw (c, search, search_recursive) (recursive_same l x result)
  ]

  -- `mg_Bstree_search` of a search tree returns the node of the rank of `x`, and NULL if there is
  -- none; `mg_Bstree_search_recursive` stores it, and stores nothing if there is none.
  pub searches_of_tree :
      (t : Bst) (x result : Ptr)
      → IsBst rank t
      → (search cmp t x ≡ find rank x (nodes t))
        × (search_recursive cmp t x result ≡ stored_or result (find rank x (nodes t)))
  searches_of_tree t x result (p, s) =
      let e = search_lem t x s in (e, recursive_same t x result ∙ ap (stored_or result) e)
