-- ===== src/Avltree/Laws.antt =====
-- src/mgavltree.c: what insertion, search and the walks mean for the list of nodes.
use Prim.Native.Nat.{Ordering}
use native.Mathlib.Nat.{pow-suc}
use mg_std.Base.{
  on_if, ℕ, zero, suc, ◌+◌, ◌*◌, ◌/◌, ◌^◌, ◌≤◌, ◌≡◌, refl, sym, ap, ◌∙◌, false, Option, none, some,
  List, inl, inr, ◌==◌, if◌then◌else◌, Bool-cases, [], ◌∷◌, arith, length, length-append,
}
use mg_std.Bintree.{Ptr, leaf, node}
use mg_std.Bintree.Order.{IsSorted, insert_sorted, insert_sorted-IsSorted, find, Agrees, compared}
use mg_std.Bintree.Walk.{first, last, run, first-append, last-append, last_behind, run-append}
use mg_std.Avltree.{
  Avl, height1, insert, insert_node, search_loop, search, search_recursive, and_then, min_node,
  max_node, inorder,
}
use mg_std.Avltree.Order.{nodes, Has, Has-insert_node, search_loop-find}
use mg_std.Avltree.Rotations.{IsValid, Returns}
use mg_std.Avltree.Balance.{Inserted, insert_node-Inserted, parent_of}

-- An AVL tree: valid below no parent, and its nodes in increasing order.
abbrev pub IsAvl : (Ptr → ℕ) → Avl → Type 0
IsAvl rank t = IsValid 0 t × IsSorted rank (nodes t)

-- The nodes after an insertion of the node `x`: NULL leaves them as they are.
abbrev pub with_node : (Ptr → ℕ) → Ptr → List Ptr → List Ptr
with_node rank x xs = if x == 0 then xs else insert_sorted rank x xs

-- What a search for `x` finds in a list: nothing for NULL.
abbrev pub looked_up : (Ptr → ℕ) → Ptr → List Ptr → Option Ptr
looked_up rank x xs = if x == 0 then none else find rank x xs

module _ (cmp : Ptr → Ptr → Ordering) (rank : Ptr → ℕ) (agrees : Agrees cmp rank) where
  abbrev pub AvlInsertion : Avl → Ptr → Option Avl → Type 0
  AvlInsertion t x o =
      (t' : Avl) × (o ≡ some t') × IsAvl rank t' × (nodes t' ≡ insert_sorted rank x (nodes t))

  insert_node-IsAvl : (t : Avl) (x : Ptr) → IsAvl rank t → AvlInsertion t x (insert_node cmp t x)
  insert_node-IsAvl t x (v, s) =
      both (insert_node cmp t x) t (insert_node-Inserted cmp x 0 t v)
        (Has-insert_node cmp rank agrees t x s) s
    where
      both :
          (o : Option Avl) (t : Avl)
          → Returns (Inserted cmp x (parent_of cmp x 0 t) t) o
          → Has (insert_sorted rank x (nodes t)) o
          → IsSorted rank (nodes t)
          → AvlInsertion t x o
      both none t h e s = absurd h
      both (some t') leaf h e s = (t', refl, (h.0, rw e (insert_sorted-IsSorted rank x [] s)), e)
      both (some t') (node l n r) h e s =
          (t', refl, (h.0, rw e (insert_sorted-IsSorted rank x (nodes (node l n r)) s)), e)

  -- `mg_avltree_insert` in an AVL tree succeeds, and its result is an AVL tree: heights, balance
  -- and parent pointers are right. For NULL its nodes are the old ones; for a node they are the old
  -- ones with the new one inserted in order, or the old ones if one of the same rank was there.
  pub insert-IsAvl :
      (t : Avl) (x : Ptr)
      → IsAvl rank t
      → (t' : Avl) × (insert cmp t x ≡ some t')
        × IsAvl rank t'
        × (nodes t' ≡ with_node rank x (nodes t))
  unfolding insert
  insert-IsAvl t x v = elim (Bool-cases (x == 0)) [
    | inl null ↦ (t, rw null refl, v, rw null refl)
    | inr given ↦
        let (t', e, w, same) = insert_node-IsAvl t x v in (t', rw given e, w, rw given same)
  ]

  searched : (t : Avl) (x : Ptr) → (x == 0) ≡ false → search cmp t x ≡ search_loop cmp t x
  unfolding search
  searched t x given = rw given refl

  recursive_same : (t : Avl) (x : Ptr) → search_recursive cmp t x ≡ search cmp t x
  unfolding search_recursive search search_loop
  recursive_same leaf x = elim (Bool-cases (x == 0)) [
    | inl null ↦ rw null refl
    | inr given ↦ rw given refl
  ]
  recursive_same (node l n r) x = elim (Bool-cases (x == 0)) [
    | inl null ↦ rw null refl
    | inr given ↦ elim (compared cmp rank agrees n.at x) [
      | inl (c, q) ↦ rw (given, c, search_loop) (searched r x given)
      | inr (inl (c, q)) ↦ rw (given, c, search_loop) refl
      | inr (inr (c, q)) ↦ rw (given, c, search_loop) (searched l x given)
    ]
  ]

  -- `mg_avltree_search` and `mg_avltree_search_recursive` in an AVL tree return NULL for NULL, and
  -- for a node the node of its rank in the tree, NULL if there is none.
  pub searches-find :
      (t : Avl) (x : Ptr)
      → IsAvl rank t
      → (search cmp t x ≡ looked_up rank x (nodes t))
        × (search_recursive cmp t x ≡ looked_up rank x (nodes t))
  unfolding search
  searches-find t x (v, s) =
      let e : search cmp t x ≡ looked_up rank x (nodes t) =
        ap (λ o. if x == 0 then none else o) (search_loop-find cmp rank agrees t x s) in
      (e, recursive_same t x ∙ e)

-- Half the height bounds the logarithm of the number of nodes.
size_bound :
    (h : ℕ) (t : Avl) (p : Ptr) → IsValid p t → h * 2 ≤ height1 t → 2 ^ h ≤ length (nodes t) + 1
size_bound zero t p v l = omega arith
size_bound (suc h) leaf p v l = absurd (omega arith)
size_bound (suc h) (node a n b) p v l =
    let left = size_bound h a n.at v.4 (omega (arith, v.1, v.2, v.3)) in
    let right = size_bound h b n.at v.5 (omega (arith, v.1, v.2, v.3)) in
    omega (arith, pow-suc 2 h, length-append (nodes a) (n.at ∷ nodes b), left, right)

height_bound : (t : Avl) (p : Ptr) → IsValid p t → 2 ^ (height1 t / 2) ≤ length (nodes t) + 1
height_bound t p v = size_bound (height1 t / 2) t p v (omega arith)

length-insert_sorted :
    (rank : Ptr → ℕ) (x : Ptr) (ys : List Ptr) → length (insert_sorted rank x ys) ≤ length ys + 1
length-insert_sorted rank x [] = omega arith
length-insert_sorted rank x (y ∷ ys) = ground (arith, length-insert_sorted rank x ys)

module _ (cmp : Ptr → Ptr → Ordering) where
  -- Insertions one after the other.
  abbrev pub insert_all : List Ptr → Avl → Option Avl
  insert_all [] t = some t
  insert_all (x ∷ xs) t = and_then (insert cmp t x) λ u. insert_all xs u

  module _ (rank : Ptr → ℕ) (agrees : Agrees cmp rank) where
    length-with_node : (x : Ptr) (ys : List Ptr) → length (with_node rank x ys) ≤ length ys + 1
    length-with_node x ys =
        on_if (λ zs. length zs ≤ length ys + 1) (x == 0) (λ null. omega arith)
          (λ given. length-insert_sorted rank x ys)

    insert_all_below :
        (xs : List Ptr) (t : Avl)
        → IsAvl rank t
        → (u : Avl) × (insert_all xs t ≡ some u)
          × IsAvl rank u
          × (length (nodes u) ≤ length xs + length (nodes t))
    insert_all_below [] t v = (t, refl, v, omega arith)
    insert_all_below (x ∷ xs) t v =
        let (t', e, v', same) = insert-IsAvl cmp rank agrees t x v in
        let (u, e', w, few) = insert_all_below xs t' v' in
        (
          u,
          ap (λ o. and_then o λ u. insert_all xs u) e ∙ e',
          w,
          omega (arith, few, ap length same, length-with_node x (nodes t)),
        )

    -- `mg_avltree_insert` of any nodes one after the other, from the empty tree on, succeeds and
    -- gives a low AVL tree: 2 to the power of half its height, counted in levels, is at most the
    -- number of the insertions plus 1.
    pub insert_all-IsAvl :
        (xs : List Ptr)
        → (t : Avl) × (insert_all xs leaf ≡ some t)
          × IsAvl rank t
          × (2 ^ (height1 t / 2) ≤ length xs + 1)
    insert_all-IsAvl xs =
        let (t, e, v, few) = insert_all_below xs leaf (tt, tt) in
        (t, e, v, omega (arith, few, height_bound t 0 v.0))

min-first : (t : Avl) → min_node t ≡ first (nodes t)
unfolding min_node
min-first leaf = refl
min-first (node leaf n r) = refl
min-first (node (node a b c) n r) =
    min-first (node a b c) ∙ sym (first-append (nodes a) (nodes c) (n.at ∷ nodes r) b.at)

max-last : (t : Avl) → max_node t ≡ last (nodes t)
unfolding max_node
max-last leaf = refl
max-last (node l n leaf) = sym (last-append (nodes l) [] n.at)
max-last (node l n (node a b c)) =
    max-last (node a b c) ∙ sym (last_behind (nodes l) (nodes a) (nodes c) b.at n.at)

inorder-run :
    {S : Type 0} (visit : Ptr → S → S) (t : Avl) (s : S) → inorder visit t s ≡ run visit (nodes t) s
unfolding inorder
inorder-run visit leaf s = refl
inorder-run visit (node l n r) s =
    ap (λ u. inorder visit r (visit n.at u)) (inorder-run visit l s)
    ∙ inorder-run visit r (visit n.at (run visit (nodes l) s))
    ∙ sym (run-append visit (nodes l) (n.at ∷ nodes r) s)

-- `mg_avltree_min_node` and `mg_avltree_max_node` return the ends of the list of nodes, and
-- `mg_inorder_avltree` visits the nodes in the order of the list.
pub walks :
    {S : Type 0} (visit : Ptr → S → S) (t : Avl) (s : S)
    → (min_node t ≡ first (nodes t))
      × (max_node t ≡ last (nodes t))
      × (inorder visit t s ≡ run visit (nodes t) s)
walks visit t s = (min-first t, max-last t, inorder-run visit t s)
