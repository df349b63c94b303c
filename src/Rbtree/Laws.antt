-- ===== src/Rbtree/Laws.antt =====
-- src/mgrbtree.c: insertion, the height, search and the ends of a red-black tree.
use Prim.Native.Nat.{Ordering}
use native.Mathlib.Nat.{pow-suc, pow-le-pow_right}
use mg_std.Base.{
  ℕ, suc, ◌+◌, ◌*◌, ◌/◌, ◌^◌, ◌<◌, ◌≤◌, ◌≡◌, ◌≢◌, refl, sym, subst, ◌∙◌, ◌⊎◌, inl, inr, Bool, true,
  false, Option, none, some, List, [], ◌∷◌, ◌++◌, arith, length, length-append, max, one_if,
}
use mg_std.Bintree.{Ptr, leaf, node}
use mg_std.Bintree.Order.{Agrees, compared}
use mg_std.Bintree.Walk.{first, last, first-append, last-append, last_behind}
use mg_std.Rbtree.{
  Rb, is_red, mgrbtree_insert, mgrbtree_search, mgrbtree_min_node, mgrbtree_max_node,
}
use mg_std.Rbtree.Order.{nodes, Has, Has-mgrbtree_insert}
use mg_std.Rbtree.Ascending.{
  IsAscending, AllAtMost, AllAtLeast, IsAscending-split, insert_after, insert_after-IsAscending,
}
use mg_std.Rbtree.Balance.{count, Allows, IsRb, IsRbTree}
use mg_std.Rbtree.Insertion.{mgrbtree_insert-Fixed}

module _ (cmp : Ptr → Ptr → Ordering) (rank : Ptr → ℕ) (agrees : Agrees cmp rank) where
  -- `mgrbtree_insert` of a node in a red-black tree whose nodes ascend returns such a tree: the
  -- root is black, no red node has a red child, every way down has the same number of black nodes,
  -- the parent pointers are right, and its nodes are the old ones with the new one behind those of
  -- at most its rank.
  pub mgrbtree_insert-IsRbTree :
      (t : Rb) (x : Ptr)
      → IsRbTree t
      → IsAscending rank (nodes t)
      → (t' : Rb) × (mgrbtree_insert cmp t x ≡ some t')
        × IsRbTree t'
        × (nodes t' ≡ insert_after rank x (nodes t))
        × IsAscending rank (nodes t')
  mgrbtree_insert-IsRbTree t x v s =
      let (t', e, v') = mgrbtree_insert-Fixed cmp rank agrees t x v in
      let same : nodes t' ≡ insert_after rank x (nodes t) =
        subst (Has (insert_after rank x (nodes t))) e (Has-mgrbtree_insert cmp rank agrees t x s) in
      (
        t',
        e,
        v',
        same,
        subst (IsAscending rank) (sym same) (insert_after-IsAscending rank x (nodes t) s),
      )

  -- No node of the rank of `x`, or one of them.
  abbrev pub AllDiffer : Ptr → List Ptr → Type 0
  AllDiffer x [] = Unit
  AllDiffer x (y ∷ ys) = (rank y ≢ rank x) × AllDiffer x ys

  abbrev pub Occurs : Ptr → List Ptr → Type 0
  Occurs y [] = ⊥
  Occurs y (z ∷ zs) = (y ≡ z) ⊎ Occurs y zs

  abbrev pub Finds : Ptr → List Ptr → Option Ptr → Type 0
  Finds x xs none = AllDiffer x xs
  Finds x xs (some y) = Occurs y xs × (rank y ≡ rank x)

  AllDiffer-append :
      (x : Ptr) (xs ys : List Ptr) → AllDiffer x xs → AllDiffer x ys → AllDiffer x (xs ++ ys)
  AllDiffer-append x [] ys h g = g
  AllDiffer-append x (z ∷ xs) ys h g = (h.0, AllDiffer-append x xs ys h.1 g)

  AllDiffer-above :
      (x : Ptr) (m : ℕ) (ys : List Ptr) → rank x < m → AllAtLeast rank m ys → AllDiffer x ys
  AllDiffer-above x m [] l h = tt
  AllDiffer-above x m (y ∷ ys) l h = (omega (arith, h.0), AllDiffer-above x m ys l h.1)

  AllDiffer-below :
      (x : Ptr) (m : ℕ) (ys : List Ptr) → m < rank x → AllAtMost rank m ys → AllDiffer x ys
  AllDiffer-below x m [] l h = tt
  AllDiffer-below x m (y ∷ ys) l h = (omega (arith, h.0), AllDiffer-below x m ys l h.1)

  Occurs-left : (y : Ptr) (xs ys : List Ptr) → Occurs y xs → Occurs y (xs ++ ys)
  Occurs-left y [] ys h = absurd h
  Occurs-left y (z ∷ xs) ys (inl e) = inl e
  Occurs-left y (z ∷ xs) ys (inr h) = inr (Occurs-left y xs ys h)

  Occurs-right : (y : Ptr) (xs ys : List Ptr) → Occurs y ys → Occurs y (xs ++ ys)
  Occurs-right y [] ys h = h
  Occurs-right y (z ∷ xs) ys h = inr (Occurs-right y xs ys h)

  -- The search goes on in a part of the list.
  Finds-left :
      (x m : Ptr) (xs ys : List Ptr) (o : Option Ptr)
      → AllDiffer x (m ∷ ys)
      → Finds x xs o
      → Finds x (xs ++ (m ∷ ys)) o
  Finds-left x m xs ys none d f = AllDiffer-append x xs (m ∷ ys) f d
  Finds-left x m xs ys (some y) d (f, e) = (Occurs-left y xs (m ∷ ys) f, e)

  Finds-right :
      (x m : Ptr) (xs ys : List Ptr) (o : Option Ptr)
      → AllDiffer x xs
      → rank m ≢ rank x
      → Finds x ys o
      → Finds x (xs ++ (m ∷ ys)) o
  Finds-right x m xs ys none d ne f = AllDiffer-append x xs (m ∷ ys) d (ne, f)
  Finds-right x m xs ys (some y) d ne (f, e) = (Occurs-right y xs (m ∷ ys) (inr f), e)

  -- `mgrbtree_search` of a tree whose nodes ascend returns a node of the rank of `x`, or NULL if
  -- there is none.
  pub mgrbtree_search-Finds :
      (t : Rb) (x : Ptr) → IsAscending rank (nodes t) → Finds x (nodes t) (mgrbtree_search cmp t x)
  unfolding mgrbtree_search
  mgrbtree_search-Finds leaf x s = tt
  mgrbtree_search-Finds (node l n r) x s =
      let (sl, before, behind, sr) = IsAscending-split rank (nodes l) (nodes r) n.at s in
      elim (compared cmp rank agrees n.at x) [
        | inl (c, q) ↦
            rw (c, mgrbtree_search)
              (Finds-right x n.at (nodes l) (nodes r) (mgrbtree_search cmp r x)
                (AllDiffer-below x (rank n.at) (nodes l) q before) (λ e. omega arith)
                (mgrbtree_search-Finds r x sr))
        | inr (inl (c, q)) ↦
            rw (c, mgrbtree_search) (Occurs-right n.at (nodes l) (n.at ∷ nodes r) (inl refl), q)
        | inr (inr (c, q)) ↦
            rw (c, mgrbtree_search)
              (Finds-left x n.at (nodes l) (nodes r) (mgrbtree_search cmp l x)
                ((λ e. omega arith), AllDiffer-above x (rank n.at) (nodes r) q behind)
                (mgrbtree_search-Finds l x sl))
      ]

-- The number of levels.
abbrev pub depth : Rb → ℕ
depth leaf = 0
depth (node l n r) = suc (max (depth l) (depth r))

one_if-le : (b : Bool) → one_if b ≤ 1
one_if-le true = omega arith
one_if-le false = omega arith

depth_count : (p : Ptr) (h : ℕ) (t : Rb) → IsRb p h t → depth t ≤ 2 * h + one_if (is_red t)
depth_count p h leaf v = omega arith
depth_count p h (node l n r) (e, al, ar, (k, q, vl, vr)) =
    by_color n.red q al ar (depth_count n.at k l vl) (depth_count n.at k r vr)
  where
    by_color :
        (c : Bool)
        → h ≡ count c k
        → Allows c l
        → Allows c r
        → depth l ≤ 2 * k + one_if (is_red l)
        → depth r ≤ 2 * k + one_if (is_red r)
        → suc (max (depth l) (depth r)) ≤ 2 * h + one_if c
    by_color true q bl br dl dr =
        let dl' : depth l ≤ 2 * k + 0 = subst (λ b. depth l ≤ 2 * k + one_if b) bl dl in
        let dr' : depth r ≤ 2 * k + 0 = subst (λ b. depth r ≤ 2 * k + one_if b) br dr in omega arith
    by_color false q bl br dl dr = omega (arith, one_if-le (is_red l), one_if-le (is_red r))

size_count : (p : Ptr) (h : ℕ) (t : Rb) → IsRb p h t → 2 ^ h ≤ length (nodes t) + 1
size_count p h leaf v = rw v (omega arith)
size_count p h (node l n r) (e, al, ar, (k, q, vl, vr)) = omega (
  arith,
  size_count n.at k l vl,
  size_count n.at k r vr,
  length-append (nodes l) (n.at ∷ nodes r),
  grows n.red q,
)
  where
    grows : (c : Bool) → h ≡ count c k → 2 ^ h ≤ 2 * 2 ^ k
    grows true q = rw q (omega arith)
    grows false q = rw (q, pow-suc 2 k) (omega arith)

-- A red-black tree is low: 2 to the power of half its number of levels is at most the number of its
-- nodes plus 1.
pub depth_bound : (t : Rb) → IsRbTree t → 2 ^ (depth t / 2) ≤ length (nodes t) + 1
depth_bound t (black, (h, v)) =
    let levels : depth t ≤ 2 * h + 0 =
      subst (λ b. depth t ≤ 2 * h + one_if b) black (depth_count 0 h t v) in
    let half : depth t / 2 ≤ h = omega arith in
    let power : 2 ^ (depth t / 2) ≤ 2 ^ h = pow-le-pow_right (omega arith) half in
    omega (arith, size_count 0 h t v, power)

min-first : (t : Rb) → mgrbtree_min_node t ≡ first (nodes t)
unfolding mgrbtree_min_node
min-first leaf = refl
min-first (node leaf n r) = refl
min-first (node (node a b c) n r) =
    min-first (node a b c) ∙ sym (first-append (nodes a) (nodes c) (n.at ∷ nodes r) b.at)

max-last : (t : Rb) → mgrbtree_max_node t ≡ last (nodes t)
unfolding mgrbtree_max_node
max-last leaf = refl
max-last (node l n leaf) = sym (last-append (nodes l) [] n.at)
max-last (node l n (node a b c)) =
    max-last (node a b c) ∙ sym (last_behind (nodes l) (nodes a) (nodes c) b.at n.at)

-- `mgrbtree_min_node` and `mgrbtree_max_node` return the first and the last node, or NULL.
pub ends_of_tree :
    (t : Rb) → (mgrbtree_min_node t ≡ first (nodes t)) × (mgrbtree_max_node t ≡ last (nodes t))
ends_of_tree t = (min-first t, max-last t)
