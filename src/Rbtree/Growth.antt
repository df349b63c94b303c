-- ===== src/Rbtree/Growth.antt =====
-- src/mgrbtree.c: insertions one after the other, and the height of what they build.
use Prim.Native.Nat.{Ordering}
use mg_std.Base.{
  on_if, ℕ, suc, ◌+◌, ◌/◌, ◌^◌, ◌≤◌, ◌≡◌, refl, ap, ◌∙◌, Option, none, some, List, [], ◌∷◌, ◌==◌,
  arith, length, one_if, tally, ltb,
}
use mg_std.Bintree.{Ptr, leaf}
use mg_std.Bintree.Order.{Agrees}
use mg_std.Rbtree.{Rb, mgrbtree_insert}
use mg_std.Rbtree.Order.{nodes}
use mg_std.Rbtree.Ascending.{IsAscending, insert_after}
use mg_std.Rbtree.Balance.{IsRbTree}
use mg_std.Rbtree.Laws.{mgrbtree_insert-IsRbTree, depth, depth_bound}

-- Pointers to nodes: none is NULL, and each stands once.
abbrev pub AreNodes : List Ptr → Type 0
AreNodes xs = (tally 0 xs ≡ 0) × ((p : Ptr) → tally p xs ≤ 1)

module _ (rank : Ptr → ℕ) where
  length-insert_after :
      (x : Ptr) (ys : List Ptr) → length (insert_after rank x ys) ≡ suc (length ys)
  length-insert_after x [] = refl
  length-insert_after x (y ∷ ys) =
      on_if (λ zs. length zs ≡ suc (suc (length ys))) (ltb (rank x) (rank y)) (λ q. refl)
        (λ q. ap suc (length-insert_after x ys))

  tally-insert_after :
      (p x : Ptr) (ys : List Ptr) → tally p (insert_after rank x ys) ≡ one_if (p == x) + tally p ys
  tally-insert_after p x [] = refl
  tally-insert_after p x (y ∷ ys) =
      on_if (λ zs. tally p zs ≡ one_if (p == x) + (one_if (p == y) + tally p ys))
        (ltb (rank x) (rank y)) (λ q. refl) (λ q. omega (arith, tally-insert_after p x ys))

module _ (cmp : Ptr → Ptr → Ordering) where
  abbrev pub insert_all : List Ptr → Rb → Option Rb
  insert_all [] t = some t
  insert_all (x ∷ xs) t = elim (mgrbtree_insert cmp t x) [ none ↦ none | some u ↦ insert_all xs u ]

  module _ (rank : Ptr → ℕ) (agrees : Agrees cmp rank) where
    insert_all_below :
        (xs : List Ptr) (t : Rb)
        → IsRbTree t
        → IsAscending rank (nodes t)
        → (u : Rb) × (insert_all xs t ≡ some u)
          × IsRbTree u
          × IsAscending rank (nodes u)
          × ((p : Ptr) → tally p (nodes u) ≡ tally p xs + tally p (nodes t))
          × (length (nodes u) ≡ length xs + length (nodes t))
    insert_all_below [] t v s = (t, refl, v, s, (λ p. omega arith), omega arith)
    insert_all_below (x ∷ xs) t v s =
        let (t', e, v', same, s') = mgrbtree_insert-IsRbTree cmp rank agrees t x v s in
        let (u, e', w, up, times, size) = insert_all_below xs t' v' s' in
        (
          u,
          ap (λ o. elim o [ none ↦ none | some r ↦ insert_all xs r ]) e ∙ e',
          w,
          up,
          λ p. omega (arith, times p, ap (tally p) same, tally-insert_after rank p x (nodes t)),
          omega (arith, size, ap length same, length-insert_after rank x (nodes t)),
        )

    -- `mgrbtree_insert` of nodes one after the other, none of them NULL and each once, from the
    -- empty tree on, ends and gives a red-black tree of these nodes, each once, in ascending order.
    -- The tree is low: 2 to the power of half the number of its levels is at most the number of
    -- the insertions plus 1.
    pub insert_all-IsRbTree :
        (xs : List Ptr)
        → AreNodes xs
        → (t : Rb) × (insert_all xs leaf ≡ some t)
          × IsRbTree t
          × IsAscending rank (nodes t)
          × ((p : Ptr) → tally p (nodes t) ≡ tally p xs)
          × AreNodes (nodes t)
          × (2 ^ (depth t / 2) ≤ length xs + 1)
    insert_all-IsRbTree xs (given, once) =
        let (t, e, v, s, times, size) = insert_all_below xs leaf (refl, (0, refl)) tt in
        let same : (p : Ptr) → tally p (nodes t) ≡ tally p xs = λ p. omega (arith, times p) in
        (
          t,
          e,
          v,
          s,
          same,
          (same 0 ∙ given, λ p. omega (arith, same p, once p)),
          omega (arith, size, depth_bound t v),
        )
