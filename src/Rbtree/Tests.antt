-- ===== src/Rbtree/Tests.antt =====
-- src/mgrbtree.c: trees of three nodes, at the addresses 1, 2 and 3, in the order of the addresses.
use Prim.Native.Nat.{compare}
use mg_std.Base.{
  ℕ, ◌+◌, ◌/◌, ◌^◌, ◌≤◌, ◌≡◌, refl, Bool, true, false, some, length, arith, List, [], ◌∷◌, tally,
}
use mg_std.Bintree.{Ptr, leaf, node}
use mg_std.Rbtree.{Rb, mgrbtree_insert, mgrbtree_search}
use mg_std.Rbtree.Order.{nodes}
use mg_std.Rbtree.Ascending.{IsAscending, insert_after}
use mg_std.Rbtree.Balance.{IsRbTree}
use mg_std.Rbtree.Laws.{mgrbtree_insert-IsRbTree, depth}
use mg_std.Rbtree.Growth.{AreNodes, insert_all, insert_all-IsRbTree}
use mg_std.Rbtree.Removal.{unended, untouched, overwritten, mgrbtree_remove}
use mg_std.Rbtree.Outcome.{Removed, mgrbtree_remove-Removed, mgrbtree_remove-none}

-- A black root, and two children of one colour.
abbrev three : Bool → Rb
three c =
    node (node leaf (record { at = 1; parent = 2; red = c }) leaf)
      (record { at = 2; parent = 0; red = false })
      (node leaf (record { at = 3; parent = 2; red = c }) leaf)

abbrev rank : Ptr → ℕ
rank p = p

abbrev red_children-IsRbTree : IsRbTree (three true)
red_children-IsRbTree = (
  refl,
  (
    1,
    (
      refl,
      tt,
      tt,
      (
        0,
        refl,
        (refl, refl, refl, (0, refl, refl, refl)),
        (refl, refl, refl, (0, refl, refl, refl)),
      ),
    ),
  ),
)

abbrev black_children-IsRbTree : IsRbTree (three false)
black_children-IsRbTree = (
  refl,
  (
    2,
    (
      refl,
      tt,
      tt,
      (1, refl, (refl, tt, tt, (0, refl, refl, refl)), (refl, tt, tt, (0, refl, refl, refl))),
    ),
  ),
)

abbrev three-IsAscending : (c : Bool) → IsAscending rank (nodes (three c))
three-IsAscending c = ((omega arith, (omega arith, tt)), ((omega arith, tt), (tt, tt)))

-- The insertion of a fourth node, below a red parent with a red uncle.
mgrbtree_insert-IsRbTree_example :
    (t : Rb) × (mgrbtree_insert compare (three true) 4 ≡ some t)
    × IsRbTree t
    × (nodes t ≡ insert_after rank 4 (nodes (three true)))
    × IsAscending rank (nodes t)
mgrbtree_insert-IsRbTree_example =
    mgrbtree_insert-IsRbTree compare rank (λ a b. refl) (three true) 4 red_children-IsRbTree
      (three-IsAscending true)

-- Four nodes in descending order.
abbrev given : List Ptr
given = 4 ∷ (3 ∷ (2 ∷ (1 ∷ [])))

insert_all-IsRbTree_example :
    (t : Rb) × (insert_all compare given leaf ≡ some t)
    × IsRbTree t
    × IsAscending rank (nodes t)
    × ((p : Ptr) → tally p (nodes t) ≡ tally p given)
    × AreNodes (nodes t)
    × (2 ^ (depth t / 2) ≤ length given + 1)
insert_all-IsRbTree_example =
    insert_all-IsRbTree compare rank (λ a b. refl) given (refl, λ p. ground arith)

-- The removal of a black leaf, whose brother is black too.
mgrbtree_remove-Removed_example :
    Removed
      (three false)
      ((mgrbtree_remove compare 4 (three false) 1).0)
      ((mgrbtree_remove compare 4 (three false) 1).1)
unfolding mgrbtree_search
mgrbtree_remove-Removed_example =
    mgrbtree_remove-Removed compare 4 (three false) 1 black_children-IsRbTree refl refl
      (omega arith)

-- The removal of the root, whose right child is a black leaf, does not end.
mgrbtree_remove-none_example : (mgrbtree_remove compare 1000 (three false) 2).1 ≡ unended
mgrbtree_remove-none_example = mgrbtree_remove-none compare 1000 (three false) 2 refl

-- The root is removed if its children are red.
root_removed : mgrbtree_remove compare 4 (three true) 2 ≡ (
  some 2,
  untouched (
      node
        (node leaf (record { at = 1; parent = 3; red = true }) leaf)
        (record { at = 3; parent = 0; red = false })
        leaf),
)
unfolding mgrbtree_remove
root_removed = refl

-- A removal with a red brother, which comes up.
red_brother_comes_up :
    mgrbtree_remove compare 6
      (node
        (node leaf (record { at = 1; parent = 2; red = false }) leaf)
        (record { at = 2; parent = 0; red = false })
        (node
          (node leaf (record { at = 3; parent = 4; red = false }) leaf)
          (record { at = 4; parent = 2; red = true })
          (node leaf (record { at = 5; parent = 4; red = false }) leaf)))
      1
    ≡ (
      some 1,
      untouched (
          node
            (node leaf
              (record { at = 2; parent = 4; red = false })
              (node leaf (record { at = 3; parent = 2; red = true }) leaf))
            (record { at = 4; parent = 0; red = false })
            (node leaf (record { at = 5; parent = 4; red = false }) leaf)),
    )
unfolding mgrbtree_remove
red_brother_comes_up = refl

-- Nodes at neighbouring addresses compare equal: the search for 5 finds the root 4, and the node 5,
-- which takes the place of the root, then gets another right child.
another_found :
    mgrbtree_remove
      (λ a b. compare (a / 2) (b / 2))
      4
      (node
        (node leaf (record { at = 2; parent = 4; red = true }) leaf)
        (record { at = 4; parent = 0; red = false })
        (node leaf (record { at = 5; parent = 4; red = true }) leaf))
      5
    ≡ (
      some 4,
      overwritten (
          node
            (node leaf (record { at = 2; parent = 5; red = true }) leaf)
            (record { at = 5; parent = 0; red = false })
            leaf),
    )
unfolding mgrbtree_remove
another_found = refl
