-- ===== src/Bstree.antt =====
-- src/mgbstree.c: binary search trees. A tree is an inductive tree of the nodes' fields. The
-- comparison function of the nodes is a parameter, of which the sign of the result is kept. A
-- function that ends without a return statement gives `none` as its number. `mg_Bstree_insert` and
-- `mg_Bstree_del` get the pointer to the root by value: the caller's root stays what it was.
pub mod Laws
pub mod Deletion
mod Tests
use Prim.Native.Nat.Ordering.{lt, eq, gt}
use Prim.Native.Nat.{Ordering}
use mg_std.Base.{
  ℕ, Bool, true, false, ◌||◌, Option, none, some, List, [], ◌∷◌, ◌++◌, ◌==◌, if◌then◌else◌,
}
use mg_std.Bintree.{Ptr, Tree, leaf, node, root_at}

-- `struct mg_Binary_sort_tree` without the children and the comparison function.
pub record Node : Type 0 where
  pub at : Ptr
  pub parent : Ptr

abbrev pub Bst : Type 0
Bst = Tree Node

-- `MG_BSTREE_INIT_NODE`
abbrev pub init_node : Ptr → Bst
init_node x = node leaf (record { at = x; parent = 0 }) leaf

-- `MG_BSTREE_INSERT_RIGHT` and `MG_BSTREE_INSERT_LEFT` at a free place below the node `p`: the new
-- node keeps the children that it has.
abbrev pub below : Ptr → Bst → Bst
below p leaf = leaf
below p (node a m b) = node a (record m { parent = p }) b

module _ (cmp : Ptr → Ptr → Ordering) where
  -- Below a node: at the free place, or further down.
  abbrev pub attach : Ptr → Bst → Bst → Option ℕ × Bst → Option ℕ × Bst
  attach p leaf new rest = (none, below p new)
  attach p (node l n r) new rest = rest

  -- The second tree is the node that is inserted, with what hangs at it.
  unfoldable pub insert : Bst → Bst → Option ℕ × Bst
  insert t leaf = (some 0, t)
  insert leaf (node a m b) = (some 1, leaf)
  insert (node l n r) (node a m b) =
      let left = insert l (node a m b) in
      let right = insert r (node a m b) in
      elim (cmp n.at m.at) [
        | lt ↦ let (code, r') = attach n.at r (node a m b) right in (code, node l n r')
        | gt ↦ let (code, l') = attach n.at l (node a m b) left in (code, node l' n r)
        | eq ↦ (some 0, node l n r)
      ]

  -- The loop of `mg_Bstree_search`.
  unfoldable pub search : Bst → Ptr → Option Ptr
  search leaf x = none
  search (node l n r) x = elim (cmp n.at x) [ eq ↦ some n.at | gt ↦ search l x | lt ↦ search r x ]

  -- `*result` after `mg_Bstree_search_recursive`, which leaves it if nothing is found.
  unfoldable pub search_recursive : Bst → Ptr → Ptr → Ptr
  search_recursive leaf x result = result
  search_recursive (node l n r) x result = elim (cmp n.at x) [
    | eq ↦ n.at
    | gt ↦ search_recursive l x result
    | lt ↦ search_recursive r x result
  ]

module _ {A B : Type 0} where
  abbrev pub and_then : Option A → (A → Option B) → Option B
  and_then none f = none
  and_then (some a) f = f a

-- The child that takes the place of a node with these children. With two of them the loop ends at
-- NULL, of which the parent is read: a fault.
abbrev pub successor : Bst → Bst → Option Bst
successor leaf r = some r
successor (node a m b) leaf = some (node a m b)
successor (node a m b) (node c k d) = none

-- `mg_Bstree_del` of the node at address `x`, in a tree in which parent pointers lead to parents:
-- `MG_BSTREE_SET_PARENT_CHILD` changes a child pointer of the parent, and nothing for a root; the
-- parent pointer of the child stays.
unfoldable pub del : Bst → Ptr → Option Bst
del leaf x = some leaf
del (node l n r) x =
    let left = del l x in
    let right = del r x in
    if n.at == x
    then (and_then (successor l r) λ c. some (if n.parent == 0 then node l n r else c))
    else and_then left λ l'. and_then right λ r'. some (node l' n r')

-- The three traversals. `mg_Bstree_visit`, which they call for the children, is the first.
module _ {S : Type 0} (visit : Ptr → S → S) where
  unfoldable pub visit_lmr : Bst → S → S
  visit_lmr leaf s = s
  visit_lmr (node l n r) s = visit_lmr r (visit n.at (visit_lmr l s))

  unfoldable pub visit_mlr : Bst → S → S
  unfolding visit_lmr
  visit_mlr leaf s = s
  visit_mlr (node l n r) s = visit_lmr r (visit_lmr l (visit n.at s))

  unfoldable pub visit_lrm : Bst → S → S
  unfolding visit_lmr
  visit_lrm leaf s = s
  visit_lrm (node l n r) s = visit n.at (visit_lmr r (visit_lmr l s))
