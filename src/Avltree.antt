-- ===== src/Avltree.antt =====
-- src/mgavltree.c and src/mgavltree.h: AVL trees. A tree is an inductive tree of the nodes'
-- fields; `none` is a read through NULL. The comparison function of the nodes is a parameter, of
-- which the sign of the result is kept. A rotation also writes the new root into the child field
-- of the parent; the caller writes the same pointer there, and the model does it once.
pub mod Order
pub mod Rotations
pub mod Balance
pub mod Laws
mod Tests
use Prim.Native.Nat.Ordering.{lt, eq, gt}
use Prim.Native.Nat.{Ordering}
use mg_std.Base.{ℕ, ◌+◌, max, Option, none, some, List, [], ◌∷◌, ◌++◌, ◌==◌, if◌then◌else◌}
use mg_std.Bintree.{Ptr, Tree, leaf, node}

-- `struct mg_avltree_node` without the children and the comparison function.
pub record Node : Type 0 where
  pub at : Ptr
  pub parent : Ptr
  pub height : ℕ

abbrev pub Avl : Type 0
Avl = Tree Node

-- `MG_AVLTREE_HEIGHT` plus 1: that macro is -1 for NULL.
abbrev pub height1 : Avl → ℕ
height1 leaf = 0
height1 (node l n r) = n.height + 1

-- `if (p != NULL) p->parent = v`
abbrev pub set_parent : Ptr → Avl → Avl
set_parent v leaf = leaf
set_parent v (node l n r) = node l (record n { parent = v }) r

-- `p->avltree_height = MG_MAX(MG_AVLTREE_HEIGHT(p->lchild), MG_AVLTREE_HEIGHT(p->rchild)) + 1`
abbrev pub update_height : Avl → Option Avl
update_height leaf = none
update_height (node l n r) = some (node l (record n { height = max (height1 l) (height1 r) }) r)

unfoldable pub left_left_rotation : Avl → Option Avl
left_left_rotation (node (node a nl b) n c) =
    let h = max (height1 b) (height1 c) in
    let n' = record n { parent = nl.at; height = h } in
    let nl' = record nl { parent = n.parent; height = max (height1 a) (h + 1) } in
    some (node a nl' (node (set_parent n.at b) n' c))
left_left_rotation _ = none

unfoldable pub right_right_rotation : Avl → Option Avl
right_right_rotation (node a n (node b nr c)) =
    let h = max (height1 a) (height1 b) in
    let n' = record n { parent = nr.at; height = h } in
    let nr' = record nr { parent = n.parent; height = max (height1 c) (h + 1) } in
    some (node (node a n' (set_parent n.at b)) nr' c)
right_right_rotation _ = none

module _ {A B : Type 0} where
  abbrev pub and_then : Option A → (A → Option B) → Option B
  and_then none f = none
  and_then (some a) f = f a

unfoldable pub left_right_rotation : Avl → Option Avl
unfolding left_left_rotation right_right_rotation
left_right_rotation leaf = none
left_right_rotation (node l n r) =
    and_then (right_right_rotation l) λ l'. left_left_rotation (node l' n r)

unfoldable pub right_left_rotation : Avl → Option Avl
unfolding left_left_rotation right_right_rotation
right_left_rotation leaf = none
right_left_rotation (node l n r) =
    and_then (left_left_rotation r) λ r'. right_right_rotation (node l n r')

-- `if (p == node) node->parent = root`
abbrev pub adopt : Ptr → Ptr → Avl → Avl
adopt root x leaf = leaf
adopt root x (node l n r) = if n.at == x then node l (record n { parent = root }) r else node l n r

-- `MG_AVLTREE_INIT`, which the insertion into an empty tree repeats.
abbrev pub fresh_node : Ptr → Avl
fresh_node x = node leaf (record { at = x; parent = 0; height = 0 }) leaf

module _ (cmp : Ptr → Ptr → Ordering) where
  -- The left subtree of a root may have become too high.
  unfoldable pub balance_left : Avl → Ptr → Option Avl
  unfolding left_left_rotation left_right_rotation
  balance_left leaf x = none
  balance_left (node l n r) x =
      if height1 l == height1 r + 2 then rotate l (node l n r) else some (node l n r)
    where
      rotate : Avl → Avl → Option Avl
      rotate leaf t = none
      rotate (node a b c) t = elim (cmp b.at x) [
        | gt ↦ left_left_rotation t
        | _ ↦ left_right_rotation t
      ]

  unfoldable pub balance_right : Avl → Ptr → Option Avl
  unfolding right_right_rotation right_left_rotation
  balance_right leaf x = none
  balance_right (node l n r) x =
      if height1 r == height1 l + 2 then rotate r (node l n r) else some (node l n r)
    where
      rotate : Avl → Avl → Option Avl
      rotate leaf t = none
      rotate (node a b c) t = elim (cmp b.at x) [
        | lt ↦ right_right_rotation t
        | _ ↦ right_left_rotation t
      ]

  -- `mg_avltree_insert` of a node that is not NULL. The calls in it have the same node.
  unfoldable pub insert_node : Avl → Ptr → Option Avl
  unfolding balance_left balance_right
  insert_node leaf x = some (fresh_node x)
  insert_node (node l n r) x = elim (cmp n.at x) [
    | gt ↦
        and_then (insert_node l x)
          λ l'. and_then (balance_left (node (adopt n.at x l') n r) x) update_height
    | lt ↦
        and_then (insert_node r x)
          λ r'. and_then (balance_right (node l n (adopt n.at x r')) x) update_height
    | eq ↦ some (node l n r)
  ]

  -- `mg_avltree_insert`, which leaves the tree as it is for NULL.
  unfoldable pub insert : Avl → Ptr → Option Avl
  unfolding insert_node
  insert t x = if x == 0 then some t else insert_node t x

  -- The loop of `mg_avltree_search`.
  unfoldable pub search_loop : Avl → Ptr → Option Ptr
  search_loop leaf x = none
  search_loop (node l n r) x = elim (cmp n.at x) [
    | eq ↦ some n.at
    | gt ↦ search_loop l x
    | lt ↦ search_loop r x
  ]

  -- An empty tree ends the loop at once.
  unfoldable pub search : Avl → Ptr → Option Ptr
  unfolding search_loop
  search t x = if x == 0 then none else search_loop t x

  unfoldable pub search_recursive : Avl → Ptr → Option Ptr
  unfolding search
  search_recursive leaf x = none
  search_recursive (node l n r) x =
      if x == 0
      then none
      else elim (cmp n.at x) [ eq ↦ some n.at | gt ↦ search l x | lt ↦ search r x ]

unfoldable pub min_node : Avl → Option Ptr
min_node leaf = none
min_node (node leaf n r) = some n.at
min_node (node (node a b c) n r) = min_node (node a b c)

unfoldable pub max_node : Avl → Option Ptr
max_node leaf = none
max_node (node l n leaf) = some n.at
max_node (node l n (node a b c)) = max_node (node a b c)

-- The three traversals, with a state that the visiting function changes.
module _ {S : Type 0} (visit : Ptr → S → S) where
  unfoldable pub preorder : Avl → S → S
  preorder leaf s = s
  preorder (node l n r) s = preorder r (preorder l (visit n.at s))

  unfoldable pub inorder : Avl → S → S
  inorder leaf s = s
  inorder (node l n r) s = inorder r (visit n.at (inorder l s))

  unfoldable pub postorder : Avl → S → S
  postorder leaf s = s
  postorder (node l n r) s = visit n.at (postorder r (postorder l s))
