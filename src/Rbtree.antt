-- ===== src/Rbtree.antt =====
-- src/mgrbtree.c and src/mgrbtree.h: red-black trees. A tree is an inductive tree of the nodes'
-- fields, and a node in a tree is the subtree below it with the frames on the way up to the root,
-- the nearest first: `node->parent` is the node of the nearest frame. The field `parent` is kept as
-- the code writes it. `none` is a loop that never ends. The comparison function of the nodes is a
-- parameter, of which the sign of the result is kept. Cases that mirror each other are one
-- definition, with a side as its argument.
pub mod Ascending
pub mod Order
pub mod Balance
pub mod Rotated
pub mod Insertion
pub mod Laws
pub mod Growth
pub mod Removal
pub mod Repair
pub mod Loop
pub mod Deletion
pub mod Left
pub mod Gone
pub mod Outcome
mod Tests
use Prim.Native.Nat.Ordering.{lt, eq, gt}
use Prim.Native.Nat.{Ordering}
use mg_std.Base.{ℕ, Bool, true, false, Option, none, some, List, [], ◌∷◌, if◌then◌else◌}
use mg_std.Bintree.{Ptr, Tree, leaf, node}

-- `struct mgrbtree_node` without the children and the comparison function.
pub record Node : Type 0 where
  pub at : Ptr
  pub parent : Ptr
  pub red : Bool

abbrev pub Rb : Type 0
Rb = Tree Node

pub data Side : Type 0 where
  left_side right_side : Side

-- The node above, the side at which the subtree stands, and the subtree on the other side.
pub record Frame : Type 0 where
  pub side : Side
  pub above : Node
  pub sibling : Rb

abbrev pub same_side : Side → Side → Bool
same_side left_side left_side = true
same_side right_side right_side = true
same_side _ _ = false

-- A node with a child on a side and one on the other side.
abbrev pub join : Side → Rb → Node → Rb → Rb
join left_side t n u = node t n u
join right_side t n u = node u n t

abbrev pub plug : Frame → Rb → Rb
plug f t = join f.side t f.above f.sibling

-- The parent of what stands at a place, NULL for the root.
abbrev pub parent_at : List Frame → Ptr
parent_at [] = 0
parent_at (f ∷ fs) = f.above.at

-- The whole tree.
unfoldable pub zip : List Frame → Rb → Rb
zip [] t = t
zip (f ∷ fs) t = zip fs (plug f t)

abbrev pub is_red : Rb → Bool
is_red leaf = false
is_red (node l n r) = n.red

-- `p->color = mg_red` and `p->color = mg_black` where p is not NULL.
abbrev pub paint : Bool → Rb → Rb
paint c leaf = leaf
paint c (node l n r) = node l (record n { red = c }) r

-- `if (p != NilNode) p->parent = v`
abbrev pub set_parent : Ptr → Rb → Rb
set_parent v leaf = leaf
set_parent v (node l n r) = node l (record n { parent = v }) r

-- The fields of a node that `mgrbtree_init` has set, whose children are NULL.
abbrev pub initialised : Ptr → Node
initialised x = record { at = x; parent = 0; red = false }

-- `mgrbtree_init`
abbrev pub mgrbtree_init : Ptr → Rb
mgrbtree_init x = node leaf (initialised x) leaf

-- `mgrbtree_left_rote` and `mgrbtree_right_rote` at a node, the root of the subtree.
unfoldable pub left_rote : Rb → Rb
left_rote (node a n (node b m c)) =
    node (node a (record n { parent = m.at }) (set_parent n.at b)) (record m { parent = n.parent })
      c
left_rote t = t

unfoldable pub right_rote : Rb → Rb
right_rote (node (node a m b) n c) =
    node a (record m { parent = n.parent })
      (node (set_parent n.at b) (record n { parent = m.at }) c)
right_rote t = t

-- The rotation that moves the node to a side.
abbrev pub rote : Side → Rb → Rb
rote left_side t = left_rote t
rote right_side t = right_rote t

abbrev pub other : Side → Side
other left_side = right_side
other right_side = left_side

-- Cases 2 and 3, and 5 and 6: the parent stands on the side `g.side` of the grandparent and the
-- uncle is black. The parent of the node is black afterwards, which ends the loop.
unfoldable pub restructure : Rb → Frame → Frame → Rb
unfolding left_rote right_rote
restructure z p g =
    let t = if same_side p.side g.side then plug p z else rote g.side (plug p z) in
    rote (other g.side) (join g.side (paint false t) (record (g.above) { red = true }) g.sibling)

-- Cases 1 and 4: the uncle is red.
abbrev pub recolour : Rb → Frame → Frame → Rb
recolour z p g =
    join g.side (paint false (plug p z)) (record (g.above) { red = true }) (paint false g.sibling)

-- `fixup_insert_mgrbtree_t` at the node z. A red node with a red parent that is the root makes the
-- loop go on for ever.
unfoldable pub fixup_insert : Rb → List Frame → Option Rb
unfolding zip restructure
fixup_insert z [] = some (paint false z)
fixup_insert z (p ∷ []) = if p.above.red then none else some (paint false (plug p z))
fixup_insert z (p ∷ g ∷ fs) =
    let up = fixup_insert (recolour z p g) fs in
    if p.above.red
    then (if is_red g.sibling then up else some (paint false (zip fs (restructure z p g))))
    else some (paint false (zip fs (plug g (plug p z))))

module _ (cmp : Ptr → Ptr → Ordering) where
  -- The loop of `mgrbtree_insert`: the frames on the way down to a free place.
  unfoldable pub descend : Rb → Ptr → List Frame → List Frame
  descend leaf x fs = fs
  descend (node l n r) x fs = elim (cmp n.at x) [
    | gt ↦ descend l x (record { side = left_side; above = n; sibling = r } ∷ fs)
    | _ ↦ descend r x (record { side = right_side; above = n; sibling = l } ∷ fs)
  ]

  -- The node is linked at the side that a comparison of its own chooses. What stood there is lost.
  unfoldable pub linked : Ptr → List Frame → List Frame
  linked x [] = []
  linked x (f ∷ fs) = elim (cmp x f.above.at) [
    | lt ↦ record f { side = left_side; sibling = kept left_side f } ∷ fs
    | _ ↦ record f { side = right_side; sibling = kept right_side f } ∷ fs
  ]
    where
      kept : Side → Frame → Rb
      kept s f = if same_side s f.side then f.sibling else leaf

  unfoldable pub mgrbtree_insert : Rb → Ptr → Option Rb
  unfolding descend linked fixup_insert
  mgrbtree_insert root x =
      let fs = linked x (descend root x []) in
      fixup_insert (node leaf (record { at = x; parent = parent_at fs; red = true }) leaf) fs

  unfoldable pub mgrbtree_search : Rb → Ptr → Option Ptr
  mgrbtree_search leaf x = none
  mgrbtree_search (node l n r) x = elim (cmp n.at x) [
    | eq ↦ some n.at
    | gt ↦ mgrbtree_search l x
    | lt ↦ mgrbtree_search r x
  ]

unfoldable pub mgrbtree_min_node : Rb → Option Ptr
mgrbtree_min_node leaf = none
mgrbtree_min_node (node leaf n r) = some n.at
mgrbtree_min_node (node (node a b c) n r) = mgrbtree_min_node (node a b c)

unfoldable pub mgrbtree_max_node : Rb → Option Ptr
mgrbtree_max_node leaf = none
mgrbtree_max_node (node l n leaf) = some n.at
mgrbtree_max_node (node l n (node a b c)) = mgrbtree_max_node (node a b c)

-- The traversals, with a state that the visiting function changes.
module _ {S : Type 0} (visit : Ptr → S → S) where
  unfoldable pub mgrbtree_preorder : Rb → S → S
  mgrbtree_preorder leaf s = s
  mgrbtree_preorder (node l n r) s = mgrbtree_preorder r (mgrbtree_preorder l (visit n.at s))

  unfoldable pub mgrbtree_postorder : Rb → S → S
  mgrbtree_postorder leaf s = s
  mgrbtree_postorder (node l n r) s = visit n.at (mgrbtree_postorder r (mgrbtree_postorder l s))
