-- ===== src/Rbtree/Removal.antt =====
-- src/mgrbtree.c: removal. A pointer to a node of a tree is its place: the two subtrees, the node
-- and the frames above it. The loop of `mgrbtree_fixup_remove` recurs on fuel: `none` is a loop that
-- has not ended.
use Prim.Native.Nat.Ordering.{lt, eq, gt}
use Prim.Native.Nat.{Ordering}
use mg_std.Base.{
  ℕ, zero, suc, Bool, true, false, not, ◌&&◌, ◌||◌, ◌==◌, Option, none, some, List, [], ◌∷◌, ◌++◌,
  if◌then◌else◌,
}
use mg_std.Bintree.{Ptr, leaf, node}
use mg_std.Rbtree.{
  Node, Rb, Side, left_side, right_side, Frame, join, plug, zip, is_red, paint, set_parent,
  initialised, left_rote, right_rote, rote, other, mgrbtree_search,
}

-- The child of a node on a side.
abbrev pub child : Side → Rb → Rb
child s leaf = leaf
child left_side (node l n r) = l
child right_side (node l n r) = r

abbrev pub set_child : Side → Rb → Rb → Rb
set_child s t leaf = leaf
set_child left_side t (node l n r) = node t n r
set_child right_side t (node l n r) = node l n t

-- Case 3: the brother is painted red, its near child black, and that child comes up.
unfoldable pub bring_up : Side → Rb → Rb
unfolding left_rote right_rote
bring_up s b = rote (other s) (paint true (set_child s (paint false (child s b)) b))

-- Case 4: the brother takes the place and the colour of the parent n, which goes down.
unfoldable pub take_over : Side → Rb → Node → Rb → Rb
unfolding left_rote right_rote
take_over s x n b = rote s (
    join s x (record n { red = false })
      (paint n.red (set_child (other s) (paint false (child (other s) b)) b)))

-- Cases 3 and 4 at a place below the frame f: the tree that stands where the parent stood.
unfoldable pub borrow : Rb → Frame → Rb
unfolding bring_up take_over
borrow x f =
    take_over f.side x f.above
      (if is_red (child (other f.side) f.sibling) then f.sibling else bring_up f.side f.sibling)

-- Case 1: the frames above the same place after the rotation that brings up the brother m, whose
-- children are `near` and `far`.
abbrev pub lowered : Frame → Rb → Node → Rb → List Frame → List Frame
lowered f near m far fs =
    record {
      side = f.side;
      above = record (f.above) { parent = m.at; red = true };
      sibling = set_parent f.above.at near;
    }
    ∷ record {
      side = f.side;
      above = record m { parent = f.above.parent; red = false };
      sibling = far;
    }
    ∷ fs

-- `mgrbtree_fixup_remove` at the place of x, which may be empty.
unfoldable pub fixup_remove : ℕ → Rb → List Frame → Option Rb
unfolding zip borrow
fixup_remove zero x fs = none
fixup_remove (suc fuel) x [] = some (paint false x)
fixup_remove (suc fuel) x (f ∷ fs) =
    let same = fixup_remove fuel x (f ∷ fs) in
    let case1 : Node → Rb → Rb → Option Rb =
      λ m near far. fixup_remove fuel x (lowered f near m far fs) in
    let case2 = fixup_remove fuel (plug (record f { sibling = paint true f.sibling }) x) fs in
    if is_red x then some (zip (f ∷ fs) (paint false x)) else elim f.sibling [
      | leaf ↦ same
      | node a m b ↦
          if m.red
          then case1 m (child f.side (node a m b)) (child (other f.side) (node a m b))
          else if not (is_red (child f.side (node a m b)))
              && not (is_red (child (other f.side) (node a m b)))
          then case2
          else some (paint false (zip fs (borrow x f)))
    ]

-- The successor: the frames down to the leftmost node, its address and what stands on its right.
abbrev pub leftmost : Rb → Node → Rb → List Frame → List Frame × Node × Rb
leftmost leaf y r fs = (fs, y, r)
leftmost (node a m b) y r fs =
    leftmost a m b (record { side = left_side; above = y; sibling = r } ∷ fs)

-- `if (node->rchild) node->rchild->parent = y`, where the root of the right subtree is the last of
-- the frames.
abbrev pub adopt_last : Ptr → List Frame → List Frame
adopt_last v [] = []
adopt_last v (f ∷ []) = record f { above = record (f.above) { parent = v } } ∷ []
adopt_last v (f ∷ g ∷ fs) = f ∷ adopt_last v (g ∷ fs)

abbrev pub if_black : Bool → Option Rb → Rb → Option Rb
if_black red fixed plain = if red then some plain else fixed

-- The removed node, which `mgrbtree_init` has set, as the parent of an empty place: its children are
-- NULL, and it is no part of the tree any more.
abbrev pub stray : Node → Frame
stray n = record { side = left_side; above = initialised n.at; sibling = leaf }

-- The repair that starts from the removed node n: when it ends, the tree t is as it was.
abbrev pub repaired_at_stray : ℕ → Node → Rb → Option Rb
repaired_at_stray fuel n t = elim (fixup_remove fuel leaf (stray n ∷ [])) [
  | none ↦ none
  | some q ↦ some t
]

-- The node y, whose right subtree is x, has been unlinked at the frames gs of the right subtree of
-- n, and takes the place of n. If it is the right child of n itself, `x_parent` is n: the repair of
-- a node x takes its own parent, and that of an empty place starts from n.
unfoldable pub replace_by : ℕ → Rb → Node → List Frame → List Frame × Node × Rb → Option Rb
unfolding fixup_remove
replace_by fuel l n fs ([], y, leaf) =
    let y' : Node = record y { parent = n.parent; red = n.red } in
    let t = zip fs (node (set_parent y.at l) y' leaf) in
    if_black y.red (repaired_at_stray fuel n t) t
replace_by fuel l n fs ([], y, node a m b) =
    let y' : Node = record y { parent = n.parent; red = n.red } in
    let f : Frame = record { side = right_side; above = y'; sibling = set_parent y.at l } in
    let x = set_parent y.at (node a m b) in
    if_black y.red (fixup_remove fuel x (f ∷ fs)) (zip (f ∷ fs) x)
replace_by fuel l n fs (g ∷ gs, y, r) =
    let y' : Node = record y { parent = n.parent; red = n.red } in
    let f : Frame = record { side = right_side; above = y'; sibling = set_parent y.at l } in
    let x = set_parent y.parent r in
    let hs = adopt_last y.at (g ∷ gs) ++ (f ∷ fs) in
    if_black y.red (fixup_remove fuel x hs) (zip hs x)

-- A node with at most one child, and what takes its place.
abbrev pub unlink : ℕ → Rb → Node → List Frame → Option Rb
unlink fuel x n fs =
    let x' = set_parent n.parent x in if_black n.red (fixup_remove fuel x' fs) (zip fs x')

-- `mgrbtree_remove_node` of the node n.
unfoldable pub mgrbtree_remove_node : ℕ → Rb → Node → Rb → List Frame → Option Rb
unfolding replace_by fixup_remove
mgrbtree_remove_node fuel leaf n r fs = unlink fuel r n fs
mgrbtree_remove_node fuel (node a m b) n leaf fs = unlink fuel (node a m b) n fs
mgrbtree_remove_node fuel (node a m b) n (node c k d) fs =
    replace_by fuel (node a m b) n fs (leftmost c k d [])

-- What `mgrbtree_remove` leaves: a loop that does not end, a tree, or a tree one of whose nodes then
-- gets another right child, which is given as it is before that.
pub data Left : Type 0 where
  unended : Left
  untouched : Rb → Left
  overwritten : Rb → Left

-- A node is in the tree.
abbrev pub holds : Ptr → Rb → Bool
holds x leaf = false
holds x (node l n r) = (x == n.at) || (holds x l || holds x r)

-- `node->rchild = search_node`
abbrev pub write_rchild : Ptr → Option Rb → Left
write_rchild x none = unended
write_rchild x (some t) = if holds x t then overwritten t else untouched t

module _ (cmp : Ptr → Ptr → Ordering) where
  -- `mgrbtree_search` followed by the removal of what it finds.
  unfoldable pub remove_below : ℕ → Rb → Ptr → List Frame → Rb → Option Rb
  unfolding mgrbtree_remove_node
  remove_below fuel leaf x fs root = some root
  remove_below fuel (node l n r) x fs root = elim (cmp n.at x) [
    | eq ↦ mgrbtree_remove_node fuel l n r fs
    | gt ↦ remove_below fuel l x (record { side = left_side; above = n; sibling = r } ∷ fs) root
    | lt ↦ remove_below fuel r x (record { side = right_side; above = n; sibling = l } ∷ fs) root
  ]

  -- The address that is stored in `node->rchild`, and what is left.
  unfoldable pub mgrbtree_remove : ℕ → Rb → Ptr → Option Ptr × Left
  unfolding mgrbtree_search remove_below
  mgrbtree_remove fuel root x =
      (mgrbtree_search cmp root x, write_rchild x (remove_below fuel root x [] root))
