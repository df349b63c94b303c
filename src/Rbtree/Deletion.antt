-- ===== src/Rbtree/Deletion.antt =====
-- src/mgrbtree.c: a removal ends, but for one shape of the tree, and leaves a red-black tree.
use mg_std.Base.{
  ℕ, zero, suc, ◌+◌, ◌≤◌, ◌≡◌, refl, sym, subst, ap, ◌∙◌, inl, inr, Bool, true, false, not, none,
  List, [], ◌∷◌, ◌++◌, arith, Bool-cases, length, length-append,
}
use mg_std.Bintree.{Ptr, leaf, node}
use mg_std.Rbtree.{Node, Rb, left_side, right_side, Frame, zip, parent_at, set_parent}
use mg_std.Rbtree.Balance.{
  count, Allows, IsRb, may_be_red, IsWay, zip-IsRbTree, IsRb-set_parent, is_red-set_parent,
}
use mg_std.Rbtree.Insertion.{Fixed, forbids}
use mg_std.Rbtree.Laws.{depth}
use mg_std.Rbtree.Removal.{
  fixup_remove, leftmost, adopt_last, if_black, repaired_at_stray, replace_by, unlink,
  mgrbtree_remove_node,
}
use mg_std.Rbtree.Repair.{IsRb-IsShort}
use mg_std.Rbtree.Loop.{fixup_remove-Fixed}

-- What stood below a node of the colour `c` takes its place.
settled :
    (c : Bool) (fuel k : ℕ) (x : Rb) (hs : List Frame)
    → IsRb (parent_at hs) k x
    → Allows c x
    → IsWay (count c k) hs
    → (c ≡ true → may_be_red hs ≡ true)
    → length hs + 2 ≤ fuel
    → Fixed (if_black c (fixup_remove fuel x hs) (zip hs x))
settled true fuel k x hs v ok w color le =
    (zip hs x, refl, zip-IsRbTree hs k x w v (λ q. absurd (ground arith)))
settled false fuel k x hs v ok w color le =
    fixup_remove-Fixed hs fuel k x le (IsRb-IsShort (parent_at hs) k x v) w

pub Allows-set_parent : (c : Bool) (p : Ptr) (x : Rb) → Allows c x → Allows c (set_parent p x)
Allows-set_parent true p x ok = is_red-set_parent p x ∙ ok
Allows-set_parent false p x ok = tt

unlink-Fixed :
    (fuel h k : ℕ) (x : Rb) (n : Node) (fs : List Frame)
    → n.parent ≡ parent_at fs
    → h ≡ count n.red k
    → IsRb n.at k x
    → Allows n.red x
    → IsWay h fs
    → (n.red ≡ true → may_be_red fs ≡ true)
    → length fs + 2 ≤ fuel
    → Fixed (unlink fuel x n fs)
unlink-Fixed fuel h k x n fs e q v ok w color le =
    settled n.red fuel k (set_parent n.parent x) fs
      (subst (λ p. IsRb p k (set_parent n.parent x)) e (IsRb-set_parent n.at n.parent k x v))
      (Allows-set_parent n.red n.parent x ok) (subst (λ j. IsWay j fs) q w) color le

-- The successor fits in its place, above `tail`.
abbrev Fits : List Frame → List Frame × Node × Rb → Type 0
Fits tail (gs, y, r) =
    (h : ℕ) × IsWay h (gs ++ tail)
    × IsRb (parent_at (gs ++ tail)) h (node leaf y r)
    × (y.red ≡ true → may_be_red (gs ++ tail) ≡ true)

leftmost-Fits :
    (a : Rb) (y : Node) (r : Rb) (gs tail : List Frame) (h : ℕ)
    → IsWay h (gs ++ tail)
    → IsRb (parent_at (gs ++ tail)) h (node a y r)
    → (y.red ≡ true → may_be_red (gs ++ tail) ≡ true)
    → Fits tail (leftmost a y r gs)
leftmost-Fits leaf y r gs tail h w v color = (h, w, v, color)
leftmost-Fits (node a m b) y r gs tail h w (e, al, ar, (k, q, vl, vr)) color =
    leftmost-Fits a m b (record { side = left_side; above = y; sibling = r } ∷ gs) tail k
      (e, vr, ar, color, subst (λ j. IsWay j (gs ++ tail)) q w) vl (forbids y.red (node a m b) al)

length-leftmost :
    (a : Rb) (y : Node) (r : Rb) (gs : List Frame)
    → length ((leftmost a y r gs).0) + 1 ≤ length gs + depth (node a y r)
length-leftmost leaf y r gs = omega arith
length-leftmost (node a m b) y r gs =
    omega (arith, length-leftmost a m b (record { side = left_side; above = y; sibling = r } ∷ gs))

-- The frames of the right subtree when the node at its top has got a new parent.
parent_at-adopt_last :
    (v : Ptr) (g : Frame) (gs tail : List Frame)
    → parent_at (adopt_last v (g ∷ gs) ++ tail) ≡ g.above.at
parent_at-adopt_last v g [] tail = refl
parent_at-adopt_last v g (h ∷ gs) tail = refl

may_be_red-adopt_last :
    (v : Ptr) (g : Frame) (gs tail : List Frame)
    → may_be_red (adopt_last v (g ∷ gs) ++ tail) ≡ not g.above.red
may_be_red-adopt_last v g [] tail = refl
may_be_red-adopt_last v g (h ∷ gs) tail = refl

length-adopt_last : (v : Ptr) (gs : List Frame) → length (adopt_last v gs) ≡ length gs
length-adopt_last v [] = refl
length-adopt_last v (g ∷ []) = refl
length-adopt_last v (g ∷ (h ∷ gs)) = ap suc (length-adopt_last v (h ∷ gs))

module _ (l : Rb) (n y : Node) (fs : List Frame) where
  -- The node, and its successor in its place, above the right subtree.
  abbrev old : Frame
  old = record { side = right_side; above = n; sibling = l }

  abbrev new : Frame
  new = record {
    side = right_side;
    above = record y { parent = n.parent; red = n.red };
    sibling = set_parent y.at l;
  }

  new-IsWay : (k : ℕ) → IsWay k (old ∷ fs) → IsWay k (new ∷ fs)
  new-IsWay k (e, vs, ok, color, up) =
      (e, IsRb-set_parent n.at y.at k l vs, Allows-set_parent n.red y.at l ok, color, up)

  adopt_last-IsWay :
      (g : Frame) (gs : List Frame) (k : ℕ)
      → IsWay k ((g ∷ gs) ++ (old ∷ fs))
      → IsWay k (adopt_last y.at (g ∷ gs) ++ (new ∷ fs))
  adopt_last-IsWay g [] k (e, vs, ok, color, up) =
      (refl, vs, ok, color, new-IsWay (count g.above.red k) up)
  adopt_last-IsWay g (h ∷ gs) k (e, vs, ok, color, up) = (
    e ∙ sym (parent_at-adopt_last y.at h gs (new ∷ fs)),
    vs,
    ok,
    (λ q. may_be_red-adopt_last y.at h gs (new ∷ fs) ∙ color q),
    adopt_last-IsWay h gs (count g.above.red k) up,
  )

-- The repair that starts from the removed node never ends.
pub repaired_at_stray-none : (fuel : ℕ) (n : Node) (t : Rb) → repaired_at_stray fuel n t ≡ none
unfolding fixup_remove
repaired_at_stray-none zero n t = refl
repaired_at_stray-none (suc fuel) n t = repaired_at_stray-none fuel n t

-- The successor is a black leaf that is the right child of the node itself.
abbrev trapped : List Frame × Node × Rb → Bool
trapped ([], y, leaf) = not y.red
trapped ([], y, node a m b) = false
trapped (g ∷ gs, y, r) = false

replace_by-Fixed :
    (fuel : ℕ) (l : Rb) (n : Node) (fs : List Frame) (s : List Frame × Node × Rb)
    → Fits (record { side = right_side; above = n; sibling = l } ∷ fs) s
    → trapped s ≡ false
    → length (s.0) + length fs + 3 ≤ fuel
    → Fixed (replace_by fuel l n fs s)
unfolding replace_by zip
replace_by-Fixed fuel l n fs ([], y, leaf) (h, w, v, color) free le =
    subst (λ c. Fixed (if_black c (repaired_at_stray fuel n t) t)) (sym red)
      (
        _,
        refl,
        zip-IsRbTree (new l n y fs ∷ fs) k leaf
            (new-IsWay l n y fs k
              (subst (λ j. IsWay j (old l n y fs ∷ fs)) (v.3.1 ∙ ap (λ c. count c k) red) w))
            v.3.3 (λ q. absurd (ground arith)),
      )
  where
    t : Rb
    t = zip fs (node (set_parent y.at l) (record y { parent = n.parent; red = n.red }) leaf)

    k : ℕ
    k = v.3.0

    red : y.red ≡ true
    red = elim (Bool-cases y.red) [ inl r ↦ r | inr r ↦ absurd (ground arith) ]
replace_by-Fixed fuel l n fs ([], y, node a m b) (h, w, (e, al, ar, (k, q, vl, vr)), color) free
      le =
    settled y.red fuel k (set_parent y.at (node a m b)) (new l n y fs ∷ fs)
      (IsRb-set_parent y.at y.at k (node a m b) vr) (Allows-set_parent y.red y.at (node a m b) ar)
      (new-IsWay l n y fs (count y.red k) (subst (λ j. IsWay j (old l n y fs ∷ fs)) q w)) color
      (omega (arith, le))
replace_by-Fixed fuel l n fs (g ∷ gs, y, r) (h, w, (e, al, ar, (k, q, vl, vr)), color) free le =
    let hs = adopt_last y.at (g ∷ gs) ++ (new l n y fs ∷ fs) in
    settled y.red fuel k (set_parent y.parent r) hs
      (subst (λ p. IsRb p k (set_parent y.parent r))
        (e ∙ sym (parent_at-adopt_last y.at g gs (new l n y fs ∷ fs)))
        (IsRb-set_parent y.at y.parent k r vr))
      (Allows-set_parent y.red y.parent r ar)
      (subst (λ j. IsWay j hs) q (adopt_last-IsWay l n y fs g gs h w))
      (λ c. may_be_red-adopt_last y.at g gs (new l n y fs ∷ fs) ∙ color c)
      (omega (
        arith,
        le,
        length-append (adopt_last y.at (g ∷ gs)) (new l n y fs ∷ fs),
        length-adopt_last y.at (g ∷ gs),
      ))

-- The shape that makes the code loop for ever: two children, the right one a black leaf.
abbrev pub stuck : Rb → Bool
stuck (node (node a m b) n (node leaf y leaf)) = not y.red
stuck _ = false

leftmost-trapped :
    (a : Rb) (y : Node) (r : Rb) (g : Frame) (gs : List Frame)
    → trapped (leftmost a y r (g ∷ gs)) ≡ false
leftmost-trapped leaf y r g gs = refl
leftmost-trapped (node a m b) y r g gs =
    leftmost-trapped a m b (record { side = left_side; above = y; sibling = r }) (g ∷ gs)

stuck-trapped :
    (a : Rb) (m : Node) (b : Rb) (n : Node) (c : Rb) (k : Node) (d : Rb)
    → trapped (leftmost c k d []) ≡ stuck (node (node a m b) n (node c k d))
stuck-trapped a m b n leaf k leaf = refl
stuck-trapped a m b n leaf k (node d e f) = refl
stuck-trapped a m b n (node c e f) k d =
    leftmost-trapped c e f (record { side = left_side; above = k; sibling = d }) []

pub mgrbtree_remove_node-Fixed :
    (fuel h : ℕ) (l : Rb) (n : Node) (r : Rb) (fs : List Frame)
    → IsRb (parent_at fs) h (node l n r)
    → IsWay h fs
    → (n.red ≡ true → may_be_red fs ≡ true)
    → stuck (node l n r) ≡ false
    → length fs + depth (node l n r) + 2 ≤ fuel
    → Fixed (mgrbtree_remove_node fuel l n r fs)
unfolding mgrbtree_remove_node
mgrbtree_remove_node-Fixed fuel h leaf n r fs (e, al, ar, (k, q, vl, vr)) w color free le =
    unlink-Fixed fuel h k r n fs e q vr ar w color (omega (arith, le))
mgrbtree_remove_node-Fixed fuel h (node a m b) n leaf fs (e, al, ar, (k, q, vl, vr)) w color free
      le =
    unlink-Fixed fuel h k (node a m b) n fs e q vl al w color (omega (arith, le))
mgrbtree_remove_node-Fixed fuel h (node a m b) n (node c y d) fs (e, al, ar, (k, q, vl, vr)) w color
      free le =
    replace_by-Fixed fuel (node a m b) n fs (leftmost c y d [])
      (leftmost-Fits c y d [] (record { side = right_side; above = n; sibling = node a m b } ∷ fs) k
        (e, vl, al, color, subst (λ j. IsWay j fs) q w) vr (forbids n.red (node c y d) ar))
      (stuck-trapped a m b n c y d ∙ free) (omega (arith, le, length-leftmost c y d []))
