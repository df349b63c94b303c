-- ===== src/Rbtree/Balance.antt =====
-- src/mgrbtree.c: the colours and the parent pointers of a tree, and of the way up from a node.
use mg_std.Base.{
  ℕ, suc, ◌≡◌, refl, sym, ap, ◌∙◌, inl, inr, Bool, true, false, not, List, [], ◌∷◌, arith,
  Bool-cases,
}
use mg_std.Bintree.{Ptr, leaf, node}
use mg_std.Rbtree.{
  Node, Rb, Side, left_side, right_side, Frame, join, plug, zip, parent_at, is_red, paint,
  set_parent,
}

-- The black height above a node: red nodes do not count.
abbrev pub count : Bool → ℕ → ℕ
count true h = h
count false h = suc h

-- A red node has no red child.
abbrev pub Allows : Bool → Rb → Type 0
Allows true t = is_red t ≡ false
Allows false t = Unit

-- Below the parent `p`: every way down to a leaf has `h` black nodes, no red node has a red child,
-- and the parent pointers are right.
abbrev pub IsRb : Ptr → ℕ → Rb → Type 0
IsRb p h leaf = h ≡ 0
IsRb p h (node l n r) =
    (n.parent ≡ p)
    × Allows n.red l
    × Allows n.red r
    × ((k : ℕ) × (h ≡ count n.red k) × IsRb n.at k l × IsRb n.at k r)

-- Whether a place allows a red node.
abbrev pub may_be_red : List Frame → Bool
may_be_red [] = false
may_be_red (f ∷ fs) = not f.above.red

-- The way up from a place for a tree of black height `h`: with such a tree in the place the whole
-- is a red-black tree with a black root.
abbrev pub IsWay : ℕ → List Frame → Type 0
IsWay h [] = Unit
IsWay h (f ∷ fs) =
    (f.above.parent ≡ parent_at fs)
    × IsRb f.above.at h f.sibling
    × Allows f.above.red f.sibling
    × (f.above.red ≡ true → may_be_red fs ≡ true)
    × IsWay (count f.above.red h) fs

-- A red-black tree with a black root, or an empty one.
abbrev pub IsRbTree : Rb → Type 0
IsRbTree t = (is_red t ≡ false) × ((h : ℕ) × IsRb 0 h t)

pub IsRb-set_parent : (p q : Ptr) (h : ℕ) (t : Rb) → IsRb p h t → IsRb q h (set_parent q t)
IsRb-set_parent p q h leaf v = v
IsRb-set_parent p q h (node l n r) v = (refl, v.1, v.2, v.3)

pub is_red-set_parent : (q : Ptr) (t : Rb) → is_red (set_parent q t) ≡ is_red t
is_red-set_parent q leaf = refl
is_red-set_parent q (node l n r) = refl

-- A red node painted black.
pub paint_red :
    (p : Ptr) (h : ℕ) (t : Rb)
    → is_red t ≡ true
    → IsRb p h t
    → IsRb p (suc h) (paint false t) × (is_red (paint false t) ≡ false)
paint_red p h leaf r v = absurd (ground arith)
paint_red p h (node l n r) red (e, al, ar, (k, q, vl, vr)) =
    ((e, tt, tt, (k, ap suc (q ∙ ap (λ c. count c k) red), vl, vr)), refl)

-- A black node painted black stays what it is.
pub paint_black : (t : Rb) → is_red t ≡ false → paint false t ≡ t
paint_black leaf b = refl
paint_black (node l n r) b = ap (λ c. node l (record n { red = c }) r) (sym b)

pub join_ok :
    (s : Side) (p : Ptr) (h : ℕ) (t : Rb) (n : Node) (u : Rb)
    → n.parent ≡ p
    → Allows n.red t
    → Allows n.red u
    → IsRb n.at h t
    → IsRb n.at h u
    → IsRb p (count n.red h) (join s t n u)
join_ok left_side p h t n u e a b v w = (e, a, b, (h, refl, v, w))
join_ok right_side p h t n u e a b v w = (e, b, a, (h, refl, w, v))

allows : (b : Bool) (t : Rb) → (is_red t ≡ true → not b ≡ true) → Allows b t
allows true t h = elim (Bool-cases (is_red t)) [
  | inl red ↦ absurd (ground (arith, h red))
  | inr black ↦ black
]
allows false t h = tt

pub is_red-join : (s : Side) (t : Rb) (n : Node) (u : Rb) → is_red (join s t n u) ≡ n.red
is_red-join left_side t n u = refl
is_red-join right_side t n u = refl

-- A tree that fits the place gives a whole tree with a black root.
pub zip-IsRbTree :
    (fs : List Frame) (h : ℕ) (t : Rb)
    → IsWay h fs
    → IsRb (parent_at fs) h t
    → (is_red t ≡ true → may_be_red fs ≡ true)
    → IsRbTree (zip fs t)
unfolding zip
zip-IsRbTree [] h t w v c = (allows true t c, (h, v))
zip-IsRbTree (f ∷ fs) h t (e, vs, ok, red, w) v c =
    zip-IsRbTree fs (count f.above.red h) (plug f t) w
      (join_ok f.side (parent_at fs) h t f.above f.sibling e (allows f.above.red t c) ok v vs)
      (λ q. red (sym (is_red-join f.side t f.above f.sibling) ∙ q))
