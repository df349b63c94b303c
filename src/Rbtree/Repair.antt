-- ===== src/Rbtree/Repair.antt =====
-- src/mgrbtree.c: the loop that repairs a tree after a removal, at a place that is one black node
-- short.
use mg_std.Base.{
  on_if, ℕ, suc, ◌≡◌, refl, sym, subst, ap, ◌∙◌, ◌⊎◌, inl, inr, Bool, true, false, not, ◌&&◌, List,
  [], ◌∷◌, arith, Bool-cases,
}
use mg_std.Bintree.{Ptr, leaf, node}
use mg_std.Rbtree.{
  Node, Rb, Side, left_side, right_side, Frame, join, zip, parent_at, is_red, paint, set_parent,
  left_rote, right_rote, other,
}
use mg_std.Rbtree.Balance.{
  count, Allows, IsRb, IsWay, paint_red, zip-IsRbTree, join_ok, is_red-join, IsRb-set_parent,
  is_red-set_parent,
}
use mg_std.Rbtree.Rotated.{unjoin}
use mg_std.Rbtree.Insertion.{Fixed, painted}
use mg_std.Rbtree.Removal.{child, bring_up, take_over, borrow, fixup_remove}

pub parts :
    (s : Side) (a : Rb) (m : Node) (b : Rb)
    → node a m b ≡ join s (child s (node a m b)) m (child (other s) (node a m b))
parts left_side a m b = refl
parts right_side a m b = refl

-- A black brother at the side of the place, as its near and far subtrees.
abbrev pub Brother : Side → Ptr → ℕ → Rb → Type 0
Brother s p h t =
    (a : Rb) × (m : Node) × (b : Rb) × (t ≡ join s a m b)
    × (m.parent ≡ p)
    × IsRb m.at h a
    × IsRb m.at h b

take_over-join :
    (s : Side) (x : Rb) (n : Node) (a : Rb) (m : Node) (b : Rb)
    → take_over s x n (join s a m b)
      ≡ join s
          (join s x (record n { parent = m.at; red = false }) (set_parent n.at a))
          (record m { parent = n.parent; red = n.red })
          (paint false b)
unfolding take_over left_rote right_rote
take_over-join left_side x n a m b = refl
take_over-join right_side x n a m b = refl

bring_up-join :
    (s : Side) (a : Rb) (k : Node) (c : Rb) (m : Node) (b : Rb)
    → bring_up s (join s (join s a k c) m b)
      ≡ join s a
          (record k { parent = m.parent; red = false })
          (join s (set_parent m.at c) (record m { parent = k.at; red = true }) b)
unfolding bring_up left_rote right_rote
bring_up-join left_side a k c m b = refl
bring_up-join right_side a k c m b = refl

-- What stands in a place: black height `h` below the parent `p`, and a root of the colour `c`.
abbrev pub Stands : Ptr → ℕ → Bool → Rb → Type 0
Stands p h c t = IsRb p h t × (is_red t ≡ c)

take_over-Stands :
    (s : Side) (p : Ptr) (h : ℕ) (x : Rb) (n : Node) (a : Rb) (m : Node) (b : Rb)
    → n.parent ≡ p
    → IsRb n.at h x
    → IsRb m.at h a
    → IsRb m.at h b
    → is_red b ≡ true
    → Stands p (count n.red (suc h)) n.red (take_over s x n (join s a m b))
take_over-Stands s p h x n a m b e vx va vb red =
    let n' : Node = record n { parent = m.at; red = false } in
    let m' : Node = record m { parent = n.parent; red = n.red } in
    let inner = join s x n' (set_parent n.at a) in
    let (vb', bb) = paint_red m.at h b red vb in
    subst (Stands p (count n.red (suc h)) n.red) (sym (take_over-join s x n a m b)) (
      join_ok s p (suc h) inner m' (paint false b) e
          (allows_black n.red inner (is_red-join s x n' (set_parent n.at a)))
          (allows_black n.red (paint false b) bb)
          (join_ok s m.at h x n' (set_parent n.at a) refl tt tt vx
            (IsRb-set_parent m.at n.at h a va))
          vb',
      is_red-join s inner m' (paint false b),
    )
  where
    allows_black : (c : Bool) (t : Rb) → is_red t ≡ false → Allows c t
    allows_black true t q = q
    allows_black false t q = tt

child_far : (s : Side) (a : Rb) (m : Node) (b : Rb) → child (other s) (join s a m b) ≡ b
child_far left_side a m b = refl
child_far right_side a m b = refl

child_near : (s : Side) (a : Rb) (m : Node) (b : Rb) → child s (join s a m b) ≡ a
child_near left_side a m b = refl
child_near right_side a m b = refl

-- Cases 3 and 4, below a parent `n` with a black brother that has a red child.
pub borrow-Stands :
    (s : Side) (p : Ptr) (h : ℕ) (x : Rb) (n : Node) (t : Rb)
    → n.parent ≡ p
    → IsRb n.at h x
    → Brother s n.at h t
    → (is_red (child (other s) t) ≡ false → is_red (child s t) ≡ true)
    → Stands p (count n.red (suc h)) n.red (borrow x (record { side = s; above = n; sibling = t }))
unfolding borrow
borrow-Stands s p h x n t e vx (a, m, b, eq, em, va, vb) near =
    on_if (λ u. Stands p (count n.red (suc h)) n.red (take_over s x n u))
      (is_red (child (other s) t))
      (λ far.
        subst (λ u. Stands p (count n.red (suc h)) n.red (take_over s x n u)) (sym eq)
          (take_over-Stands s p h x n a m b e vx va vb
            (ap is_red (sym (child_far s a m b) ∙ ap (child (other s)) (sym eq)) ∙ far)))
      (λ black.
        let (c, k, d, eq', ek, rc, rd, vc, vd) =
          unjoin s m.at h a
            (ap is_red (sym (child_near s a m b) ∙ ap (child s) (sym eq)) ∙ near black) va in
        let m' : Node = record m { parent = k.at; red = true } in
        let k' : Node = record k { parent = m.parent; red = false } in
        let far = join s (set_parent m.at d) m' b in
        subst (λ u. Stands p (count n.red (suc h)) n.red (take_over s x n u))
          (sym (ap (bring_up s) (eq ∙ ap (λ y. join s y m b) eq') ∙ bring_up-join s c k d m b))
          (take_over-Stands s p h x n c k' far e vx vc
            (join_ok s k.at h (set_parent m.at d) m' b refl (is_red-set_parent m.at d ∙ rd)
              (ap is_red (sym (child_far s a m b) ∙ ap (child (other s)) (sym eq)) ∙ black)
              (IsRb-set_parent k.at m.at h d vd) vb)
            (is_red-join s (set_parent m.at d) m' b)))

-- A tree that is one black node short, unless its red root is painted black.
abbrev pub IsShort : Ptr → ℕ → Rb → Type 0
IsShort p h x =
    ((is_red x ≡ false) × IsRb p h x) ⊎ ((is_red x ≡ true) × IsRb p (suc h) (paint false x))

pub IsRb-IsShort : (p : Ptr) (h : ℕ) (x : Rb) → IsRb p h x → IsShort p h x
IsRb-IsShort p h x v = elim (Bool-cases (is_red x)) [
  | inl red ↦ inr (red, (paint_red p h x red v).0)
  | inr black ↦ inl (black, v)
]

is_red-paint : (t : Rb) → is_red (paint false t) ≡ false
is_red-paint leaf = refl
is_red-paint (node l n r) = refl

-- One turn is enough at the root and at a red node.
pub fixup_remove-root : (fuel h : ℕ) (x : Rb) → IsShort 0 h x → Fixed (fixup_remove (suc fuel) x [])
unfolding fixup_remove
fixup_remove-root fuel h x (inl (black, v)) = (paint false x, refl, painted x (black, (h, v)))
fixup_remove-root fuel h x (inr (red, v)) = (paint false x, refl, (is_red-paint x, (suc h, v)))

pub fixup_remove-red :
    (fuel h : ℕ) (x : Rb) (fs : List Frame)
    → is_red x ≡ true
    → IsShort (parent_at fs) h x
    → IsWay (suc h) fs
    → Fixed (fixup_remove (suc fuel) x fs)
unfolding fixup_remove
fixup_remove-red fuel h x [] red v w = fixup_remove-root fuel h x v
fixup_remove-red fuel h x (f ∷ fs) red (inl (black, v)) w = absurd (ground arith)
fixup_remove-red fuel h x (f ∷ fs) red (inr (q, v)) w =
    on_if Fixed (is_red x)
      (λ yes. (
        zip (f ∷ fs) (paint false x),
        refl,
        zip-IsRbTree (f ∷ fs) (suc h) (paint false x) w v
            (λ e. absurd (ground (arith, is_red-paint x))),
      ))
      (λ no. absurd (ground arith))

-- A brother of two black children is painted red.
pub paint_down :
    (p : Ptr) (h : ℕ) (l r : Rb) (n : Node)
    → n.red ≡ false
    → is_red l ≡ false
    → is_red r ≡ false
    → IsRb p (suc h) (node l n r)
    → IsRb p h (node l (record n { red = true }) r)
paint_down p h l r n black bl br (e, al, ar, (k, q, vl, vr)) =
    let same : k ≡ h = sym (ground (arith, q ∙ ap (λ c. count c k) black)) in
    (e, bl, br, (h, refl, subst (λ x. IsRb n.at x l) same vl, subst (λ x. IsRb n.at x r) same vr))

pub count-suc : (c : Bool) (h : ℕ) → count c (suc h) ≡ suc (count c h)
count-suc true h = refl
count-suc false h = refl

pub both : (a b : Bool) → not a && not b ≡ true → (a ≡ false) × (b ≡ false)
both true b e = absurd (ground arith)
both false true e = absurd (ground arith)
both false false e = (refl, refl)

pub either : (a b : Bool) → not a && not b ≡ false → b ≡ false → a ≡ true
either true b e q = refl
either false true e q = absurd (ground arith)
either false false e q = absurd (ground arith)

-- The black brother of a place, by its sides.
pub brother :
    (s : Side) (p : Ptr) (h : ℕ) (a b : Rb) (m : Node)
    → m.red ≡ false
    → IsRb p (suc h) (node a m b)
    → Brother s p h (node a m b)
brother left_side p h a b m black (e, al, ar, (k, q, vl, vr)) =
    let same : k ≡ h = sym (ground (arith, q ∙ ap (λ c. count c k) black)) in
    (a, m, b, refl, e, subst (λ x. IsRb m.at x a) same vl, subst (λ x. IsRb m.at x b) same vr)
brother right_side p h a b m black (e, al, ar, (k, q, vl, vr)) =
    let same : k ≡ h = sym (ground (arith, q ∙ ap (λ c. count c k) black)) in
    (b, m, a, refl, e, subst (λ x. IsRb m.at x b) same vr, subst (λ x. IsRb m.at x a) same vl)
