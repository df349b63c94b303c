-- ===== src/Rbtree/Insertion.antt =====
-- src/mgrbtree.c: an insertion ends, and keeps the colours.
use Prim.Native.Nat.{Ordering}
use mg_std.Base.{
  on_if, ℕ, suc, ◌≡◌, refl, sym, subst, ap, inl, inr, Bool, true, false, not, Option, some, List,
  [], ◌∷◌, arith,
}
use mg_std.Bintree.{Ptr, leaf, node}
use mg_std.Bintree.Order.{Agrees}
use mg_std.Rbtree.{
  Rb, left_side, right_side, Frame, plug, zip, parent_at, is_red, paint, restructure, recolour,
  fixup_insert, descend, linked, mgrbtree_insert,
}
use mg_std.Rbtree.Order.{orderings, linked-descend}
use mg_std.Rbtree.Balance.{
  Allows, IsRb, may_be_red, IsWay, IsRbTree, paint_red, paint_black, zip-IsRbTree,
}
use mg_std.Rbtree.Rotated.{rest-IsWay, restructure-IsRb, recolour-IsRb}

-- There is a result, a red-black tree.
abbrev pub Fixed : Option Rb → Type 0
Fixed o = (t : Rb) × (o ≡ some t) × IsRbTree t

pub painted : (t : Rb) → IsRbTree t → IsRbTree (paint false t)
painted t v = subst IsRbTree (sym (paint_black t v.0)) v

fixup_insert-Fixed :
    (z : Rb) (fs : List Frame) (h : ℕ)
    → is_red z ≡ true
    → IsRb (parent_at fs) h z
    → IsWay h fs
    → Fixed (fixup_insert z fs)
unfolding fixup_insert zip
fixup_insert-Fixed z [] h red v w =
    let (v', black) = paint_red 0 h z red v in (paint false z, refl, (black, (suc h, v')))
fixup_insert-Fixed z (p ∷ []) h red v w =
    let (e, vs, ok, color, up) = w in
    on_if Fixed p.above.red (λ pr. absurd (ground (arith, color pr)))
      (λ pb. (
        paint false (plug p z),
        refl,
        painted (plug p z) (zip-IsRbTree (p ∷ []) h z w v (λ q. ap not pb)),
      ))
fixup_insert-Fixed z (p ∷ (g ∷ fs)) h red v w =
    on_if Fixed p.above.red
      (λ pr.
        on_if Fixed (is_red g.sibling)
          (λ again.
            let (v', red') = recolour-IsRb z p g fs h red v w pr again in
            fixup_insert-Fixed (recolour z p g) fs (suc h) red' v'
              (rest-IsWay z p g fs h red v w pr))
          (λ ends.
            let (v', black) = restructure-IsRb z p g fs h red v w pr ends in
            (
              paint false (zip fs (restructure z p g)),
              refl,
              painted (zip fs (restructure z p g)) (
                  zip-IsRbTree fs (suc h) (restructure z p g) (rest-IsWay z p g fs h red v w pr) v'
                    (λ q. absurd (ground arith))),
            )))
      (λ pb. (
        paint false (zip fs (plug g (plug p z))),
        refl,
        painted (zip fs (plug g (plug p z))) (zip-IsRbTree (p ∷ (g ∷ fs)) h z w v (λ q. ap not pb)),
      ))

pub forbids : (b : Bool) (t : Rb) → Allows b t → is_red t ≡ true → not b ≡ true
forbids true t a q = absurd (ground arith)
forbids false t a q = refl

module _ (cmp : Ptr → Ptr → Ordering) where
  -- The place where a descent ends, below a tree in its place.
  descend-IsWay :
      (t : Rb) (x : Ptr) (fs : List Frame) (h : ℕ)
      → IsRb (parent_at fs) h t
      → IsWay h fs
      → (is_red t ≡ true → may_be_red fs ≡ true)
      → IsWay 0 (descend cmp t x fs)
  unfolding descend
  descend-IsWay leaf x fs h v w c = subst (λ k. IsWay k fs) v w
  descend-IsWay (node l n r) x fs h (e, al, ar, (k, q, vl, vr)) w c =
      elim (orderings cmp (cmp n.at x)) [
        | inl o ↦
            rw (o, descend)
              (descend-IsWay r x (record { side = right_side; above = n; sibling = l } ∷ fs) k vr
                (e, vl, al, c, subst (λ x. IsWay x fs) q w) (forbids n.red r ar))
        | inr (inl o) ↦
            rw (o, descend)
              (descend-IsWay r x (record { side = right_side; above = n; sibling = l } ∷ fs) k vr
                (e, vl, al, c, subst (λ x. IsWay x fs) q w) (forbids n.red r ar))
        | inr (inr o) ↦
            rw (o, descend)
              (descend-IsWay l x (record { side = left_side; above = n; sibling = r } ∷ fs) k vl
                (e, vr, ar, c, subst (λ x. IsWay x fs) q w) (forbids n.red l al))
      ]

  module _ (rank : Ptr → ℕ) (agrees : Agrees cmp rank) where
    pub mgrbtree_insert-Fixed : (t : Rb) (x : Ptr) → IsRbTree t → Fixed (mgrbtree_insert cmp t x)
    unfolding mgrbtree_insert
    mgrbtree_insert-Fixed t x (black, (h, v)) =
        let fs = linked cmp x (descend cmp t x []) in
        let z : Rb = node leaf (record { at = x; parent = parent_at fs; red = true }) leaf in
        fixup_insert-Fixed z fs 0 refl (refl, refl, refl, (0, refl, refl, refl))
          (subst (IsWay 0) (sym (linked-descend cmp rank agrees t x [] refl))
            (descend-IsWay t x [] h v tt (λ q. absurd (ground arith))))
