-- ===== src/Rbtree/Rotated.antt =====
-- src/mgrbtree.c: the trees that the rotations and the repainting of an insertion leave.
use mg_std.Base.{
  ℕ, suc, ◌≡◌, refl, sym, subst, ap, ◌∙◌, ◌⊎◌, inl, inr, Bool, true, false, List, ◌∷◌, arith,
  if◌then◌else◌,
}
use mg_std.Bintree.{Ptr, leaf, node}
use mg_std.Rbtree.{
  Node, Rb, Side, left_side, right_side, Frame, same_side, join, plug, parent_at, is_red, paint,
  set_parent, left_rote, right_rote, rote, other, restructure, recolour,
}
use mg_std.Rbtree.Balance.{
  count, Allows, IsRb, IsWay, IsRb-set_parent, is_red-set_parent, paint_red, join_ok, is_red-join,
}

-- The two rotations at a node with a child on the side that moves up.
pub rote_up :
    (s : Side) (t : Rb) (m : Node) (b : Rb) (n : Node) (u : Rb)
    → rote (other s) (join s (join s t m b) n u)
      ≡ join s t
          (record m { parent = n.parent })
          (join s (set_parent n.at b) (record n { parent = m.at }) u)
unfolding left_rote right_rote
rote_up left_side t m b n u = refl
rote_up right_side t m b n u = refl

rote_down :
    (s : Side) (t : Rb) (m : Node) (b : Rb) (n : Node) (u : Rb)
    → rote s (join (other s) (join (other s) t m b) n u)
      ≡ join s
          (join s u (record n { parent = m.at }) (set_parent n.at b))
          (record m { parent = n.parent })
          t
unfolding left_rote right_rote
rote_down left_side t m b n u = refl
rote_down right_side t m b n u = refl

pub paint-join :
    (c : Bool) (s : Side) (t : Rb) (n : Node) (u : Rb)
    → paint c (join s t n u) ≡ join s t (record n { red = c }) u
paint-join c left_side t n u = refl
paint-join c right_side t n u = refl

pub unjoin :
    (s : Side) (p : Ptr) (h : ℕ) (t : Rb)
    → is_red t ≡ true
    → IsRb p h t
    → (a : Rb) × (n : Node) × (b : Rb) × (t ≡ join s a n b)
      × (n.parent ≡ p)
      × (is_red a ≡ false)
      × (is_red b ≡ false)
      × IsRb n.at h a
      × IsRb n.at h b
unjoin s p h leaf red v = absurd (ground arith)
unjoin left_side p h (node l n r) red (e, al, ar, (k, q, vl, vr)) =
    let same : k ≡ h = sym (q ∙ ap (λ c. count c k) red) in
    (
      l,
      n,
      r,
      refl,
      e,
      subst (λ c. Allows c l) red al,
      subst (λ c. Allows c r) red ar,
      subst (λ x. IsRb n.at x l) same vl,
      subst (λ x. IsRb n.at x r) same vr,
    )
unjoin right_side p h (node l n r) red (e, al, ar, (k, q, vl, vr)) =
    let same : k ≡ h = sym (q ∙ ap (λ c. count c k) red) in
    (
      r,
      n,
      l,
      refl,
      e,
      subst (λ c. Allows c r) red ar,
      subst (λ c. Allows c l) red al,
      subst (λ x. IsRb n.at x r) same vr,
      subst (λ x. IsRb n.at x l) same vl,
    )

-- The rotation of case 3: the black node `m` comes up between the trees `t` and the red node `n`.
raised :
    (s : Side) (p : Ptr) (h : ℕ) (t : Rb) (m : Node) (b : Rb) (n : Node) (u : Rb)
    → n.parent ≡ p
    → m.red ≡ false
    → n.red ≡ true
    → IsRb m.at h t
    → IsRb m.at h b
    → is_red b ≡ false
    → IsRb n.at h u
    → is_red u ≡ false
    → IsRb p (suc h) (rote (other s) (join s (join s t m b) n u))
      × (is_red (rote (other s) (join s (join s t m b) n u)) ≡ false)
raised s p h t m b n u e black red vt vb bb vu bu =
    let m' : Node = record m { parent = n.parent } in
    let n' : Node = record n { parent = m.at } in
    let b' = set_parent n.at b in
    let inner : IsRb m.at h (join s b' n' u) =
      subst (λ c. IsRb m.at (count c h) (join s b' n' u)) red
        (join_ok s m.at h b' n' u refl
          (subst (λ c. Allows c b') (sym red) (is_red-set_parent n.at b ∙ bb))
          (subst (λ c. Allows c u) (sym red) bu) (IsRb-set_parent m.at n.at h b vb) vu) in
    let whole : IsRb p (suc h) (join s t m' (join s b' n' u)) =
      subst (λ c. IsRb p (count c h) (join s t m' (join s b' n' u))) black
        (join_ok s p h t m' (join s b' n' u) e (subst (λ c. Allows c t) (sym black) tt)
          (subst (λ c. Allows c (join s b' n' u)) (sym black) tt) vt inner) in
    (
      subst (IsRb p (suc h)) (sym (rote_up s t m b n u)) whole,
      ap is_red (rote_up s t m b n u) ∙ is_red-join s t m' (join s b' n' u) ∙ black,
    )

sides :
    (a b : Side) → ((same_side a b ≡ true) × (a ≡ b)) ⊎ ((same_side a b ≡ false) × (a ≡ other b))
sides left_side left_side = inl (refl, refl)
sides left_side right_side = inr (refl, refl)
sides right_side left_side = inr (refl, refl)
sides right_side right_side = inl (refl, refl)

-- A tree at the side `s` that is ready for the rotation of case 3 once its root is black.
abbrev Shape : Side → ℕ → Rb → Type 0
Shape s h t =
    (a : Rb) × (m : Node) × (b : Rb) × (paint false t ≡ join s a m b)
    × (m.red ≡ false)
    × IsRb m.at h a
    × IsRb m.at h b
    × (is_red b ≡ false)

-- Case 2 makes the shape that case 3 needs.
shape :
    (z : Rb) (p : Frame) (s : Side) (h : ℕ)
    → is_red z ≡ true
    → IsRb p.above.at h z
    → IsRb p.above.at h p.sibling
    → is_red p.sibling ≡ false
    → p.above.red ≡ true
    → Shape s h (if same_side p.side s then plug p z else rote s (plug p z))
shape z p s h zr vz vu bu red = elim (sides p.side s) [
  | inl (same, at) ↦
      subst (λ b. Shape s h (if b then plug p z else rote s (plug p z))) (sym same)
        (
          z,
          record (p.above) { red = false },
          p.sibling,
          ap (λ x. paint false (join x z p.above p.sibling)) at
              ∙ paint-join false s z p.above p.sibling,
          refl,
          vz,
          vu,
          bu,
        )
  | inr (differ, at) ↦
      let (c, m, b, eq, em, rc, rb, vc, vb) = unjoin (other s) p.above.at h z zr vz in
      let n' : Node = record (p.above) { parent = m.at } in
      let b' = set_parent p.above.at b in
      subst (λ b. Shape s h (if b then plug p z else rote s (plug p z))) (sym differ)
        (
          join s p.sibling n' b',
          record m { parent = p.above.parent; red = false },
          c,
          ap (paint false) (
                ap (λ x. rote s (join x z p.above p.sibling)) at
                ∙ ap (λ x. rote s (join (other s) x p.above p.sibling)) eq
                ∙ rote_down s c m b p.above p.sibling)
              ∙ paint-join false s (join s p.sibling n' b') (record m { parent = p.above.parent })
                  c,
          refl,
          subst (λ x. IsRb m.at (count x h) (join s p.sibling n' b')) red
              (join_ok s m.at h p.sibling n' b' refl (subst (λ x. Allows x p.sibling) (sym red) bu)
                (subst (λ x. Allows x b') (sym red) (is_red-set_parent p.above.at b ∙ rb)) vu
                (IsRb-set_parent m.at p.above.at h b vb)),
          vc,
          rc,
        )
]

module _ (z : Rb) (p g : Frame) (fs : List Frame) (h : ℕ) (zr : is_red z ≡ true)
    (vz : IsRb p.above.at h z) (way : IsWay h (p ∷ (g ∷ fs))) (pr : p.above.red ≡ true) where
  black_sibling : is_red p.sibling ≡ false
  black_sibling = let (ep, vp, kp, rp, rest) = way in subst (λ c. Allows c p.sibling) pr kp

  black_above : g.above.red ≡ false
  black_above = let (ep, vp, kp, rp, rest) = way in ground (arith, rp pr)

  uncle-IsRb : IsRb g.above.at h g.sibling
  uncle-IsRb =
      let (ep, vp, kp, rp, (eg, vg, kg, rg, up)) = way in
      subst (λ c. IsRb g.above.at (count c h) g.sibling) pr vg

  pub rest-IsWay : IsWay (suc h) fs
  rest-IsWay =
      let (ep, vp, kp, rp, (eg, vg, kg, rg, up)) = way in
      subst (λ c. IsWay (count c h) fs) black_above
        (subst (λ c. IsWay (count g.above.red (count c h)) fs) pr up)

  -- Cases 2 and 3 end with a black root of the black height that the place asks for.
  pub restructure-IsRb :
      is_red g.sibling ≡ false
      → IsRb (parent_at fs) (suc h) (restructure z p g) × (is_red (restructure z p g) ≡ false)
  unfolding restructure
  restructure-IsRb black =
      let (ep, vp, kp, rp, (eg, vg, kg, rg, up)) = way in
      let (a, m, b, eq, mb, va, vb, bb) = shape z p g.side h zr vz vp black_sibling pr in
      let n : Node = record (g.above) { red = true } in
      subst
        (λ t.
          IsRb (parent_at fs) (suc h) (rote (other g.side) (join g.side t n g.sibling))
          × (is_red (rote (other g.side) (join g.side t n g.sibling)) ≡ false))
        (sym eq)
        (raised g.side (parent_at fs) h a m b n g.sibling eg mb refl va vb bb uncle-IsRb black)

  -- Case 1 goes on with a red root of that height.
  pub recolour-IsRb :
      is_red g.sibling ≡ true
      → IsRb (parent_at fs) (suc h) (recolour z p g) × (is_red (recolour z p g) ≡ true)
  recolour-IsRb red =
      let (ep, vp, kp, rp, (eg, vg, kg, rg, up)) = way in
      let n : Node = record (g.above) { red = true } in
      let m : Node = record (p.above) { red = false } in
      let (vu, bu) = paint_red g.above.at h g.sibling red uncle-IsRb in
      let whole : IsRb (parent_at fs) (suc h)
          (join g.side (join p.side z m p.sibling) n (paint false g.sibling)) =
        join_ok g.side (parent_at fs) (suc h) (join p.side z m p.sibling) n (paint false g.sibling)
          eg (is_red-join p.side z m p.sibling) bu
          (join_ok p.side g.above.at h z m p.sibling ep tt tt vz vp) vu in
      (
        subst (λ t. IsRb (parent_at fs) (suc h) (join g.side t n (paint false g.sibling)))
            (sym (paint-join false p.side z p.above p.sibling)) whole,
        is_red-join g.side _ n (paint false g.sibling),
      )
