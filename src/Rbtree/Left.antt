-- ===== src/Rbtree/Left.antt =====
-- src/mgrbtree.c: the nodes that a removal leaves.
use mg_std.Base.{
  on_if, ℕ, zero, suc, ◌≡◌, refl, sym, ap, ap₂, ◌∙◌, Bool, true, false, not, ◌&&◌, List, [], ◌∷◌,
  ◌++◌, append_assoc, if◌then◌else◌,
}
use mg_std.Bintree.{Ptr, leaf, node}
use mg_std.Rbtree.{
  Node, Rb, Side, left_side, right_side, Frame, join, plug, zip, is_red, paint, set_parent, other,
}
use mg_std.Rbtree.Order.{
  nodes, nodes-paint, nodes-set_parent, nodes-rote, nodes-join, nodes-plug, nodes-zip, Has, Has-eq,
}
use mg_std.Rbtree.Removal.{child, set_child, bring_up, take_over, borrow, lowered, fixup_remove}
use mg_std.Rbtree.Repair.{parts}

nodes-set_child :
    (s : Side) (t b : Rb) → nodes t ≡ nodes (child s b) → nodes (set_child s t b) ≡ nodes b
nodes-set_child s t leaf h = refl
nodes-set_child left_side t (node l n r) h = ap (λ (ys : List Ptr). ys ++ (n.at ∷ nodes r)) h
nodes-set_child right_side t (node l n r) h = ap (λ (ys : List Ptr). nodes l ++ (n.at ∷ ys)) h

nodes-bring_up : (s : Side) (b : Rb) → nodes (bring_up s b) ≡ nodes b
unfolding bring_up
nodes-bring_up s b =
    nodes-rote (other s) _
    ∙ nodes-paint true (set_child s (paint false (child s b)) b)
    ∙ nodes-set_child s _ b (nodes-paint false (child s b))

nodes-take_over :
    (s : Side) (x : Rb) (n : Node) (b : Rb) → nodes (take_over s x n b) ≡ nodes (join s x n b)
unfolding take_over
nodes-take_over s x n b =
    let far = paint false (child (other s) b) in
    let b' = set_child (other s) far b in
    nodes-rote s (join s x (record n { red = false }) (paint n.red b'))
    ∙ nodes-join s x x (record n { red = false }) n (paint n.red b') b refl refl
        (nodes-paint n.red b'
          ∙ nodes-set_child (other s) far b (nodes-paint false (child (other s) b)))

nodes-borrow : (x : Rb) (f : Frame) → nodes (borrow x f) ≡ nodes (plug f x)
unfolding borrow
nodes-borrow x f =
    nodes-take_over f.side x f.above (moved (is_red (child (other f.side) f.sibling)))
    ∙ nodes-join f.side x x f.above f.above (moved (is_red (child (other f.side) f.sibling)))
        f.sibling refl refl (same (is_red (child (other f.side) f.sibling)))
  where
    moved : Bool → Rb
    moved c = if c then f.sibling else bring_up f.side f.sibling

    same : (c : Bool) → nodes (moved c) ≡ nodes f.sibling
    same true = refl
    same false = nodes-bring_up f.side f.sibling

-- A rotation of the frames keeps the order.
nodes-around :
    (s : Side) (x : Rb) (n n' : Node) (a b : Rb) (m m' : Node)
    → n.at ≡ n'.at
    → m.at ≡ m'.at
    → nodes (join s (join s x n (set_parent n'.at a)) m b) ≡ nodes (join s x n' (join s a m' b))
nodes-around left_side x n n' a b m m' e q =
    append_assoc (nodes x) _ _
    ∙ ap₂ (λ k (ys : List Ptr). nodes x ++ (k ∷ ys)) e
        (ap₂ (λ (ys : List Ptr) j. ys ++ (j ∷ nodes b)) (nodes-set_parent n'.at a) q)
nodes-around right_side x n n' a b m m' e q =
    ap₂ (λ (ys : List Ptr) j. nodes b ++ (j ∷ (ys ++ (n.at ∷ nodes x)))) (nodes-set_parent n'.at a)
      q
    ∙ ap (λ k. nodes b ++ (m'.at ∷ (nodes a ++ (k ∷ nodes x)))) e
    ∙ sym (append_assoc (nodes b) (m'.at ∷ nodes a) (n'.at ∷ nodes x))

pub Has-fixup_remove :
    (fuel : ℕ) (x : Rb) (fs : List Frame) → Has (nodes (zip fs x)) (fixup_remove fuel x fs)
unfolding fixup_remove zip
Has-fixup_remove zero x fs = tt
Has-fixup_remove (suc fuel) x [] = nodes-paint false x
Has-fixup_remove (suc fuel) x (f ∷ fs) =
    go (Has-fixup_remove fuel x) (λ y. Has-fixup_remove fuel y fs) f.side f.above f.sibling
  where
    go :
        ((gs : List Frame) → Has (nodes (zip gs x)) (fixup_remove fuel x gs))
        → ((y : Rb) → Has (nodes (zip fs y)) (fixup_remove fuel y fs))
        → (s : Side) (n : Node) (t : Rb)
        → Has
            (nodes (zip (record { side = s; above = n; sibling = t } ∷ fs) x))
            (fixup_remove (suc fuel) x (record { side = s; above = n; sibling = t } ∷ fs))
    go again up s n leaf =
        let f : Frame = record { side = s; above = n; sibling = leaf } in
        on_if (Has (nodes (zip fs (plug f x)))) (is_red x)
          (λ red. nodes-zip fs _ _ (nodes-plug f _ x (nodes-paint false x)))
          (λ black. again (f ∷ fs))
    go again up s n (node a m b) =
        let f : Frame = record { side = s; above = n; sibling = node a m b } in
        let near = child s (node a m b) in
        let far = child (other s) (node a m b) in
        on_if (Has (nodes (zip fs (plug f x)))) (is_red x)
          (λ red. nodes-zip fs _ _ (nodes-plug f _ x (nodes-paint false x)))
          (λ black.
            on_if (Has (nodes (zip fs (plug f x)))) m.red
              (λ red.
                Has-eq (fixup_remove fuel x (lowered f near m far fs))
                  (nodes-zip fs _ _ (
                    nodes-around s x _ n near far _ m refl refl
                    ∙ ap (λ u. nodes (join s x n u)) (sym (parts s a m b))))
                  (again (lowered f near m far fs)))
              (λ black'.
                on_if (Has (nodes (zip fs (plug f x)))) (not (is_red near) && not (is_red far))
                  (λ case2.
                    Has-eq (fixup_remove fuel (join s x n (paint true (node a m b))) fs)
                      (nodes-zip fs _ _ (nodes-join s x x n n _ (node a m b) refl refl refl))
                      (up (join s x n (paint true (node a m b)))))
                  (λ ends.
                    nodes-paint false (zip fs (borrow x f)) ∙ nodes-zip fs _ _ (nodes-borrow x f))))
