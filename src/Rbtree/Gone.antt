-- ===== src/Rbtree/Gone.antt =====
-- src/mgrbtree.c: a removal leaves the nodes in their order, without the one that is removed.
use mg_std.Base.{
  ℕ, ◌≡◌, refl, sym, ap, ◌∙◌, subst, Bool, true, false, Option, none, some, List, [], ◌∷◌, ◌++◌,
  append_assoc, append-nil,
}
use mg_std.Bintree.{Ptr, leaf, node}
use mg_std.Rbtree.{Node, Rb, Side, left_side, right_side, Frame, join, plug, zip, set_parent}
use mg_std.Rbtree.Order.{nodes, nodes-set_parent, nodes-join, nodes-zip, Has, Has-eq}
use mg_std.Rbtree.Removal.{
  fixup_remove, leftmost, adopt_last, if_black, replace_by, unlink, mgrbtree_remove_node,
}
use mg_std.Rbtree.Deletion.{repaired_at_stray-none}
use mg_std.Rbtree.Left.{Has-fixup_remove}

-- The second list is the first without one occurrence of `p`.
abbrev pub Gone : Ptr → List Ptr → List Ptr → Type 0
Gone p xs ys = (ws : List Ptr) × (bs : List Ptr) × (xs ≡ ws ++ (p ∷ bs)) × (ys ≡ ws ++ bs)

-- The nodes on both sides of a place.
around :
    (fs : List Frame)
    → (us : List Ptr) × (vs : List Ptr) × ((t : Rb) → nodes (zip fs t) ≡ us ++ (nodes t ++ vs))
unfolding zip
around [] = ([], [], λ t. sym (append-nil (nodes t)))
around (f ∷ fs) = go f.side f.above f.sibling (around fs)
  where
    go :
        (s : Side) (n : Node) (u : Rb)
        → (us : List Ptr) × (vs : List Ptr) × ((t : Rb) → nodes (zip fs t) ≡ us ++ (nodes t ++ vs))
        → (us : List Ptr) × (vs : List Ptr) × ((t : Rb)
            → nodes (zip fs (join s t n u)) ≡ us ++ (nodes t ++ vs))
    go left_side n u (us, vs, h) = (
      us,
      n.at ∷ (nodes u ++ vs),
      λ t. h (node t n u) ∙ ap (λ ys. us ++ ys) (append_assoc (nodes t) (n.at ∷ nodes u) vs),
    )
    go right_side n u (us, vs, h) = (
      us ++ (nodes u ++ (n.at ∷ [])),
      vs,
      λ t.
          h (node u n t)
          ∙ ap (λ ys. us ++ ys) (append_assoc (nodes u) (n.at ∷ nodes t) vs)
          ∙ sym (
              append_assoc us (nodes u ++ (n.at ∷ [])) (nodes t ++ vs)
              ∙ ap (λ ys. us ++ ys) (append_assoc (nodes u) (n.at ∷ []) (nodes t ++ vs))),
    )

Gone-zip :
    (p : Ptr) (fs : List Frame) (t u : Rb)
    → Gone p (nodes t) (nodes u)
    → Gone p (nodes (zip fs t)) (nodes (zip fs u))
Gone-zip p fs t u (ws, bs, e, q) =
    let (us, vs, h) = around fs in
    (
      us ++ ws,
      bs ++ vs,
      h t
          ∙ ap (λ ys. us ++ (ys ++ vs)) e
          ∙ ap (λ ys. us ++ ys) (append_assoc ws (p ∷ bs) vs)
          ∙ sym (append_assoc us ws (p ∷ (bs ++ vs))),
      h u
          ∙ ap (λ ys. us ++ (ys ++ vs)) q
          ∙ ap (λ ys. us ++ ys) (append_assoc ws bs vs)
          ∙ sym (append_assoc us ws (bs ++ vs)),
    )

-- The nodes of a result, if there is one.
abbrev pub HasGone : Ptr → List Ptr → Option Rb → Type 0
HasGone p xs none = Unit
HasGone p xs (some t) = Gone p xs (nodes t)

HasGone-Has :
    (p : Ptr) (xs ys : List Ptr) (o : Option Rb) → Gone p xs ys → Has ys o → HasGone p xs o
HasGone-Has p xs ys none g h = tt
HasGone-Has p xs ys (some t) (ws, bs, e, q) h = (ws, bs, e, h ∙ q)

Has-if_black :
    (c : Bool) (xs : List Ptr) (o : Option Rb) (t : Rb)
    → Has xs o
    → nodes t ≡ xs
    → Has xs (if_black c o t)
Has-if_black true xs o t h e = e
Has-if_black false xs o t h e = h

Has-settled :
    (c : Bool) (fuel : ℕ) (x : Rb) (hs : List Frame) (xs : List Ptr)
    → nodes (zip hs x) ≡ xs
    → Has xs (if_black c (fixup_remove fuel x hs) (zip hs x))
Has-settled c fuel x hs xs e =
    Has-if_black c xs (fixup_remove fuel x hs) (zip hs x)
      (Has-eq (fixup_remove fuel x hs) e (Has-fixup_remove fuel x hs)) e

Has-unlink :
    (fuel : ℕ) (x : Rb) (n : Node) (fs : List Frame) → Has (nodes (zip fs x)) (unlink fuel x n fs)
Has-unlink fuel x n fs =
    Has-settled n.red fuel (set_parent n.parent x) fs (nodes (zip fs x))
      (nodes-zip fs (set_parent n.parent x) x (nodes-set_parent n.parent x))

zip-append : (gs fs : List Frame) (t : Rb) → zip (gs ++ fs) t ≡ zip fs (zip gs t)
unfolding zip
zip-append [] fs t = refl
zip-append (g ∷ gs) fs t = zip-append gs fs (plug g t)

nodes-adopt_last :
    (v : Ptr) (gs : List Frame) (t : Rb) → nodes (zip (adopt_last v gs) t) ≡ nodes (zip gs t)
unfolding zip
nodes-adopt_last v [] t = refl
nodes-adopt_last v (g ∷ []) t =
    nodes-join g.side t t (record (g.above) { parent = v }) g.above g.sibling g.sibling refl refl
      refl
nodes-adopt_last v (g ∷ (h ∷ gs)) t = nodes-adopt_last v (h ∷ gs) (plug g t)

Has-replace_by :
    (fuel : ℕ) (l : Rb) (n : Node) (fs gs : List Frame) (y : Node) (r : Rb)
    → Has (nodes (zip fs (node l y (zip gs r)))) (replace_by fuel l n fs (gs, y, r))
unfolding replace_by zip
Has-replace_by fuel l n fs [] y leaf =
    Has-if_black y.red (nodes (zip fs (node l y leaf))) _ _
      (subst (Has (nodes (zip fs (node l y leaf)))) (sym (repaired_at_stray-none fuel n _)) tt)
      (nodes-zip fs _ (node l y leaf) (
        nodes-join left_side (set_parent y.at l) l (record y { parent = n.parent; red = n.red }) y
          leaf leaf (nodes-set_parent y.at l) refl refl))
Has-replace_by fuel l n fs [] y (node a m b) =
    let y' : Node = record y { parent = n.parent; red = n.red } in
    let f : Frame = record { side = right_side; above = y'; sibling = set_parent y.at l } in
    let x = set_parent y.at (node a m b) in
    Has-settled y.red fuel x (f ∷ fs) (nodes (zip fs (node l y (node a m b)))) (
      nodes-zip fs (plug f x) (node l y (node a m b)) (
        nodes-join left_side (set_parent y.at l) l y' y x (node a m b) (nodes-set_parent y.at l)
          refl (nodes-set_parent y.at (node a m b))))
Has-replace_by fuel l n fs (g ∷ gs) y r =
    let f : Frame = record {
      side = right_side;
      above = record y { parent = n.parent; red = n.red };
      sibling = set_parent y.at l;
    } in
    let hs = adopt_last y.at (g ∷ gs) in
    Has-settled y.red fuel (set_parent y.parent r) (hs ++ (f ∷ fs))
      (nodes (zip fs (node l y (zip (g ∷ gs) r))))
      (ap nodes (zip-append hs (f ∷ fs) (set_parent y.parent r))
        ∙ nodes-zip fs _ (node l y (zip (g ∷ gs) r)) (
            nodes-join left_side (set_parent y.at l) l (record y { parent = n.parent; red = n.red })
              y (zip hs (set_parent y.parent r)) (zip (g ∷ gs) r) (nodes-set_parent y.at l) refl
              (nodes-adopt_last y.at (g ∷ gs) (set_parent y.parent r)
                ∙ nodes-zip (g ∷ gs) (set_parent y.parent r) r (nodes-set_parent y.parent r))))

-- Frames on the way to the leftmost node: the nodes in the place come first.
abbrev Lefts : List Frame → Type 0
Lefts gs = (vs : List Ptr) × ((t : Rb) → nodes (zip gs t) ≡ nodes t ++ vs)

abbrev Leftmost : Rb → List Frame × Node × Rb → Type 0
Leftmost t (gs, y, r) = Lefts gs × (zip gs (node leaf y r) ≡ t)

leftmost-Leftmost :
    (a : Rb) (y : Node) (r : Rb) (gs : List Frame)
    → Lefts gs
    → Leftmost (zip gs (node a y r)) (leftmost a y r gs)
unfolding zip
leftmost-Leftmost leaf y r gs h = (h, refl)
leftmost-Leftmost (node a m b) y r gs (vs, h) =
    leftmost-Leftmost a m b (record { side = left_side; above = y; sibling = r } ∷ gs)
      (y.at ∷ (nodes r ++ vs), λ t. h (node t y r) ∙ append_assoc (nodes t) (y.at ∷ nodes r) vs)

replace_by-HasGone :
    (fuel : ℕ) (l : Rb) (n : Node) (fs : List Frame) (t : Rb) (s : List Frame × Node × Rb)
    → Leftmost t s
    → HasGone n.at (nodes (zip fs (node l n t))) (replace_by fuel l n fs s)
replace_by-HasGone fuel l n fs t (gs, y, r) ((vs, h), e) =
    HasGone-Has n.at (nodes (zip fs (node l n t))) (nodes (zip fs (node l y (zip gs r))))
      (replace_by fuel l n fs (gs, y, r))
      (Gone-zip n.at fs (node l n t) (node l y (zip gs r)) (
        nodes l,
        nodes t,
        refl,
        ap (λ ys. nodes l ++ ys)
            (ap (λ ys. y.at ∷ ys) (h r) ∙ sym (h (node leaf y r)) ∙ ap nodes e),
      ))
      (Has-replace_by fuel l n fs gs y r)

pub mgrbtree_remove_node-HasGone :
    (fuel : ℕ) (l : Rb) (n : Node) (r : Rb) (fs : List Frame)
    → HasGone n.at (nodes (zip fs (node l n r))) (mgrbtree_remove_node fuel l n r fs)
unfolding mgrbtree_remove_node zip
mgrbtree_remove_node-HasGone fuel leaf n r fs =
    HasGone-Has n.at (nodes (zip fs (node leaf n r))) (nodes (zip fs r)) (unlink fuel r n fs)
      (Gone-zip n.at fs (node leaf n r) r ([], nodes r, refl, refl)) (Has-unlink fuel r n fs)
mgrbtree_remove_node-HasGone fuel (node a m b) n leaf fs =
    let l = node a m b in
    HasGone-Has n.at (nodes (zip fs (node l n leaf))) (nodes (zip fs l)) (unlink fuel l n fs)
      (Gone-zip n.at fs (node l n leaf) l (nodes l, [], refl, sym (append-nil (nodes l))))
      (Has-unlink fuel l n fs)
mgrbtree_remove_node-HasGone fuel (node a m b) n (node c k d) fs =
    replace_by-HasGone fuel (node a m b) n fs (node c k d) (leftmost c k d [])
      (leftmost-Leftmost c k d [] ([], λ t. sym (append-nil (nodes t))))
