-- ===== src/Bstree/Deletion.antt =====
-- src/mgbstree.c: what `mg_Bstree_del` makes of the list of nodes.
use mg_std.Base.{
  ℕ, ◌≡◌, ◌≢◌, refl, sym, subst, append-nil, ap, ap₂, ◌∙◌, ◌⊎◌, inl, inr, Bool, true, false, ◌||◌,
  none, some, List, [], ◌∷◌, ◌++◌, arith, ◌==◌, if◌then◌else◌, Bool-cases,
}
use mg_std.Bintree.{Ptr, leaf, node}
use mg_std.Bintree.Order.{AllBelow, AllAbove, IsSorted, IsSorted-split}
use mg_std.Bstree.{Node, Bst, del}
use mg_std.Bstree.Laws.{nodes, HasParents, IsBst}

-- No node is at NULL.
abbrev pub NonNull : Bst → Type 0
NonNull leaf = Unit
NonNull (node l n r) = (n.at ≢ 0) × NonNull l × NonNull r

-- The list without the node at `x`.
abbrev pub without : Ptr → List Ptr → List Ptr
without x [] = []
without x (y ∷ ys) = let rest = without x ys in if y == x then rest else y ∷ rest

-- Whether both children are there.
abbrev pub both : Bst → Bst → Bool
both leaf r = false
both (node a m b) leaf = false
both (node a m b) (node c k d) = true

-- Whether the node at `x` has two children.
abbrev pub has_both : Bst → Ptr → Bool
has_both leaf x = false
has_both (node l n r) x =
    let left = has_both l x in
    let right = has_both r x in if n.at == x then both l r else left || right

without-append : (x : Ptr) (ys zs : List Ptr) → without x (ys ++ zs) ≡ without x ys ++ without x zs
without-append x [] zs = refl
without-append x (y ∷ ys) zs = elim (Bool-cases (y == x)) [
  | inl e ↦ rw e (without-append x ys zs)
  | inr ne ↦ rw ne (ap (λ l. y ∷ l) (without-append x ys zs))
]

module _ (rank : Ptr → ℕ) where
  without_below : (x : Ptr) (ys : List Ptr) → AllBelow rank (rank x) ys → without x ys ≡ ys
  without_below x [] h = refl
  without_below x (y ∷ ys) h = elim (Bool-cases (y == x)) [
    | inl e ↦ let q : y ≡ x = ground arith in absurd (omega (arith, h.0, ap rank q))
    | inr ne ↦ rw ne (ap (λ l. y ∷ l) (without_below x ys h.1))
  ]

  without_above : (x : Ptr) (ys : List Ptr) → AllAbove rank (rank x) ys → without x ys ≡ ys
  without_above x [] h = refl
  without_above x (y ∷ ys) h = elim (Bool-cases (y == x)) [
    | inl e ↦ let q : y ≡ x = ground arith in absurd (omega (arith, h.0, ap rank q))
    | inr ne ↦ rw ne (ap (λ l. y ∷ l) (without_above x ys h.1))
  ]

  -- What deletion makes of a tree: a fault, or the nodes but one.
  abbrev pub Deletes : Bst → Ptr → Type 0
  Deletes t x =
      ((has_both t x ≡ true) × (del t x ≡ none))
      ⊎ ((has_both t x ≡ false)
          × ((t' : Bst) × (del t x ≡ some t') × (nodes t' ≡ without x (nodes t))))

  -- The tree without the node, and both parts of one.
  go_on :
      (l : Bst) (n : Node) (r : Bst) (x : Ptr)
      → n.at ≢ x
      → Deletes l x
      → Deletes r x
      → Deletes (node l n r) x
  unfolding del
  go_on l n r x ne left right = parts left right
    where
      miss : (n.at == x) ≡ false
      miss = ground arith

      parts : Deletes l x → Deletes r x → Deletes (node l n r) x
      parts (inl (bl, dl)) right = inl (rw (miss, bl) refl, rw (miss, dl) refl)
      parts (inr (bl, (l', dl, el))) (inl (br, dr)) =
          inl (rw (miss, bl, br) refl, rw (miss, dl, dr) refl)
      parts (inr (bl, (l', dl, el))) (inr (br, (r', dr, er))) = inr (
        rw (miss, bl, br) refl,
        (
          node l' n r',
          rw (miss, dl, dr) refl,
          ap₂ (λ u v. u ++ (n.at ∷ v)) el er
              ∙ sym (without-append x (nodes l) (n.at ∷ nodes r) ∙ rw miss refl),
        ),
      )

  -- The list of a node that is taken out.
  taken_out :
      (l : Bst) (n : Node) (r : Bst)
      → IsSorted rank (nodes (node l n r))
      → without n.at (nodes l ++ (n.at ∷ nodes r)) ≡ nodes l ++ nodes r
  taken_out l n r s =
      let (sl, before, after, sr) = IsSorted-split rank (nodes l) (nodes r) n.at s in
      let hit : (n.at == n.at) ≡ true = ground arith in
      without-append n.at (nodes l) (n.at ∷ nodes r)
      ∙ rw hit (
          ap₂ (λ u v. u ++ v) (without_below n.at (nodes l) before)
            (without_above n.at (nodes r) after))

  at_node :
      (p : Ptr) (l : Bst) (n : Node) (r : Bst)
      → p ≢ 0
      → n.parent ≡ p
      → IsSorted rank (nodes (node l n r))
      → Deletes (node l n r) n.at
  unfolding del
  at_node p leaf n r h e s =
      let hit : (n.at == n.at) ≡ true = ground arith in
      let inner : (n.parent == 0) ≡ false = ground arith in
      inr (rw hit refl, (r, rw (hit, inner) refl, sym (taken_out leaf n r s)))
  at_node p (node a m b) n leaf h e s =
      let hit : (n.at == n.at) ≡ true = ground arith in
      let inner : (n.parent == 0) ≡ false = ground arith in
      inr (
        rw hit refl,
        (
          node a m b,
          rw (hit, inner) refl,
          sym (taken_out (node a m b) n leaf s ∙ append-nil (nodes (node a m b))),
        ),
      )
  at_node p (node a m b) n (node c k d) h e s =
      let hit : (n.at == n.at) ≡ true = ground arith in inl (rw hit refl, rw hit refl)

  below_root :
      (p : Ptr) (t : Bst) (x : Ptr)
      → p ≢ 0
      → HasParents p t
      → NonNull t
      → IsSorted rank (nodes t)
      → Deletes t x
  unfolding del
  below_root p leaf x h hp nn s = inr (refl, (leaf, refl, refl))
  below_root p (node l n r) x h (e, pl, pr) (nz, nl, nr) s = elim (Bool-cases (n.at == x)) [
    | inl hit ↦
        let q : n.at ≡ x = ground arith in subst (Deletes (node l n r)) q (at_node p l n r h e s)
    | inr miss ↦
        let (sl, before, after, sr) = IsSorted-split rank (nodes l) (nodes r) n.at s in
        go_on l n r x (ground arith) (below_root n.at l x nz pl nl sl)
          (below_root n.at r x nz pr nr sr)
  ]

  -- `mg_Bstree_del` of a node other than the root of a search tree: a node with two children makes
  -- it read through NULL; with one child or none, exactly that node leaves the tree.
  pub del_below_root :
      (l : Bst) (n : Node) (r : Bst) (x : Ptr)
      → IsBst rank (node l n r)
      → NonNull (node l n r)
      → n.at ≢ x
      → Deletes (node l n r) x
  del_below_root l n r x ((e, pl, pr), s) (nz, nl, nr) ne =
      let (sl, before, after, sr) = IsSorted-split rank (nodes l) (nodes r) n.at s in
      go_on l n r x ne (below_root n.at l x nz pl nl sl) (below_root n.at r x nz pr nr sr)
