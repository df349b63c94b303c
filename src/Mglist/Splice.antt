-- ===== src/Mglist/Splice.antt =====
-- `mglist_splice` of src/mglist.c and its variants: two lists become one.
use mg_std.Base.{
  ◌≡◌, ◌≢◌, refl, ap, ◌∙◌, ◌⊎◌, inl, inr, true, List, [], ◌∷◌, ◌++◌, append-nil, some, arith,
}
use mg_std.Mglist.Store.{
  Ptr, Store, and_then, put_next, put_prev, set_prev-eq, set_next-then, set_prev-then,
  get_next-then, get_prev-then,
}
use mg_std.Mglist.Ring.{
  NotIn, Distinct, Apart, AllLive, Edge, PathOf, last_of, Ring, last_of-append, NotIn-last,
  NotIn-append, Distinct-between, Distinct-append, Apart-flip, Apart-last, AllLive-append,
  live_last, path-append, path-put_next, path-put_prev,
}
use mg_std.Mglist.Move.{empty-eq, init-Ring}
use mg_std.Mglist.{init, splice_between, splice, splice_tail, splice_init, splice_tail_init}

-- The store after the four writes of `__mglist_splice`: the chain from `f` to `l` stands between
-- `p` and `n`.
abbrev spliced : Store → (f l p n : Ptr) → Store
spliced s f l p n = put_prev (put_next (put_next (put_prev s f p) p f) l n) n l

module _ (s : Store) (f l p n : Ptr) where
  path-spliced :
      (a : Ptr) (xs : List Ptr)
      → Distinct (a ∷ xs)
      → NotIn f xs
      → NotIn n xs
      → (p ≡ last_of a xs) ⊎ NotIn p (a ∷ xs)
      → (l ≡ last_of a xs) ⊎ NotIn l (a ∷ xs)
      → PathOf s a xs
      → PathOf (spliced s f l p n) a xs
  path-spliced a xs d nf nn wp wl h =
      let s1 = put_prev s f p in
      let s2 = put_next s1 p f in
      path-put_prev (put_next s2 l n) a n l xs nn (
        path-put_next s2 a l n xs d wl
          (path-put_next s1 a p f xs d wp (path-put_prev s a f p xs nf h)))

splice_last :
    {s : Store} {head : Ptr} (f : Ptr) (fs ys : List Ptr)
    → Distinct (f ∷ fs)
    → PathOf s f fs
    → AllLive s (f ∷ fs)
    → Ring s head ys
    → Apart (f ∷ fs) (head ∷ ys)
    → Ring (spliced s f (last_of f fs) (last_of head ys) head) head (ys ++ (f ∷ fs))
splice_last {s} {head} f fs ys d chain live r apart =
    let p = last_of head ys in
    let l = last_of f fs in
    let flip = Apart-flip (f ∷ fs) (head ∷ ys) apart in
    let l_out = Apart-last f fs (head ∷ ys) apart in
    let p_out = Apart-last head ys (f ∷ fs) flip in
    let ne : p ≢ l = NotIn-last p f fs p_out in
    let ne' : head ≢ f = flip.0.0 in
    let t = spliced s f l p head in
    record {
      path =
          path-append t head f ys fs
            (path-spliced s f l p head head ys r.distinct apart.0.1 r.distinct.0 (inl refl)
              (inr l_out) r.path)
            (ground arith, ground arith)
            (path-spliced s f l p head f fs d d.0 flip.0.1 (inr p_out) (inl refl) chain);
      closes = rw (last_of-append head f ys fs) (ground arith, ground arith);
      distinct = Distinct-append (f ∷ fs) (head ∷ ys) d r.distinct flip;
      live = (r.live.0, AllLive-append s ys (f ∷ fs) r.live.1 live);
    }

splice_before :
    {s : Store} {head : Ptr} (f z : Ptr) (fs zs : List Ptr)
    → Distinct (f ∷ fs)
    → PathOf s f fs
    → AllLive s (f ∷ fs)
    → Ring s head (z ∷ zs)
    → Apart (f ∷ fs) (head ∷ (z ∷ zs))
    → Ring (spliced s f (last_of f fs) head z) head ((f ∷ fs) ++ (z ∷ zs))
splice_before {s} {head} f z fs zs d chain live r apart =
    let l = last_of f fs in
    let q = last_of z zs in
    let flip = Apart-flip (f ∷ fs) (head ∷ (z ∷ zs)) apart in
    let l_out : NotIn l (head ∷ (z ∷ zs)) = Apart-last f fs (head ∷ (z ∷ zs)) apart in
    let ne : head ≢ l = NotIn-last head f fs flip.0 in
    let ne1 : l ≢ q = NotIn-last l z zs l_out.1 in
    let ne2 : head ≢ q = NotIn-last head z zs r.distinct.0 in
    let ne3 : head ≢ z = r.distinct.0.0 in
    let ne4 : head ≢ f = flip.0.0 in
    let ne5 : z ≢ f = flip.1.0.0 in
    let closes : Edge s q head = r.closes in
    let t = spliced s f l head z in
    record {
      path = (
        (ground arith, ground arith),
        path-append t f z fs zs
            (path-spliced s f l head z f fs d d.0 flip.1.0.1 (inr flip.0) (inl refl) chain)
            (ground arith, ground arith)
            (path-spliced s f l head z z zs r.distinct.1 apart.0.1.1 r.distinct.1.0
              (inr r.distinct.0) (inr l_out.1) r.path.1),
      );
      closes = rw (last_of-append f z fs zs) (ground arith, ground arith);
      distinct = Distinct-between (f ∷ fs) (head ∷ []) (z ∷ zs) d r.distinct apart;
      live = (r.live.0, AllLive-append s (f ∷ fs) (z ∷ zs) live r.live.1);
    }

-- `__mglist_splice` at the front and at the back of the list of `head`.
module _ (s : Store) (list head f : Ptr) (fs : List Ptr) (r : Ring s list (f ∷ fs)) where
  between-eq :
      (p n : Ptr)
      → s.live p ≡ true
      → s.live n ≡ true
      → splice_between list p n s ≡ some (tt, spliced s f (last_of f fs) p n)
  unfolding splice_between
  between-eq p n g k =
      let s1 = put_prev s f p in
      let s2 = put_next s1 p f in
      let l = live_last s f fs r.live.1 in
      get_next-then s r.live.0 _
      ∙ get_prev-then s r.live.0 _
      ∙ rw (r.path.0.0, r.closes.1)
          (set_prev-then s r.live.1.0 p _
            ∙ set_next-then s1 g f _
            ∙ set_next-then s2 l n _
            ∙ set_prev-eq (put_next s2 (last_of f fs) n) k (last_of f fs))

  front-Ring :
      (xs : List Ptr)
      → Ring s head xs
      → Apart (f ∷ fs) (head ∷ xs)
      → (t : Store) × (splice_between list head (s.next head) s ≡ some (tt, t))
        × Ring t head ((f ∷ fs) ++ xs)
        × (t.live list ≡ true)
  front-Ring [] q apart = (
    spliced s f (last_of f fs) head head,
    rw q.closes.0 (between-eq head head q.live.0 q.live.0),
    rw append-nil (splice_last f fs [] r.distinct.1 r.path.1 r.live.1 q apart),
    r.live.0,
  )
  front-Ring (z ∷ zs) q apart = (
    spliced s f (last_of f fs) head z,
    rw q.path.0.0 (between-eq head z q.live.0 q.live.1.0),
    splice_before f z fs zs r.distinct.1 r.path.1 r.live.1 q apart,
    r.live.0,
  )

  back-Ring :
      (xs : List Ptr)
      → Ring s head xs
      → Apart (f ∷ fs) (head ∷ xs)
      → (t : Store) × (splice_between list (s.prev head) head s ≡ some (tt, t))
        × Ring t head (xs ++ (f ∷ fs))
        × (t.live list ≡ true)
  back-Ring xs q apart = (
    spliced s f (last_of f fs) (last_of head xs) head,
    rw q.closes.1 (between-eq (last_of head xs) head (live_last s head xs q.live) q.live.0),
    splice_last f fs xs r.distinct.1 r.path.1 r.live.1 q apart,
    r.live.0,
  )

-- `mglist_splice` of two lists that share no node: the nodes of `list` come in front of those of
-- `head`, and nothing changes when `list` has none.
pub splice-Ring :
    (s : Store) (list head : Ptr) (ys xs : List Ptr)
    → Ring s list ys
    → Ring s head xs
    → Apart (list ∷ ys) (head ∷ xs)
    → (t : Store) × (splice list head s ≡ some (tt, t)) × Ring t head (ys ++ xs)
unfolding splice splice_between
splice-Ring s list head [] xs r q apart = (s, rw (empty-eq s list [] r), q)
splice-Ring s list head (f ∷ fs) xs r q apart =
    let (t, ran, ring, _) = front-Ring s list head f fs r xs q apart.1 in
    (t, rw (empty-eq s list (f ∷ fs) r) (get_next-then s q.live.0 _ ∙ ran), ring)

-- `mglist_splice_tail` of two lists that share no node: the nodes of `list` come behind those of
-- `head`.
pub splice_tail-Ring :
    (s : Store) (list head : Ptr) (ys xs : List Ptr)
    → Ring s list ys
    → Ring s head xs
    → Apart (list ∷ ys) (head ∷ xs)
    → (t : Store) × (splice_tail list head s ≡ some (tt, t)) × Ring t head (xs ++ ys)
unfolding splice_tail splice_between
splice_tail-Ring s list head [] xs r q apart = (s, rw (empty-eq s list [] r), rw append-nil q)
splice_tail-Ring s list head (f ∷ fs) xs r q apart =
    let (t, ran, ring, _) = back-Ring s list head f fs r xs q apart.1 in
    (t, rw (empty-eq s list (f ∷ fs) r) (get_prev-then s q.live.0 _ ∙ ran), ring)

-- `mglist_splice_init` of two lists that share no node: the nodes of `list` come in front of those
-- of `head`, and `list` is empty.
pub splice_init-Ring :
    (s : Store) (list head : Ptr) (ys xs : List Ptr)
    → Ring s list ys
    → Ring s head xs
    → Apart (list ∷ ys) (head ∷ xs)
    → (t : Store) × (splice_init list head s ≡ some (tt, t))
      × Ring t head (ys ++ xs)
      × Ring t list []
unfolding splice_init splice_between init
splice_init-Ring s list head [] xs r q apart = (s, rw (empty-eq s list [] r), q, r)
splice_init-Ring s list head (f ∷ fs) xs r q apart =
    let (t1, ran, ring, live) = front-Ring s list head f fs r xs q apart.1 in
    let (t, made_t, own, keeps) = init-Ring t1 list live in
    (
      t,
      rw (empty-eq s list (f ∷ fs) r)
          (get_next-then s q.live.0 _ ∙ ap (λ o. and_then o (λ _. init list)) ran ∙ made_t),
      keeps head ((f ∷ fs) ++ xs) (apart.0.0, NotIn-append list (f ∷ fs) xs r.distinct.0 apart.0.1)
          ring,
      own,
    )

-- `mglist_splice_tail_init` of two lists that share no node: the nodes of `list` come behind those
-- of `head`, and `list` is empty.
pub splice_tail_init-Ring :
    (s : Store) (list head : Ptr) (ys xs : List Ptr)
    → Ring s list ys
    → Ring s head xs
    → Apart (list ∷ ys) (head ∷ xs)
    → (t : Store) × (splice_tail_init list head s ≡ some (tt, t))
      × Ring t head (xs ++ ys)
      × Ring t list []
unfolding splice_tail_init splice_between init
splice_tail_init-Ring s list head [] xs r q apart =
    (s, rw (empty-eq s list [] r), rw append-nil q, r)
splice_tail_init-Ring s list head (f ∷ fs) xs r q apart =
    let (t1, ran, ring, live) = back-Ring s list head f fs r xs q apart.1 in
    let (t, made_t, own, keeps) = init-Ring t1 list live in
    (
      t,
      rw (empty-eq s list (f ∷ fs) r)
          (get_prev-then s q.live.0 _ ∙ ap (λ o. and_then o (λ _. init list)) ran ∙ made_t),
      keeps head (xs ++ (f ∷ fs)) (apart.0.0, NotIn-append list xs (f ∷ fs) apart.0.1 r.distinct.0)
          ring,
      own,
    )
