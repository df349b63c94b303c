-- ===== src/Mglist/Insert.antt =====
-- `mglist_add` and `mglist_add_tail` of src/mglist.c: the new node stands where it was asked for.
use mg_std.Base.{◌≡◌, ◌≢◌, refl, ◌∙◌, ◌⊎◌, inl, inr, true, List, [], ◌∷◌, ◌++◌, some, arith}
use mg_std.Mglist.Store.{
  Ptr, Store, put_next, put_prev, set_next-eq, set_next-then, set_prev-then, get_next-then,
  get_prev-then,
}
use mg_std.Mglist.Ring.{
  NotIn, Distinct, Edge, PathOf, last_of, Ring, last_of-append, NotIn-left, NotIn-right, NotIn-last,
  Distinct-left, Distinct-right, Distinct-middle, Distinct-insert, Distinct-snoc, NotIn-last_of,
  AllLive-append, AllLive-left, AllLive-right, live_last, path-append, path_split, path-put_next,
  path-put_prev,
}
use mg_std.Mglist.{add_between, add, add_tail}

-- The store after the four writes of `__mglist_add`.
abbrev pub added : Store → Ptr → Ptr → Ptr → Store
added s new p n = put_next (put_prev (put_next (put_prev s n new) new n) new p) p new

module _ (s : Store) (new p n : Ptr) where
  pub add_between-eq :
      s.live new ≡ true
      → s.live p ≡ true
      → s.live n ≡ true
      → add_between new p n s ≡ some (tt, added s new p n)
  unfolding add_between
  add_between-eq h g k =
      set_prev-then s k new _
      ∙ set_next-then (put_prev s n new) h n _
      ∙ set_prev-then (put_next (put_prev s n new) new n) h p _
      ∙ set_next-eq (put_prev (put_next (put_prev s n new) new n) new p) g new

  -- A path that the new node is no part of, with `p` at its end or outside, and `n` at its start
  -- or outside.
  path-added :
      (a : Ptr) (xs : List Ptr)
      → Distinct (a ∷ xs)
      → NotIn new (a ∷ xs)
      → NotIn n xs
      → (p ≡ last_of a xs) ⊎ NotIn p (a ∷ xs)
      → PathOf s a xs
      → PathOf (added s new p n) a xs
  path-added a xs d out first last h =
      let s1 = put_prev s n new in
      let s2 = put_next s1 new n in
      path-put_next (put_prev s2 new p) a p new xs d last (
        path-put_prev s2 a new p xs out.1
          (path-put_next s1 a new n xs d (inr out) (path-put_prev s a n new xs first h)))

pub insert_last :
    {s : Store} {head : Ptr} (new : Ptr) (ys : List Ptr)
    → Ring s head ys
    → NotIn new (head ∷ ys)
    → s.live new ≡ true
    → Ring (added s new (last_of head ys) head) head (ys ++ (new ∷ []))
insert_last {s} {head} new ys r out l =
    let p = last_of head ys in
    let ne : new ≢ p = NotIn-last new head ys out in
    record {
      path =
          path-append (added s new p head) head new ys []
            (path-added s new p head head ys r.distinct out r.distinct.0 (inl refl) r.path)
            (ground arith, ground arith) tt;
      closes = rw (last_of-append head new ys []) (ground arith, ground arith);
      distinct = Distinct-snoc (head ∷ ys) new out r.distinct;
      live = (r.live.0, AllLive-append s ys (new ∷ []) r.live.1 (l, tt));
    }

pub insert_before :
    {s : Store} {head : Ptr} (new z : Ptr) (ys zs : List Ptr)
    → Ring s head (ys ++ (z ∷ zs))
    → NotIn new (head ∷ (ys ++ (z ∷ zs)))
    → s.live new ≡ true
    → Ring (added s new (last_of head ys) z) head (ys ++ (new ∷ (z ∷ zs)))
insert_before {s} {head} new z ys zs r out l =
    let p = last_of head ys in
    let q = last_of z zs in
    let (front, edge, back) = path_split s head z ys zs r.path in
    let apart : NotIn p (z ∷ zs) = NotIn-last_of head ys (z ∷ zs) r.distinct in
    let out_back : NotIn new (z ∷ zs) = NotIn-right new ys (z ∷ zs) out.1 in
    let out_front : NotIn new (head ∷ ys) = (out.0, NotIn-left new ys (z ∷ zs) out.1) in
    let ne_p : new ≢ p = NotIn-last new head ys out_front in
    let p_ne_q : p ≢ q = NotIn-last p z zs apart in
    let ne_q : new ≢ q = NotIn-last new z zs out_back in
    let z_out : NotIn z (head ∷ ys) × NotIn z zs = Distinct-middle (head ∷ ys) zs z r.distinct in
    let end_eq : last_of head (ys ++ (z ∷ zs)) ≡ q = last_of-append head z ys zs in
    let closes : Edge s q head = rw end_eq at r.closes in
    let z_ne : z ≢ head = z_out.0.0 in
    record {
      path =
          path-append (added s new p z) head new ys (z ∷ zs)
            (path-added s new p z head ys (Distinct-left (head ∷ ys) (z ∷ zs) r.distinct) out_front
              z_out.0.1 (inl refl) front)
            (ground arith, ground arith)
            (
              (ground arith, ground arith),
              path-added s new p z z zs (Distinct-right (head ∷ ys) (z ∷ zs) r.distinct) out_back
                  z_out.1 (inr apart) back,
            );
      closes = rw (last_of-append head new ys (z ∷ zs)) (ground arith, ground arith);
      distinct = Distinct-insert (head ∷ ys) (z ∷ zs) new out r.distinct;
      live = (
        r.live.0,
        AllLive-append s ys (new ∷ (z ∷ zs)) (AllLive-left s ys (z ∷ zs) r.live.1)
            (l, AllLive-right s ys (z ∷ zs) r.live.1),
      );
    }

-- `mglist_add` puts the new node in front of the nodes of the list: the list of `head` is then
-- `new` and the nodes it had, in their order. The new node is live and not of the list.
pub add-Ring :
    (s : Store) (new head : Ptr) (xs : List Ptr)
    → Ring s head xs
    → NotIn new (head ∷ xs)
    → s.live new ≡ true
    → (t : Store) × (add new head s ≡ some (tt, t)) × Ring t head (new ∷ xs)
unfolding add add_between
add-Ring s new head [] r out l = (
  added s new head (s.next head),
  get_next-then s r.live.0 _
      ∙ add_between-eq s new head (s.next head) l r.live.0 (rw r.closes.0 r.live.0),
  rw r.closes.0 (insert_last new [] r out l),
)
add-Ring s new head (z ∷ zs) r out l = (
  added s new head (s.next head),
  get_next-then s r.live.0 _
      ∙ add_between-eq s new head (s.next head) l r.live.0 (rw r.path.0.0 r.live.1.0),
  rw r.path.0.0 (insert_before new z [] zs r out l),
)

-- `mglist_add_tail` puts the new node behind the nodes of the list. The new node is live and not
-- of the list.
pub add_tail-Ring :
    (s : Store) (new head : Ptr) (xs : List Ptr)
    → Ring s head xs
    → NotIn new (head ∷ xs)
    → s.live new ≡ true
    → (t : Store) × (add_tail new head s ≡ some (tt, t)) × Ring t head (xs ++ (new ∷ []))
unfolding add_tail add_between
add_tail-Ring s new head xs r out l = (
  added s new (s.prev head) head,
  get_prev-then s r.live.0 _
      ∙ add_between-eq s new (s.prev head) head l (rw r.closes.1 (live_last s head xs r.live))
          r.live.0,
  rw r.closes.1 (insert_last new xs r out l),
)
