-- ===== src/Mglist/Cut.antt =====
-- `mglist_cut_position` and `mglist_replace` of src/mglist.c.
use mg_std.Base.{
  ◌≡◌, ◌≢◌, refl, ◌∙◌, sym, ◌⊎◌, inl, inr, true, false, List, [], ◌∷◌, ◌++◌, append-nil, some,
  arith, ◌==◌, ◌&&◌, not,
}
use mg_std.Mglist.Store.{
  Ptr, Store, put_next, put_prev, set_prev-eq, set_next-then, set_prev-then, get_next-then,
}
use mg_std.Mglist.Ring.{
  NotIn, Distinct, Edge, PathOf, last_of, first_of, Ring, last_of-append, NotIn-left, NotIn-right,
  NotIn-last, Distinct-left, Distinct-right, Distinct-middle, NotIn-last_of, AllLive-left,
  AllLive-right, live_last, path_split, path_left, path-put_next, path-put_prev,
}
use mg_std.Mglist.Move.{empty-eq, one_node, singular-eq}
use mg_std.Mglist.{cut_between, cut_position}

-- The store after the six writes of `__mglist_cut_position`: `f` is the first node, `n` the one
-- behind `e`.
abbrev cut : Store → (list head f e n : Ptr) → Store
cut s list head f e n =
    let s1 = put_prev (put_next s list f) f list in
    let s2 = put_next (put_prev s1 list e) e list in put_prev (put_next s2 head n) n head

module _ (s : Store) (list head f e n : Ptr) where
  path-cut :
      (a : Ptr) (xs : List Ptr)
      → Distinct (a ∷ xs)
      → NotIn list (a ∷ xs)
      → NotIn head (a ∷ xs)
      → NotIn f xs
      → NotIn n xs
      → (e ≡ last_of a xs) ⊎ NotIn e (a ∷ xs)
      → PathOf s a xs
      → PathOf (cut s list head f e n) a xs
  path-cut a xs d lo ho fo nn we h =
      let s1 = put_prev (put_next s list f) f list in
      let s2 = put_next (put_prev s1 list e) e list in
      path-put_prev (put_next s2 head n) a n head xs nn (
        path-put_next s2 a head n xs d (inr ho) (
          path-put_next (put_prev s1 list e) a e list xs d we (
            path-put_prev s1 a list e xs lo.1 (
              path-put_prev (put_next s list f) a f list xs fo
                (path-put_next s a list f xs d (inr lo) h)))))

-- The two lists after the cut, given where the last node of the rest stands.
module _ {s : Store} {head : Ptr} (list f : Ptr) (fs ys : List Ptr)
    (r : Ring s head ((f ∷ fs) ++ ys)) (out : NotIn list (head ∷ ((f ∷ fs) ++ ys)))
    (l : s.live list ≡ true) where
  front_cut :
      (n : Ptr)
      → NotIn n (f ∷ fs)
      → n ≢ list
      → Ring (cut s list head f (last_of f fs) n) list (f ∷ fs)
  front_cut n nn n_ne =
      let e = last_of f fs in
      let d : Distinct (f ∷ fs) = Distinct-left (f ∷ fs) ys r.distinct.1 in
      let lo : NotIn list (f ∷ fs) = NotIn-left list (f ∷ fs) ys out.1 in
      let ho : NotIn head (f ∷ fs) = NotIn-left head (f ∷ fs) ys r.distinct.0 in
      let ne : list ≢ e = NotIn-last list f fs lo in
      let ne1 : list ≢ head = out.0 in
      let ne2 : list ≢ f = lo.0 in
      let ne3 : head ≢ e = NotIn-last head f fs ho in
      let ne4 : n ≢ f = nn.0 in
      record {
        path = (
          (ground arith, ground arith),
          path-cut s list head f e n f fs d lo ho d.0 nn.1 (inl refl)
              (path_left s f fs ys r.path.1),
        );
        closes = (ground arith, ground arith);
        distinct = (lo, d);
        live = (l, AllLive-left s (f ∷ fs) ys r.live.1);
      }

back_cut :
    {s : Store} {head : Ptr} (list f z : Ptr) (fs zs : List Ptr)
    → Ring s head ((f ∷ fs) ++ (z ∷ zs))
    → NotIn list (head ∷ ((f ∷ fs) ++ (z ∷ zs)))
    → Ring (cut s list head f (last_of f fs) z) head (z ∷ zs)
back_cut {s} {head} list f z fs zs r out =
    let e = last_of f fs in
    let q = last_of z zs in
    let d : Distinct (z ∷ zs) = Distinct-right (f ∷ fs) (z ∷ zs) r.distinct.1 in
    let lo : NotIn list (z ∷ zs) = NotIn-right list (f ∷ fs) (z ∷ zs) out.1 in
    let ho : NotIn head (z ∷ zs) = NotIn-right head (f ∷ fs) (z ∷ zs) r.distinct.0 in
    let fo : NotIn f (z ∷ zs) = NotIn-right f fs (z ∷ zs) r.distinct.1.0 in
    let eo : NotIn e (z ∷ zs) = NotIn-last_of f fs (z ∷ zs) r.distinct.1 in
    let (_, _, back) = path_split s head z (f ∷ fs) zs r.path in
    let closes : Edge s q head = rw (last_of-append head z (f ∷ fs) zs) at r.closes in
    let ne : list ≢ q = NotIn-last list z zs lo in
    let ne1 : head ≢ q = NotIn-last head z zs ho in
    let ne2 : e ≢ q = NotIn-last e z zs eo in
    let ne3 : list ≢ head = out.0 in
    let ne4 : head ≢ f = r.distinct.0.0 in
    let ne5 : head ≢ z = ho.0 in
    record {
      path = (
        (ground arith, ground arith),
        path-cut s list head f e z z zs d lo ho fo.1 d.0 (inr eo) back,
      );
      closes = (ground arith, ground arith);
      distinct = (ho, d);
      live = (r.live.0, AllLive-right s (f ∷ fs) (z ∷ zs) r.live.1);
    }

next_last :
    {s : Store} {head : Ptr} (f : Ptr) (fs ys : List Ptr)
    → Ring s head ((f ∷ fs) ++ ys)
    → (s.next (last_of f fs) ≡ first_of ys head) × (s.live (first_of ys head) ≡ true)
next_last {s} {head} f fs [] r =
    let closes : Edge s (last_of f (fs ++ [])) head = r.closes in
    ((rw append-nil at closes).0, r.live.0)
next_last {s} {head} f fs (z ∷ zs) r =
    let (_, edge, _) = path_split s head z (f ∷ fs) zs r.path in
    (edge.0, (AllLive-right s (f ∷ fs) (z ∷ zs) r.live.1).0)

-- A list of one node is cut at that node only.
one_test :
    (head f : Ptr) (fs ys : List Ptr)
    → one_node ((f ∷ fs) ++ ys) && not (f == last_of f fs) && not (head == last_of f fs) ≡ false
one_test head f [] [] = ground arith
one_test head f [] (y ∷ ys) = ground arith
one_test head f (g ∷ fs) ys = refl

-- `__mglist_cut_position` where the cut is made.
module _ (s : Store) (list head f : Ptr) (fs ys : List Ptr) (l : s.live list ≡ true)
    (r : Ring s head ((f ∷ fs) ++ ys)) (out : NotIn list (head ∷ ((f ∷ fs) ++ ys))) where
  cut_between-eq :
      cut_between list head (last_of f fs) s
      ≡ some (tt, cut s list head f (last_of f fs) (first_of ys head))
  unfolding cut_between
  cut_between-eq =
      let e = last_of f fs in
      let n = first_of ys head in
      let s1 = put_next s list f in
      let s2 = put_prev s1 f list in
      let s3 = put_prev s2 list e in
      let s4 = put_next s3 e list in
      let le = live_last s f fs (AllLive-left s (f ∷ fs) ys r.live.1) in
      let (behind, ln) = next_last f fs ys r in
      let read : s1.next list ≡ f = ground arith in
      get_next-then s le _
      ∙ get_next-then s r.live.0 _
      ∙ rw (r.path.0.0, behind)
          (set_next-then s l f _
            ∙ get_next-then s1 l _
            ∙ rw read (
                set_prev-then s1 r.live.1.0 list _
                ∙ set_prev-then s2 l e _
                ∙ set_next-then s3 le list _
                ∙ set_next-then s4 r.live.0 n _
                ∙ set_prev-eq (put_next s4 head n) ln head))

  cut-eq :
      cut_position list head (last_of f fs) s
      ≡ some (tt, cut s list head f (last_of f fs) (first_of ys head))
  unfolding cut_position
  cut-eq =
      let ne = NotIn-last head f fs (NotIn-left head (f ∷ fs) ys r.distinct.0) in
      let other : (last_of f fs == head) ≡ false = ground arith in
      rw (empty-eq s head ((f ∷ fs) ++ ys) r, singular-eq s head ((f ∷ fs) ++ ys) r)
        (get_next-then s r.live.0 _ ∙ rw (r.path.0.0, one_test head f fs ys, other) cut_between-eq)

-- `mglist_cut_position` at a node of the list of `head`, the last of `f ∷ fs`: the list of `list`
-- has the nodes up to it and the list of `head` the others. `list` is live and none of the nodes.
pub cut_position-Ring :
    (s : Store) (list head f : Ptr) (fs ys : List Ptr)
    → s.live list ≡ true
    → Ring s head ((f ∷ fs) ++ ys)
    → NotIn list (head ∷ ((f ∷ fs) ++ ys))
    → (t : Store) × (cut_position list head (last_of f fs) s ≡ some (tt, t))
      × Ring t list (f ∷ fs)
      × Ring t head ys
cut_position-Ring s list head f fs [] l r out =
    let ho : NotIn head (f ∷ fs) = NotIn-left head (f ∷ fs) [] r.distinct.0 in
    let ne : list ≢ head = out.0 in
    let ne1 : head ≢ f = r.distinct.0.0 in
    let ne2 : head ≢ last_of f fs = NotIn-last head f fs ho in
    (
      cut s list head f (last_of f fs) head,
      cut-eq s list head f fs [] l r out,
      front_cut list f fs [] r out l head ho (λ p. out.0 (sym p)),
      record {
        path = tt;
        closes = (ground arith, ground arith);
        distinct = (tt, tt);
        live = (r.live.0, tt);
      },
    )
cut_position-Ring s list head f fs (z ∷ zs) l r out =
    let (z_out, _) = Distinct-middle (f ∷ fs) zs z r.distinct.1 in
    let lo = NotIn-right list (f ∷ fs) (z ∷ zs) out.1 in
    (
      cut s list head f (last_of f fs) z,
      cut-eq s list head f fs (z ∷ zs) l r out,
      front_cut list f fs (z ∷ zs) r out l z z_out (λ p. lo.0 (sym p)),
      back_cut list f z fs zs r out,
    )
