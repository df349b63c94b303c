-- ===== src/Mglist/Delete.antt =====
-- `mglist_del`, `mglist_del_init`, `mglist_move`, `mglist_move_tail` and `mglist_rotate_left` of
-- src/mglist.c: what is left of the list when one of its nodes is taken out.
use mg_std.Base.{
  ◌≡◌, ◌≢◌, refl, ap, ◌∙◌, sym, ◌⊎◌, inl, inr, true, List, [], ◌∷◌, ◌++◌, append-nil, some, arith,
}
use mg_std.Mglist.Store.{
  Ptr, null, Store, put_next, put_prev, set_next, set_prev, and_then, ◌>>◌, set_next-eq,
  set_prev-eq, set_next-then, set_prev-then, get_next-then, get_prev-then,
}
use mg_std.Mglist.Ring.{
  NotIn, Distinct, AllLive, Edge, PathOf, last_of, first_of, Ring, last_of-append, NotIn-append,
  NotIn-last, Distinct-left, Distinct-right, Distinct-middle, Distinct-drop, NotIn-last_of,
  AllLive-append, AllLive-left, AllLive-right, live_last, path-append, path_split, path-put_next,
  path-put_prev,
}
use mg_std.Mglist.{del_between, del_entry, del}

-- The store after the two writes of `__mglist_del`.
abbrev pub linked : Store → Ptr → Ptr → Store
linked s p n = put_next (put_prev s n p) p n

module _ (s : Store) where
  -- A write to a node that is not of the list leaves the list as it is.
  pub Ring-put_next :
      {head : Ptr} {xs : List Ptr} (p v : Ptr)
      → NotIn p (head ∷ xs)
      → Ring s head xs
      → Ring (put_next s p v) head xs
  Ring-put_next {head} {xs} p v out r =
      let ne : p ≢ last_of head xs = NotIn-last p head xs out in
      record {
        path = path-put_next s head p v xs r.distinct (inr out) r.path;
        closes = let (e, f) = r.closes in (ground arith, f);
        distinct = r.distinct;
        live = AllLive-same (head ∷ xs) r.live;
      }
    where
      AllLive-same : (ys : List Ptr) → AllLive s ys → AllLive (put_next s p v) ys
      AllLive-same ys h = h

  pub Ring-put_prev :
      {head : Ptr} {xs : List Ptr} (p v : Ptr)
      → NotIn p (head ∷ xs)
      → Ring s head xs
      → Ring (put_prev s p v) head xs
  Ring-put_prev {head} {xs} p v out r = record {
    path = path-put_prev s head p v xs out.1 r.path;
    closes = let (e, f) = r.closes in let ne = out.0 in (e, ground arith);
    distinct = r.distinct;
    live = r.live;
  }

  module _ (p n : Ptr) where
    pub del_between-eq :
        s.live p ≡ true → s.live n ≡ true → del_between p n s ≡ some (tt, linked s p n)
    unfolding del_between
    del_between-eq g k = set_prev-then s k p _ ∙ set_next-eq (put_prev s n p) g n

    pub path-linked :
        (a : Ptr) (xs : List Ptr)
        → Distinct (a ∷ xs)
        → NotIn n xs
        → (p ≡ last_of a xs) ⊎ NotIn p (a ∷ xs)
        → PathOf s a xs
        → PathOf (linked s p n) a xs
    path-linked a xs d first last h =
        path-put_next (put_prev s n p) a p n xs d last (path-put_prev s a n p xs first h)

-- The neighbours of a node.
pub prev_of :
    {s : Store} {head : Ptr} (e : Ptr) (xs ys : List Ptr)
    → Ring s head (xs ++ (e ∷ ys))
    → s.prev e ≡ last_of head xs
prev_of {s} {head} e xs ys r = let (_, edge, _) = path_split s head e xs ys r.path in edge.1

pub next_of :
    {s : Store} {head : Ptr} (e : Ptr) (xs ys : List Ptr)
    → Ring s head (xs ++ (e ∷ ys))
    → s.next e ≡ first_of ys head
next_of {s} {head} e xs [] r = ap s.next (sym (last_of-append head e xs [])) ∙ r.closes.0
next_of {s} {head} e xs (z ∷ zs) r =
    let (_, _, back) = path_split s head e xs (z ∷ zs) r.path in back.0.0

pub first_live :
    {s : Store} {head : Ptr} (e : Ptr) (xs ys : List Ptr)
    → Ring s head (xs ++ (e ∷ ys))
    → s.live (first_of ys head) ≡ true
first_live {s} {head} e xs [] r = r.live.0
first_live {s} {head} e xs (z ∷ zs) r = (AllLive-right s xs (e ∷ (z ∷ zs)) r.live.1).1.0

pub prev_live :
    {s : Store} {head : Ptr} (e : Ptr) (xs ys : List Ptr)
    → Ring s head (xs ++ (e ∷ ys))
    → s.live (last_of head xs) ≡ true
prev_live {s} {head} e xs ys r = live_last s head xs (r.live.0, AllLive-left s xs (e ∷ ys) r.live.1)

pub entry_live :
    {s : Store} {head : Ptr} (e : Ptr) (xs ys : List Ptr)
    → Ring s head (xs ++ (e ∷ ys))
    → s.live e ≡ true
entry_live {s} e xs ys r = (AllLive-right s xs (e ∷ ys) r.live.1).0

pub NotIn-entry :
    {s : Store} {head : Ptr} (e : Ptr) (xs ys : List Ptr)
    → Ring s head (xs ++ (e ∷ ys))
    → NotIn e (head ∷ (xs ++ ys))
NotIn-entry {s} {head} e xs ys r =
    let (before, behind) = Distinct-middle (head ∷ xs) ys e r.distinct in
    NotIn-append e (head ∷ xs) ys before behind

pub unlink_last :
    {s : Store} {head : Ptr} (e : Ptr) (xs : List Ptr)
    → Ring s head (xs ++ (e ∷ []))
    → Ring (linked s (last_of head xs) head) head xs
unlink_last {s} {head} e xs r =
    let p = last_of head xs in
    let d = Distinct-left (head ∷ xs) (e ∷ []) r.distinct in
    record {
      path = path-linked s p head head xs d d.0 (inl refl) (path_split s head e xs [] r.path).0;
      closes = (ground arith, ground arith);
      distinct = d;
      live = (r.live.0, AllLive-left s xs (e ∷ []) r.live.1);
    }

pub unlink_before :
    {s : Store} {head : Ptr} (e z : Ptr) (xs zs : List Ptr)
    → Ring s head (xs ++ (e ∷ (z ∷ zs)))
    → Ring (linked s (last_of head xs) z) head (xs ++ (z ∷ zs))
unlink_before {s} {head} e z xs zs r =
    let p = last_of head xs in
    let q = last_of z zs in
    let d = Distinct-drop (head ∷ xs) (z ∷ zs) e r.distinct in
    let (front, _, back) = path_split s head e xs (z ∷ zs) r.path in
    let apart : NotIn p (z ∷ zs) = NotIn-last_of head xs (z ∷ zs) d in
    let z_out : NotIn z (head ∷ xs) × NotIn z zs = Distinct-middle (head ∷ xs) zs z d in
    let p_ne_q : p ≢ q = NotIn-last p z zs apart in
    let z_ne : z ≢ head = z_out.0.0 in
    let closes : Edge s q head = rw (last_of-append head e xs (z ∷ zs)) at r.closes in
    let live = AllLive-right s xs (e ∷ (z ∷ zs)) r.live.1 in
    record {
      path =
          path-append (linked s p z) head z xs zs
            (path-linked s p z head xs (Distinct-left (head ∷ xs) (z ∷ zs) d) z_out.0.1 (inl refl)
              front)
            (ground arith, ground arith)
            (path-linked s p z z zs (Distinct-right (head ∷ xs) (z ∷ zs) d) z_out.1 (inr apart)
              back.1);
      closes = rw (last_of-append head z xs zs) (ground arith, ground arith);
      distinct = d;
      live = (
        r.live.0,
        AllLive-append s xs (z ∷ zs) (AllLive-left s xs (e ∷ (z ∷ zs)) r.live.1) live.1,
      );
    }

-- The ring without one of its nodes.
pub unlink :
    {s : Store} {head : Ptr} (e : Ptr) (xs ys : List Ptr)
    → Ring s head (xs ++ (e ∷ ys))
    → Ring (linked s (last_of head xs) (first_of ys head)) head (xs ++ ys)
unlink e xs [] r = rw append-nil (unlink_last e xs r)
unlink e xs (z ∷ zs) r = unlink_before e z xs zs r

-- `mglist_del` of a node of a list: the list of `head` has the other nodes, in their order, and the
-- node's own pointers are NULL, the poison of src/mglist.h.
pub del-Ring :
    (s : Store) (head e : Ptr) (xs ys : List Ptr)
    → Ring s head (xs ++ (e ∷ ys))
    → (t : Store) × (del e s ≡ some (tt, t))
      × Ring t head (xs ++ ys)
      × (t.next e ≡ null)
      × (t.prev e ≡ null)
unfolding del del_between
del-Ring s head e xs ys r =
    let p = s.prev e in
    let n = s.next e in
    let l = entry_live e xs ys r in
    let lp : s.live p ≡ true = rw (prev_of e xs ys r) (prev_live e xs ys r) in
    let ln : s.live n ≡ true = rw (next_of e xs ys r) (first_live e xs ys r) in
    let t1 = linked s p n in
    let t2 = put_next t1 e null in
    let rest : Ring t1 head (xs ++ ys) =
      rw (prev_of e xs ys r, next_of e xs ys r) (unlink e xs ys r) in
    let out = NotIn-entry e xs ys r in
    (
      put_prev t2 e null,
      get_prev-then s l _
          ∙ get_next-then s l _
          ∙ ap (λ o. and_then o (λ _. set_next e null >> set_prev e null))
              (del_between-eq s p n lp ln)
          ∙ set_next-then t1 l null _
          ∙ set_prev-eq t2 l null,
      Ring-put_prev t2 e null out (Ring-put_next t1 e null out rest),
      ground arith,
      ground arith,
    )

-- `__mglist_del_entry`
pub del_entry-Ring :
    {s : Store} {head : Ptr} (e : Ptr) (xs ys : List Ptr)
    → Ring s head (xs ++ (e ∷ ys))
    → (del_entry e s ≡ some (tt, linked s (s.prev e) (s.next e)))
      × Ring (linked s (s.prev e) (s.next e)) head (xs ++ ys)
unfolding del_entry del_between
del_entry-Ring {s} e xs ys r =
    let p = s.prev e in
    let n = s.next e in
    let l = entry_live e xs ys r in
    let lp : s.live p ≡ true = rw (prev_of e xs ys r) (prev_live e xs ys r) in
    let ln : s.live n ≡ true = rw (next_of e xs ys r) (first_live e xs ys r) in
    (
      get_prev-then s l _ ∙ get_next-then s l _ ∙ del_between-eq s p n lp ln,
      rw (prev_of e xs ys r, next_of e xs ys r) (unlink e xs ys r),
    )
