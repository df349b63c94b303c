-- ===== src/Mglist/Replace.antt =====
-- `mglist_replace` and `mglist_replace_init` of src/mglist.c.
use mg_std.Base.{◌≡◌, ◌≢◌, refl, ap, ◌∙◌, sym, true, List, [], ◌∷◌, ◌++◌, append-nil, some, arith}
use mg_std.Mglist.Store.{
  Ptr, Store, and_then, put_next, put_prev, set_next-eq, set_next-then, set_prev-then,
  get_next-then, get_prev-then,
}
use mg_std.Mglist.Ring.{
  NotIn, NotIn-append, NotIn-right, Distinct-middle, Edge, PathOf, last_of, first_of, Ring, AllLive,
}
use mg_std.Mglist.Insert.{added, insert_last, insert_before}
use mg_std.Mglist.Delete.{
  linked, unlink_last, unlink_before, prev_of, next_of, prev_live, first_live, entry_live,
  NotIn-entry,
}
use mg_std.Mglist.Move.{init-Ring}
use mg_std.Mglist.{init, replace, replace_init}

-- A store that reads the same has the same lists.
module _ (s t : Store) (same_next : (a : Ptr) → s.next a ≡ t.next a)
    (same_prev : (a : Ptr) → s.prev a ≡ t.prev a)
    (same_live : (a : Ptr) → s.live a ≡ t.live a) where
  Edge-same : (a b : Ptr) → Edge s a b → Edge t a b
  Edge-same a b e = (sym (same_next a) ∙ e.0, sym (same_prev b) ∙ e.1)

  path_same : (a : Ptr) (xs : List Ptr) → PathOf s a xs → PathOf t a xs
  path_same a [] p = tt
  path_same a (x ∷ xs) p = (Edge-same a x p.0, path_same x xs p.1)

  live_same : (xs : List Ptr) → AllLive s xs → AllLive t xs
  live_same [] h = tt
  live_same (x ∷ xs) h = (sym (same_live x) ∙ h.0, live_same xs h.1)

  Ring-same : {head : Ptr} {xs : List Ptr} → Ring s head xs → Ring t head xs
  Ring-same {head} {xs} r = record {
    path = path_same head xs r.path;
    closes = Edge-same (last_of head xs) head r.closes;
    distinct = r.distinct;
    live = live_same (head ∷ xs) r.live;
  }

-- The store after the four writes of `mglist_replace`.
abbrev replaced : Store → (new p n : Ptr) → Store
replaced s new p n = put_next (put_prev (put_prev (put_next s new n) n new) new p) p new

replaced-Ring :
    (s : Store) (head old new : Ptr) (xs ys : List Ptr)
    → Ring s head (xs ++ (old ∷ ys))
    → NotIn new (head ∷ (xs ++ ys))
    → s.live new ≡ true
    → Ring (replaced s new (last_of head xs) (first_of ys head)) head (xs ++ (new ∷ ys))
replaced-Ring s head old new xs [] r out l =
    let p = last_of head xs in
    Ring-same (added (linked s p head) new p head) (replaced s new p head) (λ a. ground arith)
      (λ a. ground arith) (λ a. refl)
      (insert_last new xs (unlink_last old xs r) (rw append-nil at out) l)
replaced-Ring s head old new xs (z ∷ zs) r out l =
    let p = last_of head xs in
    Ring-same (added (linked s p z) new p z) (replaced s new p z) (λ a. ground arith)
      (λ a. ground arith) (λ a. refl)
      (insert_before new z xs zs (unlink_before old z xs zs r) out l)

NotIn-first : (e head : Ptr) (xs ys : List Ptr) → NotIn e (head ∷ (xs ++ ys)) → e ≢ first_of ys head
NotIn-first e head xs [] h = h.0
NotIn-first e head xs (y ∷ ys) h = (NotIn-right e xs (y ∷ ys) h.1).0

-- `mglist_replace` of a node of a list by a live node that is not of it: the new node stands where
-- the old one stood.
pub replace-Ring :
    (s : Store) (head old new : Ptr) (xs ys : List Ptr)
    → Ring s head (xs ++ (old ∷ ys))
    → NotIn new (head ∷ (xs ++ ys))
    → s.live new ≡ true
    → (t : Store) × (replace old new s ≡ some (tt, t))
      × Ring t head (xs ++ (new ∷ ys))
      × (t.live old ≡ true)
unfolding replace
replace-Ring s head old new xs ys r out l =
    let p = last_of head xs in
    let n = first_of ys head in
    let s1 = put_next s new n in
    let s2 = put_prev s1 n new in
    let s3 = put_prev s2 new p in
    let lo = entry_live old xs ys r in
    let ne : old ≢ n = NotIn-first old head xs ys (NotIn-entry old xs ys r) in
    let before = prev_of old xs ys r in
    let read_n : s1.next new ≡ n = ground arith in
    let read_p : s2.prev old ≡ p = ground arith in
    let read_q : s3.prev new ≡ p = ground arith in
    (
      replaced s new p n,
      get_next-then s lo _
          ∙ rw (next_of old xs ys r) (
              set_next-then s l n _
              ∙ get_next-then s1 l _
              ∙ rw read_n (
                  set_prev-then s1 (first_live old xs ys r) new _
                  ∙ get_prev-then s2 lo _
                  ∙ rw read_p (
                      set_prev-then s2 l p _
                      ∙ get_prev-then s3 l _
                      ∙ rw read_q (set_next-eq s3 (prev_live old xs ys r) new)))),
      replaced-Ring s head old new xs ys r out l,
      lo,
    )

-- `mglist_replace_init`: as `mglist_replace`, and the old node is the head of an empty list. The
-- two nodes differ.
pub replace_init-Ring :
    (s : Store) (head old new : Ptr) (xs ys : List Ptr)
    → Ring s head (xs ++ (old ∷ ys))
    → NotIn new (head ∷ (xs ++ ys))
    → s.live new ≡ true
    → old ≢ new
    → (t : Store) × (replace_init old new s ≡ some (tt, t))
      × Ring t head (xs ++ (new ∷ ys))
      × Ring t old []
unfolding replace_init
replace_init-Ring s head old new xs ys r out l ne =
    let (t1, ran, ring, lo) = replace-Ring s head old new xs ys r out l in
    let (t, made_t, own, keeps) = init-Ring t1 old lo in
    let (before, behind) = Distinct-middle (head ∷ xs) ys old r.distinct in
    (
      t,
      ap (λ o. and_then o (λ _. init old)) ran ∙ made_t,
      keeps head (xs ++ (new ∷ ys)) (NotIn-append old (head ∷ xs) (new ∷ ys) before (ne, behind))
          ring,
      own,
    )
