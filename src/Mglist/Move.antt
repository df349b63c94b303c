-- ===== src/Mglist/Move.antt =====
-- `mglist_init`, `mglist_del_init`, `mglist_move`, `mglist_move_tail`, `mglist_rotate_left` and
-- the tests `mglist_empty`, `mglist_is_last` and `mglist_is_singular` of src/mglist.c.
use mg_std.Base.{◌≡◌, ap, ◌∙◌, Bool, true, false, List, [], ◌∷◌, ◌++◌, some, arith}
use mg_std.Mglist.Store.{
  Ptr, Store, and_then, put_next, put_prev, set_next-then, set_prev-eq, get_next-then,
  get_prev-then, get_prev-eq,
}
use mg_std.Mglist.Ring.{NotIn, Ring, NotIn-last, NotIn-right}
use mg_std.Mglist.Delete.{
  next_of, linked, del_entry-Ring, Ring-put_next, Ring-put_prev, NotIn-entry, entry_live,
}
use mg_std.Mglist.Insert.{add-Ring, add_tail-Ring}
use mg_std.Mglist.{
  init, add, add_tail, del_init, move, move_tail, rotate_left, empty, empty_careful, is_last,
  is_singular,
}

-- The store after the two writes of `mglist_init`.
abbrev pub made : Store → Ptr → Store
made s h = put_prev (put_next s h h) h h

pub init-eq : (s : Store) (h : Ptr) → s.live h ≡ true → init h s ≡ some (tt, made s h)
unfolding init
init-eq s h l = set_next-then s l h _ ∙ set_prev-eq (put_next s h h) l h

pub made-Ring : (s : Store) (h : Ptr) → s.live h ≡ true → Ring (made s h) h []
made-Ring s h l = record {
  path = tt;
  closes = (ground arith, ground arith);
  distinct = (tt, tt);
  live = (l, tt);
}

-- `mglist_init` makes the empty list of a live head and leaves every list that the head is no
-- node of as it is.
pub init-Ring :
    (s : Store) (h : Ptr)
    → s.live h ≡ true
    → (t : Store) × (init h s ≡ some (tt, t))
      × Ring t h []
      × ((g : Ptr) (xs : List Ptr) → NotIn h (g ∷ xs) → Ring s g xs → Ring t g xs)
init-Ring s h l = (
  made s h,
  init-eq s h l,
  made-Ring s h l,
  λ g xs out r. Ring-put_prev (put_next s h h) h h out (Ring-put_next s h h out r),
)

-- `mglist_del_init` of a node of a list: the list of `head` has the other nodes, in their order,
-- and the node is the head of an empty list of its own.
pub del_init-Ring :
    (s : Store) (head e : Ptr) (xs ys : List Ptr)
    → Ring s head (xs ++ (e ∷ ys))
    → (t : Store) × (del_init e s ≡ some (tt, t)) × Ring t head (xs ++ ys) × Ring t e []
unfolding del_init
del_init-Ring s head e xs ys r =
    let (ran, rest) = del_entry-Ring e xs ys r in
    let t1 = linked s (s.prev e) (s.next e) in
    let l = entry_live e xs ys r in
    let (t, made_t, ring, keeps) = init-Ring t1 e l in
    (
      t,
      ap (λ o. and_then o (λ _. init e)) ran ∙ made_t,
      keeps head (xs ++ ys) (NotIn-entry e xs ys r) rest,
      ring,
    )

-- `mglist_move` of a node of a list to the list itself: the node comes first, the others keep
-- their order.
pub move-Ring :
    (s : Store) (head e : Ptr) (xs ys : List Ptr)
    → Ring s head (xs ++ (e ∷ ys))
    → (t : Store) × (move e head s ≡ some (tt, t)) × Ring t head (e ∷ (xs ++ ys))
unfolding move
move-Ring s head e xs ys r =
    let (ran, rest) = del_entry-Ring e xs ys r in
    let t1 = linked s (s.prev e) (s.next e) in
    let (t, added_t, ring) =
      add-Ring t1 e head (xs ++ ys) rest (NotIn-entry e xs ys r) (entry_live e xs ys r) in
    (t, ap (λ o. and_then o (λ _. add e head)) ran ∙ added_t, ring)

-- `mglist_move_tail` of a node of a list to the list itself: the node comes last, the others keep
-- their order.
pub move_tail-Ring :
    (s : Store) (head e : Ptr) (xs ys : List Ptr)
    → Ring s head (xs ++ (e ∷ ys))
    → (t : Store) × (move_tail e head s ≡ some (tt, t)) × Ring t head ((xs ++ ys) ++ (e ∷ []))
unfolding move_tail
move_tail-Ring s head e xs ys r =
    let (ran, rest) = del_entry-Ring e xs ys r in
    let t1 = linked s (s.prev e) (s.next e) in
    let (t, added_t, ring) =
      add_tail-Ring t1 e head (xs ++ ys) rest (NotIn-entry e xs ys r) (entry_live e xs ys r) in
    (t, ap (λ o. and_then o (λ _. add_tail e head)) ran ∙ added_t, ring)

abbrev pub is_nil : List Ptr → Bool
is_nil [] = true
is_nil (x ∷ xs) = false

abbrev pub one_node : List Ptr → Bool
one_node (x ∷ []) = true
one_node _ = false

abbrev pub rotated : List Ptr → List Ptr
rotated [] = []
rotated (x ∷ xs) = xs ++ (x ∷ [])

pub empty-eq :
    (s : Store) (head : Ptr) (xs : List Ptr) → Ring s head xs → empty head s ≡ some (is_nil xs, s)
unfolding empty
empty-eq s head [] r = get_next-then s r.live.0 _ ∙ (let e = r.closes.0 in ground arith)
empty-eq s head (x ∷ xs) r =
    get_next-then s r.live.0 _ ∙ (let e = r.path.0.0 in let ne = r.distinct.0.0 in ground arith)

careful-eq :
    (s : Store) (head : Ptr) (xs : List Ptr)
    → Ring s head xs
    → empty_careful head s ≡ some (is_nil xs, s)
unfolding empty_careful
careful-eq s head [] r =
    get_next-then s r.live.0 _
    ∙ (let e = r.closes.0 in let f = r.closes.1 in let q = get_prev-eq s r.live.0 in ground arith)
careful-eq s head (x ∷ xs) r =
    get_next-then s r.live.0 _ ∙ (let e = r.path.0.0 in let ne = r.distinct.0.0 in ground arith)

pub singular-eq :
    (s : Store) (head : Ptr) (xs : List Ptr)
    → Ring s head xs
    → is_singular head s ≡ some (one_node xs, s)
unfolding is_singular
singular-eq s head [] r = rw (empty-eq s head [] r)
singular-eq s head (x ∷ []) r = rw (empty-eq s head (x ∷ []) r) (
    get_next-then s r.live.0 _
    ∙ get_prev-then s r.live.0 _
    ∙ (let e = r.path.0.0 in let f = r.closes.1 in ground arith))
singular-eq s head (x ∷ (y ∷ ys)) r = rw (empty-eq s head (x ∷ (y ∷ ys)) r) (
    get_next-then s r.live.0 _
    ∙ get_prev-then s r.live.0 _
    ∙ (let e = r.path.0.0 in
        let f = r.closes.1 in let ne = NotIn-last x y ys r.distinct.1.0 in ground arith))

-- `mglist_empty`, `mglist_empty_careful` and `mglist_is_singular` of a list: they change nothing
-- and tell whether the list has no node (the first two) or one node.
pub queries-Ring :
    (s : Store) (head : Ptr) (xs : List Ptr)
    → Ring s head xs
    → (empty head s ≡ some (is_nil xs, s))
      × (empty_careful head s ≡ some (is_nil xs, s))
      × (is_singular head s ≡ some (one_node xs, s))
queries-Ring s head xs r = (empty-eq s head xs r, careful-eq s head xs r, singular-eq s head xs r)

-- `mglist_rotate_left`: the first node becomes the last, and an empty list stays empty.
pub rotate_left-Ring :
    (s : Store) (head : Ptr) (xs : List Ptr)
    → Ring s head xs
    → (t : Store) × (rotate_left head s ≡ some (tt, t)) × Ring t head (rotated xs)
unfolding rotate_left
rotate_left-Ring s head [] r = (s, rw (empty-eq s head [] r), r)
rotate_left-Ring s head (x ∷ xs) r =
    let (t, ran, ring) = move_tail-Ring s head x [] xs r in
    (t, rw (empty-eq s head (x ∷ xs) r) (get_next-then s r.live.0 _ ∙ rw r.path.0.0 ran), ring)

-- `mglist_is_last` of a node of a list: it changes nothing and tells whether no node stands
-- behind it.
pub is_last-Ring :
    (s : Store) (head e : Ptr) (xs ys : List Ptr)
    → Ring s head (xs ++ (e ∷ ys))
    → is_last e head s ≡ some (is_nil ys, s)
unfolding is_last
is_last-Ring s head e xs [] r =
    get_next-then s (entry_live e xs [] r) _ ∙ (let n = next_of e xs [] r in ground arith)
is_last-Ring s head e xs (y ∷ ys) r =
    get_next-then s (entry_live e xs (y ∷ ys) r) _
    ∙ (let n = next_of e xs (y ∷ ys) r in
        let apart : NotIn head (y ∷ ys) = (NotIn-right head xs (e ∷ (y ∷ ys)) r.distinct.0).1 in
        let ne = apart.0 in ground arith)
