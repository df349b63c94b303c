-- ===== src/Hlist.antt =====
-- src/mglist.c, the hash lists: a head with one pointer, and nodes whose `pprev` points at the pointer
-- that points at them, which is the head's `first` or the `next` of the node before. Address 0 is
-- NULL; `none` is an access through NULL.
pub mod Chain
pub mod Cut
pub mod Beside
pub mod Laws
mod Tests
use mg_std.Base.{ℕ, Bool, true, false, ◌||◌, Option, none, some, ◌==◌, if◌then◌else◌}

abbrev pub Ptr : Type 0
Ptr = ℕ

-- A pointer in memory: `h->first` or `n->next`.
pub data Slot : Type 0 where
  first_of next_of : Ptr → Slot

abbrev pub same_slot : Slot → Slot → Bool
same_slot (first_of p) (first_of q) = p == q
same_slot (next_of p) (next_of q) = p == q
same_slot _ _ = false

-- What the pointers hold, and where each node's `pprev` points.
pub record Store : Type 0 where
  pub slot : Slot → Ptr
  pub pprev : Ptr → Option Slot

abbrev pub put : Slot → Ptr → Store → Store
put c v s = record s { slot = λ d. if same_slot c d then v else s.slot d }

abbrev pub put_pprev : Ptr → Option Slot → Store → Store
put_pprev n v s = record s { pprev = λ m. if n == m then v else s.pprev m }

-- `if (p) p->pprev = c`
abbrev pub relink : Ptr → Slot → Store → Store
relink p c s = if p == 0 then s else put_pprev p (some c) s

abbrev pub clear : Ptr → Store → Store
clear n s = put_pprev n none (put (next_of n) 0 s)

unfoldable pub init_node : Ptr → Store → Option Store
init_node n s = if n == 0 then none else some (clear n s)

abbrev pub is_none : Option Slot → Bool
is_none none = true
is_none (some c) = false

unfoldable pub mghlist_unhashed : Ptr → Store → Option Bool
mghlist_unhashed n s = if n == 0 then none else some (is_none (s.pprev n))

unfoldable pub mghlist_empty : Ptr → Store → Option Bool
mghlist_empty h s = if h == 0 then none else some (s.slot (first_of h) == 0)

-- `__mghlist_del`, for the `pprev` of the node.
abbrev pub unlink : Ptr → Store → Option Slot → Option Store
unlink n s none = none
unlink n s (some c) = some (relink (s.slot (next_of n)) c (put c (s.slot (next_of n)) s))

abbrev pub cleared : Ptr → Option Store → Option Store
cleared n none = none
cleared n (some s) = some (clear n s)

unfoldable pub mghlist_del : Ptr → Store → Option Store
mghlist_del n s = if n == 0 then none else cleared n (unlink n s (s.pprev n))

unfoldable pub mghlist_del_init : Ptr → Store → Option Store
mghlist_del_init n s =
    if n == 0
    then none
    else if is_none (s.pprev n)
    then some s
    else cleared n (unlink n s (s.pprev n))

unfoldable pub mghlist_add_head : Ptr → Ptr → Store → Option Store
mghlist_add_head n h s =
    let first = s.slot (first_of h) in
    if n == 0 || h == 0
    then none
    else some (
        put_pprev n (some (first_of h))
          (put (first_of h) n (relink first (next_of n) (put (next_of n) first s))))

-- `*(n->pprev) = n`
abbrev pub point_here : Ptr → Store → Option Slot → Option Store
point_here n s none = none
point_here n s (some c) = some (put c n s)

unfoldable pub mghlist_add_before : Ptr → Ptr → Store → Option Store
mghlist_add_before n next s =
    let t =
      put_pprev next (some (next_of n)) (put (next_of n) next (put_pprev n (s.pprev next) s)) in
    if n == 0 || next == 0 then none else point_here n t (t.pprev n)

-- `next` is put behind `n`.
unfoldable pub mghlist_add_after : Ptr → Ptr → Store → Option Store
mghlist_add_after n next s =
    let t =
      put_pprev next (some (next_of n))
        (put (next_of n) next (put (next_of next) (s.slot (next_of n)) s)) in
    if n == 0 || next == 0 then none else some (relink (t.slot (next_of next)) (next_of next) t)

unfoldable pub mghlist_add_fake : Ptr → Store → Option Store
mghlist_add_fake n s = if n == 0 then none else some (put_pprev n (some (next_of n)) s)

unfoldable pub mghlist_move_list : Ptr → Ptr → Store → Option Store
mghlist_move_list old new s =
    let first = s.slot (first_of old) in
    let t = relink first (first_of new) (put (first_of new) first s) in
    if old == 0 || new == 0 then none else some (put (first_of old) 0 t)
