-- ===== src/Mglist.antt =====
-- src/mglist.c and src/mglist.h, the circular doubly linked list: each function as a command on
-- the store, in the order of its statements. The poison values of src/mglist.h are NULL.
pub mod Store
pub mod Ring
pub mod Insert
pub mod Delete
pub mod Move
pub mod Splice
pub mod Cut
pub mod Replace
mod Tests
use mg_std.Base.{Bool, true, false, ◌==◌, ◌&&◌, not, if◌then◌else◌}
use Store.{Ptr, null, Cmd, pure, ◌>>=◌, ◌>>◌, get_next, get_prev, set_next, set_prev}

unfoldable pub init : Ptr → Cmd (Unit {0})
init list = do set_next list list; set_prev list list

-- `__mglist_add`
unfoldable pub add_between : (new prev next : Ptr) → Cmd (Unit {0})
add_between new prev next = do
  set_prev next new
  set_next new next
  set_prev new prev
  set_next prev new

unfoldable pub add : (new head : Ptr) → Cmd (Unit {0})
unfolding add_between
add new head = do n ← get_next head; add_between new head n

unfoldable pub add_tail : (new head : Ptr) → Cmd (Unit {0})
unfolding add_between
add_tail new head = do p ← get_prev head; add_between new p head

-- `__mglist_del`
unfoldable pub del_between : (prev next : Ptr) → Cmd (Unit {0})
del_between prev next = do set_prev next prev; set_next prev next

-- `__mglist_del_entry`
unfoldable pub del_entry : Ptr → Cmd (Unit {0})
unfolding del_between
del_entry entry = do p ← get_prev entry; n ← get_next entry; del_between p n

unfoldable pub del : Ptr → Cmd (Unit {0})
unfolding del_between
del entry = do
  p ← get_prev entry
  n ← get_next entry
  del_between p n
  set_next entry null
  set_prev entry null

unfoldable pub replace : (old new : Ptr) → Cmd (Unit {0})
replace old new = do
  n ← get_next old
  set_next new n
  m ← get_next new
  set_prev m new
  p ← get_prev old
  set_prev new p
  q ← get_prev new
  set_next q new

unfoldable pub replace_init : (old new : Ptr) → Cmd (Unit {0})
unfolding replace init
replace_init old new = do replace old new; init old

unfoldable pub del_init : Ptr → Cmd (Unit {0})
unfolding del_entry init
del_init entry = do del_entry entry; init entry

unfoldable pub move : (list head : Ptr) → Cmd (Unit {0})
unfolding del_entry add
move list head = do del_entry list; add list head

unfoldable pub move_tail : (list head : Ptr) → Cmd (Unit {0})
unfolding del_entry add_tail
move_tail list head = do del_entry list; add_tail list head

unfoldable pub is_last : (list head : Ptr) → Cmd Bool
is_last list head = do n ← get_next list; pure (n == head)

unfoldable pub empty : Ptr → Cmd Bool
empty head = do n ← get_next head; pure (n == head)

-- `&&` reads `head->prev` only if the first test holds.
unfoldable pub empty_careful : Ptr → Cmd Bool
empty_careful head = do
  n ← get_next head
  if n == head then (do p ← get_prev head; pure (n == p)) else pure false

unfoldable pub rotate_left : Ptr → Cmd (Unit {0})
unfolding empty move_tail
rotate_left head = do
  e ← empty head
  if not e then (do first ← get_next head; move_tail first head) else pure tt

unfoldable pub is_singular : Ptr → Cmd Bool
unfolding empty
is_singular head = do
  e ← empty head
  if not e then (do n ← get_next head; p ← get_prev head; pure (n == p)) else pure false

-- `__mglist_cut_position`
unfoldable pub cut_between : (list head entry : Ptr) → Cmd (Unit {0})
cut_between list head entry = do
  new_first ← get_next entry
  first ← get_next head
  set_next list first
  n ← get_next list
  set_prev n list
  set_prev list entry
  set_next entry list
  set_next head new_first
  set_prev new_first head

-- `head->next` is read again for the second test: the first has shown that `head` is live.
unfoldable pub cut_position : (list head entry : Ptr) → Cmd (Unit {0})
unfolding empty is_singular init cut_between
cut_position list head entry = do
  e ← empty head
  if e then pure tt else do
    one ← is_singular head
    n ← get_next head
    if one && not (n == entry) && not (head == entry)
        then pure tt
        else (if entry == head then init list else cut_between list head entry)

-- `__mglist_splice`
unfoldable pub splice_between : (list prev next : Ptr) → Cmd (Unit {0})
splice_between list prev next = do
  first ← get_next list
  last ← get_prev list
  set_prev first prev
  set_next prev first
  set_next last next
  set_prev next last

unfoldable pub splice : (list head : Ptr) → Cmd (Unit {0})
unfolding empty splice_between
splice list head = do
  e ← empty list
  if not e then (do n ← get_next head; splice_between list head n) else pure tt

unfoldable pub splice_tail : (list head : Ptr) → Cmd (Unit {0})
unfolding empty splice_between
splice_tail list head = do
  e ← empty list
  if not e then (do p ← get_prev head; splice_between list p head) else pure tt

unfoldable pub splice_init : (list head : Ptr) → Cmd (Unit {0})
unfolding empty splice_between init
splice_init list head = do
  e ← empty list
  if not e then (do n ← get_next head; splice_between list head n; init list) else pure tt

unfoldable pub splice_tail_init : (list head : Ptr) → Cmd (Unit {0})
unfolding empty splice_between init
splice_tail_init list head = do
  e ← empty list
  if not e then (do p ← get_prev head; splice_between list p head; init list) else pure tt
