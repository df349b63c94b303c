-- ===== src/Mainloop.antt =====
-- src/mainloop.c: the event loop with epoll. The lists of `mainloop_data_t` that the file keeps, the
-- memory and the timer descriptors that it holds, and the calls it makes of epoll, timerfd and the
-- destroy callbacks. `none` is an access to freed memory. What the system answers is an argument. The
-- content of a node in the list of free nodes is cleared before it is used, so it is left out. A
-- destroy callback does not call the loop back.
pub mod Tally
pub mod Keeps
pub mod Session
pub mod Timeouts
mod Tests
use mg_std.Base.{
  ℕ, zero, suc, ◌+◌, ◌-◌, ◌*◌, ◌/◌, ◌%◌, ◌^◌, ℤ, pos, negsuc, Bool, true, false, ◌||◌, Option, none,
  some, List, [], ◌∷◌, ◌==◌, if◌then◌else◌,
}

abbrev pub Ptr : Type 0
Ptr = ℕ

pub data Kind : Type 0 where
  general timer : Kind

abbrev pub is_timer : Kind → Bool
is_timer general = false
is_timer timer = true

-- `mainloop_data_t`, at an address. The callbacks are addresses, 0 is NULL.
pub record Entry : Type 0 where
  pub at : Ptr
  pub fd : ℕ
  pub kind : Kind
  pub callback : Ptr
  pub destroy_callback : Ptr
  pub user_data : Ptr

-- The flags that epoll is asked for.
pub record Interest : Type 0 where
  pub epollin : Bool
  pub epollout : Bool
  pub epolloneshot : Bool

pub data Call : Type 0 where
  epoll_add : ℕ → Interest → Call
  epoll_modify : ℕ → Interest → Call
  epoll_remove : ℕ → Call
  timerfd_settime : ℤ → ℕ → ℕ → Call
  destroyed : Ptr → Ptr → Call

-- The two lists, the flag, the blocks from malloc and the timer descriptors that are held, and the
-- calls, the last one first.
pub record Loop : Type 0 where
  pub entries : List Entry
  pub free : List Ptr
  pub terminate : Bool
  pub owned : List Ptr
  pub opened : List ℕ
  pub calls : List Call

-- What malloc, timerfd_create, timerfd_settime and epoll_ctl answer during a call.
pub record Answers : Type 0 where
  pub malloc : Ptr
  pub timerfd : ℤ
  pub settime : ℤ
  pub ctl : ℤ

pub data Ret : Type 0 where
  einval enomem enxio eio : Ret
  value : ℤ → Ret

abbrev pub is_negative : ℤ → Bool
is_negative (pos n) = false
is_negative (negsuc n) = true

abbrev pub elem : ℕ → List ℕ → Bool
elem p [] = false
elem p (q ∷ qs) = (p == q) || elem p qs

abbrev pub without : ℕ → List ℕ → List ℕ
without p [] = []
without p (q ∷ qs) = let rest = without p qs in if p == q then rest else q ∷ rest

-- `epoll_add_fd` and `epoll_modify_fd`: the flags of an event mask.
abbrev pub added_interest : ℕ → Kind → Interest
added_interest events k = record {
  epollin = events % 2 == 1;
  epollout = events / 2 % 2 == 1;
  epolloneshot = is_timer k;
}

abbrev pub modified_interest : ℕ → Interest
modified_interest events = added_interest events general

pub data Taken : Type 0 where
  no_memory : Taken
  got : Ptr → List Ptr → List Ptr → Taken

-- A node for a new entry, the free nodes and the blocks that are held then.
abbrev pub take_node : List Ptr → List Ptr → Ptr → Option Taken
take_node (p ∷ ps) owned m = if elem p owned then some (got p ps owned) else none
take_node [] owned m = if m == 0 then some no_memory else some (got m [] (m ∷ owned))

-- A node is linked before epoll answers.
abbrev pub entered : Answers → ℕ → ℕ → Ptr → Ptr → Ptr → Loop → Option Taken → Option (Ret × Loop)
entered a fd events callback destroy user s none = none
entered a fd events callback destroy user s (some no_memory) = some (enomem, s)
entered a fd events callback destroy user s (some (got p free owned)) =
    let d : Entry = record {
      at = p;
      fd = fd;
      kind = general;
      callback = callback;
      destroy_callback = destroy;
      user_data = user;
    } in
    some (
      value a.ctl,
      record s {
        entries = d ∷ s.entries;
        free = free;
        owned = owned;
        calls = epoll_add fd (added_interest events general) ∷ s.calls;
      },
    )

unfoldable pub mainloop_add_fd : Answers → ℤ → ℕ → Ptr → Ptr → Ptr → Loop → Option (Ret × Loop)
mainloop_add_fd a (negsuc n) events callback destroy user s = some (einval, s)
mainloop_add_fd a (pos fd) events callback destroy user s =
    if callback == 0
    then some (einval, s)
    else entered a fd events callback destroy user s (take_node s.free s.owned a.malloc)

abbrev pub fds : List Entry → List ℕ
fds [] = []
fds (d ∷ ds) = d.fd ∷ fds ds

unfoldable pub mainloop_modify_fd : Answers → ℤ → ℕ → Loop → Ret × Loop
mainloop_modify_fd a (negsuc n) events s = (einval, s)
mainloop_modify_fd a (pos fd) events s =
    if elem fd (fds s.entries)
    then (value a.ctl, record s { calls = epoll_modify fd (modified_interest events) ∷ s.calls })
    else (enxio, s)

-- The first entry of a descriptor, and the others.
abbrev pub behind : Entry → Option (Entry × List Entry) → Option (Entry × List Entry)
behind d none = none
behind d (some (e, es)) = some (e, d ∷ es)

abbrev pub cut_out : ℕ → List Entry → Option (Entry × List Entry)
cut_out fd [] = none
cut_out fd (d ∷ ds) =
    let rest = behind d (cut_out fd ds) in if d.fd == fd then some (d, ds) else rest

-- `close` of a timer's descriptor.
abbrev pub closed : Kind → ℕ → List ℕ → List ℕ
closed general fd opened = opened
closed timer fd opened = without fd opened

abbrev pub destroy_call : Ptr → Ptr → List Call → List Call
destroy_call destroy user calls = if destroy == 0 then calls else destroyed destroy user ∷ calls

abbrev pub retired : Answers → Loop → Option (Entry × List Entry) → Ret × Loop
retired a s none = (enxio, s)
retired a s (some (d, ds)) = (
  value a.ctl,
  record s {
    entries = ds;
    free = d.at ∷ s.free;
    opened = closed d.kind d.fd s.opened;
    calls = destroy_call d.destroy_callback d.user_data (epoll_remove d.fd ∷ s.calls);
  },
)

unfoldable pub mainloop_remove_fd : Answers → ℤ → Loop → Ret × Loop
mainloop_remove_fd a (negsuc n) s = (einval, s)
mainloop_remove_fd a (pos fd) s = retired a s (cut_out fd s.entries)

unfoldable pub timeout_set : ℤ → ℕ → Call
timeout_set fd msec =
    let sec = msec / 1000 in
    timerfd_settime fd sec ((msec - sec * 1000) * 1000 % 2 ^ 32 * 1000 % 2 ^ 32)

-- `mainloop_add_timeout` from where it takes a node.
abbrev pub timer_entered : Answers → ℕ → Ptr → Ptr → Ptr → Loop → Option Taken → Option (Ret × Loop)
timer_entered a fd callback destroy user s none = none
timer_entered a fd callback destroy user s (some no_memory) = some (enomem, s)
timer_entered a fd callback destroy user s (some (got p free owned)) =
    let d : Entry = record {
      at = p;
      fd = fd;
      kind = timer;
      callback = callback;
      destroy_callback = destroy;
      user_data = user;
    } in
    let s' : Loop = record s {
      free = free;
      owned = owned;
      calls = epoll_add fd (added_interest 1 timer) ∷ s.calls;
    } in
    if is_negative a.ctl
    then some (value a.ctl, record s' { opened = without fd s.opened })
    else some (value (pos fd), record s' { entries = d ∷ s.entries })

-- The same with the timer that has been created.
abbrev pub timer_created : Answers → ℕ → ℤ → Ptr → Ptr → Ptr → Loop → Option (Ret × Loop)
timer_created a fd (pos (suc m)) callback destroy user s =
    let s' : Loop = record s { calls = timeout_set (pos fd) (suc m) ∷ s.calls } in
    if is_negative a.settime
    then some (eio, record s' { opened = without fd s.opened })
    else timer_entered a fd callback destroy user s' (take_node s.free s.owned a.malloc)
timer_created a fd _ callback destroy user s =
    timer_entered a fd callback destroy user s (take_node s.free s.owned a.malloc)

unfoldable pub mainloop_add_timeout : Answers → ℤ → Ptr → Ptr → Ptr → Loop → Option (Ret × Loop)
mainloop_add_timeout a msec callback destroy user s =
    if callback == 0 then some (einval, s) else elim a.timerfd [
      | negsuc n ↦ some (eio, s)
      | pos fd ↦ timer_created a fd msec callback destroy user (record s { opened = fd ∷ s.opened })
    ]

abbrev pub at_least_1 : ℤ → ℕ
at_least_1 (pos (suc m)) = suc m
at_least_1 _ = 1

unfoldable pub mainloop_modify_timeout : Answers → ℤ → ℤ → Loop → Ret × Loop
unfolding mainloop_modify_fd
mainloop_modify_timeout a fd msec s =
    let s' : Loop = record s { calls = timeout_set fd (at_least_1 msec) ∷ s.calls } in
    if is_negative a.settime then (eio, s') else mainloop_modify_fd a fd 1 s'

abbrev pub mainloop_remove_timeout : Answers → ℤ → Loop → Ret × Loop
mainloop_remove_timeout a fd s = mainloop_remove_fd a fd s

-- `mainloop_init`, with the answer of epoll_create1.
abbrev pub mainloop_init : ℤ → Loop → Ret × Loop
mainloop_init epoll s = (
  value (if is_negative epoll then epoll else pos 0),
  record s { entries = []; free = []; terminate = false },
)

-- The blocks that are held after the nodes of a list have been freed.
abbrev pub free_all : List Ptr → List Ptr → Option (List Ptr)
free_all [] owned = some owned
free_all (p ∷ ps) owned =
    let rest = free_all ps (without p owned) in if elem p owned then rest else none

abbrev pub quitted : Loop → Option (List Ptr) → Option Loop
quitted s none = none
quitted s (some owned) = some (record s { terminate = true; owned = owned })

-- The list of free nodes stays as it is.
unfoldable pub mainloop_quit : Loop → Option Loop
mainloop_quit s = quitted s (free_all s.free s.owned)

-- The end of `mainloop_run`.
unfoldable pub tear_down : List Entry → Loop → Option Loop
tear_down [] s = some s
tear_down (d ∷ ds) s =
    let rest = tear_down ds (record s {
      opened = closed d.kind d.fd s.opened;
      owned = without d.at s.owned;
      calls = destroy_call d.destroy_callback d.user_data s.calls;
    }) in
    if elem d.at s.owned then rest else none

-- `mainloop_run`, with what one turn of `epoll_run` and the callbacks in it do. The turns are
-- counted: `none` is also a run that has not ended.
unfoldable pub mainloop_run : (Loop → Option Loop) → ℕ → Loop → Option Loop
unfolding tear_down
mainloop_run turn zero s = none
mainloop_run turn (suc fuel) s =
    if s.terminate
    then tear_down s.entries s
    else elim (turn s) [ none ↦ none | some t ↦ mainloop_run turn fuel t ]
