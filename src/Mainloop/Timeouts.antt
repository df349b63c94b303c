-- ===== src/Mainloop/Timeouts.antt =====
-- src/mainloop.c: the leaks of `mainloop_add_timeout`, and the time that timers are set to.
use mg_std.Base.{
  tally, on_if, ℕ, zero, suc, ◌+◌, ◌*◌, ◌/◌, ◌%◌, ◌-◌, ◌^◌, ◌<◌, ◌≡◌, refl, ℤ, pos, negsuc, true,
  false, Option, none, some, List, [], ◌∷◌, ◌==◌, arith,
}
use mg_std.Mainloop.{
  Ptr, Call, timerfd_settime, Loop, Answers, Ret, enomem, value, is_negative, Taken, no_memory, got,
  take_node, timer_entered, timer_created, mainloop_add_timeout, timeout_set,
}
use mg_std.Mainloop.Tally.{addresses, timers, tally-without}
use mg_std.Mainloop.Keeps.{IsLoop, Answered, Apart, HasNode, take_node-HasNode, take_node-Apart}

-- The call that fails: malloc of a node, or epoll_ctl.
pub data Failure : Type 0 where
  no_block : Failure
  no_epoll : Failure

abbrev pub Fails : Failure → Answers → Loop → Type 0
Fails no_block a s = (s.free ≡ []) × (a.malloc ≡ 0)
Fails no_epoll a s = ((a.malloc == 0) ≡ false) × (is_negative a.ctl ≡ true)

-- What is left of each failure, from the result and the state: a descriptor that is open although no
-- entry has it, the blocks being all in a list; or a block that is in neither list, the descriptor
-- being closed.
abbrev pub Leaks : Failure → ℕ → ℤ → Loop → Option (Ret × Loop) → Type 0
Leaks no_block fd code s (some (enomem, t)) =
    (t.entries ≡ s.entries)
    × (tally fd t.opened ≡ suc (tally fd (timers t.entries)))
    × ((p : Ptr) → tally p (addresses t.entries) + tally p t.free ≡ tally p t.owned)
Leaks no_epoll fd code s (some (value c, t)) =
    (c ≡ code)
    × (t.entries ≡ s.entries)
    × (tally fd t.opened ≡ tally fd (timers t.entries))
    × ((p : Ptr) × (tally p t.owned ≡ suc (tally p (addresses t.entries) + tally p t.free)))
Leaks why fd code s o = ⊥

module _ (a : Answers) (fd : ℕ) (callback destroy user : Ptr) (s : Loop) (v : IsLoop s)
    (fresh : tally fd s.opened ≡ 0) where
  timer_entered-Leaks_timer :
      (calls : List Call) (o : Option Taken)
      → o ≡ some no_memory
      → Leaks no_block fd a.ctl s (
          timer_entered a fd callback destroy user
            (record s { opened = fd ∷ s.opened; calls = calls })
            o)
  timer_entered-Leaks_timer calls o e = rw e (refl, ground (arith, v.2 fd), v.0)

  timer_entered-Leaks_node :
      (calls : List Call) (o : Option Taken)
      → HasNode o
      → Apart s o
      → is_negative a.ctl ≡ true
      → Leaks no_epoll fd a.ctl s (
          timer_entered a fd callback destroy user
            (record s { opened = fd ∷ s.opened; calls = calls })
            o)
  timer_entered-Leaks_node calls none n h neg = absurd h
  timer_entered-Leaks_node calls (some no_memory) n h neg = absurd n
  timer_entered-Leaks_node calls (some (got p free owned)) n (e, l) neg =
      on_if (Leaks no_epoll fd a.ctl s) (is_negative a.ctl)
        (λ q. (
          refl,
          refl,
          ground (arith, tally-without fd fd (fd ∷ s.opened), v.2 fd, fresh),
          (p, ground (arith, e p)),
        ))
        (λ q. absurd (ground arith))

  -- What holds of the call if it holds of its last part.
  created_case :
      (P : Option (Ret × Loop) → Type 0) (msec : ℤ)
      → is_negative a.settime ≡ false
      → ((calls : List Call)
          → P (
              timer_entered a fd callback destroy user
                (record s { opened = fd ∷ s.opened; calls = calls })
                (take_node s.free s.owned a.malloc)))
      → P (timer_created a fd msec callback destroy user (record s { opened = fd ∷ s.opened }))
  created_case P (pos (suc m)) set h =
      on_if P (is_negative a.settime) (λ q. absurd (ground arith)) (λ q. h _)
  created_case P (pos zero) set h = h s.calls
  created_case P (negsuc n) set h = h s.calls

-- A `mainloop_add_timeout` with a callback, whose timer has been created and set, leaks if it fails,
-- and enters nothing: if no node is free and malloc fails, it returns ENOMEM, the timer's descriptor
-- stays open without an entry, and every block that is held is in a list; if malloc gives a block and
-- epoll_ctl fails, it returns the answer of epoll_ctl, the descriptor is closed, and a node stays
-- allocated in neither list.
pub mainloop_add_timeout-Leaks :
    (why : Failure) (a : Answers) (fd : ℕ) (msec : ℤ) (callback destroy user : Ptr) (s : Loop)
    → IsLoop s
    → Answered a s
    → (callback == 0) ≡ false
    → a.timerfd ≡ pos fd
    → is_negative a.settime ≡ false
    → Fails why a s
    → Leaks why fd a.ctl s (mainloop_add_timeout a msec callback destroy user s)
unfolding mainloop_add_timeout
mainloop_add_timeout-Leaks why a fd msec callback destroy user s v (new, unopened) given created set
      fails =
    on_if (Leaks why fd a.ctl s) (callback == 0) (λ q. absurd (ground arith))
      (λ q. rw created (
        created_case a fd callback destroy user s v fresh (Leaks why fd a.ctl s) msec set
          (λ calls. last why calls fails)))
  where
    fresh : tally fd s.opened ≡ 0
    fresh = unopened fd created

    last :
        (why : Failure) (calls : List Call)
        → Fails why a s
        → Leaks why fd a.ctl s (
            timer_entered a fd callback destroy user
              (record s { opened = fd ∷ s.opened; calls = calls })
              (take_node s.free s.owned a.malloc))
    last no_block calls (empty, null) =
        timer_entered-Leaks_timer a fd callback destroy user s v fresh calls
          (take_node s.free s.owned a.malloc) (rw (empty, null) refl)
    last no_epoll calls (block, neg) =
        timer_entered-Leaks_node a fd callback destroy user s v fresh calls
          (take_node s.free s.owned a.malloc) (take_node-HasNode s.free s.owned a.malloc block)
          (take_node-Apart a s v new) neg

-- `timeout_set` splits its argument exactly: the nanoseconds are below 10^9.
pub timeout_set-exact :
    (fd : ℤ) (msec : ℕ)
    → msec < 2 ^ 32
    → (sec : ℕ) × (nsec : ℕ) × (timeout_set fd msec ≡ timerfd_settime fd sec nsec)
      × (nsec < 10 ^ 9)
      × (sec * 10 ^ 9 + nsec ≡ msec * 10 ^ 6)
unfolding timeout_set
timeout_set-exact fd msec h = (
  msec / 1000,
  (msec - msec / 1000 * 1000) * 1000 % 2 ^ 32 * 1000 % 2 ^ 32,
  refl,
  omega arith,
  omega arith,
)
