-- ===== src/Mainloop/Tests.antt =====
-- src/mainloop.c: a loop with one timer and one free node.
use mg_std.Base.{
  tally, ℕ, ◌+◌, ◌*◌, ◌^◌, ◌<◌, ◌≡◌, refl, pos, negsuc, false, none, some, [], ◌∷◌, arith,
}
use mg_std.Mainloop.{
  epoll_add, epoll_remove, destroyed, added_interest, timerfd_settime, timer, Loop, Answers, value,
  mainloop_add_fd, mainloop_add_timeout, mainloop_remove_fd, mainloop_quit, timeout_set,
}
use mg_std.Mainloop.Keeps.{IsLoop, Answered, Keeps, add_timeout, remove_fd, perform, perform-Keeps}
use mg_std.Mainloop.Session.{
  Reaches, here, call, start, Released, quit_and_end, session-Released, quit_leaves_freed,
}
use mg_std.Mainloop.Timeouts.{no_epoll, Leaks, mainloop_add_timeout-Leaks, timeout_set-exact}

-- malloc gives the block 8, and timerfd_create the descriptor 5.
abbrev answers : Answers
answers = record { malloc = 8; timerfd = pos 5; settime = pos 0; ctl = pos 0 }

abbrev one_timer : Loop
one_timer = record {
  entries =
      record { at = 8; fd = 5; kind = timer; callback = 1; destroy_callback = 2; user_data = 3 }
      ∷ [];
  free = [];
  terminate = false;
  owned = 8 ∷ [];
  opened = 5 ∷ [];
  calls = [];
}

-- It has been removed.
abbrev one_free : Loop
one_free = record {
  entries = [];
  free = 8 ∷ [];
  terminate = false;
  owned = 8 ∷ [];
  opened = [];
  calls = [];
}

added_test :
    (t : Loop) × (mainloop_add_timeout answers (pos 1500) 1 2 3 start ≡ some (value (pos 5), t))
    × (t.entries ≡ one_timer.entries)
    × (t.owned ≡ 8 ∷ [])
    × (t.opened ≡ 5 ∷ [])
unfolding mainloop_add_timeout timeout_set
added_test = (_, refl, refl, refl, refl)

start-IsLoop : IsLoop start
start-IsLoop = ((λ p. omega arith), (λ p. omega arith), (λ x. refl), λ x. omega arith)

abbrev empty_Answered : Answered answers start
empty_Answered = (refl, λ fd e. refl)

one_free-IsLoop : IsLoop one_free
one_free-IsLoop = ((λ p. omega arith), (λ p. ground arith), (λ x. refl), λ x. omega arith)

perform-Keeps_example : Keeps (perform answers (add_timeout (pos 1500) 1 2 3) start)
perform-Keeps_example =
    perform-Keeps answers (add_timeout (pos 1500) 1 2 3) start start-IsLoop empty_Answered
      (refl, refl)

-- A timer is added and removed.
abbrev later_answers : Answers
later_answers = record { malloc = 16; timerfd = pos 6; settime = pos 0; ctl = pos 0 }

abbrev with_timer : Loop
with_timer = record one_timer {
  calls = epoll_add 5 (added_interest 1 timer) ∷ (timeout_set (pos 5) 1500 ∷ []);
}

abbrev without_timer : Loop
without_timer = record one_free { calls = destroyed 2 3 ∷ (epoll_remove 5 ∷ with_timer.calls) }

session : Reaches start without_timer
unfolding mainloop_add_timeout mainloop_remove_fd
session =
    call answers (add_timeout (pos 1500) 1 2 3) (value (pos 5)) start with_timer without_timer
      empty_Answered (refl, refl) refl
      (call later_answers (remove_fd (pos 5)) (value (pos 0)) with_timer without_timer without_timer
        (refl, λ fd e. timer_differs fd e) tt refl (here without_timer))
  where
    timer_differs : (fd : ℕ) → pos 6 ≡ pos fd → tally fd (5 ∷ []) ≡ 0
    timer_differs fd e = ground (arith, e)

session-Released_example : Released (quit_and_end (λ s. some s) 3 without_timer)
session-Released_example = session-Released (pos 3) (λ s. some s) 3 without_timer session

quit_leaves_freed_example :
    (t : Loop) × (mainloop_quit one_free ≡ some t)
    × (mainloop_add_fd answers (pos 7) 1 1 0 0 t ≡ none)
    × (mainloop_quit t ≡ none)
quit_leaves_freed_example =
    quit_leaves_freed answers 7 1 1 0 0 one_free one_free-IsLoop (λ e. absurd (ground (arith, e)))
      refl

-- epoll_ctl fails.
abbrev refusing : Answers
refusing = record { malloc = 8; timerfd = pos 5; settime = pos 0; ctl = negsuc 0 }

mainloop_add_timeout-Leaks_example :
    Leaks no_epoll 5 refusing.ctl start (mainloop_add_timeout refusing (pos 20) 1 0 0 start)
mainloop_add_timeout-Leaks_example =
    mainloop_add_timeout-Leaks no_epoll refusing 5 (pos 20) 1 0 0 start start-IsLoop
      (refl, λ fd e. refl) refl refl refl (refl, refl)

timeout_set-exact_example :
    (sec : ℕ) × (nsec : ℕ) × (timeout_set (pos 5) 1500 ≡ timerfd_settime (pos 5) sec nsec)
    × (nsec < 10 ^ 9)
    × (sec * 10 ^ 9 + nsec ≡ 1500 * 10 ^ 6)
timeout_set-exact_example = timeout_set-exact (pos 5) 1500 (omega arith)
