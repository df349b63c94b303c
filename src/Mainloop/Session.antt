-- ===== src/Mainloop/Session.antt =====
-- src/mainloop.c: the event loop from `mainloop_init` to the end of `mainloop_run`.
use mg_std.Base.{
  one_if, tally, on_if, ℕ, suc, ◌+◌, ◌≤◌, ◌≡◌, ◌≢◌, refl, sym, ap, subst, ◌∙◌, inl, inr, ℤ, pos,
  true, false, Option, none, some, List, [], ◌∷◌, ◌==◌, arith, Bool-cases,
}
use mg_std.Mainloop.{
  Ptr, Entry, Loop, Answers, Ret, elem, without, closed, take_node, entered, mainloop_add_fd,
  mainloop_init, free_all, quitted, mainloop_quit, tear_down, mainloop_run, destroy_call,
}
use mg_std.Mainloop.Tally.{
  addresses, timers, tally-elem, tally-without, tally-closed, tally-closed_le,
}
use mg_std.Mainloop.Keeps.{IsLoop, Answered, Keeps, Request, perform, Succeeds, perform-Keeps}

-- A sequence of calls, each with what the system answers.
pub data Reaches : Loop → Loop → Type 0 where
  here : (s : Loop) → Reaches s s
  call :
      (a : Answers) (q : Request) (r : Ret) (s t u : Loop)
      → Answered a s
      → Succeeds a q
      → perform a q s ≡ some (r, t)
      → Reaches t u
      → Reaches s u

pub Reaches-IsLoop : (s t : Loop) → Reaches s t → IsLoop s → IsLoop t
Reaches-IsLoop _ _ (here s) v = v
Reaches-IsLoop _ _ (call a q r s t u answered ok e w) v =
    Reaches-IsLoop t u w (subst Keeps e (perform-Keeps a q s v answered ok))

-- The loop when a program starts.
abbrev pub start : Loop
start = record { entries = []; free = []; terminate = false; owned = []; opened = []; calls = [] }

init-IsLoop : (epoll : ℤ) → IsLoop ((mainloop_init epoll start).1)
init-IsLoop epoll = (λ p. omega arith, (λ p. omega arith), (λ x. refl), λ x. omega arith)

-- What is left when the blocks of a list have been freed.
abbrev Frees : (Ptr → ℕ) → Option (List Ptr) → Type 0
Frees rest none = ⊥
Frees rest (some owned) = (p : Ptr) → tally p owned ≡ rest p

free_all-Frees :
    (ps owned : List Ptr) (rest : Ptr → ℕ)
    → ((p : Ptr) → rest p + tally p ps ≡ tally p owned)
    → ((p : Ptr) → tally p owned ≤ 1)
    → Frees rest (free_all ps owned)
free_all-Frees [] owned rest e l = λ p. omega (arith, sym (e p))
free_all-Frees (q ∷ qs) owned rest e l =
    on_if (Frees rest) (elem q owned)
      (λ held.
        free_all-Frees qs (without q owned) rest
          (λ p. elim (Bool-cases (p == q)) [
            | inl same ↦ ground (arith, tally-without p q owned, e p, l p)
            | inr differ ↦ ground (arith, tally-without p q owned, e p)
          ])
          (λ p. ground (arith, tally-without p q owned, l p)))
      (λ freed. absurd (ground (arith, tally-elem q owned (ground (arith, e q)))))

-- Nothing is held any more.
abbrev pub Released : Option Loop → Type 0
Released none = ⊥
Released (some t) = ((p : Ptr) → tally p t.owned ≡ 0) × ((fd : ℕ) → tally fd t.opened ≡ 0)

tear_down-Released :
    (ds : List Entry) (s : Loop)
    → ((p : Ptr) → tally p (addresses ds) ≡ tally p s.owned)
    → ((p : Ptr) → tally p s.owned ≤ 1)
    → ((fd : ℕ) → tally fd (timers ds) ≡ tally fd s.opened)
    → ((fd : ℕ) → tally fd s.opened ≤ 1)
    → Released (tear_down ds s)
unfolding tear_down
tear_down-Released [] s e l time once = (λ p. sym (e p), λ fd. sym (time fd))
tear_down-Released (d ∷ ds) s e l time once =
    on_if Released (elem d.at s.owned)
      (λ held.
        tear_down-Released ds
          (record s {
            opened = closed d.kind d.fd s.opened;
            owned = without d.at s.owned;
            calls = destroy_call d.destroy_callback d.user_data s.calls;
          })
          (λ p. elim (Bool-cases (p == d.at)) [
            | inl same ↦ ground (arith, tally-without p d.at s.owned, e p, l p)
            | inr differ ↦ ground (arith, tally-without p d.at s.owned, e p)
          ])
          (λ p. ground (arith, tally-without p d.at s.owned, l p))
          (λ x. tally-closed x d.fd d.kind (timers ds) s.opened (time x) (once x))
          (λ x. tally-closed_le x d.fd d.kind s.opened (once x)))
      (λ freed. absurd (ground (arith, tally-elem d.at s.owned (ground (arith, e d.at)))))

-- `mainloop_quit`, and `mainloop_run` when it sees the flag.
abbrev pub quit_and_end : (Loop → Option Loop) → ℕ → Loop → Option Loop
quit_and_end turn fuel s = elim (mainloop_quit s) [
  | none ↦ none
  | some t ↦ mainloop_run turn (suc fuel) t
]

IsLoop-Released :
    (turn : Loop → Option Loop) (fuel : ℕ) (s : Loop)
    → IsLoop s
    → Released (quit_and_end turn fuel s)
unfolding mainloop_quit mainloop_run
IsLoop-Released turn fuel s (e, l, time, once) =
    go (free_all s.free s.owned)
      (free_all-Frees s.free s.owned (λ p. tally p (addresses s.entries)) e l)
  where
    go :
        (o : Option (List Ptr))
        → Frees (λ p. tally p (addresses s.entries)) o
        → Released (elim (quitted s o) [ none ↦ none | some t ↦ mainloop_run turn (suc fuel) t ])
    go none h = absurd h
    go (some owned) h =
        tear_down-Released s.entries (record s { terminate = true; owned = owned }) (λ p. sym (h p))
          (λ p. omega (arith, h p, e p, l p)) time once

-- After `mainloop_init` and any calls of the interface, with any answers but for a failing malloc or
-- epoll_ctl in `mainloop_add_timeout`, `mainloop_quit` and the end of `mainloop_run` free every
-- block once and close every timer descriptor.
pub session-Released :
    (epoll : ℤ) (turn : Loop → Option Loop) (fuel : ℕ) (s : Loop)
    → Reaches ((mainloop_init epoll start).1) s
    → Released (quit_and_end turn fuel s)
session-Released epoll turn fuel s w =
    IsLoop-Released turn fuel s
      (Reaches-IsLoop ((mainloop_init epoll start).1) s w (init-IsLoop epoll))

elem-tally : (p : ℕ) (xs : List ℕ) → tally p xs ≡ 0 → elem p xs ≡ false
elem-tally p [] h = refl
elem-tally p (q ∷ qs) h = ground (arith, elem-tally p qs)

Frees-some :
    (rest : Ptr → ℕ) (o : Option (List Ptr))
    → Frees rest o
    → (owned : List Ptr) × (o ≡ some owned) × ((p : Ptr) → tally p owned ≡ rest p)
Frees-some rest none h = absurd h
Frees-some rest (some owned) h = (owned, refl, h)

nonempty : (xs : List Ptr) → xs ≢ [] → (p : Ptr) × (ps : List Ptr) × (xs ≡ p ∷ ps)
nonempty [] ne = absurd (ne refl)
nonempty (p ∷ ps) ne = (p, ps, refl)

freed_node :
    (p m : Ptr) (ps owned : List Ptr)
    → tally p owned ≡ 0
    → (take_node (p ∷ ps) owned m ≡ none) × (free_all (p ∷ ps) owned ≡ none)
freed_node p m ps owned h = (
  on_if (λ o. o ≡ none) (elem p owned) (λ held. absurd (ground (arith, elem-tally p owned h)))
      (λ q. refl),
  on_if (λ o. o ≡ none) (elem p owned) (λ held. absurd (ground (arith, elem-tally p owned h)))
      (λ q. refl),
)

-- `mainloop_quit` leaves the freed nodes in the list of free nodes: if there was one, the next
-- `mainloop_add_fd` with a descriptor and a callback and the next `mainloop_quit` access freed
-- memory.
pub quit_leaves_freed :
    (a : Answers) (fd events : ℕ) (callback destroy user : Ptr) (s : Loop)
    → IsLoop s
    → s.free ≢ []
    → (callback == 0) ≡ false
    → (t : Loop) × (mainloop_quit s ≡ some t)
      × (mainloop_add_fd a (pos fd) events callback destroy user t ≡ none)
      × (mainloop_quit t ≡ none)
unfolding mainloop_quit mainloop_add_fd
quit_leaves_freed a fd events callback destroy user s (e, l, time, once) some_free given =
    let (owned, eq, h) =
      Frees-some (λ p. tally p (addresses s.entries)) (free_all s.free s.owned)
        (free_all-Frees s.free s.owned (λ p. tally p (addresses s.entries)) e l) in
    let (p, ps, at) = nonempty s.free some_free in
    let t : Loop = record s { terminate = true; owned = owned } in
    let first : tally p s.free ≡ one_if (p == p) + tally p ps = ap (tally p) at in
    let gone : tally p owned ≡ 0 = ground (arith, h p, e p, l p, first) in
    let (taken, again) = freed_node p a.malloc ps owned gone in
    (
      t,
      ap (quitted s) eq,
      on_if (λ o. o ≡ none) (callback == 0) (λ null. absurd (ground arith))
          (λ q.
            ap (entered a fd events callback destroy user t)
              (ap (λ f. take_node f owned a.malloc) at ∙ taken)),
      ap (quitted t) (ap (λ f. free_all f owned) at ∙ again),
    )
