-- ===== src/Mainloop/Keeps.antt =====
-- src/mainloop.c: what every call of the event loop keeps.
use mg_std.Base.{
  one_if, tally, on_if, ℕ, zero, suc, ◌+◌, ◌≤◌, ◌≡◌, refl, sym, ap, ◌∙◌, ◌⊎◌, inl, inr, ℤ, pos,
  negsuc, false, Option, none, some, List, [], ◌∷◌, ◌==◌, arith, Bool-cases,
}
use mg_std.Mainloop.{
  Ptr, Call, Entry, Loop, Answers, Ret, is_negative, elem, without, Taken, no_memory, got,
  take_node, entered, mainloop_add_fd, mainloop_modify_fd, cut_out, retired, mainloop_remove_fd,
  timer_entered, timer_created, mainloop_add_timeout, mainloop_modify_timeout,
  mainloop_remove_timeout,
}
use mg_std.Mainloop.Tally.{
  addresses, timers, tally-elem, tally-without, Cut, Cut-cut_out, tally-closed, tally-closed_le,
}

-- The blocks that are held are those of the entries and of the free nodes, each once, and the open
-- timer descriptors are those of the timers among the entries, each once.
abbrev pub IsLoop : Loop → Type 0
IsLoop s =
    ((p : Ptr) → tally p (addresses s.entries) + tally p s.free ≡ tally p s.owned)
    × ((p : Ptr) → tally p s.owned ≤ 1)
    × ((fd : ℕ) → tally fd (timers s.entries) ≡ tally fd s.opened)
    × ((fd : ℕ) → tally fd s.opened ≤ 1)

-- malloc returns NULL or a block that is not held, and timerfd_create a descriptor that is not open.
abbrev pub Answered : Answers → Loop → Type 0
Answered a s =
    (tally a.malloc s.owned ≡ 0) × ((fd : ℕ) → a.timerfd ≡ pos fd → tally fd s.opened ≡ 0)

-- What holds of a node that is taken: it is held, and in neither list.
abbrev pub Apart : Loop → Option Taken → Type 0
Apart s none = ⊥
Apart s (some no_memory) = Unit
Apart s (some (got p free owned)) =
    ((q : Ptr) → one_if (q == p) + tally q (addresses s.entries) + tally q free ≡ tally q owned)
    × ((q : Ptr) → tally q owned ≤ 1)

pub take_node-Apart :
    (a : Answers) (s : Loop)
    → IsLoop s
    → tally a.malloc s.owned ≡ 0
    → Apart s (take_node s.free s.owned a.malloc)
take_node-Apart a s v new = go s.free v.0
  where
    go :
        (free : List Ptr)
        → ((p : Ptr) → tally p (addresses s.entries) + tally p free ≡ tally p s.owned)
        → Apart s (take_node free s.owned a.malloc)
    go [] e =
        on_if (Apart s) (a.malloc == 0) (λ null. tt)
          (λ block. (
            λ q. omega (arith, e q),
            λ q. elim (Bool-cases (q == a.malloc)) [
              | inl same ↦ ground (arith, v.1 q, new)
              | inr differ ↦ ground (arith, v.1 q)
            ],
          ))
    go (p ∷ ps) e =
        on_if (Apart s) (elem p s.owned) (λ held. (λ q. omega (arith, e q), v.1))
          (λ freed. absurd (ground (arith, tally-elem p s.owned (ground (arith, e p)))))

-- A call that ends without an access to freed memory, and keeps the loop in order.
abbrev pub Keeps : Option (Ret × Loop) → Type 0
Keeps none = ⊥
Keeps (some (r, t)) = IsLoop t

mainloop_add_fd-Keeps :
    (a : Answers) (fd : ℤ) (events : ℕ) (callback destroy user : Ptr) (s : Loop)
    → IsLoop s
    → tally a.malloc s.owned ≡ 0
    → Keeps (mainloop_add_fd a fd events callback destroy user s)
unfolding mainloop_add_fd
mainloop_add_fd-Keeps a (negsuc n) events callback destroy user s v new = v
mainloop_add_fd-Keeps a (pos fd) events callback destroy user s v new =
    on_if Keeps (callback == 0) (λ null. v)
      (λ given. go (take_node s.free s.owned a.malloc) (take_node-Apart a s v new))
  where
    go : (o : Option Taken) → Apart s o → Keeps (entered a fd events callback destroy user s o)
    go none h = absurd h
    go (some no_memory) h = v
    go (some (got p free owned)) (e, l) = (e, l, v.2, v.3)

mainloop_modify_fd-IsLoop :
    (a : Answers) (fd : ℤ) (events : ℕ) (s : Loop)
    → IsLoop s
    → IsLoop ((mainloop_modify_fd a fd events s).1)
unfolding mainloop_modify_fd
mainloop_modify_fd-IsLoop a (negsuc n) events s v = v
mainloop_modify_fd-IsLoop a (pos fd) events s v =
    on_if (λ (x : Ret × Loop). IsLoop (x.1)) (elem fd _) (λ yes. v) (λ no. v)

mainloop_remove_fd-IsLoop :
    (a : Answers) (fd : ℤ) (s : Loop) → IsLoop s → IsLoop ((mainloop_remove_fd a fd s).1)
unfolding mainloop_remove_fd
mainloop_remove_fd-IsLoop a (negsuc n) s v = v
mainloop_remove_fd-IsLoop a (pos fd) s v = go (cut_out fd s.entries) (Cut-cut_out fd s.entries)
  where
    go : (o : Option (Entry × List Entry)) → Cut s.entries o → IsLoop ((retired a s o).1)
    go none c = v
    go (some (d, ds)) (at, time) = (
      λ p. omega (arith, v.0 p, at p),
      v.1,
      λ x. tally-closed x d.fd d.kind (timers ds) s.opened (sym (time x) ∙ v.2 x) (v.3 x),
      λ x. tally-closed_le x d.fd d.kind s.opened (v.3 x),
    )

mainloop_modify_timeout-IsLoop :
    (a : Answers) (fd msec : ℤ) (s : Loop)
    → IsLoop s
    → IsLoop ((mainloop_modify_timeout a fd msec s).1)
unfolding mainloop_modify_timeout
mainloop_modify_timeout-IsLoop a fd msec s v =
    on_if (λ (x : Ret × Loop). IsLoop (x.1)) (is_negative a.settime) (λ yes. v)
      (λ no. mainloop_modify_fd-IsLoop a fd 1 (record s { calls = _ }) v)

abbrev pub HasNode : Option Taken → Type 0
HasNode none = Unit
HasNode (some no_memory) = ⊥
HasNode (some (got p free owned)) = Unit

pub take_node-HasNode :
    (free owned : List Ptr) (m : Ptr) → (m == 0) ≡ false → HasNode (take_node free owned m)
take_node-HasNode [] owned m block =
    on_if HasNode (m == 0) (λ null. absurd (ground arith)) (λ yes. tt)
take_node-HasNode (p ∷ ps) owned m block = on_if HasNode (elem p owned) (λ held. tt) (λ freed. tt)

-- A timer is added without a leak if malloc gives a block and epoll takes the descriptor.
module _ (a : Answers) (fd : ℕ) (callback destroy user : Ptr) (s : Loop) (v : IsLoop s)
    (fresh : tally fd s.opened ≡ 0) (block : (a.malloc == 0) ≡ false)
    (taken : is_negative a.ctl ≡ false) where
  opens : (x : ℕ) → tally x (fd ∷ s.opened) ≤ 1
  opens x = elim (Bool-cases (x == fd)) [
    | inl same ↦ ground (arith, v.3 x, fresh)
    | inr differ ↦ ground (arith, v.3 x)
  ]

  timer_entered-Keeps :
      (calls : List Call) (o : Option Taken)
      → HasNode o
      → Apart s o
      → Keeps (
          timer_entered a fd callback destroy user
            (record s { opened = fd ∷ s.opened; calls = calls })
            o)
  timer_entered-Keeps calls none n h = absurd h
  timer_entered-Keeps calls (some no_memory) n h = absurd n
  timer_entered-Keeps calls (some (got p free owned)) n (e, l) =
      on_if Keeps (is_negative a.ctl) (λ q. absurd (ground arith))
        (λ q. (e, l, (λ x. ap (λ k. one_if (x == fd) + k) (v.2 x)), opens))

  reopened : (x : ℕ) → tally x s.opened ≡ tally x (without fd (fd ∷ s.opened))
  reopened x = elim (Bool-cases (x == fd)) [
    | inl same ↦ ground (arith, tally-without x fd (fd ∷ s.opened), fresh)
    | inr differ ↦ ground (arith, tally-without x fd (fd ∷ s.opened))
  ]

  timer_created-Keeps :
      (msec : ℤ)
      → tally a.malloc s.owned ≡ 0
      → Keeps (timer_created a fd msec callback destroy user (record s { opened = fd ∷ s.opened }))
  timer_created-Keeps (pos (suc m)) new =
      on_if Keeps (is_negative a.settime)
        (λ failed.
          (v.0, v.1, (λ x. v.2 x ∙ reopened x), λ x. omega (arith, sym (reopened x), v.3 x)))
        (λ set.
          timer_entered-Keeps _ (take_node s.free s.owned a.malloc)
            (take_node-HasNode s.free s.owned a.malloc block) (take_node-Apart a s v new))
  timer_created-Keeps (pos zero) new =
      timer_entered-Keeps s.calls (take_node s.free s.owned a.malloc)
        (take_node-HasNode s.free s.owned a.malloc block) (take_node-Apart a s v new)
  timer_created-Keeps (negsuc n) new =
      timer_entered-Keeps s.calls (take_node s.free s.owned a.malloc)
        (take_node-HasNode s.free s.owned a.malloc block) (take_node-Apart a s v new)

integers : (i : ℤ) → ((n : ℕ) × (i ≡ pos n)) ⊎ ((n : ℕ) × (i ≡ negsuc n))
integers (pos n) = inl (n, refl)
integers (negsuc n) = inr (n, refl)

mainloop_add_timeout-Keeps :
    (a : Answers) (msec : ℤ) (callback destroy user : Ptr) (s : Loop)
    → IsLoop s
    → Answered a s
    → (a.malloc == 0) ≡ false
    → is_negative a.ctl ≡ false
    → Keeps (mainloop_add_timeout a msec callback destroy user s)
unfolding mainloop_add_timeout
mainloop_add_timeout-Keeps a msec callback destroy user s v (new, fresh) block taken =
    on_if Keeps (callback == 0) (λ null. v)
      (λ given. elim (integers a.timerfd) [
        | inl (fd, e) ↦
            rw e
              (timer_created-Keeps a fd callback destroy user s v (fresh fd e) block taken msec new)
        | inr (n, e) ↦ rw e v
      ])

-- The functions of the interface, but for the start and the end.
pub data Request : Type 0 where
  add_fd : ℤ → ℕ → Ptr → Ptr → Ptr → Request
  modify_fd : ℤ → ℕ → Request
  remove_fd : ℤ → Request
  add_timeout : ℤ → Ptr → Ptr → Ptr → Request
  modify_timeout : ℤ → ℤ → Request
  remove_timeout : ℤ → Request

abbrev pub perform : Answers → Request → Loop → Option (Ret × Loop)
perform a (add_fd fd events callback destroy user) s =
    mainloop_add_fd a fd events callback destroy user s
perform a (modify_fd fd events) s = some (mainloop_modify_fd a fd events s)
perform a (remove_fd fd) s = some (mainloop_remove_fd a fd s)
perform a (add_timeout msec callback destroy user) s =
    mainloop_add_timeout a msec callback destroy user s
perform a (modify_timeout fd msec) s = some (mainloop_modify_timeout a fd msec s)
perform a (remove_timeout fd) s = some (mainloop_remove_timeout a fd s)

-- The two failures of `mainloop_add_timeout` that leak are left out.
abbrev pub Succeeds : Answers → Request → Type 0
Succeeds a (add_timeout msec callback destroy user) =
    ((a.malloc == 0) ≡ false) × (is_negative a.ctl ≡ false)
Succeeds a _ = Unit

-- Every function of the interface, in a loop that is in order, ends without an access to freed
-- memory and leaves a loop in order, whatever the system answers, but for a failing malloc or
-- epoll_ctl in `mainloop_add_timeout`.
pub perform-Keeps :
    (a : Answers) (q : Request) (s : Loop)
    → IsLoop s
    → Answered a s
    → Succeeds a q
    → Keeps (perform a q s)
perform-Keeps a (add_fd fd events callback destroy user) s v answered ok =
    mainloop_add_fd-Keeps a fd events callback destroy user s v answered.0
perform-Keeps a (modify_fd fd events) s v answered ok = mainloop_modify_fd-IsLoop a fd events s v
perform-Keeps a (remove_fd fd) s v answered ok = mainloop_remove_fd-IsLoop a fd s v
perform-Keeps a (add_timeout msec callback destroy user) s v answered ok =
    mainloop_add_timeout-Keeps a msec callback destroy user s v answered ok.0 ok.1
perform-Keeps a (modify_timeout fd msec) s v answered ok =
    mainloop_modify_timeout-IsLoop a fd msec s v
perform-Keeps a (remove_timeout fd) s v answered ok = mainloop_remove_fd-IsLoop a fd s v
