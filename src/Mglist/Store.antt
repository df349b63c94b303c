-- ===== src/Mglist/Store.antt =====
-- The store that src/mglist.c works on: list heads at addresses, each with the two pointers of
-- `struct mglist_head`. Address 0 is NULL; reading or writing through an address that is not live
-- is a fault, `none`.
use mg_std.Base.{ℕ, ◌≡◌, ap, Bool, true, Option, none, some, ◌==◌, if◌then◌else◌}

abbrev pub Ptr : Type 0
Ptr = ℕ

abbrev pub null : Ptr
null = 0

pub record Store : Type 0 where
  pub live : Ptr → Bool
  pub next : Ptr → Ptr
  pub prev : Ptr → Ptr

abbrev pub Cmd : Type 0 → Type 0
Cmd A = Store → Option (A × Store)

abbrev pub pure : {A : Type 0} → A → Cmd A
pure a s = some (a, s)

module _ {A B : Type 0} where
  abbrev pub and_then : Option (A × Store) → (A → Cmd B) → Option (B × Store)
  and_then none k = none
  and_then (some (a, s)) k = k a s

  infixl 5 ◌>>=◌ ◌>>◌
  abbrev pub ◌>>=◌ : Cmd A → (A → Cmd B) → Cmd B
  m >>= k = λ s. and_then (m s) k

  abbrev pub ◌>>◌ : Cmd A → Cmd B → Cmd B
  m >> n = m >>= λ _. n

-- The store after a write.
abbrev pub put_next : Store → Ptr → Ptr → Store
put_next s p v = record s { next = λ a. if a == p then v else s.next a }

abbrev pub put_prev : Store → Ptr → Ptr → Store
put_prev s p v = record s { prev = λ a. if a == p then v else s.prev a }

-- `p->next`, `p->prev`, `p->next = v` and `p->prev = v`.
unfoldable pub get_next : Ptr → Cmd Ptr
get_next p s = if s.live p then some (s.next p, s) else none

unfoldable pub get_prev : Ptr → Cmd Ptr
get_prev p s = if s.live p then some (s.prev p, s) else none

unfoldable pub set_next : Ptr → Ptr → Cmd (Unit {0})
set_next p v s = if s.live p then some (tt, put_next s p v) else none

unfoldable pub set_prev : Ptr → Ptr → Cmd (Unit {0})
set_prev p v s = if s.live p then some (tt, put_prev s p v) else none

-- Each access through a live address succeeds.
module _ (s : Store) {p : Ptr} (l : s.live p ≡ true) where
  pub get_next-eq : get_next p s ≡ some (s.next p, s)
  unfolding get_next
  get_next-eq = rw l

  pub get_prev-eq : get_prev p s ≡ some (s.prev p, s)
  unfolding get_prev
  get_prev-eq = rw l

  pub set_next-eq : (v : Ptr) → set_next p v s ≡ some (tt, put_next s p v)
  unfolding set_next
  set_next-eq v = rw l

  pub set_prev-eq : (v : Ptr) → set_prev p v s ≡ some (tt, put_prev s p v)
  unfolding set_prev
  set_prev-eq v = rw l

  -- ... and a command goes on from the store it leaves.
  module _ {B : Type 0} where
    pub get_next-then : (k : Ptr → Cmd B) → (get_next p >>= k) s ≡ k (s.next p) s
    get_next-then k = ap (λ r. and_then r k) get_next-eq

    pub get_prev-then : (k : Ptr → Cmd B) → (get_prev p >>= k) s ≡ k (s.prev p) s
    get_prev-then k = ap (λ r. and_then r k) get_prev-eq

    pub set_next-then : (v : Ptr) (k : Cmd B) → (set_next p v >> k) s ≡ k (put_next s p v)
    set_next-then v k = ap (λ r. and_then r (λ _. k)) (set_next-eq v)

    pub set_prev-then : (v : Ptr) (k : Cmd B) → (set_prev p v >> k) s ≡ k (put_prev s p v)
    set_prev-then v k = ap (λ r. and_then r (λ _. k)) (set_prev-eq v)
