-- ===== src/Mainloop/Tally.antt =====
-- src/mainloop.c: how often an address or a descriptor stands in a list.
use mg_std.Base.{
  ℕ, ◌+◌, ◌≤◌, ◌≡◌, refl, inl, inr, Bool, true, false, Option, none, some, List, [], ◌∷◌, ◌==◌,
  arith, if◌then◌else◌, Bool-cases, one_if, tally,
}
use mg_std.Mainloop.{Ptr, Kind, general, timer, Entry, elem, without, behind, cut_out, closed}

-- The addresses of the entries, and the descriptors of the timers among them.
abbrev pub addresses : List Entry → List Ptr
addresses [] = []
addresses (d ∷ ds) = d.at ∷ addresses ds

abbrev pub timer_first : Kind → ℕ → List ℕ → List ℕ
timer_first general fd ts = ts
timer_first timer fd ts = fd ∷ ts

abbrev pub timers : List Entry → List ℕ
timers [] = []
timers (d ∷ ds) = timer_first d.kind d.fd (timers ds)

one_if-same : (p : ℕ) → one_if (p == p) ≡ 1
one_if-same p = ground arith

pub tally-elem : (p : ℕ) (xs : List ℕ) → 1 ≤ tally p xs → elem p xs ≡ true
tally-elem p [] h = absurd (omega (arith, h))
tally-elem p (q ∷ qs) h = ground (arith, tally-elem p qs)

pub tally-without :
    (p q : ℕ) (xs : List ℕ) → tally p (without q xs) ≡ (if p == q then 0 else tally p xs)
tally-without p q [] = ground arith
tally-without p q (x ∷ xs) = ground (arith, tally-without p q xs)

-- The tallies of what is cut out and of the others.
abbrev pub Cut : List Entry → Option (Entry × List Entry) → Type 0
Cut ds none = Unit
Cut ds (some (e, es)) =
    ((p : Ptr) → tally p (addresses ds) ≡ one_if (p == e.at) + tally p (addresses es))
    × ((fd : ℕ) → tally fd (timers ds) ≡ tally fd (timer_first e.kind e.fd (timers es)))

tally-timer_first :
    (fd x : ℕ) (k : Kind) (ts : List ℕ)
    → tally fd (timer_first k x ts) ≡ tally fd (timer_first k x []) + tally fd ts
tally-timer_first fd x general ts = omega arith
tally-timer_first fd x timer ts = omega arith

Cut-behind :
    (d : Entry) (ds : List Entry) (o : Option (Entry × List Entry))
    → Cut ds o
    → Cut (d ∷ ds) (behind d o)
Cut-behind d ds none c = tt
Cut-behind d ds (some (e, es)) (at, time) = (
  λ p. omega (arith, at p),
  λ fd. omega (
    arith,
    time fd,
    tally-timer_first fd d.fd d.kind (timers ds),
    tally-timer_first fd d.fd d.kind (timers es),
    tally-timer_first fd e.fd e.kind (timer_first d.kind d.fd (timers es)),
    tally-timer_first fd e.fd e.kind (timers es),
  ),
)

pub Cut-cut_out : (fd : ℕ) (ds : List Entry) → Cut ds (cut_out fd ds)
Cut-cut_out fd [] = tt
Cut-cut_out fd (d ∷ ds) = go (d.fd == fd) (Cut-cut_out fd ds)
  where
    go :
        (b : Bool)
        → Cut ds (cut_out fd ds)
        → Cut (d ∷ ds) (if b then some (d, ds) else behind d (cut_out fd ds))
    go true c = (λ p. refl, λ x. refl)
    go false c = Cut-behind d ds (cut_out fd ds) c

-- Closing a timer of an entry that is cut out.
pub tally-closed :
    (fd x : ℕ) (k : Kind) (ts opened : List ℕ)
    → tally fd (timer_first k x ts) ≡ tally fd opened
    → tally fd opened ≤ 1
    → tally fd ts ≡ tally fd (closed k x opened)
tally-closed fd x general ts opened e l = e
tally-closed fd x timer ts opened e l = elim (Bool-cases (fd == x)) [
  | inl same ↦ ground (arith, tally-without fd x opened, e, l)
  | inr differ ↦ ground (arith, tally-without fd x opened, e, l)
]

pub tally-closed_le :
    (fd x : ℕ) (k : Kind) (opened : List ℕ) → tally fd opened ≤ 1 → tally fd (closed k x opened) ≤ 1
tally-closed_le fd x general opened l = l
tally-closed_le fd x timer opened l = ground (arith, tally-without fd x opened)
