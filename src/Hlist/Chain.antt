-- ===== src/Hlist/Chain.antt =====
-- src/mglist.c: the list that a hash list's head stands for.
use mg_std.Base.{◌≡◌, refl, ◌∙◌, false, Option, some, List, [], ◌∷◌, ◌==◌, arith}
use mg_std.Hlist.{Ptr, Slot, first_of, next_of, same_slot, Store, put, put_pprev, relink}

abbrev pub NotIn : Ptr → List Ptr → Type 0
NotIn p [] = Unit
NotIn p (x ∷ xs) = ((p == x) ≡ false) × NotIn p xs

abbrev pub IsDistinct : List Ptr → Type 0
IsDistinct [] = Unit
IsDistinct (x ∷ xs) = NotIn x xs × IsDistinct xs

-- From the pointer `c` on, the nodes are `xs`, and each one's `pprev` points at the pointer that
-- points at it.
abbrev pub Chain : Store → Slot → List Ptr → Type 0
Chain s c [] = s.slot c ≡ 0
Chain s c (x ∷ xs) =
    (s.slot c ≡ x) × ((x == 0) ≡ false) × (s.pprev x ≡ some c) × Chain s (next_of x) xs

abbrev pub IsHlist : Store → Ptr → List Ptr → Type 0
IsHlist s h xs = Chain s (first_of h) xs × IsDistinct xs

-- The slot is no pointer of these nodes.
abbrev pub Off : Slot → List Ptr → Type 0
Off (first_of h) xs = Unit
Off (next_of y) xs = NotIn y xs

-- Two stores agree about nodes.
abbrev pub Agree : Store → Store → List Ptr → Type 0
Agree s t [] = Unit
Agree s t (x ∷ xs) =
    (t.slot (next_of x) ≡ s.slot (next_of x)) × (t.pprev x ≡ s.pprev x) × Agree s t xs

pub Chain-Agree :
    (s t : Store) (c : Slot) (xs : List Ptr)
    → t.slot c ≡ s.slot c
    → Agree s t xs
    → Chain s c xs
    → Chain t c xs
Chain-Agree s t c [] e g h = e ∙ h
Chain-Agree s t c (x ∷ xs) e (a, b, g) (r, ne, p, h) =
    (e ∙ r, ne, b ∙ p, Chain-Agree s t (next_of x) xs a g h)

pub Agree-trans : (s t u : Store) (xs : List Ptr) → Agree s t xs → Agree t u xs → Agree s u xs
Agree-trans s t u [] g h = tt
Agree-trans s t u (x ∷ xs) (a, b, g) (a', b', h) = (a' ∙ a, b' ∙ b, Agree-trans s t u xs g h)

pub Off-head :
    (c : Slot) (x : Ptr) (xs : List Ptr) → Off c (x ∷ xs) → same_slot c (next_of x) ≡ false
Off-head (first_of h) x xs o = refl
Off-head (next_of y) x xs o = o.0

pub Off-tail : (c : Slot) (x : Ptr) (xs : List Ptr) → Off c (x ∷ xs) → Off c xs
Off-tail (first_of h) x xs o = tt
Off-tail (next_of y) x xs o = o.1

pub slot-put_other :
    (s : Store) (c d : Slot) (v : Ptr) → same_slot c d ≡ false → (put c v s).slot d ≡ s.slot d
slot-put_other s c d v h = rw h refl

pub slot-put : (s : Store) (c : Slot) (v : Ptr) → (put c v s).slot c ≡ v
slot-put s (first_of h) v = ground arith
slot-put s (next_of n) v = ground arith

pub pprev-put_other :
    (s : Store) (n m : Ptr) (v : Option Slot)
    → (n == m) ≡ false
    → (put_pprev n v s).pprev m ≡ s.pprev m
pprev-put_other s n m v h = rw h refl

pub Agree-put : (s : Store) (c : Slot) (v : Ptr) (xs : List Ptr) → Off c xs → Agree s (put c v s) xs
Agree-put s c v [] o = tt
Agree-put s c v (x ∷ xs) o = (
  slot-put_other s c (next_of x) v (Off-head c x xs o),
  refl,
  Agree-put s c v xs (Off-tail c x xs o),
)

pub Agree-put_pprev :
    (s : Store) (n : Ptr) (v : Option Slot) (xs : List Ptr)
    → NotIn n xs
    → Agree s (put_pprev n v s) xs
Agree-put_pprev s n v [] o = tt
Agree-put_pprev s n v (x ∷ xs) (ne, o) =
    (refl, pprev-put_other s n x v ne, Agree-put_pprev s n v xs o)

-- A pointer that `relink` follows.
pub relink-null : (s : Store) (p : Ptr) (c : Slot) → p ≡ 0 → relink p c s ≡ s
relink-null s p c h = ground arith

pub relink-some :
    (s : Store) (p : Ptr) (c : Slot) → (p == 0) ≡ false → relink p c s ≡ put_pprev p (some c) s
relink-some s p c h = rw h refl
