-- ===== src/Bintree/Walk.antt =====
-- The ends of a list of nodes, and a visit to each node in turn.
use mg_std.Base.{◌≡◌, refl, Option, none, some, List, [], ◌∷◌, ◌++◌}
use mg_std.Bintree.{Ptr}

abbrev pub first : List Ptr → Option Ptr
first [] = none
first (x ∷ xs) = some x

abbrev pub last : List Ptr → Option Ptr
last [] = none
last (x ∷ []) = some x
last (x ∷ (y ∷ ys)) = last (y ∷ ys)

abbrev pub run : {S : Type 0} → (Ptr → S → S) → List Ptr → S → S
run visit [] s = s
run visit (x ∷ xs) s = run visit xs (visit x s)

pub first-append :
    (xs ys zs : List Ptr) (y : Ptr) → first ((xs ++ (y ∷ ys)) ++ zs) ≡ first (xs ++ (y ∷ ys))
first-append [] ys zs y = refl
first-append (x ∷ xs) ys zs y = refl

pub last-append : (xs ys : List Ptr) (y : Ptr) → last (xs ++ (y ∷ ys)) ≡ last (y ∷ ys)
last-append [] ys y = refl
last-append (x ∷ []) ys y = refl
last-append (x ∷ (z ∷ xs)) ys y = last-append (z ∷ xs) ys y

-- The last node of a list that a second one follows.
pub last_behind :
    (xs ys zs : List Ptr) (y n : Ptr) → last (xs ++ (n ∷ (ys ++ (y ∷ zs)))) ≡ last (ys ++ (y ∷ zs))
last_behind xs [] zs y n = last-append xs (y ∷ zs) n
last_behind xs (z ∷ ys) zs y n = last-append xs (z ∷ (ys ++ (y ∷ zs))) n

pub run-append :
    {S : Type 0} (visit : Ptr → S → S) (xs ys : List Ptr) (s : S)
    → run visit (xs ++ ys) s ≡ run visit ys (run visit xs s)
run-append visit [] ys s = refl
run-append visit (x ∷ xs) ys s = run-append visit xs ys (visit x s)
