-- ===== src/Mglist/Ring.antt =====
-- What a list head of src/mglist.c stands for: the ring of live, distinct nodes behind it, in order.
use mg_std.Base.{◌≡◌, ◌≢◌, refl, ◌∙◌, sym, ◌⊎◌, inl, inr, true, List, [], ◌∷◌, ◌++◌, arith}
use mg_std.Mglist.Store.{Ptr, Store, put_next, put_prev}

abbrev pub NotIn : Ptr → List Ptr → Type 0
NotIn p [] = Unit
NotIn p (x ∷ xs) = (p ≢ x) × NotIn p xs

abbrev pub Distinct : List Ptr → Type 0
Distinct [] = Unit
Distinct (x ∷ xs) = NotIn x xs × Distinct xs

abbrev pub AllLive : Store → List Ptr → Type 0
AllLive s [] = Unit
AllLive s (x ∷ xs) = (s.live x ≡ true) × AllLive s xs

-- `a` and `b` are neighbours.
abbrev pub Edge : Store → Ptr → Ptr → Type 0
Edge s a b = (s.next a ≡ b) × (s.prev b ≡ a)

-- The nodes `a ∷ xs` follow one another.
abbrev pub PathOf : Store → Ptr → List Ptr → Type 0
PathOf s a [] = Unit
PathOf s a (x ∷ xs) = Edge s a x × PathOf s x xs

abbrev pub last_of : Ptr → List Ptr → Ptr
last_of a [] = a
last_of a (x ∷ xs) = last_of x xs

pub record Ring (s : Store) (head : Ptr) (xs : List Ptr) : Type 0 where
  pub path : PathOf s head xs
  pub closes : Edge s (last_of head xs) head
  pub distinct : Distinct (head ∷ xs)
  pub live : AllLive s (head ∷ xs)

-- The lists of two heads share no node.
abbrev pub Apart : List Ptr → List Ptr → Type 0
Apart [] ys = Unit
Apart (x ∷ xs) ys = NotIn x ys × Apart xs ys

pub last_of-append : (a y : Ptr) (xs ys : List Ptr) → last_of a (xs ++ (y ∷ ys)) ≡ last_of y ys
last_of-append a y [] ys = refl
last_of-append a y (x ∷ xs) ys = last_of-append x y xs ys

pub NotIn-append : (p : Ptr) (xs ys : List Ptr) → NotIn p xs → NotIn p ys → NotIn p (xs ++ ys)
NotIn-append p [] ys h g = g
NotIn-append p (x ∷ xs) ys h g = (h.0, NotIn-append p xs ys h.1 g)

pub NotIn-left : (p : Ptr) (xs ys : List Ptr) → NotIn p (xs ++ ys) → NotIn p xs
NotIn-left p [] ys h = tt
NotIn-left p (x ∷ xs) ys h = (h.0, NotIn-left p xs ys h.1)

pub NotIn-right : (p : Ptr) (xs ys : List Ptr) → NotIn p (xs ++ ys) → NotIn p ys
NotIn-right p [] ys h = h
NotIn-right p (x ∷ xs) ys h = NotIn-right p xs ys h.1

pub NotIn-last : (p a : Ptr) (xs : List Ptr) → NotIn p (a ∷ xs) → p ≢ last_of a xs
NotIn-last p a [] h = h.0
NotIn-last p a (x ∷ xs) h = NotIn-last p x xs h.1

pub Distinct-left : (xs ys : List Ptr) → Distinct (xs ++ ys) → Distinct xs
Distinct-left [] ys h = tt
Distinct-left (x ∷ xs) ys h = (NotIn-left x xs ys h.0, Distinct-left xs ys h.1)

pub Distinct-right : (xs ys : List Ptr) → Distinct (xs ++ ys) → Distinct ys
Distinct-right [] ys h = h
Distinct-right (x ∷ xs) ys h = Distinct-right xs ys h.1

-- Of a node in the middle: nothing before it and nothing behind it is the same node.
pub Distinct-middle :
    (xs ys : List Ptr) (e : Ptr) → Distinct (xs ++ (e ∷ ys)) → NotIn e xs × NotIn e ys
Distinct-middle [] ys e h = (tt, h.0)
Distinct-middle (x ∷ xs) ys e h = (
  (λ p. (NotIn-right x xs (e ∷ ys) h.0).0 (sym p), (Distinct-middle xs ys e h.1).0),
  (Distinct-middle xs ys e h.1).1,
)

pub Distinct-drop : (xs ys : List Ptr) (e : Ptr) → Distinct (xs ++ (e ∷ ys)) → Distinct (xs ++ ys)
Distinct-drop [] ys e h = h.1
Distinct-drop (x ∷ xs) ys e h = (
  NotIn-append x xs ys (NotIn-left x xs (e ∷ ys) h.0) (NotIn-right x xs (e ∷ ys) h.0).1,
  Distinct-drop xs ys e h.1,
)

pub Distinct-insert :
    (xs ys : List Ptr) (e : Ptr)
    → NotIn e (xs ++ ys)
    → Distinct (xs ++ ys)
    → Distinct (xs ++ (e ∷ ys))
Distinct-insert [] ys e n h = (n, h)
Distinct-insert (x ∷ xs) ys e n h = (
  NotIn-append x xs (e ∷ ys) (NotIn-left x xs ys h.0) (λ p. n.0 (sym p), NotIn-right x xs ys h.0),
  Distinct-insert xs ys e n.1 h.1,
)

pub Distinct-snoc : (xs : List Ptr) (e : Ptr) → NotIn e xs → Distinct xs → Distinct (xs ++ (e ∷ []))
Distinct-snoc [] e n h = (tt, tt)
Distinct-snoc (x ∷ xs) e n h =
    (NotIn-append x xs (e ∷ []) h.0 (λ p. n.0 (sym p), tt), Distinct-snoc xs e n.1 h.1)

-- The last node of a path is none of those that follow it.
pub NotIn-last_of :
    (a : Ptr) (xs ys : List Ptr) → Distinct (a ∷ (xs ++ ys)) → NotIn (last_of a xs) ys
NotIn-last_of a [] ys d = d.0
NotIn-last_of a (x ∷ xs) ys d = NotIn-last_of x xs ys d.1

-- Of lists that share no node, neither has a node of the other.
Apart-nil : (ys : List Ptr) → Apart ys []
Apart-nil [] = tt
Apart-nil (y ∷ ys) = (tt, Apart-nil ys)

Apart-cons : (x : Ptr) (ys xs : List Ptr) → NotIn x ys → Apart ys xs → Apart ys (x ∷ xs)
Apart-cons x [] xs n h = tt
Apart-cons x (y ∷ ys) xs n h = ((λ p. n.0 (sym p), h.0), Apart-cons x ys xs n.1 h.1)

pub Apart-flip : (xs ys : List Ptr) → Apart xs ys → Apart ys xs
Apart-flip [] ys h = Apart-nil ys
Apart-flip (x ∷ xs) ys h = Apart-cons x ys xs h.0 (Apart-flip xs ys h.1)

pub Apart-last : (a : Ptr) (xs ys : List Ptr) → Apart (a ∷ xs) ys → NotIn (last_of a xs) ys
Apart-last a [] ys h = h.0
Apart-last a (x ∷ xs) ys h = Apart-last x xs ys h.1

pub Distinct-between :
    (fs ys zs : List Ptr)
    → Distinct fs
    → Distinct (ys ++ zs)
    → Apart fs (ys ++ zs)
    → Distinct (ys ++ (fs ++ zs))
Distinct-between [] [] zs d g h = g
Distinct-between (f ∷ fs) [] zs d g h =
    (NotIn-append f fs zs d.0 h.0, Distinct-between fs [] zs d.1 g h.1)
Distinct-between fs (y ∷ ys) zs d g h =
    let apart = Apart-flip fs (y ∷ (ys ++ zs)) h in
    (
      NotIn-append y ys (fs ++ zs) (NotIn-left y ys zs g.0)
          (NotIn-append y fs zs apart.0 (NotIn-right y ys zs g.0)),
      Distinct-between fs ys zs d g.1 (Apart-flip (ys ++ zs) fs apart.1),
    )

pub Distinct-append :
    (fs ys : List Ptr) → Distinct fs → Distinct ys → Apart ys fs → Distinct (ys ++ fs)
Distinct-append fs [] d g h = d
Distinct-append fs (y ∷ ys) d g h = (NotIn-append y ys fs g.0 h.0, Distinct-append fs ys d g.1 h.1)

abbrev pub first_of : List Ptr → Ptr → Ptr
first_of [] b = b
first_of (x ∷ xs) b = x

module _ (s : Store) where
  pub AllLive-append : (xs ys : List Ptr) → AllLive s xs → AllLive s ys → AllLive s (xs ++ ys)
  AllLive-append [] ys h g = g
  AllLive-append (x ∷ xs) ys h g = (h.0, AllLive-append xs ys h.1 g)

  pub AllLive-left : (xs ys : List Ptr) → AllLive s (xs ++ ys) → AllLive s xs
  AllLive-left [] ys h = tt
  AllLive-left (x ∷ xs) ys h = (h.0, AllLive-left xs ys h.1)

  pub AllLive-right : (xs ys : List Ptr) → AllLive s (xs ++ ys) → AllLive s ys
  AllLive-right [] ys h = h
  AllLive-right (x ∷ xs) ys h = AllLive-right xs ys h.1

  pub live_last : (a : Ptr) (xs : List Ptr) → AllLive s (a ∷ xs) → s.live (last_of a xs) ≡ true
  live_last a [] h = h.0
  live_last a (x ∷ xs) h = live_last x xs h.1

  pub path-append :
      (a y : Ptr) (xs ys : List Ptr)
      → PathOf s a xs
      → Edge s (last_of a xs) y
      → PathOf s y ys
      → PathOf s a (xs ++ (y ∷ ys))
  path-append a y [] ys p e q = (e, q)
  path-append a y (x ∷ xs) ys p e q = (p.0, path-append x y xs ys p.1 e q)

  pub path_split :
      (a y : Ptr) (xs ys : List Ptr)
      → PathOf s a (xs ++ (y ∷ ys))
      → PathOf s a xs × Edge s (last_of a xs) y × PathOf s y ys
  path_split a y [] ys p = (tt, p.0, p.1)
  path_split a y (x ∷ xs) ys p = let (q, e, r) = path_split x y xs ys p.1 in ((p.0, q), e, r)

  pub path_left : (a : Ptr) (xs ys : List Ptr) → PathOf s a (xs ++ ys) → PathOf s a xs
  path_left a [] ys p = tt
  path_left a (x ∷ xs) ys p = (p.0, path_left x xs ys p.1)

  -- A write to `next` of the last node, or of no node of the path, keeps it.
  pub path-put_next :
      (a p v : Ptr) (xs : List Ptr)
      → Distinct (a ∷ xs)
      → (p ≡ last_of a xs) ⊎ NotIn p (a ∷ xs)
      → PathOf s a xs
      → PathOf (put_next s p v) a xs
  path-put_next a p v [] d w h = tt
  path-put_next a p v (x ∷ xs) d w h =
      let ne : a ≢ p = elim w [
        | inl e ↦ λ q. NotIn-last a x xs d.0 (q ∙ e)
        | inr n ↦ λ q. n.0 (sym q)
      ] in
      let w' : (p ≡ last_of x xs) ⊎ NotIn p (x ∷ xs) = elim w [ inl e ↦ inl e | inr n ↦ inr n.1 ] in
      ((ground arith, h.0.1), path-put_next x p v xs d.1 w' h.1)

  -- A write to `prev` of the first node, or of no node of the path, keeps it.
  pub path-put_prev :
      (a p v : Ptr) (xs : List Ptr) → NotIn p xs → PathOf s a xs → PathOf (put_prev s p v) a xs
  path-put_prev a p v [] n h = tt
  path-put_prev a p v (x ∷ xs) n h = ((h.0.0, ground arith), path-put_prev x p v xs n.1 h.1)
