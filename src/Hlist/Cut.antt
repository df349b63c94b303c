-- ===== src/Hlist/Cut.antt =====
-- src/mglist.c: deletion of a node of a hash list, and insertion beside one.
use mg_std.Base.{
  on_if, ◌≡◌, refl, sym, ap, subst, ◌∙◌, false, Option, none, some, List, [], ◌∷◌, ◌++◌, ◌==◌,
  arith,
}
use mg_std.Hlist.{
  Ptr, Slot, first_of, next_of, same_slot, Store, put, put_pprev, relink, clear, is_none, unlink,
  cleared, mghlist_del, mghlist_del_init,
}
use mg_std.Hlist.Chain.{
  NotIn, IsDistinct, Chain, IsHlist, Off, Chain-Agree, Agree-trans, slot-put, Off-tail,
  slot-put_other, pprev-put_other, Agree-put, Agree-put_pprev, relink-null, relink-some,
}
use mg_std.Hlist.Laws.{Chain-relink}

-- The pointer after the nodes `xs` from the pointer `c` on.
abbrev pub slot_after : Slot → List Ptr → Slot
slot_after c [] = c
slot_after c (x ∷ xs) = slot_after (next_of x) xs

pub NotIn-append : (p : Ptr) (xs ys : List Ptr) → NotIn p (xs ++ ys) → NotIn p xs × NotIn p ys
NotIn-append p [] ys h = (tt, h)
NotIn-append p (x ∷ xs) ys (ne, h) = let (a, b) = NotIn-append p xs ys h in ((ne, a), b)

pub append-NotIn : (p : Ptr) (xs ys : List Ptr) → NotIn p xs → NotIn p ys → NotIn p (xs ++ ys)
append-NotIn p [] ys h g = g
append-NotIn p (x ∷ xs) ys (ne, h) g = (ne, append-NotIn p xs ys h g)

-- A chain is a chain of its first nodes and one of the others.
pub Chain-after :
    (s : Store) (c : Slot) (xs ys : List Ptr) → Chain s c (xs ++ ys) → Chain s (slot_after c xs) ys
Chain-after s c [] ys h = h
Chain-after s c (x ∷ xs) ys (e, ne, p, h) = Chain-after s (next_of x) xs ys h

-- The nodes of the first part, up to the pointer that ends it, which may change.
abbrev pub Front : Store → Slot → List Ptr → Type 0
Front s c [] = Unit
Front s c (x ∷ xs) =
    (s.slot c ≡ x) × ((x == 0) ≡ false) × (s.pprev x ≡ some c) × Front s (next_of x) xs

pub Chain-Front : (s : Store) (c : Slot) (xs ys : List Ptr) → Chain s c (xs ++ ys) → Front s c xs
Chain-Front s c [] ys h = tt
Chain-Front s c (x ∷ xs) ys (e, ne, p, h) = (e, ne, p, Chain-Front s (next_of x) xs ys h)

pub Front-Chain :
    (s : Store) (c : Slot) (xs ys : List Ptr)
    → Front s c xs
    → Chain s (slot_after c xs) ys
    → Chain s c (xs ++ ys)
Front-Chain s c [] ys f h = h
Front-Chain s c (x ∷ xs) ys (e, ne, p, f) h = (e, ne, p, Front-Chain s (next_of x) xs ys f h)

pub flip : (p q : Ptr) → (p == q) ≡ false → (q == p) ≡ false
flip p q h = ground arith

head_differs :
    (c : Slot) (x : Ptr) (xs : List Ptr) → Off c (x ∷ xs) → same_slot (next_of x) c ≡ false
head_differs (first_of h) x xs o = refl
head_differs (next_of y) x xs o = flip y x o.0

-- The pointer after some nodes is none before them.
pub slot_after-differs :
    (c d : Slot) (xs : List Ptr)
    → same_slot d c ≡ false
    → Off c xs
    → same_slot (slot_after d xs) c ≡ false
slot_after-differs c d [] h o = h
slot_after-differs c d (x ∷ xs) h o =
    slot_after-differs c (next_of x) xs (head_differs c x xs o) (Off-tail c x xs o)

pub Front-put :
    (s : Store) (c : Slot) (v : Ptr) (xs : List Ptr)
    → IsDistinct xs
    → Off c xs
    → Front s c xs
    → Front (put (slot_after c xs) v s) c xs
Front-put s c v [] i o f = tt
Front-put s c v (x ∷ xs) (out, i) o (e, ne, p, f) = (
  slot-put_other s (slot_after (next_of x) xs) c v
        (slot_after-differs c (next_of x) xs (head_differs c x xs o) (Off-tail c x xs o))
      ∙ e,
  ne,
  p,
  Front-put s (next_of x) v xs i out f,
)

pub Front-put_pprev :
    (s : Store) (c : Slot) (n : Ptr) (v : Option Slot) (xs : List Ptr)
    → NotIn n xs
    → Front s c xs
    → Front (put_pprev n v s) c xs
Front-put_pprev s c n v [] o f = tt
Front-put_pprev s c n v (x ∷ xs) (ne, o) (e, nz, p, f) =
    (e, nz, pprev-put_other s n x v ne ∙ p, Front-put_pprev s (next_of x) n v xs o f)

-- A list of different nodes without one of them.
pub without_middle :
    (xs : List Ptr) (n : Ptr) (ys : List Ptr)
    → IsDistinct (xs ++ (n ∷ ys))
    → NotIn n (xs ++ ys) × IsDistinct (xs ++ ys)
without_middle [] n ys i = i
without_middle (x ∷ xs) n ys (o, i) =
    let (a, b) = NotIn-append x xs (n ∷ ys) o in
    let (c, d) = without_middle xs n ys i in ((flip x n b.0, c), (append-NotIn x xs ys a b.1, d))

pub IsDistinct-append : (xs ys : List Ptr) → IsDistinct (xs ++ ys) → IsDistinct xs × IsDistinct ys
IsDistinct-append [] ys i = (tt, i)
IsDistinct-append (x ∷ xs) ys (o, i) =
    let (a, b) = IsDistinct-append xs ys i in (((NotIn-append x xs ys o).0, a), b)

pub slot_after-Off :
    (c : Slot) (xs ys : List Ptr)
    → Off c (xs ++ ys)
    → IsDistinct (xs ++ ys)
    → Off (slot_after c xs) ys
slot_after-Off c [] ys o i = o
slot_after-Off c (x ∷ xs) ys o i = slot_after-Off (next_of x) xs ys i.0 i.1

pub Front-relink :
    (s t : Store) (c d e : Slot) (xs ys : List Ptr)
    → Chain s e ys
    → IsDistinct (xs ++ ys)
    → Front t c xs
    → Front (relink (s.slot e) d t) c xs
Front-relink s t c d e xs [] q i f =
    subst (λ u. Front u c xs) (sym (relink-null t (s.slot e) d q)) f
Front-relink s t c d e xs (y ∷ ys) (q, nz, p, h) i f =
    subst (λ u. Front u c xs) (sym (ap (λ a. relink a d t) q ∙ relink-some t y d nz))
      (Front-put_pprev t c y (some d) xs (NotIn-append y xs ys (without_middle xs y ys i).0).0 f)

-- What `__mghlist_del` and the clearing of the node leave.
unlinked-IsHlist :
    (s : Store) (h : Ptr) (xs : List Ptr) (n : Ptr) (ys : List Ptr)
    → IsHlist s h (xs ++ (n ∷ ys))
    → (t : Store) × (cleared n (unlink n s (s.pprev n)) ≡ some t)
      × IsHlist t h (xs ++ ys)
      × (t.slot (next_of n) ≡ 0)
      × (t.pprev n ≡ none)
unlinked-IsHlist s h xs n ys (w, i) =
    let c = first_of h in
    let d = slot_after c xs in
    let next = s.slot (next_of n) in
    let (e, nz, p, rest) = Chain-after s c xs (n ∷ ys) w in
    let (out, i') = without_middle xs n ys i in
    let (ix, iy) = IsDistinct-append xs ys i' in
    let u = relink next d (put d next s) in
    let chain : Chain u c (xs ++ ys) =
      Front-Chain u c xs ys
        (Front-relink s (put d next s) c d (next_of n) xs ys rest i'
          (Front-put s c next xs ix tt (Chain-Front s c xs (n ∷ ys) w)))
        (Chain-relink s (next_of n) d ys rest iy (slot_after-Off c xs ys tt i')) in
    let v = put (next_of n) 0 u in
    (
      clear n u,
      ap (λ o. cleared n (unlink n s o)) p,
      (
        Chain-Agree u (clear n u) c (xs ++ ys) refl
            (Agree-trans u v (clear n u) (xs ++ ys) (Agree-put u (next_of n) 0 (xs ++ ys) out)
              (Agree-put_pprev v n none (xs ++ ys) out))
            chain,
        i',
      ),
      slot-put u (next_of n) 0,
      (ground arith),
    )

node_of :
    (s : Store) (h : Ptr) (xs : List Ptr) (n : Ptr) (ys : List Ptr)
    → IsHlist s h (xs ++ (n ∷ ys))
    → ((n == 0) ≡ false) × (is_none (s.pprev n) ≡ false)
node_of s h xs n ys (w, i) =
    let (e, nz, p, rest) = Chain-after s (first_of h) xs (n ∷ ys) w in (nz, ap is_none p)

-- `mghlist_del` and `mghlist_del_init` of a node of a hash list succeed and leave the same store: the
-- list has the other nodes, in their order, and the pointers of the node are NULL.
pub deletions-IsHlist :
    (s : Store) (h : Ptr) (xs : List Ptr) (n : Ptr) (ys : List Ptr)
    → IsHlist s h (xs ++ (n ∷ ys))
    → (t : Store) × (mghlist_del n s ≡ some t)
      × (mghlist_del_init n s ≡ some t)
      × IsHlist t h (xs ++ ys)
      × (t.slot (next_of n) ≡ 0)
      × (t.pprev n ≡ none)
unfolding mghlist_del mghlist_del_init
deletions-IsHlist s h xs n ys w =
    let (t, e, list, next, back) = unlinked-IsHlist s h xs n ys w in
    let (nz, linked) = node_of s h xs n ys w in
    let removed : mghlist_del n s ≡ some t =
      on_if (λ o. o ≡ some t) (n == 0) (λ q. absurd (ground arith)) (λ q. e) in
    (
      t,
      removed,
      on_if (λ o. o ≡ some t) (n == 0) (λ q. absurd (ground arith))
          (λ q.
            on_if (λ o. o ≡ some t) (is_none (s.pprev n)) (λ q. absurd (ground arith)) (λ q. e)),
      list,
      next,
      back,
    )
