-- ===== src/Hlist/Beside.antt =====
-- src/mglist.c: insertion in front of a node of a hash list, and behind one.
use mg_std.Base.{
  on_if, ◌≡◌, refl, sym, ap, subst, ◌∙◌, false, ◌||◌, some, List, [], ◌∷◌, ◌++◌, ◌==◌, arith,
}
use mg_std.Hlist.{
  Ptr, Slot, first_of, next_of, same_slot, Store, put, put_pprev, relink, point_here,
  mghlist_add_before, mghlist_add_after,
}
use mg_std.Hlist.Chain.{
  NotIn, IsDistinct, Chain, IsHlist, Off, Agree, Chain-Agree, Agree-trans, slot-put, Off-head,
  Off-tail, slot-put_other, pprev-put_other, Agree-put, Agree-put_pprev, relink-null, relink-some,
}
use mg_std.Hlist.Cut.{
  slot_after, flip, NotIn-append, append-NotIn, Chain-after, Front, Chain-Front, Front-Chain,
  Front-put, Front-put_pprev, without_middle, IsDistinct-append, slot_after-Off, Front-relink,
}

-- A chain whose first node gets a new pointer in a store that agrees about its nodes.
Chain-moved :
    (s t : Store) (c d : Slot) (xs : List Ptr)
    → Chain s c xs
    → IsDistinct xs
    → Agree s t xs
    → t.slot d ≡ s.slot c
    → Chain (relink (s.slot c) d t) d xs
Chain-moved s t c d [] e i g q =
    subst (λ u. u.slot d ≡ 0) (sym (relink-null t (s.slot c) d e)) (q ∙ e)
Chain-moved s t c d (x ∷ xs) (e, ne, p, h) (out, i) (a, b, g) q =
    let u = put_pprev x (some d) t in
    subst (λ v. Chain v d (x ∷ xs)) (sym (ap (λ y. relink y d t) e ∙ relink-some t x d ne))
      (
        q ∙ e,
        ne,
        (ground arith),
        Chain-Agree s u (next_of x) xs a
            (Agree-trans s t u xs g (Agree-put_pprev t x (some d) xs out)) h,
      )

slot-relink : (s : Store) (p : Ptr) (c d : Slot) → (relink p c s).slot d ≡ s.slot d
slot-relink s p c d = on_if (λ (t : Store). t.slot d ≡ s.slot d) (p == 0) (λ q. refl) (λ q. refl)

pprev-relink :
    (s : Store) (p n : Ptr) (c : Slot) → (p == n) ≡ false → (relink p c s).pprev n ≡ s.pprev n
pprev-relink s p n c ne =
    on_if (λ (t : Store). t.pprev n ≡ s.pprev n) (p == 0) (λ q. refl)
      (λ q. pprev-put_other s p n (some c) ne)

-- The first node of a chain is none that the chain does not have.
first_differs :
    (s : Store) (c : Slot) (n : Ptr) (xs : List Ptr)
    → Chain s c xs
    → NotIn n xs
    → (n == 0) ≡ false
    → (s.slot c == n) ≡ false
first_differs s c n [] e o nz = ground (arith, e)
first_differs s c n (x ∷ xs) (e, xz, p, h) (ne, o) nz = ground (arith, e, flip n x ne)

same_slot-flip : (c d : Slot) → same_slot c d ≡ false → same_slot d c ≡ false
same_slot-flip (first_of p) (first_of q) h = flip p q h
same_slot-flip (first_of p) (next_of q) h = refl
same_slot-flip (next_of p) (first_of q) h = refl
same_slot-flip (next_of p) (next_of q) h = flip p q h

differs-slot_after :
    (e c : Slot) (xs : List Ptr)
    → same_slot e c ≡ false
    → Off e xs
    → same_slot e (slot_after c xs) ≡ false
differs-slot_after e c [] h o = h
differs-slot_after e c (x ∷ xs) h o =
    differs-slot_after e (next_of x) xs (Off-head e x xs o) (Off-tail e x xs o)

Front-put_other :
    (s : Store) (e c : Slot) (v : Ptr) (xs : List Ptr)
    → same_slot e c ≡ false
    → Off e xs
    → Front s c xs
    → Front (put e v s) c xs
Front-put_other s e c v [] h o f = tt
Front-put_other s e c v (x ∷ xs) h o (r, nz, p, f) = (
  slot-put_other s e c v h ∙ r,
  nz,
  p,
  Front-put_other s e (next_of x) v xs (Off-head e x xs o) (Off-tail e x xs o) f,
)

-- A list with a new node beside one of its nodes.
IsDistinct-inserted :
    (xs : List Ptr) (m : Ptr) (ys : List Ptr)
    → IsDistinct (xs ++ ys)
    → NotIn m (xs ++ ys)
    → IsDistinct (xs ++ (m ∷ ys))
IsDistinct-inserted [] m ys i o = (o, i)
IsDistinct-inserted (x ∷ xs) m ys (a, i) (ne, o) =
    let (b, c) = NotIn-append x xs ys a in
    (append-NotIn x xs (m ∷ ys) b (flip m x ne, c), IsDistinct-inserted xs m ys i o)

IsDistinct-inserted_behind :
    (xs : List Ptr) (n m : Ptr) (ys : List Ptr)
    → IsDistinct (xs ++ (n ∷ ys))
    → NotIn m (xs ++ (n ∷ ys))
    → IsDistinct (xs ++ (n ∷ (m ∷ ys)))
IsDistinct-inserted_behind [] n m ys (o, i) (ne, o') = ((flip m n ne, o), (o', i))
IsDistinct-inserted_behind (x ∷ xs) n m ys (a, i) (ne, o) =
    let (b, c) = NotIn-append x xs (n ∷ ys) a in
    (
      append-NotIn x xs (n ∷ (m ∷ ys)) b (c.0, (flip m x ne, c.1)),
      IsDistinct-inserted_behind xs n m ys i o,
    )

module _ (s : Store) (h n m : Ptr) (xs ys : List Ptr) (w : IsHlist s h (xs ++ (n ∷ ys)))
    (out : NotIn m (xs ++ (n ∷ ys))) (mz : (m == 0) ≡ false) where
  abbrev before : Slot
  before = slot_after (first_of h) xs

  parts_of :
      NotIn m xs × ((m == n) ≡ false) × NotIn m ys × NotIn n xs × NotIn n ys × IsDistinct (xs ++ ys)
  parts_of =
      let (a, b) = NotIn-append m xs (n ∷ ys) out in
      let (c, d) = without_middle xs n ys w.1 in
      let (e, f) = NotIn-append n xs ys c in (a, b.0, b.1, e, f, d)

  add_before-IsHlist :
      (t : Store) × (mghlist_add_before m n s ≡ some t) × IsHlist t h (xs ++ (m ∷ (n ∷ ys)))
  unfolding mghlist_add_before
  add_before-IsHlist =
      let (mx, mn, my, nx, ny, ixy) = parts_of in
      let (e, nz, p, rest) = Chain-after s (first_of h) xs (n ∷ ys) w.0 in
      let d = before in
      let s1 = put_pprev m (s.pprev n) s in
      let s2 = put (next_of m) n s1 in
      let t = put_pprev n (some (next_of m)) s2 in
      let u = put d m t in
      let at : t.pprev m ≡ some d = ground (arith, p, mn, flip m n mn) in
      let ix = (IsDistinct-append xs ys ixy).0 in
      let od : Off d (n ∷ ys) = slot_after-Off (first_of h) xs (n ∷ ys) tt w.1 in
      let front : Front t (first_of h) xs =
        Front-put_pprev s2 (first_of h) n (some (next_of m)) xs nx (
          Front-put_other s1 (next_of m) (first_of h) n xs refl mx (
            Front-put_pprev s (first_of h) m (s.pprev n) xs mx
              (Chain-Front s (first_of h) xs (n ∷ ys) w.0))) in
      let rest' : Chain u (next_of n) ys =
        Chain-Agree s u (next_of n) ys
          (slot-put_other t d (next_of n) m (Off-head d n ys od)
            ∙ slot-put_other s1 (next_of m) (next_of n) n mn)
          (Agree-trans s t u ys
            (Agree-trans s s2 t ys
              (Agree-trans s s1 s2 ys (Agree-put_pprev s m (s.pprev n) ys my)
                (Agree-put s1 (next_of m) n ys my))
              (Agree-put_pprev s2 n (some (next_of m)) ys ny))
            (Agree-put t d m ys (Off-tail d n ys od)))
          rest in
      (
        u,
        on_if (λ o. o ≡ some u) (m == 0 || n == 0) (λ q. absurd (ground arith))
            (λ q. ap (point_here m t) at),
        (
          Front-Chain u (first_of h) xs (m ∷ (n ∷ ys)) (Front-put t (first_of h) m xs ix tt front) (
            slot-put t d m,
            mz,
            at,
            (
              slot-put_other t d (next_of m) m (
                    same_slot-flip (next_of m) d
                      (differs-slot_after (next_of m) (first_of h) xs refl mx))
                  ∙ slot-put s1 (next_of m) n,
              nz,
              (ground arith),
              rest',
            ),
          ),
          IsDistinct-inserted xs m (n ∷ ys) w.1 out,
        ),
      )

  add_after-IsHlist :
      (t : Store) × (mghlist_add_after n m s ≡ some t) × IsHlist t h (xs ++ (n ∷ (m ∷ ys)))
  unfolding mghlist_add_after
  add_after-IsHlist =
      let (mx, mn, my, nx, ny, ixy) = parts_of in
      let (e, nz, p, rest) = Chain-after s (first_of h) xs (n ∷ ys) w.0 in
      let d = before in
      let q = s.slot (next_of n) in
      let s1 = put (next_of m) q s in
      let s2 = put (next_of n) m s1 in
      let t = put_pprev m (some (next_of n)) s2 in
      let u = relink q (next_of m) t in
      let next : t.slot (next_of m) ≡ q =
        slot-put_other s1 (next_of n) (next_of m) m (flip m n mn) ∙ slot-put s (next_of m) q in
      let iy = (IsDistinct-append xs ys ixy).1 in
      let front : Front u (first_of h) xs =
        Front-relink s t (first_of h) (next_of m) (next_of n) xs ys rest ixy (
          Front-put_pprev s2 (first_of h) m (some (next_of n)) xs mx (
            Front-put_other s1 (next_of n) (first_of h) m xs refl nx (
              Front-put_other s (next_of m) (first_of h) q xs refl mx
                (Chain-Front s (first_of h) xs (n ∷ ys) w.0)))) in
      let tail : Chain u (next_of m) ys =
        Chain-moved s t (next_of n) (next_of m) ys rest iy
          (Agree-trans s s2 t ys
            (Agree-trans s s1 s2 ys (Agree-put s (next_of m) q ys my)
              (Agree-put s1 (next_of n) m ys ny))
            (Agree-put_pprev s2 m (some (next_of n)) ys my))
          next in
      (
        u,
        on_if (λ o. o ≡ some u) (n == 0 || m == 0) (λ z. absurd (ground arith))
            (λ z. ap (λ r. some (relink r (next_of m) t)) next),
        (
          Front-Chain u (first_of h) xs (n ∷ (m ∷ ys)) front (
            slot-relink t q (next_of m) d
                ∙ slot-put_other s1 (next_of n) d m
                    (differs-slot_after (next_of n) (first_of h) xs refl nx)
                ∙ slot-put_other s (next_of m) d q
                    (differs-slot_after (next_of m) (first_of h) xs refl mx)
                ∙ e,
            nz,
            pprev-relink t q n (next_of m) (first_differs s (next_of n) n ys rest ny nz)
                ∙ pprev-put_other s2 m n (some (next_of n)) mn
                ∙ p,
            (
              slot-relink t q (next_of m) (next_of n) ∙ slot-put s1 (next_of n) m,
              mz,
              pprev-relink t q m (next_of m) (first_differs s (next_of n) m ys rest my mz)
                  ∙ (ground arith),
              tail,
            ),
          ),
          IsDistinct-inserted_behind xs n m ys w.1 out,
        ),
      )

-- `mghlist_add_before` and `mghlist_add_after` of a node outside a hash list succeed: the node stands
-- in front of the given node of the list, and behind it.
pub insertions-IsHlist :
    (s : Store) (h n m : Ptr) (xs ys : List Ptr)
    → IsHlist s h (xs ++ (n ∷ ys))
    → NotIn m (xs ++ (n ∷ ys))
    → (m == 0) ≡ false
    → ((t : Store) × (mghlist_add_before m n s ≡ some t) × IsHlist t h (xs ++ (m ∷ (n ∷ ys))))
      × ((t : Store) × (mghlist_add_after n m s ≡ some t) × IsHlist t h (xs ++ (n ∷ (m ∷ ys))))
insertions-IsHlist s h n m xs ys w out mz =
    (add_before-IsHlist s h n m xs ys w out mz, add_after-IsHlist s h n m xs ys w out mz)
