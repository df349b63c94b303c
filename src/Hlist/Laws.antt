-- ===== src/Hlist/Laws.antt =====
-- src/mglist.c: insertion at the head of a hash list, and moving a list to another head.
use mg_std.Base.{
  on_if, ◌≡◌, refl, sym, ap, subst, ◌∙◌, false, ◌||◌, some, List, [], ◌∷◌, ◌==◌, arith,
}
use mg_std.Hlist.{
  Ptr, Slot, first_of, next_of, Store, put, put_pprev, relink, mghlist_add_head, mghlist_move_list,
}
use mg_std.Hlist.Chain.{
  NotIn, IsDistinct, Chain, IsHlist, Off, Chain-Agree, Agree-trans, slot-put, Off-head, Off-tail,
  slot-put_other, Agree-put, Agree-put_pprev, relink-null, relink-some,
}

-- A chain that gets a new pointer in front of it.
pub Chain-relink :
    (s : Store) (c d : Slot) (xs : List Ptr)
    → Chain s c xs
    → IsDistinct xs
    → Off d xs
    → Chain (relink (s.slot c) d (put d (s.slot c) s)) d xs
Chain-relink s c d [] e i o =
    subst (λ t. t.slot d ≡ 0) (sym (relink-null (put d (s.slot c) s) (s.slot c) d e))
      (slot-put s d (s.slot c) ∙ e)
Chain-relink s c d (x ∷ xs) (e, ne, p, h) (out, i) o =
    let t = put d (s.slot c) s in
    let u = put_pprev x (some d) t in
    let same : relink (s.slot c) d t ≡ u = ap (λ y. relink y d t) e ∙ relink-some t x d ne in
    subst (λ v. Chain v d (x ∷ xs)) (sym same)
      (
        slot-put s d (s.slot c) ∙ e,
        ne,
        (ground arith),
        Chain-Agree s u (next_of x) xs
            (slot-put_other s d (next_of x) (s.slot c) (Off-head d x xs o))
            (Agree-trans s t u xs (Agree-put s d (s.slot c) xs (Off-tail d x xs o))
              (Agree-put_pprev t x (some d) xs out))
            h,
      )

-- `mghlist_add_head` of a node outside a hash list succeeds and puts it in front of the nodes of the
-- list.
pub mghlist_add_head-IsHlist :
    (s : Store) (n h : Ptr) (xs : List Ptr)
    → IsHlist s h xs
    → NotIn n xs
    → (n == 0) ≡ false
    → (h == 0) ≡ false
    → (t : Store) × (mghlist_add_head n h s ≡ some t) × IsHlist t h (n ∷ xs)
unfolding mghlist_add_head
mghlist_add_head-IsHlist s n h xs (w, i) out ne ok =
    let first = s.slot (first_of h) in
    let u = relink first (next_of n) (put (next_of n) first s) in
    let v = put (first_of h) n u in
    let t = put_pprev n (some (first_of h)) v in
    (
      t,
      on_if (λ o. o ≡ some t) (n == 0 || h == 0) (λ q. absurd (ground arith)) (λ q. refl),
      (
        (
          slot-put u (first_of h) n,
          ne,
          (ground arith),
          Chain-Agree u t (next_of n) xs refl
              (Agree-trans u v t xs (Agree-put u (first_of h) n xs tt)
                (Agree-put_pprev v n (some (first_of h)) xs out))
              (Chain-relink s (first_of h) (next_of n) xs w i out),
        ),
        (out, i),
      ),
    )

-- `mghlist_move_list` to another head succeeds: the list stands at the new head, and the old one is
-- the head of an empty list.
pub mghlist_move_list-IsHlist :
    (s : Store) (old new : Ptr) (xs : List Ptr)
    → IsHlist s old xs
    → (old == new) ≡ false
    → (old == 0) ≡ false
    → (new == 0) ≡ false
    → (t : Store) × (mghlist_move_list old new s ≡ some t) × IsHlist t new xs × IsHlist t old []
unfolding mghlist_move_list
mghlist_move_list-IsHlist s old new xs (w, i) differ ok ok' =
    let first = s.slot (first_of old) in
    let u = relink first (first_of new) (put (first_of new) first s) in
    let t = put (first_of old) 0 u in
    (
      t,
      on_if (λ o. o ≡ some t) (old == 0 || new == 0) (λ q. absurd (ground arith)) (λ q. refl),
      (
        Chain-Agree u t (first_of new) xs (slot-put_other u (first_of old) (first_of new) 0 differ)
            (Agree-put u (first_of old) 0 xs tt)
            (Chain-relink s (first_of old) (first_of new) xs w i tt),
        i,
      ),
      (slot-put u (first_of old) 0, tt),
    )
