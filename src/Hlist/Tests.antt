-- ===== src/Hlist/Tests.antt =====
-- src/mglist.c: a hash list of two nodes, at the addresses 2 and 3, with its head at 1.
use mg_std.Base.{◌≡◌, refl, none, some, [], ◌∷◌, ◌==◌, if◌then◌else◌}
use mg_std.Hlist.{
  first_of, next_of, same_slot, Store, mghlist_add_head, mghlist_add_before, mghlist_add_after,
  mghlist_add_fake, mghlist_del, mghlist_del_init, mghlist_move_list,
}
use mg_std.Hlist.Chain.{IsHlist}
use mg_std.Hlist.Laws.{mghlist_add_head-IsHlist}
use mg_std.Hlist.Cut.{deletions-IsHlist}
use mg_std.Hlist.Beside.{insertions-IsHlist}

abbrev pair : Store
pair = record {
  slot = λ c. if same_slot (first_of 1) c then 2 else if same_slot (next_of 2) c then 3 else 0;
  pprev = λ n. if 2 == n then some (first_of 1) else if 3 == n then some (next_of 2) else none;
}

abbrev pair-IsHlist : IsHlist pair 1 (2 ∷ (3 ∷ []))
pair-IsHlist = ((refl, refl, refl, (refl, refl, refl, refl)), ((refl, tt), (tt, tt)))

mghlist_add_head-IsHlist_example :
    (t : Store) × (mghlist_add_head 4 1 pair ≡ some t) × IsHlist t 1 (4 ∷ (2 ∷ (3 ∷ [])))
mghlist_add_head-IsHlist_example =
    mghlist_add_head-IsHlist pair 4 1 (2 ∷ (3 ∷ [])) pair-IsHlist (refl, (refl, tt)) refl refl

insertions-IsHlist_example :
    ((t : Store) × (mghlist_add_before 4 3 pair ≡ some t) × IsHlist t 1 (2 ∷ (4 ∷ (3 ∷ []))))
    × ((t : Store) × (mghlist_add_after 3 4 pair ≡ some t) × IsHlist t 1 (2 ∷ (3 ∷ (4 ∷ []))))
insertions-IsHlist_example =
    insertions-IsHlist pair 1 3 4 (2 ∷ []) [] pair-IsHlist (refl, (refl, tt)) refl

-- The second node is deleted.
deletions-IsHlist_example :
    (t : Store) × (mghlist_del 3 pair ≡ some t)
    × (mghlist_del_init 3 pair ≡ some t)
    × IsHlist t 1 (2 ∷ [])
    × (t.slot (next_of 3) ≡ 0)
    × (t.pprev 3 ≡ none)
deletions-IsHlist_example = deletions-IsHlist pair 1 (2 ∷ []) 3 [] pair-IsHlist

-- The list is moved to another head.
list_moved :
    (t : Store) × (mghlist_move_list 1 5 pair ≡ some t)
    × IsHlist t 5 (2 ∷ (3 ∷ []))
    × IsHlist t 1 []
unfolding mghlist_move_list
list_moved =
    (_, refl, ((refl, refl, refl, (refl, refl, refl, refl)), ((refl, tt), (tt, tt))), (refl, tt))

-- A node that points at itself may be deleted.
fake_deleted :
    (s : Store) × (mghlist_add_fake 9 pair ≡ some s)
    × ((t : Store) × (mghlist_del 9 s ≡ some t) × IsHlist t 1 (2 ∷ (3 ∷ [])))
unfolding mghlist_add_fake mghlist_del
fake_deleted = (_, refl, (_, refl, pair-IsHlist))
