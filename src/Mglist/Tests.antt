-- ===== src/Mglist/Tests.antt =====
-- The lists of src/mglist.c on a concrete store: node 1 heads the list of 2 and 3, node 6 that of
-- 7 and 8, and the other nodes are empty lists.
use mg_std.Base.{◌≡◌, refl, [], ◌∷◌, some, arith, ◌==◌, leb, if◌then◌else◌}
use mg_std.Mglist.Store.{Ptr, null, Store}
use mg_std.Mglist.Ring.{NotIn, Apart, Ring}
use mg_std.Mglist.Insert.{add-Ring}
use mg_std.Mglist.Delete.{del-Ring}
use mg_std.Mglist.Splice.{splice_init-Ring}
use mg_std.Mglist.Cut.{cut_position-Ring}
use mg_std.Mglist.{add, del, splice_init, cut_position}

abbrev turn : Ptr → Ptr → Ptr → Ptr → Ptr
turn a b c p = if p == a then b else if p == b then c else if p == c then a else p

abbrev two_lists : Store
two_lists = record {
  live = λ p. leb 1 p;
  next = λ p. turn 1 2 3 (turn 6 7 8 p);
  prev = λ p. turn 3 2 1 (turn 8 7 6 p);
}

abbrev first_ring : Ring two_lists 1 (2 ∷ (3 ∷ []))
first_ring = record {
  path = ((refl, refl), ((refl, refl), tt));
  closes = (refl, refl);
  distinct = ((omega arith, (omega arith, tt)), ((omega arith, tt), (tt, tt)));
  live = (refl, (refl, (refl, tt)));
}

abbrev other_ring : Ring two_lists 6 (7 ∷ (8 ∷ []))
other_ring = record {
  path = ((refl, refl), ((refl, refl), tt));
  closes = (refl, refl);
  distinct = ((omega arith, (omega arith, tt)), ((omega arith, tt), (tt, tt)));
  live = (refl, (refl, (refl, tt)));
}

abbrev outside : NotIn 4 (1 ∷ (2 ∷ (3 ∷ [])))
outside = (omega arith, (omega arith, (omega arith, tt)))

abbrev rings_apart : Apart (6 ∷ (7 ∷ (8 ∷ []))) (1 ∷ (2 ∷ (3 ∷ [])))
rings_apart = (
  (omega arith, (omega arith, (omega arith, tt))),
  (
    (omega arith, (omega arith, (omega arith, tt))),
    ((omega arith, (omega arith, (omega arith, tt))), tt),
  ),
)

add-Ring_example : (t : Store) × (add 4 1 two_lists ≡ some (tt, t)) × Ring t 1 (4 ∷ (2 ∷ (3 ∷ [])))
add-Ring_example = add-Ring two_lists 4 1 (2 ∷ (3 ∷ [])) first_ring outside refl

del-Ring_example :
    (t : Store) × (del 3 two_lists ≡ some (tt, t))
    × Ring t 1 (2 ∷ [])
    × (t.next 3 ≡ null)
    × (t.prev 3 ≡ null)
del-Ring_example = del-Ring two_lists 1 3 (2 ∷ []) [] first_ring

splice_init-Ring_example :
    (t : Store) × (splice_init 6 1 two_lists ≡ some (tt, t))
    × Ring t 1 (7 ∷ (8 ∷ (2 ∷ (3 ∷ []))))
    × Ring t 6 []
splice_init-Ring_example =
    splice_init-Ring two_lists 6 1 (7 ∷ (8 ∷ [])) (2 ∷ (3 ∷ [])) other_ring first_ring rings_apart

cut_position-Ring_example :
    (t : Store) × (cut_position 4 1 2 two_lists ≡ some (tt, t))
    × Ring t 4 (2 ∷ [])
    × Ring t 1 (3 ∷ [])
cut_position-Ring_example = cut_position-Ring two_lists 4 1 2 [] (3 ∷ []) refl first_ring outside
