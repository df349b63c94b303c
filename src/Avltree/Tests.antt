-- ===== src/Avltree/Tests.antt =====
-- Runs of src/mgavltree.c: a node at address `a` has the rank `a`.
use Prim.Native.Nat.{compare}
use mg_std.Base.{◌+◌, ◌/◌, ◌^◌, ◌≤◌, ◌≡◌, refl, none, some, arith, length, [], ◌∷◌}
use mg_std.Bintree.{Ptr, leaf, node}
use mg_std.Avltree.{Avl, height1, insert, search, search_recursive, and_then}
use mg_std.Avltree.Order.{nodes}
use mg_std.Avltree.Rotations.{IsValid}
use mg_std.Avltree.Laws.{
  IsAvl, with_node, looked_up, insert-IsAvl, searches-find, insert_all, insert_all-IsAvl,
}

-- 1 below 2.
abbrev two : Avl
two =
    node (node leaf (record { at = 1; parent = 2; height = 0 }) leaf)
      (record { at = 2; parent = 0; height = 1 }) leaf

abbrev two_valid : IsValid 0 two
two_valid =
    (refl, refl, omega arith, omega arith, (refl, refl, omega arith, omega arith, tt, tt), tt)

-- Insertion in decreasing order makes a right rotation.
turned :
    and_then
      (insert (λ a b. compare a b) leaf 3)
      (λ t. and_then (insert (λ a b. compare a b) t 2) (λ u. insert (λ a b. compare a b) u 1))
    ≡ some (
        node
          (node leaf (record { at = 1; parent = 2; height = 0 }) leaf)
          (record { at = 2; parent = 0; height = 1 })
          (node leaf (record { at = 3; parent = 2; height = 0 }) leaf))
unfolding insert
turned = refl

-- The insertion of NULL, and the search for it.
null_ignored :
    (insert (λ a b. compare a b) two 0 ≡ some two) × (search (λ a b. compare a b) two 0 ≡ none)
unfolding insert search
null_ignored = (refl, refl)

insert-IsAvl_example :
    (t' : Avl) × (insert (λ a b. compare a b) two 3 ≡ some t')
    × IsAvl (λ a. a) t'
    × (nodes t' ≡ with_node (λ a. a) 3 (nodes two))
insert-IsAvl_example =
    insert-IsAvl (λ a b. compare a b) (λ a. a) (λ a b. refl) two 3
      (two_valid, ((omega arith, tt), (tt, tt)))

searches-find_example :
    (search (λ a b. compare a b) two 1 ≡ looked_up (λ a. a) 1 (nodes two))
    × (search_recursive (λ a b. compare a b) two 1 ≡ looked_up (λ a. a) 1 (nodes two))
searches-find_example =
    searches-find (λ a b. compare a b) (λ a. a) (λ a b. refl) two 1
      (two_valid, ((omega arith, tt), (tt, tt)))

insert_all-IsAvl_example :
    (t : Avl) × (insert_all (λ a b. compare a b) (1 ∷ (2 ∷ (3 ∷ (4 ∷ [])))) leaf ≡ some t)
    × IsAvl (λ a. a) t
    × (2 ^ (height1 t / 2) ≤ length {A = Ptr} (1 ∷ (2 ∷ (3 ∷ (4 ∷ [])))) + 1)
insert_all-IsAvl_example =
    insert_all-IsAvl (λ a b. compare a b) (λ a. a) (λ a b. refl) (1 ∷ (2 ∷ (3 ∷ (4 ∷ []))))
