-- ===== src/Bstree/Tests.antt =====
-- src/mgbstree.c: a tree of two nodes, at the addresses 1 and 2, in the order of the addresses.
use Prim.Native.Nat.{compare}
use mg_std.Base.{ℕ, ◌≡◌, refl, Option, none, some, arith}
use mg_std.Bintree.{Ptr, leaf, node}
use mg_std.Bintree.Order.{insert_sorted, find}
use mg_std.Bstree.{Node, Bst, init_node, insert, del}
use mg_std.Bstree.Deletion.{Deletes, del_below_root}
use mg_std.Bstree.Laws.{IsBst, nodes, code_of, insert-IsBst}

abbrev top : Node
top = record { at = 1; parent = 0 }

abbrev right : Bst
right = node leaf (record { at = 2; parent = 1 }) leaf

abbrev rank : Ptr → ℕ
rank p = p

abbrev pair-IsBst : IsBst rank (node leaf top right)
pair-IsBst = ((refl, tt, (refl, tt, tt)), ((omega arith, tt), (tt, tt)))

insert-IsBst_example :
    (code : Option ℕ) × (t : Bst) × (insert compare (node leaf top right) (init_node 3) ≡ (code, t))
    × IsBst rank t
    × (nodes t ≡ insert_sorted rank 3 (nodes (node leaf top right)))
    × (code ≡ code_of (find rank 3 (nodes (node leaf top right))))
insert-IsBst_example = insert-IsBst compare rank (λ a b. refl) leaf top right 3 pair-IsBst

-- The caller's root, a copy of which is set, stays NULL.
lost_root : insert compare leaf (init_node 3) ≡ (some 1, leaf)
unfolding insert
lost_root = refl

del_below_root_example : Deletes rank (node leaf top right) 2
del_below_root_example =
    del_below_root rank leaf top right 2 pair-IsBst ((ground arith), tt, ((ground arith), tt, tt))
      (ground arith)

-- The root stays, and a node with two children is a fault.
root_stays : del (node leaf top right) 1 ≡ some (node leaf top right)
unfolding del
root_stays = refl

two_children : del (node (init_node 4) top right) 1 ≡ none
unfolding del
two_children = refl
