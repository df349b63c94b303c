-- ===== src/Bintree.antt =====
-- The binary trees that src/mgavltree.c, src/mgbstree.c and src/mgsplaytree.c share the shape of:
-- a node holds the fields of the C structure but for its children, at an address.
pub mod Order
pub mod Walk
use mg_std.Base.{ℕ, Option, none, some, List, [], ◌∷◌, ◌++◌}

abbrev pub Ptr : Type 0
Ptr = ℕ

pub data Tree (A : Type 0) : Type 0 where
  leaf : Tree A
  node : Tree A → A → Tree A → Tree A

module _ {A : Type 0} (at : A → Ptr) where
  -- The addresses from left to right.
  abbrev pub inorder : Tree A → List Ptr
  inorder leaf = []
  inorder (node l a r) = inorder l ++ (at a ∷ inorder r)

  abbrev pub root_at : Tree A → Option Ptr
  root_at leaf = none
  root_at (node l a r) = some (at a)
