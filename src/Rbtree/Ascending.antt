-- ===== src/Rbtree/Ascending.antt =====
-- src/mgrbtree.c: ascending lists of nodes, and insertion behind equal ones.
use mg_std.Base.{ℕ, ◌<◌, ◌≤◌, ◌≡◌, List, [], ◌∷◌, ◌++◌, arith, ltb, if◌then◌else◌}
use mg_std.Bintree.{Ptr}

module _ (rank : Ptr → ℕ) where
  abbrev pub AllAtMost : ℕ → List Ptr → Type 0
  AllAtMost m [] = Unit
  AllAtMost m (y ∷ ys) = (rank y ≤ m) × AllAtMost m ys

  abbrev pub AllAtLeast : ℕ → List Ptr → Type 0
  AllAtLeast m [] = Unit
  AllAtLeast m (y ∷ ys) = (m ≤ rank y) × AllAtLeast m ys

  abbrev pub IsAscending : List Ptr → Type 0
  IsAscending [] = Unit
  IsAscending (y ∷ ys) = AllAtLeast (rank y) ys × IsAscending ys

  -- Insertion behind the nodes of at most its rank.
  abbrev pub insert_after : Ptr → List Ptr → List Ptr
  insert_after x [] = x ∷ []
  insert_after x (y ∷ ys) =
      let rest = insert_after x ys in if ltb (rank x) (rank y) then x ∷ (y ∷ ys) else y ∷ rest

  AllAtLeast-append :
      (m : ℕ) (xs ys : List Ptr) → AllAtLeast m (xs ++ ys) → AllAtLeast m xs × AllAtLeast m ys
  AllAtLeast-append m [] ys h = (tt, h)
  AllAtLeast-append m (x ∷ xs) ys h = let (a, b) = AllAtLeast-append m xs ys h.1 in ((h.0, a), b)

  pub IsAscending-split :
      (xs ys : List Ptr) (m : Ptr)
      → IsAscending (xs ++ (m ∷ ys))
      → IsAscending xs × AllAtMost (rank m) xs × AllAtLeast (rank m) ys × IsAscending ys
  IsAscending-split [] ys m h = (tt, tt, h.0, h.1)
  IsAscending-split (x ∷ xs) ys m h =
      let (a, b, c, d) = IsAscending-split xs ys m h.1 in
      let (front, back) = AllAtLeast-append (rank x) xs (m ∷ ys) h.0 in
      ((front, a), (back.0, b), c, d)

  AllAtLeast-insert_after :
      (m : ℕ) (x : Ptr) (ys : List Ptr)
      → m ≤ rank x
      → AllAtLeast m ys
      → AllAtLeast m (insert_after x ys)
  AllAtLeast-insert_after m x [] h g = (h, tt)
  AllAtLeast-insert_after m x (y ∷ ys) h g = ground (arith, AllAtLeast-insert_after m x ys h g.1)

  AllAtLeast-weaken : (m k : ℕ) (ys : List Ptr) → m ≤ k → AllAtLeast k ys → AllAtLeast m ys
  AllAtLeast-weaken m k [] l h = tt
  AllAtLeast-weaken m k (y ∷ ys) l h = (omega (arith, h.0), AllAtLeast-weaken m k ys l h.1)

  pub insert_after-IsAscending :
      (x : Ptr) (ys : List Ptr) → IsAscending ys → IsAscending (insert_after x ys)
  insert_after-IsAscending x [] h = (tt, tt)
  insert_after-IsAscending x (y ∷ ys) h = ground (
    arith,
    insert_after-IsAscending x ys h.1,
    AllAtLeast-insert_after (rank y) x ys,
    AllAtLeast-weaken (rank x) (rank y) ys,
  )

  pub insert_before :
      (x m : Ptr) (xs ys : List Ptr)
      → rank x < rank m
      → insert_after x (xs ++ (m ∷ ys)) ≡ insert_after x xs ++ (m ∷ ys)
  insert_before x m [] ys h = ground arith
  insert_before x m (z ∷ xs) ys h = ground (arith, insert_before x m xs ys h)

  pub insert_behind :
      (x m : Ptr) (xs ys : List Ptr)
      → rank m ≤ rank x
      → AllAtMost (rank m) xs
      → insert_after x (xs ++ (m ∷ ys)) ≡ xs ++ (m ∷ insert_after x ys)
  insert_behind x m [] ys h b = ground arith
  insert_behind x m (z ∷ xs) ys h b = ground (arith, insert_behind x m xs ys h b.1, b.0)
