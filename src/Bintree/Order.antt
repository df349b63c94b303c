-- ===== src/Bintree/Order.antt =====
-- Lists of nodes in increasing order, what insertion and search mean on them, and where the
-- search paths of a tree lead. `rank` is the order that the comparison function of the nodes
-- stands for.
use Prim.Native.Nat.{Ordering, compare}
use Prim.Native.Nat.Ordering.{lt, eq, gt}
use mg_std.Base.{
  ◌⊎◌, ℕ, ◌<◌, ◌≡◌, refl, Option, none, some, List, [], ◌∷◌, ◌++◌, arith, ◌==◌, ltb, if◌then◌else◌,
}
use mg_std.Bintree.{Ptr}

module _ (rank : Ptr → ℕ) where
  abbrev pub AllBelow : ℕ → List Ptr → Type 0
  AllBelow m [] = Unit
  AllBelow m (y ∷ ys) = (rank y < m) × AllBelow m ys

  abbrev pub AllAbove : ℕ → List Ptr → Type 0
  AllAbove m [] = Unit
  AllAbove m (y ∷ ys) = (m < rank y) × AllAbove m ys

  abbrev pub IsSorted : List Ptr → Type 0
  IsSorted [] = Unit
  IsSorted (y ∷ ys) = AllAbove (rank y) ys × IsSorted ys

  -- Insertion of a node that is left out if one of its rank is there.
  abbrev pub insert_sorted : Ptr → List Ptr → List Ptr
  insert_sorted x [] = x ∷ []
  insert_sorted x (y ∷ ys) =
      let rest = insert_sorted x ys in
      if ltb (rank x) (rank y) then x ∷ (y ∷ ys) else if rank x == rank y then y ∷ ys else y ∷ rest

  -- The first node of the rank of `x`.
  abbrev pub find : Ptr → List Ptr → Option Ptr
  find x [] = none
  find x (y ∷ ys) = let rest = find x ys in if rank y == rank x then some y else rest

  AllAbove-append :
      (m : ℕ) (xs ys : List Ptr) → AllAbove m xs → AllAbove m ys → AllAbove m (xs ++ ys)
  AllAbove-append m [] ys h g = g
  AllAbove-append m (x ∷ xs) ys h g = (h.0, AllAbove-append m xs ys h.1 g)

  AllAbove-split :
      (m : ℕ) (xs ys : List Ptr) → AllAbove m (xs ++ ys) → AllAbove m xs × AllAbove m ys
  AllAbove-split m [] ys h = (tt, h)
  AllAbove-split m (x ∷ xs) ys h = let (a, b) = AllAbove-split m xs ys h.1 in ((h.0, a), b)

  pub AllAbove-weaken : (m n : ℕ) (xs : List Ptr) → m < n → AllAbove n xs → AllAbove m xs
  AllAbove-weaken m n [] l h = tt
  AllAbove-weaken m n (x ∷ xs) l h = (omega (arith, h.0), AllAbove-weaken m n xs l h.1)

  -- What stands around a node of a sorted list.
  pub IsSorted-split :
      (xs ys : List Ptr) (m : Ptr)
      → IsSorted (xs ++ (m ∷ ys))
      → IsSorted xs × AllBelow (rank m) xs × AllAbove (rank m) ys × IsSorted ys
  IsSorted-split [] ys m h = (tt, tt, h.0, h.1)
  IsSorted-split (x ∷ xs) ys m h =
      let (a, b, c, d) = IsSorted-split xs ys m h.1 in
      let (front, back) = AllAbove-split (rank x) xs (m ∷ ys) h.0 in ((front, a), (back.0, b), c, d)

  pub IsSorted-join :
      (xs ys : List Ptr) (m : Ptr)
      → IsSorted xs
      → AllBelow (rank m) xs
      → AllAbove (rank m) ys
      → IsSorted ys
      → IsSorted (xs ++ (m ∷ ys))
  IsSorted-join [] ys m a b c d = (c, d)
  IsSorted-join (x ∷ xs) ys m a b c d = (
    AllAbove-append (rank x) xs (m ∷ ys) a.0 (b.0, AllAbove-weaken (rank x) (rank m) ys b.0 c),
    IsSorted-join xs ys m a.1 b.1 c d,
  )

  AllAbove-insert_sorted :
      (m : ℕ) (x : Ptr) (ys : List Ptr)
      → m < rank x
      → AllAbove m ys
      → AllAbove m (insert_sorted x ys)
  AllAbove-insert_sorted m x [] h g = (h, tt)
  AllAbove-insert_sorted m x (y ∷ ys) h g = ground (arith, AllAbove-insert_sorted m x ys h g.1)

  pub insert_sorted-IsSorted :
      (x : Ptr) (ys : List Ptr) → IsSorted ys → IsSorted (insert_sorted x ys)
  insert_sorted-IsSorted x [] h = (tt, tt)
  insert_sorted-IsSorted x (y ∷ ys) h = ground (
    arith,
    insert_sorted-IsSorted x ys h.1,
    AllAbove-insert_sorted (rank y) x ys,
    AllAbove-weaken (rank x) (rank y) ys,
  )

  -- Insertion in a list with a node `m` in the middle goes on at the side of `m` it belongs to.
  pub insert_left :
      (x m : Ptr) (xs ys : List Ptr)
      → rank x < rank m
      → insert_sorted x (xs ++ (m ∷ ys)) ≡ insert_sorted x xs ++ (m ∷ ys)
  insert_left x m [] ys h = ground arith
  insert_left x m (z ∷ xs) ys h = ground (arith, insert_left x m xs ys h)

  pub insert_right :
      (x m : Ptr) (xs ys : List Ptr)
      → rank m < rank x
      → AllBelow (rank m) xs
      → insert_sorted x (xs ++ (m ∷ ys)) ≡ xs ++ (m ∷ insert_sorted x ys)
  insert_right x m [] ys h b = ground arith
  insert_right x m (z ∷ xs) ys h b = ground (arith, insert_right x m xs ys h b.1, b.0)

  pub insert_middle :
      (x m : Ptr) (xs ys : List Ptr)
      → rank x ≡ rank m
      → AllBelow (rank m) xs
      → insert_sorted x (xs ++ (m ∷ ys)) ≡ xs ++ (m ∷ ys)
  insert_middle x m [] ys h b = ground arith
  insert_middle x m (z ∷ xs) ys h b = ground (arith, insert_middle x m xs ys h b.1, b.0)

  find_above : (x : Ptr) (ys : List Ptr) → AllAbove (rank x) ys → find x ys ≡ none
  find_above x [] h = refl
  find_above x (y ∷ ys) h = ground (arith, find_above x ys h.1, h.0)

  -- So does search.
  pub find_left :
      (x m : Ptr) (xs ys : List Ptr)
      → rank x < rank m
      → AllAbove (rank m) ys
      → find x (xs ++ (m ∷ ys)) ≡ find x xs
  find_left x m [] ys h b =
      ground (arith, find_above x ys (AllAbove-weaken (rank x) (rank m) ys h b))
  find_left x m (z ∷ xs) ys h b = ground (arith, find_left x m xs ys h b)

  pub find_right :
      (x m : Ptr) (xs ys : List Ptr)
      → rank m < rank x
      → AllBelow (rank m) xs
      → find x (xs ++ (m ∷ ys)) ≡ find x ys
  find_right x m [] ys h b = ground arith
  find_right x m (z ∷ xs) ys h b = ground (arith, find_right x m xs ys h b.1, b.0)

  pub find_middle :
      (x m : Ptr) (xs ys : List Ptr)
      → rank m ≡ rank x
      → AllBelow (rank m) xs
      → find x (xs ++ (m ∷ ys)) ≡ some m
  find_middle x m [] ys h b = ground arith
  find_middle x m (z ∷ xs) ys h b = ground (arith, find_middle x m xs ys h b.1, b.0)

-- The comparison function says how the ranks compare.
abbrev pub Agrees : (Ptr → Ptr → Ordering) → (Ptr → ℕ) → Type 0
Agrees cmp rank = (a b : Ptr) → cmp a b ≡ compare (rank a) (rank b)

abbrev pub Compared : (Ptr → Ptr → Ordering) → (Ptr → ℕ) → Ptr → Ptr → Type 0
Compared cmp rank a b =
    ((cmp a b ≡ lt) × (rank a < rank b))
    ⊎ (((cmp a b ≡ eq) × (rank a ≡ rank b)) ⊎ ((cmp a b ≡ gt) × (rank b < rank a)))

pub compared :
    (cmp : Ptr → Ptr → Ordering) (rank : Ptr → ℕ)
    → Agrees cmp rank
    → (a b : Ptr) → Compared cmp rank a b
compared cmp rank agrees a b = rw (agrees a b) (three (rank a) (rank b))
  where
    three :
        (m n : ℕ)
        → ((compare m n ≡ lt) × (m < n))
          ⊎ (((compare m n ≡ eq) × (m ≡ n)) ⊎ ((compare m n ≡ gt) × (n < m)))
    three m n = ground arith
