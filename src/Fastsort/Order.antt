-- ===== src/Fastsort/Order.antt =====
-- src/mgfastsort.c: what the comparison and the exchange promise, and arrays that differ by
-- exchanges.
use mg_std.Base.{
  ℕ, zero, suc, ◌<◌, ◌≤◌, ◌≡◌, ◌≢◌, refl, sym, subst, ap, ◌∙◌, ◌⊎◌, inl, inr, ℤ, true, some, arith,
  ◌==◌, if◌then◌else◌, Bool-cases,
}
use mg_std.Fastsort.{not_positive, not_negative, sort}

module _ {ℓ} {A : Type ℓ} where
  -- A comparison function: a total preorder whose answer changes sign with its arguments.
  pub record IsOrder (cmp : A → A → ℤ) : Type ℓ where
    pub refl_cmp : (a : A) → not_positive (cmp a a) ≡ true
    pub flip : (a b : A) → not_negative (cmp a b) ≡ not_positive (cmp b a)
    pub trans_cmp :
        (a b c : A)
        → not_positive (cmp a b) ≡ true
        → not_positive (cmp b c) ≡ true
        → not_positive (cmp a c) ≡ true

  -- The exchange of two elements.
  abbrev pub Exchanges : ((ℕ → A) → ℕ → ℕ → (ℕ → A)) → Type ℓ
  Exchanges swap =
      (list : ℕ → A) (i j k : ℕ)
      → swap list i j k ≡ (if k == i then list j else if k == j then list i else list k)

  -- From one array to another by exchanges of elements from `lo` on and below `hi`.
  pub data Swaps (swap : (ℕ → A) → ℕ → ℕ → (ℕ → A)) (lo hi : ℕ) : (ℕ → A) → (ℕ → A) → Type ℓ where
    done : {a : ℕ → A} → Swaps swap lo hi a a
    step :
        {a b : ℕ → A} (i j : ℕ)
        → lo ≤ i
        → i < hi
        → lo ≤ j
        → j < hi
        → Swaps swap lo hi (swap a i j) b
        → Swaps swap lo hi a b

  module _ {swap : (ℕ → A) → ℕ → ℕ → (ℕ → A)} (law : Exchanges swap) (a : ℕ → A) (i j : ℕ) where
    pub swap-first : swap a i j i ≡ a j
    swap-first = law a i j i ∙ ground arith

    pub swap-second : swap a i j j ≡ a i
    swap-second = law a i j j ∙ elim (Bool-cases (j == i)) [
      | inl e ↦ rw e (ap a (ground arith))
      | inr ne ↦ rw ne (ground arith)
    ]

    pub swap-other : (k : ℕ) → k ≢ i → k ≢ j → swap a i j k ≡ a k
    swap-other k ni nj = law a i j k ∙ ground arith

    -- Each element after an exchange is one of the elements before it, from the same range.
    pub swap-all : (P : A → Type 0) (k : ℕ) → P (a i) → P (a j) → P (a k) → P (swap a i j k)
    swap-all P k pi pj pk = subst P (sym (law a i j k)) (elim (Bool-cases (k == i)) [
      | inl e ↦ rw e pj
      | inr ne ↦ rw ne (elim (Bool-cases (k == j)) [ inl e ↦ rw e pi | inr nj ↦ rw nj pk ])
    ])

  module _ {swap : (ℕ → A) → ℕ → ℕ → (ℕ → A)} {lo hi : ℕ} where
    pub Swaps-append :
        {a b c : ℕ → A} → Swaps swap lo hi a b → Swaps swap lo hi b c → Swaps swap lo hi a c
    Swaps-append done q = q
    Swaps-append (step i j li hi' lj hj p) q = step i j li hi' lj hj (Swaps-append p q)

    pub Swaps-widen :
        {a b : ℕ → A} {lo' hi' : ℕ}
        → lo' ≤ lo
        → hi ≤ hi'
        → Swaps swap lo hi a b
        → Swaps swap lo' hi' a b
    Swaps-widen l h done = done
    Swaps-widen l h (step i j li hi' lj hj p) =
        step i j (omega arith) (omega arith) (omega arith) (omega arith) (Swaps-widen l h p)

    module _ (law : Exchanges swap) where
      -- The elements outside stay.
      pub Swaps-outside :
          {a b : ℕ → A} → Swaps swap lo hi a b → (k : ℕ) → (k < lo) ⊎ (hi ≤ k) → b k ≡ a k
      Swaps-outside done k out = refl
      Swaps-outside (step {a = a} i j li hi' lj hj p) k out =
          Swaps-outside p k out ∙ swap-other law a i j k (ground arith) (ground arith)

      -- What holds of every element inside holds of every element inside afterwards.
      pub Swaps-all :
          {a b : ℕ → A} (P : A → Type 0)
          → Swaps swap lo hi a b
          → ((k : ℕ) → lo ≤ k → k < hi → P (a k))
          → (k : ℕ) → lo ≤ k
          → k < hi
          → P (b k)
      Swaps-all P done h = h
      Swaps-all P (step {a = a} i j li hi' lj hj p) h =
          Swaps-all P p λ k l u. swap-all law a i j P k (h i li hi') (h j lj hj) (h k l u)

-- One element or none.
module _ {ℓ} {A : Type ℓ} (cmp : (ℕ → A) → ℕ → ℕ → ℤ) (swap : (ℕ → A) → ℕ → ℕ → (ℕ → A)) where
  pub sort_stop :
      (fuel first last : ℕ) (a : ℕ → A)
      → 1 ≤ fuel
      → last ≤ first
      → sort cmp swap fuel first last a ≡ some a
  unfolding sort
  sort_stop zero first last a f h = absurd (omega arith)
  sort_stop (suc fuel) first last a f h = ground arith
