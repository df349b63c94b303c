-- ===== src/Mgstack/Laws.antt =====
-- src/mgstack.c: the array implements a list, the last element on top.
use mg_std.Base.{
  ℕ, zero, suc, ◌+◌, ◌-◌, ◌*◌, ◌^◌, ◌≤◌, ◌<◌, ◌≡◌, ◌≢◌, refl, ap, ◌∙◌, sym, subst, ℤ, pos, negsuc,
  ◌⊎◌, inl, inr, Bool, true, false, List, [], ◌∷◌, ◌++◌, arith, ◌==◌, not, ◌&&◌, ◌||◌, Bool-cases,
  if◌then◌else◌, get_or, set, take, length, length-set, length-append, take-append_le, replicate,
  length-replicate, some,
}
use mg_std.Mgstack.{Stack, init, cells, store, grow, push, pop}

-- The array has the allocated size, which the elements do not exceed.
pub record IsValid (s : Stack) : Type 0 where
  pub sized : length s.slots ≡ s.alloc_num
  pub room : s.data_num ≤ s.alloc_num
  pub some_room : 0 < s.alloc_num

-- The elements, the first pushed first.
abbrev pub contents : Stack → List ℕ
contents s = take s.data_num s.slots

take-set :
    (xs : List ℕ) (n v : ℕ) → n < length xs → take (suc n) (set xs n v) ≡ take n xs ++ (v ∷ [])
take-set [] n v h = absurd (omega arith)
take-set (x ∷ xs) zero v h = refl
take-set (x ∷ xs) (suc n) v h = ap (◌∷◌ x) (take-set xs n v (omega arith))

take-get_or :
    (xs : List ℕ) (n : ℕ) → n < length xs → take (suc n) xs ≡ take n xs ++ (get_or xs n 0 ∷ [])
take-get_or [] n h = absurd (omega arith)
take-get_or (x ∷ xs) zero h = refl
take-get_or (x ∷ xs) (suc n) h = ap (◌∷◌ x) (take-get_or xs n (omega arith))

module _ (allocates : ℕ → Bool) (junk : ℕ → ℕ) where
  length-cells : (n i : ℕ) → length (cells allocates junk n i) ≡ n
  unfolding cells
  length-cells zero i = refl
  length-cells (suc n) i = ap suc (length-cells n (i + 1))

  store_lem :
      (s : Stack) (x : ℕ)
      → IsValid s
      → s.data_num < s.alloc_num
      → IsValid (store allocates junk s x)
        × (contents (store allocates junk s x) ≡ contents s ++ (x ∷ []))
  unfolding store
  store_lem s x v l =
      let e = v.sized in
      (
        record {
          sized = length-set s.slots s.data_num x ∙ v.sized;
          room = omega arith;
          some_room = v.some_room;
        },
        (let n : s.data_num + 1 ≡ suc s.data_num = omega arith in
            rw n (take-set s.slots s.data_num x (omega arith))),
      )

  grow_lem :
      (s : Stack)
      → IsValid s
      → s.data_num ≡ s.alloc_num
      → IsValid (grow allocates junk s)
        × (contents (grow allocates junk s) ≡ contents s)
        × ((grow allocates junk s).data_num < (grow allocates junk s).alloc_num)
  unfolding grow
  grow_lem s v full =
      let fresh = cells allocates junk (s.alloc_num * 2 - s.alloc_num) s.alloc_num in
      let e = v.sized in
      let r = v.some_room in
      (
        record {
          sized = omega (
            arith,
            length-append s.slots fresh,
            length-cells (s.alloc_num * 2 - s.alloc_num) s.alloc_num,
          );
          room = omega arith;
          some_room = omega arith;
        },
        take-append_le s.slots fresh s.data_num (omega arith),
        omega arith,
      )

  -- A push is accepted: the pointer is not NULL, and there is room or the array may and can grow.
  abbrev pub accepts : Stack → ℕ → Bool
  accepts s x =
      not (x == 0)
      && (not (s.data_num == s.alloc_num) || (not s.limited && allocates (8 * (s.alloc_num * 2))))

  -- An accepted push: the array doubles if it is full, and the stack counts as unsorted.
  abbrev pub Pushed : Stack → ℕ → ℤ × Stack → Type 0
  Pushed s x (code, t) =
      (code ≡ pos 0)
      × IsValid t
      × (contents t ≡ contents s ++ (x ∷ []))
      × (t.data_num ≡ s.data_num + 1)
      × (t.alloc_num ≡ (if s.data_num == s.alloc_num then s.alloc_num * 2 else s.alloc_num))
      × (t.alloc_num < 2 ^ 31)
      × (t.sorted ≡ false)
      × (t.limited ≡ s.limited)

  -- A refused push.
  abbrev pub Refused : Stack → ℤ × Stack → Type 0
  Refused s (code, t) = (code ≢ pos 0) × (t ≡ s)

  abbrev pub PushResult : Stack → ℕ → Type 0
  PushResult s x =
      ((accepts s x ≡ true) × Pushed s x (push allocates junk s x))
      ⊎ ((accepts s x ≡ false) × Refused s (push allocates junk s x))

  full_outcome :
      (s : Stack) (x : ℕ)
      → IsValid s
      → s.alloc_num < 2 ^ 30
      → (x == 0) ≡ false
      → (s.data_num == s.alloc_num) ≡ true
      → PushResult s x
  unfolding push store grow
  full_outcome s x v small nz full = elim (Bool-cases s.limited) [
    | inl lim ↦ inr (rw (nz, full, lim) refl, rw (nz, full, lim) (λ e. ground arith, refl))
    | inr open_end ↦ elim (Bool-cases (allocates (8 * (s.alloc_num * 2)))) [
      | inl fits ↦
          let gr = grow_lem s v (ground arith) in
          let st = store_lem (grow allocates junk s) x gr.0 gr.2 in
          let grown = store allocates junk (grow allocates junk s) x in
          let rest : ℤ × Stack =
            if not (allocates (8 * (s.alloc_num * 2))) then (negsuc 2, s) else (pos 0, grown) in
          let added : Pushed s x (pos 0, grown) = (
            refl,
            st.0,
            st.1 ∙ ap (λ (l : List ℕ). l ++ (x ∷ [])) gr.1,
            refl,
            rw full refl,
            omega (arith, small),
            refl,
            refl,
          ) in
          let allowed : Pushed s x rest = rw fits added in
          let open_case : Pushed s x (if s.limited then (negsuc 1, s) else rest) =
            subst (λ (b : Bool). Pushed s x (if b then (negsuc 1, s) else rest)) (sym open_end)
              allowed in
          let run : push allocates junk s x ≡ (if s.limited then (negsuc 1, s) else rest) =
            rw (nz, full) refl in
          inl (rw (nz, full, open_end, fits) refl, subst (Pushed s x) (sym run) open_case)
      | inr fails ↦ inr (
        rw (nz, full, open_end, fails) refl,
        rw (nz, full, open_end, fails) (λ e. ground arith, refl),
      )
    ]
  ]

  -- `mg_stack_push` of a valid stack whose array has fewer than 2^30 cells: a push of a pointer that
  -- is not NULL returns 0 and adds it on top, doubling the array if it was full and marking the
  -- stack as not sorted, if there is room or the array may grow and the allocation succeeds; every
  -- other push returns another code and changes nothing.
  pub push_outcome : (s : Stack) (x : ℕ) → IsValid s → s.alloc_num < 2 ^ 30 → PushResult s x
  unfolding push store
  push_outcome s x v small = elim (Bool-cases (x == 0)) [
    | inl nil ↦ inr (rw nil refl, rw nil (λ e. ground arith, refl))
    | inr nz ↦ elim (Bool-cases (s.data_num == s.alloc_num)) [
      | inl full ↦ full_outcome s x v small nz full
      | inr part ↦
          let st = store_lem s x v (let r = v.room in ground arith) in
          let run : push allocates junk s x ≡ (pos 0, store allocates junk s x) =
            rw (nz, part) refl in
          inl (
            rw (nz, part) refl,
            subst (Pushed s x) (sym run)
                (refl, st.0, st.1, refl, rw part refl, omega (arith, small), refl, refl),
          )
    ]
  ]

  -- The size of a new array.
  abbrev pub first_size : ℕ → ℕ
  first_size data_max = if data_max == 0 then 64 else data_max

  -- `mg_stack_init`, if both allocations succeed, gives a valid stack without elements, which may
  -- grow just when the size 0 was asked for.
  pub init_valid :
      (struct_size data_max : ℕ)
      → allocates struct_size ≡ true
      → allocates (8 * first_size data_max) ≡ true
      → (s : Stack) × (init allocates junk struct_size data_max ≡ some s)
        × IsValid s
        × (contents s ≡ [])
        × (s.limited ≡ not (data_max == 0))
  unfolding init
  init_valid struct_size data_max a b =
      let n = first_size data_max in
      (
        record {
          data_num = 0;
          alloc_num = n;
          sorted = false;
          limited = not (data_max == 0);
          slots = replicate n 0;
        },
        rw (a, b) refl,
        record {
          sized = length-replicate n 0;
          room = omega arith;
          some_room = elim (Bool-cases (data_max == 0)) [
            | inl z ↦ rw z (omega arith)
            | inr nz ↦ rw nz (ground arith)
          ];
        },
        refl,
        refl,
      )

-- What `mg_stack_pop` gives back: NULL and the same stack, or the top of a stack whose other
-- elements are left.
abbrev pub Popped : Stack → ℕ × Stack → Type 0
Popped s (x, t) =
    ((contents s ≡ []) × (x ≡ 0) × (t ≡ s)) ⊎ (IsValid t × (contents s ≡ contents t ++ (x ∷ [])))

-- `mg_stack_pop` of a valid stack takes the element pushed last, and of an empty one returns NULL
-- and changes nothing.
pub pop_outcome : (s : Stack) → IsValid s → Popped s (pop s)
unfolding pop
pop_outcome s v = elim (Bool-cases (s.data_num == 0)) [
  | inl none_left ↦
      let z : s.data_num ≡ 0 = ground arith in inl (rw z refl, rw none_left refl, rw none_left refl)
  | inr some_left ↦
      let n : s.data_num ≡ suc (s.data_num - 1) = ground arith in
      let e = v.sized in
      let r = v.room in
      rw some_left (
        inr (
          record { sized = v.sized; room = omega arith; some_room = v.some_room },
          ap (λ (k : ℕ). take k s.slots) n ∙ take-get_or s.slots (s.data_num - 1) (omega arith),
        ))
]
