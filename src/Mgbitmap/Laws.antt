-- ===== src/Mgbitmap/Laws.antt =====
-- src/mgbitmap.c: which number `mgbitmap_alloc` gives, and what it and `mgbitmap_free` change.
use mg_std.Base.{
  ℕ, zero, suc, ◌+◌, ◌-◌, ◌%◌, ◌^◌, ◌<◌, ◌≤◌, ◌≡◌, ◌≢◌, refl, sym, ap, ◌∙◌, ◌⊎◌, inl, inr, true,
  false, none, some, arith, ◌==◌, ltb, leb, Bool-cases, set, length, length-set, lt_or_le,
}
use mg_std.Mgbitmap.{
  Bitmap, word, is_set, put, test_and_set_bit, mgbitmap_free, advance, search, mgbitmap_alloc,
}
use mg_std.Mgbitmap.Bits.{is_set-put_self, is_set-put_ne, OtherBits, put-OtherBits}

-- Bounds that the map has room for, with a number between them, and a start between them that is
-- not 0.
pub record IsValid (bm : Bitmap) : Type 0 where
  pub sized : length bm.map ≡ 4096
  pub apart : bm.min + 2 ≤ bm.max
  pub inside : bm.max ≤ 16384
  pub low : bm.min ≤ bm.last
  pub high : bm.last < bm.max
  pub started : 0 < bm.last

-- Every number between the bounds is handed out.
abbrev pub AllSet : Bitmap → ℕ → ℕ → Type 0
AllSet bm lo hi = (k : ℕ) → lo < k → k < hi → is_set bm k ≡ true

-- A number was free and is handed out now; the other numbers, every other bit of the map and the
-- bounds are as they were, and the search goes on from the number.
abbrev pub Reserved : Bitmap → ℕ × Bitmap → Type 0
Reserved bm (o, bm') =
    (bm.min < o)
    × (o < bm.max)
    × (is_set bm o ≡ false)
    × (is_set bm' o ≡ true)
    × ((p : ℕ) → o ≢ p → is_set bm' p ≡ is_set bm p)
    × OtherBits bm bm' o
    × (length bm'.map ≡ length bm.map)
    × (bm'.min ≡ bm.min)
    × (bm'.max ≡ bm.max)
    × (bm'.last ≡ o)
    × IsValid bm'

abbrev pub AllocDone : Bitmap → ℕ × Bitmap → Type 0
AllocDone bm r = Reserved bm r ⊎ ((r ≡ (bm.max, bm)) × AllSet bm bm.min bm.max)

module _ (bm : Bitmap) (valid : IsValid bm) where
  -- The turns before the end of the numbers, after it, and when every number has been seen.
  abbrev Phase : ℕ → ℕ → Type 0
  Phase n o =
      ((bm.last ≤ o) × (n + (o - bm.last) ≡ bm.max - bm.min) × AllSet bm bm.last (o + 1))
      ⊎ ((n + o ≡ bm.last + 1) × AllSet bm bm.last bm.max × AllSet bm bm.min (o + 1))
      ⊎ AllSet bm bm.min bm.max

  next_of :
      (o : ℕ)
      → bm.min ≤ o
      → o < bm.max
      → ((advance bm o ≡ o + 1) × (o + 1 < bm.max))
        ⊎ ((advance bm o ≡ bm.min + 1) × (o + 1 ≡ bm.max))
  unfolding advance
  next_of o l u =
      let a = valid.apart in
      let b = valid.inside in
      let c = valid.low in
      let d = valid.high in
      let small : (o + 1) % 2 ^ 16 ≡ o + 1 = omega arith in
      let first : (bm.min + 1) % 2 ^ 16 ≡ bm.min + 1 = omega arith in
      elim (lt_or_le (o + 1) bm.max) [
        | inl before ↦
            let test : leb bm.max (o + 1) ≡ false = ground arith in
            inl (rw (small, test) refl, before)
        | inr past ↦
            let test : leb bm.max (o + 1) ≡ true = ground arith in
            inr (rw (small, test, first) refl, omega arith)
      ]

  one_more : (lo o : ℕ) → AllSet bm lo (o + 1) → is_set bm (o + 1) ≡ true → AllSet bm lo (o + 1 + 1)
  one_more lo o all here k l u = elim (lt_or_le k (o + 1)) [
    | inl before ↦ all k l before
    | inr at ↦ let q : k ≡ o + 1 = omega arith in ap (is_set bm) q ∙ here
  ]

  Phase-next :
      (n o : ℕ)
      → bm.min ≤ o
      → o < bm.max
      → Phase (suc n) o
      → is_set bm (advance bm o) ≡ true
      → Phase n (advance bm o)
  Phase-next n o l u phase here = elim (next_of o l u) [
    | inl (step, below) ↦ rw step (phase_step phase below (ap (is_set bm) (sym step) ∙ here))
    | inr (back, end) ↦ rw back (phase_back phase end (ap (is_set bm) (sym back) ∙ here))
  ]
    where
      phase_step : Phase (suc n) o → o + 1 < bm.max → is_set bm (o + 1) ≡ true → Phase n (o + 1)
      phase_step (inl (from, count, all)) below set =
          inl (omega arith, omega arith, one_more bm.last o all set)
      phase_step (inr (inl (count, high, all))) below set =
          inr (inl (omega arith, high, one_more bm.min o all set))
      phase_step (inr (inr all)) below set = inr (inr all)

      phase_back :
          Phase (suc n) o → o + 1 ≡ bm.max → is_set bm (bm.min + 1) ≡ true → Phase n (bm.min + 1)
      phase_back (inl (from, count, all)) end set =
          let a = valid.low in
          inr (
            inl (
              omega arith,
              (λ k lk uk. all k lk (omega arith)),
              λ k lk uk. let q : k ≡ bm.min + 1 = omega arith in ap (is_set bm) q ∙ set,
            ))
      phase_back (inr (inl (count, high, all))) end set =
          inr (inr (λ k lk uk. all k lk (omega arith)))
      phase_back (inr (inr all)) end set = inr (inr all)

  Phase-end : (o : ℕ) → o < bm.max → Phase 0 o → AllSet bm bm.min bm.max
  Phase-end o u (inl (from, count, all)) = let a = valid.low in absurd (omega arith)
  Phase-end o u (inr (inl (count, high, all))) = λ k l h. elim (lt_or_le k (o + 1)) [
    | inl before ↦ all k l before
    | inr past ↦ high k (omega arith) h
  ]
  Phase-end o u (inr (inr all)) = all

  reserve :
      (o : ℕ)
      → bm.min < o
      → o < bm.max
      → is_set bm o ≡ false
      → Reserved bm (o, record (put true bm o) { last = o })
  unfolding put is_set
  reserve o l u free =
      let room : word o < length bm.map = omega (arith, valid.sized, valid.inside) in
      (
        l,
        u,
        free,
        is_set-put_self true bm o room,
        (λ p ne. is_set-put_ne true bm o p room ne),
        put-OtherBits true bm o room,
        length-set bm.map (word o) _,
        refl,
        refl,
        refl,
        record {
          sized = length-set bm.map (word o) _ ∙ valid.sized;
          apart = valid.apart;
          inside = valid.inside;
          low = omega arith;
          high = u;
          started = omega arith;
        },
      )

  search_lem :
      (n o : ℕ)
      → bm.min ≤ o
      → o < bm.max
      → 0 < o
      → Phase n o
      → (r : ℕ × Bitmap) × (search n bm o ≡ some r) × AllocDone bm r
  unfolding search test_and_set_bit
  search_lem zero o l u s phase = ((bm.max, bm), (ground arith), inr (refl, Phase-end o u phase))
  search_lem (suc n) o l u s phase =
      let nonzero : (o == 0) ≡ false = ground arith in
      let (low, high) = between (next_of o l u) in
      let room : ltb (word (advance bm o)) 4096 ≡ true = ground (arith, valid.inside) in
      elim (Bool-cases (is_set bm (advance bm o))) [
        | inl taken ↦
            rw (nonzero, room, taken)
              (search_lem n (advance bm o) (omega arith) high (omega arith)
                (Phase-next n o l u phase taken))
        | inr free ↦
            rw (nonzero, room, free)
              (
                (advance bm o, record (put true bm (advance bm o)) { last = advance bm o }),
                refl,
                inl (reserve (advance bm o) low high free),
              )
      ]
    where
      between :
          ((advance bm o ≡ o + 1) × (o + 1 < bm.max))
            ⊎ ((advance bm o ≡ bm.min + 1) × (o + 1 ≡ bm.max))
          → (bm.min < advance bm o) × (advance bm o < bm.max)
      between (inl (q, h)) = (omega arith, omega arith)
      between (inr (q, h)) = let a = valid.apart in (omega arith, omega arith)

-- `mgbitmap_alloc` of a valid map returns, without an access past the array: either it gives a
-- number between the bounds that was free, marks it, changes no other bit of the map and no bound,
-- and stores it as the last one, or every number between the bounds was handed out, and it gives
-- `max` and changes nothing.
pub alloc_outcome :
    (bm : Bitmap) → IsValid bm → (r : ℕ × Bitmap) × (mgbitmap_alloc bm ≡ some r) × AllocDone bm r
unfolding mgbitmap_alloc
alloc_outcome bm valid =
    search_lem bm valid (bm.max - bm.min) bm.last valid.low valid.high valid.started
      (inl (omega arith, omega arith, λ k l u. absurd (omega arith)))

-- `mgbitmap_free` of a number below 16384 makes it free and changes no other bit of the map, no
-- bound and not the last number; of a larger one it writes past the array.
pub free_outcome :
    (bm : Bitmap) (o : ℕ)
    → length bm.map ≡ 4096
    → ((o < 16384)
        × ((bm' : Bitmap) × (mgbitmap_free bm o ≡ some bm')
            × (is_set bm' o ≡ false)
            × ((p : ℕ) → o ≢ p → is_set bm' p ≡ is_set bm p)
            × OtherBits bm bm' o
            × (length bm'.map ≡ 4096)
            × (bm'.min ≡ bm.min)
            × (bm'.max ≡ bm.max)
            × (bm'.last ≡ bm.last)))
      ⊎ ((16384 ≤ o) × (mgbitmap_free bm o ≡ none))
unfolding mgbitmap_free put
free_outcome bm o sized = elim (lt_or_le o 16384) [
  | inl inside ↦
      let room : word o < length bm.map = omega arith in
      inl (
        inside,
        (
          put false bm o,
          ground arith,
          is_set-put_self false bm o room,
          (λ p ne. is_set-put_ne false bm o p room ne),
          put-OtherBits false bm o room,
          length-set bm.map (word o) _ ∙ sized,
          refl,
          refl,
          refl,
        ),
      )
  | inr past ↦ inr (past, ground arith)
]
