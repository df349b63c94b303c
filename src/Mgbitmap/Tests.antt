-- ===== src/Mgbitmap/Tests.antt =====
-- src/mgbitmap.c: an empty map for the numbers from 1 to 100.
use mg_std.Base.{
  ℕ, ◌<◌, ◌≤◌, ◌≡◌, ◌≢◌, refl, ◌⊎◌, false, none, some, arith, length, replicate, length-replicate,
}
use mg_std.Mgbitmap.{Bitmap, mgbitmap_alloc, mgbitmap_free, is_set, search}
use mg_std.Mgbitmap.Bits.{OtherBits}
use mg_std.Mgbitmap.Laws.{IsValid, AllocDone, alloc_outcome, free_outcome}

abbrev no_numbers : Bitmap
no_numbers = record { last = 1; min = 1; max = 100; map = replicate 4096 0 }

abbrev no_numbers-IsValid : IsValid no_numbers
no_numbers-IsValid = record {
  sized = length-replicate {A = ℕ} 4096 0;
  apart = omega arith;
  inside = omega arith;
  low = omega arith;
  high = omega arith;
  started = omega arith;
}

alloc_outcome_example :
    (r : ℕ × Bitmap) × (mgbitmap_alloc no_numbers ≡ some r) × AllocDone no_numbers r
alloc_outcome_example = alloc_outcome no_numbers no_numbers-IsValid

free_outcome_example :
    ((5 < 16384)
      × ((bm' : Bitmap) × (mgbitmap_free no_numbers 5 ≡ some bm')
          × (is_set bm' 5 ≡ false)
          × ((p : ℕ) → 5 ≢ p → is_set bm' p ≡ is_set no_numbers p)
          × OtherBits no_numbers bm' 5
          × (length bm'.map ≡ 4096)
          × (bm'.min ≡ 1)
          × (bm'.max ≡ 100)
          × (bm'.last ≡ 1)))
    ⊎ ((16384 ≤ 5) × (mgbitmap_free no_numbers 5 ≡ none))
free_outcome_example = free_outcome no_numbers 5 (length-replicate {A = ℕ} 4096 0)

-- From the lower bound 0 on, `mgbitmap_alloc` gives 0 and marks nothing.
stuck_at_zero :
    mgbitmap_alloc (record { last = 0; min = 0; max = 50; map = replicate 4096 0 })
    ≡ some (0, record { last = 0; min = 0; max = 50; map = replicate 4096 0 })
unfolding mgbitmap_alloc search
stuck_at_zero = refl
