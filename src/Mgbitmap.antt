-- ===== src/Mgbitmap.antt =====
-- src/mgbitmap.c: numbers between two bounds that are handed out and taken back, a bit for each.
-- `none` is an access past the array `map`. The words of a new map are what `malloc` left there, a
-- parameter. The structure that is handed over is not NULL.
pub mod Bits
pub mod Laws
mod Tests
use mg_std.Base.{
  ℕ, zero, suc, ◌+◌, ◌-◌, ◌*◌, ◌/◌, ◌%◌, ◌^◌, Bool, true, false, Option, none, some, List, ◌==◌,
  ltb, leb, if◌then◌else◌, get_or, set,
}

pub record Bitmap : Type 0 where
  pub last : ℕ
  pub min : ℕ
  pub max : ℕ
  pub map : List ℕ

-- `w & (1 << b)`
unfoldable pub test_bit : ℕ → ℕ → Bool
test_bit zero w = w % 2 == 1
test_bit (suc b) w = test_bit b (w / 2)

-- `w | (1 << b)` for `true`, `w & ~(1 << b)` for `false`.
unfoldable pub put_bit : Bool → ℕ → ℕ → ℕ
put_bit v zero w = w / 2 * 2 + (if v then 1 else 0)
put_bit v (suc b) w = put_bit v b (w / 2) * 2 + w % 2

-- `mgbitmap_init`; the numbers are of 16 bits, never negative.
unfoldable pub mgbitmap_init : Bool → List ℕ → ℕ → ℕ → Option Bitmap
mgbitmap_init allocated junk min max =
    if ltb max min
    then none
    else if allocated
    then some (record { last = min; min = min; max = max; map = junk })
    else none

-- The bit of `offset`: `-` binds closer than `>>`, so that the word is `offset >> 2`.
abbrev pub word : ℕ → ℕ
word offset = offset / 4

unfoldable pub is_set : Bitmap → ℕ → Bool
unfolding test_bit
is_set bm offset = test_bit (offset % 16) (get_or bm.map (word offset) 0)

unfoldable pub put : Bool → Bitmap → ℕ → Bitmap
unfolding put_bit
put v bm offset = record bm {
  map = set bm.map (word offset) (put_bit v (offset % 16) (get_or bm.map (word offset) 0));
}

-- The returned number and the map.
unfoldable pub test_and_set_bit : Bitmap → ℕ → Option (ℕ × Bitmap)
unfolding is_set put
test_and_set_bit bm offset =
    if ltb (word offset) 4096
    then (if is_set bm offset then some (0, bm) else some (1, put true bm offset))
    else none

unfoldable pub mgbitmap_free : Bitmap → ℕ → Option Bitmap
unfolding put
mgbitmap_free bm offset = if ltb (word offset) 4096 then some (put false bm offset) else none

-- `if (++offset >= bm->max) offset = bm->min + 1`
unfoldable pub advance : Bitmap → ℕ → ℕ
advance bm offset =
    let next = (offset + 1) % 2 ^ 16 in if leb bm.max next then (bm.min + 1) % 2 ^ 16 else next

-- The end of a turn: the break, or the next turn.
abbrev pub end_turn : ℕ → Option (ℕ × Bitmap) → Option (ℕ × Bitmap) → Option (ℕ × Bitmap)
end_turn offset none again = none
end_turn offset (some (zero, bm)) again = again
end_turn offset (some (suc r, bm)) again = some (offset, record bm { last = offset })

-- `while (offset)` with n = max - min - count: the returned number and the map.
unfoldable pub search : ℕ → Bitmap → ℕ → Option (ℕ × Bitmap)
unfolding advance test_and_set_bit
search zero bm offset = if offset == 0 then some (0, record bm { last = 0 }) else some (bm.max, bm)
search (suc n) bm offset =
    let next = advance bm offset in
    let rest = search n bm next in
    if offset == 0
    then some (0, record bm { last = 0 })
    else end_turn next (test_and_set_bit bm next) rest

unfoldable pub mgbitmap_alloc : Bitmap → Option (ℕ × Bitmap)
unfolding search
mgbitmap_alloc bm = search (bm.max - bm.min) bm bm.last
