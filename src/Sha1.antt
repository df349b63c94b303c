-- ===== src/Sha1.antt =====
-- src/mgsha1.c and src/mgsha1.h: SHA-1. The buffering of `mg_sha1_update`, `mg_sha1_final` and
-- `mg_sha1_file` is that of `Digest`; here are the context, the schedule and the rounds.
pub mod Laws
mod Tests
use mg_std.Base.{
  ℕ, zero, suc, ◌+◌, ◌-◌, ◌/◌, ◌^◌, ◌%◌, ◌*◌, List, [], ◌∷◌, bit_and, bit_or, bit_xor, leb,
  if◌then◌else◌, get_or, set, replicate, u32, shl32, not32, ◌>>>◌, length, Option, none, some,
}
use mg_std.Digest
use mg_std.Digest.{Ctx}
use mg_std.Digest.Load.{load_words, fill, print_words}

-- The context without the buffered bytes.
pub record Core : Type 0 where
  pub h : List ℕ
  pub k : List ℕ
  pub m : List ℕ
  pub w : List ℕ
  pub a : ℕ
  pub b : ℕ
  pub c : ℕ
  pub d : ℕ
  pub e : ℕ

-- M, W and A to E keep what the memory held.
unfoldable pub init : Ctx Core → Ctx Core
init ctx = record {
  core = record ctx.core {
    h = 0x67452301 ∷ 0xefcdab89 ∷ 0x98badcfe ∷ 0x10325476 ∷ 0xc3d2e1f0 ∷ [];
    k = 0x5a827999 ∷ 0x6ed9eba1 ∷ 0x8f1bbcdc ∷ 0xca62c1d6 ∷ [];
  };
  last_string = replicate 128 0;
  last_string_len = 0;
  all_len = 0;
}

-- The value of `W[index]` for `index <= 15`: the bytes of `M[index]` in the other order.
unfoldable pub swap_word : List ℕ → List ℕ → ℕ → ℕ
swap_word m w index =
    let x = get_or m index 0 in
    bit_or (bit_or (bit_or (x >>> 24) (shl32 x 24)) (bit_and x 0x00ff0000 >>> 8))
      (shl32 (bit_and x 0x0000ff00) 8)

-- The value of `W[index]` for `16 <= index`.
unfoldable pub expand : List ℕ → ℕ → ℕ
expand w index =
    let temp =
      bit_xor
        (bit_xor (bit_xor (get_or w (index - 16) 0) (get_or w (index - 14) 0))
          (get_or w (index - 8) 0))
        (get_or w (index - 3) 0) in
    bit_or (shl32 temp 1) (temp >>> (32 - 1))

unfoldable pub setw : Core → Core
unfolding swap_word expand
setw s = record s { w = fill expand 64 16 (fill (swap_word s.m) 16 0 s.w) }

unfoldable pub temp : ℕ → Core → ℕ
temp index s =
    let rot = bit_or (shl32 s.a 5) (s.a >>> (32 - 5)) in
    let x = get_or s.w index 0 in
    let choose = bit_or (bit_and s.b s.c) (bit_and (not32 s.b) s.d) in
    let parity = bit_xor (bit_xor s.b s.c) s.d in
    let most = bit_or (bit_or (bit_and s.b s.c) (bit_and s.c s.d)) (bit_and s.b s.d) in
    if leb index 19
    then u32 (s.e + choose + rot + x + get_or s.k 0 0)
    else if leb index 39
    then u32 (s.e + parity + rot + x + get_or s.k 1 0)
    else if leb index 59
    then u32 (s.e + most + rot + x + get_or s.k 2 0)
    else u32 (s.e + parity + rot + x + get_or s.k 3 0)

unfoldable pub step : ℕ → Core → Core
unfolding temp
step index s = record s {
  e = s.d;
  d = s.c;
  c = bit_or (shl32 s.b 30) (s.b >>> (32 - 30));
  b = s.a;
  a = temp index s;
}

-- The rounds from `index` on, `n` of them.
unfoldable pub steps : ℕ → ℕ → Core → Core
unfolding step
steps zero index s = s
steps (suc n) index s = steps n (index + 1) (step index s)

unfoldable pub add_h : Core → Core
add_h s = record s {
  h =
      u32 (get_or s.h 0 0 + s.a)
      ∷ u32 (get_or s.h 1 0 + s.b)
      ∷ u32 (get_or s.h 2 0 + s.c)
      ∷ u32 (get_or s.h 3 0 + s.d)
      ∷ u32 (get_or s.h 4 0 + s.e)
      ∷ [];
}

unfoldable pub round : Core → Core
unfolding steps add_h
round s = add_h (
    steps 80 0 (record s {
      a = get_or s.h 0 0;
      b = get_or s.h 1 0;
      c = get_or s.h 2 0;
      d = get_or s.h 3 0;
      e = get_or s.h 4 0;
    }))

-- `memcpy` of a block into M, `mg_sha1_setW` and `mg_sha1_round`.
unfoldable pub process : List ℕ → Core → Core
unfolding setw round load_words
process block s = round (setw (record s { m = load_words 4 16 block }))

unfoldable pub update : Ctx Core → List ℕ → Ctx Core
update = Digest.update 64 process

unfoldable pub final : Ctx Core → Ctx Core
final = Digest.final 64 process 55

-- The characters that `mg_sha1_final` prints.
unfoldable pub output : Ctx Core → List ℕ
output ctx = print_words 8 5 0 (final ctx).core.h

-- `ctx` is the uninitialised local variable.
unfoldable pub calc : Ctx Core → List ℕ → List ℕ
unfolding init update output
calc ctx buf = output (update (init ctx) buf)

-- `none` is a file that cannot be opened: nothing is written to the output.
unfoldable pub file : Ctx Core → Option (List ℕ) → Option (List ℕ)
unfolding init output
file ctx none = none
file ctx (some bytes) = some (output (Digest.read_file 64 process (length bytes) bytes (init ctx)))
