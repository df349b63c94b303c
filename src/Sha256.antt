-- ===== src/Sha256.antt =====
-- src/mgsha256.c and src/mgsha256.h: SHA-256. The buffering of `_update`, `_final` and
-- `_file` is that of `Digest`; here are the context, the schedule and the rounds.
pub mod Laws
mod Tests
use mg_std.Base.{
  ℕ, zero, suc, ◌+◌, ◌-◌, ◌/◌, ◌^◌, ◌%◌, ◌*◌, List, [], ◌∷◌, bit_and, bit_or, bit_xor, get_or, set,
  replicate, u32, shl32, not32, ◌>>>◌, length, Option, none, some, ℤ, pos, negsuc,
}
use mg_std.Digest
use mg_std.Digest.{Ctx}
use mg_std.Digest.Load.{load_words, fill, print_words}

-- The context without the buffered bytes.
pub record Core : Type 0 where
  pub h : List ℕ
  pub k : List ℕ
  pub m : List ℕ
  pub w : List ℕ

-- The table that the initialisation stores in K.
abbrev pub round_constants : List ℕ
round_constants =
    0x428a2f98 ∷ 0x71374491 ∷ 0xb5c0fbcf ∷ 0xe9b5dba5 ∷ 0x3956c25b ∷ 0x59f111f1 ∷ 0x923f82a4
    ∷ 0xab1c5ed5 ∷ 0xd807aa98 ∷ 0x12835b01 ∷ 0x243185be ∷ 0x550c7dc3 ∷ 0x72be5d74 ∷ 0x80deb1fe
    ∷ 0x9bdc06a7 ∷ 0xc19bf174 ∷ 0xe49b69c1 ∷ 0xefbe4786 ∷ 0x0fc19dc6 ∷ 0x240ca1cc ∷ 0x2de92c6f
    ∷ 0x4a7484aa ∷ 0x5cb0a9dc ∷ 0x76f988da ∷ 0x983e5152 ∷ 0xa831c66d ∷ 0xb00327c8 ∷ 0xbf597fc7
    ∷ 0xc6e00bf3 ∷ 0xd5a79147 ∷ 0x06ca6351 ∷ 0x14292967 ∷ 0x27b70a85 ∷ 0x2e1b2138 ∷ 0x4d2c6dfc
    ∷ 0x53380d13 ∷ 0x650a7354 ∷ 0x766a0abb ∷ 0x81c2c92e ∷ 0x92722c85 ∷ 0xa2bfe8a1 ∷ 0xa81a664b
    ∷ 0xc24b8b70 ∷ 0xc76c51a3 ∷ 0xd192e819 ∷ 0xd6990624 ∷ 0xf40e3585 ∷ 0x106aa070 ∷ 0x19a4c116
    ∷ 0x1e376c08 ∷ 0x2748774c ∷ 0x34b0bcb5 ∷ 0x391c0cb3 ∷ 0x4ed8aa4a ∷ 0x5b9cca4f ∷ 0x682e6ff3
    ∷ 0x748f82ee ∷ 0x78a5636f ∷ 0x84c87814 ∷ 0x8cc70208 ∷ 0x90befffa ∷ 0xa4506ceb ∷ 0xbef9a3f7
    ∷ 0xc67178f2 ∷ []

-- M and W keep what the memory held.
unfoldable pub init : Ctx Core → Ctx Core
init ctx = record {
  core = record ctx.core {
    h =
        0x6a09e667 ∷ 0xbb67ae85 ∷ 0x3c6ef372 ∷ 0xa54ff53a ∷ 0x510e527f ∷ 0x9b05688c ∷ 0x1f83d9ab
        ∷ 0x5be0cd19 ∷ [];
    k = round_constants;
  };
  last_string = replicate 128 0;
  last_string_len = 0;
  all_len = 0;
}

-- `(input >> n) | (input << (32 - n))`
unfoldable pub rotate : ℕ → ℕ → ℕ
rotate input n = bit_or (input >>> n) (shl32 input (32 - n))

-- A third count that is not positive asks for a shift instead of a rotation.
unfoldable pub third_term : ℕ → ℤ → ℕ
unfolding rotate
third_term input (pos zero) = input >>> 0
third_term input (pos (suc n)) = rotate input (suc n)
third_term input (negsuc n) = input >>> suc n

unfoldable pub shift_num3 : ℕ → ℕ → ℕ → ℤ → ℕ
unfolding rotate third_term
shift_num3 input one two three =
    bit_xor (bit_xor (bit_xor 0 (rotate input one)) (rotate input two)) (third_term input three)

-- The value of `W[index]` for `index <= 15`: the bytes of `M[index]` in the other order.
unfoldable pub swap_word : List ℕ → List ℕ → ℕ → ℕ
swap_word m w index =
    let x = get_or m index 0 in
    bit_or (bit_or (bit_or (x >>> 24) (shl32 x 24)) (bit_and x 0x00ff0000 >>> 8))
      (shl32 (bit_and x 0x0000ff00) 8)

-- The value of `W[index]` for `16 <= index`.
unfoldable pub expand : List ℕ → ℕ → ℕ
unfolding shift_num3
expand w index =
    let s0 = shift_num3 (get_or w (index - 2) 0) 17 19 (negsuc 9) in
    let s1 = shift_num3 (get_or w (index - 15) 0) 7 18 (negsuc 2) in
    u32 (s0 + get_or w (index - 7) 0 + s1 + get_or w (index - 16) 0)

unfoldable pub setw : Core → Core
unfolding swap_word expand
setw s = record s { w = fill expand 48 16 (fill (swap_word s.m) 16 0 s.w) }

-- The local variables A to G and I of the rounds.
pub record Regs : Type 0 where
  pub a : ℕ
  pub b : ℕ
  pub c : ℕ
  pub d : ℕ
  pub e : ℕ
  pub f : ℕ
  pub g : ℕ
  pub i : ℕ

unfoldable pub step : Core → ℕ → Regs → Regs
unfolding shift_num3
step s index r =
    let s0 = shift_num3 r.a 2 13 (pos 22) in
    let t2 = u32 (s0 + bit_xor (bit_xor (bit_and r.a r.b) (bit_and r.a r.c)) (bit_and r.b r.c)) in
    let s1 = shift_num3 r.e 6 11 (pos 25) in
    let choose = bit_xor (bit_and r.e r.f) (bit_and (not32 r.e) r.g) in
    let t1 = u32 (r.i + s1 + choose + get_or s.k index 0 + get_or s.w index 0) in
    record {
      i = r.g;
      g = r.f;
      f = r.e;
      e = u32 (r.d + t1);
      d = r.c;
      c = r.b;
      b = r.a;
      a = u32 (t1 + t2);
    }

-- The rounds from `index` on, `n` of them.
unfoldable pub steps : Core → ℕ → ℕ → Regs → Regs
unfolding step
steps s zero index r = r
steps s (suc n) index r = steps s n (index + 1) (step s index r)

unfoldable pub load_regs : List ℕ → Regs
load_regs h = record {
  a = get_or h 0 0;
  b = get_or h 1 0;
  c = get_or h 2 0;
  d = get_or h 3 0;
  e = get_or h 4 0;
  f = get_or h 5 0;
  g = get_or h 6 0;
  i = get_or h 7 0;
}

unfoldable pub add_h : List ℕ → Regs → List ℕ
add_h h r =
    u32 (get_or h 0 0 + r.a)
    ∷ u32 (get_or h 1 0 + r.b)
    ∷ u32 (get_or h 2 0 + r.c)
    ∷ u32 (get_or h 3 0 + r.d)
    ∷ u32 (get_or h 4 0 + r.e)
    ∷ u32 (get_or h 5 0 + r.f)
    ∷ u32 (get_or h 6 0 + r.g)
    ∷ u32 (get_or h 7 0 + r.i)
    ∷ []

unfoldable pub round : Core → Core
unfolding steps load_regs add_h
round s = record s { h = add_h s.h (steps s 64 0 (load_regs s.h)) }

-- `memcpy` of a block into M, the schedule and the rounds.
unfoldable pub process : List ℕ → Core → Core
unfolding setw round load_words
process block s = round (setw (record s { m = load_words 4 16 block }))

unfoldable pub update : Ctx Core → List ℕ → Ctx Core
update = Digest.update 64 process

unfoldable pub final : Ctx Core → Ctx Core
final = Digest.final 64 process 55

-- The characters that the last loop of the finalisation prints.
unfoldable pub output : Ctx Core → List ℕ
output ctx = print_words 8 8 0 (final ctx).core.h

-- `ctx` is the uninitialised local variable.
unfoldable pub calc : Ctx Core → List ℕ → List ℕ
unfolding init update output
calc ctx buf = output (update (init ctx) buf)

-- `none` is a file that cannot be opened: nothing is written to the output.
unfoldable pub file : Ctx Core → Option (List ℕ) → Option (List ℕ)
unfolding init output
file ctx none = none
file ctx (some bytes) = some (output (Digest.read_file 64 process (length bytes) bytes (init ctx)))
