-- ===== src/Sha512.antt =====
-- src/mgsha512.c and src/mgsha512.h: SHA-512. The buffering of `_update`, `_final` and
-- `_file` is that of `Digest`; here are the context, the schedule and the rounds.
pub mod Laws
mod Tests
use mg_std.Base.{
  ℕ, zero, suc, ◌+◌, ◌-◌, ◌/◌, ◌^◌, ◌%◌, ◌*◌, List, [], ◌∷◌, bit_and, bit_or, bit_xor, get_or, set,
  replicate, u64, shl64, not64, ◌>>>◌, length, Option, none, some, ℤ, pos, negsuc,
}
use mg_std.Digest
use mg_std.Digest.{Ctx}
use mg_std.Digest.Load.{load_words, fill, print_words}

-- The context without the buffered bytes.
pub record Core : Type 0 where
  pub h : List ℕ
  pub k : List ℕ
  pub m : List ℕ
  pub w : List ℕ

-- The table that the initialisation stores in K.
abbrev pub round_constants : List ℕ
round_constants =
    0x428a2f98d728ae22 ∷ 0x7137449123ef65cd ∷ 0xb5c0fbcfec4d3b2f ∷ 0xe9b5dba58189dbbc
    ∷ 0x3956c25bf348b538 ∷ 0x59f111f1b605d019 ∷ 0x923f82a4af194f9b ∷ 0xab1c5ed5da6d8118
    ∷ 0xd807aa98a3030242 ∷ 0x12835b0145706fbe ∷ 0x243185be4ee4b28c ∷ 0x550c7dc3d5ffb4e2
    ∷ 0x72be5d74f27b896f ∷ 0x80deb1fe3b1696b1 ∷ 0x9bdc06a725c71235 ∷ 0xc19bf174cf692694
    ∷ 0xe49b69c19ef14ad2 ∷ 0xefbe4786384f25e3 ∷ 0x0fc19dc68b8cd5b5 ∷ 0x240ca1cc77ac9c65
    ∷ 0x2de92c6f592b0275 ∷ 0x4a7484aa6ea6e483 ∷ 0x5cb0a9dcbd41fbd4 ∷ 0x76f988da831153b5
    ∷ 0x983e5152ee66dfab ∷ 0xa831c66d2db43210 ∷ 0xb00327c898fb213f ∷ 0xbf597fc7beef0ee4
    ∷ 0xc6e00bf33da88fc2 ∷ 0xd5a79147930aa725 ∷ 0x06ca6351e003826f ∷ 0x142929670a0e6e70
    ∷ 0x27b70a8546d22ffc ∷ 0x2e1b21385c26c926 ∷ 0x4d2c6dfc5ac42aed ∷ 0x53380d139d95b3df
    ∷ 0x650a73548baf63de ∷ 0x766a0abb3c77b2a8 ∷ 0x81c2c92e47edaee6 ∷ 0x92722c851482353b
    ∷ 0xa2bfe8a14cf10364 ∷ 0xa81a664bbc423001 ∷ 0xc24b8b70d0f89791 ∷ 0xc76c51a30654be30
    ∷ 0xd192e819d6ef5218 ∷ 0xd69906245565a910 ∷ 0xf40e35855771202a ∷ 0x106aa07032bbd1b8
    ∷ 0x19a4c116b8d2d0c8 ∷ 0x1e376c085141ab53 ∷ 0x2748774cdf8eeb99 ∷ 0x34b0bcb5e19b48a8
    ∷ 0x391c0cb3c5c95a63 ∷ 0x4ed8aa4ae3418acb ∷ 0x5b9cca4f7763e373 ∷ 0x682e6ff3d6b2b8a3
    ∷ 0x748f82ee5defb2fc ∷ 0x78a5636f43172f60 ∷ 0x84c87814a1f0ab72 ∷ 0x8cc702081a6439ec
    ∷ 0x90befffa23631e28 ∷ 0xa4506cebde82bde9 ∷ 0xbef9a3f7b2c67915 ∷ 0xc67178f2e372532b
    ∷ 0xca273eceea26619c ∷ 0xd186b8c721c0c207 ∷ 0xeada7dd6cde0eb1e ∷ 0xf57d4f7fee6ed178
    ∷ 0x06f067aa72176fba ∷ 0x0a637dc5a2c898a6 ∷ 0x113f9804bef90dae ∷ 0x1b710b35131c471b
    ∷ 0x28db77f523047d84 ∷ 0x32caab7b40c72493 ∷ 0x3c9ebe0a15c9bebc ∷ 0x431d67c49c100d4c
    ∷ 0x4cc5d4becb3e42b6 ∷ 0x597f299cfc657e2a ∷ 0x5fcb6fab3ad6faec ∷ 0x6c44198c4a475817 ∷ []

-- M and W keep what the memory held.
unfoldable pub init : Ctx Core → Ctx Core
init ctx = record {
  core = record ctx.core {
    h =
        0x6a09e667f3bcc908 ∷ 0xbb67ae8584caa73b ∷ 0x3c6ef372fe94f82b ∷ 0xa54ff53a5f1d36f1
        ∷ 0x510e527fade682d1 ∷ 0x9b05688c2b3e6c1f ∷ 0x1f83d9abfb41bd6b ∷ 0x5be0cd19137e2179 ∷ [];
    k = round_constants;
  };
  last_string = replicate 256 0;
  last_string_len = 0;
  all_len = 0;
}

-- `(input >> n) | (input << (64 - n))`
unfoldable pub rotate : ℕ → ℕ → ℕ
rotate input n = bit_or (input >>> n) (shl64 input (64 - n))

-- A third count that is not positive asks for a shift instead of a rotation.
unfoldable pub third_term : ℕ → ℤ → ℕ
unfolding rotate
third_term input (pos zero) = input >>> 0
third_term input (pos (suc n)) = rotate input (suc n)
third_term input (negsuc n) = input >>> suc n

unfoldable pub shift_num3 : ℕ → ℕ → ℕ → ℤ → ℕ
unfolding rotate third_term
shift_num3 input one two three =
    bit_xor (bit_xor (bit_xor 0 (rotate input one)) (rotate input two)) (third_term input three)

-- The value of `W[index]` for `index <= 15`: the bytes of `M[index]` in the other order.
unfoldable pub swap_word : List ℕ → List ℕ → ℕ → ℕ
swap_word m w index =
    let x = get_or m index 0 in
    let outer = bit_or (x >>> 56) (shl64 x 56) in
    let second =
      bit_or (bit_or outer (bit_and x 0x00ff000000000000 >>> 40))
        (shl64 (bit_and x 0x000000000000ff00) 40) in
    let third =
      bit_or (bit_or second (bit_and x 0x0000ff0000000000 >>> 24))
        (shl64 (bit_and x 0x0000000000ff0000) 24) in
    bit_or (bit_or third (bit_and x 0x000000ff00000000 >>> 8))
      (shl64 (bit_and x 0x00000000ff000000) 8)

-- The value of `W[index]` for `16 <= index`.
unfoldable pub expand : List ℕ → ℕ → ℕ
unfolding shift_num3
expand w index =
    let s0 = shift_num3 (get_or w (index - 2) 0) 19 61 (negsuc 5) in
    let s1 = shift_num3 (get_or w (index - 15) 0) 1 8 (negsuc 6) in
    u64 (s0 + get_or w (index - 7) 0 + s1 + get_or w (index - 16) 0)

unfoldable pub setw : Core → Core
unfolding swap_word expand
setw s = record s { w = fill expand 64 16 (fill (swap_word s.m) 16 0 s.w) }

-- The local variables A to G and I of the rounds.
pub record Regs : Type 0 where
  pub a : ℕ
  pub b : ℕ
  pub c : ℕ
  pub d : ℕ
  pub e : ℕ
  pub f : ℕ
  pub g : ℕ
  pub i : ℕ

unfoldable pub step : Core → ℕ → Regs → Regs
unfolding shift_num3
step s index r =
    let s0 = shift_num3 r.a 28 34 (pos 39) in
    let t2 = u64 (s0 + bit_xor (bit_xor (bit_and r.a r.b) (bit_and r.a r.c)) (bit_and r.b r.c)) in
    let s1 = shift_num3 r.e 14 18 (pos 41) in
    let choose = bit_xor (bit_and r.e r.f) (bit_and (not64 r.e) r.g) in
    let t1 = u64 (r.i + s1 + choose + get_or s.k index 0 + get_or s.w index 0) in
    record {
      i = r.g;
      g = r.f;
      f = r.e;
      e = u64 (r.d + t1);
      d = r.c;
      c = r.b;
      b = r.a;
      a = u64 (t1 + t2);
    }

-- The rounds from `index` on, `n` of them.
unfoldable pub steps : Core → ℕ → ℕ → Regs → Regs
unfolding step
steps s zero index r = r
steps s (suc n) index r = steps s n (index + 1) (step s index r)

unfoldable pub load_regs : List ℕ → Regs
load_regs h = record {
  a = get_or h 0 0;
  b = get_or h 1 0;
  c = get_or h 2 0;
  d = get_or h 3 0;
  e = get_or h 4 0;
  f = get_or h 5 0;
  g = get_or h 6 0;
  i = get_or h 7 0;
}

unfoldable pub add_h : List ℕ → Regs → List ℕ
add_h h r =
    u64 (get_or h 0 0 + r.a)
    ∷ u64 (get_or h 1 0 + r.b)
    ∷ u64 (get_or h 2 0 + r.c)
    ∷ u64 (get_or h 3 0 + r.d)
    ∷ u64 (get_or h 4 0 + r.e)
    ∷ u64 (get_or h 5 0 + r.f)
    ∷ u64 (get_or h 6 0 + r.g)
    ∷ u64 (get_or h 7 0 + r.i)
    ∷ []

unfoldable pub round : Core → Core
unfolding steps load_regs add_h
round s = record s { h = add_h s.h (steps s 80 0 (load_regs s.h)) }

-- `memcpy` of a block into M, the schedule and the rounds.
unfoldable pub process : List ℕ → Core → Core
unfolding setw round load_words
process block s = round (setw (record s { m = load_words 8 16 block }))

unfoldable pub update : Ctx Core → List ℕ → Ctx Core
update = Digest.update 128 process

unfoldable pub final : Ctx Core → Ctx Core
final = Digest.final 128 process 111

-- The characters that the last loop of the finalisation prints.
unfoldable pub output : Ctx Core → List ℕ
output ctx = print_words 16 8 0 (final ctx).core.h

-- `ctx` is the uninitialised local variable.
unfoldable pub calc : Ctx Core → List ℕ → List ℕ
unfolding init update output
calc ctx buf = output (update (init ctx) buf)

-- `none` is a file that cannot be opened: nothing is written to the output.
unfoldable pub file : Ctx Core → Option (List ℕ) → Option (List ℕ)
unfolding init output
file ctx none = none
file ctx (some bytes) = some (output (Digest.read_file 128 process (length bytes) bytes (init ctx)))
