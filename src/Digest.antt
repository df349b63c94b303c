-- ===== src/Digest.antt =====
-- The block buffering that src/mgsha1.c, mgsha256.c, mgsha384.c and mgsha512.c share: their
-- `_update`, `_final` and `_file` functions are the same text but for the names, the block size
-- (64 or 128 bytes) and the longest rest that still leaves room for the length field.
-- `S` is the rest of a context (H, K, M, W), and `process` what the code does with one block:
-- `memcpy` it into M, then `_setw` and `_round`.
pub mod Load
pub mod Fill
pub mod Fold
pub mod Absorb
pub mod Pad
pub mod Final
pub mod Stream
use mg_std.Base.{
  ℕ, zero, suc, ◌+◌, ◌-◌, ◌*◌, ◌/◌, ◌%◌, ◌^◌, List, [], ◌∷◌, ◌++◌, ltb, leb, ◌==◌, if◌then◌else◌,
  length, set, take, drop, replicate, write, u32, u64, u8, ◌>>>◌,
}

pub record Ctx (S : Type 0) : Type 0 where
  pub core : S
  pub last_string : List ℕ
  pub last_string_len : ℕ
  pub all_len : ℕ

-- `strlen` and the `char` buffer it measures: the bytes before the first NUL.
unfoldable pub until_nul : List ℕ → List ℕ
until_nul [] = []
until_nul (c ∷ cs) = if c == 0 then [] else c ∷ until_nul cs

-- `fgets(buf, n + 1, fp)`: at most `n` bytes, up to and with the first newline.
pub record Line : Type 0 where
  pub got : List ℕ
  pub rest : List ℕ

unfoldable pub fgets : ℕ → List ℕ → Line
fgets zero s = record { got = []; rest = s }
fgets (suc n) [] = record { got = []; rest = [] }
fgets (suc n) (c ∷ s) =
    let more = fgets n s in
    if c == 10
    then record { got = c ∷ []; rest = s }
    else record { got = c ∷ more.got; rest = more.rest }

-- One byte of the length field, `(char)((realLen<<3)>>((i-1)*8))`.
abbrev pub len_byte : ℕ → ℕ → ℕ
len_byte real_len i = u8 (u64 (real_len * 8) >>> ((i - 1) * 8))

-- `for (i = n; i >= 1; i--) LastString[end - i] = ...`
unfoldable pub put_len_down : ℕ → ℕ → ℕ → List ℕ → List ℕ
put_len_down real_len zero end ls = ls
put_len_down real_len (suc n) end ls =
    put_len_down real_len n end (set ls (end - suc n) (len_byte real_len (suc n)))

-- `for (i = ...; i <= 8; i++) LastString[end - i] = ...`, with `n` rounds left.
unfoldable pub put_len_up : ℕ → ℕ → ℕ → ℕ → List ℕ → List ℕ
put_len_up real_len zero i end ls = ls
put_len_up real_len (suc n) i end ls =
    put_len_up real_len n (i + 1) end (set ls (end - i) (len_byte real_len i))

module _ {S : Type 0} (block : ℕ) (process : List ℕ → S → S) where
  -- `for (i = 0; i < n; i++) { memcpy(M, bytes + pos, block); pos += block; setw; round; }`
  unfoldable pub blocks : ℕ → ℕ → List ℕ → S → S
  blocks zero pos bytes s = s
  blocks (suc n) pos bytes s =
      blocks n (pos + block) bytes (process (take block (drop pos bytes)) s)

  -- `input_len` is the number of bytes of `input`. The sums with the unsigned `LastStringLen`
  -- and the subtraction from `input_len` are unsigned and wrap at 2^32.
  unfoldable pub update : Ctx S → List ℕ → Ctx S
  unfolding blocks
  update ctx input =
      let n = length input in
      let total = u64 (ctx.all_len + n) in
      let len = ctx.last_string_len in
      let r = len % block in
      let left = u32 (n + 2 ^ 32 - (block - r)) in
      let at = block - r + left / block * block in
      let start = blocks (len / block) 0 ctx.last_string ctx.core in
      let first = take r (drop (len / block * block) ctx.last_string) ++ take (block - r) input in
      if ltb (u32 (n + len)) block
      then record {
        core = ctx.core;
        last_string = write ctx.last_string len input;
        last_string_len = u32 (len + n);
        all_len = total;
      }
      else record {
        core = blocks (left / block) (block - r) input (process first start);
        last_string = write (replicate (2 * block) 0) 0 (take (left % block) (drop at input));
        last_string_len = left % block;
        all_len = total;
      }

  -- Up to the printing of H. `limit` is the longest rest that takes one last block: 55 or 111.
  unfoldable pub final : ℕ → Ctx S → Ctx S
  final limit ctx =
      let real_len = ctx.all_len in
      let marked = set ctx.last_string (real_len % block) 0x80 in
      let one = put_len_down real_len 8 block marked in
      let two = put_len_up real_len 8 1 (block * 2) marked in
      if leb ctx.last_string_len limit
      then record ctx { last_string = one; core = blocks 1 0 one ctx.core }
      else record ctx { last_string = two; core = blocks 2 0 two ctx.core }

  -- `while (fgets(buf, 1024, fp) != NULL) update(ctx, buf, strlen(buf))` over the bytes of the
  -- file that are still to be read; each round reads at least one byte.
  unfoldable pub read_file : ℕ → List ℕ → Ctx S → Ctx S
  unfolding update
  read_file zero file ctx = ctx
  read_file (suc fuel) [] ctx = ctx
  read_file (suc fuel) (c ∷ file) ctx =
      let line = fgets 1023 (c ∷ file) in read_file fuel line.rest (update ctx (until_nul line.got))
