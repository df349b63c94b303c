-- ===== src/Sha384.antt =====
-- src/mgsha384.c and src/mgsha384.h: SHA-384. The context, `mg_sha384_shift_num3`,
-- `mg_sha384_setw`, `mg_sha384_round`, the table K and the buffering are the text of
-- src/mgsha512.c under other names; the initial H and the printing of six words differ.
pub mod Laws
mod Tests
use mg_std.Base.{ℕ, zero, suc, List, [], ◌∷◌, replicate, length, Option, none, some, ℤ}
use mg_std.Digest
use mg_std.Digest.{Ctx}
use mg_std.Digest.Load.{print_words}
use mg_std.Sha512
use mg_std.Sha512.{Core, round_constants}

-- M and W keep what the memory held.
unfoldable pub init : Ctx Core → Ctx Core
init ctx = record {
  core = record ctx.core {
    h =
        0xcbbb9d5dc1059ed8 ∷ 0x629a292a367cd507 ∷ 0x9159015a3070dd17 ∷ 0x152fecd8f70e5939
        ∷ 0x67332667ffc00b31 ∷ 0x8eb44a8768581511 ∷ 0xdb0c2e0d64f98fa7 ∷ 0x47b5481dbefa4fa4 ∷ [];
    k = round_constants;
  };
  last_string = replicate 256 0;
  last_string_len = 0;
  all_len = 0;
}

unfoldable pub shift_num3 : ℕ → ℕ → ℕ → ℤ → ℕ
unfolding Sha512.shift_num3
shift_num3 = Sha512.shift_num3

unfoldable pub setw : Core → Core
unfolding Sha512.setw
setw = Sha512.setw

unfoldable pub round : Core → Core
unfolding Sha512.round
round = Sha512.round

-- `memcpy` of a block into M, the schedule and the rounds.
unfoldable pub process : List ℕ → Core → Core
unfolding Sha512.process
process = Sha512.process

unfoldable pub update : Ctx Core → List ℕ → Ctx Core
update = Digest.update 128 process

unfoldable pub final : Ctx Core → Ctx Core
final = Digest.final 128 process 111

-- The characters that the last loop of the finalisation prints.
unfoldable pub output : Ctx Core → List ℕ
output ctx = print_words 16 6 0 (final ctx).core.h

-- `ctx` is the uninitialised local variable.
unfoldable pub calc : Ctx Core → List ℕ → List ℕ
unfolding init update output
calc ctx buf = output (update (init ctx) buf)

-- `none` is a file that cannot be opened: nothing is written to the output.
unfoldable pub file : Ctx Core → Option (List ℕ) → Option (List ℕ)
unfolding init output
file ctx none = none
file ctx (some bytes) = some (output (Digest.read_file 128 process (length bytes) bytes (init ctx)))
