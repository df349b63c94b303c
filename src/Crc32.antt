-- ===== src/Crc32.antt =====
-- src/mgcrc32.c and src/mgcrc32.h: CRC-32 by a table of 256 words. `unsigned long` is taken as 64
-- bits wide; no operation here leaves 32 bits (Crc32.Laws).
pub mod Laws
pub mod Stream
mod Tests
use mg_std.Base.{
  ℕ, zero, suc, ◌+◌, ◌/◌, ◌%◌, ◌^◌, List, [], ◌∷◌, bit_and, bit_xor, ◌==◌, if◌then◌else◌, get_or,
  u32, ◌>>>◌, length, Option, none, some,
}
use mg_std.Digest.{Line, until_nul, fgets}
use mg_std.Digest.Load.{print_hex}

pub record Ctx : Type 0 where
  pub crc_tab : List ℕ
  pub mask : ℕ

abbrev pub poly : ℕ
poly = 0xEDB88320

-- One round of the inner loop of `mg_crc32_init`.
unfoldable pub bit_step : ℕ → ℕ
bit_step crc = if bit_and crc 1 == 1 then bit_xor (crc >>> 1) poly else crc >>> 1

-- `for (j = n; j > 0; j--)`
unfoldable pub bit_steps : ℕ → ℕ → ℕ
unfolding bit_step
bit_steps zero crc = crc
bit_steps (suc n) crc = bit_steps n (bit_step crc)

-- The entries from `i` on, `n` of them.
unfoldable pub table_from : ℕ → ℕ → List ℕ
unfolding bit_steps
table_from zero i = []
table_from (suc n) i = bit_steps 8 i ∷ table_from n (i + 1)

unfoldable pub init : Ctx → Ctx
init ctx = record { crc_tab = table_from 256 0; mask = 0xFFFFFFFF }

unfoldable pub byte_step : List ℕ → ℕ → ℕ → ℕ
byte_step tab mask byte =
    bit_xor (bit_and (mask >>> 8) 0x00FFFFFF) (get_or tab (bit_and (bit_xor mask byte) 0xFF) 0)

-- The loop over the bytes of `block`.
unfoldable pub update_mask : List ℕ → ℕ → List ℕ → ℕ
unfolding byte_step
update_mask tab mask [] = mask
update_mask tab mask (byte ∷ block) = update_mask tab (byte_step tab mask byte) block

unfoldable pub update : Ctx → List ℕ → Ctx
update ctx block = record ctx { mask = update_mask ctx.crc_tab ctx.mask block }

unfoldable pub final : Ctx → ℕ
final ctx = u32 (bit_xor ctx.mask 0xFFFFFFFF)

-- The number that is returned.
unfoldable pub checksum : Ctx → List ℕ → ℕ
unfolding init update final
checksum ctx block = final (update (init ctx) block)

-- The characters that are printed, `%08x`.
unfoldable pub output : Ctx → List ℕ → List ℕ
unfolding checksum
output ctx block = print_hex 8 (checksum ctx block)

-- `while (fgets(buf, 1024, fp) != NULL) mg_crc32_update(ctx, buf, strlen(buf))`
unfoldable pub read_file : ℕ → List ℕ → Ctx → Ctx
unfolding update
read_file zero file ctx = ctx
read_file (suc fuel) [] ctx = ctx
read_file (suc fuel) (c ∷ file) ctx =
    let line = fgets 1023 (c ∷ file) in read_file fuel line.rest (update ctx (until_nul line.got))

-- A file that cannot be opened gives 0.
unfoldable pub checksum_file : Ctx → Option (List ℕ) → ℕ
unfolding init final read_file
checksum_file ctx none = 0
checksum_file ctx (some bytes) = final (read_file (length bytes) bytes (init ctx))
