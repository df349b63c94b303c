-- ===== src/Crc32/Tests.antt =====
-- Runs of src/mgcrc32.c.
use mg_std.Base.{[], ◌∷◌, ◌≡◌, refl, arith, bit_xor, some}
use mg_std.Crc32.Laws.{serial, checksum-eq-serial}
use mg_std.Digest.Stream.{joined}
use mg_std.Crc32.Stream.{updates, checksum_of_updates, checksum_of_file}
use mg_std.Crc32.{Ctx, init, final, checksum_file, checksum, table_from, update_mask}

abbrev fresh : Ctx
fresh = record { crc_tab = []; mask = 7 }

-- The checksum of "123456789".
check_value : checksum fresh (49 ∷ 50 ∷ 51 ∷ 52 ∷ 53 ∷ 54 ∷ 55 ∷ 56 ∷ 57 ∷ []) ≡ 0xCBF43926
unfolding checksum table_from update_mask
check_value = refl

-- The checksum of "hi".
checksum-eq-serial_example :
    checksum fresh (104 ∷ 105 ∷ []) ≡ bit_xor (serial 0xFFFFFFFF (104 ∷ 105 ∷ [])) 0xFFFFFFFF
checksum-eq-serial_example = checksum-eq-serial fresh (104 ∷ 105 ∷ []) (omega arith)

checksum_of_updates_example :
    final (updates (init fresh) ((104 ∷ []) ∷ ((105 ∷ []) ∷ [])))
    ≡ checksum fresh (joined ((104 ∷ []) ∷ ((105 ∷ []) ∷ [])))
checksum_of_updates_example = checksum_of_updates fresh ((104 ∷ []) ∷ ((105 ∷ []) ∷ []))

checksum_of_file_example :
    checksum_file fresh (some (104 ∷ (105 ∷ []))) ≡ checksum fresh (104 ∷ (105 ∷ []))
checksum_of_file_example =
    checksum_of_file fresh (104 ∷ (105 ∷ [])) (omega arith, (omega arith, tt))
