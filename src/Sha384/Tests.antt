-- ===== src/Sha384/Tests.antt =====
-- Runs of src/mgsha384.c at concrete messages.
use mg_std.Base.{[], ◌∷◌, ◌≡◌, refl, replicate}
use mg_std.Digest
use mg_std.Digest.{Ctx}
use mg_std.Digest.Load.{load_words, fill, print_words}
use mg_std.Sha512.{Core}
use mg_std.Sha384.{process, final, calc}

-- An uninitialised context.
abbrev fresh : Ctx Core
fresh = record {
  core = record { h = []; k = []; m = replicate 16 7; w = replicate 80 9 };
  last_string = replicate 256 3;
  last_string_len = 17;
  all_len = 100;
}

-- The digest of "abc", in ASCII.
abc_test :
    calc fresh (97 ∷ 98 ∷ 99 ∷ [])
    ≡ 99 ∷ 98 ∷ 48 ∷ 48 ∷ 55 ∷ 53 ∷ 51 ∷ 102 ∷ 52 ∷ 53 ∷ 97 ∷ 51 ∷ 53 ∷ 101 ∷ 56 ∷ 98 ∷ 98 ∷ 53 ∷ 97
      ∷ 48 ∷ 51 ∷ 100 ∷ 54 ∷ 57 ∷ 57 ∷ 97 ∷ 99 ∷ 54 ∷ 53 ∷ 48 ∷ 48 ∷ 55 ∷ 50 ∷ 55 ∷ 50 ∷ 99 ∷ 51
      ∷ 50 ∷ 97 ∷ 98 ∷ 48 ∷ 101 ∷ 100 ∷ 101 ∷ 100 ∷ 49 ∷ 54 ∷ 51 ∷ 49 ∷ 97 ∷ 56 ∷ 98 ∷ 54 ∷ 48 ∷ 53
      ∷ 97 ∷ 52 ∷ 51 ∷ 102 ∷ 102 ∷ 53 ∷ 98 ∷ 101 ∷ 100 ∷ 56 ∷ 48 ∷ 56 ∷ 54 ∷ 48 ∷ 55 ∷ 50 ∷ 98 ∷ 97
      ∷ 49 ∷ 101 ∷ 55 ∷ 99 ∷ 99 ∷ 50 ∷ 51 ∷ 53 ∷ 56 ∷ 98 ∷ 97 ∷ 101 ∷ 99 ∷ 97 ∷ 49 ∷ 51 ∷ 52 ∷ 99
      ∷ 56 ∷ 50 ∷ 53 ∷ 97 ∷ 55 ∷ []
unfolding calc final process Digest.update Digest.final Digest.blocks Digest.put_len_down load_words
    fill print_words
abc_test = refl
