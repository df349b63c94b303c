-- ===== src/Sha256/Tests.antt =====
-- Runs of src/mgsha256.c at concrete messages.
use mg_std.Base.{[], ◌∷◌, ◌≡◌, refl, replicate}
use mg_std.Digest
use mg_std.Digest.{Ctx}
use mg_std.Digest.Load.{load_words, fill, print_words}
use mg_std.Sha256.{Core}
use mg_std.Sha256.{process, final, calc}

-- An uninitialised context.
abbrev fresh : Ctx Core
fresh = record {
  core = record { h = []; k = []; m = replicate 16 7; w = replicate 80 9 };
  last_string = replicate 256 3;
  last_string_len = 17;
  all_len = 100;
}

-- The digest of "abc", in ASCII.
abc_test :
    calc fresh (97 ∷ 98 ∷ 99 ∷ [])
    ≡ 98 ∷ 97 ∷ 55 ∷ 56 ∷ 49 ∷ 54 ∷ 98 ∷ 102 ∷ 56 ∷ 102 ∷ 48 ∷ 49 ∷ 99 ∷ 102 ∷ 101 ∷ 97 ∷ 52 ∷ 49
      ∷ 52 ∷ 49 ∷ 52 ∷ 48 ∷ 100 ∷ 101 ∷ 53 ∷ 100 ∷ 97 ∷ 101 ∷ 50 ∷ 50 ∷ 50 ∷ 51 ∷ 98 ∷ 48 ∷ 48 ∷ 51
      ∷ 54 ∷ 49 ∷ 97 ∷ 51 ∷ 57 ∷ 54 ∷ 49 ∷ 55 ∷ 55 ∷ 97 ∷ 57 ∷ 99 ∷ 98 ∷ 52 ∷ 49 ∷ 48 ∷ 102 ∷ 102
      ∷ 54 ∷ 49 ∷ 102 ∷ 50 ∷ 48 ∷ 48 ∷ 49 ∷ 53 ∷ 97 ∷ 100 ∷ []
unfolding calc final process Digest.update Digest.final Digest.blocks Digest.put_len_down load_words
    fill print_words
abc_test = refl
