-- ===== src/Sha512/Tests.antt =====
-- Runs of src/mgsha512.c at concrete messages.
use mg_std.Base.{[], ◌∷◌, ◌≡◌, refl, replicate}
use mg_std.Digest
use mg_std.Digest.{Ctx}
use mg_std.Digest.Load.{load_words, fill, print_words}
use mg_std.Sha512.{Core}
use mg_std.Sha512.{process, final, calc}

-- An uninitialised context.
abbrev fresh : Ctx Core
fresh = record {
  core = record { h = []; k = []; m = replicate 16 7; w = replicate 80 9 };
  last_string = replicate 256 3;
  last_string_len = 17;
  all_len = 100;
}

-- The digest of "abc", in ASCII.
abc_test :
    calc fresh (97 ∷ 98 ∷ 99 ∷ [])
    ≡ 100 ∷ 100 ∷ 97 ∷ 102 ∷ 51 ∷ 53 ∷ 97 ∷ 49 ∷ 57 ∷ 51 ∷ 54 ∷ 49 ∷ 55 ∷ 97 ∷ 98 ∷ 97 ∷ 99 ∷ 99
      ∷ 52 ∷ 49 ∷ 55 ∷ 51 ∷ 52 ∷ 57 ∷ 97 ∷ 101 ∷ 50 ∷ 48 ∷ 52 ∷ 49 ∷ 51 ∷ 49 ∷ 49 ∷ 50 ∷ 101 ∷ 54
      ∷ 102 ∷ 97 ∷ 52 ∷ 101 ∷ 56 ∷ 57 ∷ 97 ∷ 57 ∷ 55 ∷ 101 ∷ 97 ∷ 50 ∷ 48 ∷ 97 ∷ 57 ∷ 101 ∷ 101
      ∷ 101 ∷ 101 ∷ 54 ∷ 52 ∷ 98 ∷ 53 ∷ 53 ∷ 100 ∷ 51 ∷ 57 ∷ 97 ∷ 50 ∷ 49 ∷ 57 ∷ 50 ∷ 57 ∷ 57 ∷ 50
      ∷ 97 ∷ 50 ∷ 55 ∷ 52 ∷ 102 ∷ 99 ∷ 49 ∷ 97 ∷ 56 ∷ 51 ∷ 54 ∷ 98 ∷ 97 ∷ 51 ∷ 99 ∷ 50 ∷ 51 ∷ 97
      ∷ 51 ∷ 102 ∷ 101 ∷ 101 ∷ 98 ∷ 98 ∷ 100 ∷ 52 ∷ 53 ∷ 52 ∷ 100 ∷ 52 ∷ 52 ∷ 50 ∷ 51 ∷ 54 ∷ 52 ∷ 51
      ∷ 99 ∷ 101 ∷ 56 ∷ 48 ∷ 101 ∷ 50 ∷ 97 ∷ 57 ∷ 97 ∷ 99 ∷ 57 ∷ 52 ∷ 102 ∷ 97 ∷ 53 ∷ 52 ∷ 99 ∷ 97
      ∷ 52 ∷ 57 ∷ 102 ∷ []
unfolding calc final process Digest.update Digest.final Digest.blocks Digest.put_len_down load_words
    fill print_words
abc_test = refl
