-- ===== src/Sha1/Tests.antt =====
-- Runs of src/mgsha1.c at concrete messages.
use mg_std.Base.{[], ◌∷◌, ◌≡◌, refl, replicate}
use mg_std.Digest
use mg_std.Digest.{Ctx}
use mg_std.Digest.Load.{load_words, fill, print_words}
use mg_std.Sha1.{Core}
use mg_std.Sha1.{process, final, calc}

-- An uninitialised context.
abbrev fresh : Ctx Core
fresh = record {
  core = record {
    h = [];
    k = [];
    m = replicate 16 7;
    w = replicate 80 9;
    a = 1;
    b = 2;
    c = 3;
    d = 4;
    e = 5;
  };
  last_string = replicate 128 3;
  last_string_len = 17;
  all_len = 100;
}

-- The digest of "abc", in ASCII.
abc_test :
    calc fresh (97 ∷ 98 ∷ 99 ∷ [])
    ≡ 97 ∷ 57 ∷ 57 ∷ 57 ∷ 51 ∷ 101 ∷ 51 ∷ 54 ∷ 52 ∷ 55 ∷ 48 ∷ 54 ∷ 56 ∷ 49 ∷ 54 ∷ 97 ∷ 98 ∷ 97 ∷ 51
      ∷ 101 ∷ 50 ∷ 53 ∷ 55 ∷ 49 ∷ 55 ∷ 56 ∷ 53 ∷ 48 ∷ 99 ∷ 50 ∷ 54 ∷ 99 ∷ 57 ∷ 99 ∷ 100 ∷ 48 ∷ 100
      ∷ 56 ∷ 57 ∷ 100 ∷ []
unfolding calc final process Digest.update Digest.final Digest.blocks Digest.put_len_down load_words
    fill print_words
abc_test = refl
