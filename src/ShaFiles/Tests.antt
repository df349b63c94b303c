-- ===== src/ShaFiles/Tests.antt =====
-- Runs of the functions of src/mgsha1.c, src/mgsha256.c, src/mgsha384.c and src/mgsha512.c.
use mg_std.Base.{[], ◌∷◌, ◌≡◌, some, arith, replicate}
use mg_std.Digest.{Ctx}
use mg_std.Digest.Stream.{updates, joined}
use mg_std.Sha1
use mg_std.Sha256
use mg_std.Sha384
use mg_std.Sha512
use mg_std.Sha1.Laws
use mg_std.ShaFiles.{parts_digest, files_digest, nul_files_digest}

abbrev rest_of : {A : Type 0} → A → Ctx A
rest_of core = record {
  core = core;
  last_string = replicate 256 3;
  last_string_len = 17;
  all_len = 100;
}

abbrev fresh1 : Ctx Sha1.Core
fresh1 = rest_of (record {
  a = 0;
  b = 0;
  c = 0;
  d = 0;
  e = 0;
  h = [];
  k = [];
  m = replicate 16 7;
  w = replicate 80 9;
})

abbrev fresh256 : Ctx Sha256.Core
fresh256 = rest_of (record { h = []; k = []; m = replicate 16 7; w = replicate 80 9 })

abbrev fresh512 : Ctx Sha512.Core
fresh512 = rest_of (record { h = []; k = []; m = replicate 16 7; w = replicate 80 9 })

-- Three chunks that cross the end of a block.
parts_digest_example :
    (Sha1.output (
        updates 64 Sha1.process
          (Sha1.init fresh1)
          (replicate 3 1 ∷ replicate 64 2 ∷ replicate 5 3 ∷ []))
      ≡ Sha1.Laws.digest fresh1 (joined (replicate 3 1 ∷ replicate 64 2 ∷ replicate 5 3 ∷ [])))
    × (Sha256.output (
          updates 64 Sha256.process
            (Sha256.init fresh256)
            (replicate 3 1 ∷ replicate 64 2 ∷ replicate 5 3 ∷ []))
        ≡ Sha256.Laws.digest fresh256
            (joined (replicate 3 1 ∷ replicate 64 2 ∷ replicate 5 3 ∷ [])))
    × (Sha384.output (
          updates 128 Sha384.process
            (Sha384.init fresh512)
            (replicate 3 1 ∷ replicate 64 2 ∷ replicate 5 3 ∷ []))
        ≡ Sha384.Laws.digest fresh512
            (joined (replicate 3 1 ∷ replicate 64 2 ∷ replicate 5 3 ∷ [])))
    × (Sha512.output (
          updates 128 Sha512.process
            (Sha512.init fresh512)
            (replicate 3 1 ∷ replicate 64 2 ∷ replicate 5 3 ∷ []))
        ≡ Sha512.Laws.digest fresh512
            (joined (replicate 3 1 ∷ replicate 64 2 ∷ replicate 5 3 ∷ [])))
parts_digest_example =
    parts_digest fresh1 fresh256 fresh512 fresh512
      (replicate 3 1 ∷ replicate 64 2 ∷ replicate 5 3 ∷ []) (omega arith)

-- A file of two lines.
files_digest_example :
    (Sha1.file fresh1 (some (104 ∷ 10 ∷ 33 ∷ []))
      ≡ some (Sha1.Laws.digest fresh1 (104 ∷ 10 ∷ 33 ∷ [])))
    × (Sha256.file fresh256 (some (104 ∷ 10 ∷ 33 ∷ []))
        ≡ some (Sha256.Laws.digest fresh256 (104 ∷ 10 ∷ 33 ∷ [])))
    × (Sha384.file fresh512 (some (104 ∷ 10 ∷ 33 ∷ []))
        ≡ some (Sha384.Laws.digest fresh512 (104 ∷ 10 ∷ 33 ∷ [])))
    × (Sha512.file fresh512 (some (104 ∷ 10 ∷ 33 ∷ []))
        ≡ some (Sha512.Laws.digest fresh512 (104 ∷ 10 ∷ 33 ∷ [])))
files_digest_example =
    files_digest fresh1 fresh256 fresh512 fresh512 (104 ∷ 10 ∷ 33 ∷ []) (grind arith)

-- A file that begins with NUL.
nul_files_digest_example :
    (Sha1.file fresh1 (some (0 ∷ 1 ∷ 2 ∷ [])) ≡ some (Sha1.calc fresh1 []))
    × (Sha256.file fresh256 (some (0 ∷ 1 ∷ 2 ∷ [])) ≡ some (Sha256.calc fresh256 []))
    × (Sha384.file fresh512 (some (0 ∷ 1 ∷ 2 ∷ [])) ≡ some (Sha384.calc fresh512 []))
    × (Sha512.file fresh512 (some (0 ∷ 1 ∷ 2 ∷ [])) ≡ some (Sha512.calc fresh512 []))
nul_files_digest_example =
    nul_files_digest fresh1 fresh256 fresh512 fresh512 (1 ∷ 2 ∷ []) (omega arith) (grind arith)
