-- ===== src/ShaFiles.antt =====
-- src/mgsha1.c, src/mgsha256.c, src/mgsha384.c and src/mgsha512.c: what they print, side by
-- side.
mod Tests
use mg_std.Base.{ℕ, ◌≤◌, ◌≡◌, List, [], ◌∷◌, length, some}
use mg_std.Digest.{Ctx}
use mg_std.Digest.Stream.{NoNul, NoNewline, AllShort, joined, updates}
use mg_std.Sha1
use mg_std.Sha256
use mg_std.Sha384
use mg_std.Sha512
use mg_std.Sha1.Laws.{sha1_of_updates, sha1_of_file, sha1_of_nul_file}
use mg_std.Sha256.Laws.{sha256_of_updates, sha256_of_file, sha256_of_nul_file}
use mg_std.Sha384.Laws.{sha384_of_updates, sha384_of_file, sha384_of_nul_file}
use mg_std.Sha512.Laws.{sha512_of_updates, sha512_of_file, sha512_of_nul_file}

module _ (c1 : Ctx Sha1.Core) (c256 : Ctx Sha256.Core) (c384 c512 : Ctx Sha512.Core) where
  -- For any cut of a message into chunks of lengths below 2^31: initialising a context of each of
  -- the four Secure Hash files, updating it with the chunks in order and finishing prints the digest
  -- of the whole padded message, for the compression function that the code computes.
  pub parts_digest :
      (cs : List (List ℕ))
      → AllShort cs
      → (Sha1.output (updates 64 Sha1.process (Sha1.init c1) cs) ≡ Sha1.Laws.digest c1 (joined cs))
        × (Sha256.output (updates 64 Sha256.process (Sha256.init c256) cs)
            ≡ Sha256.Laws.digest c256 (joined cs))
        × (Sha384.output (updates 128 Sha384.process (Sha384.init c384) cs)
            ≡ Sha384.Laws.digest c384 (joined cs))
        × (Sha512.output (updates 128 Sha512.process (Sha512.init c512) cs)
            ≡ Sha512.Laws.digest c512 (joined cs))
  parts_digest cs s = (
    sha1_of_updates c1 cs s,
    sha256_of_updates c256 cs s,
    sha384_of_updates c384 cs s,
    sha512_of_updates c512 cs s,
  )

  -- Each of the four file functions prints the digest of the bytes of the file, if none of them is
  -- NUL.
  pub files_digest :
      (bytes : List ℕ)
      → NoNul bytes
      → (Sha1.file c1 (some bytes) ≡ some (Sha1.Laws.digest c1 bytes))
        × (Sha256.file c256 (some bytes) ≡ some (Sha256.Laws.digest c256 bytes))
        × (Sha384.file c384 (some bytes) ≡ some (Sha384.Laws.digest c384 bytes))
        × (Sha512.file c512 (some bytes) ≡ some (Sha512.Laws.digest c512 bytes))
  files_digest bytes n = (
    sha1_of_file c1 bytes n,
    sha256_of_file c256 bytes n,
    sha384_of_file c384 bytes n,
    sha512_of_file c512 bytes n,
  )

  -- For a file that begins with a NUL byte, has at most 1022 more bytes and no newline, each of the
  -- four file functions prints the digest of the empty message, whatever those bytes are.
  pub nul_files_digest :
      (bytes : List ℕ)
      → length bytes ≤ 1022
      → NoNewline bytes
      → (Sha1.file c1 (some (0 ∷ bytes)) ≡ some (Sha1.calc c1 []))
        × (Sha256.file c256 (some (0 ∷ bytes)) ≡ some (Sha256.calc c256 []))
        × (Sha384.file c384 (some (0 ∷ bytes)) ≡ some (Sha384.calc c384 []))
        × (Sha512.file c512 (some (0 ∷ bytes)) ≡ some (Sha512.calc c512 []))
  nul_files_digest bytes short nl = (
    sha1_of_nul_file c1 bytes short nl,
    sha256_of_nul_file c256 bytes short nl,
    sha384_of_nul_file c384 bytes short nl,
    sha512_of_nul_file c512 bytes short nl,
  )
