-- ===== src/Sha512/Laws.antt =====
-- src/mgsha512.c as a whole: what its entry points print.
use mg_std.Base.{
  ℕ, ◌+◌, ◌%◌, ◌^◌, ◌≤◌, ◌<◌, ◌≡◌, refl, ap, ◌∙◌, List, [], ◌∷◌, arith, length, some, append-nil,
}
use mg_std.Digest.{Ctx}
use mg_std.Digest.Load.{print_words}
use mg_std.Digest.Pad.{hash_core}
use mg_std.Digest.Stream.{
  joined, AllShort, NoNul, NoNewline, updates, IsFresh, updates-hash_core, read_file-hash_core,
  read_file_nul,
}
use mg_std.Sha512.{Core}
use mg_std.Sha512.{init, process, update, final, output, calc, file}

-- The digest that the standard assigns to a message, for the compression function `process`.
unfoldable pub digest : Ctx Core → List ℕ → List ℕ
digest ctx msg = print_words 16 8 0 (hash_core 128 111 process (init ctx).core msg).h

fits : 111 + 9 ≤ 128
fits = omega arith

divides : (n : ℕ) → n % 2 ^ 64 % 128 ≡ n % 128
divides n = omega arith

init-IsFresh : (ctx : Ctx Core) → IsFresh 128 (init ctx)
unfolding init
init-IsFresh ctx = record { cleared = refl; no_rest = refl; no_total = refl }

-- For any cut of a message into chunks whose lengths are below 2^31: initialising a context,
-- updating it with the chunks in order and finishing prints the digest of the whole message.
pub sha512_of_updates :
    (ctx : Ctx Core) (cs : List (List ℕ))
    → AllShort cs
    → output (updates 128 process (init ctx) cs) ≡ digest ctx (joined cs)
unfolding output digest final
sha512_of_updates ctx cs s =
    ap (λ (t : Core). print_words 16 8 0 t.h)
      (updates-hash_core 128 111 process fits divides (omega arith) (init ctx) cs (init-IsFresh ctx)
        s)

-- The one-call function prints the digest of its buffer, when the buffer's length is below 2^31.
pub sha512_of_calc :
    (ctx : Ctx Core) (buf : List ℕ) → length buf < 2 ^ 31 → calc ctx buf ≡ digest ctx buf
unfolding calc updates update joined
sha512_of_calc ctx buf h =
    sha512_of_updates ctx (buf ∷ []) (h, tt) ∙ ap (digest ctx) (append-nil buf)

-- The file function prints the digest of the file's bytes, if none of them is NUL: reading by
-- lines of at most 1023 bytes and measuring each with `strlen` loses nothing.
pub sha512_of_file :
    (ctx : Ctx Core) (bytes : List ℕ)
    → NoNul bytes
    → file ctx (some bytes) ≡ some (digest ctx bytes)
unfolding file output digest final
sha512_of_file ctx bytes n =
    ap (λ (t : Core). some (print_words 16 8 0 t.h))
      (read_file-hash_core 128 111 process fits divides (omega arith) (init ctx) bytes
        (init-IsFresh ctx) n)

-- A file that begins with a NUL byte, has at most 1022 more bytes and no newline gets the digest
-- of the empty message, whatever those bytes are.
pub sha512_of_nul_file :
    (ctx : Ctx Core) (bytes : List ℕ)
    → length bytes ≤ 1022
    → NoNewline bytes
    → file ctx (some (0 ∷ bytes)) ≡ some (calc ctx [])
unfolding file calc update
sha512_of_nul_file ctx bytes short nl =
    ap (λ (t : Ctx Core). some (output t))
      (read_file_nul 128 111 process fits divides (omega arith) (init ctx) bytes short nl)
