-- ===== src/Crc32/Stream.antt =====
-- src/mgcrc32.c: the checksum of a block that is handed over in parts, and of a file.
use mg_std.Base.{
  ℕ, zero, suc, ◌≤◌, ◌≡◌, refl, ap, ◌∙◌, sym, List, [], ◌∷◌, ◌++◌, arith, length, some,
}
use mg_std.Digest.{Line, until_nul, fgets}
use mg_std.Digest.Stream.{
  joined, NoNul, NoNewline, until_nul-NoNul, fgets-append, fgets-progress, NoNul-fgets,
  fgets-NoNewline,
}
use mg_std.Crc32.{
  Ctx, init, byte_step, update_mask, update, final, checksum, read_file, checksum_file,
}

update_mask-append :
    (tab : List ℕ) (mask : ℕ) (xs ys : List ℕ)
    → update_mask tab mask (xs ++ ys) ≡ update_mask tab (update_mask tab mask xs) ys
unfolding update_mask
update_mask-append tab mask [] ys = refl
update_mask-append tab mask (x ∷ xs) ys = update_mask-append tab (byte_step tab mask x) xs ys

update-append : (ctx : Ctx) (xs ys : List ℕ) → update (update ctx xs) ys ≡ update ctx (xs ++ ys)
unfolding update
update-append ctx xs ys =
    ap (λ (m : ℕ). record ctx { mask = m }) (sym (update_mask-append ctx.crc_tab ctx.mask xs ys))

update-nil : (ctx : Ctx) → update ctx [] ≡ ctx
unfolding update update_mask
update-nil ctx = refl

-- Calls of `mg_crc32_update` with each part in turn.
unfoldable pub updates : Ctx → List (List ℕ) → Ctx
updates ctx [] = ctx
updates ctx (c ∷ cs) = updates (update ctx c) cs

updates-joined : (ctx : Ctx) (cs : List (List ℕ)) → updates ctx cs ≡ update ctx (joined cs)
unfolding updates joined
updates-joined ctx [] = sym (update-nil ctx)
updates-joined ctx (c ∷ cs) = updates-joined (update ctx c) cs ∙ update-append ctx c (joined cs)

-- Initialising a context, updating it with the parts of a block in order and finishing gives the
-- checksum of the whole block, wherever it is cut.
pub checksum_of_updates :
    (ctx : Ctx) (cs : List (List ℕ)) → final (updates (init ctx) cs) ≡ checksum ctx (joined cs)
unfolding checksum
checksum_of_updates ctx cs = ap final (updates-joined (init ctx) cs)

read_file-update :
    (fuel : ℕ) (ctx : Ctx) (bytes : List ℕ)
    → length bytes ≤ fuel
    → NoNul bytes
    → read_file fuel bytes ctx ≡ update ctx bytes
unfolding read_file
read_file-update zero ctx [] l n = sym (update-nil ctx)
read_file-update (suc fuel) ctx [] l n = sym (update-nil ctx)
read_file-update zero ctx (c ∷ bytes) l n = absurd (omega arith)
read_file-update (suc fuel) ctx (c ∷ bytes) l n =
    let got = (fgets 1023 (c ∷ bytes)).got in
    let rest = (fgets 1023 (c ∷ bytes)).rest in
    let kept = NoNul-fgets 1023 (c ∷ bytes) n in
    ap (λ (t : List ℕ). read_file fuel rest (update ctx t)) (until_nul-NoNul got kept.0)
    ∙ read_file-update fuel (update ctx got) rest (omega (arith, fgets-progress 1022 c bytes))
        kept.1
    ∙ update-append ctx got rest
    ∙ ap (update ctx) (fgets-append 1023 (c ∷ bytes))

-- `mg_checksum_crc32_file` of a file that can be opened and has no NUL byte is the checksum of its
-- bytes.
pub checksum_of_file :
    (ctx : Ctx) (bytes : List ℕ) → NoNul bytes → checksum_file ctx (some bytes) ≡ checksum ctx bytes
unfolding checksum_file checksum
checksum_of_file ctx bytes n =
    ap final (read_file-update (length bytes) (init ctx) bytes (omega arith) n)

-- A file that begins with a NUL byte, has at most 1022 more bytes and no newline has the checksum
-- of the empty block, whatever those bytes are.
pub checksum_of_nul_file :
    (ctx : Ctx) (bytes : List ℕ)
    → length bytes ≤ 1022
    → NoNewline bytes
    → checksum_file ctx (some (0 ∷ bytes)) ≡ checksum ctx []
unfolding checksum_file checksum read_file until_nul
checksum_of_nul_file ctx bytes short nl =
    let line : fgets 1023 (0 ∷ bytes) ≡ record { got = 0 ∷ bytes; rest = [] } =
      fgets-NoNewline 1023 (0 ∷ bytes) (omega arith) (grind arith, nl) in
    ap (λ (l : Line). final (read_file (length bytes) l.rest (update (init ctx) (until_nul l.got))))
      line
    ∙ ap final (done (length bytes) (update (init ctx) []))
  where
    done : (n : ℕ) (c : Ctx) → read_file n [] c ≡ c
    done zero c = refl
    done (suc n) c = refl
