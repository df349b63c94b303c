-- ===== src/Digest/Stream.antt =====
-- Whole runs of the functions that src/mgsha1.c and its siblings share: any sequence of updates,
-- and a file that is read by lines.
use mg_std.Base.{
  ℕ, zero, suc, ◌+◌, ◌-◌, ◌*◌, ◌%◌, ◌^◌, ◌≤◌, ◌<◌, ◌≡◌, ◌≢◌, refl, ap, ◌∙◌, List, [], ◌∷◌, ◌++◌,
  arith, length, drop, replicate, length-append, append_assoc, append-nil,
}
use mg_std.Digest.{Ctx, Line, update, final, until_nul, fgets, read_file}
use mg_std.Digest.Fold.{fold_blocks}
use mg_std.Digest.Absorb.{Absorbed, update-Absorbed}
use mg_std.Digest.Pad.{hash_core}
use mg_std.Digest.Final.{final-hash_core}

-- The bytes of all chunks in order.
unfoldable pub joined : List (List ℕ) → List ℕ
joined [] = []
joined (c ∷ cs) = c ++ joined cs

-- Every chunk has a length that an `int` holds.
abbrev pub AllShort : List (List ℕ) → Type 0
AllShort [] = Unit
AllShort (c ∷ cs) = (length c < 2 ^ 31) × AllShort cs

abbrev pub NoNul : List ℕ → Type 0
NoNul [] = Unit
NoNul (c ∷ cs) = (c ≢ 0) × NoNul cs

pub until_nul-NoNul : (s : List ℕ) → NoNul s → until_nul s ≡ s
unfolding until_nul
until_nul-NoNul [] h = refl
until_nul-NoNul (c ∷ cs) h = ground (arith, until_nul-NoNul cs h.1)

-- What `fgets` returns and what it leaves make up its input.
pub fgets-append : (n : ℕ) (s : List ℕ) → (fgets n s).got ++ (fgets n s).rest ≡ s
unfolding fgets
fgets-append zero s = refl
fgets-append (suc n) [] = refl
fgets-append (suc n) (c ∷ s) = ground (arith, fgets-append n s)

length-fgets : (n : ℕ) (s : List ℕ) → length (fgets n s).got ≤ n
unfolding fgets
length-fgets zero s = omega arith
length-fgets (suc n) [] = omega arith
length-fgets (suc n) (c ∷ s) = ground (arith, length-fgets n s)

pub fgets-progress : (n c : ℕ) (s : List ℕ) → length (fgets (suc n) (c ∷ s)).rest ≤ length s
unfolding fgets
fgets-progress n c s =
    ground (arith, ap length (fgets-append n s), length-append (fgets n s).got (fgets n s).rest)

NoNul-append : (xs ys : List ℕ) → NoNul (xs ++ ys) → NoNul xs × NoNul ys
NoNul-append [] ys h = (tt, h)
NoNul-append (x ∷ xs) ys h = ((h.0, (NoNul-append xs ys h.1).0), (NoNul-append xs ys h.1).1)

pub NoNul-fgets : (n : ℕ) (s : List ℕ) → NoNul s → NoNul (fgets n s).got × NoNul (fgets n s).rest
NoNul-fgets n s h = NoNul-append (fgets n s).got (fgets n s).rest (rw (fgets-append n s) h)

abbrev pub NoNewline : List ℕ → Type 0
NoNewline [] = Unit
NoNewline (c ∷ cs) = (c ≢ 10) × NoNewline cs

-- Without a newline `fgets` returns all that fits.
pub fgets-NoNewline :
    (n : ℕ) (s : List ℕ) → length s ≤ n → NoNewline s → fgets n s ≡ record { got = s; rest = [] }
unfolding fgets
fgets-NoNewline zero [] h nl = refl
fgets-NoNewline zero (c ∷ s) h nl = absurd (omega arith)
fgets-NoNewline (suc n) [] h nl = refl
fgets-NoNewline (suc n) (c ∷ s) h nl = ground (arith, fgets-NoNewline n s)

module _ {S : Type 0} (block : ℕ) where
  -- A context that no byte has been given to.
  pub record IsFresh (ctx : Ctx S) : Type 0 where
    pub cleared : ctx.last_string ≡ replicate (2 * block) 0
    pub no_rest : ctx.last_string_len ≡ 0
    pub no_total : ctx.all_len ≡ 0

module _ {S : Type 0} (block : ℕ) (process : List ℕ → S → S) where
  -- Calls of `_update` with each chunk in turn.
  unfoldable pub updates : Ctx S → List (List ℕ) → Ctx S
  updates ctx [] = ctx
  updates ctx (c ∷ cs) = updates (update block process ctx c) cs

module _ {S : Type 0} (block limit : ℕ) (process : List ℕ → S → S) (room : limit + 9 ≤ block)
    (divides : (n : ℕ) → n % 2 ^ 64 % block ≡ n % block) (fits : block ≤ 2 ^ 31) where
  -- `ctx` has taken in `msg` from `start`.
  abbrev pub Holds : S → List ℕ → Ctx S → Type 0
  Holds start msg ctx = (q : ℕ) × (r : ℕ) × Absorbed block process start q r msg ctx

  fresh-Holds : (ctx : Ctx S) → IsFresh block ctx → Holds ctx.core [] ctx
  unfolding fold_blocks
  fresh-Holds ctx f = (
    0,
    0,
    record {
      size = omega arith;
      short = omega arith;
      core = refl;
      pending =
          f.cleared
          ∙ ap (λ (n : ℕ). replicate n 0) {x = 2 * block} {y = 2 * block - 0} (omega arith)
          ∙ ap (λ (n : ℕ). drop n [] ++ replicate (2 * block - 0) 0) {x = 0} {y = 0 * block}
              (omega arith);
      pending_len = f.no_rest;
      total = omega (arith, f.no_total);
    },
  )

  updates-Holds :
      (start : S) (msg : List ℕ) (ctx : Ctx S) (cs : List (List ℕ))
      → AllShort cs
      → Holds start msg ctx
      → Holds start (msg ++ joined cs) (updates block process ctx cs)
  unfolding updates joined
  updates-Holds start msg ctx [] s h = rw append-nil h
  updates-Holds start msg ctx (c ∷ cs) s (q, r, a) = rw (← append_assoc) (
      updates-Holds start (msg ++ c) (update block process ctx c) cs s.1
        (update-Absorbed block process start a c s.0 fits))

  -- However a message is cut into chunks, updating a fresh context with them in order and then
  -- finishing computes the hash of the whole padded message.
  pub updates-hash_core :
      (ctx : Ctx S) (cs : List (List ℕ))
      → IsFresh block ctx
      → AllShort cs
      → (final block process limit (updates block process ctx cs)).core
        ≡ hash_core block limit process ctx.core (joined cs)
  updates-hash_core ctx cs f s =
      let (q, r, a) = updates-Holds ctx.core [] ctx cs s (fresh-Holds ctx f) in
      final-hash_core block limit process ctx.core room divides a

  read_file-Holds :
      (fuel : ℕ) (start : S) (msg bytes : List ℕ) (ctx : Ctx S)
      → length bytes ≤ fuel
      → NoNul bytes
      → Holds start msg ctx
      → Holds start (msg ++ bytes) (read_file block process fuel bytes ctx)
  unfolding read_file
  read_file-Holds zero start msg [] ctx l n h = rw append-nil h
  read_file-Holds (suc fuel) start msg [] ctx l n h = rw append-nil h
  read_file-Holds zero start msg (c ∷ bytes) ctx l n h = absurd (omega arith)
  read_file-Holds (suc fuel) start msg (c ∷ bytes) ctx l n (q, r, a) =
      let got = (fgets 1023 (c ∷ bytes)).got in
      let rest = (fgets 1023 (c ∷ bytes)).rest in
      let whole : (msg ++ got) ++ rest ≡ msg ++ (c ∷ bytes) =
        append_assoc msg got rest ∙ ap (λ (t : List ℕ). msg ++ t) (fgets-append 1023 (c ∷ bytes)) in
      let seen : until_nul got ≡ got = until_nul-NoNul got (NoNul-fgets 1023 (c ∷ bytes) n).0 in
      let short : length got < 2 ^ 31 = omega (arith, length-fgets 1023 (c ∷ bytes)) in
      rw (← whole, seen)
        (read_file-Holds fuel start (msg ++ got) rest (update block process ctx got)
          (omega (arith, fgets-progress 1022 c bytes)) (NoNul-fgets 1023 (c ∷ bytes) n).1
          (update-Absorbed block process start a got short fits))

  -- A file without NUL bytes, read by lines of at most 1023 bytes, hashes as its bytes.
  pub read_file-hash_core :
      (ctx : Ctx S) (bytes : List ℕ)
      → IsFresh block ctx
      → NoNul bytes
      → (final block process limit (read_file block process (length bytes) bytes ctx)).core
        ≡ hash_core block limit process ctx.core bytes
  read_file-hash_core ctx bytes f n =
      let (q, r, a) =
        read_file-Holds (length bytes) ctx.core [] bytes ctx (omega arith) n (fresh-Holds ctx f) in
      final-hash_core block limit process ctx.core room divides a

  -- Of a file that begins with a NUL byte, fits one line of the reading loop and holds no newline,
  -- no byte at all is hashed.
  pub read_file_nul :
      (ctx : Ctx S) (bytes : List ℕ)
      → length bytes ≤ 1022
      → NoNewline bytes
      → read_file block process (length (0 ∷ bytes)) (0 ∷ bytes) ctx ≡ update block process ctx []
  unfolding read_file until_nul
  read_file_nul ctx bytes short nl =
      let line : fgets 1023 (0 ∷ bytes) ≡ record { got = 0 ∷ bytes; rest = [] } =
        fgets-NoNewline 1023 (0 ∷ bytes) (omega arith) (grind arith, nl) in
      ap
        (λ (l : Line).
          read_file block process (length bytes) l.rest
            (update block process ctx (until_nul l.got)))
        line
      ∙ done (length bytes) (update block process ctx [])
    where
      done : (n : ℕ) (c : Ctx S) → read_file block process n [] c ≡ c
      done zero c = refl
      done (suc n) c = refl
