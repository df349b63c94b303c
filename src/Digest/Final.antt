-- ===== src/Digest/Final.antt =====
-- `_final` of src/mgsha1.c and its siblings: it hashes the message that the updates have absorbed,
-- padded as the standard says.
use native.Mathlib.Nat.{mod-eq_of_lt, add-mod_right}
use mg_std.Base.{
  ℕ, suc, ◌+◌, ◌-◌, ◌*◌, ◌/◌, ◌%◌, ◌^◌, ◌≤◌, ◌<◌, ◌≡◌, ap, ap₂, ◌∙◌, sym, inl, inr, List, [], ◌∷◌,
  ◌++◌, arith, length, set, replicate, length-append, length-drop, length-replicate, drop-append_le,
  set-append, append_assoc, append-nil, replicate-append, div-mod_of_eq, lt_or_le, le→leb, lt→leb,
  leb, true, false,
}
use mg_std.Digest.{Ctx, final, put_len_down, put_len_up}
use mg_std.Digest.Fold.{fold_blocks, fold_blocks-add, fold_blocks-append, blocks-eq-fold_blocks}
use mg_std.Digest.Absorb.{Absorbed, tail_of}
use mg_std.Digest.Pad.{
  pad_zeros, pad, hash_core, big_endian, put_len_down-big_endian, put_len_up-big_endian,
}

regroup :
    (xs zs be ys : List ℕ) → (xs ++ (0x80 ∷ zs)) ++ (be ++ ys) ≡ (xs ++ (0x80 ∷ (zs ++ be))) ++ ys
regroup xs zs be ys = simp append_assoc

module _ {S : Type 0} (block limit : ℕ) (process : List ℕ → S → S) (start : S)
    (room : limit + 9 ≤ block) (divides : (n : ℕ) → n % 2 ^ 64 % block ≡ n % block) where
  -- The bytes that padding appends to a message of `n` bytes.
  abbrev suffix : ℕ → List ℕ
  suffix n = 0x80 ∷ (replicate (pad_zeros block limit n) 0 ++ big_endian 8 (8 * n))

  pad_zeros_short :
      (n q r : ℕ)
      → n ≡ q * block + r
      → r ≤ limit
      → pad_zeros block limit n ≡ limit - r + (block - 9 - limit)
  unfolding pad_zeros
  pad_zeros_short n q r e h =
      ap (λ (k : ℕ). (limit + block - k) % block + (block - 9 - limit))
        (div-mod_of_eq n block q r e (omega arith)).1
      ∙ ap (λ (k : ℕ). k + (block - 9 - limit))
          (ap (λ (k : ℕ). k % block) {x = limit + block - r} {y = limit - r + block} (omega arith)
            ∙ add-mod_right (limit - r) block
            ∙ mod-eq_of_lt (omega arith))

  pad_zeros_long :
      (n q r : ℕ)
      → n ≡ q * block + r
      → r < block
      → limit < r
      → pad_zeros block limit n ≡ limit + block - r + (block - 9 - limit)
  unfolding pad_zeros
  pad_zeros_long n q r e s h =
      ap (λ (k : ℕ). (limit + block - k) % block + (block - 9 - limit))
        (div-mod_of_eq n block q r e s).1
      ∙ ap (λ (k : ℕ). k + (block - 9 - limit)) (mod-eq_of_lt (omega arith))

  module _ {q r : ℕ} {msg : List ℕ} {ctx : Ctx S}
      (a : Absorbed block process start q r msg ctx) where
    abbrev n : ℕ
    n = length msg

    abbrev rest : List ℕ
    rest = tail_of block process start q msg

    length-rest : length rest ≡ r
    length-rest = omega (arith, length-drop (q * block) msg, a.size)

    length-suffix : length (suffix n) ≡ pad_zeros block limit n + 9
    length-suffix = omega (
      arith,
      length-append (replicate (pad_zeros block limit n) 0) (big_endian 8 (8 * n)),
      length-replicate {A = ℕ} (pad_zeros block limit n) 0,
    )

    -- The marked buffer, cut behind the zeros that padding wants.
    marked_eq :
        (z k : ℕ)
        → z + 9 + k + r ≡ 2 * block
        → set ctx.last_string (ctx.all_len % block) 0x80
          ≡ (rest ++ (0x80 ∷ replicate z 0)) ++ (replicate 8 0 ++ replicate k 0)
    marked_eq z k e =
        let at : ctx.all_len % block ≡ r =
          ap (λ (t : ℕ). t % block) a.total
          ∙ divides n
          ∙ (div-mod_of_eq n block q r a.size a.short).1 in
        let zs : List ℕ = replicate z 0 in
        let free : 2 * block - r ≡ suc (z + (8 + k)) = omega arith in
        rw (at, a.pending, free)
          (set-append rest (0 ∷ replicate (z + (8 + k)) 0) r 0 0x80 (omega (arith, length-rest))
            ∙ ap (λ (t : List ℕ). rest ++ (0x80 ∷ t))
                (replicate-append z (8 + k) 0
                  ∙ ap (λ (t : List ℕ). zs ++ t) (replicate-append 8 k 0))
            ∙ sym (append_assoc rest (0x80 ∷ zs) (replicate 8 0 ++ replicate k 0)))

    -- What remains to be shown of the last `m` blocks.
    hash_tail :
        (m : ℕ)
        → length (pad block limit msg) ≡ (q + m) * block
        → fold_blocks block process m (rest ++ suffix n) ctx.core
          ≡ hash_core block limit process start msg
    unfolding hash_core
    hash_tail m e =
        let blocks_eq : length (pad block limit msg) / block ≡ q + m =
          (div-mod_of_eq (length (pad block limit msg)) block (q + m) 0 (omega (arith, e))
            (omega arith)).0 in
        let fits : q * block ≤ length msg = omega (arith, a.size) in
        rw blocks_eq (
          ap₂ (fold_blocks block process m) (sym (drop-append_le msg (suffix n) (q * block) fits))
            (a.core ∙ sym (fold_blocks-append block process q msg (suffix n) start fits))
          ∙ sym (fold_blocks-add block process q m (msg ++ suffix n) start))

    length-pad : length (pad block limit msg) ≡ n + (pad_zeros block limit n + 9)
    unfolding pad
    length-pad = omega (arith, length-append msg (suffix n), length-suffix)

    final_short :
        r ≤ limit → (final block process limit ctx).core ≡ hash_core block limit process start msg
    unfolding final
    final_short h =
        let z = pad_zeros block limit n in
        let z_eq : z ≡ limit - r + (block - 9 - limit) = pad_zeros_short n q r a.size h in
        let zs : List ℕ = replicate z 0 in
        let be : List ℕ = big_endian 8 (8 * n) in
        let front : List ℕ = rest ++ (0x80 ∷ replicate z 0) in
        let length-front : block ≡ length front + 8 = omega (
          arith,
          length-append rest (0x80 ∷ replicate z 0),
          length-replicate {A = ℕ} z 0,
          length-rest,
          z_eq,
        ) in
        let one : List ℕ =
          put_len_down ctx.all_len 8 block (set ctx.last_string (ctx.all_len % block) 0x80) in
        let one_eq : one ≡ (rest ++ suffix n) ++ replicate block 0 =
          ap (put_len_down ctx.all_len 8 block) (marked_eq z block (omega (arith, z_eq)))
          ∙ put_len_down-big_endian n ctx.all_len block front (replicate block 0) a.total
              length-front
          ∙ regroup rest zs be (replicate block 0) in
        let few : leb ctx.last_string_len limit ≡ true =
          le→leb _ _ (omega (arith, a.pending_len)) in
        rw few (
          blocks-eq-fold_blocks block process 1 0 one ctx.core
          ∙ ap (λ (t : List ℕ). fold_blocks block process 1 t ctx.core) one_eq
          ∙ fold_blocks-append block process 1 (rest ++ suffix n) (replicate block 0) ctx.core
              (omega (arith, length-append rest (suffix n), length-rest, length-suffix, z_eq))
          ∙ hash_tail 1 (omega (arith, length-pad, z_eq, a.size)))

    final_long :
        limit < r → (final block process limit ctx).core ≡ hash_core block limit process start msg
    unfolding final
    final_long h =
        let z = pad_zeros block limit n in
        let z_eq : z ≡ limit + block - r + (block - 9 - limit) =
          pad_zeros_long n q r a.size a.short h in
        let zs : List ℕ = replicate z 0 in
        let be : List ℕ = big_endian 8 (8 * n) in
        let front : List ℕ = rest ++ (0x80 ∷ replicate z 0) in
        let length-front : block * 2 ≡ length front + 8 = omega (
          arith,
          length-append rest (0x80 ∷ replicate z 0),
          length-replicate {A = ℕ} z 0,
          length-rest,
          z_eq,
          a.short,
        ) in
        let two : List ℕ =
          put_len_up ctx.all_len 8 1 (block * 2) (set ctx.last_string (ctx.all_len % block) 0x80) in
        let two_eq : two ≡ rest ++ suffix n =
          ap (put_len_up ctx.all_len 8 1 (block * 2)) (marked_eq z 0 (omega (arith, z_eq, a.short)))
          ∙ put_len_up-big_endian n ctx.all_len (block * 2) front [] a.total length-front
          ∙ (regroup rest zs be [] ∙ append-nil (rest ++ suffix n)) in
        let many : leb ctx.last_string_len limit ≡ false =
          lt→leb _ _ (omega (arith, a.pending_len)) in
        rw many (
          blocks-eq-fold_blocks block process 2 0 two ctx.core
          ∙ ap (λ (t : List ℕ). fold_blocks block process 2 t ctx.core) two_eq
          ∙ hash_tail 2 (omega (arith, length-pad, z_eq, a.size, a.short)))

    -- From any absorbed message `_final` computes the hash of that message.
    pub final-hash_core :
        (final block process limit ctx).core ≡ hash_core block limit process start msg
    final-hash_core = elim (lt_or_le limit r) [ inl h ↦ final_long h | inr h ↦ final_short h ]
