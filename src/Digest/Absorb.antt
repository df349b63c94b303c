-- ===== src/Digest/Absorb.antt =====
-- `_update` of src/mgsha1.c and its siblings: any sequence of calls absorbs the bytes that it is
-- given, in order, as one message.
use native.Mathlib.Nat.{div-add-mod', mod-lt, div-eq_of_lt, mod-eq_of_lt}
use mg_std.Base.{
  ℕ, suc, ◌+◌, ◌-◌, ◌*◌, ◌/◌, ◌%◌, ◌^◌, ◌≤◌, ◌<◌, ◌≡◌, refl, ap, ap₂, ◌∙◌, sym, inl, inr, List, [],
  ◌++◌, arith, length, take, drop, replicate, write, length-append, length-drop, take-append,
  take-append_ge, drop-append_ge, drop-append_le, drop-drop, take-all, write-append, append_assoc,
  lt_or_le, lt→ltb, le→ltb, ltb, true, false, u32, u64,
}
use mg_std.Digest.{Ctx, blocks, update}
use mg_std.Digest.Fold.{fold_blocks, fold_blocks-add, fold_blocks-append, blocks-eq-fold_blocks}

module _ {S : Type 0} (block : ℕ) (process : List ℕ → S → S) (start : S) where
  -- The bytes behind the `q` whole blocks of a message.
  abbrev pub tail_of : ℕ → List ℕ → List ℕ
  tail_of q msg = drop (q * block) msg

  -- `ctx` has taken in `msg`, whose length is `q` blocks and `r` more bytes: H is the fold over the
  -- blocks, and LastString holds the rest and zeros.
  pub record Absorbed (q r : ℕ) (msg : List ℕ) (ctx : Ctx S) : Type 0 where
    pub size : length msg ≡ q * block + r
    pub short : r < block
    pub core : ctx.core ≡ fold_blocks block process q msg start
    pub pending : ctx.last_string ≡ tail_of q msg ++ replicate (2 * block - r) 0
    pub pending_len : ctx.last_string_len ≡ r
    pub total : ctx.all_len ≡ length msg % 2 ^ 64

  module _ {q r : ℕ} {msg : List ℕ} {ctx : Ctx S} (a : Absorbed q r msg ctx) (input : List ℕ)
      (int_len : length input < 2 ^ 31) (fits : block ≤ 2 ^ 31) where
    length-tail : length (tail_of q msg) ≡ r
    length-tail = omega (arith, length-drop (q * block) msg, a.size)

    tail-append : tail_of q (msg ++ input) ≡ tail_of q msg ++ input
    tail-append = drop-append_le msg input (q * block) (omega (arith, a.size))

    total-update : (ctx.all_len + length input) % 2 ^ 64 ≡ length (msg ++ input) % 2 ^ 64
    total-update = omega (arith, a.total, length-append msg input)

    abbrev after_short : Ctx S
    after_short = record {
      core = ctx.core;
      last_string = write ctx.last_string ctx.last_string_len input;
      last_string_len = u32 (ctx.last_string_len + length input);
      all_len = u64 (ctx.all_len + length input);
    }

    short-Absorbed :
        r + length input < block → Absorbed q (r + length input) (msg ++ input) after_short
    short-Absorbed h = record {
      size = omega (arith, length-append msg input, a.size);
      short = h;
      core =
          a.core ∙ sym (fold_blocks-append block process q msg input start (omega (arith, a.size)));
      pending =
          rw (a.pending, a.pending_len, tail-append)
            (write-append (tail_of q msg) input (2 * block - r) r 0 (sym length-tail) (omega arith)
              ∙ sym
                  (append_assoc (tail_of q msg) input (replicate (2 * block - r - length input) 0))
              ∙ ap (λ (n : ℕ). (tail_of q msg ++ input) ++ replicate n 0) (omega arith));
      pending_len = omega (arith, a.pending_len);
      total = total-update;
    }

    -- The block that the rest and the first bytes of `input` make up, and what follows it.
    module _ (enough : block ≤ r + length input) where
      abbrev used : ℕ
      used = block - r

      abbrev left : ℕ
      left = length input - used

      q2-fact : left ≡ left / block * block + left % block
      q2-fact = sym (div-add-mod' left block)

      abbrev after_long : Ctx S
      after_long = record {
        core =
            blocks block process (left / block) used input
              (process (take r ctx.last_string ++ take used input) ctx.core);
        last_string =
            write (replicate (2 * block) 0) 0
              (take (left % block) (drop (used + left / block * block) input));
        last_string_len = left % block;
        all_len = u64 (ctx.all_len + length input);
      }

      first-block :
          take r ctx.last_string ++ take used input ≡ take block (tail_of q (msg ++ input))
      first-block =
          rw (a.pending, tail-append)
            (ap (λ (t : List ℕ). t ++ take used input)
                (take-append (tail_of q msg) (replicate (2 * block - r) 0) r (sym length-tail))
              ∙ ap (λ (n : ℕ). tail_of q msg ++ take (block - n) input) (sym length-tail)
              ∙ sym (
                  take-append_ge (tail_of q msg) input block (omega (arith, length-tail, a.short))))

      tail-drop : (k : ℕ) → drop (used + k) input ≡ drop (block + k) (tail_of q (msg ++ input))
      tail-drop k = rw tail-append (
          ap (λ (n : ℕ). drop n input) (omega (arith, length-tail, a.short))
          ∙ sym (
              drop-append_ge (tail_of q msg) input (block + k)
                (omega (arith, length-tail, a.short))))

      core-long :
          after_long.core ≡ fold_blocks block process (q + suc (left / block)) (msg ++ input) start
      unfolding fold_blocks
      core-long =
          blocks-eq-fold_blocks block process (left / block) used input _
          ∙ ap₂ (fold_blocks block process (left / block)) from_block (
              ap₂ process first-block (
                a.core
                ∙ sym (fold_blocks-append block process q msg input start (omega (arith, a.size)))))
          ∙ sym (fold_blocks-add block process q (suc (left / block)) (msg ++ input) start)
        where
          from_block : drop used input ≡ drop block (tail_of q (msg ++ input))
          from_block =
              ap (λ (n : ℕ). drop n input) (omega arith)
              ∙ tail-drop 0
              ∙ ap (λ (n : ℕ). drop n (tail_of q (msg ++ input))) (omega arith)

      abbrev new_rest : List ℕ
      new_rest = tail_of (q + suc (left / block)) (msg ++ input)

      length-new_rest : length new_rest ≡ left % block
      length-new_rest = omega (
        arith,
        length-drop ((q + suc (left / block)) * block) (msg ++ input),
        length-append msg input,
        a.size,
        q2-fact,
        a.short,
      )

      rest-eq : take (left % block) (drop (used + left / block * block) input) ≡ new_rest
      rest-eq =
          ap (take (left % block)) (
            tail-drop (left / block * block)
            ∙ drop-drop (block + left / block * block) (q * block) (msg ++ input)
            ∙ ap (λ (n : ℕ). drop n (msg ++ input)) (omega arith))
          ∙ take-all (left % block) new_rest (omega (arith, length-new_rest))

      pending-long : after_long.last_string ≡ new_rest ++ replicate (2 * block - left % block) 0
      pending-long =
          ap (λ (ys : List ℕ). write (replicate (2 * block) 0) 0 ys) rest-eq
          ∙ write-append [] new_rest (2 * block) 0 0 refl
              (omega (arith, length-new_rest, mod-lt left {m = block}, a.short))
          ∙ ap (λ (n : ℕ). new_rest ++ replicate (2 * block - n) 0) length-new_rest

      long-Absorbed : Absorbed (q + suc (left / block)) (left % block) (msg ++ input) after_long
      long-Absorbed = record {
        size = omega (arith, length-append msg input, a.size, q2-fact, a.short);
        short = mod-lt left (omega (arith, a.short));
        core = core-long;
        pending = pending-long;
        pending_len = refl;
        total = total-update;
      }

    update-short : r + length input < block → update block process ctx input ≡ after_short
    unfolding update
    update-short h =
        let e : ltb (u32 (length input + ctx.last_string_len)) block ≡ true =
          lt→ltb _ _ (omega (arith, a.pending_len)) in
        rw e

    update-long : (h : block ≤ r + length input) → update block process ctx input ≡ after_long h
    unfolding update
    update-long h =
        let e : ltb (u32 (length input + ctx.last_string_len)) block ≡ false =
          le→ltb _ _ (omega (arith, a.pending_len)) in
        let m : ctx.last_string_len % block ≡ r =
          ap (λ (n : ℕ). n % block) a.pending_len ∙ mod-eq_of_lt a.short in
        let d : ctx.last_string_len / block ≡ 0 =
          ap (λ (n : ℕ). n / block) a.pending_len ∙ div-eq_of_lt a.short in
        let w : u32 (length input + 2 ^ 32 - (block - r)) ≡ length input - (block - r) =
          omega (arith, a.short) in
        let z : 0 * block ≡ 0 = omega arith in rw (e, m, d, w, z)

    -- One call of `_update` takes in its bytes behind the message so far.
    pub update-Absorbed :
        (q' : ℕ) × (r' : ℕ) × Absorbed q' r' (msg ++ input) (update block process ctx input)
    update-Absorbed = elim (lt_or_le (r + length input) block) [
      | inl h ↦ (q, r + length input, rw (update-short h) (short-Absorbed h))
      | inr h ↦ (q + suc (left h / block), left h % block, rw (update-long h) (long-Absorbed h))
    ]
