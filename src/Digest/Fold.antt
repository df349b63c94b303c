-- ===== src/Digest/Fold.antt =====
-- What the block loops of src/mgsha1.c and its siblings compute: the fold of `process` over the
-- blocks of a message.
use mg_std.Base.{
  ℕ, zero, suc, ◌+◌, ◌*◌, ◌≤◌, ◌≡◌, refl, ◌∙◌, List, ◌++◌, arith, length, take, drop,
  take-append_le, drop-append_le, length-drop, drop-drop,
}
use mg_std.Digest.{blocks}

module _ {S : Type 0} (block : ℕ) (process : List ℕ → S → S) where
  -- The fold over the first `n` blocks of `m`.
  unfoldable pub fold_blocks : ℕ → List ℕ → S → S
  fold_blocks zero m s = s
  fold_blocks (suc n) m s = fold_blocks n (drop block m) (process (take block m) s)

  pub fold_blocks-add :
      (n k : ℕ) (m : List ℕ) (s : S)
      → fold_blocks (n + k) m s ≡ fold_blocks k (drop (n * block) m) (fold_blocks n m s)
  unfolding fold_blocks
  fold_blocks-add zero k m s =
      let e : zero + k ≡ k = omega arith in let z : zero * block ≡ 0 = omega arith in rw (e, z)
  fold_blocks-add (suc n) k m s =
      let e : suc n + k ≡ suc (n + k) = omega arith in
      let p : block + n * block ≡ suc n * block = omega arith in
      rw e (fold_blocks-add n k (drop block m) (process (take block m) s) ∙ rw (drop-drop, p))

  pub fold_blocks-append :
      (n : ℕ) (m ys : List ℕ) (s : S)
      → n * block ≤ length m
      → fold_blocks n (m ++ ys) s ≡ fold_blocks n m s
  unfolding fold_blocks
  fold_blocks-append zero m ys s h = refl
  fold_blocks-append (suc n) m ys s h =
      let b : block ≤ length m = omega arith in
      rw (take-append_le m ys block b, drop-append_le m ys block b)
        (fold_blocks-append n (drop block m) ys (process (take block m) s)
          (omega (arith, length-drop block m)))

  pub blocks-eq-fold_blocks :
      (n pos : ℕ) (m : List ℕ) (s : S)
      → blocks block process n pos m s ≡ fold_blocks n (drop pos m) s
  unfolding fold_blocks blocks
  blocks-eq-fold_blocks zero pos m s = refl
  blocks-eq-fold_blocks (suc n) pos m s =
      blocks-eq-fold_blocks n (pos + block) m (process (take block (drop pos m)) s) ∙ rw drop-drop
