-- ===== src/Fastsort/Numbers.antt =====
-- src/mgfastsort.c: `a - b` of two numbers as a comparison.
use mg_std.Base.{
  ℕ, zero, suc, ◌-◌, ◌≡◌, refl, sym, ◌∙◌, ℤ, pos, negsuc, true, false, arith, ltb, if◌then◌else◌,
  Bool-cases, inl, inr,
}
use mg_std.Fastsort.{not_positive, not_negative}
use mg_std.Fastsort.Order.{IsOrder}

abbrev pub difference : ℕ → ℕ → ℤ
difference a b = if ltb a b then negsuc (b - a - 1) else pos (a - b)

not_positive_pos : (n : ℕ) → not_positive (pos n) ≡ (if ltb 0 n then false else true)
not_positive_pos zero = refl
not_positive_pos (suc n) = ground arith

not_positive_lem : (a b : ℕ) → not_positive (difference a b) ≡ (if ltb b a then false else true)
not_positive_lem a b = elim (Bool-cases (ltb a b)) [
  | inl lt ↦ rw lt (ground arith)
  | inr ge ↦ rw ge (not_positive_pos (a - b) ∙ ground arith)
]

not_negative_lem : (a b : ℕ) → not_negative (difference a b) ≡ (if ltb a b then false else true)
not_negative_lem a b = elim (Bool-cases (ltb a b)) [ inl lt ↦ rw lt refl | inr ge ↦ rw ge refl ]

pub difference-IsOrder : IsOrder difference
difference-IsOrder = record {
  refl_cmp = λ a. not_positive_lem a a ∙ ground arith;
  flip = λ a b. not_negative_lem a b ∙ sym (not_positive_lem b a);
  trans_cmp = λ a b c h k.
      let ab = sym (not_positive_lem a b) ∙ h in
      let bc = sym (not_positive_lem b c) ∙ k in not_positive_lem a c ∙ ground arith;
}
