-- ===== src/Hashtable/Lines.antt =====
-- src/mghashtable.c: what the changes of one line mean for the search of a key.
use mg_std.Base.{
  ℕ, zero, suc, ◌<◌, ◌≡◌, ◌≢◌, refl, sym, subst, ap, ap₂, ◌∙◌, inl, inr, Bool, true, false, Option,
  none, some, List, [], ◌∷◌, ◌++◌, arith, if◌then◌else◌, length, Bool-cases,
}
use mg_std.Hashtable.{
  Bytes, Entry, Line, Table, and_then, shifted, same_key, find_entry, change_entry, unlink_entry,
  entries_at, change_line, find_line, get_line,
}

pub same_key_refl : (a : Bytes) → same_key a a ≡ true
unfolding same_key
same_key_refl [] = refl
same_key_refl (x ∷ a) = ground (arith, same_key_refl a)

pub eq_of_same_key : (a b : Bytes) → same_key a b ≡ true → a ≡ b
unfolding same_key
eq_of_same_key [] [] h = refl
eq_of_same_key [] (y ∷ b) h = absurd (ground arith)
eq_of_same_key (x ∷ a) [] h = absurd (ground arith)
eq_of_same_key (x ∷ a) (y ∷ b) h =
    let e : x ≡ y = ground arith in
    let rest : same_key a b ≡ true = ground arith in ap₂ ◌∷◌ e (eq_of_same_key a b rest)

pub same_key_ne : (a b : Bytes) → a ≢ b → same_key a b ≡ false
same_key_ne a b h = elim (Bool-cases (same_key a b)) [
  | inl e ↦ absurd (h (eq_of_same_key a b e))
  | inr e ↦ e
]

-- No two entries of a line have the same key.
abbrev pub Fresh : Bytes → List Entry → Type 0
Fresh key [] = Unit
Fresh key (e ∷ es) = (e.key ≢ key) × Fresh key es

abbrev pub IsDistinct : List Entry → Type 0
IsDistinct [] = Unit
IsDistinct (e ∷ es) = Fresh e.key es × IsDistinct es

pub Fresh-find_entry : (key : Bytes) (es : List Entry) → find_entry key es ≡ none → Fresh key es
unfolding find_entry
Fresh-find_entry key [] h = tt
Fresh-find_entry key (e ∷ es) h = elim (Bool-cases (same_key e.key key)) [
  | inl same ↦ absurd (ground arith)
  | inr other ↦ (
    (λ q. ground (arith, ap (λ k. same_key k key) q, same_key_refl key)),
    Fresh-find_entry key es (ground arith),
  )
]

pub find_entry-Fresh : (key : Bytes) (es : List Entry) → Fresh key es → find_entry key es ≡ none
unfolding find_entry
find_entry-Fresh key [] h = refl
find_entry-Fresh key (e ∷ es) h =
    ground (arith, same_key_ne e.key key h.0, find_entry-Fresh key es h.1)

-- An entry at the end is found if none of its key stands before it.
pub find-append_self :
    (key : Bytes) (es : List Entry) (e : Entry)
    → find_entry key es ≡ none
    → e.key ≡ key
    → find_entry key (es ++ (e ∷ [])) ≡ some e
unfolding find_entry
find-append_self key [] e h q = ground (arith, ap (λ k. same_key k key) q, same_key_refl key)
find-append_self key (d ∷ es) e h q =
    ground (arith, find-append_self key es e, Bool-cases (same_key d.key key))

pub find-append_ne :
    (key : Bytes) (es : List Entry) (e : Entry)
    → e.key ≢ key
    → find_entry key (es ++ (e ∷ [])) ≡ find_entry key es
unfolding find_entry
find-append_ne key [] e q = ground (arith, same_key_ne e.key key q)
find-append_ne key (d ∷ es) e q = ground (arith, find-append_ne key es e q)

module _ (key : Bytes) (f : Entry → Entry) (keeps : (e : Entry) → (f e).key ≡ e.key) where
  changed : Option Entry → Option Entry
  changed none = none
  changed (some e) = some (f e)

  still : (d : Entry) (k : Bytes) → same_key (f d).key k ≡ same_key d.key k
  still d k = ap (λ k'. same_key k' k) (keeps d)

  pub find-change_self :
      (es : List Entry) (e : Entry)
      → find_entry key es ≡ some e
      → find_entry key (change_entry key f es) ≡ some (f e)
  unfolding find_entry change_entry changed
  find-change_self [] e h = absurd (ground arith)
  find-change_self (d ∷ es) e h = elim (Bool-cases (same_key d.key key)) [
    | inl same ↦
        let q : some d ≡ some e = ground arith in
        let hit = still d key ∙ same in rw (same, hit) (ap changed q)
    | inr other ↦ ground (arith, find-change_self es e)
  ]

  pub find-change_ne :
      (other : Bytes) (es : List Entry)
      → key ≢ other
      → find_entry other (change_entry key f es) ≡ find_entry other es
  unfolding find_entry change_entry
  find-change_ne other [] h = refl
  find-change_ne other (d ∷ es) h = elim (Bool-cases (same_key d.key key)) [
    | inl same ↦
        let e = eq_of_same_key d.key key same in
        let no_hit = same_key_ne d.key other (λ q. h (sym e ∙ q)) in
        let after = still d other ∙ no_hit in ground arith
    | inr differs ↦ ground (arith, find-change_ne other es h)
  ]

pub find-unlink_ne :
    (key other : Bytes) (es : List Entry)
    → key ≢ other
    → find_entry other (unlink_entry key es) ≡ find_entry other es
unfolding find_entry unlink_entry
find-unlink_ne key other [] h = refl
find-unlink_ne key other (d ∷ es) h = elim (Bool-cases (same_key d.key key)) [
  | inl same ↦
      let e = eq_of_same_key d.key key same in
      let no_hit = same_key_ne d.key other (λ q. h (sym e ∙ q)) in ground arith
  | inr differs ↦ ground (arith, find-unlink_ne key other es h)
]

pub find-unlink_self :
    (key : Bytes) (es : List Entry) → IsDistinct es → find_entry key (unlink_entry key es) ≡ none
unfolding find_entry unlink_entry
find-unlink_self key [] h = refl
find-unlink_self key (d ∷ es) h = elim (Bool-cases (same_key d.key key)) [
  | inl same ↦
      let e = eq_of_same_key d.key key same in
      let gone = find_entry-Fresh key es (subst (λ k. Fresh k es) e h.0) in ground arith
  | inr differs ↦ ground (arith, find-unlink_self key es h.1)
]

module _ (f : List Entry → List Entry) where
  pub entries-change_self :
      (i : ℕ) (ls : List Line)
      → i < length ls
      → entries_at i (change_line i f ls) ≡ f (entries_at i ls)
  entries-change_self i [] h = absurd (omega arith)
  entries-change_self zero (l ∷ ls) h = refl
  entries-change_self (suc i) (l ∷ ls) h = entries-change_self i ls (omega arith)

  pub entries-change_ne :
      (i j : ℕ) (ls : List Line) → i ≢ j → entries_at j (change_line i f ls) ≡ entries_at j ls
  entries-change_ne i j [] h = refl
  entries-change_ne zero zero (l ∷ ls) h = absurd (h refl)
  entries-change_ne zero (suc j) (l ∷ ls) h = refl
  entries-change_ne (suc i) zero (l ∷ ls) h = refl
  entries-change_ne (suc i) (suc j) (l ∷ ls) h = entries-change_ne i j ls (λ e. h (ap suc e))

  -- The keys of the lines, and so the choice of a line, stay as they are.
  pub find_line-change_line :
      (cmp : ℕ → Bytes → Bytes → Option Bool) (n : ℕ) (key : Bytes) (i : ℕ) (ls : List Line)
      → find_line cmp n key (change_line i f ls) ≡ find_line cmp n key ls
  unfolding find_line
  find_line-change_line cmp n key i [] = refl
  find_line-change_line cmp n key zero (l ∷ ls) = refl
  find_line-change_line cmp n key (suc i) (l ∷ ls) =
      ap
        (λ rest.
          and_then (cmp n l.key key)
            λ hit. if hit then some (some zero) else and_then rest λ i. some (shifted i))
        (find_line-change_line cmp n key i ls)

-- A line that is found exists.
abbrev pub Within : ℕ → Option (Option ℕ) → Type 0
Within n (some (some i)) = i < n
Within n _ = Unit

Within-step :
    (n : ℕ) (hit : Option Bool) (rest : Option (Option ℕ))
    → Within n rest
    → Within
        (suc n)
        (and_then hit λ b. if b then some (some zero) else and_then rest λ i. some (shifted i))
Within-step n none rest h = tt
Within-step n (some true) rest h = omega arith
Within-step n (some false) none h = tt
Within-step n (some false) (some none) h = tt
Within-step n (some false) (some (some i)) h = omega arith

find_line-Within :
    (cmp : ℕ → Bytes → Bytes → Option Bool) (n : ℕ) (key : Bytes) (ls : List Line)
    → Within (length ls) (find_line cmp n key ls)
unfolding find_line
find_line-Within cmp n key [] = tt
find_line-Within cmp n key (l ∷ ls) =
    Within-step (length ls) (cmp n l.key key) (find_line cmp n key ls)
      (find_line-Within cmp n key ls)

pub get_line-lt :
    (cmp : ℕ → Bytes → Bytes → Option Bool) (t : Table) (key : Bytes) (i : ℕ)
    → get_line cmp t key ≡ some (some i)
    → i < length t.lines
unfolding get_line
get_line-lt cmp t [] i h = absurd (ground arith)
get_line-lt cmp t (b ∷ key) i h =
    subst (Within (length t.lines)) h (find_line-Within cmp t.line_num (b ∷ key) t.lines)
