-- ===== src/Hashtable/Distinct.antt =====
-- src/mghashtable.c: no two nodes of a line have the same key.
use mg_std.Base.{
  ℕ, zero, suc, ◌+◌, ◌≡◌, ◌≢◌, refl, sym, subst, ap, ◌∙◌, inl, inr, Bool, Option, none, some, List,
  [], ◌∷◌, ◌++◌, arith, length, Bool-cases,
}
use mg_std.Murmurhash.Wide.{murmurhash32}
use mg_std.Hashtable.{
  Bytes, Entry, Line, Table, and_then, tagged, located, appended, added, removed, same_key,
  find_entry, change_entry, unlink_entry, entries_at, change_line, get_line, get_node, node_init,
  node_replace_data, add_node, put_at, put_data, remove_node,
}
use mg_std.Hashtable.Lines.{Fresh, IsDistinct, Fresh-find_entry}
use mg_std.Hashtable.Default.{default_lines, mghashtable_init}

abbrev pub AllDistinct : List Line → Type 0
AllDistinct [] = Unit
AllDistinct (l ∷ ls) = IsDistinct l.entries × AllDistinct ls

abbrev pub HasDistinct : Table → Type 0
HasDistinct t = AllDistinct t.lines

Fresh-append :
    (key : Bytes) (es : List Entry) (e : Entry)
    → Fresh key es
    → e.key ≢ key
    → Fresh key (es ++ (e ∷ []))
Fresh-append key [] e h d = (d, tt)
Fresh-append key (x ∷ es) e h d = (h.0, Fresh-append key es e h.1 d)

append-IsDistinct :
    (es : List Entry) (e : Entry) → IsDistinct es → Fresh e.key es → IsDistinct (es ++ (e ∷ []))
append-IsDistinct [] e h f = (tt, tt)
append-IsDistinct (x ∷ es) e h f =
    (Fresh-append x.key es e h.0 (λ q. f.0 (sym q)), append-IsDistinct es e h.1 f.1)

module _ (key : Bytes) (f : Entry → Entry) (keeps : (e : Entry) → (f e).key ≡ e.key) where
  Fresh-change_entry : (k : Bytes) (es : List Entry) → Fresh k es → Fresh k (change_entry key f es)
  unfolding change_entry
  Fresh-change_entry k [] h = tt
  Fresh-change_entry k (e ∷ es) h = elim (Bool-cases (same_key e.key key)) [
    | inl hit ↦ rw hit ((λ q. h.0 (sym (keeps e) ∙ q)), h.1)
    | inr miss ↦ rw miss (h.0, Fresh-change_entry k es h.1)
  ]

  change_entry-IsDistinct : (es : List Entry) → IsDistinct es → IsDistinct (change_entry key f es)
  unfolding change_entry
  change_entry-IsDistinct [] h = tt
  change_entry-IsDistinct (e ∷ es) h = elim (Bool-cases (same_key e.key key)) [
    | inl hit ↦ rw hit (subst (λ k. Fresh k es) (sym (keeps e)) h.0, h.1)
    | inr miss ↦ rw miss (Fresh-change_entry e.key es h.0, change_entry-IsDistinct es h.1)
  ]

Fresh-unlink_entry : (key k : Bytes) (es : List Entry) → Fresh k es → Fresh k (unlink_entry key es)
unfolding unlink_entry
Fresh-unlink_entry key k [] h = tt
Fresh-unlink_entry key k (e ∷ es) h = elim (Bool-cases (same_key e.key key)) [
  | inl hit ↦ rw hit h.1
  | inr miss ↦ rw miss (h.0, Fresh-unlink_entry key k es h.1)
]

unlink_entry-IsDistinct :
    (key : Bytes) (es : List Entry) → IsDistinct es → IsDistinct (unlink_entry key es)
unfolding unlink_entry
unlink_entry-IsDistinct key [] h = tt
unlink_entry-IsDistinct key (e ∷ es) h = elim (Bool-cases (same_key e.key key)) [
  | inl hit ↦ rw hit h.1
  | inr miss ↦ rw miss (Fresh-unlink_entry key e.key es h.0, unlink_entry-IsDistinct key es h.1)
]

change_line-AllDistinct :
    (f : List Entry → List Entry) (i : ℕ) (ls : List Line)
    → AllDistinct ls
    → (IsDistinct (entries_at i ls) → IsDistinct (f (entries_at i ls)))
    → AllDistinct (change_line i f ls)
change_line-AllDistinct f i [] h g = tt
change_line-AllDistinct f zero (l ∷ ls) h g = (g h.0, h.1)
change_line-AllDistinct f (suc i) (l ∷ ls) h g = (h.0, change_line-AllDistinct f i ls h.1 g)

module _ (cmp : ℕ → Bytes → Bytes → Option Bool) (allocates : ℕ → Bool) where
  replace_keeps :
      (content : Bytes) (e : Entry) → (node_replace_data allocates e content).1.key ≡ e.key
  unfolding node_replace_data
  replace_keeps [] e = refl
  replace_keeps (c ∷ content) e = ground arith

  -- The node of a key and its data.
  abbrev made : Bytes → Bytes → Entry
  made content key = record {
    key = key;
    content = content;
    data_len = length content;
    murm_key = murmurhash32 key 16;
  }

  abbrev some_of : {A : Type 0} → A → Option A → A
  some_of d none = d
  some_of d (some a) = a

  node_init-key :
      (key content : Bytes) (e : Entry)
      → node_init allocates key content ≡ some (some e)
      → e.key ≡ key
  unfolding node_init
  node_init-key [] content e h = absurd (ground arith)
  node_init-key (b ∷ key) [] e h =
      let q : some (some (made [] (b ∷ key))) ≡ some (some e) = ground arith in
      sym (ap (λ o. (some_of e (some_of none o)).key) q)
  node_init-key (b ∷ key) (c ∷ content) e h =
      let q : some (some (made (c ∷ content) (b ∷ key))) ≡ some (some e) = ground arith in
      sym (ap (λ o. (some_of e (some_of none o)).key) q)

  -- Whatever the comparison and the allocations, `mghashtable_put_data` that returns leaves no two
  -- nodes of a line with the same key if there were none.
  pub put_data-HasDistinct :
      (t : Table) (key content : Bytes) (result : ℕ) (t' : Table)
      → HasDistinct t
      → put_data cmp allocates t key content ≡ some (result, t')
      → HasDistinct t'
  unfolding put_data put_at add_node get_node
  put_data-HasDistinct t key content result t' d h = by_line (get_line cmp t key) refl h
    where
      done :
          {r s : ℕ} {u v : Table}
          → HasDistinct u
          → ◌≡◌ {A = Option (ℕ × Table)} (some (r, u)) (some (s, v))
          → HasDistinct v
      done {u = u} w q =
          subst HasDistinct (ap (λ (o : Option (ℕ × Table)). (some_of (0, u) o).1) q) w

      put_in : ℕ → Option (Option Entry) → Option (ℕ × Table)
      put_in i o = and_then o λ made. some (appended allocates t i made)

      new :
          (i : ℕ)
          → find_entry key (entries_at i t.lines) ≡ none
          → (o : Option (Option Entry)) → node_init allocates key content ≡ o
          → put_in i o ≡ some (result, t')
          → HasDistinct t'
      new i e none m q = absurd (ground arith)
      new i e (some none) m q = done d q
      new i e (some (some n)) m q =
          done
            (change_line-AllDistinct (λ es. es ++ (n ∷ [])) i t.lines d
              (λ w. append-IsDistinct (entries_at i t.lines) n w (
                subst (λ k. Fresh k (entries_at i t.lines)) (sym (node_init-key key content n m))
                  (Fresh-find_entry key (entries_at i t.lines) e))))
            q

      by_entry :
          (i : ℕ)
          → get_line cmp t key ≡ some (some i)
          → (r : Option Entry) → find_entry key (entries_at i t.lines) ≡ r
          → put_at cmp allocates t key content (tagged i r) ≡ some (result, t')
          → HasDistinct t'
      by_entry i l none e q =
          new i e (node_init allocates key content) refl
            (sym (ap (λ o. and_then o (added allocates t key content)) l) ∙ q)
      by_entry i l (some found) e q =
          done
            (change_line-AllDistinct
              (change_entry key (λ old. (node_replace_data allocates old content).1)) i t.lines d
              (change_entry-IsDistinct key (λ old. (node_replace_data allocates old content).1)
                (replace_keeps content) (entries_at i t.lines)))
            q

      by_line :
          (o : Option (Option ℕ))
          → get_line cmp t key ≡ o
          → and_then (and_then o λ x. some (located t key x)) (put_at cmp allocates t key content)
            ≡ some (result, t')
          → HasDistinct t'
      by_line none l q = absurd (ground arith)
      by_line (some none) l q =
          done d (sym (ap (λ o. and_then o (added allocates t key content)) l) ∙ q)
      by_line (some (some i)) l q = by_entry i l (find_entry key (entries_at i t.lines)) refl q

  -- `mghashtable_remove_node` keeps it as well.
  pub remove_node-HasDistinct :
      (t : Table) (key : Bytes) (e : Option Entry) (t' : Table)
      → HasDistinct t
      → remove_node cmp t key ≡ some (e, t')
      → HasDistinct t'
  unfolding remove_node get_node
  remove_node-HasDistinct t key e t' d h = by_line (get_line cmp t key) h
    where
      done : (r : Option (ℕ × Entry)) → some (removed t key r) ≡ some (e, t') → HasDistinct t'
      done none q =
          subst HasDistinct (ap (λ (o : Option (Option Entry × Table)). (some_of (e, t) o).1) q) d
      done (some (i, found)) q =
          subst HasDistinct (ap (λ (o : Option (Option Entry × Table)). (some_of (e, t) o).1) q) (
            change_line-AllDistinct (unlink_entry key) i t.lines d
              (unlink_entry-IsDistinct key (entries_at i t.lines)))

      by_line :
          (o : Option (Option ℕ))
          → and_then (and_then o λ x. some (located t key x)) (λ found. some (removed t key found))
            ≡ some (e, t')
          → HasDistinct t'
      by_line none q = absurd (ground arith)
      by_line (some x) q = done (located t key x) q

-- A new table.
pub init-HasDistinct : (n : ℕ) → HasDistinct (mghashtable_init n)
unfolding mghashtable_init default_lines
init-HasDistinct n = lines 0 n
  where
    lines : (i n : ℕ) → AllDistinct (default_lines i n)
    lines i zero = tt
    lines i (suc n) = (tt, lines (i + 1) n)
