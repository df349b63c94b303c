-- ===== src/Hashtable/Laws.antt =====
-- src/mghashtable.c: what is put can be got, and removing takes it away.
use mg_std.Base.{
  ℕ, ◌<◌, ◌≡◌, ◌≢◌, refl, sym, subst, ap, ap₂, ◌∙◌, inl, inr, Bool, true, Option, none, some, List,
  [], ◌∷◌, ◌++◌, arith, ◌==◌, length, Bool-cases,
}
use mg_std.Murmurhash.Wide.{murmurhash32}
use mg_std.Hashtable.{
  Bytes, Entry, Table, and_then, tagged, located, reported, put_at, find_entry, change_entry,
  unlink_entry, entries_at, change_line, get_line, get_node, get_data, node_init, node_replace_data,
  add_node, put_data, remove_node,
}
use mg_std.Hashtable.Lines.{
  IsDistinct, find-append_self, find-append_ne, find-change_self, find-change_ne, find-unlink_ne,
  find-unlink_self, entries-change_self, entries-change_ne, find_line-change_line, get_line-lt,
}

-- What `mghashtable_get_data` reports of a node.
abbrev pub data_of : Option Entry → Option (Bytes × ℕ)
data_of none = none
data_of (some e) = some (e.content, e.data_len)

-- The table after a change of one line.
abbrev pub stored : Table → ℕ → (List Entry → List Entry) → Table
stored t i f = record t { lines = change_line i f t.lines }

module _ (cmp : ℕ → Bytes → Bytes → Option Bool) where
  get_line-stored :
      (t : Table) (key : Bytes) (i : ℕ) (f : List Entry → List Entry)
      → get_line cmp (stored t i f) key ≡ get_line cmp t key
  unfolding get_line
  get_line-stored t [] i f = refl
  get_line-stored t (b ∷ key) i f = find_line-change_line f cmp t.line_num (b ∷ key) i t.lines

  -- The line and the entry of a key.
  abbrev in_line : Table → Bytes → Option ℕ → Option (Option (Bytes × ℕ))
  in_line t key none = some none
  in_line t key (some i) = some (data_of (find_entry key (entries_at i t.lines)))

  get_data-line :
      (t : Table) (key : Bytes) → get_data cmp t key ≡ and_then (get_line cmp t key) (in_line t key)
  unfolding get_data get_node
  get_data-line t key = steps (get_line cmp t key)
    where
      reported-tagged : (i : ℕ) (r : Option Entry) → reported (tagged i r) ≡ data_of r
      reported-tagged i none = refl
      reported-tagged i (some e) = refl

      steps :
          (o : Option (Option ℕ))
          → and_then (and_then o (λ x. some (located t key x))) (λ y. some (reported y))
            ≡ and_then o (in_line t key)
      steps none = refl
      steps (some none) = refl
      steps (some (some i)) =
          ap (λ d. some d) (reported-tagged i (find_entry key (entries_at i t.lines)))

  -- A change of one line that does not concern a key leaves what is got for the key.
  get_data-stored_ne :
      (t : Table) (key : Bytes) (i : ℕ) (f : List Entry → List Entry)
      → ((es : List Entry) → find_entry key (f es) ≡ find_entry key es)
      → get_data cmp (stored t i f) key ≡ get_data cmp t key
  get_data-stored_ne t key i f h =
      get_data-line (stored t i f) key
      ∙ ap (λ o. and_then o (in_line (stored t i f) key)) (get_line-stored t key i f)
      ∙ same (get_line cmp t key) (λ j e. get_line-lt cmp t key j e)
      ∙ sym (get_data-line t key)
    where
      same :
          (o : Option (Option ℕ))
          → ((j : ℕ) → o ≡ some (some j) → j < length t.lines)
          → and_then o (in_line (stored t i f) key) ≡ and_then o (in_line t key)
      same none b = refl
      same (some none) b = refl
      same (some (some j)) b =
          ap (λ r. some (data_of r))
            (elim (Bool-cases (i == j)) [
              | inl e ↦
                  let q : i ≡ j = ground arith in
                  ap (find_entry key) (
                    subst (λ k. entries_at k (change_line i f t.lines) ≡ f (entries_at k t.lines)) q
                      (entries-change_self f i t.lines
                        (subst (λ k. k < length t.lines) (sym q) (b j refl))))
                  ∙ h (entries_at j t.lines)
              | inr ne ↦
                  let q : i ≢ j = ground arith in
                  ap (find_entry key) (entries-change_ne f i j t.lines q)
            ])

  get_data-stored_self :
      (t : Table) (key : Bytes) (i : ℕ) (f : List Entry → List Entry)
      → get_line cmp t key ≡ some (some i)
      → get_data cmp (stored t i f) key ≡ some (data_of (find_entry key (f (entries_at i t.lines))))
  get_data-stored_self t key i f h =
      get_data-line (stored t i f) key
      ∙ ap (λ o. and_then o (in_line (stored t i f) key)) (get_line-stored t key i f ∙ h)
      ∙ ap (λ es. some (data_of (find_entry key es)))
          (entries-change_self f i t.lines (get_line-lt cmp t key i h))

  get_node-line :
      (t : Table) (key : Bytes) (i : ℕ)
      → get_line cmp t key ≡ some (some i)
      → get_node cmp t key ≡ some (tagged i (find_entry key (entries_at i t.lines)))
  unfolding get_node
  get_node-line t key i h = ap (λ o. and_then o λ found. some (located t key found)) h

  not_empty : (t : Table) (i : ℕ) → get_line cmp t [] ≡ some (some i) → ⊥
  unfolding get_line
  not_empty t i h = ground arith

  -- `mghashtable_remove_node` of a key that a line accepts, no two nodes of the line having the
  -- same key: it returns the node of the key or NULL, then nothing is got for the key, and what is
  -- got for the other keys stays.
  pub remove-get :
      (t : Table) (key : Bytes) (i : ℕ)
      → get_line cmp t key ≡ some (some i)
      → IsDistinct (entries_at i t.lines)
      → (t' : Table) × (remove_node cmp t key ≡ some (find_entry key (entries_at i t.lines), t'))
        × (get_data cmp t' key ≡ some none)
        × ((other : Bytes) → key ≢ other → get_data cmp t' other ≡ get_data cmp t other)
  unfolding remove_node
  remove-get t key i h d = by_entry (find_entry key es) refl
    where
      es : List Entry
      es = entries_at i t.lines

      by_entry :
          (r : Option Entry)
          → find_entry key es ≡ r
          → (t' : Table) × (remove_node cmp t key ≡ some (find_entry key es, t'))
            × (get_data cmp t' key ≡ some none)
            × ((other : Bytes) → key ≢ other → get_data cmp t' other ≡ get_data cmp t other)
      by_entry none e = (
        t,
        rw (get_node-line t key i h, e) refl,
        get_data-line t key ∙ ap (λ o. and_then o (in_line t key)) h ∙ ap (λ r. some (data_of r)) e,
        λ other ne. refl,
      )
      by_entry (some found) e = (
        stored t i (unlink_entry key),
        rw (get_node-line t key i h, e) refl,
        get_data-stored_self t key i (unlink_entry key) h
            ∙ ap (λ r. some (data_of r)) (find-unlink_self key es d),
        λ other ne.
            get_data-stored_ne t other i (unlink_entry key) (λ xs. find-unlink_ne key other xs ne),
      )

  module _ (allocates : ℕ → Bool) (enough : (n : ℕ) → allocates n ≡ true) where
    node_init-made :
        (b c : ℕ) (key content : Bytes)
        → (e : Entry) × (node_init allocates (b ∷ key) (c ∷ content) ≡ some (some e))
          × (e.key ≡ b ∷ key)
          × (e.content ≡ c ∷ content)
          × (e.data_len ≡ length (c ∷ content))
    unfolding node_init
    node_init-made b c key content = (
      record {
        key = b ∷ key;
        content = c ∷ content;
        data_len = length (c ∷ content);
        murm_key = murmurhash32 (b ∷ key) 16;
      },
      rw (enough 48, enough (length (b ∷ key)), enough (length (c ∷ content))) refl,
      refl,
      refl,
      refl,
    )

    replace_keeps :
        (content : Bytes) (e : Entry) → (node_replace_data allocates e content).1.key ≡ e.key
    unfolding node_replace_data
    replace_keeps [] e = refl
    replace_keeps (c ∷ content) e = rw (enough (length (c ∷ content))) refl

    replace_new :
        (c : ℕ) (content : Bytes) (e : Entry)
        → node_replace_data allocates e (c ∷ content)
          ≡ (1, record e { content = c ∷ content; data_len = length (c ∷ content) })
    unfolding node_replace_data
    replace_new c content e = rw (enough (length (c ∷ content))) refl

    added_new :
        (t : Table) (i b c : ℕ) (key content : Bytes) (new : Entry)
        → get_line cmp t (b ∷ key) ≡ some (some i)
        → node_init allocates (b ∷ key) (c ∷ content) ≡ some (some new)
        → add_node cmp allocates t (b ∷ key) (c ∷ content)
          ≡ some (1, stored t i (λ es. es ++ (new ∷ [])))
    unfolding add_node
    added_new t i b c key content new h made = rw (h, made) refl

    -- The three things that a put promises.
    abbrev pub Stores : Table → Bytes → Bytes → Table → Type 0
    Stores t key content t' =
        (put_data cmp allocates t key content ≡ some (1, t'))
        × (get_data cmp t' key ≡ some (some (content, length content)))
        × ((other : Bytes) → key ≢ other → get_data cmp t' other ≡ get_data cmp t other)

    -- `mghashtable_put_data` of data that is not empty under a key that a line accepts, while
    -- allocations succeed: it returns 1, then the data is got for the key, whether the key was
    -- there before or not, and what is got for the other keys stays.
    pub put-get :
        (t : Table) (key : Bytes) (c : ℕ) (content : Bytes) (i : ℕ)
        → get_line cmp t key ≡ some (some i)
        → (t' : Table) × Stores t key (c ∷ content) t'
    unfolding put_data put_at
    put-get t key c content i h = by_entry key h (find_entry key (entries_at i t.lines)) refl
      where
        by_entry :
            (key : Bytes)
            → get_line cmp t key ≡ some (some i)
            → (r : Option Entry) → find_entry key (entries_at i t.lines) ≡ r
            → (t' : Table) × Stores t key (c ∷ content) t'
        by_entry key h (some found) e =
            let f = change_entry key (λ old. (node_replace_data allocates old (c ∷ content)).1) in
            let made = replace_new c content found in
            (
              stored t i f,
              (
                rw (get_node-line t key i h, e)
                    (ap (λ (r : ℕ × Entry). some (r.0, stored t i f)) made),
                get_data-stored_self t key i f h
                    ∙ ap (λ r. some (data_of r))
                        (find-change_self key
                          (λ old. (node_replace_data allocates old (c ∷ content)).1)
                          (replace_keeps (c ∷ content)) (entries_at i t.lines) found e)
                    ∙ ap (λ (r : ℕ × Entry). some (some (r.1.content, r.1.data_len))) made,
                λ other ne. get_data-stored_ne t other i f (λ xs.
                    find-change_ne key (λ old. (node_replace_data allocates old (c ∷ content)).1)
                      (replace_keeps (c ∷ content)) other xs ne),
              ),
            )
        by_entry [] h none e = absurd (not_empty t i h)
        by_entry (b ∷ key) h none e =
            let (new, made, k, d, len) = node_init-made b c key content in
            let f : List Entry → List Entry = λ es. es ++ (new ∷ []) in
            (
              stored t i f,
              (
                rw (get_node-line t (b ∷ key) i h, e) (added_new t i b c key content new h made),
                get_data-stored_self t (b ∷ key) i f h
                    ∙ ap (λ r. some (data_of r))
                        (find-append_self (b ∷ key) (entries_at i t.lines) new e k)
                    ∙ ap₂ (λ x y. some (some (x, y))) d len,
                λ other ne.
                    get_data-stored_ne t other i f
                      (λ xs. find-append_ne other xs new (λ q. ne (sym k ∙ q))),
              ),
            )
