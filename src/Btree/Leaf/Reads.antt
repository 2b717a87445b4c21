-- ===== src/Btree/Leaf/Reads.antt =====
-- pkg/btree/leafNode.go: search and get of a leaf, in terms of its entries.
use recovery_stencil.Prelude.{
  ℕ, ◌≤◌, ◌<◌, ◌≡◌, refl, ◌∙◌, ap, ◌⊎◌, inl, inr, Bool, true, false, Option, none, some, List,
  arith, length, get_elem?, take, ltb, get_elem?_lt, get_elem?-some_lt, length-take, Bool-cases,
}
use recovery_stencil.Prelude.Shift.{get_elem?-take}
use recovery_stencil.Prelude.Int.{ℤ, pos, ◌==◌ as int_eq}
use recovery_stencil.Entry.{Entry}
use recovery_stencil.Entry.Find.{find_entry}
use recovery_stencil.Entry.RoundTrip.{InRange}
use recovery_stencil.Btree.Search.{Boundary, sort_search_lem}
use recovery_stencil.Btree.Order.{
  IsSorted, lower_bound, at_least, at_least_get, at_least_stays, Boundary-lower_bound,
  entry_with_key, find_entry-lower_bound, entry_with_key_at, entry_with_key_end,
}
use recovery_stencil.Btree.Leaf.{
  LeafNode, get_entry, get_key_at, key_at_least, search, is_key_at, get,
}
use recovery_stencil.Btree.Leaf.Holds.{Holds, slot_count, get_entry-Holds}

-- The leaf agrees with its page, and its slots in use hold these entries.
pub record Leaf (pagesize : ℕ) (node : LeafNode) (es : List Entry) : Type 0 where
  pub all : List Entry
  pub holds : Holds pagesize node all
  pub keys : node.num_keys ≡ length es
  pub front : take node.num_keys all ≡ es

module _ {pagesize : ℕ} (node : LeafNode) (es : List Entry) (l : Leaf pagesize node es) where
  pub keys_le : node.num_keys ≤ slot_count pagesize
  keys_le =
      let len = length-take node.num_keys l.all in
      let same : length (take node.num_keys l.all) ≡ length es = ap (λ t. length t) l.front in
      omega (arith, l.keys, l.holds.full)

  pub read_front :
      (i : ℕ)
      → i < length es
      → (e : Entry) × (get_elem? es i ≡ some e)
        × (get_elem? l.all i ≡ some e)
        × (get_entry node i ≡ some e)
        × InRange e
  read_front i lt =
      let (e, at) = get_elem?_lt es i lt in
      let at_all : get_elem? l.all i ≡ some e =
        get_elem?-take node.num_keys l.all i e (rw l.front at) in
      let (x, at_x, read, fit) =
        get_entry-Holds node l.all i l.holds (omega (arith, keys_le, l.keys)) in
      let same : x ≡ e = cc (at_all, at_x) in (e, at, at_all, rw same at read, rw same at fit)

  key_at_least_lem :
      (key : ℤ) (i : ℕ) → i < node.num_keys → key_at_least node key i ≡ some (at_least key es i)
  unfolding key_at_least get_key_at
  key_at_least_lem key i lt =
      let (e, at, at_all, read, fit) = read_front i (omega (arith, l.keys)) in
      rw (read, at_least_get key es i e at) refl

  -- In a leaf that agrees with its page and whose keys increase, the search finds the first
  -- place whose key is not less than the given one.
  pub search_lem : (key : ℤ) → IsSorted es → search node key ≡ some (lower_bound key es)
  unfolding search
  search_lem key sorted =
      let (r, run, b) =
        sort_search_lem (key_at_least node key) (at_least key es) node.num_keys
          (key_at_least_lem key)
          (λ k m le lt h. at_least_stays key es sorted k m le (omega (arith, l.keys)) h) in
      let b' : Boundary (at_least key es) (length es) r = rw l.keys at b in
      run ∙ ap some (Boundary-lower_bound key es r b')

  -- whether the entry at an index has the key
  is_key_at_lem :
      (key : ℤ) (i : ℕ) (e : Entry)
      → get_elem? es i ≡ some e
      → is_key_at node i key ≡ some (int_eq e.key key)
  unfolding is_key_at get_key_at
  is_key_at_lem key i e at =
      let lt = get_elem?-some_lt es i e at in
      let (x, at_x, at_all, read, fit) = read_front i lt in
      let same : x ≡ e = cc (at, at_x) in
      let inside : ltb i node.num_keys ≡ true = ground (arith, l.keys) in
      rw (inside, read, same) refl

  is_key_at_end : (key : ℤ) (i : ℕ) → length es ≤ i → is_key_at node i key ≡ some false
  unfolding is_key_at
  is_key_at_end key i le =
      let outside : ltb i node.num_keys ≡ false = ground (arith, l.keys) in rw outside refl

  -- whether the entry at the lower bound has the key, which is whether any has it
  pub is_key_at-search :
      (key : ℤ)
      → IsSorted es
      → ((find_entry key es ≡ none) × (is_key_at node (lower_bound key es) key ≡ some false))
        ⊎ ((e : Entry) × (find_entry key es ≡ some e)
            × (get_elem? es (lower_bound key es) ≡ some e)
            × (is_key_at node (lower_bound key es) key ≡ some true))
  is_key_at-search key sorted =
      let i = lower_bound key es in
      let found : find_entry key es ≡ entry_with_key key es i =
        find_entry-lower_bound key es sorted in
      elim (Bool-cases (ltb i (length es))) [
        | inr out ↦
            let le : length es ≤ i = ground arith in
            inl (found ∙ entry_with_key_end key es i le, is_key_at_end key i le)
        | inl inside ↦
            let (e, at) = get_elem?_lt es i (ground arith) in
            let here = found ∙ entry_with_key_at key es i e at in
            elim (Bool-cases (int_eq e.key key)) [
              | inl same ↦ inr (e, rw same at here, at, is_key_at_lem key i e at ∙ ap some same)
              | inr other ↦ inl (rw other at here, is_key_at_lem key i e at ∙ ap some other)
            ]
      ]

-- the value and whether the key was found
abbrev pub found_value : Option Entry → ℤ × Bool
found_value none = (pos 0, false)
found_value (some e) = (e.value, true)

module _ {pagesize : ℕ} (node : LeafNode) (es : List Entry) (l : Leaf pagesize node es) where
  -- In a leaf that agrees with its page and whose keys increase, Get returns the value of the
  -- key, or that it is not there.
  pub get_lem : (key : ℤ) → IsSorted es → get node key ≡ some (found_value (find_entry key es))
  unfolding get
  get_lem key sorted = elim (is_key_at-search node es l key sorted) [
    | inl (none_found, absent) ↦ rw (search_lem node es l key sorted, absent, none_found) refl
    | inr (e, found, at, present) ↦
        let (x, at_x, at_all, read, fit) =
          read_front node es l (lower_bound key es) (get_elem?-some_lt es _ e at) in
        let same : x ≡ e = cc (at, at_x) in
        rw (search_lem node es l key sorted, present, read, same, found) refl
  ]
