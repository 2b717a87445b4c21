-- ===== src/Btree/Leaf/Writes.antt =====
-- pkg/btree/leafNode.go: insert and delete of a leaf, in terms of its entries.
use recovery_stencil.Prelude.{
  ℕ, zero, suc, ◌+◌, ◌-◌, ◌^◌, ◌≤◌, ◌<◌, ◌≡◌, refl, sym, ◌∙◌, ap, inl, inr, Bool, true, false,
  Option, none, some, List, arith, length, get_elem?, take, put_at, insert_idx, erase_idx, leb,
  if◌then◌else◌, get_elem?-some_lt, Bool-cases, ok, err, length-put_at_inside, length-erase_idx,
}
use recovery_stencil.Prelude.Moves.{
  shift_up, take-shift_up, shift_back, take-shift_back, take-put_at, length-insert_idx,
}
use recovery_stencil.Prelude.Int.{ℤ, IsInt64, ◌==◌ as int_eq}
use recovery_stencil.Entry
use recovery_stencil.Entry.{Entry}
use recovery_stencil.Entry.Find.{find_entry}
use recovery_stencil.Entry.RoundTrip.{InRange}
use recovery_stencil.Page.{Page}
use recovery_stencil.Btree.{
  no_split, entries_per_leaf_node, NodeError, duplicate_key, non_existent_entry,
}
use recovery_stencil.Btree.Order.{
  IsSorted, lower_bound, lower_bound_le, IsSorted-insert_idx, IsSorted-erase_idx,
  find_entry-insert_idx,
}
use recovery_stencil.Btree.Leaf.{
  LeafNode, insert, insert_at, delete, shift_right, shift_left, modify_entry, update_num_keys,
  search, is_key_at, get,
}
use recovery_stencil.Btree.Leaf.Holds.{
  Holds, SameNode, SameNode-refl, SameNode-trans, Moves_lem, slot_count, modify_entry-Holds,
  update_num_keys-Leaf, update_value_at-Holds,
}
use recovery_stencil.Btree.Leaf.Reads.{
  Leaf, keys_le, read_front, search_lem, is_key_at-search, get_lem, found_value,
}

module _ {pagesize : ℕ} where
  shift_right_lem :
      (node : LeafNode) (all : List Entry) (p n : ℕ)
      → Holds pagesize node all
      → p + n < slot_count pagesize
      → (node' : LeafNode) × (shift_right node p n ≡ some node')
        × Holds pagesize node' (shift_up all p n)
        × SameNode node node'
  unfolding shift_right shift_up
  shift_right_lem node all p zero h lt = (node, refl, h, SameNode-refl node)
  shift_right_lem node all p (suc n) h lt =
      let m =
        Moves_lem node all (p + n) (p + n + 1) h (omega arith) (omega arith)
          (λ e. absurd (omega arith)) in
      let (node', run, h', same) =
        shift_right_lem m.moved (put_at all (p + n + 1) m.entry) p n m.holds (omega arith) in
      (
        node',
        rw (m.key_run, m.keyed_run, m.value_run, m.moved_run) run,
        rw m.at_j h',
        SameNode-trans m.same same,
      )

  shift_left_lem :
      (node : LeafNode) (all : List Entry) (i n : ℕ)
      → Holds pagesize node all
      → i + n < slot_count pagesize
      → (node' : LeafNode) × (shift_left node i n ≡ some node')
        × Holds pagesize node' (shift_back all i n)
        × SameNode node node'
  unfolding shift_left shift_back
  shift_left_lem node all i zero h lt = (node, refl, h, SameNode-refl node)
  shift_left_lem node all i (suc n) h lt =
      let m =
        Moves_lem node all (i + 1) i h (omega arith) (omega arith) (λ e. absurd (omega arith)) in
      let (node', run, h', same) =
        shift_left_lem m.moved (put_at all i m.entry) (i + 1) n m.holds (omega arith) in
      (
        node',
        rw (m.key_run, m.keyed_run, m.value_run, m.moved_run) run,
        rw m.at_j h',
        SameNode-trans m.same same,
      )

-- insert_at by its steps
insert_at_run :
    (pagesize : ℕ) (node a b c : LeafNode) (place : ℕ) (key value : ℤ) (fresh : Option Page)
    → shift_right node place (node.num_keys - place) ≡ some a
    → update_num_keys a (a.num_keys + 1) ≡ some b
    → modify_entry b place (Entry.new key value) ≡ some c
    → leb (entries_per_leaf_node pagesize) c.num_keys ≡ false
    → insert_at pagesize node place key value fresh
      ≡ some (record { node = c; new_node = none; answer = ok no_split })
unfolding insert_at
insert_at_run pagesize node a b c place key value fresh r₁ r₂ r₃ small = rw (r₁, r₂, r₃, small) refl

delete_run :
    (node a b : LeafNode) (place : ℕ) (key : ℤ)
    → search node key ≡ some place
    → is_key_at node place key ≡ some true
    → shift_left node place (node.num_keys - 1 - place) ≡ some a
    → update_num_keys a (a.num_keys - 1) ≡ some b
    → delete node key ≡ some b
unfolding delete
delete_run node a b place key r₁ r₂ r₃ r₄ = rw (r₁, r₂, r₃, r₄) refl

-- the error of an insert, or of an update, given what is there
abbrev pub refusal : Option Entry → Bool → Option NodeError
refusal none true = some non_existent_entry
refusal none false = none
refusal (some e) true = none
refusal (some e) false = some duplicate_key

module _ {pagesize : ℕ} (node : LeafNode) (es : List Entry) (l : Leaf pagesize node es)
    (sorted : IsSorted es) (key : ℤ) where
  absent_run : find_entry key es ≡ none → is_key_at node (lower_bound key es) key ≡ some false
  absent_run miss = elim (is_key_at-search node es l key sorted) [
    | inl (found, run) ↦ run
    | inr (e, found, at, run) ↦ cc (miss, found)
  ]

  present_run :
      (e : Entry)
      → find_entry key es ≡ some e
      → (get_elem? es (lower_bound key es) ≡ some e)
        × (is_key_at node (lower_bound key es) key ≡ some true)
  present_run e found = elim (is_key_at-search node es l key sorted) [
    | inl (miss, run) ↦ cc (miss, found)
    | inr (x, found', at, run) ↦ let same : x ≡ e = cc (found, found') in (rw same at (at), run)
  ]

  -- Into a leaf that agrees with its page and whose keys increase, an insert of a new int64 key
  -- that keeps the leaf below the number at which it splits puts the entry at its place in the
  -- order, keeps the agreement and the order, and reports no split.
  pub insert-Leaf :
      (value : ℤ) (fresh : Option Page)
      → pagesize < 2 ^ 63
      → length es + 1 < entries_per_leaf_node pagesize
      → InRange (Entry.new key value)
      → find_entry key es ≡ none
      → (node' : LeafNode) × (insert pagesize node key value false fresh
          ≡ some (record { node = node'; new_node = none; answer = ok no_split }))
        × Leaf pagesize node' (insert_idx es (lower_bound key es) (Entry.new key value))
        × IsSorted (insert_idx es (lower_bound key es) (Entry.new key value))
        × (node'.right_sibling_pn ≡ node.right_sibling_pn)
  unfolding insert Entry.new
  insert-Leaf value fresh small room fit miss =
      let place = lower_bound key es in
      let e = Entry.new key value in
      let m = node.num_keys - place in
      let (a, run₁, h₁, same₁) =
        shift_right_lem node l.all place m l.holds (omega (arith, l.keys, lower_bound_le key es)) in
      let (b, run₂, h₂, keys₂, sib₂, num₂) =
        update_num_keys-Leaf a (shift_up l.all place m) (a.num_keys + 1) h₁ (omega arith)
          (omega (arith, same₁.keys, l.keys)) in
      let (c, run₃, h₃, same₃) =
        modify_entry-Holds b (shift_up l.all place m) place e h₂
          (omega (arith, l.keys, lower_bound_le key es)) fit in
      let moved : take (node.num_keys + 1) (put_at (shift_up l.all place m) place e)
          ≡ insert_idx es place e =
        take-shift_up l.all place node.num_keys m e (omega (arith, l.keys, lower_bound_le key es))
          (omega (arith, l.keys, l.holds.full))
        ∙ ap (λ t. insert_idx t place e) l.front in
      let count : c.num_keys ≡ node.num_keys + 1 = omega (arith, same₃.keys, keys₂, same₁.keys) in
      let below : leb (entries_per_leaf_node pagesize) c.num_keys ≡ false =
        ground (arith, count, l.keys) in
      (
        c,
        rw (search_lem node es l key sorted, absent_run miss)
            (insert_at_run pagesize node a b c place key value fresh run₁ run₂ run₃ below),
        record {
          all = put_at (shift_up l.all place m) place e;
          holds = h₃;
          keys = omega (arith, count, l.keys, length-insert_idx es place e (lower_bound_le key es));
          front = rw count moved;
        },
        IsSorted-insert_idx e es sorted miss,
        cc (same₃.sibling, sib₂, same₁.sibling),
      )

  -- After an insert of a new int64 key that does not split the leaf, whose keys increase, Get
  -- returns the value for that key, and for every other key what it returned before.
  pub get-insert :
      (value : ℤ) (fresh : Option Page) (k : ℤ)
      → pagesize < 2 ^ 63
      → length es + 1 < entries_per_leaf_node pagesize
      → InRange (Entry.new key value)
      → find_entry key es ≡ none
      → (node' : LeafNode) × (insert pagesize node key value false fresh
          ≡ some (record { node = node'; new_node = none; answer = ok no_split }))
        × (get node' k ≡ (if int_eq key k then some (value, true) else get node k))
  unfolding Entry.new
  get-insert value fresh k small room fit miss =
      let (node', run, leaf, ordered, sib) = insert-Leaf value fresh small room fit miss in
      let place = lower_bound key es in
      let found =
        find_entry-insert_idx k (Entry.new key value) es place (lower_bound_le key es) miss in
      let before = get_lem node es l k sorted in
      let after = get_lem node' (insert_idx es place (Entry.new key value)) leaf k ordered in
      (
        node',
        run,
        elim (Bool-cases (int_eq key k)) [
          | inl same ↦ rw same (after ∙ ap (λ t. some (found_value t)) (rw same at found))
          | inr other ↦
              rw other (after ∙ ap (λ t. some (found_value t)) (rw other at found) ∙ sym before)
        ],
      )

  -- In a leaf that agrees with its page and whose keys increase, an insert of a key that is
  -- there and an update of one that is not fail, and change nothing.
  pub insert_refused :
      (value : ℤ) (overwrite : Bool) (fresh : Option Page) (error : NodeError)
      → refusal (find_entry key es) overwrite ≡ some error
      → insert pagesize node key value overwrite fresh
        ≡ some (record { node = node; new_node = none; answer = err error })
  unfolding insert
  insert_refused value true fresh error h = elim (is_key_at-search node es l key sorted) [
    | inl (miss, absent) ↦
        let same : non_existent_entry ≡ error = cc (rw miss at h) in
        rw (search_lem node es l key sorted, absent, same) refl
    | inr (e, found, at, present) ↦ cc (rw found at h)
  ]
  insert_refused value false fresh error h = elim (is_key_at-search node es l key sorted) [
    | inl (miss, absent) ↦ cc (rw miss at h)
    | inr (e, found, at, present) ↦
        let same : duplicate_key ≡ error = cc (rw found at h) in
        rw (search_lem node es l key sorted, present, same) refl
  ]

  -- In a leaf that agrees with its page and whose keys increase, an update of a key that is
  -- there gives its entry the new value, and changes no other.
  pub update-Leaf :
      (value : ℤ) (old : Entry) (fresh : Option Page)
      → IsInt64 value
      → find_entry key es ≡ some old
      → (node' : LeafNode) × (insert pagesize node key value true fresh
          ≡ some (record { node = node'; new_node = none; answer = ok no_split }))
        × Leaf pagesize node' (put_at es (lower_bound key es) (Entry.new old.key value))
        × (node'.right_sibling_pn ≡ node.right_sibling_pn)
  unfolding insert
  update-Leaf value old fresh fit found =
      let place = lower_bound key es in
      let (at, present) = present_run old found in
      let lt = get_elem?-some_lt es place old at in
      let (x, at_x, at_all, read, range) = read_front node es l place lt in
      let (y, node', at_y, run, h, same) =
        update_value_at-Holds node l.all place value l.holds
          (omega (arith, keys_le node es l, l.keys)) fit in
      let same_entry : y ≡ old = cc (at_y, at_all, at, at_x) in
      let e = Entry.new y.key value in
      let n_le = keys_le node es l in
      let front : take node.num_keys (put_at l.all place e) ≡ put_at es place e =
        take-put_at l.all place node.num_keys e (omega (arith, l.keys))
          (omega (arith, n_le, l.holds.full))
        ∙ ap (λ t. put_at t place e) l.front in
      (
        node',
        rw (search_lem node es l key sorted, present, run) refl,
        rw (← same_entry) (record {
          all = put_at l.all place e;
          holds = h;
          keys = omega (arith, same.keys, l.keys, length-put_at_inside es place e lt);
          front = rw same.keys front;
        }),
        same.sibling,
      )

  -- In a leaf that agrees with its page and whose keys increase, Delete of a key that is there
  -- removes its entry, and keeps the agreement and the order.
  pub delete-Leaf :
      (old : Entry)
      → 21 ≤ pagesize
      → pagesize < 2 ^ 63
      → find_entry key es ≡ some old
      → (node' : LeafNode) × (delete node key ≡ some node')
        × Leaf pagesize node' (erase_idx es (lower_bound key es))
        × IsSorted (erase_idx es (lower_bound key es))
        × (node'.right_sibling_pn ≡ node.right_sibling_pn)
  delete-Leaf old room small found =
      let place = lower_bound key es in
      let (at, present) = present_run old found in
      let lt = get_elem?-some_lt es place old at in
      let n_le = keys_le node es l in
      let m = node.num_keys - 1 - place in
      let (a, run₁, h₁, same₁) =
        shift_left_lem node l.all place m l.holds (omega (arith, l.keys)) in
      let (b, run₂, h₂, keys₂, sib₂, num₂) =
        update_num_keys-Leaf a (shift_back l.all place m) (a.num_keys - 1) h₁ room
          (omega (arith, same₁.keys)) in
      let count : b.num_keys + 1 ≡ node.num_keys = omega (arith, keys₂, same₁.keys, l.keys) in
      let front : take b.num_keys (shift_back l.all place m)
          ≡ erase_idx (take (b.num_keys + 1) l.all) place =
        take-shift_back l.all place b.num_keys m (omega (arith, l.keys))
          (omega (arith, l.holds.full)) in
      let front' : take b.num_keys (shift_back l.all place m) ≡ erase_idx es place =
        front ∙ rw count (ap (λ t. erase_idx t place) l.front) in
      (
        b,
        delete_run node a b place key (search_lem node es l key sorted) present run₁ run₂,
        record {
          all = shift_back l.all place m;
          holds = h₂;
          keys = sym (length-erase_idx es place b.num_keys lt (omega (arith, l.keys)));
          front = front';
        },
        IsSorted-erase_idx es place sorted,
        cc (sib₂, same₁.sibling),
      )

  -- Delete of a key that is not there changes nothing.
  pub delete_absent : find_entry key es ≡ none → delete node key ≡ some node
  unfolding delete
  delete_absent miss = rw (search_lem node es l key sorted, absent_run miss) refl
