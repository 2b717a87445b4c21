-- ===== src/Btree/Leaf/Holds.antt =====
-- pkg/btree/leafNode.go: when a leaf agrees with its page, for the writers of one entry and of the
-- number of keys.
use recovery_stencil.Prelude.{
  ℕ, zero, suc, ◌-◌, ◌/◌, ◌^◌, ◌≤◌, ◌<◌, ◌≡◌, ◌≢◌, refl, sym, ◌∙◌, ap, inl, inr, Option, none, some,
  List, [], ◌∷◌, arith, length, get_elem?, put_at, replicate, if◌then◌else◌, ◌==◌, ◌>>=◌,
  get_elem?-put_at, length-put_at_inside,
}
use mathlib.Core.List.{append-nil}
use recovery_stencil.Prelude.Int.{ℤ, pos, IsInt64}
use recovery_stencil.Entry
use recovery_stencil.Entry.{Entry}
use recovery_stencil.Entry.Varint.{varint}
use recovery_stencil.Entry.Varint.RoundTrip.{varint-put_varint}
use recovery_stencil.Entry.RoundTrip.{InRange}
use recovery_stencil.Page.{Page, slice}
use recovery_stencil.Page.Bytes.{update-Written}
use recovery_stencil.Page.Slots.{
  Slots, SameHeader, write_slot-bind, write_slot-Slots, read_slot-Slots, header_write-Slots,
}
use recovery_stencil.Btree.{
  NodeHeader, internal_node, leaf_node, to_count, page_to_node_header, write_num_keys,
}
use recovery_stencil.Btree.Leaf.{
  LeafNode, modify_entry, get_entry, get_key_at, get_value_at, update_key_at, update_value_at,
  update_num_keys, page_to_leaf_node,
}

-- the entries for which a page has room, one more than the number at which a leaf splits
abbrev pub slot_count : ℕ → ℕ
slot_count pagesize = (pagesize - 21) / 20

-- The leaf agrees with its page, and all its slots, in use or not, hold these entries.
pub record Holds (pagesize : ℕ) (node : LeafNode) (all : List Entry) : Type 0 where
  pub size : length node.page.bytes ≡ pagesize
  pub slots : Slots 21 (slot_count pagesize) node.page all
  pub full : length all ≡ slot_count pagesize
  pub header : page_to_leaf_node node.page ≡ some node

-- What the writers of entries leave alone.
pub record SameNode (a b : LeafNode) : Type 0 where
  pub keys : b.num_keys ≡ a.num_keys
  pub sibling : b.right_sibling_pn ≡ a.right_sibling_pn
  pub pagenum : b.page.pagenum ≡ a.page.pagenum

pub SameNode-refl : (a : LeafNode) → SameNode a a
SameNode-refl a = record { keys = refl; sibling = refl; pagenum = refl }

pub SameNode-trans : {a b c : LeafNode} → SameNode a b → SameNode b c → SameNode a c
SameNode-trans p q = record {
  keys = cc (p.keys, q.keys);
  sibling = cc (p.sibling, q.sibling);
  pagenum = cc (p.pagenum, q.pagenum);
}

abbrev decode : Option ℕ → Option (List ℕ) → Option (List ℕ) → Page → Option LeafNode
decode byte keys sibling page = do
  b ← byte
  k ← keys
  s ← sibling
  some (record {
    node_type = if b == 0 then internal_node else leaf_node;
    num_keys = to_count (varint k);
    page = page;
    right_sibling_pn = varint s;
  })

page_to_leaf_node_run :
    (p : Page)
    → page_to_leaf_node p
      ≡ decode (get_elem? p.bytes 0) (slice p.bytes 1 11) (slice p.bytes 11 21) p
unfolding page_to_leaf_node page_to_node_header
page_to_leaf_node_run p = run (get_elem? p.bytes 0) (slice p.bytes 1 11) (slice p.bytes 11 21)
  where
    header_of : Option ℕ → Option (List ℕ) → Option NodeHeader
    header_of a b = do
      byte ← a
      keys ← b
      some (record {
        node_type = if byte == 0 then internal_node else leaf_node;
        num_keys = to_count (varint keys);
        page = p;
      })

    run :
        (a : Option ℕ) (b c : Option (List ℕ))
        → (do
          header ← header_of a b
          sibling ← c
          some (record {
            node_type = header.node_type;
            num_keys = header.num_keys;
            page = header.page;
            right_sibling_pn = varint sibling;
          }))
          ≡ decode a b c p
    run none b c = refl
    run (some a) none c = refl
    run (some a) (some b) none = refl
    run (some a) (some b) (some c) = refl

decode-page :
    (a : Option ℕ) (b c : Option (List ℕ)) (p q : Page) (node : LeafNode)
    → decode a b c p ≡ some node
    → decode a b c q ≡ some (record node { page = q })
decode-page none b c p q node h = cc
decode-page (some a) none c p q node h = cc
decode-page (some a) (some b) none p q node h = cc
decode-page (some a) (some b) (some c) p q node h = ground arith

decode-keys :
    (a : Option ℕ) (b c : Option (List ℕ)) (src : List ℕ) (p q : Page) (node : LeafNode) (n : ℕ)
    → decode a b c p ≡ some node
    → varint src ≡ pos n
    → decode a (some src) c q ≡ some (record node { num_keys = n; page = q })
unfolding to_count
decode-keys none b c src p q node n h e = cc
decode-keys (some a) none c src p q node n h e = cc
decode-keys (some a) (some b) none src p q node n h e = cc
decode-keys (some a) (some b) (some c) src p q node n h e = rw e (ground arith)

first_byte : (xs ys : List ℕ) → slice xs 0 1 ≡ slice ys 0 1 → get_elem? xs 0 ≡ get_elem? ys 0
unfolding slice
first_byte [] [] h = refl
first_byte [] (y ∷ ys) h = ground arith
first_byte (x ∷ xs) [] h = ground arith
first_byte (x ∷ xs) (y ∷ ys) h = ground arith

page_to_leaf_node-SameHeader :
    (node : LeafNode) (p : Page)
    → page_to_leaf_node node.page ≡ some node
    → SameHeader 21 node.page p
    → page_to_leaf_node p ≡ some (record node { page = p })
page_to_leaf_node-SameHeader node p h same =
    let byte = first_byte p.bytes node.page.bytes (same.header_bytes 0 1 (omega arith)) in
    page_to_leaf_node_run p
    ∙ rw (byte, same.header_bytes 1 10 (omega arith), same.header_bytes 11 10 (omega arith))
        (decode-page _ _ _ node.page p node (sym (page_to_leaf_node_run node.page) ∙ h))

put_at-put_at :
    {A : Type 0} (xs : List A) (i : ℕ) (a b : A)
    → i < length xs
    → put_at (put_at xs i a) i b ≡ put_at xs i b
put_at-put_at [] i a b h = absurd (omega arith)
put_at-put_at (x ∷ xs) zero a b h = refl
put_at-put_at (x ∷ xs) (suc i) a b h = ap (λ t. x ∷ t) (put_at-put_at xs i a b (omega arith))

-- The steps by which the loops copy the entry in slot j to slot i.
pub record Moves (pagesize : ℕ) (node : LeafNode) (all : List Entry) (j i : ℕ) : Type 0 where
  pub entry : Entry
  pub keyed : LeafNode
  pub moved : LeafNode
  pub at_j : get_elem? all j ≡ some entry
  pub key_run : get_key_at node j ≡ some entry.key
  pub keyed_run : update_key_at node i entry.key ≡ some keyed
  pub value_run : get_value_at keyed j ≡ some entry.value
  pub moved_run : update_value_at keyed i entry.value ≡ some moved
  pub holds : Holds pagesize moved (put_at all i entry)
  pub same : SameNode node moved

module _ {pagesize : ℕ} where
  pub modify_entry-Holds :
      (node : LeafNode) (all : List Entry) (i : ℕ) (e : Entry)
      → Holds pagesize node all
      → i < slot_count pagesize
      → InRange e
      → (node' : LeafNode) × (modify_entry node i e ≡ some node')
        × Holds pagesize node' (put_at all i e)
        × SameNode node node'
  unfolding modify_entry
  modify_entry-Holds node all i e h lt fit =
      let (p, run, s, same) = write_slot-Slots 21 i e h.slots (omega (arith, h.full)) lt fit in
      (
        record node { page = p },
        write_slot-bind 21 node.page i e _ run,
        record {
          size = omega (arith, same.size, h.size);
          slots = s;
          full = omega (arith, h.full, length-put_at_inside all i e (omega (arith, h.full)));
          header = page_to_leaf_node-SameHeader node p h.header same;
        },
        record { keys = refl; sibling = refl; pagenum = same.pagenum },
      )

  pub get_entry-Holds :
      (node : LeafNode) (all : List Entry) (i : ℕ)
      → Holds pagesize node all
      → i < slot_count pagesize
      → (e : Entry) × (get_elem? all i ≡ some e) × (get_entry node i ≡ some e) × InRange e
  unfolding get_entry
  get_entry-Holds node all i h lt = read_slot-Slots 21 i h.slots (omega (arith, h.full))

  -- The number of keys is written to the struct and to the page.
  pub update_num_keys-Leaf :
      (node : LeafNode) (all : List Entry) (n : ℕ)
      → Holds pagesize node all
      → 21 ≤ pagesize
      → n < 2 ^ 63
      → (node' : LeafNode) × (update_num_keys node n ≡ some node')
        × Holds pagesize node' all
        × (node'.num_keys ≡ n)
        × (node'.right_sibling_pn ≡ node.right_sibling_pn)
        × (node'.page.pagenum ≡ node.page.pagenum)
  unfolding update_num_keys write_num_keys
  update_num_keys-Leaf node all n h room small =
      let (src, run, len, back) = varint-put_varint (replicate 10 0) [] (pos n) refl small in
      let (p', run', w) = update-Written node.page src 1 10 (omega (arith, h.size)) len in
      let byte =
        first_byte p'.bytes node.page.bytes
          (w.others 0 1 (omega (arith, h.size)) (inl (omega arith))) in
      (
        record node { num_keys = n; page = p' },
        rw (run, run') refl,
        record {
          size = omega (arith, w.size, h.size);
          slots = header_write-Slots 21 1 10 src h.slots (omega arith) w;
          full = h.full;
          header =
              page_to_leaf_node_run p'
              ∙ rw (byte, w.others 11 10 (omega (arith, h.size)) (inr (omega arith)), w.read)
                  (decode-keys _ _ _ src node.page p' node n
                    (sym (page_to_leaf_node_run node.page) ∙ h.header) (rw append-nil at back));
        },
        refl,
        refl,
        w.pagenum,
      )

  -- a write of a new key or value over the entry in a slot
  pub update_key_at-Holds :
      (node : LeafNode) (all : List Entry) (i : ℕ) (k : ℤ)
      → Holds pagesize node all
      → i < slot_count pagesize
      → IsInt64 k
      → (old : Entry) × (node' : LeafNode) × (get_elem? all i ≡ some old)
        × (update_key_at node i k ≡ some node')
        × Holds pagesize node' (put_at all i (Entry.new k old.value))
        × SameNode node node'
        × InRange old
  unfolding update_key_at get_value_at Entry.new
  update_key_at-Holds node all i k h lt fit =
      let (old, at, read, range) = get_entry-Holds node all i h lt in
      let (node', run, h', same) =
        modify_entry-Holds node all i (Entry.new k old.value) h lt
          (record { key = fit; value = range.value }) in
      (old, node', at, rw read run, h', same, range)

  pub update_value_at-Holds :
      (node : LeafNode) (all : List Entry) (i : ℕ) (v : ℤ)
      → Holds pagesize node all
      → i < slot_count pagesize
      → IsInt64 v
      → (old : Entry) × (node' : LeafNode) × (get_elem? all i ≡ some old)
        × (update_value_at node i v ≡ some node')
        × Holds pagesize node' (put_at all i (Entry.new old.key v))
        × SameNode node node'
  unfolding update_value_at get_key_at Entry.new
  update_value_at-Holds node all i v h lt fit =
      let (old, at, read, range) = get_entry-Holds node all i h lt in
      let (node', run, h', same) =
        modify_entry-Holds node all i (Entry.new old.key v) h lt
          (record { key = range.key; value = fit }) in
      (old, node', at, rw read run, h', same)

  pub Moves_lem :
      (node : LeafNode) (all : List Entry) (j i : ℕ)
      → Holds pagesize node all
      → j < slot_count pagesize
      → i < slot_count pagesize
      → i ≢ j
      → Moves pagesize node all j i
  unfolding get_key_at get_value_at Entry.new
  Moves_lem node all j i h lt_j lt_i ne =
      let (x, at, read, range) = get_entry-Holds node all j h lt_j in
      let (old, keyed, at_old, run₁, h₁, same₁, old_range) =
        update_key_at-Holds node all i x.key h lt_i range.key in
      let mid : List Entry = put_at all i (Entry.new x.key old.value) in
      let (y, at_y, read_y, range_y) = get_entry-Holds keyed mid j h₁ lt_j in
      let at_mid : get_elem? mid j ≡ some x =
        get_elem?-put_at all i j (Entry.new x.key old.value) (omega (arith, h.full))
        ∙ ground (arith, at) in
      let y_x : y ≡ x = cc (at_y, at_mid) in
      let (z, moved, at_z, run₂, h₂, same₂) =
        update_value_at-Holds keyed mid i x.value h₁ lt_i range.value in
      let at_i : get_elem? mid i ≡ some (Entry.new x.key old.value) =
        get_elem?-put_at all i i (Entry.new x.key old.value) (omega (arith, h.full))
        ∙ ground arith in
      let z_key : z ≡ Entry.new x.key old.value = cc (at_z, at_i) in
      let twice : put_at mid i (Entry.new z.key x.value) ≡ put_at all i x =
        rw z_key (put_at-put_at all i (Entry.new x.key old.value) x (omega (arith, h.full))) in
      record {
        entry = x;
        keyed = keyed;
        moved = moved;
        at_j = at;
        key_run = rw read refl;
        keyed_run = run₁;
        value_run = rw (read_y, y_x) refl;
        moved_run = run₂;
        holds = rw twice at h₂;
        same = SameNode-trans same₁ same₂;
      }
