-- ===== src/Hash/Bucket/Writes.antt =====
-- pkg/hash/bucket.go: Insert, Update and Delete, in terms of the entries of a bucket.
use recovery_stencil.Prelude.{
  ℕ, zero, suc, ◌+◌, ◌-◌, ◌≤◌, ◌<◌, ◌^◌, ◌≡◌, refl, sym, ◌∙◌, ap, Bool, none, some, List, [], ◌∷◌,
  ◌++◌, arith, length, get_elem?, put_at, put_at_end, take, erase_idx, leb, ok, err, length-append,
  length-put_at_inside, get_elem?-some_lt, length-erase_idx,
}
use recovery_stencil.Prelude.Shift.{shift_down, shift_down_next, shift_down_end, take-shift_down}
use recovery_stencil.Prelude.Int.{ℤ}
use recovery_stencil.Entry
use recovery_stencil.Entry.{Entry}
use recovery_stencil.Entry.RoundTrip.{InRange}
use recovery_stencil.Page.Slots.{
  Slots, write_slot-bind, write_slot-Slots, read_slot-Slots, Slots-take,
}
use recovery_stencil.Hash.Bucket.{
  HashBucket, key_not_found_update, key_not_found_delete, max_bucket_size, modify_entry, get_entry,
  index_from, get_key_at, update_value_at, insert, update_bucket, delete, shift_left,
  page_to_bucket, update_num_keys,
}
use recovery_stencil.Hash.Bucket.Header.{Holds, page_to_bucket-SameHeader, update_num_keys-Holds}
use recovery_stencil.Hash.Bucket.Reads.{index_of, index_lem, get_entry_lem}

-- A bucket that agrees with its page and whose slots hold these entries, though the number of keys
-- may be another than theirs, reached from a bucket with the same numbers and page number.
pub record Slotted (pagesize : ℕ) (b : HashBucket) (es : List Entry) (b' : HashBucket)
    : Type 0 where
  pub size : length b'.page.bytes ≡ pagesize
  pub slots : Slots 20 (max_bucket_size pagesize) b'.page es
  pub header : page_to_bucket b'.page ≡ some b'
  pub keys : b'.num_keys ≡ b.num_keys
  pub depth : b'.local_depth ≡ b.local_depth
  pub pagenum : b'.page.pagenum ≡ b.page.pagenum

module _ {pagesize : ℕ} where
  pub modify_entry-Slotted :
      {a : HashBucket} (b : HashBucket) (es : List Entry) (i : ℕ) (e : Entry)
      → Slotted pagesize a es b
      → i ≤ length es
      → i < max_bucket_size pagesize
      → InRange e
      → (b' : HashBucket) × (modify_entry b i e ≡ some b') × Slotted pagesize a (put_at es i e) b'
  unfolding modify_entry
  modify_entry-Slotted b es i e h le lt fit =
      let (p, run, s, same) = write_slot-Slots 20 i e h.slots le lt fit in
      (
        record b { page = p },
        write_slot-bind 20 b.page i e _ run,
        record {
          size = omega (arith, same.size, h.size);
          slots = s;
          header = page_to_bucket-SameHeader b p h.header same;
          keys = h.keys;
          depth = h.depth;
          pagenum = cc (same.pagenum, h.pagenum);
        },
      )

  shift_left_lem :
      {a : HashBucket} (b : HashBucket) (es : List Entry) (n i : ℕ)
      → Slotted pagesize a es b
      → i + suc n ≡ length es
      → (b' : HashBucket) × (shift_left b n i ≡ some b') × Slotted pagesize a (shift_down es i) b'
  unfolding shift_left get_entry
  shift_left_lem b es zero i h e = (b, refl, rw (shift_down_end es i (omega arith)) h)
  shift_left_lem {a} b es (suc n) i h e =
      let (x, at, read, fit) = read_slot-Slots 20 (i + 1) h.slots (omega arith) in
      let (b₁, run₁, h₁) =
        modify_entry-Slotted b es i x h (omega arith) (omega (arith, h.slots.count)) fit in
      let len : i + 1 + suc n ≡ length (put_at es i x) =
        omega (arith, length-put_at_inside es i x (omega arith)) in
      let (b', run', h') = shift_left_lem b₁ (put_at es i x) n (i + 1) h₁ len in
      (b', rw (read, run₁) run', rw (shift_down_next es i x at) at h')

delete_run :
    (b b₁ b₂ : HashBucket) (key : ℤ) (i : ℕ)
    → index_from b key b.num_keys 0 ≡ some (some i)
    → shift_left b (b.num_keys - 1 - i) i ≡ some b₁
    → update_num_keys b₁ (b₁.num_keys - 1) ≡ some b₂
    → delete b key ≡ some (ok b₂)
unfolding delete
delete_run b b₁ b₂ key i find shift count = rw (find, shift, count)

module _ {pagesize : ℕ} (b : HashBucket) (es : List Entry) (h : Holds pagesize b es) where
  start : Slotted pagesize b es b
  start = record {
    size = h.size;
    slots = h.slots;
    header = h.header;
    keys = refl;
    depth = refl;
    pagenum = refl;
  }

  -- the page is large enough to hold the number of entries as an int64
  small : pagesize < 2 ^ 63 → (n : ℕ) → n ≤ max_bucket_size pagesize → n < 2 ^ 63
  small p n le = omega arith

  -- In a bucket that agrees with its page, Insert of an int64 entry below the maximum puts the
  -- entry behind the others, keeps the bucket in agreement with its page, and asks for a split
  -- exactly when the bucket has now reached the maximum.
  pub insert-Holds :
      (key value : ℤ)
      → pagesize < 2 ^ 63
      → length es < max_bucket_size pagesize
      → InRange (Entry.new key value)
      → (b' : HashBucket) × (split : Bool) × (insert pagesize b key value ≡ some (b', split))
        × Holds pagesize b' (es ++ Entry.new key value ∷ [])
        × (split ≡ leb (max_bucket_size pagesize) (length es + 1))
        × (b'.local_depth ≡ b.local_depth)
  unfolding insert
  insert-Holds key value p room fit =
      let e = Entry.new key value in
      let (b₁, run₁, h₁) =
        modify_entry-Slotted b es b.num_keys e start (omega (arith, h.keys)) (omega (arith, h.keys))
          fit in
      let put : put_at es b.num_keys e ≡ es ++ e ∷ [] =
        ap (λ (t : ℕ). put_at es t e) h.keys ∙ put_at_end es e in
      let s₁ : Slots 20 (max_bucket_size pagesize) b₁.page (es ++ e ∷ []) = rw put at h₁.slots in
      let (b₂, run₂, h₂, depth, num) =
        update_num_keys-Holds {pagesize = pagesize} b₁ (es ++ e ∷ []) (b₁.num_keys + 1) h₁.size s₁
          (omega (arith, h₁.keys, h.keys, length-append es (e ∷ [])))
          (small p (b₁.num_keys + 1) (omega (arith, h₁.keys, h.keys))) h₁.header in
      let count : b₂.num_keys ≡ length es + 1 = omega (arith, h₂.keys, length-append es (e ∷ [])) in
      (
        b₂,
        leb (max_bucket_size pagesize) b₂.num_keys,
        rw (run₁, run₂),
        h₂,
        ap (leb (max_bucket_size pagesize)) count,
        cc (depth, h₁.depth),
      )

  -- In a bucket that agrees with its page, Update of a key that it holds to an int64 value
  -- changes the value of the first entry with the key, and no other.
  pub update_bucket-Holds :
      (key value : ℤ) (i : ℕ) (old : Entry)
      → index_of key es ≡ some i
      → get_elem? es i ≡ some old
      → InRange (Entry.new old.key value)
      → (b' : HashBucket) × (update_bucket b key value ≡ some (ok b'))
        × Holds pagesize b' (put_at es i (Entry.new old.key value))
  unfolding update_bucket update_value_at get_key_at
  update_bucket-Holds key value i old found at fit =
      let lt = get_elem?-some_lt es i old at in
      let (e, at', read) = get_entry_lem b es h.slots i lt in
      let same : e ≡ old = cc (at, at') in
      let (b₁, run₁, h₁) =
        modify_entry-Slotted b es i (Entry.new old.key value) start (omega arith)
          (omega (arith, h.slots.count)) fit in
      (
        b₁,
        rw (index_lem b es h key, found, read, same, run₁),
        record {
          size = h₁.size;
          slots = h₁.slots;
          keys =
              omega
                (arith, h₁.keys, h.keys, length-put_at_inside es i (Entry.new old.key value) lt);
          header = h₁.header;
        },
      )

  pub update_bucket_missing :
      (key value : ℤ)
      → index_of key es ≡ none
      → update_bucket b key value ≡ some (err key_not_found_update)
  unfolding update_bucket
  update_bucket_missing key value miss = rw (index_lem b es h key, miss)

  -- In a bucket that agrees with its page, Delete of a key that it holds removes the first entry
  -- with the key, and keeps the order of the others and the agreement.
  pub delete-Holds :
      (key : ℤ) (i : ℕ)
      → pagesize < 2 ^ 63
      → index_of key es ≡ some i
      → i < length es
      → (b' : HashBucket) × (delete b key ≡ some (ok b')) × Holds pagesize b' (erase_idx es i)
  unfolding delete
  delete-Holds key i p found lt =
      let n = b.num_keys - 1 - i in
      let (b₁, run₁, h₁) = shift_left_lem b es n i start (omega (arith, h.keys)) in
      let m = b₁.num_keys - 1 in
      let len : suc m ≡ length es = omega (arith, h₁.keys, h.keys) in
      let shorter : take m (shift_down es i) ≡ erase_idx es i = take-shift_down es i m lt len in
      let s₁ : Slots 20 (max_bucket_size pagesize) b₁.page (erase_idx es i) =
        rw shorter at (Slots-take 20 m h₁.slots) in
      let count : length (erase_idx es i) ≡ m = length-erase_idx es i m lt len in
      let (b₂, run₂, h₂, depth, num) =
        update_num_keys-Holds {pagesize = pagesize} b₁ (erase_idx es i) m h₁.size s₁ (sym count)
          (small p m (omega (arith, h.slots.count))) h₁.header in
      (b₂, delete_run b b₁ b₂ key i (index_lem b es h key ∙ ap some found) run₁ run₂, h₂)

  pub delete_missing :
      (key : ℤ) → index_of key es ≡ none → delete b key ≡ some (err key_not_found_delete)
  unfolding delete
  delete_missing key miss = rw (index_lem b es h key, miss)
