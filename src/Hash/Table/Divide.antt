-- ===== src/Hash/Table/Divide.antt =====
-- pkg/hash/hashTable.go: one round of split, up to its recursive calls.
use recovery_stencil.Prelude.{
  ℕ, ◌+◌, ◌*◌, ◌%◌, ◌^◌, ◌≤◌, ◌<◌, ◌≡◌, refl, ◌∙◌, ap, Option, none, some, List, [], ◌∷◌, ◌++◌,
  arith, length, get_elem?, ◌==◌, replicate, set, if◌then◌else◌,
}
use native.Mathlib.Nat.{mod-lt}
use recovery_stencil.Prelude.Int.{ℤ, IsInt64}
use recovery_stencil.Entry.{Entry}
use recovery_stencil.Page.{Page}
use recovery_stencil.Page.Slots.{Slots, Slots-take}
use recovery_stencil.Hash.Bucket
use recovery_stencil.Hash.Bucket.{
  HashBucket, max_bucket_size, update_num_keys, update_local_depth, new_hash_bucket,
}
use recovery_stencil.Hash.Bucket.Header.{
  Holds, update_num_keys-Holds, update_local_depth-Holds, new_hash_bucket-Holds,
}
use recovery_stencil.Hash.Bucket.Reads.{select_lem}
use recovery_stencil.Hash.Bucket.Writes.{Slotted}
use mathlib.Core.Path.{subst}
use mathlib.Core.List.{append-nil}
use recovery_stencil.Hash.Table.{
  HashTable, Pages, Divided, divide, hasher, extend_table, pow_int, store_bucket, distribute,
  point_from,
}
use recovery_stencil.Hash.Table.Hashing.{pow_positive, pow-add, hasher-lt}
use recovery_stencil.Hash.Table.Directory.{point_from_lem}
use recovery_stencil.Hash.Table.Led.{Extended_lem, led_lem}
use recovery_stencil.Hash.Table.Split.{with_hash, without_hash, Hashed, distribute_lem, take_first}

module _ (sum64 : List ℕ → ℕ) (pagesize : ℕ) where
  -- What a round of split makes of a bucket with these entries: two buckets that agree with their
  -- pages and share the entries by their hashes at the new depth, the new one on the page behind the
  -- others, and a directory that leads each key whose hash is that of the new bucket to its page, and
  -- each other key to where it led before.
  pub record IsDivision (table : HashTable) (pages : Pages) (bucket : HashBucket) (pn new_hash : ℕ)
      (es : List Entry) (d : Divided sum64 pagesize) : Type 0 where
    pub old :
        Holds pagesize d.old_bucket
          (without_hash (λ k. hasher sum64 k (bucket.local_depth + 1)) new_hash es)
    pub new_ :
        Holds pagesize d.new_bucket
          (with_hash (λ k. hasher sum64 k (bucket.local_depth + 1)) new_hash es)
    pub old_depth : d.old_bucket.local_depth ≡ bucket.local_depth + 1
    pub new_depth : d.new_bucket.local_depth ≡ bucket.local_depth + 1
    pub stored : d.state.pages ≡ set pages pn d.old_bucket.page ++ d.new_bucket.page ∷ []
    pub places : length d.state.table.buckets ≡ 2 ^ d.state.table.global_depth
    pub led :
        (key : ℤ)
        → IsInt64 key
        → (before after h : ℕ) × (hasher sum64 key table.global_depth ≡ some before)
          × (hasher sum64 key d.state.table.global_depth ≡ some after)
          × (hasher sum64 key (bucket.local_depth + 1) ≡ some h)
          × (get_elem? d.state.table.buckets after
              ≡ (if h == new_hash then some (length pages) else get_elem? table.buckets before))

  counted :
      {a : HashBucket} (b : HashBucket) (es ss : List Entry)
      → Slotted pagesize a (es ++ ss) b
      → pagesize < 2 ^ 63
      → (b' : HashBucket) × (update_num_keys b (length es) ≡ some b')
        × Holds pagesize b' es
        × (b'.local_depth ≡ a.local_depth)
  counted b es ss h small =
      let first : Slots 20 (max_bucket_size pagesize) b.page es =
        subst (λ t. Slots 20 (max_bucket_size pagesize) b.page t) (take_first es ss)
          (Slots-take 20 (length es) h.slots) in
      let (b', run, h', depth, num) =
        update_num_keys-Holds {pagesize = pagesize} b es (length es) h.size first refl
          (omega (arith, first.count, first.room, h.size)) h.header in
      (b', run, h', cc (depth, h.depth))

  start : {b : HashBucket} {es : List Entry} → Holds pagesize b es → Slotted pagesize b es b
  start h = record {
    size = h.size;
    slots = h.slots;
    header = h.header;
    keys = refl;
    depth = refl;
    pagenum = refl;
  }

  -- the entries of a bucket are int64, so that they have a hash
  Hashed_lem :
      (b : HashBucket) (es : List Entry) (depth : ℕ)
      → Holds pagesize b es
      → ((bs : List ℕ) → sum64 bs < 2 ^ 64)
      → depth ≤ 62
      → Hashed pagesize (λ k. hasher sum64 k depth) 0 es
  Hashed_lem b es depth h range le i e at =
      let (read, fit) = h.slots.stored i e at in
      let (m, run, lt) = hasher-lt sum64 e.key depth range fit.key le in (fit, (m, run))

  module _ (table : HashTable) (pages : Pages) (p : Page) (fresh : List Page) (bucket : HashBucket)
      (pn hash : ℕ) where
    abbrev pub hash_of_new : ℕ
    hash_of_new = hash % 2 ^ bucket.local_depth + 2 ^ bucket.local_depth

    abbrev directory : HashTable
    directory = if bucket.local_depth == table.global_depth then extend_table table else table

    abbrev deepened : HashBucket → HashBucket
    deepened top = record top { local_depth = bucket.local_depth + 1 }

    deepened_lem :
        (es : List Entry)
        → Holds pagesize bucket es
        → bucket.local_depth + 1 < 2 ^ 63
        → (top : HashBucket) × (update_local_depth bucket (bucket.local_depth + 1)
            ≡ some (deepened top))
          × Holds pagesize (deepened top) es
    deepened_lem es h deep =
        let (top, run, h', depth, num) =
          update_local_depth-Holds {pagesize = pagesize} bucket es (bucket.local_depth + 1) h
            deep in
        let same : top ≡ deepened top = ap (λ (t : ℕ). record top { local_depth = t }) depth in
        (top, run ∙ ap some same, subst (λ t. Holds pagesize t es) same h')

    divide_run :
        (top new_bucket old new_ old_counted new_counted : HashBucket) (es : List Entry) (n m : ℕ)
        (pointed : List ℕ)
        → update_local_depth bucket (bucket.local_depth + 1) ≡ some (deepened top)
        → new_hash_bucket p (bucket.local_depth + 1) ≡ some new_bucket
        → Bucket.select (deepened top) ≡ some es
        → distribute
            (λ k. hasher sum64 k (bucket.local_depth + 1))
            (deepened top)
            new_bucket
            hash_of_new
            0
            0
            es
          ≡ some (old, new_, n, m)
        → update_num_keys old n ≡ some old_counted
        → update_num_keys new_ m ≡ some new_counted
        → point_from
            (2 ^ directory.global_depth)
            hash_of_new
            (2 ^ (bucket.local_depth + 1))
            (2 ^ directory.global_depth)
            (length pages)
            directory.buckets
          ≡ some pointed
        → divide sum64 pagesize table pages p fresh bucket pn hash
          ≡ some (record {
            state = record {
              table = record directory { buckets = pointed };
              pages = store_bucket pages pn old_counted ++ new_counted.page ∷ [];
              fresh = fresh;
              answer = none;
            };
            old_bucket = old_counted;
            new_bucket = new_counted;
            old_hash = hash % 2 ^ bucket.local_depth;
            new_hash = hash_of_new;
          })
    unfolding divide pow_int
    divide_run top new_bucket old new_ old_counted new_counted es n m pointed deepen fresh_run
          select_run loop old_run new_run point =
        rw (deepen, fresh_run, select_run, loop, old_run, new_run, point) refl

    -- For a bucket that agrees with its page and holds these entries, on a page size below 2^63,
    -- where the depth of the bucket is at most that of the directory, which is below 62, and the
    -- directory of that depth has all its places, and for a new page of zeros, whatever the
    -- 64-bit hash function, a round of split ends without a panic. The old and the new bucket
    -- agree with their pages, are one level deeper, and hold, in their order, the entries whose
    -- hash at the new depth is not, or is, that of the new bucket; the new bucket is on the page
    -- behind the others; the directory has all its places, and leads each int64 key whose hash
    -- at the new depth is that of the new bucket to it, and each other key to the page to which
    -- it led before.
    pub divide_lem :
        (es : List Entry)
        → Holds pagesize bucket es
        → p.bytes ≡ replicate pagesize 0
        → pagesize < 2 ^ 63
        → ((bs : List ℕ) → sum64 bs < 2 ^ 64)
        → bucket.local_depth ≤ table.global_depth
        → table.global_depth < 62
        → length table.buckets ≡ 2 ^ table.global_depth
        → (d : Divided sum64 pagesize) × (divide sum64 pagesize table pages p fresh bucket pn hash
            ≡ some d)
          × IsDivision table pages bucket pn hash_of_new es d
    divide_lem es h zeros small range le depth_small len =
        let l = bucket.local_depth in
        let hash_at : ℤ → Option ℕ = λ k. hasher sum64 k (l + 1) in
        let power : 2 ^ (l + 1) ≡ 2 ^ l * 2 = pow-add l 1 in
        let below : hash_of_new < 2 ^ (l + 1) = omega (arith, mod-lt hash (pow_positive l)) in
        let x = Extended_lem table l le depth_small len in
        let deep : l + 1 < 2 ^ 63 = omega arith in
        let (top, deepen, h₁) = deepened_lem es h deep in
        let deeper = deepened top in
        let (new_bucket, fresh_run, h₂, depth₂) =
          new_hash_bucket-Holds pagesize p (l + 1) (omega (arith, h.slots.room, h.size)) zeros
            deep in
        let parts =
          distribute_lem pagesize hash_at hash_of_new deeper new_bucket [] es [] es (start h₁)
            (start h₂) (omega (arith, h₁.slots.count)) (omega (arith, h₁.slots.count))
            (Hashed_lem deeper es (l + 1) h₁ range (omega arith)) in
        let (old_counted, old_run, h₃, depth₃) =
          counted {a = deeper} parts.old (without_hash hash_at hash_of_new es) parts.stale
            parts.olds small in
        let (new_counted, new_run, h₄, depth₄) =
          counted {a = new_bucket} parts.new_ (with_hash hash_at hash_of_new es) []
            (rw append-nil parts.news) small in
        let (pointed, point, full, at) =
          point_from_lem (2 ^ directory.global_depth) hash_of_new (2 ^ (l + 1))
            (2 ^ directory.global_depth) (length pages) directory.buckets x.places
            (pow_positive (l + 1)) (omega arith) in
        (
          _,
          divide_run top new_bucket parts.old parts.new_ old_counted new_counted es _ _ pointed
              deepen fresh_run (select_lem deeper es h₁) parts.runs old_run new_run point,
          record {
            old = h₃;
            new_ = h₄;
            old_depth = depth₃;
            new_depth = depth₄ ∙ depth₂;
            stored = refl;
            places = full;
            led =
                led_lem sum64 table directory l hash_of_new (length pages) pointed x depth_small
                  below range at;
          },
        )
