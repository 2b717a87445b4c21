-- ===== src/Hash/Bucket/Header.antt =====
-- pkg/hash/bucket.go: the numbers that a bucket keeps at the front of its page.
use recovery_stencil.Prelude.{
  ℕ, ◌+◌, ◌≤◌, ◌<◌, ◌^◌, ◌≡◌, refl, inl, inr, Option, none, some, List, [], arith, length,
  replicate, ◌>>=◌, length-replicate, take-replicate, drop-replicate, ◌-◌,
}
use mathlib.Core.List.{append-nil}
use recovery_stencil.Prelude.Int.{pos}
use recovery_stencil.Entry.{Entry}
use recovery_stencil.Entry.Varint.{put_varint, varint}
use recovery_stencil.Entry.Varint.RoundTrip.{varint-put_varint}
use recovery_stencil.Page.{Page, slice, update}
use recovery_stencil.Page.Bytes.{Written, update-Written, slice-eq}
use recovery_stencil.Page.Slots.{Slots, SameHeader, header_write-Slots}
use recovery_stencil.Hash.Bucket.{
  HashBucket, max_bucket_size, page_to_bucket, to_count, update_num_keys, update_local_depth,
  new_hash_bucket,
}

-- The bucket agrees with its page, and its slots hold these entries.
pub record Holds (pagesize : ℕ) (b : HashBucket) (es : List Entry) : Type 0 where
  pub size : length b.page.bytes ≡ pagesize
  pub slots : Slots 20 (max_bucket_size pagesize) b.page es
  pub keys : b.num_keys ≡ length es
  pub header : page_to_bucket b.page ≡ some b

abbrev decode : Option (List ℕ) → Option (List ℕ) → Page → Option HashBucket
decode depth keys page = do
  d ← depth
  k ← keys
  some (record { local_depth = to_count (varint d); num_keys = to_count (varint k); page = page })

decode-page :
    (a c : Option (List ℕ)) (p q : Page) (b : HashBucket)
    → decode a c p ≡ some b
    → decode a c q ≡ some (record b { page = q })
decode-page none c p q b h = cc
decode-page (some a) none p q b h = cc
decode-page (some a) (some c) p q b h = ground arith

decode-keys :
    (a c : Option (List ℕ)) (src : List ℕ) (p q : Page) (b : HashBucket) (n : ℕ)
    → decode a c p ≡ some b
    → varint src ≡ pos n
    → decode a (some src) q ≡ some (record { local_depth = b.local_depth; num_keys = n; page = q })
unfolding to_count
decode-keys none c src p q b n h e = cc
decode-keys (some a) none src p q b n h e = cc
decode-keys (some a) (some c) src p q b n h e = rw e (ground arith)

decode-depth :
    (a c : Option (List ℕ)) (src : List ℕ) (p q : Page) (b : HashBucket) (n : ℕ)
    → decode a c p ≡ some b
    → varint src ≡ pos n
    → decode (some src) c q ≡ some (record { local_depth = n; num_keys = b.num_keys; page = q })
unfolding to_count
decode-depth none c src p q b n h e = cc
decode-depth (some a) none src p q b n h e = cc
decode-depth (some a) (some c) src p q b n h e = rw e (ground arith)

-- A page whose header is that of the bucket's page makes the same bucket over the new page.
pub page_to_bucket-SameHeader :
    (b : HashBucket) (p : Page)
    → page_to_bucket b.page ≡ some b
    → SameHeader 20 b.page p
    → page_to_bucket p ≡ some (record b { page = p })
unfolding page_to_bucket
page_to_bucket-SameHeader b p h same =
    rw (same.header_bytes 0 10 (omega arith), same.header_bytes 10 10 (omega arith))
      (decode-page _ _ b.page p b h)

-- What both writers of a number in the header do to the page.
write_number :
    (p : Page) (off n : ℕ)
    → off + 10 ≤ length p.bytes
    → n < 2 ^ 63
    → (src : List ℕ) × (p' : Page) × (put_varint (replicate 10 0) (pos n) ≡ some src)
      × (update p src off 10 ≡ some p')
      × Written p off 10 src p'
      × (varint src ≡ pos n)
write_number p off n room small =
    let (src, run, len, back) = varint-put_varint (replicate 10 0) [] (pos n) refl small in
    let (p', run', w) = update-Written p src off 10 room len in
    (src, p', run, run', w, rw append-nil at back)

-- The number of keys is written to the struct and to the page, and nothing else changes.
pub update_num_keys-Holds :
    {pagesize : ℕ} (b : HashBucket) (es : List Entry) (n : ℕ)
    → length b.page.bytes ≡ pagesize
    → Slots 20 (max_bucket_size pagesize) b.page es
    → n ≡ length es
    → n < 2 ^ 63
    → page_to_bucket b.page ≡ some b
    → (b' : HashBucket) × (update_num_keys b n ≡ some b')
      × Holds pagesize b' es
      × (b'.local_depth ≡ b.local_depth)
      × (b'.page.pagenum ≡ b.page.pagenum)
unfolding update_num_keys page_to_bucket
update_num_keys-Holds b es n size s keys small header =
    let (src, p', run, run', w, back) = write_number b.page 10 n (omega (arith, s.room)) small in
    (
      record { local_depth = b.local_depth; num_keys = n; page = p' },
      rw (run, run'),
      record {
        size = omega (arith, w.size, size);
        slots = header_write-Slots 20 10 10 src s (omega arith) w;
        keys = keys;
        header =
            rw (w.others 0 10 (omega (arith, s.room)) (inl (omega arith)), w.read)
              (decode-keys _ _ src b.page p' b n header back);
      },
      refl,
      w.pagenum,
    )

-- In a bucket that agrees with its page, a change of the local depth reaches the struct and the
-- page, and the entries stay.
pub update_local_depth-Holds :
    {pagesize : ℕ} (b : HashBucket) (es : List Entry) (d : ℕ)
    → Holds pagesize b es
    → d < 2 ^ 63
    → (b' : HashBucket) × (update_local_depth b d ≡ some b')
      × Holds pagesize b' es
      × (b'.local_depth ≡ d)
      × (b'.page.pagenum ≡ b.page.pagenum)
unfolding update_local_depth page_to_bucket
update_local_depth-Holds b es d h small =
    let (src, p', run, run', w, back) =
      write_number b.page 0 d (omega (arith, h.slots.room)) small in
    (
      record { local_depth = d; num_keys = b.num_keys; page = p' },
      rw (run, run'),
      record {
        size = omega (arith, w.size, h.size);
        slots = header_write-Slots 20 0 10 src h.slots (omega arith) w;
        keys = h.keys;
        header =
            rw (w.others 10 10 (omega (arith, h.slots.room)) (inr (omega arith)), w.read)
              (decode-depth _ _ src b.page p' b d h.header back);
      },
      refl,
      w.pagenum,
    )

zero_slice :
    (n lo : ℕ) → 20 ≤ n → lo ≤ 10 → slice (replicate n 0) lo (lo + 10) ≡ some (replicate 10 0)
zero_slice n lo room le =
    rw (slice-eq (replicate n 0) lo 10 (omega (arith, length-replicate {A = ℕ} n 0))) (
      rw (
        drop-replicate {A = ℕ} lo n (n - lo) 0 (omega arith),
        take-replicate {A = ℕ} 10 (n - lo) 0 (omega arith),
      ))

-- A new bucket over a page of zeros, of at least the size of the header, is empty, has the
-- depth, and agrees with its page.
pub new_hash_bucket-Holds :
    (pagesize : ℕ) (p : Page) (d : ℕ)
    → 20 ≤ pagesize
    → p.bytes ≡ replicate pagesize 0
    → d < 2 ^ 63
    → (b : HashBucket) × (new_hash_bucket p d ≡ some b) × Holds pagesize b [] × (b.local_depth ≡ d)
unfolding new_hash_bucket page_to_bucket
new_hash_bucket-Holds pagesize p d room zeros small =
    let len : length p.bytes ≡ pagesize = rw zeros (length-replicate pagesize 0) in
    let blank : HashBucket = record { local_depth = 0; num_keys = 0; page = p } in
    let (b, run, h, depth, num) =
      update_local_depth-Holds {pagesize = pagesize} blank [] d
        (record {
          size = len;
          slots = record { room = omega arith; count = omega arith; stored = λ i e at. cc at };
          keys = refl;
          header =
              rw
                (
                  zeros,
                  zero_slice pagesize 0 room (omega arith),
                  zero_slice pagesize 10 room (omega arith),
                )
                (unfold varint to_count in refl);
        })
        small in
    (b, run, h, depth)
