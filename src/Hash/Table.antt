-- ===== src/Hash/Table.antt =====
-- pkg/hash/hashers.go, hashTable.go and cursor.go: the directory and the operations on the table, over a
-- store of pages. The store stands for the pager: the page with a number is at that index, and
-- `fresh` is what the pager would hand out for the next new page, `none` where it has none. The
-- 64-bit hash of the xxhash package is the argument `sum64`. The locks are left out.
pub mod Hashing
pub mod Directory
pub mod Split
pub mod Led
pub mod Divide
use recovery_stencil.Prelude.{
  ℕ, zero, suc, ◌+◌, ◌-◌, ◌*◌, ◌/◌, ◌%◌, ◌^◌, Bool, true, false, Option, none, some, List, [], ◌∷◌,
  ◌++◌, replicate, length, get_elem?, set, leb, ltb, ◌||◌, ◌==◌, ◌>>=◌, if◌then◌else◌, Result, ok,
  err,
}
use recovery_stencil.Prelude.Int.{ℤ, pos, negsuc, ltb_ℤ, ◌==◌ as int_eq}
use recovery_stencil.Entry.{Entry}
use recovery_stencil.Entry.Varint.{max_varint_len, put_varint}
use recovery_stencil.Page.{Page}
use recovery_stencil.Hash.Bucket
use recovery_stencil.Hash.Bucket.{
  HashBucket, BucketError, max_bucket_size, page_to_bucket, new_hash_bucket, update_local_depth,
  update_num_keys, modify_entry, get_entry,
}

pub record HashTable : Type 0 where
  pub global_depth : ℕ
  pub buckets : List ℕ

-- the pages behind the table, by their numbers
abbrev pub Pages : Type 0
Pages = List Page

pub data TableError : Type 0 where
  not_found no_page no_new_page empty_table no_entry : TableError
  in_bucket : BucketError → TableError

unfoldable pub pow_int : ℕ → ℕ → ℕ
pow_int x y = x ^ y

-- int64(h), for h of 64 bits
unfoldable pub to_int64 : ℕ → ℤ
to_int64 h = if ltb h (2 ^ 63) then pos h else negsuc (2 ^ 64 - 1 - h)

-- hash *= -1 where hash < 0; the least int64 stays as it is
unfoldable pub absolute : ℤ → ℤ
absolute (pos n) = pos n
absolute (negsuc n) = if n == 2 ^ 63 - 1 then negsuc n else pos (n + 1)

-- uint(hash % size), where Go's remainder has the sign of the dividend
unfoldable pub remainder : ℤ → ℕ → ℕ
remainder (pos n) size = n % size
remainder (negsuc n) size = (2 ^ 64 - (n + 1) % size) % 2 ^ 64

unfoldable pub get_hash : (List ℕ → ℕ) → ℤ → ℕ → Option ℕ
unfolding to_int64 absolute remainder
get_hash hasher key size = do
  buf ← put_varint (replicate max_varint_len 0) key
  some (remainder (absolute (to_int64 (hasher buf))) size)

module _ (sum64 : List ℕ → ℕ) where
  unfoldable pub xx_hasher : ℤ → ℕ → Option ℕ
  unfolding get_hash
  xx_hasher key size = get_hash sum64 key size

  -- Hasher, as an index: int64 of a number below 2^63
  unfoldable pub hasher : ℤ → ℕ → Option ℕ
  unfolding xx_hasher pow_int
  hasher key depth = xx_hasher key (pow_int 2 depth)

-- GetBucketByPN, without the lock of GetAndLockBucketByPN; the inner `none` is the pager's error
unfoldable pub get_bucket_by_pn : Pages → ℕ → Option (Option HashBucket)
get_bucket_by_pn pages pn = elim (get_elem? pages pn) [
  | none ↦ some none
  | some page ↦ do b ← page_to_bucket page; some (some b)
]

-- the outer `none` is an index out of the directory
unfoldable pub get_bucket : HashTable → Pages → ℕ → Option (Option HashBucket)
unfolding get_bucket_by_pn
get_bucket table pages hash = do
  pagenum ← get_elem? table.buckets hash
  get_bucket_by_pn pages pagenum

-- a bucket works on the page in the pager's buffer
abbrev pub store_bucket : Pages → ℕ → HashBucket → Pages
store_bucket pages pn b = set pages pn b.page

unfoldable pub extend_table : HashTable → HashTable
extend_table table = record {
  global_depth = table.global_depth + 1;
  buckets = table.buckets ++ table.buckets;
}

-- the loop of NewHashTable, over the pages that the pager hands out
unfoldable pub make_buckets :
    ℕ → ℕ → List Page → Pages → List ℕ → Option (Result TableError (Pages × List ℕ))
make_buckets zero depth fresh pages buckets = some (ok (pages, buckets))
make_buckets (suc n) depth [] pages buckets = some (err no_new_page)
make_buckets (suc n) depth (p ∷ fresh) pages buckets = do
  bucket ← new_hash_bucket p depth
  make_buckets n depth fresh (pages ++ bucket.page ∷ []) (buckets ++ length pages ∷ [])

unfoldable pub new_hash_table : List Page → Pages → Option (Result TableError (HashTable × Pages))
unfolding make_buckets pow_int
new_hash_table fresh pages = do
  made ← make_buckets (pow_int 2 2) 2 fresh pages []
  elim made [
    | err e ↦ some (err e)
    | ok p ↦ some (ok (record { global_depth = 2; buckets = p.1 }, p.0))
  ]

-- for i := i; i < bound; i += step { buckets[i] = pn }, in at most n rounds; `none` is an index out of
-- the directory
unfoldable pub point_from : ℕ → ℕ → ℕ → ℕ → ℕ → List ℕ → Option (List ℕ)
point_from zero i step bound pn buckets = some buckets
point_from (suc n) i step bound pn buckets =
    let rest = point_from n (i + step) step bound pn (set buckets i pn) in
    if ltb i bound then (if ltb i (length buckets) then rest else none) else some buckets

-- the loop that moves the entries: each to the next place of the old or of the new bucket
module _ (hash_at : ℤ → Option ℕ) where
  unfoldable pub distribute :
      HashBucket → HashBucket → ℕ → ℕ → ℕ → List Entry → Option (HashBucket × HashBucket × ℕ × ℕ)
  distribute old new_ new_hash n_old n_new [] = some (old, new_, n_old, n_new)
  distribute old new_ new_hash n_old n_new (e ∷ es) = do
    h ← hash_at e.key
    elim (h == new_hash) [
      | true ↦ do
        written ← modify_entry new_ n_new e
        distribute old written new_hash n_old (n_new + 1) es
      | false ↦ do
        written ← modify_entry old n_old e
        distribute written new_ new_hash (n_old + 1) n_new es
    ]

-- what an operation that may extend the table leaves behind
pub record TableState : Type 0 where
  pub table : HashTable
  pub pages : Pages
  -- the pages that the pager has left to hand out
  pub fresh : List Page
  pub answer : Option TableError

module _ (sum64 : List ℕ → ℕ) (pagesize : ℕ) where
  -- one round of split, up to its recursive calls: the tables, the two buckets and the two hashes
  pub record Divided : Type 0 where
    pub state : TableState
    pub old_bucket : HashBucket
    pub new_bucket : HashBucket
    pub old_hash : ℕ
    pub new_hash : ℕ

  unfoldable pub divide : HashTable → Pages → Page → List Page → HashBucket → ℕ → ℕ → Option Divided
  unfolding pow_int point_from distribute extend_table hasher
  divide table pages p fresh bucket pn hash =
      let old_hash = hash % pow_int 2 bucket.local_depth in
      let new_hash = old_hash + pow_int 2 bucket.local_depth in
      let extended =
        if bucket.local_depth == table.global_depth then extend_table table else table in
      do
        deeper ← update_local_depth bucket (bucket.local_depth + 1)
        new_bucket ← new_hash_bucket p deeper.local_depth
        entries ← Bucket.select deeper
        (old, new_, n_old, n_new) ←
            distribute (λ k. hasher sum64 k deeper.local_depth) deeper new_bucket new_hash 0 0
              entries
        old_counted ← update_num_keys old n_old
        new_counted ← update_num_keys new_ n_new
        pointed ←
            point_from (pow_int 2 extended.global_depth) new_hash (pow_int 2 deeper.local_depth)
              (pow_int 2 extended.global_depth) (length pages) extended.buckets
        some (record {
          state = record {
            table = record extended { buckets = pointed };
            pages = store_bucket pages pn old_counted ++ new_counted.page ∷ [];
            fresh = fresh;
            answer = none;
          };
          old_bucket = old_counted;
          new_bucket = new_counted;
          old_hash = old_hash;
          new_hash = new_hash;
        })

  -- split of the bucket on page pn, on fuel; `none` is a panic or too little fuel
  unfoldable pub split : ℕ → HashTable → Pages → List Page → HashBucket → ℕ → ℕ → Option TableState
  unfolding divide
  split zero table pages fresh bucket pn hash = none
  split (suc fuel) table pages [] bucket pn hash = do
    deeper ← update_local_depth bucket (bucket.local_depth + 1)
    some (record {
      table = if bucket.local_depth == table.global_depth then extend_table table else table;
      pages = store_bucket pages pn deeper;
      fresh = [];
      answer = some no_new_page;
    })
  split (suc fuel) table pages (p ∷ fresh) bucket pn hash = do
    d ← divide table pages p fresh bucket pn hash
    elim (leb (max_bucket_size pagesize) d.old_bucket.num_keys) [
      | true ↦ split fuel d.state.table d.state.pages fresh d.old_bucket pn d.old_hash
      | false ↦ elim (leb (max_bucket_size pagesize) d.new_bucket.num_keys) [
        | true ↦ split fuel d.state.table d.state.pages fresh d.new_bucket (length pages) d.new_hash
        | false ↦ some d.state
      ]
    ]

  -- a table that has not changed, with an answer
  abbrev pub unchanged : HashTable → Pages → List Page → Option TableError → TableState
  unchanged table pages fresh a = record { table = table; pages = pages; fresh = fresh; answer = a }

  unfoldable pub insert : ℕ → HashTable → Pages → List Page → ℤ → ℤ → Option TableState
  unfolding hasher get_bucket split
  insert fuel table pages fresh key value = do
    hash ← hasher sum64 key table.global_depth
    pn ← get_elem? table.buckets hash
    found ← get_bucket table pages hash
    elim found [
      | none ↦ some (unchanged table pages fresh (some no_page))
      | some bucket ↦ do
        (written, full) ← Bucket.insert pagesize bucket key value
        elim full [
          | false ↦ some (unchanged table (store_bucket pages pn written) fresh none)
          | true ↦ split fuel table (store_bucket pages pn written) fresh written pn hash
        ]
    ]

module _ (sum64 : List ℕ → ℕ) where
  unfoldable pub find : HashTable → Pages → ℤ → Option (Result TableError Entry)
  unfolding hasher get_bucket
  find table pages key = do
    hash ← hasher sum64 key table.global_depth
    if leb (length table.buckets) hash then some (err not_found) else (do
      found ← get_bucket table pages hash
      elim found [
        | none ↦ some (err no_page)
        | some bucket ↦ do
          e ← Bucket.find bucket key
          elim e [ none ↦ some (err not_found) | some entry ↦ some (ok entry) ]
      ])

  -- the pages after Update or Delete, which work on one bucket
  unfoldable pub with_bucket :
      (HashBucket → Option (Result BucketError HashBucket))
      → HashTable
      → Pages
      → ℤ
      → Option (Result TableError Pages)
  unfolding hasher get_bucket
  with_bucket f table pages key = do
    hash ← hasher sum64 key table.global_depth
    pn ← get_elem? table.buckets hash
    found ← get_bucket table pages hash
    elim found [
      | none ↦ some (err no_page)
      | some bucket ↦ do
        r ← f bucket
        elim r [ err e ↦ some (err (in_bucket e)) | ok b ↦ some (ok (store_bucket pages pn b)) ]
    ]

  unfoldable pub update : HashTable → Pages → ℤ → ℤ → Option (Result TableError Pages)
  unfolding with_bucket
  update table pages key value = with_bucket (λ b. Bucket.update_bucket b key value) table pages key

  unfoldable pub delete : HashTable → Pages → ℤ → Option (Result TableError Pages)
  unfolding with_bucket
  delete table pages key = with_bucket (λ b. Bucket.delete b key) table pages key

-- Select visits every page of the file
unfoldable pub select : Pages → Option (List Entry)
select [] = some []
select (p ∷ ps) = do
  bucket ← page_to_bucket p
  entries ← Bucket.select bucket
  rest ← select ps
  some (entries ++ rest)

-- a cursor is at a cell of a bucket, the one with the page number `pn`
pub record HashCursor : Type 0 where
  pub cellnum : ℕ
  pub cur_bucket : HashBucket
  pub pn : ℕ

-- Next, which skips empty buckets; each skip moves on by a page, so that their number is enough fuel
unfoldable pub next : ℕ → Pages → HashCursor → Option (HashCursor × Bool)
next zero pages cursor = none
next (suc fuel) pages cursor =
    if leb cursor.cur_bucket.num_keys (cursor.cellnum + 1)
    then (elim (get_elem? pages (cursor.pn + 1)) [
      | none ↦ some (cursor, true)
      | some page ↦ do
        bucket ← page_to_bucket page
        let moved : HashCursor = record { cellnum = 0; cur_bucket = bucket; pn = cursor.pn + 1 }
        elim (bucket.num_keys == 0) [ true ↦ next fuel pages moved | false ↦ some (moved, false) ]
    ])
    else some (record cursor { cellnum = cursor.cellnum + 1 }, false)

unfoldable pub cursor_at_start : Pages → Option (Result TableError HashCursor)
unfolding next
cursor_at_start pages = elim (get_elem? pages 0) [
  | none ↦ some (err no_page)
  | some page ↦ do
    bucket ← page_to_bucket page
    let start : HashCursor = record { cellnum = 0; cur_bucket = bucket; pn = 0 }
    if bucket.num_keys == 0
        then (do
          (moved, at_end) ← next (length pages) pages start
          some (if at_end then err empty_table else ok moved))
        else some (ok start)
]

unfoldable pub get_cursor_entry : HashCursor → Option (Result TableError Entry)
get_cursor_entry cursor =
    if ltb cursor.cur_bucket.num_keys cursor.cellnum
    then some (err no_entry)
    else if cursor.cur_bucket.num_keys == 0
    then some (err no_entry)
    else (do e ← get_entry cursor.cur_bucket cursor.cellnum; some (ok e))
