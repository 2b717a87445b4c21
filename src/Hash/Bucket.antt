-- ===== src/Hash/Bucket.antt =====
-- pkg/hash/bucket.go and pkg/hash/constants.go: one bucket, over the bytes of its page. The page
-- size, which is a constant of the directio package, is the argument `pagesize`. An index, a depth
-- and a number of keys are natural numbers: the code that writes them never makes them negative.
pub mod Reads
pub mod Writes
pub mod Header
use recovery_stencil.Prelude.{
  ℕ, zero, suc, ◌+◌, ◌-◌, ◌*◌, ◌/◌, Bool, true, false, Option, none, some, List, [], ◌∷◌, ◌++◌,
  replicate, leb, ◌>>=◌, if◌then◌else◌, Result, ok, err,
}
use recovery_stencil.Prelude.Int.{ℤ, pos, negsuc, ◌==◌}
use recovery_stencil.Entry
use recovery_stencil.Entry.{Entry, marshal, unmarshal_entry}
use recovery_stencil.Entry.Varint.{max_varint_len, put_varint, varint}
use recovery_stencil.Page.{Page, slice, update}

abbrev pub depth_offset : ℕ
depth_offset = 0

abbrev pub depth_size : ℕ
depth_size = max_varint_len

abbrev pub num_keys_offset : ℕ
num_keys_offset = depth_offset + depth_size

abbrev pub num_keys_size : ℕ
num_keys_size = max_varint_len

abbrev pub bucket_header_size : ℕ
bucket_header_size = depth_size + num_keys_size

abbrev pub entry_size : ℕ
entry_size = max_varint_len * 2

-- the number of entries at which a bucket splits
abbrev pub max_bucket_size : ℕ → ℕ
max_bucket_size pagesize = (pagesize - bucket_header_size) / entry_size

pub record HashBucket : Type 0 where
  pub local_depth : ℕ
  pub num_keys : ℕ
  pub page : Page

pub data BucketError : Type 0 where
  key_not_found_update key_not_found_delete : BucketError

unfoldable pub entry_pos : ℕ → ℕ
entry_pos index = bucket_header_size + index * entry_size

unfoldable pub modify_entry : HashBucket → ℕ → Entry → Option HashBucket
unfolding entry_pos
modify_entry bucket index entry = do
  newdata ← marshal entry
  page ← update bucket.page newdata (entry_pos index) entry_size
  some (record bucket { page = page })

unfoldable pub get_entry : HashBucket → ℕ → Option Entry
unfolding entry_pos
get_entry bucket index = do
  bytes ← slice bucket.page.bytes (entry_pos index) (entry_pos index + entry_size)
  some (unmarshal_entry bytes)

unfoldable pub get_key_at : HashBucket → ℕ → Option ℤ
get_key_at bucket index = do e ← get_entry bucket index; some e.key

unfoldable pub get_value_at : HashBucket → ℕ → Option ℤ
get_value_at bucket index = do e ← get_entry bucket index; some e.value

unfoldable pub update_key_at : HashBucket → ℕ → ℤ → Option HashBucket
update_key_at bucket index new_key = do
  existing ← get_value_at bucket index
  modify_entry bucket index (Entry.new new_key existing)

unfoldable pub update_value_at : HashBucket → ℕ → ℤ → Option HashBucket
update_value_at bucket index new_value = do
  existing ← get_key_at bucket index
  modify_entry bucket index (Entry.new existing new_value)

unfoldable pub update_local_depth : HashBucket → ℕ → Option HashBucket
update_local_depth bucket depth = do
  depth_data ← put_varint (replicate depth_size 0) (pos depth)
  page ← update bucket.page depth_data depth_offset depth_size
  some (record { local_depth = depth; num_keys = bucket.num_keys; page = page })

unfoldable pub update_num_keys : HashBucket → ℕ → Option HashBucket
update_num_keys bucket n = do
  n_keys_data ← put_varint (replicate num_keys_size 0) (pos n)
  page ← update bucket.page n_keys_data num_keys_offset num_keys_size
  some (record { local_depth = bucket.local_depth; num_keys = n; page = page })

-- A count that was written as a natural number is read as one.
unfoldable pub to_count : ℤ → ℕ
to_count (pos n) = n
to_count (negsuc n) = 0

unfoldable pub page_to_bucket : Page → Option HashBucket
unfolding to_count
page_to_bucket page = do
  depth ← slice page.bytes depth_offset (depth_offset + depth_size)
  keys ← slice page.bytes num_keys_offset (num_keys_offset + num_keys_size)
  some (record {
    local_depth = to_count (varint depth);
    num_keys = to_count (varint keys);
    page = page;
  })

-- newHashBucket, given the page that the pager returned
unfoldable pub new_hash_bucket : Page → ℕ → Option HashBucket
unfolding update_local_depth
new_hash_bucket page depth =
    update_local_depth (record { local_depth = depth; num_keys = 0; page = page }) depth

-- the first index at or behind i, within the next n, whose key is the given one
unfoldable pub index_from : HashBucket → ℤ → ℕ → ℕ → Option (Option ℕ)
index_from bucket key zero i = some none
index_from bucket key (suc n) i =
    let rest = index_from bucket key n (i + 1) in
    do k ← get_key_at bucket i; if k == key then some (some i) else rest

-- the loop of Find, which stops at the same index with its entry
unfoldable pub find_from : HashBucket → ℤ → ℕ → ℕ → Option (Option Entry)
find_from bucket key zero i = some none
find_from bucket key (suc n) i =
    let rest = find_from bucket key n (i + 1) in
    do
      k ← get_key_at bucket i
      if k == key then (do e ← get_entry bucket i; some (some e)) else rest

unfoldable pub find : HashBucket → ℤ → Option (Option Entry)
unfolding find_from
find bucket key = find_from bucket key bucket.num_keys 0

-- the bucket and whether it must split
unfoldable pub insert : ℕ → HashBucket → ℤ → ℤ → Option (HashBucket × Bool)
insert pagesize bucket key value = do
  written ← modify_entry bucket bucket.num_keys (Entry.new key value)
  counted ← update_num_keys written (written.num_keys + 1)
  some (counted, leb (max_bucket_size pagesize) counted.num_keys)

unfoldable pub update_bucket : HashBucket → ℤ → ℤ → Option (Result BucketError HashBucket)
unfolding index_from
update_bucket bucket key new_value = do
  index ← index_from bucket key bucket.num_keys 0
  elim index [
    | none ↦ some (err key_not_found_update)
    | some i ↦ do written ← update_value_at bucket i new_value; some (ok written)
  ]

-- for i := i; i < i+n; i++ { modifyEntry(i, getEntry(i+1)) }
unfoldable pub shift_left : HashBucket → ℕ → ℕ → Option HashBucket
shift_left bucket zero i = some bucket
shift_left bucket (suc n) i = do
  e ← get_entry bucket (i + 1)
  moved ← modify_entry bucket i e
  shift_left moved n (i + 1)

unfoldable pub delete : HashBucket → ℤ → Option (Result BucketError HashBucket)
unfolding index_from shift_left
delete bucket key = do
  index ← index_from bucket key bucket.num_keys 0
  elim index [
    | none ↦ some (err key_not_found_delete)
    | some i ↦ do
      moved ← shift_left bucket (bucket.num_keys - 1 - i) i
      counted ← update_num_keys moved (moved.num_keys - 1)
      some (ok counted)
  ]

unfoldable pub select_from : HashBucket → ℕ → ℕ → List Entry → Option (List Entry)
select_from bucket zero i ret = some ret
select_from bucket (suc n) i ret = do
  e ← get_entry bucket i
  select_from bucket n (i + 1) (ret ++ e ∷ [])

unfoldable pub select : HashBucket → Option (List Entry)
unfolding select_from
select bucket = select_from bucket bucket.num_keys 0 []
