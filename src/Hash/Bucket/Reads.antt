-- ===== src/Hash/Bucket/Reads.antt =====
-- pkg/hash/bucket.go: Find and Select, in terms of the entries of a bucket.
use recovery_stencil.Prelude.{
  ℕ, zero, suc, ◌+◌, ◌≡◌, refl, ◌∙◌, ap, Option, none, some, List, [], ◌∷◌, ◌++◌, arith, length,
  get_elem?, drop, drop-get_elem?, drop-length, ◌<◌, if◌then◌else◌,
}
use mathlib.Core.Option
use mathlib.Core.List.{append-nil, append_assoc}
use recovery_stencil.Prelude.Int.{ℤ, ◌==◌}
use recovery_stencil.Entry.{Entry}
use recovery_stencil.Page.Slots.{Slots, read_slot-Slots}
use recovery_stencil.Hash.Bucket.{
  HashBucket, get_entry, get_key_at, find, find_from, index_from, select, select_from,
}
use recovery_stencil.Entry.Find.{find_entry}
use recovery_stencil.Hash.Bucket.Header.{Holds}

-- The index of that entry.
unfoldable pub index_of : ℤ → List Entry → Option ℕ
index_of key [] = none
index_of key (e ∷ es) = if e.key == key then some 0 else Option.map suc (index_of key es)

map_shift :
    (i : ℕ) (o : Option ℕ)
    → Option.map (λ (j : ℕ). i + 1 + j) o ≡ Option.map (λ (j : ℕ). i + j) (Option.map suc o)
map_shift i none = refl
map_shift i (some j) = let e : i + 1 + j ≡ i + suc j = omega arith in ap some e

map_zero : (o : Option ℕ) → Option.map (λ (j : ℕ). 0 + j) o ≡ o
map_zero none = refl
map_zero (some j) = let e : 0 + j ≡ j = omega arith in ap some e

module _ {cap : ℕ} (b : HashBucket) (es : List Entry) (s : Slots 20 cap b.page es) where
  pub get_entry_lem :
      (i : ℕ) → i < length es → (e : Entry) × (get_elem? es i ≡ some e) × (get_entry b i ≡ some e)
  unfolding get_entry
  get_entry_lem i lt = let (e, at, run, _) = read_slot-Slots 20 i s lt in (e, at, run)

  find_from_lem :
      (key : ℤ) (n i : ℕ)
      → i + n ≡ length es
      → find_from b key n i ≡ some (find_entry key (drop i es))
  unfolding find_from find_entry get_key_at
  find_from_lem key zero i h = let e : i ≡ length es = omega arith in rw (e, drop-length)
  find_from_lem key (suc n) i h =
      let (e, at, run) = get_entry_lem i (omega arith) in
      let ih = find_from_lem key n (i + 1) (omega arith) in
      rw (run, drop-get_elem? es i e at) (ground (arith, ih))

  pub index_from_lem :
      (key : ℤ) (n i : ℕ)
      → i + n ≡ length es
      → index_from b key n i ≡ some (Option.map (λ j. i + j) (index_of key (drop i es)))
  unfolding index_from index_of get_key_at
  index_from_lem key zero i h = let e : i ≡ length es = omega arith in rw (e, drop-length)
  index_from_lem key (suc n) i h =
      let (e, at, run) = get_entry_lem i (omega arith) in
      let ih = index_from_lem key n (i + 1) (omega arith) in
      rw (run, drop-get_elem? es i e at)
        (ground (arith, ih, map_shift i (index_of key (drop (i + 1) es))))

  select_from_lem :
      (n i : ℕ) (ret : List Entry)
      → i + n ≡ length es
      → select_from b n i ret ≡ some (ret ++ drop i es)
  unfolding select_from
  select_from_lem zero i ret h =
      let e : i ≡ length es = omega arith in rw (e, drop-length, append-nil)
  select_from_lem (suc n) i ret h =
      let (e, at, run) = get_entry_lem i (omega arith) in
      let ih = select_from_lem n (i + 1) (ret ++ e ∷ []) (omega arith) in
      rw (run, ih, drop-get_elem? es i e at, append_assoc)

module _ {pagesize : ℕ} (b : HashBucket) (es : List Entry) (h : Holds pagesize b es) where
  -- In a bucket that agrees with its page, Find returns the first entry with the key, or reports
  -- that there is none.
  pub find_lem : (key : ℤ) → find b key ≡ some (find_entry key es)
  unfolding find
  find_lem key = find_from_lem b es h.slots key b.num_keys 0 (omega (arith, h.keys))

  pub index_lem : (key : ℤ) → index_from b key b.num_keys 0 ≡ some (index_of key es)
  index_lem key =
      index_from_lem b es h.slots key b.num_keys 0 (omega (arith, h.keys))
      ∙ ap some (map_zero (index_of key es))

  -- In a bucket that agrees with its page, Select returns all entries, in the order of their
  -- slots.
  pub select_lem : select b ≡ some es
  unfolding select
  select_lem = select_from_lem b es h.slots b.num_keys 0 [] (omega (arith, h.keys))
