-- ===== src/Hash/Table/Hashing.antt =====
-- pkg/hash/hashers.go and ExtendTable of hashTable.go: hashes as places of the directory.
use recovery_stencil.Prelude.{
  ℕ, zero, suc, ◌+◌, ◌-◌, ◌*◌, ◌/◌, ◌%◌, ◌^◌, ◌≤◌, ◌<◌, ◌≡◌, refl, sym, ◌∙◌, ap, inl, inr, false,
  some, List, [], ◌∷◌, ◌++◌, arith, length, length-append, get_elem?, replicate, ltb, if◌then◌else◌,
  ◌==◌, Bool-cases,
}
use native.Mathlib.Nat.{
  mod-lt, pow-suc, mul-mod_right, zero-mod, mul-add-mod_self_left, div-add-mod, mod-eq_of_lt,
  mod-eq-sub-mod,
}
use recovery_stencil.Prelude.Int.{ℤ, IsInt64}
use recovery_stencil.Entry.Varint.RoundTrip.{varint-put_varint}
use recovery_stencil.Hash.Table.{
  HashTable, hasher, xx_hasher, get_hash, to_int64, absolute, remainder, pow_int, extend_table,
}

pub pow_positive : (d : ℕ) → 0 < 2 ^ d
pow_positive zero = omega arith
pow_positive (suc d) = omega (arith, pow_positive d, pow-suc 2 d)

pub pow-add : (d e : ℕ) → 2 ^ (d + e) ≡ 2 ^ d * 2 ^ e
pow-add d zero = let same : d + 0 ≡ d = omega arith in ap (λ (t : ℕ). 2 ^ t) same ∙ omega arith
pow-add d (suc e) =
    let next : d + suc e ≡ suc (d + e) = omega arith in
    ap (λ (t : ℕ). 2 ^ t) next ∙ grind (arith, pow-suc 2 (d + e), pow-suc 2 e, pow-add d e)

half_range : (d : ℕ) → d ≤ 63 → 2 ^ 63 % 2 ^ d ≡ 0
half_range d h =
    let whole : d + (63 - d) ≡ 63 = omega arith in
    ap (λ (t : ℕ). 2 ^ t % 2 ^ d) (sym whole)
    ∙ ap (λ (t : ℕ). t % 2 ^ d) (pow-add d (63 - d))
    ∙ mul-mod_right (2 ^ d) (2 ^ (63 - d))

-- The number of which every hash of a key is the remainder.
unfoldable magnitude : ℕ → ℕ
magnitude h = if ltb h (2 ^ 63) then h else if h == 2 ^ 63 then 0 else 2 ^ 64 - h

remainder_lem :
    (h d : ℕ)
    → h < 2 ^ 64
    → d ≤ 62
    → remainder (absolute (to_int64 h)) (2 ^ d) ≡ magnitude h % 2 ^ d
unfolding remainder absolute to_int64 magnitude
remainder_lem h d small le = elim (Bool-cases (ltb h (2 ^ 63))) [
  | inl low ↦ rw low refl
  | inr high ↦ elim (Bool-cases (h == 2 ^ 63)) [
    | inl half ↦
        let e : 2 ^ 64 - 1 - h ≡ 2 ^ 63 - 1 = ground arith in
        rw (high, half, e, half_range d (omega arith)) (sym (zero-mod (2 ^ d)))
    | inr past ↦
        let other : ((2 ^ 64 - 1 - h) == (2 ^ 63 - 1)) ≡ false = ground arith in
        let e : 2 ^ 64 - 1 - h + 1 ≡ 2 ^ 64 - h = ground arith in rw (high, past, other, e) refl
  ]
]

module _ (sum64 : List ℕ → ℕ) (key : ℤ) where
  pub hasher-magnitude :
      ((b : List ℕ) → sum64 b < 2 ^ 64)
      → IsInt64 key
      → (m : ℕ) × ((d : ℕ) → d ≤ 62 → hasher sum64 key d ≡ some (m % 2 ^ d))
  unfolding hasher xx_hasher get_hash pow_int
  hasher-magnitude range fit =
      let (buf, run, len, back) = varint-put_varint (replicate 10 0) [] key refl fit in
      (magnitude (sum64 buf), λ d le. rw run (ap some (remainder_lem (sum64 buf) d (range buf) le)))

  -- The hash of an int64 key at a depth of at most 62, whatever the 64-bit hash function, is a
  -- place of a directory of that depth.
  pub hasher-lt :
      (depth : ℕ)
      → ((b : List ℕ) → sum64 b < 2 ^ 64)
      → IsInt64 key
      → depth ≤ 62
      → (h : ℕ) × (hasher sum64 key depth ≡ some h) × (h < 2 ^ depth)
  hasher-lt depth range fit le =
      let (m, run) = hasher-magnitude range fit in
      (m % 2 ^ depth, run depth le, mod-lt m (pow_positive depth))

get_elem?-append :
    (xs ys : List ℕ) (i : ℕ)
    → get_elem? (xs ++ ys) i
      ≡ (if ltb i (length xs) then get_elem? xs i else get_elem? ys (i - length xs))
get_elem?-append [] ys i = let e : i - 0 ≡ i = omega arith in ground (arith, e)
get_elem?-append (x ∷ xs) ys zero = ground arith
get_elem?-append (x ∷ xs) ys (suc i) = ground (arith, get_elem?-append xs ys i)

-- a remainder by twice a number, taken by the number itself
pub twice_mod : (m s : ℕ) → m % s ≡ m % (s * 2) % s
twice_mod m s =
    let q : ℕ = m / (s * 2) in
    let whole : s * (2 * q) + m % (s * 2) ≡ m = grind (arith, div-add-mod m (s * 2)) in
    ap (λ (t : ℕ). t % s) (sym whole) ∙ mul-add-mod_self_left s (2 * q) (m % (s * 2))

pub doubled :
    (bs : List ℕ) (h h' s : ℕ)
    → length bs ≡ s
    → h' < s * 2
    → h ≡ h' % s
    → get_elem? (bs ++ bs) h' ≡ get_elem? bs h
doubled bs h h' s len lt eq = elim (Bool-cases (ltb h' s)) [
  | inl low ↦
      let same : h ≡ h' = eq ∙ mod-eq_of_lt (ground arith) in
      get_elem?-append bs bs h' ∙ rw (len, low, same) refl
  | inr high ↦
      let same : h ≡ h' - s = eq ∙ mod-eq-sub-mod (ground arith) ∙ mod-eq_of_lt (ground arith) in
      get_elem?-append bs bs h' ∙ rw (len, high, same) refl
]

-- When a directory of 2^depth places, for a depth below 62, is doubled, the hash of every int64
-- key at the new depth leads to the page to which its hash at the old depth led, and the
-- directory has 2^depth places again.
pub hasher-extend_table :
    (sum64 : List ℕ → ℕ) (table : HashTable) (key : ℤ)
    → ((b : List ℕ) → sum64 b < 2 ^ 64)
    → IsInt64 key
    → table.global_depth < 62
    → length table.buckets ≡ 2 ^ table.global_depth
    → (h h' : ℕ) × (hasher sum64 key table.global_depth ≡ some h)
      × (hasher sum64 key (extend_table table).global_depth ≡ some h')
      × (get_elem? (extend_table table).buckets h' ≡ get_elem? table.buckets h)
      × (length (extend_table table).buckets ≡ 2 ^ (extend_table table).global_depth)
unfolding extend_table
hasher-extend_table sum64 table key range fit small len =
    let g = table.global_depth in
    let (m, run) = hasher-magnitude sum64 key range fit in
    let next : 2 ^ (g + 1) ≡ 2 ^ g * 2 = pow-add g 1 in
    let lt : m % 2 ^ (g + 1) < 2 ^ (g + 1) = mod-lt m (pow_positive (g + 1)) in
    (
      m % 2 ^ g,
      m % 2 ^ (g + 1),
      run g (omega arith),
      run (g + 1) (omega arith),
      doubled table.buckets (m % 2 ^ g) (m % 2 ^ (g + 1)) (2 ^ g) len (omega arith)
          (twice_mod m (2 ^ g) ∙ ap (λ (t : ℕ). m % t % 2 ^ g) (sym next)),
      omega (arith, length-append table.buckets table.buckets),
    )
