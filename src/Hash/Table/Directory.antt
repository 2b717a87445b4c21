-- ===== src/Hash/Table/Directory.antt =====
-- pkg/hash/hashTable.go: the loop of split that points the places of the directory to the new bucket.
use recovery_stencil.Prelude.{
  ℕ, zero, suc, ◌+◌, ◌-◌, ◌%◌, ◌≤◌, ◌<◌, ◌≡◌, refl, ◌∙◌, Bool, true, some, List, arith, length,
  get_elem?, leb, ltb, ◌==◌, ◌&&◌, ◌||◌, Bool-cases, inl, inr, set, length-set, if◌then◌else◌, [],
  ◌∷◌,
}
use native.Mathlib.Nat.{mod-eq_of_lt, mod-eq-sub-mod}
use recovery_stencil.Hash.Table.{point_from}

-- whether the loop that starts at i reaches the place j
abbrev pub reached : ℕ → ℕ → ℕ → Bool
reached i step j = leb i j && ((j - i) % step == 0)

reached-next :
    (i step j : ℕ) → 0 < step → reached i step j ≡ ((i == j) || reached (i + step) step j)
reached-next i step j positive = elim (Bool-cases (leb (i + step) j)) [
  | inl far ↦
      let m : (j - i) % step ≡ (j - i - step) % step = mod-eq-sub-mod (ground arith) in
      let e : j - (i + step) ≡ j - i - step = omega arith in rw e (ground (arith, m))
  | inr near ↦ elim (Bool-cases (leb i j)) [
    | inl behind ↦ let m : (j - i) % step ≡ j - i = mod-eq_of_lt (ground arith) in ground (arith, m)
    | inr before ↦ ground arith
  ]
]

get_elem?-set :
    (xs : List ℕ) (i j v : ℕ)
    → i < length xs
    → get_elem? (set xs i v) j ≡ (if i == j then some v else get_elem? xs j)
get_elem?-set [] i j v h = ground arith
get_elem?-set (x ∷ xs) zero zero v h = ground arith
get_elem?-set (x ∷ xs) zero (suc j) v h = ground arith
get_elem?-set (x ∷ xs) (suc i) zero v h = ground arith
get_elem?-set (x ∷ xs) (suc i) (suc j) v h = ground (arith, get_elem?-set xs i j v (omega arith))

-- In a directory of as many places as the bound, with enough rounds to reach it, the loop points
-- the places that it reaches to the page, and no others.
pub point_from_lem :
    (n i step bound pn : ℕ) (bs : List ℕ)
    → length bs ≡ bound
    → 0 < step
    → bound ≤ i + n
    → (r : List ℕ) × (point_from n i step bound pn bs ≡ some r)
      × (length r ≡ bound)
      × ((j : ℕ)
          → j < bound
          → get_elem? r j ≡ (if reached i step j then some pn else get_elem? bs j))
unfolding point_from
point_from_lem zero i step bound pn bs len positive enough = (bs, refl, len, λ j lt. ground arith)
point_from_lem (suc n) i step bound pn bs len positive enough =
    let (r, run, len', at) =
      point_from_lem n (i + step) step bound pn (set bs i pn) (length-set bs i pn ∙ len) positive
        (omega arith) in
    elim (Bool-cases (ltb i bound)) [
      | inl inside ↦
          let lt : i < bound = ground arith in
          let here : ltb i (length bs) ≡ true = ground arith in
          (
            r,
            rw (inside, here) run,
            len',
            λ j small.
                at j small
                ∙ rw (reached-next i step j positive, get_elem?-set bs i j pn (omega arith))
                    (ground arith),
          )
      | inr outside ↦ (bs, rw outside refl, len, λ j lt. ground arith)
    ]
