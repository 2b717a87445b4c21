-- ===== src/Btree/Search.antt =====
-- The binary search of Go's library, which both kinds of nodes call.
use recovery_stencil.Prelude.{
  ℕ, zero, suc, ◌+◌, ◌-◌, ◌/◌, ◌≤◌, ◌<◌, ◌≡◌, refl, inl, inr, Bool, true, false, Option, some,
  arith, ltb, Bool-cases,
}
use recovery_stencil.Btree.{search_from, sort_search}

-- The place where a test turns from false to true below n.
pub record Boundary (p : ℕ → Bool) (n r : ℕ) : Type 0 where
  pub bound : r ≤ n
  pub below : (k : ℕ) → k < r → p k ≡ false
  pub above : (k : ℕ) → r ≤ k → k < n → p k ≡ true

module _ (f : ℕ → Option Bool) (p : ℕ → Bool) (n : ℕ) (answers : (k : ℕ) → k < n → f k ≡ some (p k))
    (stays : (k l : ℕ) → k ≤ l → l < n → p k ≡ true → p l ≡ true) where
  search_from_lem :
      (fuel i j : ℕ)
      → i ≤ j
      → j ≤ n
      → j - i ≤ fuel
      → ((k : ℕ) → k < i → p k ≡ false)
      → ((k : ℕ) → j ≤ k → k < n → p k ≡ true)
      → (r : ℕ) × (search_from fuel f i j ≡ some r) × Boundary p n r
  unfolding search_from
  search_from_lem zero i j le len fuel_le lo hi =
      (i, refl, record { bound = omega arith; below = lo; above = λ k h. hi k (omega arith) })
  search_from_lem (suc fuel) i j le len fuel_le lo hi = elim (Bool-cases (ltb i j)) [
    | inr stop ↦
        let eq : j ≤ i = ground arith in
        (
          i,
          rw stop refl,
          record { bound = omega arith; below = lo; above = λ k h. hi k (omega arith) },
        )
    | inl go ↦
        let lt : i < j = ground arith in
        let h : ℕ = (i + j) / 2 in
        let at : f h ≡ some (p h) = answers h (omega arith) in
        elim (Bool-cases (p h)) [
          | inl high ↦
              let (r, run, b) =
                search_from_lem fuel i h (omega arith) (omega arith) (omega arith) lo
                  (λ k ge lt_k. stays h k ge lt_k high) in
              (r, rw (go, at, high) run, b)
          | inr low ↦
              let (r, run, b) =
                search_from_lem fuel (h + 1) j (omega arith) len (omega arith)
                  (λ k lt_k. below_middle h k low (omega arith) (omega arith)) hi in
              (r, rw (go, at, low) run, b)
        ]
  ]
    where
      below_middle : (h k : ℕ) → p h ≡ false → k ≤ h → h < n → p k ≡ false
      below_middle h k low le_k lt_h = elim (Bool-cases (p k)) [
        | inl high ↦ let y = stays k h le_k lt_h high in cc (y, low)
        | inr no_k ↦ no_k
      ]

  -- A binary search for a test that stays true once it is finds where it turns true, in at most as
  -- many steps as there are places.
  pub sort_search_lem : (r : ℕ) × (sort_search n f ≡ some r) × Boundary p n r
  unfolding sort_search
  sort_search_lem =
      search_from_lem n 0 n (omega arith) (omega arith) (omega arith) (λ k h. absurd (omega arith))
        (λ k ge lt. absurd (omega arith))
