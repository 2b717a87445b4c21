-- ===== src/Prelude/Shift.antt =====
-- What the loops that move array elements by one place do to the list of the elements.
use Prim.Native.Nat.{ℕ, zero, suc, ◌+◌, ◌<◌}
use mathlib.Core.Path.{◌≡◌, refl, ap}
use mathlib.Core.List.{List, [], ◌∷◌}
use mathlib.Core.Option.{some}
use native.Mathlib.Numerals.{add-one}
use native.Mathlib.Omega.{arith}
use recovery_stencil.Prelude.Lists.{length, get_elem?, take, put_at, erase_idx}

module _ {ℓ} {A : Type ℓ} where
  collapse : List A → List A
  collapse [] = []
  collapse (x ∷ []) = x ∷ []
  collapse (x ∷ y ∷ r) = y ∷ collapse (y ∷ r)

  -- xs[j] := xs[j + 1] for each j from i to the last index but one
  unfoldable pub shift_down : List A → ℕ → List A
  unfolding collapse
  shift_down [] i = []
  shift_down (x ∷ xs) zero = collapse (x ∷ xs)
  shift_down (x ∷ xs) (suc i) = x ∷ shift_down xs i

  shift_down_step :
      (xs : List A) (i : ℕ) (x : A)
      → get_elem? xs (suc i) ≡ some x
      → shift_down (put_at xs i x) (suc i) ≡ shift_down xs i
  unfolding shift_down
  shift_down_step [] i x h = cc
  shift_down_step (y ∷ []) zero x h = cc
  shift_down_step (y ∷ z ∷ r) zero x h = let e : z ≡ x = cc in rw e
  shift_down_step (y ∷ xs) (suc i) x h = ap (λ t. y ∷ t) (shift_down_step xs i x h)

  pub shift_down_next :
      (xs : List A) (i : ℕ) (x : A)
      → get_elem? xs (i + 1) ≡ some x
      → shift_down (put_at xs i x) (i + 1) ≡ shift_down xs i
  shift_down_next xs i x h = rw add-one (shift_down_step xs i x (rw add-one at h))

  pub shift_down_end : (xs : List A) (i : ℕ) → suc i ≡ length xs → shift_down xs i ≡ xs
  unfolding shift_down
  shift_down_end [] i h = absurd (omega arith)
  shift_down_end (x ∷ []) zero h = refl
  shift_down_end (x ∷ y ∷ r) zero h = absurd (omega arith)
  shift_down_end (x ∷ xs) (suc i) h = ap (λ t. x ∷ t) (shift_down_end xs i (omega arith))

  length-collapse : (xs : List A) → length (collapse xs) ≡ length xs
  unfolding collapse
  length-collapse [] = refl
  length-collapse (x ∷ []) = refl
  length-collapse (x ∷ y ∷ r) = ap suc (length-collapse (y ∷ r))

  pub length-shift_down : (xs : List A) (i : ℕ) → length (shift_down xs i) ≡ length xs
  unfolding shift_down
  length-shift_down [] i = refl
  length-shift_down (x ∷ xs) zero = length-collapse (x ∷ xs)
  length-shift_down (x ∷ xs) (suc i) = ap suc (length-shift_down xs i)

  take-collapse : (x : A) (xs : List A) → take (length xs) (collapse (x ∷ xs)) ≡ xs
  unfolding collapse
  take-collapse x [] = refl
  take-collapse x (y ∷ r) = ap (λ t. y ∷ t) (take-collapse y r)

  -- the elements but the last are then those without the one at index i
  pub take-shift_down :
      (xs : List A) (i n : ℕ)
      → i < length xs
      → suc n ≡ length xs
      → take n (shift_down xs i) ≡ erase_idx xs i
  unfolding shift_down
  take-shift_down [] i n h e = absurd (omega arith)
  take-shift_down (x ∷ xs) zero n h e =
      let e' : n ≡ length xs = omega arith in rw e' (take-collapse x xs)
  take-shift_down (x ∷ []) (suc i) n h e = absurd (omega arith)
  take-shift_down (x ∷ y ∷ r) (suc i) zero h e = absurd (omega arith)
  take-shift_down (x ∷ y ∷ r) (suc i) (suc n) h e =
      ap (λ t. x ∷ t) (take-shift_down (y ∷ r) i n (omega arith) (omega arith))

  pub get_elem?-take :
      (n : ℕ) (xs : List A) (i : ℕ) (x : A)
      → get_elem? (take n xs) i ≡ some x
      → get_elem? xs i ≡ some x
  get_elem?-take zero xs i x h = cc
  get_elem?-take (suc n) [] i x h = cc
  get_elem?-take (suc n) (y ∷ xs) zero x h = h
  get_elem?-take (suc n) (y ∷ xs) (suc i) x h = get_elem?-take n xs i x h
