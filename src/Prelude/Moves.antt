-- ===== src/Prelude/Moves.antt =====
-- Lists by their elements, and what the loops that make room for an element do to them.
use Prim.Native.Nat.{ℕ, zero, suc, ◌+◌, ◌-◌, ◌<◌, ◌≤◌}
use mathlib.Core.Path.{◌≡◌, refl, ap, ◌∙◌}
use mathlib.Core.Logic.{inl, inr}
use mathlib.Core.Bool.{◌&&◌}
use mathlib.Core.List.{List, [], ◌∷◌}
use mathlib.Core.Option.{Option, none, some}
use native.Mathlib.Numerals.{add-one}
use native.Mathlib.Omega.{arith}
use recovery_stencil.Prelude.Tests.{ltb, leb, ◌==◌, Bool-cases, if◌then◌else◌}
use recovery_stencil.Prelude.Lists.{
  length, get_elem?, take, put_at, erase_idx, insert_idx, length-put_at_inside, get_elem?-put_at,
  get_elem?_lt, length-take,
}

module _ {ℓ} {A : Type ℓ} where
  -- lists with the same elements are equal
  pub get_elem?-ext : (xs ys : List A) → ((i : ℕ) → get_elem? xs i ≡ get_elem? ys i) → xs ≡ ys
  get_elem?-ext [] [] h = refl
  get_elem?-ext [] (y ∷ ys) h = cc (h 0)
  get_elem?-ext (x ∷ xs) [] h = cc (h 0)
  get_elem?-ext (x ∷ xs) (y ∷ ys) h =
      let head : x ≡ y = cc (h 0) in
      let tail = get_elem?-ext xs ys (λ i. h (suc i)) in cc (head, tail)

  pub get_elem?-take_if :
      (n : ℕ) (xs : List A) (i : ℕ)
      → get_elem? (take n xs) i ≡ (if ltb i n then get_elem? xs i else none)
  get_elem?-take_if zero xs i = ground arith
  get_elem?-take_if (suc n) [] i = ground arith
  get_elem?-take_if (suc n) (x ∷ xs) zero = ground arith
  get_elem?-take_if (suc n) (x ∷ xs) (suc i) = ground (arith, get_elem?-take_if n xs i)

  pub get_elem?-insert_idx :
      (xs : List A) (i j : ℕ) (v : A)
      → i ≤ length xs
      → get_elem? (insert_idx xs i v) j
        ≡ (if ltb j i then get_elem? xs j else if j == i then some v else get_elem? xs (j - 1))
  get_elem?-insert_idx [] zero zero v h = ground arith
  get_elem?-insert_idx [] zero (suc j) v h = ground arith
  get_elem?-insert_idx [] (suc i) j v h = absurd (omega arith)
  get_elem?-insert_idx (x ∷ xs) zero zero v h = ground arith
  get_elem?-insert_idx (x ∷ xs) zero (suc j) v h = ground arith
  get_elem?-insert_idx (x ∷ xs) (suc i) zero v h = ground arith
  get_elem?-insert_idx (x ∷ xs) (suc i) (suc zero) v h =
      ground (arith, get_elem?-insert_idx xs i 0 v (omega arith))
  get_elem?-insert_idx (x ∷ xs) (suc i) (suc (suc j)) v h =
      ground (arith, get_elem?-insert_idx xs i (suc j) v (omega arith))

  -- the list with its element at index j copied to index i
  abbrev pub copy_elem : List A → ℕ → Option A → List A
  copy_elem xs i none = xs
  copy_elem xs i (some v) = put_at xs i v

  -- xs[j + 1] := xs[j] for j from p + n - 1 down to p
  unfoldable pub shift_up : List A → ℕ → ℕ → List A
  shift_up xs p zero = xs
  shift_up xs p (suc n) = shift_up (copy_elem xs (p + n + 1) (get_elem? xs (p + n))) p n

  length-shift_up :
      (xs : List A) (p n : ℕ) → p + n < length xs → length (shift_up xs p n) ≡ length xs
  unfolding shift_up
  length-shift_up xs p zero h = refl
  length-shift_up xs p (suc n) h =
      let (v, at) = get_elem?_lt xs (p + n) (omega arith) in
      let ys : List A = put_at xs (p + n + 1) v in
      let len : length ys ≡ length xs = length-put_at_inside xs (p + n + 1) v (omega arith) in
      rw at (length-shift_up ys p n (omega arith) ∙ len)

module _ {A : Type 0} where
  shift_up_step :
      (xs : List A) (p n : ℕ) (v : A)
      → get_elem? xs (p + n) ≡ some v
      → shift_up xs p (suc n) ≡ shift_up (put_at xs (p + n + 1) v) p n
  unfolding shift_up
  shift_up_step xs p n v at = rw at refl

  get_elem?-shift_up :
      (xs : List A) (p n j : ℕ)
      → p + n < length xs
      → get_elem? (shift_up xs p n) j
        ≡ (if ltb p j && leb j (p + n) then get_elem? xs (j - 1) else get_elem? xs j)
  get_elem?-shift_up xs p zero j h = unfold shift_up in ground arith
  get_elem?-shift_up xs p (suc n) j h =
      let (v, at) = get_elem?_lt xs (p + n) (omega arith) in
      let ys : List A = put_at xs (p + n + 1) v in
      let len : length ys ≡ length xs = length-put_at_inside xs (p + n + 1) v (omega arith) in
      let ih = get_elem?-shift_up ys p n j (omega arith) in
      let here = get_elem?-put_at xs (p + n + 1) j v (omega arith) in
      let back = get_elem?-put_at xs (p + n + 1) (j - 1) v (omega arith) in
      elim (Bool-cases (j == (p + n + 1))) [
        | inl same ↦
            let e : j ≡ p + n + 1 = ground arith in
            let e' : j - 1 ≡ p + n = omega arith in
            let at' : get_elem? xs (j - 1) ≡ some v = rw e' at in
            ap (λ t. get_elem? t j) (shift_up_step xs p n v at) ∙ ih ∙ ground (arith, here, at')
        | inr other ↦
            ap (λ t. get_elem? t j) (shift_up_step xs p n v at) ∙ ih ∙ ground (arith, here, back)
      ]

  -- Room made at index p below n, and an element written there, is an insertion.
  pub take-shift_up :
      (xs : List A) (p n m : ℕ) (v : A)
      → p + m ≡ n
      → n < length xs
      → take (n + 1) (put_at (shift_up xs p m) p v) ≡ insert_idx (take n xs) p v
  take-shift_up xs p n m v eq lt = get_elem?-ext _ _ (λ i.
      let shifted = get_elem?-shift_up xs p m i (omega arith) in
      let put =
        get_elem?-put_at (shift_up xs p m) p i v
          (omega (arith, length-shift_up xs p m (omega arith))) in
      let front = get_elem?-take_if (n + 1) (put_at (shift_up xs p m) p v) i in
      let inserted = get_elem?-insert_idx (take n xs) p i v (omega (arith, length-take n xs)) in
      let old = get_elem?-take_if n xs i in
      let old' = get_elem?-take_if n xs (i - 1) in
      ground (arith, shifted, put, front, inserted, old, old'))

module _ {ℓ} {A : Type ℓ} where
  -- xs[j] := xs[j + 1] for j from p up to p + n - 1
  unfoldable pub shift_back : List A → ℕ → ℕ → List A
  shift_back xs p zero = xs
  shift_back xs p (suc n) = shift_back (copy_elem xs p (get_elem? xs (p + 1))) (p + 1) n

module _ {A : Type 0} where
  shift_back_step :
      (xs : List A) (p n : ℕ) (v : A)
      → get_elem? xs (p + 1) ≡ some v
      → shift_back xs p (suc n) ≡ shift_back (put_at xs p v) (p + 1) n
  unfolding shift_back
  shift_back_step xs p n v at = rw at refl

  get_elem?-shift_back :
      (xs : List A) (p n j : ℕ)
      → p + n < length xs
      → get_elem? (shift_back xs p n) j
        ≡ (if leb p j && ltb j (p + n) then get_elem? xs (j + 1) else get_elem? xs j)
  get_elem?-shift_back xs p zero j h = unfold shift_back in ground arith
  get_elem?-shift_back xs p (suc n) j h =
      let (v, at) = get_elem?_lt xs (p + 1) (omega arith) in
      let ys : List A = put_at xs p v in
      let len : length ys ≡ length xs = length-put_at_inside xs p v (omega arith) in
      let ih = get_elem?-shift_back ys (p + 1) n j (omega arith) in
      let here = get_elem?-put_at xs p j v (omega arith) in
      let next = get_elem?-put_at xs p (j + 1) v (omega arith) in
      elim (Bool-cases (j == p)) [
        | inl same ↦
            let e : j ≡ p = ground arith in
            let e' : j + 1 ≡ p + 1 = omega arith in
            let at' : get_elem? xs (j + 1) ≡ some v = rw e' at in
            ap (λ t. get_elem? t j) (shift_back_step xs p n v at) ∙ ih ∙ ground (arith, here, at')
        | inr other ↦
            ap (λ t. get_elem? t j) (shift_back_step xs p n v at) ∙ ih ∙ ground (arith, here, next)
      ]

  pub get_elem?-erase_idx :
      (xs : List A) (i j : ℕ)
      → get_elem? (erase_idx xs i) j ≡ (if ltb j i then get_elem? xs j else get_elem? xs (j + 1))
  get_elem?-erase_idx [] i j = ground arith
  get_elem?-erase_idx (x ∷ xs) zero j = rw add-one (ground arith)
  get_elem?-erase_idx (x ∷ xs) (suc i) zero = ground arith
  get_elem?-erase_idx (x ∷ xs) (suc i) (suc j) =
      let ih = get_elem?-erase_idx xs i j in rw add-one (ground (arith, rw add-one at ih))

  -- Moving the elements behind index p back by one below n + 1 removes the one at p.
  pub take-shift_back :
      (xs : List A) (p n m : ℕ)
      → p + m ≡ n
      → n < length xs
      → take n (shift_back xs p m) ≡ erase_idx (take (n + 1) xs) p
  take-shift_back xs p n m eq lt = get_elem?-ext _ _ (λ i.
      let shifted = get_elem?-shift_back xs p m i (omega arith) in
      let front = get_elem?-take_if n (shift_back xs p m) i in
      let erased = get_elem?-erase_idx (take (n + 1) xs) p i in
      let old = get_elem?-take_if (n + 1) xs i in
      let old' = get_elem?-take_if (n + 1) xs (i + 1) in
      ground (arith, shifted, front, erased, old, old'))

  pub take-put_at :
      (xs : List A) (i n : ℕ) (v : A)
      → i < n
      → n ≤ length xs
      → take n (put_at xs i v) ≡ put_at (take n xs) i v
  take-put_at [] i n v lt le = absurd (omega arith)
  take-put_at (x ∷ xs) i zero v lt le = absurd (omega arith)
  take-put_at (x ∷ xs) zero (suc n) v lt le = refl
  take-put_at (x ∷ xs) (suc i) (suc n) v lt le =
      ap (λ t. x ∷ t) (take-put_at xs i n v (omega arith) (omega arith))

  pub length-insert_idx :
      (xs : List A) (i : ℕ) (v : A) → i ≤ length xs → length (insert_idx xs i v) ≡ length xs + 1
  length-insert_idx [] zero v h = refl
  length-insert_idx [] (suc i) v h = absurd (omega arith)
  length-insert_idx (x ∷ xs) zero v h = omega arith
  length-insert_idx (x ∷ xs) (suc i) v h = omega (arith, length-insert_idx xs i v (omega arith))
