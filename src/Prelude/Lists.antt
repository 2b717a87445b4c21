-- ===== src/Prelude/Lists.antt =====
-- Lists measured and indexed by native numbers, under the library's names, and the option monad.
use Prim.Native.Nat.{ℕ, zero, suc, ◌+◌, ◌-◌, ◌<◌, ◌≤◌, min}
use mathlib.Core.Path.{◌≡◌, refl, ap}
use mathlib.Core.List.{List, [], ◌∷◌, ◌++◌}
use mathlib.Core.Option.{Option, none, some}
use native.Mathlib.Numerals.{add-one}
use native.Mathlib.Omega.{arith}
use recovery_stencil.Prelude.Tests.{◌==◌, if◌then◌else◌}

infixl 5 ◌>>=◌
-- `none` is a Go panic, such as a slice expression out of range.
abbrev pub ◌>>=◌ {ℓ κ} : {A : Type ℓ} {B : Type κ} → Option A → (A → Option B) → Option B
none >>= f = none
some a >>= f = f a

module _ {ℓ} {A : Type ℓ} where
  abbrev pub length : List A → ℕ
  length [] = 0
  length (x ∷ xs) = suc (length xs)

  abbrev pub get_elem? : List A → ℕ → Option A
  get_elem? [] i = none
  get_elem? (x ∷ xs) zero = some x
  get_elem? (x ∷ xs) (suc i) = get_elem? xs i

  abbrev pub set : List A → ℕ → A → List A
  set [] i v = []
  set (x ∷ xs) zero v = v ∷ xs
  set (x ∷ xs) (suc i) v = x ∷ set xs i v

  abbrev pub take : ℕ → List A → List A
  take zero xs = []
  take (suc n) [] = []
  take (suc n) (x ∷ xs) = x ∷ take n xs

  abbrev pub drop : ℕ → List A → List A
  drop zero xs = xs
  drop (suc n) [] = []
  drop (suc n) (x ∷ xs) = drop n xs

  abbrev pub replicate : ℕ → A → List A
  replicate zero a = []
  replicate (suc n) a = a ∷ replicate n a

  pub length-append : (xs ys : List A) → length (xs ++ ys) ≡ length xs + length ys
  length-append [] ys = omega arith
  length-append (x ∷ xs) ys = omega (arith, length-append xs ys)

  pub length-set : (xs : List A) (i : ℕ) (v : A) → length (set xs i v) ≡ length xs
  length-set (x ∷ xs) (suc i) v = ap suc (length-set xs i v)
  length-set _ _ v = refl

  pub length-take : (n : ℕ) (xs : List A) → length (take n xs) ≡ min n (length xs)
  length-take zero xs = omega arith
  length-take (suc n) [] = omega arith
  length-take (suc n) (x ∷ xs) = omega (arith, length-take n xs)

  pub length-drop : (n : ℕ) (xs : List A) → length (drop n xs) ≡ length xs - n
  length-drop zero xs = omega arith
  length-drop (suc n) [] = omega arith
  length-drop (suc n) (x ∷ xs) = omega (arith, length-drop n xs)

  pub length-replicate : (n : ℕ) (a : A) → length (replicate n a) ≡ n
  length-replicate zero a = refl
  length-replicate (suc n) a = ap suc (length-replicate n a)

  pub take-append : (xs ys : List A) → take (length xs) (xs ++ ys) ≡ xs
  take-append [] ys = refl
  take-append (x ∷ xs) ys = ap (λ t. x ∷ t) (take-append xs ys)

  pub drop-append : (xs ys : List A) → drop (length xs) (xs ++ ys) ≡ ys
  drop-append [] ys = refl
  drop-append (x ∷ xs) ys = drop-append xs ys

module _ {ℓ} {A : Type ℓ} where
  -- a write at an index of the list, or at its end
  abbrev pub put_at : List A → ℕ → A → List A
  put_at [] i v = v ∷ []
  put_at (x ∷ xs) zero v = v ∷ xs
  put_at (x ∷ xs) (suc i) v = x ∷ put_at xs i v

  pub get_elem?-put_at :
      (xs : List A) (i j : ℕ) (v : A)
      → i ≤ length xs
      → get_elem? (put_at xs i v) j ≡ (if i == j then some v else get_elem? xs j)
  get_elem?-put_at [] zero zero v h = ground arith
  get_elem?-put_at [] zero (suc j) v h = ground arith
  get_elem?-put_at [] (suc i) j v h = absurd (omega arith)
  get_elem?-put_at (x ∷ xs) zero zero v h = ground arith
  get_elem?-put_at (x ∷ xs) zero (suc j) v h = ground arith
  get_elem?-put_at (x ∷ xs) (suc i) zero v h = ground arith
  get_elem?-put_at (x ∷ xs) (suc i) (suc j) v h =
      ground (arith, get_elem?-put_at xs i j v (omega arith))

  pub length-put_at_inside :
      (xs : List A) (i : ℕ) (v : A) → i < length xs → length (put_at xs i v) ≡ length xs
  length-put_at_inside [] i v h = absurd (omega arith)
  length-put_at_inside (x ∷ xs) zero v h = refl
  length-put_at_inside (x ∷ xs) (suc i) v h = ap suc (length-put_at_inside xs i v (omega arith))

  pub length-put_at_le :
      (xs : List A) (i n : ℕ) (v : A)
      → i ≤ length xs
      → i < n
      → length xs ≤ n
      → length (put_at xs i v) ≤ n
  length-put_at_le [] i n v h lt le = omega arith
  length-put_at_le (x ∷ xs) zero n v h lt le = omega arith
  length-put_at_le (x ∷ xs) (suc i) n v h lt le =
      omega (arith, length-put_at_le xs i (n - 1) v (omega arith) (omega arith) (omega arith))

  pub put_at_end : (xs : List A) (v : A) → put_at xs (length xs) v ≡ xs ++ v ∷ []
  put_at_end [] v = refl
  put_at_end (x ∷ xs) v = ap (λ t. x ∷ t) (put_at_end xs v)

  pub get_elem?_lt : (xs : List A) (i : ℕ) → i < length xs → (x : A) × (get_elem? xs i ≡ some x)
  get_elem?_lt [] i h = absurd (omega arith)
  get_elem?_lt (x ∷ xs) zero h = (x, refl)
  get_elem?_lt (x ∷ xs) (suc i) h = get_elem?_lt xs i (omega arith)

  pub get_elem?-some_lt : (xs : List A) (i : ℕ) (x : A) → get_elem? xs i ≡ some x → i < length xs
  get_elem?-some_lt [] i x h = cc
  get_elem?-some_lt (y ∷ xs) zero x h = omega arith
  get_elem?-some_lt (y ∷ xs) (suc i) x h = omega (arith, get_elem?-some_lt xs i x h)

-- An operation that may fail with an error of type E.
pub data Result {ℓ κ} (E : Type ℓ) (A : Type κ) : Type (ℓ ⊔ κ) where
  ok : A → Result E A
  err : E → Result E A

module _ {ℓ} {A : Type ℓ} where
  pub drop-get_elem? :
      (xs : List A) (i : ℕ) (x : A) → get_elem? xs i ≡ some x → drop i xs ≡ x ∷ drop (i + 1) xs
  drop-get_elem? [] i x h = cc
  drop-get_elem? (y ∷ xs) zero x h = cc
  drop-get_elem? (y ∷ xs) (suc i) x h = rw add-one (rw (drop-get_elem? xs i x h, add-one))

  pub drop-length : (xs : List A) → drop (length xs) xs ≡ []
  drop-length [] = refl
  drop-length (x ∷ xs) = drop-length xs

  -- the list without the element at an index
  abbrev pub erase_idx : List A → ℕ → List A
  erase_idx [] i = []
  erase_idx (x ∷ xs) zero = xs
  erase_idx (x ∷ xs) (suc i) = x ∷ erase_idx xs i

  -- the list with an element put in front of the one at an index
  abbrev pub insert_idx : List A → ℕ → A → List A
  insert_idx [] i v = v ∷ []
  insert_idx (x ∷ xs) zero v = v ∷ x ∷ xs
  insert_idx (x ∷ xs) (suc i) v = x ∷ insert_idx xs i v

  pub take-replicate : (m n : ℕ) (a : A) → m ≤ n → take m (replicate n a) ≡ replicate m a
  take-replicate zero n a h = refl
  take-replicate (suc m) zero a h = absurd (omega arith)
  take-replicate (suc m) (suc n) a h = ap (λ t. a ∷ t) (take-replicate m n a (omega arith))

  pub drop-replicate : (m n k : ℕ) (a : A) → m + k ≡ n → drop m (replicate n a) ≡ replicate k a
  drop-replicate zero n k a h = let e : n ≡ k = omega arith in rw e
  drop-replicate (suc m) zero k a h = absurd (omega arith)
  drop-replicate (suc m) (suc n) k a h = drop-replicate m n k a (omega arith)

  pub length-erase_idx :
      (xs : List A) (i n : ℕ) → i < length xs → suc n ≡ length xs → length (erase_idx xs i) ≡ n
  length-erase_idx [] i n h e = absurd (omega arith)
  length-erase_idx (x ∷ xs) zero n h e = omega arith
  length-erase_idx (x ∷ []) (suc i) n h e = absurd (omega arith)
  length-erase_idx (x ∷ y ∷ r) (suc i) zero h e = absurd (omega arith)
  length-erase_idx (x ∷ y ∷ r) (suc i) (suc n) h e =
      ap suc (length-erase_idx (y ∷ r) i n (omega arith) (omega arith))
