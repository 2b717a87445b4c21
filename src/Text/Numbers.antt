-- ===== src/Text/Numbers.antt =====
-- The numbers of Text: what Atoi makes of a print of an int64.
use recovery_stencil.Prelude.{
  ℕ, zero, suc, ◌+◌, ◌*◌, ◌/◌, ◌%◌, ◌^◌, ◌<◌, ◌≡◌, refl, [], ◌∷◌, Option, none, some, ok, arith,
  true, ltb, Bool-cases, ◌==◌, inl, inr, ◌∙◌,
}
use recovery_stencil.Prelude.Int.{ℤ, pos, negsuc, IsInt64}
use recovery_stencil.Repl.{String}
use recovery_stencil.Text.{digits, itoa, scan_digits, atoi, is_digit, positive, negative, unsigned}

scan_digits-digits :
    (f n : ℕ) (out : String) → n < 10 * 10 ^ f → scan_digits (digits f n out) 0 ≡ scan_digits out n
unfolding digits scan_digits
scan_digits-digits zero n out h = ground arith
scan_digits-digits (suc f) n out h =
    ground (arith, scan_digits-digits f (n / 10) ((48 + n % 10) ∷ out))

pub digits-cons :
    (f n : ℕ) (out : String)
    → n < 10 * 10 ^ f
    → (c : ℕ) × (s : String) × (digits f n out ≡ c ∷ s) × (is_digit c ≡ true)
unfolding digits
digits-cons zero n out h = (48 + n, out, refl, ground arith)
digits-cons (suc f) n out h = elim (Bool-cases (ltb n 10)) [
  | inl lt ↦ (48 + n, out, rw lt refl, ground arith)
  | inr ge ↦ rw ge (digits-cons f (n / 10) ((48 + n % 10) ∷ out) (omega arith))
]

atoi-cons :
    (c : ℕ) (s : String) → is_digit c ≡ true → atoi (c ∷ s) ≡ positive (scan_digits (c ∷ s) 0)
unfolding atoi unsigned
atoi-cons c s h = ground arith

unsigned-cons : (c : ℕ) (s d : String) → d ≡ c ∷ s → unsigned d ≡ scan_digits d 0
unfolding scan_digits unsigned
unsigned-cons c s d e = rw e refl

unsigned-digits : (n : ℕ) → n < 10 ^ 19 → unsigned (digits 18 n []) ≡ some n
unfolding scan_digits
unsigned-digits n h =
    let (c, s, eq, d) = digits-cons 18 n [] h in
    unsigned-cons c s _ eq ∙ scan_digits-digits 18 n [] h

atoi-positive :
    (c : ℕ) (s d : String) → d ≡ c ∷ s → is_digit c ≡ true → atoi d ≡ positive (scan_digits d 0)
atoi-positive c s d e h = rw e (atoi-cons c s h)

-- Atoi reads back the print of an int64.
pub atoi-itoa : (k : ℤ) → IsInt64 k → atoi (itoa k) ≡ ok k
unfolding itoa scan_digits
atoi-itoa (pos n) h =
    let (c, s, eq, d) = digits-cons 18 n [] (omega arith) in
    rw (atoi-positive c s (digits 18 n []) eq d, scan_digits-digits 18 n [] (omega arith))
      (ground arith)
atoi-itoa (negsuc n) h = unfold atoi in rw (unsigned-digits (n + 1) (omega arith)) (ground arith)

positive-IsInt64 : (o : Option ℕ) (k : ℤ) → positive o ≡ ok k → IsInt64 k
positive-IsInt64 none k h = cc h
positive-IsInt64 (some n) (pos m) h = ground (arith, h)
positive-IsInt64 (some n) (negsuc m) h = ground (arith, h)

negative-IsInt64 : (o : Option ℕ) (k : ℤ) → negative o ≡ ok k → IsInt64 k
negative-IsInt64 none k h = cc h
negative-IsInt64 (some zero) (pos m) h = ground (arith, h)
negative-IsInt64 (some zero) (negsuc m) h = ground (arith, h)
negative-IsInt64 (some (suc n)) (pos m) h = ground (arith, h)
negative-IsInt64 (some (suc n)) (negsuc m) h = ground (arith, h)

-- What Atoi accepts is an int64.
pub atoi-IsInt64 : (s : String) (k : ℤ) → atoi s ≡ ok k → IsInt64 k
unfolding atoi
atoi-IsInt64 [] k h = cc h
atoi-IsInt64 (c ∷ s) k h = elim (Bool-cases (c == 45)) [
  | inl e ↦ negative-IsInt64 (unsigned s) k (rw e at h)
  | inr e ↦ elim (Bool-cases (c == 43)) [
    | inl p ↦ positive-IsInt64 (unsigned s) k (rw (e, p) at h)
    | inr p ↦ positive-IsInt64 (unsigned (c ∷ s)) k (rw (e, p) at h)
  ]
]
