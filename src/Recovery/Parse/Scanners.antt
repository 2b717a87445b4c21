-- ===== src/Recovery/Parse/Scanners.antt =====
-- The scanners of Recovery/Parse on a text that begins with what they accept, and on one without a `<`.
use recovery_stencil.Prelude.{
  ℕ, zero, suc, ◌+◌, ◌/◌, ◌%◌, ◌^◌, ◌*◌, ◌<◌, Bool, true, false, not, ◌&&◌, [], ◌∷◌, ◌++◌, Option,
  none, some, ◌≡◌, refl, arith, ◌∙◌, sym, ap, length, Bool-cases, inl, inr, ◌==◌ as nat_eq,
}
use mathlib.Core.List.{append_assoc}
use recovery_stencil.Repl.{String}
use recovery_stencil.Text.{digits, is_digit}
use recovery_stencil.Recovery.Parse.{
  literal, span, one_or_more, some_chars, is_hex, hex_digits, hex_groups, uuid_text, find_match,
}

pub literal-append : (t s : String) → literal t (t ++ s) ≡ some s
unfolding literal
literal-append [] s = refl
literal-append (c ∷ t) s = ground (arith, literal-append t s)

abbrev pub all_chars : (ℕ → Bool) → String → Bool
all_chars p [] = true
all_chars p (c ∷ s) = p c && all_chars p s

-- a text of n hexadecimal digits
pub record IsHex (n : ℕ) (s : String) : Type 0 where
  pub count : length s ≡ n
  pub hex : all_chars is_hex s ≡ true

hex_digits-append :
    (n : ℕ) (g s : String)
    → length g ≡ n
    → all_chars is_hex g ≡ true
    → hex_digits n (g ++ s) ≡ some (g, s)
unfolding hex_digits
hex_digits-append zero [] s e h = refl
hex_digits-append zero (c ∷ g) s e h = absurd (omega arith)
hex_digits-append (suc n) [] s e h = absurd (omega arith)
hex_digits-append (suc n) (c ∷ g) s e h = elim (Bool-cases (is_hex c)) [
  | inr no_hex ↦ cc (rw no_hex at h)
  | inl is ↦ rw (hex_digits-append n g s (omega arith) (rw is at h), is) refl
]

-- the text of an id: five groups of hexadecimal digits with dashes between them
pub record IsUuid (u : String) : Type 0 where
  pub a : String
  pub b : String
  pub c : String
  pub d : String
  pub e : String
  pub text : u ≡ a ++ 45 ∷ (b ++ 45 ∷ (c ++ 45 ∷ (d ++ 45 ∷ e)))
  pub group_a : IsHex 8 a
  pub group_b : IsHex 4 b
  pub group_c : IsHex 4 c
  pub group_d : IsHex 4 d
  pub group_e : IsHex 12 e

pub uuid_front :
    (u s : String) (is : IsUuid u)
    → u ++ s ≡ is.a ++ 45 ∷ (is.b ++ 45 ∷ (is.c ++ 45 ∷ (is.d ++ 45 ∷ (is.e ++ s))))
uuid_front u s is = ap (λ t. t ++ s) is.text ∙ simp append_assoc

-- uuidPattern takes the text of an id, and leaves what follows it.
pub uuid_text-append : (u s : String) → IsUuid u → uuid_text (u ++ s) ≡ some (u, s)
unfolding uuid_text hex_groups literal
uuid_text-append u s is =
    rw
      (
        uuid_front u s is,
        hex_digits-append 8 is.a _ is.group_a.count is.group_a.hex,
        hex_digits-append 4 is.b _ is.group_b.count is.group_b.hex,
        hex_digits-append 4 is.c _ is.group_c.count is.group_c.hex,
        hex_digits-append 4 is.d _ is.group_d.count is.group_d.hex,
        hex_digits-append 12 is.e _ is.group_e.count is.group_e.hex,
      )
      (ap (λ t. some (t, s)) (sym is.text))

pub span-append :
    (p : ℕ → Bool) (w : String) (c : ℕ) (s : String)
    → all_chars p w ≡ true
    → p c ≡ false
    → span p (w ++ c ∷ s) ≡ (w, c ∷ s)
unfolding span
span-append p [] c s h n = rw n refl
span-append p (d ∷ w) c s h n = elim (Bool-cases (p d)) [
  | inr e ↦ cc (rw e at h)
  | inl e ↦ rw (span-append p w c s (rw e at h) n, e) refl
]

pub all_chars-append :
    (p : ℕ → Bool) (s t : String)
    → all_chars p s ≡ true
    → all_chars p t ≡ true
    → all_chars p (s ++ t) ≡ true
all_chars-append p [] t hs ht = ht
all_chars-append p (c ∷ s) t hs ht = elim (Bool-cases (p c)) [
  | inr e ↦ cc (rw e at hs)
  | inl e ↦ rw e (all_chars-append p s t (rw e at hs) ht)
]

pub all_chars_weaken :
    (p q : ℕ → Bool) (s : String)
    → ((c : ℕ) → p c ≡ true → q c ≡ true)
    → all_chars p s ≡ true
    → all_chars q s ≡ true
all_chars_weaken p q [] f h = refl
all_chars_weaken p q (c ∷ s) f h = elim (Bool-cases (p c)) [
  | inr e ↦ cc (rw e at h)
  | inl e ↦ rw (f c e) (all_chars_weaken p q s f (rw e at h))
]

abbrev pub not_lt : ℕ → Bool
not_lt c = not (nat_eq c 60)

-- a text without a `<`
abbrev pub no_lt : String → Bool
no_lt s = all_chars not_lt s

pub hex-no_lt : (n : ℕ) (s : String) → IsHex n s → no_lt s ≡ true
hex-no_lt n s h = all_chars_weaken is_hex not_lt s (λ c e. ground (arith, e)) h.hex

pub uuid-no_lt : (u : String) → IsUuid u → no_lt u ≡ true
uuid-no_lt u is = rw is.text (
    all_chars-append not_lt is.a _ (hex-no_lt 8 is.a is.group_a) (
      all_chars-append not_lt is.b _ (hex-no_lt 4 is.b is.group_b) (
        all_chars-append not_lt is.c _ (hex-no_lt 4 is.c is.group_c) (
          all_chars-append not_lt is.d _ (hex-no_lt 4 is.d is.group_d)
            (hex-no_lt 12 is.e is.group_e)))))

-- a scanner that accepts only what begins with a `<`
pub record AtLt {A : Type 0} (p : String → Option A) : Type 0 where
  pub at_end : p [] ≡ none
  pub elsewhere : (c : ℕ) (s : String) → not_lt c ≡ true → p (c ∷ s) ≡ none

module _ {A : Type 0} (p : String → Option A) where
  pub find_match-none : AtLt p → (s : String) → no_lt s ≡ true → find_match p s ≡ none
  unfolding find_match
  find_match-none at_lt [] h = at_lt.at_end
  find_match-none at_lt (c ∷ s) h = elim (Bool-cases (not_lt c)) [
    | inr e ↦ cc (rw e at h)
    | inl e ↦ rw (at_lt.elsewhere c s e, find_match) (find_match-none at_lt s (rw e at h))
  ]

  pub find_match-here : (s : String) (a : A) → p s ≡ some a → find_match p s ≡ some a
  unfolding find_match
  find_match-here [] a h = h
  find_match-here (c ∷ s) a h = rw (h, find_match) refl

  pub find_match-later :
      (c : ℕ) (s : String) → p (c ∷ s) ≡ none → find_match p (c ∷ s) ≡ find_match p s
  unfolding find_match
  find_match-later c s h = rw (h, find_match) refl

-- the first id of a text that begins with `< ` and an id
pub find_match-uuid :
    (u s : String) → IsUuid u → find_match uuid_text (60 ∷ 32 ∷ (u ++ s)) ≡ some (u, s)
unfolding uuid_text hex_groups hex_digits
find_match-uuid u s is =
    find_match-later uuid_text 60 (32 ∷ (u ++ s)) refl
    ∙ find_match-later uuid_text 32 (u ++ s) refl
    ∙ find_match-here uuid_text (u ++ s) (u, s) (uuid_text-append u s is)

-- [p]+ takes a text of its characters up to the first other one.
pub one_or_more-append :
    (p : ℕ → Bool) (d : ℕ) (w : String) (c : ℕ) (s : String)
    → all_chars p (d ∷ w) ≡ true
    → p c ≡ false
    → one_or_more p ((d ∷ w) ++ c ∷ s) ≡ some (d ∷ w, c ∷ s)
unfolding one_or_more
one_or_more-append p d w c s h n = ap some_chars (span-append p (d ∷ w) c s h n)

pub all_chars-digits :
    (f n : ℕ) (out : String)
    → n < 10 * 10 ^ f
    → all_chars is_digit out ≡ true
    → all_chars is_digit (digits f n out) ≡ true
unfolding digits
all_chars-digits zero n out h v = ground arith
all_chars-digits (suc f) n out h v =
    ground (arith, all_chars-digits f (n / 10) ((48 + n % 10) ∷ out))
