-- ===== src/Text/Words.antt =====
-- Words, and strings.Fields of words with a space between them.
use recovery_stencil.Prelude.{
  ℕ, zero, suc, ◌+◌, ◌/◌, ◌%◌, ◌<◌, ◌^◌, ◌*◌, ◌≡◌, refl, ap, sym, ◌∙◌, List, [], ◌∷◌, ◌++◌, arith,
  Bool, true, false, not, ◌&&◌, Bool-cases, inl, inr,
}
use mathlib.Core.List.{append_assoc, append-nil}
use recovery_stencil.Prelude.Int.{ℤ, pos, negsuc, IsInt64}
use recovery_stencil.Repl.{String, is_space, fields, fields_from, end_word}
use recovery_stencil.Text.{digits, itoa}

abbrev pub visible : String → Bool
visible [] = true
visible (c ∷ s) = not (is_space c) && visible s

-- a text that is not empty and has no space in it
abbrev pub is_word : String → Bool
is_word [] = false
is_word (c ∷ s) = visible (c ∷ s)

abbrev pub all_words : List String → Bool
all_words [] = true
all_words (w ∷ ws) = is_word w && all_words ws

abbrev pub join_words : List String → String
join_words [] = []
join_words (w ∷ []) = w
join_words (w ∷ v ∷ ws) = w ++ 32 ∷ join_words (v ∷ ws)

fields_from-append :
    (u w s : String) → visible w ≡ true → fields_from u (w ++ s) ≡ fields_from (u ++ w) s
unfolding fields_from
fields_from-append u [] s h = rw append-nil refl
fields_from-append u (c ∷ w) s h = elim (Bool-cases (is_space c)) [
  | inl e ↦ absurd (ground (arith, e, h))
  | inr e ↦ rw e (
      fields_from-append (u ++ c ∷ []) w s (ground (arith, e, h))
      ∙ ap (λ t. fields_from t s) (append_assoc u (c ∷ []) w))
]

end_word_is : (w : String) (ws : List String) → is_word w ≡ true → end_word w ws ≡ w ∷ ws
end_word_is [] ws h = cc
end_word_is (c ∷ w) ws h = refl

is_word-visible : (w : String) → is_word w ≡ true → visible w ≡ true
is_word-visible [] h = refl
is_word-visible (c ∷ w) h = h

-- strings.Fields takes words that are joined by spaces apart again.
pub fields-join_words : (ws : List String) → all_words ws ≡ true → fields (join_words ws) ≡ ws
unfolding fields fields_from
fields-join_words [] h = refl
fields-join_words (w ∷ []) h =
    ap (fields_from []) (sym (append-nil w))
    ∙ fields_from-append [] w [] (is_word-visible w (ground (arith, h)))
    ∙ end_word_is w [] (ground (arith, h))
fields-join_words (w ∷ v ∷ ws) h =
    fields_from-append [] w (32 ∷ join_words (v ∷ ws)) (is_word-visible w (ground (arith, h)))
    ∙ end_word_is w _ (ground (arith, h))
    ∙ ap (λ t. w ∷ t) (fields-join_words (v ∷ ws) (ground (arith, h)))

digits-visible :
    (f n : ℕ) (out : String)
    → n < 10 * 10 ^ f
    → visible out ≡ true
    → is_word (digits f n out) ≡ true
unfolding digits
digits-visible zero n out h v = ground arith
digits-visible (suc f) n out h v = ground (arith, digits-visible f (n / 10) ((48 + n % 10) ∷ out))

pub itoa-is_word : (k : ℤ) → IsInt64 k → is_word (itoa k) ≡ true
unfolding itoa
itoa-is_word (pos n) h = digits-visible 18 n [] (omega arith) refl
itoa-is_word (negsuc n) h =
    is_word-visible (digits 18 (n + 1) []) (digits-visible 18 (n + 1) [] (omega arith) refl)

visible-append :
    (w : String) (c : ℕ) → visible w ≡ true → is_space c ≡ false → visible (w ++ c ∷ []) ≡ true
visible-append [] c h n = rw n refl
visible-append (d ∷ w) c h n = ground (arith, visible-append w c)

all_words-end_word :
    (w : String) (ws : List String)
    → visible w ≡ true
    → all_words ws ≡ true
    → all_words (end_word w ws) ≡ true
all_words-end_word [] ws h a = a
all_words-end_word (c ∷ w) ws h a = ground (arith, h, a)

all_words-fields_from : (w s : String) → visible w ≡ true → all_words (fields_from w s) ≡ true
unfolding fields_from
all_words-fields_from w [] h = all_words-end_word w [] h refl
all_words-fields_from w (c ∷ s) h = elim (Bool-cases (is_space c)) [
  | inl e ↦ rw e (all_words-end_word w _ h (all_words-fields_from [] s refl))
  | inr e ↦ rw e (all_words-fields_from (w ++ c ∷ []) s (visible-append w c h e))
]

-- What strings.Fields returns are words.
pub all_words-fields : (s : String) → all_words (fields s) ≡ true
unfolding fields
all_words-fields s = all_words-fields_from [] s refl
