-- ===== src/Repl/Combine.antt =====
-- pkg/repl/repl.go: the errors of CombineRepls.
use recovery_stencil.Prelude.{
  ◌≡◌, refl, ◌∙◌, sym, ◌⊎◌, inl, inr, Bool, true, false, ◌||◌, List, [], ◌∷◌, ◌++◌, Result, ok, err,
  Bool-cases,
}
use mathlib.Core.Path.{subst}
use mathlib.Core.List.{append-nil, append_assoc}
use recovery_stencil.Repl.{
  String, ◌==◌, contains, Repl, ReplError, overlapping_commands, ReplCommand, combine_commands,
  combine_from, combine_repls, new_repl, add_command, lookup, or_empty,
}
use recovery_stencil.Repl.Lookup.{same_string, string_refl}

-- whether a trigger comes up twice, or is one of those that were seen, by the search of the code
unfoldable repeats : List String → List String → Bool
repeats seen [] = false
repeats seen (t ∷ ts) = contains seen t || repeats (seen ++ t ∷ []) ts

repeats-append :
    (seen ts us : List String)
    → repeats seen (ts ++ us) ≡ (repeats seen ts || repeats (seen ++ ts) us)
unfolding repeats
repeats-append seen [] us = rw append-nil refl
repeats-append seen (t ∷ ts) us = elim (Bool-cases (contains seen t)) [
  | inl hit ↦ rw hit refl
  | inr miss ↦ rw miss (repeats-append (seen ++ t ∷ []) ts us ∙ rw append_assoc refl)
]

-- A string stands somewhere in a list; one stands in it twice.
pub data Occurs (t : String) : List String → Type 0 where
  first : {ts : List String} → Occurs t (t ∷ ts)
  later : {u : String} {ts : List String} → Occurs t ts → Occurs t (u ∷ ts)

pub data Repeats : List String → Type 0 where
  twice : {t : String} {ts : List String} → Occurs t ts → Repeats (t ∷ ts)
  behind : {t : String} {ts : List String} → Repeats ts → Repeats (t ∷ ts)

contains-Occurs : (seen : List String) (t : String) → contains seen t ≡ true → Occurs t seen
unfolding contains
contains-Occurs [] t h = cc h
contains-Occurs (s ∷ seen) t h = elim (Bool-cases (s == t)) [
  | inl hit ↦ subst (λ u. Occurs t (u ∷ seen)) (sym (same_string s t hit)) first
  | inr miss ↦ later (contains-Occurs seen t (rw miss at h))
]

Occurs-contains : (t : String) (seen : List String) → Occurs t seen → contains seen t ≡ true
unfolding contains
Occurs-contains t _ first = rw (string_refl t) refl
Occurs-contains t _ (later {u = u} {ts = ts} o) = rw (Occurs-contains t ts o) (or_true (u == t))
  where
    or_true : (b : Bool) → (b || true) ≡ true
    or_true true = refl
    or_true false = refl

none_occurs : (t : String) → ¬ Occurs t []
none_occurs t = elim [ ]

none_repeat : ¬ Repeats []
none_repeat = elim [ ]

Occurs-snoc :
    (seen : List String) (t u : String) → Occurs u (seen ++ t ∷ []) → Occurs u seen ⊎ (u ≡ t)
Occurs-snoc [] t _ first = inr refl
Occurs-snoc [] t u (later o) = absurd (none_occurs u o)
Occurs-snoc (s ∷ seen) t _ first = inl first
Occurs-snoc (s ∷ seen) t u (later o) = elim (Occurs-snoc seen t u o) [
  | inl old ↦ inl (later old)
  | inr same ↦ inr same
]

Occurs-front : (t u : String) (seen : List String) → Occurs u seen → Occurs u (seen ++ t ∷ [])
Occurs-front t u _ first = first
Occurs-front t u _ (later {ts = ts} o) = later (Occurs-front t u ts o)

Occurs-end : (seen : List String) (t : String) → Occurs t (seen ++ t ∷ [])
Occurs-end [] t = first
Occurs-end (s ∷ seen) t = later (Occurs-end seen t)

-- a repeated string, or one that was seen before
abbrev Found : List String → List String → Type 0
Found seen ts = Repeats ts ⊎ ((t : String) × Occurs t seen × Occurs t ts)

repeats_sound : (seen ts : List String) → repeats seen ts ≡ true → Found seen ts
unfolding repeats
repeats_sound seen [] h = cc h
repeats_sound seen (t ∷ ts) h = elim (Bool-cases (contains seen t)) [
  | inl hit ↦ inr (t, contains-Occurs seen t hit, first)
  | inr miss ↦ elim (repeats_sound (seen ++ t ∷ []) ts (rw miss at h)) [
    | inl r ↦ inl (behind r)
    | inr (u, o, here) ↦ elim (Occurs-snoc seen t u o) [
      | inl old ↦ inr (u, old, later here)
      | inr same ↦ inl (twice (subst (λ v. Occurs v ts) same here))
    ]
  ]
]

shifted :
    (seen : List String) (t : String) (ts : List String)
    → contains seen t ≡ false
    → Found seen (t ∷ ts)
    → Found (seen ++ t ∷ []) ts
shifted seen t ts miss (inl (twice o)) = inr (t, Occurs-end seen t, o)
shifted seen t ts miss (inl (behind r)) = inl r
shifted seen t ts miss (inr (u, o, here)) = shift_one seen t ts u miss o here
  where
    shift_one :
        (seen : List String) (t : String) (ts : List String) (u : String)
        → contains seen t ≡ false
        → Occurs u seen
        → Occurs u (t ∷ ts)
        → Found (seen ++ t ∷ []) ts
    shift_one seen t ts _ miss o first = cc (miss, Occurs-contains t seen o)
    shift_one seen t ts u miss o (later here) = inr (u, Occurs-front t u seen o, here)

repeats_complete : (seen ts : List String) → Found seen ts → repeats seen ts ≡ true
unfolding repeats
repeats_complete seen [] (inl r) = absurd (none_repeat r)
repeats_complete seen [] (inr (t, o, here)) = absurd (none_occurs t here)
repeats_complete seen (t ∷ ts) found = elim (Bool-cases (contains seen t)) [
  | inl hit ↦ rw hit refl
  | inr miss ↦ rw miss (repeats_complete (seen ++ t ∷ []) ts (shifted seen t ts miss found))
]

found_at_all : (ts : List String) → repeats [] ts ≡ true → Repeats ts
found_at_all ts h = elim (repeats_sound [] ts h) [
  | inl r ↦ r
  | inr (t, o, here) ↦ absurd (none_occurs t o)
]

abbrev pub failed {ℓ} : {A : Type ℓ} → Result ReplError A → Bool
failed (ok a) = false
failed (err e) = true

module _ {W : Type 0} where
  unfoldable pub triggers : List (String × ReplCommand W) → List String
  triggers [] = []
  triggers (e ∷ es) = e.0 ∷ triggers es

  unfoldable pub all_triggers : List (Repl W) → List String
  unfolding triggers
  all_triggers [] = []
  all_triggers (r ∷ rs) = triggers r.commands ++ all_triggers rs

  combine_commands_lem :
      (newrepl : Repl W) (seen : List String) (help : List (String × String))
      (es : List (String × ReplCommand W))
      → ((repeats seen (triggers es) ≡ true)
          × (combine_commands newrepl seen help es ≡ err overlapping_commands))
        ⊎ ((repeats seen (triggers es) ≡ false)
            × (r : Repl W) × (combine_commands newrepl seen help es ≡ ok (r, seen ++ triggers es)))
  unfolding combine_commands repeats triggers
  combine_commands_lem newrepl seen help [] = inr (refl, newrepl, rw append-nil refl)
  combine_commands_lem newrepl seen help (e ∷ es) = elim (Bool-cases (contains seen e.0)) [
    | inl hit ↦ inl (rw hit refl, rw hit refl)
    | inr miss ↦
        elim (combine_commands_lem (add_command newrepl e.0 e.1 (or_empty (lookup e.0 help)))
          (seen ++ e.0 ∷ []) help es) [
            | inl (dup, run) ↦ inl (rw miss dup, rw miss run)
            | inr (fresh, r, run) ↦ inr (rw miss fresh, r, rw miss (run ∙ rw append_assoc refl))
          ]
  ]

  combine_from_lem :
      (newrepl : Repl W) (seen : List String) (rs : List (Repl W))
      → failed (combine_from newrepl seen rs) ≡ repeats seen (all_triggers rs)
  unfolding combine_from all_triggers
  combine_from_lem newrepl seen [] = unfold repeats in refl
  combine_from_lem newrepl seen (r ∷ rs) =
      elim (combine_commands_lem newrepl seen r.help r.commands) [
        | inl (dup, run) ↦
            rw (run, failed)
              (sym (repeats-append seen (triggers r.commands) (all_triggers rs) ∙ rw dup refl))
        | inr (fresh, r', run) ↦
            rw (run, failed)
              (combine_from_lem r' (seen ++ triggers r.commands) rs
                ∙ sym (repeats-append seen (triggers r.commands) (all_triggers rs) ∙ rw fresh refl))
      ]

  -- how CombineRepls ends: with the error and a trigger that comes up twice, or without both
  abbrev pub Outcome : List String → Result ReplError (Repl W) → Type 0
  Outcome ts r =
      ((r ≡ err overlapping_commands) × Repeats ts)
      ⊎ ((made : Repl W) × (r ≡ ok made) × (¬ Repeats ts))

  Outcome-failed :
      (ts : List String) (r : Result ReplError (Repl W)) → failed r ≡ repeats [] ts → Outcome ts r
  Outcome-failed ts (err overlapping_commands) h = inl (refl, found_at_all ts (sym h))
  Outcome-failed ts (ok made) h =
      inr (made, refl, λ twice. cc (h, repeats_complete [] ts (inl twice)))

  -- CombineRepls either fails with the error on overlapping commands, and then a trigger stands
  -- twice in the sequence of the triggers of all REPLs, or it succeeds, and then none does.
  pub combine_repls-Outcome : (rs : List (Repl W)) → Outcome (all_triggers rs) (combine_repls rs)
  unfolding combine_repls
  combine_repls-Outcome rs =
      Outcome-failed (all_triggers rs) (combine_repls rs) (combine_from_lem new_repl [] rs)
