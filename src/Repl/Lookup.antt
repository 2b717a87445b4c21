-- ===== src/Repl/Lookup.antt =====
-- pkg/repl/repl.go: the command that AddCommand and CombineRepls register for a trigger.
use recovery_stencil.Prelude.{
  ◌≡◌, refl, ◌∙◌, sym, ◌⊎◌, inl, inr, Bool, true, false, ◌||◌, Option, none, some, List, [], ◌∷◌,
  ◌++◌, if◌then◌else◌, Result, ok, err, Bool-cases, arith,
}
use recovery_stencil.Repl.{
  String, ◌==◌, trigger_help_metacommand, contains, Repl, ReplCommand, combine_commands,
  combine_from, combine_repls, new_repl, add_command, assign, lookup, or_empty,
}

pub same_string : (s t : String) → (s == t) ≡ true → s ≡ t
same_string [] [] h = refl
same_string [] (y ∷ t) h = cc h
same_string (x ∷ s) [] h = cc h
same_string (x ∷ s) (y ∷ t) h =
    let head : x ≡ y = ground arith in let tail = same_string s t (ground arith) in cc (head, tail)

pub string_refl : (s : String) → (s == s) ≡ true
string_refl [] = refl
string_refl (x ∷ s) = ground (arith, string_refl s)

pub lookup-assign :
    {A : Type 0} (k t : String) (a : A) (es : List (String × A))
    → lookup t (assign k a es) ≡ (if k == t then some a else lookup t es)
unfolding lookup assign
lookup-assign k t a [] = refl
lookup-assign k t a (e ∷ es) = elim (Bool-cases (e.0 == k)) [
  | inl hit ↦
      let same = same_string e.0 k hit in
      elim (Bool-cases (k == t)) [
        | inl asked ↦ rw (hit, asked) refl
        | inr other ↦
            rw (hit, other) (let skip : (e.0 == t) ≡ false = rw same other in rw skip refl)
      ]
  | inr miss ↦ elim (Bool-cases (e.0 == t)) [
    | inl asked ↦
        let same = same_string e.0 t asked in
        let other : (k == t) ≡ false = differs k t (rw same at miss) in rw (miss, asked, other) refl
    | inr skip ↦ rw (miss, skip) (lookup-assign k t a es)
  ]
]
  where
    differs : (k t : String) → (t == k) ≡ false → (k == t) ≡ false
    differs k t h = elim (Bool-cases (k == t)) [
      | inr other ↦ other
      | inl hit ↦ let same = same_string k t hit in cc (string_refl t, rw same at h)
    ]

module _ {W : Type 0} where
  pub lookup-add_command :
      (r : Repl W) (k t : String) (action : ReplCommand W) (help : String)
      → (k == trigger_help_metacommand) ≡ false
      → (lookup t (add_command r k action help).commands
          ≡ (if k == t then some action else lookup t r.commands))
        × (lookup t (add_command r k action help).help
            ≡ (if k == t then some help else lookup t r.help))
  unfolding add_command
  lookup-add_command r k t action help no_help =
      rw no_help (lookup-assign k t action r.commands, lookup-assign k t help r.help)

-- which of two answers comes first
abbrev pub first_of {ℓ} : {A : Type ℓ} → Option A → Option A → Option A
first_of none b = b
first_of (some a) b = some a

pub first_of-none {ℓ} : {A : Type ℓ} (o : Option A) → first_of o none ≡ o
first_of-none none = refl
first_of-none (some c) = refl

pub first_of_assoc {ℓ} :
    {A : Type ℓ} (a b c : Option A) → first_of (first_of a b) c ≡ first_of a (first_of b c)
first_of_assoc none b c = refl
first_of_assoc (some x) b c = refl

Result-cases {ℓ κ} :
    {E : Type ℓ} {A : Type κ} (c : Result E A) → ((e : E) × (c ≡ err e)) ⊎ ((a : A) × (c ≡ ok a))
Result-cases (ok a) = inr (a, refl)
Result-cases (err e) = inl (e, refl)

contains-append :
    (seen : List String) (k t : String)
    → contains (seen ++ k ∷ []) t ≡ (contains seen t || (k == t))
unfolding contains
contains-append [] k t = ground arith
contains-append (s ∷ seen) k t = ground (arith, contains-append seen k t)

module _ {W : Type 0} where
  -- the command of the first REPL that has the trigger
  unfoldable pub first_command : String → List (Repl W) → Option (ReplCommand W)
  first_command t [] = none
  first_command t (r ∷ rs) = first_of (lookup t r.commands) (first_command t rs)

  -- the commands that were added so far are among the triggers that were seen
  abbrev Seen : Repl W → List String → String → Type 0
  Seen r seen t = contains seen t ≡ false → lookup t r.commands ≡ none

  added_lookup :
      (r : Repl W) (k t : String) (action : ReplCommand W) (help : String)
      → (trigger_help_metacommand == t) ≡ false
      → lookup t (add_command r k action help).commands
        ≡ (if k == t then some action else lookup t r.commands)
  unfolding add_command
  added_lookup r k t action help plain = elim (Bool-cases (k == trigger_help_metacommand)) [
    | inr other ↦ (lookup-add_command r k t action help other).0
    | inl meta ↦
        let same = same_string k trigger_help_metacommand meta in
        let skip : (k == t) ≡ false = rw same plain in rw (meta, skip) refl
  ]

  combine_commands-lookup :
      (t : String) (r r' : Repl W) (seen seen' : List String) (help : List (String × String))
      (es : List (String × ReplCommand W))
      → (trigger_help_metacommand == t) ≡ false
      → Seen r seen t
      → combine_commands r seen help es ≡ ok (r', seen')
      → (lookup t r'.commands ≡ first_of (lookup t r.commands) (lookup t es)) × Seen r' seen' t
  unfolding combine_commands
  combine_commands-lookup t r r' seen seen' help [] plain inv run =
      let same_r : r ≡ r' = cc run in
      let same_s : seen ≡ seen' = cc run in
      (
        rw (← same_r) (sym (first_of-none (lookup t r.commands))),
        λ h. rw (← same_r) (inv (rw (← same_s) at h)),
      )
  combine_commands-lookup t r r' seen seen' help (e ∷ es) plain inv run =
      elim (Bool-cases (contains seen e.0)) [
        | inl hit ↦ cc (rw hit at run)
        | inr fresh ↦
            let next = add_command r e.0 e.1 (or_empty (lookup e.0 help)) in
            let seen₁ = seen ++ e.0 ∷ [] in
            let run₁ : combine_commands next seen₁ help es ≡ ok (r', seen') = rw fresh at run in
            let added = added_lookup r e.0 t e.1 (or_empty (lookup e.0 help)) plain in
            let now_seen = contains-append seen e.0 t in
            elim (Bool-cases (e.0 == t)) [
              | inl asked ↦
                  let same = same_string e.0 t asked in
                  let absent : lookup t r.commands ≡ none = inv (rw same at fresh) in
                  let is_next : lookup t next.commands ≡ some e.1 = added ∙ rw asked refl in
                  let known : contains seen₁ t ≡ true =
                    now_seen ∙ rw asked (or_true (contains seen t)) in
                  let (found, inv') =
                    combine_commands-lookup t next r' seen₁ seen' help es plain (λ h. cc (h, known))
                      run₁ in
                  (found ∙ rw (is_next, absent, asked) refl, inv')
              | inr skip ↦
                  let is_next : lookup t next.commands ≡ lookup t r.commands =
                    added ∙ rw skip refl in
                  let known : contains seen₁ t ≡ contains seen t =
                    now_seen ∙ rw skip (or_false (contains seen t)) in
                  let (found, inv') =
                    combine_commands-lookup t next r' seen₁ seen' help es plain
                      (λ h. is_next ∙ inv (sym known ∙ h)) run₁ in
                  (found ∙ rw (is_next, skip) refl, inv')
            ]
      ]
    where
      or_true : (b : Bool) → (b || true) ≡ true
      or_true true = refl
      or_true false = refl

      or_false : (b : Bool) → (b || false) ≡ b
      or_false true = refl
      or_false false = refl

  combine_from-lookup :
      (t : String) (r r' : Repl W) (seen : List String) (rs : List (Repl W))
      → (trigger_help_metacommand == t) ≡ false
      → Seen r seen t
      → combine_from r seen rs ≡ ok r'
      → lookup t r'.commands ≡ first_of (lookup t r.commands) (first_command t rs)
  unfolding combine_from first_command
  combine_from-lookup t r r' seen [] plain inv run =
      let same : r ≡ r' = cc run in rw (← same) (sym (first_of-none (lookup t r.commands)))
  combine_from-lookup t r r' seen (x ∷ rs) plain inv run =
      elim (Result-cases (combine_commands r seen x.help x.commands)) [
        | inl (e, failed) ↦ cc (rw (combine_from, failed) at run)
        | inr (p, made) ↦
            let (found, inv') =
              combine_commands-lookup t r p.0 seen p.1 x.help x.commands plain inv made in
            combine_from-lookup t p.0 r' p.1 rs plain inv' (rw (combine_from, made) at run)
            ∙ rw found
                (first_of_assoc (lookup t r.commands) (lookup t x.commands) (first_command t rs))
      ]

  -- When CombineRepls succeeds, the combination has for each trigger other than .help the
  -- command of the first REPL that has the trigger, and no command where none has it.
  pub combine_repls-lookup :
      (t : String) (r : Repl W) (rs : List (Repl W))
      → (trigger_help_metacommand == t) ≡ false
      → combine_repls rs ≡ ok r
      → lookup t r.commands ≡ first_command t rs
  unfolding combine_repls new_repl
  combine_repls-lookup t r rs plain run =
      combine_from-lookup t new_repl r [] rs plain (λ h. unfold lookup in refl) run
      ∙ unfold lookup in refl
