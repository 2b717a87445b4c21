-- ===== src/Repl/Added.antt =====
-- pkg/repl/repl.go: the table of a REPL to which commands were added one after another.
use recovery_stencil.Prelude.{
  ◌≡◌, refl, ◌∙◌, inl, inr, true, false, Option, none, some, List, [], ◌∷◌, if◌then◌else◌,
  Bool-cases, Option-cases,
}
use recovery_stencil.Repl.{
  String, ◌==◌, trigger_help_metacommand, Repl, ReplCommand, new_repl, add_command, lookup,
}
use recovery_stencil.Repl.Lookup.{
  same_string, string_refl, first_of, first_of-none, lookup-add_command,
}

-- a call of AddCommand
pub record Addition (W : Type 0) : Type 0 where
  pub trigger : String
  pub action : ReplCommand W
  pub help : String

turned : (s t : String) → (s == t) ≡ false → (t == s) ≡ false
turned s t h = elim (Bool-cases (t == s)) [
  | inr other ↦ other
  | inl hit ↦ let same = same_string t s hit in cc (string_refl s, rw same at h)
]

module _ {W : Type 0} where
  abbrev pub add_all : Repl W → List (Addition W) → Repl W
  add_all r [] = r
  add_all r (c ∷ cs) = add_all (add_command r c.trigger c.action c.help) cs

  -- the last call for a trigger
  abbrev pub last_for : String → List (Addition W) → Option (Addition W)
  last_for t [] = none
  last_for t (c ∷ cs) = first_of (last_for t cs) (if c.trigger == t then some c else none)

  -- the last call that counts for a trigger: none does for .help
  abbrev pub counted : String → List (Addition W) → Option (Addition W)
  counted t cs = if t == trigger_help_metacommand then none else last_for t cs

  abbrev pub action_of : Option (Addition W) → Option (ReplCommand W)
  action_of none = none
  action_of (some c) = some c.action

  abbrev pub help_of : Option (Addition W) → Option String
  help_of none = none
  help_of (some c) = some c.help

  module _ (t : String) where
    one_ignored :
        (t == trigger_help_metacommand) ≡ true
        → (r : Repl W) (c : Addition W)
        → (lookup t (add_command r c.trigger c.action c.help).commands ≡ lookup t r.commands)
          × (lookup t (add_command r c.trigger c.action c.help).help ≡ lookup t r.help)
    unfolding add_command
    one_ignored meta r c = elim (Bool-cases (c.trigger == trigger_help_metacommand)) [
      | inl same ↦ rw same (refl, refl)
      | inr other ↦
          let is_help = same_string t trigger_help_metacommand meta in
          let skip : (c.trigger == t) ≡ false = rw is_help other in
          let added = lookup-add_command r c.trigger t c.action c.help other in
          (added.0 ∙ rw skip refl, added.1 ∙ rw skip refl)
    ]

    help_ignored :
        (t == trigger_help_metacommand) ≡ true
        → (r : Repl W) (cs : List (Addition W))
        → (lookup t (add_all r cs).commands ≡ lookup t r.commands)
          × (lookup t (add_all r cs).help ≡ lookup t r.help)
    help_ignored meta r [] = (refl, refl)
    help_ignored meta r (c ∷ cs) =
        let rest = help_ignored meta (add_command r c.trigger c.action c.help) cs in
        let one = one_ignored meta r c in (rest.0 ∙ one.0, rest.1 ∙ one.1)

    one_added :
        (t == trigger_help_metacommand) ≡ false
        → (r : Repl W) (c : Addition W)
        → (lookup t (add_command r c.trigger c.action c.help).commands
            ≡ (if c.trigger == t then some c.action else lookup t r.commands))
          × (lookup t (add_command r c.trigger c.action c.help).help
              ≡ (if c.trigger == t then some c.help else lookup t r.help))
    unfolding add_command
    one_added plain r c = elim (Bool-cases (c.trigger == trigger_help_metacommand)) [
      | inr other ↦ lookup-add_command r c.trigger t c.action c.help other
      | inl meta ↦
          let is_help = same_string c.trigger trigger_help_metacommand meta in
          let skip : (c.trigger == t) ≡ false =
            rw is_help (turned t trigger_help_metacommand plain) in
          rw (meta, skip) (refl, refl)
    ]

    last_added :
        (t == trigger_help_metacommand) ≡ false
        → (r : Repl W) (cs : List (Addition W))
        → (lookup t (add_all r cs).commands
            ≡ first_of (action_of (last_for t cs)) (lookup t r.commands))
          × (lookup t (add_all r cs).help ≡ first_of (help_of (last_for t cs)) (lookup t r.help))
    last_added plain r [] = (refl, refl)
    last_added plain r (c ∷ cs) =
        let next = add_command r c.trigger c.action c.help in
        let rest = last_added plain next cs in
        let one = one_added plain r c in
        elim (Option-cases (last_for t cs)) [
          | inr (d, there) ↦ (rest.0 ∙ rw there refl, rest.1 ∙ rw there refl)
          | inl gone ↦ elim (Bool-cases (c.trigger == t)) [
            | inl hit ↦ (
              rest.0 ∙ rw (gone, hit) (one.0 ∙ rw hit refl),
              rest.1 ∙ rw (gone, hit) (one.1 ∙ rw hit refl),
            )
            | inr miss ↦ (
              rest.0 ∙ rw (gone, miss) (one.0 ∙ rw miss refl),
              rest.1 ∙ rw (gone, miss) (one.1 ∙ rw miss refl),
            )
          ]
        ]

    -- After any sequence of AddCommand calls on a new REPL, the command and the help string of a
    -- trigger are those of the last call for it, there are none where no call was for it, and
    -- there never are any for .help.
    pub add_all_lem :
        (cs : List (Addition W))
        → (lookup t (add_all new_repl cs).commands ≡ action_of (counted t cs))
          × (lookup t (add_all new_repl cs).help ≡ help_of (counted t cs))
    unfolding new_repl lookup
    add_all_lem cs = elim (Bool-cases (t == trigger_help_metacommand)) [
      | inl meta ↦ rw meta (help_ignored meta new_repl cs)
      | inr plain ↦
          let (a, h) = last_added plain new_repl cs in
          rw plain (
            a ∙ first_of-none (action_of (last_for t cs)),
            h ∙ first_of-none (help_of (last_for t cs)),
          )
    ]
