-- ===== src/Repl.antt =====
-- pkg/repl/repl.go: the table of commands and the loop that runs them. A string is a list of code points
-- and the output is one string. A command also takes and returns the state `W` of what lies behind
-- it, such as the database. The lines are those that the scanner or the channel delivers.
pub mod Combine
pub mod Lookup
pub mod Added
use recovery_stencil.Prelude.{
  ℕ, zero, suc, ◌+◌, Bool, true, false, not, ◌&&◌, ◌||◌, Option, none, some, List, [], ◌∷◌, ◌++◌,
  leb, ◌==◌ as nat_eq, if◌then◌else◌, Result, ok, err, length,
}

abbrev pub String : Type 0
String = List ℕ

infix 50 ◌==◌
abbrev pub ◌==◌ : String → String → Bool
[] == [] = true
[] == y ∷ t = false
x ∷ s == [] = false
x ∷ s == y ∷ t = nat_eq x y && (s == t)

-- ".help"
abbrev pub trigger_help_metacommand : String
trigger_help_metacommand = 46 ∷ 104 ∷ 101 ∷ 108 ∷ 112 ∷ []

-- "ERROR: "
abbrev pub error_prepend_str : String
error_prepend_str = 69 ∷ 82 ∷ 82 ∷ 79 ∷ 82 ∷ 58 ∷ 32 ∷ []

-- "command not found"
abbrev pub err_command_not_found : String
err_command_not_found =
    99 ∷ 111 ∷ 109 ∷ 109 ∷ 97 ∷ 110 ∷ 100 ∷ 32 ∷ 110 ∷ 111 ∷ 116 ∷ 32 ∷ 102 ∷ 111 ∷ 117 ∷ 110 ∷ 100
    ∷ []

abbrev pub newline : String
newline = 10 ∷ []

-- unicode.IsSpace
abbrev pub is_space : ℕ → Bool
is_space c =
    (leb 9 c && leb c 13)
    || nat_eq c 32
    || nat_eq c 133
    || nat_eq c 160
    || nat_eq c 5760
    || (leb 8192 c && leb c 8202)
    || nat_eq c 8232
    || nat_eq c 8233
    || nat_eq c 8239
    || nat_eq c 8287
    || nat_eq c 12288

-- the word that was read so far, in front of the others
abbrev pub end_word : String → List String → List String
end_word [] ws = ws
end_word (c ∷ w) ws = (c ∷ w) ∷ ws

-- strings.Fields of the library, with a word read so far
unfoldable pub fields_from : String → String → List String
fields_from w [] = end_word w []
fields_from w (c ∷ s) =
    let next = fields_from [] s in
    let more = fields_from (w ++ c ∷ []) s in if is_space c then end_word w next else more

unfoldable pub fields : String → List String
unfolding fields_from
fields s = fields_from [] s

-- strings.HasSuffix(s, "\n")
unfoldable pub ends_with_newline : String → Bool
ends_with_newline [] = false
ends_with_newline (c ∷ []) = nat_eq c 10
ends_with_newline (c ∷ d ∷ s) = ends_with_newline (d ∷ s)

-- a Go map keyed by strings
module _ {ℓ} {A : Type ℓ} where
  unfoldable pub lookup : String → List (String × A) → Option A
  lookup k [] = none
  lookup k (e ∷ es) = if e.0 == k then some e.1 else lookup k es

  unfoldable pub assign : String → A → List (String × A) → List (String × A)
  assign k a [] = (k, a) ∷ []
  assign k a (e ∷ es) = if e.0 == k then (k, a) ∷ es else e ∷ assign k a es

unfoldable pub contains : List String → String → Bool
contains [] str = false
contains (v ∷ s) str = (v == str) || contains s str

-- a missing help string reads as the empty one
abbrev pub or_empty : Option String → String
or_empty none = []
or_empty (some s) = s

pub data ReplError : Type 0 where
  overlapping_commands : ReplError

module _ (W : Type 0) where
  -- a client is the number that identifies it
  abbrev pub ReplCommand : Type 0
  ReplCommand = String → ℕ → W → W × Result String String

  pub record Repl : Type 0 where
    pub commands : List (String × ReplCommand)
    pub help : List (String × String)

-- the lines "trigger: help"
unfoldable pub help_lines : List (String × String) → String
help_lines [] = []
help_lines (e ∷ es) = e.0 ++ 58 ∷ 32 ∷ e.1 ++ newline ++ help_lines es

-- append a newline if there is output and it does not end with one
abbrev pub end_line : String → String
end_line [] = []
end_line (c ∷ s) = if ends_with_newline (c ∷ s) then c ∷ s else (c ∷ s) ++ newline

-- what Run prints for the answer of a command
abbrev pub show_answer : Result String String → String
show_answer (ok result) = end_line result
show_answer (err e) = error_prepend_str ++ e ++ newline

module _ {W : Type 0} where
  unfoldable pub new_repl : Repl W
  new_repl = record { commands = []; help = [] }

  unfoldable pub add_command : Repl W → String → ReplCommand W → String → Repl W
  unfolding assign
  add_command r trigger action help =
      if trigger == trigger_help_metacommand
      then r
      else record { commands = assign trigger action r.commands; help = assign trigger help r.help }

  -- the inner loop of CombineRepls, over the commands of one REPL: what is new, and the triggers
  unfoldable pub combine_commands :
      Repl W
      → List String
      → List (String × String)
      → List (String × ReplCommand W)
      → Result ReplError (Repl W × List String)
  unfolding add_command contains lookup
  combine_commands newrepl listexist help [] = ok (newrepl, listexist)
  combine_commands newrepl listexist help (e ∷ es) =
      let rest =
        combine_commands (add_command newrepl e.0 e.1 (or_empty (lookup e.0 help)))
          (listexist ++ e.0 ∷ []) help es in
      if contains listexist e.0 then err overlapping_commands else rest

  unfoldable pub combine_from : Repl W → List String → List (Repl W) → Result ReplError (Repl W)
  unfolding combine_commands
  combine_from newrepl listexist [] = ok newrepl
  combine_from newrepl listexist (r ∷ rs) =
      elim (combine_commands newrepl listexist r.help r.commands) [
        | err e ↦ err e
        | ok p ↦ combine_from p.0 p.1 rs
      ]

  unfoldable pub combine_repls : List (Repl W) → Result ReplError (Repl W)
  unfolding combine_from new_repl
  combine_repls repls = combine_from new_repl [] repls

  unfoldable pub help_string : Repl W → String
  unfolding help_lines
  help_string r = help_lines r.help

  -- one line of the loop of Run: the state behind the commands, and the output
  unfoldable pub run_line : Repl W → ℕ → String → String → W → W × String
  unfolding fields lookup help_string ends_with_newline
  run_line r client prompt payload w = elim (fields payload) [
    | [] ↦ (w, prompt)
    | trigger ∷ ts ↦
        if trigger == trigger_help_metacommand
        then (w, help_string r ++ prompt)
        else (elim (lookup trigger r.commands) [
          | none ↦ (w, error_prepend_str ++ err_command_not_found ++ newline ++ prompt)
          | some command ↦
              let (w', answer) = command payload client w in (w', show_answer answer ++ prompt)
        ])
  ]

  unfoldable pub run_lines : Repl W → ℕ → String → List String → W → W × String
  unfolding run_line
  run_lines r client prompt [] w = (w, newline)
  run_lines r client prompt (l ∷ ls) w =
      let (w', out) = run_line r client prompt l w in
      let (w'', rest) = run_lines r client prompt ls w' in (w'', out ++ rest)

  -- Run, with its first line of output
  unfoldable pub run : Repl W → ℕ → String → String → List String → W → W × String
  unfolding run_lines
  run r client welcome prompt input w =
      let (w', out) = run_lines r client prompt input w in (w', welcome ++ prompt ++ out)

  -- one line of the loop of RunChan, which echoes the line and shows an error without a prefix
  unfoldable pub run_chan_line : Repl W → ℕ → String → String → W → W × String
  unfolding fields lookup help_string
  run_chan_line r client prompt payload w = elim (fields payload) [
    | [] ↦ (w, payload ++ newline ++ prompt)
    | trigger ∷ ts ↦
        if trigger == trigger_help_metacommand
        then (w, payload ++ newline ++ help_string r ++ prompt)
        else (elim (lookup trigger r.commands) [
          | none ↦ (w, payload ++ newline ++ err_command_not_found ++ prompt)
          | some command ↦
              let (w', answer) = command payload client w in
              (
                w',
                payload
                    ++ newline
                    ++ (elim answer [ ok result ↦ result ++ newline | err e ↦ e ++ newline ])
                    ++ prompt,
              )
        ])
  ]

  unfoldable pub run_chan_lines : Repl W → ℕ → String → List String → W → W × String
  unfolding run_chan_line
  run_chan_lines r client prompt [] w = (w, newline)
  run_chan_lines r client prompt (l ∷ ls) w =
      let (w', out) = run_chan_line r client prompt l w in
      let (w'', rest) = run_chan_lines r client prompt ls w' in (w'', out ++ rest)

  unfoldable pub run_chan : Repl W → ℕ → String → List String → W → W × String
  unfolding run_chan_lines
  run_chan r client prompt input w =
      let (w', out) = run_chan_lines r client prompt input w in (w', prompt ++ out)
