-- ===== src/Recovery/Parse.antt =====
-- The function logFromString of pkg/recovery/log.go. Each regular expression is the scanner of the texts
-- that it matches from their first character on, and is tried at every position. `must_parse` is the
-- library's MustParse of the text of an id. In these expressions what follows a repetition begins with
-- a character that the repetition does not take, so that a longest match loses nothing.
pub mod Lines
pub mod Scanners
pub mod Records
pub mod RoundTrip
use recovery_stencil.Prelude.{
  ℕ, zero, suc, ◌+◌, ◌^◌, ◌-◌, Bool, true, false, ◌&&◌, ◌||◌, List, [], ◌∷◌, ◌++◌, Option, none,
  some, Result, ok, err, leb, ◌==◌ as nat_eq, if◌then◌else◌, ◌>>=◌,
}
use recovery_stencil.Prelude.Int.{ℤ, pos}
use recovery_stencil.Repl.{String, ◌==◌}
use recovery_stencil.Text.{codes, atoi, is_digit, NumError, syntax, range}
use recovery_stencil.Errors.{Error, message}
use recovery_stencil.Database.{is_alphanumeric}
use recovery_stencil.Recovery.{
  Action, insert_action, update_action, delete_action, TableLog, EditLog, Log, table_log, edit_log,
  start_log, commit_log, checkpoint_log,
}

-- what follows a literal at the front of a text
unfoldable pub literal : String → String → Option String
literal [] s = some s
literal (c ∷ t) [] = none
literal (c ∷ t) (d ∷ s) = let rest = literal t s in if nat_eq c d then rest else none

-- the longest front of characters of a class, and what follows it
unfoldable pub span : (ℕ → Bool) → String → String × String
span p [] = ([], [])
span p (c ∷ s) = let rest = span p s in if p c then (c ∷ rest.0, rest.1) else ([], c ∷ s)

abbrev pub some_chars : String × String → Option (String × String)
some_chars ([], s) = none
some_chars (c ∷ w, s) = some (c ∷ w, s)

-- [p]+
unfoldable pub one_or_more : (ℕ → Bool) → String → Option (String × String)
unfolding span
one_or_more p s = some_chars (span p s)

abbrev pub is_hex : ℕ → Bool
is_hex c = is_digit c || (leb 97 c && leb c 102)

-- \s
abbrev pub is_blank : ℕ → Bool
is_blank c = nat_eq c 32 || nat_eq c 9 || nat_eq c 10 || nat_eq c 12 || nat_eq c 13

-- [0-9a-f]{n}
unfoldable pub hex_digits : ℕ → String → Option (String × String)
hex_digits zero s = some ([], s)
hex_digits (suc n) [] = none
hex_digits (suc n) (c ∷ s) =
    let rest = hex_digits n s in
    if is_hex c then (elim rest [ none ↦ none | some r ↦ some (c ∷ r.0, r.1) ]) else none

-- groups of hexadecimal digits with dashes between them
unfoldable pub hex_groups : List ℕ → String → Option (String × String)
unfolding hex_digits literal
hex_groups [] s = some ([], s)
hex_groups (n ∷ []) s = hex_digits n s
hex_groups (n ∷ m ∷ ns) s = do
  g ← hex_digits n s
  s' ← literal (codes "-") g.1
  r ← hex_groups (m ∷ ns) s'
  some (g.0 ++ 45 ∷ r.0, r.1)

-- uuidPattern
unfoldable pub uuid_text : String → Option (String × String)
unfolding hex_groups
uuid_text s = hex_groups (8 ∷ 4 ∷ 4 ∷ 4 ∷ 12 ∷ []) s

-- the first position at which a scanner accepts
unfoldable pub find_match {ℓ} : {A : Type ℓ} → (String → Option A) → String → Option A
find_match p [] = p []
find_match p (c ∷ s) =
    let later = find_match p s in elim (p (c ∷ s)) [ some a ↦ some a | none ↦ later ]

-- tableExp
unfoldable pub table_exp : String → Option TableLog
unfolding literal one_or_more
table_exp s = do
  s1 ← literal (codes "< create ") s
  t ← one_or_more is_alphanumeric s1
  s2 ← literal (codes " table ") t.1
  n ← one_or_more is_alphanumeric s2
  s3 ← literal (codes " >") n.1
  some (record { tbl_type = t.0; tbl_name = n.0 })

abbrev pub action_or : Action → Option String → Option (Action × String) → Option (Action × String)
action_or a none other = other
action_or a (some s) other = some (a, s)

-- UPDATE|INSERT|DELETE
unfoldable pub action_at : String → Option (Action × String)
unfolding literal
action_at s = action_or update_action (literal (codes "UPDATE") s) (
    action_or insert_action (literal (codes "INSERT") s)
      (action_or delete_action (literal (codes "DELETE") s) none))

-- the value of Atoi where its error is dropped
abbrev pub int_value : Result NumError ℤ → ℤ
int_value (ok k) = k
int_value (err syntax) = pos 0
int_value (err range) = pos (2 ^ 63 - 1)

module _ (must_parse : String → ℕ) where
  -- editExp, with the record made of its groups
  unfoldable pub edit_exp : String → Option EditLog
  unfolding literal uuid_text one_or_more action_at atoi
  edit_exp s = do
    s1 ← literal (codes "< ") s
    u ← uuid_text s1
    s2 ← literal (codes ", ") u.1
    t ← one_or_more is_alphanumeric s2
    s3 ← literal (codes ", ") t.1
    a ← action_at s3
    s4 ← literal (codes ", ") a.1
    k ← one_or_more is_digit s4
    s5 ← literal (codes ", ") k.1
    o ← one_or_more is_digit s5
    s6 ← literal (codes ", ") o.1
    n ← one_or_more is_digit s6
    s7 ← literal (codes " >") n.1
    some (record {
      id = must_parse u.0;
      tablename = t.0;
      action = a.0;
      key = int_value (atoi k.0);
      oldval = int_value (atoi o.0);
      newval = int_value (atoi n.0);
    })

  -- startExp and commitExp, for the word behind the id
  unfoldable pub id_exp : String → String → Option String
  unfolding literal uuid_text
  id_exp word s = do
    s1 ← literal (codes "< ") s
    u ← uuid_text s1
    literal (codes " " ++ word ++ codes " >") u.1

  abbrev pub skip_comma : String → String
  skip_comma [] = []
  skip_comma (c ∷ s) = if nat_eq c 44 then s else c ∷ s

  abbrev pub blank_rest : String → Option String
  blank_rest [] = none
  blank_rest (c ∷ s) = if is_blank c then some s else none

  -- the ids of checkpointExp, and the word behind them; each id is an element of the fuel
  unfoldable pub ids_then : ℕ → String → Option String
  unfolding uuid_text literal
  ids_then zero s = literal (codes "checkpoint >") s
  ids_then (suc n) s = elim (uuid_text s) [
    | none ↦ literal (codes "checkpoint >") s
    | some u ↦ (do s' ← blank_rest (skip_comma u.1); ids_then n s')
  ]

  abbrev pub length_of : String → ℕ
  length_of [] = 0
  length_of (c ∷ s) = suc (length_of s)

  -- checkpointExp
  unfoldable pub checkpoint_exp : String → Option String
  unfolding literal ids_then
  checkpoint_exp s = do s1 ← literal (codes "< ") s; ids_then (length_of s1) s1

  -- uuidExp.FindString(s), the empty text if there is none
  unfoldable pub first_uuid : String → String
  unfolding find_match uuid_text
  first_uuid s = elim (find_match uuid_text s) [ none ↦ [] | some u ↦ u.0 ]

  -- uuidExp.FindAllString(s, -1): the next search begins behind the last match
  unfoldable pub all_uuids : ℕ → String → List String
  unfolding find_match uuid_text
  all_uuids zero s = []
  all_uuids (suc n) s = elim (find_match uuid_text s) [ none ↦ [] | some u ↦ u.0 ∷ all_uuids n u.1 ]

  unfoldable pub parse_ids : List String → List ℕ
  parse_ids [] = []
  parse_ids (s ∷ ss) = must_parse s ∷ parse_ids ss

  unfoldable pub log_from_string : String → Result Error Log
  unfolding find_match table_exp edit_exp id_exp checkpoint_exp first_uuid all_uuids parse_ids
  log_from_string s = elim (find_match table_exp s) [
    | some tl ↦ ok (table_log tl)
    | none ↦ elim (find_match edit_exp s) [
      | some el ↦ ok (edit_log el)
      | none ↦ elim (find_match (id_exp (codes "start")) s) [
        | some _ ↦ ok (start_log (must_parse (first_uuid s)))
        | none ↦ elim (find_match (id_exp (codes "commit")) s) [
          | some _ ↦ ok (commit_log (must_parse (first_uuid s)))
          | none ↦ elim (find_match checkpoint_exp s) [
            | some _ ↦ ok (checkpoint_log (parse_ids (all_uuids (length_of s) s)))
            | none ↦ err (message (codes "could not parse log"))
          ]
        ]
      ]
    ]
  ]
