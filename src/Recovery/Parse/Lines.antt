-- ===== src/Recovery/Parse/Lines.antt =====
-- The functions getRelevantStrings and readLogs of pkg/recovery/recovery_manager.go, and Recover, which
-- calls them. `lines_back` is the third-party scanner: the lines of a text from the last one to the
-- first, where a final newline makes the last line the empty one. `none` is a panic.
use recovery_stencil.Prelude.{
  ℕ, ◌+◌, Bool, true, false, List, [], ◌∷◌, Option, none, some, Result, ok, err, ◌>>=◌,
}
use recovery_stencil.Repl.{String}
use recovery_stencil.Text.{codes}
use recovery_stencil.Errors.{Error}
use recovery_stencil.Database.{Index, Files}
use recovery_stencil.Recovery.{Log, start_log, checkpoint_log}
use recovery_stencil.Recovery.Manager.{Server}
use recovery_stencil.Recovery.Restart.{activate, deactivate, recover_from}
use recovery_stencil.Recovery.Parse.{literal, find_match, log_from_string}

abbrev pub is_some {ℓ} : {A : Type ℓ} → Option A → Bool
is_some none = false
is_some (some a) = true

-- bytes.Contains(line, target)
unfoldable pub contains_text : String → String → Bool
unfolding literal find_match
contains_text line target = is_some (find_match (literal target) line)

-- txs[tx] = true for each id
unfoldable pub all_ids : List ℕ → List ℕ → List ℕ
unfolding activate
all_ids txs [] = txs
all_ids txs (id ∷ ids) = all_ids (activate id txs) ids

-- readLogs parses all strings but the last one
unfoldable pub all_but_last {ℓ} : {A : Type ℓ} → List A → List A
all_but_last [] = []
all_but_last (x ∷ []) = []
all_but_last (x ∷ y ∷ xs) = x ∷ all_but_last (y ∷ xs)

-- log.(startLog).id
abbrev pub start_id : Result Error Log → Option (Result Error ℕ)
start_id (err e) = some (err e)
start_id (ok (start_log id)) = some (ok id)
start_id (ok _) = none

-- log.(checkpointLog).ids
abbrev pub checkpoint_ids : Result Error Log → Option (Result Error (List ℕ))
checkpoint_ids (err e) = some (err e)
checkpoint_ids (ok (checkpoint_log ids)) = some (ok ids)
checkpoint_ids (ok _) = none

abbrev pub is_empty {ℓ} : {A : Type ℓ} → List A → Bool
is_empty [] = true
is_empty (x ∷ xs) = false

module _ (must_parse : String → ℕ) where
  -- the loop once the checkpoint was found; `ids` are the transactions whose start is still ahead
  unfoldable pub strings_before :
      List String → ℕ → List ℕ → List String → Option (Result Error (List String × ℕ))
  unfolding contains_text log_from_string deactivate
  strings_before relevant checkpoint_pos [] lines = some (ok (relevant, checkpoint_pos))
  strings_before relevant checkpoint_pos (tx ∷ txs) [] = some (ok (relevant, 0))
  strings_before relevant checkpoint_pos (tx ∷ txs) (line ∷ lines) =
      let unchanged = strings_before (line ∷ relevant) (checkpoint_pos + 1) (tx ∷ txs) lines in
      elim (contains_text line (codes "start")) [
        | false ↦ unchanged
        | true ↦ elim (start_id (log_from_string must_parse line)) [
          | none ↦ none
          | some (err e) ↦ some (err e)
          | some (ok id) ↦
              strings_before (line ∷ relevant) (checkpoint_pos + 1) (deactivate id (tx ∷ txs)) lines
        ]
      ]

  unfoldable pub relevant_strings :
      List String → List String → Option (Result Error (List String × ℕ))
  unfolding contains_text log_from_string strings_before all_ids
  relevant_strings relevant [] = some (ok (relevant, 0))
  relevant_strings relevant (line ∷ lines) =
      let unchanged = relevant_strings (line ∷ relevant) lines in
      elim (contains_text line (codes "checkpoint")) [
        | false ↦ unchanged
        | true ↦ elim (checkpoint_ids (log_from_string must_parse line)) [
          | none ↦ none
          | some (err e) ↦ some (err e)
          | some (ok ids) ↦ strings_before (line ∷ relevant) 0 (all_ids [] ids) lines
        ]
      ]

  abbrev pub cons_log : Result Error Log → Result Error (List Log) → Result Error (List Log)
  cons_log (err e) rest = err e
  cons_log (ok log) (err e) = err e
  cons_log (ok log) (ok logs) = ok (log ∷ logs)

  unfoldable pub parse_logs : List String → Result Error (List Log)
  unfolding log_from_string
  parse_logs [] = ok []
  parse_logs (s ∷ ss) = cons_log (log_from_string must_parse s) (parse_logs ss)

  unfoldable pub logs_of : Result Error (List String × ℕ) → Result Error (List Log × ℕ)
  unfolding parse_logs all_but_last
  logs_of (err e) = err e
  logs_of (ok (strings, checkpoint_index)) = elim (parse_logs (all_but_last strings)) [
    | err e ↦ err e
    | ok logs ↦ ok (logs, checkpoint_index)
  ]

  unfoldable pub read_logs : (String → List String) → String → Option (Result Error (List Log × ℕ))
  unfolding relevant_strings
  read_logs lines_back log_file = do r ← relevant_strings [] (lines_back log_file); some (logs_of r)

module _ {F T : Type 0} (index : Index F T) (os : Files F T) (uuid_string : ℕ → String)
    (must_parse : String → ℕ) (lines_back : String → List String) where
  unfoldable pub recover : ℕ → Server F T → Option (Server F T × Option Error)
  unfolding read_logs recover_from
  recover fuel w = do
    r ← read_logs must_parse lines_back w.rm.log_file
    elim r [ err e ↦ some (w, some e) | ok p ↦ recover_from index os uuid_string fuel w p.0 p.1 ]
