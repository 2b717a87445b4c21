-- ===== src/Recovery/Parse/RoundTrip.antt =====
-- The records of pkg/recovery/log.go, written by toString and read by logFromString.
use recovery_stencil.Prelude.{
  ℕ, ◌^◌, ◌<◌, true, false, [], ◌∷◌, ◌++◌, some, ok, ◌≡◌, refl, arith, ◌∙◌, ap,
}
use mathlib.Core.Path.{subst}
use recovery_stencil.Prelude.Int.{ℤ, pos}
use recovery_stencil.Repl.{String}
use recovery_stencil.Text.{codes, digits, itoa, atoi, is_digit}
use recovery_stencil.Database.{is_alphanumeric}
use recovery_stencil.Recovery.{
  Action, insert_action, update_action, delete_action, EditLog, Log, table_log, edit_log, start_log,
  commit_log, checkpoint_log, to_string, edit_string, action_text, checkpoint_text, id_strings,
}
use recovery_stencil.Recovery.Parse.{
  literal, int_value, one_or_more, table_exp, edit_exp, log_from_string, action_at,
}
use recovery_stencil.Text.Numbers.{atoi-itoa, digits-cons}
use recovery_stencil.Recovery.Parse.Records.{
  IsName, none_behind, table_exp-AtLt, table_exp-uuid, name_taken, table_read, start_read,
  commit_read,
}
use recovery_stencil.Recovery.Parse.Scanners.{
  IsUuid, all_chars, not_lt, no_lt, uuid_text-append, one_or_more-append, all_chars-digits,
  all_chars-append, all_chars_weaken, find_match-here,
}

module _ (must_parse : String → ℕ) where
  -- what is printed for a number that is not negative
  pub record IsNatural (k : ℤ) : Type 0 where
    pub value : ℕ
    pub same : k ≡ pos value
    pub bound : value < 2 ^ 63

  number_taken :
      (k : ℤ) (c : ℕ) (s : String)
      → IsNatural k
      → is_digit c ≡ false
      → one_or_more is_digit (itoa k ++ c ∷ s) ≡ some (itoa k, c ∷ s)
  unfolding itoa
  number_taken k c s is n =
      let (d, w, eq, is_d) = digits-cons 18 is.value [] (omega (arith, is.bound)) in
      rw (is.same, eq)
        (one_or_more-append is_digit d w c s
          (subst (λ t. all_chars is_digit t ≡ true) eq
            (all_chars-digits 18 is.value [] (omega (arith, is.bound)) refl))
          n)

  action_taken : (a : Action) (s : String) → action_at (action_text a ++ s) ≡ some (a, s)
  unfolding action_at literal
  action_taken insert_action s = refl
  action_taken update_action s = refl
  action_taken delete_action s = refl

  -- an edit whose key and values are not negative
  pub record IsReadableEdit (uuid_string : ℕ → String) (el : EditLog) : Type 0 where
    pub uuid : IsUuid (uuid_string el.id)
    pub parsed : must_parse (uuid_string el.id) ≡ el.id
    pub name : IsName must_parse el.tablename
    pub key : IsNatural el.key
    pub oldval : IsNatural el.oldval
    pub newval : IsNatural el.newval

  value_read : (k : ℤ) → IsNatural k → int_value (atoi (itoa k)) ≡ k
  value_read k is = rw is.same (rw (atoi-itoa (pos is.value) is.bound) refl)

  edit_exp_lem :
      (uuid_string : ℕ → String) (el : EditLog)
      → IsReadableEdit uuid_string el
      → edit_exp must_parse (edit_string uuid_string el) ≡ some el
  unfolding edit_exp edit_string literal
  edit_exp_lem uuid_string el is =
      rw
        (
          uuid_text-append (uuid_string el.id) _ is.uuid,
          name_taken must_parse el.tablename 44 _ is.name refl,
          action_taken el.action _,
          number_taken el.key 44 _ is.key refl,
          number_taken el.oldval 44 _ is.oldval refl,
          number_taken el.newval 32 _ is.newval refl,
          is.parsed,
          value_read el.key is.key,
          value_read el.oldval is.oldval,
          value_read el.newval is.newval,
        )
        refl

  name-no_lt : (name : String) → IsName must_parse name → no_lt name ≡ true
  name-no_lt name is = rw is.text (
      all_chars_weaken is_alphanumeric not_lt (is.first ∷ is.others) (λ c e. ground (arith, e))
        is.letters)

  number-no_lt : (k : ℤ) → IsNatural k → no_lt (itoa k) ≡ true
  unfolding itoa
  number-no_lt k is = rw is.same (
      all_chars_weaken is_digit not_lt (digits 18 is.value []) (λ c e. ground (arith, e))
        (all_chars-digits 18 is.value [] (omega (arith, is.bound)) refl))

  action-no_lt : (a : Action) → no_lt (action_text a) ≡ true
  action-no_lt insert_action = refl
  action-no_lt update_action = refl
  action-no_lt delete_action = refl

  -- what follows the id in an edit log
  abbrev rest : EditLog → String
  rest el =
      codes ", "
      ++ (el.tablename
          ++ (codes ", "
              ++ (action_text el.action
                  ++ (codes ", "
                      ++ (itoa el.key
                          ++ (codes ", "
                              ++ (itoa el.oldval
                                  ++ (codes ", " ++ (itoa el.newval ++ codes " >\n")))))))))

  rest-no_lt :
      (uuid_string : ℕ → String) (el : EditLog)
      → IsReadableEdit uuid_string el
      → no_lt (rest el) ≡ true
  rest-no_lt uuid_string el is =
      all_chars-append not_lt el.tablename _ (name-no_lt el.tablename is.name) (
        all_chars-append not_lt (action_text el.action) _ (action-no_lt el.action) (
          all_chars-append not_lt (itoa el.key) _ (number-no_lt el.key is.key) (
            all_chars-append not_lt (itoa el.oldval) _ (number-no_lt el.oldval is.oldval) (
              all_chars-append not_lt (itoa el.newval) (codes " >\n")
                (number-no_lt el.newval is.newval) refl))))

  edit_read :
      (uuid_string : ℕ → String) (el : EditLog)
      → IsReadableEdit uuid_string el
      → log_from_string must_parse (edit_string uuid_string el) ≡ ok (edit_log el)
  unfolding log_from_string edit_string
  edit_read uuid_string el is =
      let u = uuid_string el.id in
      rw
        (
          none_behind must_parse table_exp u (rest el) (table_exp-AtLt must_parse) is.uuid
              (rest-no_lt uuid_string el is) (table_exp-uuid must_parse u (rest el) is.uuid),
          find_match-here (edit_exp must_parse) (edit_string uuid_string el) el
              (edit_exp_lem uuid_string el is),
          log_from_string,
        )
        refl

  -- the logs that are read back: names are words of letters, ids are in their printed form, and the
  -- numbers of an edit are not negative; of the checkpoints it is the one without transactions
  abbrev pub IsReadable : (ℕ → String) → Log → Type 0
  IsReadable uuid_string (table_log tl) =
      IsName must_parse tl.tbl_type × IsName must_parse tl.tbl_name
  IsReadable uuid_string (edit_log el) = IsReadableEdit uuid_string el
  IsReadable uuid_string (start_log id) =
      IsUuid (uuid_string id) × (must_parse (uuid_string id) ≡ id)
  IsReadable uuid_string (commit_log id) =
      IsUuid (uuid_string id) × (must_parse (uuid_string id) ≡ id)
  IsReadable uuid_string (checkpoint_log ids) = ids ≡ []

  empty_checkpoint_read :
      log_from_string must_parse (codes "< checkpoint >\n") ≡ ok (checkpoint_log [])
  unfolding log_from_string
  empty_checkpoint_read = refl

  -- What toString writes for a log, logFromString reads back as the same log: for a table log
  -- whose type and name are words of letters, digits and underscores, for an edit log with such
  -- a table name and with a key and values that are not negative and fit an int64, and for a
  -- start log and a commit log, where the text of the id has the form of a UUID and is parsed to
  -- the id, and for a checkpoint without transactions.
  pub log_from_string-to_string :
      (uuid_string : ℕ → String) (log : Log)
      → IsReadable uuid_string log
      → log_from_string must_parse (to_string uuid_string log) ≡ ok log
  unfolding to_string checkpoint_text id_strings
  log_from_string-to_string uuid_string (table_log tl) (k, n) =
      table_read must_parse uuid_string tl.tbl_type tl.tbl_name k n
  log_from_string-to_string uuid_string (edit_log el) is = edit_read uuid_string el is
  log_from_string-to_string uuid_string (start_log id) (is, same) =
      start_read must_parse (uuid_string id) is ∙ ap (λ i. ok (start_log i)) same
  log_from_string-to_string uuid_string (commit_log id) (is, same) =
      commit_read must_parse (uuid_string id) is ∙ ap (λ i. ok (commit_log i)) same
  log_from_string-to_string uuid_string (checkpoint_log ids) none_runs =
      rw none_runs empty_checkpoint_read
