-- ===== src/Recovery/Parse/Records.antt =====
-- The scanners of Recovery/Parse on the texts of table, start and commit logs of pkg/recovery/log.go.
use recovery_stencil.Prelude.{
  ℕ, true, false, [], ◌∷◌, ◌++◌, Option, none, some, ok, ◌≡◌, refl, arith, ◌∙◌, length,
}
use recovery_stencil.Repl.{String}
use recovery_stencil.Text.{codes}
use recovery_stencil.Database.{is_alphanumeric}
use recovery_stencil.Recovery.{table_log, start_log, commit_log, table_string}
use recovery_stencil.Recovery.Parse.{
  literal, is_hex, one_or_more, find_match, table_exp, edit_exp, id_exp, first_uuid,
  log_from_string,
}
use recovery_stencil.Recovery.Parse.Scanners.{
  IsUuid, AtLt, all_chars, not_lt, no_lt, uuid_text-append, one_or_more-append, all_chars-append,
  uuid-no_lt, find_match-none, find_match-here, find_match-later, find_match-uuid, uuid_front,
}

literal-AtLt : (t : String) → AtLt (literal (60 ∷ t))
unfolding literal
literal-AtLt t = record { at_end = refl; elsewhere = λ c s h. ground (arith, h) }

-- no id begins with `create`
create_hex :
    (a x : String)
    → length a ≡ 8
    → all_chars is_hex a ≡ true
    → literal (codes "create ") (a ++ x) ≡ none
unfolding literal
create_hex [] x n h = absurd (omega arith)
create_hex (c ∷ []) x n h = absurd (omega arith)
create_hex (c ∷ d ∷ a) x n h = ground (arith, h)

module _ (must_parse : String → ℕ) where
  pub table_exp-AtLt : AtLt table_exp
  unfolding table_exp literal
  table_exp-AtLt = record {
    at_end = refl;
    elsewhere = λ c s h. rw ((literal-AtLt (codes " create ")).elsewhere c s h, table_exp) refl;
  }

  edit_exp-AtLt : AtLt (edit_exp must_parse)
  unfolding edit_exp literal
  edit_exp-AtLt = record {
    at_end = refl;
    elsewhere = λ c s h. rw ((literal-AtLt (codes " ")).elsewhere c s h, edit_exp) refl;
  }

  id_exp-AtLt : (word : String) → AtLt (id_exp must_parse word)
  unfolding id_exp literal
  id_exp-AtLt word = record {
    at_end = refl;
    elsewhere = λ c s h. rw ((literal-AtLt (codes " ")).elsewhere c s h, id_exp) refl;
  }

  -- a text that begins with `< ` and an id
  pub table_exp-uuid : (u s : String) → IsUuid u → table_exp (60 ∷ 32 ∷ (u ++ s)) ≡ none
  unfolding table_exp literal
  table_exp-uuid u s is =
      rw (uuid_front u s is, create_hex is.a _ is.group_a.count is.group_a.hex) refl

  edit_exp-uuid :
      (u s : String)
      → IsUuid u
      → literal (codes ", ") s ≡ none
      → edit_exp must_parse (60 ∷ 32 ∷ (u ++ s)) ≡ none
  unfolding edit_exp literal
  edit_exp-uuid u s is h = rw (uuid_text-append u s is, h) refl

  id_exp-uuid :
      (word u s : String)
      → IsUuid u
      → id_exp must_parse word (60 ∷ 32 ∷ (u ++ s)) ≡ literal (codes " " ++ word ++ codes " >") s
  unfolding id_exp literal
  id_exp-uuid word u s is = rw (uuid_text-append u s is) refl

  first_uuid-uuid : (u s : String) → IsUuid u → first_uuid must_parse (60 ∷ 32 ∷ (u ++ s)) ≡ u
  unfolding first_uuid
  first_uuid-uuid u s is = rw (find_match-uuid u s is, first_uuid) refl

  pub none_behind :
      {A : Type 0} (p : String → Option A) (u s : String)
      → AtLt p
      → IsUuid u
      → no_lt s ≡ true
      → p (60 ∷ 32 ∷ (u ++ s)) ≡ none
      → find_match p (60 ∷ 32 ∷ (u ++ s)) ≡ none
  none_behind p u s at_lt is h here =
      find_match-later p 60 (32 ∷ (u ++ s)) here
      ∙ find_match-none p at_lt (32 ∷ (u ++ s)) (all_chars-append not_lt u s (uuid-no_lt u is) h)

  pub start_read :
      (u : String)
      → IsUuid u
      → log_from_string must_parse (codes "< " ++ (u ++ codes " start >\n"))
        ≡ ok (start_log (must_parse u))
  unfolding log_from_string
  start_read u is =
      let s = codes " start >\n" in
      rw
        (
          none_behind table_exp u s table_exp-AtLt is refl (table_exp-uuid u s is),
          none_behind (edit_exp must_parse) u s edit_exp-AtLt is refl (edit_exp-uuid u s is refl),
          find_match-here (id_exp must_parse (codes "start")) (60 ∷ 32 ∷ (u ++ s)) _
              (id_exp-uuid (codes "start") u s is),
          first_uuid-uuid u s is,
          log_from_string,
        )
        refl

  pub commit_read :
      (u : String)
      → IsUuid u
      → log_from_string must_parse (codes "< " ++ (u ++ codes " commit >\n"))
        ≡ ok (commit_log (must_parse u))
  unfolding log_from_string
  commit_read u is =
      let s = codes " commit >\n" in
      rw
        (
          none_behind table_exp u s table_exp-AtLt is refl (table_exp-uuid u s is),
          none_behind (edit_exp must_parse) u s edit_exp-AtLt is refl (edit_exp-uuid u s is refl),
          none_behind (id_exp must_parse (codes "start")) u s (id_exp-AtLt (codes "start")) is refl
              (id_exp-uuid (codes "start") u s is),
          find_match-here (id_exp must_parse (codes "commit")) (60 ∷ 32 ∷ (u ++ s)) _
              (id_exp-uuid (codes "commit") u s is),
          first_uuid-uuid u s is,
          log_from_string,
        )
        refl

  -- a name of letters, digits and underscores
  pub record IsName (name : String) : Type 0 where
    pub first : ℕ
    pub others : String
    pub text : name ≡ first ∷ others
    pub letters : all_chars is_alphanumeric (first ∷ others) ≡ true

  pub name_taken :
      (name : String) (c : ℕ) (s : String)
      → IsName name
      → is_alphanumeric c ≡ false
      → one_or_more is_alphanumeric (name ++ c ∷ s) ≡ some (name, c ∷ s)
  name_taken name c s is n =
      rw is.text (one_or_more-append is_alphanumeric is.first is.others c s is.letters n)

  table_exp_lem :
      (kind name : String)
      → IsName kind
      → IsName name
      → table_exp (codes "< create " ++ (kind ++ (codes " table " ++ (name ++ codes " >\n"))))
        ≡ some (record { tbl_type = kind; tbl_name = name })
  unfolding table_exp literal
  table_exp_lem kind name k n =
      rw
        (
          name_taken kind 32 (codes "table " ++ (name ++ codes " >\n")) k refl,
          name_taken name 32 (codes ">\n") n refl,
        )
        refl

  pub table_read :
      (uuid_string : ℕ → String) (kind name : String)
      → IsName kind
      → IsName name
      → log_from_string must_parse
          (table_string uuid_string (record { tbl_type = kind; tbl_name = name }))
        ≡ ok (table_log (record { tbl_type = kind; tbl_name = name }))
  unfolding log_from_string table_string
  table_read uuid_string kind name k n =
      let s = kind ++ (codes " table " ++ (name ++ codes " >\n")) in
      rw
        (
          find_match-here table_exp (codes "< create " ++ s)
              (record { tbl_type = kind; tbl_name = name }) (table_exp_lem kind name k n),
          log_from_string,
        )
        refl
