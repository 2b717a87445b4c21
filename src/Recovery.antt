-- ===== src/Recovery.antt =====
-- pkg/recovery/log.go: the records of the log and their texts. `uuid_string` is the method String of the
-- library's UUID; an id is a number.
pub mod Parse
pub mod Manager
pub mod Handlers
pub mod Commands
pub mod Effects
pub mod Restart
use recovery_stencil.Prelude.{ℕ, List, [], ◌∷◌, ◌++◌}
use recovery_stencil.Prelude.Int.{ℤ}
use recovery_stencil.Repl.{String}
use recovery_stencil.Text.{codes, itoa}

pub record TableLog : Type 0 where
  pub tbl_type : String
  pub tbl_name : String

pub data Action : Type 0 where
  insert_action update_action delete_action : Action

pub record EditLog : Type 0 where
  pub id : ℕ
  pub tablename : String
  pub action : Action
  pub key : ℤ
  pub oldval : ℤ
  pub newval : ℤ

pub data Log : Type 0 where
  table_log : TableLog → Log
  edit_log : EditLog → Log
  start_log : ℕ → Log
  commit_log : ℕ → Log
  checkpoint_log : List ℕ → Log

abbrev pub action_text : Action → String
action_text insert_action = codes "INSERT"
action_text update_action = codes "UPDATE"
action_text delete_action = codes "DELETE"

-- strings.Join(texts, ", ")
unfoldable pub join_commas : List String → String
join_commas [] = []
join_commas (s ∷ []) = s
join_commas (s ∷ t ∷ ts) = s ++ codes ", " ++ join_commas (t ∷ ts)

module _ (uuid_string : ℕ → String) where
  unfoldable pub table_string : TableLog → String
  table_string tl =
      codes "< create " ++ (tl.tbl_type ++ (codes " table " ++ (tl.tbl_name ++ codes " >\n")))

  unfoldable pub edit_string : EditLog → String
  unfolding itoa
  edit_string el =
      codes "< "
      ++ (uuid_string el.id
          ++ (codes ", "
              ++ (el.tablename
                  ++ (codes ", "
                      ++ (action_text el.action
                          ++ (codes ", "
                              ++ (itoa el.key
                                  ++ (codes ", "
                                      ++ (itoa el.oldval
                                          ++ (codes ", "
                                              ++ (itoa el.newval ++ codes " >\n")))))))))))

  unfoldable pub id_strings : List ℕ → List String
  id_strings [] = []
  id_strings (id ∷ ids) = uuid_string id ∷ id_strings ids

  unfoldable pub checkpoint_text : List String → String
  unfolding join_commas
  checkpoint_text [] = codes "< checkpoint >\n"
  checkpoint_text (s ∷ ss) = codes "< " ++ (join_commas (s ∷ ss) ++ codes " checkpoint >\n")

  unfoldable pub to_string : Log → String
  unfolding table_string edit_string id_strings
  to_string (table_log tl) = table_string tl
  to_string (edit_log el) = edit_string el
  to_string (start_log id) = codes "< " ++ (uuid_string id ++ codes " start >\n")
  to_string (commit_log id) = codes "< " ++ (uuid_string id ++ codes " commit >\n")
  to_string (checkpoint_log ids) = checkpoint_text (id_strings ids)
