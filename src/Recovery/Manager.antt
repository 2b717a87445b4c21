-- ===== src/Recovery/Manager.antt =====
-- The state of pkg/recovery/recovery_manager.go and the functions that write to the log. The mutex makes
-- each of them one step. Of the log file there is the text that it holds.
use recovery_stencil.Prelude.{
  ℕ, List, [], ◌∷◌, ◌++◌, Option, none, some, ◌==◌, Result, err, if◌then◌else◌,
}
use recovery_stencil.Prelude.Int.{ℤ}
use recovery_stencil.Repl.{String}
use recovery_stencil.Text.{codes}
use recovery_stencil.Text.Paths.{clean, join}
use recovery_stencil.Errors.{Error, wrapped}
use recovery_stencil.Database.{
  Index, Files, Database, open_database, FileStatus, present, absent, stat_error,
}
use recovery_stencil.Concurrency.Manager.{TransactionManager}
use recovery_stencil.Recovery.{
  Action, EditLog, Log, table_log, edit_log, start_log, commit_log, checkpoint_log, to_string,
}

-- `tx_stack` is the map from ids, in some order; a missing id reads as the empty stack
pub record RecoveryManager : Type 0 where
  pub tx_stack : List (ℕ × List EditLog)
  pub log_file : String

-- the recovery manager with the database and the transaction manager that it points to
pub record Server (F T : Type 0) : Type 0 where
  pub db : Database F T
  pub tm : TransactionManager
  pub rm : RecoveryManager

unfoldable pub stack_of : ℕ → List (ℕ × List EditLog) → List EditLog
stack_of client [] = []
stack_of client (e ∷ es) = if e.0 == client then e.1 else stack_of client es

unfoldable pub set_stack : ℕ → List EditLog → List (ℕ × List EditLog) → List (ℕ × List EditLog)
set_stack client stack [] = (client, stack) ∷ []
set_stack client stack (e ∷ es) =
    if e.0 == client then (client, stack) ∷ es else e ∷ set_stack client stack es

-- delete(rm.txStack, clientId)
unfoldable pub remove_stack : ℕ → List (ℕ × List EditLog) → List (ℕ × List EditLog)
remove_stack client [] = []
remove_stack client (e ∷ es) =
    if e.0 == client then remove_stack client es else e ∷ remove_stack client es

-- the keys of the map
unfoldable pub active_ids : List (ℕ × List EditLog) → List ℕ
active_ids [] = []
active_ids (e ∷ es) = e.0 ∷ active_ids es

module _ {F T : Type 0} (index : Index F T) (os : Files F T) (uuid_string : ℕ → String) where
  unfoldable pub flush_log : RecoveryManager → Log → RecoveryManager × Option Error
  unfolding to_string
  flush_log rm log =
      let (text, e) = os.append_file rm.log_file (to_string uuid_string log) in
      (record rm { log_file = text }, e)

  abbrev pub table_error : Option Error → Option Error
  table_error none = none
  table_error (some e) = some (wrapped (codes "Table log") e)

  unfoldable pub table : RecoveryManager → String → String → RecoveryManager × Option Error
  unfolding flush_log
  table rm tbl_type tbl_name =
      let (rm', e) =
        flush_log rm (table_log (record { tbl_type = tbl_type; tbl_name = tbl_name })) in
      (rm', table_error e)

  -- the errors of the log file are dropped, here and below
  unfoldable pub edit : RecoveryManager → ℕ → T → Action → ℤ → ℤ → ℤ → RecoveryManager
  unfolding flush_log stack_of set_stack
  edit rm client tbl action key oldval newval =
      let el : EditLog = record {
        id = client;
        tablename = index.get_name tbl;
        action = action;
        key = key;
        oldval = oldval;
        newval = newval;
      } in
      let rm' = (flush_log rm (edit_log el)).0 in
      record rm' {
        tx_stack = set_stack client (stack_of client rm'.tx_stack ++ el ∷ []) rm'.tx_stack;
      }

  unfoldable pub start : RecoveryManager → ℕ → RecoveryManager
  unfolding flush_log
  start rm client = (flush_log rm (start_log client)).0

  unfoldable pub commit : RecoveryManager → ℕ → RecoveryManager
  unfolding flush_log remove_stack
  commit rm client =
      (flush_log (record rm { tx_stack = remove_stack client rm.tx_stack }) (commit_log client)).0

  unfoldable pub flush_tables : F → List (String × T) → F
  flush_tables files [] = files
  flush_tables files (t ∷ ts) = flush_tables (index.flush files t.1) ts

  -- strings.TrimSuffix(s, "/")
  unfoldable pub trim_slash : String → String
  trim_slash [] = []
  trim_slash (c ∷ []) = if c == 47 then [] else c ∷ []
  trim_slash (c ∷ d ∷ s) = c ∷ trim_slash (d ∷ s)

  -- the copy of the database folder to the recovery folder
  unfoldable pub delta : Database F T → Database F T
  unfolding trim_slash
  delta db =
      let folder = trim_slash db.basepath in
      let recovery_folder = folder ++ codes "-recovery/" in
      record db {
        files =
            (os.copy (os.remove_all db.files recovery_folder) (folder ++ codes "/")
              recovery_folder).0;
      }

  unfoldable pub checkpoint : Server F T → Server F T
  unfolding flush_tables flush_log delta active_ids
  checkpoint w =
      let db : Database F T = record w.db { files = flush_tables w.db.files w.db.tables } in
      let rm = (flush_log w.rm (checkpoint_log (active_ids w.rm.tx_stack))).0 in
      record w { db = delta db; rm = rm }

-- config.LogFileName
abbrev pub log_file_name : String
log_file_name = codes "db.log"

module _ {F T : Type 0} (os : Files F T) where
  -- the log in the database folder, if it is there, is copied to the recovery folder
  unfoldable pub copy_log : F → String → String → FileStatus → F
  copy_log files log_src_path recovery_folder present =
      (os.copy files log_src_path (join recovery_folder log_file_name)).0
  copy_log files log_src_path recovery_folder absent = files
  copy_log files log_src_path recovery_folder (stat_error e) = files

  -- the database folder is opened once the call before has succeeded
  unfoldable pub open_after : String → F × Option Error → F × Result Error (Database F T)
  open_after db_folder (files, some e) = (files, err e)
  open_after db_folder (files, none) = open_database os files db_folder

  unfoldable pub prime : F → String → F × Result Error (Database F T)
  unfolding copy_log open_after open_database
  prime files folder =
      let base = clean folder in
      let recovery_folder = base ++ codes "-recovery/" in
      let db_folder = base ++ codes "/" in
      let log_src_path = join base log_file_name in
      elim (os.stat files recovery_folder) [
        | absent ↦ open_after db_folder (os.make_folder files recovery_folder)
        | stat_error e ↦ (files, err e)
        | present ↦
            let copied = copy_log files log_src_path recovery_folder (os.stat files log_src_path) in
            open_after db_folder
              (os.copy (os.remove_all copied db_folder) recovery_folder db_folder)
      ]
