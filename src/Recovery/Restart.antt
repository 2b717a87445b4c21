-- ===== src/Recovery/Restart.antt =====
-- The rest of pkg/recovery/recovery_manager.go: redo, undo, Rollback, and Recover from the logs. `none` is
-- a call that does not return: it waits for a lock, panics, or needs more than `fuel` calls of Rollback
-- inside one another.
pub mod Payloads
pub mod Undo
pub mod Rollback
pub mod Redo
pub mod Replay
pub mod Recover
use recovery_stencil.Prelude.{
  ℕ, zero, suc, ◌+◌, Bool, true, false, List, [], ◌∷◌, ◌++◌, Option, none, some, Result, ok, err,
  ◌==◌, ◌>>=◌, if◌then◌else◌, length, get_elem?, drop,
}
use mathlib.Core.List.{reverse}
use recovery_stencil.Prelude.Int.{ℤ}
use recovery_stencil.Repl.{String}
use recovery_stencil.Text.{codes, itoa}
use recovery_stencil.Errors.{Error, message}
use recovery_stencil.Database.{Index, Files, Database}
use recovery_stencil.Database.Handlers as Database
use recovery_stencil.Concurrency.Manager.{TransactionManager}
use recovery_stencil.Concurrency.Handlers.{begin_now, commit_now}
use recovery_stencil.Recovery.{
  Action, insert_action, update_action, delete_action, TableLog, EditLog, Log, table_log, edit_log,
  start_log, commit_log, checkpoint_log,
}
use recovery_stencil.Recovery.Manager as Manager
use recovery_stencil.Recovery.Manager.{RecoveryManager, Server, stack_of}
use recovery_stencil.Recovery.Handlers as Handlers

-- activeTxns, a map from ids to true
unfoldable pub is_active : ℕ → List ℕ → Bool
is_active id [] = false
is_active id (i ∷ ids) = if i == id then true else is_active id ids

unfoldable pub activate : ℕ → List ℕ → List ℕ
unfolding is_active
activate id ids = if is_active id ids then ids else id ∷ ids

unfoldable pub deactivate : ℕ → List ℕ → List ℕ
deactivate id [] = []
deactivate id (i ∷ ids) = if i == id then deactivate id ids else i ∷ deactivate id ids

-- the payloads that redo and undo print
abbrev pub create_payload : TableLog → String
create_payload log = codes "create " ++ log.tbl_type ++ codes " table " ++ log.tbl_name

unfoldable pub insert_payload : ℤ → ℤ → String → String
unfolding itoa
insert_payload key value name =
    codes "insert " ++ (itoa key ++ (codes " " ++ (itoa value ++ (codes " into " ++ name))))

unfoldable pub update_payload : String → ℤ → ℤ → String
unfolding itoa
update_payload name key value =
    codes "update " ++ (name ++ (codes " " ++ (itoa key ++ (codes " " ++ itoa value))))

unfoldable pub delete_payload : ℤ → String → String
unfolding itoa
delete_payload key name = codes "delete " ++ (itoa key ++ (codes " from " ++ name))

module _ {F T : Type 0} (index : Index F T) (os : Files F T) where
  -- the second attempt, where the first one failed
  abbrev pub or_else :
      (Database F T → Database F T × Option Error)
      → Database F T × Option Error
      → Database F T × Option Error
  or_else retry (db, none) = (db, none)
  or_else retry (db, some e) = retry db

  abbrev pub drop_output {ℓ} :
      {A : Type ℓ} → Database F T × Result Error A → Database F T × Option Error
  drop_output (db, ok output) = (db, none)
  drop_output (db, err e) = (db, some e)

  unfoldable pub redo_edit : Action → Database F T → EditLog → Database F T × Option Error
  unfolding Database.handle_insert Database.handle_update Database.handle_delete
  redo_edit insert_action db log =
      or_else
        (λ db'.
          Database.handle_update index os db' (update_payload log.tablename log.key log.newval))
        (Database.handle_insert index os db (insert_payload log.key log.newval log.tablename))
  redo_edit update_action db log =
      or_else
        (λ db'.
          Database.handle_insert index os db' (insert_payload log.key log.newval log.tablename))
        (Database.handle_update index os db (update_payload log.tablename log.key log.newval))
  redo_edit delete_action db log =
      Database.handle_delete index os db (delete_payload log.key log.tablename)

  unfoldable pub redo : Database F T → Log → Database F T × Option Error
  unfolding Database.handle_create_table
  redo db (table_log log) =
      drop_output (Database.handle_create_table index os db (create_payload log))
  redo db (edit_log log) = redo_edit log.action db log
  redo db _ = (db, some (message (codes "can only redo edit or table logs")))

module _ {F T : Type 0} (index : Index F T) (os : Files F T) (uuid_string : ℕ → String) where
  unfoldable pub undo_edit :
      (Server F T → ℕ → Option (Server F T))
      → Action
      → Server F T
      → EditLog
      → Option (Server F T × Option Error)
  unfolding Handlers.handle_insert Handlers.handle_update Handlers.handle_delete
  undo_edit rb insert_action w log =
      Handlers.handle_delete index os uuid_string rb w (delete_payload log.key log.tablename) log.id
  undo_edit rb update_action w log =
      Handlers.handle_update index os uuid_string rb w
        (update_payload log.tablename log.key log.oldval) log.id
  undo_edit rb delete_action w log =
      Handlers.handle_insert index os uuid_string rb w
        (insert_payload log.key log.oldval log.tablename) log.id

  unfoldable pub undo :
      (Server F T → ℕ → Option (Server F T))
      → Server F T
      → EditLog
      → Option (Server F T × Option Error)
  undo rb w log = undo_edit rb log.action w log

  -- the loop of Rollback, whose index goes from n - 1 down to 0 on the stack as it then is
  unfoldable pub undo_stack :
      (Server F T → ℕ → Option (Server F T)) → Server F T → ℕ → ℕ → Option (Server F T)
  unfolding undo stack_of
  undo_stack rb w client zero = some w
  undo_stack rb w client (suc i) = do
    log ← get_elem? (stack_of client w.rm.tx_stack) i
    r ← undo rb w log
    undo_stack rb r.0 client i

  -- tm.Commit and rm.Commit
  unfoldable pub end_transaction : Server F T → ℕ → Server F T
  unfolding commit_now Manager.commit
  end_transaction w client = record w {
    tm = (commit_now w.tm client).0;
    rm = Manager.commit index os uuid_string w.rm client;
  }

  unfoldable pub rollback : ℕ → Server F T → ℕ → Option (Server F T)
  unfolding undo_stack stack_of
  rollback zero w client = none
  rollback (suc fuel) w client = do
    w' ← undo_stack (rollback fuel) w client (length (stack_of client w.rm.tx_stack))
    some (end_transaction w' client)

  -- the first loop of Recover, which drops the errors
  unfoldable pub redo_tables : Database F T → List Log → Database F T
  unfolding redo
  redo_tables db [] = db
  redo_tables db (table_log log ∷ logs) = redo_tables (redo index os db (table_log log)).0 logs
  redo_tables db (_ ∷ logs) = redo_tables db logs

  unfoldable pub begin_all : TransactionManager → List ℕ → List ℕ → TransactionManager × List ℕ
  unfolding begin_now activate
  begin_all tm active [] = (tm, active)
  begin_all tm active (id ∷ ids) = begin_all (begin_now tm id).0 (activate id active) ids

  -- the active transactions at the checkpoint
  unfoldable pub at_checkpoint : TransactionManager → Log → TransactionManager × List ℕ
  unfolding begin_all
  at_checkpoint tm (checkpoint_log ids) = begin_all tm [] ids
  at_checkpoint tm _ = (tm, [])

  -- the second loop of Recover, with the active transactions
  unfoldable pub redo_logs : Server F T → List ℕ → List Log → (Server F T × List ℕ) × Option Error
  unfolding begin_now commit_now activate deactivate redo
  redo_logs w active [] = ((w, active), none)
  redo_logs w active (start_log id ∷ logs) =
      redo_logs (record w { tm = (begin_now w.tm id).0 }) (activate id active) logs
  redo_logs w active (commit_log id ∷ logs) =
      redo_logs (record w { tm = (commit_now w.tm id).0 }) (deactivate id active) logs
  redo_logs w active (edit_log log ∷ logs) =
      let (db, e) = redo index os w.db (edit_log log) in
      let rest = redo_logs (record w { db = db }) active logs in
      elim e [ none ↦ rest | some error ↦ ((record w { db = db }, active), some error) ]
  redo_logs w active (_ ∷ logs) = redo_logs w active logs

  -- the third loop of Recover, over the logs from the last one to the first
  unfoldable pub undo_logs : ℕ → Server F T → List ℕ → List Log → Option (Server F T × Option Error)
  unfolding rollback undo is_active deactivate
  undo_logs fuel w active [] = some (w, none)
  undo_logs fuel w active (edit_log log ∷ logs) = elim (is_active log.id active) [
    | false ↦ undo_logs fuel w active logs
    | true ↦ (do
      r ← undo (rollback fuel) w log
      elim r.1 [ none ↦ undo_logs fuel r.0 active logs | some e ↦ some (r.0, some e) ])
  ]
  undo_logs fuel w active (start_log id ∷ logs) = elim (is_active id active) [
    | false ↦ undo_logs fuel w active logs
    | true ↦ undo_logs fuel (end_transaction w id) (deactivate id active) logs
  ]
  undo_logs fuel w active (_ ∷ logs) = undo_logs fuel w active logs

  -- what Recover does once the second loop has ended
  unfoldable pub undo_active :
      ℕ → List Log → (Server F T × List ℕ) × Option Error → Option (Server F T × Option Error)
  unfolding undo_logs
  undo_active fuel logs ((w, active), some e) = some (w, some e)
  undo_active fuel logs ((w, active), none) = undo_logs fuel w active (reverse logs)

  -- Recover, behind its call of readLogs; it panics if there is no log at the index
  unfoldable pub recover_from : ℕ → Server F T → List Log → ℕ → Option (Server F T × Option Error)
  unfolding redo_tables redo_logs
  recover_from fuel w logs checkpoint_index = do
    log ← get_elem? logs checkpoint_index
    let (tm, active) = at_checkpoint w.tm log in
        undo_active fuel logs (
          redo_logs (record w { db = redo_tables w.db logs; tm = tm }) active
            (drop (checkpoint_index + 1) logs))
