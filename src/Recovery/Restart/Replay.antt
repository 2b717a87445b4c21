-- ===== src/Recovery/Restart/Replay.antt =====
-- The second loop of Recover in pkg/recovery/recovery_manager.go, against the log read as calls of the indexes.
use recovery_stencil.Prelude.{
  ℕ, Bool, true, false, List, [], ◌∷◌, Option, none, some, ◌≡◌, refl, arith, ◌∙◌, ap, ◌==◌,
  if◌then◌else◌, ok, Bool-cases, inl, inr,
}
use recovery_stencil.Errors.{Error}
use recovery_stencil.Repl.{String}
use recovery_stencil.Database.{Index, Files, Database, put_table, get_table}
use recovery_stencil.Concurrency.Handlers.{begin_now, commit_now}
use recovery_stencil.Recovery.{
  EditLog, TableLog, Log, table_log, edit_log, start_log, commit_log, checkpoint_log,
}
use recovery_stencil.Recovery.Manager.{Server}
use recovery_stencil.Recovery.Restart.{redo, redo_edit, redo_logs, is_active, activate, deactivate}
use recovery_stencil.Recovery.Restart.Redo.{IsRedoable, Redoes, redo_edit-Redoes}

-- whether a transaction is running at the end of the log
abbrev pub still_active : ℕ → Bool → List Log → Bool
still_active id b [] = b
still_active id b (start_log i ∷ logs) = still_active id (if i == id then true else b) logs
still_active id b (commit_log i ∷ logs) = still_active id (if i == id then false else b) logs
still_active id b (_ ∷ logs) = still_active id b logs

is_active-activate :
    (id i : ℕ) (ids : List ℕ)
    → is_active id (activate i ids) ≡ (if i == id then true else is_active id ids)
unfolding activate is_active
is_active-activate id i ids = elim (Bool-cases (is_active i ids)) [
  | inr fresh ↦ rw fresh refl
  | inl there ↦ rw there (elim (Bool-cases (i == id)) [
    | inr other ↦ rw other refl
    | inl same ↦ let e : i ≡ id = ground arith in rw same (rw⁻¹ e there)
  ])
]

is_active-deactivate :
    (id i : ℕ) (ids : List ℕ)
    → is_active id (deactivate i ids) ≡ (if i == id then false else is_active id ids)
unfolding deactivate is_active
is_active-deactivate id i [] = ground arith
is_active-deactivate id i (j ∷ ids) = ground (arith, is_active-deactivate id i ids)

module _ {F T : Type 0} (index : Index F T) (os : Files F T) where
  -- The tables under the edits of a log, in order: each edit gets its table, from the disk where it is not
  -- open, and is brought about by calls of its index.
  pub data Replays : Database F T → List Log → Database F T → Type 0 where
    ended : {db : Database F T} → Replays db [] db
    edited :
        {db db₁ db' : Database F T} {logs : List Log} (el : EditLog) (t t' : T)
        → IsRedoable el
        → get_table os db el.tablename ≡ (db₁, ok t)
        → Redoes index el el.action t t'
        → Replays (put_table db₁ el.tablename t') logs db'
        → Replays db (edit_log el ∷ logs) db'
    made :
        {db db' : Database F T} {logs : List Log} (l : TableLog)
        → Replays db logs db'
        → Replays db (table_log l ∷ logs) db'
    started :
        {db db' : Database F T} {logs : List Log} (id : ℕ)
        → Replays db logs db'
        → Replays db (start_log id ∷ logs) db'
    committed :
        {db db' : Database F T} {logs : List Log} (id : ℕ)
        → Replays db logs db'
        → Replays db (commit_log id ∷ logs) db'
    checked :
        {db db' : Database F T} {logs : List Log} (ids : List ℕ)
        → Replays db logs db'
        → Replays db (checkpoint_log ids ∷ logs) db'

  -- what the loop makes of a server and the active transactions
  pub record Replayed (w : Server F T) (active : List ℕ) (logs : List Log) (db : Database F T)
      (w' : Server F T) (active' : List ℕ) : Type 0 where
    pub tables : w'.db ≡ db
    pub running : (id : ℕ) → is_active id active' ≡ still_active id (is_active id active) logs
    pub same_log : w'.rm ≡ w.rm

  module _ (uuid_string : ℕ → String) where
    redo_logs_step :
        (w : Server F T) (db : Database F T) (el : EditLog) (active : List ℕ) (logs : List Log)
        → redo_edit index os el.action w.db el ≡ (db, none)
        → redo_logs index os uuid_string w active (edit_log el ∷ logs)
          ≡ redo_logs index os uuid_string (record w { db = db }) active logs
    unfolding redo_logs redo
    redo_logs_step w db el active logs e =
        ap
          (λ (r : Database F T × Option Error).
            elim r.1 as (λ _. (Server F T × List ℕ) × Option Error) [
              | none ↦ redo_logs index os uuid_string (record w { db = r.0 }) active logs
              | some error ↦ ((record w { db = r.0 }, active), some error)
            ])
          e

    -- Over a log under whose edits the tables can be replayed, the second loop of Recover ends
    -- without an error and leaves the tables that way, the active transactions are those that
    -- have started, or ran at the checkpoint, and have not committed since, and nothing is
    -- written to the log. Whatever the index of a table is, each edit, with an int64 key and new
    -- value and a table name of one word, gets its table, from the disk where it is not open; an
    -- insert is brought about by Insert of a key that is not found, or by Update where the key
    -- is found or Insert is refused; an update by Update, or where that is refused by Insert of
    -- a key that is not found; a delete by Delete; the last call in each case without an error.
    pub redo_logs-Replayed :
        (logs : List Log) (w : Server F T) (active : List ℕ) (db : Database F T)
        → Replays w.db logs db
        → (w' : Server F T) × (active' : List ℕ) × (redo_logs index os uuid_string w active logs
            ≡ ((w', active'), none))
          × Replayed w active logs db w' active'
    unfolding redo_logs
    redo_logs-Replayed _ w active db ended =
        (w, active, refl, record { tables = refl; running = λ id. refl; same_log = refl })
    redo_logs-Replayed _ w active db (made l rest) =
        let (w', active', run, r) = redo_logs-Replayed _ w active db rest in
        (w', active', run, record { tables = r.tables; running = r.running; same_log = r.same_log })
    redo_logs-Replayed _ w active db (checked ids rest) =
        let (w', active', run, r) = redo_logs-Replayed _ w active db rest in
        (w', active', run, record { tables = r.tables; running = r.running; same_log = r.same_log })
    redo_logs-Replayed _ w active db (started {logs = logs} i rest) =
        let (w', active', run, r) =
          redo_logs-Replayed logs (record w { tm = (begin_now w.tm i).0 }) (activate i active) db
            rest in
        (
          w',
          active',
          run,
          record {
            tables = r.tables;
            running = λ id.
                r.running id ∙ ap (λ b. still_active id b logs) (is_active-activate id i active);
            same_log = r.same_log;
          },
        )
    redo_logs-Replayed _ w active db (committed {logs = logs} i rest) =
        let (w', active', run, r) =
          redo_logs-Replayed logs (record w { tm = (commit_now w.tm i).0 }) (deactivate i active) db
            rest in
        (
          w',
          active',
          run,
          record {
            tables = r.tables;
            running = λ id.
                r.running id ∙ ap (λ b. still_active id b logs) (is_active-deactivate id i active);
            same_log = r.same_log;
          },
        )
    redo_logs-Replayed _ w active db
          (edited {db₁ = db₁} {logs = logs} el t t' is got run_edit rest) =
        let next = put_table db₁ el.tablename t' in
        let e = redo_edit-Redoes index os w.db db₁ el el.action t t' is got run_edit in
        let (w', active', run, r) =
          redo_logs-Replayed logs (record w { db = next }) active db rest in
        (
          w',
          active',
          redo_logs_step w next el active logs e ∙ run,
          record { tables = r.tables; running = r.running; same_log = r.same_log },
        )
