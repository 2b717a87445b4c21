-- ===== src/Concurrency/Handlers.antt =====
-- pkg/concurrency/transaction_repl.go: the handlers of the commands, which lock an entry before they read
-- or change it. A handler answers `none` while its call of Lock waits for another client.
use recovery_stencil.Prelude.{
  ℕ, List, [], ◌∷◌, Option, none, some, ◌>>=◌, Result, ok, err, not, if◌then◌else◌,
}
use recovery_stencil.Prelude.Int.{ℤ}
use recovery_stencil.Repl.{String, ◌==◌, fields}
use recovery_stencil.Text.{codes, atoi}
use recovery_stencil.Errors.{Error, message, wrapped, lock_error}
use recovery_stencil.Database.{Index, Files, Database, get_table}
use recovery_stencil.Database.Handlers as Database
use recovery_stencil.Database.Handlers.{
  bad_number, wrap, usage_find, usage_insert, usage_update, usage_delete, usage_select,
}
use recovery_stencil.Concurrency.Resource.{Resource, LockType, r_lock, w_lock}
use recovery_stencil.Concurrency.Manager.{
  TransactionManager, TmError, LockOutcome, refused, already_held, waits, request, acquire, begin,
  commit,
}

abbrev pub usage_transaction : Error
usage_transaction = message (codes "usage: transaction <begin|commit>")

abbrev pub usage_lock : Error
usage_lock = message (codes "usage: lock <table> <key>")

-- Lock from its call to its return; none while it waits
unfoldable pub locked :
    ℕ
    → Resource
    → LockType
    → TransactionManager × LockOutcome
    → Option (TransactionManager × Option Error)
unfolding acquire
locked client r t (tm, refused e) = some (tm, some (lock_error e))
locked client r t (tm, already_held) = some (tm, none)
locked client r t (tm, waits others) = do tm' ← acquire tm client r t others; some (tm', none)

unfoldable pub lock :
    TransactionManager → ℕ → Resource → LockType → Option (TransactionManager × Option Error)
unfolding request
lock tm client r t = locked client r t (request tm client r t)

-- Begin and Commit for a caller that reads only their errors
unfoldable pub begin_now : TransactionManager → ℕ → TransactionManager × Option Error
unfolding begin
begin_now tm client = elim (begin tm client) [
  | ok tm' ↦ (tm', none)
  | err e ↦ (tm, some (lock_error e))
]

abbrev pub as_error : Option TmError → Option Error
as_error none = none
as_error (some e) = some (lock_error e)

unfoldable pub commit_now : TransactionManager → ℕ → TransactionManager × Option Error
unfolding commit
commit_now tm client = let (tm', e) = commit tm client in (tm', as_error e)

unfoldable pub transaction_args :
    TransactionManager → List String → ℕ → TransactionManager × Option Error
unfolding begin_now commit_now
transaction_args tm (_ ∷ action ∷ []) client =
    if action == codes "begin"
    then begin_now tm client
    else if action == codes "commit"
    then commit_now tm client
    else (tm, some usage_transaction)
transaction_args tm _ client = (tm, some usage_transaction)

unfoldable pub handle_transaction :
    TransactionManager → String → ℕ → TransactionManager × Option Error
unfolding fields transaction_args
handle_transaction tm payload client = transaction_args tm (fields payload) client

module _ {F T : Type 0} (index : Index F T) (os : Files F T) where
  unfoldable pub handle_create_table : Database F T → String → Database F T × Result Error String
  unfolding Database.handle_create_table
  handle_create_table db payload = Database.handle_create_table index os db payload

  -- the lock on an entry of a table, and what follows it when there was no error
  unfoldable pub with_lock :
      {A : Type 0}
      → TransactionManager
      → ℕ
      → ℤ
      → LockType
      → (Error → A)
      → (Database F T → Database F T × A)
      → Database F T × Result Error T
      → Option (Database F T × TransactionManager × A)
  unfolding lock
  with_lock tm client key t failed run (db, err e) = some (db, tm, failed e)
  with_lock tm client key t failed run (db, ok table) = do
    r ← lock tm client (record { table_name = index.get_name table; key = key }) t
    elim r.1 [
      | some e ↦ some (db, r.0, failed e)
      | none ↦ (let (db', a) = run db in some (db', r.0, a))
    ]

  abbrev pub find_failed : Error → Result Error String
  find_failed e = err (wrapped (codes "find") e)

  abbrev pub find_answer : Result Error String → Result Error String
  find_answer (ok output) = ok output
  find_answer (err e) = find_failed e

  -- the handler of the database, its error under the prefix a second time
  unfoldable pub run_find : String → Database F T → Database F T × Result Error String
  unfolding Database.handle_find
  run_find payload db =
      let (db', output) = Database.handle_find index os db payload in (db', find_answer output)

  unfoldable pub find_args :
      Database F T
      → TransactionManager
      → String
      → List String
      → ℕ
      → Option (Database F T × TransactionManager × Result Error String)
  unfolding atoi get_table
  find_args db tm payload (_ ∷ k ∷ from ∷ name ∷ []) client =
      if not (from == codes "from") then some (db, tm, err usage_find) else (elim (atoi k) [
        | err e ↦ some (db, tm, err (bad_number (codes "find") e k))
        | ok key ↦
            with_lock tm client key r_lock find_failed (run_find payload) (get_table os db name)
      ])
  find_args db tm payload _ client = some (db, tm, err usage_find)

  unfoldable pub handle_find :
      Database F T
      → TransactionManager
      → String
      → ℕ
      → Option (Database F T × TransactionManager × Result Error String)
  unfolding fields find_args
  handle_find db tm payload client = find_args db tm payload (fields payload) client

  abbrev pub failed : String → Error → Option Error
  failed prefix e = some (wrapped prefix e)

  unfoldable pub run_insert : String → Database F T → Database F T × Option Error
  unfolding Database.handle_insert
  run_insert payload db =
      let (db', e) = Database.handle_insert index os db payload in (db', wrap (codes "insert") e)

  unfoldable pub insert_args :
      Database F T
      → TransactionManager
      → String
      → List String
      → ℕ
      → Option (Database F T × TransactionManager × Option Error)
  unfolding atoi get_table
  insert_args db tm payload (_ ∷ k ∷ v ∷ into ∷ name ∷ []) client =
      if not (into == codes "into") then some (db, tm, some usage_insert) else (elim (atoi k) [
        | err e ↦ some (db, tm, some (bad_number (codes "insert") e k))
        | ok key ↦
            with_lock tm client key w_lock (failed (codes "insert")) (run_insert payload)
              (get_table os db name)
      ])
  insert_args db tm payload _ client = some (db, tm, some usage_insert)

  unfoldable pub handle_insert :
      Database F T
      → TransactionManager
      → String
      → ℕ
      → Option (Database F T × TransactionManager × Option Error)
  unfolding fields insert_args
  handle_insert db tm payload client = insert_args db tm payload (fields payload) client

  unfoldable pub run_update : String → Database F T → Database F T × Option Error
  unfolding Database.handle_update
  run_update payload db =
      let (db', e) = Database.handle_update index os db payload in (db', wrap (codes "update") e)

  unfoldable pub update_args :
      Database F T
      → TransactionManager
      → String
      → List String
      → ℕ
      → Option (Database F T × TransactionManager × Option Error)
  unfolding atoi get_table
  update_args db tm payload (_ ∷ name ∷ k ∷ v ∷ []) client = elim (atoi k) [
    | err e ↦ some (db, tm, some (bad_number (codes "update") e k))
    | ok key ↦
        with_lock tm client key w_lock (failed (codes "update")) (run_update payload)
          (get_table os db name)
  ]
  update_args db tm payload _ client = some (db, tm, some usage_update)

  unfoldable pub handle_update :
      Database F T
      → TransactionManager
      → String
      → ℕ
      → Option (Database F T × TransactionManager × Option Error)
  unfolding fields update_args
  handle_update db tm payload client = update_args db tm payload (fields payload) client

  unfoldable pub run_delete : String → Database F T → Database F T × Option Error
  unfolding Database.handle_delete
  run_delete payload db =
      let (db', e) = Database.handle_delete index os db payload in (db', wrap (codes "delete") e)

  unfoldable pub delete_args :
      Database F T
      → TransactionManager
      → String
      → List String
      → ℕ
      → Option (Database F T × TransactionManager × Option Error)
  unfolding atoi get_table
  delete_args db tm payload (_ ∷ k ∷ from ∷ name ∷ []) client =
      if not (from == codes "from") then some (db, tm, some usage_delete) else (elim (atoi k) [
        | err e ↦ some (db, tm, some (bad_number (codes "delete") e k))
        | ok key ↦
            with_lock tm client key w_lock (failed (codes "delete")) (run_delete payload)
              (get_table os db name)
      ])
  delete_args db tm payload _ client = some (db, tm, some usage_delete)

  unfoldable pub handle_delete :
      Database F T
      → TransactionManager
      → String
      → ℕ
      → Option (Database F T × TransactionManager × Option Error)
  unfolding fields delete_args
  handle_delete db tm payload client = delete_args db tm payload (fields payload) client

  abbrev pub select_answer : Result Error String → Result Error String
  select_answer (ok output) = ok output
  select_answer (err e) = err (wrapped (codes "select") e)

  unfoldable pub select_args :
      Database F T → String → List String → Database F T × Result Error String
  unfolding Database.handle_select
  select_args db payload (_ ∷ from ∷ name ∷ []) =
      if not (from == codes "from")
      then (db, err usage_select)
      else let (db', output) = Database.handle_select index os db payload in
        (db', select_answer output)
  select_args db payload _ = (db, err usage_select)

  unfoldable pub handle_select : Database F T → String → Database F T × Result Error String
  unfolding fields select_args
  handle_select db payload = select_args db payload (fields payload)

  abbrev pub lock_run : Database F T → Database F T × Option Error
  lock_run db = (db, none)

  unfoldable pub lock_args :
      Database F T
      → TransactionManager
      → List String
      → ℕ
      → Option (Database F T × TransactionManager × Option Error)
  unfolding atoi get_table
  lock_args db tm (_ ∷ name ∷ k ∷ []) client =
      let (db', table) = get_table os db name in
      elim table [
        | err e ↦ some (db', tm, failed (codes "lock") e)
        | ok t ↦ elim (atoi k) [
          | err e ↦ some (db', tm, some (bad_number (codes "lock") e k))
          | ok key ↦ with_lock tm client key w_lock (failed (codes "lock")) lock_run (db', ok t)
        ]
      ]
  lock_args db tm _ client = some (db, tm, some usage_lock)

  unfoldable pub handle_lock :
      Database F T
      → TransactionManager
      → String
      → ℕ
      → Option (Database F T × TransactionManager × Option Error)
  unfolding fields lock_args
  handle_lock db tm payload client = lock_args db tm (fields payload) client

  unfoldable pub handle_pretty : Database F T → String → Database F T × Result Error String
  unfolding Database.handle_pretty
  handle_pretty db payload = Database.handle_pretty index os db payload
