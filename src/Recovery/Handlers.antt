-- ===== src/Recovery/Handlers.antt =====
-- pkg/recovery/recovery_repl.go: the handlers of the commands, which write the log before they act. The
-- argument `rollback` is Rollback of the recovery manager, whose error is always nil. A handler answers
-- `none` where the call does not return: it waits for a lock, panics, or Rollback does not return.
use recovery_stencil.Prelude.{
  ℕ, ◌-◌, List, [], ◌∷◌, Option, none, some, Result, ok, err, not, ◌>>=◌, if◌then◌else◌, length,
  take,
}
use recovery_stencil.Prelude.Int.{ℤ, pos}
use recovery_stencil.Entry.{Entry}
use recovery_stencil.Repl.{String, ◌==◌, fields}
use recovery_stencil.Text.{codes, atoi}
use recovery_stencil.Errors.{Error, message, wrapped}
use recovery_stencil.Database.{Index, Files, Database, get_table}
use recovery_stencil.Database.Handlers as Database
use recovery_stencil.Database.Handlers.{
  bad_number, usage_create, usage_insert, usage_update, usage_delete, usage_select, succeeds,
}
use recovery_stencil.Concurrency.Manager.{TransactionManager, get_transaction}
use recovery_stencil.Concurrency.Handlers as Concurrency
use recovery_stencil.Concurrency.Handlers.{begin_now, commit_now, usage_transaction}
use recovery_stencil.Recovery.{insert_action, update_action, delete_action}
use recovery_stencil.Recovery.Manager.{
  RecoveryManager, Server, stack_of, set_stack, table, edit, start, commit, checkpoint,
}

abbrev pub usage_checkpoint : Error
usage_checkpoint = message (codes "usage: checkpoint")

abbrev pub usage_abort : Error
usage_abort = message (codes "usage: abort")

abbrev pub usage_crash : Error
usage_crash = message (codes "usage: crash")

-- rm.txStack[clientId] without its last two logs
unfoldable pub pop_two : RecoveryManager → ℕ → RecoveryManager
unfolding stack_of set_stack
pop_two rm client =
    let stack = stack_of client rm.tx_stack in
    record rm { tx_stack = set_stack client (take (length stack - 2) stack) rm.tx_stack }

module _ {F T : Type 0} (index : Index F T) (os : Files F T) (uuid_string : ℕ → String) where
  unfoldable pub logged_create :
      Server F T → String → RecoveryManager × Option Error → Server F T × Result Error String
  unfolding Database.handle_create_table
  logged_create w payload (rm, some e) = (record w { rm = rm }, err e)
  logged_create w payload (rm, none) =
      let (db, output) = Database.handle_create_table index os w.db payload in
      (record w { rm = rm; db = db }, output)

  unfoldable pub create_args : Server F T → String → List String → Server F T × Result Error String
  unfolding table
  create_args w payload (_ ∷ kind ∷ tbl ∷ name ∷ []) =
      let logged = logged_create w payload (table index os uuid_string w.rm kind name) in
      if not (tbl == codes "table")
      then (w, err usage_create)
      else if kind == codes "btree"
      then logged
      else if kind == codes "hash"
      then logged
      else (w, err usage_create)
  create_args w payload _ = (w, err usage_create)

  unfoldable pub handle_create_table : Server F T → String → Server F T × Result Error String
  unfolding fields create_args
  handle_create_table w payload = create_args w payload (fields payload)

  abbrev pub found :
      Server F T
      → Option (Database F T × TransactionManager × Result Error String)
      → Option (Server F T × Result Error String)
  found w none = none
  found w (some (db, tm, output)) = some (record w { db = db; tm = tm }, output)

  unfoldable pub handle_find : Server F T → String → ℕ → Option (Server F T × Result Error String)
  unfolding Concurrency.handle_find
  handle_find w payload client = found w (Concurrency.handle_find index os w.db w.tm payload client)

  unfoldable pub select_args : Server F T → String → List String → Server F T × Result Error String
  unfolding Database.handle_select
  select_args w payload (_ ∷ from ∷ name ∷ []) =
      if not (from == codes "from")
      then (w, err usage_select)
      else let (db, output) = Database.handle_select index os w.db payload in
        (record w { db = db }, output)
  select_args w payload _ = (w, err usage_select)

  unfoldable pub handle_select : Server F T → String → Server F T × Result Error String
  unfolding fields select_args
  handle_select w payload = select_args w payload (fields payload)

  abbrev pub ran :
      Server F T
      → Option (Database F T × TransactionManager × Option Error)
      → Option (Server F T × Option Error)
  ran w none = none
  ran w (some (db, tm, e)) = some (record w { db = db; tm = tm }, e)

  unfoldable pub handle_lock : Server F T → String → ℕ → Option (Server F T × Option Error)
  unfolding Concurrency.handle_lock
  handle_lock w payload client = ran w (Concurrency.handle_lock index os w.db w.tm payload client)

  unfoldable pub handle_checkpoint : Server F T → String → Server F T × Option Error
  unfolding fields checkpoint
  handle_checkpoint w payload = elim (fields payload) [
    | _ ∷ [] ↦ (checkpoint index os uuid_string w, none)
    | _ ↦ (w, some usage_checkpoint)
  ]

  -- the crash ends the process
  unfoldable pub handle_crash : Server F T → String → Option (Server F T × Option Error)
  unfolding fields
  handle_crash w payload = elim (fields payload) [ _ ∷ [] ↦ none | _ ↦ some (w, some usage_crash) ]

  unfoldable pub handle_pretty : Server F T → String → Server F T × Result Error String
  unfolding Database.handle_pretty
  handle_pretty w payload =
      let (db, output) = Database.handle_pretty index os w.db payload in
      (record w { db = db }, output)

module _ {F T : Type 0} (index : Index F T) (os : Files F T) (uuid_string : ℕ → String)
    (rollback : Server F T → ℕ → Option (Server F T)) where
  abbrev pub rolled_back : ℕ → Server F T × Option Error → Option (Server F T × Option Error)
  rolled_back client (w, none) = some (w, none)
  rolled_back client (w, some e) = do w' ← rollback w client; some (w', some e)

  abbrev pub began :
      Server F T → RecoveryManager → TransactionManager × Option Error → Server F T × Option Error
  began w rm (tm, e) = (record w { rm = rm; tm = tm }, e)

  unfoldable pub transaction_args :
      Server F T → List String → ℕ → Option (Server F T × Option Error)
  unfolding start commit begin_now commit_now
  transaction_args w (_ ∷ action ∷ []) client =
      if action == codes "begin"
      then rolled_back client
          (began w (start index os uuid_string w.rm client) (begin_now w.tm client))
      else if action == codes "commit"
      then rolled_back client
          (began w (commit index os uuid_string w.rm client) (commit_now w.tm client))
      else some (w, some usage_transaction)
  transaction_args w _ client = some (w, some usage_transaction)

  unfoldable pub handle_transaction : Server F T → String → ℕ → Option (Server F T × Option Error)
  unfolding fields transaction_args
  handle_transaction w payload client = transaction_args w (fields payload) client

  -- the edit that marks a failed one as a no-op, both popped, and a rollback
  unfoldable pub finish :
      ℕ
      → (RecoveryManager → RecoveryManager)
      → RecoveryManager
      → Database F T × TransactionManager × Option Error
      → Option (Server F T × Option Error)
  unfolding pop_two
  finish client mark rm (db, tm, none) = some (record { db = db; tm = tm; rm = rm }, none)
  finish client mark rm (db, tm, some e) = do
    w ← rollback (record { db = db; tm = tm; rm = pop_two (mark rm) client }) client
    some (w, some e)

  unfoldable pub insert_in :
      Server F T
      → String
      → ℕ
      → ℤ
      → ℤ
      → Database F T × Result Error T
      → Option (Server F T × Option Error)
  unfolding edit Concurrency.handle_insert
  insert_in w payload client key newval (db, err e) =
      some (record w { db = db }, some (wrapped (codes "insert") e))
  insert_in w payload client key newval (db, ok tbl) =
      if succeeds (index.find tbl key)
      then some (record w { db = db }, some (message (codes "insert error: key already exists")))
      else do
        r ← Concurrency.handle_insert index os db w.tm payload client
        finish client
            (λ rm. edit index os uuid_string rm client tbl delete_action key newval (pos 0))
            (edit index os uuid_string w.rm client tbl insert_action key (pos 0) newval) r

  unfoldable pub insert_args :
      Server F T → String → List String → ℕ → Option (Server F T × Option Error)
  unfolding atoi get_table
  insert_args w payload (_ ∷ k ∷ v ∷ into ∷ name ∷ []) client =
      if not (into == codes "into") then some (w, some usage_insert) else (elim (atoi k) [
        | err e ↦ some (w, some (bad_number (codes "insert") e k))
        | ok key ↦ elim (atoi v) [
          | err e ↦ some (w, some (bad_number (codes "insert") e v))
          | ok newval ↦ insert_in w payload client key newval (get_table os w.db name)
        ]
      ])
  insert_args w payload _ client = some (w, some usage_insert)

  unfoldable pub handle_insert : Server F T → String → ℕ → Option (Server F T × Option Error)
  unfolding fields insert_args
  handle_insert w payload client = insert_args w payload (fields payload) client

  unfoldable pub update_found :
      Server F T
      → String
      → ℕ
      → ℤ
      → ℤ
      → Database F T
      → T
      → Result Error Entry
      → Option (Server F T × Option Error)
  unfolding edit Concurrency.handle_update
  update_found w payload client key newval db tbl (err e) =
      some (record w { db = db }, some (message (codes "update error: key doesn't exists")))
  update_found w payload client key newval db tbl (ok old) = do
    r ← Concurrency.handle_update index os db w.tm payload client
    finish client (λ rm. edit index os uuid_string rm client tbl update_action key newval old.value)
        (edit index os uuid_string w.rm client tbl update_action key old.value newval) r

  abbrev pub update_in :
      Server F T
      → String
      → ℕ
      → ℤ
      → ℤ
      → Database F T × Result Error T
      → Option (Server F T × Option Error)
  update_in w payload client key newval (db, err e) =
      some (record w { db = db }, some (wrapped (codes "update") e))
  update_in w payload client key newval (db, ok tbl) =
      update_found w payload client key newval db tbl (index.find tbl key)

  unfoldable pub update_args :
      Server F T → String → List String → ℕ → Option (Server F T × Option Error)
  unfolding atoi get_table
  update_args w payload (_ ∷ name ∷ k ∷ v ∷ []) client = elim (atoi k) [
    | err e ↦ some (w, some (bad_number (codes "update") e k))
    | ok key ↦ elim (atoi v) [
      | err e ↦ some (w, some (bad_number (codes "update") e v))
      | ok newval ↦ update_in w payload client key newval (get_table os w.db name)
    ]
  ]
  update_args w payload _ client = some (w, some usage_update)

  unfoldable pub handle_update : Server F T → String → ℕ → Option (Server F T × Option Error)
  unfolding fields update_args
  handle_update w payload client = update_args w payload (fields payload) client

  unfoldable pub delete_found :
      Server F T
      → String
      → ℕ
      → ℤ
      → Database F T
      → T
      → Result Error Entry
      → Option (Server F T × Option Error)
  unfolding edit Concurrency.handle_delete
  delete_found w payload client key db tbl (err e) =
      some (record w { db = db }, some (message (codes "delete error: key doesn't exists")))
  delete_found w payload client key db tbl (ok old) = do
    r ← Concurrency.handle_delete index os db w.tm payload client
    finish client
        (λ rm. edit index os uuid_string rm client tbl insert_action key (pos 0) old.value)
        (edit index os uuid_string w.rm client tbl delete_action key old.value (pos 0)) r

  abbrev pub delete_in :
      Server F T
      → String
      → ℕ
      → ℤ
      → Database F T × Result Error T
      → Option (Server F T × Option Error)
  delete_in w payload client key (db, err e) =
      some (record w { db = db }, some (wrapped (codes "delete") e))
  delete_in w payload client key (db, ok tbl) =
      delete_found w payload client key db tbl (index.find tbl key)

  unfoldable pub delete_args :
      Server F T → String → List String → ℕ → Option (Server F T × Option Error)
  unfolding atoi get_table
  delete_args w payload (_ ∷ k ∷ from ∷ name ∷ []) client =
      if not (from == codes "from") then some (w, some usage_delete) else (elim (atoi k) [
        | err e ↦ some (w, some (bad_number (codes "delete") e k))
        | ok key ↦ delete_in w payload client key (get_table os w.db name)
      ])
  delete_args w payload _ client = some (w, some usage_delete)

  unfoldable pub handle_delete : Server F T → String → ℕ → Option (Server F T × Option Error)
  unfolding fields delete_args
  handle_delete w payload client = delete_args w payload (fields payload) client

  unfoldable pub handle_abort : Server F T → String → ℕ → Option (Server F T × Option Error)
  unfolding fields get_transaction
  handle_abort w payload client = elim (fields payload) [
    | _ ∷ [] ↦ elim (get_transaction w.tm client) [
      | none ↦ some (w, some (message (codes "no running transaction to abort")))
      | some t ↦ (do w' ← rollback w client; some (w', none))
    ]
    | _ ↦ some (w, some usage_abort)
  ]
