-- ===== src/Concurrency/Effects.antt =====
-- pkg/concurrency/transaction_repl.go: what the handlers do for a client that already holds the write lock on
-- the entry.
use recovery_stencil.Prelude.{ℕ, none, some, ok, ◌≡◌, refl}
use recovery_stencil.Prelude.Int.{ℤ}
use recovery_stencil.Text.{codes}
use recovery_stencil.Repl.{String, lookup}
use recovery_stencil.Database.{Index, Files, Database, put_table}
use recovery_stencil.Database.Values.{value_at}
use recovery_stencil.Database.Effects.{
  InsertWords, UpdateWords, DeleteWords, get_table-lookup, handle_insert-put_table,
  handle_update-put_table, handle_delete-put_table,
}
use recovery_stencil.Concurrency.Resource.{Resource, LockType, w_lock}
use recovery_stencil.Concurrency.Resource as Resource
use recovery_stencil.Concurrency.Manager.{
  Transaction, TransactionManager, find_transaction, request,
}
use recovery_stencil.Concurrency.Handlers.{
  lock, locked, with_lock, failed, run_insert, run_update, run_delete, handle_insert, insert_args,
  handle_update, update_args, handle_delete, delete_args,
}

abbrev pub entry_of : String → ℤ → Resource
entry_of name key = record { table_name = name; key = key }

-- the client has a transaction with a write lock on the entry
pub record HoldsLock (tm : TransactionManager) (client : ℕ) (name : String) (key : ℤ) : Type 0 where
  pub transaction : Transaction
  pub running : find_transaction client tm.transactions ≡ some transaction
  pub held : Resource.lookup (entry_of name key) transaction.locked_resources ≡ some w_lock

-- Lock on an entry that the client holds for writing returns at once and changes nothing.
pub lock-HoldsLock :
    (tm : TransactionManager) (client : ℕ) (name : String) (key : ℤ)
    → HoldsLock tm client name key
    → lock tm client (entry_of name key) w_lock ≡ some (tm, none)
unfolding lock locked request
lock-HoldsLock tm client name key h = rw (h.running, request) (rw h.held refl)

module _ {F T : Type 0} (index : Index F T) (os : Files F T) where
  -- the words of the payload are accepted, and its table is open
  pub handle_insert-with_lock :
      (db : Database F T) (tm : TransactionManager) (client : ℕ) (payload name : String)
      (key value : ℤ) (t : T)
      → InsertWords payload name key value
      → lookup name db.tables ≡ some t
      → handle_insert index os db tm payload client
        ≡ with_lock index os tm client key w_lock
            (failed index os (codes "insert"))
            (run_insert index os payload)
            (db, ok t)
  unfolding handle_insert insert_args
  handle_insert-with_lock db tm client payload name key value t w found =
      rw (w.words, w.read_key, get_table-lookup index os db name t found) refl

  pub handle_update-with_lock :
      (db : Database F T) (tm : TransactionManager) (client : ℕ) (payload name : String)
      (key value : ℤ) (t : T)
      → UpdateWords payload name key value
      → lookup name db.tables ≡ some t
      → handle_update index os db tm payload client
        ≡ with_lock index os tm client key w_lock
            (failed index os (codes "update"))
            (run_update index os payload)
            (db, ok t)
  unfolding handle_update
  handle_update-with_lock db tm client payload name key value t w found =
      rw (w.words, update_args, w.read_key, get_table-lookup index os db name t found) refl

  pub handle_delete-with_lock :
      (db : Database F T) (tm : TransactionManager) (client : ℕ) (payload name : String) (key : ℤ)
      (t : T)
      → DeleteWords payload name key
      → lookup name db.tables ≡ some t
      → handle_delete index os db tm payload client
        ≡ with_lock index os tm client key w_lock
            (failed index os (codes "delete"))
            (run_delete index os payload)
            (db, ok t)
  unfolding handle_delete delete_args
  handle_delete-with_lock db tm client payload name key t w found =
      rw (w.words, w.read_key, get_table-lookup index os db name t found) refl

  pub handle_insert-lock :
      (db : Database F T) (tm tm' : TransactionManager) (client : ℕ) (payload name : String)
      (key value : ℤ) (t : T)
      → InsertWords payload name key value
      → lookup name db.tables ≡ some t
      → index.get_name t ≡ name
      → lock tm client (entry_of name key) w_lock ≡ some (tm', none)
      → value_at index t key ≡ none
      → (index.insert t key value).1 ≡ none
      → handle_insert index os db tm payload client
        ≡ some (put_table db name (index.insert t key value).0, tm', none)
  unfolding with_lock run_insert
  handle_insert-lock db tm tm' client payload name key value t w found named granted absent fine =
      rw
        (
          handle_insert-with_lock db tm client payload name key value t w found,
          named,
          granted,
          handle_insert-put_table index os db payload name key value t w found absent fine,
        )
        refl

  pub handle_update-lock :
      (db : Database F T) (tm tm' : TransactionManager) (client : ℕ) (payload name : String)
      (key value : ℤ) (t : T)
      → UpdateWords payload name key value
      → lookup name db.tables ≡ some t
      → index.get_name t ≡ name
      → lock tm client (entry_of name key) w_lock ≡ some (tm', none)
      → (index.update t key value).1 ≡ none
      → handle_update index os db tm payload client
        ≡ some (put_table db name (index.update t key value).0, tm', none)
  unfolding with_lock run_update
  handle_update-lock db tm tm' client payload name key value t w found named granted fine =
      rw
        (
          handle_update-with_lock db tm client payload name key value t w found,
          named,
          granted,
          handle_update-put_table index os db payload name key value t w found fine,
        )
        refl

  pub handle_delete-lock :
      (db : Database F T) (tm tm' : TransactionManager) (client : ℕ) (payload name : String)
      (key : ℤ) (t : T)
      → DeleteWords payload name key
      → lookup name db.tables ≡ some t
      → index.get_name t ≡ name
      → lock tm client (entry_of name key) w_lock ≡ some (tm', none)
      → (index.delete t key).1 ≡ none
      → handle_delete index os db tm payload client
        ≡ some (put_table db name (index.delete t key).0, tm', none)
  unfolding with_lock run_delete
  handle_delete-lock db tm tm' client payload name key t w found named granted fine =
      rw
        (
          handle_delete-with_lock db tm client payload name key t w found,
          named,
          granted,
          handle_delete-put_table index os db payload name key t w found fine,
        )
        refl
