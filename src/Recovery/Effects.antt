-- ===== src/Recovery/Effects.antt =====
-- pkg/recovery/recovery_repl.go: what the handlers do for a client that already holds the write lock on the
-- entry, and what Edit does to the stack of the client.
use recovery_stencil.Prelude.{ℕ, List, [], ◌∷◌, ◌++◌, Option, none, some, ok, ◌≡◌, refl, arith}
use recovery_stencil.Prelude.Int.{ℤ, pos}
use recovery_stencil.Entry.{Entry}
use recovery_stencil.Repl.{String, lookup}
use recovery_stencil.Database.{Index, Files, put_table}
use recovery_stencil.Database.Values.{value_at}
use recovery_stencil.Database.Effects.{
  InsertWords, UpdateWords, DeleteWords, get_table-lookup, succeeds-value_at,
}
use recovery_stencil.Concurrency.Effects.{
  entry_of, handle_insert-lock, handle_update-lock, handle_delete-lock,
}
use recovery_stencil.Concurrency.Resource.{w_lock}
use recovery_stencil.Concurrency.Manager.{TransactionManager}
use recovery_stencil.Concurrency.Handlers.{lock}
use recovery_stencil.Recovery.{Action, insert_action, update_action, delete_action, EditLog}
use recovery_stencil.Recovery.Manager.{
  RecoveryManager, Server, stack_of, set_stack, edit, flush_log,
}
use recovery_stencil.Recovery.Handlers.{
  handle_insert, insert_args, insert_in, handle_update, update_args, update_found, handle_delete,
  delete_args, delete_found, finish,
}

pub stack_of-set_stack :
    (client : ℕ) (stack : List EditLog) (es : List (ℕ × List EditLog))
    → stack_of client (set_stack client stack es) ≡ stack
unfolding stack_of set_stack
stack_of-set_stack client stack [] = ground arith
stack_of-set_stack client stack (e ∷ es) = ground (arith, stack_of-set_stack client stack es)

module _ {F T : Type 0} (index : Index F T) where
  abbrev pub edit_of : ℕ → T → Action → ℤ → ℤ → ℤ → EditLog
  edit_of client tbl action key oldval newval = record {
    id = client;
    tablename = index.get_name tbl;
    action = action;
    key = key;
    oldval = oldval;
    newval = newval;
  }

module _ {F T : Type 0} (index : Index F T) (os : Files F T) (uuid_string : ℕ → String) where
  -- Edit pushes its log on the stack of the client.
  pub stack_of-edit :
      (rm : RecoveryManager) (client : ℕ) (tbl : T) (action : Action) (key oldval newval : ℤ)
      → stack_of client (edit index os uuid_string rm client tbl action key oldval newval).tx_stack
        ≡ stack_of client rm.tx_stack ++ edit_of index client tbl action key oldval newval ∷ []
  unfolding edit flush_log
  stack_of-edit rm client tbl action key oldval newval = stack_of-set_stack client _ rm.tx_stack

module _ {F T : Type 0} (index : Index F T) (os : Files F T) (uuid_string : ℕ → String)
    (rb : Server F T → ℕ → Option (Server F T)) where
  pub handle_insert-edit :
      (w : Server F T) (client : ℕ) (payload name : String) (key value : ℤ) (t : T)
      (tm : TransactionManager)
      → InsertWords payload name key value
      → lookup name w.db.tables ≡ some t
      → index.get_name t ≡ name
      → lock w.tm client (entry_of name key) w_lock ≡ some (tm, none)
      → value_at index t key ≡ none
      → (index.insert t key value).1 ≡ none
      → handle_insert index os uuid_string rb w payload client
        ≡ some (
          record {
            db = put_table w.db name (index.insert t key value).0;
            tm = tm;
            rm = edit index os uuid_string w.rm client t insert_action key (pos 0) value;
          },
          none,
        )
  unfolding handle_insert insert_args insert_in finish
  handle_insert-edit w client payload name key value t tm ws found named granted absent fine =
      rw
        (
          ws.words,
          ws.read_key,
          ws.read_value,
          get_table-lookup index os w.db name t found,
          succeeds-value_at index os t key absent,
          handle_insert-lock index os w.db w.tm tm client payload name key value t ws found named
              granted absent fine,
        )
        refl

  pub handle_update-edit :
      (w : Server F T) (client : ℕ) (payload name : String) (key value : ℤ) (t : T) (old : Entry)
      (tm : TransactionManager)
      → UpdateWords payload name key value
      → lookup name w.db.tables ≡ some t
      → index.get_name t ≡ name
      → lock w.tm client (entry_of name key) w_lock ≡ some (tm, none)
      → index.find t key ≡ ok old
      → (index.update t key value).1 ≡ none
      → handle_update index os uuid_string rb w payload client
        ≡ some (
          record {
            db = put_table w.db name (index.update t key value).0;
            tm = tm;
            rm = edit index os uuid_string w.rm client t update_action key old.value value;
          },
          none,
        )
  unfolding handle_update finish update_found
  handle_update-edit w client payload name key value t old tm ws found named granted present fine =
      rw
        (
          ws.words,
          update_args,
          ws.read_key,
          ws.read_value,
          get_table-lookup index os w.db name t found,
          present,
          handle_update-lock index os w.db w.tm tm client payload name key value t ws found named
              granted fine,
        )
        refl

  pub handle_delete-edit :
      (w : Server F T) (client : ℕ) (payload name : String) (key : ℤ) (t : T) (old : Entry)
      (tm : TransactionManager)
      → DeleteWords payload name key
      → lookup name w.db.tables ≡ some t
      → index.get_name t ≡ name
      → lock w.tm client (entry_of name key) w_lock ≡ some (tm, none)
      → index.find t key ≡ ok old
      → (index.delete t key).1 ≡ none
      → handle_delete index os uuid_string rb w payload client
        ≡ some (
          record {
            db = put_table w.db name (index.delete t key).0;
            tm = tm;
            rm = edit index os uuid_string w.rm client t delete_action key old.value (pos 0);
          },
          none,
        )
  unfolding handle_delete delete_args finish delete_found
  handle_delete-edit w client payload name key t old tm ws found named granted present fine =
      rw
        (
          ws.words,
          ws.read_key,
          get_table-lookup index os w.db name t found,
          present,
          handle_delete-lock index os w.db w.tm tm client payload name key t ws found named granted
              fine,
        )
        refl
