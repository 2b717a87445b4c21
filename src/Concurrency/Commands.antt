-- ===== src/Concurrency/Commands.antt =====
-- pkg/concurrency/transaction_repl.go: the table of commands.
use recovery_stencil.Prelude.{ℕ, Option, some, ◌>>=◌}
use recovery_stencil.Repl.{String, Repl, new_repl, add_command}
use recovery_stencil.Text.{codes}
use recovery_stencil.Errors.{Error, command, silent, silent_run}
use recovery_stencil.Database.{Index, Files, Database}
use recovery_stencil.Concurrency.Manager.{TransactionManager}
use recovery_stencil.Concurrency.Handlers.{
  handle_create_table, handle_find, handle_insert, handle_update, handle_delete, handle_select,
  handle_pretty, handle_transaction, handle_lock,
}

module _ {F T : Type 0} (index : Index F T) (os : Files F T) (error_text : Error → String) where
  abbrev pub Session : Type 0
  Session = Database F T × TransactionManager

  -- a handler that works on the tables only
  abbrev pub beside : {A : Type 0} → TransactionManager → Database F T × A → Session × A
  beside tm (db, a) = ((db, tm), a)

  abbrev pub session :
      {A : Type 0} → Option (Database F T × TransactionManager × A) → Option (Session × A)
  session r = do (db, tm, a) ← r; some ((db, tm), a)

  abbrev pub transaction_command : Session → String → ℕ → Session × Option Error
  transaction_command s payload client =
      let (tm, e) = handle_transaction s.1 payload client in ((s.0, tm), e)

  unfoldable pub transaction_repl : Repl (Option Session)
  transaction_repl =
      (add_command
        (add_command
          (add_command
            (add_command
              (add_command
                (add_command
                  (add_command
                    (add_command
                      (add_command new_repl (codes "create")
                        (command error_text (λ s payload client.
                          some (beside s.1 (handle_create_table index os s.0 payload))))
                        (codes "Create a table. usage: create table <table>"))
                      (codes "find")
                      (command error_text
                        (λ s payload client. session (handle_find index os s.0 s.1 payload client)))
                      (codes "Find an element. usage: find <key> from <table>"))
                    (codes "insert")
                    (command error_text (λ s payload client.
                      silent_run (session (handle_insert index os s.0 s.1 payload client))))
                    (codes "Insert an element. usage: insert <key> <value> into <table>"))
                  (codes "update")
                  (command error_text (λ s payload client.
                    silent_run (session (handle_update index os s.0 s.1 payload client))))
                  (codes "Update en element. usage: update <table> <key> <value>"))
                (codes "delete")
                (command error_text (λ s payload client.
                  silent_run (session (handle_delete index os s.0 s.1 payload client))))
                (codes "Delete an element. usage: delete <key> from <table>"))
              (codes "select")
              (command error_text
                (λ s payload client. some (beside s.1 (handle_select index os s.0 payload))))
              (codes "Select elements from a table. usage: select from <table>"))
            (codes "transaction")
            (command error_text
              (λ s payload client. some (silent (transaction_command s payload client))))
            (codes "Handle transactions. usage: transaction <begin|commit>"))
          (codes "lock")
          (command error_text (λ s payload client.
            silent_run (session (handle_lock index os s.0 s.1 payload client))))
          (codes "Grabs a write lock on a resource. usage: lock <table> <key>"))
        (codes "pretty")
        (command error_text
          (λ s payload client. some (beside s.1 (handle_pretty index os s.0 payload))))
        (codes "Print out the internal data representation. usage: pretty"))
