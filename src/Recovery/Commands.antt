-- ===== src/Recovery/Commands.antt =====
-- pkg/recovery/recovery_repl.go: the table of commands. The argument `rollback` is that of the handlers.
use recovery_stencil.Prelude.{ℕ, Option, some}
use recovery_stencil.Repl.{String, Repl, new_repl, add_command}
use recovery_stencil.Text.{codes}
use recovery_stencil.Errors.{Error, command, silent, silent_run}
use recovery_stencil.Database.{Index, Files}
use recovery_stencil.Recovery.Manager.{Server}
use recovery_stencil.Recovery.Handlers.{
  handle_create_table, handle_find, handle_insert, handle_update, handle_delete, handle_select,
  handle_pretty, handle_transaction, handle_lock, handle_checkpoint, handle_abort, handle_crash,
}

module _ {F T : Type 0} (index : Index F T) (os : Files F T) (uuid_string : ℕ → String)
    (rollback : Server F T → ℕ → Option (Server F T)) (error_text : Error → String) where
  unfoldable pub recovery_repl : Repl (Option (Server F T))
  recovery_repl =
      (add_command
        (add_command
          (add_command
            (add_command
              (add_command
                (add_command
                  (add_command
                    (add_command
                      (add_command
                        (add_command
                          (add_command
                            (add_command new_repl (codes "create")
                              (command error_text (λ w payload client.
                                some (handle_create_table index os uuid_string w payload)))
                              (codes "Create a table. usage: create <btree|hash> table <table>"))
                            (codes "find")
                            (command error_text (λ w payload client.
                              handle_find index os uuid_string w payload client))
                            (codes "Find an element. usage: find <key> from <table>"))
                          (codes "insert")
                          (command error_text (λ w payload client.
                            silent_run
                              (handle_insert index os uuid_string rollback w payload client)))
                          (codes "Insert an element. usage: insert <key> <value> into <table>"))
                        (codes "update")
                        (command error_text (λ w payload client.
                          silent_run
                            (handle_update index os uuid_string rollback w payload client)))
                        (codes "Update en element. usage: update <table> <key> <value>"))
                      (codes "delete")
                      (command error_text (λ w payload client.
                        silent_run (handle_delete index os uuid_string rollback w payload client)))
                      (codes "Delete an element. usage: delete <key> from <table>"))
                    (codes "select")
                    (command error_text
                      (λ w payload client. some (handle_select index os uuid_string w payload)))
                    (codes "Select elements from a table. usage: select from <table>"))
                  (codes "transaction")
                  (command error_text (λ w payload client.
                    silent_run (handle_transaction index os uuid_string rollback w payload client)))
                  (codes "Handle transactions. usage: transaction <begin|commit>"))
                (codes "lock")
                (command error_text (λ w payload client.
                  silent_run (handle_lock index os uuid_string w payload client)))
                (codes "Grabs a write lock on a resource. usage: lock <table> <key>"))
              (codes "checkpoint")
              (command error_text (λ w payload client.
                some (silent (handle_checkpoint index os uuid_string w payload))))
              (codes
                "Saves a checkpoint of the current database state and running transactions. usage: checkpoint"))
            (codes "abort")
            (command error_text (λ w payload client.
              silent_run (handle_abort index os uuid_string rollback w payload client)))
            (codes "Simulate an abort of the current transaction. usage: abort"))
          (codes "crash")
          (command error_text
            (λ w payload client. silent_run (handle_crash index os uuid_string w payload)))
          (codes "Crash the database. usage: crash"))
        (codes "pretty")
        (command error_text
          (λ w payload client. some (handle_pretty index os uuid_string w payload)))
        (codes "Print out the internal data representation. usage: pretty"))
