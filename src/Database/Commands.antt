-- ===== src/Database/Commands.antt =====
-- pkg/database/db_repl.go: the table of commands.
use recovery_stencil.Prelude.{Option, some}
use recovery_stencil.Repl.{String, Repl, new_repl, add_command}
use recovery_stencil.Text.{codes}
use recovery_stencil.Errors.{Error, command, silent}
use recovery_stencil.Database.{Index, Files, Database}
use recovery_stencil.Database.Handlers.{
  handle_create_table, handle_find, handle_insert, handle_update, handle_delete, handle_select,
  handle_pretty,
}

module _ {F T : Type 0} (index : Index F T) (os : Files F T) (error_text : Error → String) where
  unfoldable pub database_repl : Repl (Option (Database F T))
  database_repl =
      (add_command
        (add_command
          (add_command
            (add_command
              (add_command
                (add_command
                  (add_command new_repl (codes "create")
                    (command error_text
                      (λ db payload client. some (handle_create_table index os db payload)))
                    (codes "Create a table. usage: create <btree|hash> table <table>"))
                  (codes "find")
                  (command error_text (λ db payload client. some (handle_find index os db payload)))
                  (codes "Find an element. usage: find <key> from <table>"))
                (codes "insert")
                (command error_text
                  (λ db payload client. some (silent (handle_insert index os db payload))))
                (codes "Insert an element. usage: insert <key> <value> into <table>"))
              (codes "update")
              (command error_text
                (λ db payload client. some (silent (handle_update index os db payload))))
              (codes "Update en element. usage: update <table> <key> <value>"))
            (codes "delete")
            (command error_text
              (λ db payload client. some (silent (handle_delete index os db payload))))
            (codes "Delete an element. usage: delete <key> from <table>"))
          (codes "select")
          (command error_text (λ db payload client. some (handle_select index os db payload)))
          (codes "Select elements from a table. usage: select from <table>"))
        (codes "pretty")
        (command error_text (λ db payload client. some (handle_pretty index os db payload)))
        (codes "Print out the internal data representation. usage: pretty"))
