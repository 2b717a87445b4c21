-- ===== src/Recovery/Restart/Undo.antt =====
-- The function undo of pkg/recovery/recovery_manager.go, against calls of the table's index.
use recovery_stencil.Prelude.{ℕ, true, [], ◌∷◌, ◌++◌, Option, none, some, ok, err, ◌≡◌, refl, ap}
use recovery_stencil.Prelude.Int.{ℤ, pos, IsInt64}
use recovery_stencil.Entry.{Entry}
use recovery_stencil.Repl.{String, lookup}
use recovery_stencil.Text.Words.{is_word}
use recovery_stencil.Errors.{Error}
use recovery_stencil.Database.{Index, Files, put_table}
use recovery_stencil.Database.Values.{value_of}
use recovery_stencil.Concurrency.Effects.{HoldsLock, lock-HoldsLock}
use recovery_stencil.Recovery.{Action, insert_action, update_action, delete_action, EditLog}
use recovery_stencil.Recovery.Manager.{Server, stack_of, edit}
use recovery_stencil.Recovery.Effects.{
  edit_of, stack_of-edit, handle_insert-edit, handle_update-edit, handle_delete-edit,
}
use recovery_stencil.Recovery.Restart.Payloads.{
  insert_payload-words, update_payload-words, delete_payload-words,
}
use recovery_stencil.Recovery.Restart.{undo_edit}

-- an edit of the client with values of int64 and a table name of one word
pub record IsEditOf (client : ℕ) (el : EditLog) : Type 0 where
  pub by : el.id ≡ client
  pub key_range : IsInt64 el.key
  pub value_range : IsInt64 el.oldval
  pub name_word : is_word el.tablename ≡ true

module _ {F T : Type 0} (index : Index F T) where
  -- the call of the index that takes an edit back, on a table that holds the key as the edit left it
  pub data Undoes (el : EditLog) : Action → T → T → Type 0 where
    removes :
        {t t' : T} (old : Entry)
        → index.find t el.key ≡ ok old
        → index.delete t el.key ≡ (t', none)
        → Undoes el insert_action t t'
    resets :
        {t t' : T} (old : Entry)
        → index.find t el.key ≡ ok old
        → index.update t el.key el.oldval ≡ (t', none)
        → Undoes el update_action t t'
    puts_back :
        {t t' : T} (e : Error)
        → index.find t el.key ≡ err e
        → index.insert t el.key el.oldval ≡ (t', none)
        → Undoes el delete_action t t'

  -- a server after an edit `x` by the client that left the table t' under a name
  pub record Edited (client : ℕ) (x : EditLog) (name : String) (t' : T) (w w' : Server F T)
      : Type 0 where
    pub tables : w'.db ≡ put_table w.db name t'
    pub pushed : stack_of client w'.rm.tx_stack ≡ stack_of client w.rm.tx_stack ++ x ∷ []
    pub same_tm : w'.tm ≡ w.tm

  module _ (os : Files F T) (uuid_string : ℕ → String)
      (rb : Server F T → ℕ → Option (Server F T)) where
    -- the server that a handler leaves, with the table that the index returned
    edit-Edited :
        (w : Server F T) (client : ℕ) (name : String) (t t' : T) (r : T × Option Error)
        (action : Action) (key oldval newval : ℤ)
        → r ≡ (t', none)
        → Edited client (edit_of index client t action key oldval newval) name t' w (record {
          db = put_table w.db name r.0;
          tm = w.tm;
          rm = edit index os uuid_string w.rm client t action key oldval newval;
        })
    edit-Edited w client name t t' r action key oldval newval e = record {
      tables = ap (λ (q : T × Option Error). put_table w.db name q.0) e;
      pushed = stack_of-edit index os uuid_string w.rm client t action key oldval newval;
      same_tm = refl;
    }

    no_error : (r : T × Option Error) (t' : T) → r ≡ (t', none) → r.1 ≡ none
    no_error r t' e = ap (λ (q : T × Option Error). q.1) e

    pub undo_edit-Edited :
        (w : Server F T) (el : EditLog) (action : Action) (t t' : T)
        → IsEditOf el.id el
        → lookup el.tablename w.db.tables ≡ some t
        → index.get_name t ≡ el.tablename
        → HoldsLock w.tm el.id el.tablename el.key
        → Undoes el action t t'
        → (w' : Server F T) × (x : EditLog) × (undo_edit index os uuid_string rb action w el
            ≡ some (w', none))
          × Edited el.id x el.tablename t' w w'
    unfolding undo_edit
    undo_edit-Edited w el _ t t' is found named holds (removes old find run) = (
      _,
      _,
      handle_delete-edit index os uuid_string rb w el.id _ el.tablename el.key t old w.tm
          (delete_payload-words el.key el.tablename is.key_range is.name_word) found named
          (lock-HoldsLock w.tm el.id el.tablename el.key holds) find (no_error _ t' run),
      edit-Edited w el.id el.tablename t t' _ delete_action el.key old.value (pos 0) run,
    )
    undo_edit-Edited w el _ t t' is found named holds (resets old find run) = (
      _,
      _,
      handle_update-edit index os uuid_string rb w el.id _ el.tablename el.key el.oldval t old w.tm
          (update_payload-words el.tablename el.key el.oldval is.key_range is.value_range
            is.name_word)
          found named (lock-HoldsLock w.tm el.id el.tablename el.key holds) find
          (no_error _ t' run),
      edit-Edited w el.id el.tablename t t' _ update_action el.key old.value el.oldval run,
    )
    undo_edit-Edited w el _ t t' is found named holds (puts_back e find run) = (
      _,
      _,
      handle_insert-edit index os uuid_string rb w el.id _ el.tablename el.key el.oldval t w.tm
          (insert_payload-words el.key el.oldval el.tablename is.key_range is.value_range
            is.name_word)
          found named (lock-HoldsLock w.tm el.id el.tablename el.key holds) (ap value_of find)
          (no_error _ t' run),
      edit-Edited w el.id el.tablename t t' _ insert_action el.key (pos 0) el.oldval run,
    )
