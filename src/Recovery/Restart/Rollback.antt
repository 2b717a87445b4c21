-- ===== src/Recovery/Restart/Rollback.antt =====
-- The function Rollback of pkg/recovery/recovery_manager.go, against the edits on the stack taken back from
-- the last one to the first.
use recovery_stencil.Prelude.{
  ℕ, suc, ◌+◌, List, [], ◌∷◌, ◌++◌, Option, none, some, ◌≡◌, refl, arith, ◌∙◌, sym, ap, length,
  get_elem?,
}
use mathlib.Core.Path.{subst}
use mathlib.Core.List.{
  reverse, reverse_aux, reverse_aux-eq, reverse-cons, reverse-reverse, append_assoc, append-nil,
}
use recovery_stencil.Repl.{String, lookup}
use recovery_stencil.Database.{Index, Files, Database, put_table}
use recovery_stencil.Concurrency.Effects.{HoldsLock}
use recovery_stencil.Concurrency.Granted.{KeepsLocks}
use recovery_stencil.Concurrency.Manager.{TransactionManager}
use recovery_stencil.Concurrency.Handlers.{commit_now}
use recovery_stencil.Recovery.{EditLog}
use recovery_stencil.Recovery.Manager.{Server, stack_of, remove_stack, commit, flush_log}
use recovery_stencil.Recovery.Restart.{undo, undo_stack, rollback, end_transaction}
use recovery_stencil.Recovery.Restart.Undo.{IsEditOf, Undoes, Edited, undo_edit-Edited}

same_tm_keeps : (tm tm' : TransactionManager) (client : ℕ) → tm' ≡ tm → KeepsLocks tm tm' client
same_tm_keeps tm tm' client e name key h = rw e h

stack_of-remove_stack :
    (client : ℕ) (es : List (ℕ × List EditLog)) → stack_of client (remove_stack client es) ≡ []
unfolding stack_of remove_stack
stack_of-remove_stack client [] = refl
stack_of-remove_stack client (e ∷ es) = ground (arith, stack_of-remove_stack client es)

module _ {A : Type 0} where
  get_elem?-reverse_aux :
      (xs r : List A) (k : ℕ) → get_elem? (reverse_aux xs r) (length xs + k) ≡ get_elem? r k
  get_elem?-reverse_aux [] r k = ap (get_elem? r) (omega arith)
  get_elem?-reverse_aux (x ∷ xs) r k =
      ap (get_elem? (reverse_aux xs (x ∷ r))) (omega arith)
      ∙ get_elem?-reverse_aux xs (x ∷ r) (suc k)

  get_elem?-reverse :
      (x : A) (xs ys : List A) → get_elem? (reverse xs ++ x ∷ ys) (length xs) ≡ some x
  get_elem?-reverse x xs ys =
      rw⁻¹ (reverse_aux-eq xs (x ∷ ys)) (
        ap (get_elem? (reverse_aux xs (x ∷ ys))) (omega arith)
        ∙ get_elem?-reverse_aux xs (x ∷ ys) 0)

  length-reverse_aux : (xs r : List A) → length (reverse_aux xs r) ≡ length xs + length r
  length-reverse_aux [] r = omega arith
  length-reverse_aux (x ∷ xs) r = omega (arith, length-reverse_aux xs (x ∷ r))

  reverse_front : (x : A) (xs ys : List A) → reverse (x ∷ xs) ++ ys ≡ reverse xs ++ x ∷ ys
  reverse_front x xs ys =
      ap (λ t. t ++ ys) (reverse-cons x xs) ∙ append_assoc (reverse xs) (x ∷ []) ys

module _ {F T : Type 0} (index : Index F T) (os : Files F T) (uuid_string : ℕ → String) where
  -- what the stack of a client promises of an edit on it
  pub record IsReady (w : Server F T) (client : ℕ) (el : EditLog) : Type 0 where
    pub edit_of : IsEditOf client el
    pub holds : HoldsLock w.tm client el.tablename el.key

  abbrev pub AllReady : Server F T → ℕ → List EditLog → Type 0
  AllReady w client [] = Unit
  AllReady w client (el ∷ els) = IsReady w client el × AllReady w client els

  -- The tables under edits that are taken back one after another, each by a call of the index of its table,
  -- which is open.
  pub data TakesBack : Database F T → List EditLog → Database F T → Type 0 where
    none_left : {db : Database F T} → TakesBack db [] db
    taken :
        {db db' : Database F T} {els : List EditLog} (el : EditLog) (t t' : T)
        → lookup el.tablename db.tables ≡ some t
        → index.get_name t ≡ el.tablename
        → Undoes index el el.action t t'
        → TakesBack (put_table db el.tablename t') els db'
        → TakesBack db (el ∷ els) db'

  AllReady-same_tm :
      (w w' : Server F T) (client : ℕ) (els : List EditLog)
      → w'.tm ≡ w.tm
      → AllReady w client els
      → AllReady w' client els
  AllReady-same_tm w w' client [] same h = h
  AllReady-same_tm w w' client (el ∷ els) same (r, rs) = (
    record {
      edit_of = r.edit_of;
      holds = same_tm_keeps w.tm w'.tm client same el.tablename el.key r.holds;
    },
    AllReady-same_tm w w' client els same rs,
  )

  undo-Edited :
      (rb : Server F T → ℕ → Option (Server F T)) (w : Server F T) (client : ℕ) (el : EditLog)
      (t t' : T)
      → IsReady w client el
      → lookup el.tablename w.db.tables ≡ some t
      → index.get_name t ≡ el.tablename
      → Undoes index el el.action t t'
      → (w' : Server F T) × (x : EditLog) × (undo index os uuid_string rb w el ≡ some (w', none))
        × Edited index client x el.tablename t' w w'
  unfolding undo
  undo-Edited rb w client el t t' r found named undoes =
      let is = r.edit_of in
      let own : IsEditOf el.id el = record {
        by = refl;
        key_range = is.key_range;
        value_range = is.value_range;
        name_word = is.name_word;
      } in
      let holds = subst (λ c. HoldsLock w.tm c el.tablename el.key) (sym is.by) r.holds in
      let (w', x, u, ed) =
        undo_edit-Edited index os uuid_string rb w el el.action t t' own found named holds undoes in
      (w', x, u, subst (λ c. Edited index c x el.tablename t' w w') is.by ed)

  pushed_front :
      (el x : EditLog) (els later now next : List EditLog)
      → now ≡ reverse (el ∷ els) ++ later
      → next ≡ now ++ x ∷ []
      → next ≡ reverse els ++ (el ∷ later ++ x ∷ [])
  pushed_front el x els later now next e f =
      f
      ∙ ap (λ t. t ++ x ∷ []) (e ∙ reverse_front el els later)
      ∙ append_assoc (reverse els) (el ∷ later) (x ∷ [])

  -- the loop, over the edits that it has not taken back yet, the last one first
  undo_stack_lem :
      (rb : Server F T → ℕ → Option (Server F T)) (client : ℕ) (els : List EditLog) (w : Server F T)
      (later : List EditLog) (now db : Database F T)
      → stack_of client w.rm.tx_stack ≡ reverse els ++ later
      → w.db ≡ now
      → TakesBack now els db
      → AllReady w client els
      → (w' : Server F T) × (undo_stack index os uuid_string rb w client (length els) ≡ some w')
        × (w'.db ≡ db)
        × (w'.tm ≡ w.tm)
  unfolding undo_stack
  undo_stack_lem rb client _ w later now db stack here none_left ready = (w, refl, here, refl)
  undo_stack_lem rb client _ w later now db stack here
        (taken {els = els} el t t' found named undoes rest) (r, rs) =
      let found_here : lookup el.tablename w.db.tables ≡ some t =
        ap (λ (d : Database F T). lookup el.tablename d.tables) here ∙ found in
      let (w1, x, u, ed) = undo-Edited rb w client el t t' r found_here named undoes in
      let first =
        ap (λ t. get_elem? t (length els)) (stack ∙ reverse_front el els later)
        ∙ get_elem?-reverse el els later in
      let (w', run, v, t) =
        undo_stack_lem rb client els w1 (el ∷ later ++ x ∷ []) (put_table now el.tablename t') db
          (pushed_front el x els later _ _ stack ed.pushed)
          (ed.tables ∙ ap (λ d. put_table d el.tablename t') here) rest
          (AllReady-same_tm w w1 client els ed.same_tm rs) in
      (w', rw (first, u) run, v, t ∙ ed.same_tm)

  -- Where a client holds the write lock on each entry of its stack of edits, which are its own,
  -- with int64 values and table names of one word, and the edits can be taken back from the last
  -- one to the first in open tables under their own names, Rollback returns and leaves the
  -- tables that way, the stack of the client empty, and its transaction committed at the
  -- transaction manager. Whatever the index of a table is, an insert is taken back by its Delete
  -- and an update by its Update to the old value, both of a key that it finds, and a delete by
  -- its Insert of the old value for a key that it does not find, each without an error.
  pub rollback-taken_back :
      (fuel : ℕ) (w : Server F T) (client : ℕ) (db : Database F T)
      → AllReady w client (reverse (stack_of client w.rm.tx_stack))
      → TakesBack w.db (reverse (stack_of client w.rm.tx_stack)) db
      → (w' : Server F T) × (rollback index os uuid_string (suc fuel) w client ≡ some w')
        × (w'.db ≡ db)
        × (stack_of client w'.rm.tx_stack ≡ [])
        × (w'.tm ≡ (commit_now w.tm client).0)
  unfolding rollback end_transaction commit flush_log
  rollback-taken_back fuel w client db ready takes =
      let stack = stack_of client w.rm.tx_stack in
      let els = reverse stack in
      let (w', run, v, t) =
        undo_stack_lem (rollback index os uuid_string fuel) client els w [] w.db db
          (sym (append-nil (reverse els) ∙ reverse-reverse stack)) refl takes ready in
      let same : length els ≡ length stack = omega (arith, length-reverse_aux stack []) in
      (
        end_transaction index os uuid_string w' client,
        rw⁻¹ same (rw run refl),
        v,
        stack_of-remove_stack client w'.rm.tx_stack,
        ap (λ tm. (commit_now tm client).0) t,
      )
