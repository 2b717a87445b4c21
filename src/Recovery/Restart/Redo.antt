-- ===== src/Recovery/Restart/Redo.antt =====
-- The function redo of pkg/recovery/recovery_manager.go on an edit, against calls of the table's index.
use recovery_stencil.Prelude.{
  true, none, some, Result, ok, err, ◌≡◌, refl, ◌∙◌, sym, ap, Option-cases, inl, inr, ◌++◌, List,
  [], ◌∷◌, Bool-cases, if◌then◌else◌,
}
use recovery_stencil.Prelude.Int.{ℤ, IsInt64}
use recovery_stencil.Entry.{Entry}
use recovery_stencil.Errors.{Error}
use recovery_stencil.Repl.{String, ◌==◌, lookup, assign}
use recovery_stencil.Repl.Lookup.{string_refl, lookup-assign}
use recovery_stencil.Text.{codes}
use recovery_stencil.Text.Words.{is_word}
use recovery_stencil.Database.{Index, Files, Database, put_table, get_table, opened, exists}
use recovery_stencil.Text.Paths.{join}
use recovery_stencil.Database.Handlers as Database
use recovery_stencil.Database.Handlers.{
  insert_args, update_args, delete_args, insert_in, update_in, delete_in, succeeds,
}
use recovery_stencil.Database.Effects.{InsertWords, UpdateWords, DeleteWords, get_table-lookup}
use recovery_stencil.Recovery.{Action, insert_action, update_action, delete_action, EditLog}
use recovery_stencil.Recovery.Restart.{redo_edit, insert_payload, update_payload, delete_payload}
use recovery_stencil.Recovery.Restart.Payloads.{
  insert_payload-words, update_payload-words, delete_payload-words,
}

-- the values of an edit are int64 and its table's name is one word
pub record IsRedoable (el : EditLog) : Type 0 where
  pub key_range : IsInt64 el.key
  pub value_range : IsInt64 el.newval
  pub name_word : is_word el.tablename ≡ true

assign_twice :
    {A : Type 0} (k : String) (a b : A) (es : List (String × A))
    → assign k a (assign k b es) ≡ assign k a es
unfolding assign
assign_twice k a b [] = rw (string_refl k) refl
assign_twice k a b (e ∷ es) = elim (Bool-cases (e.0 == k)) [
  | inl hit ↦ rw (hit, string_refl k) refl
  | inr miss ↦ rw (miss, miss) (ap (λ t. e ∷ t) (assign_twice k a b es))
]

module _ {F T : Type 0} where
  pub lookup-put_table :
      (db : Database F T) (name n : String) (t : T)
      → lookup n (put_table db name t).tables ≡ (if name == n then some t else lookup n db.tables)
  unfolding put_table assign
  lookup-put_table db name n t = lookup-assign name n t db.tables

  pub found_again :
      (db : Database F T) (name : String) (t : T)
      → lookup name (put_table db name t).tables ≡ some t
  found_again db name t = lookup-put_table db name name t ∙ rw (string_refl name) refl

  put_table_twice :
      (db : Database F T) (name : String) (t u : T)
      → put_table (put_table db name u) name t ≡ put_table db name t
  unfolding put_table
  put_table_twice db name t u =
      ap (λ (ts : List (String × T)). record db { tables = ts }) (assign_twice name t u db.tables)

-- The calls of the index that bring an edit about: an insert or an update that is refused is tried as the
-- other one, and an insert is refused where the key is found.
module _ {F T : Type 0} (index : Index F T) where
  pub data Redoes (el : EditLog) : Action → T → T → Type 0 where
    inserts :
        {t t' : T} (e : Error)
        → index.find t el.key ≡ err e
        → index.insert t el.key el.newval ≡ (t', none)
        → Redoes el insert_action t t'
    updates_present :
        {t t' : T} (old : Entry)
        → index.find t el.key ≡ ok old
        → index.update t el.key el.newval ≡ (t', none)
        → Redoes el insert_action t t'
    updates_refused :
        {t t₁ t' : T} (e f : Error)
        → index.find t el.key ≡ err e
        → index.insert t el.key el.newval ≡ (t₁, some f)
        → index.update t₁ el.key el.newval ≡ (t', none)
        → Redoes el insert_action t t'
    updates :
        {t t' : T} → index.update t el.key el.newval ≡ (t', none) → Redoes el update_action t t'
    inserts_missing :
        {t t₁ t' : T} (e f : Error)
        → index.update t el.key el.newval ≡ (t₁, some f)
        → index.find t₁ el.key ≡ err e
        → index.insert t₁ el.key el.newval ≡ (t', none)
        → Redoes el update_action t t'
    deletes : {t t' : T} → index.delete t el.key ≡ (t', none) → Redoes el delete_action t t'

module _ {F T : Type 0} (index : Index F T) (os : Files F T) where
  opened_again :
      (db db₁ : Database F T) (name : String) (t : T) (r : F × Result Error T)
      → opened os db name r ≡ (db₁, ok t)
      → lookup name db₁.tables ≡ some t
  unfolding opened lookup
  opened_again db db₁ name t (files, err e) got =
      cc (ap (λ (q : Database F T × Result Error T). q.1) got)
  opened_again db db₁ name t (files, ok u) got =
      let same : u ≡ t = cc (ap (λ (q : Database F T × Result Error T). q.1) got) in
      let at : lookup name (assign name u db.tables) ≡ some u =
        lookup-assign name name u db.tables ∙ rw (string_refl name) refl in
      ap (λ (q : Database F T × Result Error T). lookup name q.0.tables) (sym got)
      ∙ at
      ∙ ap some same

  -- a table that is got is open from then on
  get_table_again :
      (db db₁ : Database F T) (name : String) (t : T)
      → get_table os db name ≡ (db₁, ok t)
      → lookup name db₁.tables ≡ some t
  unfolding get_table
  get_table_again db db₁ name t got = elim (Option-cases (lookup name db.tables)) [
    | inr (u, found) ↦
        let run : (db, ok u) ≡ (db₁, ok t) =
          sym (get_table-lookup index os db name u found) ∙ got in
        let same : u ≡ t = cc (ap (λ (q : Database F T × Result Error T). q.1) run) in
        ap (λ (q : Database F T × Result Error T). lookup name q.0.tables) (sym run)
        ∙ found
        ∙ ap some same
    | inl closed ↦ elim (Bool-cases (exists (os.stat db.files (join db.basepath name)))) [
      | inr absent ↦
          cc (
            ap (λ (q : Database F T × Result Error T). q.1) (rw (get_table, closed, absent) at got))
      | inl there ↦
          elim (Bool-cases (exists (os.stat db.files (join db.basepath name ++ codes ".meta")))) [
            | inl meta ↦ opened_again db db₁ name t _ (rw (get_table, closed, there, meta) at got)
            | inr plain ↦ opened_again db db₁ name t _ (rw (get_table, closed, there, plain) at got)
          ]
    ]
  ]

  handle_insert-in :
      (db : Database F T) (payload name : String) (key value : ℤ)
      → InsertWords payload name key value
      → Database.handle_insert index os db payload
        ≡ insert_in index os name key value (get_table os db name)
  unfolding Database.handle_insert insert_args
  handle_insert-in db payload name key value w = rw (w.words, w.read_key, w.read_value) refl

  handle_update-in :
      (db : Database F T) (payload name : String) (key value : ℤ)
      → UpdateWords payload name key value
      → Database.handle_update index os db payload
        ≡ update_in index os name key value (get_table os db name)
  unfolding Database.handle_update
  handle_update-in db payload name key value w =
      rw (w.words, update_args, w.read_key, w.read_value) refl

  handle_delete-in :
      (db : Database F T) (payload name : String) (key : ℤ)
      → DeleteWords payload name key
      → Database.handle_delete index os db payload
        ≡ delete_in index os name key (get_table os db name)
  unfolding Database.handle_delete delete_args
  handle_delete-in db payload name key w = rw (w.words, w.read_key) refl

  redo_run :
      (db db₁ : Database F T) (el : EditLog) (action : Action) (t t' : T)
      → InsertWords (insert_payload el.key el.newval el.tablename) el.tablename el.key el.newval
      → UpdateWords (update_payload el.tablename el.key el.newval) el.tablename el.key el.newval
      → DeleteWords (delete_payload el.key el.tablename) el.tablename el.key
      → get_table os db el.tablename ≡ (db₁, ok t)
      → Redoes index el action t t'
      → redo_edit index os action db el ≡ (put_table db₁ el.tablename t', none)
  unfolding redo_edit
  redo_run db db₁ el _ t t' ins upd del got (inserts e find run) =
      rw (handle_insert-in db _ el.tablename el.key el.newval ins, got, find, run) refl
  redo_run db db₁ el _ t t' ins upd del got (updates_present old find run) =
      let is_open = get_table_again db db₁ el.tablename t got in
      rw
        (
          handle_insert-in db _ el.tablename el.key el.newval ins,
          got,
          find,
          handle_update-in db₁ _ el.tablename el.key el.newval upd,
          get_table-lookup index os db₁ el.tablename t is_open,
          run,
        )
        refl
  redo_run db db₁ el _ t t' ins upd del got (updates_refused {t₁ = t₁} e f find refused run) =
      let db₂ = put_table db₁ el.tablename t₁ in
      rw
        (
          handle_insert-in db _ el.tablename el.key el.newval ins,
          got,
          find,
          refused,
          handle_update-in db₂ _ el.tablename el.key el.newval upd,
          get_table-lookup index os db₂ el.tablename t₁ (found_again db₁ el.tablename t₁),
          run,
        )
        (ap (λ (d : Database F T). (d, none)) (put_table_twice db₁ el.tablename t' t₁))
  redo_run db db₁ el _ t t' ins upd del got (updates run) =
      rw (handle_update-in db _ el.tablename el.key el.newval upd, got, run) refl
  redo_run db db₁ el _ t t' ins upd del got (inserts_missing {t₁ = t₁} e f refused find run) =
      let db₂ = put_table db₁ el.tablename t₁ in
      rw
        (
          handle_update-in db _ el.tablename el.key el.newval upd,
          got,
          refused,
          handle_insert-in db₂ _ el.tablename el.key el.newval ins,
          get_table-lookup index os db₂ el.tablename t₁ (found_again db₁ el.tablename t₁),
          find,
          run,
        )
        (ap (λ (d : Database F T). (d, none)) (put_table_twice db₁ el.tablename t' t₁))
  redo_run db db₁ el _ t t' ins upd del got (deletes run) =
      rw (handle_delete-in db _ el.tablename el.key del, got, run) refl

  -- redo of an edit through its payloads
  pub redo_edit-Redoes :
      (db db₁ : Database F T) (el : EditLog) (action : Action) (t t' : T)
      → IsRedoable el
      → get_table os db el.tablename ≡ (db₁, ok t)
      → Redoes index el action t t'
      → redo_edit index os action db el ≡ (put_table db₁ el.tablename t', none)
  unfolding redo_edit
  redo_edit-Redoes db db₁ el action t t' is got run =
      let ins =
        insert_payload-words el.key el.newval el.tablename is.key_range is.value_range
          is.name_word in
      let upd =
        update_payload-words el.tablename el.key el.newval is.key_range is.value_range
          is.name_word in
      let del = delete_payload-words el.key el.tablename is.key_range is.name_word in
      redo_run db db₁ el action t t' ins upd del got run
