-- ===== src/Database/Effects.antt =====
-- pkg/database/db_repl.go: what the handlers do on a payload whose words they accept and whose table is open.
use recovery_stencil.Prelude.{true, false, [], ◌∷◌, none, some, Result, ok, err, ◌≡◌, refl, arith}
use mathlib.Core.Path.{subst}
use recovery_stencil.Text.Words.{is_word, all_words, all_words-fields}
use recovery_stencil.Prelude.Int.{ℤ}
use recovery_stencil.Repl.{String, lookup, fields}
use recovery_stencil.Text.{codes, atoi}
use recovery_stencil.Entry.{Entry}
use recovery_stencil.Errors.{Error}
use recovery_stencil.Database.{Index, Files, Database, put_table, get_table}
use recovery_stencil.Database.Handlers.{
  handle_insert, handle_update, handle_delete, insert_args, update_args, delete_args, succeeds,
}
use recovery_stencil.Database.Values.{value_at, value_of}

-- the payloads of the commands insert, update and delete, with what they name
pub record InsertWords (payload name : String) (key value : ℤ) : Type 0 where
  pub verb : String
  pub key_word : String
  pub value_word : String
  pub words : fields payload ≡ verb ∷ key_word ∷ value_word ∷ codes "into" ∷ name ∷ []
  pub read_key : atoi key_word ≡ ok key
  pub read_value : atoi value_word ≡ ok value

pub record UpdateWords (payload name : String) (key value : ℤ) : Type 0 where
  pub verb : String
  pub key_word : String
  pub value_word : String
  pub words : fields payload ≡ verb ∷ name ∷ key_word ∷ value_word ∷ []
  pub read_key : atoi key_word ≡ ok key
  pub read_value : atoi value_word ≡ ok value

pub record DeleteWords (payload name : String) (key : ℤ) : Type 0 where
  pub verb : String
  pub key_word : String
  pub words : fields payload ≡ verb ∷ key_word ∷ codes "from" ∷ name ∷ []
  pub read_key : atoi key_word ≡ ok key

-- the table's name is one of the payload's words
pub InsertWords-is_word :
    (payload name : String) (key value : ℤ)
    → InsertWords payload name key value
    → is_word name ≡ true
InsertWords-is_word payload name key value ws =
    let all = subst (λ l. all_words l ≡ true) ws.words (all_words-fields payload) in
    ground (arith, all)

pub UpdateWords-is_word :
    (payload name : String) (key value : ℤ)
    → UpdateWords payload name key value
    → is_word name ≡ true
UpdateWords-is_word payload name key value ws =
    let all = subst (λ l. all_words l ≡ true) ws.words (all_words-fields payload) in
    ground (arith, all)

pub DeleteWords-is_word :
    (payload name : String) (key : ℤ) → DeleteWords payload name key → is_word name ≡ true
DeleteWords-is_word payload name key ws =
    let all = subst (λ l. all_words l ≡ true) ws.words (all_words-fields payload) in
    ground (arith, all)

module _ {F T : Type 0} (index : Index F T) (os : Files F T) where
  pub get_table-lookup :
      (db : Database F T) (name : String) (t : T)
      → lookup name db.tables ≡ some t
      → get_table os db name ≡ (db, ok t)
  unfolding get_table
  get_table-lookup db name t found = rw (found, get_table) refl

  pub succeeds-value_at :
      (t : T) (key : ℤ) → value_at index t key ≡ none → succeeds (index.find t key) ≡ false
  succeeds-value_at t key absent = go (index.find t key) absent
    where
      go : (r : Result Error Entry) → value_of r ≡ none → succeeds r ≡ false
      go (ok e) h = cc h
      go (err e) h = refl

  pub handle_insert-put_table :
      (db : Database F T) (payload name : String) (key value : ℤ) (t : T)
      → InsertWords payload name key value
      → lookup name db.tables ≡ some t
      → value_at index t key ≡ none
      → (index.insert t key value).1 ≡ none
      → handle_insert index os db payload ≡ (put_table db name (index.insert t key value).0, none)
  unfolding handle_insert insert_args
  handle_insert-put_table db payload name key value t w found absent fine =
      rw
        (
          w.words,
          w.read_key,
          w.read_value,
          get_table-lookup db name t found,
          succeeds-value_at t key absent,
          fine,
        )
        refl

  pub handle_update-put_table :
      (db : Database F T) (payload name : String) (key value : ℤ) (t : T)
      → UpdateWords payload name key value
      → lookup name db.tables ≡ some t
      → (index.update t key value).1 ≡ none
      → handle_update index os db payload ≡ (put_table db name (index.update t key value).0, none)
  unfolding handle_update
  handle_update-put_table db payload name key value t w found fine =
      rw (w.words, update_args, w.read_key, w.read_value, get_table-lookup db name t found, fine)
        refl

  pub handle_delete-put_table :
      (db : Database F T) (payload name : String) (key : ℤ) (t : T)
      → DeleteWords payload name key
      → lookup name db.tables ≡ some t
      → (index.delete t key).1 ≡ none
      → handle_delete index os db payload ≡ (put_table db name (index.delete t key).0, none)
  unfolding handle_delete delete_args
  handle_delete-put_table db payload name key t w found fine =
      rw (w.words, w.read_key, get_table-lookup db name t found, fine) refl
