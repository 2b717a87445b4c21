-- ===== src/Database/Handlers.antt =====
-- pkg/database/db_repl.go: the handlers of the commands. Each takes the payload, the line as it was typed.
use recovery_stencil.Prelude.{
  Bool, true, false, List, [], ◌∷◌, ◌++◌, Option, none, some, Result, ok, err, not, if◌then◌else◌,
}
use recovery_stencil.Prelude.Int.{ℤ}
use recovery_stencil.Entry.{Entry}
use recovery_stencil.Repl.{String, ◌==◌, fields}
use recovery_stencil.Text.{codes, itoa, atoi, NumError}
use recovery_stencil.Errors.{Error, message, number, wrapped}
use recovery_stencil.Database.{
  Index, Files, Database, btree_index_type, hash_index_type, create_table, get_table, put_table,
}

-- the error of a number that was not read, under the command's prefix
abbrev pub bad_number : String → NumError → String → Error
bad_number prefix e s = wrapped prefix (number e s)

abbrev pub usage_create : Error
usage_create = message (codes "usage: create <btree|hash> table <table>")

abbrev pub usage_find : Error
usage_find = message (codes "usage: find <key> from <table>")

abbrev pub usage_insert : Error
usage_insert = message (codes "usage: insert <key> <value> into <table>")

abbrev pub usage_update : Error
usage_update = message (codes "usage: update <table> <key> <value>")

abbrev pub usage_delete : Error
usage_delete = message (codes "usage: delete <key> from <table>")

abbrev pub usage_select : Error
usage_select = message (codes "usage: select from <table>")

abbrev pub usage_pretty : Error
usage_pretty = message (codes "usage: pretty <optional pagenumber> from <table>")

-- printResults
unfoldable pub print_results : List Entry → String
unfolding itoa
print_results [] = []
print_results (e ∷ es) =
    codes "(" ++ itoa e.key ++ codes ", " ++ itoa e.value ++ codes ")\n" ++ print_results es

-- err == nil
abbrev pub succeeds {ℓ κ} : {E : Type ℓ} {A : Type κ} → Result E A → Bool
succeeds (ok a) = true
succeeds (err e) = false

-- fmt.Errorf around the error of a call
abbrev pub wrap : String → Option Error → Option Error
wrap prefix none = none
wrap prefix (some e) = some (wrapped prefix e)

module _ {F T : Type 0} (index : Index F T) (os : Files F T) where
  abbrev pub created :
      String → String → Database F T × Result Error T → Database F T × Result Error String
  created kind name (db, err e) = (db, err e)
  created kind name (db, ok t) = (db, ok (kind ++ codes " table " ++ name ++ codes " created.\n"))

  unfoldable pub create_args : Database F T → List String → Database F T × Result Error String
  unfolding create_table
  create_args db (_ ∷ kind ∷ table ∷ name ∷ []) =
      if not (table == codes "table")
      then (db, err usage_create)
      else if kind == codes "btree"
      then created kind name (create_table os db name btree_index_type)
      else if kind == codes "hash"
      then created kind name (create_table os db name hash_index_type)
      else (db, err usage_create)
  create_args db _ = (db, err usage_create)

  unfoldable pub handle_create_table : Database F T → String → Database F T × Result Error String
  unfolding fields create_args
  handle_create_table db payload = create_args db (fields payload)

  unfoldable pub found_entry : Result Error Entry → Result Error String
  unfolding itoa
  found_entry (err e) = err (wrapped (codes "find") e)
  found_entry (ok e) =
      ok (codes "found entry: (" ++ itoa e.key ++ codes ", " ++ itoa e.value ++ codes ")\n")

  abbrev pub find_in : ℤ → Database F T × Result Error T → Database F T × Result Error String
  find_in key (db, err e) = (db, err (wrapped (codes "find") e))
  find_in key (db, ok table) = (db, found_entry (index.find table key))

  unfoldable pub find_args : Database F T → List String → Database F T × Result Error String
  unfolding atoi get_table
  find_args db (_ ∷ k ∷ from ∷ name ∷ []) =
      if not (from == codes "from") then (db, err usage_find) else (elim (atoi k) [
        | err e ↦ (db, err (bad_number (codes "find") e k))
        | ok key ↦ find_in key (get_table os db name)
      ])
  find_args db _ = (db, err usage_find)

  unfoldable pub handle_find : Database F T → String → Database F T × Result Error String
  unfolding fields find_args
  handle_find db payload = find_args db (fields payload)

  abbrev pub stored :
      String → String → Database F T → T × Option Error → Database F T × Option Error
  stored prefix name db (table, e) = (put_table db name table, wrap prefix e)

  abbrev pub insert_in :
      String → ℤ → ℤ → Database F T × Result Error T → Database F T × Option Error
  insert_in name key value (db, err e) = (db, some (wrapped (codes "insert") e))
  insert_in name key value (db, ok table) =
      if succeeds (index.find table key)
      then (db, some (message (codes "insert error: key already in table")))
      else stored (codes "insert") name db (index.insert table key value)

  unfoldable pub insert_args : Database F T → List String → Database F T × Option Error
  unfolding atoi get_table
  insert_args db (_ ∷ k ∷ v ∷ into ∷ name ∷ []) =
      if not (into == codes "into") then (db, some usage_insert) else (elim (atoi k) [
        | err e ↦ (db, some (bad_number (codes "insert") e k))
        | ok key ↦ elim (atoi v) [
          | err e ↦ (db, some (bad_number (codes "insert") e v))
          | ok value ↦ insert_in name key value (get_table os db name)
        ]
      ])
  insert_args db _ = (db, some usage_insert)

  unfoldable pub handle_insert : Database F T → String → Database F T × Option Error
  unfolding fields insert_args
  handle_insert db payload = insert_args db (fields payload)

  abbrev pub update_in :
      String → ℤ → ℤ → Database F T × Result Error T → Database F T × Option Error
  update_in name key value (db, err e) = (db, some (wrapped (codes "update") e))
  update_in name key value (db, ok table) =
      stored (codes "update") name db (index.update table key value)

  unfoldable pub update_args : Database F T → List String → Database F T × Option Error
  unfolding atoi get_table
  update_args db (_ ∷ name ∷ k ∷ v ∷ []) = elim (atoi k) [
    | err e ↦ (db, some (bad_number (codes "update") e k))
    | ok key ↦ elim (atoi v) [
      | err e ↦ (db, some (bad_number (codes "update") e v))
      | ok value ↦ update_in name key value (get_table os db name)
    ]
  ]
  update_args db _ = (db, some usage_update)

  unfoldable pub handle_update : Database F T → String → Database F T × Option Error
  unfolding fields update_args
  handle_update db payload = update_args db (fields payload)

  abbrev pub delete_in : String → ℤ → Database F T × Result Error T → Database F T × Option Error
  delete_in name key (db, err e) = (db, some (wrapped (codes "delete") e))
  delete_in name key (db, ok table) = stored (codes "delete") name db (index.delete table key)

  unfoldable pub delete_args : Database F T → List String → Database F T × Option Error
  unfolding atoi get_table
  delete_args db (_ ∷ k ∷ from ∷ name ∷ []) =
      if not (from == codes "from") then (db, some usage_delete) else (elim (atoi k) [
        | err e ↦ (db, some (bad_number (codes "delete") e k))
        | ok key ↦ delete_in name key (get_table os db name)
      ])
  delete_args db _ = (db, some usage_delete)

  unfoldable pub handle_delete : Database F T → String → Database F T × Option Error
  unfolding fields delete_args
  handle_delete db payload = delete_args db (fields payload)

  unfoldable pub selected : Result Error (List Entry) → Result Error String
  unfolding print_results
  selected (err e) = err e
  selected (ok results) = ok (print_results results)

  abbrev pub select_in : Database F T × Result Error T → Database F T × Result Error String
  select_in (db, err e) = (db, err (wrapped (codes "select") e))
  select_in (db, ok table) = (db, selected (index.select table))

  unfoldable pub select_args : Database F T → List String → Database F T × Result Error String
  unfolding get_table
  select_args db (_ ∷ from ∷ name ∷ []) =
      if not (from == codes "from")
      then (db, err usage_select)
      else select_in (get_table os db name)
  select_args db _ = (db, err usage_select)

  unfoldable pub handle_select : Database F T → String → Database F T × Result Error String
  unfolding fields select_args
  handle_select db payload = select_args db (fields payload)

  abbrev pub printed :
      (T → String) → Database F T × Result Error T → Database F T × Result Error String
  printed print (db, err e) = (db, err (wrapped (codes "pretty") e))
  printed print (db, ok table) = (db, ok (print table))

  unfoldable pub pretty_args : Database F T → List String → Database F T × Result Error String
  unfolding atoi get_table
  pretty_args db (_ ∷ from ∷ name ∷ []) =
      if from == codes "from"
      then printed index.print (get_table os db name)
      else (db, err usage_pretty)
  pretty_args db (_ ∷ n ∷ from ∷ name ∷ []) =
      if not (from == codes "from") then (db, err usage_pretty) else (elim (atoi n) [
        | err e ↦ (db, err (bad_number (codes "pretty") e n))
        | ok pn ↦ printed (λ table. index.print_pn table pn) (get_table os db name)
      ])
  pretty_args db _ = (db, err usage_pretty)

  unfoldable pub handle_pretty : Database F T → String → Database F T × Result Error String
  unfolding fields pretty_args
  handle_pretty db payload = pretty_args db (fields payload)
