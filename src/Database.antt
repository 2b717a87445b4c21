-- ===== src/Database.antt =====
-- pkg/database/database.go and index.go: tables behind the interface Index, by their names. What the
-- operating system does is the record Files, over a state F of the file system; T is the state of a
-- table. The functions of Index and Files are arguments of everything that calls them.
pub mod Handlers
pub mod Commands
pub mod Values
pub mod Effects
use recovery_stencil.Prelude.{
  ℕ, zero, suc, Bool, true, false, not, ◌&&◌, ◌||◌, List, [], ◌∷◌, ◌++◌, Option, none, some, Result,
  ok, err, leb, ◌==◌ as nat_eq, if◌then◌else◌,
}
use recovery_stencil.Prelude.Int.{ℤ}
use recovery_stencil.Entry.{Entry}
use recovery_stencil.Repl.{String, ◌==◌, lookup, assign}
use recovery_stencil.Text.{codes}
use recovery_stencil.Text.Paths.{join}
use recovery_stencil.Errors.{Error, message}

-- `flush` is FlushAllPages of the table's pager, whose error the callers drop
pub record Index (F T : Type 0) : Type 0 where
  pub close : F → T → F × Option Error
  pub get_name : T → String
  pub find : T → ℤ → Result Error Entry
  pub insert : T → ℤ → ℤ → T × Option Error
  pub update : T → ℤ → ℤ → T × Option Error
  pub delete : T → ℤ → T × Option Error
  pub select : T → Result Error (List Entry)
  pub print : T → String
  pub print_pn : T → ℤ → String
  pub flush : F → T → F

-- the answer of os.Stat
pub data FileStatus : Type 0 where
  present absent : FileStatus
  stat_error : Error → FileStatus

-- `append_file` is WriteString and Sync on the contents of the log file
pub record Files (F T : Type 0) : Type 0 where
  pub stat : F → String → FileStatus
  pub make_folder : F → String → F × Option Error
  pub remove_all : F → String → F
  pub copy : F → String → String → F × Option Error
  pub create_file : F → String → F × Option Error
  pub append_file : String → String → String × Option Error
  pub open_btree : F → String → F × Result Error T
  pub open_hash : F → String → F × Result Error T

pub record Database (F T : Type 0) : Type 0 where
  pub basepath : String
  pub tables : List (String × T)
  pub files : F

pub data IndexType : Type 0 where
  btree_index_type hash_index_type : IndexType

-- strings.HasSuffix(s, "/")
unfoldable pub ends_with_slash : String → Bool
ends_with_slash [] = false
ends_with_slash (c ∷ []) = nat_eq c 47
ends_with_slash (c ∷ d ∷ s) = ends_with_slash (d ∷ s)

-- what \W does not match
abbrev pub is_alphanumeric : ℕ → Bool
is_alphanumeric c =
    (leb 48 c && leb c 57) || (leb 65 c && leb c 90) || (leb 97 c && leb c 122) || nat_eq c 95

unfoldable pub all_alphanumeric : String → Bool
all_alphanumeric [] = true
all_alphanumeric (c ∷ s) = is_alphanumeric c && all_alphanumeric s

abbrev pub exists : FileStatus → Bool
exists present = true
exists absent = false
exists (stat_error e) = false

-- a table that a call changed, back under its name; db.tables holds pointers
unfoldable pub put_table : {F T : Type 0} → Database F T → String → T → Database F T
unfolding assign
put_table db name table = record db { tables = assign name table db.tables }

module _ {F T : Type 0} (os : Files F T) where
  unfoldable pub open_database : F → String → F × Result Error (Database F T)
  unfolding ends_with_slash
  open_database files folder =
      let path = if ends_with_slash folder then folder else folder ++ 47 ∷ [] in
      let (files', e) = os.make_folder files path in
      elim e [
        | some error ↦ (files', err error)
        | none ↦ (files', ok (record { basepath = path; tables = []; files = files' }))
      ]

  -- CreateLogFile
  unfoldable pub create_log_file : Database F T → String → Database F T × Option Error
  create_log_file db filename =
      if exists (os.stat db.files filename)
      then (db, none)
      else let (files, e) = os.create_file db.files filename in (record db { files = files }, e)

  -- an index that was opened, entered under its name
  unfoldable pub opened : Database F T → String → F × Result Error T → Database F T × Result Error T
  unfolding assign
  opened db name (files, err e) = (record db { files = files }, err e)
  opened db name (files, ok t) =
      (record db { files = files; tables = assign name t db.tables }, ok t)

  unfoldable pub create_table : Database F T → String → IndexType → Database F T × Result Error T
  unfolding all_alphanumeric assign join
  create_table db name index_type =
      let path = join db.basepath name in
      if not (all_alphanumeric name)
      then (db, err (message (codes "table name must be alphanumeric")))
      else if exists (os.stat db.files path)
      then (db, err (message (codes "table already exists")))
      else (elim index_type [
        | btree_index_type ↦ opened db name (os.open_btree db.files path)
        | hash_index_type ↦ opened db name (os.open_hash db.files path)
      ])

  unfoldable pub get_table : Database F T → String → Database F T × Result Error T
  unfolding lookup assign join
  get_table db name = elim (lookup name db.tables) [
    | some t ↦ (db, ok t)
    | none ↦
        let path = join db.basepath name in
        if not (exists (os.stat db.files path))
        then (db, err (message (codes "table not found")))
        else if exists (os.stat db.files (path ++ codes ".meta"))
        then opened db name (os.open_hash db.files path)
        else opened db name (os.open_btree db.files path)
  ]

module _ {F T : Type 0} (index : Index F T) where
  abbrev pub first_error : Option Error → Option Error → Option Error
  first_error none e = e
  first_error (some e) _ = some e

  unfoldable pub close_all : F → List (String × T) → Option Error → F × Option Error
  close_all files [] e = (files, e)
  close_all files (t ∷ ts) e =
      let (files', cur_err) = index.close files t.1 in close_all files' ts (first_error e cur_err)

  unfoldable pub close : Database F T → Database F T × Option Error
  unfolding close_all
  close db = let (files, e) = close_all db.files db.tables none in (record db { files = files }, e)
