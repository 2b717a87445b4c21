-- ===== src/Examples/Memory.antt =====
-- An Index over a map in memory, and a file system without files, to run the handlers of pkg/database on.
use recovery_stencil.Prelude.{
  ◌^◌, Bool, [], ◌++◌, Option, none, some, Result, ok, err, ltb, if◌then◌else◌,
}
use recovery_stencil.Prelude.Int.{ℤ, pos, negsuc, ◌==◌ as int_eq}
use recovery_stencil.Entry.{Entry}
use recovery_stencil.Repl.{String}
use recovery_stencil.Text.{codes}
use recovery_stencil.Errors.{Error, message}
use recovery_stencil.Database.{Index, Files, absent}

pub record MemoryTable : Type 0 where
  pub name : String
  pub values : ℤ → Option ℤ

abbrev pub in_range : ℤ → Bool
in_range (pos n) = ltb n (2 ^ 63)
in_range (negsuc n) = ltb n (2 ^ 63)

abbrev pub missing : Error
missing = message (codes "no entry")

abbrev pub read_value : ℤ → Option ℤ → Result Error Entry
read_value key none = err missing
read_value key (some v) = if in_range v then ok (record { key = key; value = v }) else err missing

abbrev pub set_value : MemoryTable → ℤ → Option ℤ → MemoryTable
set_value t key o = record t { values = λ k. if int_eq key k then o else t.values k }

-- a change of an entry that has to be there
abbrev pub change : MemoryTable → ℤ → Option ℤ → Result Error Entry → MemoryTable × Option Error
change t key o (ok e) = (set_value t key o, none)
change t key o (err e) = (t, some e)

abbrev pub memory_index : Index (Unit {0}) MemoryTable
memory_index = record {
  close = λ files t. (files, none);
  get_name = λ t. t.name;
  find = λ t key. read_value key (t.values key);
  insert = λ t key value. (set_value t key (some value), none);
  update = λ t key value. change t key (some value) (read_value key (t.values key));
  delete = λ t key. change t key none (read_value key (t.values key));
  select = λ t. ok [];
  print = λ t. [];
  print_pn = λ t pn. [];
  flush = λ files t. files;
}

abbrev pub no_files : Files (Unit {0}) MemoryTable
no_files = record {
  stat = λ files path. absent;
  make_folder = λ files path. (files, none);
  remove_all = λ files path. files;
  copy = λ files from to. (files, none);
  create_file = λ files path. (files, none);
  append_file = λ contents text. (contents ++ text, none);
  open_btree = λ files path. (files, ok (record { name = path; values = λ k. none }));
  open_hash = λ files path. (files, ok (record { name = path; values = λ k. none }));
}
