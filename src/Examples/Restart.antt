-- ===== src/Examples/Restart.antt =====
-- Recover on a log of two edits, on a table in memory that is first opened from the disk.
use recovery_stencil.Prelude.{ℕ, ok, List, [], ◌∷◌, none, ◌≡◌, refl, arith, map, if◌then◌else◌}
use recovery_stencil.Prelude.Int.{pos}
use recovery_stencil.Repl.{lookup, ◌==◌}
use recovery_stencil.Text.{codes}
use recovery_stencil.Database.{Files, Database, put_table, get_table, opened, present, absent}
use recovery_stencil.Examples.Memory.{MemoryTable, memory_index, no_files, missing}
use recovery_stencil.Recovery.{
  insert_action, delete_action, EditLog, Log, edit_log, start_log, commit_log, checkpoint_log,
}
use recovery_stencil.Recovery.Manager.{Server}
use recovery_stencil.Recovery.Restart.{redo_logs}
use recovery_stencil.Recovery.Restart.Redo.{IsRedoable, inserts, deletes}
use recovery_stencil.Recovery.Restart.Replay.{Replays, ended, edited, Replayed, redo_logs-Replayed}
use recovery_stencil.Examples.Recovery.{name_of, table_t, at_begin}

-- a disk with the file of the table "t", of no entries
abbrev one_file : Files (Unit {0}) MemoryTable
one_file = record no_files {
  stat = λ files path. if path == codes "data/t" then present else absent;
  open_btree = λ files path. (files, ok table_t);
}

-- a server at its start, without open tables
abbrev at_start : Server (Unit {0}) MemoryTable
at_start = record at_begin { db = record { basepath = codes "data/"; tables = []; files = tt } }

abbrev insert_five : EditLog
insert_five = record {
  id = 7;
  tablename = codes "t";
  action = insert_action;
  key = pos 5;
  oldval = pos 0;
  newval = pos 7;
}

abbrev delete_five : EditLog
delete_five = record {
  id = 7;
  tablename = codes "t";
  action = delete_action;
  key = pos 5;
  oldval = pos 7;
  newval = pos 0;
}

abbrev edits : List EditLog
edits = insert_five ∷ delete_five ∷ []

-- a checkpoint, and a transaction that commits
abbrev logs : List Log
logs =
    checkpoint_log []
    ∷ start_log 7
    ∷ edit_log insert_five
    ∷ edit_log delete_five
    ∷ commit_log 7
    ∷ []

abbrev opened_t : Database (Unit {0}) MemoryTable
opened_t = put_table at_start.db (codes "t") table_t

abbrev with_five : MemoryTable
with_five = (memory_index.insert table_t (pos 5) (pos 7)).0

abbrev without_five : MemoryTable
without_five = (memory_index.delete with_five (pos 5)).0

abbrev replayed_db : Database (Unit {0}) MemoryTable
replayed_db = put_table (put_table opened_t (codes "t") with_five) (codes "t") without_five

insert-IsRedoable : IsRedoable insert_five
insert-IsRedoable = record { key_range = omega arith; value_range = omega arith; name_word = refl }

delete-IsRedoable : IsRedoable delete_five
delete-IsRedoable = record { key_range = omega arith; value_range = omega arith; name_word = refl }

insert_got : get_table one_file at_start.db (codes "t") ≡ (opened_t, ok table_t)
unfolding get_table put_table lookup opened
insert_got = refl

delete_got :
    get_table one_file (put_table opened_t (codes "t") with_five) (codes "t")
    ≡ (put_table opened_t (codes "t") with_five, ok with_five)
unfolding get_table put_table lookup
delete_got = refl

edits_replay :
    (others : List Log)
    → Replays memory_index one_file replayed_db others replayed_db
    → Replays memory_index one_file at_start.db
        (edit_log insert_five ∷ edit_log delete_five ∷ others)
        replayed_db
edits_replay others rest =
    edited insert_five table_t with_five insert-IsRedoable insert_got (inserts missing refl refl)
      (edited delete_five with_five without_five delete-IsRedoable delete_got (deletes refl) rest)

redo_logs-Replayed_example :
    (w : Server (Unit {0}) MemoryTable) × (active : List ℕ) × (redo_logs memory_index one_file
        name_of at_start
        (9 ∷ [])
        (map edit_log edits)
      ≡ ((w, active), none))
    × Replayed memory_index one_file at_start (9 ∷ []) (map edit_log edits) replayed_db w active
redo_logs-Replayed_example =
    redo_logs-Replayed memory_index one_file name_of (map edit_log edits) at_start (9 ∷ [])
      replayed_db (edits_replay [] ended)
