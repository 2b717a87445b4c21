-- ===== src/Examples/Recovery.antt =====
-- A transaction on a table in memory: a client inserts, updates and deletes entries, and aborts.
use recovery_stencil.Prelude.{arith, ℕ, [], ◌∷◌, Option, none, some, ◌≡◌, refl}
use recovery_stencil.Prelude.Int.{pos}
use recovery_stencil.Repl.{String, lookup}
use recovery_stencil.Text.{codes}
use recovery_stencil.Errors.{Error}
use recovery_stencil.Database.{Database, put_table}
use recovery_stencil.Examples.Memory.{MemoryTable, memory_index, no_files, missing}
use recovery_stencil.Concurrency.Resource.{new_resource_lock_manager, w_lock}
use recovery_stencil.Concurrency.Manager.{TransactionManager, new_transaction_manager}
use recovery_stencil.Concurrency.Handlers.{begin_now, lock, commit_now}
use recovery_stencil.Concurrency.Effects.{HoldsLock, entry_of, lock-HoldsLock}
use recovery_stencil.Concurrency.Granted.{KeepsLocks, lock_lem}
use recovery_stencil.Recovery.{insert_action, update_action, delete_action}
use recovery_stencil.Recovery.Manager.{Server, stack_of, edit}
use recovery_stencil.Recovery.Restart.{rollback}
use recovery_stencil.Recovery.Restart.Undo.{removes, resets, puts_back}
use recovery_stencil.Recovery.Restart.Rollback.{
  AllReady, TakesBack, none_left, taken, rollback-taken_back,
}
use mathlib.Core.List.{reverse}

abbrev pub name_of : ℕ → String
name_of id = codes "id"

-- a table "t", and client 7 with a transaction
abbrev pub table_t : MemoryTable
table_t = record { name = codes "t"; values = λ k. none }

abbrev pub begun : TransactionManager
begun = (begin_now (new_transaction_manager new_resource_lock_manager) 7).0

abbrev pub at_begin : Server (Unit {0}) MemoryTable
at_begin = record {
  db = record { basepath = codes "data/"; tables = (codes "t", table_t) ∷ []; files = tt };
  tm = begun;
  rm = record { tx_stack = []; log_file = [] };
}

abbrev rb : Server (Unit {0}) MemoryTable → ℕ → Option (Server (Unit {0}) MemoryTable)
rb = rollback memory_index no_files name_of 0

-- the lock on the entry, granted at once
abbrev lock_answer : Option (TransactionManager × Option Error)
lock_answer = lock begun 7 (entry_of (codes "t") (pos 5)) w_lock

abbrev manager_of : Option (TransactionManager × Option Error) → TransactionManager
manager_of none = begun
manager_of (some p) = p.0

abbrev with_lock : TransactionManager
with_lock = manager_of lock_answer

lock_run : lock begun 7 (entry_of (codes "t") (pos 5)) w_lock ≡ some (with_lock, none)
unfolding lock recovery_stencil.Concurrency.Handlers.locked begin_now new_transaction_manager
    recovery_stencil.Concurrency.Graph.detect_cycle recovery_stencil.Concurrency.Graph.new_graph
    new_resource_lock_manager
lock_run = refl

lock_again : lock with_lock 7 (entry_of (codes "t") (pos 5)) w_lock ≡ some (with_lock, none)
lock_again =
    lock-HoldsLock with_lock 7 (codes "t") (pos 5)
      (lock_lem begun with_lock 7 (codes "t") (pos 5) lock_run).0

-- the server after the insert, the update and the delete
abbrev table_1 : MemoryTable
table_1 = (memory_index.insert table_t (pos 5) (pos 7)).0

abbrev server_1 : Server (Unit {0}) MemoryTable
server_1 = record {
  db = put_table at_begin.db (codes "t") table_1;
  tm = with_lock;
  rm =
      edit memory_index no_files name_of at_begin.rm 7 table_t insert_action (pos 5) (pos 0)
        (pos 7);
}

abbrev table_2 : MemoryTable
table_2 = (memory_index.update table_1 (pos 5) (pos 9)).0

abbrev server_2 : Server (Unit {0}) MemoryTable
server_2 = record {
  db = put_table server_1.db (codes "t") table_2;
  tm = with_lock;
  rm =
      edit memory_index no_files name_of server_1.rm 7 table_1 update_action (pos 5) (pos 7)
        (pos 9);
}

abbrev table_3 : MemoryTable
table_3 = (memory_index.delete table_2 (pos 5)).0

abbrev server_3 : Server (Unit {0}) MemoryTable
server_3 = record {
  db = put_table server_2.db (codes "t") table_3;
  tm = with_lock;
  rm =
      edit memory_index no_files name_of server_2.rm 7 table_2 delete_action (pos 5) (pos 9)
        (pos 0);
}

-- the tables as the three edits are taken back
abbrev table_4 : MemoryTable
table_4 = (memory_index.insert table_3 (pos 5) (pos 9)).0

abbrev table_5 : MemoryTable
table_5 = (memory_index.update table_4 (pos 5) (pos 7)).0

abbrev table_6 : MemoryTable
table_6 = (memory_index.delete table_5 (pos 5)).0

abbrev tables_6 : Database (Unit {0}) MemoryTable
tables_6 =
    put_table (put_table (put_table server_3.db (codes "t") table_4) (codes "t") table_5)
      (codes "t") table_6

back :
    TakesBack memory_index no_files name_of server_3.db
      (reverse (stack_of 7 server_3.rm.tx_stack))
      tables_6
unfolding stack_of lookup put_table edit
back = taken _ table_3 table_4 refl refl (puts_back missing refl refl) (
    taken _ table_4 table_5 refl refl (resets (record { key = pos 5; value = pos 9 }) refl refl) (
      taken _ table_5 table_6 refl refl (removes (record { key = pos 5; value = pos 7 }) refl refl)
        none_left))

held : HoldsLock with_lock 7 (codes "t") (pos 5)
held = (lock_lem begun with_lock 7 (codes "t") (pos 5) lock_run).0

ready :
    AllReady memory_index no_files name_of server_3 7 (reverse (stack_of 7 server_3.rm.tx_stack))
unfolding stack_of edit
ready = (
  record {
    edit_of = record {
      by = refl;
      key_range = omega arith;
      value_range = omega arith;
      name_word = refl;
    };
    holds = held;
  },
  (
    record {
      edit_of = record {
        by = refl;
        key_range = omega arith;
        value_range = omega arith;
        name_word = refl;
      };
      holds = held;
    },
    (
      record {
        edit_of = record {
          by = refl;
          key_range = omega arith;
          value_range = omega arith;
          name_word = refl;
        };
        holds = held;
      },
      tt,
    ),
  ),
)

rollback-taken_back_example :
    (w : Server (Unit {0}) MemoryTable) × (rollback memory_index no_files name_of 1 server_3 7
      ≡ some w)
    × (w.db ≡ tables_6)
    × (stack_of 7 w.rm.tx_stack ≡ [])
    × (w.tm ≡ (commit_now server_3.tm 7).0)
rollback-taken_back_example =
    rollback-taken_back memory_index no_files name_of 0 server_3 7 tables_6 ready back

lock_lem_example : HoldsLock with_lock 7 (codes "t") (pos 5) × KeepsLocks begun with_lock 7
lock_lem_example = lock_lem begun with_lock 7 (codes "t") (pos 5) lock_run
