-- ===== src/Recovery/Restart/Recover.antt =====
-- Recover of pkg/recovery/recovery_manager.go behind its call of readLogs, where no transaction is running at
-- the end of the log.
use recovery_stencil.Prelude.{ℕ, List}
use recovery_stencil.Repl.{String}
use recovery_stencil.Database.{Index, Files, Database}
use recovery_stencil.Recovery.{Log}
use recovery_stencil.Recovery.Manager.{Server}
use recovery_stencil.Recovery.Restart.{redo_tables, at_checkpoint}

module _ {F T : Type 0} (index : Index F T) (os : Files F T) (uuid_string : ℕ → String) where
  -- the server once the tables are made and the transactions of the checkpoint have begun
  abbrev pub resumed : Server F T → List Log → Log → Server F T
  resumed w logs log = record w {
    db = redo_tables index os uuid_string w.db logs;
    tm = (at_checkpoint index os uuid_string w.tm log).0;
  }
