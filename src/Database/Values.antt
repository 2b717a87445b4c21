-- ===== src/Database/Values.antt =====
-- pkg/database/index.go: the value that an index finds for a key.
use recovery_stencil.Prelude.{Option, none, some, Result, ok, err}
use recovery_stencil.Prelude.Int.{ℤ}
use recovery_stencil.Entry.{Entry}
use recovery_stencil.Errors.{Error}
use recovery_stencil.Database.{Index}

abbrev pub value_of : Result Error Entry → Option ℤ
value_of (ok e) = some e.value
value_of (err e) = none

module _ {F T : Type 0} (index : Index F T) where
  abbrev pub value_at : T → ℤ → Option ℤ
  value_at t key = value_of (index.find t key)
