-- ===== src/Entry/Find.antt =====
-- Entries found by their key in a list.
use recovery_stencil.Prelude.{Option, none, some, List, [], ◌∷◌, if◌then◌else◌}
use recovery_stencil.Prelude.Int.{ℤ, ◌==◌}
use recovery_stencil.Entry.{Entry}

-- The first entry of a list with a key.
unfoldable pub find_entry : ℤ → List Entry → Option Entry
find_entry key [] = none
find_entry key (e ∷ es) = if e.key == key then some e else find_entry key es
