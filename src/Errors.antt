-- ===== src/Errors.antt =====
-- The errors that the command handlers return, with what stands behind their texts.
use recovery_stencil.Prelude.{ℕ, [], Option, none, some, Result, ok, err}
use recovery_stencil.Repl.{String, ReplCommand}
use recovery_stencil.Text.{NumError}
use recovery_stencil.Concurrency.Manager.{TmError}

pub data Error : Type 0 where
  message : String → Error
  -- the error of Atoi for a text
  number : NumError → String → Error
  -- fmt.Errorf("find error: %v", err) for the first word
  wrapped : String → Error → Error
  lock_error : TmError → Error

-- a handler as a command on a state that is `none` after a call that did not return; the argument is
-- the text of an error
module _ {W : Type 0} (error_text : Error → String) where
  abbrev pub answered : Option (W × Result Error String) → Option W × Result String String
  answered none = (none, err [])
  answered (some (w, err e)) = (some w, err (error_text e))
  answered (some (w, ok output)) = (some w, ok output)

  abbrev pub command : (W → String → ℕ → Option (W × Result Error String)) → ReplCommand (Option W)
  command handler payload client none = (none, err [])
  command handler payload client (some w) = answered (handler w payload client)

-- a handler without output
abbrev pub silent : {A : Type 0} → A × Option Error → A × Result Error String
silent (w, none) = (w, ok [])
silent (w, some e) = (w, err e)

abbrev pub silent_run : {A : Type 0} → Option (A × Option Error) → Option (A × Result Error String)
silent_run none = none
silent_run (some r) = some (silent r)
