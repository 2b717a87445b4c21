-- ===== src/Examples/Logs.antt =====
-- A log of an edit, written and read back.
use recovery_stencil.Prelude.{ℕ, ok, ◌≡◌, refl, arith}
use recovery_stencil.Prelude.Int.{pos}
use recovery_stencil.Repl.{String}
use recovery_stencil.Text.{codes}
use recovery_stencil.Recovery.{update_action, EditLog, edit_log, to_string}
use recovery_stencil.Recovery.Parse.{log_from_string}
use recovery_stencil.Recovery.Parse.RoundTrip.{log_from_string-to_string}

abbrev uuid_of : ℕ → String
uuid_of id = codes "6ba7b810-9dad-11d1-80b4-00c04fd430c8"

abbrev id_of : String → ℕ
id_of s = 7

abbrev an_edit : EditLog
an_edit = record {
  id = 7;
  tablename = codes "accounts";
  action = update_action;
  key = pos 5;
  oldval = pos 70;
  newval = pos 0;
}

log_from_string-to_string_example :
    log_from_string id_of (to_string uuid_of (edit_log an_edit)) ≡ ok (edit_log an_edit)
log_from_string-to_string_example =
    log_from_string-to_string id_of uuid_of (edit_log an_edit) (record {
      uuid = record {
        a = codes "6ba7b810";
        b = codes "9dad";
        c = codes "11d1";
        d = codes "80b4";
        e = codes "00c04fd430c8";
        text = refl;
        group_a = record { count = refl; hex = refl };
        group_b = record { count = refl; hex = refl };
        group_c = record { count = refl; hex = refl };
        group_d = record { count = refl; hex = refl };
        group_e = record { count = refl; hex = refl };
      };
      parsed = refl;
      name = record { first = 97; others = codes "ccounts"; text = refl; letters = refl };
      key = record { value = 5; same = refl; bound = omega arith };
      oldval = record { value = 70; same = refl; bound = omega arith };
      newval = record { value = 0; same = refl; bound = omega arith };
    })
