-- ===== src/Recovery/Restart/Payloads.antt =====
-- The payloads that redo and undo print, read by the handlers: pkg/recovery/recovery_manager.go.
use recovery_stencil.Prelude.{true, [], ◌∷◌, ◌≡◌, refl}
use recovery_stencil.Prelude.Int.{ℤ, IsInt64}
use recovery_stencil.Repl.{String}
use recovery_stencil.Text.{codes, itoa}
use recovery_stencil.Text.Words.{is_word, fields-join_words, itoa-is_word}
use recovery_stencil.Text.Numbers.{atoi-itoa}
use recovery_stencil.Database.Effects.{InsertWords, UpdateWords, DeleteWords}
use recovery_stencil.Recovery.Restart.{insert_payload, update_payload, delete_payload}

-- The payloads that undo prints are read back by the handlers.
pub insert_payload-words :
    (key value : ℤ) (name : String)
    → IsInt64 key
    → IsInt64 value
    → is_word name ≡ true
    → InsertWords (insert_payload key value name) name key value
unfolding insert_payload
insert_payload-words key value name k v n = record {
  verb = codes "insert";
  key_word = itoa key;
  value_word = itoa value;
  words =
      fields-join_words (codes "insert" ∷ itoa key ∷ itoa value ∷ codes "into" ∷ name ∷ [])
        (rw (itoa-is_word key k, itoa-is_word value v, n) refl);
  read_key = atoi-itoa key k;
  read_value = atoi-itoa value v;
}

pub update_payload-words :
    (name : String) (key value : ℤ)
    → IsInt64 key
    → IsInt64 value
    → is_word name ≡ true
    → UpdateWords (update_payload name key value) name key value
unfolding update_payload
update_payload-words name key value k v n = record {
  verb = codes "update";
  key_word = itoa key;
  value_word = itoa value;
  words =
      fields-join_words (codes "update" ∷ name ∷ itoa key ∷ itoa value ∷ [])
        (rw (itoa-is_word key k, itoa-is_word value v, n) refl);
  read_key = atoi-itoa key k;
  read_value = atoi-itoa value v;
}

pub delete_payload-words :
    (key : ℤ) (name : String)
    → IsInt64 key
    → is_word name ≡ true
    → DeleteWords (delete_payload key name) name key
unfolding delete_payload
delete_payload-words key name k n = record {
  verb = codes "delete";
  key_word = itoa key;
  words =
      fields-join_words (codes "delete" ∷ itoa key ∷ codes "from" ∷ name ∷ [])
        (rw (itoa-is_word key k, n) refl);
  read_key = atoi-itoa key k;
}
