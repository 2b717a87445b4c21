-- ===== src/LinkedList/Commands.antt =====
-- pkg/list/list_repl.go: the commands on one list of strings, for the REPL. The state behind the commands
-- is the store of the list, `none` after a panic. A text constant is its list of code points.
use recovery_stencil.Prelude.{
  ℕ, zero, suc, Option, none, some, List, [], ◌∷◌, ◌++◌, length, ◌==◌ as nat_eq, ◌>>=◌,
  if◌then◌else◌, Result, ok, err,
}
use recovery_stencil.Repl.{String, ◌==◌, newline, Repl, ReplCommand, new_repl, add_command}
use recovery_stencil.LinkedList
use recovery_stencil.LinkedList.{
  Store, Link, push_head, push_tail, find, pop_self, get_value, find_from,
}

abbrev pub ListState : Type 0
ListState = Option (Store String)

-- strings.Split(s, " "), with a piece read so far
unfoldable pub split_from : String → String → List String
split_from w [] = w ∷ []
split_from w (c ∷ s) =
    let next = split_from [] s in
    let more = split_from (w ++ c ∷ []) s in if nat_eq c 32 then w ∷ next else more

unfoldable pub split : String → List String
unfolding split_from
split s = split_from [] s

-- "list_print"
abbrev pub trigger_list_print : String
trigger_list_print = 108 ∷ 105 ∷ 115 ∷ 116 ∷ 95 ∷ 112 ∷ 114 ∷ 105 ∷ 110 ∷ 116 ∷ []

-- "list_push_head"
abbrev pub trigger_list_push_head : String
trigger_list_push_head =
    108 ∷ 105 ∷ 115 ∷ 116 ∷ 95 ∷ 112 ∷ 117 ∷ 115 ∷ 104 ∷ 95 ∷ 104 ∷ 101 ∷ 97 ∷ 100 ∷ []

-- "list_push_tail"
abbrev pub trigger_list_push_tail : String
trigger_list_push_tail =
    108 ∷ 105 ∷ 115 ∷ 116 ∷ 95 ∷ 112 ∷ 117 ∷ 115 ∷ 104 ∷ 95 ∷ 116 ∷ 97 ∷ 105 ∷ 108 ∷ []

-- "list_remove"
abbrev pub trigger_list_remove : String
trigger_list_remove = 108 ∷ 105 ∷ 115 ∷ 116 ∷ 95 ∷ 114 ∷ 101 ∷ 109 ∷ 111 ∷ 118 ∷ 101 ∷ []

-- "list_contains"
abbrev pub trigger_list_contains : String
trigger_list_contains =
    108 ∷ 105 ∷ 115 ∷ 116 ∷ 95 ∷ 99 ∷ 111 ∷ 110 ∷ 116 ∷ 97 ∷ 105 ∷ 110 ∷ 115 ∷ []

-- "invalid arguments, usage: list_print"
abbrev pub err_list_print_invalid_args : String
err_list_print_invalid_args =
    105 ∷ 110 ∷ 118 ∷ 97 ∷ 108 ∷ 105 ∷ 100 ∷ 32 ∷ 97 ∷ 114 ∷ 103 ∷ 117 ∷ 109 ∷ 101 ∷ 110 ∷ 116 ∷ 115
    ∷ 44 ∷ 32 ∷ 117 ∷ 115 ∷ 97 ∷ 103 ∷ 101 ∷ 58 ∷ 32 ∷ 108 ∷ 105 ∷ 115 ∷ 116 ∷ 95 ∷ 112 ∷ 114 ∷ 105
    ∷ 110 ∷ 116 ∷ []

-- "invalid arguments, usage: list_push_head <elt>"
abbrev pub err_list_push_head_invalid_args : String
err_list_push_head_invalid_args =
    105 ∷ 110 ∷ 118 ∷ 97 ∷ 108 ∷ 105 ∷ 100 ∷ 32 ∷ 97 ∷ 114 ∷ 103 ∷ 117 ∷ 109 ∷ 101 ∷ 110 ∷ 116 ∷ 115
    ∷ 44 ∷ 32 ∷ 117 ∷ 115 ∷ 97 ∷ 103 ∷ 101 ∷ 58 ∷ 32 ∷ 108 ∷ 105 ∷ 115 ∷ 116 ∷ 95 ∷ 112 ∷ 117 ∷ 115
    ∷ 104 ∷ 95 ∷ 104 ∷ 101 ∷ 97 ∷ 100 ∷ 32 ∷ 60 ∷ 101 ∷ 108 ∷ 116 ∷ 62 ∷ []

-- "invalid arguments, usage: list_push_tail <elt>"
abbrev pub err_list_push_tail_invalid_args : String
err_list_push_tail_invalid_args =
    105 ∷ 110 ∷ 118 ∷ 97 ∷ 108 ∷ 105 ∷ 100 ∷ 32 ∷ 97 ∷ 114 ∷ 103 ∷ 117 ∷ 109 ∷ 101 ∷ 110 ∷ 116 ∷ 115
    ∷ 44 ∷ 32 ∷ 117 ∷ 115 ∷ 97 ∷ 103 ∷ 101 ∷ 58 ∷ 32 ∷ 108 ∷ 105 ∷ 115 ∷ 116 ∷ 95 ∷ 112 ∷ 117 ∷ 115
    ∷ 104 ∷ 95 ∷ 116 ∷ 97 ∷ 105 ∷ 108 ∷ 32 ∷ 60 ∷ 101 ∷ 108 ∷ 116 ∷ 62 ∷ []

-- "link with given value was not found"
abbrev pub err_list_remove_value_not_found : String
err_list_remove_value_not_found =
    108 ∷ 105 ∷ 110 ∷ 107 ∷ 32 ∷ 119 ∷ 105 ∷ 116 ∷ 104 ∷ 32 ∷ 103 ∷ 105 ∷ 118 ∷ 101 ∷ 110 ∷ 32 ∷ 118
    ∷ 97 ∷ 108 ∷ 117 ∷ 101 ∷ 32 ∷ 119 ∷ 97 ∷ 115 ∷ 32 ∷ 110 ∷ 111 ∷ 116 ∷ 32 ∷ 102 ∷ 111 ∷ 117 ∷ 110
    ∷ 100 ∷ []

-- "invalid arguments, usage: list_remove <elt>"
abbrev pub err_list_remove_invalid_args : String
err_list_remove_invalid_args =
    105 ∷ 110 ∷ 118 ∷ 97 ∷ 108 ∷ 105 ∷ 100 ∷ 32 ∷ 97 ∷ 114 ∷ 103 ∷ 117 ∷ 109 ∷ 101 ∷ 110 ∷ 116 ∷ 115
    ∷ 44 ∷ 32 ∷ 117 ∷ 115 ∷ 97 ∷ 103 ∷ 101 ∷ 58 ∷ 32 ∷ 108 ∷ 105 ∷ 115 ∷ 116 ∷ 95 ∷ 114 ∷ 101 ∷ 109
    ∷ 111 ∷ 118 ∷ 101 ∷ 32 ∷ 60 ∷ 101 ∷ 108 ∷ 116 ∷ 62 ∷ []

-- "invalid arguments, usage: list_contains <elt>"
abbrev pub err_list_contains_invalid_args : String
err_list_contains_invalid_args =
    105 ∷ 110 ∷ 118 ∷ 97 ∷ 108 ∷ 105 ∷ 100 ∷ 32 ∷ 97 ∷ 114 ∷ 103 ∷ 117 ∷ 109 ∷ 101 ∷ 110 ∷ 116 ∷ 115
    ∷ 44 ∷ 32 ∷ 117 ∷ 115 ∷ 97 ∷ 103 ∷ 101 ∷ 58 ∷ 32 ∷ 108 ∷ 105 ∷ 115 ∷ 116 ∷ 95 ∷ 99 ∷ 111 ∷ 110
    ∷ 116 ∷ 97 ∷ 105 ∷ 110 ∷ 115 ∷ 32 ∷ 60 ∷ 101 ∷ 108 ∷ 116 ∷ 62 ∷ []

-- "value was found"
abbrev pub output_list_contains_found : String
output_list_contains_found =
    118 ∷ 97 ∷ 108 ∷ 117 ∷ 101 ∷ 32 ∷ 119 ∷ 97 ∷ 115 ∷ 32 ∷ 102 ∷ 111 ∷ 117 ∷ 110 ∷ 100 ∷ []

-- "value was not found"
abbrev pub output_list_contains_not_found : String
output_list_contains_not_found =
    118 ∷ 97 ∷ 108 ∷ 117 ∷ 101 ∷ 32 ∷ 119 ∷ 97 ∷ 115 ∷ 32 ∷ 110 ∷ 111 ∷ 116 ∷ 32 ∷ 102 ∷ 111 ∷ 117
    ∷ 110 ∷ 100 ∷ []

-- the lines that list_print collects with Map
unfoldable pub print_from : ℕ → Store String → Option ℕ → Option String
print_from fuel s none = some []
print_from zero s (some a) = none
print_from (suc fuel) s (some a) = do
  l ← LinkedList.get_link s a
  rest ← print_from fuel s l.next
  some (l.value ++ newline ++ rest)

-- the list's address is that of the list given to ListRepl
module _ (list : ℕ) where
  unfoldable pub list_print : ReplCommand ListState
  list_print payload client none = (none, err [])
  list_print payload client (some s) =
      if nat_eq (length (split payload)) 1
      then (elim (LinkedList.peek_head s list >>= print_from (length s.links) s) [
        | none ↦ (none, err [])
        | some text ↦ (some s, ok text)
      ])
      else (some s, err err_list_print_invalid_args)

  -- what a command answers when it has pushed or popped
  abbrev pub stored : Option (Store String) → ListState × Result String String
  stored none = (none, err [])
  stored (some s) = (some s, ok [])

  unfoldable pub list_push_head : ReplCommand ListState
  list_push_head payload client none = (none, err [])
  list_push_head payload client (some s) = elim (split payload) [
    | a ∷ elt ∷ [] ↦ stored (do (s', link) ← push_head s list elt; some s')
    | other ↦ (some s, err err_list_push_head_invalid_args)
  ]

  unfoldable pub list_push_tail : ReplCommand ListState
  list_push_tail payload client none = (none, err [])
  list_push_tail payload client (some s) = elim (split payload) [
    | a ∷ elt ∷ [] ↦ stored (do (s', link) ← push_tail s list elt; some s')
    | other ↦ (some s, err err_list_push_tail_invalid_args)
  ]

  unfoldable pub list_remove : ReplCommand ListState
  list_remove payload client none = (none, err [])
  list_remove payload client (some s) = elim (split payload) [
    | a ∷ elt ∷ [] ↦ elim (find s list (λ l. l.value == elt)) [
      | none ↦ (none, err [])
      | some none ↦ (some s, err err_list_remove_value_not_found)
      | some (some link) ↦ stored (pop_self s link)
    ]
    | other ↦ (some s, err err_list_remove_invalid_args)
  ]

  unfoldable pub list_contains : ReplCommand ListState
  list_contains payload client none = (none, err [])
  list_contains payload client (some s) = elim (split payload) [
    | a ∷ elt ∷ [] ↦ elim (find s list (λ l. l.value == elt)) [
      | none ↦ (none, err [])
      | some none ↦ (some s, ok output_list_contains_not_found)
      | some (some link) ↦ (some s, ok output_list_contains_found)
    ]
    | other ↦ (some s, err err_list_contains_invalid_args)
  ]

  -- ListRepl, given the five help strings
  unfoldable pub list_repl : String → String → String → String → String → Repl ListState
  list_repl help_print help_push_head help_push_tail help_remove help_contains =
      add_command
        (add_command
          (add_command
            (add_command (add_command new_repl trigger_list_print list_print help_print)
              trigger_list_push_head list_push_head help_push_head)
            trigger_list_push_tail list_push_tail help_push_tail)
          trigger_list_remove list_remove help_remove)
        trigger_list_contains list_contains help_contains
