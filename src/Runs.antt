-- ===== src/Runs.antt =====
-- Runs of the operations that the theorems do not reach, on small inputs.
use recovery_stencil.Prelude.{ℕ, ◌≡◌, refl, Option, none, some, [], ◌∷◌, ◌>>=◌}
use recovery_stencil.LinkedList.{Store, push_tail, pop_self, get_next, peek_head, peek_tail}
use recovery_stencil.Repl.{fields}

-- the values of a list's links from its head on, and from its tail back
abbrev three : Option (Store ℕ)
three = do
  (a, i) ← push_tail (record { lists = record { head = none; tail = none } ∷ []; links = [] }) 0 7
  (b, j) ← push_tail a 0 8
  (c, k) ← push_tail b 0 9
  some c

pop_self_middle : (three >>= λ s. pop_self s 1 >>= λ t. get_next t 0) ≡ some (some 2)
unfolding push_tail pop_self get_next
pop_self_middle = refl

pop_self_head : (three >>= λ s. pop_self s 0 >>= λ t. peek_head t 0) ≡ some (some 1)
unfolding push_tail pop_self peek_head
pop_self_head = refl

pop_self_tail : (three >>= λ s. pop_self s 2 >>= λ t. peek_tail t 0) ≡ some (some 1)
unfolding push_tail pop_self peek_tail
pop_self_tail = refl

-- " ab  c" has the words "ab" and "c"
fields_run : fields (32 ∷ 97 ∷ 98 ∷ 32 ∷ 32 ∷ 99 ∷ []) ≡ (97 ∷ 98 ∷ []) ∷ (99 ∷ []) ∷ []
unfolding fields
fields_run = refl
