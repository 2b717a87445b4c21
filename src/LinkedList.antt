-- ===== src/LinkedList.antt =====
-- pkg/list/list.go: a doubly linked list on a heap. A pointer is an address, `none` is nil; the store
-- holds the lists and the links at their addresses. An operation is `none` where Go would
-- dereference nil. Nothing is freed.
pub mod Commands
use recovery_stencil.Prelude.{
  ℕ, zero, suc, ◌+◌, Bool, true, false, not, ◌&&◌, Option, none, some, List, [], ◌∷◌, ◌++◌, length,
  get_elem?, set, ◌>>=◌, if◌then◌else◌,
}

pub record LinkedList : Type 0 where
  pub head : Option ℕ
  pub tail : Option ℕ

pub record Link {ℓ} (V : Type ℓ) : Type ℓ where
  pub list : Option ℕ
  pub prev : Option ℕ
  pub next : Option ℕ
  pub value : V

pub record Store {ℓ} (V : Type ℓ) : Type ℓ where
  pub lists : List LinkedList
  pub links : List (Link V)

abbrev pub is_nil : Option ℕ → Bool
is_nil none = true
is_nil (some a) = false

module _ {ℓ} {V : Type ℓ} where
  -- the list and the address that NewList returns
  unfoldable pub new_list : Store V → Store V × ℕ
  new_list s =
      (record s { lists = s.lists ++ record { head = none; tail = none } ∷ [] }, length s.lists)

  unfoldable pub get_link : Store V → ℕ → Option (Link V)
  get_link s a = get_elem? s.links a

  unfoldable pub put_link : Store V → ℕ → Link V → Store V
  put_link s a l = record s { links = set s.links a l }

  unfoldable pub put_list : Store V → ℕ → LinkedList → Store V
  put_list s a l = record s { lists = set s.lists a l }

  -- p.prev = q and p.next = q, through a pointer that may be nil
  unfoldable pub set_prev : Store V → Option ℕ → Option ℕ → Option (Store V)
  unfolding get_link put_link
  set_prev s none q = none
  set_prev s (some a) q = do l ← get_link s a; some (put_link s a (record l { prev = q }))

  unfoldable pub set_next : Store V → Option ℕ → Option ℕ → Option (Store V)
  unfolding get_link put_link
  set_next s none q = none
  set_next s (some a) q = do l ← get_link s a; some (put_link s a (record l { next = q }))

  unfoldable pub peek_head : Store V → ℕ → Option (Option ℕ)
  peek_head s list = do l ← get_elem? s.lists list; some l.head

  unfoldable pub peek_tail : Store V → ℕ → Option (Option ℕ)
  peek_tail s list = do l ← get_elem? s.lists list; some l.tail

  -- the store and the address of the new link
  unfoldable pub push_head : Store V → ℕ → V → Option (Store V × ℕ)
  unfolding set_prev put_list
  push_head s list value =
      let new = length s.links in
      do
        l ← get_elem? s.lists list
        linked ←
            (let made = record s {
              links =
                  s.links
                  ++ record { list = some list; prev = none; next = l.head; value = value } ∷ [];
            } in
              if is_nil l.head then some made else set_prev made l.head (some new))
        some (
          put_list linked list
              (record { head = some new; tail = if is_nil l.tail then some new else l.tail }),
          new,
        )

  unfoldable pub push_tail : Store V → ℕ → V → Option (Store V × ℕ)
  unfolding set_next put_list
  push_tail s list value =
      let new = length s.links in
      do
        l ← get_elem? s.lists list
        linked ←
            (let made = record s {
              links =
                  s.links
                  ++ record { list = some list; prev = l.tail; next = none; value = value } ∷ [];
            } in
              if is_nil l.tail then some made else set_next made l.tail (some new))
        some (
          put_list linked list
              (record { head = if is_nil l.head then some new else l.head; tail = some new }),
          new,
        )

  -- the loop of Find from a link on; on fuel, `none` when it runs out
  unfoldable pub find_from : ℕ → Store V → (Link V → Bool) → Option ℕ → Option (Option ℕ)
  unfolding get_link
  find_from fuel s f none = some none
  find_from zero s f (some a) = none
  find_from (suc fuel) s f (some a) = do
    l ← get_link s a
    elim (f l) [ true ↦ some (some a) | false ↦ find_from fuel s f l.next ]

  -- a list without a cycle visits each link once
  unfoldable pub find : Store V → ℕ → (Link V → Bool) → Option (Option ℕ)
  unfolding find_from
  find s list f = do l ← get_elem? s.lists list; find_from (length s.links) s f l.head

  -- the loop of Map, whose function may change the store through the address of the link
  unfoldable pub map_from :
      ℕ → Store V → (Store V → ℕ → Option (Store V)) → Option ℕ → Option (Store V)
  unfolding get_link
  map_from fuel s f none = some s
  map_from zero s f (some a) = none
  map_from (suc fuel) s f (some a) = do s' ← f s a; l ← get_link s' a; map_from fuel s' f l.next

  unfoldable pub map : Store V → ℕ → (Store V → ℕ → Option (Store V)) → Option (Store V)
  unfolding map_from
  map s list f = do l ← get_elem? s.lists list; map_from (length s.links) s f l.head

  unfoldable pub get_list : Store V → ℕ → Option (Option ℕ)
  get_list s a = do l ← get_link s a; some l.list

  unfoldable pub get_value : Store V → ℕ → Option V
  get_value s a = do l ← get_link s a; some l.value

  unfoldable pub set_value : Store V → ℕ → V → Option (Store V)
  set_value s a value = do l ← get_link s a; some (put_link s a (record l { value = value }))

  unfoldable pub get_prev : Store V → ℕ → Option (Option ℕ)
  get_prev s a = do l ← get_link s a; some l.prev

  unfoldable pub get_next : Store V → ℕ → Option (Option ℕ)
  get_next s a = do l ← get_link s a; some l.next

  -- a change of the list to which a link points
  unfoldable pub change_list : Store V → Option ℕ → (LinkedList → LinkedList) → Option (Store V)
  unfolding put_list
  change_list s none f = none
  change_list s (some a) f = do l ← get_elem? s.lists a; some (put_list s a (f l))

  -- a change of the link itself
  unfoldable pub change_link : Store V → ℕ → (Link V → Link V) → Option (Store V)
  unfolding get_link put_link
  change_link s a f = do l ← get_link s a; some (put_link s a (f l))

  -- PopSelf; the pointers it reads after a change are read again from the store
  unfoldable pub pop_self : Store V → ℕ → Option (Store V)
  unfolding get_link set_prev set_next change_list change_link
  pop_self s a = do
    l ← get_link s a
    if is_nil l.prev && is_nil l.next
        then (do
          emptied ← change_list s l.list (λ t. record { head = none; tail = none })
          change_link emptied a (λ x. record x { list = none }))
        else if is_nil l.prev
        then (do
          cut ← set_prev s l.next none
          l' ← get_link cut a
          moved ← change_list cut l'.list (λ t. record t { head = l'.next })
          change_link moved a (λ x. record x { list = none; next = none }))
        else if is_nil l.next
        then (do
          cut ← set_next s l.prev none
          l' ← get_link cut a
          moved ← change_list cut l'.list (λ t. record t { tail = l'.prev })
          change_link moved a (λ x. record x { list = none; prev = none }))
        else (do
          once ← set_next s l.prev l.next
          l' ← get_link once a
          twice ← set_next once l'.prev l'.next
          l'' ← get_link twice a
          joined ← set_prev twice l''.next l.prev
          change_link joined a (λ x. record x { list = none; next = none; prev = none }))
