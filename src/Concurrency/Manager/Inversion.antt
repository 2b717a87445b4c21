-- ===== src/Concurrency/Manager/Inversion.antt =====
-- pkg/concurrency/transaction_manager.go: what each operation that returned has read and written.
use recovery_stencil.Prelude.{
  ℕ, ◌≡◌, ap, ◌∙◌, ◌⊎◌, inl, inr, Option, none, some, List, [], ◌∷◌, arith, ◌==◌, ok, Option-cases,
  Bool-cases, ==_iff,
}
use recovery_stencil.Concurrency.Resource
use recovery_stencil.Concurrency.Resource.{
  Resource, LockType, LockType-discrete, r_lock, w_lock, ResourceLockManager, RwMutex,
  UnlockOutcome, lookup, new_resource_lock_manager, get_mutex,
}
use recovery_stencil.Concurrency.Manager.{
  Transaction, TransactionManager, TmError, waits, find_transaction, set_locked, begin, request,
  acquire, unlock, commit, unlock_all, remove_transaction,
}
use recovery_stencil.Concurrency.Manager.Holders.{holders}
use recovery_stencil.Concurrency.Manager.Consistent.{kind_count-none}

-- what `request` leaves alone, whatever it answers
pub request_keeps :
    (tm : TransactionManager) (client : ℕ) (r : Resource) (t : LockType)
    → ((request tm client r t).0.resource_lock_manager ≡ tm.resource_lock_manager)
      × ((request tm client r t).0.transactions ≡ tm.transactions)
unfolding request
request_keeps tm client r t = ground arith

pub request_waits :
    (tm tm' : TransactionManager) (client : ℕ) (r : Resource) (t : LockType)
    (others : List Transaction)
    → request tm client r t ≡ (tm', waits others)
    → (x : Transaction) × (find_transaction client tm.transactions ≡ some x)
      × (lookup r x.locked_resources ≡ none)
unfolding request
request_waits tm tm' client r t others h =
    elim (Option-cases (find_transaction client tm.transactions)) [
      | inl miss ↦ absurd (ground arith)
      | inr (x, found) ↦ elim (Option-cases (lookup r x.locked_resources)) [
        | inl absent ↦ (x, found, absent)
        | inr (k, held) ↦ absurd (ground arith)
      ]
    ]

-- Begin adds a transaction without locks, if the client has none.
pub begin_inv :
    (tm tm' : TransactionManager) (client : ℕ)
    → begin tm client ≡ ok tm'
    → (find_transaction client tm.transactions ≡ none)
      × (tm'.resource_lock_manager ≡ tm.resource_lock_manager)
      × (tm'.transactions
          ≡ record { client_id = client; address = tm.next_address; locked_resources = [] }
            ∷ tm.transactions)
unfolding begin
begin_inv tm tm' client h = elim (Option-cases (find_transaction client tm.transactions)) [
  | inl miss ↦ (miss, ground arith, ground arith)
  | inr (x, found) ↦ absurd (ground arith)
]

-- Acquire locks the mutex, and then notes the lock in the transaction.
pub acquire_inv :
    (tm tm' : TransactionManager) (client : ℕ) (r : Resource) (t : LockType)
    (others : List Transaction) (x : Transaction)
    → find_transaction client tm.transactions ≡ some x
    → acquire tm client r t others ≡ some tm'
    → (lm : ResourceLockManager) × (Resource.lock tm.resource_lock_manager r t ≡ some lm)
      × (tm'.resource_lock_manager ≡ lm)
      × (tm'.transactions
          ≡ set_locked client (Resource.insert r t x.locked_resources) tm.transactions)
unfolding acquire
acquire_inv tm tm' client r t others x found h =
    elim (Option-cases (Resource.lock tm.resource_lock_manager r t)) [
      | inl wait ↦ absurd (ground arith)
      | inr (lm, run) ↦ (lm, run, ground arith, ground arith)
    ]

-- Unlock either changes nothing, or gives back a lock of the type that the transaction holds.
pub unlock_inv :
    (tm tm' : TransactionManager) (client : ℕ) (r : Resource) (t : LockType) (e : Option TmError)
    → unlock tm client r t ≡ (tm', e)
    → (tm' ≡ tm)
      ⊎ ((x : Transaction) × (find_transaction client tm.transactions ≡ some x)
          × (lookup r x.locked_resources ≡ some t)
          × (tm'.resource_lock_manager ≡ (Resource.unlock tm.resource_lock_manager r t).0)
          × (tm'.transactions
              ≡ set_locked client (Resource.delete r x.locked_resources) tm.transactions))
unfolding unlock
unlock_inv tm tm' client r t e h = elim (Option-cases (find_transaction client tm.transactions)) [
  | inl miss ↦ inl (ground arith)
  | inr (x, found) ↦ elim (Option-cases (lookup r x.locked_resources)) [
    | inl absent ↦ inl (ground arith)
    | inr (k, held) ↦ elim (LockType-discrete k t) [
      | no other ↦ inl (ground arith)
      | yes same ↦ inr (x, found, held ∙ ap some same, ground arith, ground arith)
    ]
  ]
]

pub commit_inv :
    (tm tm' : TransactionManager) (client : ℕ) (e : Option TmError)
    → commit tm client ≡ (tm', e)
    → (find_transaction client tm.transactions ≡ none → tm' ≡ tm)
      × ((x : Transaction) (lm : ResourceLockManager)
          → find_transaction client tm.transactions ≡ some x
          → unlock_all tm.resource_lock_manager x.locked_resources ≡ (lm, none)
          → (tm'.resource_lock_manager ≡ lm)
            × (tm'.transactions ≡ remove_transaction client tm.transactions)
            × (e ≡ none))
unfolding commit
commit_inv tm tm' client e h = (λ miss. ground arith, λ x lm found run. ground arith)

pub holders_fresh :
    (k : LockType) (q : Resource) (t : Transaction) (ts : List Transaction)
    → t.locked_resources ≡ []
    → holders k q (t ∷ ts) ≡ holders k q ts
unfolding holders lookup
holders_fresh k q t ts e = rw e (rw kind_count-none (omega arith))

pub find_fresh :
    (t : Transaction) (ts : List Transaction) (c : ℕ) (x : Transaction)
    → find_transaction t.client_id ts ≡ none
    → find_transaction c ts ≡ some x
    → find_transaction c (t ∷ ts) ≡ some x
unfolding find_transaction
find_fresh t ts c x miss found = elim (Bool-cases (t.client_id == c)) [
  | inl same ↦ let e : t.client_id ≡ c = (==_iff t.client_id c).0 same in cc (rw e at miss)
  | inr other ↦ rw other found
]
