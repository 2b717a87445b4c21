-- ===== src/Concurrency/Manager.antt =====
-- pkg/concurrency/transaction.go and transaction_manager.go. A client id is a number, which the code
-- only compares; `address` is the identity of the struct to which a *Transaction points. A call of
-- Lock is two steps, `request` up to the wait for the resource and `acquire` from there on. Each
-- step below is atomic in the model. The code holds the manager's mutex during `request` only for
-- reading, which other calls of Lock share, and in `acquire` the mutex of the entry is taken
-- before the lock is entered at the transaction.
pub mod Holders
pub mod Consistent
pub mod Commit
pub mod Steps
pub mod Inversion
pub mod Safety
use recovery_stencil.Prelude.{
  ℕ, zero, suc, ◌+◌, Bool, true, false, Option, none, some, List, [], ◌∷◌, ◌++◌, ◌==◌,
  if◌then◌else◌, Result, ok, err, ◌>>=◌, ◌≡◌,
}
use mathlib.Core.Logic.{ite}
use mathlib.Core.List.{reverse}
use recovery_stencil.Prelude.Int.{ℤ}
use recovery_stencil.Concurrency.Graph.{Graph, new_graph, add_edge, remove_edge, detect_cycle}
use recovery_stencil.Concurrency.Resource
use recovery_stencil.Concurrency.Resource.{
  LockType, r_lock, w_lock, LockType-discrete, Resource, ResourceLockManager, UnlockOutcome,
  unlock_ok, unlock_nonexistent, unlock_fatal, unlock_waits,
}

pub record Transaction : Type 0 where
  pub client_id : ℕ
  pub address : ℕ
  pub locked_resources : List (Resource × LockType)

-- `transactions` is the map from client ids, in some order
pub record TransactionManager : Type 0 where
  pub resource_lock_manager : ResourceLockManager
  pub waits_for_graph : Graph
  pub transactions : List Transaction
  pub next_address : ℕ

pub data TmError : Type 0 where
  already_began not_found cannot_upgrade deadlock_detected incorrect_unlock_type : TmError
  was_not_locked no_transaction_running : TmError
  unlock_failed : UnlockOutcome → TmError

unfoldable pub new_transaction_manager : ResourceLockManager → TransactionManager
new_transaction_manager lm = record {
  resource_lock_manager = lm;
  waits_for_graph = new_graph;
  transactions = [];
  next_address = 0;
}

unfoldable pub find_transaction : ℕ → List Transaction → Option Transaction
find_transaction client [] = none
find_transaction client (t ∷ ts) =
    if t.client_id == client then some t else find_transaction client ts

unfoldable pub get_transaction : TransactionManager → ℕ → Option Transaction
unfolding find_transaction
get_transaction tm client = find_transaction client tm.transactions

-- t.lockedResources = locked, for the client's transaction
unfoldable pub set_locked : ℕ → List (Resource × LockType) → List Transaction → List Transaction
set_locked client locked [] = []
set_locked client locked (t ∷ ts) =
    if t.client_id == client
    then record t { locked_resources = locked } ∷ ts
    else t ∷ set_locked client locked ts

-- delete(tm.transactions, clientId)
unfoldable pub remove_transaction : ℕ → List Transaction → List Transaction
remove_transaction client [] = []
remove_transaction client (t ∷ ts) =
    if t.client_id == client then ts else t ∷ remove_transaction client ts

unfoldable pub begin : TransactionManager → ℕ → Result TmError TransactionManager
unfolding find_transaction
begin tm client = elim (find_transaction client tm.transactions) [
  | some t ↦ err already_began
  | none ↦ ok (record tm {
    transactions =
        record { client_id = client; address = tm.next_address; locked_resources = [] }
        ∷ tm.transactions;
    next_address = tm.next_address + 1;
  })
]

-- storedType == W_LOCK || lType == W_LOCK
abbrev pub conflicts : LockType → LockType → Bool
conflicts w_lock t = true
conflicts r_lock w_lock = true
conflicts r_lock r_lock = false

unfoldable pub holds_conflict : Resource → LockType → List (Resource × LockType) → Bool
holds_conflict r t locked = elim (Resource.lookup r locked) [
  | none ↦ false
  | some s ↦ conflicts s t
]

unfoldable pub conflicting_transactions : Resource → LockType → List Transaction → List Transaction
unfolding holds_conflict Resource.lookup
conflicting_transactions r t [] = []
conflicting_transactions r t (x ∷ xs) =
    if holds_conflict r t x.locked_resources
    then x ∷ conflicting_transactions r t xs
    else conflicting_transactions r t xs

-- an edge from the transaction to each other one that conflicts
unfoldable pub add_edges : Graph → ℕ → List Transaction → Graph
add_edges g source [] = g
add_edges g source (x ∷ xs) =
    add_edges (if source == x.address then g else add_edge g source x.address) source xs

-- the deferred calls of RemoveEdge, the last one first; their errors are dropped
unfoldable pub remove_edges : Graph → ℕ → List Transaction → Graph
remove_edges g source [] = g
remove_edges g source (x ∷ xs) =
    let g' = remove_edges g source xs in
    if source == x.address then g' else (elim (remove_edge g' source x.address) [
      | none ↦ g'
      | some (ok rest) ↦ rest
      | some (err e) ↦ g'
    ])

pub data LockOutcome : Type 0 where
  -- the call has returned
  refused : TmError → LockOutcome
  already_held : LockOutcome
  -- the call waits for the resource, and will remove the edges to these transactions
  waits : List Transaction → LockOutcome

-- Lock, up to the call of the resource lock manager
unfoldable pub request :
    TransactionManager → ℕ → Resource → LockType → TransactionManager × LockOutcome
unfolding find_transaction conflicting_transactions add_edges remove_edges
request tm client r t = elim (find_transaction client tm.transactions) [
  | none ↦ (tm, refused not_found)
  | some x ↦ elim (Resource.lookup r x.locked_resources) [
    | some r_lock ↦ ite (LockType-discrete t r_lock) (tm, already_held) (tm, refused cannot_upgrade)
    | some w_lock ↦ (tm, already_held)
    | none ↦
        let others = conflicting_transactions r t tm.transactions in
        let g = add_edges tm.waits_for_graph x.address others in
        elim (detect_cycle g) [
          | none ↦ (tm, refused deadlock_detected)
          | some true ↦ (
            record tm { waits_for_graph = remove_edges g x.address others },
            refused deadlock_detected,
          )
          | some false ↦ (record tm { waits_for_graph = g }, waits others)
        ]
  ]
]

-- Lock, from the call of the resource lock manager on; none while it waits
unfoldable pub acquire :
    TransactionManager → ℕ → Resource → LockType → List Transaction → Option TransactionManager
unfolding find_transaction set_locked remove_edges Resource.lock Resource.insert
acquire tm client r t others = do
  x ← find_transaction client tm.transactions
  lm ← Resource.lock tm.resource_lock_manager r t
  some (record tm {
    resource_lock_manager = lm;
    transactions = set_locked client (Resource.insert r t x.locked_resources) tm.transactions;
    waits_for_graph = remove_edges tm.waits_for_graph x.address others;
  })

-- what Unlock makes of the answer of the resource lock manager
abbrev pub unlock_result :
    TransactionManager → ResourceLockManager × UnlockOutcome → TransactionManager × Option TmError
unlock_result tm (lm, unlock_ok) = (record tm { resource_lock_manager = lm }, none)
unlock_result tm (lm, o) = (record tm { resource_lock_manager = lm }, some (unlock_failed o))

-- the manager after Unlock, and its error if there was one
unfoldable pub unlock :
    TransactionManager → ℕ → Resource → LockType → TransactionManager × Option TmError
unfolding find_transaction set_locked Resource.lookup Resource.delete
unlock tm client r t = elim (find_transaction client tm.transactions) [
  | none ↦ (tm, some not_found)
  | some x ↦ elim (Resource.lookup r x.locked_resources) [
    | none ↦ (tm, some was_not_locked)
    | some stored ↦
        ite (LockType-discrete stored t)
          (unlock_result
            (record tm {
              transactions =
                  set_locked client (Resource.delete r x.locked_resources) tm.transactions;
            })
            (Resource.unlock tm.resource_lock_manager r t))
          (tm, some incorrect_unlock_type)
  ]
]

-- the loop of Commit, which stops at the first error
unfoldable pub unlock_all :
    ResourceLockManager → List (Resource × LockType) → ResourceLockManager × Option TmError
unlock_all lm [] = (lm, none)
unlock_all lm (e ∷ es) =
    let (lm', o) = Resource.unlock lm e.0 e.1 in
    let rest = unlock_all lm' es in
    elim o [ unlock_ok ↦ rest | other ↦ (lm', some (unlock_failed other)) ]

unfoldable pub commit : TransactionManager → ℕ → TransactionManager × Option TmError
unfolding find_transaction unlock_all remove_transaction
commit tm client = elim (find_transaction client tm.transactions) [
  | none ↦ (tm, some no_transaction_running)
  | some x ↦
      let (lm, e) = unlock_all tm.resource_lock_manager x.locked_resources in
      elim e [
        | some error ↦ (record tm { resource_lock_manager = lm }, some error)
        | none ↦ (
          record tm {
            resource_lock_manager = lm;
            transactions = remove_transaction client tm.transactions;
          },
          none,
        )
      ]
]
