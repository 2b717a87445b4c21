-- ===== src/Concurrency/Granted.antt =====
-- pkg/concurrency/transaction_manager.go: what a client holds once a call of Lock for writing has returned
-- without an error.
use recovery_stencil.Prelude.{
  ℕ, true, false, List, [], ◌∷◌, Option, none, some, ◌≡◌, refl, arith, ◌∙◌, sym, ap, ◌==◌,
  Option-cases, Bool-cases, inl, inr,
}
use mathlib.Core.Logic.{ite}
use mathlib.Core.Option.{some-injective}
use recovery_stencil.Prelude.Int.{ℤ}
use recovery_stencil.Errors.{Error}
use recovery_stencil.Repl.{String}
use recovery_stencil.Concurrency.Graph.{detect_cycle}
use recovery_stencil.Concurrency.Resource.{
  Resource, Resource-discrete, ResourceLockManager, LockType, LockType-discrete, r_lock, w_lock,
  insert,
}
use recovery_stencil.Concurrency.Resource as Resource
use recovery_stencil.Concurrency.Manager.{
  Transaction, TransactionManager, find_transaction, set_locked, request, acquire, LockOutcome,
  refused, already_held, cannot_upgrade, add_edges, conflicting_transactions, waits,
}
use recovery_stencil.Concurrency.Manager.Holders.{lookup-insert}
use recovery_stencil.Concurrency.Handlers.{lock, locked}
use recovery_stencil.Concurrency.Effects.{HoldsLock, entry_of}

find_transaction-set_locked :
    (client : ℕ) (l : List (Resource × LockType)) (x : Transaction) (ts : List Transaction)
    → find_transaction client ts ≡ some x
    → find_transaction client (set_locked client l ts) ≡ some (record x { locked_resources = l })
unfolding find_transaction set_locked
find_transaction-set_locked client l x [] h = cc h
find_transaction-set_locked client l x (t ∷ ts) h = elim (Bool-cases (t.client_id == client)) [
  | inl own ↦ let same : t ≡ x = ground arith in rw (own, own, same) refl
  | inr other ↦ rw (other, other) (find_transaction-set_locked client l x ts (rw other at h))
]

transactions_of :
    {tm tm' : TransactionManager} → some tm ≡ some tm' → tm'.transactions ≡ tm.transactions
transactions_of {tm} {tm'} h = ap (λ o. elim o [ none ↦ [] | some m ↦ m.transactions ]) (sym h)

acquire_lem :
    (tm tm' : TransactionManager) (client : ℕ) (r : Resource) (t : LockType)
    (others : List Transaction)
    → acquire tm client r t others ≡ some tm'
    → (x : Transaction) × (find_transaction client tm.transactions ≡ some x)
      × (tm'.transactions ≡ set_locked client (insert r t x.locked_resources) tm.transactions)
unfolding acquire
acquire_lem tm tm' client r t others h =
    elim (Option-cases (find_transaction client tm.transactions)) [
      | inl absent ↦ cc (rw absent at h)
      | inr (x, found) ↦ elim (Option-cases (Resource.lock tm.resource_lock_manager r t)) [
        | inl wait ↦ cc (rw (found, wait) at h)
        | inr (lm, run) ↦ (x, found, transactions_of (rw (found, run) at h))
      ]
    ]

-- whether Lock for writing found the resource locked that way by the client
abbrev FoundHeld : LockOutcome → TransactionManager → ℕ → Resource → Type 0
FoundHeld already_held tm client r =
    (x : Transaction) × (find_transaction client tm.transactions ≡ some x)
    × (Resource.lookup r x.locked_resources ≡ some w_lock)
FoundHeld _ tm client r = Unit

upgrade :
    (tm : TransactionManager) (client : ℕ) (r : Resource) (d : Dec (w_lock ≡ r_lock))
    → ((ite {C = TransactionManager × LockOutcome} d
          (tm, already_held)
          (tm, refused cannot_upgrade)).0.transactions
        ≡ tm.transactions)
      × FoundHeld
          (ite {C = TransactionManager × LockOutcome} d
            (tm, already_held)
            (tm, refused cannot_upgrade)).1
          tm
          client
          r
upgrade tm client r (yes e) = cc e
upgrade tm client r (no ne) = (refl, tt)

request_lem :
    (tm : TransactionManager) (client : ℕ) (r : Resource)
    → ((request tm client r w_lock).0.transactions ≡ tm.transactions)
      × FoundHeld (request tm client r w_lock).1 tm client r
unfolding request
request_lem tm client r = elim (Option-cases (find_transaction client tm.transactions)) [
  | inl absent ↦ rw (absent, request) (refl, tt)
  | inr (x, found) ↦ elim (Option-cases (Resource.lookup r x.locked_resources)) [
    | inr (r_lock, held) ↦
        rw (found, held, request) (upgrade tm client r (LockType-discrete w_lock r_lock))
    | inr (w_lock, held) ↦ rw (found, request) (rw held (refl, (x, found, held)))
    | inl fresh ↦
        rw (found, request)
          (rw fresh
            (elim (Option-cases (
              detect_cycle (
                add_edges tm.waits_for_graph x.address
                  (conflicting_transactions r w_lock tm.transactions)))) [
                    | inl unknown ↦ rw unknown (refl, tt)
                    | inr (true, cycle) ↦ rw cycle (refl, tt)
                    | inr (false, free) ↦ rw free (refl, tt)
                  ]))
  ]
]

-- the locks of one client's transactions that a later manager still has
abbrev pub KeepsLocks : TransactionManager → TransactionManager → ℕ → Type 0
KeepsLocks tm tm' client =
    (name : String) (key : ℤ) → HoldsLock tm client name key → HoldsLock tm' client name key

same_transactions :
    (tm tm' : TransactionManager) (client : ℕ)
    → tm'.transactions ≡ tm.transactions
    → KeepsLocks tm tm' client
same_transactions tm tm' client e name key h = record {
  transaction = h.transaction;
  running = rw e h.running;
  held = h.held;
}

-- the lock is entered, over one on the same entry, and the others stay
set_holds :
    (tm tm' : TransactionManager) (client : ℕ) (name : String) (key : ℤ) (x : Transaction)
    → find_transaction client tm.transactions ≡ some x
    → tm'.transactions
      ≡ set_locked client (insert (entry_of name key) w_lock x.locked_resources) tm.transactions
    → HoldsLock tm' client name key × KeepsLocks tm tm' client
set_holds tm tm' client name key x found eq =
    let l = insert (entry_of name key) w_lock x.locked_resources in
    let later = record x { locked_resources = l } in
    let now : find_transaction client tm'.transactions ≡ some later =
      rw eq (find_transaction-set_locked client l x tm.transactions found) in
    (
      record { transaction = later; running = now; held = entered (entry_of name key) x },
      λ n k h. record {
        transaction = later;
        running = now;
        held =
            kept (entry_of name key) (entry_of n k) x
              (rw (some-injective x h.transaction (sym found ∙ h.running)) h.held);
      },
    )
  where
    entered :
        (r : Resource) (x : Transaction)
        → Resource.lookup r (insert r w_lock x.locked_resources) ≡ some w_lock
    entered r x = ground (arith, lookup-insert r r w_lock x.locked_resources)

    kept :
        (r q : Resource) (x : Transaction)
        → Resource.lookup q x.locked_resources ≡ some w_lock
        → Resource.lookup q (insert r w_lock x.locked_resources) ≡ some w_lock
    kept r q x h = ground (arith, lookup-insert r q w_lock x.locked_resources)

module _ (tm tm' : TransactionManager) (client : ℕ) (name : String) (key : ℤ) where
  abbrev Granted : Type 0
  Granted = HoldsLock tm' client name key × KeepsLocks tm tm' client

  found_held :
      (tm1 : TransactionManager)
      → tm1.transactions ≡ tm.transactions
      → FoundHeld already_held tm client (entry_of name key)
      → tm1 ≡ tm'
      → Granted
  found_held tm1 e (x, running, held) h =
      let same : tm'.transactions ≡ tm.transactions = rw⁻¹ h e in
      (
        record { transaction = x; running = rw same running; held = held },
        same_transactions tm tm' client same,
      )

  abbrev Answer : Type 0
  Answer = Option (TransactionManager × Option Error)

  manager_of :
      (tm1 tm2 : TransactionManager)
      → ◌≡◌ {A = Answer} (some (tm1, none)) (some (tm2, none))
      → tm1 ≡ tm2
  manager_of tm1 tm2 h = ap (λ p. p.0) (some-injective (tm1, none) (tm2, none) h)

  from_outcome :
      (o : TransactionManager × LockOutcome)
      → o.0.transactions ≡ tm.transactions
      → FoundHeld o.1 tm client (entry_of name key)
      → locked client (entry_of name key) w_lock o ≡ some (tm', none)
      → Granted
  unfolding locked
  from_outcome (tm1, refused e) same f h = cc h
  from_outcome (tm1, already_held) same f h = found_held tm1 same f (manager_of tm1 tm' h)
  from_outcome (tm1, waits others) same f h =
      elim (Option-cases (acquire tm1 client (entry_of name key) w_lock others)) [
        | inl wait ↦ cc (rw wait at h)
        | inr (tm2, run) ↦
            let (x, found, set) =
              acquire_lem tm1 tm2 client (entry_of name key) w_lock others run in
            let now : tm2 ≡ tm' = manager_of tm2 tm' (rw run at h) in
            set_holds tm tm' client name key x
              (sym (ap (λ ts. find_transaction client ts) same) ∙ found) (rw⁻¹ (now, same) set)
      ]

  -- After Lock for writing has returned without an error, the client's transaction holds the
  -- entry with a write lock, and every entry that it held so before.
  pub lock_lem :
      lock tm client (entry_of name key) w_lock ≡ some (tm', none)
      → HoldsLock tm' client name key × KeepsLocks tm tm' client
  unfolding lock
  lock_lem h =
      let (same, f) = request_lem tm client (entry_of name key) in
      from_outcome (request tm client (entry_of name key) w_lock) same f h
