-- ===== src/Concurrency/Manager/Safety.antt =====
-- pkg/concurrency: the states that the clients reach, their locks and their commits.
use recovery_stencil.Prelude.{
  ℕ, ◌≤◌, ◌≡◌, ◌≢◌, refl, ap, ◌∙◌, ◌⊎◌, inl, inr, true, false, Option, none, some, List, [], ◌∷◌,
  arith, ok, Option-cases,
}
use native.Mathlib.Decide.{ℕ_discrete}
use recovery_stencil.Concurrency.Resource
use recovery_stencil.Concurrency.Resource.{
  Resource, LockType, LockType-discrete, r_lock, w_lock, ResourceLockManager, RwMutex,
  UnlockOutcome, lookup, new_resource_lock_manager, get_mutex,
}
use recovery_stencil.Concurrency.Manager.{
  Transaction, new_transaction_manager, find_transaction, set_locked, begin, commit,
  remove_transaction,
}
use recovery_stencil.Concurrency.Manager.Holders.{
  holders, holders-set_locked, find-set_locked, find-remove_transaction,
}
use recovery_stencil.Concurrency.Manager.Consistent.{
  Consistent, lock-Consistent, unlock-Consistent, mutex_count, delete_held,
}
use recovery_stencil.Concurrency.Manager.Commit.{
  Unique, Unique-delete, Unique-insert, unlock_all_and_remove, same_holders,
}
use recovery_stencil.Concurrency.Manager.Steps.{
  Pending, State, set_pending, Step, began, requested, returned, granted, unlocked, committed,
  initial, Reachable, start, step, AllUnique-find, AllUnique-set_locked, AllUnique-remove, IsSafe,
}
use recovery_stencil.Concurrency.Manager.Inversion.{
  request_keeps, request_waits, begin_inv, acquire_inv, unlock_inv, commit_inv, holders_fresh,
  find_fresh,
}

module _ {s s' : State} (safe : IsSafe s) where
  began_IsSafe : (client : ℕ) → begin s.tm client ≡ ok s'.tm → s'.pending ≡ s.pending → IsSafe s'
  began_IsSafe client run keep =
      let (miss, lm, ts) = begin_inv s.tm s'.tm client run in
      let fresh : Transaction = record {
        client_id = client;
        address = s.tm.next_address;
        locked_resources = [];
      } in
      record {
        consistent =
            rw (lm, ts)
              (same_holders (fresh ∷ s.tm.transactions)
                (λ k q. holders_fresh k q fresh s.tm.transactions refl) safe.consistent);
        waiting = λ c p h.
            let (x, found, absent) = safe.waiting c p (rw keep at h) in
            (x, rw ts (find_fresh fresh s.tm.transactions c x miss found), absent);
        unique = rw ts (tt, safe.unique);
      }

  request_IsSafe :
      s'.tm.resource_lock_manager ≡ s.tm.resource_lock_manager
      → s'.tm.transactions ≡ s.tm.transactions
      → ((c : ℕ) (p : Pending)
          → s'.pending c ≡ some p
          → (x : Transaction) × (find_transaction c s.tm.transactions ≡ some x)
            × (lookup p.resource x.locked_resources ≡ none))
      → IsSafe s'
  request_IsSafe lm ts wait = record {
    consistent = rw (lm, ts) safe.consistent;
    waiting = rw ts wait;
    unique = rw ts safe.unique;
  }

  -- a change of one client's locks, while none of its calls waits afterwards
  relock_IsSafe :
      (client : ℕ) (x : Transaction) (l : List (Resource × LockType)) (lm : ResourceLockManager)
      → find_transaction client s.tm.transactions ≡ some x
      → Unique l
      → s'.tm.resource_lock_manager ≡ lm
      → s'.tm.transactions ≡ set_locked client l s.tm.transactions
      → Consistent lm (set_locked client l s.tm.transactions)
      → ((c : ℕ) (p : Pending) → s'.pending c ≡ some p → (client ≢ c) × (s.pending c ≡ some p))
      → IsSafe s'
  relock_IsSafe client x l lm found u e ts c wait = record {
    consistent = rw (e, ts) c;
    waiting = λ d p h.
        let (ne, old) = wait d p h in
        let (y, at, absent) = safe.waiting d p old in
        (y, rw (ts, find-set_locked client d l s.tm.transactions ne) at, absent);
    unique = rw ts (AllUnique-set_locked client l s.tm.transactions u safe.unique);
  }

  removed_IsSafe :
      (client : ℕ) (lm : ResourceLockManager)
      → s.pending client ≡ none
      → s'.tm.resource_lock_manager ≡ lm
      → s'.tm.transactions ≡ remove_transaction client s.tm.transactions
      → Consistent lm (remove_transaction client s.tm.transactions)
      → s'.pending ≡ s.pending
      → IsSafe s'
  removed_IsSafe client lm idle e ts c keep = record {
    consistent = rw (e, ts) c;
    waiting = λ d p h.
        let old : s.pending d ≡ some p = rw keep at h in
        let (y, at, absent) = safe.waiting d p old in
        let ne : client ≢ d = λ same. cc (rw same at idle, old) in
        (y, rw (ts, find-remove_transaction client d s.tm.transactions ne) at, absent);
    unique = rw ts (AllUnique-remove client s.tm.transactions safe.unique);
  }

  same_IsSafe : s'.tm ≡ s.tm → s'.pending ≡ s.pending → IsSafe s'
  same_IsSafe e keep = record {
    consistent = rw e safe.consistent;
    waiting = rw (e, keep) safe.waiting;
    unique = rw e safe.unique;
  }

new_pending :
    (f : ℕ → Option Pending) (client c : ℕ) (p q : Pending)
    → client ≡ c
    → set_pending f client (some p) c ≡ some q
    → q.resource ≡ p.resource
new_pending f client c p q e h = let same : p ≡ q = ground arith in rw same

other_pending :
    (f : ℕ → Option Pending) (client c : ℕ) (o : Option Pending) (q : Pending)
    → client ≢ c
    → set_pending f client o c ≡ some q
    → f c ≡ some q
other_pending f client c o q ne h = ground arith

granted_pending :
    (f : ℕ → Option Pending) (client c : ℕ) (q : Pending)
    → set_pending f client none c ≡ some q
    → (client ≢ c) × (f c ≡ some q)
granted_pending f client c q h = ground arith

idle_pending :
    (f : ℕ → Option Pending) (client c : ℕ) (q : Pending)
    → f client ≡ none
    → f c ≡ some q
    → (client ≢ c) × (f c ≡ some q)
idle_pending f client c q idle h = ((λ same. cc (rw same at idle, h)), h)

excludes :
    (m : RwMutex) (w r : ℕ)
    → mutex_count w_lock m ≡ w
    → mutex_count r_lock m ≡ r
    → (m.writer ≡ true → m.readers ≡ 0)
    → (w ≤ 1) × ((w ≡ 0) ⊎ (r ≡ 0))
excludes m w r hw hr x = ground arith

-- Every step of any client keeps the mutexes in agreement with the transactions.
Step-IsSafe : {s s' : State} → Step s s' → IsSafe s → IsSafe s'
Step-IsSafe (began client idle run keep) safe = began_IsSafe safe client run keep
Step-IsSafe {s} {s'} (requested client r t others idle run keep) safe =
    let (lm, ts) = request_keeps s.tm client r t in
    request_IsSafe safe (rw run at lm) (rw run at ts) (λ c p h. elim (ℕ_discrete client c) [
      | yes same ↦
          let (x, found, absent) = request_waits s.tm s'.tm client r t others run in
          let own : p.resource ≡ r = new_pending s.pending client c _ p same (rw keep at h) in
          (x, rw (← same) found, rw own absent)
      | no other ↦ safe.waiting c p (other_pending s.pending client c _ p other (rw keep at h))
    ])
Step-IsSafe {s} {s'} (returned client r t o idle run why keep) safe =
    let (lm, ts) = request_keeps s.tm client r t in
    request_IsSafe safe (rw run at lm) (rw run at ts) (λ c p h. safe.waiting c p (rw keep at h))
Step-IsSafe {s} {s'} (granted client p here run keep) safe =
    let (x, found, absent) = safe.waiting client p here in
    let (lm, got, e, ts) =
      acquire_inv s.tm s'.tm client p.resource p.lock_type p.others x found run in
    relock_IsSafe safe client x (Resource.insert p.resource p.lock_type x.locked_resources) lm found
      (Unique-insert p.resource p.lock_type x.locked_resources
        (AllUnique-find client x s.tm.transactions safe.unique found))
      e ts (lock-Consistent safe.consistent client x found p.resource p.lock_type lm absent got)
      (λ c q h. granted_pending s.pending client c q (rw keep at h))
Step-IsSafe {s} {s'} (unlocked client r t e idle run keep) safe =
    elim (unlock_inv s.tm s'.tm client r t e run) [
      | inl same ↦ same_IsSafe safe same keep
      | inr (x, found, held, lm, ts) ↦
          let l = Resource.delete r x.locked_resources in
          let (lm', got, c) =
            unlock-Consistent safe.consistent client x found r t
              (set_locked client l s.tm.transactions) held
              (λ k q. omega (
                arith,
                holders-set_locked k q client x l s.tm.transactions found,
                delete_held k r q t x.locked_resources held,
              )) in
          relock_IsSafe safe client x l lm' found
            (Unique-delete r x.locked_resources
              (AllUnique-find client x s.tm.transactions safe.unique found))
            (lm ∙ ap (λ (p : ResourceLockManager × UnlockOutcome). p.0) got) ts c
            (λ d q h. idle_pending s.pending client d q idle (rw keep at h))
    ]
Step-IsSafe {s} {s'} (committed client e idle run keep) safe =
    let (missing, there) = commit_inv s.tm s'.tm client e run in
    elim (Option-cases (find_transaction client s.tm.transactions)) [
      | inl miss ↦ same_IsSafe safe (missing miss) keep
      | inr (x, found) ↦
          let (lm, got, c) =
            unlock_all_and_remove client x s.tm.transactions found s.tm.resource_lock_manager
              (AllUnique-find client x s.tm.transactions safe.unique found) safe.consistent in
          let (lm_eq, ts_eq, no_error) = there x lm found got in
          removed_IsSafe safe client lm idle lm_eq ts_eq c keep
    ]

initial-IsSafe : IsSafe initial
unfolding new_transaction_manager new_resource_lock_manager get_mutex lookup holders
initial-IsSafe = record {
  consistent = record { free = refl; counted = empty_counts; exclusive = λ q h. refl };
  waiting = λ c p h. cc h;
  unique = tt;
}
  where
    empty_counts :
        (k : LockType) (q : Resource)
        → mutex_count k (get_mutex new_resource_lock_manager q) ≡ holders k q []
    empty_counts r_lock q = refl
    empty_counts w_lock q = refl

-- In every state that is reached, the mutexes agree with the locks of the transactions, each
-- transaction has a resource once, and each call that waits is by a running transaction without
-- a lock on the resource.
pub Reachable-IsSafe : {s : State} → Reachable s → IsSafe s
Reachable-IsSafe start = initial-IsSafe
Reachable-IsSafe (step r st) = Step-IsSafe st (Reachable-IsSafe r)

-- In every state that is reached by interleaved calls of Begin, Lock, Unlock and Commit, at most
-- one transaction holds a resource with a write lock, and none holds it with a read lock beside
-- it.
pub locks_exclude :
    {s : State} (q : Resource)
    → Reachable s
    → (holders w_lock q s.tm.transactions ≤ 1)
      × ((holders w_lock q s.tm.transactions ≡ 0) ⊎ (holders r_lock q s.tm.transactions ≡ 0))
locks_exclude {s} q r =
    let c = (Reachable-IsSafe r).consistent in
    excludes (get_mutex s.tm.resource_lock_manager q) _ _ (c.counted w_lock q) (c.counted r_lock q)
      (c.exclusive q)

-- In every state that is reached by interleaved calls, Commit by a client that has a transaction
-- succeeds, removes the transaction, and leaves the manager's own mutex unlocked.
pub commit_succeeds :
    {s : State} (client : ℕ) (x : Transaction)
    → Reachable s
    → find_transaction client s.tm.transactions ≡ some x
    → ((commit s.tm client).1 ≡ none)
      × ((commit s.tm client).0.transactions ≡ remove_transaction client s.tm.transactions)
      × ((commit s.tm client).0.resource_lock_manager.held ≡ false)
commit_succeeds {s} client x r found =
    let safe = Reachable-IsSafe r in
    let (lm, got, c) =
      unlock_all_and_remove client x s.tm.transactions found s.tm.resource_lock_manager
        (AllUnique-find client x s.tm.transactions safe.unique found) safe.consistent in
    let (lm_eq, ts_eq, no_error) = (commit_inv s.tm _ client _ refl).1 x lm found got in
    (no_error, ts_eq, rw lm_eq c.free)
