-- ===== src/Concurrency/Manager/Steps.antt =====
-- All clients together: calls as steps of one shared state, in any order, and when a state is safe.
use recovery_stencil.Prelude.{
  ℕ, ◌≡◌, ◌⊎◌, inl, inr, Option, none, some, List, [], ◌∷◌, arith, ◌==◌, if◌then◌else◌, ok,
  Bool-cases,
}
use recovery_stencil.Concurrency.Resource.{Resource, LockType, lookup, new_resource_lock_manager}
use recovery_stencil.Concurrency.Manager.{
  Transaction, TransactionManager, TmError, LockOutcome, refused, already_held, waits,
  new_transaction_manager, find_transaction, set_locked, begin, request, acquire, unlock, commit,
  remove_transaction,
}
use recovery_stencil.Concurrency.Manager.Consistent.{Consistent}
use recovery_stencil.Concurrency.Manager.Commit.{Unique}

-- A call of Lock that waits for its resource.
pub record Pending : Type 0 where
  pub resource : Resource
  pub lock_type : LockType
  pub others : List Transaction

pub record State : Type 0 where
  pub tm : TransactionManager
  pub pending : ℕ → Option Pending

abbrev pub set_pending : (ℕ → Option Pending) → ℕ → Option Pending → ℕ → Option Pending
set_pending f client p c = if client == c then p else f c

-- A client makes a call when none of its own is waiting, and a waiting call goes on when the mutex
-- of its resource lets it.
pub data Step (s s' : State) : Type 0 where
  began :
      (client : ℕ)
      → s.pending client ≡ none
      → begin s.tm client ≡ ok s'.tm
      → s'.pending ≡ s.pending
      → Step s s'
  requested :
      (client : ℕ) (r : Resource) (t : LockType) (others : List Transaction)
      → s.pending client ≡ none
      → request s.tm client r t ≡ (s'.tm, waits others)
      → s'.pending
        ≡ set_pending s.pending client
            (some (record { resource = r; lock_type = t; others = others }))
      → Step s s'
  returned :
      (client : ℕ) (r : Resource) (t : LockType) (o : LockOutcome)
      → s.pending client ≡ none
      → request s.tm client r t ≡ (s'.tm, o)
      → (o ≡ already_held) ⊎ ((e : TmError) × (o ≡ refused e))
      → s'.pending ≡ s.pending
      → Step s s'
  granted :
      (client : ℕ) (p : Pending)
      → s.pending client ≡ some p
      → acquire s.tm client p.resource p.lock_type p.others ≡ some s'.tm
      → s'.pending ≡ set_pending s.pending client none
      → Step s s'
  unlocked :
      (client : ℕ) (r : Resource) (t : LockType) (e : Option TmError)
      → s.pending client ≡ none
      → unlock s.tm client r t ≡ (s'.tm, e)
      → s'.pending ≡ s.pending
      → Step s s'
  committed :
      (client : ℕ) (e : Option TmError)
      → s.pending client ≡ none
      → commit s.tm client ≡ (s'.tm, e)
      → s'.pending ≡ s.pending
      → Step s s'

abbrev pub initial : State
initial = record { tm = new_transaction_manager new_resource_lock_manager; pending = λ _. none }

pub data Reachable : State → Type 0 where
  start : Reachable initial
  step : {s s' : State} → Reachable s → Step s s' → Reachable s'

-- The locks of every transaction are a map.
abbrev pub AllUnique : List Transaction → Type 0
AllUnique [] = Unit
AllUnique (t ∷ ts) = Unique t.locked_resources × AllUnique ts

pub AllUnique-find :
    (c : ℕ) (x : Transaction) (ts : List Transaction)
    → AllUnique ts
    → find_transaction c ts ≡ some x
    → Unique x.locked_resources
unfolding find_transaction
AllUnique-find c x [] u h = cc
AllUnique-find c x (t ∷ ts) u h = elim (Bool-cases (t.client_id == c)) [
  | inl own ↦ let same : t ≡ x = ground arith in rw (← same) u.0
  | inr other ↦ AllUnique-find c x ts u.1 (rw other at h)
]

pub AllUnique-set_locked :
    (c : ℕ) (l : List (Resource × LockType)) (ts : List Transaction)
    → Unique l
    → AllUnique ts
    → AllUnique (set_locked c l ts)
unfolding set_locked
AllUnique-set_locked c l [] ul u = tt
AllUnique-set_locked c l (t ∷ ts) ul u = elim (Bool-cases (t.client_id == c)) [
  | inl own ↦ rw own (ul, u.1)
  | inr other ↦ rw other (u.0, AllUnique-set_locked c l ts ul u.1)
]

pub AllUnique-remove :
    (c : ℕ) (ts : List Transaction) → AllUnique ts → AllUnique (remove_transaction c ts)
unfolding remove_transaction
AllUnique-remove c [] u = tt
AllUnique-remove c (t ∷ ts) u = elim (Bool-cases (t.client_id == c)) [
  | inl own ↦ rw own u.1
  | inr other ↦ rw other (u.0, AllUnique-remove c ts u.1)
]

pub record IsSafe (s : State) : Type 0 where
  pub consistent : Consistent s.tm.resource_lock_manager s.tm.transactions
  -- a call that waits is by a running transaction without a lock on the resource
  pub waiting :
      (c : ℕ) (p : Pending)
      → s.pending c ≡ some p
      → (x : Transaction) × (find_transaction c s.tm.transactions ≡ some x)
        × (lookup p.resource x.locked_resources ≡ none)
  pub unique : AllUnique s.tm.transactions
