-- ===== src/Concurrency/Resource.antt =====
-- pkg/concurrency/resource.go and resource_locks.go: resources, and one readers-writer mutex for
-- each.
use recovery_stencil.Prelude.{
  ℕ, ◌+◌, ◌-◌, Bool, true, false, Option, none, some, List, [], ◌∷◌, ◌||◌, ltb, if◌then◌else◌,
}
use mathlib.Core.Logic.{ite}
use mathlib.Core.List.{List-discrete}
use native.Mathlib.Decide.{ℕ_discrete}
use recovery_stencil.Prelude.Int.{ℤ}

pub data LockType : Type 0 where
  r_lock w_lock : LockType

pub record Resource : Type 0 where
  pub table_name : List ℕ
  pub key : ℤ

pub ℤ-discrete : Discrete ℤ
ℤ-discrete = hlevel ℕ_discrete

pub Resource-discrete : Discrete Resource
Resource-discrete = hlevel (List-discrete ℕ_discrete, ℤ-discrete)

pub LockType-discrete : Discrete LockType
LockType-discrete = hlevel

-- sync.RWMutex, without the queue of waiters
pub record RwMutex : Type 0 where
  pub readers : ℕ
  pub writer : Bool

abbrev pub unlocked : RwMutex
unlocked = record { readers = 0; writer = false }

-- RLock and Lock; none while the caller has to wait
unfoldable pub acquire_mutex : LockType → RwMutex → Option RwMutex
acquire_mutex r_lock m = if m.writer then none else some (record m { readers = m.readers + 1 })
acquire_mutex w_lock m =
    if m.writer || ltb 0 m.readers then none else some (record m { writer = true })

-- RUnlock and Unlock; none is the fatal error of a mutex that is not locked this way
unfoldable pub release_mutex : LockType → RwMutex → Option RwMutex
release_mutex r_lock m =
    if ltb 0 m.readers then some (record m { readers = m.readers - 1 }) else none
release_mutex w_lock m = if m.writer then some (record m { writer = false }) else none

-- a Go map keyed by resources
module _ {ℓ} {A : Type ℓ} where
  unfoldable pub lookup : Resource → List (Resource × A) → Option A
  lookup r [] = none
  lookup r (e ∷ es) = ite (Resource-discrete e.0 r) (some e.1) (lookup r es)

  unfoldable pub delete : Resource → List (Resource × A) → List (Resource × A)
  delete r [] = []
  delete r (e ∷ es) = ite (Resource-discrete e.0 r) (delete r es) (e ∷ delete r es)

  unfoldable pub insert : Resource → A → List (Resource × A) → List (Resource × A)
  unfolding delete
  insert r a es = (r, a) ∷ delete r es

-- `held` says that the mutex `mtx` of the manager is locked
pub record ResourceLockManager : Type 0 where
  pub locks : List (Resource × RwMutex)
  pub held : Bool

unfoldable pub new_resource_lock_manager : ResourceLockManager
new_resource_lock_manager = record { locks = []; held = false }

abbrev pub or_unlocked : Option RwMutex → RwMutex
or_unlocked none = unlocked
or_unlocked (some m) = m

-- lm.locks[r], made if it is not there
unfoldable pub get_mutex : ResourceLockManager → Resource → RwMutex
unfolding lookup
get_mutex lm r = or_unlocked (lookup r lm.locks)

unfoldable pub put_mutex : ResourceLockManager → Resource → RwMutex → ResourceLockManager
unfolding insert
put_mutex lm r m = record lm { locks = insert r m lm.locks }

-- Lock; none while the caller waits, for the manager's mutex or for the resource's
unfoldable pub lock : ResourceLockManager → Resource → LockType → Option ResourceLockManager
unfolding get_mutex put_mutex acquire_mutex
lock lm r t = if lm.held then none else (elim (acquire_mutex t (get_mutex lm r)) [
  | none ↦ none
  | some m ↦ some (put_mutex lm r m)
])

pub data UnlockOutcome : Type 0 where
  unlock_ok unlock_nonexistent unlock_fatal unlock_waits : UnlockOutcome

-- Unlock; on a resource without a mutex it returns with the manager's own mutex locked
unfoldable pub unlock :
    ResourceLockManager → Resource → LockType → ResourceLockManager × UnlockOutcome
unfolding lookup put_mutex release_mutex
unlock lm r t = if lm.held then (lm, unlock_waits) else (elim (lookup r lm.locks) [
  | none ↦ (record lm { held = true }, unlock_nonexistent)
  | some m ↦ elim (release_mutex t m) [
    | none ↦ (lm, unlock_fatal)
    | some m' ↦ (put_mutex lm r m', unlock_ok)
  ]
])
