-- ===== src/Concurrency/Manager/Holders.antt =====
-- pkg/concurrency: the number of transactions that hold a resource with each type of lock.
use recovery_stencil.Prelude.{
  ℕ, suc, ◌+◌, ◌≡◌, ◌≢◌, refl, ap, ◌∙◌, inl, inr, Option, none, some, List, [], ◌∷◌, arith, ◌==◌,
  Bool-cases,
}
use mathlib.Core.Logic.{ite}
use recovery_stencil.Concurrency.Resource.{
  Resource, Resource-discrete, LockType, r_lock, w_lock, lookup, delete, insert,
  ResourceLockManager, RwMutex, or_unlocked, get_mutex, put_mutex,
}
use recovery_stencil.Concurrency.Manager.{
  Transaction, find_transaction, set_locked, remove_transaction,
}

-- 1 where this is a lock of this type
abbrev pub kind_count : LockType → Option LockType → ℕ
kind_count k none = 0
kind_count r_lock (some r_lock) = 1
kind_count r_lock (some w_lock) = 0
kind_count w_lock (some r_lock) = 0
kind_count w_lock (some w_lock) = 1

-- How many of the transactions hold the resource with this type of lock.
unfoldable pub holders : LockType → Resource → List Transaction → ℕ
holders k r [] = 0
holders k r (t ∷ ts) = kind_count k (lookup r t.locked_resources) + holders k r ts

module _ {ℓ} {A : Type ℓ} where
  pub lookup-delete :
      (r q : Resource) (es : List (Resource × A))
      → lookup q (delete r es) ≡ ite (Resource-discrete r q) none (lookup q es)
  unfolding lookup delete
  lookup-delete r q [] = ground arith
  lookup-delete r q (e ∷ es) = ground (arith, lookup-delete r q es)

  pub lookup-insert :
      (r q : Resource) (a : A) (es : List (Resource × A))
      → lookup q (insert r a es) ≡ ite (Resource-discrete r q) (some a) (lookup q es)
  unfolding lookup insert
  lookup-insert r q a es = ground (arith, lookup-delete r q es)

pub holders-set_locked :
    (k : LockType) (r : Resource) (client : ℕ) (x : Transaction) (l : List (Resource × LockType))
    (ts : List Transaction)
    → find_transaction client ts ≡ some x
    → holders k r (set_locked client l ts) + kind_count k (lookup r x.locked_resources)
      ≡ holders k r ts + kind_count k (lookup r l)
unfolding holders find_transaction set_locked
holders-set_locked k r client x l [] h = cc
holders-set_locked k r client x l (t ∷ ts) h = elim (Bool-cases (t.client_id == client)) [
  | inl own ↦ let same : t ≡ x = ground arith in rw (own, same) (omega arith)
  | inr other ↦ rw other (omega (arith, holders-set_locked k r client x l ts (rw other at h)))
]

pub holders-remove_transaction :
    (k : LockType) (r : Resource) (client : ℕ) (x : Transaction) (ts : List Transaction)
    → find_transaction client ts ≡ some x
    → holders k r (remove_transaction client ts) + kind_count k (lookup r x.locked_resources)
      ≡ holders k r ts
unfolding holders find_transaction remove_transaction
holders-remove_transaction k r client x [] h = cc
holders-remove_transaction k r client x (t ∷ ts) h = elim (Bool-cases (t.client_id == client)) [
  | inl own ↦ let same : t ≡ x = ground arith in rw (own, same) (omega arith)
  | inr other ↦ rw other (omega (arith, holders-remove_transaction k r client x ts (rw other at h)))
]

-- a transaction that holds the resource is counted
pub kind_count-le-holders :
    (k : LockType) (r : Resource) (client : ℕ) (x : Transaction) (ts : List Transaction)
    → find_transaction client ts ≡ some x
    → lookup r x.locked_resources ≡ some k
    → (n : ℕ) × (holders k r ts ≡ suc n)
unfolding holders find_transaction
kind_count-le-holders k r client x [] h held = cc
kind_count-le-holders k r client x (t ∷ ts) h held = elim (Bool-cases (t.client_id == client)) [
  | inl own ↦
      let same : t ≡ x = ground arith in
      (holders k r ts, rw (same, held) (one_more k (holders k r ts)))
  | inr other ↦
      let (n, e) = kind_count-le-holders k r client x ts (rw other at h) held in
      (kind_count k (lookup r t.locked_resources) + n, omega arith)
]
  where
    one_more : (k' : LockType) (n : ℕ) → kind_count k' (some k') + n ≡ suc n
    one_more r_lock n = omega arith
    one_more w_lock n = omega arith

-- Where the transaction of a client is found after a change to that of another, or to its own.
pub find-set_locked :
    (client c : ℕ) (l : List (Resource × LockType)) (ts : List Transaction)
    → client ≢ c
    → find_transaction c (set_locked client l ts) ≡ find_transaction c ts
unfolding find_transaction set_locked
find-set_locked client c l [] h = refl
find-set_locked client c l (t ∷ ts) h = ground (arith, find-set_locked client c l ts h)

pub find-set_locked_self :
    (client : ℕ) (x : Transaction) (l : List (Resource × LockType)) (ts : List Transaction)
    → find_transaction client ts ≡ some x
    → find_transaction client (set_locked client l ts) ≡ some (record x { locked_resources = l })
unfolding find_transaction set_locked
find-set_locked_self client x l [] h = cc
find-set_locked_self client x l (t ∷ ts) h = ground (arith, find-set_locked_self client x l ts)

pub find-remove_transaction :
    (client c : ℕ) (ts : List Transaction)
    → client ≢ c
    → find_transaction c (remove_transaction client ts) ≡ find_transaction c ts
unfolding find_transaction remove_transaction
find-remove_transaction client c [] h = refl
find-remove_transaction client c (t ∷ ts) h = ground (arith, find-remove_transaction client c ts h)

pub get-put_mutex :
    (lm : ResourceLockManager) (r q : Resource) (m : RwMutex)
    → get_mutex (put_mutex lm r m) q ≡ ite (Resource-discrete r q) m (get_mutex lm q)
unfolding get_mutex put_mutex
get-put_mutex lm r q m = ap or_unlocked (lookup-insert r q m lm.locks) ∙ ground arith
