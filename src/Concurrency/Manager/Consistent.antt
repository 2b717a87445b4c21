-- ===== src/Concurrency/Manager/Consistent.antt =====
-- pkg/concurrency: mutexes compared with the transactions that hold them.
use recovery_stencil.Prelude.{
  ℕ, suc, ◌+◌, ◌≡◌, ◌≢◌, refl, ap, ◌∙◌, inl, inr, Bool, true, false, Option, none, some, List,
  arith, Option-cases, ◌-◌,
}
use mathlib.Core.Logic.{ite}
use recovery_stencil.Concurrency.Resource.{
  Resource, Resource-discrete, LockType, r_lock, w_lock, lookup, delete, insert,
  ResourceLockManager, RwMutex, or_unlocked, get_mutex, put_mutex, lock, unlock, acquire_mutex,
  release_mutex, unlock_ok,
}
use recovery_stencil.Concurrency.Manager.{Transaction, find_transaction, set_locked}
use recovery_stencil.Concurrency.Manager.Holders.{
  kind_count, holders, lookup-delete, lookup-insert, holders-set_locked, kind_count-le-holders,
  get-put_mutex,
}

abbrev pub to_nat : Bool → ℕ
to_nat true = 1
to_nat false = 0

-- How many hold the mutex with this type of lock, as the mutex says.
abbrev pub mutex_count : LockType → RwMutex → ℕ
mutex_count r_lock m = m.readers
mutex_count w_lock m = to_nat m.writer

abbrev pub IsExclusive : RwMutex → Type 0
IsExclusive m = m.writer ≡ true → m.readers ≡ 0

-- Every mutex counts the transactions that hold its resource, and a writer excludes readers.
pub record Consistent (lm : ResourceLockManager) (ts : List Transaction) : Type 0 where
  pub free : lm.held ≡ false
  pub counted : (k : LockType) (q : Resource) → mutex_count k (get_mutex lm q) ≡ holders k q ts
  pub exclusive : (q : Resource) → IsExclusive (get_mutex lm q)

acquire_mutex_lem :
    (t k : LockType) (m m' : RwMutex)
    → acquire_mutex t m ≡ some m'
    → IsExclusive m
    → (mutex_count k m' ≡ mutex_count k m + kind_count k (some t)) × IsExclusive m'
unfolding acquire_mutex
acquire_mutex_lem r_lock r_lock m m' h x = ground arith
acquire_mutex_lem r_lock w_lock m m' h x = ground arith
acquire_mutex_lem w_lock r_lock m m' h x = ground arith
acquire_mutex_lem w_lock w_lock m m' h x = ground arith

release_mutex_lem :
    (t k : LockType) (m m' : RwMutex)
    → release_mutex t m ≡ some m'
    → IsExclusive m
    → (mutex_count k m' + kind_count k (some t) ≡ mutex_count k m) × IsExclusive m'
unfolding release_mutex
release_mutex_lem r_lock r_lock m m' h x = ground arith
release_mutex_lem r_lock w_lock m m' h x = ground arith
release_mutex_lem w_lock r_lock m m' h x = ground arith
release_mutex_lem w_lock w_lock m m' h x = ground arith

release_mutex_total :
    (t : LockType) (m : RwMutex) (n : ℕ)
    → mutex_count t m ≡ suc n
    → (m' : RwMutex) × (release_mutex t m ≡ some m')
unfolding release_mutex
release_mutex_total r_lock m n h = (record m { readers = m.readers - 1 }, ground arith)
release_mutex_total w_lock m n h = (record m { writer = false }, ground arith)

-- Replacing one mutex, while its holders change by as much, keeps the rest.
put_mutex-Consistent :
    {lm : ResourceLockManager} {ts : List Transaction} (ts' : List Transaction) (r : Resource)
    (m : RwMutex)
    → Consistent lm ts
    → IsExclusive m
    → ((k : LockType) → mutex_count k m ≡ holders k r ts')
    → ((k : LockType) (q : Resource) → r ≢ q → holders k q ts' ≡ holders k q ts)
    → Consistent (put_mutex lm r m) ts'
put_mutex-Consistent {lm} ts' r m c x own others = record {
  free = unfold put_mutex in c.free;
  counted = λ k q.
      rw get-put_mutex
        (elim (Resource-discrete r q)
          as (λ d. mutex_count k (ite d m (get_mutex lm q)) ≡ holders k q ts') [
            | yes e ↦ rw (← e) (own k)
            | no ne ↦ rw (others k q ne) (c.counted k q)
          ]);
  exclusive = λ q.
      rw get-put_mutex
        (elim (Resource-discrete r q) as (λ d. IsExclusive (ite d m (get_mutex lm q))) [
          | yes e ↦ x
          | no ne ↦ c.exclusive q
        ]);
}

lock_inv :
    (lm lm' : ResourceLockManager) (r : Resource) (t : LockType)
    → lm.held ≡ false
    → lock lm r t ≡ some lm'
    → (m : RwMutex) × (acquire_mutex t (get_mutex lm r) ≡ some m) × (lm' ≡ put_mutex lm r m)
unfolding lock
lock_inv lm lm' r t free h = elim (Option-cases (acquire_mutex t (get_mutex lm r))) [
  | inl wait ↦ absurd (cc (rw (free, wait) at h))
  | inr (m, run) ↦ (m, run, ground arith)
]

pub kind_count-none : (k : LockType) → kind_count k none ≡ 0
kind_count-none r_lock = refl
kind_count-none w_lock = refl

insert_held :
    (k : LockType) (r q : Resource) (t : LockType) (l : List (Resource × LockType))
    → lookup r l ≡ none
    → kind_count k (lookup q (insert r t l))
      ≡ kind_count k (lookup q l) + ite (Resource-discrete r q) (kind_count k (some t)) 0
insert_held k r q t l h =
    rw lookup-insert
      (elim (Resource-discrete r q)
        as (λ d.
          kind_count k (ite d (some t) (lookup q l))
          ≡ kind_count k (lookup q l) + ite d (kind_count k (some t)) 0) [
            | yes e ↦
                let h' : lookup q l ≡ none = rw e at h in rw (h', kind_count-none k) (omega arith)
            | no ne ↦ omega arith
          ])

pub delete_held :
    (k : LockType) (r q : Resource) (t : LockType) (l : List (Resource × LockType))
    → lookup r l ≡ some t
    → kind_count k (lookup q (delete r l)) + ite (Resource-discrete r q) (kind_count k (some t)) 0
      ≡ kind_count k (lookup q l)
delete_held k r q t l h =
    rw lookup-delete
      (elim (Resource-discrete r q)
        as (λ d.
          kind_count k (ite d none (lookup q l)) + ite d (kind_count k (some t)) 0
          ≡ kind_count k (lookup q l)) [
            | yes e ↦
                let h' : lookup q l ≡ some t = rw e at h in rw (h', kind_count-none k) (omega arith)
            | no ne ↦ omega arith
          ])

ite_self : (r : Resource) (n : ℕ) → ite (Resource-discrete r r) n 0 ≡ n
ite_self r n = ground arith

ite_other : (r q : Resource) (n : ℕ) → r ≢ q → ite (Resource-discrete r q) n 0 ≡ 0
ite_other r q n h = ground arith

-- a mutex that someone holds is in the map
present :
    (o : Option RwMutex) (t : LockType) (n : ℕ)
    → mutex_count t (or_unlocked o) ≡ suc n
    → (m : RwMutex) × (o ≡ some m)
present none r_lock n h = absurd (omega arith)
present none w_lock n h = absurd (omega arith)
present (some m) t n h = (m, refl)

unlock_run :
    (lm : ResourceLockManager) (r : Resource) (t : LockType) (m₀ m : RwMutex)
    → lm.held ≡ false
    → lookup r lm.locks ≡ some m₀
    → release_mutex t m₀ ≡ some m
    → unlock lm r t ≡ (put_mutex lm r m, unlock_ok)
unfolding unlock
unlock_run lm r t m₀ m free there run = ground arith

module _ {lm : ResourceLockManager} {ts : List Transaction} (c : Consistent lm ts) (client : ℕ)
    (x : Transaction) (found : find_transaction client ts ≡ some x) (r : Resource)
    (t : LockType) where
  -- A lock that is granted is counted once more, by its mutex and among the transactions.
  pub lock-Consistent :
      (lm' : ResourceLockManager)
      → lookup r x.locked_resources ≡ none
      → lock lm r t ≡ some lm'
      → Consistent lm' (set_locked client (insert r t x.locked_resources) ts)
  lock-Consistent lm' absent run =
      let l = insert r t x.locked_resources in
      let ts' = set_locked client l ts in
      let (m, got, eq) = lock_inv lm lm' r t c.free run in
      let balance = λ (k : LockType) (q : Resource). holders-set_locked k q client x l ts found in
      let held = λ (k : LockType) (q : Resource). insert_held k r q t x.locked_resources absent in
      rw eq (
        put_mutex-Consistent ts' r m c
          (acquire_mutex_lem t r_lock (get_mutex lm r) m got (c.exclusive r)).1
          (λ k.
            let step = (acquire_mutex_lem t k (get_mutex lm r) m got (c.exclusive r)).0 in
            omega (
              arith,
              step,
              c.counted k r,
              balance k r,
              held k r,
              ite_self r (kind_count k (some t)),
            ))
          (λ k q ne.
            omega (arith, balance k q, held k q, ite_other r q (kind_count k (some t)) ne)))

  -- Unlocking what a transaction holds succeeds, and is counted once less.
  pub unlock-Consistent :
      (ts' : List Transaction)
      → lookup r x.locked_resources ≡ some t
      → ((k : LockType) (q : Resource)
          → holders k q ts' + ite (Resource-discrete r q) (kind_count k (some t)) 0
            ≡ holders k q ts)
      → (lm' : ResourceLockManager) × (unlock lm r t ≡ (lm', unlock_ok)) × Consistent lm' ts'
  unlock-Consistent ts' held less =
      let (n, some_holder) = kind_count-le-holders t r client x ts found held in
      let (m, run) = release_mutex_total t (get_mutex lm r) n (c.counted t r ∙ some_holder) in
      let (m₀, there) =
        present (lookup r lm.locks) t n (unfold get_mutex in c.counted t r ∙ some_holder) in
      let here : get_mutex lm r ≡ m₀ = unfold get_mutex in ap or_unlocked there in
      (
        put_mutex lm r m,
        unlock_run lm r t m₀ m c.free there (rw here at run),
        put_mutex-Consistent ts' r m c
            (release_mutex_lem t r_lock (get_mutex lm r) m run (c.exclusive r)).1
            (λ k.
              let step = (release_mutex_lem t k (get_mutex lm r) m run (c.exclusive r)).0 in
              omega (arith, step, c.counted k r, less k r, ite_self r (kind_count k (some t))))
            (λ k q ne. omega (arith, less k q, ite_other r q (kind_count k (some t)) ne)),
      )
