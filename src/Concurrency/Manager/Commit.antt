-- ===== src/Concurrency/Manager/Commit.antt =====
-- pkg/concurrency/transaction_manager.go: the loop of Commit over the locks of its transaction.
use recovery_stencil.Prelude.{ℕ, ◌+◌, ◌≡◌, refl, sym, ◌∙◌, none, some, List, [], ◌∷◌, arith}
use mathlib.Core.Logic.{ite}
use recovery_stencil.Concurrency.Resource.{
  Resource, Resource-discrete, LockType, lookup, delete, insert, ResourceLockManager, unlock,
  unlock_ok,
}
use recovery_stencil.Concurrency.Manager.{
  Transaction, find_transaction, set_locked, remove_transaction, unlock_all,
}
use recovery_stencil.Concurrency.Manager.Holders.{
  kind_count, holders, lookup-delete, holders-set_locked, holders-remove_transaction,
  find-set_locked_self,
}
use recovery_stencil.Concurrency.Manager.Consistent.{Consistent, unlock-Consistent, kind_count-none}

-- A map has no key twice.
abbrev pub Unique {ℓ} : {A : Type ℓ} → List (Resource × A) → Type ℓ
Unique [] = Unit
Unique (e ∷ l) = (lookup e.0 l ≡ none) × Unique l

module _ {ℓ} {A : Type ℓ} where
  pub Unique-delete : (r : Resource) (l : List (Resource × A)) → Unique l → Unique (delete r l)
  unfolding delete
  Unique-delete r [] u = tt
  Unique-delete r (e ∷ l) u =
      elim (Resource-discrete e.0 r) as (λ d. Unique (ite d (delete r l) (e ∷ delete r l))) [
        | yes p ↦ Unique-delete r l u.1
        | no p ↦ (rw (lookup-delete, u.0) (ground arith), Unique-delete r l u.1)
      ]

  pub Unique-insert :
      (r : Resource) (a : A) (l : List (Resource × A)) → Unique l → Unique (insert r a l)
  unfolding insert
  Unique-insert r a l u = (rw lookup-delete (ground arith), Unique-delete r l u)

pub same_holders :
    {lm : ResourceLockManager} {ts : List Transaction} (ts' : List Transaction)
    → ((k : LockType) (q : Resource) → holders k q ts' ≡ holders k q ts)
    → Consistent lm ts
    → Consistent lm ts'
same_holders ts' same c = record {
  free = c.free;
  counted = λ k q. c.counted k q ∙ sym (same k q);
  exclusive = c.exclusive;
}

cons_held :
    (k : LockType) (q : Resource) (e : Resource × LockType) (l : List (Resource × LockType))
    → lookup e.0 l ≡ none
    → kind_count k (lookup q (e ∷ l))
      ≡ kind_count k (lookup q l) + ite (Resource-discrete e.0 q) (kind_count k (some e.1)) 0
unfolding lookup
cons_held k q e l h =
    elim (Resource-discrete e.0 q)
      as (λ d.
        kind_count k (ite d (some e.1) (lookup q l))
        ≡ kind_count k (lookup q l) + ite d (kind_count k (some e.1)) 0) [
          | yes p ↦
              let h' : lookup q l ≡ none = rw p at h in rw (h', kind_count-none k) (omega arith)
          | no ne ↦ omega arith
        ]

lookup_head :
    (e : Resource × LockType) (l : List (Resource × LockType)) → lookup e.0 (e ∷ l) ≡ some e.1
unfolding lookup
lookup_head e l = ground arith

unlock_all_step :
    (lm lm' : ResourceLockManager) (e : Resource × LockType) (l : List (Resource × LockType))
    → unlock lm e.0 e.1 ≡ (lm', unlock_ok)
    → unlock_all lm (e ∷ l) ≡ unlock_all lm' l
unfolding unlock_all
unlock_all_step lm lm' e l h = ground arith

module _ (client : ℕ) (x : Transaction) (ts : List Transaction)
    (found : find_transaction client ts ≡ some x) where
  unlock_all-Consistent :
      (lm : ResourceLockManager) (l : List (Resource × LockType))
      → Unique l
      → Consistent lm (set_locked client l ts)
      → (lm' : ResourceLockManager) × (unlock_all lm l ≡ (lm', none))
        × Consistent lm' (set_locked client [] ts)
  unfolding unlock_all
  unlock_all-Consistent lm [] u c = (lm, refl, c)
  unlock_all-Consistent lm (e ∷ l) u c =
      let balance = λ (k : LockType) (q : Resource) (m : List (Resource × LockType)).
        holders-set_locked k q client x m ts found in
      let (lm₁, run, c₁) =
        unlock-Consistent c client (record x { locked_resources = e ∷ l })
          (find-set_locked_self client x (e ∷ l) ts found) e.0 e.1 (set_locked client l ts)
          (lookup_head e l)
          (λ k q. omega (arith, balance k q l, balance k q (e ∷ l), cons_held k q e l u.0)) in
      let (lm', run', c') = unlock_all-Consistent lm₁ l u.1 c₁ in
      (lm', unlock_all_step lm lm₁ e l run ∙ run', c')

  -- Commit of a transaction does not fail; it releases all that the transaction held, and no more.
  pub unlock_all_and_remove :
      (lm : ResourceLockManager)
      → Unique x.locked_resources
      → Consistent lm ts
      → (lm' : ResourceLockManager) × (unlock_all lm x.locked_resources ≡ (lm', none))
        × Consistent lm' (remove_transaction client ts)
  unlock_all_and_remove lm u c =
      let own =
        same_holders (set_locked client x.locked_resources ts)
          (λ k q. omega (arith, holders-set_locked k q client x x.locked_resources ts found)) c in
      let (lm', run, c') = unlock_all-Consistent lm x.locked_resources u own in
      (
        lm',
        run,
        same_holders (remove_transaction client ts)
            (λ k q. omega (
              arith,
              holders-set_locked k q client x [] ts found,
              holders-remove_transaction k q client x ts found,
              lookup_nil k q,
            ))
            c',
      )
    where
      lookup_nil : (k : LockType) (q : Resource) → kind_count k (lookup q []) ≡ 0
      lookup_nil k q = unfold lookup in kind_count-none k
