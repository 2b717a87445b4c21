-- ===== src/Page/Bytes.antt =====
-- pkg/pager/page.go: a write to a page, and the reads after it.
use recovery_stencil.Prelude.{
  ℕ, zero, suc, ◌+◌, ◌-◌, ◌≤◌, ◌≡◌, refl, ap, ◌⊎◌, inl, inr, true, some, List, [], ◌∷◌, arith,
  length, take, drop,
}
use recovery_stencil.Page.{Page, copy, copy_at, slice, update}

length-copy : (xs : List ℕ) (n : ℕ) (src : List ℕ) → length (copy xs n src) ≡ length xs
unfolding copy
length-copy [] n src = refl
length-copy (x ∷ xs) zero src = refl
length-copy (x ∷ xs) (suc n) [] = refl
length-copy (x ∷ xs) (suc n) (y ∷ src) = ap suc (length-copy xs n src)

length-copy_at :
    (xs : List ℕ) (off n : ℕ) (src : List ℕ) → length (copy_at xs off n src) ≡ length xs
unfolding copy_at
length-copy_at [] off n src = refl
length-copy_at (x ∷ xs) zero n src = length-copy (x ∷ xs) n src
length-copy_at (x ∷ xs) (suc off) n src = ap suc (length-copy_at xs off n src)

take-copy :
    (xs : List ℕ) (n : ℕ) (src : List ℕ)
    → n ≤ length xs
    → length src ≡ n
    → take n (copy xs n src) ≡ src
unfolding copy
take-copy [] zero [] h e = refl
take-copy [] (suc n) src h e = absurd (omega arith)
take-copy [] zero (y ∷ src) h e = absurd (omega arith)
take-copy (x ∷ xs) zero [] h e = refl
take-copy (x ∷ xs) zero (y ∷ src) h e = absurd (omega arith)
take-copy (x ∷ xs) (suc n) [] h e = absurd (omega arith)
take-copy (x ∷ xs) (suc n) (y ∷ src) h e =
    ap (λ t. y ∷ t) (take-copy xs n src (omega arith) (omega arith))

drop-copy_past :
    (xs : List ℕ) (n : ℕ) (src : List ℕ) (lo : ℕ) → n ≤ lo → drop lo (copy xs n src) ≡ drop lo xs
unfolding copy
drop-copy_past [] n src lo h = refl
drop-copy_past (x ∷ xs) zero src lo h = refl
drop-copy_past (x ∷ xs) (suc n) [] lo h = refl
drop-copy_past (x ∷ xs) (suc n) (y ∷ src) zero h = absurd (omega arith)
drop-copy_past (x ∷ xs) (suc n) (y ∷ src) (suc lo) h = drop-copy_past xs n src lo (omega arith)

-- the bytes that were written
copied :
    (xs : List ℕ) (off n : ℕ) (src : List ℕ)
    → off + n ≤ length xs
    → length src ≡ n
    → take n (drop off (copy_at xs off n src)) ≡ src
unfolding copy_at
copied [] zero n src h e = take-copy [] n src (omega arith) e
copied [] (suc off) n src h e = absurd (omega arith)
copied (x ∷ xs) zero n src h e = take-copy (x ∷ xs) n src (omega arith) e
copied (x ∷ xs) (suc off) n src h e = copied xs off n src (omega arith) e

-- bytes before and behind those that were written
before :
    (xs : List ℕ) (off n : ℕ) (src : List ℕ) (lo m : ℕ)
    → lo + m ≤ off
    → take m (drop lo (copy_at xs off n src)) ≡ take m (drop lo xs)
unfolding copy_at
before [] off n src lo m h = refl
before (x ∷ xs) zero n src zero zero h = refl
before (x ∷ xs) zero n src (suc lo) m h = absurd (omega arith)
before (x ∷ xs) zero n src zero (suc m) h = absurd (omega arith)
before (x ∷ xs) (suc off) n src zero zero h = refl
before (x ∷ xs) (suc off) n src zero (suc m) h =
    ap (λ t. x ∷ t) (before xs off n src zero m (omega arith))
before (x ∷ xs) (suc off) n src (suc lo) m h = before xs off n src lo m (omega arith)

behind :
    (xs : List ℕ) (off n : ℕ) (src : List ℕ) (lo : ℕ)
    → off + n ≤ lo
    → drop lo (copy_at xs off n src) ≡ drop lo xs
unfolding copy_at
behind [] off n src lo h = refl
behind (x ∷ xs) zero n src lo h = drop-copy_past (x ∷ xs) n src lo (omega arith)
behind (x ∷ xs) (suc off) n src zero h = absurd (omega arith)
behind (x ∷ xs) (suc off) n src (suc lo) h = behind xs off n src lo (omega arith)

pub slice-eq :
    (xs : List ℕ) (lo n : ℕ)
    → lo + n ≤ length xs
    → slice xs lo (lo + n) ≡ some (take n (drop lo xs))
unfolding slice
slice-eq xs lo n h = let e : lo + n - lo ≡ n = omega arith in rw e (ground arith)

-- A page after a write of n bytes at an offset.
pub record Written (p : Page) (off n : ℕ) (src : List ℕ) (p' : Page) : Type 0 where
  pub pagenum : p'.pagenum ≡ p.pagenum
  pub pins : p'.pin_count ≡ p.pin_count
  pub dirty : p'.dirty ≡ true
  pub size : length p'.bytes ≡ length p.bytes
  pub read : slice p'.bytes off (off + n) ≡ some src
  pub others :
      (lo m : ℕ)
      → lo + m ≤ length p.bytes
      → (lo + m ≤ off) ⊎ (off + n ≤ lo)
      → slice p'.bytes lo (lo + m) ≡ slice p.bytes lo (lo + m)

-- A write within the page of exactly as many bytes as it names does not fail, marks the page
-- dirty, is read back, and changes no byte outside its range.
pub update-Written :
    (p : Page) (src : List ℕ) (off n : ℕ)
    → off + n ≤ length p.bytes
    → length src ≡ n
    → (p' : Page) × (update p src off n ≡ some p') × Written p off n src p'
unfolding update
update-Written p src off n h e =
    let data' = copy_at p.bytes off n src in
    let len : length data' ≡ length p.bytes = length-copy_at p.bytes off n src in
    (
      record p { dirty = true; bytes = data' },
      ground arith,
      record {
        pagenum = refl;
        pins = refl;
        dirty = refl;
        size = len;
        read = rw (slice-eq data' off n (omega arith)) (ap some (copied p.bytes off n src h e));
        others = λ lo m fits apart.
            rw (slice-eq data' lo m (omega arith), slice-eq p.bytes lo m fits)
              (elim apart [
                | inl left ↦ ap some (before p.bytes off n src lo m left)
                | inr right ↦ ap (λ t. some (take m t)) (behind p.bytes off n src lo right)
              ]);
      },
    )
