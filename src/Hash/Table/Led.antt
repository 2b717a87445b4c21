-- ===== src/Hash/Table/Led.antt =====
-- pkg/hash/hashTable.go: where the directory leads a key before and after a round of split.
use recovery_stencil.Prelude.{
  ℕ, zero, suc, ◌+◌, ◌-◌, ◌*◌, ◌/◌, ◌%◌, ◌^◌, ◌≤◌, ◌<◌, ◌≡◌, refl, sym, ◌∙◌, ap, some, List, arith,
  length, get_elem?, ◌==◌, Bool-cases, inl, inr, length-append, if◌then◌else◌, leb,
}
use native.Mathlib.Nat.{mod-lt, mul-add-mod_self_left, div-add-mod, mod-eq_of_lt}
use recovery_stencil.Prelude.Int.{ℤ, IsInt64}
use recovery_stencil.Hash.Table.{HashTable, hasher, extend_table}
use recovery_stencil.Hash.Table.Hashing.{
  pow_positive, pow-add, hasher-magnitude, doubled, twice_mod,
}
use recovery_stencil.Hash.Table.Directory.{reached}

-- a remainder by a multiple of a number, taken by the number itself
times_mod : (m s t : ℕ) → m % (s * t) % s ≡ m % s
times_mod m s t =
    let q : ℕ = m / (s * t) in
    let whole : s * (t * q) + m % (s * t) ≡ m = grind (arith, div-add-mod m (s * t)) in
    sym (mul-add-mod_self_left s (t * q) (m % (s * t))) ∙ ap (λ (n : ℕ). n % s) whole

reached_before : (i step q m : ℕ) → i < step → m < i → reached i step (step * q + m) ≡ (m == i)
reached_before i step zero m lt before = ground arith
reached_before i step (suc q) m lt before =
    let e : step * suc q + m - i ≡ step * q + (step + m - i) = grind arith in
    let r : (step * suc q + m - i) % step ≡ step + m - i =
      ap (λ (n : ℕ). n % step) e
      ∙ mul-add-mod_self_left step q (step + m - i)
      ∙ mod-eq_of_lt (omega arith) in
    ground (arith, r)

reached_at : (i step q m : ℕ) → i < step → m < step → reached i step (step * q + m) ≡ (m == i)
reached_at i step q m lt small = elim (Bool-cases (leb i m)) [
  | inl le ↦
      let e : step * q + m - i ≡ step * q + (m - i) = ground arith in
      let r : (step * q + m - i) % step ≡ m - i =
        ap (λ (n : ℕ). n % step) e
        ∙ mul-add-mod_self_left step q (m - i)
        ∙ mod-eq_of_lt (omega arith) in
      ground (arith, r)
  | inr gt ↦ reached_before i step q m lt (ground arith)
]

-- the places that the loop reaches are those with the remainder at which it starts
reached-mod : (i step j : ℕ) → i < step → reached i step j ≡ ((j % step) == i)
reached-mod i step j lt =
    ap (λ (n : ℕ). reached i step n) (sym (div-add-mod j step))
    ∙ reached_at i step (j / step) (j % step) lt (mod-lt j (omega arith))

-- The directory as split finds it after the extension that it may need.
pub record Extended (table ext : HashTable) (local : ℕ) : Type 0 where
  pub room : local + 1 ≤ ext.global_depth
  pub bound : ext.global_depth ≤ 62
  pub places : length ext.buckets ≡ 2 ^ ext.global_depth
  pub same :
      (m : ℕ)
      → get_elem? ext.buckets (m % 2 ^ ext.global_depth)
        ≡ get_elem? table.buckets (m % 2 ^ table.global_depth)

pub Extended_lem :
    (table : HashTable) (local : ℕ)
    → local ≤ table.global_depth
    → table.global_depth < 62
    → length table.buckets ≡ 2 ^ table.global_depth
    → Extended table (if local == table.global_depth then extend_table table else table) local
unfolding extend_table
Extended_lem table local le small len = elim (Bool-cases (local == table.global_depth)) [
  | inl full ↦
      let g = table.global_depth in
      let next : 2 ^ (g + 1) ≡ 2 ^ g * 2 = pow-add g 1 in
      rw full (record {
        room = ground arith;
        bound = omega arith;
        places = omega (arith, length-append table.buckets table.buckets);
        same = λ m.
            doubled table.buckets (m % 2 ^ g) (m % 2 ^ (g + 1)) (2 ^ g) len
              (omega (arith, mod-lt m (pow_positive (g + 1))))
              (twice_mod m (2 ^ g) ∙ ap (λ (t : ℕ). m % t % 2 ^ g) (sym next));
      })
  | inr deep ↦
      rw deep (record { room = ground arith; bound = omega arith; places = len; same = λ m. refl })
]

module _ (sum64 : List ℕ → ℕ) where
  -- A directory in which the loop has pointed places to a page, against the one before split.
  pub led_lem :
      (table ext : HashTable) (local new_hash pn : ℕ) (r : List ℕ)
      → Extended table ext local
      → table.global_depth < 62
      → new_hash < 2 ^ (local + 1)
      → ((bs : List ℕ) → sum64 bs < 2 ^ 64)
      → ((j : ℕ)
          → j < 2 ^ ext.global_depth
          → get_elem? r j
            ≡ (if reached new_hash (2 ^ (local + 1)) j then some pn else get_elem? ext.buckets j))
      → (key : ℤ) → IsInt64 key
      → (before after h : ℕ) × (hasher sum64 key table.global_depth ≡ some before)
        × (hasher sum64 key ext.global_depth ≡ some after)
        × (hasher sum64 key (local + 1) ≡ some h)
        × (get_elem? r after ≡ (if h == new_hash then some pn else get_elem? table.buckets before))
  led_lem table ext local new_hash pn r x small lt range at key fit =
      let (m, run) = hasher-magnitude sum64 key range fit in
      let g = ext.global_depth in
      let s : ℕ = 2 ^ (local + 1) in
      let whole : local + 1 + (g - (local + 1)) ≡ g = omega (arith, x.room) in
      let power : 2 ^ g ≡ s * 2 ^ (g - (local + 1)) =
        ap (λ (t : ℕ). 2 ^ t) (sym whole) ∙ pow-add (local + 1) (g - (local + 1)) in
      let rest : m % 2 ^ g % s ≡ m % s =
        ap (λ (t : ℕ). m % t % s) power ∙ times_mod m s (2 ^ (g - (local + 1))) in
      (
        m % 2 ^ table.global_depth,
        m % 2 ^ g,
        m % s,
        run table.global_depth (omega arith),
        run g x.bound,
        run (local + 1) (omega (arith, x.room, x.bound)),
        at (m % 2 ^ g) (mod-lt m (pow_positive g))
            ∙ rw (reached-mod new_hash s (m % 2 ^ g) lt, rest, x.same m) refl,
      )
