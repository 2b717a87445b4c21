-- ===== src/Btree/Order.antt =====
-- Lists of entries in the order of their keys, for pkg/btree.
use recovery_stencil.Prelude.{
  ℕ, zero, suc, ◌+◌, ◌-◌, ◌≤◌, ◌<◌, ◌≡◌, refl, sym, ◌∙◌, inl, inr, Bool, true, false, not, Option,
  none, some, List, [], ◌∷◌, arith, length, get_elem?, insert_idx, erase_idx, ltb, ◌==◌,
  if◌then◌else◌, Bool-cases, get_elem?_lt,
}
use recovery_stencil.Prelude.Moves.{get_elem?-insert_idx, get_elem?-erase_idx}
use recovery_stencil.Prelude.Int.{ℤ, pos, negsuc, ltb_ℤ, ◌==◌ as int_eq}
use recovery_stencil.Entry.{Entry}
use recovery_stencil.Entry.Find.{find_entry}
use recovery_stencil.Btree.Search.{Boundary}

pub ltb_ℤ-trans : (a b c : ℤ) → ltb_ℤ a b ≡ true → ltb_ℤ b c ≡ true → ltb_ℤ a c ≡ true
ltb_ℤ-trans (pos a) (pos b) (pos c) h k = ground arith
ltb_ℤ-trans (pos a) (pos b) (negsuc c) h k = ground arith
ltb_ℤ-trans (pos a) (negsuc b) c h k = ground arith
ltb_ℤ-trans (negsuc a) (pos b) (pos c) h k = ground arith
ltb_ℤ-trans (negsuc a) (pos b) (negsuc c) h k = ground arith
ltb_ℤ-trans (negsuc a) (negsuc b) (pos c) h k = ground arith
ltb_ℤ-trans (negsuc a) (negsuc b) (negsuc c) h k = ground arith

-- The keys of the entries increase.
abbrev pub IsSorted : List Entry → Type 0
IsSorted es =
    (i j : ℕ) (x y : Entry)
    → i < j
    → get_elem? es i ≡ some x
    → get_elem? es j ≡ some y
    → ltb_ℤ x.key y.key ≡ true

-- The first index whose key is not less than the given one.
unfoldable pub lower_bound : ℤ → List Entry → ℕ
lower_bound key [] = 0
lower_bound key (e ∷ es) = let rest = lower_bound key es in if ltb_ℤ e.key key then suc rest else 0

-- whether the entry at an index has a key of at least the given one
unfoldable pub at_least : ℤ → List Entry → ℕ → Bool
at_least key [] i = true
at_least key (e ∷ es) zero = not (ltb_ℤ e.key key)
at_least key (e ∷ es) (suc i) = at_least key es i

pub at_least_get :
    (key : ℤ) (es : List Entry) (i : ℕ) (x : Entry)
    → get_elem? es i ≡ some x
    → at_least key es i ≡ not (ltb_ℤ x.key key)
unfolding at_least
at_least_get key [] i x h = cc
at_least_get key (e ∷ es) zero x h = let same : e ≡ x = cc in rw same refl
at_least_get key (e ∷ es) (suc i) x h = at_least_get key es i x h

-- The boundary of that test is the lower bound.
pub Boundary-lower_bound :
    (key : ℤ) (es : List Entry) (r : ℕ)
    → Boundary (at_least key es) (length es) r
    → r ≡ lower_bound key es
unfolding at_least lower_bound
Boundary-lower_bound key [] r b = omega (arith, b.bound)
Boundary-lower_bound key (e ∷ es) zero b =
    let first : not (ltb_ℤ e.key key) ≡ true = b.above 0 (omega arith) (omega arith) in ground arith
Boundary-lower_bound key (e ∷ es) (suc r) b =
    let first : not (ltb_ℤ e.key key) ≡ false = b.below 0 (omega arith) in
    let rest = Boundary-lower_bound key es r (record {
      bound = omega (arith, b.bound);
      below = λ k h. b.below (suc k) (omega arith);
      above = λ k h lt. b.above (suc k) (omega arith) (omega arith);
    }) in
    ground arith

pub at_least_stays :
    (key : ℤ) (es : List Entry)
    → IsSorted es
    → (k l : ℕ) → k ≤ l
    → l < length es
    → at_least key es k ≡ true
    → at_least key es l ≡ true
at_least_stays key es sorted k l le lt h = elim (Bool-cases (ltb k l)) [
  | inr same ↦ let e : k ≡ l = ground arith in rw e at h
  | inl less ↦
      let (x, at_k) = get_elem?_lt es k (omega arith) in
      let (y, at_l) = get_elem?_lt es l lt in
      let x_y = sorted k l x y (ground arith) at_k at_l in
      let x_big : not (ltb_ℤ x.key key) ≡ true = sym (at_least_get key es k x at_k) ∙ h in
      elim (Bool-cases (ltb_ℤ y.key key)) [
        | inl y_small ↦ let x_small = ltb_ℤ-trans x.key y.key key x_y y_small in ground arith
        | inr y_big ↦ rw (at_least_get key es l y at_l, y_big) refl
      ]
]

pub IsSorted-tail : (e : Entry) (es : List Entry) → IsSorted (e ∷ es) → IsSorted es
IsSorted-tail e es s i j x y lt at_i at_j = s (suc i) (suc j) x y (omega arith) at_i at_j

ltb_ℤ-irrefl : (a b : ℤ) → int_eq a b ≡ true → ltb_ℤ a b ≡ false
ltb_ℤ-irrefl (pos a) (pos b) h = ground arith
ltb_ℤ-irrefl (pos a) (negsuc b) h = ground arith
ltb_ℤ-irrefl (negsuc a) (pos b) h = ground arith
ltb_ℤ-irrefl (negsuc a) (negsuc b) h = ground arith

pub ltb_ℤ-connex : (a b : ℤ) → ltb_ℤ a b ≡ false → int_eq a b ≡ false → ltb_ℤ b a ≡ true
ltb_ℤ-connex (pos a) (pos b) h k = ground arith
ltb_ℤ-connex (pos a) (negsuc b) h k = ground arith
ltb_ℤ-connex (negsuc a) (pos b) h k = ground arith
ltb_ℤ-connex (negsuc a) (negsuc b) h k = ground arith

ltb_ℤ-asym : (a b : ℤ) → ltb_ℤ a b ≡ true → (ltb_ℤ b a ≡ false) × (int_eq b a ≡ false)
ltb_ℤ-asym (pos a) (pos b) h = ground arith
ltb_ℤ-asym (pos a) (negsuc b) h = ground arith
ltb_ℤ-asym (negsuc a) (pos b) h = ground arith
ltb_ℤ-asym (negsuc a) (negsuc b) h = ground arith

-- a key below all of them is not found
find_above :
    (key : ℤ) (es : List Entry)
    → ((i : ℕ) (x : Entry) → get_elem? es i ≡ some x → ltb_ℤ key x.key ≡ true)
    → find_entry key es ≡ none
unfolding find_entry
find_above key [] above = refl
find_above key (e ∷ es) above =
    let first = ltb_ℤ-asym key e.key (above 0 e refl) in
    rw first.1 (find_above key es (λ i x h. above (suc i) x h))

-- the entry at an index, if it has the key
unfoldable pub entry_with_key : ℤ → List Entry → ℕ → Option Entry
entry_with_key key [] i = none
entry_with_key key (e ∷ es) zero = if int_eq e.key key then some e else none
entry_with_key key (e ∷ es) (suc i) = entry_with_key key es i

-- In a sorted list only the entry at the lower bound can have the key.
pub find_entry-lower_bound :
    (key : ℤ) (es : List Entry)
    → IsSorted es
    → find_entry key es ≡ entry_with_key key es (lower_bound key es)
unfolding find_entry lower_bound entry_with_key
find_entry-lower_bound key [] s = refl
find_entry-lower_bound key (e ∷ es) s = elim (Bool-cases (ltb_ℤ e.key key)) [
  | inl less ↦
      let ne : int_eq e.key key ≡ false = other e.key key less in
      rw (less, ne) (find_entry-lower_bound key es (IsSorted-tail e es s))
  | inr big ↦ elim (Bool-cases (int_eq e.key key)) [
    | inl same ↦ rw (big, same) refl
    | inr ne ↦
        let above = ltb_ℤ-connex e.key key big ne in
        rw (big, ne)
          (find_above key es
            (λ i x h. ltb_ℤ-trans key e.key x.key above (s 0 (suc i) e x (omega arith) refl h)))
  ]
]
  where
    other : (a b : ℤ) → ltb_ℤ a b ≡ true → int_eq a b ≡ false
    other (pos a) (pos b) h = ground arith
    other (pos a) (negsuc b) h = ground arith
    other (negsuc a) (pos b) h = ground arith
    other (negsuc a) (negsuc b) h = ground arith

pub entry_with_key_at :
    (key : ℤ) (es : List Entry) (i : ℕ) (e : Entry)
    → get_elem? es i ≡ some e
    → entry_with_key key es i ≡ (if int_eq e.key key then some e else none)
unfolding entry_with_key
entry_with_key_at key [] i e h = cc
entry_with_key_at key (x ∷ es) zero e h = let same : x ≡ e = cc in rw same refl
entry_with_key_at key (x ∷ es) (suc i) e h = entry_with_key_at key es i e h

pub entry_with_key_end :
    (key : ℤ) (es : List Entry) (i : ℕ) → length es ≤ i → entry_with_key key es i ≡ none
unfolding entry_with_key
entry_with_key_end key [] i h = refl
entry_with_key_end key (x ∷ es) zero h = absurd (omega arith)
entry_with_key_end key (x ∷ es) (suc i) h = entry_with_key_end key es i (omega arith)

pub lower_bound_le : (key : ℤ) (es : List Entry) → lower_bound key es ≤ length es
unfolding lower_bound
lower_bound_le key [] = omega arith
lower_bound_le key (e ∷ es) = ground (arith, lower_bound_le key es)

pub lower_bound-below :
    (key : ℤ) (es : List Entry) (k : ℕ) (x : Entry)
    → k < lower_bound key es
    → get_elem? es k ≡ some x
    → ltb_ℤ x.key key ≡ true
unfolding lower_bound
lower_bound-below key [] k x lt h = cc h
lower_bound-below key (e ∷ es) zero x lt h = let same : e ≡ x = cc h in rw (← same) (ground arith)
lower_bound-below key (e ∷ es) (suc k) x lt h = lower_bound-below key es k x (ground arith) h

pub lower_bound-above :
    (key : ℤ) (es : List Entry) (k : ℕ) (x : Entry)
    → IsSorted es
    → find_entry key es ≡ none
    → lower_bound key es ≤ k
    → get_elem? es k ≡ some x
    → ltb_ℤ key x.key ≡ true
unfolding lower_bound find_entry
lower_bound-above key [] k x s miss le h = cc h
lower_bound-above key (e ∷ es) zero x s miss le h = elim (Bool-cases (int_eq e.key key)) [
  | inl same ↦ cc (rw same at miss)
  | inr ne ↦ elim (Bool-cases (ltb_ℤ e.key key)) [
    | inl less ↦ absurd (ground arith)
    | inr big ↦ let same : e ≡ x = cc h in rw (← same) (ltb_ℤ-connex e.key key big ne)
  ]
]
lower_bound-above key (e ∷ es) (suc k) x s miss le h = elim (Bool-cases (int_eq e.key key)) [
  | inl same ↦ cc (rw same at miss)
  | inr ne ↦ elim (Bool-cases (ltb_ℤ e.key key)) [
    | inl less ↦
        lower_bound-above key es k x (IsSorted-tail e es s) (rw ne at miss) (ground arith) h
    | inr big ↦
        ltb_ℤ-trans key e.key x.key (ltb_ℤ-connex e.key key big ne)
          (s 0 (suc k) e x (omega arith) refl h)
  ]
]

-- A new entry at the lower bound of its key keeps the order.
pub IsSorted-insert_idx :
    (e : Entry) (es : List Entry)
    → IsSorted es
    → find_entry e.key es ≡ none
    → IsSorted (insert_idx es (lower_bound e.key es) e)
IsSorted-insert_idx e es s miss i j x y lt at_i at_j =
    let r = lower_bound e.key es in
    let bound = lower_bound_le e.key es in
    let old_i = sym (get_elem?-insert_idx es r i e bound) ∙ at_i in
    let old_j = sym (get_elem?-insert_idx es r j e bound) ∙ at_j in
    elim (Bool-cases (ltb i r)) [
      | inl i_below ↦
          let x_at : get_elem? es i ≡ some x = rw i_below at old_i in
          elim (Bool-cases (ltb j r)) [
            | inl j_below ↦ s i j x y lt x_at (rw j_below at old_j)
            | inr j_not ↦
                let x_e = lower_bound-below e.key es i x (ground arith) x_at in
                elim (Bool-cases (j == r)) [
                  | inl here ↦ let same : e ≡ y = cc (rw (j_not, here) at old_j) in rw (← same) x_e
                  | inr past ↦ s i (j - 1) x y (ground arith) x_at (rw (j_not, past) at old_j)
                ]
          ]
      | inr i_not ↦
          let j_not : ltb j r ≡ false = ground arith in
          let past : (j == r) ≡ false = ground arith in
          let y_at : get_elem? es (j - 1) ≡ some y = rw (j_not, past) at old_j in
          elim (Bool-cases (i == r)) [
            | inl here ↦
                let same : e ≡ x = cc (rw (i_not, here) at old_i) in
                rw (← same) (lower_bound-above e.key es (j - 1) y s miss (ground arith) y_at)
            | inr past_i ↦ s (i - 1) (j - 1) x y (ground arith) (rw (i_not, past_i) at old_i) y_at
          ]
    ]

pub IsSorted-erase_idx : (es : List Entry) (i : ℕ) → IsSorted es → IsSorted (erase_idx es i)
IsSorted-erase_idx es p s i j x y lt at_i at_j =
    let old_i = sym (get_elem?-erase_idx es p i) ∙ at_i in
    let old_j = sym (get_elem?-erase_idx es p j) ∙ at_j in
    elim (Bool-cases (ltb i p)) [
      | inl i_below ↦ elim (Bool-cases (ltb j p)) [
        | inl j_below ↦ s i j x y lt (rw i_below at old_i) (rw j_below at old_j)
        | inr j_not ↦ s i (j + 1) x y (omega arith) (rw i_below at old_i) (rw j_not at old_j)
      ]
      | inr i_not ↦
          let j_not : ltb j p ≡ false = ground arith in
          s (i + 1) (j + 1) x y (omega arith) (rw i_not at old_i) (rw j_not at old_j)
    ]

-- A new entry is found under its key, whichever its place, and under no other.
pub find_entry-insert_idx :
    (k : ℤ) (e : Entry) (es : List Entry) (i : ℕ)
    → i ≤ length es
    → find_entry e.key es ≡ none
    → find_entry k (insert_idx es i e) ≡ (if int_eq e.key k then some e else find_entry k es)
unfolding find_entry
find_entry-insert_idx k e [] zero le miss = refl
find_entry-insert_idx k e [] (suc i) le miss = absurd (omega arith)
find_entry-insert_idx k e (x ∷ es) zero le miss = refl
find_entry-insert_idx k e (x ∷ es) (suc i) le miss = elim (Bool-cases (int_eq x.key e.key)) [
  | inl same ↦ cc (rw same at miss)
  | inr ne ↦
      let ih = find_entry-insert_idx k e es i (omega arith) (rw ne at miss) in
      elim (Bool-cases (int_eq x.key k)) [
        | inr other ↦ rw other ih
        | inl hit ↦
            let e_k : int_eq e.key k ≡ false = apart x.key e.key k hit ne in rw (hit, e_k) refl
      ]
]
  where
    apart : (a b c : ℤ) → int_eq a c ≡ true → int_eq a b ≡ false → int_eq b c ≡ false
    apart (pos a) (pos b) (pos c) h n = ground arith
    apart (pos a) (negsuc b) (pos c) h n = ground arith
    apart (negsuc a) (pos b) (negsuc c) h n = ground arith
    apart (negsuc a) (negsuc b) (negsuc c) h n = ground arith
    apart (pos a) b (negsuc c) h n = ground arith
    apart (negsuc a) b (pos c) h n = ground arith
