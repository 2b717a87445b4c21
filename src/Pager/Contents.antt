-- ===== src/Pager/Contents.antt =====
-- pkg/pager/pager.go: the contents of a page, in its frame or in the file, and an eviction.
use recovery_stencil.Prelude.{
  ℕ, zero, suc, ◌≤◌, ◌<◌, ◌≡◌, ◌≢◌, refl, sym, ◌∙◌, ap, ◌⊎◌, inl, inr, Bool, true, false, Option,
  none, some, List, [], ◌∷◌, ◌++◌, arith, length, get_elem?, Bool-cases,
}
use native.Mathlib.Decide.{ℕ_discrete}
use recovery_stencil.Prelude.Int.{ℤ, pos, ◌==◌ as int_eq}
use recovery_stencil.Page.{Page}
use recovery_stencil.Pager.{Pager, find_page, write_block, block_index, flush_page}

-- the pages that stand in a frame
abbrev pub resident : Pager → List Page
resident pager = pager.pinned_list ++ pager.unpinned_list

abbrev pub bytes_or : Option Page → Option (List ℕ) → Option (List ℕ)
bytes_or none block = block
bytes_or (some p) block = some p.bytes

-- What a page holds, in its frame or, if it has none, in the file.
unfoldable pub content : Pager → ℕ → Option (List ℕ)
content pager k = bytes_or (find_page (pos k) (resident pager)) (get_elem? pager.file k)

-- Each page has its own number, and one that is not dirty agrees with its block of the file.
unfoldable pub IsKept : List (List ℕ) → List Page → Type 0
IsKept file [] = Unit
IsKept file (p ∷ ps) =
    ((n : ℕ) × (p.pagenum ≡ pos n)
      × ((p.dirty ≡ true) ⊎ (get_elem? file n ≡ some p.bytes))
      × (find_page (pos n) ps ≡ none))
    × IsKept file ps

-- Every page that was handed out is in a frame or in the file.
abbrev pub IsCovered : Pager → Type 0
IsCovered pager =
    (k : ℕ)
    → k < pager.num_pages
    → find_page (pos k) (resident pager) ≡ none
    → k < length pager.file

get-write_block :
    (pagesize : ℕ) (bs : List (List ℕ)) (i : ℕ) (d : List ℕ)
    → get_elem? (write_block pagesize bs i d) i ≡ some d
unfolding write_block
get-write_block pagesize [] zero d = refl
get-write_block pagesize [] (suc i) d = get-write_block pagesize [] i d
get-write_block pagesize (b ∷ bs) zero d = refl
get-write_block pagesize (b ∷ bs) (suc i) d = get-write_block pagesize bs i d

get-write_block_other :
    (pagesize : ℕ) (bs : List (List ℕ)) (i k : ℕ) (d : List ℕ)
    → i ≢ k
    → k < length bs
    → get_elem? (write_block pagesize bs i d) k ≡ get_elem? bs k
unfolding write_block
get-write_block_other pagesize [] i k d ne lt = absurd (omega arith)
get-write_block_other pagesize (b ∷ bs) zero zero d ne lt = absurd (ne refl)
get-write_block_other pagesize (b ∷ bs) zero (suc k) d ne lt = refl
get-write_block_other pagesize (b ∷ bs) (suc i) zero d ne lt = refl
get-write_block_other pagesize (b ∷ bs) (suc i) (suc k) d ne lt =
    get-write_block_other pagesize bs i k d (λ e. ne (ap suc e)) (omega arith)

-- which of two answers comes first
abbrev pub first_of {ℓ} : {A : Type ℓ} → Option A → Option A → Option A
first_of none b = b
first_of (some a) b = some a

pub find_page-append :
    (k : ℤ) (ps qs : List Page)
    → find_page k (ps ++ qs) ≡ first_of (find_page k ps) (find_page k qs)
unfolding find_page
find_page-append k [] qs = refl
find_page-append k (p ∷ ps) qs = elim (Bool-cases (int_eq p.pagenum k)) [
  | inl hit ↦ rw hit refl
  | inr miss ↦ rw miss (find_page-append k ps qs)
]

pub find_page-pagenum :
    (k : ℤ) (ps : List Page) (p : Page) → find_page k ps ≡ some p → int_eq p.pagenum k ≡ true
unfolding find_page
find_page-pagenum k [] p h = cc h
find_page-pagenum k (q ∷ ps) p h = elim (Bool-cases (int_eq q.pagenum k)) [
  | inl hit ↦ let same : q ≡ p = cc (rw hit at h) in rw (← same) hit
  | inr miss ↦ find_page-pagenum k ps p (rw miss at h)
]

-- a page in a list that is kept agrees with the file unless it is dirty
pub IsKept-find :
    (file : List (List ℕ)) (ps qs : List Page) (p : Page)
    → IsKept file (ps ++ p ∷ qs)
    → (n : ℕ) × (p.pagenum ≡ pos n)
      × ((p.dirty ≡ true) ⊎ (get_elem? file n ≡ some p.bytes))
      × (find_page (pos n) ps ≡ none)
      × (find_page (pos n) qs ≡ none)
unfolding IsKept find_page
IsKept-find file [] qs p kept = let (n, num, clean, miss) = kept.0 in (n, num, clean, refl, miss)
IsKept-find file (q ∷ ps) qs p kept =
    let (n, num, clean, miss, behind) = IsKept-find file ps qs p kept.1 in
    let (m, num_q, clean_q, miss_q) = kept.0 in
    (
      n,
      num,
      clean,
      elim (Bool-cases (int_eq q.pagenum (pos n))) [
        | inl hit ↦
            let same : m ≡ n = ground (arith, rw num_q at hit) in
            let self : int_eq p.pagenum (pos n) ≡ true = rw num (ground arith) in
            let found : find_page (pos n) (ps ++ p ∷ qs) ≡ some p =
              find_page-append (pos n) ps (p ∷ qs) ∙ rw (miss, self) refl in
            cc (rw same at miss_q, found)
        | inr other ↦ rw other miss
      ],
      behind,
    )

-- what a flush makes of the block of its page, and of another block
flush_page-own :
    (pagesize : ℕ) (writable : ℤ → Bool) (file : List (List ℕ)) (page : Page) (n : ℕ)
    → page.pagenum ≡ pos n
    → (page.dirty ≡ true) ⊎ (get_elem? file n ≡ some page.bytes)
    → (page.dirty ≡ true → writable (pos n) ≡ true)
    → get_elem? (flush_page pagesize writable file page).0 n ≡ some page.bytes
unfolding flush_page
flush_page-own pagesize writable file page n num clean can = elim (Bool-cases page.dirty) [
  | inl dirty ↦ rw (dirty, num, can dirty) (get-write_block pagesize file n page.bytes)
  | inr not_dirty ↦ elim clean [ inl dirty ↦ cc (dirty, not_dirty) | inr same ↦ rw not_dirty same ]
]

flush_page-other :
    (pagesize : ℕ) (writable : ℤ → Bool) (file : List (List ℕ)) (page : Page) (n k : ℕ)
    → page.pagenum ≡ pos n
    → n ≢ k
    → k < length file
    → get_elem? (flush_page pagesize writable file page).0 k ≡ get_elem? file k
unfolding flush_page
flush_page-other pagesize writable file page n k num ne lt = elim (Bool-cases page.dirty) [
  | inr not_dirty ↦ rw not_dirty refl
  | inl dirty ↦ elim (Bool-cases (writable (pos n))) [
    | inl can ↦ rw (dirty, num, can) (get-write_block_other pagesize file n k page.bytes ne lt)
    | inr cannot ↦ rw (dirty, num, cannot) refl
  ]
]

bytes_or-block :
    (o : Option Page) (a b : Option (List ℕ)) → (o ≡ none → a ≡ b) → bytes_or o a ≡ bytes_or o b
bytes_or-block none a b h = h refl
bytes_or-block (some p) a b h = refl

-- a page that can be written if it has to be
abbrev pub IsWritable : (ℤ → Bool) → Page → Type 0
IsWritable writable page =
    (n : ℕ) → page.pagenum ≡ pos n → page.dirty ≡ true → writable (pos n) ≡ true

-- the page that an eviction would take can be written
abbrev pub CanEvict : (ℤ → Bool) → List Page → Type 0
CanEvict writable [] = Unit
CanEvict writable (page ∷ rest) = IsWritable writable page

-- the pager after a page at the head of the unpinned list was evicted
abbrev pub evicted : ℕ → (ℤ → Bool) → Pager → Page → List Page → Pager
evicted pagesize writable pager page rest = record pager {
  file = (flush_page pagesize writable pager.file page).0;
  unpinned_list = rest;
}

pub evicted-content :
    (pagesize : ℕ) (writable : ℤ → Bool) (pager : Pager) (page : Page) (rest : List Page) (k : ℕ)
    → pager.unpinned_list ≡ page ∷ rest
    → IsKept pager.file (resident pager)
    → (find_page (pos k) (resident pager) ≡ none → k < length pager.file)
    → (find_page (pos k) (resident pager) ≡ none) ⊎ IsWritable writable page
    → content (evicted pagesize writable pager page rest) k ≡ content pager k
unfolding content
evicted-content pagesize writable pager page rest k eq kept covered can =
    let ps = pager.pinned_list in
    let file = pager.file in
    let kept' : IsKept file (ps ++ page ∷ rest) = rw eq at kept in
    let (n, num, clean, before, behind) = IsKept-find file ps rest page kept' in
    elim (ℕ_discrete n k) [
      | yes same ↦
          let gone : find_page (pos k) (ps ++ rest) ≡ none =
            find_page-append (pos k) ps rest ∙ rw (← same, before, behind) refl in
          let self : int_eq page.pagenum (pos k) ≡ true = rw (num, same) (ground arith) in
          let head : find_page (pos k) (page ∷ rest) ≡ some page =
            unfold find_page in rw self refl in
          let miss : find_page (pos k) ps ≡ none = rw same at before in
          let there : find_page (pos k) (ps ++ page ∷ rest) ≡ some page =
            find_page-append (pos k) ps (page ∷ rest) ∙ rw (miss, head) refl in
          elim can [
            | inl absent ↦ cc (rw eq at absent, there)
            | inr writes ↦
                let own =
                  flush_page-own pagesize writable file page n num clean
                    (λ dirty. writes n num dirty) in
                rw (eq, gone, there, ← same) own
          ]
      | no ne ↦
          let other : int_eq page.pagenum (pos k) ≡ false = rw num (ground arith) in
          let head : find_page (pos k) (page ∷ rest) ≡ find_page (pos k) rest =
            unfold find_page in rw other refl in
          let same_find : find_page (pos k) (ps ++ page ∷ rest) ≡ find_page (pos k) (ps ++ rest) =
            find_page-append (pos k) ps (page ∷ rest)
            ∙ rw head (sym (find_page-append (pos k) ps rest)) in
          rw (eq, same_find)
            (bytes_or-block (find_page (pos k) (ps ++ rest)) _ _ (λ miss.
              flush_page-other pagesize writable file page n k num ne
                (covered (rw (eq, same_find) miss))))
    ]

length-write_block :
    (pagesize : ℕ) (bs : List (List ℕ)) (i : ℕ) (d : List ℕ)
    → length bs ≤ length (write_block pagesize bs i d)
unfolding write_block
length-write_block pagesize [] i d = omega arith
length-write_block pagesize (b ∷ bs) zero d = omega arith
length-write_block pagesize (b ∷ bs) (suc i) d = omega (arith, length-write_block pagesize bs i d)

pub length-flush_page :
    (pagesize : ℕ) (writable : ℤ → Bool) (file : List (List ℕ)) (page : Page)
    → length file ≤ length (flush_page pagesize writable file page).0
unfolding flush_page
length-flush_page pagesize writable file page = elim (Bool-cases page.dirty) [
  | inr clean ↦ rw clean (omega arith)
  | inl dirty ↦ elim (Bool-cases (writable page.pagenum)) [
    | inl can ↦
        rw (dirty, can) (length-write_block pagesize file (block_index page.pagenum) page.bytes)
    | inr cannot ↦ rw (dirty, cannot) (omega arith)
  ]
]
