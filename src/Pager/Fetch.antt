-- ===== src/Pager/Fetch.antt =====
-- pkg/pager/pager.go: the contents of all pages under GetPage.
use recovery_stencil.Prelude.{
  ℕ, ◌<◌, ◌≡◌, ◌≢◌, refl, sym, ◌∙◌, ap, ◌⊎◌, inl, inr, Bool, true, false, ◌||◌, Option, none, some,
  List, [], ◌∷◌, ◌++◌, arith, length, get_elem?, get_elem?_lt, Bool-cases, Option-cases,
}
use native.Mathlib.Decide.{ℕ_discrete}
use recovery_stencil.Prelude.Int.{ℤ, pos, negsuc, ltb_ℤ, ◌==◌ as int_eq}
use recovery_stencil.Page.{Page}
use recovery_stencil.Pager.{
  Pager, find_page, remove_page, replace_page, block_index, flush_page, new_page,
  fill_page_from_disk, load_page, get_page, get, succ_ℤ,
}
use recovery_stencil.Pager.Contents.{
  resident, content, bytes_or, IsKept, IsCovered, first_of, find_page-append, find_page-pagenum,
  evicted, evicted-content, length-flush_page, CanEvict,
}

-- a page in place of another with its number and bytes
replaced :
    (k j : ℤ) (ps : List Page) (page q : Page) (o : Option Page) (b : Option (List ℕ))
    → find_page k ps ≡ some page
    → q.pagenum ≡ page.pagenum
    → q.bytes ≡ page.bytes
    → bytes_or (first_of (find_page j (replace_page k q ps)) o) b
      ≡ bytes_or (first_of (find_page j ps) o) b
unfolding find_page replace_page
replaced k j [] page q o b found num bytes = cc found
replaced k j (p ∷ ps) page q o b found num bytes = elim (Bool-cases (int_eq p.pagenum k)) [
  | inl hit ↦
      let same : p ≡ page = cc (rw hit at found) in
      rw (hit, num, same)
        (elim (Bool-cases (int_eq page.pagenum j)) [
          | inl asked ↦ rw asked (ap some bytes)
          | inr other ↦ rw other refl
        ])
  | inr miss ↦ rw miss (elim (Bool-cases (int_eq p.pagenum j)) [
    | inl asked ↦ rw asked refl
    | inr other ↦ rw other (replaced k j ps page q o b (rw miss at found) num bytes)
  ])
]

-- a page taken out of a list shows in the search for its own number only
find_page-remove_page :
    (k j : ℤ) (ps : List Page) (page : Page)
    → find_page k ps ≡ some page
    → int_eq page.pagenum j ≡ false
    → find_page j (remove_page k ps) ≡ find_page j ps
unfolding find_page remove_page
find_page-remove_page k j [] page found other = refl
find_page-remove_page k j (p ∷ ps) page found other = elim (Bool-cases (int_eq p.pagenum k)) [
  | inl hit ↦
      let same : p ≡ page = cc (rw hit at found) in
      let skip : int_eq p.pagenum j ≡ false = rw same other in rw (hit, skip) refl
  | inr miss ↦ rw miss (elim (Bool-cases (int_eq p.pagenum j)) [
    | inl asked ↦ rw asked refl
    | inr skip ↦ rw skip (find_page-remove_page k j ps page (rw miss at found) other)
  ])
]

-- a page moved from the second list to the end of the first
moved :
    (k j : ℤ) (ps us : List Page) (page q : Page) (b : Option (List ℕ))
    → find_page k us ≡ some page
    → q.pagenum ≡ page.pagenum
    → q.bytes ≡ page.bytes
    → (int_eq page.pagenum j ≡ false) ⊎ (find_page j us ≡ some page)
    → bytes_or (find_page j ((ps ++ q ∷ []) ++ remove_page k us)) b
      ≡ bytes_or (find_page j (ps ++ us)) b
unfolding find_page
moved k j ps us page q b found num bytes which =
    let left = find_page-append j (ps ++ q ∷ []) (remove_page k us) in
    let middle = find_page-append j ps (q ∷ []) in
    let right = find_page-append j ps us in
    elim (Option-cases (find_page j ps)) [
      | inr (a, first) ↦
          let l : find_page j ((ps ++ q ∷ []) ++ remove_page k us) ≡ some a =
            left ∙ rw (middle, first) refl in
          let r : find_page j (ps ++ us) ≡ some a = right ∙ rw first refl in rw (l, r) refl
      | inl none_first ↦ elim which [
        | inr asked ↦
            let own : int_eq q.pagenum j ≡ true = rw num (find_page-pagenum j us page asked) in
            let l : find_page j ((ps ++ q ∷ []) ++ remove_page k us) ≡ some q =
              left ∙ rw (middle, none_first, own) refl in
            let r : find_page j (ps ++ us) ≡ some page = right ∙ rw (none_first, asked) refl in
            rw (l, r) (ap some bytes)
        | inl other ↦
            let skip : int_eq q.pagenum j ≡ false = rw num other in
            let l : find_page j ((ps ++ q ∷ []) ++ remove_page k us) ≡ find_page j us =
              left
              ∙ rw (middle, none_first, skip) (find_page-remove_page k j us page found other) in
            let r : find_page j (ps ++ us) ≡ find_page j us = right ∙ rw none_first refl in
            rw (l, r) refl
      ]
    ]

-- the pager with a page that was read from the file
abbrev loaded : Pager → Page → Pager
loaded pager frame = record pager {
  pinned_list = pager.pinned_list ++ fill_page_from_disk pager frame ∷ [];
}

pub fill-pagenum : (pager : Pager) (p : Page) → (fill_page_from_disk pager p).pagenum ≡ p.pagenum
unfolding fill_page_from_disk
fill-pagenum pager p = elim (Option-cases (get_elem? pager.file (block_index p.pagenum))) [
  | inl gap ↦ rw (fill_page_from_disk, gap) refl
  | inr (d, block) ↦ rw (fill_page_from_disk, block) refl
]

pub fill-bytes :
    (pager : Pager) (p : Page) (d : List ℕ)
    → get_elem? pager.file (block_index p.pagenum) ≡ some d
    → (fill_page_from_disk pager p).bytes ≡ d
unfolding fill_page_from_disk
fill-bytes pager p d block = rw (fill_page_from_disk, block) refl

loaded-content :
    (pager : Pager) (frame : Page) (k j : ℕ)
    → frame.pagenum ≡ pos k
    → find_page (pos k) (resident pager) ≡ none
    → k < length pager.file
    → content (loaded pager frame) j ≡ content pager j
unfolding content find_page
loaded-content pager frame k j num absent lt =
    let ps = pager.pinned_list in
    let us = pager.unpinned_list in
    let q = fill_page_from_disk pager frame in
    let num_q : q.pagenum ≡ pos k = fill-pagenum pager frame ∙ num in
    let (d, block) = get_elem?_lt pager.file k lt in
    let bytes_q : q.bytes ≡ d = fill-bytes pager frame d (rw num block) in
    let left = find_page-append (pos j) (ps ++ q ∷ []) us in
    let middle = find_page-append (pos j) ps (q ∷ []) in
    let right = find_page-append (pos j) ps us in
    elim (ℕ_discrete k j) [
      | yes same ↦
          let own : int_eq q.pagenum (pos j) ≡ true = rw num_q (ground arith) in
          let gone : find_page (pos j) (ps ++ us) ≡ none = rw same at absent in
          let first : find_page (pos j) ps ≡ none =
            none_left (find_page (pos j) ps) _ (sym right ∙ gone) in
          let l : find_page (pos j) ((ps ++ q ∷ []) ++ us) ≡ some q =
            left ∙ rw (middle, first, own) refl in
          rw (l, gone, ← same) (ap some bytes_q ∙ sym block)
      | no ne ↦
          let other : int_eq q.pagenum (pos j) ≡ false = rw num_q (ground arith) in
          let l : find_page (pos j) ((ps ++ q ∷ []) ++ us) ≡ find_page (pos j) (ps ++ us) =
            left ∙ rw (middle, other) (skip_none (find_page (pos j) ps) _ ∙ sym right) in
          rw l refl
    ]
  where
    none_left : (a b : Option Page) → first_of a b ≡ none → a ≡ none
    none_left none b h = refl
    none_left (some p) b h = cc h

    skip_none : (a b : Option Page) → first_of (first_of a none) b ≡ first_of a b
    skip_none none b = refl
    skip_none (some p) b = refl

-- the page number asked for is one that was handed out
pub guard_lt : (k n : ℕ) → (ltb_ℤ (pos k) (pos 0) || ltb_ℤ (pos n) (succ_ℤ (pos k))) ≡ false → k < n
guard_lt k n h = ground arith

pub guard_holds :
    (k n : ℕ) → k < n → (ltb_ℤ (pos k) (pos 0) || ltb_ℤ (pos n) (succ_ℤ (pos k))) ≡ false
guard_holds k n h = ground arith

pinned_hit :
    (pager : Pager) (k j : ℕ) (page : Page)
    → find_page (pos k) pager.pinned_list ≡ some page
    → content (record pager { pinned_list = replace_page (pos k) (get page) pager.pinned_list }) j
      ≡ content pager j
unfolding content get
pinned_hit pager k j page found =
    let us = pager.unpinned_list in
    let block = get_elem? pager.file j in
    ap (λ t. bytes_or t block)
      (find_page-append (pos j) (replace_page (pos k) (get page) pager.pinned_list) us)
    ∙ replaced (pos k) (pos j) pager.pinned_list page (get page) (find_page (pos j) us) block found
        refl refl
    ∙ sym (ap (λ t. bytes_or t block) (find_page-append (pos j) pager.pinned_list us))

other_number : (z : ℤ) (k j : ℕ) → int_eq z (pos k) ≡ true → k ≢ j → int_eq z (pos j) ≡ false
other_number (pos n) k j h ne = ground arith
other_number (negsuc n) k j h ne = ground arith

unpinned_hit :
    (pager : Pager) (k j : ℕ) (page : Page)
    → find_page (pos k) pager.unpinned_list ≡ some page
    → content
        (record pager {
          unpinned_list = remove_page (pos k) pager.unpinned_list;
          pinned_list = pager.pinned_list ++ get page ∷ [];
        })
        j
      ≡ content pager j
unfolding content get
unpinned_hit pager k j page found =
    moved (pos k) (pos j) pager.pinned_list pager.unpinned_list page (get page)
      (get_elem? pager.file j) found refl refl
      (elim (ℕ_discrete k j) [
        | yes same ↦ inr (rw same at found)
        | no ne ↦ inl (
            other_number page.pagenum k j (find_page-pagenum (pos k) pager.unpinned_list page found)
              ne)
      ])

-- a page that is in no frame is in none after the eviction of another
pub absent_evicted :
    (k : ℤ) (ps rest : List Page) (page : Page)
    → find_page k (ps ++ page ∷ rest) ≡ none
    → find_page k (ps ++ rest) ≡ none
unfolding find_page
absent_evicted k [] rest page h = elim (Bool-cases (int_eq page.pagenum k)) [
  | inl hit ↦ cc (rw hit at h)
  | inr miss ↦ rw miss at h
]
absent_evicted k (p ∷ ps) rest page h = elim (Bool-cases (int_eq p.pagenum k)) [
  | inl hit ↦ cc (rw hit at h)
  | inr miss ↦ rw miss (absent_evicted k ps rest page (rw miss at h))
]

module _ (pagesize : ℕ) (writable : ℤ → Bool) (pager : Pager) (k : ℕ) (readable : Bool) where
  load_page-content :
      (j : ℕ)
      → IsKept pager.file (resident pager)
      → IsCovered pager
      → k < pager.num_pages
      → j < pager.num_pages
      → find_page (pos k) (resident pager) ≡ none
      → CanEvict writable pager.unpinned_list
      → content (load_page pagesize writable pager (pos k) readable).0 j ≡ content pager j
  unfolding load_page new_page content
  load_page-content j kept covered lt_k lt_j absent can = by_free pager.free_list refl
    where
      by_unpinned :
          (unpinned : List Page)
          → pager.free_list ≡ []
          → pager.unpinned_list ≡ unpinned
          → content (load_page pagesize writable pager (pos k) readable).0 j ≡ content pager j
      by_unpinned [] no_free eq =
          rw (load_page, new_page, no_free, eq)
            (ap
              (λ t. bytes_or (find_page (pos j) (pager.pinned_list ++ t)) (get_elem? pager.file j))
              eq)
      by_unpinned (page ∷ rest) no_free eq =
          let away = evicted pagesize writable pager page rest in
          let frame : Page = record {
            pagenum = pos k;
            pin_count = pos 1;
            dirty = false;
            bytes = (flush_page pagesize writable pager.file page).1.bytes;
          } in
          let head =
            ap (λ t. bytes_or (find_page (pos j) (pager.pinned_list ++ t)) (get_elem? pager.file j))
              eq in
          let kept_content =
            evicted-content pagesize writable pager page rest j eq kept (covered j lt_j)
              (inr (rw eq at can))
            ∙ head in
          elim (Bool-cases readable) [
            | inl can_read ↦
                rw (load_page, new_page, no_free, eq, can_read)
                  (loaded-content away frame k j refl
                      (absent_evicted (pos k) pager.pinned_list rest page (rw eq at absent))
                      (omega (
                        arith,
                        covered k lt_k absent,
                        length-flush_page pagesize writable pager.file page,
                      ))
                    ∙ kept_content)
            | inr cannot ↦ rw (load_page, new_page, no_free, eq, cannot) kept_content
          ]

      by_free :
          (free : List Page)
          → pager.free_list ≡ free
          → content (load_page pagesize writable pager (pos k) readable).0 j ≡ content pager j
      by_free [] eq = by_unpinned pager.unpinned_list eq refl
      by_free (page ∷ free) eq = elim (Bool-cases readable) [
        | inl can_read ↦
            rw (load_page, new_page, eq, can_read)
              (loaded-content (record pager { free_list = free })
                (record { pagenum = pos k; pin_count = pos 1; dirty = false; bytes = page.bytes }) k
                j refl absent (covered k lt_k absent))
        | inr cannot ↦ rw (load_page, new_page, eq, cannot) refl
      ]

  -- Where frames that are not dirty agree with the file, every page is in a frame or in the
  -- file, and the page that an eviction would take can be written if it is dirty, GetPage keeps
  -- the contents of every page, whether the page asked for was in a frame, had to be read from
  -- the file in place of another, or could not be had.
  pub get_page-content :
      (j : ℕ)
      → IsKept pager.file (resident pager)
      → IsCovered pager
      → j < pager.num_pages
      → CanEvict writable pager.unpinned_list
      → content (get_page pagesize writable pager (pos k) readable).0 j ≡ content pager j
  unfolding get_page
  get_page-content j kept covered lt_j can =
      elim (Bool-cases (ltb_ℤ (pos k) (pos 0) || ltb_ℤ (pos pager.num_pages) (succ_ℤ (pos k)))) [
        | inl invalid ↦ rw invalid refl
        | inr valid ↦ elim (Option-cases (find_page (pos k) pager.pinned_list)) [
          | inr (page, pinned) ↦ rw (valid, pinned) (pinned_hit pager k j page pinned)
          | inl not_pinned ↦ elim (Option-cases (find_page (pos k) pager.unpinned_list)) [
            | inr (page, unpinned) ↦
                rw (valid, not_pinned, unpinned) (unpinned_hit pager k j page unpinned)
            | inl absent ↦
                rw (valid, not_pinned, absent)
                  (load_page-content j kept covered (guard_lt k pager.num_pages valid) lt_j
                    (find_page-append (pos k) pager.pinned_list pager.unpinned_list
                      ∙ rw (not_pinned, absent) refl)
                    can)
          ]
        ]
      ]
