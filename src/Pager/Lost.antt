-- ===== src/Pager/Lost.antt =====
-- pkg/pager/pager.go: an eviction whose write fails, since FlushPage drops the error of WriteAt.
use recovery_stencil.Prelude.{
  ℕ, ◌<◌, ◌≡◌, ◌≢◌, refl, sym, ◌∙◌, Bool, true, false, Option, none, some, List, [], ◌∷◌, ◌++◌,
  arith, get_elem?, Result, ok,
}
use recovery_stencil.Prelude.Int.{ℤ, pos, ◌==◌ as int_eq}
use recovery_stencil.Page.{Page}
use recovery_stencil.Pager.{
  Pager, PagerError, find_page, flush_page, new_page, fill_page_from_disk, load_page, get_page,
}
use recovery_stencil.Pager.Contents.{
  resident, content, IsKept, IsKept-find, find_page-append, first_of,
}
use recovery_stencil.Pager.Fetch.{fill-pagenum, guard_holds}

first_none : (a b : Option Page) → first_of a b ≡ none → (a ≡ none) × (b ≡ none)
first_none none b h = (refl, h)
first_none (some p) b h = cc h

pos_eq : (m n : ℕ) → pos m ≡ pos n → m ≡ n
pos_eq m n e = cc e

module _ (pagesize : ℕ) (writable : ℤ → Bool) (pager : Pager) (k n : ℕ) (page : Page)
    (rest : List Page) where
  abbrev frame : Page
  frame = record { pagenum = pos k; pin_count = pos 1; dirty = false; bytes = page.bytes }

  -- the pager without the page, whose block is as it was
  abbrev away : Pager
  away = record pager { unpinned_list = rest }

  abbrev handed_out : Page
  handed_out = fill_page_from_disk away frame

  -- what load_page leaves, given as x
  evict_to :
      (x : Pager × Result PagerError Page)
      → pager.free_list ≡ []
      → pager.unpinned_list ≡ page ∷ rest
      → page.pagenum ≡ pos n
      → page.dirty ≡ true
      → writable (pos n) ≡ false
      → (record away { pinned_list = pager.pinned_list ++ handed_out ∷ [] }, ok handed_out) ≡ x
      → load_page pagesize writable pager (pos k) true ≡ x
  unfolding load_page new_page flush_page
  evict_to x no_free eq num dirty cannot h =
      rw (load_page, new_page, no_free, eq, flush_page, dirty, num, cannot) h

  evict_run :
      pager.free_list ≡ []
      → pager.unpinned_list ≡ page ∷ rest
      → page.pagenum ≡ pos n
      → page.dirty ≡ true
      → writable (pos n) ≡ false
      → load_page pagesize writable pager (pos k) true
        ≡ (record away { pinned_list = pager.pinned_list ++ handed_out ∷ [] }, ok handed_out)
  evict_run no_free eq num dirty cannot = evict_to _ no_free eq num dirty cannot refl

  get_page-load :
      find_page (pos k) (resident pager) ≡ none
      → k < pager.num_pages
      → get_page pagesize writable pager (pos k) true
        ≡ load_page pagesize writable pager (pos k) true
  unfolding get_page
  get_page-load absent lt =
      let both = sym (find_page-append (pos k) pager.pinned_list pager.unpinned_list) ∙ absent in
      let pinned =
        first_none (find_page (pos k) pager.pinned_list) (find_page (pos k) pager.unpinned_list)
          both in
      rw (guard_holds k pager.num_pages lt, pinned.0, pinned.1) refl

  -- the pages beside the one that was evicted
  content-away :
      (q : Page)
      → q.pagenum ≡ pos k
      → n ≢ k
      → find_page (pos n) pager.pinned_list ≡ none
      → find_page (pos n) rest ≡ none
      → content (record away { pinned_list = pager.pinned_list ++ q ∷ [] }) n
        ≡ get_elem? pager.file n
  unfolding content find_page
  content-away q num ne before behind =
      let other : int_eq q.pagenum (pos n) ≡ false = rw num (ground arith) in
      let left = find_page-append (pos n) (pager.pinned_list ++ q ∷ []) rest in
      let middle = find_page-append (pos n) pager.pinned_list (q ∷ []) in
      let gone : find_page (pos n) ((pager.pinned_list ++ q ∷ []) ++ rest) ≡ none =
        left ∙ rw (middle, before, other) behind in
      rw gone refl

  -- Where frames that are not dirty agree with the file, no frame is free, the page that an
  -- eviction takes is dirty and its write fails, GetPage of a page that was handed out and is in
  -- no frame, which the disk can read, answers without an error, and the evicted page, which
  -- held the bytes of its frame, reads as its block of the file was before.
  pub get_page-lost :
      IsKept pager.file (resident pager)
      → pager.free_list ≡ []
      → pager.unpinned_list ≡ page ∷ rest
      → page.pagenum ≡ pos n
      → page.dirty ≡ true
      → writable (pos n) ≡ false
      → find_page (pos k) (resident pager) ≡ none
      → k < pager.num_pages
      → (handed : Page) × ((get_page pagesize writable pager (pos k) true).1 ≡ ok handed)
        × (content pager n ≡ some page.bytes)
        × (content (get_page pagesize writable pager (pos k) true).0 n ≡ get_elem? pager.file n)
  unfolding content find_page
  get_page-lost kept no_free eq num dirty cannot absent lt =
      let (m, num', clean, before, behind) =
        IsKept-find pager.file pager.pinned_list rest page (rw eq at kept) in
      let same : m ≡ n = pos_eq m n (sym num' ∙ num) in
      let before' : find_page (pos n) pager.pinned_list ≡ none = rw same at before in
      let behind' : find_page (pos n) rest ≡ none = rw same at behind in
      let self : int_eq page.pagenum (pos n) ≡ true = rw num (ground arith) in
      let there : find_page (pos n) (pager.pinned_list ++ page ∷ rest) ≡ some page =
        find_page-append (pos n) pager.pinned_list (page ∷ rest) ∙ rw (before', self) refl in
      let ne : n ≢ k = λ e. cc (rw eq at absent, rw e at there) in
      let run = get_page-load absent lt ∙ evict_run no_free eq num dirty cannot in
      (
        handed_out,
        rw run refl,
        rw (eq, there) refl,
        rw run (content-away handed_out (fill-pagenum away frame) ne before' behind'),
      )
