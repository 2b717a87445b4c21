-- ===== src/Pager/Handed.antt =====
-- pkg/pager/pager.go: the contents of the page that GetPage returns.
use recovery_stencil.Prelude.{
  ℕ, ◌<◌, ◌≡◌, refl, sym, ◌∙◌, ap, inl, inr, Bool, false, ◌||◌, none, some, List, [], ◌∷◌, arith,
  length, get_elem?_lt, Bool-cases, Option-cases, ok,
}
use recovery_stencil.Prelude.Int.{ℤ, pos, ltb_ℤ}
use recovery_stencil.Page.{Page}
use recovery_stencil.Pager.{
  Pager, find_page, flush_page, new_page, fill_page_from_disk, load_page, get_page, get, succ_ℤ,
}
use recovery_stencil.Pager.Contents.{
  resident, content, IsKept, IsCovered, find_page-append, evicted, evicted-content,
  length-flush_page,
}
use recovery_stencil.Pager.Fetch.{fill-bytes, guard_lt, absent_evicted}

-- a frame that was filled from a pager in which the page has no frame
filled :
    (pager : Pager) (frame : Page) (k : ℕ)
    → frame.pagenum ≡ pos k
    → find_page (pos k) (resident pager) ≡ none
    → k < length pager.file
    → content pager k ≡ some (fill_page_from_disk pager frame).bytes
unfolding content
filled pager frame k num absent lt =
    let (d, block) = get_elem?_lt pager.file k lt in
    rw absent (block ∙ ap some (sym (fill-bytes pager frame d (rw num block))))

module _ (pagesize : ℕ) (writable : ℤ → Bool) (pager : Pager) (k : ℕ) (readable : Bool)
    (page : Page) (kept : IsKept pager.file (resident pager)) (covered : IsCovered pager) where
  load_page-bytes :
      k < pager.num_pages
      → find_page (pos k) (resident pager) ≡ none
      → (load_page pagesize writable pager (pos k) readable).1 ≡ ok page
      → content pager k ≡ some page.bytes
  unfolding load_page new_page
  load_page-bytes lt absent got = by_free pager.free_list refl
    where
      by_unpinned :
          (unpinned : List Page)
          → pager.free_list ≡ []
          → pager.unpinned_list ≡ unpinned
          → content pager k ≡ some page.bytes
      by_unpinned [] no_free eq = cc (rw (load_page, new_page, no_free, eq) at got)
      by_unpinned (old ∷ rest) no_free eq = elim (Bool-cases readable) [
        | inr cannot ↦ cc (rw (load_page, new_page, no_free, eq, cannot) at got)
        | inl can_read ↦
            let away = evicted pagesize writable pager old rest in
            let frame : Page = record {
              pagenum = pos k;
              pin_count = pos 1;
              dirty = false;
              bytes = (flush_page pagesize writable pager.file old).1.bytes;
            } in
            let same : fill_page_from_disk away frame ≡ page =
              cc (rw (load_page, new_page, no_free, eq, can_read) at got) in
            sym (
              evicted-content pagesize writable pager old rest k eq kept (covered k lt)
                (inl absent))
            ∙ filled away frame k refl
                (absent_evicted (pos k) pager.pinned_list rest old (rw eq at absent))
                (omega
                  (arith, covered k lt absent, length-flush_page pagesize writable pager.file old))
            ∙ ap (λ (p : Page). some p.bytes) same
      ]

      by_free : (free : List Page) → pager.free_list ≡ free → content pager k ≡ some page.bytes
      by_free [] eq = by_unpinned pager.unpinned_list eq refl
      by_free (old ∷ free) eq = elim (Bool-cases readable) [
        | inr cannot ↦ cc (rw (load_page, new_page, eq, cannot) at got)
        | inl can_read ↦
            let frame : Page = record {
              pagenum = pos k;
              pin_count = pos 1;
              dirty = false;
              bytes = old.bytes;
            } in
            let same : fill_page_from_disk (record pager { free_list = free }) frame ≡ page =
              cc (rw (load_page, new_page, eq, can_read) at got) in
            unfold content in
            (filled (record pager { free_list = free }) frame k refl absent (covered k lt absent)
              ∙ ap (λ (p : Page). some p.bytes) same)
      ]

  -- Where frames that are not dirty agree with the file and every page is in a frame or in the
  -- file, a page that GetPage returns has the contents of the page that was asked for.
  pub get_page-bytes :
      (get_page pagesize writable pager (pos k) readable).1 ≡ ok page
      → content pager k ≡ some page.bytes
  unfolding get_page get content
  get_page-bytes got =
      elim (Bool-cases (ltb_ℤ (pos k) (pos 0) || ltb_ℤ (pos pager.num_pages) (succ_ℤ (pos k)))) [
        | inl invalid ↦ cc (rw (get_page, invalid) at got)
        | inr valid ↦ elim (Option-cases (find_page (pos k) pager.pinned_list)) [
          | inr (p, pinned) ↦
              let same : get p ≡ page = cc (rw (get_page, valid, pinned) at got) in
              let there : find_page (pos k) (resident pager) ≡ some p =
                find_page-append (pos k) pager.pinned_list pager.unpinned_list ∙ rw pinned refl in
              rw there (ap (λ (q : Page). some q.bytes) same)
          | inl not_pinned ↦ elim (Option-cases (find_page (pos k) pager.unpinned_list)) [
            | inr (p, unpinned) ↦
                let same : get p ≡ page = cc (rw (get_page, valid, not_pinned, unpinned) at got) in
                let there : find_page (pos k) (resident pager) ≡ some p =
                  find_page-append (pos k) pager.pinned_list pager.unpinned_list
                  ∙ rw (not_pinned, unpinned) refl in
                rw there (ap (λ (q : Page). some q.bytes) same)
            | inl absent ↦
                load_page-bytes (guard_lt k pager.num_pages valid)
                  (find_page-append (pos k) pager.pinned_list pager.unpinned_list
                    ∙ rw (not_pinned, absent) refl)
                  (rw (get_page, valid, not_pinned, absent) at got)
          ]
        ]
      ]
