-- ===== src/Pager.antt =====
-- pkg/pager/pager.go: the frames of the buffer and the file behind them. Each list of links is the list
-- of its pages from head to tail, and the page table, which maps a page number to the link of its
-- page in the pinned or the unpinned list, is the search of those two lists. The file is the list
-- of its blocks. The pager's mutex is held for the whole of each operation. Its users hold a page by
-- its number.
pub mod Contents
pub mod Fetch
pub mod Handed
pub mod Lost
use recovery_stencil.Prelude.{
  ℕ, zero, suc, ◌+◌, ◌-◌, ◌*◌, ◌%◌, ◌/◌, Bool, true, false, Option, none, some, List, [], ◌∷◌, ◌++◌,
  length, get_elem?, replicate, ltb, ◌||◌, ◌==◌, ◌>>=◌, if◌then◌else◌, Result, ok, err,
}
use recovery_stencil.Prelude.Int.{ℤ, pos, negsuc, ltb_ℤ, ◌==◌ as int_eq}
use recovery_stencil.Page.{Page, no_page}

abbrev pub max_pages_in_buffer : ℕ
max_pages_in_buffer = 32

pub data PagerError : Type 0 where
  ran_out_of_pages invalid_pagenum read_failed negative_pin_count still_pinned corrupted :
      PagerError

pub record Pager : Type 0 where
  pub file : List (List ℕ)
  pub num_pages : ℕ
  pub free_list : List Page
  pub unpinned_list : List Page
  pub pinned_list : List Page

-- n frames, given what is in them
unfoldable pub make_frames : ℕ → List ℕ → List Page
make_frames zero data_ = []
make_frames (suc n) data_ =
    record { pagenum = no_page; pin_count = pos 0; dirty = false; bytes = data_ }
    ∷ make_frames n data_

-- Open, for a file of this many bytes and these blocks
unfoldable pub open_file : ℕ → Pager → ℕ → List (List ℕ) → Result PagerError Pager
open_file pagesize pager len blocks =
    if len % pagesize == 0
    then ok (record pager { file = blocks; num_pages = len / pagesize })
    else err corrupted

-- New: directio's aligned block is zeroed, as every block of bytes that Go makes
unfoldable pub new : ℕ → ℕ → List (List ℕ) → Result PagerError Pager
unfolding make_frames open_file
new pagesize len blocks =
    open_file pagesize
      (record {
        file = [];
        num_pages = 0;
        free_list = make_frames max_pages_in_buffer (replicate pagesize 0);
        unpinned_list = [];
        pinned_list = [];
      })
      len blocks

unfoldable pub get_num_pages : Pager → ℕ
get_num_pages pager = pager.num_pages

unfoldable pub get_free_pn : Pager → ℕ
get_free_pn pager = pager.num_pages

-- the first page of a list with a number
unfoldable pub find_page : ℤ → List Page → Option Page
find_page k [] = none
find_page k (p ∷ ps) = if int_eq p.pagenum k then some p else find_page k ps

-- the list without that page
unfoldable pub remove_page : ℤ → List Page → List Page
remove_page k [] = []
remove_page k (p ∷ ps) = if int_eq p.pagenum k then ps else p ∷ remove_page k ps

-- the list with that page replaced
unfoldable pub replace_page : ℤ → Page → List Page → List Page
replace_page k q [] = []
replace_page k q (p ∷ ps) = if int_eq p.pagenum k then q ∷ ps else p ∷ replace_page k q ps

-- the block at an index of the file, counted from 0
abbrev pub block_index : ℤ → ℕ
block_index (pos n) = n
block_index (negsuc n) = 0

-- WriteAt of one block; a gap before it reads as zeros
unfoldable pub write_block : ℕ → List (List ℕ) → ℕ → List ℕ → List (List ℕ)
write_block pagesize [] zero data_ = data_ ∷ []
write_block pagesize [] (suc i) data_ = replicate pagesize 0 ∷ write_block pagesize [] i data_
write_block pagesize (b ∷ bs) zero data_ = data_ ∷ bs
write_block pagesize (b ∷ bs) (suc i) data_ = b ∷ write_block pagesize bs i data_

-- Page.Get and Page.Put: the pin count, one up or one down
abbrev pub succ_ℤ : ℤ → ℤ
succ_ℤ (pos n) = pos (suc n)
succ_ℤ (negsuc zero) = pos 0
succ_ℤ (negsuc (suc n)) = negsuc n

abbrev pub pred_ℤ : ℤ → ℤ
pred_ℤ (pos zero) = negsuc 0
pred_ℤ (pos (suc n)) = pos n
pred_ℤ (negsuc n) = negsuc (suc n)

unfoldable pub get : Page → Page
get page = record page { pin_count = succ_ℤ page.pin_count }

unfoldable pub put : Page → Page
put page = record page { pin_count = pred_ℤ page.pin_count }

-- at the end of the file a read leaves the frame as it is
unfoldable pub fill_page_from_disk : Pager → Page → Page
fill_page_from_disk pager page = elim (get_elem? pager.file (block_index page.pagenum)) [
  | none ↦ page
  | some data_ ↦ record page { bytes = data_ }
]

-- `writable` says of which pages a WriteAt succeeds; one that fails leaves the file as it is, and its error is
-- dropped
module _ (pagesize : ℕ) (writable : ℤ → Bool) where
  -- the file and the page after FlushPage
  unfoldable pub flush_page : List (List ℕ) → Page → List (List ℕ) × Page
  unfolding write_block
  flush_page file page =
      if page.dirty
      then (
        if writable page.pagenum
            then write_block pagesize file (block_index page.pagenum) page.bytes
            else file,
        record page { dirty = false },
      )
      else (file, page)

  -- the pager and an unused page with the given number
  unfoldable pub new_page : Pager → ℤ → Result PagerError (Pager × Page)
  unfolding flush_page
  new_page pager pagenum = elim pager.free_list [
    | page ∷ free ↦ ok (
      record pager { free_list = free },
      record { pagenum = pagenum; pin_count = pos 1; dirty = false; bytes = page.bytes },
    )
    | [] ↦ elim pager.unpinned_list [
      | page ∷ unpinned ↦
          let (file, flushed) = flush_page pager.file page in
          ok (
            record pager { file = file; unpinned_list = unpinned },
            record { pagenum = pagenum; pin_count = pos 1; dirty = false; bytes = flushed.bytes },
          )
      | [] ↦ err ran_out_of_pages
    ]
  ]

  unfoldable pub get_new_page : Pager → Result PagerError (Pager × Page)
  unfolding new_page
  get_new_page pager = elim (new_page pager (pos pager.num_pages)) [
    | err e ↦ err e
    | ok made ↦
        let page = record made.1 { dirty = true } in
        ok (
          record made.0 {
            pinned_list = made.0.pinned_list ++ page ∷ [];
            num_pages = made.0.num_pages + 1;
          },
          page,
        )
  ]

  -- GetPage of a page that is in neither list; `readable` says that the disk can be read
  unfoldable pub load_page : Pager → ℤ → Bool → Pager × Result PagerError Page
  unfolding new_page fill_page_from_disk
  load_page pager pagenum readable = elim (new_page pager pagenum) [
    | err e ↦ (pager, err e)
    | ok made ↦
        if readable
        then (
          record made.0 {
            pinned_list = made.0.pinned_list ++ fill_page_from_disk made.0 made.1 ∷ [];
          },
          ok (fill_page_from_disk made.0 made.1),
        )
        else (record made.0 { free_list = made.0.free_list ++ made.1 ∷ [] }, err read_failed)
  ]

  unfoldable pub get_page : Pager → ℤ → Bool → Pager × Result PagerError Page
  unfolding find_page replace_page remove_page get load_page
  get_page pager pagenum readable =
      if ltb_ℤ pagenum (pos 0) || ltb_ℤ (pos pager.num_pages) (succ_ℤ pagenum)
      then (pager, err invalid_pagenum)
      else (elim (find_page pagenum pager.pinned_list) [
        | some page ↦ (
          record pager { pinned_list = replace_page pagenum (get page) pager.pinned_list },
          ok (get page),
        )
        | none ↦ elim (find_page pagenum pager.unpinned_list) [
          | some page ↦ (
            record pager {
              unpinned_list = remove_page pagenum pager.unpinned_list;
              pinned_list = pager.pinned_list ++ get page ∷ [];
            },
            ok (get page),
          )
          | none ↦ load_page pager pagenum readable
        ]
      ])

  abbrev pub put_error : Page → Option PagerError
  put_error page = if ltb_ℤ page.pin_count (pos 0) then some negative_pin_count else none

  -- PutPage of a page in one of the two lists; `none` is a nil dereference on any other
  unfoldable pub put_page : Pager → ℤ → Option (Pager × Option PagerError)
  unfolding find_page replace_page remove_page put
  put_page pager pagenum = elim (find_page pagenum pager.pinned_list) [
    | some page ↦ some (
        if int_eq (put page).pin_count (pos 0)
        then (
          record pager {
            pinned_list = remove_page pagenum pager.pinned_list;
            unpinned_list = pager.unpinned_list ++ put page ∷ [];
          },
          none,
        )
        else (
          record pager { pinned_list = replace_page pagenum (put page) pager.pinned_list },
          put_error (put page),
        ))
    | none ↦ elim (find_page pagenum pager.unpinned_list) [
      | none ↦ none
      | some page ↦ some (
          if int_eq (put page).pin_count (pos 0)
          then (
            record pager {
              unpinned_list = remove_page pagenum pager.unpinned_list ++ put page ∷ [];
            },
            none,
          )
          else (
            record pager { unpinned_list = replace_page pagenum (put page) pager.unpinned_list },
            put_error (put page),
          ))
    ]
  ]

  -- FlushPage on each page of a list
  unfoldable pub flush_list : List (List ℕ) → List Page → List (List ℕ) × List Page
  unfolding flush_page
  flush_list file [] = (file, [])
  flush_list file (p ∷ ps) =
      let (written, flushed) = flush_page file p in
      let (rest, others) = flush_list written ps in (rest, flushed ∷ others)

  unfoldable pub flush_all_pages : Pager → Pager
  unfolding flush_list
  flush_all_pages pager =
      let (once, pinned) = flush_list pager.file pager.pinned_list in
      let (twice, unpinned) = flush_list once pager.unpinned_list in
      record pager { file = twice; pinned_list = pinned; unpinned_list = unpinned }

  -- the pager whose file is left to close, or the error
  unfoldable pub close : Pager → Result PagerError Pager
  unfolding flush_all_pages
  close pager = elim pager.pinned_list [
    | [] ↦ ok (flush_all_pages pager)
    | p ∷ ps ↦ err still_pinned
  ]
