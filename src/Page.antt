-- ===== src/Page.antt =====
-- pkg/pager/page.go: a page of bytes in memory. Its locks are not part of this model. `none` is an
-- access outside the page: there Go panics or, since the frames are slices of one block, reaches
-- the next frame.
pub mod Bytes
pub mod Slots
use recovery_stencil.Prelude.{
  ℕ, zero, suc, ◌+◌, ◌-◌, ◌≤◌, Bool, true, false, Option, none, some, List, [], ◌∷◌, ◌&&◌, length,
  take, drop, leb, if◌then◌else◌,
}
use recovery_stencil.Prelude.Int.{ℤ, pos, negsuc}

pub record Page : Type 0 where
  pub pagenum : ℤ
  pub pin_count : ℤ
  pub dirty : Bool
  pub bytes : List ℕ

-- NoPage
abbrev pub no_page : ℤ
no_page = negsuc 0

unfoldable pub get_page_num : Page → ℤ
get_page_num page = page.pagenum

unfoldable pub is_dirty : Page → Bool
is_dirty page = page.dirty

unfoldable pub set_dirty : Page → Bool → Page
set_dirty page dirty = record page { dirty = dirty }

-- copy(dst, src), where dst is the front of the list and `size` bytes long
unfoldable pub copy : List ℕ → ℕ → List ℕ → List ℕ
copy [] size src = []
copy (x ∷ xs) zero src = x ∷ xs
copy (x ∷ xs) (suc n) [] = x ∷ xs
copy (x ∷ xs) (suc n) (y ∷ src) = y ∷ copy xs n src

-- copy(bytes[offset:offset+size], src)
unfoldable pub copy_at : List ℕ → ℕ → ℕ → List ℕ → List ℕ
unfolding copy
copy_at [] offset size src = []
copy_at (x ∷ xs) zero size src = copy (x ∷ xs) size src
copy_at (x ∷ xs) (suc offset) size src = x ∷ copy_at xs offset size src

-- bytes[lo:hi]
unfoldable pub slice : List ℕ → ℕ → ℕ → Option (List ℕ)
slice bytes lo hi =
    if leb lo hi && leb hi (length bytes) then some (take (hi - lo) (drop lo bytes)) else none

unfoldable pub update : Page → List ℕ → ℕ → ℕ → Option Page
unfolding copy_at
update page src offset size =
    if leb (offset + size) (length page.bytes)
    then some (record page { dirty = true; bytes = copy_at page.bytes offset size src })
    else none
