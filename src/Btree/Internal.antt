-- ===== src/Btree/Internal.antt =====
-- pkg/btree/internalNode.go: an internal node over the bytes of its page, without the calls into its
-- children. Keys and page numbers stand in two arrays of ten-byte integers. The page that the
-- pager returns for a new node is an argument, `none` where the pager fails.
use recovery_stencil.Prelude.{
  ℕ, zero, suc, ◌+◌, ◌-◌, ◌*◌, ◌/◌, Bool, true, Option, none, some, replicate, leb, ◌==◌, ◌>>=◌,
  if◌then◌else◌, Result, ok, err,
}
use recovery_stencil.Prelude.Int.{ℤ, ltb_ℤ, ◌==◌ as int_eq}
use recovery_stencil.Entry.Varint.{put_varint, varint}
use recovery_stencil.Page.{Page, slice, update}
use recovery_stencil.Btree.{
  internal_node, NodeHeader, Split, no_split, NodeError, no_new_page, init_page,
  page_to_node_header, write_num_keys, sort_search, key_size, pn_size, keys_offset, pns_offset,
  keys_per_internal_node, root_pn,
}

abbrev pub InternalNode : Type 0
InternalNode = NodeHeader

unfoldable pub key_pos : ℕ → ℕ
key_pos index = keys_offset + index * key_size

unfoldable pub pn_pos : ℕ → ℕ → ℕ
pn_pos pagesize index = pns_offset pagesize + index * pn_size

unfoldable pub get_key_at : InternalNode → ℕ → Option ℤ
get_key_at node index = do
  bytes ← slice node.page.bytes (key_pos index) (key_pos index + key_size)
  some (varint bytes)

unfoldable pub update_key_at : InternalNode → ℕ → ℤ → Option InternalNode
update_key_at node index new_key = do
  data_ ← put_varint (replicate key_size 0) new_key
  page ← update node.page data_ (key_pos index) key_size
  some (record node { page = page })

unfoldable pub update_num_keys : InternalNode → ℕ → Option InternalNode
update_num_keys node n = do
  page ← write_num_keys node.page n
  some (record node { num_keys = n; page = page })

unfoldable pub page_to_internal_node : Page → Option InternalNode
page_to_internal_node page = page_to_node_header page

unfoldable pub create_internal_node : ℕ → Page → Option InternalNode
create_internal_node pagesize new_page = do
  page ← init_page pagesize new_page internal_node
  page_to_internal_node page

unfoldable pub copy_from : ℕ → InternalNode → InternalNode → Option InternalNode
copy_from pagesize node to_copy = do
  page ← update node.page to_copy.page.bytes 0 pagesize
  update_num_keys (record node { page = page }) to_copy.num_keys

unfoldable pub is_root : InternalNode → Bool
is_root node = int_eq node.page.pagenum root_pn

-- getKeyAt(idx) > key
unfoldable pub key_above : InternalNode → ℤ → ℕ → Option Bool
key_above node key index = do k ← get_key_at node index; some (ltb_ℤ key k)

unfoldable pub search : InternalNode → ℤ → Option ℕ
search node key = sort_search node.num_keys (key_above node key)

-- for i := pos+n-1; i >= pos; i-- { move the key at i to i+1 }
unfoldable pub shift_keys : InternalNode → ℕ → ℕ → Option InternalNode
shift_keys node place zero = some node
shift_keys node place (suc n) = do
  k ← get_key_at node (place + n)
  moved ← update_key_at node (place + n + 1) k
  shift_keys moved place n

module _ (pagesize : ℕ) where
  unfoldable pub get_pn_at : InternalNode → ℕ → Option ℤ
  get_pn_at node index = do
    bytes ← slice node.page.bytes (pn_pos pagesize index) (pn_pos pagesize index + pn_size)
    some (varint bytes)

  unfoldable pub update_pn_at : InternalNode → ℕ → ℤ → Option InternalNode
  update_pn_at node index new_pagenum = do
    data_ ← put_varint (replicate pn_size 0) new_pagenum
    page ← update node.page data_ (pn_pos pagesize index) pn_size
    some (record node { page = page })

  -- for i := pos+n; i > pos; i-- { move the page number at i to i+1 }
  unfoldable pub shift_pns : InternalNode → ℕ → ℕ → Option InternalNode
  shift_pns node place zero = some node
  shift_pns node place (suc n) = do
    pn ← get_pn_at node (place + suc n)
    moved ← update_pn_at node (place + suc n + 1) pn
    shift_pns moved place n

  -- for i := i; i < i+n; i++ { append the child and the key at i to the new node }
  unfoldable pub transfer : InternalNode → InternalNode → ℕ → ℕ → Option InternalNode
  transfer node new_node i zero = some new_node
  transfer node new_node i (suc n) = do
    pn ← get_pn_at node i
    linked ← update_pn_at new_node new_node.num_keys pn
    k ← get_key_at node i
    keyed ← update_key_at linked linked.num_keys k
    counted ← update_num_keys keyed (keyed.num_keys + 1)
    transfer node counted (i + 1) n

  -- the node, the new node and what to hand upwards, given the fresh page; the node has a key
  unfoldable pub split_with : InternalNode → Page → Option (InternalNode × InternalNode × Split)
  split_with node fresh =
      let midpoint = (node.num_keys - 1) / 2 in
      do
        empty ← create_internal_node pagesize fresh
        filled ← transfer node empty (midpoint + 1) (node.num_keys - (midpoint + 1))
        last ← get_pn_at node node.num_keys
        new_node ← update_pn_at filled filled.num_keys last
        middle ← get_key_at node midpoint
        halved ← update_num_keys node midpoint
        some (
          halved,
          new_node,
          record {
            is_split = true;
            key = middle;
            left_pn = halved.page.pagenum;
            right_pn = new_node.page.pagenum;
          },
        )

  -- what insertSplit leaves behind: the node, the new node if it split, and what it returns
  pub record Inserted : Type 0 where
    pub node : InternalNode
    pub new_node : Option InternalNode
    pub answer : Result NodeError Split

  unfoldable pub split : InternalNode → Option Page → Option Inserted
  split node none = some (record { node = node; new_node = none; answer = err no_new_page })
  split node (some fresh) = do
    (left, right, s) ← split_with node fresh
    some (record { node = left; new_node = some right; answer = ok s })

  unfoldable pub insert_split : InternalNode → Split → Option Page → Option Inserted
  insert_split node s fresh = do
    place ← search node s.key
    shifted ← shift_keys node place (node.num_keys - place)
    moved ← shift_pns shifted place (shifted.num_keys - place)
    keyed ← update_key_at moved place s.key
    linked ← update_pn_at keyed (place + 1) s.right_pn
    counted ← update_num_keys linked (linked.num_keys + 1)
    if leb (keys_per_internal_node pagesize) counted.num_keys
        then split counted fresh
        else some (record { node = counted; new_node = none; answer = ok no_split })

  unfoldable pub can_split : InternalNode → Bool
  can_split node = node.num_keys == keys_per_internal_node pagesize - 1
