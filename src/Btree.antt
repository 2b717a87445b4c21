-- ===== src/Btree.antt =====
-- pkg/btree/constants.go and node.go: the layout and the header that both kinds of nodes share. The
-- page size, which is a constant of the directio package, is the argument `pagesize`.
pub mod Search
pub mod Order
pub mod Leaf
pub mod Internal
use recovery_stencil.Prelude.{
  ℕ, zero, suc, ◌+◌, ◌-◌, ◌*◌, ◌/◌, Bool, true, false, Option, none, some, List, [], ◌∷◌, replicate,
  leb, ltb, get_elem?, set, ◌==◌, ◌>>=◌, if◌then◌else◌,
}
use recovery_stencil.Prelude.Int.{ℤ, pos, negsuc}
use recovery_stencil.Entry.Varint.{max_varint_len, put_varint, varint}
use recovery_stencil.Page.{Page, slice, update}

abbrev pub root_pn : ℤ
root_pn = pos 0

abbrev pub entry_size : ℕ
entry_size = max_varint_len * 2

abbrev pub nodetype_offset : ℕ
nodetype_offset = 0

abbrev pub nodetype_size : ℕ
nodetype_size = 1

abbrev pub num_keys_offset : ℕ
num_keys_offset = nodetype_offset + nodetype_size

abbrev pub num_keys_size : ℕ
num_keys_size = max_varint_len

abbrev pub node_header_size : ℕ
node_header_size = nodetype_size + num_keys_size

abbrev pub right_sibling_pn_offset : ℕ
right_sibling_pn_offset = node_header_size

abbrev pub right_sibling_pn_size : ℕ
right_sibling_pn_size = max_varint_len

abbrev pub leaf_node_header_size : ℕ
leaf_node_header_size = node_header_size + right_sibling_pn_size

-- the number of keys at which a leaf splits
abbrev pub entries_per_leaf_node : ℕ → ℕ
entries_per_leaf_node pagesize = (pagesize - leaf_node_header_size) / entry_size - 1

abbrev pub key_size : ℕ
key_size = max_varint_len

abbrev pub pn_size : ℕ
pn_size = max_varint_len

abbrev pub internal_node_header_size : ℕ
internal_node_header_size = node_header_size

abbrev pub ptr_space : ℕ → ℕ
ptr_space pagesize = pagesize - internal_node_header_size - key_size

-- the number of keys at which an internal node splits
abbrev pub keys_per_internal_node : ℕ → ℕ
keys_per_internal_node pagesize = ptr_space pagesize / (key_size + pn_size) - 1

abbrev pub keys_offset : ℕ
keys_offset = internal_node_header_size

abbrev pub keys_size : ℕ → ℕ
keys_size pagesize = key_size * (keys_per_internal_node pagesize + 1)

abbrev pub pns_offset : ℕ → ℕ
pns_offset pagesize = keys_offset + keys_size pagesize

pub data NodeType : Type 0 where
  internal_node leaf_node : NodeType

pub record NodeHeader : Type 0 where
  pub node_type : NodeType
  pub num_keys : ℕ
  pub page : Page

-- what an insert hands to the node above
pub record Split : Type 0 where
  pub is_split : Bool
  pub key : ℤ
  pub left_pn : ℤ
  pub right_pn : ℤ

-- Split{}
abbrev pub no_split : Split
no_split = record { is_split = false; key = pos 0; left_pn = pos 0; right_pn = pos 0 }

pub data NodeError : Type 0 where
  duplicate_key non_existent_entry : NodeError
  -- the pager has no new page
  no_new_page : NodeError

unfoldable pub init_page : ℕ → Page → NodeType → Option Page
init_page pagesize page internal_node = update page (replicate pagesize 0) 0 pagesize
init_page pagesize page leaf_node =
    update page (set (replicate pagesize 0) nodetype_offset 1) 0 pagesize

-- A count that was written as a natural number is read as one.
unfoldable pub to_count : ℤ → ℕ
to_count (pos n) = n
to_count (negsuc n) = 0

unfoldable pub page_to_node_header : Page → Option NodeHeader
unfolding to_count
page_to_node_header page = do
  byte ← get_elem? page.bytes nodetype_offset
  keys ← slice page.bytes num_keys_offset (num_keys_offset + num_keys_size)
  some (record {
    node_type = if byte == 0 then internal_node else leaf_node;
    num_keys = to_count (varint keys);
    page = page;
  })

-- the page after updateNumKeys, which both kinds of nodes have
unfoldable pub write_num_keys : Page → ℕ → Option Page
write_num_keys page n = do
  n_keys_data ← put_varint (replicate num_keys_size 0) (pos n)
  update page n_keys_data num_keys_offset num_keys_size

-- sort.Search of Go's library from i to j: the middle goes to one end or the other. Every step
-- shortens the range, so that its length is enough fuel.
unfoldable pub search_from : ℕ → (ℕ → Option Bool) → ℕ → ℕ → Option ℕ
search_from zero f i j = some i
search_from (suc fuel) f i j =
    let h = (i + j) / 2 in
    let right = search_from fuel f (h + 1) j in
    let left = search_from fuel f i h in
    if ltb i j then (do stop ← f h; if stop then left else right) else some i

unfoldable pub sort_search : ℕ → (ℕ → Option Bool) → Option ℕ
unfolding search_from
sort_search n f = search_from n f 0 n
