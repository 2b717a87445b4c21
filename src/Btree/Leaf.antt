-- ===== src/Btree/Leaf.antt =====
-- pkg/btree/leafNode.go: a leaf over the bytes of its page. The page that the pager returns for a new
-- leaf is an argument, `none` where the pager fails. The locks and the parent pointers, which
-- serve only the locking, are left out.
pub mod Holds
pub mod Reads
pub mod Writes
use recovery_stencil.Prelude.{
  ℕ, zero, suc, ◌+◌, ◌-◌, ◌*◌, ◌/◌, Bool, true, false, Option, none, some, List, [], ◌∷◌, replicate,
  leb, ltb, not, ◌&&◌, ◌||◌, ◌==◌, ◌>>=◌, if◌then◌else◌, Result, ok, err,
}
use recovery_stencil.Prelude.Int.{ℤ, pos, ltb_ℤ, ◌==◌ as int_eq}
use recovery_stencil.Entry
use recovery_stencil.Entry.{Entry, marshal, unmarshal_entry}
use recovery_stencil.Entry.Varint.{put_varint, varint}
use recovery_stencil.Page.{Page, slice, update}
use recovery_stencil.Btree.{
  NodeType, leaf_node, NodeHeader, Split, no_split, NodeError, duplicate_key, non_existent_entry,
  no_new_page, init_page, page_to_node_header, write_num_keys, sort_search, entry_size,
  leaf_node_header_size, right_sibling_pn_offset, right_sibling_pn_size, entries_per_leaf_node,
  root_pn,
}

pub record LeafNode : Type 0 where
  pub node_type : NodeType
  pub num_keys : ℕ
  pub page : Page
  pub right_sibling_pn : ℤ

unfoldable pub entry_pos : ℕ → ℕ
entry_pos index = leaf_node_header_size + index * entry_size

unfoldable pub modify_entry : LeafNode → ℕ → Entry → Option LeafNode
unfolding entry_pos
modify_entry node index entry = do
  newdata ← marshal entry
  page ← update node.page newdata (entry_pos index) entry_size
  some (record node { page = page })

unfoldable pub get_entry : LeafNode → ℕ → Option Entry
unfolding entry_pos
get_entry node index = do
  bytes ← slice node.page.bytes (entry_pos index) (entry_pos index + entry_size)
  some (unmarshal_entry bytes)

unfoldable pub get_key_at : LeafNode → ℕ → Option ℤ
get_key_at node index = do e ← get_entry node index; some e.key

unfoldable pub get_value_at : LeafNode → ℕ → Option ℤ
get_value_at node index = do e ← get_entry node index; some e.value

unfoldable pub update_key_at : LeafNode → ℕ → ℤ → Option LeafNode
update_key_at node index new_key = do
  existing ← get_value_at node index
  modify_entry node index (Entry.new new_key existing)

unfoldable pub update_value_at : LeafNode → ℕ → ℤ → Option LeafNode
update_value_at node index new_val = do
  existing ← get_key_at node index
  modify_entry node index (Entry.new existing new_val)

unfoldable pub update_num_keys : LeafNode → ℕ → Option LeafNode
update_num_keys node n = do
  page ← write_num_keys node.page n
  some (record node { num_keys = n; page = page })

-- the node with its new sibling, and the old sibling
unfoldable pub set_right_sibling : LeafNode → ℤ → Option (LeafNode × ℤ)
set_right_sibling node sibling = do
  sibling_data ← put_varint (replicate right_sibling_pn_size 0) sibling
  page ← update node.page sibling_data right_sibling_pn_offset right_sibling_pn_size
  some (record node { right_sibling_pn = sibling; page = page }, node.right_sibling_pn)

unfoldable pub page_to_leaf_node : Page → Option LeafNode
page_to_leaf_node page = do
  header ← page_to_node_header page
  sibling ←
      slice page.bytes right_sibling_pn_offset (right_sibling_pn_offset + right_sibling_pn_size)
  some (record {
    node_type = header.node_type;
    num_keys = header.num_keys;
    page = header.page;
    right_sibling_pn = varint sibling;
  })

-- createLeafNode, on the page that the pager returned
unfoldable pub create_leaf_node : ℕ → Page → Option LeafNode
unfolding page_to_leaf_node
create_leaf_node pagesize new_page = do
  page ← init_page pagesize new_page leaf_node
  page_to_leaf_node page

-- copy
unfoldable pub copy_from : ℕ → LeafNode → LeafNode → Option LeafNode
unfolding update_num_keys set_right_sibling
copy_from pagesize node to_copy = do
  page ← update node.page to_copy.page.bytes 0 pagesize
  counted ← update_num_keys (record node { page = page }) to_copy.num_keys
  (linked, old) ← set_right_sibling counted to_copy.right_sibling_pn
  some linked

unfoldable pub is_root : LeafNode → Bool
is_root node = int_eq node.page.pagenum root_pn

-- getKeyAt(idx) >= key
unfoldable pub key_at_least : LeafNode → ℤ → ℕ → Option Bool
key_at_least node key index = do k ← get_key_at node index; some (not (ltb_ℤ k key))

unfoldable pub search : LeafNode → ℤ → Option ℕ
unfolding key_at_least
search node key = sort_search node.num_keys (key_at_least node key)

-- insertPos < node.numKeys && node.getKeyAt(insertPos) == key
unfoldable pub is_key_at : LeafNode → ℕ → ℤ → Option Bool
is_key_at node index key =
    if ltb index node.num_keys
    then (do k ← get_key_at node index; some (int_eq k key))
    else some false

-- for i := pos+n-1; i >= pos; i-- { move the entry at i to i+1 }
unfoldable pub shift_right : LeafNode → ℕ → ℕ → Option LeafNode
shift_right node place zero = some node
shift_right node place (suc n) = do
  k ← get_key_at node (place + n)
  keyed ← update_key_at node (place + n + 1) k
  v ← get_value_at keyed (place + n)
  moved ← update_value_at keyed (place + n + 1) v
  shift_right moved place n

-- for i := i; i < i+n; i++ { append the entry at i to the new node }
unfoldable pub transfer : LeafNode → LeafNode → ℕ → ℕ → Option LeafNode
transfer node new_node i zero = some new_node
transfer node new_node i (suc n) = do
  k ← get_key_at node i
  keyed ← update_key_at new_node new_node.num_keys k
  v ← get_value_at node i
  valued ← update_value_at keyed keyed.num_keys v
  counted ← update_num_keys valued (valued.num_keys + 1)
  transfer node counted (i + 1) n

-- the node, the new node and what to hand upwards, given the fresh page
unfoldable pub split_with : ℕ → LeafNode → Page → Option (LeafNode × LeafNode × Split)
split_with pagesize node fresh = do
  empty ← create_leaf_node pagesize fresh
  (linked, prev_sibling) ← set_right_sibling node empty.page.pagenum
  (chained, old) ← set_right_sibling empty prev_sibling
  filled ← transfer linked chained (linked.num_keys / 2) (linked.num_keys - linked.num_keys / 2)
  halved ← update_num_keys linked (linked.num_keys / 2)
  first ← get_key_at filled 0
  some (
    halved,
    filled,
    record {
      is_split = true;
      key = first;
      left_pn = halved.page.pagenum;
      right_pn = filled.page.pagenum;
    },
  )

-- what insert leaves behind: the node, the new node if it split, and what it returns
pub record Inserted : Type 0 where
  pub node : LeafNode
  pub new_node : Option LeafNode
  pub answer : Result NodeError Split

unfoldable pub split : ℕ → LeafNode → Option Page → Option Inserted
split pagesize node none = some (record { node = node; new_node = none; answer = err no_new_page })
split pagesize node (some fresh) = do
  (left, right, s) ← split_with pagesize node fresh
  some (record { node = left; new_node = some right; answer = ok s })

-- the part of insert behind its checks
unfoldable pub insert_at : ℕ → LeafNode → ℕ → ℤ → ℤ → Option Page → Option Inserted
insert_at pagesize node place key value fresh = do
  shifted ← shift_right node place (node.num_keys - place)
  counted ← update_num_keys shifted (shifted.num_keys + 1)
  written ← modify_entry counted place (Entry.new key value)
  if leb (entries_per_leaf_node pagesize) written.num_keys
      then split pagesize written fresh
      else some (record { node = written; new_node = none; answer = ok no_split })

unfoldable pub insert : ℕ → LeafNode → ℤ → ℤ → Bool → Option Page → Option Inserted
insert pagesize node key value overwrite fresh = do
  place ← search node key
  present ← is_key_at node place key
  if present
      then (if overwrite
          then (do
            written ← update_value_at node place value
            some (record { node = written; new_node = none; answer = ok no_split }))
          else some (record { node = node; new_node = none; answer = err duplicate_key }))
      else (if overwrite
          then some (record { node = node; new_node = none; answer = err non_existent_entry })
          else insert_at pagesize node place key value fresh)

-- for i := i; i < i+n; i++ { move the entry at i+1 to i }
unfoldable pub shift_left : LeafNode → ℕ → ℕ → Option LeafNode
shift_left node i zero = some node
shift_left node i (suc n) = do
  k ← get_key_at node (i + 1)
  keyed ← update_key_at node i k
  v ← get_value_at keyed (i + 1)
  moved ← update_value_at keyed i v
  shift_left moved (i + 1) n

unfoldable pub delete : LeafNode → ℤ → Option LeafNode
delete node key = do
  place ← search node key
  present ← is_key_at node place key
  if present
      then (do
        moved ← shift_left node place (node.num_keys - 1 - place)
        update_num_keys moved (moved.num_keys - 1))
      else some node

-- the value, and whether the key was found
unfoldable pub get : LeafNode → ℤ → Option (ℤ × Bool)
get node key = do
  index ← search node key
  present ← is_key_at node index key
  if present then (do e ← get_entry node index; some (e.value, true)) else some (pos 0, false)

-- canSplit
unfoldable pub can_split : ℕ → LeafNode → Bool
can_split pagesize node = node.num_keys == entries_per_leaf_node pagesize - 1
