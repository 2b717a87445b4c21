-- ===== src/Examples.antt =====
-- The theorems at concrete inputs: small pages, a full buffer, and a client that locks an entry.
pub mod Memory
pub mod Recovery
pub mod Restart
pub mod Logs
pub mod Split
use recovery_stencil.Prelude.{
  ℕ, zero, suc, ◌+◌, ◌<◌, ◌^◌, ◌≤◌, ◌≡◌, refl, ◌⊎◌, inl, inr, Bool, true, false, Option, none, some,
  List, [], ◌∷◌, ◌++◌, arith, length, replicate, leb, get_elem?, ok, err, insert_idx, put_at,
}
use recovery_stencil.Prelude.Int.{ℤ, pos, negsuc}
use recovery_stencil.Entry
use recovery_stencil.Entry.{Entry, marshal, unmarshal_entry}
use recovery_stencil.Entry.Varint.{varint}
use recovery_stencil.Entry.RoundTrip.{InRange, unmarshal_entry-marshal}
use recovery_stencil.Page.{Page, slice, update}
use recovery_stencil.Page.Bytes.{Written, update-Written}
use recovery_stencil.Page.Slots.{read_slot}
use recovery_stencil.Hash.Bucket.{
  HashBucket, find, insert, update_bucket, delete, select, max_bucket_size, page_to_bucket,
  new_hash_bucket, update_local_depth,
}
use recovery_stencil.Entry.Find.{find_entry}
use recovery_stencil.Hash.Bucket.Header.{Holds, new_hash_bucket-Holds, update_local_depth-Holds}
use recovery_stencil.Hash.Bucket.Reads.{index_of, find_lem, select_lem}
use recovery_stencil.Hash.Bucket.Writes.{insert-Holds, update_bucket-Holds, delete-Holds}
use recovery_stencil.Hash.Table.{HashTable, hasher, extend_table}
use recovery_stencil.Hash.Table.Hashing.{hasher-lt, hasher-extend_table}
use recovery_stencil.Pager.{Pager, find_page, get_page, load_page, new_page, fill_page_from_disk}
use recovery_stencil.Pager.Contents.{resident, content, IsKept, IsCovered}
use recovery_stencil.Pager.Fetch.{get_page-content}
use recovery_stencil.Pager.Handed.{get_page-bytes}
use recovery_stencil.Pager.Lost.{get_page-lost}
use recovery_stencil.Repl.{
  Repl, ReplCommand, trigger_help_metacommand, new_repl, combine_repls, lookup,
}
use recovery_stencil.Repl.Added.{Addition, add_all, action_of, help_of, counted, add_all_lem}
use recovery_stencil.Repl.Lookup.{combine_repls-lookup, first_command}
use recovery_stencil.Repl.Combine.{Outcome, all_triggers, combine_repls-Outcome}
use recovery_stencil.Btree.{leaf_node, page_to_node_header, no_split, duplicate_key}
use recovery_stencil.Btree.Order.{IsSorted, lower_bound}
use recovery_stencil.Btree.Leaf
use recovery_stencil.Btree.Leaf.{LeafNode, page_to_leaf_node, search, get}
use recovery_stencil.Btree.Leaf.Reads.{Leaf, search_lem, get_lem, found_value}
use recovery_stencil.Btree.Leaf.Writes.{
  insert-Leaf, get-insert, insert_refused, update-Leaf, delete-Leaf,
}
use recovery_stencil.Concurrency.Graph.{
  Edge, Graph, new_graph, add_edge, remove_edge, same_edge, detect_cycle, first_edge,
}
use recovery_stencil.Concurrency.Graph.Removal.{
  count, to_nat, count-remove_edge, remove_edge-add_edge,
}
use recovery_stencil.Concurrency.Graph.Cycle.{
  here, there, Walk, one, next, detect_cycle_total, detect_cycle_sound,
}
use recovery_stencil.Concurrency.Graph.Complete.{WaitsForOne, detect_cycle_complete}
use recovery_stencil.Concurrency.Graph.Missed.{second_wait_missed}
use recovery_stencil.Concurrency.Resource.{Resource, r_lock, w_lock, new_resource_lock_manager}
use recovery_stencil.Concurrency.Manager.{
  Transaction, new_transaction_manager, begin, request, acquire, commit, remove_transaction,
  find_transaction,
}
use recovery_stencil.Concurrency.Manager.Holders.{holders}
use recovery_stencil.Concurrency.Manager.Steps.{
  State, Pending, Reachable, start, step, began, requested, granted, IsSafe, set_pending,
}
use recovery_stencil.Concurrency.Manager.Safety.{Reachable-IsSafe, locks_exclude, commit_succeeds}

abbrev pub five_seven : Entry
five_seven = record { key = pos 5; value = pos 7 }

abbrev pub blank_page : Page
blank_page = record { pagenum = pos 1; pin_count = pos 1; dirty = false; bytes = replicate 100 0 }

-- a bucket of depth 1 with the entry (5, 7) in its first slot
abbrev pub one_entry : HashBucket
one_entry = record {
  local_depth = 1;
  num_keys = 1;
  page = record {
    pagenum = pos 1;
    pin_count = pos 1;
    dirty = true;
    bytes = 2 ∷ replicate 9 0 ++ 2 ∷ replicate 9 0 ++ 10 ∷ replicate 9 0 ++ 14 ∷ replicate 69 0;
  };
}

one_entry_stored :
    (i : ℕ) (e : Entry)
    → get_elem? (five_seven ∷ []) i ≡ some e
    → (read_slot 20 one_entry.page i ≡ some e) × InRange e
unfolding unmarshal_entry varint slice
one_entry_stored zero e h =
    let same : five_seven ≡ e = cc h in
    rw (← same) (refl, record { key = omega arith; value = omega arith })
one_entry_stored (suc i) e h = cc h

pub one_entry-Holds : Holds 100 one_entry (five_seven ∷ [])
unfolding page_to_bucket varint slice
one_entry-Holds = record {
  size = refl;
  slots = record { room = omega arith; count = omega arith; stored = one_entry_stored };
  keys = refl;
  header = refl;
}

unmarshal_entry-marshal_example :
    (out : List ℕ) × (marshal five_seven ≡ some out)
    × (length out ≡ 20)
    × (unmarshal_entry out ≡ five_seven)
unmarshal_entry-marshal_example =
    unmarshal_entry-marshal five_seven (record { key = omega arith; value = omega arith })

update-Written_example :
    (p' : Page) × (update blank_page (8 ∷ 9 ∷ []) 4 2 ≡ some p')
    × Written blank_page 4 2 (8 ∷ 9 ∷ []) p'
update-Written_example = update-Written blank_page (8 ∷ 9 ∷ []) 4 2 (omega arith) refl

new_hash_bucket-Holds_example :
    (b : HashBucket) × (new_hash_bucket blank_page 1 ≡ some b)
    × Holds 100 b []
    × (b.local_depth ≡ 1)
new_hash_bucket-Holds_example =
    new_hash_bucket-Holds 100 blank_page 1 (omega arith) refl (omega arith)

update_local_depth-Holds_example :
    (b : HashBucket) × (update_local_depth one_entry 2 ≡ some b)
    × Holds 100 b (five_seven ∷ [])
    × (b.local_depth ≡ 2)
    × (b.page.pagenum ≡ pos 1)
update_local_depth-Holds_example =
    update_local_depth-Holds one_entry (five_seven ∷ []) 2 one_entry-Holds (omega arith)

find_lem_example : find one_entry (pos 5) ≡ some (find_entry (pos 5) (five_seven ∷ []))
find_lem_example = find_lem one_entry (five_seven ∷ []) one_entry-Holds (pos 5)

select_lem_example : select one_entry ≡ some (five_seven ∷ [])
select_lem_example = select_lem one_entry (five_seven ∷ []) one_entry-Holds

insert-Holds_example :
    (b' : HashBucket) × (split : Bool) × (insert 100 one_entry (negsuc 2) (pos 9)
      ≡ some (b', split))
    × Holds 100 b' (five_seven ∷ Entry.new (negsuc 2) (pos 9) ∷ [])
    × (split ≡ leb (max_bucket_size 100) 2)
    × (b'.local_depth ≡ 1)
unfolding Entry.new
insert-Holds_example =
    insert-Holds one_entry (five_seven ∷ []) one_entry-Holds (negsuc 2) (pos 9) (omega arith)
      (omega arith) (record { key = omega arith; value = omega arith })

update_bucket-Holds_example :
    (b' : HashBucket) × (update_bucket one_entry (pos 5) (pos 8) ≡ some (ok b'))
    × Holds 100 b' (Entry.new (pos 5) (pos 8) ∷ [])
unfolding Entry.new index_of
update_bucket-Holds_example =
    update_bucket-Holds one_entry (five_seven ∷ []) one_entry-Holds (pos 5) (pos 8) 0 five_seven
      refl refl (record { key = omega arith; value = omega arith })

delete-Holds_example :
    (b' : HashBucket) × (delete one_entry (pos 5) ≡ some (ok b')) × Holds 100 b' []
unfolding index_of
delete-Holds_example =
    delete-Holds one_entry (five_seven ∷ []) one_entry-Holds (pos 5) 0 (omega arith) refl
      (omega arith)

abbrev small_table : HashTable
small_table = record { global_depth = 2; buckets = 0 ∷ 1 ∷ 2 ∷ 3 ∷ [] }

-- a hash function that gives every key the same hash
abbrev pub constant_hash : List ℕ → ℕ
constant_hash b = 2 ^ 63 + 6

hasher-lt_example : (h : ℕ) × (hasher constant_hash (negsuc 4) 2 ≡ some h) × (h < 2 ^ 2)
hasher-lt_example =
    hasher-lt constant_hash (negsuc 4) 2 (λ b. omega arith) (omega arith) (omega arith)

hasher-extend_table_example :
    (h h' : ℕ) × (hasher constant_hash (negsuc 4) 2 ≡ some h)
    × (hasher constant_hash (negsuc 4) 3 ≡ some h')
    × (get_elem? (extend_table small_table).buckets h' ≡ get_elem? small_table.buckets h)
    × (length (extend_table small_table).buckets ≡ 2 ^ 3)
unfolding extend_table
hasher-extend_table_example =
    hasher-extend_table constant_hash small_table (negsuc 4) (λ b. omega arith) (omega arith)
      (omega arith) refl

abbrev zero_entry : Entry
zero_entry = record { key = pos 0; value = pos 0 }

-- a leaf on a page of 121 bytes, with the entry (5, 7)
abbrev small_leaf : LeafNode
small_leaf = record {
  node_type = leaf_node;
  num_keys = 1;
  page = record {
    pagenum = pos 1;
    pin_count = pos 1;
    dirty = true;
    bytes = 1 ∷ 2 ∷ replicate 19 0 ++ 10 ∷ replicate 9 0 ++ 14 ∷ replicate 89 0;
  };
  right_sibling_pn = pos 0;
}

abbrev small_slots : List Entry
small_slots = five_seven ∷ replicate 4 zero_entry

small_leaf_stored :
    (i : ℕ) (e : Entry)
    → get_elem? small_slots i ≡ some e
    → (read_slot 21 small_leaf.page i ≡ some e) × InRange e
unfolding unmarshal_entry varint slice
small_leaf_stored zero e h =
    let same : five_seven ≡ e = cc h in
    rw (← same) (refl, record { key = omega arith; value = omega arith })
small_leaf_stored (suc zero) e h =
    let same : zero_entry ≡ e = cc h in
    rw (← same) (refl, record { key = omega arith; value = omega arith })
small_leaf_stored (suc (suc zero)) e h =
    let same : zero_entry ≡ e = cc h in
    rw (← same) (refl, record { key = omega arith; value = omega arith })
small_leaf_stored (suc (suc (suc zero))) e h =
    let same : zero_entry ≡ e = cc h in
    rw (← same) (refl, record { key = omega arith; value = omega arith })
small_leaf_stored (suc (suc (suc (suc zero)))) e h =
    let same : zero_entry ≡ e = cc h in
    rw (← same) (refl, record { key = omega arith; value = omega arith })
small_leaf_stored (suc (suc (suc (suc (suc i))))) e h = cc h

small_leaf-Leaf : Leaf 121 small_leaf (five_seven ∷ [])
unfolding page_to_leaf_node page_to_node_header varint slice
small_leaf-Leaf = record {
  all = small_slots;
  holds = record {
    size = refl;
    slots = record { room = omega arith; count = omega arith; stored = small_leaf_stored };
    full = refl;
    header = refl;
  };
  keys = refl;
  front = refl;
}

one_entry-IsSorted : IsSorted (five_seven ∷ [])
one_entry-IsSorted zero zero x y lt h k = absurd (omega arith)
one_entry-IsSorted zero (suc j) x y lt h k = cc k
one_entry-IsSorted (suc i) j x y lt h k = cc h

search_lem_example : search small_leaf (pos 5) ≡ some (lower_bound (pos 5) (five_seven ∷ []))
search_lem_example =
    search_lem small_leaf (five_seven ∷ []) small_leaf-Leaf (pos 5) one_entry-IsSorted

get_lem_example : get small_leaf (pos 5) ≡ some (found_value (find_entry (pos 5) (five_seven ∷ [])))
get_lem_example = get_lem small_leaf (five_seven ∷ []) small_leaf-Leaf (pos 5) one_entry-IsSorted

insert-Leaf_example :
    (node : LeafNode) × (Leaf.insert 121 small_leaf (negsuc 2) (pos 9) false none
      ≡ some (record { node = node; new_node = none; answer = ok no_split }))
    × Leaf 121 node (insert_idx (five_seven ∷ []) 0 (Entry.new (negsuc 2) (pos 9)))
    × IsSorted (insert_idx (five_seven ∷ []) 0 (Entry.new (negsuc 2) (pos 9)))
    × (node.right_sibling_pn ≡ pos 0)
unfolding lower_bound find_entry
insert-Leaf_example =
    insert-Leaf small_leaf (five_seven ∷ []) small_leaf-Leaf one_entry-IsSorted (negsuc 2) (pos 9)
      none (omega arith) (omega arith)
      (unfold Entry.new in record { key = omega arith; value = omega arith }) refl

get-insert_example :
    (node : LeafNode) × (Leaf.insert 121 small_leaf (negsuc 2) (pos 9) false none
      ≡ some (record { node = node; new_node = none; answer = ok no_split }))
    × (get node (pos 5) ≡ get small_leaf (pos 5))
unfolding find_entry
get-insert_example =
    get-insert small_leaf (five_seven ∷ []) small_leaf-Leaf one_entry-IsSorted (negsuc 2) (pos 9)
      none (pos 5) (omega arith) (omega arith)
      (unfold Entry.new in record { key = omega arith; value = omega arith }) refl

insert_refused_example :
    Leaf.insert 121 small_leaf (pos 5) (pos 9) false none
    ≡ some (record { node = small_leaf; new_node = none; answer = err duplicate_key })
unfolding find_entry
insert_refused_example =
    insert_refused small_leaf (five_seven ∷ []) small_leaf-Leaf one_entry-IsSorted (pos 5) (pos 9)
      false none duplicate_key refl

update-Leaf_example :
    (node : LeafNode) × (Leaf.insert 121 small_leaf (pos 5) (pos 9) true none
      ≡ some (record { node = node; new_node = none; answer = ok no_split }))
    × Leaf 121 node (put_at (five_seven ∷ []) 0 (Entry.new (pos 5) (pos 9)))
    × (node.right_sibling_pn ≡ pos 0)
unfolding find_entry lower_bound
update-Leaf_example =
    update-Leaf small_leaf (five_seven ∷ []) small_leaf-Leaf one_entry-IsSorted (pos 5) (pos 9)
      five_seven none (omega arith) refl

delete-Leaf_example :
    (node : LeafNode) × (Leaf.delete small_leaf (pos 5) ≡ some node)
    × Leaf 121 node []
    × IsSorted []
    × (node.right_sibling_pn ≡ pos 0)
unfolding find_entry lower_bound
delete-Leaf_example =
    delete-Leaf small_leaf (five_seven ∷ []) small_leaf-Leaf one_entry-IsSorted (pos 5) five_seven
      (omega arith) (omega arith) refl

abbrev answer_a : ReplCommand ℕ
answer_a payload client w = (w, ok [])

-- a REPL with the command "b"
abbrev named_b : Repl ℕ
named_b = record { commands = (98 ∷ [], answer_a) ∷ []; help = [] }

-- "a" is added twice, and ".help" in between
abbrev additions : List (Addition ℕ)
additions =
    record { trigger = 97 ∷ []; action = answer_a; help = 1 ∷ [] }
    ∷ record { trigger = trigger_help_metacommand; action = answer_a; help = 2 ∷ [] }
    ∷ record { trigger = 97 ∷ []; action = answer_a; help = 3 ∷ [] }
    ∷ []

add_all_lem_example :
    (lookup (97 ∷ []) (add_all new_repl additions).commands
      ≡ action_of (counted (97 ∷ []) additions))
    × (lookup (97 ∷ []) (add_all new_repl additions).help ≡ help_of (counted (97 ∷ []) additions))
add_all_lem_example = add_all_lem (97 ∷ []) additions

combine_repls-lookup_example : some answer_a ≡ first_command (98 ∷ []) (named_b ∷ [])
unfolding lookup combine_repls
combine_repls-lookup_example =
    combine_repls-lookup (98 ∷ [])
      (record { commands = (98 ∷ [], answer_a) ∷ []; help = (98 ∷ [], []) ∷ [] }) (named_b ∷ [])
      refl refl

abbrev page_zero : Page
page_zero = record { pagenum = pos 0; pin_count = pos 1; dirty = false; bytes = 1 ∷ 2 ∷ [] }

abbrev page_two : Page
page_two = record { pagenum = pos 2; pin_count = pos 0; dirty = true; bytes = 9 ∷ 9 ∷ [] }

-- two frames of two bytes, both in use; page 1 is in the file alone, and page 2 in its frame alone
abbrev full_pager : Pager
full_pager = record {
  file = (1 ∷ 2 ∷ []) ∷ (3 ∷ 4 ∷ []) ∷ [];
  num_pages = 3;
  free_list = [];
  unpinned_list = page_two ∷ [];
  pinned_list = page_zero ∷ [];
}

full_pager-IsKept : IsKept full_pager.file (resident full_pager)
unfolding IsKept find_page
full_pager-IsKept = ((0, refl, inr refl, refl), ((2, refl, inl refl, refl), tt))

full_pager-IsCovered : IsCovered full_pager
unfolding find_page
full_pager-IsCovered zero lt miss = cc miss
full_pager-IsCovered (suc zero) lt miss = omega arith
full_pager-IsCovered (suc (suc zero)) lt miss = cc miss
full_pager-IsCovered (suc (suc (suc k))) lt miss = absurd (omega arith)

-- page 2 loses its frame to page 1
abbrev all_writable : ℤ → Bool
all_writable k = true

abbrev none_writable : ℤ → Bool
none_writable k = false

get_page-content_example :
    content (get_page 2 all_writable full_pager (pos 1) true).0 2 ≡ content full_pager 2
get_page-content_example =
    get_page-content 2 all_writable full_pager 1 true 2 full_pager-IsKept full_pager-IsCovered
      (omega arith) (λ n num dirty. refl)

get_page-bytes_example : content full_pager 1 ≡ some (3 ∷ 4 ∷ [])
unfolding get_page load_page find_page new_page fill_page_from_disk
get_page-bytes_example =
    get_page-bytes 2 none_writable full_pager 1 true
      (record { pagenum = pos 1; pin_count = pos 1; dirty = false; bytes = 3 ∷ 4 ∷ [] })
      full_pager-IsKept full_pager-IsCovered refl

get_page-lost_example :
    (handed : Page) × ((get_page 2 none_writable full_pager (pos 1) true).1 ≡ ok handed)
    × (content full_pager 2 ≡ some (9 ∷ 9 ∷ []))
    × (content (get_page 2 none_writable full_pager (pos 1) true).0 2 ≡ get_elem? full_pager.file 2)
unfolding find_page
get_page-lost_example =
    get_page-lost 2 none_writable full_pager 1 2 page_two [] full_pager-IsKept refl refl refl refl
      refl refl (omega arith)

-- two commands named "a"
abbrev named_a : Repl ℕ
named_a = record { commands = (97 ∷ [], λ payload client w. (w, ok [])) ∷ []; help = [] }

combine_repls-Outcome_example :
    Outcome (all_triggers (named_a ∷ named_a ∷ [])) (combine_repls (named_a ∷ named_a ∷ []))
combine_repls-Outcome_example = combine_repls-Outcome (named_a ∷ named_a ∷ [])

-- transaction 1 waits for 2, which waits for 1
abbrev deadlocked : Graph
deadlocked = record { source = 1; target = 2 } ∷ record { source = 2; target = 1 } ∷ []

abbrev first_wait : Edge
first_wait = record { source = 1; target = 2 }

count-remove_edge_example :
    (rest : Graph) × (remove_edge deadlocked 1 2 ≡ some (ok rest))
    × ((x : Edge) → count x rest + to_nat (same_edge first_wait x) ≡ count x deadlocked)
unfolding count
count-remove_edge_example = count-remove_edge deadlocked 1 2 (omega arith)

remove_edge-add_edge_example :
    (rest : Graph) × (remove_edge (add_edge deadlocked 1 3) 1 3 ≡ some (ok rest))
    × ((x : Edge) → count x rest ≡ count x deadlocked)
remove_edge-add_edge_example = remove_edge-add_edge deadlocked 1 3

detect_cycle_total_example : (found : Bool) × (detect_cycle deadlocked ≡ some found)
detect_cycle_total_example = detect_cycle_total deadlocked

detect_cycle_sound_example : (v : ℕ) × Walk deadlocked v v
unfolding detect_cycle
detect_cycle_sound_example = detect_cycle_sound deadlocked refl

deadlocked-WaitsForOne : WaitsForOne deadlocked
deadlocked-WaitsForOne a b c (here p q) (here p' q') = cc (q, q')
deadlocked-WaitsForOne a b c (here p q) (there (here p' q')) = absurd (omega arith)
deadlocked-WaitsForOne a b c (there (here p q)) (here p' q') = absurd (omega arith)
deadlocked-WaitsForOne a b c (there (here p q)) (there (here p' q')) = cc (q, q')
deadlocked-WaitsForOne a b c (here p q) (there (there h)) = elim h [ ]
deadlocked-WaitsForOne a b c (there (here p q)) (there (there h)) = elim h [ ]
deadlocked-WaitsForOne a b c (there (there h)) _ = elim h [ ]

detect_cycle_complete_example : detect_cycle deadlocked ≡ some true
detect_cycle_complete_example =
    detect_cycle_complete deadlocked 1 deadlocked-WaitsForOne
      (next (here refl refl) (one (there (here refl refl))))

-- transaction 1 waits for 2, and 3 waits for 1
abbrev two_waits : Graph
two_waits = record { source = 1; target = 2 } ∷ record { source = 3; target = 1 } ∷ []

second_wait_missed_example :
    Walk (add_edge two_waits 1 3) 1 1
    × (detect_cycle (add_edge two_waits 1 3) ≡ detect_cycle two_waits)
unfolding first_edge
second_wait_missed_example = second_wait_missed two_waits 1 2 3 refl (one (there (here refl refl)))

abbrev account : Resource
account = record { table_name = 1 ∷ []; key = pos 5 }

abbrev idle : ℕ → Option Pending
idle c = none

-- client 7 has begun
abbrev running : State
running = record {
  tm = record {
    resource_lock_manager = record { locks = []; held = false };
    waits_for_graph = [];
    transactions = record { client_id = 7; address = 0; locked_resources = [] } ∷ [];
    next_address = 1;
  };
  pending = idle;
}

abbrev account_request : Pending
account_request = record { resource = account; lock_type = w_lock; others = [] }

-- and waits for the entry
abbrev waiting : State
waiting = record { tm = running.tm; pending = set_pending idle 7 (some account_request) }

abbrev owner : Transaction
owner = record { client_id = 7; address = 0; locked_resources = (account, w_lock) ∷ [] }

-- and has it
abbrev locked : State
locked = record {
  tm = record {
    resource_lock_manager = record {
      locks = (account, record { readers = 0; writer = true }) ∷ [];
      held = false;
    };
    waits_for_graph = [];
    transactions = owner ∷ [];
    next_address = 1;
  };
  pending = set_pending (set_pending idle 7 (some account_request)) 7 none;
}

locked-Reachable : Reachable locked
unfolding begin request acquire new_transaction_manager detect_cycle new_graph
    new_resource_lock_manager
locked-Reachable =
    step (step (step start (began 7 refl refl refl)) (requested 7 account w_lock [] refl refl refl))
      (granted 7 account_request refl refl refl)

Reachable-IsSafe_example : IsSafe locked
Reachable-IsSafe_example = Reachable-IsSafe locked-Reachable

locks_exclude_example :
    (holders w_lock account locked.tm.transactions ≤ 1)
    × ((holders w_lock account locked.tm.transactions ≡ 0)
        ⊎ (holders r_lock account locked.tm.transactions ≡ 0))
locks_exclude_example = locks_exclude account locked-Reachable

commit_succeeds_example :
    ((commit locked.tm 7).1 ≡ none)
    × ((commit locked.tm 7).0.transactions ≡ remove_transaction 7 locked.tm.transactions)
    × ((commit locked.tm 7).0.resource_lock_manager.held ≡ false)
unfolding find_transaction
commit_succeeds_example = commit_succeeds 7 owner locked-Reachable refl
