-- ===== src/Concurrency/Graph.antt =====
-- pkg/concurrency/deadlock.go: the waits-for graph. A transaction is the address of its struct, which
-- the graph only compares. The graph's mutex is held for the whole of each operation.
pub mod Removal
pub mod Cycle
pub mod Complete
pub mod Missed
use recovery_stencil.Prelude.{
  ℕ, zero, suc, ◌+◌, ◌-◌, Bool, true, false, Option, none, some, List, [], ◌∷◌, ◌++◌, length,
  get_elem?, set, take, ◌==◌, ◌&&◌, ◌||◌, if◌then◌else◌, ◌>>=◌, Result, ok, err,
}

pub record Edge : Type 0 where
  pub source : ℕ
  pub target : ℕ

abbrev pub Graph : Type 0
Graph = List Edge

pub data GraphError : Type 0 where
  edge_not_found : GraphError

unfoldable pub new_graph : Graph
new_graph = []

unfoldable pub add_edge : Graph → ℕ → ℕ → Graph
add_edge g source target = g ++ record { source = source; target = target } ∷ []

-- e == toRemove
abbrev pub same_edge : Edge → Edge → Bool
same_edge e f = (e.source == f.source) && (e.target == f.target)

-- list[i] = list[len(list)-1], then list[:len(list)-1]; an empty list panics
unfoldable pub remove_helper : List Edge → ℕ → Option (List Edge)
remove_helper list i = do
  last ← get_elem? list (length list - 1)
  some (take (length list - 1) (set list i last))

-- the index of the first of these edges, which stand from index i on, that is the one to remove
unfoldable pub find_edge : Edge → ℕ → List Edge → Option ℕ
find_edge to_remove i [] = none
find_edge to_remove i (e ∷ es) =
    if same_edge e to_remove then some i else find_edge to_remove (i + 1) es

unfoldable pub remove_edge : Graph → ℕ → ℕ → Option (Result GraphError Graph)
unfolding find_edge remove_helper
remove_edge g source target = elim (find_edge (record { source = source; target = target }) 0 g) [
  | none ↦ some (err edge_not_found)
  | some i ↦ do rest ← remove_helper g i; some (ok rest)
]

unfoldable pub contains : List ℕ → ℕ → Bool
contains [] v = false
contains (w ∷ ws) v = (w == v) || contains ws v

-- The loop of `dfs` returns at the first edge that leaves the vertex, whatever it finds there.
unfoldable pub first_edge : List Edge → ℕ → Option ℕ
first_edge [] v = none
first_edge (e ∷ es) v = if e.source == v then some e.target else first_edge es v

-- on fuel; `none` means that it ran out
unfoldable pub dfs : ℕ → Graph → ℕ → List ℕ → Option Bool
unfolding contains first_edge
dfs zero g source seen = none
dfs (suc fuel) g source seen = elim (first_edge g source) [
  | none ↦ some false
  | some target ↦
      let rest = dfs fuel g target (target ∷ seen) in
      if contains seen target then some true else rest
]

-- tSet, in the order in which the transactions are added; the source ranges over it in any order,
-- and the searches share no state
unfoldable pub vertices : Graph → List ℕ → List ℕ
unfolding contains
vertices [] set_ = set_
vertices (e ∷ es) set_ =
    let added = if contains set_ e.source then set_ else set_ ++ e.source ∷ [] in
    vertices es (if contains added e.target then added else added ++ e.target ∷ [])

unfoldable pub any_cycle : ℕ → Graph → List ℕ → Option Bool
unfolding dfs
any_cycle fuel g [] = some false
any_cycle fuel g (v ∷ vs) =
    let rest = any_cycle fuel g vs in do found ← dfs fuel g v []; if found then some true else rest

-- every step of a search marks the target of one more edge
unfoldable pub detect_cycle : Graph → Option Bool
unfolding any_cycle vertices
detect_cycle g = any_cycle (length g + 1) g (vertices g [])
