-- ===== src/Concurrency/Graph/Complete.antt =====
-- pkg/concurrency/deadlock.go: the answers of DetectCycle where there is a cycle.
use recovery_stencil.Prelude.{
  ℕ, zero, suc, ◌+◌, ◌<◌, ◌≡◌, ◌∙◌, inl, inr, Bool, true, false, some, List, [], ◌∷◌, ◌++◌, arith,
  length, ◌==◌, if◌then◌else◌, Bool-cases, ==_iff,
}
use recovery_stencil.Concurrency.Graph.{
  Graph, contains, first_edge, dfs, any_cycle, vertices, detect_cycle,
}
use recovery_stencil.Concurrency.Graph.Cycle.{
  HasEdge, here, there, Walk, one, next, unmarked, first_edge-HasEdge, unmarked-lt, dfs_marked,
  dfs_fresh, dfs_total, any_cycle_step, enough,
}

-- No transaction waits for two different ones.
abbrev pub WaitsForOne : Graph → Type 0
WaitsForOne g = (a b c : ℕ) → HasEdge a b g → HasEdge a c g → b ≡ c

HasEdge-first_edge : (g : Graph) (a b : ℕ) → HasEdge a b g → (w : ℕ) × (first_edge g a ≡ some w)
unfolding first_edge
HasEdge-first_edge [] a b h = elim h [ ]
HasEdge-first_edge (e ∷ es) a b (here p q) = (e.target, ground arith)
HasEdge-first_edge (e ∷ es) a b (there h) = elim (Bool-cases (e.source == a)) [
  | inl same ↦ (e.target, rw same)
  | inr other ↦ let (w, run) = HasEdge-first_edge es a b h in (w, rw other run)
]

-- where each vertex on the way has a first edge to the next, a search does not stop at a sink
dfs_complete :
    (fuel : ℕ) (g : Graph) (P : ℕ → Type 0) (a : ℕ) (seen : List ℕ)
    → ((u : ℕ) → P u → (w : ℕ) × (first_edge g u ≡ some w) × P w)
    → P a
    → unmarked seen g < fuel
    → dfs fuel g a seen ≡ some true
dfs_complete zero g P a seen closed start h = absurd (omega arith)
dfs_complete (suc fuel) g P a seen closed start h =
    let (w, edge, on) = closed a start in
    elim (Bool-cases (contains seen w)) [
      | inl marked ↦ dfs_marked fuel g a w seen edge marked
      | inr fresh ↦
          let less = unmarked-lt seen a w g edge fresh in
          dfs_fresh fuel g a w seen edge fresh
          ∙ dfs_complete fuel g P w (w ∷ seen) closed on (omega arith)
    ]

later :
    (g : Graph) (u v : ℕ) (vs : List ℕ) (found : Bool)
    → dfs (length g + 1) g u [] ≡ some found
    → found ≡ false
    → contains (u ∷ vs) v ≡ true
    → dfs (length g + 1) g v [] ≡ some true
    → contains vs v ≡ true
unfolding contains
later g u v vs found run miss m h = elim (Bool-cases (u == v)) [
  | inl same ↦ let e : u ≡ v = (==_iff u v).0 same in cc (rw e at run)
  | inr other ↦ ground arith
]

any_cycle_complete :
    (g : Graph) (v : ℕ) (vs : List ℕ)
    → contains vs v ≡ true
    → dfs (length g + 1) g v [] ≡ some true
    → any_cycle (length g + 1) g vs ≡ some true
unfolding contains
any_cycle_complete g v [] m h = cc
any_cycle_complete g v (u ∷ vs) m h =
    let (found, run) = dfs_total (length g + 1) g u [] (enough g) in
    elim (Bool-cases found) [
      | inl hit ↦ any_cycle_step (length g + 1) g u vs found run ∙ rw hit
      | inr miss ↦
          any_cycle_step (length g + 1) g u vs found run
          ∙ rw miss (any_cycle_complete g v vs (later g u v vs found run miss m h) h)
    ]

contains-append : (vs : List ℕ) (w v : ℕ) → contains vs v ≡ true → contains (vs ++ w ∷ []) v ≡ true
unfolding contains
contains-append [] w v h = cc
contains-append (u ∷ vs) w v h = ground (arith, contains-append vs w v)

contains-append_self : (vs : List ℕ) (w : ℕ) → contains (vs ++ w ∷ []) w ≡ true
unfolding contains
contains-append_self [] w = ground arith
contains-append_self (u ∷ vs) w = ground (arith, contains-append_self vs w)

-- tSet with one more transaction
abbrev with_vertex : List ℕ → ℕ → List ℕ
with_vertex vs w = if contains vs w then vs else vs ++ w ∷ []

contains-with_vertex :
    (vs : List ℕ) (w v : ℕ) → contains vs v ≡ true → contains (with_vertex vs w) v ≡ true
contains-with_vertex vs w v h = ground (arith, contains-append vs w v)

with_vertex_self : (vs : List ℕ) (w : ℕ) → contains (with_vertex vs w) w ≡ true
with_vertex_self vs w = ground (arith, contains-append_self vs w)

contains-vertices :
    (g : Graph) (v : ℕ) (vs : List ℕ) → contains vs v ≡ true → contains (vertices g vs) v ≡ true
unfolding vertices
contains-vertices [] v vs h = h
contains-vertices (e ∷ es) v vs h = contains-vertices es v _ (
    contains-with_vertex (with_vertex vs e.source) e.target v
      (contains-with_vertex vs e.source v h))

pub source-vertices :
    (g : Graph) (a b : ℕ) (vs : List ℕ) → HasEdge a b g → contains (vertices g vs) a ≡ true
unfolding vertices
source-vertices [] a b vs h = elim h [ ]
source-vertices (e ∷ es) a b vs (here p q) = contains-vertices es a _ (
    contains-with_vertex (with_vertex vs e.source) e.target a
      (rw (← p) (with_vertex_self vs e.source)))
source-vertices (e ∷ es) a b vs (there h) = source-vertices es a b _ h

-- the first step of a walk back to v, and what is left of the walk or the cycle again
Walk-on :
    (g : Graph) (v u : ℕ)
    → WaitsForOne g
    → Walk g v v
    → Walk g u v
    → (w : ℕ) × (first_edge g u ≡ some w) × Walk g w v
Walk-on g v u only cycle (one e) =
    let (w, run) = HasEdge-first_edge g u v e in
    let same : w ≡ v = only u w v (first_edge-HasEdge g u w run) e in (w, run, rw same cycle)
Walk-on g v u only cycle (next {b = b} e walk) =
    let (w, run) = HasEdge-first_edge g u b e in
    let same : w ≡ b = only u w b (first_edge-HasEdge g u w run) e in (w, run, rw same walk)

pub first_step : (g : Graph) (v u : ℕ) → Walk g v u → (w : ℕ) × HasEdge v w g
first_step g v u (one {b = b} e) = (b, e)
first_step g v u (next {b = b} e walk) = (b, e)

-- Where no transaction waits for two others, DetectCycle reports every cycle.
pub detect_cycle_complete :
    (g : Graph) (v : ℕ) → WaitsForOne g → Walk g v v → detect_cycle g ≡ some true
unfolding detect_cycle
detect_cycle_complete g v only cycle =
    let (w, e) = first_step g v v cycle in
    any_cycle_complete g v (vertices g []) (source-vertices g v w [] e) (
      dfs_complete (length g + 1) g (λ u. Walk g u v) v [] (λ u. Walk-on g v u only cycle) cycle
        (enough g))
