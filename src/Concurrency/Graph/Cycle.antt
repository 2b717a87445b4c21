-- ===== src/Concurrency/Graph/Cycle.antt =====
-- pkg/concurrency/deadlock.go: walks through the graph, and the answers of DetectCycle.
use recovery_stencil.Prelude.{
  ℕ, zero, suc, ◌+◌, ◌<◌, ◌≤◌, ◌≡◌, refl, ap, sym, ◌∙◌, ◌⊎◌, inl, inr, Bool, true, false, none,
  some, List, [], ◌∷◌, arith, length, ◌==◌, if◌then◌else◌, Bool-cases, Option-cases,
}
use recovery_stencil.Concurrency.Graph.{
  Edge, Graph, contains, first_edge, dfs, any_cycle, vertices, detect_cycle,
}

pub data HasEdge (a b : ℕ) : Graph → Type 0 where
  here : {e : Edge} {g : Graph} → e.source ≡ a → e.target ≡ b → HasEdge a b (e ∷ g)
  there : {e : Edge} {g : Graph} → HasEdge a b g → HasEdge a b (e ∷ g)

-- A walk of one or more edges.
pub data Walk (g : Graph) : ℕ → ℕ → Type 0 where
  one : {a b : ℕ} → HasEdge a b g → Walk g a b
  next : {a b c : ℕ} → HasEdge a b g → Walk g b c → Walk g a c

-- How many edges lead to a vertex that a search has not marked.
unfoldable pub unmarked : List ℕ → Graph → ℕ
unmarked seen [] = 0
unmarked seen (e ∷ es) = (if contains seen e.target then 0 else 1) + unmarked seen es

pub first_edge-HasEdge : (g : Graph) (a b : ℕ) → first_edge g a ≡ some b → HasEdge a b g
unfolding first_edge
first_edge-HasEdge [] a b h = cc
first_edge-HasEdge (e ∷ es) a b h = elim (Bool-cases (e.source == a)) [
  | inl same ↦ here (ground arith) (ground arith)
  | inr other ↦ there (first_edge-HasEdge es a b (ground arith))
]

unmarked-le : (seen : List ℕ) (w : ℕ) (g : Graph) → unmarked (w ∷ seen) g ≤ unmarked seen g
unfolding unmarked contains
unmarked-le seen w [] = omega arith
unmarked-le seen w (e ∷ es) = ground (arith, unmarked-le seen w es)

pub unmarked-lt :
    (seen : List ℕ) (a w : ℕ) (g : Graph)
    → first_edge g a ≡ some w
    → contains seen w ≡ false
    → unmarked (w ∷ seen) g < unmarked seen g
unfolding unmarked contains first_edge
unmarked-lt seen a w [] h fresh = cc
unmarked-lt seen a w (e ∷ es) h fresh =
    ground (arith, unmarked-lt seen a w es, unmarked-le seen w es)

unmarked-le-length : (seen : List ℕ) (g : Graph) → unmarked seen g ≤ length g
unfolding unmarked
unmarked-le-length seen [] = omega arith
unmarked-le-length seen (e ∷ es) = ground (arith, unmarked-le-length seen es)

-- the three ways in which a step of a search can go
pub dfs_sink :
    (fuel : ℕ) (g : Graph) (a : ℕ) (seen : List ℕ)
    → first_edge g a ≡ none
    → dfs (suc fuel) g a seen ≡ some false
unfolding dfs
dfs_sink fuel g a seen h = rw (h, dfs)

pub dfs_marked :
    (fuel : ℕ) (g : Graph) (a w : ℕ) (seen : List ℕ)
    → first_edge g a ≡ some w
    → contains seen w ≡ true
    → dfs (suc fuel) g a seen ≡ some true
unfolding dfs
dfs_marked fuel g a w seen h m = rw (h, dfs, m)

pub dfs_fresh :
    (fuel : ℕ) (g : Graph) (a w : ℕ) (seen : List ℕ)
    → first_edge g a ≡ some w
    → contains seen w ≡ false
    → dfs (suc fuel) g a seen ≡ dfs fuel g w (w ∷ seen)
unfolding dfs
dfs_fresh fuel g a w seen h m = rw (h, dfs, m)

-- a search ends: it marks one more target at every step
pub dfs_total :
    (fuel : ℕ) (g : Graph) (a : ℕ) (seen : List ℕ)
    → unmarked seen g < fuel
    → (found : Bool) × (dfs fuel g a seen ≡ some found)
unfolding dfs
dfs_total zero g a seen h = absurd (omega arith)
dfs_total (suc fuel) g a seen h = elim (Option-cases (first_edge g a)) [
  | inl sink ↦ (false, dfs_sink fuel g a seen sink)
  | inr (w, edge) ↦ elim (Bool-cases (contains seen w)) [
    | inl marked ↦ (true, dfs_marked fuel g a w seen edge marked)
    | inr fresh ↦
        let less = unmarked-lt seen a w g edge fresh in
        let (found, run) = dfs_total fuel g w (w ∷ seen) (omega arith) in
        (found, dfs_fresh fuel g a w seen edge fresh ∙ run)
  ]
]

-- from every marked vertex a walk leads to where the search stands, unless it stands there
Reaches : Graph → List ℕ → ℕ → Type 0
Reaches g seen a = (v : ℕ) → contains seen v ≡ true → (v ≡ a) ⊎ Walk g v a

Walk-snoc : (g : Graph) (a b c : ℕ) → Walk g a b → HasEdge b c g → Walk g a c
Walk-snoc g a b c (one e) f = next e (one f)
Walk-snoc g a b c (next e w) f = next e (Walk-snoc g _ b c w f)

marks :
    (g : Graph) (seen : List ℕ) (a w : ℕ)
    → Reaches g seen a
    → HasEdge a w g
    → Reaches g (w ∷ seen) w
unfolding Reaches contains
marks g seen a w inv e v m = elim (Bool-cases (w == v)) [
  | inl same ↦ inl (ground arith)
  | inr other ↦ elim (inv v (ground arith)) [
    | inl self ↦ inr (one (rw (← self) at e))
    | inr walk ↦ inr (Walk-snoc g v a w walk e)
  ]
]

dfs_sound :
    (fuel : ℕ) (g : Graph) (a : ℕ) (seen : List ℕ)
    → Reaches g seen a
    → dfs fuel g a seen ≡ some true
    → (v : ℕ) × Walk g v v
unfolding dfs Reaches
dfs_sound zero g a seen inv h = cc
dfs_sound (suc fuel) g a seen inv h = elim (Option-cases (first_edge g a)) [
  | inl sink ↦ cc (dfs_sink fuel g a seen sink)
  | inr (w, edge) ↦
      let e = first_edge-HasEdge g a w edge in
      elim (Bool-cases (contains seen w)) [
        | inl marked ↦ elim (inv w marked) [
          | inl self ↦ (w, one (rw (← self) at e))
          | inr walk ↦ (w, Walk-snoc g w a w walk e)
        ]
        | inr fresh ↦
            dfs_sound fuel g w (w ∷ seen) (marks g seen a w inv e)
              (sym (dfs_fresh fuel g a w seen edge fresh) ∙ h)
      ]
]

pub any_cycle_step :
    (fuel : ℕ) (g : Graph) (v : ℕ) (vs : List ℕ) (found : Bool)
    → dfs fuel g v [] ≡ some found
    → any_cycle fuel g (v ∷ vs) ≡ (if found then some true else any_cycle fuel g vs)
unfolding any_cycle
any_cycle_step fuel g v vs found h = rw h

pub enough : (g : Graph) → unmarked [] g < length g + 1
enough g = omega (arith, unmarked-le-length [] g)

any_cycle_sound :
    (g : Graph) (vs : List ℕ) → any_cycle (length g + 1) g vs ≡ some true → (v : ℕ) × Walk g v v
unfolding any_cycle
any_cycle_sound g [] h = cc
any_cycle_sound g (v ∷ vs) h =
    let (found, run) = dfs_total (length g + 1) g v [] (enough g) in
    elim (Bool-cases found) [
      | inl hit ↦
          dfs_sound (length g + 1) g v [] (unfold Reaches contains in λ u m. cc m)
            (run ∙ ap some hit)
      | inr miss ↦
          any_cycle_sound g vs
            (rw miss at (sym (any_cycle_step (length g + 1) g v vs found run) ∙ h))
    ]

any_cycle_total :
    (g : Graph) (vs : List ℕ) → (found : Bool) × (any_cycle (length g + 1) g vs ≡ some found)
unfolding any_cycle
any_cycle_total g [] = (false, refl)
any_cycle_total g (v ∷ vs) =
    let (found, run) = dfs_total (length g + 1) g v [] (enough g) in
    let (rest, run') = any_cycle_total g vs in
    ((if found then true else rest), rw (run, run') (ground arith))

-- DetectCycle always ends with an answer: the fuel of one step more than there are edges is
-- enough.
pub detect_cycle_total : (g : Graph) → (found : Bool) × (detect_cycle g ≡ some found)
unfolding detect_cycle
detect_cycle_total g = any_cycle_total g (vertices g [])

-- When DetectCycle reports a deadlock, some transaction waits for itself through the graph.
pub detect_cycle_sound : (g : Graph) → detect_cycle g ≡ some true → (v : ℕ) × Walk g v v
unfolding detect_cycle
detect_cycle_sound g h = any_cycle_sound g (vertices g []) h
