-- ===== src/Concurrency/Graph/Missed.antt =====
-- pkg/concurrency/deadlock.go: DetectCycle on a transaction that comes to wait for a second one.
use recovery_stencil.Prelude.{
  ℕ, zero, suc, ◌+◌, ◌≡◌, refl, sym, ◌∙◌, ap, inl, inr, Bool, true, false, none, some, List, [],
  ◌∷◌, ◌++◌, arith, length, length-append, ◌==◌, if◌then◌else◌, Bool-cases, Option-cases,
}
use recovery_stencil.Concurrency.Graph.{
  Graph, add_edge, contains, first_edge, dfs, any_cycle, vertices, detect_cycle,
}
use recovery_stencil.Concurrency.Graph.Cycle.{
  HasEdge, here, there, Walk, one, next, first_edge-HasEdge, dfs_sink, dfs_marked, dfs_fresh,
  dfs_total, any_cycle_step, enough,
}
use recovery_stencil.Concurrency.Graph.Complete.{source-vertices, first_step}

HasEdge-append : (g h : Graph) (a b : ℕ) → HasEdge a b g → HasEdge a b (g ++ h)
HasEdge-append [] h a b e = elim e [ ]
HasEdge-append (x ∷ g) h a b (here p q) = here p q
HasEdge-append (x ∷ g) h a b (there e) = there (HasEdge-append g h a b e)

Walk-append : (g h : Graph) (a b : ℕ) → Walk g a b → Walk (g ++ h) a b
Walk-append g h a b (one e) = one (HasEdge-append g h a b e)
Walk-append g h a b (next {b = m} e walk) =
    next (HasEdge-append g h a m e) (Walk-append g h m b walk)

added_edge : (g : Graph) (a c : ℕ) → HasEdge a c (add_edge g a c)
unfolding add_edge
added_edge [] a c = here refl refl
added_edge (x ∷ g) a c = there (added_edge g a c)

dfs_more :
    (fuel : ℕ) (g : Graph) (v : ℕ) (seen : List ℕ) (found : Bool)
    → dfs fuel g v seen ≡ some found
    → dfs (suc fuel) g v seen ≡ some found
unfolding dfs
dfs_more zero g v seen found h = cc h
dfs_more (suc fuel) g v seen found h = elim (Option-cases (first_edge g v)) [
  | inl sink ↦ dfs_sink (suc fuel) g v seen sink ∙ sym (dfs_sink fuel g v seen sink) ∙ h
  | inr (w, edge) ↦ elim (Bool-cases (contains seen w)) [
    | inl marked ↦
        dfs_marked (suc fuel) g v w seen edge marked
        ∙ sym (dfs_marked fuel g v w seen edge marked)
        ∙ h
    | inr fresh ↦
        dfs_fresh (suc fuel) g v w seen edge fresh
        ∙ dfs_more fuel g w (w ∷ seen) found (sym (dfs_fresh fuel g v w seen edge fresh) ∙ h)
  ]
]

vertices-append : (g h : Graph) (vs : List ℕ) → vertices (g ++ h) vs ≡ vertices h (vertices g vs)
unfolding vertices
vertices-append [] h vs = refl
vertices-append (e ∷ g) h vs = vertices-append g h _

vertices_known :
    (a c : ℕ) (vs : List ℕ)
    → contains vs a ≡ true
    → contains vs c ≡ true
    → vertices (record { source = a; target = c } ∷ []) vs ≡ vs
unfolding vertices
vertices_known a c vs has_a has_c = rw (has_a, has_c) refl

first_edge-append :
    (g h : Graph) (v w : ℕ) → first_edge g v ≡ some w → first_edge (g ++ h) v ≡ some w
unfolding first_edge
first_edge-append [] h v w e = cc e
first_edge-append (x ∷ g) h v w e = elim (Bool-cases (x.source == v)) [
  | inl same ↦ rw same (rw same at e)
  | inr other ↦ rw other (first_edge-append g h v w (rw other at e))
]

first_edge-append_none :
    (g : Graph) (a c v : ℕ)
    → first_edge g v ≡ none
    → (a == v) ≡ false
    → first_edge (g ++ record { source = a; target = c } ∷ []) v ≡ none
unfolding first_edge
first_edge-append_none [] a c v e other = rw other refl
first_edge-append_none (x ∷ g) a c v e other = elim (Bool-cases (x.source == v)) [
  | inl same ↦ cc (rw same at e)
  | inr miss ↦ rw miss (first_edge-append_none g a c v (rw miss at e) other)
]

module _ (g : Graph) (a b c : ℕ) (waits : first_edge g a ≡ some b) where
  abbrev added : Graph
  added = g ++ record { source = a; target = c } ∷ []

  first_edge-added : (v : ℕ) → first_edge added v ≡ first_edge g v
  first_edge-added v = elim (Option-cases (first_edge g v)) [
    | inr (w, edge) ↦
        first_edge-append g (record { source = a; target = c } ∷ []) v w edge ∙ sym edge
    | inl sink ↦ elim (Bool-cases (a == v)) [
      | inl same ↦ let e : a ≡ v = ground arith in cc (waits, rw (← e) at sink)
      | inr other ↦ first_edge-append_none g a c v sink other ∙ sym sink
    ]
  ]

  dfs-added : (fuel v : ℕ) (seen : List ℕ) → dfs fuel added v seen ≡ dfs fuel g v seen
  unfolding dfs
  dfs-added zero v seen = refl
  dfs-added (suc fuel) v seen = elim (Option-cases (first_edge g v)) [
    | inl sink ↦
        dfs_sink fuel added v seen (first_edge-added v ∙ sink) ∙ sym (dfs_sink fuel g v seen sink)
    | inr (w, edge) ↦ elim (Bool-cases (contains seen w)) [
      | inl marked ↦
          dfs_marked fuel added v w seen (first_edge-added v ∙ edge) marked
          ∙ sym (dfs_marked fuel g v w seen edge marked)
      | inr fresh ↦
          dfs_fresh fuel added v w seen (first_edge-added v ∙ edge) fresh
          ∙ dfs-added fuel w (w ∷ seen)
          ∙ sym (dfs_fresh fuel g v w seen edge fresh)
    ]
  ]

  any_cycle-added :
      (vs : List ℕ) → any_cycle (suc (length g + 1)) added vs ≡ any_cycle (length g + 1) g vs
  any_cycle-added [] = unfold any_cycle in refl
  any_cycle-added (v ∷ vs) =
      let (found, run) = dfs_total (length g + 1) g v [] (enough g) in
      let run' = dfs-added (suc (length g + 1)) v [] ∙ dfs_more (length g + 1) g v [] found run in
      any_cycle_step (suc (length g + 1)) added v vs found run'
      ∙ ap (λ t. if found then some true else t) (any_cycle-added vs)
      ∙ sym (any_cycle_step (length g + 1) g v vs found run)

  -- When a transaction that already waits for another comes to wait for one from which the graph
  -- leads back to it, the new wait closes a cycle, and DetectCycle answers what it answered
  -- before.
  pub second_wait_missed :
      Walk g c a → Walk (add_edge g a c) a a × (detect_cycle (add_edge g a c) ≡ detect_cycle g)
  unfolding detect_cycle add_edge
  second_wait_missed walk =
      let (w, e) = first_step g c a walk in
      let known : vertices added [] ≡ vertices g [] =
        vertices-append g (record { source = a; target = c } ∷ []) []
        ∙ vertices_known a c (vertices g [])
            (source-vertices g a b [] (first_edge-HasEdge g a b waits))
            (source-vertices g c w [] e) in
      let fuel : length added + 1 ≡ suc (length g + 1) =
        omega (arith, length-append g (record { source = a; target = c } ∷ [])) in
      (
        next (added_edge g a c) (Walk-append g (record { source = a; target = c } ∷ []) c a walk),
        ap (λ (n : ℕ). any_cycle n added (vertices added [])) fuel
            ∙ ap (any_cycle (suc (length g + 1)) added) known
            ∙ any_cycle-added (vertices g []),
      )
