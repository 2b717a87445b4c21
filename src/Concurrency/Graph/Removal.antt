-- ===== src/Concurrency/Graph/Removal.antt =====
-- pkg/concurrency/deadlock.go: AddEdge and RemoveEdge, by how often each edge is in the graph.
use recovery_stencil.Prelude.{
  ℕ, zero, suc, ◌+◌, ◌-◌, ◌<◌, ◌≡◌, refl, ap, inl, inr, Bool, true, false, none, some, [], ◌∷◌,
  ◌++◌, arith, length, get_elem?, set, take, ok, get_elem?_lt, Bool-cases, Option-cases,
}
use recovery_stencil.Concurrency.Graph.{
  Edge, Graph, same_edge, add_edge, remove_edge, remove_helper, find_edge,
}

abbrev pub to_nat : Bool → ℕ
to_nat true = 1
to_nat false = 0

-- How often an edge stands in the graph.
unfoldable pub count : Edge → Graph → ℕ
count x [] = 0
count x (e ∷ es) = to_nat (same_edge e x) + count x es

count-append : (x : Edge) (a b : Graph) → count x (a ++ b) ≡ count x a + count x b
unfolding count
count-append x [] b = omega arith
count-append x (e ∷ a) b = omega (arith, count-append x a b)

-- all but the last
count-take :
    (x last : Edge) (g : Graph) (n : ℕ)
    → suc n ≡ length g
    → get_elem? g n ≡ some last
    → count x (take n g) + to_nat (same_edge last x) ≡ count x g
unfolding count
count-take x last [] n h at = absurd (omega arith)
count-take x last (e ∷ []) zero h at = let same : e ≡ last = cc in rw same (omega arith)
count-take x last (e ∷ []) (suc n) h at = absurd (omega arith)
count-take x last (e ∷ f ∷ g) zero h at = absurd (omega arith)
count-take x last (e ∷ f ∷ g) (suc n) h at =
    omega (arith, count-take x last (f ∷ g) n (omega arith) at)

count-moved :
    (x last y : Edge) (g : Graph) (i n : ℕ)
    → suc n ≡ length g
    → get_elem? g n ≡ some last
    → get_elem? g i ≡ some y
    → count x (take n (set g i last)) + to_nat (same_edge y x) ≡ count x g
unfolding count
count-moved x last y [] i n h at here = cc
count-moved x last y (e ∷ []) zero zero h at here = let same : e ≡ y = cc in rw same (omega arith)
count-moved x last y (e ∷ []) zero (suc n) h at here = absurd (omega arith)
count-moved x last y (e ∷ []) (suc i) n h at here = cc
count-moved x last y (e ∷ f ∷ g) i zero h at here = absurd (omega arith)
count-moved x last y (e ∷ f ∷ g) zero (suc n) h at here =
    let same : e ≡ y = cc in rw same (omega (arith, count-take x last (f ∷ g) n (omega arith) at))
count-moved x last y (e ∷ f ∷ g) (suc i) (suc n) h at here =
    omega (arith, count-moved x last y (f ∷ g) i n (omega arith) at here)

find_edge_lem :
    (x : Edge) (g : Graph) (i j : ℕ)
    → find_edge x i g ≡ some j
    → (k : ℕ) × (y : Edge) × (j ≡ i + k) × (get_elem? g k ≡ some y) × (same_edge y x ≡ true)
unfolding find_edge
find_edge_lem x [] i j h = cc
find_edge_lem x (e ∷ es) i j h = elim (Bool-cases (same_edge e x)) [
  | inl same ↦ (0, e, ground arith, refl, same)
  | inr other ↦
      let h' : find_edge x (i + 1) es ≡ some j = ground arith in
      let (k, y, eq, at, same) = find_edge_lem x es (i + 1) j h' in
      (suc k, y, omega arith, at, same)
]

find_edge-none : (x : Edge) (g : Graph) (i : ℕ) → find_edge x i g ≡ none → count x g ≡ 0
unfolding find_edge count
find_edge-none x [] i h = refl
find_edge-none x (e ∷ es) i h = ground (arith, find_edge-none x es (i + 1))

same_edge_eq : (y x z : Edge) → same_edge y x ≡ true → same_edge y z ≡ same_edge x z
same_edge_eq y x z h = ground arith

remove_helper_lem :
    (g : Graph) (i : ℕ) (y : Edge)
    → get_elem? g i ≡ some y
    → 0 < length g
    → (rest : Graph) × (remove_helper g i ≡ some rest)
      × ((x : Edge) → count x rest + to_nat (same_edge y x) ≡ count x g)
unfolding remove_helper
remove_helper_lem g i y at pos =
    let n = length g - 1 in
    let (last, end) = get_elem?_lt g n (omega arith) in
    (take n (set g i last), rw end, λ x. count-moved x last y g i n (omega arith) end at)

remove_edge_run :
    (g rest : Graph) (a b j : ℕ)
    → find_edge (record { source = a; target = b }) 0 g ≡ some j
    → remove_helper g j ≡ some rest
    → remove_edge g a b ≡ some (ok rest)
unfolding remove_edge
remove_edge_run g rest a b j found run = rw (found, remove_edge, run)

nonempty : (x : Edge) (g : Graph) → 0 < count x g → 0 < length g
unfolding count
nonempty x [] h = h
nonempty x (e ∷ g) h = omega arith

-- RemoveEdge removes exactly one copy of an edge that is there, whatever else the graph holds.
pub count-remove_edge :
    (g : Graph) (a b : ℕ)
    → 0 < count (record { source = a; target = b }) g
    → (rest : Graph) × (remove_edge g a b ≡ some (ok rest))
      × ((x : Edge)
          → count x rest + to_nat (same_edge (record { source = a; target = b }) x) ≡ count x g)
count-remove_edge g a b h =
    let e : Edge = record { source = a; target = b } in
    elim (Option-cases (find_edge e 0 g)) [
      | inl miss ↦ absurd (omega (arith, find_edge-none e g 0 miss))
      | inr (j, found) ↦
          let (k, y, eq, at, same) = find_edge_lem e g 0 j found in
          let eq' : k ≡ j = omega arith in
          let (rest, run, counts) = remove_helper_lem g j y (rw eq' at (at)) (nonempty e g h) in
          (
            rest,
            remove_edge_run g rest a b j found run,
            λ x. omega (arith, counts x, ap to_nat (same_edge_eq y e x same)),
          )
    ]

-- RemoveEdge after AddEdge of the same edge leaves every edge as often as it was, and does not
-- fail.
pub remove_edge-add_edge :
    (g : Graph) (a b : ℕ)
    → (rest : Graph) × (remove_edge (add_edge g a b) a b ≡ some (ok rest))
      × ((x : Edge) → count x rest ≡ count x g)
unfolding add_edge count
remove_edge-add_edge g a b =
    let e : Edge = record { source = a; target = b } in
    let (rest, run, counts) =
      count-remove_edge (g ++ e ∷ []) a b (rw count-append (ground arith)) in
    (rest, run, λ x. omega (arith, counts x, count-append x g (e ∷ [])))
