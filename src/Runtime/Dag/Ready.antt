-- ===== src/Runtime/Dag/Ready.antt =====
-- Which actions `ready_ids` of vyomel/runtime/dag.py promotes, and which edges are refused.
use vyomel.Prelude.{
  ◌≡◌, refl, Bool, true, false, not, ◌&&◌, none, some, List, [], ◌∷◌, ℕ, nat_eq, ◌==◌, all, map,
  select, contains, arith, inl, inr, ◌↔◌, Bool-cases, Option-cases, if◌then◌else◌,
}
use vyomel.Core.Types.{ActionStatus}
use vyomel.Core.Errors.{Result, ok, err, ◌>>=◌, >>=-eq-ok}
use vyomel.Runtime.Dag.{
  ActionNode, is_planned, acceptable, status_of, deps_met, ready_from, ready_ids, check_deps,
  check_edges,
}

-- A dependency is settled: it succeeded or, where that is tolerated, is unverified.
abbrev pub is_settled : List ActionNode → Bool → ℕ → Bool
is_settled nodes tolerates dep = elim (status_of dep nodes) [
  | none ↦ false
  | some s ↦ acceptable tolerates s
]

-- A planned action whose dependencies are all settled.
abbrev pub is_ready : List ActionNode → ActionNode → Bool
is_ready nodes n = is_planned n.status && all (is_settled nodes n.tolerates_unverified) n.depends_on

deps_met_lem :
    (nodes : List ActionNode) (tolerates : Bool) (deps : List ℕ) (met : Bool)
    → deps_met nodes tolerates deps ≡ ok met
    → all (is_settled nodes tolerates) deps ≡ met
unfolding deps_met
deps_met_lem nodes tolerates [] met h = ground arith
deps_met_lem nodes tolerates (dep ∷ deps) met h =
    ground (arith, deps_met_lem nodes tolerates deps met)

assembled :
    (met : Bool) (n : ActionNode) (xs : List ActionNode) (later ids : List ℕ)
    → later ≡ map (λ q. q.id) xs
    → Result.ok (if met then n.id ∷ later else later) ≡ ok ids
    → ids ≡ map (λ q. q.id) (if met then n ∷ xs else xs)
assembled true n xs later ids e h = ground (arith, e, h)
assembled false n xs later ids e h = ground (arith, e, h)

ready_from_lem :
    (nodes rest : List ActionNode) (ids : List ℕ)
    → ready_from nodes rest ≡ ok ids
    → ids ≡ map (λ n. n.id) (select (is_ready nodes) rest)
unfolding ready_from
ready_from_lem nodes [] ids h = ground arith
ready_from_lem nodes (n ∷ rest) ids h = elim (Bool-cases (is_planned n.status)) [
  | inl e ↦
      let (met, a, f) =
        >>=-eq-ok (deps_met nodes n.tolerates_unverified n.depends_on) _ (rw (e) at h) in
      let (later, b, g) = >>=-eq-ok (ready_from nodes rest) _ f in
      let k = deps_met_lem nodes n.tolerates_unverified n.depends_on met a in
      let i = ready_from_lem nodes rest later b in
      rw (e, k) (assembled met n (select (is_ready nodes) rest) later ids i g)
  | inr e ↦ rw (e) (ready_from_lem nodes rest ids (rw (e) at h))
]

-- What `ready_ids` gives, when no identifier is missing, are the identifiers of exactly the planned
-- actions whose every dependency has succeeded, or is unverified where the action tolerates that, in
-- the order of the plan.
pub ready_ids_exact :
    (nodes : List ActionNode) (ids : List ℕ)
    → ready_ids nodes ≡ ok ids
    → ids ≡ map (λ n. n.id) (select (is_ready nodes) nodes)
unfolding ready_ids
ready_ids_exact nodes ids h = ready_from_lem nodes nodes ids h

-- Every dependency of every node is one of the identifiers and is not the node's own.
abbrev pub edges_known : List ℕ → List ActionNode → Bool
edges_known ids nodes =
    all (λ n. all (λ dep. contains dep ids && not (dep == n.id)) n.depends_on) nodes

check_deps_lem :
    (ids : List ℕ) (id : ℕ) (deps : List ℕ)
    → (check_deps ids id deps ≡ ok tt)
      ↔ (all (λ dep. contains dep ids && not (dep == id)) deps ≡ true)
unfolding check_deps
check_deps_lem ids id [] = ground arith
check_deps_lem ids id (dep ∷ deps) = ground (arith, check_deps_lem ids id deps)

check_edges_cons :
    (m k : Result (Unit {0})) (b c : Bool)
    → (m ≡ ok tt) ↔ (b ≡ true)
    → (k ≡ ok tt) ↔ (c ≡ true)
    → ((m >>= λ _. k) ≡ ok tt) ↔ ((b && c) ≡ true)
check_edges_cons (ok tt) k b c f g = ground (arith, f, g)
check_edges_cons (err e) k b c f g = ground (arith, f, g)

-- The edges are accepted exactly where every dependency of every action is an action of the plan and
-- none is the action itself.
pub check_edges_exact :
    (ids : List ℕ) (nodes : List ActionNode)
    → (check_edges ids nodes ≡ ok tt) ↔ (edges_known ids nodes ≡ true)
unfolding check_edges
check_edges_exact ids [] = ground arith
check_edges_exact ids (n ∷ nodes) =
    check_edges_cons (check_deps ids n.id n.depends_on) (check_edges ids nodes)
      (all (λ dep. contains dep ids && not (dep == n.id)) n.depends_on) (edges_known ids nodes)
      (check_deps_lem ids n.id n.depends_on) (check_edges_exact ids nodes)

status_known :
    (dep : ℕ) (nodes : List ActionNode)
    → contains dep (map (λ n. n.id) nodes) ≡ true
    → (s : ActionStatus) × (status_of dep nodes ≡ some s)
status_known dep [] h = cc
status_known dep (n ∷ nodes) h = elim (Option-cases (status_of dep nodes)) [
  | inr (s, e) ↦ (s, rw (e) refl)
  | inl e ↦ elim (Bool-cases (n.id == dep)) [
    | inl k ↦ (n.status, rw (e, k) refl)
    | inr k ↦ let (s, q) = status_known dep nodes (rw (k) at h) in cc
  ]
]

deps_met-known :
    (nodes : List ActionNode) (tolerates : Bool) (dep : ℕ) (deps : List ℕ) (s : ActionStatus)
    → status_of dep nodes ≡ some s
    → (m : Result Bool)
    → (if acceptable tolerates s then deps_met nodes tolerates deps else ok false) ≡ m
    → deps_met nodes tolerates (dep ∷ deps) ≡ m
unfolding deps_met
deps_met-known nodes tolerates dep deps s e m h = rw (e, deps_met) h

deps_met_total :
    (nodes : List ActionNode) (tolerates : Bool) (id : ℕ) (deps : List ℕ)
    → all (λ dep. contains dep (map (λ n. n.id) nodes) && not (dep == id)) deps ≡ true
    → (met : Bool) × (deps_met nodes tolerates deps ≡ ok met)
unfolding deps_met
deps_met_total nodes tolerates id [] h = (true, refl)
deps_met_total nodes tolerates id (dep ∷ deps) h =
    let (s, e) = status_known dep nodes (ground arith) in
    let (met, k) = deps_met_total nodes tolerates id deps (ground arith) in
    elim (Bool-cases (acceptable tolerates s)) [
      | inl a ↦ (met, deps_met-known nodes tolerates dep deps s e (ok met) (rw (a) k))
      | inr a ↦ (false, deps_met-known nodes tolerates dep deps s e (ok false) (rw (a) refl))
    ]

ready_from_total :
    (nodes rest : List ActionNode)
    → edges_known (map (λ n. n.id) nodes) rest ≡ true
    → (ids : List ℕ) × (ready_from nodes rest ≡ ok ids)
unfolding ready_from
ready_from_total nodes [] h = ([], refl)
ready_from_total nodes (n ∷ rest) h =
    let (met, e) = deps_met_total nodes n.tolerates_unverified n.id n.depends_on (ground arith) in
    let (later, k) = ready_from_total nodes rest (ground arith) in
    elim (Bool-cases (is_planned n.status)) [
      | inl a ↦ (if met then n.id ∷ later else later, rw (a, e, k) refl)
      | inr a ↦ (later, rw (a, k) refl)
    ]

-- On a plan whose edges were accepted `ready_ids` raises nothing.
pub ready_ids_total :
    (nodes : List ActionNode)
    → check_edges (map (λ n. n.id) nodes) nodes ≡ ok tt
    → (ids : List ℕ) × (ready_ids nodes ≡ ok ids)
unfolding ready_ids
ready_ids_total nodes h =
    ready_from_total nodes nodes ((check_edges_exact (map (λ n. n.id) nodes) nodes).0 h)
