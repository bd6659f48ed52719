-- ===== src/Runtime/Dag.antt =====
-- vyomel/runtime/dag.py: the plan's graph. An identifier is the number that its ULID encodes.
pub mod Ready
pub mod Kahn
mod Examples
use vyomel.Prelude.{
  ℕ, Bool, true, false, Option, none, some, List, [], ◌∷◌, nat_eq, ◌==◌, any, all, map, contains,
  if◌then◌else◌,
}
use vyomel.Core.Types.{ActionStatus}
use vyomel.Core.Errors.{Result, ok, err, ◌>>=◌, ◌>>◌, raise_class, key_error, cyclic_plan_error}

pub record ActionNode : Type 0 where
  pub id : ℕ
  pub status : ActionStatus
  pub depends_on : List ℕ
  pub step_id : ℕ
  pub tolerates_unverified : Bool

-- `status is PLANNED`
abbrev pub is_planned : ActionStatus → Bool
is_planned ActionStatus.planned = true
is_planned _ = false

-- `status in acceptable`
abbrev pub acceptable : Bool → ActionStatus → Bool
acceptable tolerates ActionStatus.succeeded = true
acceptable tolerates ActionStatus.unverified = tolerates
acceptable tolerates _ = false

-- `by_id[dep].status`: of several nodes with one identifier the last counts
abbrev pub status_of : ℕ → List ActionNode → Option ActionStatus
status_of dep [] = none
status_of dep (n ∷ nodes) = elim (status_of dep nodes) [
  | some s ↦ some s
  | none ↦ if n.id == dep then some n.status else none
]

-- `all(by_id[dep].status in acceptable for dep in depends_on)`
unfoldable pub deps_met : List ActionNode → Bool → List ℕ → Result Bool
deps_met nodes tolerates [] = ok true
deps_met nodes tolerates (dep ∷ deps) =
    let rest = deps_met nodes tolerates deps in
    elim (status_of dep nodes) [
      | none ↦ err (raise_class key_error)
      | some s ↦ if acceptable tolerates s then rest else ok false
    ]

-- the loop of `ready_ids`
unfoldable pub ready_from : List ActionNode → List ActionNode → Result (List ℕ)
unfolding deps_met
ready_from nodes [] = ok []
ready_from nodes (n ∷ rest) =
    let later = ready_from nodes rest in
    if is_planned n.status
    then (do
      met ← deps_met nodes n.tolerates_unverified n.depends_on
      ids ← later
      ok (if met then n.id ∷ ids else ids))
    else later

unfoldable pub ready_ids : List ActionNode → Result (List ℕ)
unfolding ready_from
ready_ids nodes = ready_from nodes nodes

-- the first loop of `validate_acyclic`, over the dependencies of one node and over the nodes
unfoldable pub check_deps : List ℕ → ℕ → List ℕ → Result (Unit {0})
check_deps ids id [] = ok tt
check_deps ids id (dep ∷ deps) =
    let rest = check_deps ids id deps in
    if contains dep ids
    then (if dep == id then err (raise_class cyclic_plan_error) else rest)
    else err (raise_class cyclic_plan_error)

unfoldable pub check_edges : List ℕ → List ActionNode → Result (Unit {0})
unfolding check_deps
check_edges ids [] = ok tt
check_edges ids (n ∷ nodes) = do _ ← check_deps ids n.id n.depends_on; check_edges ids nodes
