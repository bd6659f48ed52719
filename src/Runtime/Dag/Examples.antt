-- ===== src/Runtime/Dag/Examples.antt =====
-- The plan's graph at concrete inputs.
use vyomel.Prelude.{
  some, length, contains, nat_eq, eqb, All, ◌≤◌, ◌≡◌, refl, Bool, true, false, List, [], ◌∷◌, ℕ,
  map, select,
}
use vyomel.Core.Types.{ActionStatus}
use vyomel.Runtime.Dag.{ActionNode, ready_ids, check_edges}
use vyomel.Runtime.Dag.Kahn.{Counts, kahn, reverse_topo}
use vyomel.Runtime.Dag.Kahn.Counting.{opens}
use vyomel.Runtime.Dag.Kahn.Taken.{kahn_takes}
use vyomel.Runtime.Dag.Kahn.Waiting.{IsDistinct, IsOrdered}
use vyomel.Runtime.Dag.Kahn.Order.{IsReverseTopological, reverse_topo_order}
use vyomel.Runtime.Dag.Ready.{is_ready, ready_ids_exact}

abbrev node : ℕ → ActionStatus → List ℕ → Bool → ActionNode
node id status deps tolerates = record {
  id = id;
  status = status;
  depends_on = deps;
  step_id = 19;
  tolerates_unverified = tolerates;
}

-- Of two actions that wait for an unverified one, only the second tolerates that.
abbrev plan : List ActionNode
plan =
    node (1) ActionStatus.unverified [] false
    ∷ node (2) ActionStatus.planned (1 ∷ []) false
    ∷ node (3) ActionStatus.planned (1 ∷ []) true
    ∷ []

ready_ids_exact_example : 3 ∷ [] ≡ map (λ n. n.id) (select (is_ready plan) plan)
unfolding ready_ids
ready_ids_exact_example = ready_ids_exact plan (3 ∷ []) refl

-- A plan in which the last action waits for two.
abbrev diamond : List ActionNode
diamond =
    node 1 ActionStatus.planned [] false
    ∷ node 2 ActionStatus.planned (1 ∷ []) false
    ∷ node 3 ActionStatus.planned (1 ∷ 2 ∷ []) false
    ∷ []

-- Two of these wait for each other.
abbrev knot : List ActionNode
knot =
    node 1 ActionStatus.planned [] false
    ∷ node 2 ActionStatus.planned (1 ∷ 3 ∷ []) false
    ∷ node 3 ActionStatus.planned (2 ∷ []) false
    ∷ []

kahn_takes_example :
    (r : List ℕ × Counts) × (kahn knot ≡ some r)
    × (length r.0 ≤ length knot)
    × All (λ k. contains k (map (λ m. m.id) knot) ≡ true) r.0
    × IsDistinct r.0
    × IsOrdered knot r.0
    × All (λ n. contains n.id r.0 ≡ eqb (opens knot n.id r.0) 0) knot
kahn_takes_example = kahn_takes knot

abbrev taken : List ℕ
taken = 3 ∷ 2 ∷ 1 ∷ []

reverse_topo_order_example :
    (length taken ≡ length diamond) × IsDistinct taken × IsReverseTopological diamond taken
unfolding reverse_topo check_edges
reverse_topo_order_example = reverse_topo_order diamond taken refl
