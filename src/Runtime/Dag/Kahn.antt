-- ===== src/Runtime/Dag/Kahn.antt =====
-- vyomel/runtime/dag.py: `validate_acyclic` and `reverse_topo`, which search the plan's graph from the
-- actions without dependencies. A dictionary is the list of its entries; `outgoing[dep]` is read off the plan.
pub mod Ends
pub mod Counting
pub mod Waiting
pub mod Order
pub mod Named
pub mod Taken
use vyomel.Prelude.{
  ℕ, zero, suc, ◌-◌, Bool, true, false, ◌&&◌, Option, none, some, List, [], ◌∷◌, ◌++◌, map, eqb,
  ltb, length, if◌then◌else◌,
}
use vyomel.Core.Errors.{Result, ok, err, ◌>>=◌, raise_class, cyclic_plan_error}
use vyomel.Runtime.Dag.{ActionNode, check_edges}

abbrev pub Counts : Type 0
Counts = List (ℕ × ℕ)

-- `incoming[id]`, and the entry set to 0, one higher, one lower
abbrev pub count_of : ℕ → Counts → ℕ
count_of id [] = 0
count_of id ((k, n) ∷ rest) = if eqb k id then n else count_of id rest

abbrev pub put_zero : ℕ → Counts → Counts
put_zero id [] = (id, 0) ∷ []
put_zero id ((k, n) ∷ rest) = if eqb k id then (k, 0) ∷ rest else (k, n) ∷ put_zero id rest

abbrev pub add_one : ℕ → Counts → Counts
add_one id [] = (id, 1) ∷ []
add_one id ((k, n) ∷ rest) = if eqb k id then (k, suc n) ∷ rest else (k, n) ∷ add_one id rest

-- Where an entry is 0 already, the source goes below it; that it never does is among the theorems.
abbrev pub sub_one : ℕ → Counts → Counts
sub_one id [] = []
sub_one id ((k, n) ∷ rest) = if eqb k id then (k, n - 1) ∷ rest else (k, n) ∷ sub_one id rest

-- `{node.id: 0 for node in nodes}`, onto what is there
abbrev pub zeros : List ActionNode → Counts → Counts
zeros [] counts = counts
zeros (n ∷ nodes) counts = zeros nodes (put_zero n.id counts)

abbrev pub add_each : ℕ → List ℕ → Counts → Counts
add_each id [] counts = counts
add_each id (dep ∷ deps) counts = add_each id deps (add_one id counts)

-- `incoming[node.id] += 1` for each dependency of each node
abbrev pub add_nodes : List ActionNode → Counts → Counts
add_nodes [] counts = counts
add_nodes (n ∷ nodes) counts = add_nodes nodes (add_each n.id n.depends_on counts)

unfoldable pub incoming : List ActionNode → Counts
incoming nodes = add_nodes nodes (zeros nodes [])

-- the identifier once for each of these that is the dependency
abbrev pub edges_from : ℕ → ℕ → List ℕ → List ℕ
edges_from dep id [] = []
edges_from dep id (d ∷ deps) =
    if eqb d dep then id ∷ edges_from dep id deps else edges_from dep id deps

unfoldable pub outgoing : List ActionNode → ℕ → List ℕ
outgoing [] dep = []
outgoing (n ∷ nodes) dep = edges_from dep n.id n.depends_on ++ outgoing nodes dep

-- the identifiers that count 0
abbrev pub zero_keys : Counts → List ℕ
zero_keys [] = []
zero_keys ((k, n) ∷ rest) = if eqb n 0 then k ∷ zero_keys rest else zero_keys rest

-- the inner loop over `outgoing[current]`
unfoldable pub relax : List ℕ → Counts → List ℕ → Counts × List ℕ
relax [] counts ready = (counts, ready)
relax (next ∷ out) counts ready =
    relax out (sub_one next counts)
      (if eqb (count_of next counts) 1 then ready ++ next ∷ [] else ready)

-- the outer loop: what was taken from the queue, the last first, and the counts that are left
unfoldable pub drain : List ActionNode → ℕ → Counts → List ℕ → List ℕ → Option (List ℕ × Counts)
unfolding relax outgoing
drain nodes fuel counts [] order = some (order, counts)
drain nodes zero counts (current ∷ ready) order = none
drain nodes (suc fuel) counts (current ∷ ready) order =
    let (counts', ready') = relax (outgoing nodes current) counts ready in
    drain nodes fuel counts' ready' (current ∷ order)

-- Each node is taken once, so that the number of the nodes is fuel enough.
unfoldable pub kahn : List ActionNode → Option (List ℕ × Counts)
unfolding drain incoming
kahn nodes = drain nodes (length nodes) (incoming nodes) (zero_keys (incoming nodes)) []

-- `seen != len(nodes)`
abbrev pub all_seen : List ActionNode → Option (List ℕ × Counts) → Result (List ℕ)
all_seen nodes none = err (raise_class cyclic_plan_error)
all_seen nodes (some (order, counts)) =
    if eqb (length order) (length nodes) then ok order else err (raise_class cyclic_plan_error)

unfoldable pub validate_acyclic : List ActionNode → Result (Unit {0})
unfolding kahn
validate_acyclic nodes = do
  _ ← check_edges (map (λ n. n.id) nodes) nodes
  _ ← all_seen nodes (kahn nodes)
  ok tt

-- the order without the check of its length
abbrev pub drained : Option (List ℕ × Counts) → List ℕ
drained none = []
drained (some (order, counts)) = order

unfoldable pub reverse_topo : List ActionNode → Result (List ℕ)
unfolding validate_acyclic
reverse_topo nodes = do _ ← validate_acyclic nodes; ok (drained (kahn nodes))
