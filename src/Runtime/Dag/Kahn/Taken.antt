-- ===== src/Runtime/Dag/Kahn/Taken.antt =====
-- vyomel/runtime/dag.py: which actions the search takes.
use vyomel.Prelude.{
  ℕ, zero, suc, ap, ◌≤◌, ◌≡◌, refl, true, ◌||◌, some, List, [], ◌∷◌, ◌++◌, eqb, eqb_iff, length,
  contains, nat_eq, All, All-map, map, if◌then◌else◌, arith, Bool-cases, inl, inr,
}
use vyomel.Runtime.Dag.{ActionNode}
use vyomel.Runtime.Dag.Kahn.{
  Counts, count_of, sub_one, zeros, add_each, add_nodes, incoming, outgoing, zero_keys, relax,
  drain, kahn,
}
use vyomel.Runtime.Dag.Kahn.Counting.{opens, count_of-sub_one}
use vyomel.Runtime.Dag.Kahn.Ends.{kahn_ends, has_entry, add_each_has, zeros-AllHave}
use vyomel.Runtime.Dag.Kahn.Waiting.{IsDistinct, IsOrdered}
use vyomel.Runtime.Dag.Kahn.Named.{taken_named}
use vyomel.Runtime.Dag.Kahn.Order.{Draining, drain-Draining, start-Draining}

-- Where the identifier counts 0, it was taken or waits.
abbrev Pending : ℕ → List ℕ → Counts → List ℕ → Type 0
Pending k taken counts ready = count_of k counts ≡ 0 → (contains k taken || contains k ready) ≡ true

contains_more : (k x : ℕ) (xs : List ℕ) → contains k (xs ++ x ∷ []) ≡ (contains k xs || eqb x k)
contains_more k x [] = ground arith
contains_more k x (y ∷ ys) = ground (arith, contains_more k x ys)

lowered-Pending :
    (k x : ℕ) (taken : List ℕ) (counts : Counts) (ready : List ℕ)
    → Pending k taken counts ready
    → Pending k taken
        (sub_one x counts)
        (if eqb (count_of x counts) 1 then ready ++ x ∷ [] else ready)
lowered-Pending k x taken counts ready p z =
    let now = count_of-sub_one k x counts in
    let more = contains_more k x ready in
    elim (Bool-cases (eqb x k)) [
      | inl same ↦
          let e : x ≡ k = (eqb_iff x k).0 same in
          let c : count_of x counts ≡ count_of k counts = ap (λ (i : ℕ). count_of i counts) e in
          elim (Bool-cases (eqb (count_of x counts) 1)) [
            | inl hit ↦ rw hit (ground (arith, more, same))
            | inr miss ↦
                let n : count_of k counts ≡ 0 = ground (arith, now, z, same, miss, c) in
                rw miss (p n)
          ]
      | inr other ↦
          let n : count_of k counts ≡ 0 = ground (arith, now, z, other) in
          let there = p n in
          elim (Bool-cases (eqb (count_of x counts) 1)) [
            | inl hit ↦ rw hit (ground (arith, more, there))
            | inr miss ↦ rw miss there
          ]
    ]

relax-Pending :
    (k : ℕ) (taken out : List ℕ) (counts : Counts) (ready : List ℕ)
    → Pending k taken counts ready
    → Pending k taken (relax out counts ready).0 (relax out counts ready).1
unfolding relax
relax-Pending k taken [] counts ready p = p
relax-Pending k taken (x ∷ out) counts ready p =
    relax-Pending k taken out (sub_one x counts) _ (lowered-Pending k x taken counts ready p)

drain-Pending :
    (nodes : List ActionNode) (fuel k : ℕ) (counts : Counts) (ready taken : List ℕ)
    (r : List ℕ × Counts)
    → Pending k taken counts ready
    → drain nodes fuel counts ready taken ≡ some r
    → Pending k r.0 r.1 []
unfolding drain
drain-Pending nodes fuel k counts [] taken r p h =
    let e : (taken, counts) ≡ r = ground (arith, h) in rw (← e) p
drain-Pending nodes zero k counts (c ∷ ready) taken r p h = cc
drain-Pending nodes (suc fuel) k counts (c ∷ ready) taken r p h =
    let moved : Pending k (c ∷ taken) counts ready = λ z. ground (arith, p z) in
    drain-Pending nodes fuel k (relax (outgoing nodes c) counts ready).0
      (relax (outgoing nodes c) counts ready).1 (c ∷ taken) r
      (relax-Pending k (c ∷ taken) (outgoing nodes c) counts ready moved) h

zero_keys_listed :
    (k : ℕ) (counts : Counts)
    → has_entry k counts ≡ true
    → count_of k counts ≡ 0
    → contains k (zero_keys counts) ≡ true
zero_keys_listed k [] h z = cc
zero_keys_listed k ((j, n) ∷ rest) h z = elim (Bool-cases (eqb j k)) [
  | inl same ↦
      let none_open : eqb n 0 ≡ true = ground (arith, z, same) in
      rw none_open (ground (arith, same))
  | inr other ↦
      let later = zero_keys_listed k rest (ground (arith, h, other)) (ground (arith, z, other)) in
      ground (arith, later)
]

add_nodes_has :
    (k : ℕ) (nodes : List ActionNode) (counts : Counts)
    → has_entry k counts ≡ true
    → has_entry k (add_nodes nodes counts) ≡ true
add_nodes_has k [] counts h = h
add_nodes_has k (n ∷ nodes) counts h =
    add_nodes_has k nodes (add_each n.id n.depends_on counts)
      (add_each_has n.id k n.depends_on counts h)

-- Of each action of the plan: it was taken exactly when no dependency of it is left.
taken_iff :
    (nodes : List ActionNode) (n : ActionNode) (r : List ℕ × Counts)
    → has_entry n.id (zeros nodes []) ≡ true
    → kahn nodes ≡ some r
    → Draining nodes r.1 [] r.0
    → contains n.id r.0 ≡ eqb (opens nodes n.id r.0) 0
unfolding kahn incoming
taken_iff nodes n r has e d =
    let first : Pending n.id [] (incoming nodes) (zero_keys (incoming nodes)) =
      zero_keys_listed n.id (incoming nodes) (add_nodes_has n.id nodes (zeros nodes []) has) in
    let p =
      drain-Pending nodes (length nodes) n.id (incoming nodes) (zero_keys (incoming nodes)) [] r
        first e in
    elim (Bool-cases (contains n.id r.0)) [
      | inl taken ↦ ground (arith, taken, d.spent n.id taken, d.counted n.id)
      | inr left ↦ elim (Bool-cases (eqb (opens nodes n.id r.0) 0)) [
        | inl closed ↦
            let z : count_of n.id r.1 ≡ 0 = ground (arith, closed, d.counted n.id) in
            ground (arith, left, p z)
        | inr open_still ↦ rw (left, open_still) refl
      ]
    ]

-- The search of every plan ends within its fuel. What it took are identifiers of the plan, no more
-- than it has actions, each once and each after all its dependencies, and an action of the plan was
-- taken exactly when none of its dependencies is left.
pub kahn_takes :
    (nodes : List ActionNode)
    → (r : List ℕ × Counts) × (kahn nodes ≡ some r)
      × (length r.0 ≤ length nodes)
      × All (λ k. contains k (map (λ m. m.id) nodes) ≡ true) r.0
      × IsDistinct r.0
      × IsOrdered nodes r.0
      × All (λ n. contains n.id r.0 ≡ eqb (opens nodes n.id r.0) 0) nodes
unfolding kahn
kahn_takes nodes =
    let (r, e, sum, short) = kahn_ends nodes in
    let d =
      drain-Draining nodes (length nodes) (incoming nodes) (zero_keys (incoming nodes)) [] r
        (start-Draining nodes) e in
    (
      r,
      e,
      short,
      taken_named nodes r e,
      d.once,
      d.ordered,
      All-map (λ n. has_entry n.id (zeros nodes []) ≡ true)
          (λ n. contains n.id r.0 ≡ eqb (opens nodes n.id r.0) 0) nodes
          (λ n has. taken_iff nodes n r has e d) (zeros-AllHave nodes []),
    )
