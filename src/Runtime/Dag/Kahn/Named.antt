-- ===== src/Runtime/Dag/Kahn/Named.antt =====
-- vyomel/runtime/dag.py: what the search takes are identifiers of the plan's actions.
use vyomel.Prelude.{
  ℕ, zero, suc, ◌≡◌, refl, Bool, true, false, some, List, [], ◌∷◌, ◌++◌, eqb, length, contains,
  nat_eq, All, All-map, map, if◌then◌else◌, arith, Bool-cases, inl, inr, eqb_iff,
}
use vyomel.Runtime.Dag.{ActionNode}
use vyomel.Runtime.Dag.Kahn.{
  Counts, count_of, put_zero, add_one, sub_one, zeros, add_each, add_nodes, incoming, edges_from,
  outgoing, zero_keys, relax, drain, kahn,
}
use vyomel.Runtime.Dag.Kahn.Waiting.{All-snoc}

module _ (P : ℕ → Type 0) where
  -- what holds of every key
  abbrev AllKeys : Counts → Type 0
  AllKeys [] = Unit {0}
  AllKeys ((k, n) ∷ rest) = P k × AllKeys rest

  put_zero-AllKeys :
      (id : ℕ) (counts : Counts) → P id → AllKeys counts → AllKeys (put_zero id counts)
  put_zero-AllKeys id [] p h = (p, tt)
  put_zero-AllKeys id ((k, n) ∷ rest) p (q, h) = elim (Bool-cases (eqb k id)) [
    | inl same ↦ rw same (q, h)
    | inr other ↦ rw other (q, put_zero-AllKeys id rest p h)
  ]

  add_one-AllKeys : (id : ℕ) (counts : Counts) → P id → AllKeys counts → AllKeys (add_one id counts)
  add_one-AllKeys id [] p h = (p, tt)
  add_one-AllKeys id ((k, n) ∷ rest) p (q, h) = elim (Bool-cases (eqb k id)) [
    | inl same ↦ rw same (q, h)
    | inr other ↦ rw other (q, add_one-AllKeys id rest p h)
  ]

  zeros-AllKeys :
      (nodes : List ActionNode) (counts : Counts)
      → All (λ n. P n.id) nodes
      → AllKeys counts
      → AllKeys (zeros nodes counts)
  zeros-AllKeys [] counts ps h = h
  zeros-AllKeys (n ∷ nodes) counts (p, ps) h =
      zeros-AllKeys nodes (put_zero n.id counts) ps (put_zero-AllKeys n.id counts p h)

  add_each-AllKeys :
      (id : ℕ) (deps : List ℕ) (counts : Counts)
      → P id
      → AllKeys counts
      → AllKeys (add_each id deps counts)
  add_each-AllKeys id [] counts p h = h
  add_each-AllKeys id (d ∷ deps) counts p h =
      add_each-AllKeys id deps (add_one id counts) p (add_one-AllKeys id counts p h)

  add_nodes-AllKeys :
      (nodes : List ActionNode) (counts : Counts)
      → All (λ n. P n.id) nodes
      → AllKeys counts
      → AllKeys (add_nodes nodes counts)
  add_nodes-AllKeys [] counts ps h = h
  add_nodes-AllKeys (n ∷ nodes) counts (p, ps) h =
      add_nodes-AllKeys nodes (add_each n.id n.depends_on counts) ps
        (add_each-AllKeys n.id n.depends_on counts p h)

  zero_keys-All : (counts : Counts) → AllKeys counts → All P (zero_keys counts)
  zero_keys-All [] h = tt
  zero_keys-All ((k, n) ∷ rest) (p, h) = elim (Bool-cases (eqb n 0)) [
    | inl none_open ↦ rw none_open (p, zero_keys-All rest h)
    | inr some_open ↦ rw some_open (zero_keys-All rest h)
  ]

  edges_from-All : (dep id : ℕ) (deps : List ℕ) → P id → All P (edges_from dep id deps)
  edges_from-All dep id [] p = tt
  edges_from-All dep id (d ∷ deps) p = elim (Bool-cases (eqb d dep)) [
    | inl same ↦ rw same (p, edges_from-All dep id deps p)
    | inr other ↦ rw other (edges_from-All dep id deps p)
  ]

  append-All : (xs ys : List ℕ) → All P xs → All P ys → All P (xs ++ ys)
  append-All [] ys ps qs = qs
  append-All (x ∷ xs) ys (p, ps) qs = (p, append-All xs ys ps qs)

  outgoing-All :
      (nodes : List ActionNode) (dep : ℕ) → All (λ n. P n.id) nodes → All P (outgoing nodes dep)
  unfolding outgoing
  outgoing-All [] dep ps = tt
  outgoing-All (n ∷ nodes) dep (p, ps) =
      append-All (edges_from dep n.id n.depends_on) (outgoing nodes dep)
        (edges_from-All dep n.id n.depends_on p) (outgoing-All nodes dep ps)

  queued-All :
      (b : Bool) (ready : List ℕ) (x : ℕ)
      → All P ready
      → P x
      → All P (if b then ready ++ x ∷ [] else ready)
  queued-All true ready x ps p = All-snoc P ready x ps p
  queued-All false ready x ps p = ps

  relax-All :
      (out : List ℕ) (counts : Counts) (ready : List ℕ)
      → All P out
      → All P ready
      → All P (relax out counts ready).1
  unfolding relax
  relax-All [] counts ready ps qs = qs
  relax-All (x ∷ out) counts ready (p, ps) qs =
      relax-All out (sub_one x counts) _ ps (queued-All (eqb (count_of x counts) 1) ready x qs p)

  drain-All :
      (nodes : List ActionNode) (fuel : ℕ) (counts : Counts) (ready taken : List ℕ)
      (r : List ℕ × Counts)
      → All (λ n. P n.id) nodes
      → All P ready
      → All P taken
      → drain nodes fuel counts ready taken ≡ some r
      → All P r.0
  unfolding drain
  drain-All nodes fuel counts [] taken r ns ps qs h =
      let e : (taken, counts) ≡ r = ground (arith, h) in rw (← e) qs
  drain-All nodes zero counts (c ∷ ready) taken r ns ps qs h = cc
  drain-All nodes (suc fuel) counts (c ∷ ready) taken r ns (p, ps) qs h =
      drain-All nodes fuel (relax (outgoing nodes c) counts ready).0
        (relax (outgoing nodes c) counts ready).1 (c ∷ taken) r ns
        (relax-All (outgoing nodes c) counts ready (outgoing-All nodes c ns) ps) (p, qs) h

  pub kahn-All :
      (nodes : List ActionNode) (r : List ℕ × Counts)
      → All (λ n. P n.id) nodes
      → kahn nodes ≡ some r
      → All P r.0
  unfolding kahn incoming
  kahn-All nodes r ns h =
      drain-All nodes (length nodes) (incoming nodes) (zero_keys (incoming nodes)) [] r ns
        (zero_keys-All (incoming nodes)
          (add_nodes-AllKeys nodes (zeros nodes []) ns (zeros-AllKeys nodes [] ns tt)))
        tt h

named : (nodes : List ActionNode) → All (λ n. contains n.id (map (λ m. m.id) nodes) ≡ true) nodes
named [] = tt
named (n ∷ nodes) = (
  ground (arith, (eqb_iff n.id n.id).1 refl),
  All-map (λ m. contains m.id (map (λ m. m.id) nodes) ≡ true)
      (λ m. contains m.id (n.id ∷ map (λ m. m.id) nodes) ≡ true) nodes (λ m h. ground (arith, h))
      (named nodes),
)

-- What is taken are identifiers of the plan.
pub taken_named :
    (nodes : List ActionNode) (r : List ℕ × Counts)
    → kahn nodes ≡ some r
    → All (λ k. contains k (map (λ m. m.id) nodes) ≡ true) r.0
taken_named nodes r h =
    kahn-All (λ k. contains k (map (λ m. m.id) nodes) ≡ true) nodes r (named nodes) h
