-- ===== src/Runtime/Dag/Kahn/Ends.antt =====
-- vyomel/runtime/dag.py: the search ends, for every plan.
use vyomel.Prelude.{
  ℕ, zero, suc, ◌+◌, ◌≤◌, ◌≡◌, refl, Bool, true, false, some, List, [], ◌∷◌, ◌++◌, eqb, length,
  length-append, ◌||◌, ◌∙◌, All, All-map, if◌then◌else◌, arith,
}
use vyomel.Runtime.Dag.{ActionNode}
use vyomel.Runtime.Dag.Kahn.{
  Counts, count_of, put_zero, add_one, sub_one, zeros, add_each, add_nodes, incoming, outgoing,
  zero_keys, relax, drain, kahn,
}

-- how many count more than 0
abbrev pub positives : Counts → ℕ
positives [] = 0
positives ((k, n) ∷ rest) = if eqb n 0 then positives rest else suc (positives rest)

sub_one_pays :
    (id : ℕ) (counts : Counts)
    → positives (sub_one id counts) + (if eqb (count_of id counts) 1 then 1 else 0)
      ≡ positives counts
sub_one_pays id [] = omega arith
sub_one_pays id ((k, n) ∷ rest) = ground (arith, sub_one_pays id rest)

length_snoc : (xs : List ℕ) (x : ℕ) → length (xs ++ x ∷ []) ≡ length xs + 1
length_snoc xs x = omega (arith, length-append xs (x ∷ []))

queued :
    (b : Bool) (ready : List ℕ) (x : ℕ)
    → length (if b then ready ++ x ∷ [] else ready) ≡ length ready + (if b then 1 else 0)
queued true ready x = length_snoc ready x
queued false ready x = omega arith

-- What waits and what still counts more than 0 are together as many after the inner loop as before.
pub relax_measure :
    (out : List ℕ) (counts : Counts) (ready : List ℕ)
    → length (relax out counts ready).1 + positives (relax out counts ready).0
      ≡ length ready + positives counts
unfolding relax
relax_measure [] counts ready = refl
relax_measure (next ∷ out) counts ready =
    let hit = eqb (count_of next counts) 1 in
    omega (
      arith,
      relax_measure out (sub_one next counts) (if hit then ready ++ next ∷ [] else ready),
      queued hit ready next,
      sub_one_pays next counts,
    )

drain_ends :
    (nodes : List ActionNode) (fuel : ℕ) (counts : Counts) (ready order : List ℕ)
    → length ready + positives counts ≤ fuel
    → (r : List ℕ × Counts) × (drain nodes fuel counts ready order ≡ some r)
      × (length r.0 + positives r.1 ≡ length ready + positives counts + length order)
unfolding drain
drain_ends nodes fuel counts [] order h = ((order, counts), refl, omega arith)
drain_ends nodes zero counts (c ∷ ready) order h = absurd (omega arith)
drain_ends nodes (suc fuel) counts (c ∷ ready) order h =
    let m = relax_measure (outgoing nodes c) counts ready in
    let (r, e, k) =
      drain_ends nodes fuel (relax (outgoing nodes c) counts ready).0
        (relax (outgoing nodes c) counts ready).1 (c ∷ order) (omega (arith, m)) in
    (r, e, omega (arith, m, k))

zero_keys_split : (counts : Counts) → length (zero_keys counts) + positives counts ≡ length counts
zero_keys_split [] = refl
zero_keys_split ((k, n) ∷ rest) = ground (arith, zero_keys_split rest)

length-put_zero : (id : ℕ) (counts : Counts) → length (put_zero id counts) ≤ suc (length counts)
length-put_zero id [] = omega arith
length-put_zero id ((k, n) ∷ rest) = ground (arith, length-put_zero id rest)

length-zeros :
    (nodes : List ActionNode) (counts : Counts)
    → length (zeros nodes counts) ≤ length nodes + length counts
length-zeros [] counts = omega arith
length-zeros (n ∷ nodes) counts =
    omega (arith, length-zeros nodes (put_zero n.id counts), length-put_zero n.id counts)

abbrev pub has_entry : ℕ → Counts → Bool
has_entry id [] = false
has_entry id ((k, n) ∷ rest) = eqb k id || has_entry id rest

put_zero_has :
    (id j : ℕ) (counts : Counts)
    → has_entry j (put_zero id counts) ≡ (eqb id j || has_entry j counts)
put_zero_has id j [] = refl
put_zero_has id j ((k, n) ∷ rest) = ground (arith, put_zero_has id j rest)

zeros_has :
    (j : ℕ) (nodes : List ActionNode) (counts : Counts)
    → has_entry j counts ≡ true
    → has_entry j (zeros nodes counts) ≡ true
zeros_has j [] counts h = h
zeros_has j (n ∷ nodes) counts h =
    zeros_has j nodes (put_zero n.id counts) (ground (arith, put_zero_has n.id j counts))

add_one_has :
    (id j : ℕ) (counts : Counts)
    → has_entry j counts ≡ true
    → has_entry j (add_one id counts) ≡ true
add_one_has id j [] h = cc
add_one_has id j ((k, n) ∷ rest) h = ground (arith, add_one_has id j rest)

length-add_one :
    (id : ℕ) (counts : Counts)
    → has_entry id counts ≡ true
    → length (add_one id counts) ≡ length counts
length-add_one id [] h = cc
length-add_one id ((k, n) ∷ rest) h = ground (arith, length-add_one id rest)

pub add_each_has :
    (id j : ℕ) (deps : List ℕ) (counts : Counts)
    → has_entry j counts ≡ true
    → has_entry j (add_each id deps counts) ≡ true
add_each_has id j [] counts h = h
add_each_has id j (d ∷ deps) counts h =
    add_each_has id j deps (add_one id counts) (add_one_has id j counts h)

length-add_each :
    (id : ℕ) (deps : List ℕ) (counts : Counts)
    → has_entry id counts ≡ true
    → length (add_each id deps counts) ≡ length counts
length-add_each id [] counts h = refl
length-add_each id (d ∷ deps) counts h =
    length-add_each id deps (add_one id counts) (add_one_has id id counts h)
    ∙ length-add_one id counts h

-- every node has its entry
abbrev pub AllHave : List ActionNode → Counts → Type 0
AllHave nodes counts = All (λ n. has_entry n.id counts ≡ true) nodes

length-add_nodes :
    (nodes : List ActionNode) (counts : Counts)
    → AllHave nodes counts
    → length (add_nodes nodes counts) ≡ length counts
length-add_nodes [] counts h = refl
length-add_nodes (n ∷ nodes) counts (h, hs) =
    length-add_nodes nodes (add_each n.id n.depends_on counts) (
      All-map (λ m. has_entry m.id counts ≡ true)
        (λ m. has_entry m.id (add_each n.id n.depends_on counts) ≡ true) nodes
        (λ m. add_each_has n.id m.id n.depends_on counts) hs)
    ∙ length-add_each n.id n.depends_on counts h

pub zeros-AllHave : (nodes : List ActionNode) (counts : Counts) → AllHave nodes (zeros nodes counts)
zeros-AllHave [] counts = tt
zeros-AllHave (n ∷ nodes) counts = (
  zeros_has n.id nodes (put_zero n.id counts) (ground (arith, put_zero_has n.id n.id counts)),
  zeros-AllHave nodes (put_zero n.id counts),
)

length-incoming : (nodes : List ActionNode) → length (incoming nodes) ≤ length nodes
unfolding incoming
length-incoming nodes =
    omega (
      arith,
      length-add_nodes nodes (zeros nodes []) (zeros-AllHave nodes []),
      length-zeros nodes [],
    )

-- The search of every plan ends within its fuel, having taken no more actions than the plan has; what it took
-- and what still counts more than 0 are together as many as the entries of its dictionary.
pub kahn_ends :
    (nodes : List ActionNode)
    → (r : List ℕ × Counts) × (kahn nodes ≡ some r)
      × (length r.0 + positives r.1 ≡ length (incoming nodes))
      × (length r.0 ≤ length nodes)
unfolding kahn
kahn_ends nodes =
    let split = zero_keys_split (incoming nodes) in
    let short = length-incoming nodes in
    let (r, e, k) =
      drain_ends nodes (length nodes) (incoming nodes) (zero_keys (incoming nodes)) []
        (omega (arith, split, short)) in
    (r, e, omega (arith, split, k), omega (arith, split, k, short))
