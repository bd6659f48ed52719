-- ===== src/Runtime/Dag/Kahn/Order.antt =====
-- vyomel/runtime/dag.py: in what order the search takes the actions.
use vyomel.Prelude.{
  ℕ, ap, sym, zero, suc, ◌≡◌, refl, Bool, true, false, not, ◌||◌, some, List, [], ◌∷◌, eqb, eqb_iff,
  length, contains, nat_eq, All, all, map, arith, Bool-cases, inl, inr, ◌∙◌,
}
use vyomel.Core.Errors.{ok, >>=-eq-ok}
use vyomel.Runtime.Dag.{ActionNode, check_edges}
use vyomel.Runtime.Dag.Kahn.{
  Counts, count_of, put_zero, add_one, zeros, add_each, add_nodes, incoming, outgoing, zero_keys,
  relax, drain, kahn, all_seen, validate_acyclic, drained, reverse_topo,
}
use vyomel.Runtime.Dag.Kahn.Counting.{
  open_deps, opens, count_of-relax, opens-take, count_of-incoming,
}
use vyomel.Runtime.Dag.Kahn.Ends.{kahn_ends}
use vyomel.Runtime.Dag.Kahn.Waiting.{IsDistinct, IsOrdered, Waits, Spent, relax-Waits, others}

-- What the search keeps: counts, queue and what was taken agree.
pub record Draining (nodes : List ActionNode) (counts : Counts) (ready taken : List ℕ)
    : Type 0 where
  pub counted : (k : ℕ) → count_of k counts ≡ opens nodes k taken
  pub spent : Spent taken counts
  pub waits : Waits taken counts ready
  pub ordered : IsOrdered nodes taken
  pub once : IsDistinct taken

Spent-more :
    (c : ℕ) (taken : List ℕ) (counts : Counts)
    → Spent taken counts
    → count_of c counts ≡ 0
    → Spent (c ∷ taken) counts
Spent-more c taken counts spent zero_c k h = elim (Bool-cases (eqb c k)) [
  | inl same ↦
      let e : c ≡ k = (eqb_iff c k).0 same in ap (λ (x : ℕ). count_of x counts) (sym e) ∙ zero_c
  | inr other ↦ spent k (rw other at h)
]

take-Draining :
    (nodes : List ActionNode) (counts : Counts) (c : ℕ) (ready taken : List ℕ)
    → Draining nodes counts (c ∷ ready) taken
    → Draining nodes
        (relax (outgoing nodes c) counts ready).0
        (relax (outgoing nodes c) counts ready).1
        (c ∷ taken)
take-Draining nodes counts c ready taken d =
    let w = d.waits in
    let untaken : contains c taken ≡ false = w.untaken.0 in
    let zero_c : count_of c counts ≡ 0 = w.zero_count.0 in
    let spent : Spent (c ∷ taken) counts = Spent-more c taken counts d.spent zero_c in
    let rest : Waits (c ∷ taken) counts ready = record {
      zero_count = w.zero_count.1;
      untaken = others c taken ready w.distinct.0 w.untaken.1;
      distinct = w.distinct.1;
    } in
    record {
      counted = λ k. omega (
        arith,
        count_of-relax k (outgoing nodes c) counts ready,
        d.counted k,
        opens-take nodes k c taken untaken,
      );
      spent = λ k h. omega (arith, count_of-relax k (outgoing nodes c) counts ready, spent k h);
      waits = relax-Waits (c ∷ taken) (outgoing nodes c) counts ready spent rest;
      ordered = (omega (arith, d.counted c, zero_c), d.ordered);
      once = (untaken, d.once);
    }

pub drain-Draining :
    (nodes : List ActionNode) (fuel : ℕ) (counts : Counts) (ready taken : List ℕ)
    (r : List ℕ × Counts)
    → Draining nodes counts ready taken
    → drain nodes fuel counts ready taken ≡ some r
    → Draining nodes r.1 [] r.0
unfolding drain
drain-Draining nodes fuel counts [] taken r d h =
    let e : (taken, counts) ≡ r = ground (arith, h) in rw (← e) d
drain-Draining nodes zero counts (c ∷ ready) taken r d h = cc
drain-Draining nodes (suc fuel) counts (c ∷ ready) taken r d h =
    drain-Draining nodes fuel (relax (outgoing nodes c) counts ready).0
      (relax (outgoing nodes c) counts ready).1 (c ∷ taken) r
      (take-Draining nodes counts c ready taken d) h

-- an entry is of the identifier
abbrev has_entry : ℕ → Counts → Bool
has_entry id [] = false
has_entry id ((k, n) ∷ rest) = eqb k id || has_entry id rest

-- No identifier has two entries.
abbrev IsDict : Counts → Type 0
IsDict [] = Unit {0}
IsDict ((k, n) ∷ rest) = (has_entry k rest ≡ false) × IsDict rest

has_entry-put_zero :
    (id j : ℕ) (counts : Counts)
    → has_entry j (put_zero id counts) ≡ (eqb id j || has_entry j counts)
has_entry-put_zero id j [] = refl
has_entry-put_zero id j ((k, n) ∷ rest) = ground (arith, has_entry-put_zero id j rest)

put_zero-IsDict : (id : ℕ) (counts : Counts) → IsDict counts → IsDict (put_zero id counts)
put_zero-IsDict id [] h = (refl, tt)
put_zero-IsDict id ((k, n) ∷ rest) (h, hs) = elim (Bool-cases (eqb k id)) [
  | inl same ↦ rw same (h, hs)
  | inr other ↦
      rw other (ground (arith, has_entry-put_zero id k rest, h, other), put_zero-IsDict id rest hs)
]

zeros-IsDict :
    (nodes : List ActionNode) (counts : Counts) → IsDict counts → IsDict (zeros nodes counts)
zeros-IsDict [] counts h = h
zeros-IsDict (n ∷ nodes) counts h =
    zeros-IsDict nodes (put_zero n.id counts) (put_zero-IsDict n.id counts h)

has_entry-add_one :
    (id j : ℕ) (counts : Counts)
    → has_entry j (add_one id counts) ≡ (eqb id j || has_entry j counts)
has_entry-add_one id j [] = refl
has_entry-add_one id j ((k, n) ∷ rest) = ground (arith, has_entry-add_one id j rest)

add_one-IsDict : (id : ℕ) (counts : Counts) → IsDict counts → IsDict (add_one id counts)
add_one-IsDict id [] h = (refl, tt)
add_one-IsDict id ((k, n) ∷ rest) (h, hs) = elim (Bool-cases (eqb k id)) [
  | inl same ↦ rw same (h, hs)
  | inr other ↦
      rw other (ground (arith, has_entry-add_one id k rest, h, other), add_one-IsDict id rest hs)
]

add_each-IsDict :
    (id : ℕ) (deps : List ℕ) (counts : Counts) → IsDict counts → IsDict (add_each id deps counts)
add_each-IsDict id [] counts h = h
add_each-IsDict id (d ∷ deps) counts h =
    add_each-IsDict id deps (add_one id counts) (add_one-IsDict id counts h)

add_nodes-IsDict :
    (nodes : List ActionNode) (counts : Counts) → IsDict counts → IsDict (add_nodes nodes counts)
add_nodes-IsDict [] counts h = h
add_nodes-IsDict (n ∷ nodes) counts h =
    add_nodes-IsDict nodes (add_each n.id n.depends_on counts)
      (add_each-IsDict n.id n.depends_on counts h)

pub incoming-IsDict : (nodes : List ActionNode) → IsDict (incoming nodes)
unfolding incoming
incoming-IsDict nodes = add_nodes-IsDict nodes (zeros nodes []) (zeros-IsDict nodes [] tt)

zero_keys_has :
    (j : ℕ) (counts : Counts) → has_entry j counts ≡ false → contains j (zero_keys counts) ≡ false
zero_keys_has j [] h = refl
zero_keys_has j ((k, n) ∷ rest) h = ground (arith, h, zero_keys_has j rest)

-- A key that is not the first entry's reads the rest.
zero_keys_rest :
    (k n : ℕ) (rest : Counts) (ids : List ℕ)
    → contains k ids ≡ false
    → All (λ j. count_of j rest ≡ 0) ids
    → All (λ j. count_of j ((k, n) ∷ rest) ≡ 0) ids
zero_keys_rest k n rest [] c h = tt
zero_keys_rest k n rest (j ∷ ids) c (h, hs) =
    (ground (arith, c, h), zero_keys_rest k n rest ids (ground (arith, c)) hs)

zero_keys_count :
    (counts : Counts) → IsDict counts → All (λ j. count_of j counts ≡ 0) (zero_keys counts)
zero_keys_count [] h = tt
zero_keys_count ((k, n) ∷ rest) (h, hs) =
    let off = zero_keys_has k rest h in
    let later = zero_keys_rest k n rest (zero_keys rest) off (zero_keys_count rest hs) in
    elim (Bool-cases (eqb n 0)) [
      | inl none_open ↦
          rw none_open (ground (arith, (eqb_iff k k).1 refl, (eqb_iff n 0).0 none_open), later)
      | inr some_open ↦ rw some_open later
    ]

zero_keys-IsDistinct : (counts : Counts) → IsDict counts → IsDistinct (zero_keys counts)
zero_keys-IsDistinct [] h = tt
zero_keys-IsDistinct ((k, n) ∷ rest) (h, hs) = elim (Bool-cases (eqb n 0)) [
  | inl none_open ↦ rw none_open (zero_keys_has k rest h, zero_keys-IsDistinct rest hs)
  | inr some_open ↦ rw some_open (zero_keys-IsDistinct rest hs)
]

none_taken : (ids : List ℕ) → All (λ k. contains k [] ≡ false) ids
none_taken [] = tt
none_taken (k ∷ ids) = (refl, none_taken ids)

pub start-Draining :
    (nodes : List ActionNode) → Draining nodes (incoming nodes) (zero_keys (incoming nodes)) []
start-Draining nodes = record {
  counted = λ k. count_of-incoming k nodes;
  spent = λ k h. cc;
  waits = record {
    zero_count = zero_keys_count (incoming nodes) (incoming-IsDict nodes);
    untaken = none_taken (zero_keys (incoming nodes));
    distinct = zero_keys-IsDistinct (incoming nodes) (incoming-IsDict nodes);
  };
  ordered = tt;
  once = tt;
}

-- the dependencies of the nodes with the identifier are all in the list
abbrev pub follows_all : List ActionNode → ℕ → List ℕ → Bool
follows_all nodes k rest =
    all (λ n. not (eqb n.id k) || all (λ d. contains d rest) n.depends_on) nodes

-- Each stands before all its dependencies.
abbrev pub IsReverseTopological : List ActionNode → List ℕ → Type 0
IsReverseTopological nodes [] = Unit {0}
IsReverseTopological nodes (k ∷ rest) =
    (follows_all nodes k rest ≡ true) × IsReverseTopological nodes rest

none_open : (deps rest : List ℕ) → open_deps deps rest ≡ 0 → all (λ d. contains d rest) deps ≡ true
none_open [] rest h = refl
none_open (d ∷ deps) rest h = ground (arith, h, none_open deps rest)

follows :
    (nodes : List ActionNode) (k : ℕ) (rest : List ℕ)
    → opens nodes k rest ≡ 0
    → follows_all nodes k rest ≡ true
follows [] k rest h = refl
follows (n ∷ nodes) k rest h = ground (arith, h, follows nodes k rest, none_open n.depends_on rest)

ordered_follows :
    (nodes : List ActionNode) (order : List ℕ)
    → IsOrdered nodes order
    → IsReverseTopological nodes order
ordered_follows nodes [] h = tt
ordered_follows nodes (k ∷ rest) (h, hs) = (follows nodes k rest h, ordered_follows nodes rest hs)

seen_length :
    (nodes : List ActionNode) (r : List ℕ × Counts) (xs : List ℕ)
    → all_seen nodes (some r) ≡ ok xs
    → length r.0 ≡ length nodes
seen_length nodes (order, counts) xs h = ground (arith, h)

-- Where reverse_topo gives an order, it has as many actions as the plan, each once, and each before
-- every action that it depends on.
pub reverse_topo_order :
    (nodes : List ActionNode) (order : List ℕ)
    → reverse_topo nodes ≡ ok order
    → (length order ≡ length nodes) × IsDistinct order × IsReverseTopological nodes order
unfolding reverse_topo validate_acyclic kahn
reverse_topo_order nodes order h =
    let (u, valid, same) = >>=-eq-ok (validate_acyclic nodes) (λ x. ok (drained (kahn nodes))) h in
    let (v, edges, checked) = >>=-eq-ok (check_edges (map (λ n. n.id) nodes) nodes) _ valid in
    let (xs, seen, done) = >>=-eq-ok (all_seen nodes (kahn nodes)) (λ x. ok tt) checked in
    let (r, ends, k, l) = kahn_ends nodes in
    let d =
      drain-Draining nodes (length nodes) (incoming nodes) (zero_keys (incoming nodes)) [] r
        (start-Draining nodes) ends in
    let e : r.0 ≡ order = ground (arith, same, ends) in
    let full : length r.0 ≡ length nodes = seen_length nodes r xs (rw ends at seen) in
    rw (← e) (full, d.once, ordered_follows nodes r.0 d.ordered)
