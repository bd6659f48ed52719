-- ===== src/Runtime/Dag/Kahn/Counting.antt =====
-- vyomel/runtime/dag.py: what the counts of the search are.
use vyomel.Prelude.{
  ℕ, ap, sym, suc, ◌+◌, ◌-◌, ◌≡◌, refl, true, false, List, [], ◌∷◌, ◌++◌, eqb, eqb_iff, contains,
  nat_eq, if◌then◌else◌, arith, Bool-cases, inl, inr, ◌∙◌,
}
use vyomel.Runtime.Dag.{ActionNode}
use vyomel.Runtime.Dag.Kahn.{
  Counts, count_of, put_zero, add_one, sub_one, zeros, add_each, add_nodes, incoming, edges_from,
  outgoing, relax,
}

-- how many of the dependencies are not among those taken
abbrev pub open_deps : List ℕ → List ℕ → ℕ
open_deps [] taken = 0
open_deps (d ∷ deps) taken =
    if contains d taken then open_deps deps taken else suc (open_deps deps taken)

-- over the nodes with the identifier
abbrev pub opens : List ActionNode → ℕ → List ℕ → ℕ
opens [] id taken = 0
opens (n ∷ nodes) id taken =
    (if eqb n.id id then open_deps n.depends_on taken else 0) + opens nodes id taken

abbrev pub occurrences : ℕ → List ℕ → ℕ
occurrences id [] = 0
occurrences id (x ∷ xs) = if eqb x id then suc (occurrences id xs) else occurrences id xs

pub count_of-put_zero :
    (k id : ℕ) (counts : Counts) → count_of k counts ≡ 0 → count_of k (put_zero id counts) ≡ 0
count_of-put_zero k id [] h = ground arith
count_of-put_zero k id ((j, n) ∷ rest) h = ground (arith, h, count_of-put_zero k id rest)

pub count_of-zeros :
    (k : ℕ) (nodes : List ActionNode) (counts : Counts)
    → count_of k counts ≡ 0
    → count_of k (zeros nodes counts) ≡ 0
count_of-zeros k [] counts h = h
count_of-zeros k (n ∷ nodes) counts h =
    count_of-zeros k nodes (put_zero n.id counts) (count_of-put_zero k n.id counts h)

pub count_of-add_one :
    (k id : ℕ) (counts : Counts)
    → count_of k (add_one id counts) ≡ count_of k counts + (if eqb id k then 1 else 0)
count_of-add_one k id [] = ground arith
count_of-add_one k id ((j, n) ∷ rest) = ground (arith, count_of-add_one k id rest)

pub count_of-add_each :
    (k id : ℕ) (deps : List ℕ) (counts : Counts)
    → count_of k (add_each id deps counts)
      ≡ count_of k counts + (if eqb id k then open_deps deps [] else 0)
count_of-add_each k id [] counts = ground arith
count_of-add_each k id (d ∷ deps) counts =
    ground (arith, count_of-add_each k id deps (add_one id counts), count_of-add_one k id counts)

pub count_of-add_nodes :
    (k : ℕ) (nodes : List ActionNode) (counts : Counts)
    → count_of k (add_nodes nodes counts) ≡ count_of k counts + opens nodes k []
count_of-add_nodes k [] counts = omega arith
count_of-add_nodes k (n ∷ nodes) counts = omega (
  arith,
  count_of-add_nodes k nodes (add_each n.id n.depends_on counts),
  count_of-add_each k n.id n.depends_on counts,
)

pub count_of-incoming :
    (k : ℕ) (nodes : List ActionNode) → count_of k (incoming nodes) ≡ opens nodes k []
unfolding incoming
count_of-incoming k nodes =
    omega (arith, count_of-add_nodes k nodes (zeros nodes []), count_of-zeros k nodes [] refl)

pub count_of-sub_one :
    (k id : ℕ) (counts : Counts)
    → count_of k (sub_one id counts) ≡ count_of k counts - (if eqb id k then 1 else 0)
count_of-sub_one k id [] = ground arith
count_of-sub_one k id ((j, n) ∷ rest) = ground (arith, count_of-sub_one k id rest)

pub count_of-relax :
    (k : ℕ) (out : List ℕ) (counts : Counts) (ready : List ℕ)
    → count_of k (relax out counts ready).0 ≡ count_of k counts - occurrences k out
unfolding relax
count_of-relax k [] counts ready = omega arith
count_of-relax k (x ∷ out) counts ready =
    let hit = eqb (count_of x counts) 1 in
    let later = count_of-relax k out (sub_one x counts) (if hit then ready ++ x ∷ [] else ready) in
    let now = count_of-sub_one k x counts in
    elim (Bool-cases (eqb x k)) [
      | inl same ↦ rw same (omega (arith, later, rw same at now))
      | inr other ↦ rw other (omega (arith, later, rw other at now))
    ]

pub occurrences-append :
    (k : ℕ) (xs ys : List ℕ) → occurrences k (xs ++ ys) ≡ occurrences k xs + occurrences k ys
occurrences-append k [] ys = omega arith
occurrences-append k (x ∷ xs) ys = ground (arith, occurrences-append k xs ys)

pub occurrences-edges_from :
    (k dep id : ℕ) (deps : List ℕ)
    → occurrences k (edges_from dep id deps) ≡ (if eqb id k then occurrences dep deps else 0)
occurrences-edges_from k dep id [] = ground arith
occurrences-edges_from k dep id (d ∷ deps) = ground (arith, occurrences-edges_from k dep id deps)

pub open_deps-take :
    (c : ℕ) (taken deps : List ℕ)
    → contains c taken ≡ false
    → open_deps deps taken ≡ open_deps deps (c ∷ taken) + occurrences c deps
open_deps-take c taken [] h = omega arith
open_deps-take c taken (d ∷ deps) h =
    let ih = open_deps-take c taken deps h in
    elim (Bool-cases (eqb d c)) [
      | inl same ↦
          let e : d ≡ c = (eqb_iff d c).0 same in
          let new : contains d taken ≡ false = ap (λ (x : ℕ). contains x taken) e ∙ h in
          let swap : eqb c d ≡ true = (eqb_iff c d).1 (sym e) in
          rw (new, same, swap) (omega (arith, ih))
      | inr other ↦
          let swap : eqb c d ≡ false = ground (arith, other) in ground (arith, ih, other, swap)
    ]

pub opens-take :
    (nodes : List ActionNode) (k c : ℕ) (taken : List ℕ)
    → contains c taken ≡ false
    → opens nodes k taken ≡ opens nodes k (c ∷ taken) + occurrences k (outgoing nodes c)
unfolding outgoing
opens-take [] k c taken h = omega arith
opens-take (n ∷ nodes) k c taken h = ground (
  arith,
  opens-take nodes k c taken h,
  open_deps-take c taken n.depends_on h,
  occurrences-append k (edges_from c n.id n.depends_on) (outgoing nodes c),
  occurrences-edges_from k c n.id n.depends_on,
)
