-- ===== src/Runtime/Dag/Kahn/Waiting.antt =====
-- vyomel/runtime/dag.py: what waits in the queue of the search.
use vyomel.Prelude.{
  ℕ, ap, sym, ◌≡◌, refl, Bool, true, false, List, [], ◌∷◌, ◌++◌, eqb, eqb_iff, contains, nat_eq,
  All, All-map, if◌then◌else◌, arith, Bool-cases, inl, inr, ◌∙◌,
}
use vyomel.Runtime.Dag.{ActionNode}
use vyomel.Runtime.Dag.Kahn.{Counts, count_of, sub_one, relax}
use vyomel.Runtime.Dag.Kahn.Counting.{opens, count_of-sub_one}

-- The list has no identifier twice.
abbrev pub IsDistinct : List ℕ → Type 0
IsDistinct [] = Unit {0}
IsDistinct (x ∷ xs) = (contains x xs ≡ false) × IsDistinct xs

-- Each one is taken when all the dependencies of the nodes with its identifier have been.
abbrev pub IsOrdered : List ActionNode → List ℕ → Type 0
IsOrdered nodes [] = Unit {0}
IsOrdered nodes (k ∷ taken) = (opens nodes k taken ≡ 0) × IsOrdered nodes taken

-- What waits counts 0, has not been taken, and waits once.
pub record Waits (taken : List ℕ) (counts : Counts) (ready : List ℕ) : Type 0 where
  pub zero_count : All (λ k. count_of k counts ≡ 0) ready
  pub untaken : All (λ k. contains k taken ≡ false) ready
  pub distinct : IsDistinct ready

-- What was taken counts 0.
abbrev pub Spent : List ℕ → Counts → Type 0
Spent taken counts = (k : ℕ) → contains k taken ≡ true → count_of k counts ≡ 0

pub All-at :
    (f : ℕ → ℕ) (n : ℕ) (xs : List ℕ) → All (λ k. f k ≡ 0) xs → contains n xs ≡ true → f n ≡ 0
All-at f n [] h c = cc
All-at f n (x ∷ xs) (h, hs) c = elim (Bool-cases (eqb x n)) [
  | inl same ↦ let e : x ≡ n = (eqb_iff x n).0 same in ap f (sym e) ∙ h
  | inr other ↦ All-at f n xs hs (rw other at c)
]

pub All-snoc {ℓ} : (P : ℕ → Type ℓ) (xs : List ℕ) (x : ℕ) → All P xs → P x → All P (xs ++ x ∷ [])
All-snoc P [] x h p = (p, tt)
All-snoc P (y ∷ ys) x (h, hs) p = (h, All-snoc P ys x hs p)

contains-snoc :
    (y x : ℕ) (xs : List ℕ)
    → contains y xs ≡ false
    → eqb x y ≡ false
    → contains y (xs ++ x ∷ []) ≡ false
contains-snoc y x [] h e = ground (arith, e)
contains-snoc y x (z ∷ xs) h e = ground (arith, h, e, contains-snoc y x xs)

IsDistinct-snoc :
    (xs : List ℕ) (x : ℕ) → IsDistinct xs → contains x xs ≡ false → IsDistinct (xs ++ x ∷ [])
IsDistinct-snoc [] x h c = (refl, tt)
IsDistinct-snoc (y ∷ ys) x (h, hs) c =
    (contains-snoc y x ys h (ground (arith, c)), IsDistinct-snoc ys x hs (ground (arith, c)))

still_zero :
    (k id : ℕ) (counts : Counts) → count_of k counts ≡ 0 → count_of k (sub_one id counts) ≡ 0
still_zero k id counts h = omega (arith, count_of-sub_one k id counts)

one_less : (n : ℕ) (counts : Counts) → count_of n counts ≡ 1 → count_of n (sub_one n counts) ≡ 0
one_less n counts h = ground (arith, count_of-sub_one n n counts, h)

not_zero : (b : Bool) (n : ℕ) → n ≡ 1 → (b ≡ true → n ≡ 0) → b ≡ false
not_zero true n h k = absurd (omega (arith, h, k refl))
not_zero false n h k = refl

pub relax-Waits :
    (taken out : List ℕ) (counts : Counts) (ready : List ℕ)
    → Spent taken counts
    → Waits taken counts ready
    → Waits taken (relax out counts ready).0 (relax out counts ready).1
unfolding relax
relax-Waits taken [] counts ready spent w = w
relax-Waits taken (x ∷ out) counts ready spent w =
    let later : Spent taken (sub_one x counts) = λ k c. still_zero k x counts (spent k c) in
    let lower : All (λ k. count_of k (sub_one x counts) ≡ 0) ready =
      All-map (λ k. count_of k counts ≡ 0) (λ k. count_of k (sub_one x counts) ≡ 0) ready
        (λ k. still_zero k x counts) w.zero_count in
    let queue = if eqb (count_of x counts) 1 then ready ++ x ∷ [] else ready in
    let ahead : Waits taken (sub_one x counts) queue =
      elim (Bool-cases (eqb (count_of x counts) 1)) [
        | inl hit ↦
            let one : count_of x counts ≡ 1 = (eqb_iff (count_of x counts) 1).0 hit in
            let fresh : contains x taken ≡ false =
              not_zero (contains x taken) (count_of x counts) one (spent x) in
            let new : contains x ready ≡ false =
              not_zero (contains x ready) (count_of x counts) one
                (All-at (λ k. count_of k counts) x ready w.zero_count) in
            let longer : Waits taken (sub_one x counts) (ready ++ x ∷ []) = record {
              zero_count =
                  All-snoc (λ k. count_of k (sub_one x counts) ≡ 0) ready x lower
                    (one_less x counts one);
              untaken = All-snoc (λ k. contains k taken ≡ false) ready x w.untaken fresh;
              distinct = IsDistinct-snoc ready x w.distinct new;
            } in
            rw hit longer
        | inr miss ↦
            let same : Waits taken (sub_one x counts) ready = record {
              zero_count = lower;
              untaken = w.untaken;
              distinct = w.distinct;
            } in
            rw miss same
      ] in
    relax-Waits taken out (sub_one x counts) queue later ahead

-- The waiting ones are no other than the first.
pub others :
    (c : ℕ) (taken ready : List ℕ)
    → contains c ready ≡ false
    → All (λ k. contains k taken ≡ false) ready
    → All (λ k. contains k (c ∷ taken) ≡ false) ready
others c taken [] h u = tt
others c taken (k ∷ ready) h (u, us) =
    (ground (arith, h, u), others c taken ready (ground (arith, h)) us)
