-- ===== src/Models/Circuit/Failover.antt =====
-- `FailoverProvider.complete` of vyomel/models/circuit.py: which answer it gives.
use vyomel.Prelude.{ℕ, suc, ◌≡◌, refl, true, false, List, [], ◌∷◌, ◌++◌, ◌⊎◌, inl, inr, Bool-cases}
use vyomel.Core.Errors.{Result, ok, err}
use vyomel.Models.Circuit.{
  allow, record_success, record_failure, Reply, answer, raises, ModelProvider, Breakers, put,
  all_failed, complete,
}

module _ {ℓ} {A : Type ℓ} (clock : ℕ → ℕ × ℕ) where
  -- Providers that gave no answer, from an index and the breakers before them to those behind them:
  -- each was passed over for its open breaker, or was asked and raised.
  pub data Passed (j : ℕ) (after : Breakers) : ℕ → Breakers → List (ModelProvider A) → Type ℓ where
    none_left : Passed j after j after []
    skipped :
        {i : ℕ} {breakers : Breakers} {ps : List (ModelProvider A)} (p : ModelProvider A)
        → (allow (clock i).0 (breakers p.name)).0 ≡ false
        → Passed j after (suc i) (put p.name (allow (clock i).0 (breakers p.name)).1 breakers) ps
        → Passed j after i breakers (p ∷ ps)
    failed :
        {i : ℕ} {breakers : Breakers} {ps : List (ModelProvider A)} (p : ModelProvider A)
        → (allow (clock i).0 (breakers p.name)).0 ≡ true
        → p.reply ≡ raises
        → Passed j after
            (suc i)
            (put p.name
              (record_failure (clock i).1 (allow (clock i).0 (breakers p.name)).1)
              breakers)
            ps
        → Passed j after i breakers (p ∷ ps)

  -- What `complete` does from an index on: either the first provider that is let through and answers
  -- gives the answer, and its breaker counts a success, or no provider is both.
  abbrev pub Completes : ℕ → Breakers → List (ModelProvider A) → Result A × Breakers → Type ℓ
  Completes i breakers ps r =
      ((before : List (ModelProvider A)) × (p : ModelProvider A) × (after : List (ModelProvider A))
        × (a : A) × (j : ℕ) × (now : Breakers) × (ps ≡ before ++ p ∷ after)
        × Passed j now i breakers before
        × ((allow (clock j).0 (now p.name)).0 ≡ true)
        × (p.reply ≡ answer a)
        × (r ≡ (ok a, put p.name (record_success (allow (clock j).0 (now p.name)).1) now)))
      ⊎ ((j : ℕ) × (now : Breakers) × Passed j now i breakers ps × (r ≡ (err all_failed, now)))

  Reply-cases : (r : Reply A) → (r ≡ raises) ⊎ ((a : A) × (r ≡ answer a))
  Reply-cases raises = inl refl
  Reply-cases (answer a) = inr (a, refl)

  pass_on :
      (i : ℕ) (breakers next : Breakers) (p : ModelProvider A) (ps : List (ModelProvider A))
      (q r : Result A × Breakers)
      → q ≡ r
      → ((j : ℕ) (now : Breakers) (qs : List (ModelProvider A))
          → Passed j now (suc i) next qs
          → Passed j now i breakers (p ∷ qs))
      → Completes (suc i) next ps r
      → Completes i breakers (p ∷ ps) q
  pass_on i breakers next p ps q r h f (inl (before, o, after, a, j, now, e, m, k, l, w)) =
      inl (p ∷ before, o, after, a, j, now, rw (e) refl, f j now before m, k, l, rw (h) w)
  pass_on i breakers next p ps q r h f (inr (j, now, m, w)) = inr (j, now, f j now ps m, rw (h) w)

  -- `complete` gives the answer of the first provider in the order given that its breaker lets through
  -- and that answers, and every provider before it was passed over or raised; where there is none it
  -- raises the retryable error. It asks no provider that is not in the list, and none behind the first
  -- that answers.
  pub complete_exact :
      (i : ℕ) (ps : List (ModelProvider A)) (breakers : Breakers)
      → Completes i breakers ps (complete clock i ps breakers)
  unfolding complete
  complete_exact i [] breakers = inr (i, breakers, none_left, refl)
  complete_exact i (p ∷ ps) breakers =
      let b = (allow (clock i).0 (breakers p.name)).1 in
      let fails = put p.name (record_failure (clock i).1 b) breakers in
      let skips = put p.name b breakers in
      elim (Bool-cases (allow (clock i).0 (breakers p.name)).0) [
        | inl e ↦ elim (Reply-cases p.reply) [
          | inl k ↦
              pass_on i breakers fails p ps (complete clock i (p ∷ ps) breakers)
                (complete clock (suc i) ps fails) (rw (e, k) refl) (λ j now qs m. failed p e k m)
                (complete_exact (suc i) ps fails)
          | inr (a, k) ↦ inl ([], p, ps, a, i, breakers, refl, none_left, e, k, rw (e, k) refl)
        ]
        | inr e ↦
            pass_on i breakers skips p ps (complete clock i (p ∷ ps) breakers)
              (complete clock (suc i) ps skips) (rw (e) refl) (λ j now qs m. skipped p e m)
              (complete_exact (suc i) ps skips)
      ]
