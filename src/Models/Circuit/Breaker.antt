-- ===== src/Models/Circuit/Breaker.antt =====
-- When the breaker of vyomel/models/circuit.py lets a call pass.
use vyomel.Prelude.{
  ℕ, suc, ◌+◌, ◌-◌, ◌≤◌, ◌<◌, ◌≡◌, ◌≢◌, refl, Bool, true, false, ◌&&◌, none, some, List, [], ◌∷◌,
  ◌++◌, ltb, leb, eqb, length, drop, length-append, length-drop, arith, ◌⊎◌, inl, inr, Bool-cases,
  ◌↔◌,
}
use vyomel.Models.Circuit.{
  closed, opened, half_open, CircuitBreaker, is_open, is_over, maybe_half_open, allow, trim, misses,
  half_missed, trips, record_success, record_failure,
}

misses-append : (xs ys : List Bool) → misses (xs ++ ys) ≡ misses xs + misses ys
misses-append [] ys = omega arith
misses-append (x ∷ xs) ys = ground (arith, misses-append xs ys)

misses-drop : (xs : List Bool) → misses xs ≤ suc (misses (drop 1 xs))
misses-drop [] = omega arith
misses-drop (x ∷ xs) = ground arith

half_missed_iff :
    (xs : List Bool)
    → (half_missed xs ≡ true) ↔ ((0 < length xs) × (length xs ≤ misses xs + misses xs))
half_missed_iff [] = ground arith
half_missed_iff (x ∷ xs) = ground arith

-- One call counted.
trimmed_one :
    (w : ℕ) (x : Bool) (xs : List Bool)
    → 0 < w
    → length xs ≤ w
    → ((length xs < w) × (trim w (xs ++ x ∷ []) ≡ xs ++ x ∷ []))
      ⊎ ((length xs ≡ w) × (trim w (xs ++ x ∷ []) ≡ drop 1 (xs ++ x ∷ [])))
trimmed_one w x xs h k =
    let n = length-append xs (x ∷ []) in
    elim (Bool-cases (ltb w (length (xs ++ x ∷ [])))) [
      | inl e ↦
          let z : eqb w 0 ≡ false = ground (arith, h) in
          let m : length xs ≡ w = ground (arith, e, n, k) in
          let d : length (xs ++ x ∷ []) - w ≡ 1 = ground (arith, n, m) in inr (m, rw (e, z, d) refl)
      | inr e ↦ inl (ground (arith, e, n), rw (e) refl)
    ]

length-trim :
    (w : ℕ) (x : Bool) (xs : List Bool) → 0 < w → length xs ≤ w → length (trim w (xs ++ x ∷ [])) ≤ w
length-trim w x xs h k = elim (trimmed_one w x xs h k) [
  | inl (m, e) ↦ rw (e) (ground (arith, m, length-append xs (x ∷ [])))
  | inr (m, e) ↦ rw (e) (ground (arith, m, length-append xs (x ∷ []), length-drop 1 (xs ++ x ∷ [])))
]

-- A failure does not undo what trips a breaker: in a full window it replaces at most another failure.
trips_again :
    (t w f : ℕ) (xs : List Bool)
    → 0 < w
    → length xs ≤ w
    → trips t w f xs ≡ true
    → trips t w (suc f) (trim w (xs ++ false ∷ [])) ≡ true
trips_again t w f xs h k e = elim (trimmed_one w false xs h k) [
  | inl (m, r) ↦ ground (arith, e, m)
  | inr (m, r) ↦
      let ys = xs ++ false ∷ [] in
      let n = length-append xs (false ∷ []) in
      let d = length-drop 1 ys in
      let c = misses-append xs (false ∷ []) in
      let b = misses-drop ys in
      let z = half_missed_iff xs in
      let z' = half_missed_iff (drop 1 ys) in rw (r) (ground (arith, e, m, h, n, d, c, b, z, z'))
]

-- What a breaker is between its calls.
pub record IsValid (b : CircuitBreaker) : Type 0 where
  pub window : 0 < b.window_size
  pub bounded : length b.outcomes ≤ b.window_size
  -- a breaker that is not closed is one that the counts would trip
  pub tripped :
      b.state ≢ closed → trips b.failure_threshold b.window_size b.failures b.outcomes ≡ true
  pub since : is_open b.state ≡ true → b.opened_at ≢ none

maybe_half_open-IsValid :
    (now : ℕ) (b : CircuitBreaker) → IsValid b → IsValid (maybe_half_open now b)
maybe_half_open-IsValid now b v =
    elim (Bool-cases (is_open b.state && is_over b.open_for now b.opened_at)) [
      | inl e ↦ rw (e) (record {
        window = v.window;
        bounded = v.bounded;
        tripped = λ k. v.tripped (ground (arith, e));
        since = λ k. ground (arith, k);
      })
      | inr e ↦ rw (e) v
    ]

record_success-IsValid : (b : CircuitBreaker) → IsValid b → IsValid (record_success b)
unfolding record_success
record_success-IsValid b v = record {
  window = v.window;
  bounded = length-trim b.window_size true b.outcomes v.window v.bounded;
  tripped = λ k. elim (k refl) [ ];
  since = λ k. cc;
}

record_failure-IsValid : (now : ℕ) (b : CircuitBreaker) → IsValid b → IsValid (record_failure now b)
unfolding record_failure
record_failure-IsValid now b v =
    elim (Bool-cases (
      trips b.failure_threshold b.window_size (suc b.failures)
        (trim b.window_size (b.outcomes ++ false ∷ [])))) [
          | inl e ↦ rw (e) (record {
            window = v.window;
            bounded = length-trim b.window_size false b.outcomes v.window v.bounded;
            tripped = λ k. e;
            since = λ k. λ j. ground (arith, j);
          })
          | inr e ↦ rw (e) (record {
            window = v.window;
            bounded = length-trim b.window_size false b.outcomes v.window v.bounded;
            tripped = λ k.
                let z =
                  trips_again b.failure_threshold b.window_size b.failures b.outcomes v.window
                    v.bounded (v.tripped k) in
                cc;
            since = v.since;
          })
        ]

-- Each call keeps a breaker valid.
pub breaker_stays-IsValid :
    (now : ℕ) (b : CircuitBreaker)
    → IsValid b
    → IsValid (allow now b).1 × IsValid (record_success b) × IsValid (record_failure now b)
unfolding allow
breaker_stays-IsValid now b v =
    (maybe_half_open-IsValid now b v, record_success-IsValid b v, record_failure-IsValid now b v)

-- A valid breaker that is not closed opens again at the next failure, whatever opened it before: the
-- trial call that fails when it is half open is enough.
pub failure_reopens :
    (now : ℕ) (b : CircuitBreaker)
    → IsValid b
    → b.state ≢ closed
    → ((record_failure now b).state ≡ opened) × ((record_failure now b).opened_at ≡ some now)
unfolding record_failure
failure_reopens now b v k =
    rw
      (trips_again b.failure_threshold b.window_size b.failures b.outcomes v.window v.bounded
        (v.tripped k))
      (refl, refl)

-- From the moment that a breaker opens it refuses every call until its time is over, and lets the
-- first call after that pass, half open.
pub open_refuses :
    (now at : ℕ) (b : CircuitBreaker)
    → b.state ≡ opened
    → b.opened_at ≡ some at
    → ((now < at + b.open_for) × (allow now b ≡ (false, b)))
      ⊎ ((at + b.open_for ≤ now) × (allow now b ≡ (true, record b { state = half_open })))
unfolding allow
open_refuses now at b o e = elim (Bool-cases (leb (at + b.open_for) now)) [
  | inl k ↦ inr (ground (arith, k), rw (o, e, k) refl)
  | inr k ↦ inl (ground (arith, k), rw (o, e, k) refl)
]
