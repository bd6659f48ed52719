-- ===== src/Models/Circuit.antt =====
-- vyomel/models/circuit.py: the circuit breaker of a provider, and failover over several. A moment is
-- a number of microseconds; `datetime.now` is an argument of each call, as often as it is read. The
-- metrics are left out.
pub mod Breaker
pub mod Failover
mod Examples
use vyomel.Prelude.{
  ℕ, suc, ◌+◌, ◌-◌, Bool, true, false, not, ◌&&◌, ◌||◌, Option, none, some, List, [], ◌∷◌, ◌++◌,
  Text, codes, text_eq, ◌==◌, ltb, leb, eqb, length, drop, if◌then◌else◌,
}
use vyomel.Core.Errors.{VyomelError, Result, ok, err, make_error, vyomel_error, transient_io}

pub data BreakerState : Type 0 where
  closed : BreakerState
  opened : BreakerState
  half_open : BreakerState

pub record CircuitBreaker : Type 0 where
  pub failure_threshold : ℕ
  pub window_size : ℕ
  pub open_for : ℕ
  pub failures : ℕ
  pub outcomes : List Bool
  pub opened_at : Option ℕ
  pub state : BreakerState

abbrev pub is_open : BreakerState → Bool
is_open opened = true
is_open _ = false

-- a new breaker
abbrev pub new_breaker : CircuitBreaker
new_breaker = record {
  failure_threshold = 5;
  window_size = 20;
  open_for = 60000000;
  failures = 0;
  outcomes = [];
  opened_at = none;
  state = closed;
}

-- `now - opened_at >= open_for`, where there is an `opened_at`
abbrev pub is_over : ℕ → ℕ → Option ℕ → Bool
is_over open_for now none = false
is_over open_for now (some at) = leb (at + open_for) now

-- `_maybe_half_open`
abbrev pub maybe_half_open : ℕ → CircuitBreaker → CircuitBreaker
maybe_half_open now b =
    if is_open b.state && is_over b.open_for now b.opened_at
    then record b { state = half_open }
    else b

unfoldable pub allow : ℕ → CircuitBreaker → Bool × CircuitBreaker
allow now b = let c = maybe_half_open now b in (not (is_open c.state), c)

-- `outcomes[-n:]`; with no window the slice is the whole list
abbrev pub last_part : ℕ → List Bool → List Bool
last_part n xs = if eqb n 0 then xs else drop (length xs - n) xs

-- `_trim`
abbrev pub trim : ℕ → List Bool → List Bool
trim window_size xs = if ltb window_size (length xs) then last_part window_size xs else xs

abbrev pub misses : List Bool → ℕ
misses [] = 0
misses (x ∷ xs) = (if x then 0 else 1) + misses xs

-- `_error_rate() >= 0.5`
abbrev pub half_missed : List Bool → Bool
half_missed [] = false
half_missed (x ∷ xs) = leb (length (x ∷ xs)) (misses (x ∷ xs) + misses (x ∷ xs))

unfoldable pub record_success : CircuitBreaker → CircuitBreaker
record_success b = record b {
  failures = 0;
  outcomes = trim b.window_size (b.outcomes ++ true ∷ []);
  state = closed;
  opened_at = none;
}

-- the condition of `record_failure`, on what it has just counted
abbrev pub trips : ℕ → ℕ → ℕ → List Bool → Bool
trips failure_threshold window_size failures outcomes =
    leb failure_threshold failures || (leb window_size (length outcomes) && half_missed outcomes)

unfoldable pub record_failure : ℕ → CircuitBreaker → CircuitBreaker
record_failure now b =
    let failures = suc b.failures in
    let outcomes = trim b.window_size (b.outcomes ++ false ∷ []) in
    let c : CircuitBreaker = record b { failures = failures; outcomes = outcomes } in
    if trips b.failure_threshold b.window_size failures outcomes
    then record c { state = opened; opened_at = some now }
    else c

-- What a provider does with the request: an answer, or an exception of whatever class.
pub data Reply {ℓ} (A : Type ℓ) : Type ℓ where
  answer : A → Reply A
  raises : Reply A

pub record ModelProvider {ℓ} (A : Type ℓ) : Type ℓ where
  pub name : Text
  pub reply : Reply A

-- `FailoverProvider._breakers`: the breaker under each provider's name.
abbrev pub Breakers : Type 0
Breakers = Text → CircuitBreaker

abbrev pub put : Text → CircuitBreaker → Breakers → Breakers
put name b breakers = λ other. if other == name then b else breakers other

-- `all model providers failed or are circuit-open`
unfoldable pub all_failed : VyomelError
all_failed = make_error vyomel_error (some transient_io) (some true)

-- `FailoverProvider.complete`, from an index on. The clock gives, for each index, the moment at which
-- `allow` reads it and the moment at which `record_failure` does.
unfoldable pub complete {ℓ} :
    {A : Type ℓ} → (ℕ → ℕ × ℕ) → ℕ → List (ModelProvider A) → Breakers → Result A × Breakers
complete clock i [] breakers = (err all_failed, breakers)
complete clock i (p ∷ ps) breakers =
    let (passes, b) = allow (clock i).0 (breakers p.name) in
    let skipped = complete clock (suc i) ps (put p.name b breakers) in
    let failed = complete clock (suc i) ps (put p.name (record_failure (clock i).1 b) breakers) in
    if passes
    then (elim p.reply [
      | answer a ↦ (ok a, put p.name (record_success b) breakers)
      | raises ↦ failed
    ])
    else skipped
