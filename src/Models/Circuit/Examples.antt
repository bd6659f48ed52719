-- ===== src/Models/Circuit/Examples.antt =====
-- Circuit breakers at concrete inputs.
use vyomel.Prelude.{ℕ, ◌≢◌, refl, false, some, List, [], ◌∷◌, codes, arith}
use vyomel.Models.Circuit.{
  closed, opened, CircuitBreaker, new_breaker, allow, record_success, record_failure, answer,
  raises, ModelProvider, complete,
}
use vyomel.Models.Circuit.Breaker.{IsValid, breaker_stays-IsValid}
use vyomel.Models.Circuit.Failover.{Completes, complete_exact}

-- A breaker of two failures, that opened at 10.
abbrev tripped : CircuitBreaker
tripped = record new_breaker {
  failure_threshold = 2;
  window_size = 3;
  open_for = 60;
  failures = 2;
  outcomes = false ∷ false ∷ [];
  opened_at = some 10;
  state = opened;
}

tripped-IsValid : IsValid tripped
tripped-IsValid = record {
  window = ground arith;
  bounded = ground arith;
  tripped = λ k. refl;
  since = λ k. ground arith;
}

breaker_stays-IsValid_example :
    IsValid (allow 30 tripped).1
    × IsValid (record_success tripped)
    × IsValid (record_failure 30 tripped)
breaker_stays-IsValid_example = breaker_stays-IsValid 30 tripped tripped-IsValid

not_closed : opened ≢ closed
not_closed e = cc

-- The first provider's breaker is open, the second raises, the third answers.
abbrev providers : List (ModelProvider ℕ)
providers =
    record { name = codes "a"; reply = answer 1 }
    ∷ record { name = codes "b"; reply = raises }
    ∷ record { name = codes "c"; reply = answer 3 }
    ∷ []

complete_exact_example :
    Completes
      (λ i. (30, 31))
      0
      (λ name. tripped)
      providers
      (complete (λ i. (30, 31)) 0 providers (λ name. tripped))
complete_exact_example = complete_exact (λ i. (30, 31)) 0 providers (λ name. tripped)
