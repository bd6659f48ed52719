-- ===== src/Runtime/Retry.antt =====
-- vyomel/runtime/retry.py: the delay before an action is READY again, in microseconds. The default backoff has
-- whole numbers of seconds and the factor 2, so the power of it is exact.
use vyomel.Prelude.{ℕ, suc, zero, ◌*◌, ◌^◌, ◌≤◌, min, ◌≡◌, Bool, if◌then◌else◌, arith}
use native.Mathlib.Nat.{pow-suc}
use vyomel.Core.Errors.{Result, ok, err, raise_class, value_error}

-- `Backoff`; the factor is a whole number
pub record Backoff : Type 0 where
  pub base : ℕ
  pub factor : ℕ
  pub cap_time : ℕ

abbrev pub default_backoff : Backoff
default_backoff = record { base = 1000000; factor = 2; cap_time = 30000000 }

-- `min(cap_s, base_s * factor ** (attempt - 1))`, where `attempt` is one more than the rounds before it
unfoldable pub capped : Backoff → ℕ → ℕ
capped b rounds = min b.cap_time (b.base * b.factor ^ rounds)

-- `delay_s`; `pick` is the product of `picker()` and a delay
unfoldable pub delay : (ℕ → ℕ) → Backoff → Bool → ℕ → Result ℕ
delay pick b jitter zero = err (raise_class value_error)
delay pick b jitter (suc rounds) = ok (if jitter then pick (capped b rounds) else capped b rounds)

-- The delay before jitter never falls from one attempt to the next, never exceeds the cap, and doubles until it meets the cap; with jitter a delay is at most that.
pub delay_grows :
    (rounds : ℕ)
    → (capped default_backoff (suc rounds) ≡ min 30000000 (2 * capped default_backoff rounds))
      × (capped default_backoff rounds ≤ capped default_backoff (suc rounds))
      × (capped default_backoff rounds ≤ 30000000)
unfolding capped
delay_grows rounds = ground (arith, pow-suc 2 rounds)
