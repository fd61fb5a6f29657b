-- ===== src/Breaker/Defs.antt =====
-- The state and the methods of `CircuitBreaker`, task4_router/router.py.
use mcp_llm_gateway_suite.Base.{ℕ, ◌+◌, Bool, true, false, Option, none, some, leb, if◌then◌else◌}

pub record Breaker : Type 0 where
  pub failure_threshold : ℕ
  pub recovery_time : ℕ
  pub consecutive_failures : ℕ
  pub opened_at : Option ℕ
  pub probe_in_flight : Bool

-- `opened` is the state "open".
pub data BreakerState : Type 0 where
  closed half_open opened : BreakerState

unfoldable pub state : Breaker → ℕ → BreakerState
state b now = elim b.opened_at [
  | none ↦ closed
  | some at ↦ if leb (at + b.recovery_time) now then half_open else opened
]

unfoldable pub allows_request : Breaker → ℕ → Bool × Breaker
unfolding state
allows_request b now = elim (state b now) [
  | closed ↦ (true, b)
  | opened ↦ (false, b)
  | half_open ↦
      if b.probe_in_flight then (false, b) else (true, record b { probe_in_flight = true })
]

unfoldable pub abandon_probe : Breaker → Breaker
abandon_probe b = record b { probe_in_flight = false }

unfoldable pub record_success : Breaker → Breaker
record_success b = record b { consecutive_failures = 0; opened_at = none; probe_in_flight = false }

unfoldable pub record_failure : Breaker → ℕ → Breaker
record_failure b now =
    let failures = b.consecutive_failures + 1 in
    record b {
      consecutive_failures = failures;
      opened_at = if leb b.failure_threshold failures then some now else b.opened_at;
      probe_in_flight = false;
    }
