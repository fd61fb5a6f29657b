-- ===== src/Router/Defs.antt =====
-- The data and the methods of `ModelRouter`, task4_router/router.py. Durations and the monotonic
-- clock are whole milliseconds.
mod Records
mod Settle
pub use Records.{
  AttemptOutcome, timeout, retryable_error, client_error, success, circuit_open, deadline_exhausted,
  AttemptRecord, Slot, primary, secondary, Router, World, Trouble, cancelled_wait, sqlite_error,
  LimiterCalls, undisturbed, reserve_cut, commit_cut, release_cut, Request, AttemptEnd, ended,
  cancelled_error, LoopEnd, answered, rejected, gave_up, interrupted, RoutedResponse, RouteResult,
  routed, gateway_error, limiter_error, storage_failed, cancelled_route,
}
unfoldable pub use Records.{
  outcome_text, outcome_items, public_attempt_summary, provider_name, failed_over,
}
unfoldable pub use Settle.{
  timed_out_test, attempt_fields, loop_error, settle, trouble_result, reserve_trouble,
  settle_trouble, settle_cut, settled_table, ending, refusal_error,
}
use mcp_llm_gateway_suite.Base.{
  ℕ, ◌+◌, ◌-◌, ◌==◌, Bool, true, false, Option, none, some, List, [], ◌∷◌, ◌++◌, min, ltb,
  if◌then◌else◌, length, all_of, map,
}
use mcp_llm_gateway_suite.Base.Int.{ℤ, pos}
use mcp_llm_gateway_suite.Base.Text.{Text, codes}
use mcp_llm_gateway_suite.Json.{number, decimal, str, array, Items, nil, item, Fields, end, field}
use mcp_llm_gateway_suite.Errors.{
  rate_limited, all_providers_failed, upstream_timeout, upstream_error, GatewayError, usage_detail,
  returned_detail, attempts_detail,
}
use mcp_llm_gateway_suite.Providers.{
  is_retryable, Completion, total_tokens, completed, failed, raised_timeout, crashed, cancelled,
  Reply, Complete, estimate_tokens,
}
use mcp_llm_gateway_suite.Breaker.{
  Breaker, allows_request, abandon_probe, record_success, record_failure,
}
use mcp_llm_gateway_suite.Limiter.{
  Table, Limiter, Reservation, ReserveError, Reserved, rate_limit_exceeded, value_error,
  integrity_error, held, refused, reserve_sync, commit_sync, release_sync,
}

-- How a call that ends in time is recorded.
unfoldable pub record_of : Text → Reply → AttemptEnd
unfolding is_retryable
record_of name reply = elim reply.outcome [
  | completed c ↦ ended (some c) (record {
    provider = name;
    outcome = success;
    duration_ms = reply.elapsed;
    status_code = none;
  })
  | failed e ↦ ended none (record {
    provider = name;
    outcome = if is_retryable e then retryable_error else client_error;
    duration_ms = reply.elapsed;
    status_code = e.status_code;
  })
  | raised_timeout ↦ ended none (record {
    provider = name;
    outcome = timeout;
    duration_ms = reply.elapsed;
    status_code = none;
  })
  | crashed ↦ ended none (record {
    provider = name;
    outcome = retryable_error;
    duration_ms = reply.elapsed;
    status_code = none;
  })
  | cancelled ↦ cancelled_error
]

-- `_attempt`: one call under a deadline, after which `wait_for` cancels it and waits until it has
-- ended. A cancelled attempt of the primary frees the probe slot.
unfoldable pub attempt : Router → Slot → Complete → Text → ℤ → ℕ → World → AttemptEnd × World
unfolding record_of provider_name abandon_probe
attempt r slot complete prompt max_tokens timeout_ms w =
    let reply = complete prompt max_tokens in
    let name = provider_name r slot in
    if ltb timeout_ms reply.elapsed
    then (
      ended none (record {
        provider = name;
        outcome = timeout;
        duration_ms = timeout_ms + reply.unwinding;
        status_code = none;
      }),
      record w { clock = w.clock + (timeout_ms + reply.unwinding) },
    )
    else elim (record_of name reply) [
      | ended c a ↦ (ended c a, record w { clock = w.clock + reply.elapsed })
      | cancelled_error ↦ (
        cancelled_error,
        record w {
          breaker = elim slot [ primary ↦ abandon_probe w.breaker | secondary ↦ w.breaker ];
          clock = w.clock + reply.elapsed;
        },
      )
    ]

-- What the loop of `route` tells the breaker about an attempt.
unfoldable pub note_health : Slot → AttemptOutcome → World → World
unfolding record_success record_failure
note_health secondary o w = w
note_health primary success w = record w { breaker = record_success w.breaker }
note_health primary client_error w = record w { breaker = record_success w.breaker }
note_health primary timeout w = record w { breaker = record_failure w.breaker w.clock }
note_health primary retryable_error w = record w { breaker = record_failure w.breaker w.clock }
note_health primary circuit_open w = w
note_health primary deadline_exhausted w = w

-- `_remaining_budget`, down to 0: all that is negative is used up too.
unfoldable pub remaining_budget : Router → ℕ → ℕ → ℕ
remaining_budget r started now = elim r.total_deadline [
  | none ↦ r.attempt_timeout
  | some total ↦ total - (now - started)
]

-- The loop's body once an attempt has ended, with the rest of the loop as an argument.
unfoldable pub after_attempt :
    Slot
    → List AttemptRecord
    → (List AttemptRecord → World → LoopEnd × World)
    → AttemptEnd × World
    → LoopEnd × World
unfolding note_health
after_attempt slot attempts rest (cancelled_error, w) = (interrupted, w)
after_attempt slot attempts rest (ended (some c) a, w) =
    (answered c (attempts ++ (a ∷ [])), note_health slot a.outcome w)
after_attempt slot attempts rest (ended none a, w) = elim a.outcome [
  | client_error ↦ (rejected a (attempts ++ (a ∷ [])), note_health slot a.outcome w)
  | _ ↦ rest (attempts ++ (a ∷ [])) (note_health slot a.outcome w)
]

-- `for provider in candidates`
unfoldable pub try_candidates :
    Router
    → (Slot → Complete)
    → Text
    → ℤ
    → ℕ
    → List Slot
    → List AttemptRecord
    → World
    → LoopEnd × World
try_candidates r providers prompt max_tokens started [] attempts w = (gave_up attempts, w)
try_candidates r providers prompt max_tokens started (slot ∷ slots) attempts w =
    let rest = try_candidates r providers prompt max_tokens started slots in
    let remaining = remaining_budget r started w.clock in
    if remaining == 0
    then (
      gave_up (
          attempts
          ++ (record {
            provider = provider_name r slot;
            outcome = deadline_exhausted;
            duration_ms = 0;
            status_code = none;
          }
              ∷ [])),
      record w {
        breaker = elim slot [ primary ↦ abandon_probe w.breaker | secondary ↦ w.breaker ];
      },
    )
    else after_attempt slot attempts rest
        (attempt r slot (providers slot) prompt max_tokens (min r.attempt_timeout remaining) w)

-- The providers to try, in order, and the attempts noted so far.
unfoldable pub candidates : Router → World → List Slot × List AttemptRecord × World
candidates r w =
    let (allowed, b) = allows_request w.breaker w.clock in
    if allowed then (primary ∷ secondary ∷ [], [], record w { breaker = b }) else (
      secondary ∷ [],
      record {
        provider = r.primary_name;
        outcome = circuit_open;
        duration_ms = 0;
        status_code = none;
      }
          ∷ [],
      record w { breaker = b },
    )

-- What follows a reservation.
unfoldable pub routed_under :
    Router → (Slot → Complete) → Request → ℕ → Reservation → World → RouteResult × World
routed_under r providers q started res w =
    let (slots, attempts, w1) = candidates r w in
    let (finish, w2) = try_candidates r providers q.prompt q.max_tokens started slots attempts w1 in
    (
      ending q.limiter_calls q.request_id finish,
      record w2 {
        table = settled_table q.limiter_calls res finish w2.table;
        clock = w2.clock + q.settle_ms;
      },
    )

-- What follows the call of `reserve`: its exceptions end the route.
unfoldable pub after_reserve :
    Router → (Slot → Complete) → Request → World → Reserved × Table → RouteResult × World
after_reserve r providers q w (refused e, t) =
    (refusal_error q.request_id e, record w { table = t; clock = w.clock + q.reserve_ms })
after_reserve r providers q w (held reservation, t) =
    routed_under r providers q w.clock reservation
      (record w { table = t; clock = w.clock + q.reserve_ms })

unfoldable pub route : Router → (Slot → Complete) → Request → World → RouteResult × World
route r providers q w =
    let x =
      reserve_sync r.limiter q.uuid q.api_key (estimate_tokens q.prompt q.max_tokens) q.wall
        w.table in
    elim (reserve_trouble q.limiter_calls) [
      | none ↦ after_reserve r providers q w x
      | some (trouble, ran) ↦ (
        trouble_result trouble,
        record w { table = if ran then x.1 else w.table; clock = w.clock + q.reserve_ms },
      )
    ]
