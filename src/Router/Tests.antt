-- ===== src/Router/Tests.antt =====
-- Routes of task4_router/router.py over the scripted providers of task4_router/providers.py.
use mcp_llm_gateway_suite.Base.{
  ◌≢◌, ap, length, ◌+◌, ◌≤◌, ◌<◌, ◌≡◌, refl, true, false, some, none, [], ◌∷◌, arith,
}
use mcp_llm_gateway_suite.Base.Int.{pos, ◌+ℤ◌}
use mcp_llm_gateway_suite.Base.Text.{Text, codes, text_eq}
use mcp_llm_gateway_suite.Providers.{
  mock_complete, Complete, Completion, completed, estimate_tokens, total_tokens, is_retryable,
}
use mcp_llm_gateway_suite.Breaker.{
  Breaker, allows_request, record_success, record_failure, abandon_probe,
}
use mcp_llm_gateway_suite.Limiter.{
  Reservation, held, reserve_sync, commit_sync, release_sync, counts, sum_tokens,
}
use mcp_llm_gateway_suite.Limiter.Ledger.{hold, share}
use mcp_llm_gateway_suite.Router.Defs.{
  undisturbed, reserve_cut, cancelled_wait, ending, settled_table, settle_trouble, reserve_trouble,
  settle_cut, trouble_result, Slot, Router, World, Request, route, routed, after_reserve,
  routed_under, candidates, try_candidates, attempt, after_attempt, remaining_budget, loop_error,
  settle, refusal_error, retryable_error, success, note_health,
}
use mcp_llm_gateway_suite.Router.Billing.{charge, usage-route}
use mcp_llm_gateway_suite.Router.Deadline.{time_limit, route_in_time}
use mcp_llm_gateway_suite.Router.Failover.{
  pick, attempt_record, attempt_deadline, is_final, is_transient, route_final_at_primary,
  route_fails_over,
}
use mcp_llm_gateway_suite.Router.Privacy.{error_payload, error_payload-route}
use mcp_llm_gateway_suite.Router.Views.{LooksLike}
use mcp_llm_gateway_suite.Router.Probe.{route_frees_probe}

program : Unit {0}
unfolding ending settled_table settle_trouble reserve_trouble settle_cut trouble_result route
    after_reserve routed_under candidates try_candidates attempt after_attempt remaining_budget
    loop_error settle refusal_error reserve_sync commit_sync release_sync allows_request
    record_success record_failure abandon_probe mock_complete estimate_tokens total_tokens ◌+ℤ◌
    text_eq note_health
program = tt

abbrev scripted : Text → Text → Complete
scripted name behaviour prompt max_tokens =
    (mock_complete (record { name = name; behaviour = behaviour; latency = 10; calls = [] }) prompt
      max_tokens).1

abbrev first_name : Text
first_name = codes "primary-openai"

abbrev second_name : Text
second_name = codes "secondary-anthropic"

abbrev healthy : Complete
healthy = scripted second_name (codes "ok")

abbrev router : Router
router = record {
  primary_name = first_name;
  secondary_name = second_name;
  limiter = record { limit = pos 1000; window = 60000 };
  attempt_timeout = 3000;
  total_deadline = some 5000;
}

abbrev request : Request
request = record {
  api_key = codes "tenant-a";
  prompt = codes "hello";
  max_tokens = pos 64;
  request_id = codes "r1";
  uuid = 1;
  wall = 70000;
  reserve_ms = 2;
  settle_ms = 3;
  limiter_calls = undisturbed;
}

abbrev breaker : Breaker
breaker = record {
  failure_threshold = 5;
  recovery_time = 30000;
  consecutive_failures = 4;
  opened_at = none;
  probe_in_flight = false;
}

abbrev world : World
world = record { table = []; breaker = breaker; clock = 100 }

abbrev limited : Slot → Complete
limited = pick (scripted first_name (codes "rate_limit")) healthy

-- The fifth failure in a row: the secondary answers, and the breaker opens.
fails_over :
    ((route router limited request world).1.breaker.opened_at ≡ some 112)
    × ((route router limited request world).1.clock ≡ 125)
unfolding program
fails_over = (refl, refl)

-- A timeout of the primary takes its three seconds.
slow_primary :
    (route router (pick (scripted first_name (codes "timeout")) healthy) request world).1.clock
    ≡ 3115
unfolding program
slow_primary = refl

route_frees_probe_example : (route router limited request world).1.breaker.probe_in_flight ≡ false
route_frees_probe_example = route_frees_probe router limited request world refl

limited_ends : (slot : Slot) → (limited slot (codes "hello") (pos 64)).unwinding ≤ 0
unfolding program
limited_ends Slot.primary = omega arith
limited_ends Slot.secondary = omega arith

-- A request that is cancelled while its reservation is made keeps its hold.
abbrev dropped : Request
dropped = record request { limiter_calls = reserve_cut cancelled_wait true }

leaks_hold : (route router limited dropped world).1.table ≢ []
unfolding program
leaks_hold h = let same : 1 ≡ 0 = ap length h in absurd (omega (arith, same))

route_in_time_example :
    (route router limited request world).1.clock ≤ 100 + time_limit router request 0
route_in_time_example = route_in_time router limited request 0 limited_ends world

usage-route_example :
    sum_tokens (counts 70500 60000 (codes "tenant-a")) (route router limited request world).1.table
    ≡ sum_tokens (counts 70500 60000 (codes "tenant-a")) []
      +ℤ share 70500 60000
          (codes "tenant-a")
          (hold 1 (codes "tenant-a") (estimate_tokens (codes "hello") (pos 64)) 70000)
          (charge (route router limited request world).0)
usage-route_example =
    usage-route router limited request world (codes "tenant-a") 70500 (omega arith) refl

admitted : (allows_request breaker (100 + 2)).0 ≡ true
unfolding program
admitted = refl

abbrev rejecting : Complete
rejecting = scripted first_name (codes "bad_request")

abbrev failing : Complete
failing = scripted first_name (codes "rate_limit")

-- Before and after the first attempt there is time left, and both providers answer in it.
in_time :
    ((rejecting (codes "hello") (pos 64)).elapsed ≤ attempt_deadline router 100 (100 + 2))
    × ((failing (codes "hello") (pos 64)).elapsed ≤ attempt_deadline router 100 (100 + 2))
    × (0 < remaining_budget router 100 (100 + 2))
    × ((healthy (codes "hello") (pos 64)).elapsed
        ≤ attempt_deadline router 100 (100 + 2 + (failing (codes "hello") (pos 64)).elapsed))
    × (0 < remaining_budget router 100 (100 + 2 + (failing (codes "hello") (pos 64)).elapsed))
unfolding program
in_time = (omega arith, omega arith, omega arith, omega arith, omega arith)

endings :
    (is_final (rejecting (codes "hello") (pos 64)).outcome ≡ true)
    × (is_transient (failing (codes "hello") (pos 64)).outcome ≡ true)
unfolding program is_retryable
endings = (refl, refl)

-- After a 400 of the primary the secondary is not asked, whether it is well or not.
route_final_at_primary_example :
    route router (pick rejecting healthy) request world
    ≡ route router (pick rejecting failing) request world
route_final_at_primary_example =
    route_final_at_primary router rejecting healthy failing request world admitted in_time.0
      endings.0

abbrev answer : Completion
answer = record {
  text = codes "[secondary-anthropic] response to: hello";
  prompt_tokens = pos 1;
  completion_tokens = pos 10;
  provider = second_name;
}

abbrev reservation : Reservation
reservation = record { id = 1; api_key = codes "tenant-a"; estimated_tokens = pos 65 }

reserved_row :
    reserve_sync router.limiter 1
      (codes "tenant-a")
      (estimate_tokens (codes "hello") (pos 64))
      70000
      []
    ≡ (held reservation, hold 1 (codes "tenant-a") (pos 65) 70000 ∷ [])
unfolding program
reserved_row = refl

healthy_answers : (healthy (codes "hello") (pos 64)).outcome ≡ completed answer
unfolding program
healthy_answers = refl

route_fails_over_example :
    (route router (pick failing healthy) request world).0
    ≡ routed (record {
      completion = answer;
      request_id = codes "r1";
      attempts =
          attempt_record first_name retryable_error (failing (codes "hello") (pos 64))
          ∷ attempt_record second_name success (healthy (codes "hello") (pos 64))
          ∷ [];
    })
route_fails_over_example =
    route_fails_over router failing healthy request world reservation
      (hold 1 (codes "tenant-a") (pos 65) 70000 ∷ []) answer refl reserved_row admitted in_time.1
      in_time.2 endings.1 in_time.3 in_time.4 healthy_answers

-- A 500 that quotes an address and a key, and a 503: what the client sees is the same.
leaky_alike :
    LooksLike (scripted first_name (codes "leaky")) (scripted (codes "x") (codes "server_error"))
unfolding program is_retryable
leaky_alike prompt max_tokens = (refl, refl, refl)

abbrev leaky : Slot → Complete
leaky slot = scripted first_name (codes "leaky")

abbrev unnamed : Slot → Complete
unnamed slot = scripted (codes "x") (codes "server_error")

error_payload-route_example :
    error_payload (route router leaky request world).0
    ≡ error_payload
        (route
          (record router { primary_name = codes "x"; secondary_name = codes "y" })
          unnamed
          request
          world).0
error_payload-route_example =
    error_payload-route router (codes "x") (codes "y") leaky unnamed (λ slot. leaky_alike) request
      world
