-- ===== src/Breaker/Tests.antt =====
-- The circuit breaker of task4_router/router.py at concrete times.
use mcp_llm_gateway_suite.Base.{
  ◌≡◌, refl, true, false, none, some, [], ◌∷◌, ◌++◌, arith, leb, if◌then◌else◌,
}
use mcp_llm_gateway_suite.Breaker.Defs.{
  Breaker, closed, half_open, opened, state, allows_request, abandon_probe, record_success,
  record_failure,
}
use mcp_llm_gateway_suite.Breaker.Probe.{
  record_failures, opens_at_threshold, one_probe, abandon_readmits,
}

program : Unit {0}
unfolding state allows_request abandon_probe record_success record_failure
program = tt

abbrev fresh : Breaker
fresh = record {
  failure_threshold = 2;
  recovery_time = 30000;
  consecutive_failures = 0;
  opened_at = none;
  probe_in_flight = false;
}

abbrev tripped : Breaker
tripped = record fresh { consecutive_failures = 2; opened_at = some 500 }

trips : record_failures fresh (100 ∷ 500 ∷ []) ≡ tripped
unfolding program
trips = refl

skips : allows_request tripped 600 ≡ (false, tripped)
unfolding program
skips = refl

opens_at_threshold_example :
    state (record_failures (record_success fresh) ((100 ∷ []) ++ (500 ∷ []))) 600
    ≡ (if leb 2 2 then if leb 30500 600 then half_open else opened else closed)
opens_at_threshold_example = opens_at_threshold fresh (100 ∷ []) 500 600

half : state tripped 30500 ≡ half_open
unfolding program
half = refl

one_probe_example :
    ((allows_request tripped 30500).0 ≡ true)
    × ((allows_request (allows_request tripped 30500).1 30600).0 ≡ false)
one_probe_example = one_probe tripped 30500 30600 half (omega arith) refl

abandon_readmits_example :
    (allows_request (abandon_probe (allows_request tripped 30500).1) 30600).0 ≡ true
abandon_readmits_example = abandon_readmits tripped 30500 30600 half (omega arith)
