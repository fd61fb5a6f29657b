-- ===== src/Router/Probe.antt =====
-- What a route of task4_router/router.py does to the circuit breaker.
use mcp_llm_gateway_suite.Base.{Option-cases, inl, inr, ℕ, ◌≡◌, ◌+◌, false, List, [], ◌∷◌, arith}
use mcp_llm_gateway_suite.Base.Int.{ℤ}
use mcp_llm_gateway_suite.Base.Text.{Text}
use mcp_llm_gateway_suite.Providers.{Complete}
use mcp_llm_gateway_suite.Breaker.{abandon_probe, allows_request}
use mcp_llm_gateway_suite.Limiter.{Table, Reservation, Reserved, held, refused}
use mcp_llm_gateway_suite.Router.Defs.{
  Slot, primary, secondary, Router, World, Request, AttemptRecord, try_candidates, attempt,
  after_attempt, candidates, routed_under, after_reserve, route, reserve_trouble,
}

module _ (r : Router) (providers : Slot → Complete) (prompt : Text) (max_tokens : ℤ)
    (started : ℕ) where
  -- The secondary provider says nothing to the breaker.
  secondary_keeps_breaker :
      (attempts : List AttemptRecord) (w : World)
      → (try_candidates r providers prompt max_tokens started (secondary ∷ []) attempts w).1.breaker
        ≡ w.breaker
  unfolding try_candidates attempt after_attempt abandon_probe
  secondary_keeps_breaker attempts w = ground arith

  -- However the attempt of the primary ends, the probe slot is free afterwards.
  primary_frees_probe :
      (attempts : List AttemptRecord) (w : World)
      → (try_candidates r providers prompt max_tokens started
          (primary ∷ secondary ∷ [])
          attempts
          w).1.breaker.probe_in_flight
        ≡ false
  unfolding try_candidates attempt after_attempt abandon_probe
  primary_frees_probe attempts w = ground arith

routed_under_frees_probe :
    (r : Router) (providers : Slot → Complete) (q : Request) (started : ℕ) (res : Reservation)
    (w : World)
    → w.breaker.probe_in_flight ≡ false
    → (routed_under r providers q started res w).1.breaker.probe_in_flight ≡ false
unfolding routed_under candidates allows_request
routed_under_frees_probe r providers q started res w free = ground (
  arith,
  primary_frees_probe r providers q.prompt q.max_tokens started [] (candidates r w).2,
  secondary_keeps_breaker r providers q.prompt q.max_tokens started (candidates r w).1
      (candidates r w).2,
)

after_reserve_frees_probe :
    (r : Router) (providers : Slot → Complete) (q : Request) (w : World) (x : Reserved × Table)
    → w.breaker.probe_in_flight ≡ false
    → (after_reserve r providers q w x).1.breaker.probe_in_flight ≡ false
unfolding after_reserve
after_reserve_frees_probe r providers q w (refused e, t) free = free
after_reserve_frees_probe r providers q w (held res, t) free =
    routed_under_frees_probe r providers q w.clock res
      (record w { table = t; clock = w.clock + q.reserve_ms }) free

-- A route takes the probe slot at most for its own attempt: when it has ended, by an answer, an
-- error, the end of its time or a cancellation, the slot is as free as before.
pub route_frees_probe :
    (r : Router) (providers : Slot → Complete) (q : Request) (w : World)
    → w.breaker.probe_in_flight ≡ false
    → (route r providers q w).1.breaker.probe_in_flight ≡ false
unfolding route
route_frees_probe r providers q w free = elim (Option-cases (reserve_trouble q.limiter_calls)) [
  | inl none_there ↦ rw (route, none_there) (after_reserve_frees_probe r providers q w _ free)
  | inr ((trouble, ran), there) ↦ rw (route, there) free
]
