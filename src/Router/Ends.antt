-- ===== src/Router/Ends.antt =====
-- The ends of a route of task4_router/router.py: the error of a refused reservation, or what the
-- loop over the providers ends with.
use mcp_llm_gateway_suite.Base.{
  Option, Bool, Option-cases, inl, inr, some, none, ◌≡◌, refl, true, false, arith,
}
use mcp_llm_gateway_suite.Base.Int.{ℤ, pos, ltb_ℤ, ◌+ℤ◌}
use mcp_llm_gateway_suite.Base.Text.{Text}
use mcp_llm_gateway_suite.Providers.{Complete, estimate_tokens}
use mcp_llm_gateway_suite.Limiter.{Table, Reserved, held, refused, ReserveError, reserve_sync}
use mcp_llm_gateway_suite.Router.Defs.{
  Slot, Router, World, Request, RouteResult, LoopEnd, answered, rejected, gave_up, interrupted,
  LimiterCalls, undisturbed, reserve_cut, commit_cut, release_cut, loop_error, after_reserve, route,
  refusal_error, routed_under, Trouble, trouble_result, ending, settle_trouble, reserve_trouble,
}

-- What reserving gives.
abbrev pub reserved_for : Router → Request → World → Reserved × Table
reserved_for r q w =
    reserve_sync r.limiter q.uuid q.api_key (estimate_tokens q.prompt q.max_tokens) q.wall w.table

-- What befalls one of the calls of the limiter.
abbrev pub trouble_of : LimiterCalls → Option Trouble
trouble_of undisturbed = none
trouble_of (reserve_cut trouble ran) = some trouble
trouble_of (commit_cut trouble ran) = some trouble
trouble_of (release_cut trouble ran) = some trouble

reserve_trouble-trouble :
    (calls : LimiterCalls) (trouble : Trouble) (ran : Bool)
    → reserve_trouble calls ≡ some (trouble, ran)
    → trouble_of calls ≡ some trouble
unfolding reserve_trouble
reserve_trouble-trouble undisturbed trouble ran h = absurd cc
reserve_trouble-trouble (reserve_cut other r) trouble ran h = cc
reserve_trouble-trouble (commit_cut other r) trouble ran h = absurd cc
reserve_trouble-trouble (release_cut other r) trouble ran h = absurd cc

settle_trouble-trouble :
    (calls : LimiterCalls) (e : LoopEnd) (trouble : Trouble) (ran : Bool)
    → settle_trouble calls e ≡ some (trouble, ran)
    → trouble_of calls ≡ some trouble
unfolding settle_trouble
settle_trouble-trouble undisturbed e trouble ran h = absurd (ground arith)
settle_trouble-trouble (reserve_cut other r) e trouble ran h = absurd (ground arith)
settle_trouble-trouble (commit_cut other r) (answered c attempts) trouble ran h = cc
settle_trouble-trouble (commit_cut other r) (rejected a attempts) trouble ran h = absurd cc
settle_trouble-trouble (commit_cut other r) (gave_up attempts) trouble ran h = absurd cc
settle_trouble-trouble (commit_cut other r) interrupted trouble ran h = absurd cc
settle_trouble-trouble (release_cut other r) (answered c attempts) trouble ran h = absurd cc
settle_trouble-trouble (release_cut other r) (rejected a attempts) trouble ran h = cc
settle_trouble-trouble (release_cut other r) (gave_up attempts) trouble ran h = cc
settle_trouble-trouble (release_cut other r) interrupted trouble ran h = cc

-- What holds of every refusal's error and of every end of the loop holds of the route.
module _ (P : RouteResult → Type 0) (r : Router) (providers : Slot → Complete) (q : Request)
    (w : World)
    (on_refusal : (e : ReserveError) (t : Table)
      → reserved_for r q w ≡ (refused e, t)
      → P (refusal_error q.request_id e))
    (on_loop : (e : LoopEnd) → P (loop_error q.request_id e))
    (on_trouble : (e : Trouble) → trouble_of q.limiter_calls ≡ some e → P (trouble_result e)) where
  ending-rule : (e : LoopEnd) → P (ending q.limiter_calls q.request_id e)
  unfolding ending
  ending-rule e = elim (Option-cases (settle_trouble q.limiter_calls e)) [
    | inl none_there ↦ rw (ending, none_there) (on_loop e)
    | inr ((trouble, ran), there) ↦
        rw (ending, there)
          (on_trouble trouble (settle_trouble-trouble q.limiter_calls e trouble ran there))
  ]

  after_reserve-rule :
      (x : Reserved × Table) → reserved_for r q w ≡ x → P (after_reserve r providers q w x).0
  unfolding after_reserve routed_under
  after_reserve-rule (refused e, t) h = on_refusal e t h
  after_reserve-rule (held res, t) h = ending-rule _

  pub route-rule : P (route r providers q w).0
  unfolding route
  route-rule = elim (Option-cases (reserve_trouble q.limiter_calls)) [
    | inl none_there ↦ rw (route, none_there) (after_reserve-rule _ refl)
    | inr ((trouble, ran), there) ↦
        rw (route, there)
          (on_trouble trouble (reserve_trouble-trouble q.limiter_calls trouble ran there))
  ]

-- An estimate for a positive number of tokens is not negative.
pub estimate_tokens-positive :
    (prompt : Text) (n : ℤ)
    → ltb_ℤ (pos 0) n ≡ true
    → ltb_ℤ (estimate_tokens prompt n) (pos 0) ≡ false
unfolding estimate_tokens ◌+ℤ◌
estimate_tokens-positive prompt n h = ground arith
