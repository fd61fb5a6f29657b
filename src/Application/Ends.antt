-- ===== src/Application/Ends.antt =====
-- How the route that task4_router/app.py calls for a checked request can end.
use mcp_llm_gateway_suite.Base.{
  ℕ, ◌≡◌, ◌≢◌, refl, Bool, true, false, ◌⊎◌, inl, inr, some, if◌then◌else◌, arith,
}
use mcp_llm_gateway_suite.Base.Int.{ℤ, pos, ltb_ℤ}
use mcp_llm_gateway_suite.Base.Text.{Text, codes}
use mcp_llm_gateway_suite.Json.{number, decimal, end, field}
use mcp_llm_gateway_suite.Errors.{
  rate_limited, GatewayError, usage_detail, http_status, upstream_timeout, all_providers_failed,
}
use mcp_llm_gateway_suite.Providers.{estimate_tokens}
use mcp_llm_gateway_suite.Limiter.{
  Table, refused, ReserveError, value_error, integrity_error, rate_limit_exceeded, has_id,
  retry_after, min_created_at, counts,
}
use mcp_llm_gateway_suite.Limiter.Refusals.{refused-value_error, refused-integrity_error}
use mcp_llm_gateway_suite.Limiter.Retry.{refusal}
use mcp_llm_gateway_suite.Router.{
  Router, World, Request, RouteResult, routed, gateway_error, limiter_error, storage_failed,
  cancelled_route, Trouble, cancelled_wait, sqlite_error, trouble_result, LoopEnd, answered,
  rejected, gave_up, interrupted, loop_error, refusal_error,
}
use mcp_llm_gateway_suite.Router.Ends.{trouble_of, reserved_for, estimate_tokens-positive}
use mcp_llm_gateway_suite.Application.Defs.{is_rate_limited}

-- The error of a refusal for the limit.
abbrev pub limit_error : Text → ℤ → ℤ → ℕ → GatewayError
limit_error id used limit after = record {
  code = rate_limited;
  request_id = id;
  detail = some (usage_detail used limit);
  metadata = some (
      field (codes "limit_tokens_per_minute") (number limit) (
        field (codes "used_tokens") (number used)
          (field (codes "retry_after_seconds") (decimal (pos after) 3) end)));
}

-- How a checked request can end.
module _ (r : Router) (q : Request) (w : World) where
  -- Refused for the limit, with the time until the oldest row that counts is one window old.
  pub record IsOverLimit (e : GatewayError) : Type 0 where
    pub used : ℤ
    pub limit : ℤ
    pub after : ℕ
    pub is_error : e ≡ limit_error q.request_id used limit after
    pub is_wait :
        after
        ≡ retry_after q.wall r.limiter.window
            (min_created_at (counts q.wall r.limiter.window q.api_key) w.table)

  pub record IsOther (e : GatewayError) : Type 0 where
    pub not_limited : is_rate_limited e.code ≡ false
    pub not_500 : http_status e.code ≢ 500
    pub not_429 : http_status e.code ≢ 429

  abbrev pub IsExpected : RouteResult → Type 0
  IsExpected (routed x) = Unit
  IsExpected cancelled_route = Unit
  IsExpected storage_failed = trouble_of q.limiter_calls ≡ some sqlite_error
  IsExpected (limiter_error e) = has_id q.uuid w.table ≡ true
  IsExpected (gateway_error e) = IsOverLimit e ⊎ IsOther e

  pub refusal-IsExpected :
      ltb_ℤ (pos 0) q.max_tokens ≡ true
      → (e : ReserveError) (t : Table) → reserved_for r q w ≡ (refused e, t)
      → IsExpected (refusal_error q.request_id e)
  unfolding refusal_error
  refusal-IsExpected positive (rate_limit_exceeded used limit after) t h =
      let told =
        refusal r.limiter q.uuid q.api_key (estimate_tokens q.prompt q.max_tokens) q.wall w.table
          used limit after t h in
      inl record { used = used; limit = limit; after = after; is_error = refl; is_wait = told.2 }
  refusal-IsExpected positive value_error t h = absurd cc (
    refused-value_error r.limiter q.uuid q.api_key (estimate_tokens q.prompt q.max_tokens) q.wall
        w.table t h,
    estimate_tokens-positive q.prompt q.max_tokens positive,
  )
  refusal-IsExpected positive integrity_error t h =
      refused-integrity_error r.limiter q.uuid q.api_key (estimate_tokens q.prompt q.max_tokens)
        q.wall w.table t h

  pub trouble-IsExpected :
      (e : Trouble) → trouble_of q.limiter_calls ≡ some e → IsExpected (trouble_result e)
  unfolding trouble_result
  trouble-IsExpected cancelled_wait h = tt
  trouble-IsExpected sqlite_error h = h

  gave_up_code :
      (b : Bool) (e : GatewayError)
      → e.code ≡ (if b then upstream_timeout else all_providers_failed)
      → IsOther e
  unfolding is_rate_limited http_status
  gave_up_code true e h = record {
    not_limited = rw h;
    not_500 = rw h (omega arith);
    not_429 = rw h (omega arith);
  }
  gave_up_code false e h = record {
    not_limited = rw h;
    not_500 = rw h (omega arith);
    not_429 = rw h (omega arith);
  }

  pub loop-IsExpected : (e : LoopEnd) → IsExpected (loop_error q.request_id e)
  unfolding loop_error is_rate_limited http_status
  loop-IsExpected interrupted = tt
  loop-IsExpected (answered x attempts) = tt
  loop-IsExpected (rejected x attempts) =
      inr record { not_limited = refl; not_500 = omega arith; not_429 = omega arith }
  loop-IsExpected (gave_up attempts) = inr (gave_up_code _ _ refl)
