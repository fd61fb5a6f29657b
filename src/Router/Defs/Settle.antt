-- ===== src/Router/Defs/Settle.antt =====
-- How `ModelRouter.route` of task4_router/router.py ends, and what it leaves in the limiter's table.
use mcp_llm_gateway_suite.Base.{
  ℕ, Bool, true, false, Option, none, some, if◌then◌else◌, all_of, map,
}
use mcp_llm_gateway_suite.Base.Int.{pos}
use mcp_llm_gateway_suite.Base.Text.{Text, codes}
use mcp_llm_gateway_suite.Json.{number, decimal, end, field}
use mcp_llm_gateway_suite.Errors.{
  rate_limited, all_providers_failed, upstream_timeout, upstream_error, usage_detail,
  returned_detail, attempts_detail,
}
use mcp_llm_gateway_suite.Providers.{total_tokens}
use mcp_llm_gateway_suite.Limiter.{
  Table, Reservation, ReserveError, rate_limit_exceeded, value_error, integrity_error, commit_sync,
  release_sync,
}
use mcp_llm_gateway_suite.Router.Defs.Records.{
  timeout, deadline_exhausted, AttemptRecord, Trouble, cancelled_wait, sqlite_error, LimiterCalls,
  reserve_cut, commit_cut, release_cut, LoopEnd, answered, rejected, gave_up, interrupted,
  RouteResult, routed, gateway_error, limiter_error, storage_failed, cancelled_route, outcome_text,
  public_attempt_summary,
}

unfoldable pub timed_out_test : AttemptRecord → Bool
timed_out_test a = elim a.outcome [ timeout ↦ true | deadline_exhausted ↦ true | _ ↦ false ]

unfoldable pub attempt_fields : AttemptRecord → Text × Text × ℕ × Option ℕ
unfolding outcome_text
attempt_fields a = (a.provider, outcome_text a.outcome, a.duration_ms, a.status_code)

-- What `route` returns or raises at the end of the loop.
unfoldable pub loop_error : Text → LoopEnd → RouteResult
unfolding public_attempt_summary timed_out_test attempt_fields
loop_error request_id interrupted = cancelled_route
loop_error request_id (answered c attempts) =
    routed (record { completion = c; request_id = request_id; attempts = attempts })
loop_error request_id (rejected a attempts) = gateway_error (record {
  code = upstream_error;
  request_id = request_id;
  detail = some (returned_detail a.provider a.status_code);
  metadata = some (public_attempt_summary attempts);
})
loop_error request_id (gave_up attempts) = gateway_error (record {
  code = if all_of timed_out_test attempts then upstream_timeout else all_providers_failed;
  request_id = request_id;
  detail = some (attempts_detail (map attempt_fields attempts));
  metadata = some (public_attempt_summary attempts);
})

-- The commit after a completion, and the release in `finally` in all other cases.
unfoldable pub settle : Reservation → LoopEnd → Table → Table
unfolding total_tokens commit_sync release_sync
settle res (answered c attempts) t = commit_sync res.id (total_tokens c) t
settle res (rejected a attempts) t = release_sync res.id t
settle res (gave_up attempts) t = release_sync res.id t
settle res interrupted t = release_sync res.id t

unfoldable pub trouble_result : Trouble → RouteResult
trouble_result cancelled_wait = cancelled_route
trouble_result sqlite_error = storage_failed

unfoldable pub reserve_trouble : LimiterCalls → Option (Trouble × Bool)
reserve_trouble (reserve_cut trouble ran) = some (trouble, ran)
reserve_trouble _ = none

-- A completion is committed, and every other end is followed by a release.
unfoldable pub settle_trouble : LimiterCalls → LoopEnd → Option (Trouble × Bool)
settle_trouble (commit_cut trouble ran) (answered c attempts) = some (trouble, ran)
settle_trouble (release_cut trouble ran) (rejected a attempts) = some (trouble, ran)
settle_trouble (release_cut trouble ran) (gave_up attempts) = some (trouble, ran)
settle_trouble (release_cut trouble ran) interrupted = some (trouble, ran)
settle_trouble _ _ = none

-- After a commit that is cut short `committed` is false, so that `finally` deletes the row.
unfoldable pub settle_cut : Bool → Reservation → LoopEnd → Table → Table
unfolding total_tokens commit_sync release_sync
settle_cut ran res (answered c attempts) t =
    release_sync res.id (if ran then commit_sync res.id (total_tokens c) t else t)
settle_cut ran res (rejected a attempts) t = if ran then release_sync res.id t else t
settle_cut ran res (gave_up attempts) t = if ran then release_sync res.id t else t
settle_cut ran res interrupted t = if ran then release_sync res.id t else t

unfoldable pub settled_table : LimiterCalls → Reservation → LoopEnd → Table → Table
unfolding settle_trouble settle settle_cut
settled_table calls res finish t = elim (settle_trouble calls finish) [
  | none ↦ settle res finish t
  | some (trouble, ran) ↦ settle_cut ran res finish t
]

unfoldable pub ending : LimiterCalls → Text → LoopEnd → RouteResult
unfolding settle_trouble loop_error trouble_result
ending calls request_id finish = elim (settle_trouble calls finish) [
  | none ↦ loop_error request_id finish
  | some (trouble, ran) ↦ trouble_result trouble
]

-- The error of a refused reservation.
unfoldable pub refusal_error : Text → ReserveError → RouteResult
refusal_error request_id (rate_limit_exceeded used limit after) = gateway_error (record {
  code = rate_limited;
  request_id = request_id;
  detail = some (usage_detail used limit);
  metadata = some (
      field (codes "limit_tokens_per_minute") (number limit) (
        field (codes "used_tokens") (number used)
          (field (codes "retry_after_seconds") (decimal (pos after) 3) end)));
})
refusal_error request_id value_error = limiter_error value_error
refusal_error request_id integrity_error = limiter_error integrity_error
