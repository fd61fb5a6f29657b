-- ===== src/Router.antt =====
-- `ModelRouter` of task4_router/router.py: a request reserves its tokens, is sent to the primary
-- provider under a deadline, fails over to the secondary one, and commits or gives back what it
-- reserved. The request may be cancelled at the calls of the providers and of the limiter.
mod Defs
pub mod Probe
mod Tests
pub mod Views
pub mod Privacy
pub mod Failover
pub mod Billing
pub mod Deadline
pub mod Ends
pub use Defs.{
  AttemptOutcome, timeout, retryable_error, client_error, success, circuit_open, deadline_exhausted,
  AttemptRecord, Slot, primary, secondary, Router, World, AttemptEnd, ended, cancelled_error,
  LoopEnd, answered, rejected, gave_up, interrupted, RoutedResponse, RouteResult, routed,
  gateway_error, limiter_error, storage_failed, cancelled_route, Request, Trouble, cancelled_wait,
  sqlite_error, LimiterCalls, undisturbed, reserve_cut, commit_cut, release_cut,
}
unfoldable pub use Defs.{
  outcome_text, public_attempt_summary, failed_over, remaining_budget, provider_name, attempt,
  note_health, try_candidates, candidates, loop_error, after_reserve, route, refusal_error,
  routed_under, after_attempt, settle, record_of, ending, settled_table, settle_trouble,
  reserve_trouble, settle_cut, trouble_result,
}
