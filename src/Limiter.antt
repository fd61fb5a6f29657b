-- ===== src/Limiter.antt =====
-- The token-aware sliding window of task4_router/rate_limiter.py. The table `token_usage` is the
-- list of its rows in the order of insertion. A transaction is one step: `BEGIN IMMEDIATE` takes
-- the write lock before the check, so that no other transaction comes between its statements.
-- Times are whole microseconds, and what a refusal reports is in milliseconds; a comparison with `now - window` is read with the window on the
-- other side. The id that `uuid.uuid4` draws is an argument.
mod Defs
pub mod Window
pub mod Ledger
pub mod Budget
pub mod Retry
pub mod Refusals
mod Tests
pub use Defs.{
  RowState, reserved, committed, Row, Limiter, Table, Reservation, UsageSnapshot, ReserveError,
  value_error, rate_limit_exceeded, integrity_error, Reserved, held, refused,
}
unfoldable pub use Defs.{
  in_window, counts, sum_tokens, min_created_at, has_id, evict, insert_row, round_ms, retry_after,
  reserve_sync, set_tokens, commit_sync, release_sync, usage_sync, remaining_tokens, row_count_sync,
}
