-- ===== src/Breaker.antt =====
-- `CircuitBreaker` of task4_router/router.py. Times are milliseconds of the monotonic clock;
-- `now - opened_at >= recovery_time_s` is read with the opening time on the other side.
mod Defs
pub mod Probe
mod Tests
pub use Defs.{Breaker, BreakerState, closed, half_open, opened}
unfoldable pub use Defs.{state, allows_request, abandon_probe, record_success, record_failure}
