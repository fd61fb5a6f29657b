-- ===== src/Regex.antt =====
-- The part of Python's `re` that task3_streaming_guardrail/redactor.py uses, as a backtracking
-- matcher with a continuation: greedy repetition, ordered alternatives, and fences that look one
-- character back or ahead.
mod Defs
pub mod Length
pub mod Local
pub mod Starts
pub use Defs.{Unicode, Regex, chars, seq, alt, opt, repeat, not_ahead, not_behind, boundary, Cont}
unfoldable pub use Defs.{at_boundary, repeat_loop, run, match_length, literal, any_of}
