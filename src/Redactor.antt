-- ===== src/Redactor.antt =====
-- The incremental redactor of task3_streaming_guardrail/redactor.py. A position in a text is a
-- number of characters from its start, as in the source. The Unicode database that `re` and `str`
-- consult is an argument.
mod Patterns
mod Scan
mod Emit
mod Stream
pub mod Reference
pub mod Matches
pub mod Positions
pub mod Guard
pub mod Emitted
pub mod Complete
pub mod Local
pub mod Tails
pub mod Settled
pub mod Pieces
pub mod Feeding
pub mod Faithful
pub mod Bounds
mod Tests
pub use Patterns.{Label, email, api_key, credit_card, ssn, phone}
unfoldable pub use Patterns.{
  upper_letter, lower_letter, digit_char, alphanumeric, digit_or_dash, pattern_of, labels,
  tail_token_char, tail_digits_first, tail_digits_char,
}
pub use Scan.{Match}
unfoldable pub use Scan.{
  luhn_sum, luhn_ok, is_card, match_at, search_from, previous, search, is_label_card, rejects,
  iter_loop, iter_matches,
}
pub use Emit.{Stats}
unfoldable pub use Emit.{
  same_label, bump, record_label, sum_counts, total_redactions, slice, redact_loop, redact_range,
  redact_complete_from, redact_complete, pull_loop, pull_back, tail_token, tail_digits,
  last_characters, holdback,
}
pub use Stream.{Redactor, max_holdback_default, lookbehind_context, max_buffer, default_placeholder}
unfoldable pub use Stream.{new_redactor, buffered, split_point, feed_open, feed, flush}
