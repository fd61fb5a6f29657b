-- ===== src/Redactor/Stream.antt =====
-- `StreamRedactor` of task3_streaming_guardrail/redactor.py.
use mcp_llm_gateway_suite.Base.{
  ℕ, ◌+◌, ◌-◌, Bool, true, false, Option, none, some, [], ◌++◌, ◌==◌, if◌then◌else◌, length, take,
  drop, max,
}
use mcp_llm_gateway_suite.Base.Text.{Text, codes}
use mcp_llm_gateway_suite.Regex.{Unicode}
use mcp_llm_gateway_suite.Redactor.Scan.{iter_matches}
use mcp_llm_gateway_suite.Redactor.Emit.{
  Stats, redact_range, redact_complete_from, pull_back, last_characters, holdback,
}

abbrev pub max_holdback_default : ℕ
max_holdback_default = 400

abbrev pub lookbehind_context : ℕ
lookbehind_context = 400

abbrev pub max_buffer : ℕ
max_buffer = 800

abbrev pub default_placeholder : Text
default_placeholder = codes "[REDACTED]"

pub record Redactor : Type 0 where
  pub max_holdback : ℕ
  pub placeholder : Text
  pub buffer : Text
  pub left_context : Text
  pub is_closed : Bool
  pub stats : Stats

unfoldable pub new_redactor : ℕ → Text → Redactor
new_redactor max_holdback placeholder = record {
  max_holdback = max_holdback;
  placeholder = placeholder;
  buffer = [];
  left_context = [];
  is_closed = false;
  stats = record {
    chunks_in = 0;
    characters_in = 0;
    characters_out = 0;
    redactions = [];
    max_buffer = 0;
  };
}

unfoldable pub buffered : Redactor → ℕ
buffered r = length r.buffer

-- The position in left context and buffer up to which a feed emits.
unfoldable pub split_point : Unicode → Redactor → Text → ℕ
split_point u r buffer =
    let offset = length r.left_context in
    pull_back (offset + length buffer - holdback u buffer r.max_holdback) offset
      (iter_matches u (r.left_context ++ buffer) offset)

-- `feed` on an open redactor and a chunk that is not empty.
unfoldable pub feed_open : Unicode → Redactor → Text → Text × Redactor
unfolding split_point
feed_open u r chunk =
    let buffer = r.buffer ++ chunk in
    let whole = r.left_context ++ buffer in
    let offset = length r.left_context in
    let split = split_point u r buffer in
    let safe_len = split - offset in
    let counted : Stats = record (r.stats) {
      chunks_in = r.stats.chunks_in + 1;
      characters_in = r.stats.characters_in + length chunk;
    } in
    let (emit, stats) =
      redact_range whole offset split counted r.placeholder (iter_matches u whole offset) in
    let kept = drop safe_len buffer in
    (
      emit,
      record r {
        buffer = kept;
        left_context = last_characters lookbehind_context (r.left_context ++ take safe_len buffer);
        stats = record stats {
          max_buffer = max (max stats.max_buffer (length buffer)) (length kept);
          characters_out = stats.characters_out + length emit;
        };
      },
    )

-- `feed`: `none` is the `RuntimeError` of a call after `flush`.
unfoldable pub feed : Unicode → Redactor → Text → Option (Text × Redactor)
unfolding feed_open
feed u r chunk =
    if r.is_closed then none else some (if length chunk == 0 then ([], r) else feed_open u r chunk)

unfoldable pub flush : Unicode → Redactor → Text × Redactor
flush u r =
    let (remainder, stats) =
      redact_complete_from u (r.left_context ++ r.buffer) (length r.left_context) r.stats
        r.placeholder in
    if r.is_closed then ([], r) else (
      remainder,
      record r {
        is_closed = true;
        left_context = [];
        buffer = [];
        stats = record stats { characters_out = stats.characters_out + length remainder };
      },
    )
