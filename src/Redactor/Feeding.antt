-- ===== src/Redactor/Feeding.antt =====
-- One feed of the redactor of task3_streaming_guardrail/redactor.py against the reference: what it
-- puts out and what it keeps.
use mcp_llm_gateway_suite.Base.{
  ℕ, ◌+◌, ◌-◌, ◌≤◌, ◌<◌, ◌≡◌, ◌∙◌, sym, ap, inl, inr, none, ◌++◌, length, take, drop, arith,
  length-append, length-drop, take-append-drop,
}
use mcp_llm_gateway_suite.Base.Text.{Text}
use mcp_llm_gateway_suite.Regex.{Unicode}
use mcp_llm_gateway_suite.Redactor.Scan.{previous, iter_matches}
use mcp_llm_gateway_suite.Redactor.Emit.{Stats, holdback, last_characters, redact_range}
use mcp_llm_gateway_suite.Redactor.Stream.{Redactor, split_point, feed_open, lookbehind_context}
use mcp_llm_gateway_suite.Redactor.Matches.{longest}
use mcp_llm_gateway_suite.Redactor.Guard.{IsCut, split_point-IsCut}
use mcp_llm_gateway_suite.Redactor.Reference.{redacted, last_of, previous-last_of}
use mcp_llm_gateway_suite.Redactor.Emitted.{Settled, redact_range-redacted}
use mcp_llm_gateway_suite.Redactor.Local.{KnowsAscii}
use mcp_llm_gateway_suite.Redactor.Pieces.{
  drop-past, take-past, drop-length, last_of-last_characters, previous-append,
}
use mcp_llm_gateway_suite.Redactor.Tails.{let_go}
use mcp_llm_gateway_suite.Redactor.Settled.{IsLoose, accepted_at-settled}

module _ (u : Unicode) (knows : KnowsAscii u) where
  -- One chunk, on an open redactor that holds back enough.
  module _ (r : Redactor) (enough : longest ≤ r.max_holdback) (chunk more : Text) where
    abbrev buffer : Text
    buffer = r.buffer ++ chunk

    abbrev whole : Text
    whole = r.left_context ++ buffer

    abbrev cut_at : ℕ
    cut_at = split_point u r buffer

    abbrev counted : Stats
    counted = record (r.stats) {
      chunks_in = r.stats.chunks_in + 1;
      characters_in = r.stats.characters_in + length chunk;
    }

    abbrev safe : ℕ
    safe = cut_at - length r.left_context

    cut : IsCut u r buffer
    cut = split_point-IsCut u r buffer

    feed_open-Settled : Settled u r.placeholder whole more cut_at (length r.left_context)
    feed_open-Settled j from to =
        let i = j - length r.left_context in
        let s = drop i buffer in
        let parts : take i buffer ++ s ≡ buffer = take-append-drop i buffer in
        let same : drop j whole ≡ s = drop-past r.left_context buffer j from in
        let size = length-drop i buffer in
        let held : holdback u (take i buffer ++ s) r.max_holdback < length s =
          rw parts (omega (arith, size, cut.below)) in
        let loose : IsLoose u knows (previous whole j) s more =
          elim (let_go u (take i buffer) s r.max_holdback (omega (arith, enough)) held) [
            | inl long ↦ inl (omega (arith, enough))
            | inr ends ↦ inr ends
          ] in
        rw same (accepted_at-settled u knows (previous whole j) s more loose)

    -- The character before the place of the cut is the last one of the new context.
    cut-before :
        previous whole cut_at
        ≡ last_of none (last_characters lookbehind_context (r.left_context ++ take safe buffer))
    cut-before =
        previous-last_of whole cut_at
          (omega (arith, cut.below, length-append r.left_context buffer))
        ∙ ap (last_of none) (take-past r.left_context buffer cut_at cut.above)
        ∙ sym (
            last_of-last_characters lookbehind_context (r.left_context ++ take safe buffer)
              (omega arith))

    -- What a feed puts out and what it keeps are the reference of what it had.
    pub feed_open-redacted :
        (feed_open u r chunk).0
          ++ redacted u r.placeholder
              (last_of none (feed_open u r chunk).1.left_context)
              0
              ((feed_open u r chunk).1.buffer ++ more)
        ≡ redacted u r.placeholder (last_of none r.left_context) 0 ((r.buffer ++ chunk) ++ more)
    unfolding feed_open
    feed_open-redacted =
        let put =
          (redact_range whole (length r.left_context) cut_at counted r.placeholder
            (iter_matches u whole (length r.left_context))).0 in
        ap (λ p. put ++ redacted u r.placeholder p 0 (drop safe buffer ++ more)) (sym cut-before)
        ∙ ap (λ (t : Text). put ++ redacted u r.placeholder (previous whole cut_at) 0 (t ++ more))
            (sym (drop-past r.left_context buffer cut_at cut.above))
        ∙ redact_range-redacted u r.placeholder whole more (length r.left_context) cut_at counted
            cut.above (omega (arith, cut.below, length-append r.left_context buffer)) cut.clear
            feed_open-Settled
        ∙ ap (λ p. redacted u r.placeholder p 0 (drop (length r.left_context) whole ++ more))
            (previous-append r.left_context buffer)
        ∙ ap (λ (t : Text). redacted u r.placeholder (last_of none r.left_context) 0 (t ++ more))
            (drop-length r.left_context buffer)
