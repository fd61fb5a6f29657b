-- ===== src/Guardrail/Lines.antt =====
-- A line and a list of lines in `redact_sse_stream`, task3_streaming_guardrail/llm_gateway.py: what the
-- events say for what the lines said.
use mcp_llm_gateway_suite.Base.{
  ◌≡◌, true, refl, sym, subst, some, List, [], ◌∷◌, ◌++◌, drop, inl, inr, Bool-cases,
}
use mcp_llm_gateway_suite.Base.Text.{Text, codes, text_eq, starts_with, strip}
use mcp_llm_gateway_suite.Json.{null, boolean, number, decimal, str, array, object}
use mcp_llm_gateway_suite.Gateway.Rpc.{as_object}
use mcp_llm_gateway_suite.Regex.{Unicode}
use mcp_llm_gateway_suite.Redactor.Local.{KnowsAscii}
use mcp_llm_gateway_suite.Guardrail.Sse.{
  is_caught, Parsed, parsed, decode_error, value_error, too_deep, line, raw_data, done, Sse,
  flush_sse, frame_or_empty, handle_parsed, handle_line, redact_lines,
}
use mcp_llm_gateway_suite.Guardrail.Total.{Text-cases}
use mcp_llm_gateway_suite.Guardrail.Events.{
  event_texts, parsed_texts, line_texts, upstream_texts, spoken, spoken-append,
}
use mcp_llm_gateway_suite.Guardrail.Tells.{
  At, Tells, flush_sse-Hears, flush_sse-Tells, silent_event, handle_frame-Tells,
}
use mcp_llm_gateway_suite.Guardrail.Spoken.{Hears}
use mcp_llm_gateway_suite.Guardrail.Heard.{Hears-Hears}

module _ (u : Unicode) (knows : KnowsAscii u) where
  handle_parsed-Tells :
      (payload : Text) (st : Sse) (p : Parsed) (xs ys : List Text) (said : Text)
      → is_caught p ≡ true
      → At u knows xs ys said st
      → Tells u knows xs ys said (parsed_texts p) (handle_parsed u payload st p)
  unfolding handle_parsed as_object event_texts parsed_texts
  handle_parsed-Tells payload st too_deep xs ys said fine t = absurd cc
  handle_parsed-Tells payload st value_error xs ys said fine t = absurd cc
  handle_parsed-Tells payload st decode_error xs ys said fine t =
      silent_event u knows st xs ys said (raw_data payload ∷ []) refl t
  handle_parsed-Tells payload st (parsed null) xs ys said fine t =
      silent_event u knows st xs ys said (raw_data payload ∷ []) refl t
  handle_parsed-Tells payload st (parsed (boolean b)) xs ys said fine t =
      silent_event u knows st xs ys said (raw_data payload ∷ []) refl t
  handle_parsed-Tells payload st (parsed (number n)) xs ys said fine t =
      silent_event u knows st xs ys said (raw_data payload ∷ []) refl t
  handle_parsed-Tells payload st (parsed (decimal n k)) xs ys said fine t =
      silent_event u knows st xs ys said (raw_data payload ∷ []) refl t
  handle_parsed-Tells payload st (parsed (str s)) xs ys said fine t =
      silent_event u knows st xs ys said (raw_data payload ∷ []) refl t
  handle_parsed-Tells payload st (parsed (array is)) xs ys said fine t =
      silent_event u knows st xs ys said (raw_data payload ∷ []) refl t
  handle_parsed-Tells payload st (parsed (object fs)) xs ys said fine t =
      handle_frame-Tells u knows fs (record st { last_frame = some fs }) xs ys said t

  module _ (loads : Text → Parsed) (fine : (t : Text) → is_caught (loads t) ≡ true) where
    pub handle_line-Tells :
        (text : Text) (st : Sse) (xs ys : List Text) (said : Text)
        → At u knows xs ys said st
        → Tells u knows xs ys said (line_texts loads text) (handle_line u loads text st)
    unfolding handle_line line_texts event_texts
    handle_line-Tells text st xs ys said t = elim (Text-cases (strip text)) [
      | inl blank ↦
          rw (blank, handle_line, line_texts) (silent_event u knows st xs ys said [] refl t)
      | inr (x, rest, full) ↦ elim (Bool-cases (starts_with text (codes "data:"))) [
        | inr other ↦
            rw (full, handle_line, line_texts, other)
              (silent_event u knows st xs ys said (line text ∷ []) refl t)
        | inl data_line ↦
            let payload = strip (drop 5 text) in
            elim (Bool-cases (text_eq payload (codes "[DONE]"))) [
              | inl ends ↦
                  rw (full, handle_line, line_texts, data_line, ends)
                    (flush_sse-Tells u knows (frame_or_empty st.last_frame) st xs ys said done refl
                      t)
              | inr goes_on ↦
                  rw (full, handle_line, line_texts, data_line, goes_on)
                    (handle_parsed-Tells payload st (loads payload) xs ys said (fine payload) t)
            ]
      ]
    ]

    pub redact_lines-Tells :
        (lines : List Text) (st : Sse) (xs ys : List Text) (said : Text)
        → At u knows xs ys said st
        → Tells u knows xs ys said (upstream_texts loads lines) (redact_lines u loads lines st)
    unfolding redact_lines upstream_texts
    redact_lines-Tells [] st xs ys said t =
        let template = frame_or_empty st.last_frame in
        record {
          events = (flush_sse u template st).0;
          state = (flush_sse u template st).1;
          result = refl;
          hears = flush_sse-Hears u knows template st xs ys said t;
        }
    redact_lines-Tells (text ∷ lines) st xs ys said t =
        let first = handle_line-Tells text st xs ys said t in
        let h = first.hears in
        let later =
          redact_lines-Tells lines first.state (xs ++ h.more) h.after (said ++ spoken first.events)
            h.told in
        record {
          events = first.events ++ later.events;
          state = later.state;
          result = let e = first.result in let e' = later.result in rw (e, redact_lines, e') refl;
          hears =
              subst
                (λ out.
                  Hears u knows xs ys said (line_texts loads text ++ upstream_texts loads lines) out
                    later.state.flushed later.state.redactor)
                (sym (spoken-append first.events later.events))
                (Hears-Hears u knows xs ys said (line_texts loads text) (upstream_texts loads lines)
                  (spoken first.events) (spoken later.events) first.state.flushed
                  later.state.flushed first.state.redactor later.state.redactor h later.hears);
        }
