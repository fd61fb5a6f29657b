-- ===== src/Guardrail/Broken.antt =====
-- Streams that break off, in the endpoint of task3_streaming_guardrail/llm_gateway.py.
use mcp_llm_gateway_suite.Base.{
  ℕ, ◌<◌, ◌≡◌, refl, ◌∙◌, sym, ap, subst, Bool, true, false, Option, some, List, [], ◌∷◌, ◌++◌,
  arith, ltb, lt→ltb, All,
}
use mathlib.Core.List.{append_assoc, append-nil}
use mcp_llm_gateway_suite.Base.Text.{Text}
use mcp_llm_gateway_suite.Json.{Fields, object}
use mcp_llm_gateway_suite.Gateway.Rpc.{as_object}
use mcp_llm_gateway_suite.Regex.{Unicode}
use mcp_llm_gateway_suite.Redactor.{Redactor, default_placeholder, max_holdback_default, flush}
use mcp_llm_gateway_suite.Redactor.Bounds.{concat}
use mcp_llm_gateway_suite.Redactor.Local.{KnowsAscii}
use mcp_llm_gateway_suite.Redactor.Faithful.{new-Owes}
use mcp_llm_gateway_suite.Guardrail.Sse.{is_caught, Parsed, parsed, Event, Sse, redact_once}
use mcp_llm_gateway_suite.Guardrail.Events.{
  event_texts, line_texts, upstream_texts, spoken, spoken-append,
}
use mcp_llm_gateway_suite.Guardrail.Spoken.{Told, pending, flushed-policy}
use mcp_llm_gateway_suite.Guardrail.Tells.{At}
use mcp_llm_gateway_suite.Guardrail.Faithful.{one_line}
use mcp_llm_gateway_suite.Guardrail.Keeps.{ends_stream}
use mcp_llm_gateway_suite.Guardrail.Endpoint.{
  Failure, Client, opened, event_stream, wants_stream, failure_events, read_lines, fresh_state,
  only_events, opened_events, stream_events, chat_completions,
}

module _ (u : Unicode) (knows : KnowsAscii u) (loads : Text → Parsed)
    (fine : (t : Text) → is_caught (loads t) ≡ true) where
  -- Lines that do not end the stream: what was said for them, while the redactor is still open.
  record Reads (xs : List Text) (said : Text) (lines : List Text) (o : Option (List Event × Sse))
      : Type 0 where
    events : List Event
    state : Sse
    result : o ≡ some (events, state)
    goes_on : state.flushed ≡ false
    told : At u knows (xs ++ upstream_texts loads lines) [] (said ++ spoken events) state

  read_lines-Reads :
      (lines : List Text) (st : Sse) (xs : List Text) (said : Text)
      → All (λ text. ends_stream loads text ≡ false) lines
      → At u knows xs [] said st
      → st.flushed ≡ false
      → Reads xs said lines (read_lines u loads lines st)
  unfolding read_lines upstream_texts event_texts
  read_lines-Reads [] st xs said quiet t before = record {
    events = [];
    state = st;
    result = refl;
    goes_on = before;
    told =
        subst (λ zs. At u knows zs [] (said ++ []) st) (sym (append-nil xs))
          (subst (λ s. At u knows xs [] s st) (sym (append-nil said)) t);
  }
  read_lines-Reads (text ∷ lines) st xs said quiet t before =
      let (events, st', e, kept, t') =
        one_line u knows loads fine text st xs said quiet.0 t before in
      let later =
        read_lines-Reads lines st' (xs ++ line_texts loads text) (said ++ spoken events) quiet.1 t'
          kept in
      record {
        events = events ++ later.events;
        state = later.state;
        result = let e' = later.result in rw (e, read_lines, e') refl;
        goes_on = later.goes_on;
        told =
            subst (λ zs. At u knows zs [] (said ++ spoken (events ++ later.events)) later.state)
              (append_assoc xs (line_texts loads text) (upstream_texts loads lines))
              (subst
                (λ s.
                  At u knows ((xs ++ line_texts loads text) ++ upstream_texts loads lines) [] s
                    later.state)
                (append_assoc said (spoken events) (spoken later.events)
                  ∙ ap (λ (t : Text). said ++ t) (sym (spoken-append events later.events)))
                later.told);
      }

  -- What an open redactor still owes is what a flush would give.
  Told-owed :
      (xs : List Text) (said : Text) (flushed : Bool) (r : Redactor)
      → flushed ≡ false
      → Told u knows xs [] said flushed r
      → said ++ (flush u r).0 ≡ redact_once u (concat xs)
  Told-owed xs said false r h (pending o) =
      flushed-policy u knows xs said r o ∙ append-nil (redact_once u (concat xs))
  Told-owed xs said true r h t = absurd cc

pub chat_completions-stream :
    (u : Unicode) (loads : Text → Parsed) (client : Client) (body : Fields) (events : List Event)
    → wants_stream body ≡ true
    → stream_events u loads (client.stream body) ≡ some events
    → chat_completions u loads client (parsed (object body)) ≡ some (event_stream events)
unfolding chat_completions as_object
chat_completions-stream u loads client body events streams h = rw (streams, h)

opened_events-breaks :
    (u : Unicode) (loads : Text → Parsed) (lines : List Text) (status : ℕ) (f : Failure)
    (events : List Event) (st : Sse)
    → status < 400
    → read_lines u loads lines fresh_state ≡ some (events, st)
    → opened_events u loads (record { status = status; lines = lines; breaks = some f })
      ≡ some (events ++ failure_events f)
unfolding opened_events only_events
opened_events-breaks u loads lines status f events st le h =
    let small : ltb status 400 ≡ true = lt→ltb status 400 le in rw (small, h, only_events) refl

-- A stream that times out or breaks off before it has ended: the client gets a frame with a fixed
-- error and the end after what was put out before. The texts of the choices in that, with what a
-- flush of the redactor would have added, are the redaction of all the texts of the choices that
-- came in, as one text, however they were cut into lines and choices: what went out is the start of
-- it. Lines and payloads that are no frames go out as they came. The provider has answered with a status below 400, no line had the end or a finish reason,
-- `json.loads` raises nothing that is not caught, and the digits of ASCII are decimal digits.
pub broken_stream_redacts :
    (u : Unicode) (loads : Text → Parsed) (client : Client) (body : Fields) (status : ℕ)
    (lines : List Text) (f : Failure)
    → KnowsAscii u
    → ((t : Text) → is_caught (loads t) ≡ true)
    → wants_stream body ≡ true
    → client.stream body ≡ opened (record { status = status; lines = lines; breaks = some f })
    → status < 400
    → All (λ text. ends_stream loads text ≡ false) lines
    → (said : List Event) × (last : Sse) × (read_lines u loads lines fresh_state
        ≡ some (said, last))
      × (chat_completions u loads client (parsed (object body))
          ≡ some (event_stream (said ++ failure_events f)))
      × (concat (event_texts said) ++ (flush u last.redactor).0
          ≡ redact_once u (concat (upstream_texts loads lines)))
unfolding stream_events
broken_stream_redacts u loads client body status lines f knows fine streams answers le quiet =
    let t =
      read_lines-Reads u knows loads fine lines fresh_state [] [] quiet
        (pending (new-Owes u knows max_holdback_default default_placeholder (omega arith))) refl in
    let read = opened_events-breaks u loads lines status f t.events t.state le t.result in
    (
      t.events,
      t.state,
      t.result,
      chat_completions-stream u loads client body (t.events ++ failure_events f) streams
          (rw (answers, stream_events) read),
      Told-owed u knows loads fine (upstream_texts loads lines) (spoken t.events) t.state.flushed
          t.state.redactor t.goes_on t.told,
    )
