-- ===== src/Guardrail/Alike.antt =====
-- The two paths of the endpoint of task3_streaming_guardrail/llm_gateway.py compared, and its answers.
use mcp_llm_gateway_suite.Base.{
  ℕ, ◌<◌, ◌≡◌, refl, ◌∙◌, sym, ap, true, false, none, some, List, [], ◌∷◌, ◌++◌, map, arith, ltb,
  lt→ltb, All,
}
use mathlib.Core.List.{append-nil}
use mcp_llm_gateway_suite.Base.Text.{Text}
use mcp_llm_gateway_suite.Json.{is_encodable, object, Fields}
use mcp_llm_gateway_suite.Regex.{Unicode}
use mcp_llm_gateway_suite.Redactor.{default_placeholder, max_holdback_default, new_redactor}
use mcp_llm_gateway_suite.Redactor.Bounds.{concat}
use mcp_llm_gateway_suite.Redactor.Local.{KnowsAscii}
use mcp_llm_gateway_suite.Guardrail.Frames.{choices_of}
use mcp_llm_gateway_suite.Guardrail.Sse.{
  is_caught, Parsed, parsed, Event, Sse, redact_once, redact_sse_stream,
}
use mcp_llm_gateway_suite.Guardrail.Events.{event_texts, upstream_texts}
use mcp_llm_gateway_suite.Guardrail.Keeps.{ends_stream}
use mcp_llm_gateway_suite.Guardrail.Faithful.{redact_sse_stream_redacts}
use mcp_llm_gateway_suite.Guardrail.Endpoint.{
  redact_data, Client, responded, opened, json_response, event_stream, wants_stream, only_events,
  opened_events, stream_events, chat_completions,
}
use mcp_llm_gateway_suite.Guardrail.Broken.{chat_completions-stream}
use mcp_llm_gateway_suite.Guardrail.Paths.{messages, posted_redacts}

opened_events-whole :
    (u : Unicode) (loads : Text → Parsed) (lines : List Text) (status : ℕ) (events : List Event)
    (st : Sse)
    → status < 400
    → redact_sse_stream u loads (new_redactor max_holdback_default default_placeholder) lines
      ≡ some (events, st)
    → opened_events u loads (record { status = status; lines = lines; breaks = none }) ≡ some events
unfolding opened_events only_events
opened_events-whole u loads lines status events st le h =
    let small : ltb status 400 ≡ true = lt→ltb status 400 le in
    rw (small, h, only_events) (ap some (append-nil events))

append-empty : (xs ys : List Text) → xs ++ ys ≡ [] → (xs ≡ []) × (ys ≡ [])
append-empty [] ys h = (refl, h)
append-empty (x ∷ xs) ys h = absurd cc

-- A client that asks for a stream and one that does not get the same text from a provider that says
-- the same to both. The stream may cut the text into lines, frames and choices in any way; no line
-- before the ones that end it has a finish reason or the end, and those that end it carry no text.
-- The whole completion has the text as its only message, and has no half of a surrogate pair once
-- it is redacted. Both come with a status below 400, `json.loads` raises nothing that is not caught, and the digits of ASCII are decimal digits.
pub streamed-posted :
    (u : Unicode) (loads : Text → Parsed) (client : Client) (body body' : Fields)
    (status status' : ℕ) (lines ends : List Text) (fs : Fields)
    → KnowsAscii u
    → ((t : Text) → is_caught (loads t) ≡ true)
    → wants_stream body ≡ true
    → wants_stream body' ≡ false
    → client.stream body ≡ opened (record { status = status; lines = lines ++ ends; breaks = none })
    → client.post body' ≡ responded status' (parsed (object fs))
    → status < 400
    → status' < 400
    → All (λ text. ends_stream loads text ≡ false) lines
    → upstream_texts loads ends ≡ []
    → messages (choices_of fs) ≡ concat (upstream_texts loads lines) ∷ []
    → is_encodable (object (redact_data u fs)) ≡ true
    → (events : List Event) × (safe : Fields) × (chat_completions u loads client
          (parsed (object body))
        ≡ some (event_stream events))
      × (chat_completions u loads client (parsed (object body'))
          ≡ some (json_response status' (object safe)))
      × (messages (choices_of safe) ≡ concat (event_texts events) ∷ [])
unfolding stream_events
streamed-posted u loads client body body' status status' lines ends fs knows fine streams whole
      opens posts le le' quiet silent says encodable =
    let texts = upstream_texts loads lines in
    let (events, last, result, more, after, order, told) =
      redact_sse_stream_redacts u loads max_holdback_default lines ends knows (omega arith) fine
        quiet in
    let (no_more, no_after) = append-empty more after (order ∙ silent) in
    let heard : concat (event_texts events) ≡ redact_once u (concat texts) =
      told
      ∙ ap
          (λ (t : List Text).
            redact_once u (concat (texts ++ t)) ++ concat (map (redact_once u) after))
          no_more
      ∙ ap
          (λ (t : List Text).
            redact_once u (concat (texts ++ [])) ++ concat (map (redact_once u) t))
          no_after
      ∙ append-nil (redact_once u (concat (texts ++ [])))
      ∙ ap (λ (t : List Text). redact_once u (concat t)) (append-nil texts) in
    let (safe, answer, _, redacts, _) =
      posted_redacts u loads client body' status' fs whole posts le' encodable in
    let read = opened_events-whole u loads (lines ++ ends) status events last le result in
    (
      events,
      safe,
      chat_completions-stream u loads client body events streams (rw (opens, stream_events) read),
      answer,
      redacts ∙ ap (map (redact_once u)) says ∙ ap (λ (t : Text). t ∷ []) (sym heard),
    )
