-- ===== src/Guardrail/Replies.antt =====
-- What the endpoint of task3_streaming_guardrail/llm_gateway.py answers whatever the provider does.
use mcp_llm_gateway_suite.Base.{
  ℕ, ◌<◌, ◌≤◌, ◌≡◌, ◌≢◌, refl, ◌∙◌, ap, Bool, true, false, inl, inr, Option, some, List, [], ◌∷◌,
  ◌++◌, ltb, ltb→lt, ltb-false→le, Bool-cases, Option-cases,
}
use mathlib.Core.List.{append-nil}
use mcp_llm_gateway_suite.Base.Text.{Text}
use mcp_llm_gateway_suite.Json.{
  is_encodable, Json, null, boolean, number, decimal, str, array, object, Fields,
}
use mcp_llm_gateway_suite.Gateway.Rpc.{as_object}
use mcp_llm_gateway_suite.Regex.{Unicode}
use mcp_llm_gateway_suite.Redactor.{default_placeholder, max_holdback_default, new_redactor}
use mcp_llm_gateway_suite.Guardrail.Sse.{
  is_caught, Parsed, parsed, decode_error, value_error, too_deep, Event, frame, done, Sse,
  redact_sse_stream,
}
use mcp_llm_gateway_suite.Guardrail.Steps.{InStep-open}
use mcp_llm_gateway_suite.Guardrail.Total.{IsInStep, Goes, handle_line-Goes, redact_sse_stream_ends}
use mcp_llm_gateway_suite.Guardrail.Endpoint.{
  redact_data, rendered, Failure, timed_out, transport_error, Posted, post_failed, post_raised,
  open_raised, responded, UpstreamStream, Opened, open_failed, opened, Client, HttpResponse,
  json_response, event_stream, wants_stream, timeout_error, unavailable_error, malformed_error,
  refused_error, failure_error, failure_status, completion_response, posted_response,
  failure_events, read_lines, fresh_state, only_events, opened_events, stream_events,
  chat_completions,
}
use mcp_llm_gateway_suite.Guardrail.Broken.{chat_completions-stream}
use mcp_llm_gateway_suite.Guardrail.Paths.{chat_completions-post}

-- The errors of the endpoint: fixed texts, and of the provider at most its status.
pub data IsUpstreamError : ℕ → Json → Type 0 where
  is_late : IsUpstreamError 504 timeout_error
  is_down : IsUpstreamError 502 unavailable_error
  is_malformed : IsUpstreamError 502 malformed_error
  is_refused : {n : ℕ} → 400 ≤ n → IsUpstreamError 502 (refused_error n)

-- What a response may be to a request that wants a stream, or none, for what the provider does.
pub data Fits (u : Unicode) (loads : Text → Parsed) (o : Opened) (p : Posted)
    : Bool → HttpResponse → Type 0 where
  whole_stream :
      {events : List Event} (up : UpstreamStream) (last : Sse)
      → o ≡ opened up
      → up.status < 400
      → redact_sse_stream u loads (new_redactor max_holdback_default default_placeholder) up.lines
        ≡ some (events, last)
      → Fits u loads o p true (event_stream events)
  cut_stream :
      (said : List Event) {events : List Event} {status : ℕ} {content : Json}
      → IsUpstreamError status content
      → events ≡ said ++ frame content ∷ done ∷ []
      → Fits u loads o p true (event_stream events)
  passed_on :
      {status : ℕ} (fs : Fields)
      → p ≡ responded status (parsed (object fs))
      → status < 400
      → Fits u loads o p false (json_response status (object (redact_data u fs)))
  failed_post :
      {status : ℕ} {content : Json}
      → IsUpstreamError status content
      → Fits u loads o p false (json_response status content)

failure-IsUpstreamError : (f : Failure) → IsUpstreamError (failure_status f) (failure_error f)
unfolding failure_status failure_error
failure-IsUpstreamError timed_out = is_late
failure-IsUpstreamError transport_error = is_down

read_lines_ends :
    (u : Unicode) (loads : Text → Parsed) (lines : List Text) (st : Sse)
    → ((t : Text) → is_caught (loads t) ≡ true)
    → IsInStep st
    → Goes (read_lines u loads lines st)
unfolding read_lines
read_lines_ends u loads [] st fine i = ([], st, refl, i)
read_lines_ends u loads (text ∷ lines) st fine i =
    let (events, st', e, i') = handle_line-Goes u loads text st fine i in
    let (more, last, e', i'') = read_lines_ends u loads lines st' fine i' in
    (events ++ more, last, rw (e, read_lines, e') refl, i'')

module _ (u : Unicode) (loads : Text → Parsed) (o : Opened) (p : Posted) where
  -- A result that is there and fits.
  abbrev Comes : Option HttpResponse → Type 0
  Comes result =
      (response : HttpResponse) × (result ≡ some response) × Fits u loads o p false response

  abbrev Runs : Option (List Event) → Type 0
  Runs result =
      (events : List Event) × (result ≡ some events) × Fits u loads o p true (event_stream events)

  malformed-Comes : Comes (some (json_response 502 malformed_error))
  malformed-Comes = (_, refl, failed_post is_malformed)

  completion_response-Comes :
      (status : ℕ) (body : Parsed)
      → p ≡ responded status body
      → status < 400
      → body ≢ too_deep
      → ((fs : Fields)
          → body ≡ parsed (object fs)
          → is_encodable (object (redact_data u fs)) ≡ true)
      → Comes (completion_response u status body)
  unfolding completion_response as_object rendered
  completion_response-Comes status too_deep same le fine prints = absurd (fine refl)
  completion_response-Comes status value_error same le fine prints = malformed-Comes
  completion_response-Comes status decode_error same le fine prints = malformed-Comes
  completion_response-Comes status (parsed null) same le fine prints = malformed-Comes
  completion_response-Comes status (parsed (boolean b)) same le fine prints = malformed-Comes
  completion_response-Comes status (parsed (number n)) same le fine prints = malformed-Comes
  completion_response-Comes status (parsed (decimal n k)) same le fine prints = malformed-Comes
  completion_response-Comes status (parsed (str s)) same le fine prints = malformed-Comes
  completion_response-Comes status (parsed (array is)) same le fine prints = malformed-Comes
  completion_response-Comes status (parsed (object fs)) same le fine prints =
      let fine_text = prints fs refl in rw fine_text (_, refl, passed_on fs same le)

  posted_response-Comes :
      (q : Posted)
      → p ≡ q
      → ((n : ℕ) → q ≢ responded n too_deep)
      → ((n : ℕ) (fs : Fields)
          → q ≡ responded n (parsed (object fs))
          → is_encodable (object (redact_data u fs)) ≡ true)
      → q ≢ post_raised
      → Comes (posted_response u q)
  unfolding posted_response
  posted_response-Comes post_raised same fine prints well = absurd (well refl)
  posted_response-Comes (post_failed f) same fine prints well =
      (_, refl, failed_post (failure-IsUpstreamError f))
  posted_response-Comes (responded status body) same fine prints well =
      elim (Bool-cases (ltb status 400)) [
        | inl small ↦ rw small (
            completion_response-Comes status body same (ltb→lt status 400 small)
              (λ e. fine status (ap (responded status) e))
              (λ fs e. prints status fs (ap (responded status) e)))
        | inr large ↦ rw large (_, refl, failed_post (is_refused (ltb-false→le status 400 large)))
      ]

  error-Runs :
      (said : List Event) (status : ℕ) (content : Json)
      → IsUpstreamError status content
      → Runs (some (said ++ frame content ∷ done ∷ []))
  error-Runs said status content e = (_, refl, cut_stream said e refl)

  module _ (fine : (t : Text) → is_caught (loads t) ≡ true) where
    whole_events-Runs :
        (up : UpstreamStream)
        → o ≡ opened up
        → up.status < 400
        → Runs (
            only_events
              (redact_sse_stream u loads
                (new_redactor max_holdback_default default_placeholder)
                up.lines)
              [])
    unfolding only_events new_redactor
    whole_events-Runs up same le =
        let r = new_redactor max_holdback_default default_placeholder in
        let (events, last, e, _, _) = redact_sse_stream_ends u loads r up.lines fine refl in
        (events, rw e (ap some (append-nil events)), whole_stream up last same le e)

    read_events-Runs :
        (lines : List Text) (f : Failure)
        → Runs (only_events (read_lines u loads lines fresh_state) (failure_events f))
    unfolding only_events new_redactor failure_events
    read_events-Runs lines f =
        let (events, last, e, _) =
          read_lines_ends u loads lines fresh_state fine (InStep-open fresh_state.redactor refl) in
        rw e (error-Runs events (failure_status f) (failure_error f) (failure-IsUpstreamError f))

    opened_events-Runs : (up : UpstreamStream) → o ≡ opened up → Runs (opened_events u loads up)
    unfolding opened_events failure_events
    opened_events-Runs up same = elim (Bool-cases (ltb up.status 400)) [
      | inl small ↦ elim (Option-cases up.breaks) [
        | inl ends ↦
            rw (ends, opened_events, small) (whole_events-Runs up same (ltb→lt up.status 400 small))
        | inr (f, cut) ↦ rw (cut, opened_events, small) (read_events-Runs up.lines f)
      ]
      | inr large ↦ elim (Option-cases up.breaks) [
        | inl ends ↦
            rw (ends, opened_events, large)
              (error-Runs [] 502 (refused_error up.status)
                (is_refused (ltb-false→le up.status 400 large)))
        | inr (f, cut) ↦
            rw (cut, opened_events, large)
              (error-Runs [] (failure_status f) (failure_error f) (failure-IsUpstreamError f))
      ]
    ]

    stream_events-Runs : (q : Opened) → o ≡ q → q ≢ open_raised → Runs (stream_events u loads q)
    unfolding stream_events failure_events
    stream_events-Runs open_raised same well = absurd (well refl)
    stream_events-Runs (open_failed f) same well =
        error-Runs [] (failure_status f) (failure_error f) (failure-IsUpstreamError f)
    stream_events-Runs (opened up) same well = opened_events-Runs up same

-- Every request whose body is an object is answered, and no exception escapes, whatever the provider
-- does, under four conditions: `json.loads` raises nothing for a line that is not caught, the body of
-- a whole response does not run out of recursion, what is left of it by the redaction can be encoded,
-- and the client raises nothing but an `httpx.HTTPError`, so that the request can be encoded too. A request that wants a stream gets the redacted stream of the provider's lines, or some
-- events, then a frame with an error and the end; one that wants none gets the redacted response
-- under its status, if that is below 400, or an error with status 502 or 504. The errors have fixed
-- texts and show at most the provider's status.
pub chat_completions-Fits :
    (u : Unicode) (loads : Text → Parsed) (client : Client) (body : Fields)
    → ((t : Text) → is_caught (loads t) ≡ true)
    → ((n : ℕ) → client.post body ≢ responded n too_deep)
    → ((n : ℕ) (fs : Fields)
        → client.post body ≡ responded n (parsed (object fs))
        → is_encodable (object (redact_data u fs)) ≡ true)
    → client.post body ≢ post_raised
    → client.stream body ≢ open_raised
    → (response : HttpResponse) × (chat_completions u loads client (parsed (object body))
        ≡ some response)
      × Fits u loads (client.stream body) (client.post body) (wants_stream body) response
chat_completions-Fits u loads client body fine readable prints posts opens =
    elim (Bool-cases (wants_stream body)) [
      | inl streams ↦
          let (events, e, fits) =
            stream_events-Runs u loads (client.stream body) (client.post body) fine
              (client.stream body) refl opens in
          (
            event_stream events,
            chat_completions-stream u loads client body events streams e,
            rw streams fits,
          )
      | inr whole ↦
          let (response, e, fits) =
            posted_response-Comes u loads (client.stream body) (client.post body) (client.post body)
              refl readable prints posts in
          (response, chat_completions-post u loads client body whole ∙ e, rw whole fits)
    ]
