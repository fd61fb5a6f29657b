-- ===== src/Guardrail/Endpoint.antt =====
-- `POST /v1/chat/completions` of task3_streaming_guardrail/llm_gateway.py. The client of httpx with the
-- provider behind it is an argument.
use mcp_llm_gateway_suite.Base.{
  ℕ, Bool, true, false, not, Option, none, some, List, [], ◌∷◌, ◌++◌, ltb, ◌==◌, if◌then◌else◌,
}
use mcp_llm_gateway_suite.Base.Int.{pos, negsuc}
use mcp_llm_gateway_suite.Base.Text.{Text, codes}
use mcp_llm_gateway_suite.Json.{
  Json, null, boolean, number, decimal, str, array, object, Items, nil, item, Fields, end, field,
  get, put, is_encodable,
}
use mcp_llm_gateway_suite.Gateway.Rpc.{as_object, as_str, as_array}
use mcp_llm_gateway_suite.Regex.{Unicode}
use mcp_llm_gateway_suite.Redactor.{new_redactor, default_placeholder, max_holdback_default}
use mcp_llm_gateway_suite.Guardrail.Sse.{
  Parsed, parsed, decode_error, value_error, too_deep, Event, frame, done, Sse, redact_once,
  handle_line, redact_sse_stream,
}

-- `httpx.TimeoutException`, and every other `httpx.HTTPError`.
pub data Failure : Type 0 where
  timed_out transport_error : Failure

-- What `client.post` does: it fails, gives a response whose body is what `response.json()` makes of
-- it, or raises another exception, as for a request that cannot be encoded.
pub data Posted : Type 0 where
  post_failed : Failure → Posted
  responded : ℕ → Parsed → Posted
  post_raised : Posted

-- A response that is read line by line, and how the reading breaks off, if it does.
pub record UpstreamStream : Type 0 where
  pub status : ℕ
  pub lines : List Text
  pub breaks : Option Failure

-- What `client.stream` does.
pub data Opened : Type 0 where
  open_failed : Failure → Opened
  opened : UpstreamStream → Opened
  open_raised : Opened

pub record Client : Type 0 where
  pub post : Fields → Posted
  pub stream : Fields → Opened

-- What the endpoint hands to `JSONResponse`, or what its generator yields.
pub data HttpResponse : Type 0 where
  json_response : ℕ → Json → HttpResponse
  event_stream : List Event → HttpResponse

-- Python's `bool` of a value.
unfoldable pub is_truthy : Json → Bool
is_truthy null = false
is_truthy (boolean b) = b
is_truthy (number (pos n)) = not (n == 0)
is_truthy (number (negsuc n)) = true
is_truthy (decimal (pos n) k) = not (n == 0)
is_truthy (decimal (negsuc n) k) = true
is_truthy (str []) = false
is_truthy (str (c ∷ s)) = true
is_truthy (array nil) = false
is_truthy (array (item v is)) = true
is_truthy (object end) = false
is_truthy (object (field k v fs)) = true

-- `body.get("stream", True)`
unfoldable pub wants_stream : Fields → Bool
unfolding is_truthy get
wants_stream body = elim (get (codes "stream") body) [ none ↦ true | some v ↦ is_truthy v ]

abbrev pub timeout_error : Json
timeout_error = object (
    field (codes "error")
      (object (
        field (codes "message") (str (codes "The model provider did not respond in time."))
          (field (codes "type") (str (codes "upstream_timeout")) end)))
      end)

abbrev pub upstream_error : Text → Fields → Json
upstream_error message more = object (
    field (codes "error")
      (object (
        field (codes "message") (str message)
          (field (codes "type") (str (codes "upstream_error")) more)))
      end)

abbrev pub unavailable_error : Json
unavailable_error = upstream_error (codes "The model provider is unavailable.") end

abbrev pub malformed_error : Json
malformed_error = upstream_error (codes "The model provider returned a malformed response.") end

abbrev pub refused_error : ℕ → Json
refused_error status =
    upstream_error (codes "Upstream provider error")
      (field (codes "status") (number (pos status)) end)

unfoldable pub failure_error : Failure → Json
failure_error timed_out = timeout_error
failure_error transport_error = unavailable_error

unfoldable pub failure_status : Failure → ℕ
failure_status timed_out = 504
failure_status transport_error = 502

-- `message["content"] = redact_complete(message["content"])`
unfoldable pub redact_message : Unicode → Fields → Fields
unfolding as_str get put
redact_message u message = elim (as_str (get (codes "content") message)) [
  | none ↦ message
  | some text ↦ put (codes "content") (str (redact_once u text)) message
]

unfoldable pub redact_choice : Unicode → Fields → Fields
unfolding redact_message as_object get put
redact_choice u choice = elim (as_object (get (codes "message") choice)) [
  | none ↦ choice
  | some message ↦ put (codes "message") (object (redact_message u message)) choice
]

unfoldable pub redact_items : Unicode → Items → Items
unfolding redact_choice as_object
redact_items u nil = nil
redact_items u (item v is) = elim (as_object (some v)) [
  | none ↦ item v (redact_items u is)
  | some choice ↦ item (object (redact_choice u choice)) (redact_items u is)
]

-- The loop over the choices of a completion.
unfoldable pub redact_data : Unicode → Fields → Fields
unfolding redact_items as_array get put
redact_data u data_fields = elim (as_array (get (codes "choices") data_fields)) [
  | none ↦ data_fields
  | some is ↦ put (codes "choices") (array (redact_items u is)) data_fields
]

-- `JSONResponse`, which raises where a text cannot be encoded.
unfoldable pub rendered : ℕ → Json → Option HttpResponse
unfolding is_encodable
rendered status v = if is_encodable v then some (json_response status v) else none

unfoldable pub completion_response : Unicode → ℕ → Parsed → Option HttpResponse
unfolding redact_data as_object rendered
completion_response u status too_deep = none
completion_response u status value_error = some (json_response 502 malformed_error)
completion_response u status decode_error = some (json_response 502 malformed_error)
completion_response u status (parsed v) = elim (as_object (some v)) [
  | none ↦ some (json_response 502 malformed_error)
  | some data_fields ↦ rendered status (object (redact_data u data_fields))
]

-- The path without streaming; `none` if an exception escapes it.
unfoldable pub posted_response : Unicode → Posted → Option HttpResponse
unfolding completion_response failure_status failure_error
posted_response u post_raised = none
posted_response u (post_failed f) = some (json_response (failure_status f) (failure_error f))
posted_response u (responded status body) =
    if ltb status 400
    then completion_response u status body
    else some (json_response 502 (refused_error status))

unfoldable pub failure_events : Failure → List Event
unfolding failure_error
failure_events f = frame (failure_error f) ∷ done ∷ []

-- The lines that are read before the reading breaks off.
unfoldable pub read_lines : Unicode → (Text → Parsed) → List Text → Sse → Option (List Event × Sse)
unfolding handle_line
read_lines u loads [] st = some ([], st)
read_lines u loads (text ∷ lines) st = elim (handle_line u loads text st) [
  | none ↦ none
  | some (events, st') ↦ elim (read_lines u loads lines st') [
    | none ↦ none
    | some (more, last) ↦ some (events ++ more, last)
  ]
]

abbrev pub fresh_state : Sse
fresh_state = record {
  redactor = new_redactor max_holdback_default default_placeholder;
  flushed = false;
  last_frame = none;
}

unfoldable pub only_events : Option (List Event × Sse) → List Event → Option (List Event)
only_events none closing = none
only_events (some (events, st)) closing = some (events ++ closing)

-- The generator under an upstream that it could open.
unfoldable pub opened_events : Unicode → (Text → Parsed) → UpstreamStream → Option (List Event)
unfolding only_events read_lines redact_sse_stream failure_events
opened_events u loads up = elim up.breaks [
  | none ↦
      if ltb up.status 400
      then only_events
          (redact_sse_stream u loads (new_redactor max_holdback_default default_placeholder)
            up.lines)
          []
      else some (frame (refused_error up.status) ∷ done ∷ [])
  | some f ↦
      if ltb up.status 400
      then only_events (read_lines u loads up.lines fresh_state) (failure_events f)
      else some (failure_events f)
]

unfoldable pub stream_events : Unicode → (Text → Parsed) → Opened → Option (List Event)
unfolding opened_events failure_events
stream_events u loads open_raised = none
stream_events u loads (open_failed f) = some (failure_events f)
stream_events u loads (opened up) = opened_events u loads up

-- The endpoint for a body of a request; `none` if an exception escapes it.
unfoldable pub chat_completions : Unicode → (Text → Parsed) → Client → Parsed → Option HttpResponse
unfolding posted_response stream_events wants_stream as_object
chat_completions u loads client too_deep = none
chat_completions u loads client value_error = none
chat_completions u loads client decode_error = none
chat_completions u loads client (parsed v) = elim (as_object (some v)) [
  | none ↦ none
  | some body ↦
      if wants_stream body
      then elim (stream_events u loads (client.stream body)) [
        | none ↦ none
        | some events ↦ some (event_stream events)
      ]
      else posted_response u (client.post body)
]
