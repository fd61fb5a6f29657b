-- ===== src/Gateway/Batch.antt =====
-- `handle_batch` and `proxy` of task2_mcp_gateway/mcp_gateway.py.
use mcp_llm_gateway_suite.Base.{
  ℕ, ◌+◌, Bool, not, Option, none, some, List, [], ◌∷◌, ◌++◌, if◌then◌else◌,
}
use mcp_llm_gateway_suite.Base.Text.{Text, codes}
use mcp_llm_gateway_suite.Json.{Json, null, array, object, Fields, get}
use mcp_llm_gateway_suite.Gateway.Auth.{Principal, granted, refused, resolve_principal}
use mcp_llm_gateway_suite.Gateway.Rpc.{
  parse_error, invalid_request, unauthenticated, as_object, or_null, is_null, item_list, array_of,
  rpc_error, looks_like_rpc_request,
}
use mcp_llm_gateway_suite.Gateway.Authorize.{
  App, downstream_headers, Effect, sent, auth_failed, upstream_timeout, exception_logged, authorize,
}
use mcp_llm_gateway_suite.Gateway.Proxy.{
  Body, json_body, Reply, answered, timed_out, http_error, other_error, Upstream, filtered,
  Response, Handled, plain, rendered_response, request_id_data, unavailable, json_content,
  handle_single,
}

-- `entry.get("id") is not None`
unfoldable pub wants_answer : Fields → Bool
unfolding or_null is_null get
wants_answer entry = not (is_null (or_null (get (codes "id") entry)))

-- What an entry adds to the responses, `none` if it raises; the messages it sent, as a number; and
-- its effects.
pub record EntryEnd : Type 0 where
  pub responses : Option (List Json)
  pub calls : ℕ
  pub effects : List Effect

-- The body for an entry that is answered, with the effects of a failure.
unfoldable pub answer_body : Fields → Text → Body → Json × List Effect
unfolding unavailable or_null get
answer_body entry request_id (json_body body) = (body, [])
answer_body entry request_id _ = (
  unavailable (or_null (get (codes "id") entry)) (codes "Upstream MCP server unavailable")
      request_id,
  exception_logged ∷ [],
)

unfoldable pub entry_body : Fields → Text → Reply → Json × List Effect
unfolding answer_body unavailable or_null get
entry_body entry request_id (answered r) = answer_body entry request_id r.body
entry_body entry request_id timed_out = (
  unavailable (or_null (get (codes "id") entry)) (codes "Upstream MCP server timed out") request_id,
  upstream_timeout ∷ [],
)
entry_body entry request_id http_error = (
  unavailable (or_null (get (codes "id") entry)) (codes "Upstream MCP server unavailable")
      request_id,
  exception_logged ∷ [],
)
entry_body entry request_id other_error = (
  unavailable (or_null (get (codes "id") entry)) (codes "Upstream MCP server unavailable")
      request_id,
  exception_logged ∷ [],
)

-- A response that is added only if the entry has an `id`.
unfoldable pub answer_of : Fields → Json → List Json
unfolding wants_answer
answer_of entry response = if wants_answer entry then response ∷ [] else []

-- An entry that looks like a request.
unfoldable pub handle_request : App → Upstream → Principal → Text → ℕ → Fields → EntryEnd
unfolding authorize entry_body filtered answer_of
handle_request app up p request_id count entry =
    let verdict = authorize app p request_id entry in
    let headers = downstream_headers app p request_id in
    let (body, failure) = entry_body entry request_id (up count entry headers) in
    elim verdict.denial [
      | some denial ↦ record {
        responses = some (answer_of entry denial);
        calls = 0;
        effects = verdict.effects;
      }
      | none ↦ record {
        responses = elim (filtered app p entry body) [
          | none ↦ none
          | some body' ↦ some (answer_of entry body')
        ];
        calls = 1;
        effects = verdict.effects ++ (sent entry headers ∷ failure);
      }
    ]

abbrev pub malformed_answer : Json
malformed_answer = rpc_error null invalid_request (codes "Invalid JSON-RPC 2.0 request") none

abbrev malformed_entry : EntryEnd
malformed_entry = record { responses = some (malformed_answer ∷ []); calls = 0; effects = [] }

unfoldable pub handle_entry : App → Upstream → Principal → Text → ℕ → Json → EntryEnd
unfolding handle_request looks_like_rpc_request as_object rpc_error
handle_entry app up p request_id count entry =
    if looks_like_rpc_request entry
    then elim (as_object (some entry)) [
      | none ↦ malformed_entry
      | some fs ↦ handle_request app up p request_id count fs
    ]
    else malformed_entry

-- The loop of `handle_batch`, from the number of messages sent on.
unfoldable pub handle_entries :
    App → Upstream → Principal → Text → ℕ → List Json → Option (List Json) × List Effect
handle_entries app up p request_id count [] = (some [], [])
handle_entries app up p request_id count (entry ∷ entries) =
    let e = handle_entry app up p request_id count entry in
    let (later, effects) = handle_entries app up p request_id (count + e.calls) entries in
    elim e.responses [
      | none ↦ (none, e.effects)
      | some rs ↦ (elim later [ none ↦ none | some more ↦ some (rs ++ more) ], e.effects ++ effects)
    ]

unfoldable pub batch_response : List Json → Response
unfolding plain array_of
batch_response [] = plain 202 null
batch_response (r ∷ rs) = plain 200 (array (array_of (r ∷ rs)))

unfoldable pub handle_batch : App → Upstream → Principal → Text → List Json → Handled
unfolding handle_entries batch_response rendered_response
handle_batch app up p request_id entries =
    let (responses, effects) = handle_entries app up p request_id 0 entries in
    record {
      response = elim responses [ none ↦ none | some rs ↦ rendered_response (batch_response rs) ];
      effects = effects;
    }

-- A request with its headers `authorization` and `X-Request-Id`, what `json.loads` makes of its
-- body, `none` if it raises, and the identifier that `uuid4` gives.
pub record HttpRequest : Type 0 where
  pub authorization : Option Text
  pub request_id_header : Option Text
  pub payload : Option Json
  pub new_id : Text

unfoldable pub request_id_of : HttpRequest → Text
request_id_of request = elim request.request_id_header [
  | none ↦ request.new_id
  | some id ↦ elim id [ [] ↦ request.new_id | c ∷ s ↦ c ∷ s ]
]

abbrev pub invalid_message : Json → Handled
invalid_message rpc_id = record {
  response =
      rendered_response
        (plain 400 (rpc_error rpc_id invalid_request (codes "Invalid JSON-RPC 2.0 request") none));
  effects = [];
}

abbrev pub no_batches : Handled
no_batches = record {
  response = rendered_response (
      plain 400 (
        rpc_error null invalid_request
          (codes "JSON-RPC batching is not supported (removed in MCP revision 2025-06-18)") none));
  effects = [];
}

-- `proxy` from step 3 on.
unfoldable pub handle_payload : App → Upstream → Principal → Text → Json → Handled
unfolding handle_batch handle_single looks_like_rpc_request item_list or_null get plain rpc_error
handle_payload app up p request_id (array entries) =
    if not app.allow_batch then no_batches else handle_batch app up p request_id (item_list entries)
handle_payload app up p request_id (object payload) =
    if not (looks_like_rpc_request (object payload))
    then invalid_message (or_null (get (codes "id") payload))
    else handle_single app up p request_id payload
handle_payload app up p request_id _ = invalid_message null

-- `proxy` from step 2 on.
unfoldable pub handle_caller : App → Upstream → Principal → Text → Option Json → Handled
unfolding handle_payload plain rpc_error
handle_caller app up p request_id none = record {
  response = rendered_response (plain 400 (rpc_error null parse_error (codes "Parse error") none));
  effects = [];
}
handle_caller app up p request_id (some payload) = handle_payload app up p request_id payload

unfoldable pub proxy : (Text → Text) → App → Upstream → HttpRequest → Handled
unfolding resolve_principal handle_caller request_id_of rpc_error
proxy digest app up request =
    let request_id = request_id_of request in
    elim (resolve_principal digest request.authorization) [
      | granted p ↦ handle_caller app up p request_id request.payload
      | refused e ↦ record {
        response = rendered_response (record {
          status = 401;
          headers = (codes "WWW-Authenticate", codes "Bearer realm=\"mcp-gateway\"") ∷ [];
          content =
              json_content (rpc_error null unauthenticated e.message (request_id_data request_id));
        });
        effects = auth_failed e.reason ∷ [];
      }
    ]
