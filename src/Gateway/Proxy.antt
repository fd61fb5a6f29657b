-- ===== src/Gateway/Proxy.antt =====
-- The endpoint of task2_mcp_gateway/mcp_gateway.py.
use mcp_llm_gateway_suite.Base.{ℕ, ◌&&◌, Option, none, some, List, [], ◌∷◌, ◌++◌, if◌then◌else◌}
use mcp_llm_gateway_suite.Base.Text.{Text, codes, starts_with}
use mcp_llm_gateway_suite.Json.{
  is_encodable, Json, str, array, object, Items, nil, item, Fields, end, field, get, put,
}
use mcp_llm_gateway_suite.Gateway.Auth.{Principal}
use mcp_llm_gateway_suite.Gateway.Policy.{visible_to}
use mcp_llm_gateway_suite.Gateway.Rpc.{
  internal_error, upstream_unavailable, as_str, as_object, as_array, or_null, rpc_error, is_text,
}
use mcp_llm_gateway_suite.Gateway.Authorize.{
  App, Headers, downstream_headers, Effect, sent, upstream_timeout, upstream_non_json, forwarded,
  exception_logged, authorize,
}

-- What `response.json()` does: a `ValueError` is no JSON, a `RecursionError` is JSON too deep.
pub data Body : Type 0 where
  json_body : Json → Body
  not_json too_deep : Body

pub record UpstreamResponse : Type 0 where
  pub status_code : ℕ
  pub content_type : Text
  pub raw : Text
  pub body : Body

-- What the client's `post` does: answer, or raise a timeout, another error of httpx, or any other.
pub data Reply : Type 0 where
  answered : UpstreamResponse → Reply
  timed_out http_error other_error : Reply

-- The server downstream as the client shows it: what it does with a message, given how many have
-- been sent before.
abbrev pub Upstream : Type 0
Upstream = ℕ → Fields → Headers → Reply

-- A list without the tools that `visible_to` hides.
unfoldable pub visible_tools : App → Principal → Items → Items
unfolding visible_to as_str as_object get
visible_tools app p nil = nil
visible_tools app p (item tool tools) =
    let rest = visible_tools app p tools in
    elim (as_object (some tool)) [
      | none ↦ rest
      | some fs ↦ elim (as_str (get (codes "name") fs)) [
        | none ↦ rest
        | some name ↦ if visible_to app.folding app.policy name p then item tool rest else rest
      ]
    ]

-- `body.get("result", {})`
unfoldable pub result_of : Fields → Json
unfolding get
result_of body = elim (get (codes "result") body) [ none ↦ object end | some r ↦ r ]

-- `none` is the `AttributeError` of a result that is no object.
unfoldable pub filter_tools_response : App → Principal → Fields → Option Fields
unfolding result_of visible_tools as_object as_array get put
filter_tools_response app p body = elim (as_object (some (result_of body))) [
  | none ↦ none
  | some result ↦ elim (as_array (get (codes "tools") result)) [
    | none ↦ some body
    | some tools ↦ some (
        put (codes "result")
          (object (put (codes "tools") (array (visible_tools app p tools)) result)) body)
  ]
]

-- The filter where it is on, the method is `tools/list` and the body an object.
unfoldable pub filtered : App → Principal → Fields → Json → Option Json
unfolding filter_tools_response as_str as_object get is_text
filtered app p payload body =
    let listing =
      app.filter_tools_list
      && is_text (codes "tools/list") (as_str (get (codes "method") payload)) in
    if listing
    then elim (as_object (some body)) [
      | none ↦ some body
      | some fs ↦ elim (filter_tools_response app p fs) [
        | none ↦ none
        | some fs' ↦ some (object fs')
      ]
    ]
    else some body

pub data Content : Type 0 where
  json_content : Json → Content
  stream : Text → Content

pub record Response : Type 0 where
  pub status : ℕ
  pub headers : Headers
  pub content : Content

-- How a handler ends: `none` is an exception that it does not catch.
pub record Handled : Type 0 where
  pub response : Option Response
  pub effects : List Effect

unfoldable pub plain : ℕ → Json → Response
plain status content = record { status = status; headers = []; content = json_content content }

-- `JSONResponse` raises where a text cannot be encoded; a stream of bytes goes on as it is.
unfoldable pub rendered_response : Response → Option Response
unfolding is_encodable
rendered_response r = elim r.content [
  | json_content v ↦ if is_encodable v then some r else none
  | stream t ↦ some r
]

abbrev pub request_id_data : Text → Option Fields
request_id_data request_id = some (field (codes "request_id") (str request_id) end)

unfoldable pub unavailable : Json → Text → Text → Json
unfolding rpc_error
unavailable rpc_id message request_id =
    rpc_error rpc_id upstream_unavailable message (request_id_data request_id)

-- Step 5 on a response that is no stream of events.
unfoldable pub relay_body : App → Principal → Text → Fields → UpstreamResponse → Body → Handled
unfolding filtered unavailable rendered_response plain or_null get
relay_body app p request_id payload r too_deep = record { response = none; effects = [] }
relay_body app p request_id payload r not_json = record {
  response = rendered_response (
      plain 502 (
        unavailable (or_null (get (codes "id") payload))
          (codes "Upstream MCP server returned a malformed response") request_id));
  effects = upstream_non_json r.status_code ∷ [];
}
relay_body app p request_id payload r (json_body body) = elim (filtered app p payload body) [
  | none ↦ record { response = none; effects = [] }
  | some body' ↦ record {
    response = rendered_response (record {
      status = r.status_code;
      headers = (codes "X-Request-Id", request_id) ∷ [];
      content = json_content body';
    });
    effects = forwarded p.subject (or_null (get (codes "method") payload)) r.status_code ∷ [];
  }
]

-- Step 5 of `proxy`, after the message was sent.
unfoldable pub relay : App → Principal → Text → Fields → Reply → Handled
unfolding relay_body unavailable rendered_response plain or_null get starts_with rpc_error
relay app p request_id payload timed_out = record {
  response = rendered_response (
      plain 504 (
        unavailable (or_null (get (codes "id") payload)) (codes "Upstream MCP server timed out")
          request_id));
  effects = upstream_timeout ∷ [];
}
relay app p request_id payload http_error = record {
  response = rendered_response (
      plain 502 (
        unavailable (or_null (get (codes "id") payload)) (codes "Upstream MCP server unavailable")
          request_id));
  effects = exception_logged ∷ [];
}
relay app p request_id payload other_error = record {
  response = rendered_response (
      plain 500 (
        rpc_error (or_null (get (codes "id") payload)) internal_error
          (codes "Internal gateway error") (request_id_data request_id)));
  effects = exception_logged ∷ [];
}
relay app p request_id payload (answered r) =
    if starts_with r.content_type (codes "text/event-stream")
    then record {
      response = rendered_response (record {
        status = r.status_code;
        headers =
            (codes "X-Request-Id", request_id) ∷ (codes "Cache-Control", codes "no-cache") ∷ [];
        content = stream r.raw;
      });
      effects = [];
    }
    else relay_body app p request_id payload r r.body

-- A single message: steps 4 and 5 of `proxy`.
unfoldable pub handle_single : App → Upstream → Principal → Text → Fields → Handled
unfolding authorize relay rendered_response plain
handle_single app up p request_id payload =
    let verdict = authorize app p request_id payload in
    let headers = downstream_headers app p request_id in
    let relayed = relay app p request_id payload (up 0 payload headers) in
    elim verdict.denial [
      | some denial ↦ record {
        response = rendered_response (plain 200 denial);
        effects = verdict.effects;
      }
      | none ↦ record {
        response = relayed.response;
        effects = verdict.effects ++ (sent payload headers ∷ relayed.effects);
      }
    ]
