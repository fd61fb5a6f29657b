-- ===== src/Application/Defs.antt =====
-- The HTTP surface of the router, task4_router/app.py: what a request has to be, and what each end of
-- a route is answered with.
mod Records
mod Reading
pub use Records.{
  ParsedBody, parsed_as, unparsable, ClientRequest, Circumstances, Application, CompletionRequest,
  Answer,
}
pub use Reading.{min_prompt_length, max_prompt_length, max_tokens_limit, max_tokens_default}
unfoldable pub use Reading.{
  header_or, prompt_of, prompt_field, max_tokens_of, both_fields, completion_request, key_of_parts,
  text_or_empty, api_key_of,
}
use mcp_llm_gateway_suite.Base.{
  ℕ, zero, suc, ◌/◌, Bool, true, false, not, ◌&&◌, Option, none, some, List, [], ◌∷◌, leb, ◌⊎◌, inl,
  inr, if◌then◌else◌, length,
}
use mcp_llm_gateway_suite.Base.Int.{ℤ, pos, negsuc, ◌+ℤ◌, ltb_ℤ}
use mcp_llm_gateway_suite.Base.Text.{Text, codes, text_eq, strip, lower, split_once, number_text}
use mcp_llm_gateway_suite.Json.{
  is_encodable, Json, number, decimal, boolean, str, object, Fields, end, field, get,
}
use mcp_llm_gateway_suite.Errors.{
  ErrorCode, rate_limited, bad_request, unauthenticated, internal, GatewayError, exception_detail,
  http_status, to_payload,
}
use mcp_llm_gateway_suite.Providers.{Complete, total_tokens}
use mcp_llm_gateway_suite.Limiter.{ReserveError, usage_sync, remaining_tokens}
use mcp_llm_gateway_suite.Router.{
  LimiterCalls, Slot, Router, World, Request, RoutedResponse, RouteResult, routed, gateway_error,
  limiter_error, storage_failed, cancelled_route, failed_over, route,
}
use mcp_llm_gateway_suite.Tools.Schemas.{only_keys, power_of_ten}

unfoldable pub unauthenticated_error : ClientRequest → Circumstances → GatewayError
unfolding header_or
unauthenticated_error q c = record {
  code = unauthenticated;
  request_id = header_or q.request_id_header c.key_uuid;
  detail = none;
  metadata = none;
}

-- The `int` of an entry of the metadata; `none` where it raises.
unfoldable pub whole_number : (Text → Option ℤ) → Json → Option ℤ
unfolding power_of_ten
whole_number int_text (number n) = some n
whole_number int_text (decimal (pos n) k) = some (pos (n / power_of_ten k))
whole_number int_text (decimal (negsuc n) k) = some (negated (suc n / power_of_ten k))
  where
    negated : ℕ → ℤ
    negated zero = pos 0
    negated (suc n) = negsuc n
whole_number int_text (boolean b) = some (if b then pos 1 else pos 0)
whole_number int_text (str s) = int_text s
whole_number int_text _ = none

-- `str(n)`
unfoldable pub int_digits : ℤ → Text
unfolding number_text
int_digits (pos n) = number_text n
int_digits (negsuc n) = b'-' ∷ number_text (suc n)

-- `str(int(metadata.get("retry_after_seconds", 1)) + 1)`
unfoldable pub retry_after_text : (Text → Option ℤ) → Fields → Option Text
unfolding get whole_number int_digits
retry_after_text int_text metadata =
    let value : Json = elim (get (codes "retry_after_seconds") metadata) [
      | none ↦ number (pos 1)
      | some v ↦ v
    ] in
    elim (whole_number int_text value) [ none ↦ none | some n ↦ some (int_digits (n +ℤ pos 1)) ]

unfoldable pub is_rate_limited : ErrorCode → Bool
is_rate_limited rate_limited = true
is_rate_limited _ = false

-- The metadata of an error if there is any, which makes it true.
unfoldable pub some_metadata : Option Fields → Option Fields
some_metadata none = none
some_metadata (some end) = none
some_metadata (some (field k v fs)) = some (field k v fs)

unfoldable pub error_answer : GatewayError → List (Text × Text) → Answer
unfolding http_status to_payload
error_answer e more = record {
  status = http_status e.code;
  headers = (codes "X-Request-Id", e.request_id) ∷ more;
  content = to_payload e;
}

-- The answer of `gateway_error_handler`, with the metadata that are asked for the time to wait;
-- `none` where the header cannot be made.
unfoldable pub timed_answer : (Text → Option ℤ) → GatewayError → Option Fields → Option Answer
unfolding error_answer retry_after_text
timed_answer int_text e none = some (error_answer e [])
timed_answer int_text e (some m) = elim (retry_after_text int_text m) [
  | none ↦ none
  | some seconds ↦ some (error_answer e ((codes "Retry-After", seconds) ∷ []))
]

unfoldable pub gateway_error_handler : (Text → Option ℤ) → GatewayError → Option Answer
unfolding is_rate_limited some_metadata timed_answer
gateway_error_handler int_text e =
    timed_answer int_text e (if is_rate_limited e.code then some_metadata e.metadata else none)

-- The error of an unexpected exception, with its text.
unfoldable pub internal_error : ClientRequest → Circumstances → Text → GatewayError
unfolding header_or
internal_error q c text = record {
  code = internal;
  request_id = header_or q.request_id_header c.error_uuid;
  detail = some (exception_detail text);
  metadata = none;
}

unfoldable pub unhandled_handler : ClientRequest → Circumstances → Text → Answer
unfolding internal_error to_payload
unhandled_handler q c text = record {
  status = 500;
  headers = [];
  content = to_payload (internal_error q c text);
}

-- An error that was raised: an exception of its handler goes to the other one.
unfoldable pub raised_answer : Application → ClientRequest → Circumstances → GatewayError → Answer
unfolding gateway_error_handler unhandled_handler
raised_answer a q c e = elim (gateway_error_handler a.int_text e) [
  | none ↦ unhandled_handler q c (codes "int")
  | some answer ↦ answer
]

-- The answer to a completion.
unfoldable pub completion_answer : Text → RoutedResponse → Answer
unfolding failed_over total_tokens
completion_answer request_id r = record {
  status = 200;
  headers = (codes "X-Request-Id", request_id) ∷ [];
  content = object (
      field (codes "id") (str request_id) (
        field (codes "text") (str r.completion.text) (
          field (codes "provider") (str r.completion.provider) (
            field (codes "failed_over") (boolean (failed_over r)) (
              field (codes "usage")
                (object (
                  field (codes "prompt_tokens") (number r.completion.prompt_tokens) (
                    field (codes "completion_tokens") (number r.completion.completion_tokens)
                      (field (codes "total_tokens") (number (total_tokens r.completion)) end))))
                end)))));
}

-- `JSONResponse` raises where a text cannot be encoded.
unfoldable pub rendered_answer : Application → ClientRequest → Circumstances → Answer → Answer
unfolding is_encodable unhandled_handler
rendered_answer a q c answer =
    if is_encodable answer.content then answer else unhandled_handler q c a.encoding_text

-- What the end of a route is answered with; a cancelled request gets no answer.
unfoldable pub route_answer :
    Application → ClientRequest → Circumstances → Text → RouteResult → Option Answer
unfolding completion_answer rendered_answer raised_answer unhandled_handler
route_answer a q c request_id (routed r) =
    some (rendered_answer a q c (completion_answer request_id r))
route_answer a q c request_id (gateway_error e) = some (raised_answer a q c e)
route_answer a q c request_id (limiter_error e) = some (unhandled_handler q c (a.limiter_text e))
route_answer a q c request_id storage_failed = some (unhandled_handler q c a.storage_text)
route_answer a q c request_id cancelled_route = none

-- The body of a request, or the text of the error.
unfoldable pub read_body : Application → ParsedBody → CompletionRequest ⊎ Text
unfolding completion_request
read_body a (unparsable text) = inr text
read_body a (parsed_as v) = elim (completion_request a.lax_int v) [
  | none ↦ inr (a.validation_text v)
  | some body ↦ inl body
]

unfoldable pub bad_request_error : Text → Text → GatewayError
bad_request_error request_id text = record {
  code = bad_request;
  request_id = request_id;
  detail = some (exception_detail text);
  metadata = none;
}

-- The arguments of the endpoint's call of `route`.
unfoldable pub route_request : Circumstances → Text → Text → CompletionRequest → Request
route_request c request_id key body = record {
  api_key = key;
  prompt = body.prompt;
  max_tokens = body.max_tokens;
  request_id = request_id;
  uuid = c.reservation_uuid;
  wall = c.wall;
  reserve_ms = c.reserve_ms;
  settle_ms = c.settle_ms;
  limiter_calls = c.limiter_calls;
}

-- `POST /v1/completions`
unfoldable pub completions :
    Application → ClientRequest → Circumstances → World → Option Answer × World
unfolding header_or api_key_of read_body route_request
completions a q c w =
    let request_id = header_or q.request_id_header c.request_uuid in
    elim (api_key_of q) [
      | none ↦ (some (raised_answer a q c (unauthenticated_error q c)), w)
      | some key ↦ elim (read_body a q.payload) [
        | inr text ↦ (some (raised_answer a q c (bad_request_error request_id text)), w)
        | inl body ↦
            let (result, w') = route a.router a.providers (route_request c request_id key body) w in
            (route_answer a q c request_id result, w')
      ]
    ]

-- `GET /v1/usage`
unfoldable pub usage : Application → ClientRequest → Circumstances → World → Answer
unfolding api_key_of usage_sync remaining_tokens
usage a q c w = elim (api_key_of q) [
  | none ↦ raised_answer a q c (unauthenticated_error q c)
  | some key ↦
      let snapshot = usage_sync a.router.limiter key c.wall w.table in
      record {
        status = 200;
        headers = [];
        content = object (
            field (codes "used_tokens") (number snapshot.used_tokens) (
              field (codes "limit_tokens") (number snapshot.limit_tokens)
                (field (codes "remaining_tokens") (number (remaining_tokens snapshot)) end)));
      }
]
