-- ===== src/Errors.antt =====
-- The error envelope of task4_router/errors.py.
use mcp_llm_gateway_suite.Base.{ℕ, Option, none, some, List}
use mcp_llm_gateway_suite.Base.Int.{ℤ}
use mcp_llm_gateway_suite.Base.Text.{Text, codes}
use mcp_llm_gateway_suite.Json.{Json, str, object, Fields, end, field, update}

-- The constants of `GatewayErrorCode`.
pub data ErrorCode : Type 0 where
  rate_limited all_providers_failed upstream_timeout upstream_error : ErrorCode
  bad_request unauthenticated internal : ErrorCode

unfoldable pub code_text : ErrorCode → Text
code_text rate_limited = codes "rate_limited"
code_text all_providers_failed = codes "all_providers_failed"
code_text upstream_timeout = codes "upstream_timeout"
code_text upstream_error = codes "upstream_error"
code_text bad_request = codes "bad_request"
code_text unauthenticated = codes "unauthenticated"
code_text internal = codes "internal_error"

unfoldable pub safe_message : ErrorCode → Text
safe_message rate_limited = codes "Token rate limit exceeded for this API key."
safe_message all_providers_failed = codes "All model providers are currently unavailable."
safe_message upstream_timeout = codes "The model provider did not respond in time."
safe_message upstream_error = codes "The model provider returned an error."
safe_message bad_request = codes "The request payload was invalid."
safe_message unauthenticated = codes "A valid API key is required."
safe_message internal = codes "An internal error occurred."

unfoldable pub http_status : ErrorCode → ℕ
http_status rate_limited = 429
http_status all_providers_failed = 503
http_status upstream_timeout = 504
http_status upstream_error = 502
http_status bad_request = 400
http_status unauthenticated = 401
http_status internal = 500

-- What the f-strings of `detail` are made of: the usage and the limit; the provider's name and its
-- status; each attempt's name, outcome, duration and status; the text of an exception.
pub data LogDetail : Type 0 where
  usage_detail : ℤ → ℤ → LogDetail
  returned_detail : Text → Option ℕ → LogDetail
  attempts_detail : List (Text × Text × ℕ × Option ℕ) → LogDetail
  exception_detail : Text → LogDetail

-- `detail` goes to the log, `metadata` into the answer.
pub record GatewayError : Type 0 where
  pub code : ErrorCode
  pub request_id : Text
  pub detail : Option LogDetail
  pub metadata : Option Fields

-- The JSON that the client receives.
unfoldable pub to_payload : GatewayError → Json
unfolding code_text safe_message update
to_payload e =
    let error : Fields = field (codes "type") (str (codes "gateway_error")) (
      field (codes "code") (str (code_text e.code)) (
        field (codes "message") (str (safe_message e.code))
          (field (codes "request_id") (str e.request_id) end))) in
    object (
      field (codes "error") (object (elim e.metadata [ none ↦ error | some m ↦ update error m ]))
        end)
