-- ===== src/Application/Defs/Records.antt =====
-- The data of task4_router/app.py: requests, what they meet, and answers.
use mcp_llm_gateway_suite.Base.{ℕ, Option, List}
use mcp_llm_gateway_suite.Base.Int.{ℤ}
use mcp_llm_gateway_suite.Base.Text.{Text}
use mcp_llm_gateway_suite.Json.{Json}
use mcp_llm_gateway_suite.Providers.{Complete}
use mcp_llm_gateway_suite.Limiter.{ReserveError}
use mcp_llm_gateway_suite.Router.{LimiterCalls, Slot, Router}

-- `await request.json()`: a value, or the text of the error that it raises.
pub data ParsedBody : Type 0 where
  parsed_as : Json → ParsedBody
  unparsable : Text → ParsedBody

pub record ClientRequest : Type 0 where
  pub authorization : Option Text
  pub request_id_header : Option Text
  pub payload : ParsedBody

-- What a request meets: the texts that `uuid4` draws in the endpoint, in `_api_key` and in the
-- handler of unexpected exceptions, the id of the reservation, the wall clock, the times that the
-- calls of the limiter take and what befalls them.
pub record Circumstances : Type 0 where
  pub request_uuid : Text
  pub key_uuid : Text
  pub error_uuid : Text
  pub reservation_uuid : ℕ
  pub wall : ℕ
  pub reserve_ms : ℕ
  pub settle_ms : ℕ
  pub limiter_calls : LimiterCalls

-- The application's router with its providers. `lax_int` is how Pydantic reads an `int`, `int_text`
-- Python's `int` of a text, and the others are the texts of exceptions.
pub record Application : Type 0 where
  pub router : Router
  pub providers : Slot → Complete
  pub lax_int : Json → Option ℤ
  pub int_text : Text → Option ℤ
  pub validation_text : Json → Text
  pub limiter_text : ReserveError → Text
  pub storage_text : Text
  pub encoding_text : Text

pub record CompletionRequest : Type 0 where
  pub prompt : Text
  pub max_tokens : ℤ

pub record Answer : Type 0 where
  pub status : ℕ
  pub headers : List (Text × Text)
  pub content : Json
