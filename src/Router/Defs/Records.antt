-- ===== src/Router/Defs/Records.antt =====
-- The data of `ModelRouter`, task4_router/router.py.
use mcp_llm_gateway_suite.Base.{ℕ, Bool, Option, List, [], ◌∷◌, ltb, length}
use mcp_llm_gateway_suite.Base.Int.{ℤ, pos}
use mcp_llm_gateway_suite.Base.Text.{Text, codes}
use mcp_llm_gateway_suite.Json.{number, str, array, Items, nil, item, Fields, end, field}
use mcp_llm_gateway_suite.Errors.{GatewayError}
use mcp_llm_gateway_suite.Providers.{Completion}
use mcp_llm_gateway_suite.Breaker.{Breaker}
use mcp_llm_gateway_suite.Limiter.{Table, Limiter, ReserveError}

-- The texts of `AttemptRecord.outcome`.
pub data AttemptOutcome : Type 0 where
  timeout retryable_error client_error success : AttemptOutcome
  circuit_open deadline_exhausted : AttemptOutcome

unfoldable pub outcome_text : AttemptOutcome → Text
outcome_text timeout = codes "timeout"
outcome_text retryable_error = codes "retryable_error"
outcome_text client_error = codes "client_error"
outcome_text success = codes "success"
outcome_text circuit_open = codes "circuit_open"
outcome_text deadline_exhausted = codes "deadline_exhausted"

pub record AttemptRecord : Type 0 where
  pub provider : Text
  pub outcome : AttemptOutcome
  pub duration_ms : ℕ
  pub status_code : Option ℕ

unfoldable pub outcome_items : List AttemptRecord → Items
unfolding outcome_text
outcome_items [] = nil
outcome_items (a ∷ rest) = item (str (outcome_text a.outcome)) (outcome_items rest)

-- What a client may know about a failed route.
unfoldable pub public_attempt_summary : List AttemptRecord → Fields
unfolding outcome_items
public_attempt_summary attempts =
    field (codes "providers_attempted") (number (pos (length attempts)))
      (field (codes "outcomes") (array (outcome_items attempts)) end)

-- The identity that `provider is self.primary` tests.
pub data Slot : Type 0 where
  primary secondary : Slot

pub record Router : Type 0 where
  pub primary_name : Text
  pub secondary_name : Text
  pub limiter : Limiter
  pub attempt_timeout : ℕ
  pub total_deadline : Option ℕ

-- What the requests share, and the monotonic clock.
pub record World : Type 0 where
  pub table : Table
  pub breaker : Breaker
  pub clock : ℕ

-- What may end an `await` of the limiter early: the cancellation of the route's task, or an exception
-- of the database, such as one for a number of more than 64 bits or for a lock that is not free.
pub data Trouble : Type 0 where
  cancelled_wait sqlite_error : Trouble

-- At which `await` of the limiter this happens, if at any, and whether the transaction takes effect
-- all the same: its thread runs on when the task is cancelled.
pub data LimiterCalls : Type 0 where
  undisturbed : LimiterCalls
  reserve_cut commit_cut release_cut : Trouble → Bool → LimiterCalls

-- The arguments of `route`, with what its surroundings decide: the id of the reservation, the
-- wall clock, the times that the calls of the limiter take, and what befalls them.
pub record Request : Type 0 where
  pub api_key : Text
  pub prompt : Text
  pub max_tokens : ℤ
  pub request_id : Text
  pub uuid : ℕ
  pub wall : ℕ
  pub reserve_ms : ℕ
  pub settle_ms : ℕ
  pub limiter_calls : LimiterCalls

pub data AttemptEnd : Type 0 where
  ended : Option Completion → AttemptRecord → AttemptEnd
  cancelled_error : AttemptEnd

unfoldable pub provider_name : Router → Slot → Text
provider_name r primary = r.primary_name
provider_name r secondary = r.secondary_name

-- How the loop over the candidates ends.
pub data LoopEnd : Type 0 where
  answered : Completion → List AttemptRecord → LoopEnd
  rejected : AttemptRecord → List AttemptRecord → LoopEnd
  gave_up : List AttemptRecord → LoopEnd
  interrupted : LoopEnd

pub record RoutedResponse : Type 0 where
  pub completion : Completion
  pub request_id : Text
  pub attempts : List AttemptRecord

unfoldable pub failed_over : RoutedResponse → Bool
failed_over r = ltb 1 (length r.attempts)

-- `route` answers, raises a `GatewayError`, lets an exception of the limiter or of its database
-- through, or ends with the cancellation of its task.
pub data RouteResult : Type 0 where
  routed : RoutedResponse → RouteResult
  gateway_error : GatewayError → RouteResult
  limiter_error : ReserveError → RouteResult
  storage_failed cancelled_route : RouteResult
