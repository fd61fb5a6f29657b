-- ===== src/Application/Tests.antt =====
-- The HTTP surface of task4_router/app.py over the scripted providers, on concrete requests.
use mcp_llm_gateway_suite.Base.{
  ◌⊎◌, ℕ, ◌+◌, ◌*◌, ◌<◌, ◌≡◌, ◌≢◌, refl, ap, false, Option, none, some, [], ◌∷◌, length, arith,
}
use mcp_llm_gateway_suite.Base.Int.{ℤ, pos, ◌+ℤ◌}
use mcp_llm_gateway_suite.Base.Text.{Text, codes, number_text}
use mcp_llm_gateway_suite.Json.{is_encodable, Json, number, str, object, end, field}
use mcp_llm_gateway_suite.Providers.{mock_complete, Complete, estimate_tokens, total_tokens}
use mcp_llm_gateway_suite.Breaker.{allows_request, record_success}
use mcp_llm_gateway_suite.Limiter.{
  Row, counts, min_created_at, has_id, reserved, reserve_sync, commit_sync,
}
use mcp_llm_gateway_suite.Router.{
  RoutedResponse, undisturbed, commit_cut, sqlite_error, ending, settled_table, settle_trouble,
  reserve_trouble, settle_cut, trouble_result, Slot, World, route, after_reserve, refusal_error,
  routed_under, loop_error, try_candidates, candidates, remaining_budget, after_attempt, attempt,
  settle, note_health,
}
use mcp_llm_gateway_suite.Application.Defs.{
  rendered_answer, completion_answer, ClientRequest, Circumstances, Application, Answer, parsed_as,
  completions, api_key_of, usage, route_answer, raised_answer, unauthenticated_error,
}
use mcp_llm_gateway_suite.Application.Checks.{request_id, IsChecked, completions-IsChecked}
use mcp_llm_gateway_suite.Application.Envelope.{
  RoutesTo, IsAnswer, completions-IsAnswer, header_value,
}
use mcp_llm_gateway_suite.Router.Ends.{trouble_of}
use mcp_llm_gateway_suite.Application.Waits.{completions-500, completions-429}

program : Unit {0}
unfolding rendered_answer is_encodable ending settled_table settle_trouble reserve_trouble
    settle_cut trouble_result completions usage route has_id mock_complete route_answer
    raised_answer unauthenticated_error after_reserve reserve_sync estimate_tokens ◌+ℤ◌
    refusal_error routed_under loop_error try_candidates candidates allows_request remaining_budget
    after_attempt attempt settle commit_sync total_tokens note_health record_success
program = tt

abbrev lax : Json → Option ℤ
lax (number n) = some n
lax _ = none

abbrev answers_ok : Slot → Complete
answers_ok slot prompt max_tokens =
    (mock_complete
      (record { name = codes "mock"; behaviour = codes "ok"; latency = 10; calls = [] }) prompt
      max_tokens).1

abbrev app_with : ℤ → Application
app_with limit = record {
  router = record {
    primary_name = codes "primary";
    secondary_name = codes "secondary";
    limiter = record { limit = limit; window = 60000000 };
    attempt_timeout = 3000;
    total_deadline = none;
  };
  providers = answers_ok;
  lax_int = lax;
  int_text = λ s. none;
  validation_text = λ v. [];
  storage_text = [];
  encoding_text = [];
  limiter_text = λ e. [];
}

abbrev body_of : ℕ → Json
body_of n =
    object (
      field (codes "prompt") (str (codes "hello"))
        (field (codes "max_tokens") (number (pos n)) end))

abbrev client : Text → ClientRequest
client header = record {
  authorization = some header;
  request_id_header = some (codes "r1");
  payload = parsed_as (body_of 64);
}

abbrev at_noon : Circumstances
at_noon = record {
  request_uuid = codes "u1";
  key_uuid = codes "u2";
  error_uuid = codes "u3";
  reservation_uuid = 7;
  wall = 50000000;
  reserve_ms = 1;
  settle_ms = 1;
  limiter_calls = undisturbed;
}

abbrev old_row : Row
old_row = record {
  id = 3;
  api_key = codes "tenant-a";
  tokens = pos 90;
  created_at = 20000000;
  state = reserved;
}

abbrev world : World
world = record {
  table = old_row ∷ [];
  breaker = record {
    failure_threshold = 5;
    recovery_time = 30000;
    consecutive_failures = 0;
    opened_at = none;
    probe_in_flight = false;
  };
  clock = 0;
}

-- The answer to a request, where there is one.
abbrev answer_to : Application → ClientRequest → Option Answer
answer_to a q = (completions a q at_noon world).0

abbrev status_of : Option Answer → ℕ
status_of none = 0
status_of (some x) = x.status

abbrev answer_of : Option Answer → Answer
answer_of none = record { status = 0; headers = []; content = object end }
answer_of (some x) = x

good_key : status_of (answer_to (app_with (pos 500)) (client (codes "Bearer tenant-a"))) ≡ 200
unfolding program
good_key = refl

no_key : status_of (answer_to (app_with (pos 500)) (client (codes "Basic tenant-a"))) ≡ 401
unfolding program
no_key = refl

over_limit :
    (answer_of (answer_to (app_with (pos 100)) (client (codes "Bearer tenant-a")))).headers
    ≡ (codes "X-Request-Id", codes "r1") ∷ (codes "Retry-After", codes "31") ∷ []
unfolding program
over_limit = refl

changed :
    (completions (app_with (pos 500)) (client (codes "Bearer tenant-a")) at_noon world).1 ≢ world
unfolding program
changed h = let same : 2 ≡ 1 = ap (λ (w : World). length w.table) h in absurd (omega (arith, same))

completions-IsChecked_example : IsChecked (app_with (pos 500)) (client (codes "Bearer tenant-a"))
completions-IsChecked_example =
    completions-IsChecked (app_with (pos 500)) (client (codes "Bearer tenant-a")) at_noon world
      changed

abbrev limited_answer : Answer
limited_answer = answer_of (answer_to (app_with (pos 100)) (client (codes "Bearer tenant-a")))

is_limited_answer :
    (completions (app_with (pos 100)) (client (codes "Bearer tenant-a")) at_noon world).0
    ≡ some limited_answer
unfolding program
is_limited_answer = refl

completions-IsAnswer_example :
    IsAnswer
      (RoutesTo (app_with (pos 100)) (client (codes "Bearer tenant-a")) at_noon world)
      (codes "r1")
      limited_answer
completions-IsAnswer_example =
    completions-IsAnswer (app_with (pos 100)) (client (codes "Bearer tenant-a")) at_noon
      (codes "r1") refl (omega arith) world limited_answer is_limited_answer

fresh_id : has_id 7 (old_row ∷ []) ≡ false
unfolding program
fresh_id = refl

-- The database is locked when the completion is to be committed.
abbrev locked : Circumstances
locked = record at_noon { limiter_calls = commit_cut sqlite_error false }

abbrev failed_answer : Answer
failed_answer =
    answer_of (completions (app_with (pos 500)) (client (codes "Bearer tenant-a")) locked world).0

is_failed_answer :
    (completions (app_with (pos 500)) (client (codes "Bearer tenant-a")) locked world).0
    ≡ some failed_answer
unfolding program
is_failed_answer = refl

failed_status : failed_answer.status ≡ 500
unfolding program
failed_status = refl

completions-500_example :
    (trouble_of locked.limiter_calls ≡ some sqlite_error)
    ⊎ ((response : RoutedResponse) × RoutesTo
          (app_with (pos 500))
          (client (codes "Bearer tenant-a"))
          locked
          world
          response
        × (is_encodable
              (completion_answer
                (request_id (app_with (pos 500)) (client (codes "Bearer tenant-a")) locked world)
                response).content
            ≡ false))
completions-500_example =
    completions-500 (app_with (pos 500)) (client (codes "Bearer tenant-a")) locked world
      failed_answer fresh_id is_failed_answer failed_status

limited_status : limited_answer.status ≡ 429
unfolding program
limited_status = refl

tenant_key : api_key_of (client (codes "Bearer tenant-a")) ≡ some (codes "tenant-a")
unfolding program
tenant_key = refl

completions-429_example :
    (seconds : ℕ) × (header_value (codes "Retry-After") limited_answer.headers
      ≡ some (number_text seconds))
    × ((r : Row)
        → 0 < r.created_at
        → min_created_at (counts 50000000 60000000 (codes "tenant-a")) (old_row ∷ [])
          ≡ some r.created_at
        → counts (50000000 + seconds * 1000000) 60000000 (codes "tenant-a") r ≡ false)
completions-429_example =
    completions-429 (app_with (pos 100)) (client (codes "Bearer tenant-a")) at_noon world
      limited_answer (codes "tenant-a") tenant_key is_limited_answer limited_status
