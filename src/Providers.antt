-- ===== src/Providers.antt =====
-- The provider interface and the scripted provider of task4_router/providers.py. A call is a
-- function of its arguments to what comes back and after how many milliseconds.
use mcp_llm_gateway_suite.Base.{
  ℕ, ◌+◌, ◌/◌, max, Bool, true, ◌||◌, Option, none, some, List, [], ◌∷◌, ◌++◌, leb, ◌==◌,
  if◌then◌else◌, length, take,
}
use mcp_llm_gateway_suite.Base.Int.{ℤ, pos, ◌+ℤ◌}
use mcp_llm_gateway_suite.Base.Text.{Text, codes, text_eq}

pub record ProviderError : Type 0 where
  pub message : Text
  pub status_code : Option ℕ

-- 429 and 5xx are worth trying elsewhere, and so is a failure of the transport.
unfoldable pub is_retryable : ProviderError → Bool
is_retryable e = elim e.status_code [ none ↦ true | some status ↦ status == 429 || leb 500 status ]

pub record Completion : Type 0 where
  pub text : Text
  pub prompt_tokens : ℤ
  pub completion_tokens : ℤ
  pub provider : Text

unfoldable pub total_tokens : Completion → ℤ
total_tokens c = c.prompt_tokens +ℤ c.completion_tokens

-- How a call ends by itself: with a completion, a `ProviderError`, a `TimeoutError` of its own, any
-- other exception, or by the cancellation of the task that made it.
pub data Outcome : Type 0 where
  completed : Completion → Outcome
  failed : ProviderError → Outcome
  raised_timeout : Outcome
  crashed : Outcome
  cancelled : Outcome

-- `unwinding` is the time that the call takes to end once it is cancelled: it ends with the
-- cancellation, and does not complete after all.
pub record Reply : Type 0 where
  pub elapsed : ℕ
  pub unwinding : ℕ
  pub outcome : Outcome

-- `Provider.complete`
abbrev pub Complete : Type 0
Complete = Text → ℤ → Reply

pub record Call : Type 0 where
  pub prompt : Text
  pub max_tokens : ℤ

pub record MockProvider : Type 0 where
  pub name : Text
  pub behaviour : Text
  pub latency : ℕ
  pub calls : List Call

-- The exception that the script raises after the sleeps, if any.
unfoldable pub scripted_error : MockProvider → Option ProviderError
unfolding text_eq
scripted_error p =
    if text_eq p.behaviour (codes "rate_limit")
    then some (record { message = p.name ++ codes " rate limit exceeded"; status_code = some 429 })
    else if text_eq p.behaviour (codes "server_error")
    then some (record { message = p.name ++ codes " internal error"; status_code = some 503 })
    else if text_eq p.behaviour (codes "bad_request")
    then some (record { message = p.name ++ codes " rejected the prompt"; status_code = some 400 })
    else if text_eq p.behaviour (codes "leaky")
    then some (record {
      message =
          codes "connection to 10.4.2.19:8443 refused "
          ++ (codes "(api_key=sk-live-SUPERSECRET0123456789) "
              ++ codes "File \"/opt/gateway/providers.py\", line 91, in complete");
      status_code = some 500;
    })
    else none

-- The sleeps: `timeout` sleeps for thirty seconds before the latency.
unfoldable pub sleep_time : MockProvider → ℕ
unfolding text_eq
sleep_time p = (if text_eq p.behaviour (codes "timeout") then 30000 else 0) + p.latency

unfoldable pub mock_complete : MockProvider → Text → ℤ → MockProvider × Reply
unfolding scripted_error sleep_time
mock_complete p prompt max_tokens =
    let completion : Text = codes "[" ++ (p.name ++ (codes "] response to: " ++ take 40 prompt)) in
    (
      record p { calls = p.calls ++ (record { prompt = prompt; max_tokens = max_tokens } ∷ []) },
      record {
        elapsed = sleep_time p;
        unwinding = 0;
        outcome = elim (scripted_error p) [
          | some e ↦ failed e
          | none ↦ completed (record {
            text = completion;
            prompt_tokens = pos (max 1 (length prompt / 4));
            completion_tokens = pos (max 1 (length completion / 4));
            provider = p.name;
          })
        ];
      },
    )

unfoldable pub call_count : MockProvider → ℕ
call_count p = length p.calls

-- `max(1, len(prompt) // 4) + max_tokens`
unfoldable pub estimate_tokens : Text → ℤ → ℤ
estimate_tokens prompt max_tokens = pos (max 1 (length prompt / 4)) +ℤ max_tokens
