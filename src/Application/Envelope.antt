-- ===== src/Application/Envelope.antt =====
-- How the answers of task4_router/app.py look: a completion, or one shape of error.
use mcp_llm_gateway_suite.Base.{
  ltb, Bool-cases, true, ◌≤◌, ◌≡◌, ◌≢◌, refl, subst, ◌⊎◌, inl, inr, Option, none, some, List, [],
  ◌∷◌, length, if◌then◌else◌, arith, Option-cases,
}
use mcp_llm_gateway_suite.Base.Int.{◌+ℤ◌}
use mcp_llm_gateway_suite.Providers.{total_tokens}
use mcp_llm_gateway_suite.Base.Text.{Text, codes, text_eq}
use mcp_llm_gateway_suite.Json.{Fields, object, field, str, boolean, number, end, is_encodable}
use mcp_llm_gateway_suite.Errors.{GatewayError, http_status, to_payload}
use mcp_llm_gateway_suite.Limiter.{ReserveError, value_error, integrity_error, rate_limit_exceeded}
use mcp_llm_gateway_suite.Router.{
  storage_failed, Trouble, cancelled_wait, sqlite_error, trouble_result, failed_over, World,
  RouteResult, RoutedResponse, routed, gateway_error, limiter_error, cancelled_route, LoopEnd,
  answered, rejected, gave_up, interrupted, loop_error, refusal_error,
}
use mcp_llm_gateway_suite.Router.Ends.{route-rule}
use mcp_llm_gateway_suite.Application.Defs.{
  rendered_answer, ClientRequest, Circumstances, Application, CompletionRequest, Answer, header_or,
  unauthenticated_error, internal_error, timed_answer, gateway_error_handler, unhandled_handler,
  raised_answer, error_answer, completion_answer, route_answer, read_body, bad_request_error,
  route_request, completions, api_key_of, is_rate_limited, some_metadata, retry_after_text,
}
use mcp_llm_gateway_suite.Application.Checks.{
  body-cases, request_id, routed_for, completions-no_key, completions-bad_body, completions-route,
}

-- A header of an answer.
abbrev pub header_value : Text → List (Text × Text) → Option Text
header_value k [] = none
header_value k ((j, v) ∷ hs) = if text_eq j k then some v else header_value k hs

-- An answer with an error: its status and its content are those of one error.
pub record SaysError (id : Text) (answer : Answer) : Type 0 where
  pub error : GatewayError
  pub same_status : answer.status ≡ http_status error.code
  pub same_content : answer.content ≡ to_payload error
  pub same_id : error.request_id ≡ id

-- An answer with a completion: the content is that of a routed response with a property.
pub record SaysCompletion (P : RoutedResponse → Type 0) (id : Text) (answer : Answer) : Type 0 where
  pub response : RoutedResponse
  pub is_routed : P response
  pub same_status : answer.status ≡ 200
  pub same_content :
      answer.content
      ≡ object (
          field (codes "id") (str id) (
            field (codes "text") (str response.completion.text) (
              field (codes "provider") (str response.completion.provider) (
                field (codes "failed_over") (boolean (ltb 1 (length response.attempts))) (
                  field
                    (codes "usage")
                    (object (
                      field (codes "prompt_tokens") (number response.completion.prompt_tokens) (
                        field
                          (codes "completion_tokens")
                          (number response.completion.completion_tokens)
                          (field
                            (codes "total_tokens")
                            (number (
                              response.completion.prompt_tokens
                              +ℤ response.completion.completion_tokens))
                            end))))
                    end)))))
  pub can_be_encoded : is_encodable answer.content ≡ true

-- The answers to a client that gave its request an id.
pub record IsAnswer (P : RoutedResponse → Type 0) (id : Text) (answer : Answer) : Type 0 where
  pub shape : SaysCompletion P id answer ⊎ SaysError id answer
  pub echo : answer.status ≢ 500 → header_value (codes "X-Request-Id") answer.headers ≡ some id

header_or-given :
    (q : ClientRequest) (id fresh : Text)
    → q.request_id_header ≡ some id
    → 1 ≤ length id
    → header_or q.request_id_header fresh ≡ id
unfolding header_or
header_or-given q [] fresh h full = absurd (omega arith)
header_or-given q (c ∷ s) fresh h full = rw h

-- The error that a route raises has the id of its request.
abbrev Carries : Text → RouteResult → Type 0
Carries id (gateway_error e) = e.request_id ≡ id
Carries id _ = Unit

refusal_error-Carries : (id : Text) (e : ReserveError) → Carries id (refusal_error id e)
unfolding refusal_error
refusal_error-Carries id (rate_limit_exceeded used limit after) = refl
refusal_error-Carries id value_error = tt
refusal_error-Carries id integrity_error = tt

loop_error-Carries : (id : Text) (e : LoopEnd) → Carries id (loop_error id e)
unfolding loop_error
loop_error-Carries id interrupted = tt
loop_error-Carries id (answered r attempts) = tt
loop_error-Carries id (rejected x attempts) = refl
loop_error-Carries id (gave_up attempts) = refl

trouble_result-Carries : (id : Text) (e : Trouble) → Carries id (trouble_result e)
unfolding trouble_result
trouble_result-Carries id cancelled_wait = tt
trouble_result-Carries id sqlite_error = tt

routed_for-Carries :
    (a : Application) (q : ClientRequest) (c : Circumstances) (w : World) (key : Text)
    (body : CompletionRequest)
    → Carries (request_id a q c w) (routed_for a q c w key body).0
unfolding route_request
routed_for-Carries a q c w key body =
    route-rule (Carries (request_id a q c w)) a.router a.providers
      (route_request c (request_id a q c w) key body) w
      (λ e t _. refusal_error-Carries (request_id a q c w) e)
      (loop_error-Carries (request_id a q c w))
      (λ e h. trouble_result-Carries (request_id a q c w) e)

pub some-injective {ℓ} : {A : Type ℓ} {x y : A} → some x ≡ some y → x ≡ y
some-injective h = cc

module _ (P : RoutedResponse → Type 0) (a : Application) (q : ClientRequest) (c : Circumstances)
    (id : Text) (given : q.request_id_header ≡ some id) (full : 1 ≤ length id) where
  unhandled-IsAnswer : (text : Text) → IsAnswer P id (unhandled_handler q c text)
  unfolding unhandled_handler internal_error http_status
  unhandled-IsAnswer text = record {
    shape = inr record {
      error = internal_error q c text;
      same_status = refl;
      same_content = refl;
      same_id = header_or-given q id c.error_uuid given full;
    };
    echo = λ h. absurd (h refl);
  }

  error_answer-IsAnswer :
      (e : GatewayError) (more : List (Text × Text))
      → e.request_id ≡ id
      → IsAnswer P id (error_answer e more)
  unfolding error_answer text_eq
  error_answer-IsAnswer e more same = record {
    shape = inr record { error = e; same_status = refl; same_content = refl; same_id = same };
    echo = λ h. rw same;
  }

  timed_answer-IsAnswer :
      (e : GatewayError) (m : Option Fields) (answer : Answer)
      → e.request_id ≡ id
      → timed_answer a.int_text e m ≡ some answer
      → IsAnswer P id answer
  unfolding timed_answer
  timed_answer-IsAnswer e none answer same h =
      subst (IsAnswer P id) (some-injective h) (error_answer-IsAnswer e [] same)
  timed_answer-IsAnswer e (some m) answer same h =
      elim (Option-cases (retry_after_text a.int_text m)) [
        | inl refuses ↦ absurd (ground arith)
        | inr (seconds, e') ↦
            let made : error_answer e ((codes "Retry-After", seconds) ∷ []) ≡ answer =
              ground arith in
            subst (IsAnswer P id) made
              (error_answer-IsAnswer e ((codes "Retry-After", seconds) ∷ []) same)
      ]

  handler-IsAnswer :
      (e : GatewayError) (answer : Answer)
      → e.request_id ≡ id
      → gateway_error_handler a.int_text e ≡ some answer
      → IsAnswer P id answer
  unfolding gateway_error_handler
  handler-IsAnswer e answer same h =
      timed_answer-IsAnswer e (if is_rate_limited e.code then some_metadata e.metadata else none)
        answer same h

  raised-IsAnswer : (e : GatewayError) → e.request_id ≡ id → IsAnswer P id (raised_answer a q c e)
  unfolding raised_answer
  raised-IsAnswer e same = elim (Option-cases (gateway_error_handler a.int_text e)) [
    | inl refuses ↦ rw (refuses, raised_answer) (unhandled-IsAnswer (codes "int"))
    | inr (answer, e') ↦ rw (e', raised_answer) (handler-IsAnswer e answer same e')
  ]

  rendered-IsAnswer :
      (r : RoutedResponse) → P r → IsAnswer P id (rendered_answer a q c (completion_answer id r))
  unfolding completion_answer rendered_answer text_eq failed_over total_tokens
  rendered-IsAnswer r routed_so =
      elim (Bool-cases (is_encodable (completion_answer id r).content)) [
        | inl fine ↦
            rw (fine, rendered_answer)
              (record {
                shape = inl record {
                  response = r;
                  is_routed = routed_so;
                  same_status = refl;
                  same_content = refl;
                  can_be_encoded = fine;
                };
                echo = λ h. refl;
              })
        | inr raises ↦ rw (raises, rendered_answer) (unhandled-IsAnswer a.encoding_text)
      ]

  -- What a route with the id ends with is answered so.
  route_answer-IsAnswer :
      (r : RouteResult) (answer : Answer)
      → Carries id r
      → ((x : RoutedResponse) → r ≡ routed x → P x)
      → route_answer a q c id r ≡ some answer
      → IsAnswer P id answer
  unfolding route_answer
  route_answer-IsAnswer (routed r) answer same so h =
      subst (IsAnswer P id) (some-injective h) (rendered-IsAnswer r (so r refl))
  route_answer-IsAnswer (gateway_error e) answer same so h =
      subst (IsAnswer P id) (some-injective h) (raised-IsAnswer e same)
  route_answer-IsAnswer (limiter_error e) answer same so h =
      subst (IsAnswer P id) (some-injective h) (unhandled-IsAnswer (a.limiter_text e))
  route_answer-IsAnswer storage_failed answer same so h =
      subst (IsAnswer P id) (some-injective h) (unhandled-IsAnswer a.storage_text)
  route_answer-IsAnswer cancelled_route answer same so h = absurd cc

-- The responses that the route of a request gives for a key and a body.
abbrev pub RoutesTo : Application → ClientRequest → Circumstances → World → RoutedResponse → Type 0
RoutesTo a q c w r =
    (key : Text) × (body : CompletionRequest) × (api_key_of q ≡ some key)
    × (read_body a q.payload ≡ inl body)
    × ((routed_for a q c w key body).0 ≡ routed r)

module _ (a : Application) (q : ClientRequest) (c : Circumstances) (id : Text)
    (given : q.request_id_header ≡ some id) (full : 1 ≤ length id) where
  -- The answer to a request that carries an id has status 200 and as its content the id, the text,
  -- the provider and the token counts of the completion that the request's route gives, with whether
  -- that was not the first attempt; or it has the status and the payload of one gateway error with
  -- that id. Every answer but a 500 carries the id in its header too.
  pub completions-IsAnswer :
      (w : World) (answer : Answer)
      → (completions a q c w).0 ≡ some answer
      → IsAnswer (RoutesTo a q c w) id answer
  unfolding unauthenticated_error bad_request_error
  completions-IsAnswer w answer h = elim (Option-cases (api_key_of q)) [
    | inl no_key ↦
        let e = unauthenticated_error q c in
        let made : raised_answer a q c e ≡ answer =
          some-injective (rw (completions-no_key a q c w no_key) at h) in
        subst (IsAnswer (RoutesTo a q c w) id) made (
          raised-IsAnswer (RoutesTo a q c w) a q c id given full e
            (header_or-given q id c.key_uuid given full))
    | inr (key, has_key) ↦ elim (body-cases (read_body a q.payload)) [
      | inr (text, bad) ↦
          let e = bad_request_error (request_id a q c w) text in
          let made : raised_answer a q c e ≡ answer =
            some-injective (rw (completions-bad_body a q c w key text has_key bad) at h) in
          subst (IsAnswer (RoutesTo a q c w) id) made (
            raised-IsAnswer (RoutesTo a q c w) a q c id given full e
              (header_or-given q id c.request_uuid given full))
      | inl (body, has_body) ↦
          let same = header_or-given q id c.request_uuid given full in
          let r = (routed_for a q c w key body).0 in
          let left : route_answer a q c (request_id a q c w) r ≡ some answer =
            rw (completions-route a q c w key body has_key has_body) at h in
          route_answer-IsAnswer (RoutesTo a q c w) a q c id given full r answer
            (subst (λ i. Carries i r) same (routed_for-Carries a q c w key body))
            (λ x is_so. (key, body, has_key, has_body, is_so))
            (subst (λ i. route_answer a q c i r ≡ some answer) same left)
    ]
  ]
