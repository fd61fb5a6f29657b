-- ===== src/Application/Waits.antt =====
-- The refusals of task4_router/app.py: what a 500 is due to, and how long it tells a client to wait.
use mcp_llm_gateway_suite.Base.{
  ◌-◌, ◌≤◌, Bool-cases, true, ℕ, ◌+◌, ◌*◌, ◌/◌, ◌<◌, ◌≡◌, ◌≢◌, refl, sym, ap, ◌∙◌, false, ◌⊎◌, inl,
  inr, Option, none, some, [], ◌∷◌, arith, Option-cases,
}
use mcp_llm_gateway_suite.Base.Int.{ℤ, pos, ◌+ℤ◌}
use mcp_llm_gateway_suite.Base.Text.{Text, codes, text_eq, number_text}
use mcp_llm_gateway_suite.Json.{is_encodable, number, decimal, Fields, end, field}
use mcp_llm_gateway_suite.Errors.{GatewayError, http_status}
use mcp_llm_gateway_suite.Limiter.{
  Row, has_id, round_ms, retry_after, min_created_at, counts, in_window,
}
use mcp_llm_gateway_suite.Router.{
  Router, World, Request, RouteResult, routed, gateway_error, limiter_error, cancelled_route,
  storage_failed, sqlite_error, RoutedResponse,
}
use mcp_llm_gateway_suite.Router.Ends.{trouble_of, route-rule}
use mcp_llm_gateway_suite.Application.Defs.{
  rendered_answer, ClientRequest, Circumstances, Application, CompletionRequest, Answer,
  unauthenticated_error, gateway_error_handler, unhandled_handler, raised_answer, error_answer,
  completion_answer, route_answer, read_body, bad_request_error, route_request, completions,
  api_key_of, is_rate_limited, retry_after_text,
}
use mcp_llm_gateway_suite.Application.Checks.{
  body-cases, request_id, routed_for, completions-no_key, completions-bad_body, completions-route,
  IsBounded, read_body-IsBounded,
}
use mcp_llm_gateway_suite.Application.Ends.{
  trouble-IsExpected, limit_error, IsOverLimit, IsExpected, refusal-IsExpected, loop-IsExpected,
}
use mcp_llm_gateway_suite.Application.Envelope.{RoutesTo, header_value, some-injective}

pos-succ : (n : ℕ) → pos n +ℤ pos 1 ≡ pos (n + 1)
unfolding ◌+ℤ◌
pos-succ n = ground arith

abbrev limit_metadata : ℤ → ℤ → ℕ → Fields
limit_metadata used limit after = field (codes "limit_tokens_per_minute") (number limit) (
    field (codes "used_tokens") (number used)
      (field (codes "retry_after_seconds") (decimal (pos after) 3) end))

-- The whole seconds of the wait, and one more.
retry_after_text-limit :
    (int_text : Text → Option ℤ) (used limit : ℤ) (after : ℕ)
    → retry_after_text int_text (limit_metadata used limit after)
      ≡ some (number_text (after / 1000 + 1))
unfolding retry_after_text text_eq
retry_after_text-limit int_text used limit after = rw (pos-succ (after / 1000))

module _ (a : Application) (q : ClientRequest) (c : Circumstances) where
  raised-other :
      (e : GatewayError)
      → is_rate_limited e.code ≡ false
      → raised_answer a q c e ≡ error_answer e []
  unfolding raised_answer gateway_error_handler
  raised-other e h = rw (raised_answer, h)

  raised-limit :
      (id : Text) (used limit : ℤ) (after : ℕ)
      → raised_answer a q c (limit_error id used limit after)
        ≡ error_answer
            (limit_error id used limit after)
            ((codes "Retry-After", number_text (after / 1000 + 1)) ∷ [])
  unfolding raised_answer
  raised-limit id used limit after =
      rw (raised_answer, retry_after_text-limit a.int_text used limit after)

  other-status :
      (e : GatewayError) (answer : Answer)
      → is_rate_limited e.code ≡ false
      → raised_answer a q c e ≡ answer
      → answer.status ≡ http_status e.code
  unfolding error_answer
  other-status e answer h made =
      sym (ap (λ (x : Answer). x.status) made) ∙ ap (λ (x : Answer). x.status) (raised-other e h)

  limit-status :
      (id : Text) (used limit : ℤ) (after : ℕ) (answer : Answer)
      → raised_answer a q c (limit_error id used limit after) ≡ answer
      → answer.status ≡ 429
  unfolding error_answer http_status
  limit-status id used limit after answer made =
      sym (ap (λ (x : Answer). x.status) made)
      ∙ ap (λ (x : Answer). x.status) (raised-limit id used limit after)

  limit-header :
      (id : Text) (used limit : ℤ) (after : ℕ) (answer : Answer)
      → raised_answer a q c (limit_error id used limit after) ≡ answer
      → header_value (codes "Retry-After") answer.headers ≡ some (number_text (after / 1000 + 1))
  unfolding error_answer text_eq
  limit-header id used limit after answer made =
      sym (ap (λ (x : Answer). header_value (codes "Retry-After") x.headers) made)
      ∙ ap (λ (x : Answer). header_value (codes "Retry-After") x.headers)
          (raised-limit id used limit after)

  completion-status :
      (id : Text) (x : RoutedResponse) (answer : Answer)
      → completion_answer id x ≡ answer
      → answer.status ≡ 200
  unfolding completion_answer
  completion-status id x answer made = sym (ap (λ (y : Answer). y.status) made)

  rendered-fine :
      (id : Text) (x : RoutedResponse) (answer : Answer)
      → is_encodable (completion_answer id x).content ≡ true
      → route_answer a q c id (routed x) ≡ some answer
      → completion_answer id x ≡ answer
  unfolding route_answer rendered_answer
  rendered-fine id x answer fine h =
      let same : rendered_answer a q c (completion_answer id x) ≡ completion_answer id x =
        rw (rendered_answer, fine) refl in
      sym same ∙ some-injective h

  unhandled-status :
      (text : Text) (answer : Answer) → unhandled_handler q c text ≡ answer → answer.status ≡ 500
  unfolding unhandled_handler
  unhandled-status text answer made = sym (ap (λ (y : Answer). y.status) made)

  -- An answer that cannot be encoded is a 500 instead.
  rendered-raises :
      (id : Text) (x : RoutedResponse) (answer : Answer)
      → is_encodable (completion_answer id x).content ≡ false
      → route_answer a q c id (routed x) ≡ some answer
      → answer.status ≡ 500
  unfolding route_answer rendered_answer
  rendered-raises id x answer raises h =
      let same : rendered_answer a q c (completion_answer id x)
          ≡ unhandled_handler q c a.encoding_text =
        rw (rendered_answer, raises) refl in
      unhandled-status a.encoding_text answer (sym same ∙ some-injective h)

  -- A way to end as expected, with the answer to it.
  module _ (r : Router) (request : Request) (w : World) (id : Text) where
    expected-500 :
        (x : RouteResult) (answer : Answer)
        → IsExpected r request w x
        → has_id request.uuid w.table ≡ false
        → route_answer a q c id x ≡ some answer
        → answer.status ≡ 500
        → (trouble_of request.limiter_calls ≡ some sqlite_error)
          ⊎ ((response : RoutedResponse) × (x ≡ routed response)
              × (is_encodable (completion_answer id response).content ≡ false))
    unfolding route_answer
    expected-500 (routed x) answer e fresh h bad =
        elim (Bool-cases (is_encodable (completion_answer id x).content)) [
          | inl fine ↦
              let made : completion_answer id x ≡ answer = rendered-fine id x answer fine h in
              let s = completion-status id x answer made in absurd (omega (arith, s, bad))
          | inr raises ↦ inr (x, refl, raises)
        ]
    expected-500 (gateway_error e) answer (inr o) fresh h bad =
        absurd (o.not_500 (sym (other-status e answer o.not_limited (some-injective h)) ∙ bad))
    expected-500 (gateway_error e) answer (inl o) fresh h bad =
        let made : raised_answer a q c e ≡ answer = some-injective h in
        let s =
          limit-status request.request_id o.used o.limit o.after answer (rw o.is_error at made) in
        absurd (omega (arith, s, bad))
    expected-500 (limiter_error e) answer taken fresh h bad = absurd cc
    expected-500 storage_failed answer raises fresh h bad = inl raises
    expected-500 cancelled_route answer e fresh h bad = absurd cc

    -- What a 429 tells.
    expected-429 :
        (x : RouteResult) (answer : Answer)
        → IsExpected r request w x
        → route_answer a q c id x ≡ some answer
        → answer.status ≡ 429
        → (e : GatewayError) × IsOverLimit r request w e × (raised_answer a q c e ≡ answer)
    unfolding route_answer
    expected-429 (routed x) answer e h bad =
        elim (Bool-cases (is_encodable (completion_answer id x).content)) [
          | inl fine ↦
              let s = completion-status id x answer (rendered-fine id x answer fine h) in
              absurd (omega (arith, s, bad))
          | inr raises ↦
              let s = rendered-raises id x answer raises h in absurd (omega (arith, s, bad))
        ]
    expected-429 (gateway_error e) answer (inr o) h bad =
        absurd (o.not_429 (sym (other-status e answer o.not_limited (some-injective h)) ∙ bad))
    expected-429 (gateway_error e) answer (inl o) h bad = (e, o, some-injective h)
    expected-429 (limiter_error e) answer taken h bad =
        let s = unhandled-status (a.limiter_text e) answer (some-injective h) in
        absurd (omega (arith, s, bad))
    expected-429 storage_failed answer raises h bad =
        let s = unhandled-status a.storage_text answer (some-injective h) in
        absurd (omega (arith, s, bad))
    expected-429 cancelled_route answer e h bad = absurd cc

  module _ (w : World) where
    routed_for-IsExpected :
        (key : Text) (body : CompletionRequest)
        → IsBounded body
        → IsExpected a.router
            (route_request c (request_id a q c w) key body)
            w
            (routed_for a q c w key body).0
    unfolding route_request
    routed_for-IsExpected key body b =
        let request = route_request c (request_id a q c w) key body in
        route-rule (IsExpected a.router request w) a.router a.providers request w
          (refusal-IsExpected a.router request w b.tokens_positive)
          (loop-IsExpected a.router request w) (trouble-IsExpected a.router request w)

    -- The answers that are given before the router.
    early-status :
        (answer : Answer)
        → (api_key_of q ≡ none)
          ⊎ ((key : Text) × (text : Text) × (api_key_of q ≡ some key)
              × (read_body a q.payload ≡ inr text))
        → (completions a q c w).0 ≡ some answer
        → (answer.status ≢ 500) × (answer.status ≢ 429)
    unfolding unauthenticated_error bad_request_error is_rate_limited http_status
    early-status answer (inl no_key) h =
        let e = unauthenticated_error q c in
        let s =
          other-status e answer refl
            (some-injective (rw (completions-no_key a q c w no_key) at h)) in
        (omega (arith, s), omega (arith, s))
    early-status answer (inr (key, text, has_key, bad)) h =
        let e = bad_request_error (request_id a q c w) text in
        let s =
          other-status e answer refl
            (some-injective (rw (completions-bad_body a q c w key text has_key bad) at h)) in
        (omega (arith, s), omega (arith, s))

    -- Whatever the providers do and whatever a request holds, the application answers 500 for two
    -- reasons only: the database raises while the limiter is called, or the completion that the
    -- route of the request gives, under its key and its body, has a text that cannot be encoded. The
    -- id that is drawn for the reservation is not in the limiter's table.
    pub completions-500 :
        (answer : Answer)
        → has_id c.reservation_uuid w.table ≡ false
        → (completions a q c w).0 ≡ some answer
        → answer.status ≡ 500
        → (trouble_of c.limiter_calls ≡ some sqlite_error)
          ⊎ ((response : RoutedResponse) × RoutesTo a q c w response
              × (is_encodable (completion_answer (request_id a q c w) response).content ≡ false))
    unfolding route_request
    completions-500 answer fresh h bad = elim (Option-cases (api_key_of q)) [
      | inl no_key ↦ absurd ((early-status answer (inl no_key) h).0 bad)
      | inr (key, has_key) ↦ elim (body-cases (read_body a q.payload)) [
        | inr (text, wrong) ↦
            absurd ((early-status answer (inr (key, text, has_key, wrong)) h).0 bad)
        | inl (body, has_body) ↦
            elim (expected-500 a.router (route_request c (request_id a q c w) key body) w
              (request_id a q c w) (routed_for a q c w key body).0 answer
              (routed_for-IsExpected key body (read_body-IsBounded a q.payload body has_body)) fresh
              (rw (completions-route a q c w key body has_key has_body) at h) bad) [
                | inl raises ↦ inl raises
                | inr (response, is_so, wrong) ↦
                    inr (response, (key, body, has_key, has_body, is_so), wrong)
              ]
      ]
    ]

round_ms_near : (x : ℕ) → x ≤ round_ms x * 1000 + 500
unfolding round_ms
round_ms_near x = ground arith

-- After more than the wait and a millisecond, the oldest row has left the window.
oldest_leaves :
    (now window : ℕ) (key : Text) (r : Row) (later : ℕ)
    → 0 < r.created_at
    → retry_after now window (some r.created_at) * 1000 + 1000 ≤ later
    → counts (now + later) window key r ≡ false
unfolding counts in_window retry_after
oldest_leaves now window key r later late wait =
    ground (arith, round_ms_near (r.created_at + window - now))

-- An answer with status 429 always says in its Retry-After header how many seconds to wait, and
-- after so many seconds the oldest usage that counted when the key was refused counts no more,
-- unless it dates from the time 0.
pub completions-429 :
    (a : Application) (q : ClientRequest) (c : Circumstances) (w : World) (answer : Answer)
    (key : Text)
    → api_key_of q ≡ some key
    → (completions a q c w).0 ≡ some answer
    → answer.status ≡ 429
    → (seconds : ℕ) × (header_value (codes "Retry-After") answer.headers
        ≡ some (number_text seconds))
      × ((r : Row)
          → 0 < r.created_at
          → min_created_at (counts c.wall a.router.limiter.window key) w.table ≡ some r.created_at
          → counts (c.wall + seconds * 1000000) a.router.limiter.window key r ≡ false)
unfolding route_request
completions-429 a q c w answer key has_key h limited = elim (body-cases (read_body a q.payload)) [
  | inr (text, bad) ↦
      absurd ((early-status a q c w answer (inr (key, text, has_key, bad)) h).1 limited)
  | inl (body, has_body) ↦
      let request = route_request c (request_id a q c w) key body in
      let (e, o, made) =
        expected-429 a q c a.router request w (request_id a q c w) (routed_for a q c w key body).0
          answer
          (routed_for-IsExpected a q c w key body (read_body-IsBounded a q.payload body has_body))
          (rw (completions-route a q c w key body has_key has_body) at h) limited in
      (
        o.after / 1000 + 1,
        limit-header a q c request.request_id o.used o.limit o.after answer (rw o.is_error at made),
        λ r late oldest.
            let wait : o.after ≡ retry_after c.wall a.router.limiter.window (some r.created_at) =
              rw (← oldest) o.is_wait in
            oldest_leaves c.wall a.router.limiter.window key r ((o.after / 1000 + 1) * 1000000) late
              (omega (arith, wait)),
      )
]
