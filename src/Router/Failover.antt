-- ===== src/Router/Failover.antt =====
-- When a route of task4_router/router.py turns to the secondary provider, and with what effect.
use mcp_llm_gateway_suite.Base.{
  Option-cases, inl, inr, ℕ, ◌+◌, ◌≤◌, ◌<◌, ◌≡◌, refl, Option, Bool, true, false, not, none, List,
  [], ◌∷◌, ◌++◌, min, ltb, arith, le→ltb-false,
}
use mcp_llm_gateway_suite.Base.Int.{ℤ}
use mcp_llm_gateway_suite.Base.Text.{Text}
use mcp_llm_gateway_suite.Providers.{
  Complete, Completion, Outcome, completed, failed, raised_timeout, crashed, cancelled,
  is_retryable, estimate_tokens, Reply,
}
use mcp_llm_gateway_suite.Breaker.{allows_request, record_failure}
use mcp_llm_gateway_suite.Limiter.{Table, Reservation, Reserved, held, refused, reserve_sync}
use mcp_llm_gateway_suite.Router.Defs.{
  Slot, primary, secondary, Router, World, Request, AttemptRecord, AttemptOutcome, answered,
  LoopEnd, routed, attempt, after_attempt, try_candidates, candidates, loop_error, routed_under,
  after_reserve, route, remaining_budget, success, retryable_error, reserve_trouble, ending,
  settle_trouble, undisturbed,
}

abbrev pub pick : Complete → Complete → Slot → Complete
pick first second primary = first
pick first second secondary = second

-- The outcomes after which no other provider is asked.
abbrev pub is_final : Outcome → Bool
is_final (completed c) = true
is_final (failed e) = not (is_retryable e)
is_final raised_timeout = false
is_final crashed = false
is_final cancelled = true

-- The deadline of an attempt that begins at the time of the clock.
abbrev pub attempt_deadline : Router → ℕ → ℕ → ℕ
attempt_deadline r started clock = min r.attempt_timeout (remaining_budget r started clock)

-- After such an outcome the rest of the loop does not matter.
after_final :
    (r : Router) (slot : Slot) (complete : Complete) (prompt : Text) (max_tokens : ℤ)
    (timeout_ms : ℕ) (attempts : List AttemptRecord)
    (rest rest' : List AttemptRecord → World → LoopEnd × World) (w : World)
    → ltb timeout_ms (complete prompt max_tokens).elapsed ≡ false
    → is_final (complete prompt max_tokens).outcome ≡ true
    → after_attempt slot attempts rest (attempt r slot complete prompt max_tokens timeout_ms w)
      ≡ after_attempt slot attempts rest' (attempt r slot complete prompt max_tokens timeout_ms w)
unfolding after_attempt attempt
after_final r slot complete prompt max_tokens timeout_ms attempts rest rest' w in_time final =
    ground arith

candidates_admitted :
    (r : Router) (w : World)
    → (allows_request w.breaker w.clock).0 ≡ true
    → candidates r w
      ≡ (primary ∷ secondary ∷ [], [], record w { breaker = (allows_request w.breaker w.clock).1 })
unfolding candidates
candidates_admitted r w admitted = rw admitted

module _ (r : Router) (first second second' : Complete) (q : Request) (started : ℕ) where
  settled_first :
      (attempts : List AttemptRecord) (w : World)
      → ltb (attempt_deadline r started w.clock) (first q.prompt q.max_tokens).elapsed ≡ false
      → is_final (first q.prompt q.max_tokens).outcome ≡ true
      → try_candidates r
          (pick first second)
          q.prompt
          q.max_tokens
          started
          (primary ∷ secondary ∷ [])
          attempts
          w
        ≡ try_candidates r
            (pick first second')
            q.prompt
            q.max_tokens
            started
            (primary ∷ secondary ∷ [])
            attempts
            w
  unfolding try_candidates
  settled_first attempts w in_time final = ground (
    arith,
    after_final r primary first q.prompt q.max_tokens (attempt_deadline r started w.clock) attempts
        (try_candidates r (pick first second) q.prompt q.max_tokens started (secondary ∷ []))
        (try_candidates r (pick first second') q.prompt q.max_tokens started (secondary ∷ [])) w,
  )

  settled_under :
      (w : World) (res : Reservation)
      → (allows_request w.breaker w.clock).0 ≡ true
      → ltb (attempt_deadline r started w.clock) (first q.prompt q.max_tokens).elapsed ≡ false
      → is_final (first q.prompt q.max_tokens).outcome ≡ true
      → routed_under r (pick first second) q started res w
        ≡ routed_under r (pick first second') q started res w
  unfolding routed_under
  settled_under w res admitted in_time final = rw (
    candidates_admitted r w admitted,
    routed_under,
    settled_first [] (record w { breaker = (allows_request w.breaker w.clock).1 }) in_time final,
  )

-- Where the breaker admits the primary and it answers in time with a completion or an error that
-- is not worth retrying, or the request is cancelled meanwhile, nothing of the route's result or of
-- what it leaves depends on the secondary provider.
pub route_final_at_primary :
    (r : Router) (first second second' : Complete) (q : Request) (w : World)
    → (allows_request w.breaker (w.clock + q.reserve_ms)).0 ≡ true
    → (first q.prompt q.max_tokens).elapsed ≤ attempt_deadline r w.clock (w.clock + q.reserve_ms)
    → is_final (first q.prompt q.max_tokens).outcome ≡ true
    → route r (pick first second) q w ≡ route r (pick first second') q w
unfolding route after_reserve
route_final_at_primary r first second second' q w admitted in_time final =
    elim (Option-cases (reserve_trouble q.limiter_calls)) [
      | inl none_there ↦
          rw (route, none_there)
            (after (
              reserve_sync r.limiter q.uuid q.api_key (estimate_tokens q.prompt q.max_tokens) q.wall
                w.table))
      | inr ((trouble, ran), there) ↦ rw (route, there) refl
    ]
  where
    after :
        (x : Reserved × Table)
        → after_reserve r (pick first second) q w x ≡ after_reserve r (pick first second') q w x
    after (refused e, t) = refl
    after (held res, t) =
        settled_under r first second second' q w.clock
          (record w { table = t; clock = w.clock + q.reserve_ms }) res admitted
          (le→ltb-false _ _ in_time) final

-- The outcomes after which the next provider is asked.
abbrev pub is_transient : Outcome → Bool
is_transient (failed e) = is_retryable e
is_transient crashed = true
is_transient _ = false

abbrev status_of : Outcome → Option ℕ
status_of (failed e) = e.status_code
status_of _ = none

-- The record of an attempt that ended by itself.
abbrev pub attempt_record : Text → AttemptOutcome → Reply → AttemptRecord
attempt_record name o reply = record {
  provider = name;
  outcome = o;
  duration_ms = reply.elapsed;
  status_code = status_of reply.outcome;
}

module _ (r : Router) (first second : Complete) (q : Request) (started : ℕ) where
  abbrev one : Reply
  one = first q.prompt q.max_tokens

  abbrev two : Reply
  two = second q.prompt q.max_tokens

  second_answers :
      (attempts : List AttemptRecord) (w : World) (c : Completion)
      → two.elapsed ≤ attempt_deadline r started w.clock
      → 0 < remaining_budget r started w.clock
      → two.outcome ≡ completed c
      → (try_candidates r
          (pick first second)
          q.prompt
          q.max_tokens
          started
          (secondary ∷ [])
          attempts
          w).0
        ≡ answered c (attempts ++ (attempt_record r.secondary_name success two ∷ []))
  unfolding try_candidates attempt after_attempt
  second_answers attempts w c in_time time_left done = ground arith

  abbrev after_failure : World → World
  after_failure w = record w {
    breaker = record_failure w.breaker (w.clock + one.elapsed);
    clock = w.clock + one.elapsed;
  }

  first_step :
      (rest : List AttemptRecord → World → LoopEnd × World) (w : World)
      → one.elapsed ≤ attempt_deadline r started w.clock
      → is_transient one.outcome ≡ true
      → after_attempt primary [] rest
          (attempt r primary first q.prompt q.max_tokens (attempt_deadline r started w.clock) w)
        ≡ rest (attempt_record r.primary_name retryable_error one ∷ []) (after_failure w)
  unfolding after_attempt attempt
  first_step rest w in_time fails = ground arith

  first_fails :
      (w : World) (c : Completion)
      → one.elapsed ≤ attempt_deadline r started w.clock
      → 0 < remaining_budget r started w.clock
      → is_transient one.outcome ≡ true
      → two.elapsed ≤ attempt_deadline r started (w.clock + one.elapsed)
      → 0 < remaining_budget r started (w.clock + one.elapsed)
      → two.outcome ≡ completed c
      → (try_candidates r
          (pick first second)
          q.prompt
          q.max_tokens
          started
          (primary ∷ secondary ∷ [])
          []
          w).0
        ≡ answered c (
            attempt_record r.primary_name retryable_error one
            ∷ attempt_record r.secondary_name success two
            ∷ [])
  unfolding try_candidates
  first_fails w c in_time time_left fails in_time' time_left' done = ground (
    arith,
    first_step (try_candidates r (pick first second) q.prompt q.max_tokens started (secondary ∷ []))
        w in_time fails,
    second_answers (attempt_record r.primary_name retryable_error one ∷ []) (after_failure w) c,
  )

-- A request that is within its budget, whose primary provider is admitted and fails in time in a
-- way that is worth retrying, is answered by the secondary provider, if that one completes in time:
-- the answer holds its completion and both attempts, in order. Nothing befalls the calls of the
-- limiter.
pub route_fails_over :
    (r : Router) (first second : Complete) (q : Request) (w : World) (res : Reservation) (t : Table)
    (c : Completion)
    → q.limiter_calls ≡ undisturbed
    → reserve_sync r.limiter q.uuid q.api_key (estimate_tokens q.prompt q.max_tokens) q.wall w.table
      ≡ (held res, t)
    → (allows_request w.breaker (w.clock + q.reserve_ms)).0 ≡ true
    → (first q.prompt q.max_tokens).elapsed ≤ attempt_deadline r w.clock (w.clock + q.reserve_ms)
    → 0 < remaining_budget r w.clock (w.clock + q.reserve_ms)
    → is_transient (first q.prompt q.max_tokens).outcome ≡ true
    → (second q.prompt q.max_tokens).elapsed
      ≤ attempt_deadline r w.clock (w.clock + q.reserve_ms + (first q.prompt q.max_tokens).elapsed)
    → 0
      < remaining_budget r w.clock (w.clock + q.reserve_ms + (first q.prompt q.max_tokens).elapsed)
    → (second q.prompt q.max_tokens).outcome ≡ completed c
    → (route r (pick first second) q w).0
      ≡ routed (record {
        completion = c;
        request_id = q.request_id;
        attempts =
            attempt_record r.primary_name retryable_error (first q.prompt q.max_tokens)
            ∷ attempt_record r.secondary_name success (second q.prompt q.max_tokens)
            ∷ [];
      })
unfolding route after_reserve routed_under loop_error ending settle_trouble reserve_trouble
route_fails_over r first second q w res t c calm reserved admitted in_time time_left fails in_time'
      time_left' done =
    let w1 : World = record w { table = t; clock = w.clock + q.reserve_ms } in
    rw (
      calm,
      reserved,
      candidates_admitted r w1 admitted,
      first_fails r first second q w.clock
          (record w1 { breaker = (allows_request w.breaker w1.clock).1 }) c in_time time_left fails
          in_time' time_left' done,
    )
