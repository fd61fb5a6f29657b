-- ===== src/Router/Deadline.antt =====
-- How long a route of task4_router/router.py takes on the monotonic clock.
use mcp_llm_gateway_suite.Base.{
  ℕ, ◌+◌, ◌*◌, ◌≤◌, ◌≡◌, ◌≢◌, refl, none, some, List, [], ◌∷◌, ◌++◌, min, max, arith, ◌==◌, length,
  Bool-cases, Option-cases, inl, inr,
}
use mcp_llm_gateway_suite.Base.Int.{ℤ}
use mcp_llm_gateway_suite.Base.Text.{Text}
use mcp_llm_gateway_suite.Providers.{Complete}
use mcp_llm_gateway_suite.Limiter.{Table, Reservation, Reserved, held, refused}
use mcp_llm_gateway_suite.Router.Defs.{
  Slot, Router, World, Request, AttemptRecord, AttemptOutcome, AttemptEnd, ended, cancelled_error,
  LoopEnd, attempt, note_health, after_attempt, try_candidates, candidates, remaining_budget,
  routed_under, after_reserve, route, reserve_trouble,
}

clock-note_health :
    (slot : Slot) (o : AttemptOutcome) (w : World) → (note_health slot o w).clock ≡ w.clock
unfolding note_health
clock-note_health slot o w = ground arith

-- An attempt never takes longer than its deadline and the time that its call takes to end once it
-- is cancelled.
attempt_in_time :
    (r : Router) (slot : Slot) (complete : Complete) (prompt : Text) (max_tokens : ℤ)
    (timeout_ms grace : ℕ) (w : World)
    → (complete prompt max_tokens).unwinding ≤ grace
    → (w.clock ≤ (attempt r slot complete prompt max_tokens timeout_ms w).1.clock)
      × ((attempt r slot complete prompt max_tokens timeout_ms w).1.clock
          ≤ w.clock + (timeout_ms + grace))
unfolding attempt
attempt_in_time r slot complete prompt max_tokens timeout_ms grace w ends = ground arith

after_attempt_in_time :
    (slot : Slot) (attempts : List AttemptRecord)
    (rest : List AttemptRecord → World → LoopEnd × World) (bound : ℕ) (x : AttemptEnd × World)
    → x.1.clock ≤ bound
    → ((a : AttemptRecord)
        → (rest (attempts ++ (a ∷ [])) (note_health slot a.outcome x.1)).1.clock ≤ bound)
    → (after_attempt slot attempts rest x).1.clock ≤ bound
unfolding after_attempt
after_attempt_in_time slot attempts rest bound (cancelled_error, w) now later = now
after_attempt_in_time slot attempts rest bound (ended (some c) a, w) now later =
    omega (arith, clock-note_health slot a.outcome w)
after_attempt_in_time slot attempts rest bound (ended none a, w) now later =
    ground (arith, clock-note_health slot a.outcome w, later a)

module _ (r : Router) (providers : Slot → Complete) (prompt : Text) (max_tokens : ℤ)
    (started grace : ℕ)
    (ends : (slot : Slot) → (providers slot prompt max_tokens).unwinding ≤ grace) where
  abbrev step : Slot → World → AttemptEnd × World
  step slot w =
      attempt r slot (providers slot) prompt max_tokens
        (min r.attempt_timeout (remaining_budget r started w.clock)) w

  step_in_time :
      (slot : Slot) (w : World)
      → (w.clock ≤ (step slot w).1.clock)
        × ((step slot w).1.clock
            ≤ w.clock + (min r.attempt_timeout (remaining_budget r started w.clock) + grace))
  step_in_time slot w =
      attempt_in_time r slot (providers slot) prompt max_tokens
        (min r.attempt_timeout (remaining_budget r started w.clock)) grace w (ends slot)

  step_within :
      (total bound : ℕ) (slot : Slot) (w : World)
      → r.total_deadline ≡ some total
      → started ≤ w.clock
      → started + total + grace ≤ bound
      → w.clock ≤ bound
      → remaining_budget r started w.clock ≢ 0
      → (step slot w).1.clock ≤ bound
  unfolding remaining_budget
  step_within total bound slot w d s b now left = ground (arith, step_in_time slot w)

  -- Under a total deadline no attempt begins after it, and none outlasts it by more than its end
  -- takes.
  try_candidates_within :
      (total bound : ℕ) (slots : List Slot) (attempts : List AttemptRecord) (w : World)
      → r.total_deadline ≡ some total
      → started ≤ w.clock
      → started + total + grace ≤ bound
      → w.clock ≤ bound
      → (try_candidates r providers prompt max_tokens started slots attempts w).1.clock ≤ bound
  unfolding try_candidates
  try_candidates_within total bound [] attempts w d s b now = now
  try_candidates_within total bound (slot ∷ slots) attempts w d s b now =
      elim (Bool-cases (remaining_budget r started w.clock == 0)) [
        | inl none_left ↦ rw none_left now
        | inr left ↦
            let some_left : remaining_budget r started w.clock ≢ 0 = ground arith in
            rw left (
              after_attempt_in_time slot attempts
                (try_candidates r providers prompt max_tokens started slots) bound (step slot w)
                (omega (arith, step_within total bound slot w d s b now some_left))
                (λ a.
                  try_candidates_within total bound slots (attempts ++ (a ∷ []))
                    (note_health slot a.outcome (step slot w).1) d
                    (omega (
                      arith,
                      clock-note_health slot a.outcome (step slot w).1,
                      step_in_time slot w,
                    ))
                    b
                    (omega (
                      arith,
                      clock-note_health slot a.outcome (step slot w).1,
                      step_within total bound slot w d s b now some_left,
                    ))))
      ]

  -- Without one every attempt has the time of one attempt.
  try_candidates_each :
      (slots : List Slot) (attempts : List AttemptRecord) (w : World)
      → r.total_deadline ≡ none
      → (try_candidates r providers prompt max_tokens started slots attempts w).1.clock
        ≤ w.clock + length slots * (r.attempt_timeout + grace)
  unfolding try_candidates
  try_candidates_each [] attempts w d = omega arith
  try_candidates_each (slot ∷ slots) attempts w d =
      elim (Bool-cases (remaining_budget r started w.clock == 0)) [
        | inl none_left ↦ rw none_left (grind arith)
        | inr left ↦ rw left (
            after_attempt_in_time slot attempts
              (try_candidates r providers prompt max_tokens started slots)
              (w.clock + length (slot ∷ slots) * (r.attempt_timeout + grace)) (step slot w)
              (grind (arith, step_in_time slot w))
              (λ a. grind (
                arith,
                clock-note_health slot a.outcome (step slot w).1,
                step_in_time slot w,
                try_candidates_each slots (attempts ++ (a ∷ []))
                    (note_health slot a.outcome (step slot w).1) d,
              )))
      ]

-- The time by which a route has ended whose calls end within a grace when they are cancelled.
abbrev pub time_limit : Router → Request → ℕ → ℕ
time_limit r q grace = elim r.total_deadline [
  | some total ↦ max (total + grace) q.reserve_ms + q.settle_ms
  | none ↦ q.reserve_ms + 2 * (r.attempt_timeout + grace) + q.settle_ms
]

clock-candidates : (r : Router) (w : World) → (candidates r w).2.clock ≡ w.clock
unfolding candidates
clock-candidates r w = ground arith

length-candidates-le : (r : Router) (w : World) → length (candidates r w).0 ≤ 2
unfolding candidates
length-candidates-le r w = ground arith

two_attempts :
    (r : Router) (q : Request) (grace n : ℕ)
    → r.total_deadline ≡ none
    → n ≤ 2
    → q.reserve_ms + n * (r.attempt_timeout + grace) + q.settle_ms ≤ time_limit r q grace
two_attempts r q grace n d h = grind arith

module _ (r : Router) (providers : Slot → Complete) (q : Request) (grace : ℕ)
    (ends : (slot : Slot) → (providers slot q.prompt q.max_tokens).unwinding ≤ grace) where
  routed_under_in_time :
      (started : ℕ) (res : Reservation) (w : World)
      → w.clock ≡ started + q.reserve_ms
      → (routed_under r providers q started res w).1.clock ≤ started + time_limit r q grace
  unfolding routed_under
  routed_under_in_time started res w h =
      let tried =
        (try_candidates r providers q.prompt q.max_tokens started (candidates r w).0
          (candidates r w).1 (candidates r w).2).1.clock in
      elim (Option-cases r.total_deadline) [
        | inr (total, d) ↦
            let bound = started + max (total + grace) q.reserve_ms in
            let within : tried ≤ bound =
              try_candidates_within r providers q.prompt q.max_tokens started grace ends total bound
                (candidates r w).0 (candidates r w).1 (candidates r w).2 d
                (omega (arith, clock-candidates r w)) (omega arith)
                (omega (arith, clock-candidates r w)) in
            ground arith
        | inl d ↦ omega (
          arith,
          clock-candidates r w,
          two_attempts r q grace (length (candidates r w).0) d (length-candidates-le r w),
          try_candidates_each r providers q.prompt q.max_tokens started grace ends
              (candidates r w).0 (candidates r w).1 (candidates r w).2 d,
        )
      ]

  after_reserve_in_time :
      (w : World) (x : Reserved × Table)
      → (after_reserve r providers q w x).1.clock ≤ w.clock + time_limit r q grace
  unfolding after_reserve
  after_reserve_in_time w (refused e, t) = ground arith
  after_reserve_in_time w (held res, t) =
      routed_under_in_time w.clock res (record w { table = t; clock = w.clock + q.reserve_ms }) refl

  -- A route ends, in whatever way, within the total deadline and the grace, or when its reservation
  -- ends if that is later, and the time that its commit and its release take; without a total
  -- deadline it ends within two attempts' time, each with its grace, of its reservation, and the time
  -- that its commit and its release take. The grace is a time in which the calls of both providers
  -- end once they are cancelled.
  pub route_in_time : (w : World) → (route r providers q w).1.clock ≤ w.clock + time_limit r q grace
  unfolding route
  route_in_time w = elim (Option-cases (reserve_trouble q.limiter_calls)) [
    | inl none_there ↦ rw (route, none_there) (after_reserve_in_time w _)
    | inr ((trouble, ran), there) ↦ rw (route, there) (ground arith)
  ]
