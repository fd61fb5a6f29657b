-- ===== src/Router/Privacy.antt =====
-- What the client of task4_router/router.py can see of the providers when a route fails: not
-- their names, not the statuses or the texts of their errors.
use mcp_llm_gateway_suite.Base.{
  Option-cases, sym, ◌∙◌, ℕ, suc, ◌+◌, ◌≡◌, refl, ap, Option, none, some, List, [], ◌∷◌, min, arith,
  ◌==◌, Bool-cases, inl, inr, length, all_of,
}
use mcp_llm_gateway_suite.Base.Int.{ℤ}
use mcp_llm_gateway_suite.Base.Text.{Text}
use mcp_llm_gateway_suite.Json.{Json}
use mcp_llm_gateway_suite.Errors.{to_payload}
use mcp_llm_gateway_suite.Providers.{Complete}
use mcp_llm_gateway_suite.Limiter.{Table, Reservation, Reserved, held, refused}
use mcp_llm_gateway_suite.Router.Defs.{
  Slot, Router, World, Request, AttemptRecord, LoopEnd, answered, rejected, gave_up, interrupted,
  RouteResult, gateway_error, attempt, try_candidates, candidates, loop_error, routed_under,
  after_reserve, route, remaining_budget, public_attempt_summary, outcome_items, timed_out_test,
  provider_name, deadline_exhausted, LimiterCalls, ending, settle_trouble, reserve_trouble,
}
use mcp_llm_gateway_suite.Router.Views.{
  Alike, LooksLike, after_attempt-Alike, attempt_alike, blur_all, blur_all-append, view,
}

abbrev pub error_payload : RouteResult → Option Json
error_payload (gateway_error e) = some (to_payload e)
error_payload _ = none

summary_alike :
    (xs ys : List AttemptRecord)
    → blur_all xs ≡ blur_all ys
    → (length xs ≡ length ys)
      × (outcome_items xs ≡ outcome_items ys)
      × (all_of timed_out_test xs ≡ all_of timed_out_test ys)
unfolding outcome_items timed_out_test
summary_alike [] [] e = (refl, refl, refl)
summary_alike [] (y ∷ ys) e = absurd (ground arith)
summary_alike (x ∷ xs) [] e = absurd (ground arith)
summary_alike (x ∷ xs) (y ∷ ys) e =
    let (n, items, tests) = summary_alike xs ys (ground arith) in
    let heads : x.outcome ≡ y.outcome = ground arith in
    (ap suc n, rw (heads, items), rw (heads, tests))

loop_error_alike :
    (id : Text) (e e' : LoopEnd)
    → view e ≡ view e'
    → error_payload (loop_error id e) ≡ error_payload (loop_error id e')
unfolding loop_error public_attempt_summary to_payload
loop_error_alike id (answered c xs) (answered d ys) h = refl
loop_error_alike id interrupted interrupted h = refl
loop_error_alike id (rejected a xs) (rejected b ys) h =
    let (n, items, tests) = summary_alike xs ys (ground arith) in rw (n, items)
loop_error_alike id (gave_up xs) (gave_up ys) h =
    let (n, items, tests) = summary_alike xs ys (ground arith) in rw (n, items, tests)
loop_error_alike id (answered c xs) _ h = absurd (cc)
loop_error_alike id interrupted _ h = absurd (cc)
loop_error_alike id (rejected a xs) _ h = absurd (cc)
loop_error_alike id (gave_up xs) _ h = absurd (cc)

trouble_alike :
    (calls : LimiterCalls) (e e' : LoopEnd)
    → view e ≡ view e'
    → settle_trouble calls e ≡ settle_trouble calls e'
unfolding settle_trouble
trouble_alike calls (answered c xs) (answered d ys) h = ground arith
trouble_alike calls interrupted interrupted h = refl
trouble_alike calls (rejected a xs) (rejected b ys) h = ground arith
trouble_alike calls (gave_up xs) (gave_up ys) h = ground arith
trouble_alike calls (answered c xs) _ h = absurd (cc)
trouble_alike calls interrupted _ h = absurd (cc)
trouble_alike calls (rejected a xs) _ h = absurd (cc)
trouble_alike calls (gave_up xs) _ h = absurd (cc)

ending_alike :
    (calls : LimiterCalls) (id : Text) (e e' : LoopEnd)
    → view e ≡ view e'
    → error_payload (ending calls id e) ≡ error_payload (ending calls id e')
unfolding ending settle_trouble
ending_alike calls id e e' h =
    let same = trouble_alike calls e e' h in
    elim (Option-cases (settle_trouble calls e)) [
      | inl none_there ↦
          let none_there' : settle_trouble calls e' ≡ none = sym same ∙ none_there in
          rw (ending, none_there, none_there') (loop_error_alike id e e' h)
      | inr ((trouble, ran), there) ↦
          let there' : settle_trouble calls e' ≡ some (trouble, ran) = sym same ∙ there in
          rw (ending, there, there') refl
    ]

-- The record of a provider that is not called for want of time.
abbrev unspent : Router → Slot → AttemptRecord
unspent r slot = record {
  provider = provider_name r slot;
  outcome = deadline_exhausted;
  duration_ms = 0;
  status_code = none;
}

module _ (r : Router) (name name' : Text) (providers providers' : Slot → Complete)
    (alike : (slot : Slot) → LooksLike (providers slot) (providers' slot)) where
  -- The same router with other providers under other names.
  abbrev renamed : Router
  renamed = record r { primary_name = name; secondary_name = name' }

  budget_renamed :
      (started clock : ℕ)
      → remaining_budget renamed started clock ≡ remaining_budget r started clock
  unfolding remaining_budget
  budget_renamed started clock = refl

  try_candidates-Alike :
      (prompt : Text) (max_tokens : ℤ) (started : ℕ) (slots : List Slot)
      (xs ys : List AttemptRecord) (w : World)
      → blur_all xs ≡ blur_all ys
      → Alike
          (try_candidates r providers prompt max_tokens started slots xs w)
          (try_candidates renamed providers' prompt max_tokens started slots ys w)
  unfolding try_candidates
  try_candidates-Alike prompt max_tokens started [] xs ys w same = (rw same, refl)
  try_candidates-Alike prompt max_tokens started (slot ∷ slots) xs ys w same =
      elim (Bool-cases (remaining_budget r started w.clock == 0)) [
        | inl none_left ↦
            rw (budget_renamed started w.clock, none_left)
              (
                rw (
                  blur_all-append xs (unspent r slot),
                  blur_all-append ys (unspent renamed slot),
                  same,
                ),
                refl,
              )
        | inr left ↦
            rw (budget_renamed started w.clock, left)
              (let steps =
                  attempt_alike r renamed (providers slot) (providers' slot) slot prompt max_tokens
                    (min r.attempt_timeout (remaining_budget r started w.clock)) w (alike slot) in
                after_attempt-Alike slot xs ys
                  (try_candidates r providers prompt max_tokens started slots)
                  (try_candidates renamed providers' prompt max_tokens started slots)
                  (attempt r slot (providers slot) prompt max_tokens
                    (min r.attempt_timeout (remaining_budget r started w.clock)) w)
                  (attempt renamed slot (providers' slot) prompt max_tokens
                    (min r.attempt_timeout (remaining_budget r started w.clock)) w)
                  same (try_candidates-Alike prompt max_tokens started slots) steps.0 steps.1)
      ]

  candidates-renamed :
      (w : World)
      → ((candidates r w).0 ≡ (candidates renamed w).0)
        × (blur_all (candidates r w).1 ≡ blur_all (candidates renamed w).1)
        × ((candidates r w).2 ≡ (candidates renamed w).2)
  unfolding candidates
  candidates-renamed w = (ground arith, ground arith, ground arith)

  routed_under_alike :
      (q : Request) (started : ℕ) (res : Reservation) (w : World)
      → error_payload (routed_under r providers q started res w).0
        ≡ error_payload (routed_under renamed providers' q started res w).0
  unfolding routed_under
  routed_under_alike q started res w =
      let c = candidates-renamed w in
      let a =
        try_candidates-Alike q.prompt q.max_tokens started (candidates r w).0 (candidates r w).1
          (candidates renamed w).1 (candidates r w).2 c.1 in
      rw (← c.0, ← c.2)
        (ending_alike q.limiter_calls q.request_id
          (try_candidates r providers q.prompt q.max_tokens started (candidates r w).0
            (candidates r w).1 (candidates r w).2).0
          (try_candidates renamed providers' q.prompt q.max_tokens started (candidates r w).0
            (candidates renamed w).1 (candidates r w).2).0
          a.0)

  after_reserve_alike :
      (q : Request) (w : World) (x : Reserved × Table)
      → error_payload (after_reserve r providers q w x).0
        ≡ error_payload (after_reserve renamed providers' q w x).0
  unfolding after_reserve
  after_reserve_alike q w (refused e, t) = refl
  after_reserve_alike q w (held res, t) =
      routed_under_alike q w.clock res (record w { table = t; clock = w.clock + q.reserve_ms })

  -- When the providers and their names are exchanged for others whose calls take the same time, also
  -- to end when they are cancelled, and end alike, as far as a completion, a timeout or the choice
  -- between retrying and not goes, the payload of
  -- the error that a route raises does not change: no name, status or message shows in it.
  pub error_payload-route :
      (q : Request) (w : World)
      → error_payload (route r providers q w).0 ≡ error_payload (route renamed providers' q w).0
  unfolding route
  error_payload-route q w = elim (Option-cases (reserve_trouble q.limiter_calls)) [
    | inl none_there ↦ rw (route, none_there) (after_reserve_alike q w _)
    | inr ((trouble, ran), there) ↦ rw (route, there) refl
  ]
