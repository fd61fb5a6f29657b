-- ===== src/Router/Billing.antt =====
-- What a route of task4_router/router.py leaves in the table of the rate limiter.
use mcp_llm_gateway_suite.Base.{
  Bool, true, false, not, some, Option-cases, ◌⊎◌, ℕ, ◌+◌, ◌≤◌, ◌≡◌, refl, ◌∙◌, none, some, List,
  [], ◌∷◌, ◌++◌, min, arith, ◌==◌, Bool-cases, inl, inr,
}
use mcp_llm_gateway_suite.Base.Int.{ℤ, pos, ◌+ℤ◌, int_laws}
use mcp_llm_gateway_suite.Base.Text.{Text}
use mcp_llm_gateway_suite.Providers.{Complete, estimate_tokens, total_tokens}
use mcp_llm_gateway_suite.Limiter.{
  Table, Reservation, Reserved, held, refused, reserve_sync, sum_tokens, counts,
  rate_limit_exceeded, release_sync, commit_sync, set_tokens,
}
use mcp_llm_gateway_suite.Limiter.Window.{sum_tokens-evict}
use mcp_llm_gateway_suite.Limiter.Ledger.{
  hold, share, share-zero, reserve_sync_refused, release_sync-reserve_sync,
  sum_tokens-commit_sync-reserve_sync,
}
use mcp_llm_gateway_suite.Router.Defs.{
  Slot, Router, World, Request, AttemptRecord, AttemptEnd, ended, cancelled_error, LoopEnd,
  answered, RouteResult, routed, attempt, note_health, after_attempt, AttemptOutcome,
  try_candidates, candidates, loop_error, settle, routed_under, after_reserve, route, refusal_error,
  remaining_budget, Trouble, cancelled_wait, sqlite_error, LimiterCalls, undisturbed, reserve_cut,
  commit_cut, release_cut, trouble_result, reserve_trouble, settle_trouble, settle_cut,
  settled_table, ending, rejected, gave_up, interrupted,
}

table-note_health :
    (slot : Slot) (o : AttemptOutcome) (w : World) → (note_health slot o w).table ≡ w.table
unfolding note_health
table-note_health slot o w = ground arith

table-attempt :
    (r : Router) (slot : Slot) (complete : Complete) (prompt : Text) (max_tokens : ℤ)
    (timeout_ms : ℕ) (w : World)
    → (attempt r slot complete prompt max_tokens timeout_ms w).1.table ≡ w.table
unfolding attempt
table-attempt r slot complete prompt max_tokens timeout_ms w = ground arith

table-after_attempt :
    (slot : Slot) (attempts : List AttemptRecord)
    (rest : List AttemptRecord → World → LoopEnd × World) (t : Table) (x : AttemptEnd × World)
    → x.1.table ≡ t
    → ((a : AttemptRecord)
        → (rest (attempts ++ (a ∷ [])) (note_health slot a.outcome x.1)).1.table ≡ t)
    → (after_attempt slot attempts rest x).1.table ≡ t
unfolding after_attempt
table-after_attempt slot attempts rest t (cancelled_error, w) e later = e
table-after_attempt slot attempts rest t (ended (some c) a, w) e later =
    table-note_health slot a.outcome w ∙ e
table-after_attempt slot attempts rest t (ended none a, w) e later =
    ground (arith, table-note_health slot a.outcome w, later a)

-- The providers' calls leave the table alone.
table-try_candidates :
    (r : Router) (providers : Slot → Complete) (prompt : Text) (max_tokens : ℤ) (started : ℕ)
    (slots : List Slot) (attempts : List AttemptRecord) (w : World)
    → (try_candidates r providers prompt max_tokens started slots attempts w).1.table ≡ w.table
unfolding try_candidates
table-try_candidates r providers prompt max_tokens started [] attempts w = refl
table-try_candidates r providers prompt max_tokens started (slot ∷ slots) attempts w =
    elim (Bool-cases (remaining_budget r started w.clock == 0)) [
      | inl none_left ↦ rw none_left
      | inr left ↦
          let x =
            attempt r slot (providers slot) prompt max_tokens
              (min r.attempt_timeout (remaining_budget r started w.clock)) w in
          let same =
            table-attempt r slot (providers slot) prompt max_tokens
              (min r.attempt_timeout (remaining_budget r started w.clock)) w in
          rw left (
            table-after_attempt slot attempts
              (try_candidates r providers prompt max_tokens started slots) w.table x same
              (λ a.
                table-try_candidates r providers prompt max_tokens started slots
                  (attempts ++ (a ∷ [])) (note_health slot a.outcome x.1)
                ∙ table-note_health slot a.outcome x.1
                ∙ same))
    ]

-- The tokens that a route is billed for: those of the completion that it answers with.
abbrev pub charge : RouteResult → ℤ
charge (routed answer) = total_tokens answer.completion
charge _ = pos 0

table-candidates : (r : Router) (w : World) → (candidates r w).2.table ≡ w.table
unfolding candidates
table-candidates r w = ground arith

-- The tokens that the loop's end is billed for.
abbrev billed : LoopEnd → ℤ
billed (answered c attempts) = total_tokens c
billed _ = pos 0

charge-loop_error : (id : Text) (e : LoopEnd) → charge (loop_error id e) ≡ billed e
unfolding loop_error
charge-loop_error id (answered c attempts) = refl
charge-loop_error id _ = refl

charge-refusal_error : (id : Text) (e : _) → charge (refusal_error id e) ≡ pos 0
unfolding refusal_error
charge-refusal_error id (rate_limit_exceeded used limit after) = refl
charge-refusal_error id _ = refl

-- No reservation is left behind: the route is not cut short while its reservation is made after all,
-- nor before its release has taken effect.
abbrev pub leaves_no_hold : LimiterCalls → Bool
leaves_no_hold undisturbed = true
leaves_no_hold (reserve_cut trouble ran) = not ran
leaves_no_hold (commit_cut trouble ran) = true
leaves_no_hold (release_cut trouble ran) = ran

charge-trouble_result : (e : Trouble) → charge (trouble_result e) ≡ pos 0
unfolding trouble_result
charge-trouble_result cancelled_wait = refl
charge-trouble_result sqlite_error = refl

release_sync-commit_sync :
    (i : ℕ) (actual : ℤ) (t : Table) → release_sync i (commit_sync i actual t) ≡ release_sync i t
unfolding release_sync commit_sync set_tokens
release_sync-commit_sync i actual [] = refl
release_sync-commit_sync i actual (row ∷ t) = ground (arith, release_sync-commit_sync i actual t)

settle_cut_released :
    (calls : LimiterCalls) (res : Reservation) (e : LoopEnd) (t : Table) (trouble : Trouble)
    (ran : Bool)
    → leaves_no_hold calls ≡ true
    → settle_trouble calls e ≡ some (trouble, ran)
    → settle_cut ran res e t ≡ release_sync res.id t
unfolding settle_trouble settle_cut
settle_cut_released calls res (answered c attempts) t trouble true whole h =
    release_sync-commit_sync res.id (total_tokens c) t
settle_cut_released calls res (answered c attempts) t trouble false whole h = refl
settle_cut_released calls res (rejected a attempts) t trouble true whole h = refl
settle_cut_released calls res (gave_up attempts) t trouble true whole h = refl
settle_cut_released calls res interrupted t trouble true whole h = refl
settle_cut_released undisturbed res (rejected a attempts) t trouble false whole h = absurd cc
settle_cut_released undisturbed res (gave_up attempts) t trouble false whole h = absurd cc
settle_cut_released undisturbed res interrupted t trouble false whole h = absurd cc
settle_cut_released (reserve_cut _ _) res (rejected a attempts) t trouble false whole h = absurd cc
settle_cut_released (reserve_cut _ _) res (gave_up attempts) t trouble false whole h = absurd cc
settle_cut_released (reserve_cut _ _) res interrupted t trouble false whole h = absurd cc
settle_cut_released (commit_cut _ _) res (rejected a attempts) t trouble false whole h = absurd cc
settle_cut_released (commit_cut _ _) res (gave_up attempts) t trouble false whole h = absurd cc
settle_cut_released (commit_cut _ _) res interrupted t trouble false whole h = absurd cc
settle_cut_released (release_cut _ ran) res (rejected a attempts) t trouble false whole h =
    absurd cc
settle_cut_released (release_cut _ ran) res (gave_up attempts) t trouble false whole h = absurd cc
settle_cut_released (release_cut _ ran) res interrupted t trouble false whole h = absurd cc

module _ (r : Router) (providers : Slot → Complete) (q : Request) (w : World) (other : Text)
    (later : ℕ) (recent : q.wall ≤ later) where
  abbrev estimated : ℤ
  estimated = estimate_tokens q.prompt q.max_tokens

  abbrev usage : Table → ℤ
  usage t = sum_tokens (counts later r.limiter.window other) t

  abbrev part : ℤ → ℤ
  part bill = share later r.limiter.window other (hold q.uuid q.api_key estimated q.wall) bill

  no_share : part (pos 0) ≡ pos 0
  no_share = share-zero later r.limiter.window other (hold q.uuid q.api_key estimated q.wall)

  given_back :
      (res : Reservation) (t : Table)
      → reserve_sync r.limiter q.uuid q.api_key estimated q.wall w.table ≡ (held res, t)
      → usage (release_sync res.id t) ≡ usage w.table +ℤ part (pos 0)
  given_back res t h =
      rw
        (
          release_sync-reserve_sync r.limiter q.uuid q.api_key estimated q.wall w.table res t h,
          sum_tokens-evict q.wall later r.limiter.window other w.table recent,
          no_share,
        )
        (omega int_laws)

  usage-settle :
      (res : Reservation) (t : Table) (e : LoopEnd)
      → reserve_sync r.limiter q.uuid q.api_key estimated q.wall w.table ≡ (held res, t)
      → usage (settle res e t) ≡ usage w.table +ℤ part (billed e)
  unfolding settle
  usage-settle res t (answered c attempts) h =
      sum_tokens-commit_sync-reserve_sync r.limiter q.uuid q.api_key estimated q.wall w.table res t
        h (total_tokens c) other later recent
  usage-settle res t _ h = given_back res t h

  usage-settled_table :
      (res : Reservation) (t : Table) (e : LoopEnd)
      → leaves_no_hold q.limiter_calls ≡ true
      → reserve_sync r.limiter q.uuid q.api_key estimated q.wall w.table ≡ (held res, t)
      → usage (settled_table q.limiter_calls res e t)
        ≡ usage w.table +ℤ part (charge (ending q.limiter_calls q.request_id e))
  unfolding settled_table ending
  usage-settled_table res t e whole h = elim (Option-cases (settle_trouble q.limiter_calls e)) [
    | inl none_there ↦
        rw (settled_table, ending, none_there, charge-loop_error q.request_id e)
          (usage-settle res t e h)
    | inr ((trouble, ran), there) ↦
        rw
          (
            settled_table,
            ending,
            there,
            charge-trouble_result trouble,
            settle_cut_released q.limiter_calls res e t trouble ran whole there,
          )
          (given_back res t h)
  ]

  usage-after_reserve :
      (x : Reserved × Table)
      → leaves_no_hold q.limiter_calls ≡ true
      → reserve_sync r.limiter q.uuid q.api_key estimated q.wall w.table ≡ x
      → usage (after_reserve r providers q w x).1.table
        ≡ usage w.table +ℤ part (charge (after_reserve r providers q w x).0)
  unfolding after_reserve routed_under
  usage-after_reserve (refused e, t) whole h =
      rw
        (
          reserve_sync_refused r.limiter q.uuid q.api_key estimated q.wall w.table e t h,
          charge-refusal_error q.request_id e,
          no_share,
        )
        (omega int_laws)
  usage-after_reserve (held res, t) whole h =
      let w1 : World = record w { table = t; clock = w.clock + q.reserve_ms } in
      let (slots, attempts, w2) = candidates r w1 in
      let finish = try_candidates r providers q.prompt q.max_tokens w.clock slots attempts w2 in
      let same =
        table-try_candidates r providers q.prompt q.max_tokens w.clock slots attempts w2
        ∙ table-candidates r w1 in
      rw same (usage-settled_table res t finish.0 whole h)

reserve_trouble-cases :
    (calls : LimiterCalls)
    → leaves_no_hold calls ≡ true
    → (reserve_trouble calls ≡ none)
      ⊎ ((trouble : Trouble) × (reserve_trouble calls ≡ some (trouble, false)))
unfolding reserve_trouble
reserve_trouble-cases undisturbed h = inl refl
reserve_trouble-cases (reserve_cut trouble false) h = inr (trouble, refl)
reserve_trouble-cases (reserve_cut trouble true) h = absurd cc
reserve_trouble-cases (commit_cut trouble ran) h = inl refl
reserve_trouble-cases (release_cut trouble ran) h = inl refl

-- From the time of its reservation on, a route has changed what each tenant is counted for by
-- this alone: the tenant that made the request is charged the tokens of the completion that the
-- route answers with, for as long as they are in the window. A route that ends in any other way
-- charges nobody: refused, failed, cancelled while a provider is called or while the completion is
-- committed, or ended by an exception of the database. Left out is a route that is cancelled, or
-- ended by such an exception, while its reservation is made and takes effect after all, or before
-- its release takes effect.
pub usage-route :
    (r : Router) (providers : Slot → Complete) (q : Request) (w : World) (other : Text) (later : ℕ)
    → q.wall ≤ later
    → leaves_no_hold q.limiter_calls ≡ true
    → sum_tokens (counts later r.limiter.window other) (route r providers q w).1.table
      ≡ sum_tokens (counts later r.limiter.window other) w.table
        +ℤ share later r.limiter.window other
            (hold q.uuid q.api_key (estimate_tokens q.prompt q.max_tokens) q.wall)
            (charge (route r providers q w).0)
unfolding route
usage-route r providers q w other later recent whole =
    elim (reserve_trouble-cases q.limiter_calls whole) [
      | inl none_there ↦
          rw (route, none_there)
            (usage-after_reserve r providers q w other later recent
              (reserve_sync r.limiter q.uuid q.api_key (estimate_tokens q.prompt q.max_tokens)
                q.wall w.table)
              whole refl)
      | inr (trouble, there) ↦
          rw
            (
              route,
              there,
              charge-trouble_result trouble,
              no_share r providers q w other later recent,
            )
            (omega int_laws)
    ]
