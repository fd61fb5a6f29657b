-- ===== src/Router/Views.antt =====
-- What of a route of task4_router/router.py does not show who the providers are.
use mcp_llm_gateway_suite.Base.{
  ℕ, ◌≡◌, refl, subst, ap, Option, none, some, List, [], ◌∷◌, ◌++◌, arith, if◌then◌else◌,
}
use mcp_llm_gateway_suite.Base.Int.{ℤ}
use mcp_llm_gateway_suite.Base.Text.{Text}
use mcp_llm_gateway_suite.Providers.{
  Complete, Completion, Outcome, completed, failed, raised_timeout, crashed, cancelled,
  is_retryable,
}
use mcp_llm_gateway_suite.Router.Defs.{
  Slot, Router, World, AttemptRecord, AttemptOutcome, AttemptEnd, ended, cancelled_error, LoopEnd,
  answered, rejected, gave_up, interrupted, attempt, note_health, after_attempt,
}

-- What a client may learn from the end of a call: the completion, a timeout, or
-- whether it is worth retrying.
pub data Seen : Type 0 where
  seen_completion : Completion → Seen
  seen_retryable seen_timeout seen_client_error seen_cancelled : Seen

abbrev pub seen : Outcome → Seen
seen (completed c) = seen_completion c
seen (failed e) = if is_retryable e then seen_retryable else seen_client_error
seen raised_timeout = seen_timeout
seen crashed = seen_retryable
seen cancelled = seen_cancelled

-- Two calls that take the same time, also to end when they are cancelled, and show the same.
abbrev pub LooksLike : Complete → Complete → Type 0
LooksLike f g =
    (prompt : Text) (max_tokens : ℤ)
    → ((f prompt max_tokens).elapsed ≡ (g prompt max_tokens).elapsed)
      × ((f prompt max_tokens).unwinding ≡ (g prompt max_tokens).unwinding)
      × (seen (f prompt max_tokens).outcome ≡ seen (g prompt max_tokens).outcome)

-- The attempts without what the client may not see.
abbrev pub blur_all : List AttemptRecord → List AttemptOutcome
blur_all [] = []
blur_all (a ∷ attempts) = a.outcome ∷ blur_all attempts

pub data Blurred : Type 0 where
  blurred : Option Completion → AttemptOutcome → Blurred
  gone : Blurred

abbrev pub blur_attempt : AttemptEnd → Blurred
blur_attempt (ended c a) = blurred c a.outcome
blur_attempt cancelled_error = gone

pub attempt_alike :
    (r r' : Router) (f g : Complete) (slot : Slot) (prompt : Text) (max_tokens : ℤ) (timeout_ms : ℕ)
    (w : World)
    → LooksLike f g
    → (blur_attempt (attempt r slot f prompt max_tokens timeout_ms w).0
        ≡ blur_attempt (attempt r' slot g prompt max_tokens timeout_ms w).0)
      × ((attempt r slot f prompt max_tokens timeout_ms w).1
          ≡ (attempt r' slot g prompt max_tokens timeout_ms w).1)
unfolding attempt
attempt_alike r r' f g slot prompt max_tokens timeout_ms w alike =
    let (same_time, same_unwinding, same_view) = alike prompt max_tokens in
    (ground arith, ground arith)

pub data View : Type 0 where
  answered_view : Completion → List AttemptOutcome → View
  rejected_view gave_up_view : List AttemptOutcome → View
  interrupted_view : View

abbrev pub view : LoopEnd → View
view (answered c attempts) = answered_view c (blur_all attempts)
view (rejected a attempts) = rejected_view (blur_all attempts)
view (gave_up attempts) = gave_up_view (blur_all attempts)
view interrupted = interrupted_view

abbrev pub Alike : LoopEnd × World → LoopEnd × World → Type 0
Alike x y = (view x.0 ≡ view y.0) × (x.1 ≡ y.1)

pub blur_all-append :
    (attempts : List AttemptRecord) (a : AttemptRecord)
    → blur_all (attempts ++ (a ∷ [])) ≡ blur_all attempts ++ (a.outcome ∷ [])
blur_all-append [] a = refl
blur_all-append (b ∷ attempts) a = ap (◌∷◌ b.outcome) (blur_all-append attempts a)

noted :
    (slot : Slot) (attempts attempts' : List AttemptRecord)
    (rest rest' : List AttemptRecord → World → LoopEnd × World) (w : World) (a b : AttemptRecord)
    → a.outcome ≡ b.outcome
    → blur_all (attempts ++ (a ∷ [])) ≡ blur_all (attempts' ++ (b ∷ []))
    → Alike
        (rest (attempts ++ (a ∷ [])) (note_health slot a.outcome w))
        (rest' (attempts' ++ (b ∷ [])) (note_health slot a.outcome w))
    → Alike
        (after_attempt slot attempts rest (ended none a, w))
        (after_attempt slot attempts' rest' (ended none b, w))
unfolding after_attempt
noted slot attempts attempts' rest rest' w a b outcomes longer rest_alike =
    (ground arith, ground arith)

pub after_attempt-Alike :
    (slot : Slot) (attempts attempts' : List AttemptRecord)
    (rest rest' : List AttemptRecord → World → LoopEnd × World) (x y : AttemptEnd × World)
    → blur_all attempts ≡ blur_all attempts'
    → ((xs ys : List AttemptRecord) (v : World)
        → blur_all xs ≡ blur_all ys
        → Alike (rest xs v) (rest' ys v))
    → blur_attempt x.0 ≡ blur_attempt y.0
    → x.1 ≡ y.1
    → Alike (after_attempt slot attempts rest x) (after_attempt slot attempts' rest' y)
unfolding after_attempt
after_attempt-Alike slot attempts attempts' rest rest' (cancelled_error, w) (cancelled_error, w')
      same later e same_world =
    (refl, same_world)
after_attempt-Alike slot attempts attempts' rest rest' (cancelled_error, w) (ended c a, w') same
      later e same_world =
    absurd (cc)
after_attempt-Alike slot attempts attempts' rest rest' (ended c a, w) (cancelled_error, w') same
      later e same_world =
    absurd (cc)
after_attempt-Alike slot attempts attempts' rest rest' (ended (some c) a, w) (ended (some d) b, w')
      same later e same_world =
    (ground (arith, blur_all-append attempts a, blur_all-append attempts' b), ground arith)
after_attempt-Alike slot attempts attempts' rest rest' (ended (some c) a, w) (ended none b, w') same
      later e same_world =
    absurd (ground arith)
after_attempt-Alike slot attempts attempts' rest rest' (ended none a, w) (ended (some d) b, w') same
      later e same_world =
    absurd (ground arith)
after_attempt-Alike slot attempts attempts' rest rest' (ended none a, w) (ended none b, w') same
      later e same_world =
    let outcomes : a.outcome ≡ b.outcome = ground arith in
    let longer : blur_all (attempts ++ (a ∷ [])) ≡ blur_all (attempts' ++ (b ∷ [])) =
      ground (arith, blur_all-append attempts a, blur_all-append attempts' b) in
    let rest_alike =
      later (attempts ++ (a ∷ [])) (attempts' ++ (b ∷ [])) (note_health slot a.outcome w) longer in
    subst
      (λ v.
        Alike (after_attempt slot attempts rest (ended none a, w))
          (after_attempt slot attempts' rest' (ended none b, v)))
      same_world (noted slot attempts attempts' rest rest' w a b outcomes longer rest_alike)

-- The payload of the error that a route raises, if it raises one.
