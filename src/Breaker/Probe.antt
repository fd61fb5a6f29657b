-- ===== src/Breaker/Probe.antt =====
-- How the breaker of task4_router/router.py opens, recovers and hands out its probe.
use mcp_llm_gateway_suite.Base.{
  ℕ, ◌+◌, ◌≤◌, ◌<◌, ◌≡◌, refl, true, false, none, List, [], ◌∷◌, ◌++◌, leb, if◌then◌else◌, length,
  arith, inl, inr, Bool-cases, leb→le, leb-false→lt,
}
use mcp_llm_gateway_suite.Breaker.Defs.{
  Breaker, closed, half_open, opened, state, allows_request, abandon_probe, record_success,
  record_failure,
}

-- Failures recorded one after the other, at the given times.
abbrev pub record_failures : Breaker → List ℕ → Breaker
record_failures b [] = b
record_failures b (t ∷ ts) = record_failures (record_failure b t) ts

-- What a run of failures leaves: the count, and the settings.
record_failures_counts :
    (b : Breaker) (ts : List ℕ)
    → ((record_failures b ts).consecutive_failures ≡ b.consecutive_failures + length ts)
      × ((record_failures b ts).failure_threshold ≡ b.failure_threshold)
      × ((record_failures b ts).recovery_time ≡ b.recovery_time)
unfolding record_failure
record_failures_counts b [] = (omega arith, refl, refl)
record_failures_counts b (t ∷ ts) =
    let (n, thr, rec) = record_failures_counts (record_failure b t) ts in
    (omega (arith, n), thr, rec)

record_failures-below :
    (b : Breaker) (ts : List ℕ)
    → b.consecutive_failures + length ts < b.failure_threshold
    → (record_failures b ts).opened_at ≡ b.opened_at
unfolding record_failure
record_failures-below b [] h = refl
record_failures-below b (t ∷ ts) h = ground (arith, record_failures-below (record_failure b t) ts)

record_failures-append :
    (b : Breaker) (ts : List ℕ) (t : ℕ)
    → record_failures b (ts ++ (t ∷ [])) ≡ record_failure (record_failures b ts) t
record_failures-append b [] t = refl
record_failures-append b (s ∷ ts) t = record_failures-append (record_failure b s) ts t

open_reached :
    (c : Breaker) (ts : List ℕ) (t now : ℕ)
    → c.failure_threshold ≤ c.consecutive_failures + length ts + 1
    → state (record_failure (record_failures c ts) t) now
      ≡ (if leb (t + c.recovery_time) now then half_open else opened)
unfolding state record_failure
open_reached c ts t now reached = ground (arith, record_failures_counts c ts)

closed_below :
    (c : Breaker) (ts : List ℕ) (t now : ℕ)
    → c.consecutive_failures + length ts + 1 < c.failure_threshold
    → c.opened_at ≡ none
    → state (record_failure (record_failures c ts) t) now ≡ closed
unfolding state record_failure
closed_below c ts t now below e =
    ground (arith, record_failures_counts c ts, record_failures-below c ts)

-- After a success, a run of failures leaves the breaker closed if it is shorter than the threshold.
-- Otherwise the breaker is open from the time of the last failure on, and half open as soon as
-- the recovery time has passed since then.
pub opens_at_threshold :
    (b : Breaker) (ts : List ℕ) (t now : ℕ)
    → state (record_failures (record_success b) (ts ++ (t ∷ []))) now ≡ (
        if leb b.failure_threshold (length ts + 1)
        then if leb (t + b.recovery_time) now then half_open else opened
        else closed)
unfolding record_success
opens_at_threshold b ts t now =
    rw (record_failures-append (record_success b) ts t)
      (elim (Bool-cases (leb b.failure_threshold (length ts + 1))) [
        | inl reached ↦
            rw reached
              (open_reached (record_success b) ts t now (omega (arith, leb→le _ _ reached)))
        | inr below ↦
            rw below (
              closed_below (record_success b) ts t now (omega (arith, leb-false→lt _ _ below)) refl)
      ])

-- A half-open breaker admits one request, and then no other one at any later time, as long as
-- nothing is recorded or abandoned.
pub one_probe :
    (b : Breaker) (now later : ℕ)
    → state b now ≡ half_open
    → now ≤ later
    → b.probe_in_flight ≡ false
    → ((allows_request b now).0 ≡ true)
      × ((allows_request (allows_request b now).1 later).0 ≡ false)
unfolding allows_request
one_probe b now later h le free = (ground arith, ground arith)

-- Giving up an attempt frees the slot of whatever probe is in flight, so that a half-open breaker
-- admits a second probe beside the first, whoever gave up.
pub abandon_readmits :
    (b : Breaker) (now later : ℕ)
    → state b now ≡ half_open
    → now ≤ later
    → (allows_request (abandon_probe (allows_request b now).1) later).0 ≡ true
unfolding allows_request abandon_probe
abandon_readmits b now later h le = ground arith
