-- ===== src/Billing/Replay.antt =====
-- Idempotency keys of the billing store of task1_mcp_server/store.py.
use mcp_llm_gateway_suite.Base.{
  ◌≡◌, sym, ap, ◌∙◌, subst, inl, inr, Bool, true, false, none, some, List, [], ◌∷◌, arith,
  Bool-cases, Option-cases,
}
use mcp_llm_gateway_suite.Base.Text.{Text, text_eq, text_eq_iff, text_eq_refl}
use mcp_llm_gateway_suite.Billing.Defs.{
  Refund, Store, RefundEnd, returned, raised, key_conflict, RefundCall, lookup, fingerprint, key_of,
  refund_of, remember, book, create_new, replay, create_keyed, create_refund,
}
use mcp_llm_gateway_suite.Billing.Ledger.{
  run, lookup-assign_self, lookup-assign_other, IsBooked, create_refund-cases, create_new-cases,
}

-- A refund that is recorded under a key stays recorded there.
booked_keeps :
    (sha256 : Text → Text) (call : RefundCall) (s : Store) (k : Text) (r : Refund)
    → IsBooked sha256 call s
    → lookup k s.by_idempotency_key ≡ some r
    → lookup k (create_refund sha256 call s).1.by_idempotency_key ≡ some r
unfolding book remember
booked_keeps sha256 call s k r b kept = elim (Option-cases (key_of call.idempotency_key)) [
  | inl keyless ↦ rw (b.booked, keyless) kept
  | inr (j, keyed) ↦ elim (Bool-cases (text_eq j k)) [
    | inl same ↦
        let e = (text_eq_iff j k).0 same in
        let unused = subst (λ t. lookup t s.by_idempotency_key ≡ none) e (b.unused j keyed) in
        absurd cc
    | inr other ↦
        let stays = lookup-assign_other k j (refund_of sha256 call) s.by_idempotency_key other in
        rw (b.booked, keyed) (stays ∙ kept)
  ]
]

run_keeps :
    (sha256 : Text → Text) (calls : List RefundCall) (s : Store) (k : Text) (r : Refund)
    → lookup k s.by_idempotency_key ≡ some r
    → lookup k (run sha256 calls s).by_idempotency_key ≡ some r
unfolding run
run_keeps sha256 [] s k r kept = kept
run_keeps sha256 (call ∷ calls) s k r kept =
    run_keeps sha256 calls (create_refund sha256 call s).1 k r
      (elim (create_refund-cases sha256 call s) [
        | inl unchanged ↦ subst (λ t. lookup k t.by_idempotency_key ≡ some r) (sym unchanged) kept
        | inr b ↦ booked_keeps sha256 call s k r b kept
      ])

-- What a call under a recorded key comes to.
recorded_answer :
    (sha256 : Text → Text) (call : RefundCall) (s : Store) (k : Text) (r : Refund)
    → key_of call.idempotency_key ≡ some k
    → lookup k s.by_idempotency_key ≡ some r
    → create_refund sha256 call s ≡ replay sha256 call k r s
unfolding create_refund create_keyed
recorded_answer sha256 call s k r keyed kept = ground arith

unrecorded_answer :
    (sha256 : Text → Text) (call : RefundCall) (s : Store) (k : Text)
    → key_of call.idempotency_key ≡ some k
    → lookup k s.by_idempotency_key ≡ none
    → create_refund sha256 call s ≡ create_new sha256 call s
unfolding create_refund create_keyed
unrecorded_answer sha256 call s k keyed fresh = ground arith

replay_recorded :
    (sha256 : Text → Text) (call : RefundCall) (s : Store) (k : Text) (existing r : Refund)
    (replayed : Bool)
    → lookup k s.by_idempotency_key ≡ some existing
    → create_refund sha256 call s ≡ replay sha256 call k existing s
    → (create_refund sha256 call s).0 ≡ returned r replayed
    → (lookup k (create_refund sha256 call s).1.by_idempotency_key ≡ some r)
      × (text_eq r.request_fingerprint (fingerprint sha256 call.customer_id call.amount call.reason)
          ≡ true)
unfolding replay
replay_recorded sha256 call s k existing r replayed used answer h =
    elim (Bool-cases (
      text_eq existing.request_fingerprint
        (fingerprint sha256 call.customer_id call.amount call.reason))) [
          | inl fits ↦
              let same : existing ≡ r = ground arith in
              let kept : (create_refund sha256 call s).1 ≡ s = ground arith in
              (
                subst (λ t. lookup k t.by_idempotency_key ≡ some r) (sym kept)
                    (used ∙ ap (λ x. some x) same),
                subst
                    (λ (x : Refund).
                      text_eq x.request_fingerprint
                        (fingerprint sha256 call.customer_id call.amount call.reason)
                      ≡ true)
                    same fits,
              )
          | inr differs ↦ absurd (ground arith)
        ]

returned_injective : (r r' : Refund) (b b' : Bool) → returned r b ≡ returned r' b' → r ≡ r'
returned_injective r r' b b' e = cc

replay_fits :
    (sha256 : Text → Text) (call : RefundCall) (k : Text) (r : Refund) (s : Store)
    → text_eq r.request_fingerprint (fingerprint sha256 call.customer_id call.amount call.reason)
      ≡ true
    → replay sha256 call k r s ≡ (returned r true, s)
unfolding replay
replay_fits sha256 call k r s fits = ground arith

replay_differs :
    (sha256 : Text → Text) (call : RefundCall) (k : Text) (r : Refund) (s : Store)
    → text_eq r.request_fingerprint (fingerprint sha256 call.customer_id call.amount call.reason)
      ≡ false
    → replay sha256 call k r s ≡ (raised (key_conflict k), s)
unfolding replay
replay_differs sha256 call k r s differs = ground arith

new_recorded :
    (sha256 : Text → Text) (call : RefundCall) (s : Store) (k : Text) (r : Refund) (replayed : Bool)
    → key_of call.idempotency_key ≡ some k
    → create_refund sha256 call s ≡ create_new sha256 call s
    → (create_refund sha256 call s).0 ≡ returned r replayed
    → (lookup k (create_refund sha256 call s).1.by_idempotency_key ≡ some r)
      × (text_eq r.request_fingerprint (fingerprint sha256 call.customer_id call.amount call.reason)
          ≡ true)
unfolding book refund_of remember
new_recorded sha256 call s k r replayed keyed answer h = elim (create_new-cases sha256 call s) [
  | inl (e, fails) ↦ absurd (ground arith)
  | inr (customer, found, active, enough, books) ↦
      let same =
        returned_injective (refund_of sha256 call) r false replayed
          (sym (ap (λ (x : RefundEnd × Store). x.0) (answer ∙ books)) ∙ h) in
      let print = fingerprint sha256 call.customer_id call.amount call.reason in
      (
        subst (λ t. lookup k (create_refund sha256 call s).1.by_idempotency_key ≡ some t) same
            (rw (answer ∙ books, keyed)
              (lookup-assign_self k (refund_of sha256 call) s.by_idempotency_key)),
        subst (λ (x : Refund). text_eq x.request_fingerprint print ≡ true) same
            (text_eq_refl print),
      )
]

-- A refund that a call with a key returns is recorded under the key, with the call's fingerprint.
returned_recorded :
    (sha256 : Text → Text) (call : RefundCall) (s : Store) (k : Text) (r : Refund) (replayed : Bool)
    → key_of call.idempotency_key ≡ some k
    → (create_refund sha256 call s).0 ≡ returned r replayed
    → (lookup k (create_refund sha256 call s).1.by_idempotency_key ≡ some r)
      × (text_eq r.request_fingerprint (fingerprint sha256 call.customer_id call.amount call.reason)
          ≡ true)
returned_recorded sha256 call s k r replayed keyed h =
    elim (Option-cases (lookup k s.by_idempotency_key)) [
      | inr (existing, used) ↦
          replay_recorded sha256 call s k existing r replayed used
            (recorded_answer sha256 call s k existing keyed used) h
      | inl fresh ↦
          new_recorded sha256 call s k r replayed keyed
            (unrecorded_answer sha256 call s k keyed fresh) h
    ]

-- Once a call with an idempotency key has returned a refund, the same call returns that refund
-- again, as a replay, after any calls whatsoever, and changes nothing.
pub create_refund_again :
    (sha256 : Text → Text) (call : RefundCall) (s : Store) (k : Text) (r : Refund) (replayed : Bool)
    (calls : List RefundCall) (new_id now : Text)
    → key_of call.idempotency_key ≡ some k
    → (create_refund sha256 call s).0 ≡ returned r replayed
    → create_refund sha256
        (record call { new_id = new_id; now = now })
        (run sha256 calls (create_refund sha256 call s).1)
      ≡ (returned r true, run sha256 calls (create_refund sha256 call s).1)
create_refund_again sha256 call s k r replayed calls new_id now keyed h =
    let (recorded, same) = returned_recorded sha256 call s k r replayed keyed h in
    let later = run sha256 calls (create_refund sha256 call s).1 in
    let kept = run_keeps sha256 calls (create_refund sha256 call s).1 k r recorded in
    let again = record call { new_id = new_id; now = now } in
    recorded_answer sha256 again later k r keyed kept ∙ replay_fits sha256 again k r later same

-- A call under the key of a returned refund whose fingerprint differs from that of the call that
-- the refund was returned to is refused as a conflict, after any calls whatsoever, and changes
-- nothing.
pub create_refund_other :
    (sha256 : Text → Text) (call other : RefundCall) (s : Store) (k : Text) (r : Refund)
    (replayed : Bool) (calls : List RefundCall)
    → key_of call.idempotency_key ≡ some k
    → key_of other.idempotency_key ≡ some k
    → (create_refund sha256 call s).0 ≡ returned r replayed
    → text_eq
        (fingerprint sha256 call.customer_id call.amount call.reason)
        (fingerprint sha256 other.customer_id other.amount other.reason)
      ≡ false
    → create_refund sha256 other (run sha256 calls (create_refund sha256 call s).1)
      ≡ (raised (key_conflict k), run sha256 calls (create_refund sha256 call s).1)
create_refund_other sha256 call other s k r replayed calls keyed keyed' h differs =
    let (recorded, same) = returned_recorded sha256 call s k r replayed keyed h in
    let later = run sha256 calls (create_refund sha256 call s).1 in
    let kept = run_keeps sha256 calls (create_refund sha256 call s).1 k r recorded in
    let print =
      (text_eq_iff r.request_fingerprint
          (fingerprint sha256 call.customer_id call.amount call.reason)).0
        same in
    recorded_answer sha256 other later k r keyed' kept
    ∙ replay_differs sha256 other k r later (
        subst
          (λ t. text_eq t (fingerprint sha256 other.customer_id other.amount other.reason) ≡ false)
          (sym print) differs)
