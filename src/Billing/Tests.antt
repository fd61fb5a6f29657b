-- ===== src/Billing/Tests.antt =====
-- Refunds of task1_mcp_server/store.py in the seeded store.
use mcp_llm_gateway_suite.Base.{ℕ, ◌+◌, ◌≡◌, refl, true, false, Option, none, some, [], ◌∷◌}
use mcp_llm_gateway_suite.Base.Text.{Text, codes, text_eq}
use mcp_llm_gateway_suite.Billing.Defs.{
  Store, returned, raised, key_conflict, exceeds_balance, status_not_active, RefundCall, lookup,
  format_amount, fingerprint, key_of, refund_of, create_new, book, create_refund, seeded_store,
}
use mcp_llm_gateway_suite.Billing.Ledger.{run, balance, refunded, conserves}
use mcp_llm_gateway_suite.Billing.Replay.{create_refund_again, create_refund_other}

program : Unit {0}
unfolding create_refund create_new book run lookup text_eq format_amount fingerprint key_of
    refund_of
program = tt

abbrev digest : Text → Text
digest s = s

abbrev ada_id : Text
ada_id = codes "CUST-10042"

abbrev call_for : Text → ℕ → Option Text → RefundCall
call_for id amount key = record {
  customer_id = id;
  amount = amount;
  reason = codes "Duplicate charge";
  idempotency_key = key;
  new_id = codes "0123456789AB";
  now = codes "2025-01-01T00:00:00+00:00";
}

abbrev first_call : RefundCall
first_call = call_for ada_id 4999 (some (codes "key-00001"))

abbrev second_call : RefundCall
second_call = call_for ada_id 100001 none

prints : format_amount 4905 ≡ codes "49.05"
unfolding program
prints = refl

suspended :
    (create_refund digest (call_for (codes "CUST-30007") 1 none) seeded_store).0
    ≡ raised (status_not_active (codes "CUST-30007") (codes "suspended"))
unfolding program
suspended = refl

too_much :
    (create_refund digest
      (call_for ada_id 115002 none)
      (create_refund digest first_call seeded_store).1).0
    ≡ raised (exceeds_balance 115002 115001 ada_id)
unfolding program
too_much = refl

conserves_example :
    balance ada_id (run digest (first_call ∷ second_call ∷ first_call ∷ []) seeded_store)
      + refunded ada_id
          (run digest (first_call ∷ second_call ∷ first_call ∷ []) seeded_store).refunds
    ≡ balance ada_id seeded_store + refunded ada_id seeded_store.refunds
conserves_example =
    conserves digest (first_call ∷ second_call ∷ first_call ∷ []) seeded_store ada_id

abbrev after : Store
after = run digest (second_call ∷ []) (create_refund digest first_call seeded_store).1

create_refund_again_example :
    create_refund digest (record first_call { new_id = codes "FFFF"; now = codes "later" }) after
    ≡ (returned (refund_of digest first_call) true, after)
unfolding program
create_refund_again_example =
    create_refund_again digest first_call seeded_store (codes "key-00001")
      (refund_of digest first_call) false (second_call ∷ []) (codes "FFFF") (codes "later") refl
      refl

abbrev other_call : RefundCall
other_call = call_for (codes "CUST-20099") 500 (some (codes "key-00001"))

create_refund_other_example :
    create_refund digest other_call after ≡ (raised (key_conflict (codes "key-00001")), after)
unfolding program
create_refund_other_example =
    create_refund_other digest first_call other_call seeded_store (codes "key-00001")
      (refund_of digest first_call) false (second_call ∷ []) refl refl refl refl
