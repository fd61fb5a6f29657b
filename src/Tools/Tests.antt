-- ===== src/Tools/Tests.antt =====
-- The tools of task1_mcp_server on arguments of its tests.
use mcp_llm_gateway_suite.Base.{◌≡◌, refl, true, none, some, length}
use mcp_llm_gateway_suite.Base.Int.{pos}
use mcp_llm_gateway_suite.Base.Text.{codes, text_eq, strip, lstrip, is_space}
use mcp_llm_gateway_suite.Json.{
  Json, number, decimal, str, boolean, object, Items, Fields, end, field, get,
}
use mcp_llm_gateway_suite.Billing.Defs.{
  lookup, create_refund, create_new, book, key_of, seeded_store,
}
use mcp_llm_gateway_suite.Tools.Schemas.{
  TriggerRefundInput, is_customer_id, amount_of, reason_of, key_field, refund_input,
}
use mcp_llm_gateway_suite.Tools.Server.{
  Env, tool_of, object_of, execute, call_tool, handle_trigger_refund,
}
use mcp_llm_gateway_suite.Tools.Valid.{IsValid, refund_input-IsValid}

program : Unit {0}
unfolding refund_input is_customer_id amount_of reason_of key_field get text_eq strip lstrip
    is_space call_tool tool_of object_of execute handle_trigger_refund create_refund create_new book
    key_of lookup
program = tt

abbrev env : Env
env = record {
  sha256 = λ s. s;
  quoted = λ s. s;
  type_name = λ v. codes "list";
  validation_errors = λ name fs. Items.nil;
  new_id = codes "0123456789AB";
  now = codes "2025-01-01T00:00:00+00:00";
}

abbrev arguments_for : Json → Fields
arguments_for amount =
    field (codes "customer_id") (str (codes "CUST-10042")) (
      field (codes "amount") amount (field (codes "reason") (str (codes " Duplicate charge ")) end))

abbrev args : TriggerRefundInput
args = record {
  customer_id = codes "CUST-10042";
  amount = 4999;
  reason = codes "Duplicate charge";
  idempotency_key = none;
}

admits : refund_input (arguments_for (decimal (pos 4999) 2)) ≡ some args
unfolding program
admits = refl

three_places : refund_input (arguments_for (decimal (pos 49999) 3)) ≡ none
unfolding program
three_places = refl

no_money : refund_input (arguments_for (boolean true)) ≡ none
unfolding program
no_money = refl

refund_input-IsValid_example : IsValid args
refund_input-IsValid_example =
    refund_input-IsValid (arguments_for (decimal (pos 4999) 2)) args admits

refunds :
    length
      (call_tool env
        (codes "trigger_refund")
        (some (object (arguments_for (number (pos 50)))))
        seeded_store).1.refunds
    ≡ 1
unfolding program
refunds = refl
