-- ===== src/Tools/Effects.antt =====
-- What a call of a tool in task1_mcp_server/server.py does to the store.
use mcp_llm_gateway_suite.Base.{◌≡◌, false, Option, some}
use mcp_llm_gateway_suite.Base.Text.{Text, codes}
use mcp_llm_gateway_suite.Json.{Json, Fields}
use mcp_llm_gateway_suite.Billing.Defs.{Store, returned, refund_of}
use mcp_llm_gateway_suite.Billing.Ledger.{IsBooked}
use mcp_llm_gateway_suite.Tools.Schemas.{TriggerRefundInput, refund_input}
use mcp_llm_gateway_suite.Tools.Server.{
  Env, tool_result, refund_call, refund_result, object_of, call_tool,
}

-- A call that refunds: it names the tool for refunds, its arguments are valid, the store has booked
-- the refund, and the caller is told of it.
pub record IsRefunding (env : Env) (name : Text) (arguments : Option Json) (s : Store)
    : Type 0 where
  pub is_refund : name ≡ codes "trigger_refund"
  pub fields : Fields
  pub object : object_of arguments ≡ some fields
  pub args : TriggerRefundInput
  pub valid : refund_input fields ≡ some args
  pub booked : IsBooked env.sha256 (refund_call env args) s
  pub told :
      (call_tool env name arguments s).0
      ≡ tool_result (
          refund_result env args.customer_id
            (returned (refund_of env.sha256 (refund_call env args)) false))
