-- ===== src/Tools/Server.antt =====
-- The handlers of task1_mcp_server/server.py.
use mcp_llm_gateway_suite.Base.{ℕ, true, false, Option, none, some, ◌++◌, if◌then◌else◌}
use mcp_llm_gateway_suite.Base.Int.{ℤ, pos, negsuc}
use mcp_llm_gateway_suite.Base.Text.{Text, codes, text_eq}
use mcp_llm_gateway_suite.Json.{
  Json, null, boolean, decimal, str, array, object, Items, nil, item, Fields, end, field, update,
}
use mcp_llm_gateway_suite.Billing.Defs.{
  Customer, Refund, Store, StoreError, customer_not_found, status_not_active, exceeds_balance,
  key_conflict, RefundEnd, returned, raised, RefundCall, format_amount, get_customer, create_refund,
}
use mcp_llm_gateway_suite.Tools.Schemas.{TriggerRefundInput, customer_record_input, refund_input}

-- What Python, Pydantic, the clock and `uuid4` give to a call: the digest of the store, `repr` of a
-- text, the name of a value's type, the list of `exc.errors()`, a new identifier and the time.
pub record Env : Type 0 where
  pub sha256 : Text → Text
  pub quoted : Text → Text
  pub type_name : Json → Text
  pub validation_errors : Text → Fields → Items
  pub new_id : Text
  pub now : Text

-- `structuredContent` of a result, whose text is the same in print.
pub data ToolResult : Type 0 where
  tool_ok tool_error : Fields → ToolResult

-- `McpError`, or a result.
pub data CallEnd : Type 0 where
  tool_result : ToolResult → CallEnd
  mcp_error : ℤ → Text → Option Fields → CallEnd

abbrev pub invalid_params_code : ℤ
invalid_params_code = negsuc 32601

unfoldable pub invalid_params : Text → Fields → CallEnd
invalid_params message details = mcp_error invalid_params_code message (some details)

-- `_tool_error`
unfoldable pub failure_result : Text → Fields → ToolResult
unfolding update
failure_result message extra =
    tool_error
      (update (field (codes "ok") (boolean false) (field (codes "error") (str message) end)) extra)

-- `_tool_ok`
unfoldable pub success_result : Fields → ToolResult
unfolding update
success_result payload = tool_ok (update (field (codes "ok") (boolean true) end) payload)

abbrev pub money : ℕ → Json
money cents = decimal (pos cents) 2

unfoldable pub not_found_message : Text → Text
not_found_message id = codes "No customer record for " ++ id

-- `str(exc)` of an exception of the store.
unfoldable pub error_message : Env → StoreError → Text
unfolding not_found_message format_amount
error_message env (customer_not_found id) = not_found_message id
error_message env (status_not_active id status) =
    codes "Customer "
    ++ (id
        ++ (codes " has status '"
            ++ (status ++ codes "'; refunds are only permitted for active customers")))
error_message env (exceeds_balance amount balance id) =
    codes "Refund of "
    ++ (format_amount amount
        ++ (codes " USD exceeds the refundable balance of "
            ++ (format_amount balance ++ (codes " USD for " ++ id))))
error_message env (key_conflict key) =
    codes "idempotency_key "
    ++ (env.quoted key
        ++ codes
            " was already used for a different refund request; use a new key or resend the original arguments")

unfoldable pub error_code : StoreError → Text
error_code (customer_not_found id) = codes "customer_not_found"
error_code (status_not_active id status) = codes "refund_not_permitted"
error_code (exceeds_balance amount balance id) = codes "refund_not_permitted"
error_code (key_conflict key) = codes "idempotency_key_conflict"

unfoldable pub error_fields : Text → Text → Fields
error_fields id code = field (codes "customer_id") (str id) (field (codes "code") (str code) end)

unfoldable pub customer_fields : Customer → Fields
customer_fields c = field (codes "customer_id") (str c.customer_id) (
    field (codes "name") (str c.name) (
      field (codes "email") (str c.email) (
        field (codes "plan") (str c.plan) (
          field (codes "status") (str c.status) (
            field (codes "lifetime_value_usd") (money c.lifetime_value)
              (field (codes "refundable_balance_usd") (money c.refundable_balance) end))))))

unfoldable pub refund_fields : Refund → Fields
refund_fields r = field (codes "refund_id") (str r.refund_id) (
    field (codes "customer_id") (str r.customer_id) (
      field (codes "amount_usd") (money r.amount) (
        field (codes "reason") (str r.reason) (
          field (codes "status") (str r.status)
            (field (codes "created_at") (str r.created_at) end)))))

unfoldable pub handle_get_customer_record : Text → Store → ToolResult
unfolding get_customer failure_result not_found_message error_fields success_result customer_fields
handle_get_customer_record id s = elim (get_customer s id) [
  | none ↦ failure_result (not_found_message id) (error_fields id (codes "customer_not_found"))
  | some c ↦ success_result (field (codes "customer") (object (customer_fields c)) end)
]

unfoldable pub refund_result : Env → Text → RefundEnd → ToolResult
unfolding failure_result error_message error_fields error_code success_result refund_fields
refund_result env id (returned r replayed) = success_result (
    field (codes "replayed") (boolean replayed)
      (field (codes "refund") (object (refund_fields r)) end))
refund_result env id (raised e) =
    failure_result (error_message env e) (error_fields id (error_code e))

unfoldable pub refund_call : Env → TriggerRefundInput → RefundCall
refund_call env args = record {
  customer_id = args.customer_id;
  amount = args.amount;
  reason = args.reason;
  idempotency_key = args.idempotency_key;
  new_id = env.new_id;
  now = env.now;
}

unfoldable pub handle_trigger_refund : Env → TriggerRefundInput → Store → ToolResult × Store
unfolding refund_result refund_call
handle_trigger_refund env args s =
    let (finish, s') = create_refund env.sha256 (refund_call env args) s in
    (refund_result env args.customer_id finish, s')

-- `TOOLS` and `DISPATCH`
pub data Tool : Type 0 where
  get_customer_record trigger_refund : Tool

unfoldable pub tool_of : Text → Option Tool
unfolding text_eq
tool_of name =
    if text_eq name (codes "get_customer_record")
    then some get_customer_record
    else if text_eq name (codes "trigger_refund")
    then some trigger_refund
    else none

unfoldable pub rejected_arguments : Env → Text → Fields → CallEnd
unfolding invalid_params
rejected_arguments env name arguments =
    invalid_params (codes "Invalid arguments for tool " ++ env.quoted name)
      (field (codes "validation_errors") (array (env.validation_errors name arguments)) end)

-- Steps 3 and 4 of `call_tool`.
unfoldable pub execute : Env → Text → Tool → Fields → Store → CallEnd × Store
unfolding handle_get_customer_record rejected_arguments
execute env name get_customer_record arguments s = elim (customer_record_input arguments) [
  | none ↦ (rejected_arguments env name arguments, s)
  | some id ↦ (tool_result (handle_get_customer_record id s), s)
]
execute env name trigger_refund arguments s = elim (refund_input arguments) [
  | none ↦ (rejected_arguments env name arguments, s)
  | some args ↦ let (result, s') = handle_trigger_refund env args s in (tool_result result, s')
]

-- The arguments of a call: missing ones, and `null`, are no arguments.
unfoldable pub object_of : Option Json → Option Fields
object_of none = some end
object_of (some null) = some end
object_of (some (object fs)) = some fs
object_of (some _) = none

unfoldable pub not_an_object : Env → Option Json → CallEnd
unfolding invalid_params
not_an_object env none = invalid_params (codes "params.arguments must be a JSON object") end
not_an_object env (some v) =
    invalid_params (codes "params.arguments must be a JSON object")
      (field (codes "received_type") (str (env.type_name v)) end)

unfoldable pub call_tool : Env → Text → Option Json → Store → CallEnd × Store
unfolding not_an_object invalid_params
call_tool env name arguments s = elim (tool_of name) [
  | none ↦ (
    invalid_params (codes "Unknown tool: " ++ env.quoted name) (
        field (codes "available_tools")
          (array
            (item (str (codes "get_customer_record")) (item (str (codes "trigger_refund")) nil)))
          end),
    s,
  )
  | some tool ↦ elim (object_of arguments) [
    | none ↦ (not_an_object env arguments, s)
    | some fs ↦ execute env name tool fs s
  ]
]
