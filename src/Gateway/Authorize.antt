-- ===== src/Gateway/Authorize.antt =====
-- `authorize` and the hop downstream of task2_mcp_gateway/mcp_gateway.py.
use mcp_llm_gateway_suite.Base.{
  ℕ, Bool, not, Option, none, some, List, [], ◌∷◌, ◌++◌, if◌then◌else◌,
}
use mcp_llm_gateway_suite.Base.Text.{Text, codes, text_eq}
use mcp_llm_gateway_suite.Json.{Json, str, array, Fields, end, field, get}
use mcp_llm_gateway_suite.Gateway.Auth.{Principal}
use mcp_llm_gateway_suite.Gateway.Policy.{
  Folding, Decision, ToolPolicy, is_wellformed_tool_name, is_wellformed_method, normalize_method,
  normalize_tool_name, evaluate, required_roles, sorted,
}
use mcp_llm_gateway_suite.Gateway.Rpc.{
  invalid_request, invalid_params, unauthorized_tool_call, as_str, as_object, or_null, text_items,
  rpc_error,
}

-- The state of the application, with the credential of the gateway and Python's Unicode tables.
pub record App : Type 0 where
  pub folding : Folding
  pub policy : ToolPolicy
  pub filter_tools_list : Bool
  pub allow_batch : Bool
  pub downstream_token : Text

abbrev pub Headers : Type 0
Headers = List (Text × Text)

unfoldable pub downstream_headers : App → Principal → Text → Headers
downstream_headers app p request_id =
    (codes "Content-Type", codes "application/json")
    ∷ (codes "Accept", codes "application/json, text/event-stream")
    ∷ (codes "Authorization", codes "Bearer " ++ app.downstream_token)
    ∷ (codes "X-MCP-Gateway-Subject", p.subject)
    ∷ (codes "X-MCP-Gateway-Role", p.role)
    ∷ (codes "X-MCP-Gateway-Tenant", p.tenant)
    ∷ (codes "X-Request-Id", request_id)
    ∷ []

-- What the gateway does to the world while it handles a request: messages that it sends downstream
-- and lines of the audit log, by their event.
pub data Effect : Type 0 where
  sent : Fields → Headers → Effect
  auth_failed : Text → Effect
  method_rejected : Text → Effect
  tool_call_rejected : Text → Effect
  tool_call_judged : Principal → Text → Decision → Effect
  upstream_timeout : Effect
  upstream_non_json : ℕ → Effect
  forwarded : Text → Json → ℕ → Effect
  exception_logged : Effect

-- What `authorize` returns, `none` to allow the call, and what it writes to the log.
pub record Verdict : Type 0 where
  pub denial : Option Json
  pub effects : List Effect

unfoldable pub refuse_params : Json → Text → Option Fields → List Effect → Verdict
unfolding rpc_error
refuse_params rpc_id message data_fields effects = record {
  denial = some (rpc_error rpc_id invalid_params message data_fields);
  effects = effects;
}

-- The end of `authorize`, from a name that is well formed on.
unfoldable pub judge_tool : App → Principal → Text → Json → Text → Verdict
unfolding evaluate normalize_tool_name required_roles sorted text_items rpc_error
judge_tool app p request_id rpc_id name =
    let decision = evaluate app.folding app.policy name p in
    let roles = required_roles (normalize_tool_name app.folding name) app.policy.prefix_roles in
    let audited = tool_call_judged p name decision ∷ [] in
    if decision.allowed then record { denial = none; effects = audited } else record {
      denial = some (
          rpc_error rpc_id unauthorized_tool_call (codes "Unauthorized Tool Call") (
            some (
              field (codes "tool") (str name) (
                field (codes "required_role") (array (text_items (sorted roles))) (
                  field (codes "caller_role") (str p.role)
                    (field (codes "request_id") (str request_id) end))))));
      effects = audited;
    }

-- `authorize` on the parameters of a call.
unfoldable pub authorize_name : App → Principal → Text → Json → Option Text → Verdict
unfolding judge_tool refuse_params is_wellformed_tool_name
authorize_name app p request_id rpc_id none =
    refuse_params rpc_id (codes "params.name must be a non-empty string") none []
authorize_name app p request_id rpc_id (some []) =
    refuse_params rpc_id (codes "params.name must be a non-empty string") none []
authorize_name app p request_id rpc_id (some (c ∷ s)) =
    if not (is_wellformed_tool_name (c ∷ s))
    then refuse_params rpc_id
        (codes "params.name contains characters outside the permitted tool-name set")
        (some (field (codes "permitted") (str (codes "^[A-Za-z0-9_.-]{1,128}$")) end))
        (tool_call_rejected p.subject ∷ [])
    else judge_tool app p request_id rpc_id (c ∷ s)

unfoldable pub authorize_params : App → Principal → Text → Json → Option Fields → Verdict
unfolding authorize_name refuse_params as_str get
authorize_params app p request_id rpc_id none =
    refuse_params rpc_id (codes "params must be an object for tools/call") none []
authorize_params app p request_id rpc_id (some params) =
    authorize_name app p request_id rpc_id (as_str (get (codes "name") params))

abbrev pub malformed_method : Principal → Json → Verdict
malformed_method p rpc_id = record {
  denial = some (
      rpc_error rpc_id invalid_request
        (codes "method contains characters outside the permitted set")
        (some (field (codes "permitted") (str (codes "^[A-Za-z0-9_./-]{1,128}$")) end)));
  effects = method_rejected p.subject ∷ [];
}

unfoldable pub authorize_method : App → Principal → Text → Fields → Option Text → Verdict
unfolding is_wellformed_method normalize_method authorize_params as_object or_null get text_eq
    rpc_error
authorize_method app p request_id payload none =
    malformed_method p (or_null (get (codes "id") payload))
authorize_method app p request_id payload (some method) =
    let rpc_id = or_null (get (codes "id") payload) in
    if not (is_wellformed_method method)
    then malformed_method p rpc_id
    else if not (text_eq (normalize_method app.folding method) (codes "tools/call"))
    then record { denial = none; effects = [] }
    else authorize_params app p request_id rpc_id (as_object (get (codes "params") payload))

unfoldable pub authorize : App → Principal → Text → Fields → Verdict
unfolding authorize_method as_str get
authorize app p request_id payload =
    authorize_method app p request_id payload (as_str (get (codes "method") payload))
