-- ===== src/Gateway/Denials.antt =====
-- Denials of task2_mcp_gateway/mcp_gateway.py carry the `id` of the message that they answer.
use mcp_llm_gateway_suite.Base.{◌≡◌, refl, subst, inl, inr, Option, none, some, [], ◌∷◌, Bool-cases}
use mcp_llm_gateway_suite.Base.Text.{Text, codes, text_eq}
use mcp_llm_gateway_suite.Json.{
  Json, null, boolean, number, decimal, str, array, object, Fields, get,
}
use mcp_llm_gateway_suite.Gateway.Auth.{Principal}
use mcp_llm_gateway_suite.Gateway.Policy.{
  is_wellformed_tool_name, is_wellformed_method, normalize_method, evaluate,
}
use mcp_llm_gateway_suite.Gateway.Rpc.{as_str, as_object, or_null, rpc_error}
use mcp_llm_gateway_suite.Gateway.Authorize.{
  App, refuse_params, judge_tool, authorize_name, authorize_params, authorize_method, authorize,
}

-- The `id` of a message, `null` where it has none.
abbrev pub id_of : Json → Json
id_of (object fs) = or_null (get (codes "id") fs)
id_of (null) = null
id_of (boolean b) = null
id_of (number n) = null
id_of (decimal n k) = null
id_of (str s) = null
id_of (array is) = null

-- The `id` of a denial, and the one that it has to carry where there is none.
abbrev id_or : Json → Option Json → Json
id_or rpc_id none = rpc_id
id_or rpc_id (some denial) = id_of denial

module _ (app : App) (p : Principal) (request_id : Text) where
  judge_tool_id :
      (rpc_id : Json) (name : Text)
      → id_or rpc_id (judge_tool app p request_id rpc_id name).denial ≡ rpc_id
  unfolding judge_tool rpc_error get text_eq or_null
  judge_tool_id rpc_id name = elim (Bool-cases (evaluate app.folding app.policy name p).allowed) [
    | inl allowed ↦ rw (allowed, judge_tool) refl
    | inr denied ↦ rw (denied, judge_tool) refl
  ]

  authorize_name_id :
      (rpc_id : Json) (name : Option Text)
      → id_or rpc_id (authorize_name app p request_id rpc_id name).denial ≡ rpc_id
  unfolding authorize_name refuse_params rpc_error get text_eq or_null
  authorize_name_id rpc_id none = refl
  authorize_name_id rpc_id (some []) = refl
  authorize_name_id rpc_id (some (c ∷ s)) = elim (Bool-cases (is_wellformed_tool_name (c ∷ s))) [
    | inl fine ↦ rw (fine, authorize_name) (judge_tool_id rpc_id (c ∷ s))
    | inr bad ↦ rw (bad, authorize_name) refl
  ]

  authorize_params_id :
      (rpc_id : Json) (params : Option Fields)
      → id_or rpc_id (authorize_params app p request_id rpc_id params).denial ≡ rpc_id
  unfolding authorize_params refuse_params rpc_error get text_eq or_null
  authorize_params_id rpc_id none = refl
  authorize_params_id rpc_id (some params) =
      authorize_name_id rpc_id (as_str (get (codes "name") params))

  authorize_method_id :
      (payload : Fields) (method : Option Text)
      → id_or
          (or_null (get (codes "id") payload))
          (authorize_method app p request_id payload method).denial
        ≡ or_null (get (codes "id") payload)
  unfolding authorize_method rpc_error get text_eq or_null
  authorize_method_id payload none = refl
  authorize_method_id payload (some method) =
      let params =
        authorize_params_id (or_null (get (codes "id") payload))
          (as_object (get (codes "params") payload)) in
      elim (Bool-cases (is_wellformed_method method)) [
        | inr bad ↦ rw (bad, authorize_method) refl
        | inl fine ↦
            elim (Bool-cases (text_eq (normalize_method app.folding method) (codes "tools/call"))) [
              | inl call ↦ rw (fine, authorize_method, call) params
              | inr other ↦ rw (fine, authorize_method, other) refl
            ]
      ]

  pub denial_id :
      (payload : Fields) (denial : Json)
      → (authorize app p request_id payload).denial ≡ some denial
      → id_of denial ≡ or_null (get (codes "id") payload)
  unfolding authorize
  denial_id payload denial denied =
      let m = authorize_method_id payload (as_str (get (codes "method") payload)) in
      subst (λ d. id_or (or_null (get (codes "id") payload)) d ≡ or_null (get (codes "id") payload))
        denied m
