-- ===== src/Gateway/Guard.antt =====
-- What task2_mcp_gateway/mcp_gateway.py lets through to the server downstream.
use mcp_llm_gateway_suite.Base.{
  ◌≡◌, refl, ◌⊎◌, inl, inr, true, Option, none, some, [], ◌∷◌, ◌≢◌, arith, Bool-cases, Option-cases,
}
use mcp_llm_gateway_suite.Base.Text.{Text, codes, text_eq, text_eq_iff}
use mcp_llm_gateway_suite.Json.{
  Json, null, boolean, number, decimal, str, array, object, Fields, get,
}
use mcp_llm_gateway_suite.Gateway.Auth.{Principal}
use mcp_llm_gateway_suite.Gateway.Policy.{
  is_wellformed_tool_name, is_wellformed_method, normalize_method, evaluate,
}
use mcp_llm_gateway_suite.Gateway.Rpc.{as_str, as_object, or_null}
use mcp_llm_gateway_suite.Gateway.Authorize.{
  App, refuse_params, judge_tool, authorize_name, authorize_params, authorize_method, authorize,
}

-- A call of a tool that the policy allows.
pub record IsAllowedCall (app : App) (p : Principal) (payload : Fields) : Type 0 where
  pub params : Fields
  pub name : Text
  pub has_params : get (codes "params") payload ≡ some (object params)
  pub has_name : get (codes "name") params ≡ some (str name)
  pub wellformed : is_wellformed_tool_name name ≡ true
  pub allowed : (evaluate app.folding app.policy name p).allowed ≡ true

-- A message that a caller may have forwarded: it has a method of the permitted characters, and if
-- that is a call of a tool in any spelling, the policy allows it.
pub record IsPermitted (app : App) (p : Principal) (payload : Fields) : Type 0 where
  pub method : Text
  pub has_method : get (codes "method") payload ≡ some (str method)
  pub wellformed : is_wellformed_method method ≡ true
  pub call :
      (normalize_method app.folding method ≢ codes "tools/call") ⊎ IsAllowedCall app p payload

as_str_eq : (v : Option Json) (s : Text) → as_str v ≡ some s → v ≡ some (str s)
unfolding as_str
as_str_eq none s h = absurd cc
as_str_eq (some null) s h = absurd cc
as_str_eq (some (boolean b)) s h = absurd cc
as_str_eq (some (number n)) s h = absurd cc
as_str_eq (some (decimal n k)) s h = absurd cc
as_str_eq (some (str t)) s h = cc
as_str_eq (some (array is)) s h = absurd cc
as_str_eq (some (object fs)) s h = absurd cc

as_object_eq : (v : Option Json) (fs : Fields) → as_object v ≡ some fs → v ≡ some (object fs)
unfolding as_object
as_object_eq none fs h = absurd cc
as_object_eq (some null) fs h = absurd cc
as_object_eq (some (boolean b)) fs h = absurd cc
as_object_eq (some (number n)) fs h = absurd cc
as_object_eq (some (decimal n k)) fs h = absurd cc
as_object_eq (some (str t)) fs h = absurd cc
as_object_eq (some (array is)) fs h = absurd cc
as_object_eq (some (object gs)) fs h = cc

module _ (app : App) (p : Principal) (request_id : Text) where
  judge_tool-allowed :
      (rpc_id : Json) (name : Text)
      → (judge_tool app p request_id rpc_id name).denial ≡ none
      → (evaluate app.folding app.policy name p).allowed ≡ true
  unfolding judge_tool
  judge_tool-allowed rpc_id name h = ground arith

  authorize_name-allowed :
      (rpc_id : Json) (name : Option Text)
      → (authorize_name app p request_id rpc_id name).denial ≡ none
      → (s : Text) × (name ≡ some s)
        × (is_wellformed_tool_name s ≡ true)
        × ((evaluate app.folding app.policy s p).allowed ≡ true)
  unfolding authorize_name refuse_params
  authorize_name-allowed rpc_id none h = absurd cc
  authorize_name-allowed rpc_id (some []) h = absurd cc
  authorize_name-allowed rpc_id (some (c ∷ s)) h =
      elim (Bool-cases (is_wellformed_tool_name (c ∷ s))) [
        | inl fine ↦ (c ∷ s, refl, fine, judge_tool-allowed rpc_id (c ∷ s) (ground arith))
        | inr bad ↦ absurd (ground arith)
      ]

  authorize_params-IsAllowedCall :
      (rpc_id : Json) (payload : Fields)
      → (authorize_params app p request_id rpc_id (as_object (get (codes "params") payload))).denial
        ≡ none
      → IsAllowedCall app p payload
  unfolding authorize_params refuse_params
  authorize_params-IsAllowedCall rpc_id payload h =
      elim (Option-cases (as_object (get (codes "params") payload))) [
        | inl missing ↦ absurd (ground arith)
        | inr (params, found) ↦
            let (name, has_name, fine, allowed) =
              authorize_name-allowed rpc_id (as_str (get (codes "name") params)) (ground arith) in
            record {
              params = params;
              name = name;
              has_params = as_object_eq (get (codes "params") payload) params found;
              has_name = as_str_eq (get (codes "name") params) name has_name;
              wellformed = fine;
              allowed = allowed;
            }
      ]

  pub authorize-IsPermitted :
      (payload : Fields)
      → (authorize app p request_id payload).denial ≡ none
      → IsPermitted app p payload
  unfolding authorize authorize_method
  authorize-IsPermitted payload h = elim (Option-cases (as_str (get (codes "method") payload))) [
    | inl missing ↦ absurd (ground arith)
    | inr (method, found) ↦ elim (Bool-cases (is_wellformed_method method)) [
      | inr bad ↦ absurd (ground arith)
      | inl fine ↦ record {
        method = method;
        has_method = as_str_eq (get (codes "method") payload) method found;
        wellformed = fine;
        call =
            elim (Bool-cases (text_eq (normalize_method app.folding method) (codes "tools/call"))) [
              | inr other ↦ inl (λ e.
                  let t =
                    (text_eq_iff (normalize_method app.folding method) (codes "tools/call")).1 e in
                  cc)
              | inl call ↦ inr (
                  authorize_params-IsAllowedCall (or_null (get (codes "id") payload)) payload
                    (ground arith))
            ];
      }
    ]
  ]
