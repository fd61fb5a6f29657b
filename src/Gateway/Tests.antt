-- ===== src/Gateway/Tests.antt =====
-- The gateway of task2_mcp_gateway on messages of its tests.
use mcp_llm_gateway_suite.Base.{◌≡◌, refl, true, false, some, List, [], ◌∷◌, map, All}
use mathlib.Core.List.{Memᴰ}
use mcp_llm_gateway_suite.Base.Text.{
  Text, codes, text_eq, starts_with, strip, lower, is_space, lstrip,
}
use mcp_llm_gateway_suite.Base.Int.{pos}
use mcp_llm_gateway_suite.Json.{
  Json, null, number, str, array, object, Items, Fields, end, field, get, put,
}
use mcp_llm_gateway_suite.Gateway.Auth.{
  ada, granted, known_tokens, extract_bearer_token, find_principal, resolve_principal,
}
use mcp_llm_gateway_suite.Gateway.Policy.{Folding, IsFolding, default_policy}
use mcp_llm_gateway_suite.Gateway.Rpc.{as_str, or_null, is_null, looks_like_rpc_request}
use mcp_llm_gateway_suite.Gateway.Authorize.{App, authorize}
use mcp_llm_gateway_suite.Gateway.Proxy.{
  Body, json_body, not_json, Reply, answered, Upstream, filtered,
}
use mcp_llm_gateway_suite.Gateway.Batch.{
  HttpRequest, request_id_of, handle_entry, handle_entries, handle_batch, proxy,
}
use mcp_llm_gateway_suite.Gateway.Sends.{sent_messages}
use mcp_llm_gateway_suite.Gateway.Forward.{IsAnswerable, proxy-IsAnswerable}
use mcp_llm_gateway_suite.Gateway.Spelling.{authorize_admin}
use mcp_llm_gateway_suite.Gateway.Credentials.{resolve_principal-Mem, proxy_blind}

program : Unit {0}
unfolding resolve_principal find_principal authorize filtered handle_entry handle_entries
    handle_batch proxy get put as_str or_null text_eq starts_with strip lstrip is_space
    request_id_of looks_like_rpc_request is_null
program = tt

-- A folding that is right on ASCII.
abbrev ascii_folding : Folding
ascii_folding = record { nfkc = λ s. s; casefold = lower }

ascii_folding-IsFolding : IsFolding ascii_folding
ascii_folding-IsFolding = record { nfkc_ascii = λ s h. refl; casefold_ascii = λ s h. refl }

abbrev app : App
app = record {
  folding = ascii_folding;
  policy = default_policy;
  filter_tools_list = false;
  allow_batch = true;
  downstream_token = codes "gateway-service-token";
}

abbrev digest : Text → Text
digest s = s

-- A server that gives every request back under its `id`.
abbrev echo : Upstream
echo count payload headers = answered (record {
  status_code = 200;
  content_type = codes "application/json";
  raw = [];
  body = json_body (object (field (codes "id") (or_null (get (codes "id") payload)) end));
})

abbrev call_of : Text → Text → Json → Fields
call_of method name id = field (codes "jsonrpc") (str (codes "2.0")) (
    field (codes "id") id (
      field (codes "method") (str method)
        (field (codes "params") (object (field (codes "name") (str name) end)) end)))

abbrev request_of : Text → Json → HttpRequest
request_of credential payload = record {
  authorization = some credential;
  request_id_header = some (codes "r-1");
  payload = some payload;
  new_id = codes "r-2";
}

abbrev sent_by : Text → Json → List Fields
sent_by credential payload =
    map (λ m. m.0) (sent_messages (proxy digest app echo (request_of credential payload)).effects)

abbrev shouted : Fields
shouted = call_of (codes "Tools/Call") (codes "ADMIN_reset_key") (number (pos 1))

viewer_denied : sent_by (codes "Bearer viewer-token-def456") (object shouted) ≡ []
unfolding program
viewer_denied = refl

admin_forwarded : sent_by (codes "bearer  admin-token-abc123 ") (object shouted) ≡ shouted ∷ []
unfolding program
admin_forwarded = refl

no_token : sent_by (codes "Basic admin-token-abc123") (object shouted) ≡ []
unfolding program
no_token = refl

abbrev search_call : Fields
search_call = call_of (codes "tools/call") (codes "search_orders") (number (pos 2))

abbrev batch : Items
batch = Items.item (object shouted) (Items.item null (Items.item (object search_call) Items.nil))

batch_sends : sent_by (codes "Bearer viewer-token-def456") (array batch) ≡ search_call ∷ []
unfolding program
batch_sends = refl

proxy-IsAnswerable_example :
    All (IsAnswerable digest app (request_of (codes "Bearer viewer-token-def456") (array batch))) (
      sent_messages
        (proxy digest app echo
          (request_of (codes "Bearer viewer-token-def456") (array batch))).effects)
proxy-IsAnswerable_example =
    proxy-IsAnswerable digest app echo
      (request_of (codes "Bearer viewer-token-def456") (array batch))

authorize_admin_example : ada.role ≡ codes "admin"
unfolding program
authorize_admin_example =
    authorize_admin app ada (codes "r-1") shouted
      (field (codes "name") (str (codes "ADMIN_reset_key")) end) (codes "Tools/Call")
      (codes "ADMIN_reset_key") ascii_folding-IsFolding refl refl refl refl refl refl refl

abbrev body_of : Reply → Body
body_of (answered r) = r.body
body_of _ = not_json

abbrev json_of : Body → Json
json_of (json_body b) = b
json_of _ = null

resolve_principal-Mem_example :
    (token : Text) × (extract_bearer_token (some (codes "BEARER  admin-token-abc123"))
      ≡ granted token)
    × Memᴰ (token, ada) known_tokens
unfolding program
resolve_principal-Mem_example =
    resolve_principal-Mem digest (some (codes "BEARER  admin-token-abc123")) ada (λ s t e. e) refl

proxy_blind_example :
    proxy digest app echo (request_of (codes "Bearer admin-token-abc123") (object shouted))
    ≡ proxy digest app echo (request_of (codes "bearer  admin-token-abc123 ") (object shouted))
unfolding program
proxy_blind_example =
    proxy_blind digest app echo (request_of (codes "Bearer admin-token-abc123") (object shouted))
      (some (codes "bearer  admin-token-abc123 ")) ada refl refl
