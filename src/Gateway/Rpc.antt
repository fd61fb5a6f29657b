-- ===== src/Gateway/Rpc.antt =====
-- The messages of JSON-RPC in task2_mcp_gateway/mcp_gateway.py.
use mcp_llm_gateway_suite.Base.{Bool, true, false, ◌&&◌, Option, none, some, List, [], ◌∷◌}
use mcp_llm_gateway_suite.Base.Int.{ℤ, negsuc}
use mcp_llm_gateway_suite.Base.Text.{Text, codes, text_eq}
use mcp_llm_gateway_suite.Json.{
  Json, null, number, str, array, object, Items, nil, item, Fields, end, field, get,
}

-- `negsuc n` is -(n + 1).
abbrev pub parse_error : ℤ
parse_error = negsuc 32699

abbrev pub invalid_request : ℤ
invalid_request = negsuc 32599

abbrev pub invalid_params : ℤ
invalid_params = negsuc 32601

abbrev pub internal_error : ℤ
internal_error = negsuc 32602

abbrev pub unauthorized_tool_call : ℤ
unauthorized_tool_call = negsuc 32000

abbrev pub unauthenticated : ℤ
unauthenticated = negsuc 32001

abbrev pub upstream_unavailable : ℤ
upstream_unavailable = negsuc 32002

-- `isinstance(_, str)`, `isinstance(_, dict)` and `isinstance(_, list)` of what `get` returns.
unfoldable pub as_str : Option Json → Option Text
as_str (some (str s)) = some s
as_str _ = none

unfoldable pub as_object : Option Json → Option Fields
as_object (some (object fs)) = some fs
as_object _ = none

unfoldable pub as_array : Option Json → Option Items
as_array (some (array is)) = some is
as_array _ = none

-- `get` where a missing key and `null` are the same `None`.
unfoldable pub or_null : Option Json → Json
or_null none = null
or_null (some v) = v

unfoldable pub is_null : Json → Bool
is_null null = true
is_null _ = false

unfoldable pub item_list : Items → List Json
item_list nil = []
item_list (item v is) = v ∷ item_list is

unfoldable pub array_of : List Json → Items
array_of [] = nil
array_of (v ∷ vs) = item v (array_of vs)

unfoldable pub text_items : List Text → Items
text_items [] = nil
text_items (s ∷ ss) = item (str s) (text_items ss)

unfoldable pub rpc_error : Json → ℤ → Text → Option Fields → Json
rpc_error request_id code message data_fields = object (
    field (codes "jsonrpc") (str (codes "2.0")) (
      field (codes "id") request_id (
        field (codes "error")
          (object (
            field (codes "code") (number code) (
              field (codes "message") (str message) (elim data_fields [
                | none ↦ end
                | some fs ↦ field (codes "data") (object fs) end
              ]))))
          end)))

unfoldable pub is_text : Text → Option Text → Bool
unfolding text_eq
is_text s none = false
is_text s (some t) = text_eq t s

unfoldable pub is_some {ℓ} : {A : Type ℓ} → Option A → Bool
is_some none = false
is_some (some a) = true

unfoldable pub looks_like_rpc_request : Json → Bool
unfolding get as_str is_text is_some
looks_like_rpc_request (object fs) =
    is_text (codes "2.0") (as_str (get (codes "jsonrpc") fs))
    && is_some (as_str (get (codes "method") fs))
looks_like_rpc_request _ = false
