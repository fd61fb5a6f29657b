-- ===== src/Gateway/Answers.antt =====
-- What `handle_batch` of task2_mcp_gateway/mcp_gateway.py answers.
use mcp_llm_gateway_suite.Base.{ℕ, ◌≡◌, Bool, true, not, ◌||◌, none, some, List, if◌then◌else◌}
use mcp_llm_gateway_suite.Base.Text.{Text, codes}
use mcp_llm_gateway_suite.Json.{Json, null, Fields, get}
use mcp_llm_gateway_suite.Gateway.Rpc.{as_object, or_null, looks_like_rpc_request}
use mcp_llm_gateway_suite.Gateway.Authorize.{Headers}
use mcp_llm_gateway_suite.Gateway.Proxy.{answered, json_body, UpstreamResponse, Upstream}
use mcp_llm_gateway_suite.Gateway.Batch.{wants_answer}
use mcp_llm_gateway_suite.Gateway.Denials.{id_of}

-- The `id` that an answer to an entry has to carry.
abbrev pub entry_id : Json → Json
entry_id entry = if looks_like_rpc_request entry then id_of entry else null

-- An entry is answered if it is no request, or a request with an `id`.
abbrev pub is_answered : Json → Bool
is_answered entry =
    not (looks_like_rpc_request entry)
    || (elim (as_object (some entry)) [ none ↦ true | some fs ↦ wants_answer fs ])

-- The server downstream answers a request under its `id`.
abbrev pub IsEchoing : Upstream → Type 0
IsEchoing up =
    (count : ℕ) (payload : Fields) (headers : Headers) (r : UpstreamResponse) (body : Json)
    → up count payload headers ≡ answered r
    → r.body ≡ json_body body
    → id_of body ≡ or_null (get (codes "id") payload)
