-- ===== src/Gateway/Sends.antt =====
-- What handling a request sends downstream, in task2_mcp_gateway/mcp_gateway.py.
use mcp_llm_gateway_suite.Base.{
  ℕ, ◌+◌, ◌≡◌, refl, ap, ◌⊎◌, inl, inr, Option, none, some, List, [], ◌∷◌, ◌++◌, arith, Bool-cases,
  Option-cases,
}
use mcp_llm_gateway_suite.Base.Text.{Text, codes, starts_with}
use mcp_llm_gateway_suite.Json.{
  Json, null, boolean, number, decimal, str, array, object, Fields, get,
}
use mcp_llm_gateway_suite.Gateway.Auth.{Principal}
use mcp_llm_gateway_suite.Gateway.Policy.{is_wellformed_tool_name, evaluate}
use mcp_llm_gateway_suite.Gateway.Rpc.{as_str, as_object, or_null, looks_like_rpc_request}
use mcp_llm_gateway_suite.Gateway.Authorize.{
  App, Headers, downstream_headers, Effect, sent, auth_failed, method_rejected, tool_call_rejected,
  tool_call_judged, upstream_timeout, upstream_non_json, forwarded, exception_logged, refuse_params,
  judge_tool, authorize_name, authorize_params, authorize_method, authorize,
}
use mcp_llm_gateway_suite.Gateway.Proxy.{
  Reply, answered, timed_out, http_error, other_error, Body, json_body, not_json, too_deep,
  UpstreamResponse, Upstream, filtered, relay, relay_body, handle_single,
}
use mcp_llm_gateway_suite.Gateway.Batch.{
  answer_body, entry_body, handle_request, handle_entry, handle_entries,
}

-- The messages among the effects.
abbrev pub sent_messages : List Effect → List (Fields × Headers)
sent_messages [] = []
sent_messages (sent payload headers ∷ es) = (payload, headers) ∷ sent_messages es
sent_messages (auth_failed r ∷ es) = sent_messages es
sent_messages (method_rejected s ∷ es) = sent_messages es
sent_messages (tool_call_rejected s ∷ es) = sent_messages es
sent_messages (tool_call_judged p n d ∷ es) = sent_messages es
sent_messages (upstream_timeout ∷ es) = sent_messages es
sent_messages (upstream_non_json n ∷ es) = sent_messages es
sent_messages (forwarded s m n ∷ es) = sent_messages es
sent_messages (exception_logged ∷ es) = sent_messages es

pub sent_messages-append :
    (es fs : List Effect) → sent_messages (es ++ fs) ≡ sent_messages es ++ sent_messages fs
sent_messages-append [] fs = refl
sent_messages-append (sent payload headers ∷ es) fs =
    ap (λ l. (payload, headers) ∷ l) (sent_messages-append es fs)
sent_messages-append (auth_failed r ∷ es) fs = sent_messages-append es fs
sent_messages-append (method_rejected s ∷ es) fs = sent_messages-append es fs
sent_messages-append (tool_call_rejected s ∷ es) fs = sent_messages-append es fs
sent_messages-append (tool_call_judged p n d ∷ es) fs = sent_messages-append es fs
sent_messages-append (upstream_timeout ∷ es) fs = sent_messages-append es fs
sent_messages-append (upstream_non_json n ∷ es) fs = sent_messages-append es fs
sent_messages-append (forwarded s m n ∷ es) fs = sent_messages-append es fs
sent_messages-append (exception_logged ∷ es) fs = sent_messages-append es fs

-- An authorization writes to the log only.
module _ (app : App) (p : Principal) (request_id : Text) where
  authorize_name_sends :
      (rpc_id : Json) (name : Option Text)
      → sent_messages (authorize_name app p request_id rpc_id name).effects ≡ []
  unfolding authorize_name judge_tool refuse_params
  authorize_name_sends rpc_id none = refl
  authorize_name_sends rpc_id (some []) = refl
  authorize_name_sends rpc_id (some (c ∷ s)) = elim (Bool-cases (is_wellformed_tool_name (c ∷ s))) [
    | inr bad ↦ rw bad refl
    | inl fine ↦ elim (Bool-cases (evaluate app.folding app.policy (c ∷ s) p).allowed) [
      | inl allowed ↦ rw (fine, allowed) refl
      | inr denied ↦ rw (fine, denied) refl
    ]
  ]

  pub authorize_sends :
      (payload : Fields) → sent_messages (authorize app p request_id payload).effects ≡ []
  unfolding authorize authorize_method authorize_params refuse_params
  authorize_sends payload = elim (Option-cases (as_str (get (codes "method") payload))) [
    | inl missing ↦ rw missing refl
    | inr (method, found) ↦ elim (Option-cases (as_object (get (codes "params") payload))) [
      | inl missing ↦ ground arith
      | inr (params, has_params) ↦
          let names =
            authorize_name_sends (or_null (get (codes "id") payload))
              (as_str (get (codes "name") params)) in
          ground arith
    ]
  ]

  answer_body_sends :
      (entry : Fields) (body : Body) → sent_messages (answer_body entry request_id body).1 ≡ []
  unfolding answer_body
  answer_body_sends entry (json_body b) = refl
  answer_body_sends entry not_json = refl
  answer_body_sends entry too_deep = refl

  entry_body_sends :
      (entry : Fields) (reply : Reply) → sent_messages (entry_body entry request_id reply).1 ≡ []
  unfolding entry_body
  entry_body_sends entry (answered r) = answer_body_sends entry r.body
  entry_body_sends entry timed_out = refl
  entry_body_sends entry http_error = refl
  entry_body_sends entry other_error = refl

  relay_body_sends :
      (payload : Fields) (r : UpstreamResponse) (body : Body)
      → sent_messages (relay_body app p request_id payload r body).effects ≡ []
  unfolding relay_body
  relay_body_sends payload r not_json = refl
  relay_body_sends payload r too_deep = refl
  relay_body_sends payload r (json_body b) = elim (Option-cases (filtered app p payload b)) [
    | inl raises ↦ rw (raises, relay_body) refl
    | inr (b', fine) ↦ rw (fine, relay_body) refl
  ]

  relay_sends :
      (payload : Fields) (reply : Reply)
      → sent_messages (relay app p request_id payload reply).effects ≡ []
  unfolding relay
  relay_sends payload timed_out = refl
  relay_sends payload http_error = refl
  relay_sends payload other_error = refl
  relay_sends payload (answered r) =
      elim (Bool-cases (starts_with r.content_type (codes "text/event-stream"))) [
        | inl streams ↦ rw streams refl
        | inr whole ↦ rw whole (relay_body_sends payload r r.body)
      ]

module _ (app : App) (up : Upstream) (p : Principal) (request_id : Text) where
  sends_one :
      (payload : Fields) (before after : List Effect)
      → sent_messages before ≡ []
      → sent_messages after ≡ []
      → sent_messages (before ++ (sent payload (downstream_headers app p request_id) ∷ after))
        ≡ (payload, downstream_headers app p request_id) ∷ []
  sends_one payload before after b a =
      let e =
        sent_messages-append before (sent payload (downstream_headers app p request_id) ∷ after) in
      cc

  pub single_sent :
      (payload : Fields)
      → ((authorize app p request_id payload).denial ≡ none)
          × (sent_messages (handle_single app up p request_id payload).effects
              ≡ (payload, downstream_headers app p request_id) ∷ [])
        ⊎ (sent_messages (handle_single app up p request_id payload).effects ≡ [])
  unfolding handle_single
  single_sent payload =
      let quiet = authorize_sends app p request_id payload in
      elim (Option-cases (authorize app p request_id payload).denial) [
        | inr (denial, denied) ↦ inr (ground arith)
        | inl allowed ↦
            let headers = downstream_headers app p request_id in
            let relayed = relay app p request_id payload (up 0 payload headers) in
            let one =
              sends_one payload (authorize app p request_id payload).effects relayed.effects quiet
                (relay_sends app p request_id payload (up 0 payload headers)) in
            inl (allowed, ground arith)
      ]

  pub request_sent :
      (count : ℕ) (entry : Fields)
      → ((authorize app p request_id entry).denial ≡ none)
          × (sent_messages (handle_request app up p request_id count entry).effects
              ≡ (entry, downstream_headers app p request_id) ∷ [])
        ⊎ (sent_messages (handle_request app up p request_id count entry).effects ≡ [])
  unfolding handle_request
  request_sent count entry =
      let quiet = authorize_sends app p request_id entry in
      elim (Option-cases (authorize app p request_id entry).denial) [
        | inr (denial, denied) ↦ inr (ground arith)
        | inl allowed ↦
            let headers = downstream_headers app p request_id in
            let one =
              sends_one entry (authorize app p request_id entry).effects
                (entry_body entry request_id (up count entry headers)).1 quiet
                (entry_body_sends app p request_id entry (up count entry headers)) in
            inl (allowed, ground arith)
      ]

  pub entry_sent :
      (count : ℕ) (entry : Json)
      → ((fs : Fields) × (entry ≡ object fs)
          × ((authorize app p request_id fs).denial ≡ none)
          × (sent_messages (handle_entry app up p request_id count entry).effects
              ≡ (fs, downstream_headers app p request_id) ∷ []))
        ⊎ (sent_messages (handle_entry app up p request_id count entry).effects ≡ [])
  unfolding handle_entry as_object looks_like_rpc_request
  entry_sent count null = inr refl
  entry_sent count (boolean b) = inr refl
  entry_sent count (number n) = inr refl
  entry_sent count (decimal n k) = inr refl
  entry_sent count (str s) = inr refl
  entry_sent count (array is) = inr refl
  entry_sent count (object fs) = elim (Bool-cases (looks_like_rpc_request (object fs))) [
    | inr odd ↦ inr (rw (odd, handle_entry) refl)
    | inl fine ↦ elim (request_sent count fs) [
      | inl (allowed, one) ↦ inl (fs, refl, allowed, ground arith)
      | inr nothing ↦ inr (ground arith)
    ]
  ]

  -- A further entry adds what it sends, and the entries behind it what they send unless it raises.
  pub entries_sent :
      (count : ℕ) (entry : Json) (entries : List Json)
      → (sent_messages (handle_entries app up p request_id count (entry ∷ entries)).1
          ≡ sent_messages (handle_entry app up p request_id count entry).effects)
        ⊎ (sent_messages (handle_entries app up p request_id count (entry ∷ entries)).1
            ≡ sent_messages (handle_entry app up p request_id count entry).effects
              ++ sent_messages
                  (handle_entries app up p request_id
                    (count + (handle_entry app up p request_id count entry).calls)
                    entries).1)
  unfolding handle_entries
  entries_sent count entry entries =
      let e = handle_entry app up p request_id count entry in
      let both =
        sent_messages-append e.effects
          (handle_entries app up p request_id (count + e.calls) entries).1 in
      elim (Option-cases e.responses) [
        | inl raises ↦ inl (rw (raises, handle_entries) refl)
        | inr (rs, fine) ↦ inr (rw (fine, handle_entries) both)
      ]
