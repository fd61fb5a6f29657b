-- ===== src/Gateway/Credentials.antt =====
-- The credentials of callers in task2_mcp_gateway.
use mcp_llm_gateway_suite.Base.{
  ◌≡◌, sym, ap, ◌∙◌, inl, inr, Option, some, List, [], ◌∷◌, arith, Bool-cases,
}
use mathlib.Core.List.{Memᴰ}
use mathlib.Core.List.Memᴰ.{head, tail}
use mcp_llm_gateway_suite.Base.Text.{Text, text_eq, text_eq_iff}
use mcp_llm_gateway_suite.Gateway.Auth.{
  Principal, granted, known_tokens, extract_bearer_token, find_principal, resolve_principal,
}
use mcp_llm_gateway_suite.Gateway.Authorize.{App}
use mcp_llm_gateway_suite.Gateway.Proxy.{Upstream}
use mcp_llm_gateway_suite.Gateway.Batch.{HttpRequest, request_id_of, proxy}
use mcp_llm_gateway_suite.Gateway.Forward.{proxy_known, AuthResult-cases}

-- A digest without collisions.
abbrev pub IsCollisionFree : (Text → Text) → Type 0
IsCollisionFree digest = (s t : Text) → digest s ≡ digest t → s ≡ t

find_principal-Mem :
    (digest : Text → Text) (token : Text) (table : List (Text × Principal)) (p : Principal)
    → IsCollisionFree digest
    → find_principal digest (digest token) table ≡ some p
    → Memᴰ (token, p) table
unfolding find_principal
find_principal-Mem digest token [] p free h = absurd cc
find_principal-Mem digest token ((known, q) ∷ table) p free h =
    elim (Bool-cases (text_eq (digest token) (digest known))) [
      | inl found ↦
          let same : token ≡ known =
            free token known ((text_eq_iff (digest token) (digest known)).0 found) in
          let principal : p ≡ q = ground arith in
          head (ap (λ t. (t, p)) same ∙ ap (λ r. (known, r)) principal)
      | inr other ↦ tail (find_principal-Mem digest token table p free (ground arith))
    ]

-- If the digest has no collisions, a header resolves to a principal only if the credential in it is
-- exactly a token that was issued to that principal.
pub resolve_principal-Mem :
    (digest : Text → Text) (header : Option Text) (p : Principal)
    → IsCollisionFree digest
    → resolve_principal digest header ≡ granted p
    → (token : Text) × (extract_bearer_token header ≡ granted token) × Memᴰ (token, p) known_tokens
unfolding resolve_principal
resolve_principal-Mem digest header p free h =
    elim (AuthResult-cases (extract_bearer_token header)) [
      | inl (e, bad) ↦ absurd (ground arith)
      | inr (token, fine) ↦
          (token, fine, find_principal-Mem digest token known_tokens p free (ground arith))
    ]

-- Two requests that differ in their credentials only, and whose credentials name the same
-- principal, are handled alike: what is sent downstream, the log and the response are the same.
pub proxy_blind :
    (digest : Text → Text) (app : App) (up : Upstream) (request : HttpRequest) (other : Option Text)
    (p : Principal)
    → resolve_principal digest request.authorization ≡ granted p
    → resolve_principal digest other ≡ granted p
    → proxy digest app up request ≡ proxy digest app up (record request { authorization = other })
unfolding request_id_of
proxy_blind digest app up request other p known known' =
    proxy_known digest app up request p known
    ∙ sym (proxy_known digest app up (record request { authorization = other }) p known')
