-- ===== src/Gateway/Forward.antt =====
-- Which messages the endpoint of task2_mcp_gateway/mcp_gateway.py sends downstream, and for whom.
use mcp_llm_gateway_suite.Base.{
  ◌≡◌, refl, ap, ◌∙◌, ◌⊎◌, inl, inr, Option, none, some, [], All, Option-cases,
}
use mcp_llm_gateway_suite.Base.Text.{Text}
use mcp_llm_gateway_suite.Json.{Json, Fields}
use mcp_llm_gateway_suite.Gateway.Auth.{
  Principal, AuthError, AuthResult, granted, refused, resolve_principal,
}
use mcp_llm_gateway_suite.Gateway.Authorize.{App, Headers}
use mcp_llm_gateway_suite.Gateway.Proxy.{Upstream, Handled}
use mcp_llm_gateway_suite.Gateway.Batch.{
  handle_payload, handle_caller, proxy, HttpRequest, request_id_of,
}
use mcp_llm_gateway_suite.Gateway.Sends.{sent_messages}
use mcp_llm_gateway_suite.Gateway.Sound.{All-mono, IsSound, handle_payload-IsSound, messages_of}

-- Who a request comes from, and what of it is sent.
pub record IsAnswerable (digest : Text → Text) (app : App) (request : HttpRequest)
    (m : Fields × Headers) : Type 0 where
  pub caller : Principal
  pub authenticated : resolve_principal digest request.authorization ≡ granted caller
  pub body : Json
  pub parsed : request.payload ≡ some body
  pub sound : IsSound app caller (request_id_of request) (messages_of body) m

answerable :
    (digest : Text → Text) (app : App) (request : HttpRequest) (p : Principal) (body : Json)
    → resolve_principal digest request.authorization ≡ granted p
    → request.payload ≡ some body
    → (m : Fields × Headers) → IsSound app p (request_id_of request) (messages_of body) m
    → IsAnswerable digest app request m
answerable digest app request p body a b m s = record {
  caller = p;
  authenticated = a;
  body = body;
  parsed = b;
  sound = s;
}

pub AuthResult-cases :
    {A : Type 0} (r : AuthResult A)
    → ((e : AuthError) × (r ≡ refused e)) ⊎ ((a : A) × (r ≡ granted a))
AuthResult-cases (refused e) = inl (e, refl)
AuthResult-cases (granted a) = inr (a, refl)

pub proxy_known :
    (digest : Text → Text) (app : App) (up : Upstream) (request : HttpRequest) (p : Principal)
    → resolve_principal digest request.authorization ≡ granted p
    → proxy digest app up request ≡ handle_caller app up p (request_id_of request) request.payload
unfolding proxy
proxy_known digest app up request p known = rw (known, proxy) refl

proxy_unknown :
    (digest : Text → Text) (app : App) (up : Upstream) (request : HttpRequest) (e : AuthError)
    → resolve_principal digest request.authorization ≡ refused e
    → sent_messages (proxy digest app up request).effects ≡ []
unfolding proxy
proxy_unknown digest app up request e unknown = rw (unknown, proxy) refl

caller_garbled :
    (app : App) (up : Upstream) (p : Principal) (request_id : Text)
    → sent_messages (handle_caller app up p request_id none).effects ≡ []
unfolding handle_caller
caller_garbled app up p request_id = refl

caller_parsed :
    (app : App) (up : Upstream) (p : Principal) (request_id : Text) (payload : Option Json)
    (body : Json)
    → payload ≡ some body
    → handle_caller app up p request_id payload ≡ handle_payload app up p request_id body
unfolding handle_caller
caller_parsed app up p request_id payload body parsed = cc

-- Every message that a request has sent downstream is the body of the request or, if that is an
-- array, one of its entries, unchanged; it goes out under the identity of the caller whom the
-- request's credential names; its method is well formed; and if its method is a call of a tool, in
-- whatever spelling, the policy allows that caller the tool that it names.
pub proxy-IsAnswerable :
    (digest : Text → Text) (app : App) (up : Upstream) (request : HttpRequest)
    → All (IsAnswerable digest app request) (sent_messages (proxy digest app up request).effects)
proxy-IsAnswerable digest app up request =
    let id = request_id_of request in
    elim (AuthResult-cases (resolve_principal digest request.authorization)) [
      | inl (e, unknown) ↦ rw (proxy_unknown digest app up request e unknown) tt
      | inr (p, known) ↦ elim (Option-cases request.payload) [
        | inl garbled ↦
            let nothing =
              proxy_known digest app up request p known
              ∙ ap (λ v. handle_caller app up p id v) garbled in
            rw (ap (λ (h : Handled). sent_messages h.effects) nothing ∙ caller_garbled app up p id)
              tt
        | inr (body, parsed) ↦
            let same =
              proxy_known digest app up request p known
              ∙ caller_parsed app up p id request.payload body parsed in
            rw same (
              All-mono (IsSound app p id (messages_of body)) (IsAnswerable digest app request)
                (answerable digest app request p body known parsed)
                (sent_messages (handle_payload app up p id body).effects)
                (handle_payload-IsSound app up p id body))
      ]
    ]
