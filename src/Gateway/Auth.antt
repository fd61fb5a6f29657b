-- ===== src/Gateway/Auth.antt =====
-- Callers and their bearer tokens, after task2_mcp_gateway/auth.py. The digest is an argument.
use mcp_llm_gateway_suite.Base.{Bool, not, Option, none, some, List, [], ◌∷◌, ◌++◌, if◌then◌else◌}
use mcp_llm_gateway_suite.Base.Text.{Text, codes, text_eq, strip, lower, split_once}

-- `reason` goes to the audit log, `message` to the caller.
pub record AuthError : Type 0 where
  pub message : Text
  pub reason : Text

pub data AuthResult {ℓ} (A : Type ℓ) : Type ℓ where
  granted : A → AuthResult A
  refused : AuthError → AuthResult A

pub record Principal : Type 0 where
  pub subject : Text
  pub role : Text
  pub tenant : Text

unfoldable pub is_admin : Principal → Bool
is_admin p = text_eq p.role (codes "admin")

-- The end of `extract_bearer_token`, from the two parts of the header on.
unfoldable pub credential_of : Text → Text → AuthResult Text
unfolding text_eq strip
credential_of scheme credential =
    if not (text_eq (lower scheme) (codes "bearer"))
    then refused (record {
      message = codes "Unsupported authorization scheme: " ++ scheme;
      reason = codes "bad_scheme";
    })
    else elim (strip credential) [
      | [] ↦ refused (record { message = codes "Empty bearer token"; reason = codes "empty_token" })
      | c ∷ s ↦ granted (c ∷ s)
    ]

unfoldable pub token_of_parts : List Text → AuthResult Text
unfolding credential_of
token_of_parts (scheme ∷ credential ∷ []) = credential_of scheme credential
token_of_parts _ =
    refused (record {
      message = codes "Malformed Authorization header";
      reason = codes "malformed_header";
    })

abbrev missing_header : AuthError
missing_header = record {
  message = codes "Missing Authorization header";
  reason = codes "missing_header";
}

unfoldable pub extract_bearer_token : Option Text → AuthResult Text
unfolding split_once token_of_parts
extract_bearer_token none = refused missing_header
extract_bearer_token (some []) = refused missing_header
extract_bearer_token (some (c ∷ s)) = token_of_parts (split_once (c ∷ s))

abbrev pub ada : Principal
ada = record { subject = codes "ada@example.com"; role = codes "admin"; tenant = codes "acme" }

abbrev pub grace : Principal
grace = record { subject = codes "grace@example.com"; role = codes "viewer"; tenant = codes "acme" }

abbrev pub alan : Principal
alan = record { subject = codes "alan@example.com"; role = codes "viewer"; tenant = codes "globex" }

-- The tokens that are known, and whose they are.
abbrev pub known_tokens : List (Text × Principal)
known_tokens =
    (codes "admin-token-abc123", ada)
    ∷ (codes "viewer-token-def456", grace)
    ∷ (codes "viewer-token-ghi789", alan)
    ∷ []

-- The table's search: `compare_digest` is equality of texts.
unfoldable pub find_principal : (Text → Text) → Text → List (Text × Principal) → Option Principal
find_principal digest candidate [] = none
find_principal digest candidate ((token, p) ∷ table) =
    if text_eq candidate (digest token) then some p else find_principal digest candidate table

unfoldable pub resolve_principal : (Text → Text) → Option Text → AuthResult Principal
unfolding extract_bearer_token
resolve_principal digest header = elim (extract_bearer_token header) [
  | refused e ↦ refused e
  | granted token ↦ elim (find_principal digest (digest token) known_tokens) [
    | some p ↦ granted p
    | none ↦ refused (record {
      message = codes "Invalid or expired bearer token";
      reason = codes "unknown_token";
    })
  ]
]
