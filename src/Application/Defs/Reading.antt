-- ===== src/Application/Defs/Reading.antt =====
-- How task4_router/app.py reads the key and the body of a request.
use mcp_llm_gateway_suite.Base.{
  ℕ, not, ◌&&◌, Option, none, some, List, [], ◌∷◌, leb, if◌then◌else◌, length,
}
use mcp_llm_gateway_suite.Base.Int.{ℤ, pos, ltb_ℤ}
use mcp_llm_gateway_suite.Base.Text.{Text, codes, text_eq, strip, lower, split_once}
use mcp_llm_gateway_suite.Json.{Json, str, object, get}
use mcp_llm_gateway_suite.Tools.Schemas.{only_keys}
use mcp_llm_gateway_suite.Application.Defs.Records.{ClientRequest, CompletionRequest}

-- `request.headers.get(...) or uuid.uuid4().hex`: an empty header counts as none.
unfoldable pub header_or : Option Text → Text → Text
header_or none fresh = fresh
header_or (some []) fresh = fresh
header_or (some (c ∷ s)) fresh = c ∷ s

abbrev pub min_prompt_length : ℕ
min_prompt_length = 1

abbrev pub max_prompt_length : ℕ
max_prompt_length = 100000

abbrev pub max_tokens_limit : ℤ
max_tokens_limit = pos 8192

abbrev pub max_tokens_default : ℤ
max_tokens_default = pos 256

unfoldable pub prompt_of : Json → Option Text
prompt_of (str s) =
    if leb min_prompt_length (length s) && leb (length s) max_prompt_length then some s else none
prompt_of _ = none

-- The required field.
unfoldable pub prompt_field : Option Json → Option Text
unfolding prompt_of
prompt_field none = none
prompt_field (some v) = prompt_of v

unfoldable pub max_tokens_of : (Json → Option ℤ) → Option Json → Option ℤ
max_tokens_of lax_int none = some max_tokens_default
max_tokens_of lax_int (some v) = elim (lax_int v) [
  | none ↦ none
  | some n ↦ if ltb_ℤ (pos 0) n && not (ltb_ℤ max_tokens_limit n) then some n else none
]

unfoldable pub both_fields : Option Text → Option ℤ → Option CompletionRequest
both_fields (some prompt) (some n) = some (record { prompt = prompt; max_tokens = n })
both_fields (some prompt) none = none
both_fields none n = none

-- `CompletionRequest.model_validate`, `none` for a `ValidationError`.
unfoldable pub completion_request : (Json → Option ℤ) → Json → Option CompletionRequest
unfolding prompt_field max_tokens_of both_fields only_keys get
completion_request lax_int (object fs) =
    if only_keys (codes "prompt" ∷ codes "max_tokens" ∷ []) fs
    then both_fields (prompt_field (get (codes "prompt") fs))
        (max_tokens_of lax_int (get (codes "max_tokens") fs))
    else none
completion_request lax_int _ = none

-- `_api_key`, from the two parts of the header on.
unfoldable pub key_of_parts : List Text → Option Text
unfolding text_eq strip
key_of_parts (scheme ∷ credential ∷ []) =
    if text_eq (lower scheme) (codes "bearer")
    then elim (strip credential) [ [] ↦ none | c ∷ s ↦ some (c ∷ s) ]
    else none
key_of_parts _ = none

unfoldable pub text_or_empty : Option Text → Text
text_or_empty none = []
text_or_empty (some s) = s

-- `_api_key`, `none` where it raises.
unfoldable pub api_key_of : ClientRequest → Option Text
unfolding split_once key_of_parts text_or_empty
api_key_of q = key_of_parts (split_once (text_or_empty q.authorization))
