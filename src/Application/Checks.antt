-- ===== src/Application/Checks.antt =====
-- What a request to task4_router/app.py has to be before the router sees it.
use mcp_llm_gateway_suite.Base.{
  ◌≤◌, ◌≡◌, ◌≢◌, refl, true, ◌⊎◌, inl, inr, Option, none, some, List, [], ◌∷◌, length, arith,
  Bool-cases, Option-cases,
}
use mcp_llm_gateway_suite.Base.Int.{ℤ, pos, ltb_ℤ, ◌≤ℤ◌}
use mcp_llm_gateway_suite.Base.Text.{Text, codes, split_once}
use mcp_llm_gateway_suite.Json.{
  Json, null, number, decimal, boolean, str, array, object, Fields, get,
}
use mcp_llm_gateway_suite.Tools.Schemas.{only_keys}
use mcp_llm_gateway_suite.Router.{World, RouteResult, route}
use mcp_llm_gateway_suite.Application.Defs.{
  ParsedBody, parsed_as, unparsable, ClientRequest, Circumstances, Application, CompletionRequest,
  min_prompt_length, max_prompt_length, max_tokens_limit, prompt_of, prompt_field, max_tokens_of,
  both_fields, completion_request, key_of_parts, api_key_of, text_or_empty, read_body, completions,
  header_or, raised_answer, unauthenticated_error, bad_request_error, route_answer, route_request,
}

-- The bounds that a body is checked for.
pub record IsBounded (body : CompletionRequest) : Type 0 where
  pub prompt_at_least : min_prompt_length ≤ length body.prompt
  pub prompt_at_most : length body.prompt ≤ max_prompt_length
  pub tokens_positive : ltb_ℤ (pos 0) body.max_tokens ≡ true
  pub tokens_at_most : body.max_tokens ≤ℤ max_tokens_limit

prompt_of-bounds :
    (v : Json) (s : Text)
    → prompt_of v ≡ some s
    → (min_prompt_length ≤ length s) × (length s ≤ max_prompt_length)
unfolding prompt_of
prompt_of-bounds (str t) s h = (ground arith, ground arith)
prompt_of-bounds null s h = absurd cc
prompt_of-bounds (boolean b) s h = absurd cc
prompt_of-bounds (number n) s h = absurd cc
prompt_of-bounds (decimal n k) s h = absurd cc
prompt_of-bounds (array x) s h = absurd cc
prompt_of-bounds (object x) s h = absurd cc

max_tokens_of-bounds :
    (lax_int : Json → Option ℤ) (v : Option Json) (n : ℤ)
    → max_tokens_of lax_int v ≡ some n
    → (ltb_ℤ (pos 0) n ≡ true) × (n ≤ℤ max_tokens_limit)
unfolding max_tokens_of
max_tokens_of-bounds lax_int none n h = (ground arith, ground arith)
max_tokens_of-bounds lax_int (some v) n h = elim (Option-cases (lax_int v)) [
  | inl e ↦ absurd (ground arith)
  | inr (m, e) ↦ (ground arith, ground arith)
]

both_fields-eq :
    (p : Option Text) (n : Option ℤ) (body : CompletionRequest)
    → both_fields p n ≡ some body
    → (p ≡ some body.prompt) × (n ≡ some body.max_tokens)
unfolding both_fields
both_fields-eq (some p) (some n) body h = (ground arith, ground arith)
both_fields-eq (some p) none body h = absurd cc
both_fields-eq none n body h = absurd cc

prompt_field-bounds :
    (v : Option Json) (s : Text)
    → prompt_field v ≡ some s
    → (min_prompt_length ≤ length s) × (length s ≤ max_prompt_length)
unfolding prompt_field
prompt_field-bounds none s h = absurd cc
prompt_field-bounds (some v) s h = prompt_of-bounds v s h

-- What an accepted object was read from.
completion_request-fields :
    (lax_int : Json → Option ℤ) (fs : Fields) (body : CompletionRequest)
    → completion_request lax_int (object fs) ≡ some body
    → both_fields
        (prompt_field (get (codes "prompt") fs))
        (max_tokens_of lax_int (get (codes "max_tokens") fs))
      ≡ some body
unfolding completion_request
completion_request-fields lax_int fs body h =
    elim (Bool-cases (only_keys (codes "prompt" ∷ codes "max_tokens" ∷ []) fs)) [
      | inr extra ↦ absurd (ground arith)
      | inl known ↦ rw known at h
    ]

completion_request-IsBounded :
    (lax_int : Json → Option ℤ) (v : Json) (body : CompletionRequest)
    → completion_request lax_int v ≡ some body
    → IsBounded body
unfolding completion_request
completion_request-IsBounded lax_int (object fs) body h =
    let read = completion_request-fields lax_int fs body h in
    let (p, n) =
      both_fields-eq (prompt_field (get (codes "prompt") fs))
        (max_tokens_of lax_int (get (codes "max_tokens") fs)) body read in
    let prompt = prompt_field-bounds (get (codes "prompt") fs) body.prompt p in
    let tokens = max_tokens_of-bounds lax_int (get (codes "max_tokens") fs) body.max_tokens n in
    record {
      prompt_at_least = prompt.0;
      prompt_at_most = prompt.1;
      tokens_positive = tokens.0;
      tokens_at_most = tokens.1;
    }
completion_request-IsBounded lax_int null body h = absurd cc
completion_request-IsBounded lax_int (boolean b) body h = absurd cc
completion_request-IsBounded lax_int (number n) body h = absurd cc
completion_request-IsBounded lax_int (decimal n k) body h = absurd cc
completion_request-IsBounded lax_int (str s) body h = absurd cc
completion_request-IsBounded lax_int (array x) body h = absurd cc

pub read_body-IsBounded :
    (a : Application) (p : ParsedBody) (body : CompletionRequest)
    → read_body a p ≡ inl body
    → IsBounded body
unfolding read_body
read_body-IsBounded a (unparsable text) body h = absurd cc
read_body-IsBounded a (parsed_as v) body h = elim (Option-cases (completion_request a.lax_int v)) [
  | inl refused ↦ absurd (ground arith)
  | inr (b, read) ↦ completion_request-IsBounded a.lax_int v body (ground arith)
]

key_of_parts-full : (ps : List Text) (k : Text) → key_of_parts ps ≡ some k → 1 ≤ length k
unfolding key_of_parts
key_of_parts-full (scheme ∷ credential ∷ []) k h = ground arith
key_of_parts-full [] k h = absurd cc
key_of_parts-full (scheme ∷ []) k h = absurd cc
key_of_parts-full (scheme ∷ credential ∷ x ∷ ps) k h = absurd cc

api_key_of-full : (q : ClientRequest) (k : Text) → api_key_of q ≡ some k → 1 ≤ length k
unfolding api_key_of
api_key_of-full q k h = key_of_parts-full (split_once (text_or_empty q.authorization)) k h

-- What a request has that is routed.
pub record IsChecked (a : Application) (q : ClientRequest) : Type 0 where
  pub key : Text
  pub has_key : api_key_of q ≡ some key
  pub full_key : 1 ≤ length key
  pub body : CompletionRequest
  pub has_body : read_body a q.payload ≡ inl body
  pub bounded : IsBounded body

pub body-cases :
    (r : CompletionRequest ⊎ Text)
    → ((b : CompletionRequest) × (r ≡ inl b)) ⊎ ((t : Text) × (r ≡ inr t))
body-cases (inl b) = inl (b, refl)
body-cases (inr t) = inr (t, refl)

-- The three ways of a request.
module _ (a : Application) (q : ClientRequest) (c : Circumstances) (w : World) where
  abbrev pub request_id : Text
  request_id = header_or q.request_id_header c.request_uuid

  pub completions-no_key :
      api_key_of q ≡ none
      → completions a q c w ≡ (some (raised_answer a q c (unauthenticated_error q c)), w)
  unfolding completions
  completions-no_key h = rw (completions, h)

  pub completions-bad_body :
      (key text : Text)
      → api_key_of q ≡ some key
      → read_body a q.payload ≡ inr text
      → completions a q c w ≡ (some (raised_answer a q c (bad_request_error request_id text)), w)
  unfolding completions
  completions-bad_body key text h h' = rw (completions, h, h')

  abbrev pub routed_for : Text → CompletionRequest → RouteResult × World
  routed_for key body = route a.router a.providers (route_request c request_id key body) w

  pub completions-route :
      (key : Text) (body : CompletionRequest)
      → api_key_of q ≡ some key
      → read_body a q.payload ≡ inl body
      → completions a q c w
        ≡ (route_answer a q c request_id (routed_for key body).0, (routed_for key body).1)
  unfolding completions
  completions-route key body h h' = rw (completions, h, h')

-- A request changes what all requests share, the table of the limiter, the breaker and the clock
-- that the calls of providers move on, only if it has a bearer key that is not empty and a body
-- with a prompt of 1 to 100,000 characters that asks for 1 to 8,192 tokens.
pub completions-IsChecked :
    (a : Application) (q : ClientRequest) (c : Circumstances) (w : World)
    → (completions a q c w).1 ≢ w
    → IsChecked a q
completions-IsChecked a q c w touched = elim (Option-cases (api_key_of q)) [
  | inl refused ↦ absurd (touched (rw (completions-no_key a q c w refused)))
  | inr (key, has_key) ↦ elim (body-cases (read_body a q.payload)) [
    | inr (text, refused) ↦
        absurd (touched (rw (completions-bad_body a q c w key text has_key refused)))
    | inl (body, has_body) ↦ record {
      key = key;
      has_key = has_key;
      full_key = api_key_of-full q key has_key;
      body = body;
      has_body = has_body;
      bounded = read_body-IsBounded a q.payload body has_body;
    }
  ]
]
