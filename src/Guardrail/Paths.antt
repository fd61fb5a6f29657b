-- ===== src/Guardrail/Paths.antt =====
-- The path without streaming of task3_streaming_guardrail/llm_gateway.py, and the two paths compared.
use mcp_llm_gateway_suite.Base.{
  ℕ, ◌<◌, ◌≡◌, refl, ◌∙◌, sym, ap, true, false, inl, inr, Option, none, some, List, [], ◌∷◌, map,
  ltb, lt→ltb, Option-cases,
}
use mathlib.Core.Option
use mcp_llm_gateway_suite.Base.Text.{Text, codes, text_eq}
use mcp_llm_gateway_suite.Json.{
  Json, null, boolean, number, decimal, str, array, object, Items, nil, item, Fields, get, put,
  is_encodable, get-put_self,
}
use mcp_llm_gateway_suite.Gateway.Rpc.{as_object, as_str, as_array}
use mcp_llm_gateway_suite.Regex.{Unicode}
use mcp_llm_gateway_suite.Guardrail.Frames.{objects, choices_of}
use mcp_llm_gateway_suite.Guardrail.Sse.{Parsed, parsed, redact_once}
use mcp_llm_gateway_suite.Guardrail.Texts.{get-put_other}
use mcp_llm_gateway_suite.Guardrail.Endpoint.{
  Client, responded, json_response, wants_stream, redact_message, redact_choice, redact_items,
  redact_data, rendered, completion_response, posted_response, chat_completions,
}

-- What the choice of a whole completion says.
unfoldable pub message_of : Fields → Option Text
unfolding as_object as_str get
message_of choice = elim (as_object (get (codes "message") choice)) [
  | none ↦ none
  | some message ↦ as_str (get (codes "content") message)
]

unfoldable pub messages : List Fields → List Text
unfolding message_of
messages [] = []
messages (choice ∷ choices) = elim (message_of choice) [
  | none ↦ messages choices
  | some text ↦ text ∷ messages choices
]

redact_message-content :
    (u : Unicode) (message : Fields)
    → as_str (get (codes "content") (redact_message u message))
      ≡ Option.map (redact_once u) (as_str (get (codes "content") message))
unfolding redact_message as_str
redact_message-content u message = elim (Option-cases (as_str (get (codes "content") message))) [
  | inl nothing ↦ rw (nothing, redact_message, nothing)
  | inr (text, found) ↦
      rw (found, redact_message)
        (ap as_str (get-put_self (codes "content") (str (redact_once u text)) message))
]

message_of-put :
    (choice message : Fields)
    → message_of (put (codes "message") (object message) choice)
      ≡ as_str (get (codes "content") message)
unfolding message_of as_object
message_of-put choice message =
    let e = get-put_self (codes "message") (object message) choice in rw (message_of, e)

message_of-redact_choice :
    (u : Unicode) (choice : Fields)
    → message_of (redact_choice u choice) ≡ Option.map (redact_once u) (message_of choice)
unfolding redact_choice message_of
message_of-redact_choice u choice = elim (Option-cases (as_object (get (codes "message") choice))) [
  | inl nothing ↦
      let same : redact_choice u choice ≡ choice = rw (redact_choice, nothing) refl in
      let silent : message_of choice ≡ none = rw (message_of, nothing) refl in
      rw (same, silent) refl
  | inr (message, found) ↦
      rw (found, redact_choice)
        (message_of-put choice (redact_message u message)
          ∙ redact_message-content u message
          ∙ sym (ap (Option.map (redact_once u)) (rw (message_of, found))))
]

messages-map :
    (u : Unicode) (choices : List Fields)
    → messages (map (redact_choice u) choices) ≡ map (redact_once u) (messages choices)
unfolding messages
messages-map u [] = refl
messages-map u (choice ∷ choices) = elim (Option-cases (message_of choice)) [
  | inl nothing ↦
      let e : message_of (redact_choice u choice) ≡ none =
        message_of-redact_choice u choice ∙ ap (Option.map (redact_once u)) nothing in
      rw (messages, e, nothing) (messages-map u choices)
  | inr (text, found) ↦
      let e : message_of (redact_choice u choice) ≡ some (redact_once u text) =
        message_of-redact_choice u choice ∙ ap (Option.map (redact_once u)) found in
      rw (messages, e, found) (ap (λ t. redact_once u text ∷ t) (messages-map u choices))
]

objects-redact_items :
    (u : Unicode) (is : Items) → objects (redact_items u is) ≡ map (redact_choice u) (objects is)
unfolding objects redact_items as_object
objects-redact_items u nil = refl
objects-redact_items u (item null is) = objects-redact_items u is
objects-redact_items u (item (boolean b) is) = objects-redact_items u is
objects-redact_items u (item (number n) is) = objects-redact_items u is
objects-redact_items u (item (decimal n k) is) = objects-redact_items u is
objects-redact_items u (item (str s) is) = objects-redact_items u is
objects-redact_items u (item (array js) is) = objects-redact_items u is
objects-redact_items u (item (object fs) is) =
    ap (λ t. redact_choice u fs ∷ t) (objects-redact_items u is)

choices_of-redact_data :
    (u : Unicode) (fs : Fields)
    → choices_of (redact_data u fs) ≡ map (redact_choice u) (choices_of fs)
unfolding redact_data choices_of as_array
choices_of-redact_data u fs = elim (Option-cases (as_array (get (codes "choices") fs))) [
  | inl nothing ↦
      let e : redact_data u fs ≡ fs = rw (redact_data, nothing) in rw (e, choices_of, nothing) refl
  | inr (is, found) ↦
      let e = get-put_self (codes "choices") (array (redact_items u is)) fs in
      rw (redact_data, found, choices_of, e) (objects-redact_items u is)
]

get-redact_data :
    (u : Unicode) (fs : Fields) (k : Text)
    → text_eq (codes "choices") k ≡ false
    → get k (redact_data u fs) ≡ get k fs
unfolding redact_data
get-redact_data u fs k other = elim (Option-cases (as_array (get (codes "choices") fs))) [
  | inl nothing ↦ rw (redact_data, nothing) refl
  | inr (is, found) ↦
      rw (redact_data, found)
        (get-put_other k (codes "choices") (array (redact_items u is)) fs other)
]

-- What stands under `content` in the message of a choice, of whatever type it is.
unfoldable pub message_content : Fields → Option Json
unfolding as_object get
message_content choice = elim (as_object (get (codes "message") choice)) [
  | none ↦ none
  | some message ↦ get (codes "content") message
]

-- A text is redacted, and every other content stays as it is.
unfoldable pub safe_content : Unicode → Json → Json
safe_content u (str text) = str (redact_once u text)
safe_content u null = null
safe_content u (boolean b) = boolean b
safe_content u (number n) = number n
safe_content u (decimal n k) = decimal n k
safe_content u (array is) = array is
safe_content u (object fs) = object fs

redact_message-some :
    (u : Unicode) (message : Fields) (v : Json)
    → get (codes "content") message ≡ some v
    → get (codes "content") (redact_message u message) ≡ some (safe_content u v)
unfolding redact_message as_str safe_content
redact_message-some u message (str text) h =
    rw (redact_message, h) (get-put_self (codes "content") (str (redact_once u text)) message)
redact_message-some u message null h = rw (redact_message, h) h
redact_message-some u message (boolean b) h = rw (redact_message, h) h
redact_message-some u message (number n) h = rw (redact_message, h) h
redact_message-some u message (decimal n k) h = rw (redact_message, h) h
redact_message-some u message (array is) h = rw (redact_message, h) h
redact_message-some u message (object fs) h = rw (redact_message, h) h

get-redact_message :
    (u : Unicode) (message : Fields)
    → get (codes "content") (redact_message u message)
      ≡ Option.map (safe_content u) (get (codes "content") message)
unfolding redact_message as_str
get-redact_message u message = elim (Option-cases (get (codes "content") message)) [
  | inl nothing ↦
      let same : redact_message u message ≡ message = rw (redact_message, nothing) refl in
      rw (same, nothing) refl
  | inr (v, found) ↦
      redact_message-some u message v found ∙ sym (ap (Option.map (safe_content u)) found)
]

message_content-put :
    (choice message : Fields)
    → message_content (put (codes "message") (object message) choice)
      ≡ get (codes "content") message
unfolding message_content as_object
message_content-put choice message =
    let e = get-put_self (codes "message") (object message) choice in rw (message_content, e)

message_content-redact_choice :
    (u : Unicode) (choice : Fields)
    → message_content (redact_choice u choice)
      ≡ Option.map (safe_content u) (message_content choice)
unfolding redact_choice message_content
message_content-redact_choice u choice =
    elim (Option-cases (as_object (get (codes "message") choice))) [
      | inl nothing ↦
          let same : redact_choice u choice ≡ choice = rw (redact_choice, nothing) refl in
          let silent : message_content choice ≡ none = rw (message_content, nothing) refl in
          rw (same, silent) refl
      | inr (message, found) ↦
          rw (found, redact_choice)
            (message_content-put choice (redact_message u message)
              ∙ get-redact_message u message
              ∙ sym (ap (Option.map (safe_content u)) (rw (message_content, found))))
    ]

message_contents-map :
    (u : Unicode) (choices : List Fields)
    → map message_content (map (redact_choice u) choices)
      ≡ map (λ choice. Option.map (safe_content u) (message_content choice)) choices
message_contents-map u [] = refl
message_contents-map u (choice ∷ choices) =
    rw (message_content-redact_choice u choice, message_contents-map u choices) refl

pub chat_completions-post :
    (u : Unicode) (loads : Text → Parsed) (client : Client) (body : Fields)
    → wants_stream body ≡ false
    → chat_completions u loads client (parsed (object body)) ≡ posted_response u (client.post body)
unfolding chat_completions as_object
chat_completions-post u loads client body whole = rw (whole)

posted_response-object :
    (u : Unicode) (status : ℕ) (fs : Fields)
    → status < 400
    → posted_response u (responded status (parsed (object fs)))
      ≡ rendered status (object (redact_data u fs))
unfolding posted_response completion_response as_object
posted_response-object u status fs le =
    let small : ltb status 400 ≡ true = lt→ltb status 400 le in rw (small) refl

rendered-encodable :
    (status : ℕ) (v : Json)
    → is_encodable v ≡ true
    → rendered status v ≡ some (json_response status v)
unfolding rendered
rendered-encodable status v h = rw (h) refl

-- A request that wants no stream, answered by the provider with an object and a status below 400:
-- the client gets that status and the object with each choice's message changed in this way, in the
-- same order. A content that is a text is redacted in one pass. A content that is none, such as a
-- list of content blocks, goes out as it came, and so does everything that is not among the choices.
-- What goes out can be encoded, as it has no half of a surrogate pair.
pub posted_redacts :
    (u : Unicode) (loads : Text → Parsed) (client : Client) (body : Fields) (status : ℕ)
    (fs : Fields)
    → wants_stream body ≡ false
    → client.post body ≡ responded status (parsed (object fs))
    → status < 400
    → is_encodable (object (redact_data u fs)) ≡ true
    → (safe : Fields) × (chat_completions u loads client (parsed (object body))
        ≡ some (json_response status (object safe)))
      × (map message_content (choices_of safe)
          ≡ map (λ choice. Option.map (safe_content u) (message_content choice)) (choices_of fs))
      × (messages (choices_of safe) ≡ map (redact_once u) (messages (choices_of fs)))
      × ((k : Text) → text_eq (codes "choices") k ≡ false → get k safe ≡ get k fs)
posted_redacts u loads client body status fs whole answers le encodable = (
  redact_data u fs,
  chat_completions-post u loads client body whole
      ∙ ap (posted_response u) answers
      ∙ posted_response-object u status fs le
      ∙ rendered-encodable status (object (redact_data u fs)) encodable,
  ap (map message_content) (choices_of-redact_data u fs) ∙ message_contents-map u (choices_of fs),
  ap messages (choices_of-redact_data u fs) ∙ messages-map u (choices_of fs),
  get-redact_data u fs,
)
