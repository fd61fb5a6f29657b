-- ===== src/Guardrail/Frames.antt =====
-- The frames of a stream of completions in task3_streaming_guardrail/llm_gateway.py.
use mcp_llm_gateway_suite.Base.{
  Bool, true, false, ◌||◌, Option, none, some, List, [], ◌∷◌, if◌then◌else◌,
}
use mcp_llm_gateway_suite.Base.Int.{pos}
use mcp_llm_gateway_suite.Base.Text.{Text, codes, text_eq}
use mcp_llm_gateway_suite.Json.{
  Json, null, number, str, array, object, Items, nil, item, Fields, end, field, get, put,
}
use mcp_llm_gateway_suite.Gateway.Rpc.{as_str, as_object, as_array, or_null, is_null}

-- The items that are objects.
unfoldable pub objects : Items → List Fields
unfolding as_object
objects nil = []
objects (item v is) =
    let rest = objects is in elim (as_object (some v)) [ none ↦ rest | some fs ↦ fs ∷ rest ]

unfoldable pub choices_of : Fields → List Fields
unfolding objects as_array get
choices_of frame = elim (as_array (get (codes "choices") frame)) [
  | none ↦ []
  | some is ↦ objects is
]

unfoldable pub delta_of : Fields → Option Fields
unfolding as_object get
delta_of choice = as_object (get (codes "delta") choice)

-- The first part of `_content_of`.
unfoldable pub content_of : Fields → Option Text
unfolding delta_of as_str get
content_of choice = elim (delta_of choice) [
  | none ↦ none
  | some delta ↦ as_str (get (codes "content") delta)
]

unfoldable pub first_reason : List Fields → Json
unfolding or_null is_null get
first_reason [] = null
first_reason (choice ∷ choices) =
    let rest = first_reason choices in
    let reason = or_null (get (codes "finish_reason") choice) in
    if is_null reason then rest else reason

unfoldable pub finish_reason_of : Fields → Json
unfolding first_reason choices_of
finish_reason_of frame = first_reason (choices_of frame)

-- `{k: v for k, v in d.items() if k != key}`
unfoldable pub without : Text → Fields → Fields
unfolding text_eq
without key end = end
without key (field k v fs) =
    let rest = without key fs in if text_eq k key then rest else field k v rest

unfoldable pub head_or_empty : List Fields → Fields
head_or_empty [] = end
head_or_empty (fs ∷ _) = fs

-- `d.setdefault(k, v)`
unfoldable pub set_default : Text → Json → Fields → Fields
unfolding get put
set_default k v fs = elim (get k fs) [ none ↦ put k v fs | some _ ↦ fs ]

unfoldable pub with_content : Fields → Text → Json
unfolding without head_or_empty choices_of set_default put
with_content frame text =
    let template = head_or_empty (choices_of frame) in
    let kept = without (codes "finish_reason") (without (codes "delta") template) in
    let indexed = set_default (codes "index") (number (pos 0)) kept in
    let choice =
      put (codes "finish_reason") null
        (put (codes "delta") (object (field (codes "content") (str text) end)) indexed) in
    object
      (put (codes "choices") (array (item (object choice) nil)) (without (codes "choices") frame))

-- A choice whose content is no text, without that content.
unfoldable pub without_content : Fields → Fields
unfolding delta_of without or_null is_null get put
without_content choice = elim (delta_of choice) [
  | none ↦ choice
  | some delta ↦
      if is_null (or_null (get (codes "content") delta))
      then choice
      else put (codes "delta") (object (without (codes "content") delta)) choice
]

unfoldable pub delta_or_empty : Fields → Fields
unfolding delta_of
delta_or_empty choice = elim (delta_of choice) [ none ↦ end | some delta ↦ delta ]

unfoldable pub with_safe : Fields → Text → Fields
unfolding delta_or_empty put
with_safe choice safe =
    put (codes "delta") (object (put (codes "content") (str safe) (delta_or_empty choice))) choice

unfoldable pub emptied : Fields → Fields
unfolding delta_or_empty without put
emptied choice =
    put (codes "delta") (object (without (codes "content") (delta_or_empty choice))) choice

unfoldable pub is_full : Option Text → Bool
is_full none = false
is_full (some []) = false
is_full (some (c ∷ s)) = true

-- `any(_content_of(choice)[0] for choice in choices)`
unfoldable pub any_content : List Fields → Bool
unfolding is_full content_of
any_content [] = false
any_content (choice ∷ choices) = is_full (content_of choice) || any_content choices

unfoldable pub choice_items : List Fields → Items
choice_items [] = nil
choice_items (fs ∷ rest) = item (object fs) (choice_items rest)
