-- ===== src/Guardrail/Texts.antt =====
-- The texts in the frames of task3_streaming_guardrail/llm_gateway.py: what a choice says before and
-- after it is rebuilt.
use mcp_llm_gateway_suite.Base.{
  ◌≡◌, refl, ◌∙◌, sym, ap, Bool, true, false, none, some, List, [], ◌∷◌, ◌++◌, inl, inr, Bool-cases,
  Option-cases,
}
use mathlib.Core.List.{append_assoc, append-nil}
use mcp_llm_gateway_suite.Base.Int.{pos}
use mcp_llm_gateway_suite.Base.Text.{Text, codes, text_eq, text_eq→eq}
use mcp_llm_gateway_suite.Json.{
  Json, null, number, str, array, object, Items, Fields, end, field, get, put, get-put_self,
}
use mcp_llm_gateway_suite.Gateway.Rpc.{as_str, as_object, as_array, or_null, is_null}
use mcp_llm_gateway_suite.Guardrail.Frames.{
  objects, choices_of, delta_of, content_of, without, head_or_empty, set_default, with_content,
  without_content, delta_or_empty, with_safe, emptied, choice_items,
}
use mcp_llm_gateway_suite.Guardrail.Sse.{rebuilt_choice}
use mcp_llm_gateway_suite.Redactor.Bounds.{concat}

-- What the choices say, one text after the other.
unfoldable pub contents : List Fields → List Text
contents [] = []
contents (choice ∷ choices) = elim (content_of choice) [
  | none ↦ contents choices
  | some text ↦ text ∷ contents choices
]

pub concat-append : (xs ys : List Text) → concat (xs ++ ys) ≡ concat xs ++ concat ys
concat-append [] ys = refl
concat-append (x ∷ xs) ys =
    ap (λ (t : Text). x ++ t) (concat-append xs ys) ∙ sym (append_assoc x (concat xs) (concat ys))

get-without_self : (k : Text) (fs : Fields) → get k (without k fs) ≡ none
unfolding get without
get-without_self k end = refl
get-without_self k (field j v fs) = elim (Bool-cases (text_eq j k)) [
  | inl same ↦ rw same (get-without_self k fs)
  | inr other ↦ rw (other, get, other) (get-without_self k fs)
]

pub get-put_other :
    (k j : Text) (v : Json) (fs : Fields) → text_eq j k ≡ false → get k (put j v fs) ≡ get k fs
unfolding get put
get-put_other k j v end h = rw h
get-put_other k j v (field i w fs) h = elim (Bool-cases (text_eq i j)) [
  | inl same ↦
      let e = text_eq→eq i j same in
      let apart : text_eq i k ≡ false = rw e h in rw (same, get, apart)
  | inr other ↦ rw (other, get, get-put_other k j v fs h)
]

delta_of-get :
    (choice delta : Fields)
    → get (codes "delta") choice ≡ some (object delta)
    → delta_of choice ≡ some delta
unfolding delta_of as_object
delta_of-get choice delta h = ap as_object h

content_of-get :
    (choice delta : Fields)
    → get (codes "delta") choice ≡ some (object delta)
    → content_of choice ≡ as_str (get (codes "content") delta)
unfolding content_of
content_of-get choice delta h = rw (content_of, delta_of-get choice delta h)

-- The content of a choice whose delta is set.
content_of-delta :
    (choice delta : Fields)
    → content_of (put (codes "delta") (object delta) choice) ≡ as_str (get (codes "content") delta)
content_of-delta choice delta =
    content_of-get (put (codes "delta") (object delta) choice) delta
      (get-put_self (codes "delta") (object delta) choice)

pub content_of-with_safe : (choice : Fields) (s : Text) → content_of (with_safe choice s) ≡ some s
unfolding with_safe as_str
content_of-with_safe choice s =
    content_of-delta choice (put (codes "content") (str s) (delta_or_empty choice))
    ∙ ap as_str (get-put_self (codes "content") (str s) (delta_or_empty choice))

pub content_of-emptied : (choice : Fields) → content_of (emptied choice) ≡ none
unfolding emptied as_str
content_of-emptied choice =
    content_of-delta choice (without (codes "content") (delta_or_empty choice))
    ∙ ap as_str (get-without_self (codes "content") (delta_or_empty choice))

pub content_of-without_content :
    (choice : Fields) → content_of choice ≡ none → content_of (without_content choice) ≡ none
unfolding without_content as_str
content_of-without_content choice h = elim (Option-cases (delta_of choice)) [
  | inl no_delta ↦ rw (no_delta, without_content) h
  | inr (delta, found) ↦ elim (Bool-cases (is_null (or_null (get (codes "content") delta)))) [
    | inl empty ↦ rw (found, without_content, empty) h
    | inr full ↦
        rw (found, without_content, full)
          (content_of-delta choice (without (codes "content") delta)
            ∙ ap as_str (get-without_self (codes "content") delta))
  ]
]

-- The frame of a tail says the tail.
objects-choice_items : (xs : List Fields) → objects (choice_items xs) ≡ xs
unfolding objects as_object choice_items
objects-choice_items [] = refl
objects-choice_items (x ∷ xs) = ap (λ (t : List Fields). x ∷ t) (objects-choice_items xs)

choices_of-get :
    (is : Items) (fs : Fields)
    → get (codes "choices") fs ≡ some (array is)
    → choices_of fs ≡ objects is
unfolding choices_of as_array
choices_of-get is fs h = rw (choices_of, h)

pub choices_of-put :
    (xs : List Fields) (fs : Fields)
    → choices_of (put (codes "choices") (array (choice_items xs)) fs) ≡ xs
choices_of-put xs fs =
    choices_of-get (choice_items xs) (put (codes "choices") (array (choice_items xs)) fs)
      (get-put_self (codes "choices") (array (choice_items xs)) fs)
    ∙ objects-choice_items xs

pub contents-append : (xs ys : List Fields) → contents (xs ++ ys) ≡ contents xs ++ contents ys
unfolding contents
contents-append [] ys = refl
contents-append (x ∷ xs) ys = elim (Option-cases (content_of x)) [
  | inl nothing ↦ rw (contents, nothing, contents-append xs ys)
  | inr (text, found) ↦ rw (contents, found, contents-append xs ys)
]

-- A rebuilt choice says its text.
pub concat-rebuilt_choice :
    (finished : Bool) (choice : Fields) (safe : Text)
    → concat (contents (rebuilt_choice finished choice safe).0) ≡ safe
unfolding rebuilt_choice contents
concat-rebuilt_choice finished choice (c ∷ safe) =
    rw (contents, content_of-with_safe choice (c ∷ safe)) (append-nil (c ∷ safe))
concat-rebuilt_choice true choice [] = rw (contents, content_of-emptied choice)
concat-rebuilt_choice false choice [] = refl

-- What a frame says.
unfoldable pub json_contents : Json → List Text
unfolding contents
json_contents (object fs) = contents (choices_of fs)
json_contents _ = []

contents_one :
    (choice : Fields) (text : Text)
    → content_of choice ≡ some text
    → contents (choice ∷ []) ≡ text ∷ []
unfolding contents
contents_one choice text h = rw (contents, h)

-- A key that is set later does not hide the delta.
content_of-tail :
    (choice : Fields) (text : Text)
    → content_of (
        put
          (codes "finish_reason")
          null
          (put (codes "delta") (object (field (codes "content") (str text) end)) choice))
      ≡ some text
unfolding text_eq get as_str
content_of-tail choice text = content_of-get _ (field (codes "content") (str text) end) (
    get-put_other (codes "delta") (codes "finish_reason") null
      (put (codes "delta") (object (field (codes "content") (str text) end)) choice) refl
    ∙ get-put_self (codes "delta") (object (field (codes "content") (str text) end)) choice)

pub json_contents-with_content :
    (fs : Fields) (text : Text) → json_contents (with_content fs text) ≡ text ∷ []
unfolding json_contents with_content choice_items
json_contents-with_content fs text =
    let template = head_or_empty (choices_of fs) in
    let kept = without (codes "finish_reason") (without (codes "delta") template) in
    let indexed = set_default (codes "index") (number (pos 0)) kept in
    let choice =
      put (codes "finish_reason") null
        (put (codes "delta") (object (field (codes "content") (str text) end)) indexed) in
    ap contents (choices_of-put (choice ∷ []) (without (codes "choices") fs))
    ∙ contents_one choice text (content_of-tail indexed text)
