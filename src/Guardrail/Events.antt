-- ===== src/Guardrail/Events.antt =====
-- What the lines and the events of task3_streaming_guardrail/llm_gateway.py say.
use mcp_llm_gateway_suite.Base.{
  ◌≡◌, refl, ◌∙◌, sym, ap, Bool, false, not, ◌||◌, List, [], ◌∷◌, ◌++◌, drop, inl, inr, Bool-cases,
  if◌then◌else◌,
}
use mathlib.Core.List.{append_assoc, append-nil}
use mcp_llm_gateway_suite.Base.Text.{Text, codes, text_eq, starts_with, strip}
use mcp_llm_gateway_suite.Json.{Fields}
use mcp_llm_gateway_suite.Redactor.Bounds.{concat}
use mcp_llm_gateway_suite.Guardrail.Frames.{choices_of, any_content}
use mcp_llm_gateway_suite.Guardrail.Sse.{
  Parsed, parsed, decode_error, value_error, too_deep, Event, frame, line, raw_data, done,
  frame_events, tail_event,
}
use mcp_llm_gateway_suite.Guardrail.Texts.{
  contents, json_contents, json_contents-with_content, choices_of-put, concat-append,
}
use mcp_llm_gateway_suite.Guardrail.Heard.{or_false}

-- The texts of the choices in what the generator yields.
unfoldable pub event_texts : List Event → List Text
unfolding json_contents
event_texts [] = []
event_texts (frame v ∷ events) = json_contents v ++ event_texts events
event_texts (line t ∷ events) = event_texts events
event_texts (raw_data t ∷ events) = event_texts events
event_texts (done ∷ events) = event_texts events

unfoldable pub parsed_texts : Parsed → List Text
unfolding json_contents
parsed_texts (parsed v) = json_contents v
parsed_texts decode_error = []
parsed_texts too_deep = []
parsed_texts value_error = []

-- The texts of the choices in a line of the upstream.
unfoldable pub line_texts : (Text → Parsed) → Text → List Text
unfolding parsed_texts
line_texts loads text =
    let payload = strip (drop 5 text) in
    elim (strip text) [
      | [] ↦ []
      | _ ∷ _ ↦
          if not (starts_with text (codes "data:")) || text_eq payload (codes "[DONE]")
          then []
          else parsed_texts (loads payload)
    ]

unfoldable pub upstream_texts : (Text → Parsed) → List Text → List Text
unfolding line_texts
upstream_texts loads [] = []
upstream_texts loads (text ∷ lines) = line_texts loads text ++ upstream_texts loads lines

pub event_texts-append :
    (xs ys : List Event) → event_texts (xs ++ ys) ≡ event_texts xs ++ event_texts ys
unfolding event_texts
event_texts-append [] ys = refl
event_texts-append (frame v ∷ xs) ys =
    ap (λ (t : List Text). json_contents v ++ t) (event_texts-append xs ys)
    ∙ sym (append_assoc (json_contents v) (event_texts xs) (event_texts ys))
event_texts-append (line t ∷ xs) ys = event_texts-append xs ys
event_texts-append (raw_data t ∷ xs) ys = event_texts-append xs ys
event_texts-append (done ∷ xs) ys = event_texts-append xs ys

-- What events say as one text.
abbrev pub spoken : List Event → Text
spoken events = concat (event_texts events)

pub spoken-append : (xs ys : List Event) → spoken (xs ++ ys) ≡ spoken xs ++ spoken ys
spoken-append xs ys =
    ap concat (event_texts-append xs ys) ∙ concat-append (event_texts xs) (event_texts ys)

pub spoken-tail_event : (template : Fields) (tail : Text) → spoken (tail_event template tail) ≡ tail
unfolding tail_event event_texts
spoken-tail_event template [] = refl
spoken-tail_event template (c ∷ tail) =
    ap (λ (t : List Text). concat (t ++ [])) (json_contents-with_content template (c ∷ tail))
    ∙ append-nil (c ∷ tail)

pub spoken-frame_events :
    (finished emitted : Bool) (fs : Fields) (choices rebuilt : List Fields)
    → (emitted ≡ false → concat (contents rebuilt) ≡ [])
    → spoken (frame_events finished emitted fs choices rebuilt) ≡ concat (contents rebuilt)
unfolding frame_events event_texts json_contents
spoken-frame_events finished emitted fs choices rebuilt quiet =
    elim (Bool-cases (emitted || finished || not (any_content choices))) [
      | inl goes ↦ rw goes (
          ap concat
            (append-nil (contents (choices_of _)) ∙ ap contents (choices_of-put rebuilt fs)))
      | inr held ↦
          let (first, _) = or_false (emitted || finished) (not (any_content choices)) held in
          let (silent, _) = or_false emitted finished first in rw held (sym (quiet silent))
    ]
