-- ===== src/Guardrail/Sse.antt =====
-- `redact_sse_stream` of task3_streaming_guardrail/llm_gateway.py.
use mcp_llm_gateway_suite.Base.{
  Bool, true, false, not, ◌||◌, Option, none, some, List, [], ◌∷◌, ◌++◌, drop, if◌then◌else◌,
}
use mcp_llm_gateway_suite.Base.Text.{Text, codes, text_eq, starts_with, strip}
use mcp_llm_gateway_suite.Json.{Json, array, object, Fields, end, put}
use mcp_llm_gateway_suite.Gateway.Rpc.{as_object, is_null}
use mcp_llm_gateway_suite.Regex.{Unicode}
use mcp_llm_gateway_suite.Redactor.{redact_complete, Redactor, default_placeholder, feed, flush}
use mcp_llm_gateway_suite.Guardrail.Frames.{
  choices_of, content_of, finish_reason_of, with_content, without_content, with_safe, emptied,
  any_content, choice_items,
}

-- What `json.loads` does with a text: it gives a value, or raises a `JSONDecodeError`, another
-- `ValueError`, as for an integer with too many digits, or a `RecursionError`.
pub data Parsed : Type 0 where
  parsed : Json → Parsed
  decode_error value_error too_deep : Parsed

-- The generator catches a `JSONDecodeError` only.
abbrev pub is_caught : Parsed → Bool
is_caught (parsed v) = true
is_caught decode_error = true
is_caught value_error = false
is_caught too_deep = false

-- What the generator yields: a frame of JSON, a line as it came, a payload as it came, or the end.
pub data Event : Type 0 where
  frame : Json → Event
  line : Text → Event
  raw_data : Text → Event
  done : Event

-- The variables of the generator.
pub record Sse : Type 0 where
  pub redactor : Redactor
  pub flushed : Bool
  pub last_frame : Option Fields

unfoldable pub redact_once : Unicode → Text → Text
unfolding redact_complete
redact_once u text =
    (redact_complete u text
      (record {
        chunks_in = 0;
        characters_in = 0;
        characters_out = 0;
        redactions = [];
        max_buffer = 0;
      })
      default_placeholder).0

-- The text for a content, the redactor and `flushed`; `none` if `feed` raises.
unfoldable pub safe_text : Unicode → Bool → Bool → Redactor → Text → Option (Text × Redactor × Bool)
unfolding redact_once
safe_text u finished flushed r content =
    if flushed then some (redact_once u content, r, true) else elim (feed u r content) [
      | none ↦ none
      | some (safe, r') ↦
          let (tail, r'') = flush u r' in
          if finished then some (safe ++ tail, r'', true) else some (safe, r', false)
    ]

-- What becomes of a choice with its text: the choices rebuilt, and whether any text is emitted.
unfoldable pub rebuilt_choice : Bool → Fields → Text → List Fields × Bool
unfolding with_safe emptied
rebuilt_choice finished choice (c ∷ safe) = (with_safe choice (c ∷ safe) ∷ [], true)
rebuilt_choice finished choice [] = (if finished then emptied choice ∷ [] else [], false)

-- The loop over the choices.
unfoldable pub handle_choices :
    Unicode → Bool → Bool → Redactor → List Fields → Option (List Fields × Bool × Redactor × Bool)
handle_choices u finished flushed r [] = some ([], false, r, flushed)
handle_choices u finished flushed r (choice ∷ choices) = elim (content_of choice) [
  | none ↦ elim (handle_choices u finished flushed r choices) [
    | none ↦ none
    | some (rest, emitted, r', flushed') ↦
        some (without_content choice ∷ rest, emitted, r', flushed')
  ]
  | some content ↦ elim (safe_text u finished flushed r content) [
    | none ↦ none
    | some (safe, r', flushed') ↦ elim (handle_choices u finished flushed' r' choices) [
      | none ↦ none
      | some (rest, emitted, r'', flushed'') ↦
          let (here, any) = rebuilt_choice finished choice safe in
          some (here ++ rest, any || emitted, r'', flushed'')
    ]
  ]
]

-- A flush whose text goes out in a frame of its own, if there is any.
unfoldable pub tail_event : Fields → Text → List Event
unfolding with_content
tail_event template [] = []
tail_event template (c ∷ tail) = frame (with_content template (c ∷ tail)) ∷ []

unfoldable pub flush_sse : Unicode → Fields → Sse → List Event × Sse
unfolding tail_event
flush_sse u template st =
    let (tail, r) = flush u st.redactor in
    if st.flushed
    then ([], st)
    else (tail_event template tail, record st { redactor = r; flushed = true })

-- The rebuilt frame, unless everything in it is held back.
unfoldable pub frame_events : Bool → Bool → Fields → List Fields → List Fields → List Event
unfolding any_content choice_items put
frame_events finished emitted fs choices rebuilt =
    if emitted || finished || not (any_content choices)
    then frame (object (put (codes "choices") (array (choice_items rebuilt)) fs)) ∷ []
    else []

-- A frame that is an object, `last_frame` being set.
unfoldable pub handle_frame : Unicode → Fields → Sse → Option (List Event × Sse)
handle_frame u fs st =
    let finished = not (is_null (finish_reason_of fs)) in
    let (tail, st') = flush_sse u fs st in
    elim (choices_of fs) [
      | [] ↦
          if finished
          then some (tail ++ (frame (object fs) ∷ []), st')
          else some (frame (object fs) ∷ [], st)
      | choice ∷ more ↦ elim (handle_choices u finished st.flushed st.redactor (choice ∷ more)) [
        | none ↦ none
        | some (rebuilt, emitted, r, flushed) ↦ some (
          frame_events finished emitted fs (choice ∷ more) rebuilt,
          record st { redactor = r; flushed = flushed },
        )
      ]
    ]

unfoldable pub frame_or_empty : Option Fields → Fields
frame_or_empty none = end
frame_or_empty (some fs) = fs

unfoldable pub handle_parsed : Unicode → Text → Sse → Parsed → Option (List Event × Sse)
unfolding as_object
handle_parsed u payload st too_deep = none
handle_parsed u payload st value_error = none
handle_parsed u payload st decode_error = some (raw_data payload ∷ [], st)
handle_parsed u payload st (parsed v) = elim (as_object (some v)) [
  | none ↦ some (raw_data payload ∷ [], st)
  | some fs ↦ handle_frame u fs (record st { last_frame = some fs })
]

-- The body of the loop over the lines; `none` if an exception leaves the generator.
unfoldable pub handle_line : Unicode → (Text → Parsed) → Text → Sse → Option (List Event × Sse)
unfolding frame_or_empty
handle_line u loads text st =
    let payload = strip (drop 5 text) in
    let (tail, st') = flush_sse u (frame_or_empty st.last_frame) st in
    elim (strip text) [
      | [] ↦ some ([], st)
      | _ ∷ _ ↦
          if not (starts_with text (codes "data:"))
          then some (line text ∷ [], st)
          else if text_eq payload (codes "[DONE]")
          then some (tail ++ (done ∷ []), st')
          else handle_parsed u payload st (loads payload)
    ]

unfoldable pub redact_lines :
    Unicode → (Text → Parsed) → List Text → Sse → Option (List Event × Sse)
unfolding frame_or_empty
redact_lines u loads [] st = some (flush_sse u (frame_or_empty st.last_frame) st)
redact_lines u loads (text ∷ lines) st = elim (handle_line u loads text st) [
  | none ↦ none
  | some (events, st') ↦ elim (redact_lines u loads lines st') [
    | none ↦ none
    | some (more, last) ↦ some (events ++ more, last)
  ]
]

unfoldable pub redact_sse_stream :
    Unicode → (Text → Parsed) → Redactor → List Text → Option (List Event × Sse)
redact_sse_stream u loads r lines =
    redact_lines u loads lines (record { redactor = r; flushed = false; last_frame = none })
