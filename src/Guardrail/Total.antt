-- ===== src/Guardrail/Total.antt =====
-- `redact_sse_stream` of task3_streaming_guardrail/llm_gateway.py never feeds a closed redactor.
use mcp_llm_gateway_suite.Base.{
  ℕ, ◌≡◌, refl, ◌∙◌, ◌⊎◌, inl, inr, true, false, not, Option, none, some, List, [], ◌∷◌, ◌++◌, drop,
  Bool-cases,
}
use mcp_llm_gateway_suite.Base.Text.{Text, codes, text_eq, starts_with, strip}
use mcp_llm_gateway_suite.Json.{null, boolean, number, decimal, str, array, object, Fields}
use mcp_llm_gateway_suite.Gateway.Rpc.{as_object, is_null}
use mcp_llm_gateway_suite.Regex.{Unicode}
use mcp_llm_gateway_suite.Redactor.{Redactor, flush}
use mcp_llm_gateway_suite.Guardrail.Frames.{choices_of, finish_reason_of}
use mcp_llm_gateway_suite.Guardrail.Sse.{
  is_caught, Parsed, parsed, decode_error, value_error, too_deep, Event, frame, line, raw_data,
  done, frame_events, Sse, flush_sse, handle_frame, frame_or_empty, handle_parsed, handle_line,
  redact_lines, redact_sse_stream,
}
use mcp_llm_gateway_suite.Guardrail.Steps.{InStep, InStep-open, flush-InStep, handle_choices-InStep}

abbrev pub IsInStep : Sse → Type 0
IsInStep st = InStep st.redactor st.flushed

pub flush_sse_done :
    (u : Unicode) (template : Fields) (st : Sse)
    → st.flushed ≡ true
    → flush_sse u template st ≡ ([], st)
unfolding flush_sse
flush_sse_done u template st h = cc

pub flush_sse_now :
    (u : Unicode) (template : Fields) (st : Sse)
    → st.flushed ≡ false
    → (flush_sse u template st).1 ≡ record st { redactor = (flush u st.redactor).1; flushed = true }
unfolding flush_sse
flush_sse_now u template st h = cc

flush_sse-IsInStep :
    (u : Unicode) (template : Fields) (st : Sse)
    → IsInStep st
    → IsInStep (flush_sse u template st).1 × ((flush_sse u template st).1.flushed ≡ true)
flush_sse-IsInStep u template st i = elim (Bool-cases st.flushed) [
  | inl before ↦ rw (flush_sse_done u template st before) (i, before)
  | inr now ↦ rw (flush_sse_now u template st now) (flush-InStep u st.redactor (i.same ∙ now), refl)
]

pub List-cases : (l : List Fields) → (l ≡ []) ⊎ ((x : Fields) × (xs : List Fields) × (l ≡ x ∷ xs))
List-cases [] = inl refl
List-cases (x ∷ xs) = inr (x, xs, refl)

-- A step of the generator that goes on in step.
abbrev pub Goes : Option (List Event × Sse) → Type 0
Goes o = (events : List Event) × (st : Sse) × (o ≡ some (events, st)) × IsInStep st

handle_frame-Goes :
    (u : Unicode) (fs : Fields) (st : Sse) → IsInStep st → Goes (handle_frame u fs st)
unfolding handle_frame
handle_frame-Goes u fs st i = elim (List-cases (choices_of fs)) [
  | inl nothing ↦ elim (Bool-cases (is_null (finish_reason_of fs))) [
    | inl goes_on ↦ (frame (object fs) ∷ [], st, rw (nothing, handle_frame, goes_on) refl, i)
    | inr ends ↦ (
      (flush_sse u fs st).0 ++ (frame (object fs) ∷ []),
      (flush_sse u fs st).1,
      rw (nothing, handle_frame, ends) refl,
      (flush_sse-IsInStep u fs st i).0,
    )
  ]
  | inr (choice, more, found) ↦
      let (rebuilt, emitted, r, flushed, e, i') =
        handle_choices-InStep u (not (is_null (finish_reason_of fs))) st.flushed st.redactor
          (choice ∷ more) i in
      (
        frame_events (not (is_null (finish_reason_of fs))) emitted fs (choice ∷ more) rebuilt,
        record st { redactor = r; flushed = flushed },
        rw (found, handle_frame, e) refl,
        i',
      )
]

handle_parsed-Goes :
    (u : Unicode) (payload : Text) (st : Sse) (p : Parsed)
    → is_caught p ≡ true
    → IsInStep st
    → Goes (handle_parsed u payload st p)
unfolding handle_parsed as_object
handle_parsed-Goes u payload st too_deep fine i = absurd cc
handle_parsed-Goes u payload st value_error fine i = absurd cc
handle_parsed-Goes u payload st decode_error fine i = (raw_data payload ∷ [], st, refl, i)
handle_parsed-Goes u payload st (parsed null) fine i = (raw_data payload ∷ [], st, refl, i)
handle_parsed-Goes u payload st (parsed (boolean b)) fine i = (raw_data payload ∷ [], st, refl, i)
handle_parsed-Goes u payload st (parsed (number n)) fine i = (raw_data payload ∷ [], st, refl, i)
handle_parsed-Goes u payload st (parsed (decimal n k)) fine i = (raw_data payload ∷ [], st, refl, i)
handle_parsed-Goes u payload st (parsed (str s)) fine i = (raw_data payload ∷ [], st, refl, i)
handle_parsed-Goes u payload st (parsed (array is)) fine i = (raw_data payload ∷ [], st, refl, i)
handle_parsed-Goes u payload st (parsed (object fs)) fine i =
    handle_frame-Goes u fs (record st { last_frame = some fs }) i

pub Text-cases : (l : Text) → (l ≡ []) ⊎ ((x : ℕ) × (xs : Text) × (l ≡ x ∷ xs))
Text-cases [] = inl refl
Text-cases (x ∷ xs) = inr (x, xs, refl)

pub handle_line-Goes :
    (u : Unicode) (loads : Text → Parsed) (text : Text) (st : Sse)
    → ((t : Text) → is_caught (loads t) ≡ true)
    → IsInStep st
    → Goes (handle_line u loads text st)
unfolding handle_line
handle_line-Goes u loads text st fine i = elim (Text-cases (strip text)) [
  | inl blank ↦ ([], st, rw (blank, handle_line) refl, i)
  | inr (x, xs, full) ↦ elim (Bool-cases (starts_with text (codes "data:"))) [
    | inr other ↦ (line text ∷ [], st, rw (full, handle_line, other) refl, i)
    | inl data_line ↦
        let payload = strip (drop 5 text) in
        elim (Bool-cases (text_eq payload (codes "[DONE]"))) [
          | inl ends ↦
              let template = frame_or_empty st.last_frame in
              (
                (flush_sse u template st).0 ++ (done ∷ []),
                (flush_sse u template st).1,
                rw (full, handle_line, data_line, ends) refl,
                (flush_sse-IsInStep u template st i).0,
              )
          | inr more ↦
              let (events, st', e, i') =
                handle_parsed-Goes u payload st (loads payload) (fine payload) i in
              (events, st', rw (full, handle_line, data_line, more) e, i')
        ]
  ]
]

redact_lines_end :
    (u : Unicode) (loads : Text → Parsed) (lines : List Text) (st : Sse)
    → ((t : Text) → is_caught (loads t) ≡ true)
    → IsInStep st
    → (events : List Event) × (last : Sse) × (redact_lines u loads lines st ≡ some (events, last))
      × IsInStep last
      × (last.flushed ≡ true)
unfolding redact_lines
redact_lines_end u loads [] st fine i =
    let template = frame_or_empty st.last_frame in
    let (i', flushed) = flush_sse-IsInStep u template st i in
    ((flush_sse u template st).0, (flush_sse u template st).1, refl, i', flushed)
redact_lines_end u loads (text ∷ lines) st fine i =
    let (events, st', e, i') = handle_line-Goes u loads text st fine i in
    let (more, last, e', i'', flushed) = redact_lines_end u loads lines st' fine i' in
    (events ++ more, last, rw (e, redact_lines, e') refl, i'', flushed)

-- As long as `json.loads` gives a value or a `JSONDecodeError`, and no other `ValueError` nor a
-- `RecursionError`, no list of lines that an upstream sends, well formed or not, makes the stream
-- around an open redactor raise: in particular no content after the end is fed to a redactor that is
-- closed. When the lines have ended, the redactor is closed and holds nothing back.
pub redact_sse_stream_ends :
    (u : Unicode) (loads : Text → Parsed) (r : Redactor) (lines : List Text)
    → ((t : Text) → is_caught (loads t) ≡ true)
    → r.is_closed ≡ false
    → (events : List Event) × (last : Sse) × (redact_sse_stream u loads r lines
        ≡ some (events, last))
      × (last.redactor.is_closed ≡ true)
      × (last.redactor.buffer ≡ [])
unfolding redact_sse_stream
redact_sse_stream_ends u loads r lines fine still_open =
    let (events, last, e, i, flushed) =
      redact_lines_end u loads lines (record { redactor = r; flushed = false; last_frame = none })
        fine (InStep-open r still_open) in
    (events, last, e, i.same ∙ flushed, i.emptied flushed)
