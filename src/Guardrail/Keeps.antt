-- ===== src/Guardrail/Keeps.antt =====
-- When `redact_sse_stream` of task3_streaming_guardrail/llm_gateway.py has not flushed yet: as long as
-- no line ends the stream.
use mcp_llm_gateway_suite.Base.{
  ◌≡◌, refl, ◌∙◌, sym, Bool, true, false, not, ◌&&◌, ◌||◌, Option, none, some, List, [], ◌∷◌, drop,
  inl, inr, Bool-cases, Option-cases, arith,
}
use mcp_llm_gateway_suite.Base.Text.{Text, codes, text_eq, starts_with, strip}
use mcp_llm_gateway_suite.Json.{null, boolean, number, decimal, str, array, object, Fields}
use mcp_llm_gateway_suite.Gateway.Rpc.{as_object, is_null}
use mcp_llm_gateway_suite.Regex.{Unicode}
use mcp_llm_gateway_suite.Redactor.{Redactor, feed}
use mcp_llm_gateway_suite.Guardrail.Frames.{content_of, choices_of, finish_reason_of}
use mcp_llm_gateway_suite.Guardrail.Heard.{or_false}
use mcp_llm_gateway_suite.Guardrail.Total.{List-cases, Text-cases}
use mcp_llm_gateway_suite.Guardrail.Tells.{handle_frame_empty, handle_frame_choices}
use mcp_llm_gateway_suite.Guardrail.Sse.{
  Parsed, parsed, decode_error, value_error, too_deep, Event, line, Sse, safe_text, handle_choices,
  handle_frame, handle_parsed, handle_line,
}

safe_text-keeps :
    (u : Unicode) (r : Redactor) (content safe : Text) (r' : Redactor) (flushed : Bool)
    → safe_text u false false r content ≡ some (safe, r', flushed)
    → flushed ≡ false
unfolding safe_text
safe_text-keeps u r content safe r' flushed h = elim (Option-cases (feed u r content)) [
  | inl raises ↦ absurd (ground arith)
  | inr ((emit, r1), fed) ↦ ground arith
]

pub handle_choices-keeps :
    (u : Unicode) (r : Redactor) (choices rebuilt : List Fields) (emitted : Bool) (r' : Redactor)
    (flushed : Bool)
    → handle_choices u false false r choices ≡ some (rebuilt, emitted, r', flushed)
    → flushed ≡ false
unfolding handle_choices
handle_choices-keeps u r [] rebuilt emitted r' flushed h = ground arith
handle_choices-keeps u r (choice ∷ choices) rebuilt emitted r' flushed h =
    elim (Option-cases (content_of choice)) [
      | inl nothing ↦ elim (Option-cases (handle_choices u false false r choices)) [
        | inl raises ↦ absurd (ground arith)
        | inr ((rest, e, r1, f), went) ↦
            let kept = handle_choices-keeps u r choices rest e r1 f went in ground arith
      ]
      | inr (content, found) ↦ elim (Option-cases (safe_text u false false r content)) [
        | inl raises ↦ absurd (ground arith)
        | inr ((safe, r1, f), said) ↦
            let still = safe_text-keeps u r content safe r1 f said in
            elim (Option-cases (handle_choices u false f r1 choices)) [
              | inl raises ↦ absurd (ground arith)
              | inr ((rest, e, r2, f'), went) ↦
                  let kept = handle_choices-keeps u r1 choices rest e r2 f' (rw still at went) in
                  ground arith
            ]
      ]
    ]

handle_frame_raises :
    (u : Unicode) (fs : Fields) (st : Sse) (choice : Fields) (more : List Fields)
    → choices_of fs ≡ choice ∷ more
    → handle_choices u (not (is_null (finish_reason_of fs))) st.flushed st.redactor (choice ∷ more)
      ≡ none
    → handle_frame u fs st ≡ none
unfolding handle_frame
handle_frame_raises u fs st choice more h e = rw (h, handle_frame, e)

same_state :
    (o : Option (List Event × Sse)) (a b : List Event) (s s' : Sse)
    → o ≡ some (a, s)
    → o ≡ some (b, s')
    → s ≡ s'
same_state o a b s s' h h' = cc

handle_frame-keeps :
    (u : Unicode) (fs : Fields) (st st' : Sse) (events : List Event)
    → is_null (finish_reason_of fs) ≡ true
    → st.flushed ≡ false
    → handle_frame u fs st ≡ some (events, st')
    → st'.flushed ≡ false
unfolding handle_frame
handle_frame-keeps u fs st st' events goes_on before h = elim (List-cases (choices_of fs)) [
  | inl nothing ↦
      let same = handle_frame_empty u fs st nothing goes_on in
      let e : st ≡ st' = cc (same, h) in rw (← e) before
  | inr (choice, more, found) ↦
      elim (Option-cases (handle_choices u false false st.redactor (choice ∷ more))) [
        | inl raises ↦
            let none_left =
              handle_frame_raises u fs st choice more found (rw (goes_on, before) raises) in
            cc (none_left, h)
        | inr ((rebuilt, emitted, r, flushed), went) ↦
            let kept =
              handle_choices-keeps u st.redactor (choice ∷ more) rebuilt emitted r flushed went in
            let same =
              handle_frame_choices u fs st choice more rebuilt emitted r flushed found
                (rw (goes_on, before) went) in
            let e : record st { redactor = r; flushed = flushed } ≡ st' = cc (same, h) in
            rw (← e) kept
      ]
]

unfoldable pub finishes : Parsed → Bool
unfolding is_null finish_reason_of
finishes (parsed (object fs)) = not (is_null (finish_reason_of fs))
finishes _ = false

-- A line with the end of the stream, or with a frame that has a finish reason.
unfoldable pub ends_stream : (Text → Parsed) → Text → Bool
unfolding finishes
ends_stream loads text =
    let payload = strip (drop 5 text) in
    starts_with text (codes "data:")
    && (text_eq payload (codes "[DONE]") || finishes (loads payload))

handle_parsed-keeps :
    (u : Unicode) (payload : Text) (p : Parsed) (st st' : Sse) (events : List Event)
    → finishes p ≡ false
    → st.flushed ≡ false
    → handle_parsed u payload st p ≡ some (events, st')
    → st'.flushed ≡ false
unfolding finishes handle_parsed as_object
handle_parsed-keeps u payload too_deep st st' events goes_on before h = absurd cc
handle_parsed-keeps u payload value_error st st' events goes_on before h = absurd cc
handle_parsed-keeps u payload decode_error st st' events goes_on before h =
    rw (← same_state _ _ events st st' refl h) before
handle_parsed-keeps u payload (parsed null) st st' events goes_on before h =
    rw (← same_state _ _ events st st' refl h) before
handle_parsed-keeps u payload (parsed (boolean b)) st st' events goes_on before h =
    rw (← same_state _ _ events st st' refl h) before
handle_parsed-keeps u payload (parsed (number n)) st st' events goes_on before h =
    rw (← same_state _ _ events st st' refl h) before
handle_parsed-keeps u payload (parsed (decimal n k)) st st' events goes_on before h =
    rw (← same_state _ _ events st st' refl h) before
handle_parsed-keeps u payload (parsed (str s)) st st' events goes_on before h =
    rw (← same_state _ _ events st st' refl h) before
handle_parsed-keeps u payload (parsed (array is)) st st' events goes_on before h =
    rw (← same_state _ _ events st st' refl h) before
handle_parsed-keeps u payload (parsed (object fs)) st st' events goes_on before h =
    handle_frame-keeps u fs (record st { last_frame = some fs }) st' events (ground arith) before h

pub handle_line-keeps :
    (u : Unicode) (loads : Text → Parsed) (text : Text) (st st' : Sse) (events : List Event)
    → ends_stream loads text ≡ false
    → st.flushed ≡ false
    → handle_line u loads text st ≡ some (events, st')
    → st'.flushed ≡ false
unfolding ends_stream handle_line
handle_line-keeps u loads text st st' events goes_on before h = elim (Text-cases (strip text)) [
  | inl blank ↦ rw (← same_state _ [] events st st' (rw (blank, handle_line) refl) h) before
  | inr (x, rest, full) ↦ elim (Bool-cases (starts_with text (codes "data:"))) [
    | inr other ↦
        rw (← same_state _ (line text ∷ []) events st st' (rw (full, handle_line, other) refl) h)
          before
    | inl data_line ↦
        let payload = strip (drop 5 text) in
        let (no_done, no_finish) =
          or_false (text_eq payload (codes "[DONE]")) (finishes (loads payload))
            (rw data_line at goes_on) in
        let same : handle_line u loads text st ≡ handle_parsed u payload st (loads payload) =
          rw (full, handle_line, data_line, no_done) refl in
        handle_parsed-keeps u payload (loads payload) st st' events no_finish before (sym same ∙ h)
  ]
]
