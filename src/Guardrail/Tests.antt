-- ===== src/Guardrail/Tests.antt =====
-- Streams of task3_streaming_guardrail/llm_gateway.py.
use mcp_llm_gateway_suite.Base.{
  ◌-◌, ◌≡◌, refl, true, ◌&&◌, ◌||◌, Option, none, some, List, [], ◌∷◌, leb, ◌==◌, if◌then◌else◌,
  Bool-cases, inl, inr, All, ◌++◌, map, arith, false,
}
use mcp_llm_gateway_suite.Base.Text.{Text, codes, text_eq, strip, lstrip, is_space, starts_with}
use mcp_llm_gateway_suite.Json.{Json, str, array, object, Items, Fields, end, field, get, put}
use mcp_llm_gateway_suite.Gateway.Rpc.{as_object, as_str, as_array, or_null, is_null}
use mcp_llm_gateway_suite.Regex.{Unicode, match_length}
use mcp_llm_gateway_suite.Redactor.{
  alphanumeric, digit_char, labels, pattern_of, iter_loop, search, rejects, iter_matches, pull_back,
  split_point, redact_complete, redact_range, holdback, Redactor, new_redactor, default_placeholder,
  feed, flush,
}
use mcp_llm_gateway_suite.Guardrail.Frames.{
  choices_of, content_of, finish_reason_of, with_content, without_content, with_safe, emptied,
  any_content,
}
use mcp_llm_gateway_suite.Guardrail.Sse.{
  is_caught, Parsed, parsed, decode_error, Event, frame, line, raw_data, done, Sse, safe_text,
  rebuilt_choice, handle_choices, flush_sse, frame_events, handle_frame, handle_parsed, handle_line,
  redact_lines, redact_sse_stream, redact_once,
}
use mcp_llm_gateway_suite.Guardrail.Total.{redact_sse_stream_ends}
use mcp_llm_gateway_suite.Redactor.Bounds.{concat}
use mcp_llm_gateway_suite.Redactor.Local.{KnowsAscii}
use mcp_llm_gateway_suite.Guardrail.Events.{event_texts, upstream_texts}
use mcp_llm_gateway_suite.Guardrail.Keeps.{ends_stream}
use mcp_llm_gateway_suite.Guardrail.Faithful.{redact_sse_stream_redacts}

program : Unit {0}
unfolding digit_char alphanumeric labels pattern_of match_length iter_loop search rejects
    iter_matches pull_back split_point redact_complete redact_range holdback new_redactor feed flush
    choices_of content_of finish_reason_of with_content without_content with_safe emptied
    any_content safe_text rebuilt_choice handle_choices flush_sse frame_events handle_frame
    handle_parsed handle_line redact_lines redact_sse_stream as_object as_str as_array or_null
    is_null text_eq strip lstrip is_space starts_with get put
program = tt

abbrev ascii : Unicode
ascii = record {
  is_decimal = λ c. leb 48 c && leb c 57;
  is_word = λ c. alphanumeric c || c == 95;
  is_digit = λ c. leb 48 c && leb c 57;
  int_value = λ c. c - 48;
}

abbrev choice_with : Text → Json
choice_with content =
    object (field (codes "delta") (object (field (codes "content") (str content) end)) end)

abbrev frame_of : Items → Fields
frame_of choices = field (codes "choices") (array choices) end

-- A frame of two choices, of which the first ends in the start of a number.
abbrev both : Fields
both = frame_of (
    Items.item (choice_with (codes "Call (555")) (Items.item (choice_with (codes "ok ")) Items.nil))

abbrev loads : Text → Parsed
loads t = if text_eq t (codes "BOTH") then parsed (object both) else decode_error

abbrev start : Redactor
start = new_redactor 400 default_placeholder

abbrev events_of : Option (List Event × Sse) → List Event
events_of none = []
events_of (some (events, st)) = events

-- The two choices share one redactor: what is held back of the first goes out in the second.
crossed_choices :
    events_of (redact_sse_stream ascii loads start (codes "data: BOTH" ∷ codes "data: [DONE]" ∷ []))
    ≡ frame (
        object (
          frame_of (
            Items.item
              (choice_with (codes "Call "))
              (Items.item (choice_with (codes "(555ok ")) Items.nil))))
      ∷ done
      ∷ []
unfolding program
crossed_choices = refl

garbled :
    events_of (redact_sse_stream ascii loads start (codes "data: {" ∷ codes ": ping" ∷ []))
    ≡ raw_data (codes "{") ∷ line (codes ": ping") ∷ []
unfolding program
garbled = refl

loads_fine : (t : Text) → is_caught (loads t) ≡ true
loads_fine t = elim (Bool-cases (text_eq t (codes "BOTH"))) [
  | inl same ↦ ground arith
  | inr other ↦ ground arith
]

redact_sse_stream_ends_example :
    (events : List Event) × (last : Sse) × (redact_sse_stream ascii loads start
        (codes "data: BOTH" ∷ codes "data: {" ∷ [])
      ≡ some (events, last))
    × (last.redactor.is_closed ≡ true)
    × (last.redactor.buffer ≡ [])
unfolding program
redact_sse_stream_ends_example =
    redact_sse_stream_ends ascii loads start (codes "data: BOTH" ∷ codes "data: {" ∷ []) loads_fine
      refl

ascii-KnowsAscii : KnowsAscii ascii
unfolding digit_char
ascii-KnowsAscii c h = h

abbrev both_only : List Text
both_only = codes "data: BOTH" ∷ []

abbrev the_end : List Text
the_end = codes "data: [DONE]" ∷ []

both_goes_on : All (λ text. ends_stream loads text ≡ false) both_only
unfolding program ends_stream
both_goes_on = (refl, tt)

redact_sse_stream_redacts_example :
    (events : List Event) × (last : Sse) × (redact_sse_stream ascii loads
        (new_redactor 400 default_placeholder)
        (both_only ++ the_end)
      ≡ some (events, last))
    × (more : List Text) × (after : List Text) × (more ++ after ≡ upstream_texts loads the_end)
    × (concat (event_texts events)
        ≡ redact_once ascii (concat (upstream_texts loads both_only ++ more))
          ++ concat (map (redact_once ascii) after))
redact_sse_stream_redacts_example =
    redact_sse_stream_redacts ascii loads 400 both_only the_end ascii-KnowsAscii (omega arith)
      loads_fine both_goes_on
