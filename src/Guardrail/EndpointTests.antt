-- ===== src/Guardrail/EndpointTests.antt =====
-- Calls of the endpoint of task3_streaming_guardrail/llm_gateway.py.
use mcp_llm_gateway_suite.Base.{
  subst, ℕ, ◌≡◌, ◌≢◌, refl, false, true, ◌&&◌, ◌||◌, ◌-◌, none, some, List, [], ◌∷◌, ◌++◌, map, leb,
  ◌==◌, arith, All, if◌then◌else◌, Bool-cases, inl, inr,
}
use mathlib.Core.Option
use mcp_llm_gateway_suite.Base.Text.{Text, codes, text_eq, strip, lstrip, is_space, starts_with}
use mcp_llm_gateway_suite.Json.{
  Json, boolean, str, array, object, Items, Fields, end, field, get, put, is_encodable,
}
use mcp_llm_gateway_suite.Gateway.Rpc.{as_object, as_str, as_array, or_null, is_null}
use mcp_llm_gateway_suite.Regex.{Unicode, match_length}
use mcp_llm_gateway_suite.Redactor.{
  alphanumeric, digit_char, labels, pattern_of, iter_loop, search, rejects, iter_matches, pull_back,
  split_point, redact_complete, redact_range, holdback, new_redactor, feed, flush,
}
use mcp_llm_gateway_suite.Redactor.Bounds.{concat}
use mcp_llm_gateway_suite.Redactor.Local.{KnowsAscii}
use mcp_llm_gateway_suite.Guardrail.Frames.{
  objects, choices_of, delta_of, content_of, finish_reason_of, first_reason, with_content,
  without_content, with_safe, emptied, any_content,
}
use mcp_llm_gateway_suite.Guardrail.Sse.{
  Sse, is_caught, Parsed, parsed, decode_error, too_deep, Event, frame, done, safe_text,
  rebuilt_choice, handle_choices, flush_sse, frame_events, handle_frame, handle_parsed, handle_line,
  redact_lines, redact_sse_stream, redact_once,
}
use mcp_llm_gateway_suite.Guardrail.Events.{event_texts, line_texts, parsed_texts, upstream_texts}
use mcp_llm_gateway_suite.Guardrail.Texts.{contents, json_contents}
use mcp_llm_gateway_suite.Guardrail.Keeps.{ends_stream, finishes}
use mcp_llm_gateway_suite.Guardrail.Endpoint.{
  fresh_state, timed_out, responded, opened, Client, HttpResponse, json_response, event_stream,
  is_truthy, wants_stream, malformed_error, redact_message, redact_choice, rendered, redact_items,
  redact_data, completion_response, posted_response, failure_error, failure_events, read_lines,
  fresh_state, only_events, opened_events, stream_events, chat_completions,
}
use mcp_llm_gateway_suite.Guardrail.Broken.{broken_stream_redacts}
use mcp_llm_gateway_suite.Guardrail.Paths.{
  message_content, safe_content, message_of, messages, posted_redacts,
}
use mcp_llm_gateway_suite.Guardrail.Alike.{streamed-posted}
use mcp_llm_gateway_suite.Guardrail.Replies.{Fits, chat_completions-Fits}

program : Unit {0}
unfolding digit_char alphanumeric labels pattern_of match_length iter_loop search rejects
    iter_matches pull_back split_point redact_complete redact_range holdback new_redactor feed flush
    choices_of content_of finish_reason_of with_content without_content with_safe emptied
    any_content safe_text rebuilt_choice handle_choices flush_sse frame_events handle_frame
    handle_parsed handle_line redact_lines redact_sse_stream as_object as_str as_array or_null
    is_null text_eq strip lstrip is_space starts_with get put chat_completions wants_stream
    is_truthy posted_response completion_response redact_data redact_items redact_choice
    redact_message failure_events failure_error only_events opened_events stream_events read_lines
    message_of messages ends_stream finishes upstream_texts line_texts parsed_texts json_contents
    rendered is_encodable contents delta_of objects first_reason redact_once event_texts
program = tt

abbrev ascii : Unicode
ascii = record {
  is_decimal = λ c. leb 48 c && leb c 57;
  is_word = λ c. alphanumeric c || c == 95;
  is_digit = λ c. leb 48 c && leb c 57;
  int_value = λ c. c - 48;
}

ascii-KnowsAscii : KnowsAscii ascii
unfolding digit_char
ascii-KnowsAscii c h = h

abbrev choices_with : Json → Fields
choices_with choice = field (codes "choices") (array (Items.item choice Items.nil)) end

abbrev delta_frame : Text → Fields
delta_frame content =
    choices_with
      (object (field (codes "delta") (object (field (codes "content") (str content) end)) end))

abbrev completion : Text → Fields
completion content =
    choices_with
      (object (field (codes "message") (object (field (codes "content") (str content) end)) end))

abbrev loads : Text → Parsed
loads t =
    if text_eq t (codes "A")
    then parsed (object (delta_frame (codes "ssn 123-4")))
    else if text_eq t (codes "B")
    then parsed (object (delta_frame (codes "5-6789.")))
    else decode_error

loads_fine : (t : Text) → is_caught (loads t) ≡ true
loads_fine t = elim (Bool-cases (text_eq t (codes "A"))) [
  | inl same ↦ ground arith
  | inr other ↦ elim (Bool-cases (text_eq t (codes "B"))) [
    | inl same ↦ ground arith
    | inr neither ↦ ground arith
  ]
]

abbrev whole_body : Fields
whole_body = field (codes "stream") (boolean false) end

abbrev pieces : List Text
pieces = codes "data: A" ∷ codes "data: B" ∷ []

abbrev the_end : List Text
the_end = codes "data: [DONE]" ∷ []

abbrev good_client : Client
good_client = record {
  post = λ body. responded 200 (parsed (object (completion (codes "ssn 123-45-6789."))));
  stream = λ body. opened (record { status = 200; lines = pieces ++ the_end; breaks = none });
}

abbrev slow_client : Client
slow_client = record {
  post = λ body. responded 200 decode_error;
  stream = λ body. opened (record { status = 200; lines = pieces; breaks = some timed_out });
}

answered_whole :
    chat_completions ascii loads good_client (parsed (object whole_body))
    ≡ some (json_response 200 (object (completion (codes "ssn [REDACTED]."))))
unfolding program
answered_whole = refl

-- What is still held back when the provider times out does not go out.
answered_slowly :
    chat_completions ascii loads slow_client (parsed (object end))
    ≡ some (
        event_stream (
          frame (object (delta_frame (codes "ssn ")))
          ∷ frame (failure_error timed_out)
          ∷ done
          ∷ []))
unfolding program
answered_slowly = refl

not_json :
    chat_completions ascii loads slow_client (parsed (object whole_body))
    ≡ some (json_response 502 malformed_error)
unfolding program
not_json = refl

wants_whole : wants_stream whole_body ≡ false
unfolding program
wants_whole = refl

streams_by_default : wants_stream end ≡ true
unfolding program
streams_by_default = refl

pieces_go_on : All (λ text. ends_stream loads text ≡ false) pieces
unfolding program
pieces_go_on = (refl, (refl, tt))

silent_end : upstream_texts loads the_end ≡ []
unfolding program
silent_end = refl

same_text :
    messages (choices_of (completion (codes "ssn 123-45-6789.")))
    ≡ concat (upstream_texts loads pieces) ∷ []
unfolding program
same_text = refl

abbrev found : Fields
found = completion (codes "ssn 123-45-6789.")

encodable : is_encodable (object (redact_data ascii found)) ≡ true
unfolding program
encodable = refl

posted_redacts_example :
    (safe : Fields) × (chat_completions ascii loads good_client (parsed (object whole_body))
      ≡ some (json_response 200 (object safe)))
    × (map message_content (choices_of safe)
        ≡ map
            (λ choice. Option.map (safe_content ascii) (message_content choice))
            (choices_of found))
    × (messages (choices_of safe) ≡ map (redact_once ascii) (messages (choices_of found)))
    × ((k : Text) → text_eq (codes "choices") k ≡ false → get k safe ≡ get k found)
posted_redacts_example =
    posted_redacts ascii loads good_client whole_body 200 found wants_whole refl (omega arith)
      encodable

broken_stream_redacts_example :
    (said : List Event) × (last : Sse) × (read_lines ascii loads pieces fresh_state
      ≡ some (said, last))
    × (chat_completions ascii loads slow_client (parsed (object end))
        ≡ some (event_stream (said ++ failure_events timed_out)))
    × (concat (event_texts said) ++ (flush ascii last.redactor).0
        ≡ redact_once ascii (concat (upstream_texts loads pieces)))
broken_stream_redacts_example =
    broken_stream_redacts ascii loads slow_client end 200 pieces timed_out ascii-KnowsAscii
      loads_fine streams_by_default refl (omega arith) pieces_go_on

streamed-posted_example :
    (events : List Event) × (safe : Fields) × (chat_completions ascii loads good_client
        (parsed (object end))
      ≡ some (event_stream events))
    × (chat_completions ascii loads good_client (parsed (object whole_body))
        ≡ some (json_response 200 (object safe)))
    × (messages (choices_of safe) ≡ concat (event_texts events) ∷ [])
streamed-posted_example =
    streamed-posted ascii loads good_client end whole_body 200 200 pieces the_end
      (completion (codes "ssn 123-45-6789.")) ascii-KnowsAscii loads_fine streams_by_default
      wants_whole refl refl (omega arith) (omega arith) pieces_go_on silent_end same_text encodable

readable : (n : ℕ) → good_client.post whole_body ≢ responded n too_deep
readable n e = cc

printable :
    (n : ℕ) (fs : Fields)
    → good_client.post whole_body ≡ responded n (parsed (object fs))
    → is_encodable (object (redact_data ascii fs)) ≡ true
printable n fs e =
    let same : found ≡ fs = cc in
    subst (λ x. is_encodable (object (redact_data ascii x)) ≡ true) same encodable

chat_completions-Fits_example :
    (response : HttpResponse) × (chat_completions ascii loads good_client
        (parsed (object whole_body))
      ≡ some response)
    × Fits ascii loads
        (good_client.stream whole_body)
        (good_client.post whole_body)
        (wants_stream whole_body)
        response
chat_completions-Fits_example =
    chat_completions-Fits ascii loads good_client whole_body loads_fine readable printable (λ e. cc)
      (λ e. cc)
