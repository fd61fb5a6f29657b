-- ===== src/Redactor/Tests.antt =====
-- The redactor of task3_streaming_guardrail/redactor.py on texts of ASCII.
use mcp_llm_gateway_suite.Base.{
  suc, length, ◌-◌, ◌≡◌, refl, ◌&&◌, ◌||◌, none, some, List, [], ◌∷◌, ◌++◌, leb, ◌==◌, arith,
}
use mcp_llm_gateway_suite.Base.Text.{Text, codes}
use mcp_llm_gateway_suite.Regex.{Unicode, match_length}
use mcp_llm_gateway_suite.Redactor.Matches.{Chain, iter_matches-Chain}
use mcp_llm_gateway_suite.Redactor.Guard.{IsCut, split_point-IsCut}
use mcp_llm_gateway_suite.Redactor.Bounds.{concat, feed_all, IsAfter, feed_all-IsAfter}
use mcp_llm_gateway_suite.Redactor.Reference.{redacted}
use mcp_llm_gateway_suite.Redactor.Complete.{redact_complete-redacted}
use mcp_llm_gateway_suite.Redactor.Local.{KnowsAscii}
use mcp_llm_gateway_suite.Redactor.Faithful.{stream-one_shot}
use mcp_llm_gateway_suite.Redactor.Patterns.{digit_char, alphanumeric, labels, pattern_of}
use mcp_llm_gateway_suite.Redactor.Scan.{iter_loop, search, rejects, iter_matches}
use mcp_llm_gateway_suite.Redactor.Emit.{Stats, redact_complete, redact_range, pull_back, holdback}
use mcp_llm_gateway_suite.Redactor.Stream.{
  Redactor, new_redactor, feed, feed_open, flush, split_point, default_placeholder,
}

program : Unit {0}
unfolding digit_char alphanumeric labels pattern_of match_length iter_loop search rejects
    iter_matches pull_back split_point redact_complete redact_range holdback new_redactor feed flush
program = tt

abbrev ascii : Unicode
ascii = record {
  is_decimal = λ c. leb 48 c && leb c 57;
  is_word = λ c. alphanumeric c || c == 95;
  is_digit = λ c. leb 48 c && leb c 57;
  int_value = λ c. c - 48;
}

-- The texts that a list of chunks and the end of the stream put out.
abbrev outputs : Redactor → List Text → List Text
outputs r [] = (flush ascii r).0 ∷ []
outputs r (c ∷ cs) = let (emit, r') = feed_open ascii r c in emit ∷ outputs r' cs

abbrev start : Redactor
start = new_redactor 400 default_placeholder

abbrev empty_stats : Stats
empty_stats = record {
  chunks_in = 0;
  characters_in = 0;
  characters_out = 0;
  redactions = [];
  max_buffer = 0;
}

abbrev redact : Text → Text
redact text = (redact_complete ascii text empty_stats default_placeholder).0

phone_split :
    outputs start (codes "Call (555" ∷ codes ") 123-4567." ∷ [])
    ≡ codes "Call " ∷ [] ∷ codes "[REDACTED]." ∷ []
unfolding program
phone_split = refl

-- An address that is complete before its last letter arrives.
email_split :
    outputs start (codes "Mail ada@example.co" ∷ codes "m now" ∷ [])
    ≡ codes "Mail " ∷ codes "[REDACTED] " ∷ codes "now" ∷ []
unfolding program
email_split = refl

-- A number in front of a card, which fails the checksum together with it.
card_behind_number :
    redact (codes "Invoice 12345 4111 1111 1111 1111 paid") ≡ codes "Invoice 12345 [REDACTED] paid"
unfolding program
card_behind_number = refl

ssn_and_key :
    redact (codes "SSN 123-45-6789, not 000-00-0000, key sk-live-abcdefghij0123456789.")
    ≡ codes "SSN [REDACTED], not 000-00-0000, key [REDACTED]."
unfolding program
ssn_and_key = refl

abbrev call_text : Text
call_text = codes "Call (555) 123-4567."

iter_matches-Chain_example :
    (iter_loop ascii call_text (suc (suc (length call_text))) 2
      ≡ some (iter_matches ascii call_text 2))
    × Chain (length call_text) 2 (iter_matches ascii call_text 2)
iter_matches-Chain_example = iter_matches-Chain ascii call_text 2 (omega arith)

split_point-IsCut_example : IsCut ascii start call_text
split_point-IsCut_example = split_point-IsCut ascii start call_text

abbrev call_chunks : List Text
call_chunks = codes "Call (555" ∷ [] ∷ codes ") 123-4567." ∷ []

feed_all-IsAfter_example :
    (out : List Text) × (end : Redactor) × (feed_all ascii
        (new_redactor 64 default_placeholder)
        call_chunks
      ≡ some (out, end))
    × IsAfter (concat call_chunks) end
feed_all-IsAfter_example = feed_all-IsAfter ascii 64 default_placeholder call_chunks (omega arith)

ascii-KnowsAscii : KnowsAscii ascii
unfolding digit_char
ascii-KnowsAscii c h = h

stream-one_shot_example :
    (puts : List Text) × (end : Redactor) × (feed_all ascii
        (new_redactor 400 default_placeholder)
        call_chunks
      ≡ some (puts, end))
    × (concat puts ++ (flush ascii end).0
        ≡ (redact_complete ascii (concat call_chunks) empty_stats default_placeholder).0)
stream-one_shot_example =
    stream-one_shot ascii 400 default_placeholder call_chunks empty_stats ascii-KnowsAscii
      (omega arith)

redact_complete-redacted_example :
    (redact_complete ascii call_text empty_stats default_placeholder).0
    ≡ redacted ascii default_placeholder none 0 call_text
redact_complete-redacted_example =
    redact_complete-redacted ascii call_text empty_stats default_placeholder
