-- ===== src/Redactor/Complete.antt =====
-- The one-shot redaction of task3_streaming_guardrail/redactor.py and the end of a stream.
use mcp_llm_gateway_suite.Base.{
  ℕ, ◌≤◌, ◌≡◌, ◌∙◌, sym, ap, none, List, [], ◌∷◌, ◌++◌, length, drop, All, arith,
}
use mathlib.Core.List.{append-nil}
use mcp_llm_gateway_suite.Base.Text.{Text}
use mcp_llm_gateway_suite.Regex.{Unicode}
use mcp_llm_gateway_suite.Redactor.Scan.{Match, previous}
use mcp_llm_gateway_suite.Redactor.Emit.{Stats, redact_complete_from, redact_complete}
use mcp_llm_gateway_suite.Redactor.Matches.{Chain, link, iter_matches-Chain}
use mcp_llm_gateway_suite.Redactor.Guard.{Straddles}
use mcp_llm_gateway_suite.Redactor.Reference.{accepted_at, redacted, drop-all}
use mcp_llm_gateway_suite.Redactor.Emitted.{redacted_from, redact_range-redacted}

inside-clear : (size at : ℕ) (ms : List Match) → Chain size at ms → All (λ m. ¬ Straddles size m) ms
inside-clear size at [] h = tt
inside-clear size at (m ∷ ms) (link a b c d rest) =
    ((λ s. omega arith), inside-clear size m.finish ms rest)

-- From a position on, what the whole text holds is redacted.
pub redact_complete_from-redacted :
    (u : Unicode) (text : Text) (start : ℕ) (stats : Stats) (placeholder : Text)
    → start ≤ length text
    → (redact_complete_from u text start stats placeholder).0
      ≡ redacted u placeholder (previous text start) 0 (drop start text)
unfolding redact_complete_from redacted
redact_complete_from-redacted u text start stats placeholder h =
    let rest = redacted_from u placeholder text [] in
    let nothing : rest (length text) ≡ [] =
      ap (λ s. redacted u placeholder (previous text (length text)) 0 (s ++ []))
        (drop-all text (length text) (omega arith)) in
    let put = (redact_complete_from u text start stats placeholder).0 in
    sym (append-nil put)
    ∙ ap (λ (t : Text). put ++ t) (sym nothing)
    ∙ redact_range-redacted u placeholder text [] start (length text) stats h (omega arith)
        (inside-clear (length text) start _ (iter_matches-Chain u text start h).1)
        (λ j from to. ap (accepted_at u (previous text j)) (append-nil (drop j text)))
    ∙ ap (redacted u placeholder (previous text start) 0) (append-nil (drop start text))

-- The one-shot redaction, with its searches and restarts, puts out what the reference says: the
-- text read from left to right, where each position that holds a match is replaced with the
-- placeholder together with the rest of the match, and every other character is copied.
pub redact_complete-redacted :
    (u : Unicode) (text : Text) (stats : Stats) (placeholder : Text)
    → (redact_complete u text stats placeholder).0 ≡ redacted u placeholder none 0 text
unfolding redact_complete previous
redact_complete-redacted u text stats placeholder =
    redact_complete_from-redacted u text 0 stats placeholder (omega arith)
