-- ===== src/Redactor/Emit.antt =====
-- What task3_streaming_guardrail/redactor.py emits, and what it holds back.
use mcp_llm_gateway_suite.Base.{
  ℕ, ◌+◌, ◌-◌, Bool, true, false, ◌&&◌, List, [], ◌∷◌, ◌++◌, ltb, ◌==◌, if◌then◌else◌, length, take,
  drop, all_of, min, max,
}
use mcp_llm_gateway_suite.Base.Text.{Text}
use mcp_llm_gateway_suite.Regex.{Unicode}
use mcp_llm_gateway_suite.Redactor.Patterns.{
  Label, email, api_key, credit_card, ssn, phone, tail_token_char, tail_digits_first,
  tail_digits_char,
}
use mcp_llm_gateway_suite.Redactor.Scan.{Match, iter_matches}

-- `RedactionStats`; `redactions` holds its labels in the order of their first redaction.
pub record Stats : Type 0 where
  pub chunks_in : ℕ
  pub characters_in : ℕ
  pub characters_out : ℕ
  pub redactions : List (Label × ℕ)
  pub max_buffer : ℕ

unfoldable pub same_label : Label → Label → Bool
same_label email email = true
same_label api_key api_key = true
same_label credit_card credit_card = true
same_label ssn ssn = true
same_label phone phone = true
same_label _ _ = false

-- `d[label] = d.get(label, 0) + 1`
unfoldable pub bump : Label → List (Label × ℕ) → List (Label × ℕ)
unfolding same_label
bump l [] = (l, 1) ∷ []
bump l ((k, n) ∷ d) = if same_label k l then (k, n + 1) ∷ d else (k, n) ∷ bump l d

-- `RedactionStats.record`
unfoldable pub record_label : Label → Stats → Stats
unfolding bump
record_label l s = record s { redactions = bump l s.redactions }

unfoldable pub sum_counts : List (Label × ℕ) → ℕ
sum_counts [] = 0
sum_counts ((l, n) ∷ d) = n + sum_counts d

unfoldable pub total_redactions : Stats → ℕ
unfolding sum_counts
total_redactions s = sum_counts s.redactions

-- `text[a:b]` for positions
unfoldable pub slice : ℕ → ℕ → Text → Text
slice a b text = take (b - a) (drop a text)

-- The loop of `redact_range` over the matches that are left.
unfoldable pub redact_loop : Text → ℕ → Text → List Match → ℕ → Stats → Text × Stats
unfolding slice record_label
redact_loop text end placeholder [] cursor stats = (slice cursor end text, stats)
redact_loop text end placeholder (m ∷ ms) cursor stats =
    let (rest, stats') =
      redact_loop text end placeholder ms m.finish (record_label m.label stats) in
    if ltb end m.finish
    then (slice cursor end text, stats)
    else (slice cursor m.start text ++ (placeholder ++ rest), stats')

unfoldable pub redact_range : Text → ℕ → ℕ → Stats → Text → List Match → Text × Stats
unfolding redact_loop
redact_range text start end stats placeholder matches =
    redact_loop text end placeholder matches start stats

unfoldable pub redact_complete_from : Unicode → Text → ℕ → Stats → Text → Text × Stats
unfolding redact_range iter_matches
redact_complete_from u text start stats placeholder =
    redact_range text start (length text) stats placeholder (iter_matches u text start)

unfoldable pub redact_complete : Unicode → Text → Stats → Text → Text × Stats
unfolding redact_complete_from
redact_complete u text stats placeholder = redact_complete_from u text 0 stats placeholder

-- The loop of `pull_back_behind_straddling_match`.
unfoldable pub pull_loop : List Match → ℕ → ℕ
pull_loop [] split = split
pull_loop (m ∷ ms) split =
    pull_loop ms (if ltb m.start split && ltb split m.finish then m.start else split)

unfoldable pub pull_back : ℕ → ℕ → List Match → ℕ
unfolding pull_loop
pull_back split offset matches = max (pull_loop matches split) offset

-- The length of what `TAIL_TOKEN` finds: the leftmost run of the class that reaches the end.
unfoldable pub tail_token : Text → ℕ
unfolding tail_token_char
tail_token [] = 0
tail_token (c ∷ s) = if all_of tail_token_char (c ∷ s) then length (c ∷ s) else tail_token s

-- The length of what `TAIL_DIGITS` finds.
unfoldable pub tail_digits : Unicode → Text → ℕ
unfolding tail_digits_first tail_digits_char
tail_digits u [] = 0
tail_digits u (c ∷ s) =
    if tail_digits_first u c && all_of (tail_digits_char u) s
    then length (c ∷ s)
    else tail_digits u s

-- `text[-n:]`, which for 0 is the whole text.
unfoldable pub last_characters : ℕ → Text → Text
last_characters n text = if n == 0 then text else drop (length text - n) text

unfoldable pub holdback : Unicode → Text → ℕ → ℕ
unfolding tail_token tail_digits last_characters
holdback u buffer max_holdback =
    let window = last_characters max_holdback buffer in
    if length buffer == 0
    then 0
    else min (max (tail_token window) (tail_digits u window)) max_holdback
