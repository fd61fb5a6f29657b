-- ===== src/Redactor/Scan.antt =====
-- The scan for matches of task3_streaming_guardrail/redactor.py.
use mcp_llm_gateway_suite.Base.{
  ℕ, zero, suc, ◌+◌, ◌-◌, ◌*◌, ◌%◌, Bool, true, false, ◌&&◌, not, Option, none, some, List, [], ◌∷◌,
  leb, ltb, ◌==◌, if◌then◌else◌, length, take, drop, keep_if,
}
use mathlib.Core.List.{reverse}
use mcp_llm_gateway_suite.Base.Text.{Text}
use mcp_llm_gateway_suite.Regex.{Unicode, match_length}
use mcp_llm_gateway_suite.Redactor.Patterns.{Label, credit_card, pattern_of, labels}

-- `lastgroup`, `start()` and `end()` of a match.
pub record Match : Type 0 where
  pub label : Label
  pub start : ℕ
  pub finish : ℕ

-- The loop of `luhn_ok` over the reversed digits; `doubled` is `index % 2 == 1`.
unfoldable pub luhn_sum : Unicode → Bool → Text → ℕ
luhn_sum u doubled [] = 0
luhn_sum u doubled (c ∷ s) =
    let value = u.int_value c in
    (if doubled then if ltb 9 (value * 2) then value * 2 - 9 else value * 2 else value)
    + luhn_sum u (not doubled) s

unfoldable pub luhn_ok : Unicode → Text → Bool
unfolding luhn_sum
luhn_ok u digits = luhn_sum u false (reverse digits) % 10 == 0

unfoldable pub is_card : Unicode → Text → Bool
unfolding luhn_ok
is_card u value =
    let digits = keep_if u.is_digit value in
    leb 13 (length digits) && leb (length digits) 19 && luhn_ok u digits

-- The first alternative that matches at a position.
unfoldable pub match_at : Unicode → List Label → Option ℕ → Text → Option (Label × ℕ)
match_at u [] prev s = none
match_at u (l ∷ ls) prev s = elim (match_length u (pattern_of u l) prev s) [
  | some n ↦ some (l, n)
  | none ↦ match_at u ls prev s
]

-- The leftmost match in what is left of a text, from the position `at` on.
unfoldable pub search_from : Unicode → Option ℕ → Text → ℕ → Option Match
unfolding match_at labels
search_from u prev [] at = elim (match_at u labels prev []) [
  | some (l, n) ↦ some (record { label = l; start = at; finish = at + n })
  | none ↦ none
]
search_from u prev (c ∷ s) at = elim (match_at u labels prev (c ∷ s)) [
  | some (l, n) ↦ some (record { label = l; start = at; finish = at + n })
  | none ↦ search_from u (some c) s (suc at)
]

-- The character before a position.
unfoldable pub previous : Text → ℕ → Option ℕ
previous s zero = none
previous [] (suc n) = none
previous (c ∷ s) (suc zero) = some c
previous (c ∷ s) (suc (suc n)) = previous s (suc n)

-- `COMBINED.search(text, pos)`: what is fenced looks behind `pos`.
unfoldable pub search : Unicode → Text → ℕ → Option Match
unfolding search_from previous
search u text at = search_from u (previous text at) (drop at text) at

unfoldable pub is_label_card : Label → Bool
is_label_card credit_card = true
is_label_card _ = false

-- A card by its pattern that is none by its digits.
unfoldable pub rejects : Unicode → Text → Match → Bool
unfolding is_label_card is_card
rejects u text m =
    is_label_card m.label && not (is_card u (take (m.finish - m.start) (drop m.start text)))

-- The `while True` of `iter_matches`, `none` if the fuel runs out.
unfoldable pub iter_loop : Unicode → Text → ℕ → ℕ → Option (List Match)
iter_loop u text zero pos = none
iter_loop u text (suc fuel) pos = elim (search u text pos) [
  | none ↦ some []
  | some m ↦ elim (rejects u text m) [
    | true ↦ iter_loop u text fuel (m.start + 1)
    | false ↦ elim (iter_loop u text fuel m.finish) [ none ↦ none | some ms ↦ some (m ∷ ms) ]
  ]
]

-- Every round moves on by a character at least, so the length of the text is fuel enough.
unfoldable pub iter_matches : Unicode → Text → ℕ → List Match
iter_matches u text start = elim (iter_loop u text (suc (suc (length text))) start) [
  | some ms ↦ ms
  | none ↦ []
]
