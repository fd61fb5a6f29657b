-- ===== src/Redactor/Tails.antt =====
-- What task3_streaming_guardrail/redactor.py does not hold back: in front of a position that it lets
-- go there is, in reach, a character at which every pattern stops.
use mcp_llm_gateway_suite.Base.{
  ℕ, ◌-◌, ◌≤◌, ◌<◌, ◌≡◌, ◌⊎◌, inl, inr, Bool, true, false, ◌&&◌, [], ◌∷◌, ◌++◌, length, drop,
  all_of, arith, Bool-cases, length-append, drop-append, leb, ◌==◌,
}
use mcp_llm_gateway_suite.Base.Text.{Text}
use mcp_llm_gateway_suite.Regex.{Unicode}
use mcp_llm_gateway_suite.Redactor.Patterns.{tail_token_char, tail_digits_first, tail_digits_char}
use mcp_llm_gateway_suite.Redactor.Emit.{tail_token, tail_digits, last_characters, holdback}

tail_token-append : (w s : Text) → all_of tail_token_char s ≡ true → length s ≤ tail_token (w ++ s)
unfolding tail_token
tail_token-append [] [] h = omega arith
tail_token-append [] (c ∷ s) h = rw h (omega arith)
tail_token-append (c ∷ w) s h = ground (arith, tail_token-append w s h, length-append w s)

-- The position is where a digits' tail may start, and it goes on to the end.
unfoldable pub is_digits_tail : Unicode → Text → Bool
is_digits_tail u [] = false
is_digits_tail u (c ∷ s) = tail_digits_first u c && all_of (tail_digits_char u) s

tail_digits-append :
    (u : Unicode) (w s : Text) → is_digits_tail u s ≡ true → length s ≤ tail_digits u (w ++ s)
unfolding tail_digits is_digits_tail
tail_digits-append u [] [] h = cc
tail_digits-append u [] (c ∷ s) h = rw h (omega arith)
tail_digits-append u (c ∷ w) s h = ground (arith, tail_digits-append u w s h, length-append w s)

last_characters-split :
    (n : ℕ) (w s : Text)
    → 0 < n
    → length s ≤ n
    → last_characters n (w ++ s) ≡ drop (length (w ++ s) - n) w ++ s
unfolding last_characters
last_characters-split n w s h le =
    let positive : (n == 0) ≡ false = ground arith in
    rw positive (drop-append (length (w ++ s) - n) w s (omega (arith, length-append w s)))

-- A tail that is no longer than the setting is held back whole.
module _ (u : Unicode) (w s : Text) (n : ℕ) (small : length s ≤ n) (positive : 0 < n) where
  holdback-token : all_of tail_token_char s ≡ true → length s ≤ holdback u (w ++ s) n
  unfolding holdback
  holdback-token h =
      let window = drop (length (w ++ s) - n) w in
      let same = last_characters-split n w s positive small in
      let tail = tail_token-append window s h in rw same (ground (arith, tail, length-append w s))

  holdback-digits : is_digits_tail u s ≡ true → length s ≤ holdback u (w ++ s) n
  unfolding holdback
  holdback-digits h =
      let window = drop (length (w ++ s) - n) w in
      let same = last_characters-split n w s positive small in
      let tail = tail_digits-append u window s h in
      rw same (ground (arith, tail, length-append w s))

-- What is not held back is longer than the setting, or neither tail.
pub let_go :
    (u : Unicode) (w s : Text) (n : ℕ)
    → 0 < n
    → holdback u (w ++ s) n < length s
    → (n < length s) ⊎ ((all_of tail_token_char s ≡ false) × (is_digits_tail u s ≡ false))
let_go u w s n positive h = elim (Bool-cases (leb (length s) n)) [
  | inr long ↦ inl (ground arith)
  | inl short ↦ inr (
    (elim (Bool-cases (all_of tail_token_char s)) [
      | inl tail ↦ absurd (omega (arith, holdback-token u w s n (ground arith) positive tail))
      | inr free ↦ free
    ]),
    (elim (Bool-cases (is_digits_tail u s)) [
      | inl tail ↦ absurd (omega (arith, holdback-digits u w s n (ground arith) positive tail))
      | inr free ↦ free
    ]),
  )
]
