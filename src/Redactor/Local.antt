-- ===== src/Redactor/Local.antt =====
-- How far the patterns of task3_streaming_guardrail/redactor.py look ahead: to the end of the run of
-- characters that the tail rules know, and never beyond the longest match.
use mcp_llm_gateway_suite.Base.{ℕ, ◌≤◌, ◌≡◌, refl, Bool, true, [], ◌∷◌, all_of, arith}
use mcp_llm_gateway_suite.Base.Text.{Text, codes}
use mcp_llm_gateway_suite.Regex.{Unicode, literal, any_of}
use mcp_llm_gateway_suite.Regex.Local.{reach, Within}
use mcp_llm_gateway_suite.Redactor.Patterns.{
  Label, email, api_key, credit_card, ssn, phone, alphanumeric, digit_char, digit_or_dash,
  pattern_of, tail_token_char, tail_digits_char,
}
use mcp_llm_gateway_suite.Redactor.Matches.{longest}

pub pattern_of-reach : (u : Unicode) (l : Label) → reach (pattern_of u l) ≤ longest
unfolding pattern_of literal
pattern_of-reach u email = omega arith
pattern_of-reach u api_key = omega arith
pattern_of-reach u credit_card = omega arith
pattern_of-reach u ssn = omega arith
pattern_of-reach u phone = omega arith

literal-Within :
    (class : ℕ → Bool) (c : ℕ) (s : Text) → all_of class (c ∷ s) ≡ true → Within class (literal c s)
unfolding literal
literal-Within class c [] h = λ d e. let same : d ≡ c = ground arith in rw same (ground arith)
literal-Within class c (c' ∷ s) h = (
  (λ d e. let same : d ≡ c = ground arith in rw same (ground arith)),
  literal-Within class c' s (ground arith),
)

pub email-Within : (u : Unicode) → Within tail_token_char (pattern_of u email)
unfolding pattern_of tail_token_char any_of alphanumeric
email-Within u = (
  (λ c h. ground arith),
  (
    literal-Within tail_token_char b'@' [] refl,
    ((λ c h. ground arith), (literal-Within tail_token_char b'.' [] refl, (λ c h. ground arith))),
  ),
)

pub api_key-Within : (u : Unicode) → Within tail_token_char (pattern_of u api_key)
unfolding pattern_of tail_token_char any_of alphanumeric
api_key-Within u =
    let word = literal-Within tail_token_char in
    (
      tt,
      (
        (word b's' (codes "k") refl, (word b'p' (codes "k") refl, word b'r' (codes "k") refl)),
        (
          word b'-' [] refl,
          (
            (
              word b'l' (codes "ive") refl,
              (
                word b't' (codes "est") refl,
                (word b'p' (codes "roj") refl, word b'a' (codes "nt") refl),
              ),
            ),
            (word b'-' [] refl, ((λ c h. ground arith), tt)),
          ),
        ),
      ),
    )

-- `[ -]` and what the fences look for, for the class of the digits' tail.
module _ (u : Unicode) where
  pub separator-Within : (c : ℕ) → any_of (codes " -") c ≡ true → tail_digits_char u c ≡ true
  unfolding tail_digits_char any_of
  separator-Within c h = ground arith

  pub fence-Within : (c : ℕ) → digit_or_dash u c ≡ true → tail_digits_char u c ≡ true
  unfolding tail_digits_char any_of digit_or_dash
  fence-Within c h = ground arith

  pub decimal-Within : (c : ℕ) → u.is_decimal c ≡ true → tail_digits_char u c ≡ true
  unfolding tail_digits_char
  decimal-Within c h = ground arith

  pub credit_card-Within : Within (tail_digits_char u) (pattern_of u credit_card)
  unfolding pattern_of
  credit_card-Within = (tt, ((decimal-Within, separator-Within), (decimal-Within, fence-Within)))

  -- `re` takes the digits of ASCII for decimal digits.
  abbrev pub KnowsAscii : Type 0
  KnowsAscii = (c : ℕ) → digit_char c ≡ true → u.is_decimal c ≡ true

  module _ (knows : KnowsAscii) where
    pub digits-Within :
        (c : ℕ) (s : Text)
        → all_of digit_char (c ∷ s) ≡ true
        → Within (tail_digits_char u) (literal c s)
    digits-Within c s h = literal-Within (tail_digits_char u) c s (digits c s h)
      where
        digits :
            (c : ℕ) (s : Text)
            → all_of digit_char (c ∷ s) ≡ true
            → all_of (tail_digits_char u) (c ∷ s) ≡ true
        digits c [] h = let d = decimal-Within c (knows c (ground arith)) in ground arith
        digits c (c' ∷ s) h =
            let d = decimal-Within c (knows c (ground arith)) in
            let rest = digits c' s (ground arith) in ground arith

    pub ssn-Within : Within (tail_digits_char u) (pattern_of u ssn)
    unfolding pattern_of digit_char
    ssn-Within = (
      tt,
      (
        (
          digits-Within b'0' (codes "00") refl,
          (
            digits-Within b'6' (codes "66") refl,
            (digits-Within b'9' [] refl, (decimal-Within, decimal-Within)),
          ),
        ),
        (
          decimal-Within,
          (
            separator-Within,
            (
              digits-Within b'0' (codes "0") refl,
              (
                decimal-Within,
                (
                  separator-Within,
                  (digits-Within b'0' (codes "000") refl, (decimal-Within, fence-Within)),
                ),
              ),
            ),
          ),
        ),
      ),
    )
