-- ===== src/Redactor/Patterns.antt =====
-- `PATTERNS` and the tail rules of task3_streaming_guardrail/redactor.py.
use mcp_llm_gateway_suite.Base.{ℕ, Bool, ◌&&◌, ◌||◌, List, [], ◌∷◌, leb, ◌==◌}
use mcp_llm_gateway_suite.Base.Text.{codes}
use mcp_llm_gateway_suite.Regex.{
  Unicode, Regex, chars, seq, alt, opt, repeat, not_ahead, not_behind, boundary, literal, any_of,
}

pub data Label : Type 0 where
  email api_key credit_card ssn phone : Label

-- `[A-Z]`, `[a-z]`, `[0-9]`
unfoldable pub upper_letter : ℕ → Bool
upper_letter c = leb b'A' c && leb c b'Z'

unfoldable pub lower_letter : ℕ → Bool
lower_letter c = leb b'a' c && leb c b'z'

unfoldable pub digit_char : ℕ → Bool
digit_char c = leb b'0' c && leb c b'9'

-- `[A-Za-z0-9]`
unfoldable pub alphanumeric : ℕ → Bool
unfolding upper_letter lower_letter digit_char
alphanumeric c = upper_letter c || lower_letter c || digit_char c

-- `(?![\d\-])` and `(?<![\d\-])` fence this class.
unfoldable pub digit_or_dash : Unicode → ℕ → Bool
digit_or_dash u c = u.is_decimal c || c == b'-'

email_pattern : Regex
unfolding alphanumeric any_of upper_letter lower_letter
email_pattern = seq (repeat (chars (λ c. alphanumeric c || any_of (codes "._%+-") c)) 1 63) (
    seq (literal b'@' []) (
      seq (repeat (chars (λ c. alphanumeric c || any_of (codes ".-") c)) 1 254)
        (seq (literal b'.' []) (repeat (chars (λ c. upper_letter c || lower_letter c)) 2 22))))

api_key_pattern : Regex
unfolding alphanumeric literal
api_key_pattern = seq boundary (
    seq (alt (literal b's' (codes "k")) (alt (literal b'p' (codes "k")) (literal b'r' (codes "k"))))
      (seq (literal b'-' []) (
        seq
          (opt (
            alt (literal b'l' (codes "ive")) (
              alt (literal b't' (codes "est"))
                (alt (literal b'p' (codes "roj")) (literal b'a' (codes "nt"))))))
          (seq (opt (literal b'-' [])) (seq (repeat (chars alphanumeric) 16 48) boundary)))))

space_or_dash : Regex
unfolding any_of
space_or_dash = chars (any_of (codes " -"))

credit_card_pattern : Unicode → Regex
unfolding space_or_dash digit_or_dash
credit_card_pattern u = seq (not_behind (digit_or_dash u)) (
    seq (repeat (seq (chars u.is_decimal) (opt space_or_dash)) 12 6)
      (seq (chars u.is_decimal) (not_ahead (chars (digit_or_dash u)))))

ssn_pattern : Unicode → Regex
unfolding space_or_dash digit_or_dash literal
ssn_pattern u = seq (not_behind (digit_or_dash u)) (
    seq
      (not_ahead (
        alt (literal b'0' (codes "00")) (
          alt (literal b'6' (codes "66"))
            (seq (literal b'9' []) (seq (chars u.is_decimal) (chars u.is_decimal))))))
      (seq (repeat (chars u.is_decimal) 3 0) (
        seq (opt space_or_dash) (
          seq (not_ahead (literal b'0' (codes "0"))) (
            seq (repeat (chars u.is_decimal) 2 0) (
              seq (opt space_or_dash) (
                seq (not_ahead (literal b'0' (codes "000"))) (
                  seq (repeat (chars u.is_decimal) 4 0)
                    (not_ahead (chars (digit_or_dash u)))))))))))

phone_pattern : Unicode → Regex
unfolding space_or_dash digit_or_dash literal
phone_pattern u = seq (not_behind (digit_or_dash u)) (
    seq (opt (seq (literal b'+' (codes "1")) (opt space_or_dash))) (
      seq (opt (literal b'(' [])) (
        seq (repeat (chars u.is_decimal) 3 0) (
          seq (opt (literal b')' [])) (
            seq space_or_dash (
              seq (repeat (chars u.is_decimal) 3 0) (
                seq space_or_dash (
                  seq (repeat (chars u.is_decimal) 4 0)
                    (not_ahead (chars (digit_or_dash u)))))))))))

unfoldable pub pattern_of : Unicode → Label → Regex
unfolding email_pattern api_key_pattern credit_card_pattern ssn_pattern phone_pattern
pattern_of u email = email_pattern
pattern_of u api_key = api_key_pattern
pattern_of u credit_card = credit_card_pattern u
pattern_of u ssn = ssn_pattern u
pattern_of u phone = phone_pattern u

-- The order of the alternatives of `COMBINED`.
unfoldable pub labels : List Label
labels = email ∷ api_key ∷ credit_card ∷ ssn ∷ phone ∷ []

-- `[A-Za-z0-9@._%+\-]` of `TAIL_TOKEN`
unfoldable pub tail_token_char : ℕ → Bool
unfolding alphanumeric any_of
tail_token_char c = alphanumeric c || any_of (codes "@._%+-") c

-- The first character that `TAIL_DIGITS` may match, `[+(]` or `\d`.
unfoldable pub tail_digits_first : Unicode → ℕ → Bool
unfolding any_of
tail_digits_first u c = any_of (codes "+(") c || u.is_decimal c

-- `[\d ()\-]` of `TAIL_DIGITS`
unfoldable pub tail_digits_char : Unicode → ℕ → Bool
unfolding any_of
tail_digits_char u c = u.is_decimal c || any_of (codes " ()-") c
