-- ===== src/Redactor/Settled.antt =====
-- What task3_streaming_guardrail/redactor.py lets go is settled: whatever comes behind the text at
-- hand, a position in front of what is held back holds what it holds now.
use mcp_llm_gateway_suite.Base.{
  ℕ, zero, suc, ◌≤◌, ◌≡◌, refl, ◌∙◌, sym, ap, ◌⊎◌, inl, inr, true, false, Option, some, List, [],
  ◌∷◌, ◌++◌, length, take, all_of, arith, Bool-cases, Option-cases,
}
use mcp_llm_gateway_suite.Base.Text.{Text}
use mcp_llm_gateway_suite.Regex.{
  Unicode, Regex, chars, seq, alt, opt, repeat, not_ahead, not_behind, boundary, match_length,
  literal, any_of,
}
use mcp_llm_gateway_suite.Regex.Local.{
  Within, Agree, match_length-Agree, Agree-all_of, Agree-length,
}
use mcp_llm_gateway_suite.Regex.Starts.{
  Starts, by_chars, by_left, by_opt, by_behind, by_ahead, by_repeat, match_length-Starts,
  match_length-head,
}
use mcp_llm_gateway_suite.Redactor.Patterns.{
  Label, email, api_key, credit_card, ssn, phone, labels, pattern_of, tail_token_char,
  tail_digits_first, tail_digits_char,
}
use mcp_llm_gateway_suite.Redactor.Scan.{match_at}
use mcp_llm_gateway_suite.Redactor.Matches.{longest, match_at_bounds}
use mcp_llm_gateway_suite.Redactor.Reference.{accept, accepted_none, accepted_of, accepted_at}
use mcp_llm_gateway_suite.Redactor.Local.{
  pattern_of-reach, email-Within, api_key-Within, credit_card-Within, ssn-Within, KnowsAscii,
  separator-Within, fence-Within, decimal-Within, digits-Within,
}
use mcp_llm_gateway_suite.Redactor.Tails.{is_digits_tail}

Within-any : (r : Regex) → Within (λ _. true) r
Within-any (chars p) = λ c h. refl
Within-any (seq a b) = (Within-any a, Within-any b)
Within-any (alt a b) = (Within-any a, Within-any b)
Within-any (opt a) = Within-any a
Within-any (repeat a m e) = Within-any a
Within-any (not_ahead a) = Within-any a
Within-any (not_behind p) = tt
Within-any boundary = tt

module _ (u : Unicode) where
  credit_card-Starts : Starts (tail_digits_first u) (pattern_of u credit_card)
  unfolding pattern_of tail_digits_first
  credit_card-Starts = by_behind (by_left (by_repeat (by_left (by_chars (λ c h. ground arith)))))

  ssn-Starts : Starts (tail_digits_first u) (pattern_of u ssn)
  unfolding pattern_of tail_digits_first
  ssn-Starts = by_behind (by_ahead (by_left (by_repeat (by_chars (λ c h. ground arith)))))

  phone-Starts : Starts (tail_digits_first u) (pattern_of u phone)
  unfolding pattern_of tail_digits_first any_of literal
  phone-Starts = by_behind (
      by_opt (by_left (by_left (by_chars (λ c h. ground arith)))) (
        by_opt (by_chars (λ c h. ground arith))
          (by_left (by_repeat (by_chars (λ c h. ground arith))))))

  -- A "+" is no character of the tail's class but may start a phone number.
  phone-head :
      (prev : Option ℕ) (c : ℕ) (s t : Text) (d : ℕ)
      → KnowsAscii u
      → longest ≤ d
      → Agree (tail_digits_char u) d s t
      → match_length u (pattern_of u phone) prev (c ∷ s)
        ≡ match_length u (pattern_of u phone) prev (c ∷ t)
  unfolding pattern_of tail_digits_char any_of literal
  phone-head prev c s t d knows le agree =
      match_length-head u (tail_digits_char u) _ _ _ _ _ prev c s t d
        (
          digits-Within u knows b'1' [] refl,
          separator-Within u,
          (
            (λ c h. ground arith),
            (
              decimal-Within u,
              (
                (λ c h. ground arith),
                (
                  separator-Within u,
                  (decimal-Within u, (separator-Within u, (decimal-Within u, fence-Within u))),
                ),
              ),
            ),
          ),
        )
        (omega arith) agree

-- Two texts with one head: neither starts a match of a digits' pattern, or both are as good.
module _ (u : Unicode) (knows : KnowsAscii u) (prev : Option ℕ) (c : ℕ) (s more : Text) where
  not_first :
      (l : Label)
      → Starts (tail_digits_first u) (pattern_of u l)
      → tail_digits_first u c ≡ false
      → match_length u (pattern_of u l) prev (c ∷ s)
        ≡ match_length u (pattern_of u l) prev (c ∷ s ++ more)
  not_first l starts out =
      match_length-Starts u (tail_digits_first u) (pattern_of u l) prev (c ∷ s) starts out
      ∙ sym (
          match_length-Starts u (tail_digits_first u) (pattern_of u l) prev (c ∷ (s ++ more)) starts
            out)

  agrees :
      all_of (tail_digits_char u) s ≡ false
      → Agree (tail_digits_char u) longest (c ∷ s) ((c ∷ s) ++ more)
  agrees loose = Agree-all_of (tail_digits_char u) longest (c ∷ s) more (ground arith)

  digits-settled :
      (l : Label)
      → Starts (tail_digits_first u) (pattern_of u l)
      → Within (tail_digits_char u) (pattern_of u l)
      → is_digits_tail u (c ∷ s) ≡ false
      → match_length u (pattern_of u l) prev (c ∷ s)
        ≡ match_length u (pattern_of u l) prev (c ∷ s ++ more)
  unfolding is_digits_tail
  digits-settled l starts within loose = elim (Bool-cases (tail_digits_first u c)) [
    | inr out ↦ not_first l starts out
    | inl first ↦
        match_length-Agree u (tail_digits_char u) (pattern_of u l) prev (c ∷ s) ((c ∷ s) ++ more)
          longest within (pattern_of-reach u l) (agrees (ground arith))
  ]

  phone-settled :
      is_digits_tail u (c ∷ s) ≡ false
      → match_length u (pattern_of u phone) prev (c ∷ s)
        ≡ match_length u (pattern_of u phone) prev (c ∷ s ++ more)
  unfolding is_digits_tail
  phone-settled loose = elim (Bool-cases (tail_digits_first u c)) [
    | inr out ↦ not_first phone (phone-Starts u) out
    | inl first ↦
        phone-head u prev c s (s ++ more) longest knows (omega arith)
          (Agree-all_of (tail_digits_char u) longest s more (ground arith))
  ]

module _ (u : Unicode) (knows : KnowsAscii u) (prev : Option ℕ) (s more : Text) where
  -- What lies in front of what is held back: long, or the end of neither tail.
  abbrev pub IsLoose : Type 0
  IsLoose =
      (longest ≤ length s) ⊎ ((all_of tail_token_char s ≡ false) × (is_digits_tail u s ≡ false))

  long-settled :
      (l : Label)
      → longest ≤ length s
      → match_length u (pattern_of u l) prev s ≡ match_length u (pattern_of u l) prev (s ++ more)
  long-settled l h =
      match_length-Agree u (λ _. true) (pattern_of u l) prev s (s ++ more) longest
        (Within-any (pattern_of u l)) (pattern_of-reach u l)
        (Agree-length (λ _. true) longest s more h)

  token-settled :
      (l : Label)
      → Within tail_token_char (pattern_of u l)
      → all_of tail_token_char s ≡ false
      → match_length u (pattern_of u l) prev s ≡ match_length u (pattern_of u l) prev (s ++ more)
  token-settled l within loose =
      match_length-Agree u tail_token_char (pattern_of u l) prev s (s ++ more) longest within
        (pattern_of-reach u l) (Agree-all_of tail_token_char longest s more loose)

pattern_settled :
    (u : Unicode) (knows : KnowsAscii u) (prev : Option ℕ) (s more : Text) (l : Label)
    → (all_of tail_token_char s ≡ false) × (is_digits_tail u s ≡ false)
    → match_length u (pattern_of u l) prev s ≡ match_length u (pattern_of u l) prev (s ++ more)
pattern_settled u knows prev [] more l (t, d) = absurd cc
pattern_settled u knows prev (c ∷ s) more email (t, d) =
    token-settled u knows prev (c ∷ s) more email (email-Within u) t
pattern_settled u knows prev (c ∷ s) more api_key (t, d) =
    token-settled u knows prev (c ∷ s) more api_key (api_key-Within u) t
pattern_settled u knows prev (c ∷ s) more credit_card (t, d) =
    digits-settled u knows prev c s more credit_card (credit_card-Starts u) (credit_card-Within u) d
pattern_settled u knows prev (c ∷ s) more ssn (t, d) =
    digits-settled u knows prev c s more ssn (ssn-Starts u) (ssn-Within u knows) d
pattern_settled u knows prev (c ∷ s) more phone (t, d) = phone-settled u knows prev c s more d

take-append : (n : ℕ) (s t : Text) → n ≤ length s → take n (s ++ t) ≡ take n s
take-append zero s t h = refl
take-append (suc n) [] t h = absurd (omega arith)
take-append (suc n) (c ∷ s) t h = ap (λ (r : Text). c ∷ r) (take-append n s t (omega arith))

accept-append :
    (u : Unicode) (s t : Text) (l : Label) (n : ℕ)
    → n ≤ length s
    → accept u (s ++ t) (some (l, n)) ≡ accept u s (some (l, n))
unfolding accept
accept-append u s t l n h = rw (take-append n s t h)

module _ (u : Unicode) (knows : KnowsAscii u) (prev : Option ℕ) (s more : Text)
    (loose : IsLoose u knows prev s more) where
  match_at-settled : (ls : List Label) → match_at u ls prev s ≡ match_at u ls prev (s ++ more)
  unfolding match_at
  match_at-settled [] = refl
  match_at-settled (l ∷ ls) =
      let same : match_length u (pattern_of u l) prev s
          ≡ match_length u (pattern_of u l) prev (s ++ more) =
        elim loose [
          | inl long ↦ long-settled u knows prev s more l long
          | inr ends ↦ pattern_settled u knows prev s more l ends
        ] in
      ground (arith, same, match_at-settled ls)

  -- Whatever comes behind, the position holds what it holds now.
  pub accepted_at-settled : accepted_at u prev (s ++ more) ≡ accepted_at u prev s
  accepted_at-settled = elim (Option-cases (match_at u labels prev s)) [
    | inl free ↦
        accepted_none u prev (s ++ more) (sym (match_at-settled labels) ∙ free)
        ∙ sym (accepted_none u prev s free)
    | inr ((l, n), matches) ↦
        accepted_of u prev (s ++ more) (some (l, n)) (sym (match_at-settled labels) ∙ matches)
        ∙ accept-append u s more l n (omega (arith, match_at_bounds u labels prev s l n matches))
        ∙ sym (accepted_of u prev s (some (l, n)) matches)
  ]
