-- ===== src/Redactor/Emitted.antt =====
-- What task3_streaming_guardrail/redactor.py emits for a range against the reference, also when
-- more text is to come behind the one that is at hand.
use mcp_llm_gateway_suite.Base.{
  ℕ, zero, suc, ◌+◌, ◌-◌, ◌≤◌, ◌<◌, ◌≡◌, refl, ◌∙◌, sym, ap, subst, true, false, Option, none, some,
  List, [], ◌∷◌, ◌++◌, length, take, drop, All, ltb, arith, inl, inr, Bool-cases, Option-cases,
  drop-drop,
}
use mathlib.Core.List.{append_assoc}
use mcp_llm_gateway_suite.Base.Text.{Text}
use mcp_llm_gateway_suite.Regex.{Unicode}
use mcp_llm_gateway_suite.Redactor.Patterns.{Label}
use mcp_llm_gateway_suite.Redactor.Scan.{Match, previous, iter_matches}
use mcp_llm_gateway_suite.Redactor.Emit.{Stats, slice, redact_loop, redact_range, record_label}
use mcp_llm_gateway_suite.Redactor.Matches.{Chain, link, iter_matches-Chain}
use mcp_llm_gateway_suite.Redactor.Guard.{Straddles}
use mcp_llm_gateway_suite.Redactor.Reference.{
  accepted_at, redacted, IsNext, drop-IsNext, redacted-none, redacted-some,
}
use mcp_llm_gateway_suite.Redactor.Positions.{
  accepted_at_bounds, scan_from, holds, scan_from-none, scan_from-some, iter_matches-scan,
}

take-suc :
    (n : ℕ) (xs : Text) (c : ℕ) (s : Text)
    → drop n xs ≡ c ∷ s
    → take (suc n) xs ≡ take n xs ++ c ∷ []
take-suc zero [] c s h = absurd cc
take-suc zero (x ∷ xs) c s h = ap (λ (d : ℕ). d ∷ []) cc
take-suc (suc n) [] c s h = absurd cc
take-suc (suc n) (x ∷ xs) c s h = ap (λ (t : Text). x ∷ t) (take-suc n xs c s h)

slice-suc :
    (text : Text) (a i c : ℕ)
    → a ≤ i
    → IsNext text i c
    → slice a (suc i) text ≡ slice a i text ++ c ∷ []
unfolding slice
slice-suc text a i c h n =
    let z : suc i - a ≡ suc (i - a) = omega arith in
    let there : a + (i - a) ≡ i = omega arith in
    rw z (
      take-suc (i - a) (drop a text) c (drop (suc i) text)
        (drop-drop (i - a) a text ∙ ap (λ (j : ℕ). drop j text) there ∙ n.here))

slice-empty : (text : Text) (a : ℕ) → slice a a text ≡ []
unfolding slice
slice-empty text a = let z : a - a ≡ 0 = omega arith in rw z

redact_loop-past :
    (text placeholder : Text) (end cursor : ℕ) (stats : Stats) (ms : List Match)
    → Chain (length text) end ms
    → (redact_loop text end placeholder ms cursor stats).0 ≡ slice cursor end text
unfolding redact_loop
redact_loop-past text placeholder end cursor stats [] h = refl
redact_loop-past text placeholder end cursor stats (m ∷ ms) (link a b c d rest) =
    let past : ltb end m.finish ≡ true = ground arith in rw past

redact_loop-in :
    (text placeholder : Text) (end cursor : ℕ) (stats : Stats) (m : Match) (ms : List Match)
    → m.finish ≤ end
    → (redact_loop text end placeholder (m ∷ ms) cursor stats).0
      ≡ slice cursor m.start text
        ++ (placeholder
            ++ (redact_loop text end placeholder ms m.finish (record_label m.label stats)).0)
unfolding redact_loop
redact_loop-in text placeholder end cursor stats m ms h =
    let within : ltb end m.finish ≡ false = ground arith in rw within

module _ (u : Unicode) (placeholder text more : Text) where
  -- The reference from a position on, with what is to come.
  abbrev pub redacted_from : ℕ → Text
  redacted_from i = redacted u placeholder (previous text i) 0 (drop i text ++ more)

  -- What a position holds when the rest is known.
  abbrev pub will_hold : ℕ → Option (Label × ℕ)
  will_hold i = accepted_at u (previous text i) (drop i text ++ more)

  redacted-skip :
      (k i : ℕ)
      → i + k ≤ length text
      → redacted u placeholder (previous text i) k (drop i text ++ more) ≡ redacted_from (i + k)
  unfolding redacted
  redacted-skip zero i h = let z : i + 0 ≡ i = omega arith in rw z
  redacted-skip (suc k) i h =
      let (c, n) = drop-IsNext text i (omega arith) in
      let z : i + suc k ≡ suc i + k = omega arith in
      let later = redacted-skip k (suc i) (omega arith) in
      rw (n.here, z) (ground (arith, later, n.behind))

  redacted_from-none :
      (i c : ℕ) → IsNext text i c → will_hold i ≡ none → redacted_from i ≡ c ∷ redacted_from (suc i)
  redacted_from-none i c n free =
      redacted-none u (previous text i) (drop i text ++ more) c (drop (suc i) text ++ more)
        (ap (λ (s : Text). s ++ more) n.here) free placeholder
      ∙ ap (λ p. c ∷ redacted u placeholder p 0 (drop (suc i) text ++ more)) (sym n.behind)

  redacted_from-some :
      (i : ℕ) (l : Label) (n : ℕ)
      → 1 ≤ n
      → i + n ≤ length text
      → will_hold i ≡ some (l, n)
      → redacted_from i ≡ placeholder ++ redacted_from (i + n)
  redacted_from-some i l n pos inside taken =
      let (c, next) = drop-IsNext text i (omega arith) in
      let z : suc i + (n - 1) ≡ i + n = omega arith in
      redacted-some u (previous text i) (drop i text ++ more) c (drop (suc i) text ++ more)
        (ap (λ (s : Text). s ++ more) next.here) l n taken placeholder
      ∙ ap (λ (t : Text). placeholder ++ t)
          (ap (λ p. redacted u placeholder p (n - 1) (drop (suc i) text ++ more)) (sym next.behind)
            ∙ redacted-skip (n - 1) (suc i) (omega arith)
            ∙ ap redacted_from z)

  -- What is to come changes nothing at the positions of a range.
  abbrev pub Settled : ℕ → ℕ → Type 0
  Settled end i = (j : ℕ) → i ≤ j → j < end → will_hold j ≡ holds u text j

  module _ (end : ℕ) (inside : end ≤ length text) where
    -- What the loop puts out from a position on, and what follows the end of the range.
    abbrev put : ℕ → ℕ → Stats → Text
    put i cursor stats =
        (redact_loop text end placeholder (scan_from u text i) cursor stats).0 ++ redacted_from end

    put-end :
        (cursor : ℕ) (stats : Stats)
        → put end cursor stats ≡ slice cursor end text ++ redacted_from end
    put-end cursor stats =
        let chain =
          subst (Chain (length text) end) (iter_matches-scan u text end inside)
            (iter_matches-Chain u text end inside).1 in
        ap (λ (t : Text). t ++ redacted_from end)
          (redact_loop-past text placeholder end cursor stats (scan_from u text end) chain)

    put-none :
        (i cursor : ℕ) (stats : Stats)
        → i < end
        → cursor ≤ i
        → will_hold i ≡ none
        → scan_from u text i ≡ scan_from u text (suc i)
        → put (suc i) cursor stats ≡ slice cursor (suc i) text ++ redacted_from (suc i)
        → put i cursor stats ≡ slice cursor i text ++ redacted_from i
    put-none i cursor stats lt from free moved later =
        let (c, next) = drop-IsNext text i (omega arith) in
        ap (λ ms. (redact_loop text end placeholder ms cursor stats).0 ++ redacted_from end) moved
        ∙ later
        ∙ ap (λ (t : Text). t ++ redacted_from (suc i)) (slice-suc text cursor i c from next)
        ∙ append_assoc (slice cursor i text) (c ∷ []) (redacted_from (suc i))
        ∙ ap (λ (t : Text). slice cursor i text ++ t) (sym (redacted_from-none i c next free))

    put-some :
        (i cursor : ℕ) (stats : Stats) (l : Label) (n : ℕ)
        → 1 ≤ n
        → i + n ≤ end
        → will_hold i ≡ some (l, n)
        → scan_from u text i
          ≡ record { label = l; start = i; finish = i + n } ∷ scan_from u text (i + n)
        → ((stats' : Stats)
            → put (i + n) (i + n) stats' ≡ slice (i + n) (i + n) text ++ redacted_from (i + n))
        → put i cursor stats ≡ slice cursor i text ++ redacted_from i
    put-some i cursor stats l n pos within taken moved later =
        let m : Match = record { label = l; start = i; finish = i + n } in
        let stats' = record_label l stats in
        let rest = (redact_loop text end placeholder (scan_from u text (i + n)) (i + n) stats').0 in
        ap (λ ms. (redact_loop text end placeholder ms cursor stats).0 ++ redacted_from end) moved
        ∙ ap (λ (t : Text). t ++ redacted_from end)
            (redact_loop-in text placeholder end cursor stats m (scan_from u text (i + n)) within)
        ∙ append_assoc (slice cursor i text) (placeholder ++ rest) (redacted_from end)
        ∙ ap (λ (t : Text). slice cursor i text ++ t)
            (append_assoc placeholder rest (redacted_from end)
              ∙ ap (λ (t : Text). placeholder ++ t)
                  (later stats'
                    ∙ ap (λ (t : Text). t ++ redacted_from (i + n)) (slice-empty text (i + n)))
              ∙ sym (redacted_from-some i l n pos (omega arith) taken))

    -- The range is put out as the reference has it, up to its end.
    pub redact_loop-redacted :
        (fuel i cursor : ℕ) (stats : Stats)
        → end ≤ fuel + i
        → i ≤ end
        → cursor ≤ i
        → All (λ m. ¬ Straddles end m) (scan_from u text i)
        → Settled end i
        → put i cursor stats ≡ slice cursor i text ++ redacted_from i
    redact_loop-redacted zero i cursor stats enough before from clear settled =
        let same : i ≡ end = omega arith in rw same (put-end cursor stats)
    redact_loop-redacted (suc fuel) i cursor stats enough before from clear settled =
        elim (Bool-cases (ltb i end)) [
          | inr at_end ↦ let same : i ≡ end = ground arith in rw same (put-end cursor stats)
          | inl earlier ↦
              let lt : i < end = ground arith in
              let will = settled i (omega arith) lt in
              elim (Option-cases (holds u text i)) [
                | inl free ↦
                    let moved = scan_from-none u text i (omega arith) free in
                    put-none i cursor stats lt from (will ∙ free) moved (
                      redact_loop-redacted fuel (suc i) cursor stats (omega arith) (omega arith)
                        (omega arith) (subst (All (λ m. ¬ Straddles end m)) moved clear)
                        (λ j le. settled j (omega arith)))
                | inr ((l, n), taken) ↦
                    let b = accepted_at_bounds u (previous text i) (drop i text) l n taken in
                    let moved = scan_from-some u text i l n taken in
                    let (apart, clear') = subst (All (λ m. ¬ Straddles end m)) moved clear in
                    let within : i + n ≤ end = elim (Bool-cases (ltb end (i + n))) [
                      | inl cut ↦ absurd (apart (ground arith, ground arith))
                      | inr whole ↦ ground arith
                    ] in
                    put-some i cursor stats l n b.0 within (will ∙ taken) moved (λ stats'.
                      redact_loop-redacted fuel (i + n) (i + n) stats' (omega (arith, b)) within
                        (omega arith) clear' (λ j le. settled j (omega arith)))
              ]
        ]

-- What a range without a match across its end puts out, and the reference from its end on, are the
-- reference from its start on, whatever is to come behind the text at hand.
pub redact_range-redacted :
    (u : Unicode) (placeholder text more : Text) (start end : ℕ) (stats : Stats)
    → start ≤ end
    → end ≤ length text
    → All (λ m. ¬ Straddles end m) (iter_matches u text start)
    → Settled u placeholder text more end start
    → (redact_range text start end stats placeholder (iter_matches u text start)).0
        ++ redacted_from u placeholder text more end
      ≡ redacted_from u placeholder text more start
unfolding redact_range
redact_range-redacted u placeholder text more start end stats order inside clear settled =
    let same = iter_matches-scan u text start (omega arith) in
    ap
      (λ ms.
        (redact_loop text end placeholder ms start stats).0
        ++ redacted_from u placeholder text more end)
      same
    ∙ redact_loop-redacted u placeholder text more end inside end start start stats (omega arith)
        order (omega arith) (subst (All (λ m. ¬ Straddles end m)) same clear) settled
    ∙ ap (λ (t : Text). t ++ redacted_from u placeholder text more start) (slice-empty text start)
