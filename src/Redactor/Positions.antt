-- ===== src/Redactor/Positions.antt =====
-- The scan of task3_streaming_guardrail/redactor.py against the reference: the loop over searches,
-- with its restarts behind a rejected card, finds what a scan position by position finds.
use mcp_llm_gateway_suite.Base.{
  ℕ, zero, suc, ◌+◌, ◌-◌, ◌≤◌, ◌≡◌, refl, ◌∙◌, sym, ap, subst, true, false, Option, none, some,
  List, [], ◌∷◌, length, drop, arith, inl, inr, Bool-cases, Option-cases, length-drop,
}
use mcp_llm_gateway_suite.Base.Text.{Text}
use mcp_llm_gateway_suite.Regex.{Unicode}
use mcp_llm_gateway_suite.Redactor.Patterns.{Label, labels}
use mcp_llm_gateway_suite.Redactor.Scan.{
  Match, match_at, previous, search_from, search, rejects, iter_loop, iter_matches,
}
use mcp_llm_gateway_suite.Redactor.Matches.{match_at_bounds, search_from-IsMatch, search-IsMatch}
use mcp_llm_gateway_suite.Redactor.Reference.{
  accepted_at, scan, accept, accepted_of, accepted_none, drop-IsNext, drop-eq, scan-none, scan-some,
}

pub accepted_at_bounds :
    (u : Unicode) (prev : Option ℕ) (s : Text) (l : Label) (n : ℕ)
    → accepted_at u prev s ≡ some (l, n)
    → (1 ≤ n) × (n ≤ length s)
unfolding accepted_at accept
accepted_at_bounds u prev s l n h = elim (Option-cases (match_at u labels prev s)) [
  | inl fails ↦ absurd (ground arith)
  | inr ((l', n'), matches) ↦
      let b = match_at_bounds u labels prev s l' n' matches in
      let same : n' ≡ n = ground arith in (omega (arith, b), omega (arith, b))
]

module _ (u : Unicode) (text : Text) where
  -- The scan and what a position holds, by the position.
  abbrev pub scan_from : ℕ → List Match
  scan_from i = scan u (previous text i) 0 (drop i text) i

  abbrev pub holds : ℕ → Option (Label × ℕ)
  holds i = accepted_at u (previous text i) (drop i text)

  pub scan_from-none :
      (i : ℕ) → suc i ≤ length text → holds i ≡ none → scan_from i ≡ scan_from (suc i)
  scan_from-none i h free =
      let (c, n) = drop-IsNext text i h in
      scan-none u (previous text i) (drop i text) c (drop (suc i) text) n.here free i
      ∙ ap (λ p. scan u p 0 (drop (suc i) text) (suc i)) (sym n.behind)

  scan-skip :
      (k i : ℕ)
      → i + k ≤ length text
      → scan u (previous text i) k (drop i text) i ≡ scan_from (i + k)
  unfolding scan
  scan-skip zero i h = let z : i + 0 ≡ i = omega arith in rw z
  scan-skip (suc k) i h =
      let (c, n) = drop-IsNext text i (omega arith) in
      let z : i + suc k ≡ suc i + k = omega arith in
      let later = scan-skip k (suc i) (omega arith) in
      rw (n.here, z) (ground (arith, later, n.behind))

  pub scan_from-some :
      (i : ℕ) (l : Label) (n : ℕ)
      → holds i ≡ some (l, n)
      → scan_from i ≡ record { label = l; start = i; finish = i + n } ∷ scan_from (i + n)
  scan_from-some i l n h =
      let b = accepted_at_bounds u (previous text i) (drop i text) l n h in
      let inside : i + n ≤ length text = omega (arith, b, length-drop i text) in
      let (c, next) = drop-IsNext text i (omega (arith, b, length-drop i text)) in
      let z : suc i + (n - 1) ≡ i + n = omega (arith, b) in
      let later = scan-skip (n - 1) (suc i) (omega arith) in
      scan-some u (previous text i) (drop i text) c (drop (suc i) text) next.here l n h i
      ∙ ap (λ ms. record { label = l; start = i; finish = i + n } ∷ ms)
          (ap (λ p. scan u p (n - 1) (drop (suc i) text) (suc i)) (sym next.behind)
            ∙ later
            ∙ ap scan_from z)

  search_from-some :
      (prev : Option ℕ) (c : ℕ) (s : Text) (i : ℕ) (l : Label) (n : ℕ)
      → match_at u labels prev (c ∷ s) ≡ some (l, n)
      → search_from u prev (c ∷ s) i ≡ some (record { label = l; start = i; finish = i + n })
  unfolding search_from
  search_from-some prev c s i l n h = ground arith

  search_from-none :
      (prev : Option ℕ) (c : ℕ) (s : Text) (i : ℕ)
      → match_at u labels prev (c ∷ s) ≡ none
      → search_from u prev (c ∷ s) i ≡ search_from u (some c) s (suc i)
  unfolding search_from
  search_from-none prev c s i h = ground arith

  scan_from-nil : (i : ℕ) → drop i text ≡ [] → scan_from i ≡ []
  unfolding scan
  scan_from-nil i e = rw e

  -- A search that finds nothing: nothing is left for the scan.
  search_from-nothing :
      (s : Text) (i : ℕ)
      → drop i text ≡ s
      → search_from u (previous text i) s i ≡ none
      → scan_from i ≡ []
  search_from-nothing [] i e h = scan_from-nil i e
  search_from-nothing (c ∷ s) i e h =
      elim (Option-cases (match_at u labels (previous text i) (c ∷ s))) [
        | inl free ↦
            let (rest, behind, inside) = drop-eq text i c s e in
            let later =
              search_from-nothing s (suc i) rest
                (rw behind (sym (search_from-none (previous text i) c s i free) ∙ h)) in
            scan_from-none i inside (accepted_none u (previous text i) (drop i text) (rw e free))
            ∙ later
        | inr ((l, n), matches) ↦ cc (search_from-some (previous text i) c s i l n matches)
      ]

  -- What a search finds is at the first position with a match, and the scan finds nothing before.
  search_from-first :
      (s : Text) (i : ℕ) (m : Match)
      → drop i text ≡ s
      → search_from u (previous text i) s i ≡ some m
      → (match_at u labels (previous text m.start) (drop m.start text)
          ≡ some (m.label, m.finish - m.start))
        × (scan_from i ≡ scan_from m.start)
  search_from-first [] i m e h =
      let found = search_from-IsMatch u (previous text i) [] i m h in
      absurd (omega (arith, found.starts, found.takes, found.ends))
  search_from-first (c ∷ s) i m e h =
      elim (Option-cases (match_at u labels (previous text i) (c ∷ s))) [
        | inl free ↦
            let (rest, behind, inside) = drop-eq text i c s e in
            let (at_start, later) =
              search_from-first s (suc i) m rest
                (rw behind (sym (search_from-none (previous text i) c s i free) ∙ h)) in
            (
              at_start,
              scan_from-none i inside (accepted_none u (previous text i) (drop i text) (rw e free))
                  ∙ later,
            )
        | inr ((l, n), matches) ↦
            let here = search_from-some (previous text i) c s i l n matches in
            let same : record { label = l; start = i; finish = i + n } ≡ m = ground (arith, here) in
            let z : i + n - i ≡ n = omega arith in
            subst
              (λ (m : Match).
                (match_at u labels (previous text m.start) (drop m.start text)
                  ≡ some (m.label, m.finish - m.start))
                × (scan_from i ≡ scan_from m.start))
              same (rw (e, z) matches, refl)
      ]

  search-first :
      (pos : ℕ) (m : Match)
      → search u text pos ≡ some m
      → (match_at u labels (previous text m.start) (drop m.start text)
          ≡ some (m.label, m.finish - m.start))
        × (scan_from pos ≡ scan_from m.start)
  unfolding search
  search-first pos m h = search_from-first (drop pos text) pos m refl h

  search-nothing : (pos : ℕ) → search u text pos ≡ none → scan_from pos ≡ []
  unfolding search
  search-nothing pos h = search_from-nothing (drop pos text) pos refl h

  -- What is rejected is not accepted, and what is not is.
  rejects-accept :
      (m : Match)
      → (rejects u text m ≡ true
          → accept u (drop m.start text) (some (m.label, m.finish - m.start)) ≡ none)
        × (rejects u text m ≡ false
            → accept u (drop m.start text) (some (m.label, m.finish - m.start))
              ≡ some (m.label, m.finish - m.start))
  unfolding rejects accept
  rejects-accept m = ((λ h. rw h), (λ h. rw h))

  -- With a round for each position, the loop yields what the scan finds.
  iter_loop-scan :
      (fuel pos : ℕ)
      → length text + 2 ≤ fuel + pos
      → pos ≤ length text + 1
      → iter_loop u text fuel pos ≡ some (scan_from pos)
  unfolding iter_loop
  iter_loop-scan zero pos h p = absurd (omega arith)
  iter_loop-scan (suc fuel) pos h p = elim (Option-cases (search u text pos)) [
    | inl nothing ↦ rw (nothing, iter_loop, search-nothing pos nothing)
    | inr (m, found) ↦
        let i = search-IsMatch u text pos m found in
        let (matches, first) = search-first pos m found in
        let held =
          accepted_of u (previous text m.start) (drop m.start text)
            (some (m.label, m.finish - m.start)) matches in
        elim (Bool-cases (rejects u text m)) [
          | inl no_card ↦
              let z : suc m.start ≡ m.start + 1 = omega arith in
              let moved =
                scan_from-none m.start (omega (arith, i)) (held ∙ (rejects-accept m).0 no_card) in
              let later = iter_loop-scan fuel (m.start + 1) (omega (arith, i)) (omega (arith, i)) in
              rw (found, iter_loop, no_card, later) (ap some (sym (first ∙ moved ∙ ap scan_from z)))
          | inr real ↦
              let z : m.start + (m.finish - m.start) ≡ m.finish = omega (arith, i) in
              let moved =
                scan_from-some m.start m.label (m.finish - m.start)
                  (held ∙ (rejects-accept m).1 real) in
              let later = iter_loop-scan fuel m.finish (omega (arith, i)) (omega (arith, i)) in
              rw (found, iter_loop, real, later) (ap some (sym (first ∙ (rw z at moved))))
        ]
  ]

  -- The matches from a position of the text on are those of the scan.
  pub iter_matches-scan : (pos : ℕ) → pos ≤ length text → iter_matches u text pos ≡ scan_from pos
  unfolding iter_matches
  iter_matches-scan pos h =
      rw (iter_loop-scan (suc (suc (length text))) pos (omega arith) (omega arith), iter_matches)
