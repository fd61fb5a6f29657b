-- ===== src/Redactor/Matches.antt =====
-- What the scan of task3_streaming_guardrail/redactor.py yields: matches in order, apart from one
-- another, inside the text and no longer than the longest that a pattern allows.
use mcp_llm_gateway_suite.Base.{
  ℕ, zero, suc, ◌+◌, ◌≤◌, ◌<◌, ◌≡◌, Option, some, List, [], ◌∷◌, length, drop, arith, inl, inr,
  Bool-cases, Option-cases, length-drop,
}
use mcp_llm_gateway_suite.Base.Text.{Text}
use mcp_llm_gateway_suite.Regex.{Unicode, match_length, literal}
use mcp_llm_gateway_suite.Regex.Length.{min_length, max_length, match_length_bounds}
use mcp_llm_gateway_suite.Redactor.Patterns.{
  Label, email, api_key, credit_card, ssn, phone, pattern_of, labels,
}
use mcp_llm_gateway_suite.Redactor.Scan.{
  Match, match_at, search_from, search, rejects, iter_loop, iter_matches,
}

-- The longest match: a local part of 64, "@", a domain of 255, "." and a last part of 24.
abbrev pub longest : ℕ
longest = 345

pattern_of_bounds :
    (u : Unicode) (l : Label)
    → (1 ≤ min_length (pattern_of u l)) × (max_length (pattern_of u l) ≤ longest)
unfolding pattern_of literal
pattern_of_bounds u email = (omega arith, omega arith)
pattern_of_bounds u api_key = (omega arith, omega arith)
pattern_of_bounds u credit_card = (omega arith, omega arith)
pattern_of_bounds u ssn = (omega arith, omega arith)
pattern_of_bounds u phone = (omega arith, omega arith)

pub match_at_bounds :
    (u : Unicode) (ls : List Label) (prev : Option ℕ) (s : Text) (l : Label) (n : ℕ)
    → match_at u ls prev s ≡ some (l, n)
    → (1 ≤ n) × (n ≤ longest) × (n ≤ length s)
unfolding match_at
match_at_bounds u [] prev s l n h = absurd (ground arith)
match_at_bounds u (k ∷ ls) prev s l n h =
    elim (Option-cases (match_length u (pattern_of u k) prev s)) [
      | inl fails ↦ match_at_bounds u ls prev s l n (ground arith)
      | inr (e, matches) ↦
          let same : e ≡ n = ground arith in
          omega
            (arith, match_length_bounds u (pattern_of u k) prev s e matches, pattern_of_bounds u k)
    ]

-- A match from the position `at` on, in the `size` characters that follow it.
pub record IsMatch (at size : ℕ) (m : Match) : Type 0 where
  pub starts : at ≤ m.start
  pub takes : m.start < m.finish
  pub short : m.finish ≤ m.start + longest
  pub ends : m.finish ≤ at + size

pub search_from-IsMatch :
    (u : Unicode) (prev : Option ℕ) (s : Text) (at : ℕ) (m : Match)
    → search_from u prev s at ≡ some m
    → IsMatch at (length s) m
unfolding search_from
search_from-IsMatch u prev [] at m h = elim (Option-cases (match_at u labels prev [])) [
  | inl fails ↦ absurd (ground arith)
  | inr ((l, n), matches) ↦ absurd (omega (arith, match_at_bounds u labels prev [] l n matches))
]
search_from-IsMatch u prev (c ∷ s) at m h = elim (Option-cases (match_at u labels prev (c ∷ s))) [
  | inl fails ↦
      let later = search_from-IsMatch u (some c) s (suc at) m (ground arith) in
      record {
        starts = omega (arith, later.starts);
        takes = later.takes;
        short = later.short;
        ends = omega (arith, later.ends);
      }
  | inr ((l, n), matches) ↦
      let b = match_at_bounds u labels prev (c ∷ s) l n matches in
      let from : m.start ≡ at = ground arith in
      let to : m.finish ≡ at + n = ground arith in
      record {
        starts = omega arith;
        takes = omega (arith, b);
        short = omega (arith, b);
        ends = omega (arith, b);
      }
]

-- Matches in order and apart from one another, from a position on and within a text.
pub data Chain (size : ℕ) : ℕ → List Match → Type 0 where
  done : {at : ℕ} → Chain size at []
  link :
      {at : ℕ} {m : Match} {ms : List Match}
      → at ≤ m.start
      → m.start < m.finish
      → m.finish ≤ m.start + longest
      → m.finish ≤ size
      → Chain size m.finish ms
      → Chain size at (m ∷ ms)

pub Chain-earlier :
    {size at at' : ℕ} {ms : List Match} → at' ≤ at → Chain size at ms → Chain size at' ms
Chain-earlier h done = done
Chain-earlier h (link a b c d rest) = link (omega arith) b c d rest

pub search-IsMatch :
    (u : Unicode) (text : Text) (pos : ℕ) (m : Match)
    → search u text pos ≡ some m
    → (pos ≤ m.start)
      × (m.start < m.finish)
      × (m.finish ≤ m.start + longest)
      × (m.finish ≤ length text)
unfolding search
search-IsMatch u text pos m h =
    let i = search_from-IsMatch u _ (drop pos text) pos m h in
    (i.starts, i.takes, i.short, omega (arith, i.ends, i.starts, i.takes, length-drop pos text))

-- With a round for each position the loop ends by itself, and what it yields is a chain.
iter_loop-Chain :
    (u : Unicode) (text : Text) (fuel pos : ℕ)
    → length text + 2 ≤ fuel + pos
    → pos ≤ length text + 1
    → (ms : List Match) × (iter_loop u text fuel pos ≡ some ms) × Chain (length text) pos ms
unfolding iter_loop
iter_loop-Chain u text zero pos h p = absurd (omega arith)
iter_loop-Chain u text (suc fuel) pos h p = elim (Option-cases (search u text pos)) [
  | inl nothing ↦ ([], rw (nothing, iter_loop), done)
  | inr (m, found) ↦
      let i = search-IsMatch u text pos m found in
      elim (Bool-cases (rejects u text m)) [
        | inl no_card ↦
            let (ms, e, chain) =
              iter_loop-Chain u text fuel (m.start + 1) (omega (arith, i)) (omega (arith, i)) in
            (ms, rw (found, iter_loop, no_card, e), Chain-earlier (omega (arith, i)) chain)
        | inr real ↦
            let (ms, e, chain) =
              iter_loop-Chain u text fuel m.finish (omega (arith, i)) (omega (arith, i)) in
            (m ∷ ms, rw (found, iter_loop, real, e), link i.0 i.1 i.2 i.3 chain)
      ]
]

iter_matches_of_loop :
    (u : Unicode) (text : Text) (start : ℕ) (ms : List Match)
    → iter_loop u text (suc (suc (length text))) start ≡ some ms
    → iter_matches u text start ≡ ms
unfolding iter_matches
iter_matches_of_loop u text start ms e = rw (e, iter_matches)

-- From a position of the text on, the fuel of the scan never runs out: the matches are those of the
-- loop. They are in order, apart from one another, inside the text and at most 345 characters long.
pub iter_matches-Chain :
    (u : Unicode) (text : Text) (start : ℕ)
    → start ≤ length text
    → (iter_loop u text (suc (suc (length text))) start ≡ some (iter_matches u text start))
      × Chain (length text) start (iter_matches u text start)
iter_matches-Chain u text start h =
    let (ms, e, chain) =
      iter_loop-Chain u text (suc (suc (length text))) start (omega arith) (omega arith) in
    let same = iter_matches_of_loop u text start ms e in rw same (e, chain)
