-- ===== src/Redactor/Guard.antt =====
-- Where task3_streaming_guardrail/redactor.py cuts its buffer: the guard against cutting a match,
-- and how much is held back.
use mcp_llm_gateway_suite.Base.{
  ℕ, ◌+◌, ◌-◌, ◌≤◌, ◌<◌, ◌≡◌, refl, sym, subst, false, ◌&&◌, List, [], ◌∷◌, ◌++◌, length, min, max,
  arith, inl, inr, Bool-cases, length-drop, length-append, ltb, All,
}
use mcp_llm_gateway_suite.Base.Text.{Text}
use mcp_llm_gateway_suite.Regex.{Unicode}
use mcp_llm_gateway_suite.Redactor.Scan.{Match, iter_matches}
use mcp_llm_gateway_suite.Redactor.Emit.{
  pull_loop, pull_back, holdback, tail_token, tail_digits, last_characters,
}
use mcp_llm_gateway_suite.Redactor.Stream.{Redactor, split_point}
use mcp_llm_gateway_suite.Redactor.Matches.{longest, Chain, done, link, iter_matches-Chain}

-- The match has a part on each side of the position.
abbrev pub Straddles : ℕ → Match → Type 0
Straddles split m = (m.start < split) × (split < m.finish)

-- Before the first match of a chain nothing is pulled back.
pull_loop_before :
    (size at split : ℕ) (ms : List Match)
    → Chain size at ms
    → split ≤ at
    → (pull_loop ms split ≡ split) × All (λ m. ¬ Straddles split m) ms
unfolding pull_loop
pull_loop_before size at split [] done h = (refl, tt)
pull_loop_before size at split (m ∷ ms) (link a b c d rest) h =
    let (same, clear) = pull_loop_before size m.finish split ms rest (omega arith) in
    (ground arith, ((λ s. omega arith), clear))

-- What a cut has to satisfy: it is not far before `split`, and no match has a part on each side.
abbrev pub IsClear : ℕ → List Match → ℕ → Type 0
IsClear split ms cut = (cut ≤ split) × (split < cut + longest) × All (λ m. ¬ Straddles cut m) ms

later_cut :
    (start finish split cut : ℕ)
    → (ltb start split && ltb split finish) ≡ false
    → (start < cut) × (cut < finish)
    → min finish split ≤ cut
    → cut ≤ split
    → ⊥
later_cut start finish split cut apart s from below = ground arith

pull_loop-IsClear :
    (size at split : ℕ) (ms : List Match)
    → Chain size at ms
    → IsClear split ms (pull_loop ms split) × (min at split ≤ pull_loop ms split)
unfolding pull_loop
pull_loop-IsClear size at split [] done = ((omega arith, omega arith, tt), omega arith)
pull_loop-IsClear size at split (m ∷ ms) (link a b c d rest) =
    elim (Bool-cases (ltb m.start split && ltb split m.finish)) [
      | inl cuts ↦
          let (same, clear) = pull_loop_before size m.finish m.start ms rest (omega arith) in
          let moved : pull_loop (m ∷ ms) split ≡ m.start = rw cuts same in
          subst (λ cut. IsClear split (m ∷ ms) cut × (min at split ≤ cut)) (sym moved)
            ((ground arith, ground arith, ((λ s. omega arith), clear)), omega arith)
      | inr apart ↦
          let ((below, near, clear), from) = pull_loop-IsClear size m.finish split ms rest in
          let kept : pull_loop (m ∷ ms) split ≡ pull_loop ms split = rw apart in
          subst (λ cut. IsClear split (m ∷ ms) cut × (min at split ≤ cut)) (sym kept)
            (
              (
                below,
                near,
                (
                  (λ s. later_cut m.start m.finish split (pull_loop ms split) apart s from below),
                  clear,
                ),
              ),
              omega arith,
            )
    ]

tail_token-le : (s : Text) → tail_token s ≤ length s
unfolding tail_token
tail_token-le [] = omega arith
tail_token-le (c ∷ s) = ground (arith, tail_token-le s)

tail_digits-le : (u : Unicode) (s : Text) → tail_digits u s ≤ length s
unfolding tail_digits
tail_digits-le u [] = omega arith
tail_digits-le u (c ∷ s) = ground (arith, tail_digits-le u s)

pub length-last_characters-le : (n : ℕ) (s : Text) → length (last_characters n s) ≤ length s
unfolding last_characters
length-last_characters-le n s = ground (arith, length-drop (length s - n) s)

-- How much is held back: no more than the setting, and no more than there is.
pub holdback-le :
    (u : Unicode) (buffer : Text) (max_holdback : ℕ)
    → (holdback u buffer max_holdback ≤ max_holdback)
      × (holdback u buffer max_holdback ≤ length buffer)
unfolding holdback
holdback-le u buffer max_holdback =
    let window = last_characters max_holdback buffer in
    let t = tail_token-le window in
    let d = tail_digits-le u window in
    let l = length-last_characters-le max_holdback buffer in (ground arith, ground arith)

-- What holds of the place where a feed cuts.
pub record IsCut (u : Unicode) (r : Redactor) (buffer : Text) : Type 0 where
  pub above : length r.left_context ≤ split_point u r buffer
  pub below :
      split_point u r buffer + holdback u buffer r.max_holdback
      ≤ length r.left_context + length buffer
  pub near :
      length r.left_context + length buffer
      < split_point u r buffer + holdback u buffer r.max_holdback + longest
  pub clear :
      All
        (λ m. ¬ Straddles (split_point u r buffer) m)
        (iter_matches u (r.left_context ++ buffer) (length r.left_context))

-- A feed cuts in its buffer, in front of what is held back and less than one match before it, and
-- no match that the scan finds has a part on each side of the cut.
pub split_point-IsCut : (u : Unicode) (r : Redactor) (buffer : Text) → IsCut u r buffer
unfolding split_point pull_back
split_point-IsCut u r buffer =
    let offset = length r.left_context in
    let hold = holdback-le u buffer r.max_holdback in
    let chain =
      (iter_matches-Chain u (r.left_context ++ buffer) offset
        (omega (arith, length-append r.left_context buffer))).1 in
    let ((below, near, clear), from) =
      pull_loop-IsClear (length (r.left_context ++ buffer)) offset
        (offset + length buffer - holdback u buffer r.max_holdback)
        (iter_matches u (r.left_context ++ buffer) offset) chain in
    let cut =
      pull_loop (iter_matches u (r.left_context ++ buffer) offset)
        (offset + length buffer - holdback u buffer r.max_holdback) in
    let inside : max cut offset ≡ cut = omega (arith, from, hold) in
    record {
      above = omega arith;
      below = omega (arith, below, hold, inside);
      near = omega (arith, near, hold, inside);
      clear = rw inside clear;
    }
