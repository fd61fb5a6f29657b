-- ===== src/Regex/Length.antt =====
-- How many characters a match takes, read off the expression.
use mcp_llm_gateway_suite.Base.{
  ℕ, zero, suc, ◌+◌, ◌*◌, ◌≤◌, ◌≡◌, min, max, Option, some, [], ◌∷◌, length, arith, inl, inr,
  Option-cases,
}
use mcp_llm_gateway_suite.Base.Text.{Text}
use mcp_llm_gateway_suite.Regex.Defs.{
  Unicode, Regex, chars, seq, alt, opt, repeat, not_ahead, not_behind, boundary, Cont, repeat_loop,
  run, match_length,
}

abbrev pub min_length : Regex → ℕ
min_length (chars p) = 1
min_length (seq a b) = min_length a + min_length b
min_length (alt a b) = min (min_length a) (min_length b)
min_length (opt a) = 0
min_length (repeat a must may) = must * min_length a
min_length (not_ahead a) = 0
min_length (not_behind p) = 0
min_length boundary = 0

abbrev pub max_length : Regex → ℕ
max_length (chars p) = 1
max_length (seq a b) = max_length a + max_length b
max_length (alt a b) = max (max_length a) (max_length b)
max_length (opt a) = max_length a
max_length (repeat a must may) = (must + may) * max_length a
max_length (not_ahead a) = 0
max_length (not_behind p) = 0
max_length boundary = 0

-- A match goes through the continuation after `lo` to `hi` characters of the text.
record Passes (lo hi : ℕ) (k : Cont) (s : Text) (n e : ℕ) : Type 0 where
  before : Option ℕ
  rest : Text
  taken : ℕ
  continues : k before rest (n + taken) ≡ some e
  at_least : lo ≤ taken
  at_most : taken ≤ hi
  splits : length rest + taken ≡ length s

-- A step takes `lo` to `hi` characters.
abbrev Takes : ℕ → ℕ → (Cont → Cont) → Type 0
Takes lo hi step =
    (k : Cont) (prev : Option ℕ) (s : Text) (n e : ℕ)
    → step k prev s n ≡ some e
    → Passes lo hi k s n e

stay :
    (k : Cont) (prev : Option ℕ) (s : Text) (n e hi : ℕ) → k prev s n ≡ some e → Passes 0 hi k s n e
stay k prev s n e hi h = record {
  before = prev;
  rest = s;
  taken = 0;
  continues = let z : n + 0 ≡ n = omega arith in rw z h;
  at_least = omega arith;
  at_most = omega arith;
  splits = omega arith;
}

then-Passes :
    (lo hi lo' hi' : ℕ) (k k' : Cont) (s : Text) (n e : ℕ)
    → Passes lo hi k s n e
    → ((prev : Option ℕ) (t : Text) (m : ℕ) → k prev t m ≡ some e → Passes lo' hi' k' t m e)
    → Passes (lo + lo') (hi + hi') k' s n e
then-Passes lo hi lo' hi' k k' s n e p later =
    let q = later p.before p.rest (n + p.taken) p.continues in
    record {
      before = q.before;
      rest = q.rest;
      taken = p.taken + q.taken;
      continues =
          let z : n + (p.taken + q.taken) ≡ n + p.taken + q.taken = omega arith in rw z q.continues;
      at_least = omega (arith, p.at_least, q.at_least);
      at_most = omega (arith, p.at_most, q.at_most);
      splits = omega (arith, p.splits, q.splits);
    }

weaken :
    (lo hi lo' hi' : ℕ) (k : Cont) (s : Text) (n e : ℕ)
    → lo' ≤ lo
    → hi ≤ hi'
    → Passes lo hi k s n e
    → Passes lo' hi' k s n e
weaken lo hi lo' hi' k s n e l h p = record {
  before = p.before;
  rest = p.rest;
  taken = p.taken;
  continues = p.continues;
  at_least = omega (arith, p.at_least);
  at_most = omega (arith, p.at_most);
  splits = p.splits;
}

repeat_loop-Takes :
    (step : Cont → Cont) (lo hi must may : ℕ)
    → Takes lo hi step
    → Takes (must * lo) ((must + may) * hi) (repeat_loop step must may)
unfolding repeat_loop
repeat_loop-Takes step lo hi zero zero h k prev s n e eq =
    weaken 0 0 (0 * lo) ((0 + 0) * hi) k s n e (omega arith) (omega arith) (stay k prev s n e 0 eq)
repeat_loop-Takes step lo hi (suc must) may h k prev s n e eq =
    weaken (lo + must * lo) (hi + (must + may) * hi) (suc must * lo) ((suc must + may) * hi) k s n e
      (grind arith) (grind arith)
      (then-Passes lo hi (must * lo) ((must + may) * hi) (repeat_loop step must may k) k s n e
        (h (repeat_loop step must may k) prev s n e eq)
        (λ prev' t m eq'. repeat_loop-Takes step lo hi must may h k prev' t m e eq'))
repeat_loop-Takes step lo hi zero (suc may) h k prev s n e eq =
    elim (Option-cases (step (repeat_loop step zero may k) prev s n)) [
      | inl stops ↦
          weaken 0 0 (0 * lo) ((0 + suc may) * hi) k s n e (omega arith) (omega arith)
            (stay k prev s n e 0 (ground arith))
      | inr (e', goes) ↦
          weaken (lo + 0 * lo) (hi + (0 + may) * hi) (0 * lo) ((0 + suc may) * hi) k s n e
            (omega arith) (grind arith)
            (then-Passes lo hi (0 * lo) ((0 + may) * hi) (repeat_loop step zero may k) k s n e
              (h (repeat_loop step zero may k) prev s n e (ground arith))
              (λ prev' t m eq'. repeat_loop-Takes step lo hi zero may h k prev' t m e eq'))
    ]

run-Takes : (u : Unicode) (r : Regex) → Takes (min_length r) (max_length r) (run u r)
unfolding run
run-Takes u (chars p) k prev [] n e eq = absurd (ground arith)
run-Takes u (chars p) k prev (c ∷ s) n e eq = record {
  before = some c;
  rest = s;
  taken = 1;
  continues = let z : n + 1 ≡ suc n = omega arith in rw z (ground arith);
  at_least = omega arith;
  at_most = omega arith;
  splits = omega arith;
}
run-Takes u (seq a b) k prev s n e eq =
    then-Passes (min_length a) (max_length a) (min_length b) (max_length b)
      (λ prev' s' n'. run u b k prev' s' n') k s n e
      (run-Takes u a (λ prev' s' n'. run u b k prev' s' n') prev s n e eq)
      (λ prev' t m eq'. run-Takes u b k prev' t m e eq')
run-Takes u (alt a b) k prev s n e eq = elim (Option-cases (run u a k prev s n)) [
  | inl fails ↦
      weaken (min_length b) (max_length b) (min_length (alt a b)) (max_length (alt a b)) k s n e
        (omega arith) (omega arith) (run-Takes u b k prev s n e (ground arith))
  | inr (e', matches) ↦
      weaken (min_length a) (max_length a) (min_length (alt a b)) (max_length (alt a b)) k s n e
        (omega arith) (omega arith) (run-Takes u a k prev s n e (ground arith))
]
run-Takes u (opt a) k prev s n e eq = elim (Option-cases (run u a k prev s n)) [
  | inl fails ↦ stay k prev s n e (max_length a) (ground arith)
  | inr (e', matches) ↦
      weaken (min_length a) (max_length a) 0 (max_length a) k s n e (omega arith) (omega arith)
        (run-Takes u a k prev s n e (ground arith))
]
run-Takes u (repeat a must may) k prev s n e eq =
    repeat_loop-Takes (λ k' prev' s' n'. run u a k' prev' s' n') (min_length a) (max_length a) must
      may (λ k' prev' s' n' e' eq'. run-Takes u a k' prev' s' n' e' eq') k prev s n e eq
run-Takes u (not_ahead a) k prev s n e eq = stay k prev s n e 0 (ground arith)
run-Takes u (not_behind p) k prev s n e eq = stay k prev s n e 0 (ground arith)
run-Takes u boundary k prev s n e eq = stay k prev s n e 0 (ground arith)

-- A match lies in the text, and its length in the bounds that the expression shows.
pub match_length_bounds :
    (u : Unicode) (r : Regex) (prev : Option ℕ) (s : Text) (e : ℕ)
    → match_length u r prev s ≡ some e
    → (min_length r ≤ e) × (e ≤ max_length r) × (e ≤ length s)
unfolding match_length
match_length_bounds u r prev s e eq =
    let p = run-Takes u r (λ prev' s' n'. some n') prev s 0 e eq in
    let taken : e ≡ p.taken = ground (arith, p.continues) in
    (omega (arith, p.at_least), omega (arith, p.at_most), omega (arith, p.splits))
