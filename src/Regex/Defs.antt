-- ===== src/Regex/Defs.antt =====
-- Regular expressions and their matching, after Python's `re`.
use mcp_llm_gateway_suite.Base.{
  ℕ, zero, suc, Bool, true, false, not, ◌||◌, Option, none, some, [], ◌∷◌, ◌==◌, if◌then◌else◌,
}
use mcp_llm_gateway_suite.Base.Text.{Text}

-- What Python reads from the Unicode database: `\d`, `\w`, `str.isdigit` and `int` of a digit.
pub record Unicode : Type 0 where
  pub is_decimal : ℕ → Bool
  pub is_word : ℕ → Bool
  pub is_digit : ℕ → Bool
  pub int_value : ℕ → ℕ

-- `repeat r m e` is `r{m,m+e}`; the fences are `(?!r)`, `(?<![...])` and `\b`.
pub data Regex : Type 0 where
  chars : (ℕ → Bool) → Regex
  seq alt : Regex → Regex → Regex
  opt : Regex → Regex
  repeat : Regex → ℕ → ℕ → Regex
  not_ahead : Regex → Regex
  not_behind : (ℕ → Bool) → Regex
  boundary : Regex

-- What is left to match: at the character before the position, the text from it on and the
-- number of characters taken, it gives the length of the whole match.
abbrev pub Cont : Type 0
Cont = Option ℕ → Text → ℕ → Option ℕ

abbrev pub head_is : (ℕ → Bool) → Text → Bool
head_is p [] = false
head_is p (c ∷ s) = p c

abbrev last_is : (ℕ → Bool) → Option ℕ → Bool
last_is p none = false
last_is p (some c) = p c

-- `\b`: exactly one of the two neighbours is a word character.
unfoldable pub at_boundary : Unicode → Option ℕ → Text → Bool
at_boundary u prev s = elim (last_is u.is_word prev) [
  | true ↦ not (head_is u.is_word s)
  | false ↦ head_is u.is_word s
]

-- Greedy repetition of a step: the rounds that must be made, and those that may.
unfoldable pub repeat_loop : (Cont → Cont) → ℕ → ℕ → Cont → Cont
repeat_loop step zero zero k = k
repeat_loop step (suc must) may k = step (repeat_loop step must may k)
repeat_loop step zero (suc may) k = λ prev s n. elim (step (repeat_loop step zero may k) prev s n) [
  | some e ↦ some e
  | none ↦ k prev s n
]

unfoldable pub run : Unicode → Regex → Cont → Cont
unfolding at_boundary repeat_loop
run u (chars p) k prev [] n = none
run u (chars p) k prev (c ∷ s) n = if p c then k (some c) s (suc n) else none
run u (seq a b) k prev s n = run u a (λ prev' s' n'. run u b k prev' s' n') prev s n
run u (alt a b) k prev s n = elim (run u a k prev s n) [
  | some e ↦ some e
  | none ↦ run u b k prev s n
]
run u (opt a) k prev s n = elim (run u a k prev s n) [ some e ↦ some e | none ↦ k prev s n ]
run u (repeat a must may) k prev s n =
    repeat_loop (λ k' prev' s' n'. run u a k' prev' s' n') must may k prev s n
run u (not_ahead a) k prev s n = elim (run u a (λ prev' s' n'. some n') prev s n) [
  | some e ↦ none
  | none ↦ k prev s n
]
run u (not_behind p) k prev s n = if last_is p prev then none else k prev s n
run u boundary k prev s n = if at_boundary u prev s then k prev s n else none

-- The length of the match at a position.
unfoldable pub match_length : Unicode → Regex → Option ℕ → Text → Option ℕ
unfolding run
match_length u r prev s = run u r (λ prev' s' n'. some n') prev s 0

-- A text without special characters; the empty one does not occur.
unfoldable pub literal : ℕ → Text → Regex
literal c [] = chars (λ d. d == c)
literal c (c' ∷ s) = seq (chars (λ d. d == c)) (literal c' s)

-- A character class that lists its characters.
unfoldable pub any_of : Text → ℕ → Bool
any_of [] c = false
any_of (d ∷ s) c = c == d || any_of s c
