-- ===== src/Redactor/Reference.antt =====
-- What task3_streaming_guardrail/redactor.py means to put out, defined from left to right: at each
-- position the first pattern that matches there, unless it is a card whose digits are none.
use mcp_llm_gateway_suite.Base.{
  ℕ, zero, suc, ◌+◌, ◌-◌, ◌≤◌, ◌≡◌, refl, ap, ◌&&◌, not, Option, none, some, List, [], ◌∷◌, ◌++◌,
  if◌then◌else◌, length, take, drop, arith,
}
use mcp_llm_gateway_suite.Base.Text.{Text}
use mcp_llm_gateway_suite.Regex.{Unicode}
use mcp_llm_gateway_suite.Redactor.Patterns.{Label, labels}
use mcp_llm_gateway_suite.Redactor.Scan.{Match, is_card, is_label_card, match_at, previous}

-- A match at a position is accepted unless it is a card whose digits are none.
unfoldable pub accept : Unicode → Text → Option (Label × ℕ) → Option (Label × ℕ)
accept u s none = none
accept u s (some (l, n)) =
    if is_label_card l && not (is_card u (take n s)) then none else some (l, n)

-- What a position holds: a label and how many characters are redacted.
unfoldable pub accepted_at : Unicode → Option ℕ → Text → Option (Label × ℕ)
accepted_at u prev s = accept u s (match_at u labels prev s)

-- The matches of what is left of a text, of which `skip` characters are taken already.
unfoldable pub scan : Unicode → Option ℕ → ℕ → Text → ℕ → List Match
scan u prev skip [] at = []
scan u prev (suc skip) (c ∷ s) at = scan u (some c) skip s (suc at)
scan u prev zero (c ∷ s) at = elim (accepted_at u prev (c ∷ s)) [
  | none ↦ scan u (some c) zero s (suc at)
  | some (l, n) ↦
      record { label = l; start = at; finish = at + n } ∷ scan u (some c) (n - 1) s (suc at)
]

-- The redacted text.
unfoldable pub redacted : Unicode → Text → Option ℕ → ℕ → Text → Text
redacted u placeholder prev skip [] = []
redacted u placeholder prev (suc skip) (c ∷ s) = redacted u placeholder (some c) skip s
redacted u placeholder prev zero (c ∷ s) = elim (accepted_at u prev (c ∷ s)) [
  | none ↦ c ∷ redacted u placeholder (some c) zero s
  | some (l, n) ↦ placeholder ++ redacted u placeholder (some c) (n - 1) s
]

-- The last character of a text, or the one given where there is none.
abbrev pub last_of : Option ℕ → Text → Option ℕ
last_of prev [] = prev
last_of prev (c ∷ s) = last_of (some c) s

-- One position on.
pub record IsNext (text : Text) (i : ℕ) (c : ℕ) : Type 0 where
  pub here : drop i text ≡ c ∷ drop (suc i) text
  pub behind : previous text (suc i) ≡ some c

pub drop-IsNext : (text : Text) (i : ℕ) → suc i ≤ length text → (c : ℕ) × IsNext text i c
unfolding previous
drop-IsNext [] i h = absurd (omega arith)
drop-IsNext (c ∷ s) zero h = (c, record { here = refl; behind = refl })
drop-IsNext (c ∷ s) (suc i) h =
    let (d, n) = drop-IsNext s i (omega arith) in (d, record { here = n.here; behind = n.behind })

pub drop-eq :
    (text : Text) (i c : ℕ) (s : Text)
    → drop i text ≡ c ∷ s
    → (drop (suc i) text ≡ s) × (previous text (suc i) ≡ some c) × (suc i ≤ length text)
unfolding previous
drop-eq [] zero c s h = absurd cc
drop-eq [] (suc i) c s h = absurd cc
drop-eq (d ∷ t) zero c s h = (cc, cc, omega arith)
drop-eq (d ∷ t) (suc i) c s h =
    let (rest, behind, inside) = drop-eq t i c s h in (rest, behind, omega arith)

pub accepted_of :
    (u : Unicode) (prev : Option ℕ) (s : Text) (o : Option (Label × ℕ))
    → match_at u labels prev s ≡ o
    → accepted_at u prev s ≡ accept u s o
unfolding accepted_at
accepted_of u prev s o h = ap (accept u s) h

pub accepted_none :
    (u : Unicode) (prev : Option ℕ) (s : Text)
    → match_at u labels prev s ≡ none
    → accepted_at u prev s ≡ none
unfolding accept
accepted_none u prev s h = accepted_of u prev s none h

pub drop-all : (text : Text) (i : ℕ) → length text ≤ i → drop i text ≡ []
drop-all [] zero h = refl
drop-all [] (suc i) h = refl
drop-all (c ∷ s) zero h = absurd (omega arith)
drop-all (c ∷ s) (suc i) h = drop-all s i (omega arith)

last_of-take :
    (prev : Option ℕ) (text : Text) (i : ℕ)
    → suc i ≤ length text
    → last_of prev (take (suc i) text) ≡ previous text (suc i)
unfolding previous
last_of-take prev [] i h = absurd (omega arith)
last_of-take prev (c ∷ s) zero h = refl
last_of-take prev (c ∷ s) (suc i) h = last_of-take (some c) s i (omega arith)

-- The character before a position is the last one up to it.
pub previous-last_of :
    (text : Text) (i : ℕ) → i ≤ length text → previous text i ≡ last_of none (take i text)
unfolding previous
previous-last_of text zero h = refl
previous-last_of text (suc i) h = rw (last_of-take none text i h)

pub last_of-append :
    (prev : Option ℕ) (s t : Text) → last_of prev (s ++ t) ≡ last_of (last_of prev s) t
last_of-append prev [] t = refl
last_of-append prev (c ∷ s) t = last_of-append (some c) s t

pub last_of-drop :
    (prev prev' : Option ℕ) (i : ℕ) (s : Text)
    → suc i ≤ length s
    → last_of prev (drop i s) ≡ last_of prev' s
last_of-drop prev prev' i [] h = absurd (omega arith)
last_of-drop prev prev' zero (c ∷ s) h = refl
last_of-drop prev prev' (suc i) (c ∷ []) h = absurd (omega arith)
last_of-drop prev prev' (suc i) (c ∷ (d ∷ s)) h = last_of-drop prev (some c) i (d ∷ s) (omega arith)

module _ (u : Unicode) (prev : Option ℕ) (t : Text) (c : ℕ) (s : Text) (head : t ≡ c ∷ s) where
  module _ (free : accepted_at u prev t ≡ none) where
    pub scan-none : (at : ℕ) → scan u prev 0 t at ≡ scan u (some c) 0 s (suc at)
    unfolding scan
    scan-none at =
        let free' : accepted_at u prev (c ∷ s) ≡ none = rw (← head) free in rw (head, scan, free')

    pub redacted-none :
        (placeholder : Text)
        → redacted u placeholder prev 0 t ≡ c ∷ redacted u placeholder (some c) 0 s
    unfolding redacted
    redacted-none placeholder =
        let free' : accepted_at u prev (c ∷ s) ≡ none = rw (← head) free in
        rw (head, redacted, free')

  module _ (l : Label) (n : ℕ) (taken : accepted_at u prev t ≡ some (l, n)) where
    pub scan-some :
        (at : ℕ)
        → scan u prev 0 t at
          ≡ record { label = l; start = at; finish = at + n } ∷ scan u (some c) (n - 1) s (suc at)
    unfolding scan
    scan-some at =
        let taken' : accepted_at u prev (c ∷ s) ≡ some (l, n) = rw (← head) taken in
        rw (head, scan, taken')

    pub redacted-some :
        (placeholder : Text)
        → redacted u placeholder prev 0 t ≡ placeholder ++ redacted u placeholder (some c) (n - 1) s
    unfolding redacted
    redacted-some placeholder =
        let taken' : accepted_at u prev (c ∷ s) ≡ some (l, n) = rw (← head) taken in
        rw (head, redacted, taken')
