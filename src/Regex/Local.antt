-- ===== src/Regex/Local.antt =====
-- How far a match looks: a pattern whose characters lie in a class does not tell two texts apart
-- that agree up to a character outside the class, or for as many characters as the pattern reads.
use mcp_llm_gateway_suite.Base.{
  ℕ, zero, suc, ◌+◌, ◌*◌, ◌≤◌, ◌≡◌, refl, Bool, true, false, max, Option, some, [], ◌∷◌, ◌++◌,
  length, all_of, arith, inl, inr, Bool-cases,
}
use mcp_llm_gateway_suite.Base.Text.{Text}
use mcp_llm_gateway_suite.Regex.Defs.{
  Unicode, Regex, chars, seq, alt, opt, repeat, not_ahead, not_behind, boundary, Cont, repeat_loop,
  run, at_boundary, match_length,
}

-- How many characters an expression reads at most, those it looks ahead at included.
abbrev pub reach : Regex → ℕ
reach (chars p) = 1
reach (seq a b) = reach a + reach b
reach (alt a b) = max (reach a) (reach b)
reach (opt a) = reach a
reach (repeat a must may) = (must + may) * reach a
reach (not_ahead a) = reach a
reach (not_behind p) = 0
reach boundary = 1

-- Every character that the expression takes or looks ahead at is in the class.
abbrev pub Within : (ℕ → Bool) → Regex → Type 0
Within class (chars p) = (c : ℕ) → p c ≡ true → class c ≡ true
Within class (seq a b) = Within class a × Within class b
Within class (alt a b) = Within class a × Within class b
Within class (opt a) = Within class a
Within class (repeat a must may) = Within class a
Within class (not_ahead a) = Within class a
Within class (not_behind p) = Unit {0}
Within class boundary = Unit {0}

-- Two texts with the same beginning: of a number of characters, or up to one outside the class.
pub data Agree (class : ℕ → Bool) : ℕ → Text → Text → Type 0 where
  deep : {s t : Text} → Agree class 0 s t
  stop : {d c : ℕ} {s t : Text} → class c ≡ false → Agree class d (c ∷ s) (c ∷ t)
  next : {d c : ℕ} {s t : Text} → Agree class d s t → Agree class (suc d) (c ∷ s) (c ∷ t)

-- What is left to match reads `e` characters at most.
abbrev pub Blind : (ℕ → Bool) → ℕ → Cont → Type 0
Blind class e k =
    (prev : Option ℕ) (s t : Text) (n d : ℕ) → e ≤ d → Agree class d s t → k prev s n ≡ k prev t n

-- A step that adds at most `r` characters to what is read.
abbrev pub Adds : (ℕ → Bool) → ℕ → (Cont → Cont) → Type 0
Adds class r step = (k : Cont) (e : ℕ) → Blind class e k → Blind class (r + e) (step k)

sooner : {class : ℕ → Bool} {k : Cont} (e e' : ℕ) → e' ≤ e → Blind class e' k → Blind class e k
sooner e e' h b prev s t n d le a = b prev s t n d (omega arith) a

repeat_loop-Adds :
    (class : ℕ → Bool) (step : Cont → Cont) (r must may : ℕ)
    → Adds class r step
    → Adds class ((must + may) * r) (repeat_loop step must may)
unfolding repeat_loop
repeat_loop-Adds class step r zero zero h k e b prev s t n d le a = b prev s t n d (omega arith) a
repeat_loop-Adds class step r (suc must) may h k e b prev s t n d le a =
    h (repeat_loop step must may k) ((must + may) * r + e)
      (repeat_loop-Adds class step r must may h k e b) prev s t n d (grind arith) a
repeat_loop-Adds class step r zero (suc may) h k e b prev s t n d le a =
    let same =
      h (repeat_loop step zero may k) ((0 + may) * r + e)
        (repeat_loop-Adds class step r zero may h k e b) prev s t n d (grind arith) a in
    ground (arith, same, b prev s t n d (grind arith) a)

at_boundary-Agree :
    (u : Unicode) (class : ℕ → Bool) (prev : Option ℕ) (s t : Text) (d : ℕ)
    → 1 ≤ d
    → Agree class d s t
    → at_boundary u prev s ≡ at_boundary u prev t
unfolding at_boundary
at_boundary-Agree u class prev s t d h deep = absurd (omega arith)
at_boundary-Agree u class prev s t d h (stop out) = refl
at_boundary-Agree u class prev s t d h (next a) = refl

pub run-Adds :
    (u : Unicode) (class : ℕ → Bool) (r : Regex) → Within class r → Adds class (reach r) (run u r)
unfolding run
run-Adds u class (chars p) w k e b prev s t n d le deep = absurd (omega arith)
run-Adds u class (chars p) w k e b prev s t n d le (stop {c = c} out) = elim (Bool-cases (p c)) [
  | inl taken ↦ cc (w c taken)
  | inr misses ↦ rw misses
]
run-Adds u class (chars p) w k e b prev s t n d le (next {d = d'} {c = c} {s = s'} {t = t'} a) =
    rw (b (some c) s' t' (suc n) d' (omega arith) a)
run-Adds u class (seq x y) w k e b prev s t n d le a =
    run-Adds u class x w.0 (λ prev' s' n'. run u y k prev' s' n') (reach y + e)
      (run-Adds u class y w.1 k e b) prev s t n d (omega arith) a
run-Adds u class (alt x y) w k e b prev s t n d le a = ground (
  arith,
  run-Adds u class x w.0 k e b prev s t n d (omega arith) a,
  run-Adds u class y w.1 k e b prev s t n d (omega arith) a,
)
run-Adds u class (opt x) w k e b prev s t n d le a =
    ground (arith, run-Adds u class x w k e b prev s t n d le a, b prev s t n d (omega arith) a)
run-Adds u class (repeat x must may) w k e b prev s t n d le a =
    repeat_loop-Adds class (λ k' prev' s' n'. run u x k' prev' s' n') (reach x) must may
      (λ k' e' b'. run-Adds u class x w k' e' b') k e b prev s t n d le a
run-Adds u class (not_ahead x) w k e b prev s t n d le a =
    let ahead =
      run-Adds u class x w (λ prev' s' n'. some n') 0 (λ _ _ _ _ _ _ _. refl) prev s t n d
        (omega arith) a in
    ground (arith, ahead, b prev s t n d (omega arith) a)
run-Adds u class (not_behind p) w k e b prev s t n d le a = rw (b prev s t n d (omega arith) a)
run-Adds u class boundary w k e b prev s t n d le a =
    rw (at_boundary-Agree u class prev s t d (omega arith) a, b prev s t n d (omega arith) a)

-- Two texts that agree for as far as an expression reads match it alike.
pub match_length-Agree :
    (u : Unicode) (class : ℕ → Bool) (r : Regex) (prev : Option ℕ) (s t : Text) (d : ℕ)
    → Within class r
    → reach r ≤ d
    → Agree class d s t
    → match_length u r prev s ≡ match_length u r prev t
unfolding match_length
match_length-Agree u class r prev s t d w h a =
    run-Adds u class r w (λ prev' s' n'. some n') 0 (λ _ _ _ _ _ _ _. refl) prev s t 0 d
      (omega arith) a

-- A text and a longer one agree if one of its characters is outside the class.
pub Agree-all_of :
    (class : ℕ → Bool) (d : ℕ) (s t : Text) → all_of class s ≡ false → Agree class d s (s ++ t)
Agree-all_of class d [] t h = cc
Agree-all_of class zero (c ∷ s) t h = deep
Agree-all_of class (suc d) (c ∷ s) t h = elim (Bool-cases (class c)) [
  | inl inside ↦ next (Agree-all_of class d s t (ground arith))
  | inr outside ↦ stop outside
]

-- So they do for no more characters than the shorter has.
pub Agree-length : (class : ℕ → Bool) (d : ℕ) (s t : Text) → d ≤ length s → Agree class d s (s ++ t)
Agree-length class zero s t h = deep
Agree-length class (suc d) [] t h = absurd (omega arith)
Agree-length class (suc d) (c ∷ s) t h = next (Agree-length class d s t (omega arith))

Agree-shorter :
    (class : ℕ → Bool) (d : ℕ) (s t : Text) → Agree class (suc d) s t → Agree class d s t
Agree-shorter class d (c ∷ s) (c' ∷ t) (stop out) = stop out
Agree-shorter class zero s t (next a) = deep
Agree-shorter class (suc d) (c ∷ s) (c' ∷ t) (next a) = next (Agree-shorter class d s t a)

-- A character in front, of the class or not, takes nothing from what agrees.
pub Agree-cons :
    (class : ℕ → Bool) (c d : ℕ) (s t : Text) → Agree class d s t → Agree class d (c ∷ s) (c ∷ t)
Agree-cons class c d s t a = Agree-shorter class d (c ∷ s) (c ∷ t) (next a)
