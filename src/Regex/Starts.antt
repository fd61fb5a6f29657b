-- ===== src/Regex/Starts.antt =====
-- What a match starts with: a pattern whose first character has to lie in a class finds nothing at
-- a character outside it.
use mcp_llm_gateway_suite.Base.{
  ℕ, zero, suc, ◌+◌, ◌≤◌, ◌≡◌, refl, Bool, true, false, Option, none, some, [], ◌∷◌, arith,
}
use mcp_llm_gateway_suite.Base.Text.{Text}
use mcp_llm_gateway_suite.Regex.Defs.{
  Unicode, Regex, chars, seq, alt, opt, repeat, not_ahead, not_behind, boundary, Cont, head_is,
  repeat_loop, run, match_length,
}
use mcp_llm_gateway_suite.Regex.Local.{reach, Within, Agree, Agree-cons, run-Adds}

-- The first character that the expression takes is in the class, and it takes one.
pub data Starts (class : ℕ → Bool) : Regex → Type 0 where
  by_chars : {p : ℕ → Bool} → ((c : ℕ) → p c ≡ true → class c ≡ true) → Starts class (chars p)
  by_left : {a b : Regex} → Starts class a → Starts class (seq a b)
  by_opt : {a b : Regex} → Starts class a → Starts class b → Starts class (seq (opt a) b)
  by_behind : {p : ℕ → Bool} {b : Regex} → Starts class b → Starts class (seq (not_behind p) b)
  by_ahead : {a b : Regex} → Starts class b → Starts class (seq (not_ahead a) b)
  by_repeat : {a : Regex} {m e : ℕ} → Starts class a → Starts class (repeat a (suc m) e)

pub run-Starts :
    (u : Unicode) (class : ℕ → Bool) (r : Regex) (k : Cont) (prev : Option ℕ) (s : Text) (n : ℕ)
    → Starts class r
    → head_is class s ≡ false
    → run u r k prev s n ≡ none
unfolding run repeat_loop
run-Starts u class (chars p) k prev [] n h out = refl
run-Starts u class (chars p) k prev (c ∷ s) n (by_chars inside) out = ground (arith, inside c)
run-Starts u class (seq a b) k prev s n (by_left h) out = run-Starts u class a _ prev s n h out
run-Starts u class (seq (opt a) b) k prev s n (by_opt h h') out = rw (
  run-Starts u class a (λ prev' s' n'. run u b k prev' s' n') prev s n h out,
  run-Starts u class b k prev s n h' out,
)
run-Starts u class (seq (not_behind p) b) k prev s n (by_behind h) out =
    ground (arith, run-Starts u class b k prev s n h out)
run-Starts u class (seq (not_ahead a) b) k prev s n (by_ahead h) out =
    ground (arith, run-Starts u class b k prev s n h out)
run-Starts u class (repeat a (suc m) e) k prev s n (by_repeat h) out =
    run-Starts u class a _ prev s n h out
run-Starts u class (alt a b) k prev s n h out = elim h [ ]
run-Starts u class (opt a) k prev s n h out = elim h [ ]
run-Starts u class (repeat a zero e) k prev s n h out = elim h [ ]
run-Starts u class (not_ahead a) k prev s n h out = elim h [ ]
run-Starts u class (not_behind p) k prev s n h out = elim h [ ]
run-Starts u class boundary k prev s n h out = elim h [ ]

pub match_length-Starts :
    (u : Unicode) (class : ℕ → Bool) (r : Regex) (prev : Option ℕ) (s : Text)
    → Starts class r
    → head_is class s ≡ false
    → match_length u r prev s ≡ none
unfolding match_length
match_length-Starts u class r prev s h out =
    run-Starts u class r (λ prev' s' n'. some n') prev s 0 h out

-- An optional part may start with a character outside the class of all that follows: it is only
-- after the first character that the texts have to agree.
pub match_length-head :
    (u : Unicode) (class p q : ℕ → Bool) (a b x : Regex) (prev : Option ℕ) (c : ℕ) (s t : Text)
    (d : ℕ)
    → Within class a × Within class b × Within class x
    → reach a + reach b + reach x ≤ d
    → Agree class d s t
    → match_length u (seq (not_behind p) (seq (opt (seq (seq (chars q) a) b)) x)) prev (c ∷ s)
      ≡ match_length u (seq (not_behind p) (seq (opt (seq (seq (chars q) a) b)) x)) prev (c ∷ t)
unfolding match_length run
match_length-head u class p q a b x prev c s t d w le agree =
    let end : Cont = λ prev' s' n'. some n' in
    let on_x = run-Adds u class x w.2 end 0 (λ _ _ _ _ _ _ _. refl) in
    let on_b = run-Adds u class b w.1 (λ prev' s' n'. run u x end prev' s' n') (reach x + 0) on_x in
    let on_a =
      run-Adds u class a w.0
        (λ prev' s' n'. run u b (λ prev' s' n'. run u x end prev' s' n') prev' s' n')
        (reach b + (reach x + 0)) on_b (some c) s t 1 d (omega arith) agree in
    ground
      (arith, on_a, on_x prev (c ∷ s) (c ∷ t) 0 d (omega arith) (Agree-cons class c d s t agree))
