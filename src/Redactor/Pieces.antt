-- ===== src/Redactor/Pieces.antt =====
-- Texts in pieces: what task3_streaming_guardrail/redactor.py has sent, remembers and keeps.
use mcp_llm_gateway_suite.Base.{
  ℕ, zero, suc, ◌-◌, ◌≤◌, ◌<◌, ◌≡◌, refl, ◌∙◌, ap, false, none, [], ◌∷◌, ◌++◌, length, take, drop,
  arith, length-append, ◌==◌,
}
use mcp_llm_gateway_suite.Base.Text.{Text}
use mcp_llm_gateway_suite.Redactor.Scan.{previous}
use mcp_llm_gateway_suite.Redactor.Emit.{last_characters}
use mcp_llm_gateway_suite.Redactor.Reference.{last_of, previous-last_of, last_of-drop}

pub drop-past : (xs ys : Text) (n : ℕ) → length xs ≤ n → drop n (xs ++ ys) ≡ drop (n - length xs) ys
drop-past [] ys n h = let z : n - 0 ≡ n = omega arith in rw z
drop-past (x ∷ xs) ys zero h = absurd (omega arith)
drop-past (x ∷ xs) ys (suc n) h =
    let z : suc n - suc (length xs) ≡ n - length xs = omega arith in
    rw z (drop-past xs ys n (omega arith))

pub take-past :
    (xs ys : Text) (n : ℕ) → length xs ≤ n → take n (xs ++ ys) ≡ xs ++ take (n - length xs) ys
take-past [] ys n h = let z : n - 0 ≡ n = omega arith in rw z
take-past (x ∷ xs) ys zero h = absurd (omega arith)
take-past (x ∷ xs) ys (suc n) h =
    let z : suc n - suc (length xs) ≡ n - length xs = omega arith in
    rw z (ap (λ (t : Text). x ∷ t) (take-past xs ys n (omega arith)))

pub take-length : (xs ys : Text) → take (length xs) (xs ++ ys) ≡ xs
take-length [] ys = refl
take-length (x ∷ xs) ys = ap (λ (t : Text). x ∷ t) (take-length xs ys)

pub drop-length : (xs ys : Text) → drop (length xs) (xs ++ ys) ≡ ys
drop-length [] ys = refl
drop-length (x ∷ xs) ys = drop-length xs ys

pub last_of-last_characters :
    (n : ℕ) (s : Text) → 0 < n → last_of none (last_characters n s) ≡ last_of none s
unfolding last_characters
last_of-last_characters n [] h =
    let positive : (n == 0) ≡ false = ground arith in
    let z : 0 - n ≡ 0 = omega arith in rw (positive, z)
last_of-last_characters n (c ∷ s) h =
    let positive : (n == 0) ≡ false = ground arith in
    rw positive (last_of-drop none none (length (c ∷ s) - n) (c ∷ s) (omega arith))

pub previous-append : (xs ys : Text) → previous (xs ++ ys) (length xs) ≡ last_of none xs
previous-append xs ys =
    previous-last_of (xs ++ ys) (length xs) (omega (arith, length-append xs ys))
    ∙ ap (last_of none) (take-length xs ys)
