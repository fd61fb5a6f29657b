-- ===== src/Limiter/Window.antt =====
-- What the queries of task4_router/rate_limiter.py sum: eviction and the passing of time, an
-- insertion, an update and a deletion.
use mcp_llm_gateway_suite.Base.{
  ℕ, ◌≤◌, ◌≡◌, refl, inl, inr, Bool, true, [], ◌∷◌, ◌++◌, if◌then◌else◌, keep_if, All, arith,
  Bool-cases,
}
use mcp_llm_gateway_suite.Base.Int.{ℤ, pos, ◌+ℤ◌, ◌≤ℤ◌, int_laws}
use mcp_llm_gateway_suite.Base.Text.{Text}
use mcp_llm_gateway_suite.Limiter.Defs.{
  Row, Table, in_window, counts, sum_tokens, evict, set_tokens, commit_sync,
}

-- No row carries a negative number of tokens.
abbrev pub IsPaid : Table → Type 0
IsPaid = All (λ r. pos 0 ≤ℤ r.tokens)

-- A bill for the reservation `i` that does not exceed what the reservation holds.
abbrev pub Covers : ℕ → ℤ → Table → Type 0
Covers i actual = All (λ r. r.id ≡ i → actual ≤ℤ r.tokens)

pub sum_tokens-append :
    (p : Row → Bool) (t : Table) (r : Row)
    → sum_tokens p (t ++ (r ∷ [])) ≡ sum_tokens p t +ℤ (if p r then r.tokens else pos 0)
unfolding sum_tokens
sum_tokens-append p [] r = omega int_laws
sum_tokens-append p (x ∷ t) r = rw (sum_tokens-append p t r) (omega int_laws)

-- What a query counts is summed alike before and after an eviction that keeps it.
pub sum_tokens-keep_if :
    (p q : Row → Bool) (t : Table)
    → ((r : Row) → p r ≡ true → q r ≡ true)
    → sum_tokens p (keep_if q t) ≡ sum_tokens p t
unfolding sum_tokens
sum_tokens-keep_if p q [] h = refl
sum_tokens-keep_if p q (r ∷ t) h = elim (Bool-cases (q r)) [
  | inl kept ↦ rw (kept, sum_tokens-keep_if p q t h)
  | inr gone ↦ elim (Bool-cases (p r)) [
    | inl counted ↦ absurd (ground (arith, h r counted))
    | inr out ↦ rw (gone, out, sum_tokens-keep_if p q t h) (omega int_laws)
  ]
]

-- A deletion never raises a sum.
pub sum_tokens-keep_if-le :
    (p q : Row → Bool) (t : Table) → IsPaid t → sum_tokens p (keep_if q t) ≤ℤ sum_tokens p t
unfolding sum_tokens
sum_tokens-keep_if-le p q [] h = omega arith
sum_tokens-keep_if-le p q (r ∷ t) h = elim (Bool-cases (q r)) [
  | inl kept ↦ rw kept (omega (int_laws, sum_tokens-keep_if-le p q t h.1))
  | inr gone ↦ rw gone (elim (Bool-cases (p r)) [
    | inl counted ↦ rw counted (omega (int_laws, sum_tokens-keep_if-le p q t h.1))
    | inr out ↦ rw out (omega (int_laws, sum_tokens-keep_if-le p q t h.1))
  ])
]

-- A query that counts fewer rows sums no more.
pub sum_tokens_mono :
    (p q : Row → Bool) (t : Table)
    → IsPaid t
    → ((r : Row) → p r ≡ true → q r ≡ true)
    → sum_tokens p t ≤ℤ sum_tokens q t
unfolding sum_tokens
sum_tokens_mono p q [] h sub = omega arith
sum_tokens_mono p q (r ∷ t) h sub = elim (Bool-cases (p r)) [
  | inl counted ↦ rw (counted, sub r counted) (omega (int_laws, sum_tokens_mono p q t h.1 sub))
  | inr out ↦ rw out (elim (Bool-cases (q r)) [
    | inl more ↦ rw more (omega (int_laws, sum_tokens_mono p q t h.1 sub))
    | inr none_more ↦ rw none_more (omega (int_laws, sum_tokens_mono p q t h.1 sub))
  ])
]

pub counts_later :
    (now later window : ℕ) (key : Text) (r : Row)
    → now ≤ later
    → counts later window key r ≡ true
    → counts now window key r ≡ true
unfolding counts in_window
counts_later now later window key r h c = ground arith

pub in_window_later :
    (now later window : ℕ) (key : Text) (r : Row)
    → now ≤ later
    → counts later window key r ≡ true
    → in_window now window r ≡ true
unfolding counts in_window
in_window_later now later window key r h c = ground arith

-- From the time of the eviction on, no query sees that it took place.
pub sum_tokens-evict :
    (now later window : ℕ) (key : Text) (t : Table)
    → now ≤ later
    → sum_tokens (counts later window key) (evict now window t)
      ≡ sum_tokens (counts later window key) t
unfolding evict
sum_tokens-evict now later window key t h =
    sum_tokens-keep_if (counts later window key) (in_window now window) t
      (λ r c. in_window_later now later window key r h c)

pub keep_if-IsPaid : (q : Row → Bool) (t : Table) → IsPaid t → IsPaid (keep_if q t)
keep_if-IsPaid q [] h = tt
keep_if-IsPaid q (r ∷ t) h = elim (Bool-cases (q r)) [
  | inl kept ↦ rw kept (h.0, keep_if-IsPaid q t h.1)
  | inr gone ↦ rw gone (keep_if-IsPaid q t h.1)
]

pub append-IsPaid : (t : Table) (r : Row) → IsPaid t → pos 0 ≤ℤ r.tokens → IsPaid (t ++ (r ∷ []))
append-IsPaid [] r h n = (n, tt)
append-IsPaid (x ∷ t) r h n = (h.0, append-IsPaid t r h.1 n)

pub commit_sync-IsPaid :
    (i : ℕ) (actual : ℤ) (t : Table) → IsPaid t → pos 0 ≤ℤ actual → IsPaid (commit_sync i actual t)
unfolding commit_sync
commit_sync-IsPaid i actual [] h n = tt
commit_sync-IsPaid i actual (r ∷ t) h n = (ground arith, commit_sync-IsPaid i actual t h.1 n)

counts-set_tokens :
    (i : ℕ) (actual : ℤ) (now window : ℕ) (key : Text) (r : Row)
    → counts now window key (set_tokens i actual r) ≡ counts now window key r
unfolding counts in_window set_tokens
counts-set_tokens i actual now window key r = ground arith

tokens-set_tokens-le :
    (i : ℕ) (actual : ℤ) (r : Row)
    → (r.id ≡ i → actual ≤ℤ r.tokens)
    → (set_tokens i actual r).tokens ≤ℤ r.tokens
unfolding set_tokens
tokens-set_tokens-le i actual r h = ground (arith, h)

-- A commit within the hold never raises a sum.
pub sum_tokens-commit_sync-le :
    (i : ℕ) (actual : ℤ) (now window : ℕ) (key : Text) (t : Table)
    → Covers i actual t
    → sum_tokens (counts now window key) (commit_sync i actual t)
      ≤ℤ sum_tokens (counts now window key) t
unfolding commit_sync sum_tokens
sum_tokens-commit_sync-le i actual now window key [] h = omega arith
sum_tokens-commit_sync-le i actual now window key (r ∷ t) h =
    let ih = sum_tokens-commit_sync-le i actual now window key t h.1 in
    let le = tokens-set_tokens-le i actual r h.0 in
    rw (counts-set_tokens i actual now window key r) (elim (Bool-cases (counts now window key r)) [
      | inl counted ↦ rw counted (omega (int_laws, ih, le))
      | inr out ↦ rw out (omega (int_laws, ih))
    ])
