-- ===== src/Limiter/Retry.antt =====
-- The `retry_after_s` of a refusal by task4_router/rate_limiter.py, against what the same request
-- meets when it is made again after that time.
use mcp_llm_gateway_suite.Base.{
  ◌*◌, ◌-◌, ℕ, ◌+◌, ◌≤◌, ◌≡◌, refl, inl, inr, Bool, true, false, Option, none, some, [], ◌∷◌, ◌==◌,
  All, arith, Bool-cases, Option-cases,
}
use mcp_llm_gateway_suite.Base.Int.{ℤ, pos, ltb_ℤ, ◌+ℤ◌}
use mcp_llm_gateway_suite.Base.Text.{Text}
use mcp_llm_gateway_suite.Limiter.Defs.{
  Row, Table, Limiter, refused, rate_limit_exceeded, in_window, counts, sum_tokens, min_created_at,
  round_ms, retry_after, reserve_sync, insert_row,
}

module _ (p q : Row → Bool) where
  abbrev Agree : Table → Type 0
  Agree = All (λ r. p r ≡ q r)

  sum_tokens-Agree : (t : Table) → Agree t → sum_tokens p t ≡ sum_tokens q t
  unfolding sum_tokens
  sum_tokens-Agree [] h = refl
  sum_tokens-Agree (r ∷ t) h = rw (h.0, sum_tokens-Agree t h.1)

  min_created_at-Agree : (t : Table) → Agree t → min_created_at p t ≡ min_created_at q t
  unfolding min_created_at
  min_created_at-Agree [] h = refl
  min_created_at-Agree (r ∷ t) h = rw (h.0, min_created_at-Agree t h.1)

min_created_at-None :
    (p : Row → Bool) (t : Table) → min_created_at p t ≡ none → All (λ r. p r ≡ false) t
unfolding min_created_at
min_created_at-None p [] h = tt
min_created_at-None p (r ∷ t) h = (ground arith, min_created_at-None p t (ground arith))

abbrev NotBefore : ℕ → Option ℕ → Type 0
NotBefore m none = Unit
NotBefore m (some k) = m ≤ k

-- The minimum bounds every row that is counted.
min_created_at_bound :
    (p : Row → Bool) (t : Table) (m : ℕ)
    → NotBefore m (min_created_at p t)
    → All (λ r. p r ≡ true → m ≤ r.created_at) t
unfolding min_created_at
min_created_at_bound p [] m h = tt
min_created_at_bound p (r ∷ t) m h = elim (Bool-cases (p r)) [
  | inr out ↦ (λ c. absurd (ground arith), min_created_at_bound p t m (rw out at h))
  | inl counted ↦ elim (Option-cases (min_created_at p t)) [
    | inl e ↦ (λ _. ground arith, min_created_at_bound p t m (rw e tt))
    | inr (k, e) ↦ (λ _. ground arith, min_created_at_bound p t m (rw e (ground arith)))
  ]
]

-- The minimum is a time of a row that is counted.
min_created_at_recent :
    (now window : ℕ) (key : Text) (t : Table) (m : ℕ)
    → min_created_at (counts now window key) t ≡ some m
    → now ≤ m + window
unfolding min_created_at counts in_window
min_created_at_recent now window key [] m h = absurd (ground arith)
min_created_at_recent now window key (r ∷ t) m h =
    elim (Option-cases (min_created_at (counts now window key) t)) [
      | inl e ↦ ground arith
      | inr (k, e) ↦ ground (arith, min_created_at_recent now window key t k e)
    ]

counts_until :
    (now later window : ℕ) (key : Text) (m : ℕ)
    → now ≤ later
    → later ≤ m + window
    → (r : Row) → (counts now window key r ≡ true → m ≤ r.created_at)
    → counts later window key r ≡ counts now window key r
unfolding counts in_window
counts_until now later window key m since until r h = ground (arith, h)

-- Up to the time when the oldest row is exactly one window old, the same rows are counted.
counts_until_oldest :
    (now later window : ℕ) (key : Text) (t : Table) (m : ℕ)
    → now ≤ later
    → later ≤ m + window
    → min_created_at (counts now window key) t ≡ some m
    → Agree (counts later window key) (counts now window key) t
counts_until_oldest now later window key t m since until e =
    agree t (min_created_at_bound (counts now window key) t m (rw e (omega arith)))
  where
    agree :
        (u : Table)
        → All (λ r. counts now window key r ≡ true → m ≤ r.created_at) u
        → Agree (counts later window key) (counts now window key) u
    agree [] h = tt
    agree (r ∷ u) h = (counts_until now later window key m since until r h.0, agree u h.1)

-- What rounding down leaves of a time is rounded to nothing.
round_ms_rest : (x n : ℕ) → n ≡ round_ms x → n * 1000 ≤ x → round_ms (x - n * 1000) ≡ 0
unfolding round_ms
round_ms_rest x n h down = ground arith

round_ms_0 : round_ms 0 ≡ 0
unfolding round_ms
round_ms_0 = refl

-- After the time that a refusal reports, if it is not rounded up, the two queries of the check give
-- what they gave, and the time to wait is down to zero.
same_queries :
    (window : ℕ) (key : Text) (now after : ℕ) (t : Table)
    → after ≡ retry_after now window (min_created_at (counts now window key) t)
    → ((m : ℕ)
        → min_created_at (counts now window key) t ≡ some m
        → after * 1000 ≤ m + window - now)
    → (sum_tokens (counts (now + after * 1000) window key) t ≡ sum_tokens (counts now window key) t)
      × (min_created_at (counts (now + after * 1000) window key) t
          ≡ min_created_at (counts now window key) t)
      × (retry_after (now + after * 1000) window (min_created_at (counts now window key) t) ≡ 0)
unfolding retry_after
same_queries window key now after t a down =
    elim (Option-cases (min_created_at (counts now window key) t)) [
      | inl e ↦
          let none_left : after ≡ 0 = rw e at a in
          let z : now + after * 1000 ≡ now = omega (arith, none_left) in
          rw (z, e) (refl, refl, refl)
      | inr (m, e) ↦
          let until = down m e in
          let recent = min_created_at_recent now window key t m e in
          let later = now + after * 1000 in
          let same = counts_until_oldest now later window key t m (omega arith) (omega arith) e in
          (
            sum_tokens-Agree (counts later window key) (counts now window key) t same,
            min_created_at-Agree (counts later window key) (counts now window key) t same,
            rw e (elim (Bool-cases (m == 0)) [
              | inl start ↦ rw start refl
              | inr positive ↦
                  let is_round : after ≡ round_ms (m + window - now) = rw (e, positive) at a in
                  let rest = round_ms_rest (m + window - now) after is_round until in
                  let left : m + window - (now + after * 1000) ≡ m + window - now - after * 1000 =
                    omega arith in
                  rw (positive, left) rest
            ]),
          )
    ]

module _ (l : Limiter) (uuid : ℕ) (key : Text) (estimated : ℤ) (now : ℕ) (t : Table) where
  -- What a refusal for the limit reports.
  pub refusal :
      (used limit : ℤ) (after : ℕ) (t' : Table)
      → reserve_sync l uuid key estimated now t
        ≡ (refused (rate_limit_exceeded used limit after), t')
      → (used ≡ sum_tokens (counts now l.window key) t)
        × (limit ≡ l.limit)
        × (after ≡ retry_after now l.window (min_created_at (counts now l.window key) t))
        × (ltb_ℤ estimated (pos 0) ≡ false)
        × (ltb_ℤ l.limit (sum_tokens (counts now l.window key) t +ℤ estimated) ≡ true)
  unfolding reserve_sync insert_row
  refusal used limit after t' h =
      (ground arith, ground arith, ground arith, ground arith, ground arith)

  -- When a client that was refused for the limit waits exactly the time that it was told, where that
  -- was not rounded up to the next millisecond, and nothing else happens, the same request is refused
  -- again with the same usage, and is told to wait no time at all: the window is closed at its old
  -- end, so that the oldest row still counts.
  pub reserve_sync_after_wait :
      (used limit : ℤ) (after : ℕ) (t' : Table)
      → reserve_sync l uuid key estimated now t
        ≡ (refused (rate_limit_exceeded used limit after), t')
      → ((m : ℕ)
          → min_created_at (counts now l.window key) t ≡ some m
          → after * 1000 ≤ m + l.window - now)
      → reserve_sync l uuid key estimated (now + after * 1000) t
        ≡ (refused (rate_limit_exceeded used limit 0), t)
  unfolding reserve_sync insert_row
  reserve_sync_after_wait used limit after t' h down =
      let (u, lim, a, n, full) = refusal used limit after t' h in
      let (sums, mins, wait) = same_queries l.window key now after t a down in
      rw (n, sums, full, mins, wait, u, lim)
