-- ===== src/Limiter/Ledger.antt =====
-- What each operation of task4_router/rate_limiter.py does to the usage of every tenant.
use mcp_llm_gateway_suite.Base.{
  ℕ, ◌≤◌, ◌≡◌, refl, false, [], ◌∷◌, ◌++◌, if◌then◌else◌, if_same, arith,
}
use mcp_llm_gateway_suite.Base.Int.{ℤ, pos, ◌+ℤ◌, ◌≤ℤ◌}
use mcp_llm_gateway_suite.Base.Text.{Text, text_eq}
use mcp_llm_gateway_suite.Limiter.Defs.{
  Row, Table, Limiter, Reservation, ReserveError, held, refused, reserved, committed, in_window,
  counts, sum_tokens, has_id, evict, insert_row, set_tokens, reserve_sync, commit_sync,
  release_sync,
}
use mcp_llm_gateway_suite.Limiter.Window.{sum_tokens-append, sum_tokens-evict}

-- The row of a new reservation.
abbrev pub hold : ℕ → Text → ℤ → ℕ → Row
hold uuid key estimated now = record {
  id = uuid;
  api_key = key;
  tokens = estimated;
  created_at = now;
  state = reserved;
}

-- What a reservation that is held has checked and done.
pub record IsHeld (l : Limiter) (uuid : ℕ) (key : Text) (estimated : ℤ) (now : ℕ) (t : Table)
    (r : Reservation) (t' : Table) : Type 0 where
  pub nonneg : pos 0 ≤ℤ estimated
  pub within : sum_tokens (counts now l.window key) t +ℤ estimated ≤ℤ l.limit
  pub fresh : has_id uuid (evict now l.window t) ≡ false
  pub handle : r ≡ record { id = uuid; api_key = key; estimated_tokens = estimated }
  pub table : t' ≡ evict now l.window t ++ (hold uuid key estimated now ∷ [])

module _ (l : Limiter) (uuid : ℕ) (key : Text) (estimated : ℤ) (now : ℕ) (t : Table) where
  pub reserve_sync-IsHeld :
      (r : Reservation) (t' : Table)
      → reserve_sync l uuid key estimated now t ≡ (held r, t')
      → IsHeld l uuid key estimated now t r t'
  unfolding reserve_sync insert_row
  reserve_sync-IsHeld r t' e = record {
    nonneg = ground arith;
    within = ground arith;
    fresh = ground arith;
    handle = ground arith;
    table = ground arith;
  }

  -- A refusal of any kind leaves the table as it was.
  pub reserve_sync_refused :
      (e : ReserveError) (t' : Table)
      → reserve_sync l uuid key estimated now t ≡ (refused e, t')
      → t' ≡ t
  unfolding reserve_sync insert_row
  reserve_sync_refused e t' h = ground arith

  -- A reservation under a free id that is not negative and fits the window is held.
  pub reserve_sync_fits :
      has_id uuid (evict now l.window t) ≡ false
      → pos 0 ≤ℤ estimated
      → sum_tokens (counts now l.window key) t +ℤ estimated ≤ℤ l.limit
      → reserve_sync l uuid key estimated now t ≡ (
        held (record { id = uuid; api_key = key; estimated_tokens = estimated }),
        evict now l.window t ++ (hold uuid key estimated now ∷ []),
      )
  unfolding reserve_sync insert_row
  reserve_sync_fits fresh n fits = ground arith

release_sync_absent : (i : ℕ) (t : Table) → has_id i t ≡ false → release_sync i t ≡ t
unfolding has_id release_sync
release_sync_absent i [] h = refl
release_sync_absent i (r ∷ t) h = ground (arith, release_sync_absent i t)

-- Releasing the row that was just inserted removes it and nothing else.
release_sync-append :
    (t : Table) (r : Row) → has_id r.id t ≡ false → release_sync r.id (t ++ (r ∷ [])) ≡ t
unfolding has_id release_sync
release_sync-append [] r h = ground arith
release_sync-append (x ∷ t) r h = ground (arith, release_sync-append t r)

commit_sync_absent :
    (i : ℕ) (actual : ℤ) (t : Table) → has_id i t ≡ false → commit_sync i actual t ≡ t
unfolding has_id commit_sync set_tokens
commit_sync_absent i actual [] h = refl
commit_sync_absent i actual (r ∷ t) h = ground (arith, commit_sync_absent i actual t)

commit_sync-append :
    (t : Table) (r : Row) (actual : ℤ)
    → has_id r.id t ≡ false
    → commit_sync r.id actual (t ++ (r ∷ []))
      ≡ t ++ (record r { tokens = actual; state = committed } ∷ [])
unfolding has_id commit_sync set_tokens
commit_sync-append [] r actual h = ground arith
commit_sync-append (x ∷ t) r actual h = ground (arith, commit_sync-append t r actual)

-- The part of a bill for the row that a query of `other` at the time `later` counts.
abbrev pub share : ℕ → ℕ → Text → Row → ℤ → ℤ
share later window other r bill = if counts later window other r then bill else pos 0

pub share-le :
    (later window : ℕ) (other : Text) (r : Row) (bill : ℤ)
    → pos 0 ≤ℤ bill
    → share later window other r bill ≤ℤ bill
share-le later window other r bill n = ground arith

pub share-zero :
    (later window : ℕ) (other : Text) (r : Row) → share later window other r (pos 0) ≡ pos 0
share-zero later window other r = if_same (counts later window other r) (pos 0)

-- A hold counts for the tenant that made it only.
pub share_other :
    (later window uuid now : ℕ) (key other : Text) (estimated bill : ℤ)
    → text_eq key other ≡ false
    → share later window other (hold uuid key estimated now) bill ≡ pos 0
unfolding counts
share_other later window uuid now key other estimated bill differ = rw differ

module _ (l : Limiter) (uuid : ℕ) (key : Text) (estimated : ℤ) (now : ℕ) (t : Table)
    (r : Reservation) (t' : Table)
    (reserve : reserve_sync l uuid key estimated now t ≡ (held r, t')) where
  facts : IsHeld l uuid key estimated now t r t'
  facts = reserve_sync-IsHeld l uuid key estimated now t r t' reserve

  -- From the reservation on, the usage of every tenant is what it was, plus the hold where the
  -- tenant is the one that reserved and the hold is still in the window: the eviction that the
  -- reservation makes is seen by no later query.
  pub sum_tokens-reserve_sync :
      (other : Text) (later : ℕ)
      → now ≤ later
      → sum_tokens (counts later l.window other) t'
        ≡ sum_tokens (counts later l.window other) t
          +ℤ share later l.window other (hold uuid key estimated now) estimated
  sum_tokens-reserve_sync other later h = rw (
    facts.table,
    sum_tokens-append (counts later l.window other) (evict now l.window t)
        (hold uuid key estimated now),
    sum_tokens-evict now later l.window other t h,
  )

  -- Giving the reservation back leaves the table as the eviction alone would have left it.
  pub release_sync-reserve_sync : release_sync r.id t' ≡ evict now l.window t
  release_sync-reserve_sync =
      rw (facts.table, facts.handle)
        (release_sync-append (evict now l.window t) (hold uuid key estimated now) facts.fresh)

  -- A commit replaces the estimate by the bill: the usage of every tenant is what it was before
  -- the reservation, plus the bill where it counts.
  pub sum_tokens-commit_sync-reserve_sync :
      (actual : ℤ) (other : Text) (later : ℕ)
      → now ≤ later
      → sum_tokens (counts later l.window other) (commit_sync r.id actual t')
        ≡ sum_tokens (counts later l.window other) t
          +ℤ share later l.window other (hold uuid key estimated now) actual
  unfolding counts in_window
  sum_tokens-commit_sync-reserve_sync actual other later h = rw (
    facts.table,
    facts.handle,
    commit_sync-append (evict now l.window t) (hold uuid key estimated now) actual facts.fresh,
    sum_tokens-append (counts later l.window other) (evict now l.window t)
        (record (hold uuid key estimated now) { tokens = actual; state = committed }),
    sum_tokens-evict now later l.window other t h,
  )
