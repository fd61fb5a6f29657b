-- ===== src/Limiter/Defs.antt =====
-- `SlidingWindowRateLimiter` of task4_router/rate_limiter.py: the table and the operations.
use mcp_llm_gateway_suite.Base.{
  ltb, ◌/◌, ◌%◌, ℕ, ◌+◌, ◌-◌, Bool, false, ◌&&◌, ◌||◌, not, Option, none, some, List, [], ◌∷◌, ◌++◌,
  leb, ◌==◌, if◌then◌else◌, length, keep_if, min,
}
use mcp_llm_gateway_suite.Base.Int.{ℤ, pos, ◌+ℤ◌, ◌-ℤ◌, ltb_ℤ}
use mcp_llm_gateway_suite.Base.Text.{Text, text_eq}

pub data RowState : Type 0 where
  reserved committed : RowState

-- A row of `token_usage`; `id` is the primary key.
pub record Row : Type 0 where
  pub id : ℕ
  pub api_key : Text
  pub tokens : ℤ
  pub created_at : ℕ
  pub state : RowState

abbrev pub Table : Type 0
Table = List Row

-- The attributes of the limiter that its queries use.
pub record Limiter : Type 0 where
  pub limit : ℤ
  pub window : ℕ

pub record Reservation : Type 0 where
  pub id : ℕ
  pub api_key : Text
  pub estimated_tokens : ℤ

pub record UsageSnapshot : Type 0 where
  pub api_key : Text
  pub used_tokens : ℤ
  pub limit_tokens : ℤ

-- What `_reserve_sync` raises: `integrity_error` is SQLite's answer to an id that is taken.
pub data ReserveError : Type 0 where
  value_error : ReserveError
  rate_limit_exceeded : ℤ → ℤ → ℕ → ReserveError
  integrity_error : ReserveError

pub data Reserved : Type 0 where
  held : Reservation → Reserved
  refused : ReserveError → Reserved

-- `created_at >= now - window`
unfoldable pub in_window : ℕ → ℕ → Row → Bool
in_window now window r = leb now (r.created_at + window)

-- `WHERE api_key = ? AND created_at >= ?`
unfoldable pub counts : ℕ → ℕ → Text → Row → Bool
unfolding in_window
counts now window key r = text_eq r.api_key key && in_window now window r

-- `SELECT COALESCE(SUM(tokens), 0) ...`
unfoldable pub sum_tokens : (Row → Bool) → Table → ℤ
sum_tokens p [] = pos 0
sum_tokens p (r ∷ t) = (if p r then r.tokens else pos 0) +ℤ sum_tokens p t

-- `SELECT MIN(created_at) ...`, `none` over no row.
unfoldable pub min_created_at : (Row → Bool) → Table → Option ℕ
min_created_at p [] = none
min_created_at p (r ∷ t) =
    let rest = min_created_at p t in
    if p r
    then elim rest [ none ↦ some r.created_at | some m ↦ some (min r.created_at m) ]
    else rest

unfoldable pub has_id : ℕ → Table → Bool
has_id i [] = false
has_id i (r ∷ t) = r.id == i || has_id i t

-- `DELETE FROM token_usage WHERE created_at < ?`
unfoldable pub evict : ℕ → ℕ → Table → Table
unfolding in_window
evict now window t = keep_if (in_window now window) t

-- `INSERT INTO token_usage`: refused if the primary key is taken.
unfoldable pub insert_row : Row → Table → Option Table
unfolding has_id
insert_row r t = if has_id r.id t then none else some (t ++ (r ∷ []))

-- `round(_, 3)` of a time in seconds, from microseconds to milliseconds: to the nearest, and to the
-- even one of two that are as near.
unfoldable pub round_ms : ℕ → ℕ
round_ms x =
    let down = x / 1000 in
    let rest = x % 1000 in
    if ltb rest 500
    then down
    else if ltb 500 rest
    then down + 1
    else if down % 2 == 0
    then down
    else down + 1

-- `max(0.0, (oldest + self.window) - now) if oldest else 0.0`: no row and the time 0 are both
-- false in Python.
unfoldable pub retry_after : ℕ → ℕ → Option ℕ → ℕ
unfolding round_ms
retry_after now window none = 0
retry_after now window (some oldest) = if oldest == 0 then 0 else round_ms (oldest + window - now)

-- The check and the insertion of one transaction. Closing the connection after an error in the
-- insertion rolls the eviction back.
unfoldable pub reserve_sync : Limiter → ℕ → Text → ℤ → ℕ → Table → Reserved × Table
unfolding counts sum_tokens min_created_at evict insert_row retry_after
reserve_sync l uuid key estimated now t =
    if ltb_ℤ estimated (pos 0)
    then (refused value_error, t)
    else let used = sum_tokens (counts now l.window key) t in
      if ltb_ℤ l.limit (used +ℤ estimated)
      then (
        refused (
            rate_limit_exceeded used l.limit
              (retry_after now l.window (min_created_at (counts now l.window key) t))),
        t,
      )
      else elim (insert_row
          (record {
            id = uuid;
            api_key = key;
            tokens = estimated;
            created_at = now;
            state = reserved;
          })
          (evict now l.window t)) [
            | none ↦ (refused integrity_error, t)
            | some t' ↦
                (held (record { id = uuid; api_key = key; estimated_tokens = estimated }), t')
          ]

-- `UPDATE ... SET tokens = ?, state = 'committed'` at one row.
unfoldable pub set_tokens : ℕ → ℤ → Row → Row
set_tokens i actual r = if r.id == i then record r { tokens = actual; state = committed } else r

-- An exception of SQLite rolls the transaction back, and the table is as before; the callers see it as
-- a `Trouble` of the route.
unfoldable pub commit_sync : ℕ → ℤ → Table → Table
unfolding set_tokens
commit_sync i actual [] = []
commit_sync i actual (r ∷ t) = set_tokens i actual r ∷ commit_sync i actual t

-- `DELETE FROM token_usage WHERE id = ?`
unfoldable pub release_sync : ℕ → Table → Table
release_sync i t = keep_if (λ r. not (r.id == i)) t

unfoldable pub usage_sync : Limiter → Text → ℕ → Table → UsageSnapshot
unfolding counts sum_tokens
usage_sync l key now t = record {
  api_key = key;
  used_tokens = sum_tokens (counts now l.window key) t;
  limit_tokens = l.limit;
}

-- `UsageSnapshot.remaining_tokens`: `max(0, limit - used)`.
unfoldable pub remaining_tokens : UsageSnapshot → ℤ
remaining_tokens s =
    if ltb_ℤ s.limit_tokens s.used_tokens then pos 0 else s.limit_tokens -ℤ s.used_tokens

unfoldable pub row_count_sync : Table → ℕ
row_count_sync t = length t
