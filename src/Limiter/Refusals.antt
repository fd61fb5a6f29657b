-- ===== src/Limiter/Refusals.antt =====
-- Why a reservation of task4_router/rate_limiter.py is refused with an exception that is no
-- refusal for the limit.
use mcp_llm_gateway_suite.Base.{ℕ, ◌≡◌, Bool, true, inl, inr, [], ◌∷◌, keep_if, arith, Bool-cases}
use mcp_llm_gateway_suite.Base.Int.{ℤ, pos, ltb_ℤ}
use mcp_llm_gateway_suite.Base.Text.{Text}
use mcp_llm_gateway_suite.Limiter.Defs.{
  Row, Table, Limiter, refused, value_error, integrity_error, has_id, evict, in_window,
  reserve_sync, insert_row,
}

module _ (l : Limiter) (uuid : ℕ) (key : Text) (estimated : ℤ) (now : ℕ) (t t' : Table) where
  -- A `ValueError` is raised for a negative estimate only.
  pub refused-value_error :
      reserve_sync l uuid key estimated now t ≡ (refused value_error, t')
      → ltb_ℤ estimated (pos 0) ≡ true
  unfolding reserve_sync insert_row
  refused-value_error h = ground arith

  refused-integrity :
      reserve_sync l uuid key estimated now t ≡ (refused integrity_error, t')
      → has_id uuid (evict now l.window t) ≡ true
  unfolding reserve_sync insert_row
  refused-integrity h = ground arith

has_id-keep_if :
    (i : ℕ) (p : Row → Bool) (t : Table) → has_id i (keep_if p t) ≡ true → has_id i t ≡ true
unfolding has_id
has_id-keep_if i p [] h = h
has_id-keep_if i p (r ∷ t) h = elim (Bool-cases (p r)) [
  | inl kept ↦ ground (arith, has_id-keep_if i p t)
  | inr dropped ↦ ground (arith, has_id-keep_if i p t)
]

-- An `IntegrityError` is raised for an id that the table has only.
pub refused-integrity_error :
    (l : Limiter) (uuid : ℕ) (key : Text) (estimated : ℤ) (now : ℕ) (t t' : Table)
    → reserve_sync l uuid key estimated now t ≡ (refused integrity_error, t')
    → has_id uuid t ≡ true
unfolding evict
refused-integrity_error l uuid key estimated now t t' h =
    has_id-keep_if uuid (in_window now l.window) t
      (refused-integrity l uuid key estimated now t t' h)
