-- ===== src/Limiter/Budget.antt =====
-- Runs of task4_router/rate_limiter.py: the transactions of many requests in any order, with time
-- passing between them.
use mcp_llm_gateway_suite.Base.{
  ℕ, ◌+◌, ◌≡◌, refl, inl, inr, Bool, not, ◌==◌, subst, arith, Bool-cases,
}
use mcp_llm_gateway_suite.Base.Int.{ℤ, pos, ◌+ℤ◌, ◌≤ℤ◌, int_laws}
use mcp_llm_gateway_suite.Base.Text.{Text, text_eq, text_eq→eq}
use mcp_llm_gateway_suite.Limiter.Defs.{
  Row, Table, Limiter, Reserved, held, refused, in_window, counts, sum_tokens, evict, reserve_sync,
  commit_sync, release_sync,
}
use mcp_llm_gateway_suite.Limiter.Window.{
  IsPaid, Covers, sum_tokens-keep_if-le, sum_tokens_mono, counts_later, keep_if-IsPaid,
  append-IsPaid, commit_sync-IsPaid, sum_tokens-commit_sync-le,
}
use mcp_llm_gateway_suite.Limiter.Ledger.{
  IsHeld, hold, share, share-le, share_other, reserve_sync-IsHeld, reserve_sync_refused,
  sum_tokens-reserve_sync,
}

-- The database and the clock.
pub record System : Type 0 where
  pub table : Table
  pub now : ℕ

evict-IsPaid : (now window : ℕ) (t : Table) → IsPaid t → IsPaid (evict now window t)
unfolding evict
evict-IsPaid now window t h = keep_if-IsPaid (in_window now window) t h

release_sync-IsPaid : (i : ℕ) (t : Table) → IsPaid t → IsPaid (release_sync i t)
unfolding release_sync
release_sync-IsPaid i t h = keep_if-IsPaid (λ r. not (r.id == i)) t h

sum_tokens-release_sync-le :
    (p : Row → Bool) (i : ℕ) (t : Table)
    → IsPaid t
    → sum_tokens p (release_sync i t) ≤ℤ sum_tokens p t
unfolding release_sync
sum_tokens-release_sync-le p i t h = sum_tokens-keep_if-le p (λ r. not (r.id == i)) t h

module _ (l : Limiter) where
  -- One transaction of any request, or the passing of time. A bill is not negative and stays
  -- within the hold that it replaces; a release is free.
  pub data Step : System → System → Type 0 where
    reserve :
        (s : System) (uuid : ℕ) (key : Text) (estimated : ℤ)
        → Step s (record s { table = (reserve_sync l uuid key estimated s.now s.table).1 })
    commit :
        (s : System) (i : ℕ) (actual : ℤ)
        → pos 0 ≤ℤ actual
        → Covers i actual s.table
        → Step s (record s { table = commit_sync i actual s.table })
    release : (s : System) (i : ℕ) → Step s (record s { table = release_sync i s.table })
    tick : (s : System) (n : ℕ) → Step s (record s { now = s.now + n })

  pub data Reach (s : System) : System → Type 0 where
    here : Reach s s
    next : {u v : System} → Reach s u → Step u v → Reach s v

  -- Nobody's usage of the current window exceeds the limit.
  pub record IsWithin (s : System) : Type 0 where
    pub paid : IsPaid s.table
    pub within : (key : Text) → sum_tokens (counts s.now l.window key) s.table ≤ℤ l.limit

  -- What a reservation, held or refused, leaves behind.
  after_reserve :
      (s : System) (uuid : ℕ) (key : Text) (estimated : ℤ) (res : Reserved) (t' : Table)
      → reserve_sync l uuid key estimated s.now s.table ≡ (res, t')
      → IsWithin s
      → IsWithin (record s { table = t' })
  after_reserve s uuid key estimated (refused e) t' eq w =
      rw (reserve_sync_refused l uuid key estimated s.now s.table e t' eq) w
  after_reserve s uuid key estimated (held r) t' eq w = record {
    paid = rw f.table (
        append-IsPaid (evict s.now l.window s.table) (hold uuid key estimated s.now)
          (evict-IsPaid s.now l.window s.table w.paid) f.nonneg);
    within = λ other. rw (usage other) (elim (Bool-cases (text_eq key other)) [
      | inl same ↦ omega (
        int_laws,
        subst (λ k. sum_tokens (counts s.now l.window k) s.table +ℤ estimated ≤ℤ l.limit)
            (text_eq→eq key other same) f.within,
        share-le s.now l.window other (hold uuid key estimated s.now) estimated f.nonneg,
      )
      | inr differ ↦
          rw (share_other s.now l.window uuid s.now key other estimated estimated differ)
            (omega (int_laws, w.within other))
    ]);
  }
    where
      f : IsHeld l uuid key estimated s.now s.table r t'
      f = reserve_sync-IsHeld l uuid key estimated s.now s.table r t' eq

      usage :
          (other : Text)
          → sum_tokens (counts s.now l.window other) t'
            ≡ sum_tokens (counts s.now l.window other) s.table
              +ℤ share s.now l.window other (hold uuid key estimated s.now) estimated
      usage other =
          sum_tokens-reserve_sync l uuid key estimated s.now s.table r t' eq other s.now
            (omega arith)

  -- A step that only shrinks what every tenant is counted for keeps the budget.
  shrink :
      (s u : System)
      → IsPaid u.table
      → ((key : Text)
          → sum_tokens (counts u.now l.window key) u.table
            ≤ℤ sum_tokens (counts s.now l.window key) s.table)
      → IsWithin s
      → IsWithin u
  shrink s u p le w = record { paid = p; within = λ key. omega (int_laws, le key, w.within key) }

  pub Step-IsWithin : {s u : System} → Step s u → IsWithin s → IsWithin u
  Step-IsWithin (reserve s uuid key estimated) w =
      after_reserve s uuid key estimated (reserve_sync l uuid key estimated s.now s.table).0
        (reserve_sync l uuid key estimated s.now s.table).1 refl w
  Step-IsWithin (commit s i actual n covers) w =
      shrink s (record s { table = commit_sync i actual s.table })
        (commit_sync-IsPaid i actual s.table w.paid n)
        (λ key. sum_tokens-commit_sync-le i actual s.now l.window key s.table covers) w
  Step-IsWithin (release s i) w =
      shrink s (record s { table = release_sync i s.table }) (release_sync-IsPaid i s.table w.paid)
        (λ key. sum_tokens-release_sync-le (counts s.now l.window key) i s.table w.paid) w
  Step-IsWithin (tick s n) w =
      shrink s (record s { now = s.now + n }) w.paid
        (λ key.
          sum_tokens_mono (counts (s.now + n) l.window key) (counts s.now l.window key) s.table
            w.paid (λ r. counts_later s.now (s.now + n) l.window key r (omega arith)))
        w

  -- In every run, however the transactions of concurrent requests interleave, no tenant's tokens
  -- of the current window, holds included, exceed the limit, as long as no bill exceeds its hold.
  pub Reach-IsWithin : {s u : System} → IsWithin s → Reach s u → IsWithin u
  Reach-IsWithin w here = w
  Reach-IsWithin w (next r st) = Step-IsWithin st (Reach-IsWithin w r)
