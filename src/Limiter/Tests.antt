-- ===== src/Limiter/Tests.antt =====
-- The rate limiter of task4_router/rate_limiter.py at concrete tables.
use mcp_llm_gateway_suite.Base.{ℕ, ◌*◌, ◌-◌, ◌≤◌, sym, ◌∙◌, some, ◌+◌, ◌≡◌, refl, [], ◌∷◌, arith}
use mcp_llm_gateway_suite.Base.Int.{pos, negsuc, ◌+ℤ◌, ◌-ℤ◌}
use mcp_llm_gateway_suite.Base.Text.{Text, codes, text_eq}
use mcp_llm_gateway_suite.Limiter.Defs.{
  min_created_at, counts, Row, Table, Limiter, held, refused, value_error, rate_limit_exceeded,
  integrity_error, committed, sum_tokens, evict, reserve_sync, commit_sync, release_sync,
  usage_sync, remaining_tokens,
}
use mcp_llm_gateway_suite.Limiter.Ledger.{
  hold, share, release_sync-reserve_sync, sum_tokens-commit_sync-reserve_sync,
}
use mcp_llm_gateway_suite.Limiter.Budget.{
  System, reserve, commit, tick, Reach, here, next, IsWithin, Reach-IsWithin,
}
use mcp_llm_gateway_suite.Limiter.Retry.{reserve_sync_after_wait}

-- What the tests compute with.
program : Unit {0}
unfolding reserve_sync commit_sync release_sync usage_sync remaining_tokens ◌+ℤ◌ ◌-ℤ◌ text_eq
program = tt

abbrev limiter : Limiter
limiter = record { limit = pos 100; window = 60000000 }

abbrev tenant : Text
tenant = codes "tenant-a"

abbrev old_row : Row
old_row = record {
  id = 7;
  api_key = tenant;
  tokens = pos 80;
  created_at = 1000000;
  state = committed;
}

abbrev stale_row : Row
stale_row = record old_row { id = 6; created_at = 10 }

abbrev table : Table
table = stale_row ∷ old_row ∷ []

-- A row that has left the window is not counted, and is evicted.
reserve_fits : reserve_sync limiter 9 tenant (pos 20) 60500000 table ≡ (
  held (record { id = 9; api_key = tenant; estimated_tokens = pos 20 }),
  old_row ∷ hold 9 tenant (pos 20) 60500000 ∷ [],
)
unfolding program
reserve_fits = refl

reserve_full :
    reserve_sync limiter 9 tenant (pos 21) 60500000 table
    ≡ (refused (rate_limit_exceeded (pos 80) (pos 100) 500), table)
unfolding program
reserve_full = refl

reserve_negative :
    reserve_sync limiter 9 tenant (negsuc 0) 60500000 table ≡ (refused value_error, table)
unfolding program
reserve_negative = refl

reserve_taken :
    reserve_sync limiter 7 tenant (pos 1) 60500000 table ≡ (refused integrity_error, table)
unfolding program
reserve_taken = refl

remaining : remaining_tokens (usage_sync limiter tenant 60500000 table) ≡ pos 20
unfolding program
remaining = refl

-- A run of two requests: the first is billed less than it held, which lets the second in.
abbrev start : System
start = record { table = []; now = 1000 }

abbrev after_first : System
after_first = record start { table = (reserve_sync limiter 1 tenant (pos 60) 1000 []).1 }

abbrev after_wait : System
after_wait = record after_first { now = 1000 + 10 }

abbrev after_bill : System
after_bill = record after_wait { table = commit_sync 1 (pos 40) after_first.table }

abbrev after_second : System
after_second = record after_bill {
  table = (reserve_sync limiter 2 tenant (pos 60) (1000 + 10) after_bill.table).1;
}

start-IsWithin : IsWithin limiter start
unfolding sum_tokens
start-IsWithin = record { paid = tt; within = λ key. omega arith }

two_requests : Reach limiter start after_second
unfolding program
two_requests =
    next
      (next (next (next here (reserve start 1 tenant (pos 60))) (tick after_first 10))
        (commit after_wait 1 (pos 40) (omega arith) (λ _. omega arith, tt)))
      (reserve after_bill 2 tenant (pos 60))

Reach-IsWithin_example : IsWithin limiter after_second
Reach-IsWithin_example = Reach-IsWithin limiter start-IsWithin two_requests

both_count :
    usage_sync limiter tenant 1010 after_second.table
    ≡ record { api_key = tenant; used_tokens = pos 100; limit_tokens = pos 100 }
unfolding program
both_count = refl

release_sync-reserve_sync_example :
    release_sync 9 (old_row ∷ hold 9 tenant (pos 20) 60500000 ∷ []) ≡ evict 60500000 60000000 table
release_sync-reserve_sync_example =
    release_sync-reserve_sync limiter 9 tenant (pos 20) 60500000 table
      (record { id = 9; api_key = tenant; estimated_tokens = pos 20 })
      (old_row ∷ hold 9 tenant (pos 20) 60500000 ∷ []) reserve_fits

sum_tokens-commit_sync-reserve_sync_example :
    sum_tokens
      (counts 60600000 60000000 tenant)
      (commit_sync 9 (pos 33) (old_row ∷ hold 9 tenant (pos 20) 60500000 ∷ []))
    ≡ sum_tokens (counts 60600000 60000000 tenant) table
      +ℤ share 60600000 60000000 tenant (hold 9 tenant (pos 20) 60500000) (pos 33)
sum_tokens-commit_sync-reserve_sync_example =
    sum_tokens-commit_sync-reserve_sync limiter 9 tenant (pos 20) 60500000 table
      (record { id = 9; api_key = tenant; estimated_tokens = pos 20 })
      (old_row ∷ hold 9 tenant (pos 20) 60500000 ∷ []) reserve_fits (pos 33) tenant 60600000
      (omega arith)

oldest : min_created_at (counts 60500000 60000000 tenant) table ≡ some 1000000
unfolding program
oldest = refl

told_exactly :
    (m : ℕ)
    → min_created_at (counts 60500000 60000000 tenant) table ≡ some m
    → 500 * 1000 ≤ m + 60000000 - 60500000
told_exactly m h =
    let same : 1000000 ≡ m = some_equal 1000000 m (sym oldest ∙ h) in omega (arith, same)
  where
    some_equal : (a b : ℕ) → some a ≡ some b → a ≡ b
    some_equal a b e = cc

reserve_sync_after_wait_example :
    reserve_sync limiter 9 tenant (pos 21) (60500000 + 500 * 1000) table
    ≡ (refused (rate_limit_exceeded (pos 80) (pos 100) 0), table)
reserve_sync_after_wait_example =
    reserve_sync_after_wait limiter 9 tenant (pos 21) 60500000 table (pos 80) (pos 100) 500 table
      reserve_full told_exactly
