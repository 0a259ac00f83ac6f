-- ===== src/Repository/Outbox.antt =====
-- backend/internal/repository/postgres/outbox_repository.go
use gomsg.Prelude.{ℕ, zero, suc, ℤ, pos, negsuc, List, ltb, if◌then◌else◌}
use gomsg.Errors.{foreign}
use gomsg.Domain.{OutboxRow}
use gomsg.Store.{Env, Go, query, exec, ensure, on_db, ◌>>=◌}
use gomsg.Tables.Outbox.{select_pending, set_published}

unfoldable pub norm_fetch_limit : ℤ → ℕ
norm_fetch_limit (negsuc n) = 50
norm_fetch_limit (pos zero) = 50
norm_fetch_limit (pos (suc n)) = if ltb 500 (suc n) then 500 else suc n

module _ (env : Env) where
  -- FetchPending
  unfoldable pub fetch_pending : ℤ → Go (List OutboxRow)
  unfolding norm_fetch_limit
  fetch_pending limit = query env (select_pending (norm_fetch_limit limit))

  -- MarkPublished
  unfoldable pub mark_published : ℕ → Go (Unit {0})
  mark_published id = do
    found ← exec env (λ w. on_db (set_published id (env.clock w.tick)) w)
    ensure found (foreign "outbox: mark published: no row")
