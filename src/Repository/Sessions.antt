-- ===== src/Repository/Sessions.antt =====
-- backend/internal/repository/postgres/session_repository.go
use gomsg.Prelude.{ℕ, Text}
use gomsg.Errors.{err_not_found}
use gomsg.Domain.{RefreshSession}
use gomsg.Store.{Env, Go, query, exec, transaction, ensure, time_now, on_db, ◌>>=◌, ◌>>◌}
use gomsg.Tables.Sessions.{select_session, insert_session, revoke_session, revoke_by_id, revoke_all}

module _ (env : Env) where
  -- Create, which writes the stored row back into its argument
  unfoldable pub create_session : RefreshSession → Go RefreshSession
  create_session s = exec env (λ w. on_db (insert_session (env.uuid w.tick) (env.clock w.tick) s) w)

  -- GetByTokenHash
  unfoldable pub get_by_token_hash : Text → Go RefreshSession
  get_by_token_hash hash = do now ← time_now env; query env (select_session hash now)

  -- Revoke
  unfoldable pub revoke : Text → Go (Unit {0})
  revoke id = do
    found ← exec env (λ w. on_db (revoke_session id (env.clock w.tick)) w)
    ensure found err_not_found

  -- RevokeAllByUser
  unfoldable pub revoke_all_by_user : Text → Go (Unit {0})
  revoke_all_by_user user_id = exec env (λ w. on_db (revoke_all user_id (env.clock w.tick)) w)

  -- The statements of RotateRefresh between Begin and Commit
  unfoldable pub rotate_body : Text → RefreshSession → ℕ → Go RefreshSession
  rotate_body old_hash s now = do
    old ← query env (select_session old_hash now)
    exec env (on_db (revoke_by_id old.id now))
    exec env (λ w. on_db (insert_session (env.uuid w.tick) now s) w)

  -- RotateRefresh, which writes the stored row back into its argument
  unfoldable pub rotate_refresh : Text → RefreshSession → Go RefreshSession
  rotate_refresh old_hash s = transaction env (rotate_body old_hash s)
