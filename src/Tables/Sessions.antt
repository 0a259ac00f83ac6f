-- ===== src/Tables/Sessions.antt =====
-- The SQL of session_repository.go on the table `refresh_sessions`.
pub mod Usable
pub mod Writes
use gomsg.Prelude.{
  ◌&&◌, some, ℕ, Text, Bool, ◌&&◌, not, some, none, List, [], ◌∷◌, ltb, is_some, text_eq, to_lower,
  find_row, any_row, update_rows,
}
use gomsg.Errors.{pg_error, err_not_found}
use gomsg.Result.{Result, ok, ◌>>=◌, ◌>>◌, require, or_error}
use gomsg.Domain.{RefreshSession}
use gomsg.Store.{Db}
use gomsg.Uuid.{cast_uuid}
use gomsg.Tables.Messages.{user_exists}
use gomsg.Tables.Chats.Creation.{fits}

abbrev pub has_hash : Text → RefreshSession → Bool
has_hash hash s = text_eq s.token_hash hash

-- token_hash = $1 AND revoked_at IS NULL AND expires_at > now
abbrev pub usable : Text → ℕ → RefreshSession → Bool
usable hash now s = has_hash hash s && not (is_some s.revoked_at) && ltb now s.expires_at

unfoldable pub select_session : Text → ℕ → Db → Result RefreshSession
select_session hash now d = or_error (find_row (usable hash now) d.sessions) err_not_found

-- INSERT INTO refresh_sessions … RETURNING …: the drawn id is printed in lower case, with the widths, the
-- primary key, the unique index on token_hash and the foreign key
unfoldable pub insert_session : Text → ℕ → RefreshSession → Db → Result (RefreshSession × Db)
insert_session drawn now s d = do
  let id = to_lower drawn
  user_id ← cast_uuid s.user_id
  require (fits 128 (some s.token_hash) && fits 45 s.ip_address) (pg_error "22001")
  require (not (any_row (λ x. text_eq (RefreshSession.id x) id) d.sessions)) (pg_error "23505")
  require (not (any_row (has_hash s.token_hash) d.sessions)) (pg_error "23505")
  require (user_exists user_id d) (pg_error "23503")
  let row : RefreshSession = record s {
    id = id;
    user_id = user_id;
    created_at = now;
    revoked_at = none;
  }
  ok (row, record d { sessions = row ∷ d.sessions })

abbrev pub revoked : (RefreshSession → Bool) → ℕ → List RefreshSession → List RefreshSession
revoked q now = update_rows q (λ s. record s { revoked_at = some now })

-- WHERE id = $1::uuid AND revoked_at IS NULL
abbrev pub live_id : Text → RefreshSession → Bool
live_id id s = text_eq s.id id && not (is_some s.revoked_at)

-- The statement of Revoke, and whether it met a row
unfoldable pub revoke_session : Text → ℕ → Db → Result (Bool × Db)
revoke_session raw now d = do
  id ← cast_uuid raw
  ok (any_row (live_id id) d.sessions, record d { sessions = revoked (live_id id) now d.sessions })

-- The UPDATE of RotateRefresh, which has no test on revoked_at
unfoldable pub revoke_by_id : Text → ℕ → Db → Result (Unit {0} × Db)
revoke_by_id raw now d = do
  id ← cast_uuid raw
  ok (tt, record d { sessions = revoked (λ s. text_eq s.id id) now d.sessions })

-- The statement of RevokeAllByUser
unfoldable pub revoke_all : Text → ℕ → Db → Result (Unit {0} × Db)
revoke_all raw now d = do
  user_id ← cast_uuid raw
  ok (
    tt,
    record d {
      sessions =
          revoked (λ s. text_eq s.user_id user_id && not (is_some s.revoked_at)) now d.sessions;
    },
  )
