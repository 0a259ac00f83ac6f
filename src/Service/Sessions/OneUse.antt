-- ===== src/Service/Sessions/OneUse.antt =====
-- auth_service.go: a refresh token works once.
use gomsg.Prelude.{
  ℕ, Text, none, some, ◌∷◌, ◌≡◌, ◌≢◌, refl, sym, ap, subst, ◌∙◌, arith, trim_space, to_lower,
  text_eq, find_row,
}
use gomsg.Result.{ok}
use gomsg.Domain.{RefreshSession}
use gomsg.Store.{Env, Db, World}
use gomsg.Tables.Sessions.{select_session, usable, revoked}
use gomsg.Tables.Sessions.Usable.{HasSoundSessions, IsSpent, spent-unusable}
use gomsg.Tables.Sessions.Writes.{rotated-IsSpent, logged_out-IsSpent}
use gomsg.Service.Sessions.{Crypto, JwtConfig, ClientMeta, TokenPair, refresh, logout}
use gomsg.Service.Sessions.Rotation.{
  Refreshed, Rotated, refresh-Refreshed, refresh-found, logout-found,
}

pub select_session-eq :
    (h : Text) (t : ℕ) (d : Db) (s : RefreshSession)
    → select_session h t d ≡ ok s
    → find_row (usable h t) d.sessions ≡ some s
unfolding select_session
select_session-eq h t d s e = ground arith

-- Neither Refresh nor Logout succeeds with a spent token.
spent_useless :
    (env : Env) (crypto : Crypto) (cfg : JwtConfig) (raw : Text) (meta : ClientMeta) (w : World)
    (pair : TokenPair)
    → IsSpent (crypto.hash (trim_space raw)) w.db.sessions
    → ((refresh env crypto cfg raw meta w).0 ≢ ok pair) × ((logout env crypto cfg raw w).0 ≢ ok tt)
spent_useless env crypto cfg raw meta w pair a = (
  (λ e.
      let f = (refresh-found env crypto cfg w.db raw meta).at w pair refl e in
      spent-unusable h f.0 w.db.sessions f.1 a (select_session-eq h f.0 w.db f.1 f.2)),
  (λ e.
      let f = (logout-found env crypto cfg w.db raw).at w tt refl e in
      spent-unusable h f.0 w.db.sessions f.2 a (select_session-eq h f.0 w.db f.2 f.3)),
)
  where
    h : Text
    h = crypto.hash (trim_space raw)

-- Where the index on token_hash holds and session ids are spelled as PostgreSQL prints them: once a
-- refresh with a token has succeeded, no refresh and no logout with that token succeeds on the tables
-- that it left, at whatever time and from whatever client.
pub refresh-once :
    (env : Env) (crypto : Crypto) (cfg : JwtConfig) (raw : Text) (meta : ClientMeta) (w : World)
    (pair : TokenPair)
    → HasSoundSessions w.db
    → (refresh env crypto cfg raw meta w).0 ≡ ok pair
    → (env' : Env) (cfg' : JwtConfig) (meta' : ClientMeta) (w' : World) (pair' : TokenPair)
    → w'.db ≡ (refresh env crypto cfg raw meta w).1.db
    → ((refresh env' crypto cfg' raw meta' w').0 ≢ ok pair')
      × ((logout env' crypto cfg' raw w').0 ≢ ok tt)
refresh-once env crypto cfg raw meta w pair k e env' cfg' meta' w' pair' same =
    spent_useless env' crypto cfg' raw meta' w' pair' (
      subst (λ d. IsSpent (crypto.hash (trim_space raw)) (Db.sessions d)) (sym same)
        (rotated-IsSpent (crypto.hash (trim_space raw)) x.now x.now x.drawn r.wanted w.db x.old
          r.row (refresh env crypto cfg raw meta w).1.db k
          (select_session-eq (crypto.hash (trim_space raw)) x.now w.db x.old x.found) x.inserted))
  where
    r : Refreshed crypto w.db raw pair (refresh env crypto cfg raw meta w).1.db
    r = (refresh-Refreshed env crypto cfg w.db raw meta).at w pair refl e

    x :
        Rotated
          (crypto.hash (trim_space raw))
          r.wanted
          w.db
          r.row
          (refresh env crypto cfg raw meta w).1.db
    x = r.rotated

-- Where the index on token_hash holds and session ids are spelled as PostgreSQL prints them: once a
-- logout with a token has succeeded, no refresh and no logout with that token succeeds on the
-- tables that it left.
pub logout-once :
    (env : Env) (crypto : Crypto) (cfg : JwtConfig) (raw : Text) (w : World)
    → HasSoundSessions w.db
    → (logout env crypto cfg raw w).0 ≡ ok tt
    → (env' : Env) (cfg' : JwtConfig) (meta' : ClientMeta) (w' : World) (pair' : TokenPair)
    → w'.db ≡ (logout env crypto cfg raw w).1.db
    → ((refresh env' crypto cfg' raw meta' w').0 ≢ ok pair')
      × ((logout env' crypto cfg' raw w').0 ≢ ok tt)
logout-once env crypto cfg raw w k e env' cfg' meta' w' pair' same =
    let f = (logout-found env crypto cfg w.db raw).at w tt refl e in
    spent_useless env' crypto cfg' raw meta' w' pair' (
      subst (λ d. IsSpent (crypto.hash (trim_space raw)) (Db.sessions d)) (sym (same ∙ f.4))
        (logged_out-IsSpent (crypto.hash (trim_space raw)) f.0 f.1 w.db f.2 k
          (select_session-eq (crypto.hash (trim_space raw)) f.0 w.db f.2 f.3)))

-- The refresh of `raw`, answered by `pair`, has turned the tables `d` into `d'`.
pub record Renewed (crypto : Crypto) (d : Db) (raw : Text) (pair : TokenPair) (d' : Db)
    : Type 0 where
  pub at : ℕ
  pub old : RefreshSession
  pub found : select_session (crypto.hash (trim_space raw)) at d ≡ ok old
  pub row : RefreshSession
  pub user_id : row.user_id ≡ to_lower old.user_id
  pub token_hash : row.token_hash ≡ crypto.hash pair.refresh_token
  pub live : row.revoked_at ≡ none
  pub now : ℕ
  pub replaced : RefreshSession
  pub usable_then : select_session (crypto.hash (trim_space raw)) now d ≡ ok replaced
  pub stored : d' ≡ record d {
    sessions = row ∷ revoked (λ s. text_eq s.id (to_lower replaced.id)) now d.sessions;
  }

-- A refresh that succeeds had a usable session of the token. It has revoked the session that was
-- usable at the time of the rotation, and stored a live session for the hash of the new token and
-- the user of the old one. No other table has changed.
pub refresh-Renewed :
    (env : Env) (crypto : Crypto) (cfg : JwtConfig) (raw : Text) (meta : ClientMeta) (w : World)
    (pair : TokenPair)
    → (refresh env crypto cfg raw meta w).0 ≡ ok pair
    → Renewed crypto w.db raw pair (refresh env crypto cfg raw meta w).1.db
refresh-Renewed env crypto cfg raw meta w pair e = record {
  at = r.at;
  old = r.session;
  found = r.found;
  row = r.row;
  user_id = r.rotated.inserted.user_id ∙ ap to_lower r.same_user;
  token_hash = r.rotated.inserted.token_hash ∙ r.new_hash;
  live = r.rotated.inserted.live;
  now = r.rotated.now;
  replaced = r.rotated.old;
  usable_then = r.rotated.found;
  stored = r.rotated.inserted.stored;
}
  where
    r : Refreshed crypto w.db raw pair (refresh env crypto cfg raw meta w).1.db
    r = (refresh-Refreshed env crypto cfg w.db raw meta).at w pair refl e
