-- ===== src/Service/Sessions/Invariant.antt =====
-- auth_service.go: what every request keeps of the sessions.
use gomsg.Prelude.{
  ℕ, Text, Bool, true, false, ◌&&◌, some, List, [], ◌∷◌, ◌≡◌, refl, sym, ap, subst, ◌∙◌, arith,
  to_lower, to_lower-to_lower, is_some, text_eq, any_row, any_row-update_rows, update_rows,
  All-update_rows, if◌then◌else◌, not,
}
use gomsg.Result.{ok}
use gomsg.Domain.{RefreshSession}
use gomsg.Store.{Env, Db}
use gomsg.Store.Keeps.{Keeps, Keeps-on_db, Keeps-bind, keeps_rules}
use gomsg.Uuid.{cast_uuid}
use gomsg.Tables.Sessions.{
  has_hash, revoked, insert_session, revoke_by_id, revoke_session, revoke_all,
}
use gomsg.Tables.Sessions.Usable.{HasDistinctHashes, HasSoundSessions}
use gomsg.Tables.Sessions.Writes.{
  InsertedSession, insert_session-InsertedSession, revoke_by_id-eq, revoke_session-eq,
}
use gomsg.Repository.Sessions.{
  create_session, rotate_body, rotate_refresh, revoke, revoke_all_by_user,
}
use gomsg.Service.Sessions.{
  Crypto, JwtConfig, ClientMeta, issue_tokens, refresh, logout, logout_all,
}
use gomsg.Service.Sessions.Rotation.{
  new_access_token-ReadOnly, new_refresh_plain-ReadOnly, get_by_token_hash-ReadOnly,
}

revoked-HasDistinctHashes :
    (q : RefreshSession → Bool) (now : ℕ) (ss : List RefreshSession)
    → HasDistinctHashes ss
    → HasDistinctHashes (revoked q now ss)
unfolding update_rows
revoked-HasDistinctHashes q now [] d = tt
revoked-HasDistinctHashes q now (s ∷ ss) d = (
  subst (λ h. any_row (has_hash h) (revoked q now ss) ≡ false) (kept (q s))
      (any_row-update_rows (has_hash s.token_hash) q (λ x. record x { revoked_at = some now })
          (λ x. refl) ss
        ∙ d.0),
  revoked-HasDistinctHashes q now ss d.1,
)
  where
    kept :
        (b : Bool)
        → s.token_hash
          ≡ RefreshSession.token_hash (if b then record s { revoked_at = some now } else s)
    kept true = refl
    kept false = refl

revoked-HasSoundSessions :
    (q : RefreshSession → Bool) (now : ℕ) (d : Db)
    → HasSoundSessions d
    → HasSoundSessions (record d { sessions = revoked q now d.sessions })
revoked-HasSoundSessions q now d k = record {
  distinct = revoked-HasDistinctHashes q now d.sessions k.distinct;
  printed =
      All-update_rows q (λ x. record x { revoked_at = some now }) (λ x e. e) d.sessions k.printed;
}

inserted-HasSoundSessions :
    (drawn : Text) (now : ℕ) (s : RefreshSession) (d : Db) (row : RefreshSession) (d' : Db)
    → HasSoundSessions d
    → InsertedSession drawn now s d row d'
    → HasSoundSessions d'
inserted-HasSoundSessions drawn now s d row d' k i = subst HasSoundSessions (sym i.stored) (record {
  distinct = (
    subst (λ h. any_row (has_hash h) d.sessions ≡ false) (sym i.token_hash) i.unused,
    k.distinct,
  );
  printed = (ap to_lower i.id ∙ to_lower-to_lower drawn ∙ sym i.id, k.printed);
})

revoke_all-eq :
    (raw : Text) (now : ℕ) (d : Db) (u : Unit {0}) (d' : Db)
    → revoke_all raw now d ≡ ok (u, d')
    → d' ≡ record d {
      sessions =
          revoked
            (λ s. text_eq s.user_id (to_lower raw) && not (is_some s.revoked_at))
            now
            d.sessions;
    }
unfolding revoke_all cast_uuid
revoke_all-eq raw now d u d' h = ground arith

module _ (env : Env) where
  rotate_body-Keeps :
      (h : Text) (s : RefreshSession) (now : ℕ) → Keeps HasSoundSessions (rotate_body env h s now)
  unfolding rotate_body
  rotate_body-Keeps h s now = Keeps-bind _ _ (search keeps_rules) λ old.
      Keeps-bind _ _
        (Keeps-on_db env (λ _. revoke_by_id old.id now)
          λ w d u d' k e.
            subst HasSoundSessions (sym (revoke_by_id-eq old.id now d u d' e))
              (revoked-HasSoundSessions _ now d k))
        λ _.
          Keeps-on_db env (λ w. insert_session (env.uuid w.tick) now s)
            λ w d row d' k e.
              inserted-HasSoundSessions (env.uuid w.tick) now s d row d' k
                (insert_session-InsertedSession (env.uuid w.tick) now s d row d' e)

  create_session-Keeps : (s : RefreshSession) → Keeps HasSoundSessions (create_session env s)
  unfolding create_session
  create_session-Keeps s =
      Keeps-on_db env (λ w. insert_session (env.uuid w.tick) (env.clock w.tick) s)
        λ w d row d' k e.
          inserted-HasSoundSessions (env.uuid w.tick) (env.clock w.tick) s d row d' k
            (insert_session-InsertedSession (env.uuid w.tick) (env.clock w.tick) s d row d' e)

  revoke-Keeps : (id : Text) → Keeps HasSoundSessions (revoke env id)
  unfolding revoke
  revoke-Keeps id =
      Keeps-bind _ _
        (Keeps-on_db env (λ w. revoke_session id (env.clock w.tick))
          λ w d b d' k e.
            subst HasSoundSessions (sym (revoke_session-eq id (env.clock w.tick) d b d' e))
              (revoked-HasSoundSessions _ (env.clock w.tick) d k))
        λ found. search keeps_rules

  revoke_all-Keeps : (id : Text) → Keeps HasSoundSessions (revoke_all_by_user env id)
  unfolding revoke_all_by_user
  revoke_all-Keeps id =
      Keeps-on_db env (λ w. revoke_all id (env.clock w.tick))
        λ w d u d' k e.
          subst HasSoundSessions (sym (revoke_all-eq id (env.clock w.tick) d u d' e))
            (revoked-HasSoundSessions _ (env.clock w.tick) d k)

ruleset session_rules = (
  keeps_rules, rotate_body-Keeps, create_session-Keeps, revoke-Keeps, revoke_all-Keeps,
  new_access_token-ReadOnly, new_refresh_plain-ReadOnly, get_by_token_hash-ReadOnly,
)

module _ (env : Env) (crypto : Crypto) (cfg : JwtConfig) where
  issue_tokens-Keeps :
      (u : Text) (meta : ClientMeta) → Keeps HasSoundSessions (issue_tokens env crypto cfg u meta)
  unfolding issue_tokens
  issue_tokens-Keeps u meta = search session_rules depth 24

  refresh-Keeps :
      (raw : Text) (meta : ClientMeta) → Keeps HasSoundSessions (refresh env crypto cfg raw meta)
  unfolding refresh rotate_refresh
  refresh-Keeps raw meta = search session_rules depth 24

  logout-Keeps : (raw : Text) → Keeps HasSoundSessions (logout env crypto cfg raw)
  unfolding logout
  logout-Keeps raw = search session_rules depth 24

  logout_all-Keeps : (u : Text) → Keeps HasSoundSessions (logout_all env crypto cfg u)
  unfolding logout_all
  logout_all-Keeps u = search session_rules depth 24

  -- Every issue of tokens, refresh and logout, whether it succeeds or fails, keeps the sessions
  -- sound: distinct hashes, and ids spelled as PostgreSQL prints them.
  pub sessions-HasSoundSessions :
      (u raw : Text) (meta : ClientMeta)
      → Keeps HasSoundSessions (issue_tokens env crypto cfg u meta)
        × Keeps HasSoundSessions (refresh env crypto cfg raw meta)
        × Keeps HasSoundSessions (logout env crypto cfg raw)
        × Keeps HasSoundSessions (logout_all env crypto cfg u)
  sessions-HasSoundSessions u raw meta =
      (issue_tokens-Keeps u meta, refresh-Keeps raw meta, logout-Keeps raw, logout_all-Keeps u)
