-- ===== src/Service/Sessions/Rotation.antt =====
-- auth_service.go and session_repository.go: what Refresh and Logout write, and that a token that was
-- refreshed or logged out is of no more use.
use gomsg.Prelude.{ℕ, Text, ◌≡◌, refl, subst, ◌∙◌, trim_space, to_lower, text_eq}
use gomsg.Result.{ok}
use gomsg.Domain.{RefreshSession}
use gomsg.Store.{Env, Db}
use gomsg.Store.Effects.{
  ReadOnly, IsAtomic, IsAtomic-bind, IsAtomic-then, IsAtomic-on_error, IsAtomic-transaction, reads,
  totals,
}
use gomsg.Store.Outcome.{
  Yields, Yields-pure, Yields-unchanged, Yields-map, Yields-read, Yields-skip, Yields-on_error,
  Yields-transaction, Yields-bind, Yields-exec-on_db,
}
use gomsg.Store.Steps.{Yields-query, Yields-of_query, Yields-ensure}
use gomsg.Tables.Sessions.{
  select_session, revoked, insert_session, revoke_by_id, revoke_session, live_id,
}
use gomsg.Tables.Sessions.Writes.{
  InsertedSession, insert_session-InsertedSession, revoke_by_id-eq, revoke_session-eq,
}
use gomsg.Repository.Sessions.{get_by_token_hash, rotate_body, rotate_refresh, revoke}
use gomsg.Service.Sessions.{
  Crypto, JwtConfig, ClientMeta, TokenPair, generate_access_token, new_access_token,
  new_refresh_plain, refresh, logout,
}

-- The rotation has revoked the session of `hash` and stored a session like `s` for it.
pub record Rotated (hash : Text) (s : RefreshSession) (d : Db) (row : RefreshSession) (d' : Db)
    : Type 0 where
  pub now : ℕ
  pub old : RefreshSession
  pub found : select_session hash now d ≡ ok old
  pub drawn : Text
  pub inserted :
      InsertedSession drawn now s
        (record d { sessions = revoked (λ x. text_eq x.id (to_lower old.id)) now d.sessions })
        row
        d'

rotate_body-Rotated :
    (env : Env) (hash : Text) (s : RefreshSession) (now : ℕ) (d : Db)
    → Yields d (Rotated hash s d) (rotate_body env hash s now)
unfolding rotate_body
rotate_body-Rotated env hash s now d = Yields-query env _ _ λ old found.
    Yields-bind
      (λ _ d1.
        d1 ≡ record d { sessions = revoked (λ x. text_eq x.id (to_lower old.id)) now d.sessions })
      _ _
      (Yields-exec-on_db env (λ _. revoke_by_id old.id now)
        λ w u d1 e. revoke_by_id-eq old.id now d u d1 e)
      λ u d1 e1.
        Yields-exec-on_db env (λ w. insert_session (env.uuid w.tick) now s)
          λ w row d' e. record {
            now = now;
            old = old;
            found = found;
            drawn = env.uuid w.tick;
            inserted =
                subst (λ x. InsertedSession (env.uuid w.tick) now s x row d') e1
                  (insert_session-InsertedSession (env.uuid w.tick) now s d1 row d' e);
          }

rotate_refresh-Rotated :
    (env : Env) (hash : Text) (s : RefreshSession) (d : Db)
    → Yields d (Rotated hash s d) (rotate_refresh env hash s)
unfolding rotate_refresh
rotate_refresh-Rotated env hash s d =
    Yields-transaction env _ λ now. rotate_body-Rotated env hash s now d

module _ (env : Env) (crypto : Crypto) (cfg : JwtConfig) where
  pub new_access_token-ReadOnly : (u : Text) → ReadOnly (new_access_token env crypto cfg u)
  unfolding new_access_token generate_access_token
  new_access_token-ReadOnly u = search (reads) depth 12

  pub new_refresh_plain-ReadOnly : ReadOnly (new_refresh_plain env crypto cfg)
  unfolding new_refresh_plain
  new_refresh_plain-ReadOnly = search reads

  pub get_by_token_hash-ReadOnly : (h : Text) → ReadOnly (get_by_token_hash env h)
  unfolding get_by_token_hash
  get_by_token_hash-ReadOnly h = search reads

  rotate_refresh-IsAtomic : (h : Text) (s : RefreshSession) → IsAtomic (rotate_refresh env h s)
  unfolding rotate_refresh
  rotate_refresh-IsAtomic h s = search (IsAtomic-transaction)

  -- A refresh that answers with an error has changed no table.
  pub refresh-IsAtomic :
      (raw : Text) (meta : ClientMeta) → IsAtomic (refresh env crypto cfg raw meta)
  unfolding refresh
  refresh-IsAtomic raw meta =
      search
        (
          IsAtomic-bind, IsAtomic-then, IsAtomic-on_error, rotate_refresh-IsAtomic,
          new_access_token-ReadOnly, new_refresh_plain-ReadOnly, get_by_token_hash-ReadOnly, totals,
          reads,
        )
        depth 20

get_by_token_hash-found :
    (env : Env) (hash : Text) (d : Db)
    → Yields d (λ s _. (t : ℕ) × (select_session hash t d ≡ ok s)) (get_by_token_hash env hash)
unfolding get_by_token_hash
get_by_token_hash-found env hash d =
    Yields-skip _ _ (search reads)
      λ t. Yields-map _ _ (Yields-of_query env (select_session hash t)) λ s _ e. (t, e)

-- The refresh of `raw`, answered by `pair`, has turned the tables `d` into `d'`.
pub record Refreshed (crypto : Crypto) (d : Db) (raw : Text) (pair : TokenPair) (d' : Db)
    : Type 0 where
  pub at : ℕ
  pub session : RefreshSession
  pub found : select_session (crypto.hash (trim_space raw)) at d ≡ ok session
  pub wanted : RefreshSession
  pub same_user : wanted.user_id ≡ session.user_id
  pub new_hash : wanted.token_hash ≡ crypto.hash pair.refresh_token
  pub row : RefreshSession
  pub rotated : Rotated (crypto.hash (trim_space raw)) wanted d row d'

module _ (env : Env) (crypto : Crypto) (cfg : JwtConfig) (d : Db) (raw : Text) where
  pub refresh-Refreshed :
      (meta : ClientMeta) → Yields d (Refreshed crypto d raw) (refresh env crypto cfg raw meta)
  unfolding refresh get_by_token_hash
  refresh-Refreshed meta = Yields-ensure _ _ _ λ _.
      Yields-read (λ s. (t : ℕ) × (select_session (crypto.hash (trim_space raw)) t d ≡ ok s)) _ _
        (search (get_by_token_hash-ReadOnly env crypto cfg, reads))
        (Yields-on_error _ _ (get_by_token_hash-found env (crypto.hash (trim_space raw)) d))
        λ session (t, found).
          Yields-skip _ _ (new_access_token-ReadOnly env crypto cfg session.user_id) λ access.
            Yields-skip _ _ (search (new_refresh_plain-ReadOnly env crypto cfg, reads)) λ plain.
              Yields-ensure _ _ _ λ _. Yields-skip _ _ (search reads) λ now.
                Yields-bind (Rotated (crypto.hash (trim_space raw)) _ d) _ _
                  (Yields-on_error _ _ (rotate_refresh-Rotated env _ _ d))
                  λ row d' rotated. Yields-pure _ (record {
                    at = t;
                    session = session;
                    found = found;
                    wanted = _;
                    same_user = refl;
                    new_hash = refl;
                    row = row;
                    rotated = rotated;
                  })

  pub refresh-found :
      (meta : ClientMeta)
      → Yields d
          (λ _ _.
            (t : ℕ) × (s : RefreshSession) × (select_session (crypto.hash (trim_space raw)) t d
              ≡ ok s))
          (refresh env crypto cfg raw meta)
  refresh-found meta = Yields-map _ _ (refresh-Refreshed meta) λ p d' r. (r.at, r.session, r.found)

  -- Logout has met a usable session of the token, whose row it has revoked.
  pub logout-found :
      Yields d
        (λ _ d'.
          (t now : ℕ) × (s : RefreshSession) × (select_session (crypto.hash (trim_space raw)) t d
            ≡ ok s)
          × (d' ≡ record d { sessions = revoked (live_id (to_lower s.id)) now d.sessions }))
        (logout env crypto cfg raw)
  unfolding logout revoke
  logout-found = Yields-ensure _ _ _ λ _.
      Yields-read (λ s. (t : ℕ) × (select_session (crypto.hash (trim_space raw)) t d ≡ ok s)) _ _
        (search (get_by_token_hash-ReadOnly env crypto cfg, reads))
        (Yields-on_error _ _ (get_by_token_hash-found env (crypto.hash (trim_space raw)) d))
        λ session (t, found). Yields-on_error _ _ (
          Yields-bind
            (λ _ d'.
              (now : ℕ) × (d'
                ≡ record d { sessions = revoked (live_id (to_lower session.id)) now d.sessions }))
            _ _
            (Yields-exec-on_db env (λ w. revoke_session session.id (env.clock w.tick))
              λ w b d' e.
                (env.clock w.tick, revoke_session-eq session.id (env.clock w.tick) d b d' e))
            λ b d' h.
              Yields-map _ _ (Yields-unchanged {P = λ _ x. x ≡ d'} _ (search reads) (λ _. refl))
                λ u d'' e. (t, h.0, session, found, e ∙ h.1))
