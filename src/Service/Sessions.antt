-- ===== src/Service/Sessions.antt =====
-- backend/internal/service/auth_service.go and pkg/auth/jwt.go: access tokens and refresh sessions. The
-- SHA-256 of a token, the random source and the signature are parameters.
pub mod Rotation
pub mod OneUse
pub mod Invariant
use gomsg.Prelude.{
  ℕ, zero, suc, ◌+◌, ℤ, pos, negsuc, String, Text, Bool, true, false, not, Option, none, some, [],
  is_empty, trim_space,
}
use gomsg.Errors.{Error, foreign, unauthorized_error, validation_error, internal_error}
use gomsg.Result.{Result}
use gomsg.Domain.{RefreshSession}
use gomsg.Store.{Env, World, Go, pure, lift, on_error, ensure, time_now, draw, ◌>>=◌, ◌>>◌}
use gomsg.Repository.Sessions.{
  create_session, get_by_token_hash, revoke, revoke_all_by_user, rotate_refresh,
}
use gomsg.Service.MessageParts.{unless_found}
use gomsg.Service.Clients.{str_or_nil, trim_ip}
pub use gomsg.Service.Clients.{ClientMeta}

-- What crypto/sha256 with hex, crypto/rand with hex and the JWT library compute.
pub record Crypto : Type 0 where
  pub hash : Text → Text
  pub random : ℕ → Result Text
  pub sign : Text → Text → ℕ → ℤ → Result Text

-- cfg.JWT; the two lifetimes are the products with time.Second.
pub record JwtConfig : Type 0 where
  pub secret : Text
  pub access_ttl : ℤ
  pub access_ttl_seconds : ℤ
  pub refresh_ttl : ℤ

-- dto.TokenPair and dto.RefreshResponse, whose TokenType is "Bearer"
pub record TokenPair : Type 0 where
  pub access_token : Text
  pub refresh_token : Text
  pub expires_in : ℤ

abbrev pub is_positive : ℤ → Bool
is_positive (pos zero) = false
is_positive (pos (suc n)) = true
is_positive (negsuc n) = false

abbrev pub to_nat : ℤ → ℕ
to_nat (pos n) = n
to_nat (negsuc n) = 0

abbrev pub bad_token : Error
bad_token = unauthorized_error "invalid refresh token"

module _ (env : Env) (crypto : Crypto) (cfg : JwtConfig) where
  -- GenerateAccessToken
  unfoldable pub generate_access_token : Text → Text → ℤ → Go Text
  generate_access_token secret user_id ttl = do
    ensure (not (is_empty secret)) (foreign "auth: empty jwt secret")
    ensure (not (is_empty user_id)) (foreign "auth: empty user id")
    ensure (is_positive ttl) (foreign "auth: non-positive ttl")
    now ← time_now env
    lift (crypto.sign secret user_id now ttl)

  -- newAccessToken
  unfoldable pub new_access_token : Text → Go Text
  new_access_token user_id =
      on_error (internal_error "sign access token")
        (generate_access_token (trim_space cfg.secret) user_id cfg.access_ttl)

  -- newRefreshPlain
  unfoldable pub new_refresh_plain : Go Text
  new_refresh_plain = draw crypto.random

  -- The session that issueTokens and Refresh store
  abbrev pub new_session : Text → Text → ClientMeta → ℕ → RefreshSession
  new_session user_id plain meta now = record {
    id = [];
    user_id = user_id;
    token_hash = crypto.hash plain;
    user_agent = str_or_nil meta.user_agent;
    ip_address = str_or_nil (trim_ip meta.ip);
    expires_at = now + to_nat cfg.refresh_ttl;
    created_at = 0;
    revoked_at = none;
  }

  abbrev pub bad_ttl : Error
  bad_ttl = internal_error "invalid refresh ttl" (foreign "refresh_ttl_seconds")

  -- issueTokens
  unfoldable pub issue_tokens : Text → ClientMeta → Go TokenPair
  issue_tokens user_id meta = do
    access ← new_access_token user_id
    plain ← on_error (internal_error "generate refresh token") new_refresh_plain
    ensure (is_positive cfg.refresh_ttl) bad_ttl
    now ← time_now env
    on_error (internal_error "create refresh session")
        (create_session env (new_session user_id plain meta now))
    pure (record {
      access_token = access;
      refresh_token = plain;
      expires_in = cfg.access_ttl_seconds;
    })

  -- Refresh
  unfoldable pub refresh : Text → ClientMeta → Go TokenPair
  refresh raw meta = do
    let token = trim_space raw
    ensure (not (is_empty token)) (validation_error "refresh_token is required")
    sess ←
        on_error (unless_found bad_token "lookup session")
          (get_by_token_hash env (crypto.hash token))
    access ← new_access_token sess.user_id
    plain ← on_error (internal_error "generate refresh token") new_refresh_plain
    ensure (is_positive cfg.refresh_ttl) bad_ttl
    now ← time_now env
    on_error (unless_found bad_token "rotate refresh session")
        (rotate_refresh env (crypto.hash token) (new_session sess.user_id plain meta now))
    pure (record {
      access_token = access;
      refresh_token = plain;
      expires_in = cfg.access_ttl_seconds;
    })

  -- Logout
  unfoldable pub logout : Text → Go (Unit {0})
  logout raw = do
    let token = trim_space raw
    ensure (not (is_empty token)) (validation_error "refresh_token is required")
    sess ←
        on_error (unless_found bad_token "lookup session")
          (get_by_token_hash env (crypto.hash token))
    on_error (unless_found bad_token "revoke session") (revoke env sess.id)

  -- LogoutAll
  unfoldable pub logout_all : Text → Go (Unit {0})
  logout_all user_id = do
    ensure (not (is_empty user_id)) (unauthorized_error "missing user")
    on_error (internal_error "revoke sessions") (revoke_all_by_user env user_id)
