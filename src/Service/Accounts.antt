-- ===== src/Service/Accounts.antt =====
-- backend/internal/service/auth_service.go, pkg/auth/password.go and dto/auth.go: registration and login.
-- bcrypt and strings.ToLower are parameters.
pub mod Entry
pub mod Again
pub mod Invariant
use gomsg.Prelude.{ℕ, Text, Bool, false, not, ◌&&◌, ◌||◌, none, [], is_empty, trim_space}
use gomsg.Errors.{
  Error, foreign, app_caused, validation_failed, unauthorized_error, forbidden_error,
  validation_error, conflict_error, internal_error, is_not_found,
}
use gomsg.Result.{Result, ok, fail}
use gomsg.Domain.{User}
use gomsg.Store.{Env, Go, pure, lift, on_error, caught, ensure, draw, ◌>>=◌, ◌>>◌}
use gomsg.Tables.Users.{Collation}
use gomsg.Repository.Users.{create_user, get_by_email, get_by_nickname}
use gomsg.Service.MessageParts.{unless_found}
use gomsg.Service.Sessions.{Crypto, JwtConfig, ClientMeta, TokenPair, issue_tokens}
use gomsg.Service.Credentials.{validate_credentials}

-- strings.ToLower, bcrypt.GenerateFromPassword with its salt, bcrypt.CompareHashAndPassword
pub record Secrets : Type 0 where
  pub lower : Text → Text
  pub bcrypt : Text → ℕ → Result Text
  pub matches : Text → Text → Bool

pub record RegisterRequest : Type 0 where
  pub email : Text
  pub nickname : Text
  pub password : Text

pub record LoginRequest : Type 0 where
  pub email : Text
  pub password : Text

-- dto.UserPublic
pub record UserPublic : Type 0 where
  pub id : Text
  pub email : Text
  pub nickname : Text

-- dto.RegisterResponse and dto.LoginResponse
pub record LoginResponse : Type 0 where
  pub user : UserPublic
  pub tokens : TokenPair

-- The user that Register stores
abbrev pub new_user : Text → Text → Text → User
new_user email hash nickname = record {
  id = [];
  email = email;
  password_hash = hash;
  nickname = nickname;
  first_name = none;
  last_name = none;
  avatar_url = none;
  created_at = 0;
  updated_at = 0;
  last_seen_at = none;
  is_active = false;
}

abbrev pub to_user_public : User → UserPublic
to_user_public u = record { id = u.id; email = u.email; nickname = u.nickname }

-- if _, err := …; err == nil { return taken } else if !errors.Is(err, ErrNotFound) { return Internal }
unfoldable pub is_free : Error → (Error → Error) → Result User → Go (Unit {0})
is_free taken wrap (ok u) = ensure false taken
is_free taken wrap (fail e) = ensure (is_not_found e) (wrap e)

-- ComparePassword
unfoldable pub compare_password : Secrets → Text → Text → Bool
compare_password secrets hash password = not (is_empty hash) && secrets.matches hash password

-- HashPassword
unfoldable pub hash_password : Secrets → Text → Go Text
hash_password secrets password = do
  ensure (not (is_empty password)) (foreign "auth: empty password")
  on_error (λ _. foreign "auth: hash password") (draw (secrets.bcrypt password))

module _ (env : Env) (col : Collation) (secrets : Secrets) (crypto : Crypto) (cfg : JwtConfig) where
  -- Register
  unfoldable pub register_user : RegisterRequest → ClientMeta → Go LoginResponse
  unfolding is_free
  register_user req meta = do
    let email = trim_space (secrets.lower req.email)
    let nick = trim_space req.nickname
    lift (validate_credentials email nick req.password)
    by_email ← caught (get_by_email env col email)
    is_free (conflict_error "email already registered") (internal_error "lookup user by email")
        by_email
    by_nickname ← caught (get_by_nickname env col nick)
    is_free (conflict_error "nickname already taken") (internal_error "lookup user by nickname")
        by_nickname
    hash ←
        on_error (app_caused validation_failed "password" none) (hash_password secrets req.password)
    u ← on_error (internal_error "create user") (create_user env col (new_user email hash nick))
    tokens ← issue_tokens env crypto cfg u.id meta
    pure (record { user = to_user_public u; tokens = tokens })

  -- Login
  unfoldable pub login : LoginRequest → ClientMeta → Go LoginResponse
  login req meta = do
    let email = trim_space (secrets.lower req.email)
    ensure (not (is_empty email || is_empty req.password))
        (validation_error "email and password are required")
    u ←
        on_error (unless_found (unauthorized_error "invalid credentials") "lookup user")
          (get_by_email env col email)
    ensure u.is_active (forbidden_error "account disabled")
    ensure (compare_password secrets u.password_hash req.password)
        (unauthorized_error "invalid credentials")
    tokens ← issue_tokens env crypto cfg u.id meta
    pure (record { user = to_user_public u; tokens = tokens })
