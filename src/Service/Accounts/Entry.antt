-- ===== src/Service/Accounts/Entry.antt =====
-- auth_service.go: what a registration and a login leave.
use gomsg.Prelude.{
  ℕ, Text, true, false, none, ◌∷◌, ◌≡◌, refl, arith, trim_space, to_lower, text_eq, any_row,
}
use gomsg.Result.{Result, ok, fail}
use gomsg.Errors.{Error}
use gomsg.Domain.{User, RefreshSession}
use gomsg.Store.{Env, Db, World}
use gomsg.Store.Effects.{ReadOnly, reads}
use gomsg.Store.Outcome.{
  Yields, Yields-pure, Yields-bind, Yields-skip, Yields-read, Yields-on_error, Yields-exec-on_db,
}
use gomsg.Store.Steps.{Yields-ensure, Yields-draw, Yields-lift, Yields-query_or}
use gomsg.Tables.Users.{Collation, has_email, select_by_email, insert_user}
use gomsg.Tables.Sessions.{insert_session}
use gomsg.Tables.Sessions.Writes.{InsertedSession, insert_session-InsertedSession}
use gomsg.Repository.Sessions.{create_session}
use gomsg.Repository.Users.{create_user, get_by_email, get_by_nickname}
use gomsg.Service.Sessions.{Crypto, JwtConfig, ClientMeta, TokenPair, new_session, issue_tokens}
use gomsg.Service.Sessions.Rotation.{new_access_token-ReadOnly, new_refresh_plain-ReadOnly}
use gomsg.Service.Credentials.{validate_credentials}
use gomsg.Service.Accounts.{
  Secrets, RegisterRequest, LoginRequest, LoginResponse, new_user, to_user_public, is_free,
  compare_password, hash_password, register_user, login,
}

-- The session of the user that the refresh token of `out` opens, which is the only change.
pub record Opens (crypto : Crypto) (cfg : JwtConfig) (user_id : Text) (d : Db) (out : TokenPair)
    (d' : Db) : Type 0 where
  pub row : RefreshSession
  pub of_user : row.user_id ≡ to_lower user_id
  pub token_hash : row.token_hash ≡ crypto.hash out.refresh_token
  pub live : row.revoked_at ≡ none
  pub stored : d' ≡ record d { sessions = row ∷ d.sessions }

module _ (env : Env) (crypto : Crypto) (cfg : JwtConfig) where
  create_session-Inserted :
      (s : RefreshSession) (d : Db)
      → Yields d
          (λ row d'. (drawn : Text) × (now : ℕ) × InsertedSession drawn now s d row d')
          (create_session env s)
  unfolding create_session
  create_session-Inserted s d =
      Yields-exec-on_db env (λ w. insert_session (env.uuid w.tick) (env.clock w.tick) s)
        λ w row d' e. (
          env.uuid w.tick,
          env.clock w.tick,
          insert_session-InsertedSession (env.uuid w.tick) (env.clock w.tick) s d row d' e,
        )

  pub issue_tokens-Opens :
      (user_id : Text) (meta : ClientMeta) (d : Db)
      → Yields d (Opens crypto cfg user_id d) (issue_tokens env crypto cfg user_id meta)
  unfolding issue_tokens
  issue_tokens-Opens user_id meta d =
      Yields-skip _ _ (new_access_token-ReadOnly env crypto cfg user_id) λ access.
        Yields-skip _ _ (search (new_refresh_plain-ReadOnly env crypto cfg, reads)) λ plain.
          Yields-ensure _ _ _ λ _. Yields-skip _ _ (search reads) λ now.
            Yields-bind _ _ _
              (Yields-on_error _ _
                (create_session-Inserted (new_session env crypto cfg user_id plain meta now) d))
              λ row d' h.
                let (drawn, at, i) = h in
                Yields-pure _ (record {
                  row = row;
                  of_user = i.user_id;
                  token_hash = i.token_hash;
                  live = i.live;
                  stored = i.stored;
                })

-- The user that insert_user stores
pub record InsertedUser (col : Collation) (drawn : Text) (now : ℕ) (u : User) (d : Db) (row : User)
    (d' : Db) : Type 0 where
  pub id : row.id ≡ to_lower drawn
  pub email : row.email ≡ u.email
  pub nickname : row.nickname ≡ u.nickname
  pub password_hash : row.password_hash ≡ u.password_hash
  pub active : row.is_active ≡ true
  pub unused : any_row (λ x. text_eq (User.id x) row.id) d.users ≡ false
  pub email_free : any_row (has_email col u.email) d.users ≡ false
  pub stored : d' ≡ record d { users = row ∷ d.users }

pub insert_user-InsertedUser :
    (col : Collation) (drawn : Text) (now : ℕ) (u : User) (d : Db) (row : User) (d' : Db)
    → insert_user col drawn now u d ≡ ok (row, d')
    → InsertedUser col drawn now u d row d'
unfolding insert_user
insert_user-InsertedUser col drawn now u d row d' e = ground arith

-- What a successful Login has found, and leaves.
pub record LoggedIn (col : Collation) (secrets : Secrets) (crypto : Crypto) (cfg : JwtConfig)
    (req : LoginRequest) (d : Db) (out : LoginResponse) (d' : Db) : Type 0 where
  pub user : User
  pub found : select_by_email col (trim_space (secrets.lower req.email)) d ≡ ok user
  pub active : user.is_active ≡ true
  pub matches : compare_password secrets user.password_hash req.password ≡ true
  pub shown : out.user ≡ to_user_public user
  pub opens : Opens crypto cfg user.id d out.tokens d'

module _ (env : Env) (col : Collation) (secrets : Secrets) (crypto : Crypto) (cfg : JwtConfig) where
  login-Yields :
      (req : LoginRequest) (meta : ClientMeta) (d : Db)
      → Yields d (LoggedIn col secrets crypto cfg req d) (login env col secrets crypto cfg req meta)
  unfolding login get_by_email
  login-Yields req meta d = Yields-ensure _ _ _ λ _. Yields-query_or _ env _ _ λ u found.
      Yields-ensure _ _ _ λ active. Yields-ensure _ _ _ λ matches.
        Yields-bind _ _ _ (issue_tokens-Opens env crypto cfg u.id meta d) λ tokens d' o.
          Yields-pure _ (record {
            user = u;
            found = found;
            active = active;
            matches = matches;
            shown = refl;
            opens = o;
          })

  -- A successful login is one of an active user whom the e-mail names and whose stored hash the password
  -- matches; it opens one session of this user, for the refresh token that it answers with, and changes
  -- nothing else.
  pub login-LoggedIn :
      (req : LoginRequest) (meta : ClientMeta) (w : World) (out : LoginResponse)
      → (login env col secrets crypto cfg req meta w).0 ≡ ok out
      → LoggedIn col secrets crypto cfg req w.db out
          (login env col secrets crypto cfg req meta w).1.db
  login-LoggedIn req meta w out e = (login-Yields req meta w.db).at w out refl e

  -- What a successful Register leaves: a new active user with the trimmed names and a hash of the password
  -- that bcrypt has computed, then a session of this user.
  pub record Registered (req : RegisterRequest) (d : Db) (out : LoginResponse) (d' : Db)
      : Type 0 where
    pub user : User
    pub hash : Text
    pub salt : ℕ
    pub hashed : secrets.bcrypt req.password salt ≡ ok hash
    pub valid :
        validate_credentials
          (trim_space (secrets.lower req.email))
          (trim_space req.nickname)
          req.password
        ≡ ok tt
    pub drawn : Text
    pub now : ℕ
    pub between : Db
    pub inserted :
        InsertedUser col drawn now
          (new_user (trim_space (secrets.lower req.email)) hash (trim_space req.nickname))
          d
          user
          between
    pub shown : out.user ≡ to_user_public user
    pub opens : Opens crypto cfg user.id between out.tokens d'

  pub free-ReadOnly :
      (e : Error) (wrap : Error → Error) (r : Result User) → ReadOnly (is_free e wrap r)
  unfolding is_free
  free-ReadOnly e wrap (ok u) = search reads
  free-ReadOnly e wrap (fail x) = search reads

  pub hash_password-ReadOnly : (p : Text) → ReadOnly (hash_password secrets p)
  unfolding hash_password
  hash_password-ReadOnly p = search reads

  hash_password-hashes :
      (p : Text) (d : Db)
      → Yields d (λ h _. (salt : ℕ) × (secrets.bcrypt p salt ≡ ok h)) (hash_password secrets p)
  unfolding hash_password
  hash_password-hashes p d =
      Yields-ensure _ _ _ λ _. Yields-on_error _ _ (Yields-draw (secrets.bcrypt p))

  create_user-Inserted :
      (u : User) (d : Db)
      → Yields d
          (λ row d'. (drawn : Text) × (now : ℕ) × InsertedUser col drawn now u d row d')
          (create_user env col u)
  unfolding create_user
  create_user-Inserted u d =
      Yields-exec-on_db env (λ w. insert_user col (env.uuid w.tick) (env.clock w.tick) u)
        λ w row d' e. (
          env.uuid w.tick,
          env.clock w.tick,
          insert_user-InsertedUser col (env.uuid w.tick) (env.clock w.tick) u d row d' e,
        )

  register_user-Yields :
      (req : RegisterRequest) (meta : ClientMeta) (d : Db)
      → Yields d (Registered req d) (register_user env col secrets crypto cfg req meta)
  unfolding register_user get_by_email get_by_nickname
  register_user-Yields req meta d = Yields-lift _ _ λ u valid.
      Yields-skip _ _ (search reads) λ by_email. Yields-skip _ _ (free-ReadOnly _ _ by_email) λ _.
        Yields-skip _ _ (search reads) λ by_nickname.
          Yields-skip _ _ (free-ReadOnly _ _ by_nickname) λ _.
            Yields-read (λ h. (salt : ℕ) × (secrets.bcrypt req.password salt ≡ ok h)) _ _
              (search (reads, hash_password-ReadOnly))
              (Yields-on_error _ _ (hash_password-hashes req.password d))
              λ hash h.
                Yields-bind _ _ _ (Yields-on_error _ _ (create_user-Inserted (new_user _ hash _) d))
                  λ row d1 i.
                    Yields-bind _ _ _ (issue_tokens-Opens env crypto cfg row.id meta d1)
                      λ tokens d2 o.
                        let (salt, hashed) = h in
                        let (drawn, now, inserted) = i in
                        Yields-pure _ (record {
                          user = row;
                          hash = hash;
                          salt = salt;
                          hashed = hashed;
                          valid = valid;
                          drawn = drawn;
                          now = now;
                          between = d1;
                          inserted = inserted;
                          shown = refl;
                          opens = o;
                        })

  -- A successful registration has valid credentials and an e-mail that no user had; it stores one active
  -- user with the trimmed names and a bcrypt hash of the password, opens one session of this user for the
  -- refresh token that it answers with, and changes nothing else.
  pub register_user-Registered :
      (req : RegisterRequest) (meta : ClientMeta) (w : World) (out : LoginResponse)
      → (register_user env col secrets crypto cfg req meta w).0 ≡ ok out
      → Registered req w.db out (register_user env col secrets crypto cfg req meta w).1.db
  register_user-Registered req meta w out e = (register_user-Yields req meta w.db).at w out refl e
