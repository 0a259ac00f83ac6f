-- ===== src/Service/Accounts/Invariant.antt =====
-- auth_service.go and user_service.go: what every request keeps of the users.
use gomsg.Prelude.{
  ℕ, Text, Bool, true, false, Option, none, some, List, [], ◌∷◌, ◌≡◌, refl, sym, subst, ◌∙◌, arith,
  to_lower, text_eq, any_row, any_row-update_rows, update_rows, if◌then◌else◌,
}
use gomsg.Result.{Result, ok, fail}
use gomsg.Domain.{User, RefreshSession, UpdateUserProfileParams}
use gomsg.Store.{Env, Db}
use gomsg.Store.Effects.{ReadOnly, reads}
use gomsg.Store.Keeps.{Keeps, Keeps-on_db, Keeps-bind, keeps_rules}
use gomsg.Uuid.{cast_uuid}
use gomsg.Tables.Users.{Collation, has_email, insert_user, update_profile_row, edited_user}
use gomsg.Tables.Sessions.{insert_session}
use gomsg.Tables.Sessions.Writes.{insert_session-InsertedSession}
use gomsg.Repository.Sessions.{create_session}
use gomsg.Repository.Users.{create_user, get_by_email, get_by_nickname, update_profile, get_user}
use gomsg.Service.Sessions.{Crypto, JwtConfig, ClientMeta, issue_tokens}
use gomsg.Service.Sessions.Rotation.{new_access_token-ReadOnly, new_refresh_plain-ReadOnly}
use gomsg.Service.Profiles.{PatchUserRequest, check_nickname, nickname_free, update_me}
use gomsg.Service.Accounts.{Secrets, RegisterRequest, LoginRequest, register_user, login}
use gomsg.Service.Accounts.Entry.{insert_user-InsertedUser, free-ReadOnly, hash_password-ReadOnly}

module _ (col : Collation) where
  -- The primary key of `users`, and uq_users_email_lower
  abbrev pub HasDistinctUsers : List User → Type 0
  HasDistinctUsers [] = Unit
  HasDistinctUsers (u ∷ us) =
      (any_row (λ x. text_eq (User.id x) u.id) us ≡ false)
      × (any_row (has_email col u.email) us ≡ false)
      × HasDistinctUsers us

  abbrev pub HasSoundUsers : Db → Type 0
  HasSoundUsers d = HasDistinctUsers d.users

  edited-HasDistinctUsers :
      (q : User → Bool) (p : UpdateUserProfileParams) (now : ℕ) (us : List User)
      → HasDistinctUsers us
      → HasDistinctUsers (update_rows q (edited_user p now) us)
  unfolding update_rows
  edited-HasDistinctUsers q p now [] s = tt
  edited-HasDistinctUsers q p now (u ∷ us) s = go (q u) (edited-HasDistinctUsers q p now us s.2)
    where
      rest : List User
      rest = update_rows q (edited_user p now) us

      id_free : any_row (λ x. text_eq (User.id x) u.id) rest ≡ false
      id_free =
          any_row-update_rows (λ x. text_eq (User.id x) u.id) q (edited_user p now) (λ x. refl) us
          ∙ s.0

      email_free : any_row (has_email col u.email) rest ≡ false
      email_free =
          any_row-update_rows (has_email col u.email) q (edited_user p now) (λ x. refl) us ∙ s.1

      go :
          (b : Bool)
          → HasDistinctUsers rest
          → HasDistinctUsers ((if b then edited_user p now u else u) ∷ rest)
      go true r = (id_free, email_free, r)
      go false r = (id_free, email_free, r)

  pub update_profile-eq :
      (p : UpdateUserProfileParams) (now : ℕ) (d : Db) (b : Bool) (d' : Db)
      → update_profile_row p now d ≡ ok (b, d')
      → d' ≡ record d {
        users =
            update_rows (λ u. text_eq (User.id u) (to_lower p.user_id)) (edited_user p now) d.users;
      }
  unfolding update_profile_row cast_uuid
  update_profile-eq p now d b d' e = ground arith

module _ (env : Env) (col : Collation) where
  create_user-Keeps : (u : User) → Keeps (HasSoundUsers col) (create_user env col u)
  unfolding create_user
  create_user-Keeps u =
      Keeps-on_db env (λ w. insert_user col (env.uuid w.tick) (env.clock w.tick) u)
        λ w d row d' s e.
          let i = insert_user-InsertedUser col (env.uuid w.tick) (env.clock w.tick) u d row d' e in
          subst (HasSoundUsers col) (sym i.stored) (
            i.unused,
            subst (λ x. any_row (has_email col x) d.users ≡ false) (sym i.email) i.email_free,
            s,
          )

  update_profile-Keeps :
      (p : UpdateUserProfileParams) → Keeps (HasSoundUsers col) (update_profile env p)
  unfolding update_profile
  update_profile-Keeps p =
      Keeps-bind _ _
        (Keeps-on_db env (λ w. update_profile_row p (env.clock w.tick))
          λ w d b d' s e.
            subst (HasSoundUsers col) (sym (update_profile-eq col p (env.clock w.tick) d b d' e))
              (edited-HasDistinctUsers col _ p (env.clock w.tick) d.users s))
        λ found. search keeps_rules

  create_session-Keeps : (s : RefreshSession) → Keeps (HasSoundUsers col) (create_session env s)
  unfolding create_session
  create_session-Keeps s =
      Keeps-on_db env (λ w. insert_session (env.uuid w.tick) (env.clock w.tick) s)
        λ w d row d' k e.
          subst (HasSoundUsers col)
            (sym
              (insert_session-InsertedSession (env.uuid w.tick) (env.clock w.tick) s d row d'
                e).stored)
            k

  pub get_by_nickname-ReadOnly : (n : Text) → ReadOnly (get_by_nickname env col n)
  unfolding get_by_nickname
  get_by_nickname-ReadOnly n = search reads

  get_by_email-ReadOnly : (n : Text) → ReadOnly (get_by_email env col n)
  unfolding get_by_email
  get_by_email-ReadOnly n = search reads

  pub nickname_free-ReadOnly : (u : Text) (r : Result User) → ReadOnly (nickname_free u r)
  unfolding nickname_free
  nickname_free-ReadOnly u (ok x) = search reads
  nickname_free-ReadOnly u (fail e) = search reads

  pub check_nickname-ReadOnly : (u : Text) (n : Option Text) → ReadOnly (check_nickname env col u n)
  unfolding check_nickname
  check_nickname-ReadOnly u none = search reads
  check_nickname-ReadOnly u (some n) =
      search (reads, get_by_nickname-ReadOnly, nickname_free-ReadOnly) depth 12

  get_user-ReadOnly : (id : Text) → ReadOnly (get_user env id)
  unfolding get_user
  get_user-ReadOnly id = search reads

module _ (env : Env) (col : Collation) (secrets : Secrets) (crypto : Crypto) (cfg : JwtConfig) where
  issue_tokens-Keeps :
      (u : Text) (meta : ClientMeta)
      → Keeps (HasSoundUsers col) (issue_tokens env crypto cfg u meta)
  unfolding issue_tokens
  issue_tokens-Keeps u meta =
      search
        (keeps_rules, create_session-Keeps, new_access_token-ReadOnly, new_refresh_plain-ReadOnly)
        depth 24

  register_user-Keeps :
      (req : RegisterRequest) (meta : ClientMeta)
      → Keeps (HasSoundUsers col) (register_user env col secrets crypto cfg req meta)
  unfolding register_user
  register_user-Keeps req meta =
      search
        (
          keeps_rules, issue_tokens-Keeps, create_user-Keeps, free-ReadOnly, hash_password-ReadOnly,
          get_by_email-ReadOnly, get_by_nickname-ReadOnly,
        )
        depth 30

  login-Keeps :
      (req : LoginRequest) (meta : ClientMeta)
      → Keeps (HasSoundUsers col) (login env col secrets crypto cfg req meta)
  unfolding login
  login-Keeps req meta = search (keeps_rules, issue_tokens-Keeps, get_by_email-ReadOnly) depth 24

  update_me-Keeps :
      (u : Text) (req : PatchUserRequest) → Keeps (HasSoundUsers col) (update_me env col u req)
  unfolding update_me
  update_me-Keeps u req =
      search (keeps_rules, update_profile-Keeps, check_nickname-ReadOnly, get_user-ReadOnly) depth
        30

  -- Every registration, login and edit of a profile, whether it succeeds or fails and whatever statement
  -- fails, keeps the users sound: no id and no e-mail twice, whatever their case.
  pub accounts-HasSoundUsers :
      (reg : RegisterRequest) (log : LoginRequest) (meta : ClientMeta) (u : Text)
      (req : PatchUserRequest)
      → Keeps (HasSoundUsers col) (register_user env col secrets crypto cfg reg meta)
        × Keeps (HasSoundUsers col) (login env col secrets crypto cfg log meta)
        × Keeps (HasSoundUsers col) (update_me env col u req)
  accounts-HasSoundUsers reg log meta u req =
      (register_user-Keeps reg meta, login-Keeps log meta, update_me-Keeps u req)
