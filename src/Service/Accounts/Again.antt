-- ===== src/Service/Accounts/Again.antt =====
-- auth_service.go: who has registered can log in.
use gomsg.Prelude.{
  ℕ, suc, Text, true, false, none, ◌∷◌, List, ◌≡◌, sym, ap, ◌∙◌, arith, trim_space, text_eq_refl,
  is_empty, find_row,
}
use gomsg.Result.{ok}
use gomsg.Domain.{User}
use gomsg.Store.{Env, Db, World, pure, ◌>>=◌}
use gomsg.Store.Runs.{later, run-ensure, run-bind, run-on_error, run-query}
use gomsg.Tables.Users.{Collation, select_by_email}
use gomsg.Repository.Users.{get_by_email}
use gomsg.Service.Sessions.{Crypto, JwtConfig, ClientMeta, issue_tokens}
use gomsg.Service.Credentials.{validate_credentials}
use gomsg.Service.Accounts.{
  Secrets, RegisterRequest, LoginRequest, LoginResponse, UserPublic, to_user_public,
  compare_password, register_user, login,
}
use gomsg.Service.Accounts.Entry.{register_user-Registered}

-- bcrypt: a hash is not empty and matches the password that it was computed from.
abbrev pub IsBcrypt : Secrets → Type 0
IsBcrypt secrets =
    (p : Text) (n : ℕ) (h : Text)
    → secrets.bcrypt p n ≡ ok h
    → (is_empty h ≡ false) × (secrets.matches h p ≡ true)

-- A login whose checks pass is the issue of tokens.
login_passes :
    (env : Env) (col : Collation) (secrets : Secrets) (crypto : Crypto) (cfg : JwtConfig)
    (req : LoginRequest) (meta : ClientMeta) (v : World) (u : User)
    → env.fault v.tick ≡ none
    → is_empty (trim_space (secrets.lower req.email)) ≡ false
    → is_empty req.password ≡ false
    → select_by_email col (trim_space (secrets.lower req.email)) v.db ≡ ok u
    → u.is_active ≡ true
    → compare_password secrets u.password_hash req.password ≡ true
    → login env col secrets crypto cfg req meta v
      ≡ (issue_tokens env crypto cfg u.id meta >>= λ tokens.
            pure (record { user = to_user_public u; tokens = tokens }))
          (record v { tick = suc v.tick })
unfolding login get_by_email
login_passes env col secrets crypto cfg req meta v u f e p s a m =
    run-ensure _ _ _ v (cc)
    ∙ run-bind _ _ v u (later v) (
        run-on_error _ _ v (later v) u
          (run-query env (select_by_email col (trim_space (secrets.lower req.email))) v u f s))
    ∙ run-ensure _ _ _ (later v) a
    ∙ run-ensure _ _ _ (later v) m

record_valid :
    (email nick password : Text)
    → validate_credentials email nick password ≡ ok tt
    → (is_empty email ≡ false) × (is_empty password ≡ false)
unfolding validate_credentials
record_valid email nick password h = ground arith

-- Who has registered can log in with the e-mail and the password of the registration, on tables whose
-- users are as it left them, where the first statement of the login does not fail and bcrypt does what it
-- promises: every check passes, and what is left is the issue of tokens for the user who was registered.
pub login-register_user :
    (env env' : Env) (col : Collation) (secrets : Secrets) (crypto : Crypto) (cfg cfg' : JwtConfig)
    (req : RegisterRequest) (meta meta' : ClientMeta) (w v : World) (out : LoginResponse)
    → IsBcrypt secrets
    → (register_user env col secrets crypto cfg req meta w).0 ≡ ok out
    → v.db.users ≡ (register_user env col secrets crypto cfg req meta w).1.db.users
    → env'.fault v.tick ≡ none
    → login env' col secrets crypto cfg'
        (record { email = req.email; password = req.password })
        meta'
        v
      ≡ (issue_tokens env' crypto cfg' out.user.id meta' >>= λ tokens.
            pure (record { user = out.user; tokens = tokens }))
          (record v { tick = suc v.tick })
login-register_user env env' col secrets crypto cfg cfg' req meta meta' w v out b e same f =
    let r = register_user-Registered env col secrets crypto cfg req meta w out e in
    let i = r.inserted in
    let valid = record_valid _ _ req.password r.valid in
    let good = b req.password r.salt r.hash r.hashed in
    let stored : v.db.users ≡ r.user ∷ w.db.users =
      same ∙ ap Db.users r.opens.stored ∙ ap Db.users i.stored in
    login_passes env' col secrets crypto cfg' _ meta' v r.user f valid.0 valid.1
      (found (trim_space (secrets.lower req.email)) r.user v.db w.db.users stored i.email) i.active
      (matches r.user r.hash i.password_hash good.0 good.1)
    ∙ ap
        (λ u.
          (issue_tokens env' crypto cfg' (UserPublic.id u) meta' >>= λ tokens.
          pure (record { user = u; tokens = tokens }))
            (record v { tick = suc v.tick }))
        (sym r.shown)
  where
    found :
        (email : Text) (u : User) (d : Db) (rest : List User)
        → d.users ≡ u ∷ rest
        → u.email ≡ email
        → select_by_email col email d ≡ ok u
    found email u d rest s t =
        unfold select_by_email find_row in
        ground (arith, s, t, text_eq_refl (col.lower email), ap col.lower t)

    matches :
        (u : User) (hash : Text)
        → u.password_hash ≡ hash
        → is_empty hash ≡ false
        → secrets.matches hash req.password ≡ true
        → compare_password secrets u.password_hash req.password ≡ true
    matches u hash p n m = unfold compare_password in rw (p, n, m)
