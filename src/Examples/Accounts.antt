-- ===== src/Examples/Accounts.antt =====
-- Registration, login and profiles.
use gomsg.Prelude.{
  ℕ, suc, pos, true, arith, Text, Bool, none, some, List, [], ◌∷◌, ◌++◌, ◌≡◌, refl, codes, text_eq,
  text_eq_refl,
}
use gomsg.Result.{ok}
use gomsg.Store.{World, pure, ◌>>=◌}
use gomsg.Store.Keeps.{Keeps}
use gomsg.Tables.Users.{Collation}
use gomsg.Service.Sessions.{issue_tokens}
use gomsg.Service.Profiles.{PatchUserRequest, UserSelf, update_me}
use gomsg.Service.Accounts.{
  Secrets, RegisterRequest, LoginRequest, LoginResponse, UserPublic, register_user, login,
}
use gomsg.Service.Accounts.Entry.{LoggedIn, login-LoggedIn}
use gomsg.Service.Accounts.Again.{IsBcrypt, login-register_user}
use gomsg.Service.Accounts.Invariant.{HasSoundUsers, accounts-HasSoundUsers}
use gomsg.Examples.{alice, calm, start, numbered}
use gomsg.Examples.Sessions.{plain_crypto, jwt, meta}

-- Stand-ins for lower, ILIKE, strings.ToLower and bcrypt
abbrev simple : Collation
simple = record { lower = λ t. t; ilike = text_eq }

abbrev secrets : Secrets
secrets = record {
  lower = λ t. t;
  bcrypt = λ p n. ok (b'$' ∷ p);
  matches = λ h p. text_eq h (b'$' ∷ p);
}

secrets-IsBcrypt : IsBcrypt secrets
secrets-IsBcrypt p n h e = ground (arith, text_eq_refl (b'$' ∷ p))

abbrev registration : RegisterRequest
registration = record {
  email = codes " dan@go.io ";
  nickname = codes "dan";
  password = codes "secret-8";
}

abbrev registered : World
registered = (register_user calm simple secrets plain_crypto jwt registration meta start).1

abbrev public_dan : UserPublic
public_dan = record { id = numbered 4; email = codes "dan@go.io"; nickname = codes "dan" }

abbrev dan : LoginResponse
dan = record {
  user = public_dan;
  tokens = record {
    access_token = codes "key" ++ numbered 4;
    refresh_token = numbered 4;
    expires_in = pos 900;
  };
}

registers : (register_user calm simple secrets plain_crypto jwt registration meta start).0 ≡ ok dan
unfolding register_user ◌>>=◌ gomsg.Store.lift gomsg.Service.Credentials.validate_credentials
    gomsg.Prelude.trim_space gomsg.Prelude.byte_len gomsg.Service.Credentials.email_match
    gomsg.Service.Profiles.nickname_match gomsg.Store.caught gomsg.Repository.Users.get_by_email
    gomsg.Store.query gomsg.Tables.Users.select_by_email gomsg.Prelude.find_row text_eq
    gomsg.Store.ensure gomsg.Errors.is_not_found gomsg.Repository.Users.get_by_nickname
    gomsg.Prelude.is_space gomsg.Prelude.lower_rune gomsg.Prelude.rune_len gomsg.Prelude.to_lower
    gomsg.Prelude.trim_left gomsg.Prelude.trim_right gomsg.Prelude.any_row
    gomsg.Repository.Sessions.create_session gomsg.Repository.Users.create_user
    gomsg.Service.Accounts.hash_password gomsg.Service.Accounts.is_free
    gomsg.Service.Credentials.domain_match gomsg.Service.Credentials.local_match
    gomsg.Service.Credentials.next_tail gomsg.Service.Profiles.all_chars
    gomsg.Service.Sessions.issue_tokens gomsg.Service.Sessions.generate_access_token
    gomsg.Service.Sessions.new_access_token gomsg.Service.Sessions.new_refresh_plain
    gomsg.Store.draw gomsg.Store.exec gomsg.Store.on_error pure gomsg.Store.time_now
    gomsg.Tables.Sessions.insert_session gomsg.Tables.Users.insert_user
    gomsg.Tables.Users.select_by_nickname gomsg.Uuid.cast_uuid gomsg.Uuid.is_hex
    gomsg.Uuid.uuid_match gomsg.Service.Clients.str_or_nil gomsg.Service.Clients.trim_ip
    gomsg.Service.Clients.split_host gomsg.Service.Clients.cut
registers = refl

abbrev credentials : LoginRequest
credentials = record { email = codes " dan@go.io "; password = codes "secret-8" }

login-register_user_example :
    login calm simple secrets plain_crypto jwt credentials meta registered
    ≡ (issue_tokens calm plain_crypto jwt public_dan.id meta >>= λ tokens.
          pure (record { user = public_dan; tokens = tokens }))
        (record registered { tick = suc registered.tick })
login-register_user_example =
    login-register_user calm calm simple secrets plain_crypto jwt jwt registration meta meta start
      registered dan secrets-IsBcrypt registers refl refl

abbrev dan_again : LoginResponse
dan_again = record {
  user = public_dan;
  tokens = record {
    access_token = codes "key" ++ numbered 4;
    refresh_token = numbered 7;
    expires_in = pos 900;
  };
}

logs_in : (login calm simple secrets plain_crypto jwt credentials meta registered).0 ≡ ok dan_again
unfolding login ◌>>=◌ gomsg.Store.ensure gomsg.Prelude.trim_space gomsg.Store.on_error
    gomsg.Repository.Users.get_by_email gomsg.Store.query gomsg.Tables.Users.select_by_email
    gomsg.Prelude.find_row register_user gomsg.Store.lift
    gomsg.Service.Credentials.validate_credentials gomsg.Prelude.byte_len
    gomsg.Service.Credentials.email_match gomsg.Service.Profiles.nickname_match gomsg.Store.caught
    text_eq gomsg.Errors.is_not_found gomsg.Prelude.is_space gomsg.Prelude.lower_rune
    gomsg.Prelude.rune_len gomsg.Prelude.to_lower gomsg.Prelude.trim_left gomsg.Prelude.trim_right
    gomsg.Prelude.any_row gomsg.Repository.Sessions.create_session
    gomsg.Repository.Users.create_user gomsg.Repository.Users.get_by_nickname
    gomsg.Service.Accounts.compare_password gomsg.Service.Accounts.hash_password
    gomsg.Service.Accounts.is_free gomsg.Service.Credentials.domain_match
    gomsg.Service.Credentials.local_match gomsg.Service.Credentials.next_tail
    gomsg.Service.Profiles.all_chars gomsg.Service.Sessions.issue_tokens
    gomsg.Service.Sessions.generate_access_token gomsg.Service.Sessions.new_access_token
    gomsg.Service.Sessions.new_refresh_plain gomsg.Store.draw gomsg.Store.exec pure
    gomsg.Store.time_now gomsg.Tables.Sessions.insert_session gomsg.Tables.Users.insert_user
    gomsg.Tables.Users.select_by_nickname gomsg.Uuid.cast_uuid gomsg.Uuid.is_hex
    gomsg.Uuid.uuid_match gomsg.Service.Clients.str_or_nil gomsg.Service.Clients.trim_ip
    gomsg.Service.Clients.split_host gomsg.Service.Clients.cut
logs_in = refl

login-LoggedIn_example :
    LoggedIn simple secrets plain_crypto jwt credentials registered.db dan_again
      (login calm simple secrets plain_crypto jwt credentials meta registered).1.db
login-LoggedIn_example =
    login-LoggedIn calm simple secrets plain_crypto jwt credentials meta registered dan_again
      logs_in

abbrev rename : PatchUserRequest
rename = record {
  nickname = some (codes " alice_2 ");
  first_name = some (codes "Alice");
  last_name = none;
  avatar_url = none;
}

accounts-HasSoundUsers_example :
    Keeps
      (HasSoundUsers simple)
      (register_user calm simple secrets plain_crypto jwt registration meta)
    × Keeps (HasSoundUsers simple) (login calm simple secrets plain_crypto jwt credentials meta)
    × Keeps (HasSoundUsers simple) (update_me calm simple alice rename)
accounts-HasSoundUsers_example =
    accounts-HasSoundUsers calm simple secrets plain_crypto jwt registration credentials meta alice
      rename

abbrev alice_2 : UserSelf
alice_2 = record {
  id = alice;
  email = codes "alice";
  nickname = codes "alice_2";
  first_name = some (codes "Alice");
  last_name = none;
  avatar_url = none;
  is_active = true;
  created_at = 0;
  updated_at = 2;
  last_seen = none;
}
