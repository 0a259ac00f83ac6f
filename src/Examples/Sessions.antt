-- ===== src/Examples/Sessions.antt =====
-- Refresh tokens.
use gomsg.Prelude.{
  ℕ, ℤ, pos, Text, none, some, List, [], ◌∷◌, ◌++◌, ◌≡◌, ◌≢◌, refl, codes, to_lower,
}
use gomsg.Result.{ok}
use gomsg.Domain.{RefreshSession}
use gomsg.Store.{Db, World, world_of, lift, ◌>>=◌, ensure}
use gomsg.Store.Effects.{IsAtomic}
use gomsg.Store.Keeps.{Keeps}
use gomsg.Tables.Sessions.Usable.{HasSoundSessions}
use gomsg.Service.Sessions.{
  Crypto, JwtConfig, ClientMeta, TokenPair, issue_tokens, refresh, logout, logout_all,
}
use gomsg.Service.Sessions.Rotation.{refresh-IsAtomic}
use gomsg.Service.Sessions.OneUse.{Renewed, refresh-once, logout-once, refresh-Renewed}
use gomsg.Service.Sessions.Invariant.{sessions-HasSoundSessions}
use gomsg.Examples.{alice, bob, calm, tables, numbered}

abbrev pub plain_crypto : Crypto
plain_crypto = record {
  hash = λ t. b'#' ∷ t;
  random = λ n. ok (numbered n);
  sign = λ secret user now ttl. ok (secret ++ user);
}

abbrev pub jwt : JwtConfig
jwt = record {
  secret = codes "key";
  access_ttl = pos 900;
  access_ttl_seconds = pos 900;
  refresh_ttl = pos 1000;
}

abbrev pub meta : ClientMeta
meta = record { user_agent = []; ip = codes "10.0.0.7:5123" }

abbrev token : Text
token = codes "t0k3n"

abbrev session : RefreshSession
session = record {
  id = numbered 50;
  user_id = alice;
  token_hash = b'#' ∷ token;
  user_agent = none;
  ip_address = none;
  expires_at = 500;
  created_at = 0;
  revoked_at = none;
}

abbrev logged_in : World
logged_in = world_of (record tables { sessions = session ∷ [] })

abbrev pair : TokenPair
pair = record {
  access_token = codes "key" ++ alice;
  refresh_token = numbered 1;
  expires_in = pos 900;
}

refreshed : (refresh calm plain_crypto jwt token meta logged_in).0 ≡ ok pair
unfolding refresh lift ◌>>=◌ ensure gomsg.Prelude.trim_space gomsg.Store.on_error
    gomsg.Repository.Sessions.get_by_token_hash gomsg.Store.time_now gomsg.Store.query
    gomsg.Tables.Sessions.select_session gomsg.Prelude.find_row gomsg.Prelude.text_eq
    gomsg.Service.Sessions.new_access_token gomsg.Service.Sessions.generate_access_token
    gomsg.Service.Sessions.new_refresh_plain gomsg.Store.draw
    gomsg.Repository.Sessions.rotate_refresh gomsg.Store.transaction
    gomsg.Repository.Sessions.rotate_body gomsg.Store.exec gomsg.Tables.Sessions.revoke_by_id
    gomsg.Errors.is_not_found gomsg.Prelude.is_space gomsg.Prelude.lower_rune to_lower
    gomsg.Prelude.trim_left gomsg.Prelude.trim_right gomsg.Prelude.any_row gomsg.Prelude.update_rows
    gomsg.Service.MessageParts.unless_found gomsg.Store.commit gomsg.Store.pure
    gomsg.Tables.Sessions.insert_session gomsg.Uuid.cast_uuid gomsg.Uuid.is_hex
    gomsg.Uuid.uuid_match gomsg.Service.Clients.str_or_nil gomsg.Service.Clients.trim_ip
    gomsg.Prelude.byte_len
refreshed = refl

sound : HasSoundSessions logged_in.db
unfolding to_lower gomsg.Prelude.any_row
sound = record { distinct = (refl, tt); printed = (refl, tt) }

abbrev after_refresh : World
after_refresh = (refresh calm plain_crypto jwt token meta logged_in).1

refresh-once_example :
    ((refresh calm plain_crypto jwt token meta after_refresh).0 ≢ ok pair)
    × ((logout calm plain_crypto jwt token after_refresh).0 ≢ ok tt)
refresh-once_example =
    refresh-once calm plain_crypto jwt token meta logged_in pair sound refreshed calm jwt meta
      after_refresh pair refl

logged_out : (logout calm plain_crypto jwt token logged_in).0 ≡ ok tt
unfolding logout lift ◌>>=◌ ensure gomsg.Prelude.trim_space gomsg.Store.on_error
    gomsg.Repository.Sessions.get_by_token_hash gomsg.Store.time_now gomsg.Store.query
    gomsg.Tables.Sessions.select_session gomsg.Prelude.find_row gomsg.Prelude.text_eq
    gomsg.Repository.Sessions.revoke gomsg.Store.exec gomsg.Tables.Sessions.revoke_session
    gomsg.Uuid.cast_uuid gomsg.Uuid.uuid_match gomsg.Prelude.any_row to_lower
logged_out = refl

abbrev after_logout : World
after_logout = (logout calm plain_crypto jwt token logged_in).1

logout-once_example :
    ((refresh calm plain_crypto jwt token meta after_logout).0 ≢ ok pair)
    × ((logout calm plain_crypto jwt token after_logout).0 ≢ ok tt)
logout-once_example =
    logout-once calm plain_crypto jwt token logged_in sound logged_out calm jwt meta after_logout
      pair refl

refresh-Renewed_example : Renewed plain_crypto logged_in.db token pair after_refresh.db
refresh-Renewed_example = refresh-Renewed calm plain_crypto jwt token meta logged_in pair refreshed

refresh-IsAtomic_example : IsAtomic (refresh calm plain_crypto jwt token meta)
refresh-IsAtomic_example = refresh-IsAtomic calm plain_crypto jwt token meta

sessions-HasSoundSessions_example :
    Keeps HasSoundSessions (issue_tokens calm plain_crypto jwt bob meta)
    × Keeps HasSoundSessions (refresh calm plain_crypto jwt token meta)
    × Keeps HasSoundSessions (logout calm plain_crypto jwt token)
    × Keeps HasSoundSessions (logout_all calm plain_crypto jwt bob)
sessions-HasSoundSessions_example = sessions-HasSoundSessions calm plain_crypto jwt bob token meta
