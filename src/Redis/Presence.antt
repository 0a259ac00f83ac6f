-- ===== src/Redis/Presence.antt =====
-- backend/internal/repository/redis/presence_repository.go, typing_repository.go and
-- service/presence_service.go: keys with a time to live that say who is online and who is typing.
-- `on` says that there is a repository with a client; a nil repository or client does nothing.
use gomsg.Prelude.{
  ℕ, ◌*◌, Text, Bool, false, not, ◌||◌, codes, [], ◌∷◌, ◌++◌, is_empty, if◌then◌else◌,
}
use gomsg.Errors.{foreign}
use gomsg.Store.{Env, Go, pure, ensure, caught, redis_do, ◌>>◌}
use gomsg.Redis.{second, set, del, key_exists}

abbrev pub presence_ttl : ℕ
presence_ttl = 45 * second

abbrev pub typing_ttl : ℕ
typing_ttl = 8 * second

abbrev pub presence_key : Text → Text
presence_key user_id = codes "goflow:presence:user:" ++ user_id

abbrev pub typing_key : Text → Text → Text
typing_key chat_id user_id = codes "goflow:typing:" ++ chat_id ++ b':' ∷ user_id

abbrev one : Text
one = b'1' ∷ []

module _ (env : Env) (on : Bool) where
  -- SetOnline, Touch
  unfoldable pub set_online : Text → Go (Unit {0})
  set_online user_id = if not on then pure tt else do
    ensure (not (is_empty user_id)) (foreign "presence: empty user id")
    redis_do env (set (presence_key user_id) one presence_ttl)

  -- SetOffline
  unfoldable pub set_offline : Text → Go (Unit {0})
  set_offline user_id =
      if not on || is_empty user_id then pure tt else redis_do env (del (presence_key user_id))

  -- IsOnline
  unfoldable pub is_online : Text → Go Bool
  is_online user_id =
      if not on || is_empty user_id
      then pure false
      else redis_do env (key_exists (presence_key user_id))

  -- Connected and Activity, which drop the error
  unfoldable pub seen_online : Text → Go (Unit {0})
  seen_online user_id = do caught (set_online user_id); pure tt

  -- Disconnected, which drops the error
  unfoldable pub disconnected : Text → Go (Unit {0})
  disconnected user_id = do caught (set_offline user_id); pure tt

  -- StartTyping
  unfoldable pub start_typing : Text → Text → Go (Unit {0})
  start_typing chat_id user_id = if not on then pure tt else do
    ensure (not (is_empty chat_id || is_empty user_id)) (foreign "typing: empty chat or user id")
    redis_do env (set (typing_key chat_id user_id) one typing_ttl)

  -- StopTyping
  unfoldable pub stop_typing : Text → Text → Go (Unit {0})
  stop_typing chat_id user_id =
      if not on || is_empty chat_id || is_empty user_id
      then pure tt
      else redis_do env (del (typing_key chat_id user_id))
