-- ===== src/Redis.antt =====
-- backend/internal/repository/redis, but for the publisher: the commands that the stores give, and the
-- stores of connect tickets, of presence and of typing indicators. A duration is in nanoseconds.
pub mod Tickets
pub mod Presence
use gomsg.Prelude.{
  ℕ, ◌+◌, ◌*◌, Text, Bool, true, false, ◌&&◌, Option, none, some, List, [], ◌∷◌, ltb, text_eq,
  find_row, any_row, delete_rows,
}
use gomsg.Store.{RedisKey}

abbrev pub second : ℕ
second = 1_000_000_000

abbrev pub has_key : Text → RedisKey → Bool
has_key key e = text_eq e.key key

-- A key whose time to live has not run out
abbrev pub live_key : Text → ℕ → RedisKey → Bool
live_key key now e = has_key key e && ltb now e.expires_at

abbrev pub put_key : Text → Text → ℕ → List RedisKey → List RedisKey
put_key key value expires_at keys =
    record { key = key; value = value; expires_at = expires_at } ∷ delete_rows (has_key key) keys

-- SET key value PX ttl
unfoldable pub set : Text → Text → ℕ → ℕ → List RedisKey → Unit {0} × List RedisKey
set key value ttl now keys = (tt, put_key key value (now + ttl) keys)

-- SET key value NX PX ttl
unfoldable pub set_nx : Text → Text → ℕ → ℕ → List RedisKey → Bool × List RedisKey
set_nx key value ttl now keys = elim (any_row (live_key key now) keys) [
  | true ↦ (false, keys)
  | false ↦ (true, put_key key value (now + ttl) keys)
]

-- GETDEL key; `none` is goredis.Nil
unfoldable pub get_del : Text → ℕ → List RedisKey → Option RedisKey × List RedisKey
get_del key now keys = (find_row (live_key key now) keys, delete_rows (has_key key) keys)

-- DEL key
unfoldable pub del : Text → ℕ → List RedisKey → Unit {0} × List RedisKey
del key now keys = (tt, delete_rows (has_key key) keys)

-- EXISTS key
unfoldable pub key_exists : Text → ℕ → List RedisKey → Bool × List RedisKey
key_exists key now keys = (any_row (live_key key now) keys, keys)
