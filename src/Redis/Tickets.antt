-- ===== src/Redis/Tickets.antt =====
-- backend/internal/repository/redis/ws_ticket_store.go and service/ws_ticket_service.go: the one-time
-- tickets by which a browser opens a WebSocket.
pub mod OneUse
use gomsg.Prelude.{
  ℕ, suc, zero, ℤ, pos, negsuc, ◌*◌, ◌/◌, Text, Bool, true, false, not, Option, none, some, codes,
  ◌++◌, is_empty, trim_space,
}
use gomsg.Errors.{Error, Kind, foreign, app, internal, unauthorized_error, internal_error}
use gomsg.Result.{Result, ok, fail}
use gomsg.Store.{Env, Go, RedisKey, pure, raise, on_error, ensure, draw, redis_do, ◌>>=◌, ◌>>◌}
use gomsg.Redis.{second, set_nx, get_del}

abbrev pub ticket_key : Text → Text
ticket_key ticket = codes "goflow:ws:ticket:" ++ ticket

abbrev pub bad_ticket : Error
bad_ticket = foreign "invalid or expired ticket"

-- What Consume makes of the answer of GETDEL
unfoldable pub ticket_user : Option RedisKey → Go Text
ticket_user none = raise bad_ticket
ticket_user (some e) = do
  let uid = trim_space e.value
  ensure (not (is_empty uid)) (foreign "ws ticket: invalid payload")
  pure uid

-- WSTicketStore: whether it has a client, and the hexadecimal of 16 random bytes
pub record TicketStore : Type 0 where
  pub has_client : Bool
  pub random : ℕ → Result Text

-- NewWSTicketService: the store, where there is one, and the time to live
pub record TicketService : Type 0 where
  pub store : Option TicketStore
  pub ttl : ℕ

-- ttl <= 0 is two minutes
unfoldable pub ttl_or_default : ℤ → ℕ
ttl_or_default (pos zero) = 120 * second
ttl_or_default (pos (suc n)) = suc n
ttl_or_default (negsuc n) = 120 * second

-- NewWSTicketService
unfoldable pub new_ticket_service : Option TicketStore → ℤ → TicketService
unfolding ttl_or_default
new_ticket_service store ttl = record { store = store; ttl = ttl_or_default ttl }

module _ (env : Env) (store : TicketStore) where
  -- WSTicketStore.Issue
  unfoldable pub issue : Text → ℤ → Go Text
  unfolding ttl_or_default
  issue user_id ttl = do
    ensure store.has_client (foreign "ws ticket: nil client")
    ticket ← draw store.random
    fresh ← redis_do env (set_nx (ticket_key ticket) user_id (ttl_or_default ttl))
    ensure fresh (foreign "ws ticket: collision")
    pure ticket

  -- WSTicketStore.Consume
  unfoldable pub consume : Text → Go Text
  unfolding ticket_user
  consume raw = do
    ensure store.has_client (foreign "ws ticket: nil client")
    let ticket = trim_space raw
    ensure (not (is_empty ticket)) (foreign "ws ticket: empty")
    found ← redis_do env (get_del (ticket_key ticket))
    ticket_user found

-- WSTicketService.Issue: the ticket and its time to live in seconds
unfoldable pub issue_ticket : Env → TicketService → Text → Go (Text × ℕ)
issue_ticket env svc user_id = elim svc.store [
  | none ↦ raise (app internal "ws ticket store not configured" none)
  | some store ↦ do
    ensure (not (is_empty user_id)) (unauthorized_error "missing user")
    ticket ← on_error (internal_error "issue ws ticket") (issue env store user_id (pos svc.ttl))
    pure (ticket, svc.ttl / second)
]
