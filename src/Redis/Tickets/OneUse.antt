-- ===== src/Redis/Tickets/OneUse.antt =====
-- ws_ticket_store.go: a ticket admits its user once, while it lives.
use gomsg.Prelude.{
  ℕ, suc, ℤ, ◌+◌, ◌<◌, Text, Bool, false, none, List, [], ◌∷◌, ◌++◌, ◌≡◌, ◌≢◌, refl, sym, subst,
  arith, codes, text_eq, text_eq_iff, text_eq_refl, trim_space, find_row, any_row, delete_rows,
  none-delete_rows,
}
use gomsg.Result.{Result, ok, fail}
use gomsg.Store.{caught, Env, World, RedisKey, ensure, draw, redis_do, ◌>>=◌, raise, pure}
use gomsg.Redis.{set, del, has_key, live_key, set_nx, get_del}
use gomsg.Redis.Presence.{
  presence_key, presence_ttl, set_online, set_offline, seen_online, disconnected,
}
use gomsg.Redis.Tickets.{TicketStore, ticket_key, ttl_or_default, issue, consume, ticket_user}

module _ (key : Text) where
  -- No key of that name is stored.
  abbrev pub IsAbsent : List RedisKey → Type 0
  IsAbsent keys = any_row (has_key key) keys ≡ false

  pub delete_rows-IsAbsent :
      (q : RedisKey → Bool) (keys : List RedisKey) → IsAbsent keys → IsAbsent (delete_rows q keys)
  delete_rows-IsAbsent q keys h = none-delete_rows (has_key key) q keys h

  pub deleted-IsAbsent : (keys : List RedisKey) → IsAbsent (delete_rows (has_key key) keys)
  unfolding any_row delete_rows
  deleted-IsAbsent [] = refl
  deleted-IsAbsent (k ∷ keys) = ground (arith, deleted-IsAbsent keys)

  pub find_row-IsAbsent :
      (now : ℕ) (keys : List RedisKey) → IsAbsent keys → find_row (live_key key now) keys ≡ none
  unfolding any_row find_row
  find_row-IsAbsent now [] h = refl
  find_row-IsAbsent now (k ∷ keys) h = ground (arith, find_row-IsAbsent now keys)

module _ (env : Env) (store : TicketStore) where
  pub consume-IsAbsent :
      (raw user : Text) (w : World)
      → (consume env store raw w).0 ≡ ok user
      → IsAbsent (ticket_key (trim_space raw)) (consume env store raw w).1.redis
  unfolding consume ensure redis_do ◌>>=◌ get_del ticket_user raise pure
  consume-IsAbsent raw user w h =
      ground (arith, deleted-IsAbsent (ticket_key (trim_space raw)) w.redis)

  pub absent-fails :
      (raw user : Text) (w : World)
      → IsAbsent (ticket_key (trim_space raw)) w.redis
      → (consume env store raw w).0 ≢ ok user
  unfolding consume ensure redis_do ◌>>=◌ get_del ticket_user raise pure
  absent-fails raw user w h =
      ground (arith, find_row-IsAbsent (ticket_key (trim_space raw)) (env.clock w.tick) w.redis)

text_eq-append : (p s t : Text) → text_eq (p ++ s) (p ++ t) ≡ text_eq s t
unfolding text_eq
text_eq-append [] s t = refl
text_eq-append (c ∷ p) s t = ground (arith, text_eq-append p s t)

module _ (env : Env) (store : TicketStore) (ticket : Text) where
  consumed-IsAbsent :
      (raw : Text) (w : World)
      → IsAbsent (ticket_key ticket) w.redis
      → IsAbsent (ticket_key ticket) (consume env store raw w).1.redis
  unfolding consume ensure redis_do ◌>>=◌ get_del ticket_user raise pure
  consumed-IsAbsent raw w h = ground (
    arith,
    delete_rows-IsAbsent (ticket_key ticket) (has_key (ticket_key (trim_space raw))) w.redis h,
  )

  issued-IsAbsent :
      (user : Text) (ttl : ℤ) (w : World)
      → IsAbsent (ticket_key ticket) w.redis
      → (issue env store user ttl w).0 ≢ ok ticket
      → IsAbsent (ticket_key ticket) (issue env store user ttl w).1.redis
  unfolding issue ensure redis_do ◌>>=◌ set_nx pure draw any_row
  issued-IsAbsent user ttl w h other = go (store.random w.tick) refl
    where
      go :
          (r : Result Text)
          → store.random w.tick ≡ r
          → IsAbsent (ticket_key ticket) (issue env store user ttl w).1.redis
      go (ok t) e = ground (
        arith,
        delete_rows-IsAbsent (ticket_key ticket) (has_key (ticket_key t)) w.redis h,
        text_eq-append (codes "goflow:ws:ticket:") t ticket,
        text_eq_iff t ticket,
      )
      go (fail x) e = ground arith

module _ (env : Env) (on : Bool) (ticket : Text) where
  abbrev OtherKey : Text → Type 0
  OtherKey key = text_eq key (ticket_key ticket) ≡ false

  set-IsAbsent :
      (key value : Text) (ttl now : ℕ) (keys : List RedisKey)
      → OtherKey key
      → IsAbsent (ticket_key ticket) keys
      → IsAbsent (ticket_key ticket) (set key value ttl now keys).1
  unfolding set any_row
  set-IsAbsent key value ttl now keys o h =
      ground (arith, delete_rows-IsAbsent (ticket_key ticket) (has_key key) keys h)

  presence-other : (user : Text) → OtherKey (presence_key user)
  unfolding text_eq
  presence-other user = refl

  pub seen_online-IsAbsent :
      (user : Text) (w : World)
      → IsAbsent (ticket_key ticket) w.redis
      → IsAbsent (ticket_key ticket) (seen_online env on user w).1.redis
  unfolding seen_online set_online caught ensure ◌>>=◌ redis_do pure
  seen_online-IsAbsent user w h = ground (
    arith,
    set-IsAbsent (presence_key user) (b'1' ∷ []) presence_ttl (env.clock w.tick) w.redis
        (presence-other user) h,
  )

  disconnected-IsAbsent :
      (user : Text) (w : World)
      → IsAbsent (ticket_key ticket) w.redis
      → IsAbsent (ticket_key ticket) (disconnected env on user w).1.redis
  unfolding disconnected set_offline caught ◌>>=◌ redis_do pure del
  disconnected-IsAbsent user w h =
      ground
        (arith, delete_rows-IsAbsent (ticket_key ticket) (has_key (presence_key user)) w.redis h)

-- The keys `v` that issues of other tickets, consumptions of any, connections and disconnections make of
-- the keys `k`.
pub data Later (store : TicketStore) (ticket : Text) (k : List RedisKey)
    : List RedisKey → Type 0 where
  same : Later store ticket k k
  issued :
      (env : Env) (user : Text) (ttl : ℤ) (w : World) (v : List RedisKey)
      → Later store ticket k w.redis
      → (issue env store user ttl w).0 ≢ ok ticket
      → v ≡ (issue env store user ttl w).1.redis
      → Later store ticket k v
  consumed :
      (env : Env) (raw : Text) (w : World) (v : List RedisKey)
      → Later store ticket k w.redis
      → v ≡ (consume env store raw w).1.redis
      → Later store ticket k v
  came :
      (env : Env) (on : Bool) (user : Text) (w : World) (v : List RedisKey)
      → Later store ticket k w.redis
      → v ≡ (seen_online env on user w).1.redis
      → Later store ticket k v
  went :
      (env : Env) (on : Bool) (user : Text) (w : World) (v : List RedisKey)
      → Later store ticket k w.redis
      → v ≡ (disconnected env on user w).1.redis
      → Later store ticket k v

pub Later-IsAbsent :
    (store : TicketStore) (ticket : Text) (k v : List RedisKey)
    → IsAbsent (ticket_key ticket) k
    → Later store ticket k v
    → IsAbsent (ticket_key ticket) v
Later-IsAbsent store ticket k v h same = h
Later-IsAbsent store ticket k v h (issued env user ttl w _ l other e) =
    subst (IsAbsent (ticket_key ticket)) (sym e) (
      issued-IsAbsent env store ticket user ttl w (Later-IsAbsent store ticket k w.redis h l) other)
Later-IsAbsent store ticket k v h (consumed env raw w _ l e) =
    subst (IsAbsent (ticket_key ticket)) (sym e)
      (consumed-IsAbsent env store ticket raw w (Later-IsAbsent store ticket k w.redis h l))
Later-IsAbsent store ticket k v h (came env on user w _ l e) =
    subst (IsAbsent (ticket_key ticket)) (sym e)
      (seen_online-IsAbsent env on ticket user w (Later-IsAbsent store ticket k w.redis h l))
Later-IsAbsent store ticket k v h (went env on user w _ l e) =
    subst (IsAbsent (ticket_key ticket)) (sym e)
      (disconnected-IsAbsent env on ticket user w (Later-IsAbsent store ticket k w.redis h l))

-- A ticket that has been consumed is not consumed again, whatever tickets are issued and consumed and
-- whoever connects and disconnects in between, as long as no issue answers with this ticket again.
pub consume-once :
    (env env' : Env) (store : TicketStore) (raw raw' user user' : Text) (w v : World)
    → (consume env store raw w).0 ≡ ok user
    → Later store (trim_space raw) (consume env store raw w).1.redis v.redis
    → trim_space raw' ≡ trim_space raw
    → (consume env' store raw' v).0 ≢ ok user'
consume-once env env' store raw raw' user user' w v h l e = absent-fails env' store raw' user' v (
    subst (λ t. IsAbsent (ticket_key t) v.redis) (sym e)
      (Later-IsAbsent store (trim_space raw) _ v.redis (consume-IsAbsent env store raw user w h) l))

-- A ticket that was issued admits its user, read with spaces around it or not, at any time before its
-- time to live has run out, where the keys are as the issue left them and Redis answers.
pub consume-issue :
    (env env' : Env) (store : TicketStore) (user ticket raw : Text) (ttl : ℤ) (w v : World)
    → (issue env store user ttl w).0 ≡ ok ticket
    → v.redis ≡ (issue env store user ttl w).1.redis
    → env'.fault v.tick ≡ none
    → env'.clock v.tick < env.clock (suc w.tick) + ttl_or_default ttl
    → trim_space raw ≡ ticket
    → ticket ≢ []
    → trim_space user ≡ user
    → user ≢ []
    → (consume env' store raw v).0 ≡ ok user
unfolding issue consume ensure redis_do ◌>>=◌ set_nx get_del ticket_user raise pure draw find_row
consume-issue env env' store user ticket raw ttl w v h kept fault live e ne eu nu =
    ground (arith, text_eq_refl (ticket_key ticket))
