-- ===== src/Store.antt =====
-- The state behind the repositories (the PostgreSQL tables of backend/internal/migration) and the
-- calls that the services make on it: one statement, a transaction, a Redis command, the clock, a
-- generated id.
--
-- `Env` is what PostgreSQL, Redis, the clock and the random source decide: whether a statement, a BEGIN or a
-- COMMIT fails, what time it is and which UUID is drawn. Each such call advances `tick`, by which
-- `Env` is indexed. A COMMIT that reports an error has changed no table.
pub mod Effects
pub mod Failing
pub mod Outcome
pub mod Steps
pub mod Keeps
pub mod Runs
use gomsg.Prelude.{ℕ, suc, Text, Bool, Option, none, some, List, [], ◌+◌, if◌then◌else◌}
use gomsg.Errors.{Error}
use gomsg.Result.{Result, ok, fail, map_error}
use gomsg.Domain.{Chat, ChatMember, Message, User, OutboxRow, RefreshSession}

pub record Env : Type 0 where
  pub fault : ℕ → Option Error
  pub clock : ℕ → ℕ
  pub uuid : ℕ → Text

pub record Db : Type 0 where
  pub users : List User
  pub chats : List Chat
  pub members : List ChatMember
  pub messages : List Message
  pub outbox : List OutboxRow
  pub sessions : List RefreshSession

-- The counters of observability/metrics that the messaging path moves.
pub record Counters : Type 0 where
  pub messages_create : ℕ
  pub messages_update : ℕ
  pub messages_delete : ℕ
  pub messages_read_rc : ℕ
  pub outbox_created : ℕ
  pub relay_iter : ℕ
  pub relay_pub_ok : ℕ
  pub relay_pub_fail : ℕ

-- A key of Redis with its time to live.
pub record RedisKey : Type 0 where
  pub key : Text
  pub value : Text
  pub expires_at : ℕ

-- `outbox_seq` is the sequence behind outbox_events.id, which a rollback does not turn back.
pub record World : Type 0 where
  pub db : Db
  pub outbox_seq : ℕ
  pub counters : Counters
  pub redis : List RedisKey
  pub tick : ℕ

abbrev pub empty_db : Db
empty_db = record {
  users = [];
  chats = [];
  members = [];
  messages = [];
  outbox = [];
  sessions = [];
}

abbrev pub zero_counters : Counters
zero_counters = record {
  messages_create = 0;
  messages_update = 0;
  messages_delete = 0;
  messages_read_rc = 0;
  outbox_created = 0;
  relay_iter = 0;
  relay_pub_ok = 0;
  relay_pub_fail = 0;
}

abbrev pub world_of : Db → World
world_of d = record { db = d; outbox_seq = 1; counters = zero_counters; redis = []; tick = 0 }

-- What was written before an error stays written, so the state comes back beside the error too.
abbrev pub Go : Type 0 → Type 0
Go A = World → Result A × World

abbrev advance : World → World
advance w = record w { tick = suc w.tick }

module _ {A : Type 0} where
  unfoldable pub pure : A → Go A
  pure a w = (ok a, w)

  unfoldable pub raise : Error → Go A
  raise e w = (fail e, w)

  -- A value that another call of the handler computed, or its error.
  unfoldable pub lift : Result A → Go A
  lift r w = (r, w)

  abbrev pub attempt : Option Error → World → Result A × World → Result A × World
  attempt none w r = r
  attempt (some e) w r = (fail e, w)

  -- One statement that only reads the tables.
  unfoldable pub query : Env → (Db → Result A) → Go A
  query env q w = attempt (env.fault w.tick) (advance w) (q w.db, advance w)

  -- One statement that writes; it is atomic, so it changes nothing where it fails.
  unfoldable pub exec : Env → (World → Result A × World) → Go A
  exec env q w = attempt (env.fault w.tick) (advance w) (q (advance w))

  -- One Redis command at the time it is given; it leaves the keys as they are where it fails.
  unfoldable pub redis_do : Env → (ℕ → List RedisKey → A × List RedisKey) → Go A
  redis_do env f w =
      let (a, keys) = f (env.clock w.tick) w.redis in
      attempt (env.fault w.tick) (advance w) (ok a, record w { redis = keys; tick = suc w.tick })

  -- if err := …; err != nil { return f(err) }
  unfoldable pub on_error : (Error → Error) → Go A → Go A
  on_error f m w = let (r, w') = m w in (map_error f r, w')

  -- v, err := …: the call's error is a value that the code goes on with.
  unfoldable pub caught : Go A → Go (Result A)
  caught m w = let (r, w') = m w in (ok r, w')

  unfoldable pub commit : Env → World → Result A × World → Result A × World
  commit env start (ok a, w) =
      attempt (env.fault w.tick) (record w { db = start.db; tick = suc w.tick }) (ok a, advance w)
  commit env start (fail e, w) = (fail e, record w { db = start.db })

  -- pool.Begin, the body at the time now() of the transaction, then Commit, or the deferred Rollback.
  unfoldable pub transaction : Env → (ℕ → Go A) → Go A
  unfolding commit
  transaction env body w =
      attempt (env.fault w.tick) (advance w) (commit env w (body (env.clock w.tick) (advance w)))

module _ {A B : Type 0} where
  abbrev continue : Result A → (A → Go B) → Go B
  continue (ok a) f w = f a w
  continue (fail e) f w = (fail e, w)

  infixl 10 ◌>>=◌ ◌>>◌
  unfoldable pub ◌>>=◌ : Go A → (A → Go B) → Go B
  ◌>>=◌ m f w = let (r, w') = m w in continue r f w'

  abbrev pub ◌>>◌ : Go A → Go B → Go B
  m >> n = m >>= λ _. n

-- if !cond { return err }
unfoldable pub ensure : Bool → Error → Go (Unit {0})
ensure Bool.true e w = (ok tt, w)
ensure Bool.false e w = (fail e, w)

-- time.Now().UTC()
unfoldable pub time_now : Env → Go ℕ
time_now env w = (ok (env.clock w.tick), w)

-- uuid.NewString()
unfoldable pub new_uuid : Env → Go Text
new_uuid env w = (ok (env.uuid w.tick), advance w)

-- A value of the random source, or its error
unfoldable pub draw : {A : Type 0} → (ℕ → Result A) → Go A
draw f w = (f w.tick, advance w)

-- A metric, where metrics are configured.
unfoldable pub count_up : Bool → (Counters → Counters) → Go (Unit {0})
count_up on f w = (ok tt, if on then record w { counters = f w.counters } else w)

-- A statement on the tables alone; an error leaves them as they were.
abbrev pub on_db : {A : Type 0} → (Db → Result (A × Db)) → World → Result A × World
on_db {A} f w = settle (f w.db)
  where
    settle : Result (A × Db) → Result A × World
    settle (ok (a, d)) = (ok a, record w { db = d })
    settle (fail e) = (fail e, w)
