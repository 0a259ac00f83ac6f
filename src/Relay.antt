-- ===== src/Relay.antt =====
-- backend/internal/worker/outbox_relay.go and kafka_ws_consumer.go, with backend/internal/kafka: the
-- way of an event from the outbox to the hub. The kafka-go writer is a parameter, which decides
-- whether a write is acknowledged; `sent` is the log of what was handed to it.
pub mod Paths
pub mod Sends
pub mod Marks
pub mod Safety
use gomsg.Prelude.{
  ℕ, suc, ◌+◌, pos, String, Text, Bool, true, false, Option, none, some, List, [], ◌∷◌, ◌++◌,
  if◌then◌else◌, is_empty, length,
}
use gomsg.Json.{Json, empty_obj}
use gomsg.Errors.{Error}
use gomsg.Result.{Result, ok, fail}
use gomsg.Domain.{OutboxRow}
use gomsg.Store.{Env, World, Counters, Go, count_up}
use gomsg.Hub.{Hub}
use gomsg.Broadcaster.{marshal_envelope, payload_data, deliver_payload}
use gomsg.Repository.Outbox.{fetch_pending, mark_published}

-- DomainEvent; an empty ChatID is left out of the JSON and read back as empty.
pub record DomainEvent : Type 0 where
  pub event_id : Text
  pub event_type : String
  pub aggregate_type : String
  pub aggregate_id : Text
  pub chat_id : Text
  pub occurred_at : ℕ
  pub version : ℕ
  pub payload : Option Json

-- The value of a Kafka record: what DomainEvent.Marshal made, or bytes that are no such object.
pub data Value : Type 0 where
  event_json : DomainEvent → Value
  malformed : Error → Value

-- A record that was handed to the writer, and the error that WriteMessages returned.
pub record Sent : Type 0 where
  pub key : Text
  pub value : Value
  pub error : Option Error

-- WriteMessages at its n-th call
abbrev pub Writer : Type 0
Writer = ℕ → Text → Value → Option Error

-- *Producer, whose writer is nil if it was made without brokers or a topic
pub record Producer : Type 0 where
  pub writer : Option Writer

-- OutboxRelay: whether Kafka is to be used, the publisher, the fallback, and the metrics.
pub record OutboxRelay : Type 0 where
  pub use_kafka : Bool
  pub kafka : Option Producer
  pub has_fallback : Bool
  pub has_metrics : Bool

-- A process: the tables behind it, its hub, and the log of its writer.
pub record Node : Type 0 where
  pub world : World
  pub hub : Hub
  pub sent : List Sent

abbrev pub as_result : Option Error → Result (Unit {0})
as_result none = ok tt
as_result (some e) = fail e

-- Publish of *Producer, which does nothing without a writer
unfoldable pub publish : Producer → Text → Value → Node → Result (Unit {0}) × Node
publish p key v n = elim p.writer [
  | none ↦ (ok tt, n)
  | some write ↦
      let answer = write (length n.sent) key v in
      (
        as_result answer,
        record n { sent = n.sent ++ (record { key = key; value = v; error = answer } ∷ []) },
      )
]

abbrev pub chat_or_empty : Option Text → Text
chat_or_empty none = []
chat_or_empty (some c) = c

-- The DomainEvent that tick builds from a row
unfoldable pub event_of : OutboxRow → DomainEvent
event_of row = record {
  event_id = row.event_id;
  event_type = row.event_type;
  aggregate_type = row.aggregate_type;
  aggregate_id = row.aggregate_id;
  chat_id = chat_or_empty row.chat_id;
  occurred_at = row.occurred_at;
  version = row.version;
  payload = some row.payload;
}

-- The key of the Kafka record
unfoldable pub key_of : DomainEvent → Text
key_of ev = if is_empty ev.chat_id then ev.aggregate_id else ev.chat_id

abbrev pub on_node :
    (World → Hub → Result (Unit {0}) × World × Hub) → Node → Result (Unit {0}) × Node
on_node f n = let (r, w, h) = f n.world n.hub in (r, record n { world = w; hub = h })

module _ (env : Env) where
  -- publishLocal
  unfoldable pub publish_local : String → Json → Text → Node → Result (Unit {0}) × Node
  publish_local event_type payload chat_id = on_node (
      deliver_payload env chat_id
        (marshal_envelope event_type (payload_data (some payload)) (some empty_obj)))

  abbrev pub fallback : OutboxRow → Bool → Option Text → Node → Result (Unit {0}) × Node
  fallback row true (some chat_id) n = publish_local row.event_type row.payload chat_id n
  fallback row true none n = (ok tt, n)
  fallback row false c n = (ok tt, n)

  abbrev pub route : OutboxRow → Bool → Option Producer → Bool → Node → Result (Unit {0}) × Node
  route row true (some p) fb n = publish p (key_of (event_of row)) (event_json (event_of row)) n
  route row true none fb n = fallback row fb row.chat_id n
  route row false k fb n = fallback row fb row.chat_id n

  -- A call of the repository or a metric, whose error is only logged
  abbrev pub run : {A : Type 0} → Go A → Node → Node
  run m n = record n { world = (m n.world).1 }

  module _ (relay : OutboxRelay) where
    -- `if r.UseKafka && r.Kafka != nil … else if r.Fallback != nil && row.ChatID != nil …`
    unfoldable pub publish_row : OutboxRow → Node → Result (Unit {0}) × Node
    unfolding publish_local
    publish_row row n = route row relay.use_kafka relay.kafka relay.has_fallback n

    -- What follows the publication of the row
    unfoldable pub finish_row : OutboxRow → Result (Unit {0}) × Node → Node
    finish_row row (fail e, n) =
        run (count_up relay.has_metrics (λ c. record c { relay_pub_fail = suc c.relay_pub_fail })) n
    finish_row row (ok _, n) =
        run (mark_published env row.id)
          (run (count_up relay.has_metrics (λ c. record c { relay_pub_ok = suc c.relay_pub_ok })) n)

    -- The loop of tick
    unfoldable pub relay_rows : List OutboxRow → Node → Node
    relay_rows [] n = n
    relay_rows (row ∷ rows) n = relay_rows rows (finish_row row (publish_row row n))

    abbrev pub with_rows : Result (List OutboxRow) × World → Node → Node
    with_rows (ok rows, w) n = relay_rows rows (record n { world = w })
    with_rows (fail e, w) n = record n { world = w }

    -- tick
    unfoldable pub tick : Node → Node
    unfolding relay_rows
    tick n =
        let started =
          run (count_up relay.has_metrics (λ c. record c { relay_iter = suc c.relay_iter })) n in
        with_rows (fetch_pending env (pos 100) started.world) started

  -- FanoutKafkaDomainEvent, with a broadcaster
  unfoldable pub fanout_kafka_domain_event : Value → Node → Result (Unit {0}) × Node
  fanout_kafka_domain_event (malformed e) n = (fail e, n)
  fanout_kafka_domain_event (event_json ev) n =
      if is_empty ev.chat_id
      then (ok tt, n)
      else on_node
          (deliver_payload env ev.chat_id
            (marshal_envelope ev.event_type (payload_data ev.payload) (some empty_obj)))
          n
