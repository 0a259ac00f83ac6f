-- ===== src/Relay/Paths.antt =====
-- outbox_relay.go and kafka_ws_consumer.go: the two ways of an event to the hub.
use gomsg.Prelude.{Text, false, some, ◌≡◌, refl, is_empty}
use gomsg.Domain.{OutboxRow}
use gomsg.Store.{Env}
use gomsg.Relay.{Node, event_json, event_of, publish_local, fanout_kafka_domain_event}

-- For a row with a chat, whose id is not empty: its event, read from Kafka, goes to the hub as the
-- local fallback would bring it there, with the same envelope, the same channels and the same
-- result.
pub fanout-publish_local :
    (env : Env) (row : OutboxRow) (chat_id : Text) (n : Node)
    → row.chat_id ≡ some chat_id
    → is_empty chat_id ≡ false
    → fanout_kafka_domain_event env (event_json (event_of row)) n
      ≡ publish_local env row.event_type row.payload chat_id n
unfolding fanout_kafka_domain_event event_of publish_local
fanout-publish_local env row chat_id n e k = rw (e, k) refl
