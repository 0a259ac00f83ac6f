-- ===== src/Examples/Deliveries.antt =====
-- Events on their way from the outbox to the connections.
use gomsg.Prelude.{
  ℕ, zero, suc, Text, Bool, true, false, none, some, Option, List, [], ◌∷◌, ◌++◌, ◌≡◌, refl, codes,
  Pairs,
}
use gomsg.Json.{Json, empty_obj}
use gomsg.Errors.{foreign}
use gomsg.Domain.{OutboxRow}
use gomsg.Store.{Db, world_of}
use gomsg.Hub.{Hub, new_hub, register, new_client}
use gomsg.Hub.Gauge.{Reach, start, later, connect}
use gomsg.Hub.Reachable.{IsKept, reach-IsKept}
use gomsg.Tables.Chats.Members.{HasDistinctKeys}
use gomsg.Tables.Outbox.Order.{IsBatch}
use gomsg.Broadcaster.{deliver_payload}
use gomsg.Broadcaster.Delivery.{IsDelivery, deliver_payload-IsDelivery}
use gomsg.Relay.{Node, Writer, event_json, event_of, publish_local, fanout_kafka_domain_event, tick}
use gomsg.Relay.Paths.{fanout-publish_local}
use gomsg.Relay.Sends.{kafka_relay, sends, tick-sends}
use gomsg.Relay.Marks.{HasDistinctRowIds, IsMarked}
use gomsg.Relay.Safety.{tick-IsMarked}
use gomsg.Examples.{alice, bob, room, calm, tables, numbered}

-- Alice on one connection and Bob on another.
abbrev with_alice : Hub
with_alice = register (new_client alice (new_hub true)).0 alice (new_client alice (new_hub true)).1

abbrev pub with_both : Hub
with_both = register (new_client bob with_alice).0 bob (new_client bob with_alice).1

both_reached : Reach true with_both
both_reached = later (later start (connect alice (new_hub true))) (connect bob with_alice)

reach-IsKept_example : IsKept with_both
reach-IsKept_example = reach-IsKept true with_both both_reached

distinct_members : HasDistinctKeys (Db.members tables)
unfolding gomsg.Prelude.any_row gomsg.Prelude.text_eq
distinct_members = (refl, (refl, tt))

abbrev posted : Json
posted = empty_obj

deliver_payload-IsDelivery_example :
    IsDelivery room posted tables with_both
      (deliver_payload calm room posted (world_of tables) with_both).0
      (deliver_payload calm room posted (world_of tables) with_both).2
deliver_payload-IsDelivery_example =
    deliver_payload-IsDelivery calm room posted (world_of tables) with_both distinct_members
      (reach-IsKept true with_both both_reached).sound

abbrev event_row : ℕ → OutboxRow
event_row id = record {
  id = id;
  event_id = numbered id;
  event_type = "message.created";
  aggregate_type = "message";
  aggregate_id = numbered id;
  chat_id = some room;
  occurred_at = 1;
  version = 1;
  payload = empty_obj;
  published_at = none;
}

abbrev node : Node
node = record {
  world = world_of (record tables { outbox = event_row 7 ∷ event_row 3 ∷ [] });
  hub = with_both;
  sent = [];
}

-- A broker that takes the first record and refuses the others.
abbrev broker : Writer
broker zero key v = none
broker (suc n) key v = some (foreign "leader not available")

fanout-publish_local_example :
    fanout_kafka_domain_event calm (event_json (event_of (event_row 3))) node
    ≡ publish_local calm "message.created" empty_obj room node
fanout-publish_local_example = fanout-publish_local calm (event_row 3) room node refl refl

tick-sends_example :
    (rows : List OutboxRow) × IsBatch 100 (event_row 7 ∷ event_row 3 ∷ []) rows
    × ((tick calm (kafka_relay broker true true) node).sent ≡ [] ++ sends broker 0 rows)
tick-sends_example = tick-sends calm broker true true node refl

distinct_rows : HasDistinctRowIds (event_row 7 ∷ event_row 3 ∷ [])
distinct_rows = ((refl, tt), (tt, tt))

tick-IsMarked_example :
    Pairs
      (IsMarked (tick calm (kafka_relay broker true true) node).sent)
      (event_row 7 ∷ event_row 3 ∷ [])
      (tick calm (kafka_relay broker true true) node).world.db.outbox
tick-IsMarked_example = tick-IsMarked calm broker true true node distinct_rows
