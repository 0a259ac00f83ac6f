-- ===== src/Examples/Frames.antt =====
-- Frames of a connection.
use gomsg.Prelude.{
  is_nil, ℕ, Text, Bool, true, false, none, some, Option, List, [], ◌∷◌, ◌≡◌, ◌≢◌, refl, codes, ap,
  arith,
}
use gomsg.Store.{World}
use gomsg.Hub.{Hub, Client}
use gomsg.Service.Sockets.{Decoder, WsService, handle_event}
use gomsg.Service.Sockets.Frames.{Reach}
use gomsg.Service.Sockets.Events.{handle_event-IsQuiet, handle_event-Reach}
use gomsg.Examples.{alice, room, calm, start, service}
use gomsg.Examples.Deliveries.{with_both}

-- A stand-in for json.Unmarshal: the payload is the name of the event, and every event names the room.
abbrev pub decoder : Decoder
decoder = record {
  is_envelope = λ _. true;
  envelope = λ p. record { event = p; content = none; meta = none };
  send_data = λ _. none;
  read_data = λ _. some (codes "no id");
  typing_data = λ _. some room;
}

abbrev pub sockets : WsService
sockets = record {
  msgs = service;
  has_typing = true;
  presence = some true;
  pub_redis = none;
  error_text = λ _. "error";
}

abbrev reading : Text
reading = codes "message.read"

frames : is_nil (handle_event calm sockets decoder alice reading start with_both).0 ≡ false
unfolding handle_event gomsg.Prelude.text_eq gomsg.Service.Sockets.answer
    gomsg.Service.Messages.mark_read gomsg.Store.◌>>=◌ gomsg.Store.ensure gomsg.Store.lift
    gomsg.Uuid.parse_id gomsg.Uuid.uuid_match gomsg.Prelude.trim_space
frames = refl

answered : (handle_event calm sockets decoder alice reading start with_both).0 ≢ []
answered e = absurd (ground (arith, frames, ap is_nil e))

handle_event-IsQuiet_example :
    (handle_event calm sockets decoder alice reading start with_both).1.db ≡ start.db
handle_event-IsQuiet_example =
    handle_event-IsQuiet calm sockets decoder alice reading start with_both answered

abbrev typing : Text
typing = codes "typing.start"

abbrev has_queue : List Client → Bool
has_queue [] = false
has_queue (c ∷ cs) = elim c.queue [ [] ↦ false | (p ∷ ps) ↦ true ]

sent_one :
    has_queue (handle_event calm sockets decoder alice typing start with_both).2.channels ≡ true
unfolding handle_event gomsg.Prelude.text_eq gomsg.Uuid.parse_id gomsg.Uuid.uuid_match
    gomsg.Prelude.trim_space gomsg.Repository.Chats.find_membership gomsg.Store.query
    gomsg.Tables.Chats.select_membership gomsg.Uuid.cast_uuid gomsg.Prelude.find_row
    gomsg.Redis.Presence.seen_online gomsg.Store.◌>>=◌ gomsg.Store.caught gomsg.Store.pure
    gomsg.Redis.Presence.set_online gomsg.Store.ensure gomsg.Store.redis_do gomsg.Prelude.to_lower
    gomsg.Broadcaster.publish_to_chat gomsg.Repository.Chats.get_chat_members
    gomsg.Tables.Chats.select_members gomsg.Broadcaster.send_to_members gomsg.Prelude.rows_where
    gomsg.Redis.Presence.start_typing gomsg.Hub.send_to_user gomsg.Hub.lookup_set gomsg.Hub.register
    gomsg.Hub.put_set gomsg.Hub.new_client gomsg.Hub.new_hub gomsg.Prelude.any_row
    gomsg.Prelude.update_rows
sent_one = refl

no_queue : has_queue with_both.channels ≡ false
unfolding gomsg.Hub.register gomsg.Hub.new_client
no_queue = refl

reached : (handle_event calm sockets decoder alice typing start with_both).2 ≢ with_both
reached e = absurd (ground (arith, sent_one, no_queue, ap (λ (h : Hub). has_queue h.channels) e))

handle_event-Reach_example :
    Reach calm alice start with_both
      (handle_event calm sockets decoder alice typing start with_both)
handle_event-Reach_example =
    handle_event-Reach calm sockets decoder alice typing start with_both reached
