-- ===== src/Broadcaster.antt =====
-- backend/internal/transport/ws/broadcaster.go and events.go: envelopes, and their way to the
-- connections of the members of a chat.
pub mod Delivery
use gomsg.Prelude.{Text, String, Bool, Option, none, some, List, [], ◌∷◌}
use gomsg.Json.{Json, word, obj, field, end, null, empty_obj}
use gomsg.Errors.{Error}
use gomsg.Result.{Result, ok, fail}
use gomsg.Domain.{ChatMember}
use gomsg.Store.{Env, World}
use gomsg.Hub.{Hub, send_to_user}
use gomsg.Repository.Chats.{get_chat_members}

abbrev or_empty_obj : Option Json → Json
or_empty_obj none = empty_obj
or_empty_obj (some j) = j

-- MarshalEnvelope; `none` is nil. The values are trees, of which json.Marshal refuses none.
unfoldable pub marshal_envelope : String → Option Json → Option Json → Json
marshal_envelope event content meta = obj (
    field "event" (word event)
      (field "data" (or_empty_obj content) (field "meta" (or_empty_obj meta) end)))

-- json.Unmarshal of a payload into `var data any`, or map[string]any{} where there is no payload
unfoldable pub payload_data : Option Json → Option Json
payload_data none = some empty_obj
payload_data (some null) = none
payload_data (some j) = some j

-- for _, m := range members { b.hub.SendToUser(m.UserID, payload) }
unfoldable pub send_to_members : List ChatMember → Json → Hub → Hub
send_to_members [] p h = h
send_to_members (m ∷ ms) p h = send_to_members ms p (send_to_user m.user_id p h)

abbrev pub to_found :
    Json → Hub → Result (List ChatMember) × World → Result (Unit {0}) × World × Hub
to_found p h (ok ms, w) = (ok tt, w, send_to_members ms p h)
to_found p h (fail e, w) = (fail e, w, h)

-- deliverPayload and DeliverEnvelopeBytes, where the hub and the repository are there
unfoldable pub deliver_payload : Env → Text → Json → World → Hub → Result (Unit {0}) × World × Hub
deliver_payload env chat_id p w h = to_found p h (get_chat_members env chat_id w)

-- PublishToChat; `pub_redis` is the Redis publisher, where there is one.
unfoldable pub publish_to_chat :
    Env
    → Option (Text → Json → Result (Unit {0}))
    → Text
    → String
    → Option Json
    → Option Json
    → World
    → Hub
    → Result (Unit {0}) × World × Hub
unfolding deliver_payload
publish_to_chat env none chat_id event content meta w h =
    deliver_payload env chat_id (marshal_envelope event content meta) w h
publish_to_chat env (some pub_redis) chat_id event content meta w h =
    (pub_redis chat_id (marshal_envelope event content meta), w, h)
