-- ===== src/Service/Sockets.antt =====
-- backend/internal/service/ws_service.go: the frames that a client sends over its WebSocket. json.Unmarshal
-- and the text of an error of a library are parameters.
pub mod Frames
pub mod Events
use gomsg.Prelude.{
  String, Text, Bool, true, false, not, Option, none, some, List, [], ◌∷◌, codes, if◌then◌else◌,
  text_eq, trim_space,
}
use gomsg.Json.{Json, empty_obj, obj, field, end, word, str}
use gomsg.Errors.{Error, AppError, as_app, is_not_found}
use gomsg.Errors.Http.{kind_code}
use gomsg.Result.{Result, ok, fail}
use gomsg.Domain.{ChatMember}
use gomsg.Store.{Env, World, caught}
use gomsg.Hub.{Hub}
use gomsg.Uuid.{parse_id}
use gomsg.Repository.Chats.{find_membership}
use gomsg.Broadcaster.{marshal_envelope, publish_to_chat}
use gomsg.Redis.Presence.{seen_online, start_typing, stop_typing}
use gomsg.Service.MessageParts.{MessageService, CreateMessageRequest}
use gomsg.Service.Messages.{create, mark_read}

-- The envelope of HandleEvent, as json.Unmarshal leaves it; `content` is the field `data`.
pub record Inbound : Type 0 where
  pub event : Text
  pub content : Option Json
  pub meta : Option Json

-- The data of a message.send
pub record SendData : Type 0 where
  pub chat_id : Text
  pub text : Text
  pub reply_to_id : Option Text

-- json.Unmarshal into the structs of this file: whether the envelope is read, what its fields hold then,
-- and the data of message.send, message.read and the typing events, where they are read.
pub record Decoder : Type 0 where
  pub is_envelope : Text → Bool
  pub envelope : Text → Inbound
  pub send_data : Option Json → Option SendData
  pub read_data : Option Json → Option Text
  pub typing_data : Option Json → Option Text

-- WSService. `presence` is the notifier, where there is one, and whether it has a repository;
-- `has_typing`, that there is a typing repository with a client.
pub record WsService : Type 0 where
  pub msgs : MessageService
  pub has_typing : Bool
  pub presence : Option Bool
  pub pub_redis : Option (Text → Json → Result (Unit {0}))
  pub error_text : Error → String

-- The frames that answer, and the state after it.
abbrev pub Answer : Type 0
Answer = List Json × World × Hub

-- The error envelope with a code and a message
unfoldable pub error_frame : String → String → Option Json → Json
error_frame code message meta =
    marshal_envelope "error"
      (some (obj (field "code" (word code) (field "message" (word message) end)))) meta

-- wsErrorFrame, for a non-nil error
unfoldable pub ws_error_frame : WsService → Error → Option Json → Json
unfolding error_frame
ws_error_frame svc e meta = elim (as_app e) [
  | none ↦ error_frame "internal" (svc.error_text e) meta
  | some ae ↦ error_frame (kind_code (AppError.kind ae)) (AppError.message ae) meta
]

-- if err != nil { return [][]byte{wsErrorFrame(err, meta)}, nil }; return nil, nil
unfoldable pub answer : {A : Type 0} → WsService → Option Json → Hub → Result A × World → Answer
unfolding ws_error_frame
answer svc meta h (ok a, w) = ([], w, h)
answer svc meta h (fail e, w) = (ws_error_frame svc e meta ∷ [], w, h)

module _ (env : Env) (svc : WsService) (user_id : Text) (meta : Option Json) where
  -- handleMessageSend
  unfoldable pub handle_message_send : Option SendData → World → Hub → Answer
  handle_message_send none w h =
      (error_frame "validation_failed" "invalid message.send data" meta ∷ [], w, h)
  handle_message_send (some d) w h = answer svc meta h (
      create env svc.msgs user_id (trim_space d.chat_id)
        (record { text = d.text; reply_to_id = d.reply_to_id }) w)

  -- handleMessageRead
  unfoldable pub handle_message_read : Option Text → World → Hub → Answer
  handle_message_read none w h =
      (error_frame "validation_failed" "invalid message.read data" meta ∷ [], w, h)
  handle_message_read (some message_id) w h =
      answer svc meta h (mark_read env svc.msgs user_id (trim_space message_id) w)

  -- The typing repository of handleTyping, whose error is dropped
  abbrev pub keep_typing : Bool → Text → World → World
  keep_typing stop chat_id w =
      if stop
      then (stop_typing env svc.has_typing chat_id user_id w).1
      else (start_typing env svc.has_typing chat_id user_id w).1

  abbrev pub typing_event : Bool → String
  typing_event stop = if stop then "typing.stopped" else "typing.started"

  -- What follows the lookup of the membership in handleTyping
  unfoldable pub typing_found : Bool → Text → Result ChatMember × World → Hub → Answer
  typing_found stop chat_id (ok m, w) h =
      let (_, w', h') =
        publish_to_chat env svc.pub_redis chat_id (typing_event stop)
          (some (obj (field "chat_id" (str chat_id) (field "user_id" (str user_id) end)))) meta
          (keep_typing stop chat_id w) h in
      ([], w', h')
  typing_found stop chat_id (fail e, w) h =
      if is_not_found e
      then (error_frame "forbidden" "not a chat member" meta ∷ [], w, h)
      else (ws_error_frame svc e meta ∷ [], w, h)

  -- handleTyping behind parseMsgChatID
  unfoldable pub typing_parsed : Bool → Result Text → World → Hub → Answer
  unfolding typing_found
  typing_parsed stop (fail e) w h = (ws_error_frame svc e meta ∷ [], w, h)
  typing_parsed stop (ok chat_id) w h =
      typing_found stop chat_id (find_membership env chat_id user_id w) h

  -- handleTyping
  unfoldable pub handle_typing : Bool → Option Text → World → Hub → Answer
  unfolding typing_parsed
  handle_typing stop none w h =
      (error_frame "validation_failed" "invalid typing payload" meta ∷ [], w, h)
  handle_typing stop (some chat_raw) w h =
      typing_parsed stop (parse_id "invalid chat_id" (trim_space chat_raw)) w h

-- s.presence.Activity
unfoldable pub note_activity : Env → Option Bool → Text → World → World
note_activity env none user_id w = w
note_activity env (some on) user_id w = (seen_online env on user_id w).1

-- The switch of HandleEvent
unfoldable pub dispatch : Env → WsService → Decoder → Text → Inbound → World → Hub → Answer
unfolding handle_message_send handle_message_read handle_typing
dispatch env svc dec user_id i w h =
    if text_eq i.event (codes "ping")
    then (marshal_envelope "pong" (some empty_obj) i.meta ∷ [], w, h)
    else if text_eq i.event (codes "message.send")
    then handle_message_send env svc user_id i.meta (dec.send_data i.content) w h
    else if text_eq i.event (codes "message.read")
    then handle_message_read env svc user_id i.meta (dec.read_data i.content) w h
    else if text_eq i.event (codes "typing.start")
    then handle_typing env svc user_id i.meta false (dec.typing_data i.content) w h
    else if text_eq i.event (codes "typing.stop")
    then handle_typing env svc user_id i.meta true (dec.typing_data i.content) w h
    else (error_frame "validation_failed" "unknown event" i.meta ∷ [], w, h)

-- HandleEvent
unfoldable pub handle_event : Env → WsService → Decoder → Text → Text → World → Hub → Answer
unfolding dispatch note_activity
handle_event env svc dec user_id payload w h =
    let i = dec.envelope payload in
    if dec.is_envelope payload
    then dispatch env svc dec user_id i (note_activity env svc.presence user_id w) h
    else (error_frame "validation_failed" "invalid json envelope" i.meta ∷ [], w, h)
