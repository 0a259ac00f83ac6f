-- ===== src/Service/Messages/Posting.antt =====
-- message_service.go, Create: the message, its outbox row and the answer.
use gomsg.Prelude.{
  String, Text, false, none, some, [], ◌∷◌, ◌++◌, ◌≡◌, refl, sym, ◌∙◌, ap, trim_space, to_lower,
  lower_id,
}
use gomsg.Result.{ok}
use gomsg.Domain.{Message, OutboxRow}
use gomsg.Store.{Env, Db, World}
use gomsg.Uuid.{parse_id}
use gomsg.Tables.Messages.{message_exists}
use gomsg.Repository.Writer.{encode_message, payload_of}
use gomsg.Service.MessageParts.{MessageDto, CreateMessageRequest, MessageService, to_message_dto}
use gomsg.Service.Messages.{create}
use gomsg.Service.Messages.Reads.{IsMember, IsFitText}
use gomsg.Service.Messages.Effects.{Created, create-Created}

-- A message `m` and the outbox row `r` that announces it.
pub record Announces (type : String) (m : Message) (r : OutboxRow) : Type 0 where
  pub event_type : r.event_type ≡ type
  pub subject : r.aggregate_id ≡ m.id
  pub chat : r.chat_id ≡ some m.chat_id
  pub payload : r.payload ≡ encode_message m
  pub pending : r.published_at ≡ none

-- The request `req` of `actor`, answered by `dto`, has turned the tables `d` into `d'`.
pub record Posted (d : Db) (actor chat : Text) (req : CreateMessageRequest) (dto : MessageDto)
    (d' : Db) : Type 0 where
  pub chat_id : Text
  pub parsed : parse_id "invalid chat_id" chat ≡ ok chat_id
  pub member : IsMember d chat_id actor
  pub fit : IsFitText (trim_space req.text)
  pub stored : Message
  pub unused : message_exists stored.id d ≡ false
  pub in_chat : stored.chat_id ≡ to_lower chat_id
  pub sender : stored.sender_id ≡ to_lower actor
  pub text : stored.text ≡ some (trim_space req.text)
  pub live : stored.deleted_at ≡ none
  pub row : OutboxRow
  pub announced : Announces "message.created" stored row
  pub messages : d'.messages ≡ stored ∷ d.messages
  pub outbox : d'.outbox ≡ d.outbox ++ row ∷ []
  pub members : d'.members ≡ d.members
  pub answer : dto ≡ to_message_dto stored

Created-Posted :
    (d : Db) (actor chat : Text) (req : CreateMessageRequest) (dto : MessageDto) (d' : Db)
    → Created d actor chat req dto d'
    → Posted d actor chat req dto d'
Created-Posted d actor chat req dto d' c = record {
  chat_id = c.chat_id;
  parsed = c.parsed;
  member = c.member;
  fit = c.fit;
  stored = c.stored;
  unused = c.written.inserted.unused;
  in_chat = c.written.inserted.chat_id;
  sender = c.written.inserted.sender_id;
  text = c.written.inserted.text;
  live = c.written.inserted.live;
  row = c.written.emitted.row;
  announced = record {
    event_type = c.written.emitted.event.event_type ∙ c.event.type_eq;
    subject = c.written.emitted.event.aggregate_id;
    chat =
        c.written.emitted.event.chat_id
        ∙ ap lower_id c.event.chat_eq
        ∙ ap some (sym c.written.inserted.chat_id);
    payload = c.written.emitted.event.payload ∙ ap (λ p. payload_of p c.stored) c.unfilled;
    pending = c.written.emitted.event.pending;
  };
  messages = ap Db.messages c.written.emitted.appended ∙ ap Db.messages c.written.inserted.stored;
  outbox =
      ap Db.outbox c.written.emitted.appended
      ∙ ap (λ x. Db.outbox x ++ c.written.emitted.row ∷ []) c.written.inserted.stored;
  members = ap Db.members c.written.emitted.appended ∙ ap Db.members c.written.inserted.stored;
  answer = c.answer;
}

-- A create request that succeeds was made by a member of the chat that it names, with a text that is
-- neither empty nor over 8000 bytes once trimmed. It has stored one live message with that text, that
-- sender and that chat under an unused id, and one pending outbox row that announces this message with
-- its wire form as payload, at the end of the outbox. The answer is the stored message, and the other
-- messages, the outbox before and the memberships are unchanged.
pub create-Posted :
    (env : Env) (svc : MessageService) (w : World) (actor chat : Text) (req : CreateMessageRequest)
    (dto : MessageDto)
    → (create env svc actor chat req w).0 ≡ ok dto
    → Posted w.db actor chat req dto (create env svc actor chat req w).1.db
create-Posted env svc w actor chat req dto h =
    Created-Posted w.db actor chat req dto _
      ((create-Created env svc w.db actor chat req).at w dto refl h)
