-- ===== src/Service/Messages/Editing.antt =====
-- message_service.go, Patch: what it writes and answers.
use gomsg.Prelude.{ℕ, Text, some, [], ◌∷◌, ◌++◌, ◌≡◌, trim_space, to_lower}
use gomsg.Domain.{Message, OutboxRow}
use gomsg.Store.{Db}
use gomsg.Tables.Messages.{edited_messages}
use gomsg.Tables.Messages.Lookup.{HasPrintedChats}
use gomsg.Service.MessageParts.{MessageDto, to_message_dto}
use gomsg.Service.Messages.Effects.{Targets, Patched}
use gomsg.Service.Messages.Posting.{Announces}

-- The patch of `raw` by `actor`, answered by `dto`, has turned the tables `d` into `d'`.
pub record Edited (d : Db) (actor raw text : Text) (dto : MessageDto) (d' : Db) : Type 0 where
  pub before : Message
  pub target : Targets d actor raw before
  pub author : before.sender_id ≡ actor
  pub now : ℕ
  pub after : Message
  pub changed : after ≡ record before { text = some (trim_space text); updated_at = now }
  pub answer : dto ≡ to_message_dto after
  pub row : OutboxRow
  pub announced : Announces "message.updated" after row
  pub messages :
      d'.messages ≡ edited_messages before.chat_id before.id (trim_space text) now d.messages
  pub outbox : d'.outbox ≡ d.outbox ++ row ∷ []
  pub members : d'.members ≡ d.members

module _ (d : Db) (printed : HasPrintedChats d) (actor raw text : Text) (dto : MessageDto) (d' : Db)
    (p : Patched d actor raw text dto d') where
  abbrev edit : Message → Message
  edit m = record m { text = some (trim_space text); updated_at = p.written.now }

  abbrev middle : Db
  middle = record d {
    messages =
        edited_messages (to_lower p.m.chat_id) (to_lower p.m.id) (trim_space text) p.written.now
          d.messages;
  }
