-- ===== src/Service/Messages/Reading.antt =====
-- message_service.go, MarkRead: what it writes.
use gomsg.Prelude.{ℕ, Text, some, ◌≡◌, to_lower}
use gomsg.Result.{ok}
use gomsg.Domain.{Message, ChatMember}
use gomsg.Store.{Db}
use gomsg.Tables.Chats.{select_membership, read_members}
use gomsg.Service.MessageParts.{MarkReadResponse}
use gomsg.Service.Messages.Effects.{Targets}

-- The read of `raw` by `actor`, answered by `r`, has turned the tables `d` into `d'`.
pub record Read (d : Db) (actor raw : Text) (r : MarkReadResponse) (d' : Db) : Type 0 where
  pub m : Message
  pub target : Targets d actor raw m
  pub answer : r ≡ record { chat_id = m.chat_id; last_read_message_id = m.id }
  pub before : ChatMember
  pub joined : select_membership m.chat_id actor d ≡ ok before
  pub now : ℕ
  pub after :
      select_membership m.chat_id actor d'
      ≡ ok (record before { last_read_message_id = some m.id; last_read_at = some now })
  pub members : d'.members ≡ read_members (to_lower m.chat_id) (to_lower actor) m.id now d.members
  pub messages : d'.messages ≡ d.messages
