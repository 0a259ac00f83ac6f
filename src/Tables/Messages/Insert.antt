-- ===== src/Tables/Messages/Insert.antt =====
-- message_repository.go: the row that INSERT INTO messages stores.
use gomsg.Prelude.{lower_id, ℕ, Text, true, false, none, ◌∷◌, ◌≡◌, arith, to_lower}
use gomsg.Result.{ok}
use gomsg.Domain.{Message}
use gomsg.Store.{Db}
use gomsg.Uuid.{cast_uuid}
use gomsg.Tables.Messages.{insert_message, message_exists, chat_exists, user_exists, cast_reply}

-- The stored row, against the message that was handed in.
pub record Inserted (id : Text) (now : ℕ) (m : Message) (d : Db) (row : Message) (d' : Db)
    : Type 0 where
  pub has_id : row.id ≡ id
  pub unused : message_exists row.id d ≡ false
  pub chat_id : row.chat_id ≡ to_lower m.chat_id
  pub in_chat : chat_exists row.chat_id d ≡ true
  pub sender_id : row.sender_id ≡ to_lower m.sender_id
  pub by_user : user_exists row.sender_id d ≡ true
  pub type : row.type ≡ m.type
  pub text : row.text ≡ m.text
  pub reply : row.reply_to_id ≡ lower_id m.reply_to_id
  pub created_at : row.created_at ≡ now
  pub updated_at : row.updated_at ≡ now
  pub live : row.deleted_at ≡ none
  pub stored : d' ≡ record d { messages = row ∷ d.messages }

pub insert_message-Inserted :
    (id : Text) (now : ℕ) (m : Message) (d : Db) (row : Message) (d' : Db)
    → insert_message id now m d ≡ ok (row, d')
    → Inserted id now m d row d'
unfolding insert_message cast_reply cast_uuid
insert_message-Inserted id now m d row d' h = ground arith
