-- ===== src/Repository/Writer.antt =====
-- backend/internal/repository/postgres/message_writer.go: a message mutation and its outbox row in one
-- transaction. The writer is built with a pool, so its nil test is not modelled.
pub mod Outcome
pub mod Edits
use gomsg.Prelude.{ℕ, ◌+◌, String, Text, Bool, Option, none, some}
use gomsg.Json.{Json, word, str, time, obj, field, end, omit_empty}
use gomsg.Errors.{err_not_found}
use gomsg.Domain.{Message, MessageType, OutboxEnqueue}
use gomsg.Store.{
  Env, Counters, Go, pure, exec, query, transaction, ensure, count_up, on_db, ◌>>=◌, ◌>>◌,
}
use gomsg.Tables.Messages.{insert_message, update_text, soft_delete, select_message_in}
use gomsg.Tables.Chats.{set_last_message, set_member_read}
use gomsg.Tables.Outbox.{insert_outbox}

-- string(m.Type)
unfoldable pub type_name : MessageType → String
type_name MessageType.text = "text"
type_name MessageType.image = "image"
type_name MessageType.file = "file"
type_name MessageType.system = "system"

-- encodeMessageWireJSON
unfoldable pub encode_message : Message → Json
unfolding type_name
encode_message m = obj (
    field "id" (str m.id) (
      field "chat_id" (str m.chat_id) (
        field "sender_id" (str m.sender_id) (
          field "type" (word (type_name m.type)) (
            omit_empty "text" m.text (
              omit_empty "reply_to_id" m.reply_to_id (
                field "created_at" (time m.created_at)
                  (field "updated_at" (time m.updated_at) end))))))))

abbrev pub payload_of : Option Json → Message → Json
payload_of none m = encode_message m
payload_of (some j) m = j

-- ob2 of CreateMessageWithOutbox
abbrev pub created_event : OutboxEnqueue → Message → OutboxEnqueue
created_event ob m = record ob {
  aggregate_id = m.id;
  occurred_at = m.created_at;
  payload = some (payload_of ob.payload m);
}

-- ob2 of UpdateMessageTextWithOutbox
abbrev pub updated_event : OutboxEnqueue → Text → Message → OutboxEnqueue
updated_event ob message_id m = record ob {
  aggregate_id = message_id;
  occurred_at = m.updated_at;
  payload = some (payload_of ob.payload m);
}

abbrev outbox_created_inc : Counters → Counters
outbox_created_inc c = record c { outbox_created = c.outbox_created + 1 }

module _ (env : Env) where
  -- The statements of CreateMessageWithOutbox between Begin and Commit
  unfoldable pub create_body : Message → OutboxEnqueue → ℕ → Go Message
  create_body m ob now = do
    out ← exec env (λ w. on_db (insert_message (env.uuid w.tick) now m) w)
    found ← exec env (on_db (set_last_message out.chat_id out.id out.created_at now))
    ensure found err_not_found
    exec env (insert_outbox (created_event ob out))
    pure out

  -- The statements of UpdateMessageTextWithOutbox
  unfoldable pub update_body : Text → Text → Text → OutboxEnqueue → ℕ → Go (Unit {0})
  update_body chat_id message_id text ob now = do
    found ← exec env (on_db (update_text chat_id message_id text now))
    ensure found err_not_found
    m ← query env (select_message_in chat_id message_id)
    exec env (insert_outbox (updated_event ob message_id m))

  -- The statements of SoftDeleteMessageWithOutbox
  unfoldable pub delete_body : Text → Text → OutboxEnqueue → ℕ → Go (Unit {0})
  delete_body chat_id message_id ob now = do
    found ← exec env (on_db (soft_delete chat_id message_id now))
    ensure found err_not_found
    exec env (insert_outbox ob)

  -- The statements of UpdateMemberReadWithOutbox
  unfoldable pub read_body : Text → Text → Text → OutboxEnqueue → ℕ → Go (Unit {0})
  read_body chat_id user_id message_id ob now = do
    found ← exec env (on_db (set_member_read chat_id user_id message_id now))
    ensure found err_not_found
    exec env (insert_outbox ob)

-- `obs` says whether the writer has metrics.
module _ (env : Env) (obs : Bool) where
  -- CreateMessageWithOutbox, which writes the stored row back into its argument
  unfoldable pub create_message_with_outbox : Message → OutboxEnqueue → Go Message
  create_message_with_outbox m ob = do
    out ← transaction env (create_body env m ob)
    count_up obs outbox_created_inc
    pure out

  -- UpdateMessageTextWithOutbox
  unfoldable pub update_message_text_with_outbox :
      Text → Text → Text → OutboxEnqueue → Go (Unit {0})
  update_message_text_with_outbox chat_id message_id text ob = do
    transaction env (update_body env chat_id message_id text ob)
    count_up obs outbox_created_inc

  -- SoftDeleteMessageWithOutbox
  unfoldable pub soft_delete_message_with_outbox : Text → Text → OutboxEnqueue → Go (Unit {0})
  soft_delete_message_with_outbox chat_id message_id ob = do
    transaction env (delete_body env chat_id message_id ob)
    count_up obs outbox_created_inc

  -- UpdateMemberReadWithOutbox
  unfoldable pub update_member_read_with_outbox : Text → Text → Text → OutboxEnqueue → Go (Unit {0})
  update_member_read_with_outbox chat_id user_id message_id ob = do
    transaction env (read_body env chat_id user_id message_id ob)
    count_up obs outbox_created_inc
