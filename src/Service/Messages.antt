-- ===== src/Service/Messages.antt =====
-- backend/internal/service/message_service.go: the operations of MessageService.
pub mod Atomicity
pub mod Reads
pub mod Effects
pub mod Posting
pub mod Editing
pub mod Deleting
pub mod Reading
pub mod Cursor
pub mod Listing
pub mod Invariant
use gomsg.Prelude.{
  ℕ, ◌+◌, ℤ, pos, Text, not, Option, none, some, [], map, ◌==◌, is_some, text_eq, is_empty,
  trim_space, length,
}
use gomsg.Errors.{
  Error, app, internal, unauthorized_error, forbidden_error, not_found_error, internal_error,
}
use gomsg.Domain.{Message, MessageType}
use gomsg.Store.{Env, Go, pure, lift, on_error, ensure, count_up, ◌>>=◌, ◌>>◌}
use gomsg.Uuid.{parse_id}
use gomsg.Repository.Messages.{get_by_id, get_chat_messages}
use gomsg.Repository.Writer.{
  create_message_with_outbox, update_message_text_with_outbox, soft_delete_message_with_outbox,
  update_member_read_with_outbox,
}
use gomsg.Service.MessageParts.{
  MessageDto, CreateMessageRequest, MessageListResponse, MarkReadResponse, MessageService,
  to_message_dto, unless_found, type_supported, unsupported_type, clamp_list_limit, Layout,
  parse_before_cursor, require_chat_member, load_message, outbox_for_created, outbox_for_updated,
  outbox_for_deleted, outbox_for_read, resolve_reply, check_text,
}

abbrev pub missing_user : Error
missing_user = unauthorized_error "missing user"

abbrev pub no_writer : Error
no_writer = app internal "message writer not configured" none

-- The message that Create hands to the writer.
abbrev pub new_message : Text → Text → Text → Option Text → Message
new_message chat_id actor text reply = record {
  id = [];
  chat_id = chat_id;
  sender_id = actor;
  type = MessageType.text;
  text = some text;
  reply_to_id = reply;
  created_at = 0;
  updated_at = 0;
  deleted_at = none;
}

module _ (env : Env) (svc : MessageService) where
  -- Create
  unfoldable pub create : Text → Text → CreateMessageRequest → Go MessageDto
  create actor chat_raw req = do
    ensure (not (is_empty actor)) missing_user
    ensure svc.has_writer no_writer
    chat_id ← lift (parse_id "invalid chat_id" chat_raw)
    require_chat_member env chat_id actor
    let text = trim_space req.text
    check_text text
    reply ← resolve_reply env chat_id req.reply_to_id
    let m = new_message chat_id actor text reply
    ensure (type_supported m.type) unsupported_type
    ob ← outbox_for_created env m
    stored ←
        on_error (unless_found (not_found_error "chat not found") "create message")
          (create_message_with_outbox env svc.writer_obs m ob)
    count_up svc.has_metrics (λ c. record c { messages_create = c.messages_create + 1 })
    pure (to_message_dto stored)

  -- Get
  unfoldable pub get : Text → Text → Go MessageDto
  get actor raw = do
    ensure (not (is_empty actor)) missing_user
    id ← lift (parse_id "invalid message_id" raw)
    m ← load_message env id
    ensure (not (is_some m.deleted_at)) (not_found_error "message not found")
    require_chat_member env m.chat_id actor
    pure (to_message_dto m)

  -- Patch
  unfoldable pub patch : Text → Text → Text → Go MessageDto
  patch actor raw new_text = do
    ensure (not (is_empty actor)) missing_user
    ensure svc.has_writer no_writer
    id ← lift (parse_id "invalid message_id" raw)
    m ← load_message env id
    ensure (not (is_some m.deleted_at)) (not_found_error "message not found")
    ensure (text_eq m.sender_id actor) (forbidden_error "only author can edit message")
    require_chat_member env m.chat_id actor
    ensure (type_supported m.type) unsupported_type
    let text = trim_space new_text
    check_text text
    ob ← outbox_for_updated env m
    on_error (unless_found (not_found_error "message not found") "update message")
        (update_message_text_with_outbox env svc.writer_obs m.chat_id m.id text ob)
    m2 ← on_error (internal_error "reload message") (get_by_id env m.id)
    count_up svc.has_metrics (λ c. record c { messages_update = c.messages_update + 1 })
    pure (to_message_dto m2)

  -- Delete
  unfoldable pub delete : Text → Text → Go (Unit {0})
  delete actor raw = do
    ensure (not (is_empty actor)) missing_user
    ensure svc.has_writer no_writer
    id ← lift (parse_id "invalid message_id" raw)
    m ← load_message env id
    ensure (not (is_some m.deleted_at)) (not_found_error "message not found")
    ensure (text_eq m.sender_id actor) (forbidden_error "only author can delete message")
    require_chat_member env m.chat_id actor
    ob ← outbox_for_deleted env m
    on_error (unless_found (not_found_error "message not found") "delete message")
        (soft_delete_message_with_outbox env svc.writer_obs m.chat_id m.id ob)
    count_up svc.has_metrics (λ c. record c { messages_delete = c.messages_delete + 1 })

  -- MarkRead
  unfoldable pub mark_read : Text → Text → Go MarkReadResponse
  mark_read actor raw = do
    ensure (not (is_empty actor)) missing_user
    ensure svc.has_writer no_writer
    id ← lift (parse_id "invalid message_id" raw)
    m ← load_message env id
    ensure (not (is_some m.deleted_at)) (not_found_error "message not found")
    require_chat_member env m.chat_id actor
    ob ← outbox_for_read env m.chat_id actor m.id
    on_error (unless_found (not_found_error "membership not found") "update read state")
        (update_member_read_with_outbox env svc.writer_obs m.chat_id actor m.id ob)
    count_up svc.has_metrics (λ c. record c { messages_read_rc = c.messages_read_rc + 1 })
    pure (record { chat_id = m.chat_id; last_read_message_id = m.id })

-- ListByChat, which needs no writer; `parse_time` is time.Parse
unfoldable pub list_by_chat :
    Env → (Layout → Text → Option ℕ) → Text → Text → ℤ → Text → Go MessageListResponse
list_by_chat env parse_time actor chat_raw limit before_raw = do
  ensure (not (is_empty actor)) missing_user
  chat_id ← lift (parse_id "invalid chat_id" chat_raw)
  require_chat_member env chat_id actor
  let n = clamp_list_limit limit
  cursor ← lift (parse_before_cursor parse_time before_raw)
  rows ← on_error (internal_error "list messages") (
      get_chat_messages env chat_id
        (record { limit = pos n; before_id = cursor.0; before_time = cursor.1 }))
  let out = map to_message_dto rows
  pure (record { messages = out; has_more = length out == n })
