-- ===== src/Service/MessageParts.antt =====
-- backend/internal/service/message_service.go and dto/message.go: the helpers of MessageService.
use gomsg.Prelude.{
  ℕ, zero, suc, ℤ, pos, negsuc, String, Text, Bool, true, false, not, Option, none, some, List, [],
  ◌∷◌, ◌++◌, ltb, is_some, if◌then◌else◌, text_eq, is_empty, trim_space, byte_len,
}
use gomsg.Json.{str, time, obj, field, end}
use gomsg.Errors.{
  Error, forbidden_error, not_found_error, validation_error, internal_error, is_not_found,
}
use gomsg.Result.{Result, ok, fail}
use gomsg.Domain.{Message, MessageType, OutboxEnqueue}
use gomsg.Store.{Env, Go, pure, on_error, ensure, time_now, new_uuid, ◌>>=◌, ◌>>◌}
use gomsg.Uuid.{uuid_match}
use gomsg.Repository.Messages.{get_by_id}
use gomsg.Repository.Chats.{find_membership}
use gomsg.Repository.Writer.{type_name}

-- dto.Message
pub record MessageDto : Type 0 where
  pub id : Text
  pub chat_id : Text
  pub sender_id : Text
  pub type : String
  pub text : Option Text
  pub reply_to_id : Option Text
  pub created_at : ℕ
  pub updated_at : ℕ

-- dto.CreateMessageRequest
pub record CreateMessageRequest : Type 0 where
  pub text : Text
  pub reply_to_id : Option Text

-- dto.MessageListResponse
pub record MessageListResponse : Type 0 where
  pub messages : List MessageDto
  pub has_more : Bool

-- dto.MarkReadResponse
pub record MarkReadResponse : Type 0 where
  pub chat_id : Text
  pub last_read_message_id : Text

-- MessageService: whether a writer and metrics are configured, and whether the writer has metrics.
pub record MessageService : Type 0 where
  pub has_writer : Bool
  pub has_metrics : Bool
  pub writer_obs : Bool

abbrev pub msg_text_max_len : ℕ
msg_text_max_len = 8000

-- toMessageDTO, for a non-nil message
unfoldable pub to_message_dto : Message → MessageDto
to_message_dto m = record {
  id = m.id;
  chat_id = m.chat_id;
  sender_id = m.sender_id;
  type = type_name m.type;
  text = m.text;
  reply_to_id = m.reply_to_id;
  created_at = m.created_at;
  updated_at = m.updated_at;
}

-- if errors.Is(err, ErrNotFound) { return a }; return apperr.Internal(message, err)
unfoldable pub unless_found : Error → String → Error → Error
unless_found missing message e = if is_not_found e then missing else internal_error message e

-- validateMessageTypeForMVP
unfoldable pub type_supported : MessageType → Bool
type_supported MessageType.text = true
type_supported MessageType.system = true
type_supported MessageType.image = false
type_supported MessageType.file = false

abbrev pub unsupported_type : Error
unsupported_type = validation_error "unsupported message type for MVP (only text and system)"

-- The clamping of `limit` in ListByChat
unfoldable pub clamp_list_limit : ℤ → ℕ
clamp_list_limit (negsuc n) = 50
clamp_list_limit (pos zero) = 50
clamp_list_limit (pos (suc n)) = if ltb 200 (suc n) then 200 else suc n

-- The layouts that time.Parse is called with; the parser itself is a parameter.
pub data Layout : Type 0 where
  rfc3339_nano rfc3339 : Layout

-- What a cursor names.
abbrev pub Cursor : Type 0
Cursor = Option Text × Option ℕ

abbrev pub bad_cursor : Error
bad_cursor =
    validation_error "invalid before cursor (use message id or RFC3339/RFC3339Nano timestamp)"

unfoldable pub time_cursor : Option ℕ → Option ℕ → Result Cursor
time_cursor (some t) second = ok (none, some t)
time_cursor none (some t) = ok (none, some t)
time_cursor none none = fail bad_cursor

-- parseBeforeCursor
unfoldable pub parse_before_cursor : (Layout → Text → Option ℕ) → Text → Result Cursor
unfolding time_cursor
parse_before_cursor parse_time raw =
    let s = trim_space raw in
    if is_empty s
    then ok (none, none)
    else if uuid_match s
    then ok (some s, none)
    else time_cursor (parse_time rfc3339_nano s) (parse_time rfc3339 s)

-- The tests that Create and Patch make on the text
unfoldable pub check_text : Text → Go (Unit {0})
check_text text = do
  ensure (not (is_empty text)) (validation_error "text is required")
  ensure (not (ltb msg_text_max_len (byte_len text))) (validation_error "text too long")

module _ (env : Env) where
  -- requireChatMember
  unfoldable pub require_chat_member : Text → Text → Go (Unit {0})
  require_chat_member chat_id user_id = do
    on_error (unless_found (forbidden_error "not a chat member") "lookup membership")
        (find_membership env chat_id user_id)
    pure tt

  -- msgs.GetByID with the errors of Get, Patch, Delete and MarkRead
  unfoldable pub load_message : Text → Go Message
  load_message id =
      on_error (unless_found (not_found_error "message not found") "load message")
        (get_by_id env id)

  -- outboxForMessageCreated; the writer fills in the rest
  unfoldable pub outbox_for_created : Message → Go OutboxEnqueue
  outbox_for_created m = do
    event_id ← new_uuid env
    now ← time_now env
    pure (record {
      event_id = event_id;
      event_type = "message.created";
      aggregate_type = "message";
      aggregate_id = [];
      chat_id = some m.chat_id;
      occurred_at = now;
      version = 1;
      payload = none;
    })

  -- outboxForMessageUpdated
  unfoldable pub outbox_for_updated : Message → Go OutboxEnqueue
  outbox_for_updated m = do
    event_id ← new_uuid env
    now ← time_now env
    pure (record {
      event_id = event_id;
      event_type = "message.updated";
      aggregate_type = "message";
      aggregate_id = m.id;
      chat_id = some m.chat_id;
      occurred_at = now;
      version = 1;
      payload = none;
    })

  -- outboxForMessageDeleted
  unfoldable pub outbox_for_deleted : Message → Go OutboxEnqueue
  outbox_for_deleted m = do
    now ← time_now env
    event_id ← new_uuid env
    pure (record {
      event_id = event_id;
      event_type = "message.deleted";
      aggregate_type = "message";
      aggregate_id = m.id;
      chat_id = some m.chat_id;
      occurred_at = now;
      version = 1;
      payload = some (
          obj (
            field "id" (str m.id)
              (field "chat_id" (str m.chat_id) (field "deleted_at" (time now) end))));
    })

  -- outboxForReadReceipt
  unfoldable pub outbox_for_read : Text → Text → Text → Go OutboxEnqueue
  outbox_for_read chat_id user_id message_id = do
    event_id ← new_uuid env
    now ← time_now env
    pure (record {
      event_id = event_id;
      event_type = "message.read_receipt";
      aggregate_type = "read_state";
      aggregate_id = user_id ++ (b':' ∷ message_id);
      chat_id = some chat_id;
      occurred_at = now;
      version = 1;
      payload = some (
          obj (
            field "chat_id" (str chat_id)
              (field "user_id" (str user_id) (field "last_read_message_id" (str message_id) end))));
    })

  -- The part of Create that checks `reply_to_id`, where it is set
  unfoldable pub check_reply : Text → Text → Go (Option Text)
  check_reply chat_id rid = do
    ensure (uuid_match rid) (validation_error "invalid reply_to_id")
    rm ←
        on_error (unless_found (not_found_error "reply message not found") "load reply message")
          (get_by_id env rid)
    ensure (text_eq rm.chat_id chat_id)
        (validation_error "reply_to_id must belong to the same chat")
    ensure (not (is_some rm.deleted_at)) (validation_error "cannot reply to a deleted message")
    pure (some rid)

  unfoldable pub resolve_reply : Text → Option Text → Go (Option Text)
  unfolding check_reply
  resolve_reply chat_id none = pure none
  resolve_reply chat_id (some raw) =
      let rid = trim_space raw in if is_empty rid then pure none else check_reply chat_id rid
