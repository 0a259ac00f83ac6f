-- ===== src/Domain.antt =====
-- backend/internal/domain and the parameter structs of backend/internal/repository: the rows of the
-- tables, the outbox event and the list options. A time is a number of ticks since a fixed origin.
use gomsg.Prelude.{ℕ, ℤ, String, Text, Bool, Option}
use gomsg.Json.{Json}

pub data ChatType : Type 0 where
  direct group : ChatType

pub data Role : Type 0 where
  owner admin member : Role

pub data MessageType : Type 0 where
  text image file system : MessageType

pub record Chat : Type 0 where
  pub id : Text
  pub type : ChatType
  pub title : Option Text
  pub avatar_url : Option Text
  pub created_by : Option Text
  pub created_at : ℕ
  pub updated_at : ℕ
  pub last_message_id : Option Text
  pub last_message_at : Option ℕ
  pub is_deleted : Bool
  pub direct_key : Option Text

pub record ChatMember : Type 0 where
  pub chat_id : Text
  pub user_id : Text
  pub role : Role
  pub joined_at : ℕ
  pub last_read_message_id : Option Text
  pub last_read_at : Option ℕ
  pub is_muted : Bool
  pub is_archived : Bool
  pub is_pinned : Bool

pub record Message : Type 0 where
  pub id : Text
  pub chat_id : Text
  pub sender_id : Text
  pub type : MessageType
  pub text : Option Text
  pub reply_to_id : Option Text
  pub created_at : ℕ
  pub updated_at : ℕ
  pub deleted_at : Option ℕ

pub record User : Type 0 where
  pub id : Text
  pub email : Text
  pub password_hash : Text
  pub nickname : Text
  pub first_name : Option Text
  pub last_name : Option Text
  pub avatar_url : Option Text
  pub created_at : ℕ
  pub updated_at : ℕ
  pub last_seen_at : Option ℕ
  pub is_active : Bool

pub record RefreshSession : Type 0 where
  pub id : Text
  pub user_id : Text
  pub token_hash : Text
  pub user_agent : Option Text
  pub ip_address : Option Text
  pub expires_at : ℕ
  pub created_at : ℕ
  pub revoked_at : Option ℕ

-- OutboxEnqueue. `none` is an empty payload.
pub record OutboxEnqueue : Type 0 where
  pub event_id : Text
  pub event_type : String
  pub aggregate_type : String
  pub aggregate_id : Text
  pub chat_id : Option Text
  pub occurred_at : ℕ
  pub version : ℕ
  pub payload : Option Json

-- OutboxRow, with the column `published_at` that only the statements read.
pub record OutboxRow : Type 0 where
  pub id : ℕ
  pub event_id : Text
  pub event_type : String
  pub aggregate_type : String
  pub aggregate_id : Text
  pub chat_id : Option Text
  pub occurred_at : ℕ
  pub version : ℕ
  pub payload : Json
  pub published_at : Option ℕ

pub record MessageListOpts : Type 0 where
  pub limit : ℤ
  pub before_id : Option Text
  pub before_time : Option ℕ

pub record AddChatMember : Type 0 where
  pub user_id : Text
  pub role : Role

-- ChatListRow
pub record ChatListRow : Type 0 where
  pub chat : Chat
  pub last_preview_text : Option Text
  pub last_preview_type : Option MessageType
  pub last_preview_sender : Option Text
  pub last_preview_at : Option ℕ
  pub unread_count : ℕ

pub record Page : Type 0 where
  pub limit : ℤ
  pub offset : ℤ

-- UpdateUserProfileParams; `none` leaves a column as it is.
pub record UpdateUserProfileParams : Type 0 where
  pub user_id : Text
  pub nickname : Option Text
  pub first_name : Option Text
  pub last_name : Option Text
  pub avatar_url : Option Text
