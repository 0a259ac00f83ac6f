-- ===== src/Service/ChatParts.antt =====
-- backend/internal/service/chat_service.go and dto/chat.go: the replies, the key of a direct chat and
-- the checks of ChatService.
use gomsg.Prelude.{
  ℕ, zero, suc, ℤ, pos, negsuc, String, Text, Bool, true, false, not, ◌||◌, Option, none, some,
  List, [], ◌∷◌, ◌++◌, leb, if◌then◌else◌, text_gt, is_empty, trim_space, byte_len,
}
use text.Mathlib.Text as Native
use gomsg.Errors.{Error, err_not_found, pg_error, foreign, app, app_caused, validation_error}
use gomsg.Result.{Result, ok, fail}
use gomsg.Domain.{Chat, ChatType, ChatMember, Role, AddChatMember, ChatListRow, MessageType}
use gomsg.Repository.Writer.{type_name}

-- dto.ChatDetail
pub record ChatDetail : Type 0 where
  pub id : Text
  pub type : String
  pub title : Option Text
  pub avatar_url : Option Text
  pub created_at : ℕ
  pub updated_at : ℕ

-- dto.LastMessagePreview
pub record LastMessagePreview : Type 0 where
  pub id : Text
  pub sender_id : Text
  pub type : String
  pub text : Option Text
  pub created_at : ℕ

-- dto.ChatSummary
pub record ChatSummary : Type 0 where
  pub id : Text
  pub type : String
  pub title : Option Text
  pub avatar_url : Option Text
  pub created_at : ℕ
  pub updated_at : ℕ
  pub last_message : Option LastMessagePreview
  pub unread_count : ℕ

-- dto.ChatMember
pub record MemberDto : Type 0 where
  pub user_id : Text
  pub role : String
  pub joined_at : ℕ

-- dto.CreateGroupChatRequest
pub record CreateGroupChatRequest : Type 0 where
  pub title : Text
  pub avatar_url : Option Text
  pub member_ids : List Text

unfoldable pub chat_type_name : ChatType → String
chat_type_name ChatType.direct = "direct"
chat_type_name ChatType.group = "group"

unfoldable pub role_name : Role → String
role_name Role.owner = "owner"
role_name Role.admin = "admin"
role_name Role.member = "member"

-- chatDetail, for a non-nil chat
unfoldable pub chat_detail : Chat → ChatDetail
unfolding chat_type_name
chat_detail c = record {
  id = c.id;
  type = chat_type_name c.type;
  title = c.title;
  avatar_url = c.avatar_url;
  created_at = c.created_at;
  updated_at = c.updated_at;
}

-- isUniqueViolation
unfoldable pub is_unique_violation : Error → Bool
is_unique_violation err_not_found = false
is_unique_violation (pg_error code) = Native.◌==◌ code "23505"
is_unique_violation (foreign m) = false
is_unique_violation (app k m d) = false
is_unique_violation (app_caused k m d c) = is_unique_violation c

-- The ordered pair of users that directKey hashes
unfoldable pub pair_of : Text → Text → Text
pair_of a b = if text_gt a b then b ++ b'|' ∷ a else a ++ b'|' ∷ b

-- directKey
unfoldable pub direct_key : (Text → Text) → Text → Text → Result Text
unfolding pair_of
direct_key hash a b =
    if is_empty a || is_empty b
    then fail (validation_error "invalid user id")
    else ok (hash (pair_of a b))

abbrev pub both : Text → Text → List AddChatMember
both actor peer =
    record { user_id = actor; role = Role.member }
    ∷ record { user_id = peer; role = Role.member }
    ∷ []

-- toChatSummary, for the preview
unfoldable pub preview_dto : ChatListRow → Option LastMessagePreview
preview_dto row =
    go row.chat.last_message_id row.last_preview_at row.last_preview_sender row.last_preview_type
  where
    go : Option Text → Option ℕ → Option Text → Option MessageType → Option LastMessagePreview
    go (some id) (some at) (some sender) (some type) = some (record {
      id = id;
      sender_id = sender;
      type = type_name type;
      text = row.last_preview_text;
      created_at = at;
    })
    go none at sender type = none
    go (some id) none sender type = none
    go (some id) (some at) none type = none
    go (some id) (some at) (some sender) none = none

-- toChatSummary
unfoldable pub to_chat_summary : ChatListRow → ChatSummary
unfolding preview_dto chat_type_name
to_chat_summary row = record {
  id = row.chat.id;
  type = chat_type_name row.chat.type;
  title = row.chat.title;
  avatar_url = row.chat.avatar_url;
  created_at = row.chat.created_at;
  updated_at = row.chat.updated_at;
  last_message = preview_dto row;
  unread_count = row.unread_count;
}

unfoldable pub to_member_dto : ChatMember → MemberDto
unfolding role_name
to_member_dto m = record { user_id = m.user_id; role = role_name m.role; joined_at = m.joined_at }

-- The clamping of `limit` and `offset` in ListMine
unfoldable pub clamp_chat_limit : ℤ → ℕ
clamp_chat_limit (negsuc n) = 30
clamp_chat_limit (pos zero) = 30
clamp_chat_limit (pos (suc n)) = if leb (suc n) 100 then suc n else 100

abbrev pub clamp_offset : ℤ → ℕ
clamp_offset (negsuc n) = 0
clamp_offset (pos n) = n

-- The avatar of CreateGroup
unfoldable pub check_avatar : Option Text → Result (Option Text)
check_avatar none = ok none
check_avatar (some raw) =
    let v = trim_space raw in
    if not (leb (byte_len v) 2048)
    then fail (validation_error "avatar_url too long")
    else ok (if is_empty v then none else some v)

abbrev pub may_add : Role → Bool
may_add Role.owner = true
may_add Role.admin = true
may_add Role.member = false
