-- ===== src/Tables/Chats.antt =====
-- The SQL of chat_repository.go and message_writer.go on the tables `chats` and `chat_members`.
pub mod Members
pub mod Creation
pub mod Summaries
pub mod Keys
pub mod Added
pub mod Live
pub mod Grown
use gomsg.Prelude.{
  ℕ, Text, Bool, ◌&&◌, some, List, [], ◌∷◌, ltb, if◌then◌else◌, text_eq, find_row, any_row,
  rows_where, update_rows, delete_rows,
}
use gomsg.Errors.{err_not_found}
use gomsg.Result.{Result, ok, ◌>>=◌, or_error}
use gomsg.Domain.{Chat, ChatMember}
use gomsg.Store.{Db}
use gomsg.Uuid.{cast_uuid}

-- WHERE chat_id = $1::uuid AND user_id = $2::uuid
abbrev pub is_member_row : Text → Text → ChatMember → Bool
is_member_row chat_id user_id m = text_eq m.chat_id chat_id && text_eq m.user_id user_id

-- The statement of FindMembership
unfoldable pub select_membership : Text → Text → Db → Result ChatMember
select_membership chat user d = do
  chat_id ← cast_uuid chat
  user_id ← cast_uuid user
  or_error (find_row (is_member_row chat_id user_id) d.members) err_not_found

abbrev pub touched_chats : Text → Text → ℕ → ℕ → List Chat → List Chat
touched_chats chat_id message_id at now =
    update_rows (λ c. text_eq (Chat.id c) chat_id)
      (λ c. record c {
        last_message_id = some message_id;
        last_message_at = some at;
        updated_at = now;
      })

-- UPDATE chats SET last_message_id = $2::uuid, last_message_at = $3, updated_at = now()
unfoldable pub set_last_message : Text → Text → ℕ → ℕ → Db → Result (Bool × Db)
set_last_message chat message at now d = do
  chat_id ← cast_uuid chat
  message_id ← cast_uuid message
  ok (
    any_row (λ c. text_eq (Chat.id c) chat_id) d.chats,
    record d { chats = touched_chats chat_id message_id at now d.chats },
  )

abbrev pub read_members : Text → Text → Text → ℕ → List ChatMember → List ChatMember
read_members chat_id user_id message_id now =
    update_rows (is_member_row chat_id user_id)
      (λ m. record m { last_read_message_id = some message_id; last_read_at = some now })

-- UPDATE chat_members SET last_read_message_id = $3::uuid, last_read_at = now() WHERE …
unfoldable pub set_member_read : Text → Text → Text → ℕ → Db → Result (Bool × Db)
set_member_read chat user message now d = do
  chat_id ← cast_uuid chat
  user_id ← cast_uuid user
  message_id ← cast_uuid message
  ok (
    any_row (is_member_row chat_id user_id) d.members,
    record d { members = read_members chat_id user_id message_id now d.members },
  )

-- ORDER BY joined_at ASC; rows of one time stay in the order of the table
unfoldable pub insert_joined : ChatMember → List ChatMember → List ChatMember
insert_joined m [] = m ∷ []
insert_joined m (x ∷ xs) =
    let rest = insert_joined m xs in if ltb x.joined_at m.joined_at then x ∷ rest else m ∷ x ∷ xs

unfoldable pub by_joined : List ChatMember → List ChatMember
unfolding insert_joined
by_joined [] = []
by_joined (x ∷ xs) = insert_joined x (by_joined xs)

-- The statement of GetChatMembers
unfoldable pub select_members : Text → Db → Result (List ChatMember)
unfolding by_joined
select_members chat d = do
  chat_id ← cast_uuid chat
  ok (by_joined (rows_where (λ m. text_eq (ChatMember.chat_id m) chat_id) d.members))

-- The statement of GetByID
unfoldable pub select_chat : Text → Db → Result Chat
select_chat raw d = do
  id ← cast_uuid raw
  or_error (find_row (λ c. text_eq (Chat.id c) id) d.chats) err_not_found

-- DELETE FROM chat_members WHERE chat_id = $1::uuid AND user_id = $2::uuid
unfoldable pub delete_member : Text → Text → Db → Result (Bool × Db)
delete_member chat user d = do
  chat_id ← cast_uuid chat
  user_id ← cast_uuid user
  ok (
    any_row (is_member_row chat_id user_id) d.members,
    record d { members = delete_rows (is_member_row chat_id user_id) d.members },
  )
