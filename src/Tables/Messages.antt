-- ===== src/Tables/Messages.antt =====
-- The SQL of message_repository.go and message_writer.go on the table `messages`.
pub mod Insert
pub mod Lookup
pub mod Order
pub mod Distinct
pub mod Tail
pub mod Paging
pub mod Wanted
use gomsg.Prelude.{
  ℕ, Text, Bool, true, false, ◌&&◌, ◌||◌, not, Option, none, some, List, [], ◌∷◌, ltb, ◌==◌,
  is_some, if◌then◌else◌, text_eq, text_gt, find_row, any_row, rows_where, update_rows, take,
}
use gomsg.Errors.{pg_error, err_not_found, foreign}
use gomsg.Result.{Result, ok, ◌>>=◌, ◌>>◌, require, or_error}
use gomsg.Domain.{Message, Chat, User}
use gomsg.Store.{Db}
use gomsg.Uuid.{cast_uuid}

abbrev pub chat_exists : Text → Db → Bool
chat_exists id d = any_row (λ c. text_eq (Chat.id c) id) d.chats

abbrev pub user_exists : Text → Db → Bool
user_exists id d = any_row (λ u. text_eq (User.id u) id) d.users

abbrev pub has_id : Text → Message → Bool
has_id id m = text_eq m.id id

abbrev pub message_exists : Text → Db → Bool
message_exists id d = any_row (has_id id) d.messages

unfoldable pub cast_reply : Option Text → Db → Result (Option Text)
cast_reply none d = ok none
cast_reply (some raw) d = do
  id ← cast_uuid raw
  require (message_exists id d) (pg_error "23503")
  ok (some id)

-- INSERT INTO messages … RETURNING …, with the foreign keys and the primary key.
unfoldable pub insert_message : Text → ℕ → Message → Db → Result (Message × Db)
unfolding cast_reply
insert_message id now m d = do
  chat_id ← cast_uuid m.chat_id
  sender_id ← cast_uuid m.sender_id
  reply ← cast_reply m.reply_to_id d
  require (not (message_exists id d)) (pg_error "23505")
  require (chat_exists chat_id d) (pg_error "23503")
  require (user_exists sender_id d) (pg_error "23503")
  let row : Message = record {
    id = id;
    chat_id = chat_id;
    sender_id = sender_id;
    type = m.type;
    text = m.text;
    reply_to_id = reply;
    created_at = now;
    updated_at = now;
    deleted_at = none;
  }
  ok (row, record d { messages = row ∷ d.messages })

-- SELECT … FROM messages WHERE id = $1::uuid
unfoldable pub select_message : Text → Db → Result Message
select_message raw d = do
  id ← cast_uuid raw
  or_error (find_row (has_id id) d.messages) err_not_found

-- SELECT … FROM messages WHERE id = $1::uuid AND chat_id = $2::uuid, whose error is passed on as it is
unfoldable pub select_message_in : Text → Text → Db → Result Message
select_message_in chat raw d = do
  chat_id ← cast_uuid chat
  id ← cast_uuid raw
  or_error (find_row (λ m. has_id id m && text_eq m.chat_id chat_id) d.messages)
      (foreign "no rows in result set")

-- WHERE id = $2::uuid AND chat_id = $1::uuid AND deleted_at IS NULL
abbrev pub live_in : Text → Text → Message → Bool
live_in chat_id id m = has_id id m && text_eq m.chat_id chat_id && not (is_some m.deleted_at)

abbrev pub edited_messages : Text → Text → Text → ℕ → List Message → List Message
edited_messages chat_id id text now =
    update_rows (live_in chat_id id) (λ m. record m { text = some text; updated_at = now })

abbrev pub deleted_messages : Text → Text → ℕ → List Message → List Message
deleted_messages chat_id id now =
    update_rows (live_in chat_id id) (λ m. record m { deleted_at = some now; updated_at = now })

-- UPDATE messages SET text = $3, updated_at = now() WHERE …, and whether it met a row
unfoldable pub update_text : Text → Text → Text → ℕ → Db → Result (Bool × Db)
update_text chat raw text now d = do
  chat_id ← cast_uuid chat
  id ← cast_uuid raw
  ok (
    any_row (live_in chat_id id) d.messages,
    record d { messages = edited_messages chat_id id text now d.messages },
  )

-- UPDATE messages SET deleted_at = now(), updated_at = now() WHERE …
unfoldable pub soft_delete : Text → Text → ℕ → Db → Result (Bool × Db)
soft_delete chat raw now d = do
  chat_id ← cast_uuid chat
  id ← cast_uuid raw
  ok (
    any_row (live_in chat_id id) d.messages,
    record d { messages = deleted_messages chat_id id now d.messages },
  )

-- (a.created_at, a.id) < (b.created_at, b.id)
unfoldable pub older : Message → Message → Bool
older a b = ltb a.created_at b.created_at || ((a.created_at == b.created_at) && text_gt b.id a.id)

-- The cursor of the listing. A row compared with an anchor that is not there is left out.
unfoldable pub before_cursor : Option Text → Option ℕ → Text → List Message → Message → Bool
before_cursor (some id) t chat_id rows m =
    elim (find_row (λ a. has_id id a && text_eq (Message.chat_id a) chat_id) rows) [
      | none ↦ false
      | some anchor ↦ older m anchor
    ]
before_cursor none (some t) chat_id rows m = ltb m.created_at t
before_cursor none none chat_id rows m = true

-- ORDER BY created_at DESC, id DESC
unfoldable pub insert_newest : Message → List Message → List Message
insert_newest m [] = m ∷ []
insert_newest m (x ∷ xs) =
    let rest = insert_newest m xs in if older m x then x ∷ rest else m ∷ x ∷ xs

unfoldable pub newest_first : List Message → List Message
unfolding insert_newest
newest_first [] = []
newest_first (x ∷ xs) = insert_newest x (newest_first xs)

abbrev pub cast_cursor : Option Text → Result (Option Text)
cast_cursor none = ok none
cast_cursor (some raw) = cast_uuid raw >>= λ id. ok (some id)

-- The rows that the listing's WHERE clause lets through.
abbrev pub listed : Text → Option Text → Option ℕ → List Message → Message → Bool
listed chat_id before_id before_time rows m =
    text_eq m.chat_id chat_id
    && not (is_some m.deleted_at)
    && before_cursor before_id before_time chat_id rows m

-- The statement of GetChatMessages
unfoldable pub select_chat_messages : Text → Option Text → Option ℕ → ℕ → Db → Result (List Message)
unfolding newest_first
select_chat_messages chat before before_time limit d = do
  chat_id ← cast_uuid chat
  before_id ← cast_cursor before
  ok (
      take limit
        (newest_first (rows_where (listed chat_id before_id before_time d.messages) d.messages)))
