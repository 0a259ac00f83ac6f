-- ===== src/Tables/Chats/Creation.antt =====
-- The SQL of chat_repository.go that creates chats and memberships, with the constraints of
-- migration/002_init_chats.sql and 003_init_messages.sql.
use gomsg.Prelude.{
  ℕ, Text, Bool, true, false, ◌&&◌, ◌||◌, not, Option, none, some, List, [], ◌∷◌, leb, length,
  if◌then◌else◌, text_eq, to_lower, find_row, any_row,
}
use gomsg.Errors.{pg_error, err_not_found}
use gomsg.Result.{Result, ok, ◌>>=◌, ◌>>◌, require, or_error}
use gomsg.Domain.{Chat, ChatType, ChatMember, Role, AddChatMember}
use gomsg.Store.{Db}
use gomsg.Uuid.{cast_uuid}
use gomsg.Tables.Messages.{chat_exists, user_exists, cast_reply, cast_cursor}
use gomsg.Tables.Chats.{is_member_row}

abbrev pub is_direct : ChatType → Bool
is_direct ChatType.direct = true
is_direct ChatType.group = false

abbrev pub has_key : Text → Option Text → Bool
has_key key none = false
has_key key (some k) = text_eq k key

-- direct_key = $1 AND type = 'direct' AND is_deleted = false
abbrev pub is_live_direct : Text → Chat → Bool
is_live_direct key c = is_direct c.type && not c.is_deleted && has_key key c.direct_key

-- The statement of GetDirectByKey
unfoldable pub select_direct : Text → Db → Result Chat
select_direct key d = or_error (find_row (is_live_direct key) d.chats) err_not_found

-- ck_chats_direct_key
abbrev pub key_fits : ChatType → Option Text → Bool
key_fits ChatType.direct none = false
key_fits ChatType.direct (some k) = true
key_fits ChatType.group none = true
key_fits ChatType.group (some k) = false

-- varchar(n), on a text that does not end in a space
abbrev pub fits : ℕ → Option Text → Bool
fits n none = true
fits n (some t) = leb (length t) n

-- uq_chats_direct_key
abbrev pub key_taken : Option Text → Db → Bool
key_taken none d = false
key_taken (some k) d = any_row (is_live_direct k) d.chats

abbrev pub creator_exists : Option Text → Db → Bool
creator_exists none d = true
creator_exists (some u) d = user_exists u d

-- INSERT INTO chats (type, title, avatar_url, created_by, direct_key) … RETURNING …
unfoldable pub insert_chat : Text → ℕ → Chat → Db → Result (Chat × Db)
insert_chat drawn now c d = do
  let id = to_lower drawn
  created_by ← cast_cursor c.created_by
  require (fits 255 c.title && fits 64 c.direct_key) (pg_error "22001")
  require (key_fits c.type c.direct_key) (pg_error "23514")
  require (not (chat_exists id d)) (pg_error "23505")
  require (not (key_taken c.direct_key d)) (pg_error "23505")
  require (creator_exists created_by d) (pg_error "23503")
  let row : Chat = record {
    id = id;
    type = c.type;
    title = c.title;
    avatar_url = c.avatar_url;
    created_by = created_by;
    created_at = now;
    updated_at = now;
    last_message_id = none;
    last_message_at = none;
    is_deleted = false;
    direct_key = c.direct_key;
  }
  ok (row, record d { chats = row ∷ d.chats })

-- A row with the defaults of the table
abbrev pub new_member : Text → Text → Role → ℕ → ChatMember
new_member chat_id user_id role now = record {
  chat_id = chat_id;
  user_id = user_id;
  role = role;
  joined_at = now;
  last_read_message_id = none;
  last_read_at = none;
  is_muted = false;
  is_archived = false;
  is_pinned = false;
}

-- INSERT INTO chat_members (chat_id, user_id, role, last_read_message_id, …) VALUES …
unfoldable pub insert_member : ℕ → ChatMember → Db → Result (ChatMember × Db)
unfolding cast_reply
insert_member now m d = do
  chat_id ← cast_uuid m.chat_id
  user_id ← cast_uuid m.user_id
  last_read ← cast_reply m.last_read_message_id d
  require (not (any_row (is_member_row chat_id user_id) d.members)) (pg_error "23505")
  require (chat_exists chat_id d && user_exists user_id d) (pg_error "23503")
  let row : ChatMember = record m {
    chat_id = chat_id;
    user_id = user_id;
    joined_at = now;
    last_read_message_id = last_read;
  }
  ok (row, record d { members = row ∷ d.members })

-- $2::uuid, $4::uuid, …
unfoldable pub cast_adds : List AddChatMember → Result (List AddChatMember)
cast_adds [] = ok []
cast_adds (a ∷ adds) = do
  user_id ← cast_uuid a.user_id
  rest ← cast_adds adds
  ok (record a { user_id = user_id } ∷ rest)

-- ON CONFLICT (chat_id, user_id) DO NOTHING
unfoldable pub added_members : Text → ℕ → List AddChatMember → List ChatMember → List ChatMember
added_members chat_id now [] ms = ms
added_members chat_id now (a ∷ adds) ms = added_members chat_id now adds (
    if any_row (is_member_row chat_id a.user_id) ms
    then ms
    else new_member chat_id a.user_id a.role now ∷ ms)

-- The foreign keys, for the rows that are not there yet
unfoldable pub adds_exist : Text → List AddChatMember → Db → Bool
adds_exist chat_id [] d = true
adds_exist chat_id (a ∷ adds) d =
    (any_row (is_member_row chat_id a.user_id) d.members
      || (chat_exists chat_id d && user_exists a.user_id d))
    && adds_exist chat_id adds d

-- INSERT INTO chat_members (chat_id, user_id, role) VALUES … ON CONFLICT (chat_id, user_id) DO NOTHING
unfoldable pub insert_members : Text → List AddChatMember → ℕ → Db → Result (Unit {0} × Db)
unfolding cast_adds added_members adds_exist
insert_members chat adds now d = do
  chat_id ← cast_uuid chat
  rows ← cast_adds adds
  require (adds_exist chat_id rows d) (pg_error "23503")
  ok (tt, record d { members = added_members chat_id now rows d.members })
