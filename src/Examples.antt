-- ===== src/Examples.antt =====
-- Concrete tables, requests and hubs, on which the theorems are applied.
mod Requests
mod Listings
mod Deliveries
mod Replies
mod Sessions
mod Removals
mod Tickets
mod Frames
mod Accounts
mod Chats
mod Groups
use gomsg.Prelude.{
  ℕ, ◌+◌, ◌/◌, ◌%◌, Text, Bool, true, false, none, some, List, [], ◌∷◌, ◌++◌, codes,
}
use gomsg.Json.{empty_obj}
use gomsg.Domain.{User, Chat, ChatType, ChatMember, Role, Message, MessageType, OutboxRow}
use gomsg.Store.{Env, Db, World, world_of}
use gomsg.Service.MessageParts.{MessageService, CreateMessageRequest}

abbrev alice : Text
alice = codes "10000000-0000-4000-8000-000000000001"

abbrev bob : Text
bob = codes "10000000-0000-4000-8000-000000000002"

abbrev room : Text
room = codes "30000000-0000-4000-8000-000000000003"

abbrev hello_id : Text
hello_id = codes "50000000-0000-4000-8000-000000000005"

-- A UUID for each number below 100.
abbrev numbered : ℕ → Text
numbered n = codes "70000000-0000-4000-8000-0000000000" ++ (48 + n / 10) ∷ (48 + n % 10) ∷ []

-- Nothing fails, and the clock shows the tick.
abbrev calm : Env
calm = record { fault = λ _. none; clock = λ n. n; uuid = numbered }

abbrev user : Text → Text → User
user id name = record {
  id = id;
  email = name;
  password_hash = [];
  nickname = name;
  first_name = none;
  last_name = none;
  avatar_url = none;
  created_at = 0;
  updated_at = 0;
  last_seen_at = none;
  is_active = true;
}

abbrev room_chat : Chat
room_chat = record {
  id = room;
  type = ChatType.group;
  title = none;
  avatar_url = none;
  created_by = some alice;
  created_at = 0;
  updated_at = 0;
  last_message_id = none;
  last_message_at = none;
  is_deleted = false;
  direct_key = none;
}

abbrev member_row : Text → ChatMember
member_row u = record {
  chat_id = room;
  user_id = u;
  role = Role.member;
  joined_at = 0;
  last_read_message_id = none;
  last_read_at = none;
  is_muted = false;
  is_archived = false;
  is_pinned = false;
}

abbrev message_row : Text → ℕ → Message
message_row id at = record {
  id = id;
  chat_id = room;
  sender_id = alice;
  type = MessageType.text;
  text = some (codes "hello");
  reply_to_id = none;
  created_at = at;
  updated_at = at;
  deleted_at = none;
}

-- Alice and Bob in one chat, where Alice has said hello.
abbrev tables : Db
tables = record {
  users = user alice (codes "alice") ∷ user bob (codes "bob") ∷ [];
  chats = room_chat ∷ [];
  members = member_row alice ∷ member_row bob ∷ [];
  messages = message_row hello_id 1 ∷ [];
  outbox = [];
  sessions = [];
}

abbrev start : World
start = world_of tables

abbrev service : MessageService
service = record { has_writer = true; has_metrics = true; writer_obs = true }

abbrev greeting : CreateMessageRequest
greeting = record { text = codes " good day "; reply_to_id = none }
