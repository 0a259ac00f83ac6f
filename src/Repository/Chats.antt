-- ===== src/Repository/Chats.antt =====
-- backend/internal/repository/postgres/chat_repository.go
use gomsg.Prelude.{
  ℕ, Text, Bool, true, false, ◌||◌, Option, none, some, List, [], ◌∷◌, text_eq, is_empty,
}
use gomsg.Errors.{err_not_found}
use gomsg.Domain.{Chat, ChatType, ChatMember, Role, AddChatMember, ChatListRow, Page}
use gomsg.Store.{Env, Go, pure, query, exec, transaction, ensure, on_db, ◌>>=◌, ◌>>◌}
use gomsg.Tables.Chats.{
  select_membership, select_members, select_chat, delete_member, set_last_message, set_member_read,
}
use gomsg.Tables.Chats.Creation.{
  select_direct, insert_chat, insert_member, insert_members, new_member,
}
use gomsg.Tables.Chats.Summaries.{select_user_chats, select_summaries}

-- Whether an id is in a map[domain.ID]struct{}
unfoldable pub known : Text → List Text → Bool
known id [] = false
known id (x ∷ xs) = text_eq id x || known id xs

-- The loop over otherUserIDs in CreateGroupWithMembers, behind the ids `seen` so far
unfoldable pub to_add : List Text → List Text → List AddChatMember
unfolding known
to_add seen [] = []
to_add seen (u ∷ us) = elim (is_empty u || known u seen) [
  | true ↦ to_add seen us
  | false ↦ record { user_id = u; role = Role.member } ∷ to_add (u ∷ seen) us
]

-- A chat before it is stored
abbrev pub blank_chat : ChatType → Option Text → Chat
blank_chat type key = record {
  id = [];
  type = type;
  title = none;
  avatar_url = none;
  created_by = none;
  created_at = 0;
  updated_at = 0;
  last_message_id = none;
  last_message_at = none;
  is_deleted = false;
  direct_key = key;
}

abbrev pub group_chat : Text → Option Text → Text → Chat
group_chat title avatar_url creator = record (blank_chat ChatType.group none) {
  title = some title;
  avatar_url = avatar_url;
  created_by = some creator;
}

module _ (env : Env) where
  -- FindMembership
  unfoldable pub find_membership : Text → Text → Go ChatMember
  find_membership chat_id user_id = query env (select_membership chat_id user_id)

  -- GetChatMembers
  unfoldable pub get_chat_members : Text → Go (List ChatMember)
  get_chat_members chat_id = query env (select_members chat_id)

  -- GetByID
  unfoldable pub get_chat : Text → Go Chat
  get_chat id = query env (select_chat id)

  -- RemoveMember
  unfoldable pub remove_member_row : Text → Text → Go (Unit {0})
  remove_member_row chat_id user_id = do
    found ← exec env (λ w. on_db (delete_member chat_id user_id) w)
    ensure found err_not_found

  -- GetDirectByKey
  unfoldable pub get_direct_by_key : Text → Go Chat
  get_direct_by_key key = query env (select_direct key)

  -- CreateChat, which writes the stored row back into its argument
  unfoldable pub create_chat : Chat → Go Chat
  create_chat c = exec env (λ w. on_db (insert_chat (env.uuid w.tick) (env.clock w.tick) c) w)

  -- CreateMember, which writes the stored row back into its argument
  unfoldable pub create_member : ChatMember → Go ChatMember
  create_member m = exec env (λ w. on_db (insert_member (env.clock w.tick) m) w)

  -- AddMembers
  unfoldable pub add_members : Text → List AddChatMember → Go (Unit {0})
  add_members chat_id [] = pure tt
  add_members chat_id (a ∷ adds) =
      exec env (λ w. on_db (insert_members chat_id (a ∷ adds) (env.clock w.tick)) w)

  -- if len(toAdd) > 0 { tx.Exec(…) }
  unfoldable pub insert_others : Text → List AddChatMember → ℕ → Go (Unit {0})
  insert_others chat_id [] now = pure tt
  insert_others chat_id (a ∷ adds) now = exec env (on_db (insert_members chat_id (a ∷ adds) now))

  -- The statements of CreateGroupWithMembers between Begin and Commit
  unfoldable pub group_body : Text → Option Text → Text → List Text → ℕ → Go Chat
  unfolding to_add insert_others
  group_body title avatar_url creator others now = do
    c ←
        exec env
          (λ w. on_db (insert_chat (env.uuid w.tick) now (group_chat title avatar_url creator)) w)
    exec env (on_db (insert_member now (new_member c.id creator Role.owner now)))
    insert_others c.id (to_add (creator ∷ []) others) now
    pure c

  -- CreateGroupWithMembers
  unfoldable pub create_group_with_members : Text → Option Text → Text → List Text → Go Chat
  create_group_with_members title avatar_url creator others =
      transaction env (group_body title avatar_url creator others)

  -- GetUserChats
  unfoldable pub get_user_chats : Text → Page → Go (List Chat)
  get_user_chats user_id page = query env (select_user_chats user_id page)

  -- ListUserChatsSummary
  unfoldable pub list_user_chats_summary : Text → Page → Go (List ChatListRow)
  list_user_chats_summary user_id page = query env (select_summaries user_id page)

  -- UpdateLastMessage
  unfoldable pub update_last_message : Text → Text → ℕ → Go (Unit {0})
  update_last_message chat_id message_id at = do
    found ← exec env (λ w. on_db (set_last_message chat_id message_id at (env.clock w.tick)) w)
    ensure found err_not_found

  -- UpdateMemberRead
  unfoldable pub update_member_read : Text → Text → Text → Go (Unit {0})
  update_member_read chat_id user_id message_id = do
    found ← exec env (λ w. on_db (set_member_read chat_id user_id message_id (env.clock w.tick)) w)
    ensure found err_not_found
