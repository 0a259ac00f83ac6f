-- ===== src/Examples/Groups.antt =====
-- Groups and lists of chats.
use gomsg.Prelude.{
  ℕ, ℤ, pos, Text, false, none, some, List, [], ◌∷◌, ◌++◌, ◌≡◌, ◌≢◌, refl, ap, codes, take, length,
  arith, trim_space, text_eq, text_eq_refl,
}
use gomsg.Result.{ok}
use gomsg.Domain.{Role}
use gomsg.Store.{Env, Db, World, world_of}
use gomsg.Store.Keeps.{Keeps}
use gomsg.Tables.Chats.Keys.{HasSoundChats}
use gomsg.Service.ChatParts.{
  ChatDetail, ChatSummary, MemberDto, CreateGroupChatRequest, direct_key, pair_of,
}
use gomsg.Service.Membership.{remove_member}
use gomsg.Service.Chats.{create_direct, create_group, list_mine, add_to_chat}
use gomsg.Service.Chats.Groups.{Grouped, create_group-Grouped}
use gomsg.Service.Chats.Adding.{Enlarged, add_to_chat-Enlarged}
use gomsg.Service.Chats.Reading.{IsChatList, list_mine-IsChatList}
use gomsg.Service.Chats.Invariant.{chat_requests-HasSoundChats}
use gomsg.Examples.{alice, bob, room, calm, tables, start, numbered, user, member_row}
use gomsg.Examples.Chats.{short}

abbrev club : CreateGroupChatRequest
club = record {
  title = codes " club ";
  avatar_url = some (codes " ");
  member_ids = bob ∷ alice ∷ bob ∷ [];
}

abbrev grouped : World
grouped = (create_group calm alice club start).1

abbrev club_detail : ChatDetail
club_detail = record {
  id = numbered 3;
  type = "group";
  title = some (codes "club");
  avatar_url = none;
  created_at = 1;
  updated_at = 1;
}

groups : (create_group calm alice club start).0 ≡ ok club_detail
unfolding create_group gomsg.Store.◌>>=◌ gomsg.Store.ensure trim_space gomsg.Prelude.byte_len
    gomsg.Store.lift gomsg.Service.ChatParts.check_avatar gomsg.Service.Chats.collect_users
    gomsg.Uuid.uuid_match gomsg.Repository.Chats.known gomsg.Prelude.text_eq gomsg.Store.on_error
    gomsg.Repository.Users.get_user gomsg.Store.query gomsg.Tables.Users.select_user
    gomsg.Uuid.cast_uuid gomsg.Prelude.find_row gomsg.Errors.is_not_found gomsg.Prelude.is_space
    gomsg.Prelude.lower_rune gomsg.Prelude.rune_len gomsg.Prelude.to_lower gomsg.Prelude.trim_left
    gomsg.Prelude.trim_right gomsg.Prelude.any_row gomsg.Repository.Chats.create_group_with_members
    gomsg.Repository.Chats.group_body gomsg.Repository.Chats.insert_others
    gomsg.Repository.Chats.to_add gomsg.Service.ChatParts.chat_detail
    gomsg.Service.ChatParts.chat_type_name gomsg.Service.MessageParts.unless_found
    gomsg.Store.commit gomsg.Store.exec gomsg.Store.pure gomsg.Store.transaction
    gomsg.Tables.Chats.Creation.added_members gomsg.Tables.Chats.Creation.adds_exist
    gomsg.Tables.Chats.Creation.cast_adds gomsg.Tables.Chats.Creation.insert_chat
    gomsg.Tables.Chats.Creation.insert_member gomsg.Tables.Chats.Creation.insert_members
    gomsg.Tables.Messages.cast_reply gomsg.Uuid.is_hex
groups = refl

create_group-Grouped_example : Grouped alice club tables club_detail grouped.db
create_group-Grouped_example = create_group-Grouped calm alice club start club_detail groups

abbrev carol : Text
carol = codes "10000000-0000-4000-8000-000000000003"

-- Carol, and Alice as the owner of the room
abbrev owned : World
owned = world_of (record tables {
  users = user alice (codes "alice") ∷ user bob (codes "bob") ∷ user carol (codes "carol") ∷ [];
  members = record (member_row alice) { role = Role.owner } ∷ member_row bob ∷ [];
})

abbrev enlarged : World
enlarged = (add_to_chat calm alice room (carol ∷ bob ∷ []) owned).1

abbrev now_members : List MemberDto
now_members =
    record { user_id = alice; role = "owner"; joined_at = 0 }
    ∷ record { user_id = bob; role = "member"; joined_at = 0 }
    ∷ record { user_id = carol; role = "member"; joined_at = 5 }
    ∷ []

enlarges : (add_to_chat calm alice room (carol ∷ bob ∷ []) owned).0 ≡ ok now_members
unfolding add_to_chat gomsg.Store.◌>>=◌ gomsg.Service.Chats.check_adds gomsg.Store.ensure
    gomsg.Store.lift gomsg.Uuid.parse_id gomsg.Uuid.uuid_match trim_space gomsg.Store.on_error
    gomsg.Repository.Chats.get_chat gomsg.Store.query gomsg.Tables.Chats.select_chat
    gomsg.Uuid.cast_uuid gomsg.Prelude.find_row gomsg.Prelude.text_eq gomsg.Prelude.to_lower
    gomsg.Service.Membership.require_membership gomsg.Errors.is_not_found gomsg.Prelude.is_space
    gomsg.Prelude.lower_rune gomsg.Prelude.trim_left gomsg.Prelude.trim_right gomsg.Prelude.any_row
    gomsg.Prelude.rows_where gomsg.Repository.Chats.add_members
    gomsg.Repository.Chats.find_membership gomsg.Repository.Chats.get_chat_members
    gomsg.Repository.Chats.known gomsg.Repository.Users.get_user gomsg.Service.ChatParts.role_name
    gomsg.Service.ChatParts.to_member_dto gomsg.Service.Chats.collect_users
    gomsg.Service.Chats.members gomsg.Service.Chats.require_member
    gomsg.Service.MessageParts.unless_found gomsg.Store.exec gomsg.Store.pure
    gomsg.Tables.Chats.Creation.added_members gomsg.Tables.Chats.Creation.adds_exist
    gomsg.Tables.Chats.Creation.cast_adds gomsg.Tables.Chats.Creation.insert_members
    gomsg.Tables.Chats.by_joined gomsg.Tables.Chats.insert_joined gomsg.Tables.Chats.select_members
    gomsg.Tables.Chats.select_membership gomsg.Tables.Users.select_user gomsg.Uuid.is_hex
enlarges = refl

add_to_chat-Enlarged_example : Enlarged alice room (carol ∷ bob ∷ []) owned.db enlarged.db
add_to_chat-Enlarged_example =
    add_to_chat-Enlarged calm alice room (carol ∷ bob ∷ []) owned now_members enlarges

chat_requests-HasSoundChats_example :
    Keeps HasSoundChats (create_direct calm short alice bob)
    × Keeps HasSoundChats (create_group calm alice club)
    × Keeps HasSoundChats (add_to_chat calm alice room (carol ∷ []))
    × Keeps HasSoundChats (remove_member calm alice room bob)
chat_requests-HasSoundChats_example =
    chat_requests-HasSoundChats calm short alice bob room club (carol ∷ [])

abbrev my_chats : List ChatSummary
my_chats =
    record {
      id = room;
      type = "group";
      title = none;
      avatar_url = none;
      created_at = 0;
      updated_at = 0;
      last_message = none;
      unread_count = 1;
    }
    ∷ []

lists : (list_mine calm alice (pos 0) (pos 0) start).0 ≡ ok my_chats
unfolding list_mine gomsg.Store.◌>>=◌ gomsg.Store.ensure gomsg.Store.on_error
    gomsg.Repository.Chats.list_user_chats_summary gomsg.Store.query
    gomsg.Tables.Chats.Summaries.select_summaries gomsg.Uuid.cast_uuid gomsg.Uuid.uuid_match
    gomsg.Store.pure gomsg.Service.ChatParts.clamp_chat_limit gomsg.Prelude.find_row
    gomsg.Prelude.text_eq gomsg.Prelude.to_lower gomsg.Service.ChatParts.to_chat_summary
    gomsg.Prelude.rows_where gomsg.Tables.Chats.Summaries.is_past gomsg.Prelude.lower_rune
    gomsg.Prelude.text_gt gomsg.Prelude.insert_by gomsg.Prelude.sort_by
    gomsg.Repository.Writer.type_name gomsg.Service.ChatParts.chat_type_name
    gomsg.Service.ChatParts.preview_dto gomsg.Tables.Chats.Summaries.comes_after
    gomsg.Tables.Chats.Summaries.joined_chats gomsg.Tables.Chats.Summaries.list_row
    gomsg.Tables.Chats.Summaries.norm_limit gomsg.Tables.Chats.Summaries.norm_offset
    gomsg.Tables.Chats.Summaries.preview_of gomsg.Tables.Chats.Summaries.unread_count
    gomsg.Tables.Messages.older gomsg.Uuid.is_hex
lists = refl

list_mine-IsChatList_example : IsChatList alice (pos 0) (pos 0) tables my_chats
list_mine-IsChatList_example = list_mine-IsChatList calm alice (pos 0) (pos 0) start my_chats lists
