-- ===== src/Examples/Removals.antt =====
-- Members removed from a chat.
use gomsg.Prelude.{Text, List, [], ◌∷◌, ◌≡◌, refl}
use gomsg.Result.{ok}
use gomsg.Domain.{Role}
use gomsg.Store.{Db, World, world_of, lift, ◌>>=◌, ensure}
use gomsg.Service.Membership.{remove_member}
use gomsg.Service.Membership.Removal.{Removed, remove_member-Removed}
use gomsg.Examples.{alice, bob, room, calm, tables, member_row}

-- Alice owns the chat.
abbrev owned_room : Db
owned_room = record tables {
  members = record (member_row alice) { role = Role.owner } ∷ member_row bob ∷ [];
}

removed : (remove_member calm alice room bob (world_of owned_room)).0 ≡ ok tt
unfolding remove_member lift ◌>>=◌ ensure gomsg.Uuid.parse_id gomsg.Uuid.uuid_match
    gomsg.Prelude.trim_space gomsg.Store.on_error gomsg.Repository.Chats.get_chat gomsg.Store.query
    gomsg.Tables.Chats.select_chat gomsg.Uuid.cast_uuid gomsg.Prelude.find_row gomsg.Prelude.text_eq
    gomsg.Prelude.to_lower gomsg.Service.Membership.require_membership
    gomsg.Repository.Chats.find_membership gomsg.Tables.Chats.select_membership
    gomsg.Service.Membership.remove_found gomsg.Service.Membership.assert_kick_rules
    gomsg.Repository.Chats.remove_member_row gomsg.Errors.is_not_found gomsg.Prelude.is_space
    gomsg.Prelude.lower_rune gomsg.Prelude.trim_left gomsg.Prelude.trim_right gomsg.Prelude.any_row
    gomsg.Prelude.delete_rows gomsg.Service.Membership.drop_member
    gomsg.Service.MessageParts.unless_found gomsg.Store.exec gomsg.Tables.Chats.delete_member
    gomsg.Uuid.is_hex
removed = refl

remove_member-Removed_example :
    Removed owned_room alice room bob (remove_member calm alice room bob (world_of owned_room)).1.db
remove_member-Removed_example =
    remove_member-Removed calm (world_of owned_room) alice room bob removed
