-- ===== src/Examples/Requests.antt =====
-- Requests on the messages of a chat.
use gomsg.Prelude.{Text, true, none, some, List, [], ◌∷◌, ◌≡◌, ◌≢◌, refl, codes, to_lower}
use gomsg.Errors.{Error, internal_error}
use gomsg.Result.{ok}
use gomsg.Uuid.{parse_id, uuid_match, is_hex, cast_uuid}
use gomsg.Store.{
  World, pure, lift, query, exec, on_error, commit, transaction, ◌>>=◌, ensure, time_now, new_uuid,
  count_up,
}
use gomsg.Store.Effects.{IsAtomic}
use gomsg.Store.Failing.{IsAtomicBut}
use gomsg.Store.Keeps.{Keeps}
use gomsg.Store.Outcome.{Yields}
use gomsg.Tables.Messages.Lookup.{HasPrintedChats}
use gomsg.Service.MessageParts.{
  MessageDto, MarkReadResponse, to_message_dto, require_chat_member, check_text, resolve_reply,
  type_supported, outbox_for_created, outbox_for_deleted, load_message,
}
use gomsg.Service.Messages.{create, get, patch, delete, mark_read}
use gomsg.Service.Messages.Atomicity.{requests-IsAtomic, patch-IsAtomicBut}
use gomsg.Service.Messages.Posting.{Posted, create-Posted}
use gomsg.Service.Messages.Deleting.{get-delete}
use gomsg.Service.Messages.Invariant.{IsSound, requests-IsSound}
use gomsg.Service.Messages.Effects.{Got, get-Got}
use gomsg.Examples.{
  alice, bob, room, hello_id, calm, tables, start, service, greeting, message_row, numbered,
}

abbrev posted_dto : MessageDto
posted_dto = to_message_dto (record (message_row (numbered 4) 2) { text = some (codes "good day") })

posted : (create calm service alice room greeting start).0 ≡ ok posted_dto
unfolding create lift parse_id uuid_match is_hex ◌>>=◌ ensure gomsg.Prelude.trim_space
    require_chat_member on_error gomsg.Repository.Chats.find_membership query
    gomsg.Tables.Chats.select_membership cast_uuid gomsg.Prelude.find_row gomsg.Prelude.text_eq
    to_lower pure check_text gomsg.Prelude.byte_len resolve_reply type_supported outbox_for_created
    new_uuid gomsg.Errors.is_not_found gomsg.Prelude.is_space gomsg.Prelude.lower_rune
    gomsg.Prelude.rune_len gomsg.Prelude.trim_left gomsg.Prelude.trim_right gomsg.Prelude.any_row
    gomsg.Prelude.update_rows gomsg.Repository.Messages.get_by_id
    gomsg.Repository.Writer.create_body gomsg.Repository.Writer.create_message_with_outbox
    gomsg.Repository.Writer.encode_message gomsg.Repository.Writer.type_name
    gomsg.Service.MessageParts.check_reply to_message_dto gomsg.Service.MessageParts.unless_found
    commit count_up exec time_now transaction gomsg.Tables.Chats.set_last_message
    gomsg.Tables.Messages.insert_message gomsg.Tables.Messages.select_message
    gomsg.Tables.Outbox.insert_outbox gomsg.Tables.Outbox.outbox_row
posted = refl

create-Posted_example :
    Posted tables alice room greeting posted_dto
      (create calm service alice room greeting start).1.db
create-Posted_example = create-Posted calm service start alice room greeting posted_dto posted

abbrev edited_dto : MessageDto
edited_dto =
    to_message_dto (record (message_row hello_id 1) { text = some (codes "bye"); updated_at = 3 })

printed : HasPrintedChats tables
unfolding to_lower
printed = (refl, tt)

deleted : (delete calm service alice hello_id start).0 ≡ ok tt
unfolding delete lift parse_id uuid_match is_hex ◌>>=◌ ensure gomsg.Prelude.trim_space load_message
    on_error gomsg.Repository.Messages.get_by_id query gomsg.Tables.Messages.select_message
    cast_uuid gomsg.Prelude.find_row gomsg.Prelude.text_eq to_lower require_chat_member
    gomsg.Repository.Chats.find_membership gomsg.Tables.Chats.select_membership pure
    outbox_for_deleted time_now new_uuid gomsg.Errors.is_not_found gomsg.Prelude.is_space
    gomsg.Prelude.lower_rune gomsg.Prelude.trim_left gomsg.Prelude.trim_right gomsg.Prelude.any_row
    gomsg.Prelude.update_rows gomsg.Repository.Writer.delete_body
    gomsg.Repository.Writer.soft_delete_message_with_outbox gomsg.Service.MessageParts.unless_found
    commit count_up exec transaction gomsg.Tables.Messages.soft_delete
    gomsg.Tables.Outbox.insert_outbox gomsg.Tables.Outbox.outbox_row
deleted = refl

abbrev after_delete : World
after_delete = (delete calm service alice hello_id start).1

get-delete_example : (get calm service bob hello_id after_delete).0 ≢ ok edited_dto
get-delete_example =
    get-delete calm service start alice hello_id printed deleted calm service after_delete bob
      edited_dto refl

abbrev read_answer : MarkReadResponse
read_answer = record { chat_id = room; last_read_message_id = hello_id }

requests-IsAtomic_example :
    IsAtomic (create calm service alice room greeting)
    × IsAtomic (delete calm service alice hello_id)
    × IsAtomic (mark_read calm service alice hello_id)
requests-IsAtomic_example = requests-IsAtomic calm service alice room hello_id greeting

patch-IsAtomicBut_example :
    IsAtomicBut
      (λ e. (c : Error) × (e ≡ internal_error "reload message" c))
      (patch calm service alice hello_id (codes "bye"))
patch-IsAtomicBut_example = patch-IsAtomicBut calm service alice hello_id (codes "bye")

requests-IsSound_example :
    Keeps IsSound (create calm service alice room greeting)
    × Keeps IsSound (patch calm service alice room (codes "bye"))
    × Keeps IsSound (delete calm service alice room)
    × Keeps IsSound (mark_read calm service alice room)
requests-IsSound_example = requests-IsSound calm service alice room greeting (codes "bye")

get-Got_example : Yields tables (Got tables bob hello_id) (get calm service bob hello_id)
get-Got_example = get-Got calm service tables bob hello_id
