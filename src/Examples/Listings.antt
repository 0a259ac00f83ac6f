-- ===== src/Examples/Listings.antt =====
-- Pages of a chat.
use gomsg.Prelude.{
  ℕ, ℤ, pos, Text, none, some, Option, List, [], ◌∷◌, ◌++◌, ◌≡◌, refl, codes, to_lower,
}
use gomsg.Result.{ok}
use gomsg.Store.{Db}
use gomsg.Store.Outcome.{Yields}
use gomsg.Uuid.{uuid_match, cast_uuid}
use gomsg.Tables.Messages.{select_chat_messages}
use gomsg.Tables.Messages.Distinct.{HasDistinctIds}
use gomsg.Tables.Messages.Paging.{select_chat_messages-append}
use gomsg.Service.MessageParts.{Layout}
use gomsg.Service.Messages.{list_by_chat}
use gomsg.Service.Messages.Listing.{IsListing, list_by_chat-IsListing}
use gomsg.Examples.{bob, room, calm, tables, message_row, numbered}

-- Three messages, of which two have one time.
abbrev three : Db
three = record tables {
  messages =
      message_row (numbered 1) 5 ∷ message_row (numbered 2) 9 ∷ message_row (numbered 3) 5 ∷ [];
}

three_ids : HasDistinctIds three.messages
unfolding gomsg.Prelude.any_row gomsg.Prelude.text_eq
three_ids = (refl, (refl, (refl, tt)))

first_page :
    select_chat_messages room none none 2 three
    ≡ ok (message_row (numbered 2) 9 ∷ message_row (numbered 3) 5 ∷ [])
unfolding select_chat_messages cast_uuid uuid_match gomsg.Prelude.rows_where gomsg.Prelude.text_eq
    to_lower gomsg.Tables.Messages.before_cursor gomsg.Tables.Messages.older gomsg.Prelude.text_gt
first_page = refl

second_page :
    select_chat_messages room (some (numbered 3)) none 1 three
    ≡ ok (message_row (numbered 1) 5 ∷ [])
unfolding select_chat_messages cast_uuid uuid_match gomsg.Prelude.rows_where gomsg.Prelude.text_eq
    to_lower gomsg.Tables.Messages.before_cursor gomsg.Prelude.find_row gomsg.Tables.Messages.older
    gomsg.Prelude.text_gt
second_page = refl

lower_three : to_lower (numbered 3) ≡ numbered 3
unfolding to_lower
lower_three = refl

select_chat_messages-append_example :
    select_chat_messages room none none 3 three
    ≡ ok (
        ((message_row (numbered 2) 9 ∷ []) ++ message_row (numbered 3) 5 ∷ [])
        ++ message_row (numbered 1) 5 ∷ [])
select_chat_messages-append_example =
    select_chat_messages-append 2 1 room three (message_row (numbered 2) 9 ∷ [])
      (message_row (numbered 1) 5 ∷ []) (message_row (numbered 3) 5) three_ids lower_three
      first_page second_page

-- No text is a time.
abbrev no_time : Layout → Text → Option ℕ
no_time _ _ = none

list_by_chat-IsListing_example :
    Yields three
      (λ r d. (d ≡ three) × IsListing no_time bob room (pos 2) [] three r)
      (list_by_chat calm no_time bob room (pos 2) [])
list_by_chat-IsListing_example = list_by_chat-IsListing calm no_time bob room (pos 2) [] three
