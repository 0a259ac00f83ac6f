-- ===== src/Tables/Messages/Lookup.antt =====
-- message_repository.go: a message by its id, before and after an UPDATE.
use mathlib.Core.Option
use gomsg.Prelude.{
  Text, Bool, true, false, ◌&&◌, some, ◌≡◌, refl, sym, ◌∙◌, ap, arith, to_lower, to_lower-to_lower,
  text_eq, text_eq_iff, text_eq_refl, is_some, find_row, find_row-some, find_row-update_rows,
  update_rows, updated, All, All-find_row, if◌then◌else◌,
}
use gomsg.Result.{ok}
use gomsg.Domain.{Message}
use gomsg.Store.{Db}
use gomsg.Uuid.{cast_uuid}
use gomsg.Tables.Messages.{select_message, select_message_in, has_id, live_in}

-- The chat of every stored message is spelled as PostgreSQL prints it.
abbrev pub HasPrintedChats : Db → Type 0
HasPrintedChats d = All (λ m. to_lower (Message.chat_id m) ≡ Message.chat_id m) d.messages

pub select_message-eq :
    (raw : Text) (d : Db) (m : Message)
    → select_message raw d ≡ ok m
    → find_row (has_id (to_lower raw)) d.messages ≡ some m
unfolding select_message cast_uuid
select_message-eq raw d m h = ground arith

pub select_message_in-eq :
    (chat raw : Text) (d : Db) (m : Message)
    → select_message_in chat raw d ≡ ok m
    → find_row
        (λ x. has_id (to_lower raw) x && text_eq (Message.chat_id x) (to_lower chat))
        d.messages
      ≡ some m
unfolding select_message_in cast_uuid
select_message_in-eq chat raw d m h = ground arith

pub found_id :
    (raw : Text) (d : Db) (m : Message) → select_message raw d ≡ ok m → m.id ≡ to_lower raw
found_id raw d m h =
    (text_eq_iff m.id (to_lower raw)).0
      (find_row-some (has_id (to_lower raw)) d.messages m (select_message-eq raw d m h))

-- The message that a request found, in the table that an UPDATE with its chat and id left.
module _ (d : Db) (printed : HasPrintedChats d) (raw : Text) (m : Message)
    (found : select_message raw d ≡ ok m) where
  pub printed_id : to_lower m.id ≡ m.id
  printed_id =
      ap to_lower (found_id raw d m found) ∙ to_lower-to_lower raw ∙ sym (found_id raw d m found)

  pub printed_chat : to_lower m.chat_id ≡ m.chat_id
  printed_chat =
      All-find_row (λ x. to_lower (Message.chat_id x) ≡ Message.chat_id x) (has_id (to_lower raw))
        d.messages m printed (select_message-eq raw d m found)

  pub meets : is_some m.deleted_at ≡ false → live_in (to_lower m.chat_id) (to_lower m.id) m ≡ true
  meets live = rw (printed_chat, printed_id, text_eq_refl m.id, text_eq_refl m.chat_id, live) refl

  pub find-updated :
      (f : Message → Message)
      → ((x : Message) → Message.id (f x) ≡ Message.id x)
      → is_some m.deleted_at ≡ false
      → find_row
          (has_id (to_lower raw))
          (update_rows (live_in (to_lower m.chat_id) (to_lower m.id)) f d.messages)
        ≡ some (f m)
  find-updated f keep live =
      find_row-update_rows (has_id (to_lower raw)) (live_in (to_lower m.chat_id) (to_lower m.id)) f
        (λ x. ap (λ t. text_eq t (to_lower raw)) (keep x)) d.messages
      ∙ ap (Option.map (updated (live_in (to_lower m.chat_id) (to_lower m.id)) f))
          (select_message-eq raw d m found)
      ∙ ap (λ (b : Bool). some (if b then f m else m)) (meets live)
