-- ===== src/Service/Messages/Invariant.antt =====
-- message_service.go: what every request keeps of the tables.
use gomsg.Prelude.{
  ℕ, Text, Bool, true, false, List, [], ◌∷◌, ◌≡◌, refl, sym, ◌∙◌, ap, subst, to_lower,
  to_lower-to_lower, text_eq, any_row, update_rows, All, All-update_rows, any_row-update_rows,
  if◌then◌else◌,
}
use gomsg.Result.{ok}
use gomsg.Domain.{Message, Chat, OutboxEnqueue}
use gomsg.Store.{Env, Db, World, exec}
use gomsg.Store.Keeps.{Keeps, Keeps-on_db, Keeps-exec, Keeps-bind, keeps_rules, write_rules}
use gomsg.Store.Effects.{ReadOnly, reads}
use gomsg.Tables.Messages.{insert_message, update_text, soft_delete, has_id}
use gomsg.Tables.Messages.Insert.{Inserted, insert_message-Inserted}
use gomsg.Tables.Messages.Lookup.{HasPrintedChats}
use gomsg.Tables.Messages.Distinct.{HasDistinctIds}
use gomsg.Tables.Chats.{set_last_message, set_member_read}
use gomsg.Tables.Outbox.{insert_outbox}
use gomsg.Tables.Outbox.Insert.{insert_outbox-rest}
use gomsg.Repository.Messages.{get_by_id}
use gomsg.Repository.Writer.{
  create_body, update_body, delete_body, read_body, create_message_with_outbox,
  update_message_text_with_outbox, soft_delete_message_with_outbox, update_member_read_with_outbox,
}
use gomsg.Service.MessageParts.{MessageService, CreateMessageRequest}
use gomsg.Service.Messages.{create, patch, delete, mark_read}
use gomsg.Service.Messages.Atomicity.{message_reads}
use gomsg.Repository.Writer.Outcome.{set_last_message-rest}
use gomsg.Repository.Writer.Edits.{update_text-eq, soft_delete-eq, set_member_read-eq}

abbrev pub ChatsExist : List Chat → List Message → Type 0
ChatsExist chats = All (λ m. any_row (λ c. text_eq (Chat.id c) (Message.chat_id m)) chats ≡ true)

pub record IsSound (d : Db) : Type 0 where
  pub printed : HasPrintedChats d
  pub distinct : HasDistinctIds d.messages
  pub in_chats : ChatsExist d.chats d.messages

update_rows-HasDistinctIds :
    (q : Message → Bool) (f : Message → Message)
    → ((m : Message) → Message.id (f m) ≡ Message.id m)
    → (ms : List Message) → HasDistinctIds ms
    → HasDistinctIds (update_rows q f ms)
unfolding update_rows
update_rows-HasDistinctIds q f h [] a = tt
update_rows-HasDistinctIds q f h (m ∷ ms) a = (
  subst (λ i. any_row (has_id i) (update_rows q f ms) ≡ false) (sym (kept (q m)))
      (any_row-update_rows (has_id m.id) q f (λ x. ap (λ i. text_eq i m.id) (h x)) ms ∙ a.0),
  update_rows-HasDistinctIds q f h ms a.1,
)
  where
    kept : (b : Bool) → Message.id (if b then f m else m) ≡ m.id
    kept true = h m
    kept false = refl

module _ (q : Message → Bool) (f : Message → Message)
    (same_id : (m : Message) → Message.id (f m) ≡ Message.id m)
    (same_chat : (m : Message) → Message.chat_id (f m) ≡ Message.chat_id m) where
  -- An UPDATE of `messages` that keeps ids and chats keeps the tables sound.
  update-IsSound :
      (d : Db) → IsSound d → IsSound (record d { messages = update_rows q f d.messages })
  update-IsSound d s = record {
    printed =
        All-update_rows q f (λ m e. ap to_lower (same_chat m) ∙ e ∙ sym (same_chat m)) d.messages
          s.printed;
    distinct = update_rows-HasDistinctIds q f same_id d.messages s.distinct;
    in_chats =
        All-update_rows q f
          (λ m e.
            subst (λ i. any_row (λ c. text_eq (Chat.id c) i) d.chats ≡ true) (sym (same_chat m)) e)
          d.messages s.in_chats;
  }

insert-IsSound :
    (id : Text) (now : ℕ) (m : Message) (d : Db) (row : Message) (d' : Db)
    → IsSound d
    → Inserted id now m d row d'
    → IsSound d'
insert-IsSound id now m d row d' s x = subst IsSound (sym x.stored) (record {
  printed = (ap to_lower x.chat_id ∙ to_lower-to_lower m.chat_id ∙ sym x.chat_id, s.printed);
  distinct = (x.unused, s.distinct);
  in_chats = (x.in_chat, s.in_chats);
})

All-map {ℓ κ} :
    {A : Type ℓ} (P Q : A → Type κ) → ((a : A) → P a → Q a) → (xs : List A) → All P xs → All Q xs
All-map P Q h [] a = a
All-map P Q h (x ∷ xs) a = (h x a.0, All-map P Q h xs a.1)

update_text-IsSound :
    (c i t : Text) (now : ℕ) (d : Db) (b : Bool) (d' : Db)
    → IsSound d
    → update_text c i t now d ≡ ok (b, d')
    → IsSound d'
update_text-IsSound c i t now d b d' s e =
    subst IsSound (sym (update_text-eq d now b d' c i t e).1)
      (update-IsSound _ _ (λ m. refl) (λ m. refl) d s)

soft_delete-IsSound :
    (c i : Text) (now : ℕ) (d : Db) (b : Bool) (d' : Db)
    → IsSound d
    → soft_delete c i now d ≡ ok (b, d')
    → IsSound d'
soft_delete-IsSound c i now d b d' s e =
    subst IsSound (sym (soft_delete-eq d now b d' c i e).1)
      (update-IsSound _ _ (λ m. refl) (λ m. refl) d s)

set_member_read-IsSound :
    (c u i : Text) (now : ℕ) (d : Db) (b : Bool) (d' : Db)
    → IsSound d
    → set_member_read c u i now d ≡ ok (b, d')
    → IsSound d'
set_member_read-IsSound c u i now d b d' s e =
    subst IsSound (sym (set_member_read-eq d now b d' c u i e).1)
      (record { printed = s.printed; distinct = s.distinct; in_chats = s.in_chats })

set_last_message-IsSound :
    (c m : Text) (at now : ℕ) (d : Db) (b : Bool) (d' : Db)
    → IsSound d
    → set_last_message c m at now d ≡ ok (b, d')
    → IsSound d'
set_last_message-IsSound c m at now d b d' s e =
    subst IsSound (sym (set_last_message-rest c m at now d b d' e)) (record {
      printed = s.printed;
      distinct = s.distinct;
      in_chats =
          All-map _ _
            (λ x h.
              any_row-update_rows (λ y. text_eq (Chat.id y) (Message.chat_id x)) _ _ (λ y. refl)
                d.chats
              ∙ h)
            d.messages s.in_chats;
    })

insert_outbox-IsSound :
    (ob : OutboxEnqueue) (w : World) → IsSound w.db → IsSound (insert_outbox ob w).1.db
insert_outbox-IsSound ob w s =
    let (rows, e) = insert_outbox-rest ob w in
    subst IsSound (sym e)
      (record { printed = s.printed; distinct = s.distinct; in_chats = s.in_chats })

module _ (env : Env) where
  Keeps-outbox : (ob : OutboxEnqueue) → Keeps IsSound (exec env (insert_outbox ob))
  Keeps-outbox ob = Keeps-exec env (insert_outbox ob) (insert_outbox-IsSound ob)

  create_body-IsSound :
      (m : Message) (ob : OutboxEnqueue) (now : ℕ) → Keeps IsSound (create_body env m ob now)
  unfolding create_body
  create_body-IsSound m ob now =
      Keeps-bind _ _
        (Keeps-on_db env (λ w. insert_message (env.uuid w.tick) now m)
          λ w d row d' s e.
            insert-IsSound (env.uuid w.tick) now m d row d' s
              (insert_message-Inserted (env.uuid w.tick) now m d row d' e))
        λ out.
          Keeps-bind _ _
            (Keeps-on_db env (λ _. set_last_message out.chat_id out.id out.created_at now)
              λ w d b d' s e.
                set_last_message-IsSound out.chat_id out.id out.created_at now d b d' s e)
            λ found. search (keeps_rules, Keeps-outbox)

  update_body-IsSound :
      (c i t : Text) (ob : OutboxEnqueue) (now : ℕ) → Keeps IsSound (update_body env c i t ob now)
  unfolding update_body
  update_body-IsSound c i t ob now =
      Keeps-bind _ _
        (Keeps-on_db env (λ _. update_text c i t now)
          λ w d b d' s e. update_text-IsSound c i t now d b d' s e)
        λ found. search (keeps_rules, Keeps-outbox)

  delete_body-IsSound :
      (c i : Text) (ob : OutboxEnqueue) (now : ℕ) → Keeps IsSound (delete_body env c i ob now)
  unfolding delete_body
  delete_body-IsSound c i ob now =
      Keeps-bind _ _
        (Keeps-on_db env (λ _. soft_delete c i now)
          λ w d b d' s e. soft_delete-IsSound c i now d b d' s e)
        λ found. search (keeps_rules, Keeps-outbox)

  read_body-IsSound :
      (c u i : Text) (ob : OutboxEnqueue) (now : ℕ) → Keeps IsSound (read_body env c u i ob now)
  unfolding read_body
  read_body-IsSound c u i ob now =
      Keeps-bind _ _
        (Keeps-on_db env (λ _. set_member_read c u i now)
          λ w d b d' s e. set_member_read-IsSound c u i now d b d' s e)
        λ found. search (keeps_rules, Keeps-outbox)

get_by_id-ReadOnly : (env : Env) (id : Text) → ReadOnly (get_by_id env id)
unfolding get_by_id
get_by_id-ReadOnly env id = search reads

ruleset sound_rules = (
  write_rules, message_reads, get_by_id-ReadOnly, create_body-IsSound, update_body-IsSound,
  delete_body-IsSound, read_body-IsSound,
)

module _ (env : Env) (svc : MessageService) (actor raw : Text) where
  create-Keeps : (req : CreateMessageRequest) → Keeps IsSound (create env svc actor raw req)
  unfolding create create_message_with_outbox
  create-Keeps req = search sound_rules depth 24

  patch-Keeps : (text : Text) → Keeps IsSound (patch env svc actor raw text)
  unfolding patch update_message_text_with_outbox
  patch-Keeps text = search sound_rules depth 24

  delete-Keeps : Keeps IsSound (delete env svc actor raw)
  unfolding delete soft_delete_message_with_outbox
  delete-Keeps = search sound_rules depth 24

  mark_read-Keeps : Keeps IsSound (mark_read env svc actor raw)
  unfolding mark_read update_member_read_with_outbox
  mark_read-Keeps = search sound_rules depth 24

  -- Every create, patch, delete and read request, whether it succeeds or fails and whatever
  -- statement fails, keeps the messages sound: distinct ids, and each in an existing chat, spelled
  -- as PostgreSQL prints it.
  pub requests-IsSound :
      (req : CreateMessageRequest) (text : Text)
      → Keeps IsSound (create env svc actor raw req)
        × Keeps IsSound (patch env svc actor raw text)
        × Keeps IsSound (delete env svc actor raw)
        × Keeps IsSound (mark_read env svc actor raw)
  requests-IsSound req text = (create-Keeps req, patch-Keeps text, delete-Keeps, mark_read-Keeps)
