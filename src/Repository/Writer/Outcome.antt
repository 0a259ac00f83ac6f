-- ===== src/Repository/Writer/Outcome.antt =====
-- message_writer.go: what a transaction that commits has written.
use gomsg.Prelude.{subst, ℕ, Text, Bool, ◌≡◌, arith, to_lower}
use gomsg.Result.{ok}
use gomsg.Domain.{Message, OutboxEnqueue}
use gomsg.Store.{Env, Db, exec}
use gomsg.Store.Effects.{ReadOnly-count_up}
use gomsg.Store.Outcome.{
  Yields, Yields-pure, Yields-bind, Yields-skip, Yields-transaction, Yields-exec, Yields-exec-on_db,
}
use gomsg.Store.Steps.{Yields-ensure}
use gomsg.Uuid.{cast_uuid}
use gomsg.Tables.Messages.{insert_message}
use gomsg.Tables.Messages.Insert.{Inserted, insert_message-Inserted}
use gomsg.Tables.Chats.{set_last_message, touched_chats}
use gomsg.Tables.Outbox.{insert_outbox}
use gomsg.Tables.Outbox.Insert.{Emits, insert_outbox-Emits}
use gomsg.Repository.Writer.{create_body, create_message_with_outbox, created_event}

pub Yields-insert_outbox :
    {d : Db} (env : Env) (ob : OutboxEnqueue)
    → Yields d (λ _ d'. Emits ob d d') (exec env (insert_outbox ob))
Yields-insert_outbox env ob =
    Yields-exec env (insert_outbox ob)
      λ w u e h. subst (λ x. Emits ob x (insert_outbox ob w).1.db) e (insert_outbox-Emits ob w u h)

-- What set_last_message leaves: the chats aside, the tables.
pub set_last_message-rest :
    (c m : Text) (at now : ℕ) (d : Db) (b : Bool) (d' : Db)
    → set_last_message c m at now d ≡ ok (b, d')
    → d' ≡ record d { chats = touched_chats (to_lower c) (to_lower m) at now d.chats }
unfolding set_last_message cast_uuid
set_last_message-rest c m at now d b d' h = ground arith

-- After CreateMessageWithOutbox: the stored message, its chat's preview and its outbox row.
pub record CreatedWith (m : Message) (ob : OutboxEnqueue) (d : Db) (out : Message) (d' : Db)
    : Type 0 where
  pub id : Text
  pub now : ℕ
  pub d1 : Db
  pub inserted : Inserted id now m d out d1
  pub emitted :
      Emits
        (created_event ob out)
        (record d1 {
          chats =
              touched_chats (to_lower out.chat_id) (to_lower out.id) out.created_at now d1.chats;
        })
        d'

create_body-CreatedWith :
    (env : Env) (m : Message) (ob : OutboxEnqueue) (now : ℕ) (d : Db)
    → Yields d (CreatedWith m ob d) (create_body env m ob now)
unfolding create_body
create_body-CreatedWith env m ob now d =
    Yields-bind (λ out d1. (id : Text) × Inserted id now m d out d1) _ _
      (Yields-exec-on_db env (λ w. insert_message (env.uuid w.tick) now m)
        (λ w out d1 e.
          (env.uuid w.tick, insert_message-Inserted (env.uuid w.tick) now m d out d1 e)))
      λ out d1 (id, ins).
        Yields-bind
          (λ _ d2. d2 ≡ record d1 {
            chats =
                touched_chats (to_lower out.chat_id) (to_lower out.id) out.created_at now d1.chats;
          })
          _ _
          (Yields-exec-on_db env (λ _. set_last_message out.chat_id out.id out.created_at now)
            (λ w b d2 e. set_last_message-rest out.chat_id out.id out.created_at now d1 b d2 e))
          λ found d2 e2. Yields-ensure found _ _ λ _.
            Yields-bind (λ _ d3. Emits (created_event ob out) d2 d3) _ _
              (Yields-insert_outbox env _)
              λ u d3 em. Yields-pure out (record {
                id = id;
                now = now;
                d1 = d1;
                inserted = ins;
                emitted = subst (λ x. Emits (created_event ob out) x d3) e2 em;
              })

pub create_message-CreatedWith :
    (env : Env) (obs : Bool) (m : Message) (ob : OutboxEnqueue) (d : Db)
    → Yields d (CreatedWith m ob d) (create_message_with_outbox env obs m ob)
unfolding create_message_with_outbox
create_message-CreatedWith env obs m ob d =
    Yields-bind (CreatedWith m ob d) _ _
      (Yields-transaction env _ (λ now. create_body-CreatedWith env m ob now d))
      λ out d' h. Yields-skip _ _ (ReadOnly-count_up obs _) λ _. Yields-pure out h
