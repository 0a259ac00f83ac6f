-- ===== src/Repository/Writer/Edits.antt =====
-- message_writer.go: what the transactions that change a message or a membership leave.
use gomsg.Prelude.{◌∙◌, subst, ℕ, Text, Bool, true, ◌≡◌, sym, arith, any_row, to_lower}
use gomsg.Result.{ok}
use gomsg.Domain.{Message, OutboxEnqueue}
use gomsg.Store.{◌>>=◌, Counters, Env, Db, Go, exec, transaction, count_up}
use gomsg.Store.Effects.{ReadOnly, ReadOnly-count_up}
use gomsg.Store.Outcome.{Yields, Yields-bind, Yields-transaction, Yields-exec-on_db, Yields-map}
use gomsg.Store.Steps.{Yields-ensure, Yields-query}
use gomsg.Uuid.{cast_uuid}
use gomsg.Tables.Messages.{
  edited_messages, deleted_messages, update_text, soft_delete, live_in, select_message_in,
}
use gomsg.Tables.Chats.{set_member_read, is_member_row, read_members}
use gomsg.Tables.Outbox.{insert_outbox}
use gomsg.Tables.Outbox.Insert.{Emits}
use gomsg.Repository.Writer.{
  update_body, update_message_text_with_outbox, delete_body, soft_delete_message_with_outbox,
  read_body, update_member_read_with_outbox, updated_event,
}
use gomsg.Repository.Writer.Outcome.{Yields-insert_outbox}

-- A write that meets a row and then stores its event.
pub record WroteWith (met : Bool) (d1 : Db) (ob : OutboxEnqueue) (d' : Db) : Type 0 where
  pub met_row : met ≡ true
  pub emitted : Emits ob d1 d'

-- After UpdateMessageTextWithOutbox: `m` is the row as the transaction reads it back.
pub record EditedWith (chat id text : Text) (ob : OutboxEnqueue) (d d' : Db) : Type 0 where
  pub now : ℕ
  pub m : Message
  pub reread :
      select_message_in chat id
        (record d { messages = edited_messages (to_lower chat) (to_lower id) text now d.messages })
      ≡ ok m
  pub wrote :
      WroteWith
        (any_row (live_in (to_lower chat) (to_lower id)) d.messages)
        (record d { messages = edited_messages (to_lower chat) (to_lower id) text now d.messages })
        (updated_event ob id m)
        d'

pub record DeletedWith (chat id : Text) (ob : OutboxEnqueue) (d d' : Db) : Type 0 where
  pub now : ℕ
  pub wrote :
      WroteWith
        (any_row (live_in (to_lower chat) (to_lower id)) d.messages)
        (record d { messages = deleted_messages (to_lower chat) (to_lower id) now d.messages })
        ob
        d'

pub record ReadWith (chat user id : Text) (ob : OutboxEnqueue) (d d' : Db) : Type 0 where
  pub now : ℕ
  pub wrote :
      WroteWith
        (any_row (is_member_row (to_lower chat) (to_lower user)) d.members)
        (record d {
          members = read_members (to_lower chat) (to_lower user) (to_lower id) now d.members;
        })
        ob
        d'

module _ (d : Db) (now : ℕ) (b : Bool) (d1 : Db) where
  pub update_text-eq :
      (c i t : Text)
      → update_text c i t now d ≡ ok (b, d1)
      → (b ≡ any_row (live_in (to_lower c) (to_lower i)) d.messages)
        × (d1 ≡ record d { messages = edited_messages (to_lower c) (to_lower i) t now d.messages })
  unfolding update_text cast_uuid
  update_text-eq c i t h = ground arith

  pub soft_delete-eq :
      (c i : Text)
      → soft_delete c i now d ≡ ok (b, d1)
      → (b ≡ any_row (live_in (to_lower c) (to_lower i)) d.messages)
        × (d1 ≡ record d { messages = deleted_messages (to_lower c) (to_lower i) now d.messages })
  unfolding soft_delete cast_uuid
  soft_delete-eq c i h = ground arith

  pub set_member_read-eq :
      (c u i : Text)
      → set_member_read c u i now d ≡ ok (b, d1)
      → (b ≡ any_row (is_member_row (to_lower c) (to_lower u)) d.members)
        × (d1 ≡ record d {
          members = read_members (to_lower c) (to_lower u) (to_lower i) now d.members;
        })
  unfolding set_member_read cast_uuid
  set_member_read-eq c u i h = ground arith

module _ (env : Env) (d : Db) where
  Yields-wrote :
      (met : Bool) (d1 d2 : Db) (ob : OutboxEnqueue) (found : Bool)
      → found ≡ met
      → d2 ≡ d1
      → found ≡ true
      → Yields d2 (λ _ d'. WroteWith met d1 ob d') (exec env (insert_outbox ob))
  Yields-wrote met d1 d2 ob found e1 e2 t =
      Yields-map (λ _ d'. Emits ob d2 d') _ (Yields-insert_outbox env ob)
        λ u d' h. record { met_row = sym e1 ∙ t; emitted = subst (λ x. Emits ob x d') e2 h }

  update_body-EditedWith :
      (c i t : Text) (ob : OutboxEnqueue) (now : ℕ)
      → Yields d (λ _. EditedWith c i t ob d) (update_body env c i t ob now)
  unfolding update_body
  update_body-EditedWith c i t ob now =
      Yields-bind
        (λ b d1.
          (b ≡ any_row (live_in (to_lower c) (to_lower i)) d.messages)
          × (d1
              ≡ record d { messages = edited_messages (to_lower c) (to_lower i) t now d.messages }))
        _ _
        (Yields-exec-on_db env (λ _. update_text c i t now)
          (λ w b d1 e. update_text-eq d now b d1 c i t e))
        λ b d1 (e1, e2). Yields-ensure b _ _ λ found. Yields-query env _ _ λ m reread.
          Yields-map _ _ (Yields-wrote _ _ d1 (updated_event ob i m) b e1 e2 found) λ u d' h.
            record {
              now = now;
              m = m;
              reread = subst (λ x. select_message_in c i x ≡ ok m) e2 reread;
              wrote = h;
            }

  delete_body-DeletedWith :
      (c i : Text) (ob : OutboxEnqueue) (now : ℕ)
      → Yields d (λ _. DeletedWith c i ob d) (delete_body env c i ob now)
  unfolding delete_body
  delete_body-DeletedWith c i ob now =
      Yields-bind
        (λ b d1.
          (b ≡ any_row (live_in (to_lower c) (to_lower i)) d.messages)
          × (d1
              ≡ record d { messages = deleted_messages (to_lower c) (to_lower i) now d.messages }))
        _ _
        (Yields-exec-on_db env (λ _. soft_delete c i now)
          (λ w b d1 e. soft_delete-eq d now b d1 c i e))
        λ b d1 (e1, e2). Yields-ensure b _ _ λ found.
          Yields-map _ _ (Yields-wrote _ _ d1 ob b e1 e2 found)
            λ u d' h. record { now = now; wrote = h }

  read_body-ReadWith :
      (c u i : Text) (ob : OutboxEnqueue) (now : ℕ)
      → Yields d (λ _. ReadWith c u i ob d) (read_body env c u i ob now)
  unfolding read_body
  read_body-ReadWith c u i ob now =
      Yields-bind
        (λ b d1.
          (b ≡ any_row (is_member_row (to_lower c) (to_lower u)) d.members)
          × (d1 ≡ record d {
            members = read_members (to_lower c) (to_lower u) (to_lower i) now d.members;
          }))
        _ _
        (Yields-exec-on_db env (λ _. set_member_read c u i now)
          (λ w b d1 e. set_member_read-eq d now b d1 c u i e))
        λ b d1 (e1, e2). Yields-ensure b _ _ λ found.
          Yields-map _ _ (Yields-wrote _ _ d1 ob b e1 e2 found)
            λ _ d' h. record { now = now; wrote = h }

module _ (env : Env) (obs : Bool) (d : Db) where
  -- A committed transaction, then the metric.
  Yields-commit :
      (P : Db → Type 0) (body : ℕ → Go (Unit {0})) (f : Counters → Counters)
      → ((now : ℕ) → Yields d (λ _. P) (body now))
      → Yields d (λ _. P) (transaction env body >>= λ _. count_up obs f)
  Yields-commit P body f h =
      Yields-bind (λ _. P) _ _ (Yields-transaction env body h)
        λ u d' p. record {
          at = λ w v e _. subst P (sym (ReadOnly.same (ReadOnly-count_up obs f) w ∙ e)) p;
        }

  pub update_message-EditedWith :
      (c i t : Text) (ob : OutboxEnqueue)
      → Yields d (λ _. EditedWith c i t ob d) (update_message_text_with_outbox env obs c i t ob)
  unfolding update_message_text_with_outbox
  update_message-EditedWith c i t ob = Yields-commit _ _ _ (update_body-EditedWith env d c i t ob)

  pub soft_delete-DeletedWith :
      (c i : Text) (ob : OutboxEnqueue)
      → Yields d (λ _. DeletedWith c i ob d) (soft_delete_message_with_outbox env obs c i ob)
  unfolding soft_delete_message_with_outbox
  soft_delete-DeletedWith c i ob = Yields-commit _ _ _ (delete_body-DeletedWith env d c i ob)

  pub update_read-ReadWith :
      (c u i : Text) (ob : OutboxEnqueue)
      → Yields d (λ _. ReadWith c u i ob d) (update_member_read_with_outbox env obs c u i ob)
  unfolding update_member_read_with_outbox
  update_read-ReadWith c u i ob = Yields-commit _ _ _ (read_body-ReadWith env d c u i ob)
