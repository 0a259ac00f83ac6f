-- ===== src/Service/Messages/Effects.antt =====
-- message_service.go: what a request that succeeds has checked and written.
use gomsg.Prelude.{
  Text, true, false, Option, none, [], ◌∷◌, ◌++◌, ◌≡◌, refl, is_some, trim_space, text_eq,
}
use gomsg.Result.{ok}
use gomsg.Domain.{Message, OutboxEnqueue}
use gomsg.Store.{Env, Db}
use gomsg.Store.Effects.{ReadOnly-count_up}
use gomsg.Store.Outcome.{
  Yields, Yields-pure, Yields-skip, Yields-bind, Yields-on_error, Yields-unchanged,
}
use gomsg.Store.Steps.{Yields-lift, Yields-ensure, Yields-query_or}
use gomsg.Uuid.{parse_id}
use gomsg.Tables.Messages.{select_message}
use gomsg.Repository.Messages.{get_by_id}
use gomsg.Repository.Writer.Outcome.{CreatedWith, create_message-CreatedWith}
use gomsg.Repository.Writer.Edits.{
  EditedWith, DeletedWith, ReadWith, update_message-EditedWith, soft_delete-DeletedWith,
  update_read-ReadWith,
}
use gomsg.Service.MessageParts.{
  MessageDto, CreateMessageRequest, MarkReadResponse, MessageService, to_message_dto,
}
use gomsg.Service.Messages.{create, get, patch, delete, mark_read, new_message}
use gomsg.Service.Messages.Reads.{
  IsMember, Resolves, IsFitText, IsEvent, Yields-member, Yields-load, Yields-text, Yields-reply,
  Yields-created_event, Yields-updated_event, Yields-deleted_event, Yields-read_event, not-true,
}

-- What Create has checked and written: `d` before, `d'` after.
pub record Created (d : Db) (actor chat : Text) (req : CreateMessageRequest) (dto : MessageDto)
    (d' : Db) : Type 0 where
  pub chat_id : Text
  pub parsed : parse_id "invalid chat_id" chat ≡ ok chat_id
  pub member : IsMember d chat_id actor
  pub fit : IsFitText (trim_space req.text)
  pub reply : Option Text
  pub resolves : Resolves d chat_id reply
  pub ob : OutboxEnqueue
  pub event : IsEvent "message.created" [] chat_id ob
  pub unfilled : ob.payload ≡ none
  pub stored : Message
  pub written : CreatedWith (new_message chat_id actor (trim_space req.text) reply) ob d stored d'
  pub answer : dto ≡ to_message_dto stored

module _ (env : Env) (svc : MessageService) (d : Db) where
  pub create-Created :
      (actor chat : Text) (req : CreateMessageRequest)
      → Yields d (Created d actor chat req) (create env svc actor chat req)
  unfolding create
  create-Created actor chat req = Yields-ensure _ _ _ λ _. Yields-ensure _ _ _ λ _.
      Yields-lift _ _ λ chat_id parsed. Yields-member env _ _ _ λ member. Yields-text _ _ λ fit.
        Yields-reply env _ _ _ λ reply resolves. Yields-ensure _ _ _ λ _.
          Yields-created_event env _ _ λ ob event unfilled.
            Yields-bind (CreatedWith (new_message chat_id actor (trim_space req.text) reply) ob d) _
              _ (Yields-on_error _ _ (create_message-CreatedWith env svc.writer_obs _ ob d))
              λ stored d' written. Yields-skip _ _ (ReadOnly-count_up svc.has_metrics _) λ _.
                Yields-pure _ (record {
                  chat_id = chat_id;
                  parsed = parsed;
                  member = member;
                  fit = fit;
                  reply = reply;
                  resolves = resolves;
                  ob = ob;
                  event = event;
                  unfilled = unfilled;
                  stored = stored;
                  written = written;
                  answer = refl;
                })

-- The message that a request names, its chat's membership and that it is not deleted.
pub record Targets (d : Db) (actor raw : Text) (m : Message) : Type 0 where
  pub id : Text
  pub parsed : parse_id "invalid message_id" raw ≡ ok id
  pub found : select_message id d ≡ ok m
  pub live : is_some m.deleted_at ≡ false
  pub member : IsMember d m.chat_id actor

pub record Got (d : Db) (actor raw : Text) (dto : MessageDto) (d' : Db) : Type 0 where
  pub m : Message
  pub target : Targets d actor raw m
  pub answer : dto ≡ to_message_dto m
  pub same : d' ≡ d

pub record Patched (d : Db) (actor raw text : Text) (dto : MessageDto) (d' : Db) : Type 0 where
  pub m : Message
  pub target : Targets d actor raw m
  pub author : text_eq m.sender_id actor ≡ true
  pub fit : IsFitText (trim_space text)
  pub ob : OutboxEnqueue
  pub event : IsEvent "message.updated" m.id m.chat_id ob
  pub unfilled : ob.payload ≡ none
  pub written : EditedWith m.chat_id m.id (trim_space text) ob d d'
  pub reloaded : Message
  pub reread : select_message m.id d' ≡ ok reloaded
  pub answer : dto ≡ to_message_dto reloaded

pub record Deleted (d : Db) (actor raw : Text) (d' : Db) : Type 0 where
  pub m : Message
  pub target : Targets d actor raw m
  pub author : text_eq m.sender_id actor ≡ true
  pub ob : OutboxEnqueue
  pub event : IsEvent "message.deleted" m.id m.chat_id ob
  pub written : DeletedWith m.chat_id m.id ob d d'

pub record MarkedRead (d : Db) (actor raw : Text) (r : MarkReadResponse) (d' : Db) : Type 0 where
  pub m : Message
  pub target : Targets d actor raw m
  pub ob : OutboxEnqueue
  pub event : IsEvent "message.read_receipt" (actor ++ (b':' ∷ m.id)) m.chat_id ob
  pub written : ReadWith m.chat_id actor m.id ob d d'
  pub answer : r ≡ record { chat_id = m.chat_id; last_read_message_id = m.id }

module _ (env : Env) (svc : MessageService) (d : Db) (actor raw : Text) where
  -- A get request that succeeds changes no table, and answers with the message of the given id, which is
  -- live and in a chat of which the user is a member.
  pub get-Got : Yields d (Got d actor raw) (get env svc actor raw)
  unfolding get
  get-Got = Yields-ensure _ _ _ λ _. Yields-lift _ _ λ id parsed. Yields-load env _ _ λ m found.
      Yields-ensure _ _ _ λ live. Yields-member env _ _ _ λ member. Yields-pure _ (record {
        m = m;
        target = record {
          id = id;
          parsed = parsed;
          found = found;
          live = not-true _ live;
          member = member;
        };
        answer = refl;
        same = refl;
      })

  pub patch-Patched :
      (text : Text) → Yields d (Patched d actor raw text) (patch env svc actor raw text)
  unfolding patch get_by_id
  patch-Patched text = Yields-ensure _ _ _ λ _. Yields-ensure _ _ _ λ _.
      Yields-lift _ _ λ id parsed. Yields-load env _ _ λ m found. Yields-ensure _ _ _ λ live.
        Yields-ensure _ _ _ λ author. Yields-member env _ _ _ λ member. Yields-ensure _ _ _ λ _.
          Yields-text _ _ λ fit. Yields-updated_event env _ _ λ ob event unfilled.
            Yields-bind (λ _. EditedWith m.chat_id m.id (trim_space text) ob d) _ _
              (Yields-on_error _ _ (update_message-EditedWith env svc.writer_obs d _ _ _ ob))
              λ _ d' written. Yields-query_or _ env _ _ λ m2 reread.
                Yields-skip _ _ (ReadOnly-count_up svc.has_metrics _) λ _. Yields-pure _ (record {
                  m = m;
                  target = record {
                    id = id;
                    parsed = parsed;
                    found = found;
                    live = not-true _ live;
                    member = member;
                  };
                  author = author;
                  fit = fit;
                  ob = ob;
                  event = event;
                  unfilled = unfilled;
                  written = written;
                  reloaded = m2;
                  reread = reread;
                  answer = refl;
                })

  pub delete-Deleted : Yields d (λ _. Deleted d actor raw) (delete env svc actor raw)
  unfolding delete
  delete-Deleted = Yields-ensure _ _ _ λ _. Yields-ensure _ _ _ λ _. Yields-lift _ _ λ id parsed.
      Yields-load env _ _ λ m found. Yields-ensure _ _ _ λ live. Yields-ensure _ _ _ λ author.
        Yields-member env _ _ _ λ member. Yields-deleted_event env _ _ λ ob event.
          Yields-bind (λ _. DeletedWith m.chat_id m.id ob d) _ _
            (Yields-on_error _ _ (soft_delete-DeletedWith env svc.writer_obs d _ _ ob))
            λ _ d' written. Yields-unchanged _ (ReadOnly-count_up svc.has_metrics _) λ _. record {
              m = m;
              target = record {
                id = id;
                parsed = parsed;
                found = found;
                live = not-true _ live;
                member = member;
              };
              author = author;
              ob = ob;
              event = event;
              written = written;
            }

  pub mark_read-MarkedRead : Yields d (MarkedRead d actor raw) (mark_read env svc actor raw)
  unfolding mark_read
  mark_read-MarkedRead = Yields-ensure _ _ _ λ _. Yields-ensure _ _ _ λ _.
      Yields-lift _ _ λ id parsed. Yields-load env _ _ λ m found. Yields-ensure _ _ _ λ live.
        Yields-member env _ _ _ λ member. Yields-read_event env _ _ _ _ λ ob event.
          Yields-bind (λ _. ReadWith m.chat_id actor m.id ob d) _ _
            (Yields-on_error _ _ (update_read-ReadWith env svc.writer_obs d _ _ _ ob))
            λ _ d' written. Yields-skip _ _ (ReadOnly-count_up svc.has_metrics _) λ _.
              Yields-pure _ (record {
                m = m;
                target = record {
                  id = id;
                  parsed = parsed;
                  found = found;
                  live = not-true _ live;
                  member = member;
                };
                ob = ob;
                event = event;
                written = written;
                answer = refl;
              })
