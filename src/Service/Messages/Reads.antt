-- ===== src/Service/Messages/Reads.antt =====
-- message_service.go: what the reading steps of a request find of the tables.
use gomsg.Prelude.{
  [], ◌∷◌, ◌++◌, Text, String, Bool, true, false, not, Option, none, some, ◌≡◌, refl, text_eq,
  is_some, is_empty, trim_space, byte_len, ltb, arith,
}
use gomsg.Result.{ok}
use gomsg.Domain.{Message, ChatMember, OutboxEnqueue}
use gomsg.Store.{Env, Db, Go, ◌>>=◌}
use gomsg.Store.Effects.{reads}
use gomsg.Store.Outcome.{Yields, Yields-pure, Yields-read, Yields-skip, Yields-if}
use gomsg.Store.Steps.{Yields-query_or, Yields-ensure, Yields-ensure_last}
use gomsg.Tables.Messages.{select_message}
use gomsg.Tables.Chats.{select_membership}
use gomsg.Repository.Messages.{get_by_id}
use gomsg.Repository.Chats.{find_membership}
use gomsg.Service.MessageParts.{
  require_chat_member, load_message, outbox_for_created, outbox_for_updated, outbox_for_deleted,
  outbox_for_read, check_reply, resolve_reply, check_text,
}
use gomsg.Service.Messages.Atomicity.{
  require_chat_member-ReadOnly, outbox_for_created-ReadOnly, check_text-ReadOnly,
  outbox_for_updated-ReadOnly, outbox_for_deleted-ReadOnly, outbox_for_read-ReadOnly,
  resolve_reply-ReadOnly,
}

-- The user has a row in the chat's members.
pub record IsMember (d : Db) (chat_id user_id : Text) : Type 0 where
  pub row : ChatMember
  pub found : select_membership chat_id user_id d ≡ ok row

-- What a reply refers to: a live message of the same chat.
abbrev pub Resolves : Db → Text → Option Text → Type 0
Resolves d chat_id none = Unit
Resolves d chat_id (some rid) =
    (m : Message) × (select_message rid d ≡ ok m)
    × (text_eq m.chat_id chat_id ≡ true)
    × (is_some m.deleted_at ≡ false)

pub record IsFitText (t : Text) : Type 0 where
  pub filled : is_empty t ≡ false
  pub short : ltb 8000 (byte_len t) ≡ false

pub not-true : (b : Bool) → not b ≡ true → b ≡ false
not-true b h = ground arith

module _ {B : Type 0} {d : Db} {P : B → Db → Type 0} (env : Env) where
  pub Yields-member :
      (c u : Text) (f : Unit {0} → Go B)
      → (IsMember d c u → Yields d P (f tt))
      → Yields d P (require_chat_member env c u >>= f)
  Yields-member c u f h =
      Yields-read (λ _. IsMember d c u) _ f (require_chat_member-ReadOnly env c u)
        (unfold require_chat_member find_membership in
          Yields-query_or _ env _ _ λ row e. Yields-pure tt (record { row = row; found = e }))
        (λ _ m. h m)

  pub Yields-load :
      (id : Text) (f : Message → Go B)
      → ((m : Message) → select_message id d ≡ ok m → Yields d P (f m))
      → Yields d P (load_message env id >>= f)
  Yields-load id f h = unfold load_message get_by_id in Yields-query_or _ env _ f h

module _ {B : Type 0} {d : Db} {P : B → Db → Type 0} where
  pub Yields-text :
      (t : Text) (f : Unit {0} → Go B)
      → (IsFitText t → Yields d P (f tt))
      → Yields d P (check_text t >>= f)
  Yields-text t f h =
      Yields-read (λ _. IsFitText t) _ f (check_text-ReadOnly t)
        (unfold check_text in
          Yields-ensure _ _ _ λ filled.
            Yields-ensure_last _ _
              λ short. record { filled = not-true _ filled; short = not-true _ short })
        (λ _ m. h m)

module _ {d : Db} (env : Env) where
  check_reply-Resolves : (c rid : Text) → Yields d (λ o _. Resolves d c o) (check_reply env c rid)
  unfolding check_reply get_by_id
  check_reply-Resolves c rid = Yields-ensure _ _ _ λ _. Yields-query_or _ env _ _ λ m found.
      Yields-ensure _ _ _ λ same_chat.
        Yields-ensure _ _ _ λ live. Yields-pure (some rid) (m, found, same_chat, not-true _ live)

  resolve_reply-Resolves :
      (c : Text) (o : Option Text) → Yields d (λ r _. Resolves d c r) (resolve_reply env c o)
  unfolding resolve_reply
  resolve_reply-Resolves c none = Yields-pure none tt
  resolve_reply-Resolves c (some raw) =
      Yields-if (is_empty (trim_space raw)) (Yields-pure none tt)
        (check_reply-Resolves c (trim_space raw))

-- An event that the writer is to complete, or not: its type, subject and chat.
pub record IsEvent (type : String) (subject : Text) (chat_id : Text) (ob : OutboxEnqueue)
    : Type 0 where
  pub type_eq : ob.event_type ≡ type
  pub subject_eq : ob.aggregate_id ≡ subject
  pub chat_eq : ob.chat_id ≡ some chat_id

module _ {B : Type 0} {d : Db} {P : B → Db → Type 0} (env : Env) where
  pub Yields-reply :
      (c : Text) (o : Option Text) (f : Option Text → Go B)
      → ((r : Option Text) → Resolves d c r → Yields d P (f r))
      → Yields d P (resolve_reply env c o >>= f)
  Yields-reply c o f h =
      Yields-read (Resolves d c) _ f (resolve_reply-ReadOnly env c o)
        (resolve_reply-Resolves env c o) h

  pub Yields-created_event :
      (m : Message) (f : OutboxEnqueue → Go B)
      → ((ob : OutboxEnqueue)
          → IsEvent "message.created" [] m.chat_id ob
          → ob.payload ≡ none
          → Yields d P (f ob))
      → Yields d P (outbox_for_created env m >>= f)
  Yields-created_event m f h =
      Yields-read (λ ob. IsEvent "message.created" [] m.chat_id ob × (ob.payload ≡ none)) _ f
        (outbox_for_created-ReadOnly env m)
        (unfold outbox_for_created in
          Yields-skip _ _ (search reads) λ id. Yields-skip _ _ (search reads) λ now.
            Yields-pure _ (record { type_eq = refl; subject_eq = refl; chat_eq = refl }, refl))
        (λ ob e. h ob e.0 e.1)

  pub Yields-updated_event :
      (m : Message) (f : OutboxEnqueue → Go B)
      → ((ob : OutboxEnqueue)
          → IsEvent "message.updated" m.id m.chat_id ob
          → ob.payload ≡ none
          → Yields d P (f ob))
      → Yields d P (outbox_for_updated env m >>= f)
  Yields-updated_event m f h =
      Yields-read (λ ob. IsEvent "message.updated" m.id m.chat_id ob × (ob.payload ≡ none)) _ f
        (outbox_for_updated-ReadOnly env m)
        (unfold outbox_for_updated in
          Yields-skip _ _ (search reads) λ id. Yields-skip _ _ (search reads) λ now.
            Yields-pure _ (record { type_eq = refl; subject_eq = refl; chat_eq = refl }, refl))
        (λ ob e. h ob e.0 e.1)

  pub Yields-deleted_event :
      (m : Message) (f : OutboxEnqueue → Go B)
      → ((ob : OutboxEnqueue) → IsEvent "message.deleted" m.id m.chat_id ob → Yields d P (f ob))
      → Yields d P (outbox_for_deleted env m >>= f)
  Yields-deleted_event m f h =
      Yields-read (IsEvent "message.deleted" m.id m.chat_id) _ f (outbox_for_deleted-ReadOnly env m)
        (unfold outbox_for_deleted in
          Yields-skip _ _ (search reads) λ now.
            Yields-skip _ _ (search reads)
              λ id. Yields-pure _ (record { type_eq = refl; subject_eq = refl; chat_eq = refl }))
        h

  pub Yields-read_event :
      (c u m : Text) (f : OutboxEnqueue → Go B)
      → ((ob : OutboxEnqueue)
          → IsEvent "message.read_receipt" (u ++ (b':' ∷ m)) c ob
          → Yields d P (f ob))
      → Yields d P (outbox_for_read env c u m >>= f)
  Yields-read_event c u m f h =
      Yields-read (IsEvent "message.read_receipt" (u ++ (b':' ∷ m)) c) _ f
        (outbox_for_read-ReadOnly env c u m)
        (unfold outbox_for_read in
          Yields-skip _ _ (search reads) λ id.
            Yields-skip _ _ (search reads)
              λ now. Yields-pure _ (record { type_eq = refl; subject_eq = refl; chat_eq = refl }))
        h
