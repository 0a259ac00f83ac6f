-- ===== src/Service/Messages/Atomicity.antt =====
-- message_service.go: what a failing request leaves behind.
use gomsg.Prelude.{Text, Bool, Option, none, some, is_empty, trim_space, ◌≡◌}
use gomsg.Errors.{Error, internal_error}
use gomsg.Store.{Env}
use gomsg.Store.Effects.{
  ReadOnly, ReadOnly-if, IsAtomic, IsAtomic-bind, IsAtomic-then, IsAtomic-on_error,
  IsAtomic-transaction, reads, totals,
}
use gomsg.Store.Failing.{
  IsAtomicBut, IsAtomicBut-bind, IsAtomicBut-then, OnlyFails-on_error, OnlyFails-then,
}
use gomsg.Domain.{Message, OutboxEnqueue}
use gomsg.Repository.Messages.{get_by_id}
use gomsg.Repository.Chats.{find_membership}
use gomsg.Repository.Writer.{
  create_message_with_outbox, update_message_text_with_outbox, soft_delete_message_with_outbox,
  update_member_read_with_outbox,
}
use gomsg.Service.MessageParts.{
  MessageService, CreateMessageRequest, require_chat_member, load_message, outbox_for_created,
  outbox_for_updated, outbox_for_deleted, outbox_for_read, check_reply, resolve_reply, check_text,
}
use gomsg.Service.Messages.{create, patch, delete, mark_read}

module _ (env : Env) where
  pub require_chat_member-ReadOnly : (c u : Text) → ReadOnly (require_chat_member env c u)
  unfolding require_chat_member find_membership
  require_chat_member-ReadOnly c u = search reads

  pub load_message-ReadOnly : (id : Text) → ReadOnly (load_message env id)
  unfolding load_message get_by_id
  load_message-ReadOnly id = search reads

  pub outbox_for_created-ReadOnly : (m : Message) → ReadOnly (outbox_for_created env m)
  unfolding outbox_for_created
  outbox_for_created-ReadOnly m = search reads

  pub outbox_for_updated-ReadOnly : (m : Message) → ReadOnly (outbox_for_updated env m)
  unfolding outbox_for_updated
  outbox_for_updated-ReadOnly m = search reads

  pub outbox_for_deleted-ReadOnly : (m : Message) → ReadOnly (outbox_for_deleted env m)
  unfolding outbox_for_deleted
  outbox_for_deleted-ReadOnly m = search reads

  pub outbox_for_read-ReadOnly : (c u m : Text) → ReadOnly (outbox_for_read env c u m)
  unfolding outbox_for_read
  outbox_for_read-ReadOnly c u m = search reads

  check_reply-ReadOnly : (c rid : Text) → ReadOnly (check_reply env c rid)
  unfolding check_reply get_by_id
  check_reply-ReadOnly c rid = search (reads) depth 12

  pub resolve_reply-ReadOnly : (c : Text) (o : Option Text) → ReadOnly (resolve_reply env c o)
  unfolding resolve_reply
  resolve_reply-ReadOnly c none = search reads
  resolve_reply-ReadOnly c (some raw) =
      ReadOnly-if (is_empty (trim_space raw)) (search reads)
        (check_reply-ReadOnly c (trim_space raw))

pub check_text-ReadOnly : (t : Text) → ReadOnly (check_text t)
unfolding check_text
check_text-ReadOnly t = search reads

pub ruleset message_reads = (
  reads, require_chat_member-ReadOnly, load_message-ReadOnly, outbox_for_created-ReadOnly,
  outbox_for_updated-ReadOnly, outbox_for_deleted-ReadOnly, outbox_for_read-ReadOnly,
  resolve_reply-ReadOnly, check_text-ReadOnly,
)

module _ (env : Env) (obs : Bool) where
  create_message-IsAtomic :
      (m : Message) (ob : OutboxEnqueue) → IsAtomic (create_message_with_outbox env obs m ob)
  unfolding create_message_with_outbox
  create_message-IsAtomic m ob = search (IsAtomic-then, IsAtomic-transaction, totals)

  update_message-IsAtomic :
      (c m t : Text) (ob : OutboxEnqueue)
      → IsAtomic (update_message_text_with_outbox env obs c m t ob)
  unfolding update_message_text_with_outbox
  update_message-IsAtomic c m t ob = search (IsAtomic-then, IsAtomic-transaction, totals)

  soft_delete-IsAtomic :
      (c m : Text) (ob : OutboxEnqueue) → IsAtomic (soft_delete_message_with_outbox env obs c m ob)
  unfolding soft_delete_message_with_outbox
  soft_delete-IsAtomic c m ob = search (IsAtomic-then, IsAtomic-transaction, totals)

  update_read-IsAtomic :
      (c u m : Text) (ob : OutboxEnqueue)
      → IsAtomic (update_member_read_with_outbox env obs c u m ob)
  unfolding update_member_read_with_outbox
  update_read-IsAtomic c u m ob = search (IsAtomic-then, IsAtomic-transaction, totals)

ruleset atomic_rules = (
  IsAtomic-bind, IsAtomic-then, IsAtomic-on_error, create_message-IsAtomic, update_message-IsAtomic,
  soft_delete-IsAtomic, update_read-IsAtomic, totals, message_reads,
)

module _ (env : Env) (svc : MessageService) where
  pub create-IsAtomic :
      (actor chat : Text) (req : CreateMessageRequest) → IsAtomic (create env svc actor chat req)
  unfolding create
  create-IsAtomic actor chat req = search atomic_rules depth 20

  pub delete-IsAtomic : (actor raw : Text) → IsAtomic (delete env svc actor raw)
  unfolding delete
  delete-IsAtomic actor raw = search atomic_rules depth 20

  pub mark_read-IsAtomic : (actor raw : Text) → IsAtomic (mark_read env svc actor raw)
  unfolding mark_read
  mark_read-IsAtomic actor raw = search atomic_rules depth 20

  -- A create, delete or read request that answers with an error, whatever statement, BEGIN or
  -- COMMIT failed, has left every table as it was.
  pub requests-IsAtomic :
      (actor chat raw : Text) (req : CreateMessageRequest)
      → IsAtomic (create env svc actor chat req)
        × IsAtomic (delete env svc actor raw)
        × IsAtomic (mark_read env svc actor raw)
  requests-IsAtomic actor chat raw req =
      (create-IsAtomic actor chat req, delete-IsAtomic actor raw, mark_read-IsAtomic actor raw)

  -- A patch request that answers with an error has left every table as it was, unless the error is the
  -- internal error "reload message", which comes after the commit.
  pub patch-IsAtomicBut :
      (actor raw text : Text)
      → IsAtomicBut
          (λ e. (c : Error) × (e ≡ internal_error "reload message" c))
          (patch env svc actor raw text)
  unfolding patch
  patch-IsAtomicBut actor raw text =
      search
        (
          IsAtomicBut-bind, IsAtomicBut-then, IsAtomic-on_error, update_message-IsAtomic,
          OnlyFails-on_error, OnlyFails-then, totals, message_reads,
        )
        depth 20
