-- ===== src/Repository/Messages.antt =====
-- backend/internal/repository/postgres/message_repository.go and helpers.go
use gomsg.Prelude.{ℕ, zero, suc, ℤ, pos, negsuc, Text, Option, List, ltb, if◌then◌else◌}
use gomsg.Errors.{err_not_found}
use gomsg.Domain.{Message, MessageListOpts}
use gomsg.Store.{Env, Go, query, exec, ensure, on_db, ◌>>=◌}
use gomsg.Tables.Chats.Summaries.{count_after}
use gomsg.Tables.Messages.{
  insert_message, select_message, select_chat_messages, update_text, soft_delete,
}

-- normMessageLimit
unfoldable pub norm_message_limit : ℤ → ℕ
norm_message_limit (negsuc n) = 50
norm_message_limit (pos zero) = 50
norm_message_limit (pos (suc n)) = if ltb 200 (suc n) then 200 else suc n

module _ (env : Env) where
  -- Create, which writes the stored row back into its argument
  unfoldable pub create : Message → Go Message
  create m = exec env (λ w. on_db (insert_message (env.uuid w.tick) (env.clock w.tick) m) w)

  -- GetByID; mapErr makes a missing row ErrNotFound
  unfoldable pub get_by_id : Text → Go Message
  get_by_id id = query env (select_message id)

  -- GetChatMessages
  unfoldable pub get_chat_messages : Text → MessageListOpts → Go (List Message)
  get_chat_messages chat_id opts =
      query env (
        select_chat_messages chat_id opts.before_id opts.before_time
          (norm_message_limit opts.limit))

  -- UpdateText
  unfoldable pub update_text_only : Text → Text → Text → Go (Unit {0})
  update_text_only chat_id message_id text = do
    found ← exec env (λ w. on_db (update_text chat_id message_id text (env.clock w.tick)) w)
    ensure found err_not_found

  -- SoftDelete
  unfoldable pub soft_delete_only : Text → Text → Go (Unit {0})
  soft_delete_only chat_id message_id = do
    found ← exec env (λ w. on_db (soft_delete chat_id message_id (env.clock w.tick)) w)
    ensure found err_not_found

  -- CountUnreadAfter
  unfoldable pub count_unread_after : Text → Option Text → Go ℕ
  count_unread_after chat_id after_id = query env (count_after chat_id after_id)
