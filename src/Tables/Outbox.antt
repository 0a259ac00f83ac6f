-- ===== src/Tables/Outbox.antt =====
-- The SQL of message_writer.go and outbox_repository.go on the table `outbox_events`.
pub mod Insert
pub mod Order
use gomsg.Prelude.{
  ℕ, suc, Text, Bool, ◌&&◌, not, Option, none, some, List, [], ◌∷◌, ◌++◌, ltb, ◌==◌, is_some,
  if◌then◌else◌, text_eq, any_row, rows_where, update_rows, take,
}
use gomsg.Json.{Json, empty_obj}
use gomsg.Errors.{pg_error}
use gomsg.Result.{Result, ok, fail, ◌>>=◌, ◌>>◌, require}
use gomsg.Domain.{OutboxEnqueue, OutboxRow}
use gomsg.Store.{Db, World}
use gomsg.Uuid.{cast_uuid}

abbrev pub payload_or_empty : Option Json → Json
payload_or_empty none = empty_obj
payload_or_empty (some j) = j

cast_chat : Option Text → Result (Option Text)
cast_chat none = ok none
cast_chat (some raw) = cast_uuid raw >>= λ id. ok (some id)

-- The row of INSERT INTO outbox_events: `id` is the next number of the sequence.
unfoldable pub outbox_row : ℕ → OutboxEnqueue → Db → Result OutboxRow
unfolding cast_chat
outbox_row id ob d = do
  event_id ← cast_uuid ob.event_id
  chat_id ← cast_chat ob.chat_id
  require (not (any_row (λ r. text_eq (OutboxRow.event_id r) event_id) d.outbox)) (pg_error "23505")
  ok (record {
    id = id;
    event_id = event_id;
    event_type = ob.event_type;
    aggregate_type = ob.aggregate_type;
    aggregate_id = ob.aggregate_id;
    chat_id = chat_id;
    occurred_at = ob.occurred_at;
    version = ob.version;
    payload = payload_or_empty ob.payload;
    published_at = none;
  })

-- The statement of insertOutboxTx. The sequence moves on also where the row is refused.
unfoldable pub insert_outbox : OutboxEnqueue → World → Result (Unit {0}) × World
unfolding outbox_row
insert_outbox ob w = settle (outbox_row w.outbox_seq ob w.db)
  where
    settle : Result OutboxRow → Result (Unit {0}) × World
    settle (ok r) = (
      ok tt,
      record w {
        db = record w.db { outbox = w.db.outbox ++ r ∷ [] };
        outbox_seq = suc w.outbox_seq;
      },
    )
    settle (fail e) = (fail e, record w { outbox_seq = suc w.outbox_seq })

-- ORDER BY id ASC
unfoldable pub insert_by_id : OutboxRow → List OutboxRow → List OutboxRow
insert_by_id r [] = r ∷ []
insert_by_id r (x ∷ xs) =
    let rest = insert_by_id r xs in if ltb x.id r.id then x ∷ rest else r ∷ x ∷ xs

unfoldable pub by_id : List OutboxRow → List OutboxRow
unfolding insert_by_id
by_id [] = []
by_id (x ∷ xs) = insert_by_id x (by_id xs)

abbrev pub is_pending : OutboxRow → Bool
is_pending r = not (is_some r.published_at)

-- SELECT … WHERE published_at IS NULL ORDER BY id ASC LIMIT $1
unfoldable pub select_pending : ℕ → Db → Result (List OutboxRow)
unfolding by_id
select_pending limit d = ok (take limit (by_id (rows_where is_pending d.outbox)))

abbrev pub pending_id : ℕ → OutboxRow → Bool
pending_id id r = (r.id == id) && is_pending r

-- UPDATE outbox_events SET published_at = now() WHERE id = $1 AND published_at IS NULL
unfoldable pub set_published : ℕ → ℕ → Db → Result (Bool × Db)
set_published id now d = ok (
  any_row (pending_id id) d.outbox,
  record d {
    outbox = update_rows (pending_id id) (λ r. record r { published_at = some now }) d.outbox;
  },
)
