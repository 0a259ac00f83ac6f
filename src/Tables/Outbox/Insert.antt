-- ===== src/Tables/Outbox/Insert.antt =====
-- message_writer.go: the row that insertOutboxTx stores.
use gomsg.Prelude.{
  lower_id, ℕ, false, none, List, [], ◌∷◌, ◌++◌, ◌≡◌, refl, arith, to_lower, text_eq, any_row,
}
use gomsg.Result.{Result, ok, fail}
use gomsg.Domain.{OutboxEnqueue, OutboxRow}
use gomsg.Store.{Db, World}
use gomsg.Uuid.{cast_uuid}
use gomsg.Tables.Outbox.{outbox_row, insert_outbox, payload_or_empty}

-- The stored row, against the event that was handed in.
pub record Enqueued (id : ℕ) (ob : OutboxEnqueue) (d : Db) (row : OutboxRow) : Type 0 where
  pub has_id : row.id ≡ id
  pub event_id : row.event_id ≡ to_lower ob.event_id
  pub unused : any_row (λ r. text_eq (OutboxRow.event_id r) row.event_id) d.outbox ≡ false
  pub event_type : row.event_type ≡ ob.event_type
  pub aggregate_type : row.aggregate_type ≡ ob.aggregate_type
  pub aggregate_id : row.aggregate_id ≡ ob.aggregate_id
  pub chat_id : row.chat_id ≡ lower_id ob.chat_id
  pub occurred_at : row.occurred_at ≡ ob.occurred_at
  pub version : row.version ≡ ob.version
  pub payload : row.payload ≡ payload_or_empty ob.payload
  pub pending : row.published_at ≡ none

outbox_row-Enqueued :
    (id : ℕ) (ob : OutboxEnqueue) (d : Db) (row : OutboxRow)
    → outbox_row id ob d ≡ ok row
    → Enqueued id ob d row
unfolding outbox_row cast_uuid
outbox_row-Enqueued id ob d row h = ground arith

abbrev pub append_row : Db → OutboxRow → Db
append_row d row = record d { outbox = d.outbox ++ row ∷ [] }

-- The tables `d'` are `d` with one more outbox row, for `ob`.
pub record Emits (ob : OutboxEnqueue) (d d' : Db) : Type 0 where
  pub seq : ℕ
  pub row : OutboxRow
  pub event : Enqueued seq ob d row
  pub appended : d' ≡ append_row d row

pub insert_outbox-Emits :
    (ob : OutboxEnqueue) (w : World) (u : Unit {0})
    → (insert_outbox ob w).0 ≡ ok u
    → Emits ob w.db (insert_outbox ob w).1.db
unfolding insert_outbox
insert_outbox-Emits ob w u h = go (outbox_row w.outbox_seq ob w.db) refl
  where
    go :
        (r : Result OutboxRow)
        → outbox_row w.outbox_seq ob w.db ≡ r
        → Emits ob w.db (insert_outbox ob w).1.db
    go (ok row) e = record {
      seq = w.outbox_seq;
      row = row;
      event = outbox_row-Enqueued w.outbox_seq ob w.db row e;
      appended = rw (e, insert_outbox);
    }
    go (fail x) e = absurd (ground arith)

-- Stored or refused, the other tables are untouched.
pub insert_outbox-rest :
    (ob : OutboxEnqueue) (w : World)
    → (rows : List OutboxRow) × ((insert_outbox ob w).1.db ≡ record w.db { outbox = rows })
unfolding insert_outbox
insert_outbox-rest ob w = go (outbox_row w.outbox_seq ob w.db) refl
  where
    go :
        (r : Result OutboxRow)
        → outbox_row w.outbox_seq ob w.db ≡ r
        → (rows : List OutboxRow) × ((insert_outbox ob w).1.db ≡ record w.db { outbox = rows })
    go (ok row) e = (w.db.outbox ++ row ∷ [], rw (e, insert_outbox))
    go (fail x) e = (w.db.outbox, rw (e, insert_outbox))
