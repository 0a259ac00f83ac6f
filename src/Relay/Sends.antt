-- ===== src/Relay/Sends.antt =====
-- outbox_relay.go: what a tick hands to Kafka, and in which order.
use gomsg.Prelude.{
  Text, Option, ℕ, suc, Bool, true, false, none, some, List, [], ◌∷◌, ◌++◌, ◌≡◌, refl, sym, ap, ◌∙◌,
  arith, length, length-append, rows_where, take, pos,
}
use mathlib.Core.List.{append-nil, append_assoc}
use gomsg.Tables.Outbox.Order.{IsBatch, take-IsBatch}
use gomsg.Errors.{Error}
use gomsg.Result.{Result, ok, fail}
use gomsg.Domain.{OutboxRow}
use gomsg.Store.{Env, World, count_up, query}
use gomsg.Tables.Outbox.{by_id, is_pending, select_pending}
use gomsg.Repository.Outbox.{fetch_pending, norm_fetch_limit}
use gomsg.Relay.{
  Sent, event_json, Writer, OutboxRelay, Node, publish, event_of, key_of, publish_row, finish_row,
  relay_rows, tick,
}

-- The relay that app.go builds where Kafka is enabled and the producer has a writer.
abbrev pub kafka_relay : Writer → Bool → Bool → OutboxRelay
kafka_relay write fb met = record {
  use_kafka = true;
  kafka = some (record { writer = some write });
  has_fallback = fb;
  has_metrics = met;
}

-- The key of the record for a row: its chat, or its aggregate where the row has no chat.
abbrev pub record_key : Option Text → Text → Text
record_key none aggregate = aggregate
record_key (some []) aggregate = aggregate
record_key (some (c ∷ s)) aggregate = c ∷ s

key_of-event_of :
    (row : OutboxRow) → key_of (event_of row) ≡ record_key row.chat_id row.aggregate_id
unfolding key_of event_of
key_of-event_of row = go row.chat_id refl
  where
    go : (o : Option Text) → row.chat_id ≡ o → key_of (event_of row) ≡ record_key o row.aggregate_id
    go none e = ground (arith, e)
    go (some []) e = ground (arith, e)
    go (some (c ∷ s)) e = ground (arith, e)

-- The records for the rows, one each, in their order, from the k-th write on.
abbrev pub sends : Writer → ℕ → List OutboxRow → List Sent
sends write k [] = []
sends write k (row ∷ rows) =
    record {
      key = record_key row.chat_id row.aggregate_id;
      value = event_json (event_of row);
      error = write k (record_key row.chat_id row.aggregate_id) (event_json (event_of row));
    }
    ∷ sends write (suc k) rows

module _ (env : Env) (write : Writer) (fb met : Bool) where
  finish_row-sent :
      (row : OutboxRow) (r : Result (Unit {0})) (n : Node)
      → (finish_row env (kafka_relay write fb met) row (r, n)).sent ≡ n.sent
  unfolding finish_row
  finish_row-sent row (ok _) n = refl
  finish_row-sent row (fail e) n = refl

  relay_rows-sent :
      (rows : List OutboxRow) (n : Node)
      → (relay_rows env (kafka_relay write fb met) rows n).sent
        ≡ n.sent ++ sends write (length n.sent) rows
  unfolding relay_rows publish_row publish
  relay_rows-sent [] n = sym (append-nil n.sent)
  relay_rows-sent (row ∷ rows) n =
      relay_rows-sent rows _
      ∙ ap (λ l. l ++ sends write (length l) rows) (finish_row-sent row _ _)
      ∙ ap
          (λ k.
            let l =
              n.sent
              ++ record {
                key = k;
                value = event_json (event_of row);
                error = write (length n.sent) k (event_json (event_of row));
              }
                ∷ [] in
            l ++ sends write (length l) rows)
          (key_of-event_of row)
      ∙ ap (λ k. (n.sent ++ s ∷ []) ++ sends write k rows) counted
      ∙ append_assoc n.sent (s ∷ []) (sends write (suc (length n.sent)) rows)
    where
      s : Sent
      s = record {
        key = record_key row.chat_id row.aggregate_id;
        value = event_json (event_of row);
        error =
            write (length n.sent) (record_key row.chat_id row.aggregate_id)
              (event_json (event_of row));
      }

      counted : length (n.sent ++ s ∷ []) ≡ suc (length n.sent)
      counted = omega (arith, length-append n.sent (s ∷ []))

abbrev pub batch : Node → List OutboxRow
batch n = take 100 (by_id (rows_where is_pending n.world.db.outbox))

-- The fetch of a tick, where the statement does not fail.
pub fetch_pending-batch :
    (env : Env) (w : World)
    → env.fault w.tick ≡ none
    → fetch_pending env (pos 100) w
      ≡ (ok (take 100 (by_id (rows_where is_pending w.db.outbox))), record w { tick = suc w.tick })
unfolding fetch_pending query select_pending norm_fetch_limit
fetch_pending-batch env w e = rw e refl

-- Such a tick is its loop over the batch.
pub tick-rows :
    (env : Env) (relay : OutboxRelay) (n : Node)
    → env.fault n.world.tick ≡ none
    → (w : World) × (w.db ≡ n.world.db)
      × (tick env relay n ≡ relay_rows env relay (batch n) (record n { world = w }))
unfolding tick count_up
tick-rows env relay n e = go relay.has_metrics refl
  where
    counted : World
    counted = record n.world {
      counters = record n.world.counters { relay_iter = suc n.world.counters.relay_iter };
    }

    go :
        (b : Bool)
        → relay.has_metrics ≡ b
        → (w : World) × (w.db ≡ n.world.db)
          × (tick env relay n ≡ relay_rows env relay (batch n) (record n { world = w }))
    go true k = (
      record counted { tick = suc n.world.tick },
      refl,
      rw (k, fetch_pending-batch env counted e) refl,
    )
    go false k = (
      record n.world { tick = suc n.world.tick },
      refl,
      rw (k, fetch_pending-batch env n.world e) refl,
    )

-- A tick whose fetch fails changes no table and sends nothing.
pub tick-failed :
    (env : Env) (relay : OutboxRelay) (n : Node) (x : Error)
    → env.fault n.world.tick ≡ some x
    → (w : World) × (w.db ≡ n.world.db) × (tick env relay n ≡ record n { world = w })
unfolding tick count_up fetch_pending query
tick-failed env relay n x e = go relay.has_metrics refl
  where
    counted : World
    counted = record n.world {
      counters = record n.world.counters { relay_iter = suc n.world.counters.relay_iter };
    }

    go :
        (b : Bool)
        → relay.has_metrics ≡ b
        → (w : World) × (w.db ≡ n.world.db) × (tick env relay n ≡ record n { world = w })
    go true k = (record counted { tick = suc n.world.tick }, refl, rw (k, e) refl)
    go false k = (record n.world { tick = suc n.world.tick }, refl, rw (k, e) refl)

-- With Kafka enabled and a producer that has a writer, where the rows can be read: a tick hands the
-- writer the oldest pending rows, at most 100 and else all, in the order of their ids, one record
-- each, keyed by the chat (by the aggregate where the row has no chat), whichever of the writes
-- fail.
pub tick-sends :
    (env : Env) (write : Writer) (fb met : Bool) (n : Node)
    → env.fault n.world.tick ≡ none
    → (rows : List OutboxRow) × IsBatch 100 n.world.db.outbox rows
      × ((tick env (kafka_relay write fb met) n).sent ≡ n.sent ++ sends write (length n.sent) rows)
tick-sends env write fb met n e = (
  batch n,
  take-IsBatch 100 n.world.db.outbox,
  ap Node.sent t.2 ∙ relay_rows-sent env write fb met (batch n) (record n { world = t.0 }),
)
  where
    t :
        (w : World) × (w.db ≡ n.world.db)
        × (tick env (kafka_relay write fb met) n
            ≡ relay_rows env (kafka_relay write fb met) (batch n) (record n { world = w }))
    t = tick-rows env (kafka_relay write fb met) n e
