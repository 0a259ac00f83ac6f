-- ===== src/Relay/Safety.antt =====
-- outbox_relay.go: a tick marks no row that Kafka has not acknowledged.
use gomsg.Prelude.{
  ℕ, suc, Bool, true, false, Option, none, some, List, [], ◌∷◌, ◌++◌, ◌≡◌, refl, sym, subst, ◌⊎◌,
  inl, inr, arith, length, ◌==◌, update_rows, rows_where, All, All-map, All-zip, All-take,
  All-rows_where, Pairs, Pairs-same, Pairs-map, Pairs-update_rows,
}
use gomsg.Errors.{Error}
use gomsg.Domain.{OutboxRow}
use gomsg.Store.{Env, World, count_up}
use gomsg.Tables.Outbox.{by_id, is_pending, pending_id}
use gomsg.Tables.Outbox.Order.{All-by_id}
use gomsg.Repository.Outbox.{mark_published}
use gomsg.Relay.{
  Sent, event_json, Writer, OutboxRelay, Node, as_result, publish, event_of, key_of, publish_row,
  finish_row, relay_rows, tick,
}
use gomsg.Relay.Sends.{kafka_relay, batch, tick-rows, tick-failed}
use gomsg.Relay.Marks.{
  HasDistinctRowIds, IsAcked-last, IsMarked, IsMarked-append, Owns, mark-IsMarked, marked,
  count_up-db,
}

-- What holds of every row before the tick: a fetched row of its id is that row.
module _ (env : Env) (write : Writer) (fb met : Bool) (before : List OutboxRow) where
  abbrev Kept : Node → Type 0
  Kept n = Pairs (IsMarked n.sent) before n.world.db.outbox

  handed : OutboxRow → Node → Sent
  handed row n = record {
    key = key_of (event_of row);
    value = event_json (event_of row);
    error = write (length n.sent) (key_of (event_of row)) (event_json (event_of row));
  }

  row-Kept :
      (row : OutboxRow) (n : Node)
      → All (Owns row) before
      → Kept n
      → Kept (
          finish_row env
            (kafka_relay write fb met)
            row
            (publish_row env (kafka_relay write fb met) row n))
  unfolding publish_row publish finish_row handed
  row-Kept row n o k =
      go (write (length n.sent) (key_of (event_of row)) (event_json (event_of row))) refl
    where
      s : Option Error → Sent
      s e = record { key = key_of (event_of row); value = event_json (event_of row); error = e }

      next : Option Error → Node
      next e = record n { sent = n.sent ++ s e ∷ [] }

      longer : (e : Option Error) → Pairs (IsMarked (next e).sent) before n.world.db.outbox
      longer e =
          Pairs-map (IsMarked n.sent) (IsMarked (next e).sent) (IsMarked-append n.sent (s e ∷ []))
            before n.world.db.outbox k

      go :
          (e : Option Error)
          → write (length n.sent) (key_of (event_of row)) (event_json (event_of row)) ≡ e
          → Kept (finish_row env (kafka_relay write fb met) row (as_result e, next e))
      go (some x) e =
          subst (λ d. Pairs (IsMarked (next (some x)).sent) before d.outbox)
            (sym
              (count_up-db met (λ c. record c { relay_pub_fail = suc c.relay_pub_fail }) n.world))
            (longer (some x))
      go none e = mark (marked env row.id counted)
        where
          counted : World
          counted = (count_up met (λ c. record c { relay_pub_ok = suc c.relay_pub_ok }) n.world).1

          base : Pairs (IsMarked (next none).sent) before counted.db.outbox
          base =
              subst (λ d. Pairs (IsMarked (next none).sent) before d.outbox)
                (sym
                  (count_up-db met (λ c. record c { relay_pub_ok = suc c.relay_pub_ok }) n.world))
                (longer none)

          mark :
              ((mark_published env row.id counted).1.db.outbox ≡ counted.db.outbox)
                ⊎ ((t : ℕ) × ((mark_published env row.id counted).1.db.outbox
                      ≡ update_rows
                          (pending_id row.id)
                          (λ r. record r { published_at = some t })
                          counted.db.outbox))
              → Pairs
                  (IsMarked (next none).sent)
                  before
                  (mark_published env row.id counted).1.db.outbox
          mark (inl same) =
              subst (λ rows. Pairs (IsMarked (next none).sent) before rows) (sym same) base
          mark (inr (t, set)) =
              subst (λ rows. Pairs (IsMarked (next none).sent) before rows) (sym set)
                (Pairs-update_rows (Owns row) (IsMarked (next none).sent) (pending_id row.id)
                  (λ r. record r { published_at = some t })
                  (λ x y own m p.
                    mark-IsMarked (next none).sent row t x y
                      (IsAcked-last n.sent (s none) row refl refl) own m p)
                  before counted.db.outbox o base)

  rows-Kept :
      (rows : List OutboxRow) (n : Node)
      → All (λ row. All (Owns row) before) rows
      → Kept n
      → Kept (relay_rows env (kafka_relay write fb met) rows n)
  unfolding relay_rows
  rows-Kept [] n o k = k
  rows-Kept (row ∷ rows) n o k = rows-Kept rows _ o.1 (row-Kept row n o.0 k)

-- In a table with distinct ids, every row is the only one of its id.
own_each : (rows : List OutboxRow) → HasDistinctRowIds rows → All (λ row. All (Owns row) rows) rows
own_each [] d = tt
own_each (x ∷ xs) d = (
  (
    (λ _. refl),
    All-map (λ y. (OutboxRow.id y == x.id) ≡ false) (Owns x) (λ y e k. absurd (cc)) xs d.0,
  ),
  All-zip (λ y. (OutboxRow.id y == x.id) ≡ false) (λ row. All (Owns row) xs)
      (λ row. All (Owns row) (x ∷ xs)) (λ y e own. ((λ k. absurd (ground arith)), own)) xs d.0
      (own_each xs d.1),
)

-- With Kafka enabled, a producer that has a writer, and distinct row ids: a tick marks a row of the
-- outbox as published only if the row was pending and the log then has an acknowledged record with
-- its event. Every other row, and every other column, is as it was.
pub tick-IsMarked :
    (env : Env) (write : Writer) (fb met : Bool) (n : Node)
    → HasDistinctRowIds n.world.db.outbox
    → Pairs
        (IsMarked (tick env (kafka_relay write fb met) n).sent)
        n.world.db.outbox
        (tick env (kafka_relay write fb met) n).world.db.outbox
tick-IsMarked env write fb met n d = go (env.fault n.world.tick) refl
  where
    relay : OutboxRelay
    relay = kafka_relay write fb met

    before : List OutboxRow
    before = n.world.db.outbox

    go :
        (o : Option Error)
        → env.fault n.world.tick ≡ o
        → Pairs (IsMarked (tick env relay n).sent) before (tick env relay n).world.db.outbox
    go (some x) e =
        let t = tick-failed env relay n x e in
        subst (λ m. Pairs (IsMarked (Node.sent m)) before m.world.db.outbox) (sym t.2)
          (subst (λ d. Pairs (IsMarked n.sent) before d.outbox) (sym t.1)
            (Pairs-same (IsMarked n.sent) (λ r. inl refl) before))
    go none e =
        let t = tick-rows env relay n e in
        subst (λ m. Pairs (IsMarked (Node.sent m)) before m.world.db.outbox) (sym t.2)
          (rows-Kept env write fb met before (batch n) (record n { world = t.0 }) fetched
            (subst (λ d. Pairs (IsMarked n.sent) before d.outbox) (sym t.1)
              (Pairs-same (IsMarked n.sent) (λ r. inl refl) before)))
      where
        fetched : All (λ row. All (Owns row) before) (batch n)
        fetched =
            All-take (λ row. All (Owns row) before) 100 (by_id (rows_where is_pending before))
              (All-by_id (λ row. All (Owns row) before) (rows_where is_pending before)
                (All-map (λ row. All (Owns row) before × (is_pending row ≡ true))
                  (λ row. All (Owns row) before) (λ row k. k.0) (rows_where is_pending before)
                  (All-rows_where (λ row. All (Owns row) before) is_pending before
                    (own_each before d))))
