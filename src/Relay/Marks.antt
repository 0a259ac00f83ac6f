-- ===== src/Relay/Marks.antt =====
-- outbox_relay.go: which rows a tick marks as published.
use gomsg.Prelude.{
  ℕ, suc, Bool, true, false, Option, none, some, List, [], ◌∷◌, ◌++◌, ◌≡◌, refl, sym, ap, subst,
  ◌∙◌, ◌⊎◌, inl, inr, arith, ◌==◌, any_row, update_rows, All,
}
use gomsg.Errors.{Error}
use gomsg.Domain.{OutboxRow}
use gomsg.Store.{Env, World, Counters, count_up, exec, ensure, ◌>>=◌}
use gomsg.Tables.Outbox.{is_pending, pending_id, set_published}
use gomsg.Repository.Outbox.{mark_published}
use gomsg.Relay.{Sent, event_json, event_of}

-- The primary key of `outbox_events`.
abbrev pub HasDistinctRowIds : List OutboxRow → Type 0
HasDistinctRowIds [] = Unit
HasDistinctRowIds (r ∷ rs) = All (λ x. (OutboxRow.id x == r.id) ≡ false) rs × HasDistinctRowIds rs

-- The log has an acknowledged record for the event of the row.
abbrev pub IsAcked : List Sent → OutboxRow → Type 0
IsAcked [] r = ⊥
IsAcked (s ∷ ss) r = ((s.value ≡ event_json (event_of r)) × (s.error ≡ none)) ⊎ IsAcked ss r

IsAcked-append : (ss ts : List Sent) (r : OutboxRow) → IsAcked ss r → IsAcked (ss ++ ts) r
IsAcked-append [] ts r a = absurd a
IsAcked-append (s ∷ ss) ts r (inl e) = inl e
IsAcked-append (s ∷ ss) ts r (inr a) = inr (IsAcked-append ss ts r a)

pub IsAcked-last :
    (ss : List Sent) (s : Sent) (r : OutboxRow)
    → s.value ≡ event_json (event_of r)
    → s.error ≡ none
    → IsAcked (ss ++ s ∷ []) r
IsAcked-last [] s r e k = inl (e, k)
IsAcked-last (x ∷ ss) s r e k = inr (IsAcked-last ss s r e k)

-- A row before and after: as it was, or marked, and then it was pending and has an acknowledged record.
abbrev pub IsMarked : List Sent → OutboxRow → OutboxRow → Type 0
IsMarked sent r r' =
    (r' ≡ r)
    ⊎ ((t : ℕ) × (is_pending r ≡ true) × IsAcked sent r × (r' ≡ record r { published_at = some t }))

pub IsMarked-append :
    (ss ts : List Sent) (r r' : OutboxRow) → IsMarked ss r r' → IsMarked (ss ++ ts) r r'
IsMarked-append ss ts r r' (inl e) = inl e
IsMarked-append ss ts r r' (inr k) = inr (k.0, k.1, IsAcked-append ss ts r k.2, k.3)

-- Rows of the id of `row` are `row`.
abbrev pub Owns : OutboxRow → OutboxRow → Type 0
Owns row r = (OutboxRow.id r == OutboxRow.id row) ≡ true → r ≡ row

pub mark-IsMarked :
    (sent : List Sent) (row : OutboxRow) (t : ℕ) (x y : OutboxRow)
    → IsAcked sent row
    → Owns row x
    → IsMarked sent x y
    → pending_id row.id y ≡ true
    → IsMarked sent x (record y { published_at = some t })
mark-IsMarked sent row t x y a o (inl e) k = inr (
  t,
  ap is_pending (sym e) ∙ ground arith,
  subst (IsAcked sent)
      (sym (o (ap (λ z. OutboxRow.id z == OutboxRow.id row) (sym e) ∙ ground arith))) a,
  ap published e,
)
  where
    published : OutboxRow → OutboxRow
    published z = record z { published_at = some t }
mark-IsMarked sent row t x y a o (inr m) k = clash (ground arith) (ap is_pending m.3)
  where
    clash :
        is_pending y ≡ true
        → is_pending y ≡ false
        → IsMarked sent x (record y { published_at = some t })
    clash a b = absurd (cc)

ensured : (b : Bool) (e : Error) (w : World) → (ensure b e w).1.db.outbox ≡ w.db.outbox
unfolding ensure
ensured true e w = refl
ensured false e w = refl

-- MarkPublished leaves the outbox as it is, or updates it.
pub marked :
    (env : Env) (id : ℕ) (w : World)
    → ((mark_published env id w).1.db.outbox ≡ w.db.outbox)
      ⊎ ((t : ℕ) × ((mark_published env id w).1.db.outbox
            ≡ update_rows (pending_id id) (λ r. record r { published_at = some t }) w.db.outbox))
unfolding mark_published exec set_published ensure ◌>>=◌
marked env id w = go (env.fault w.tick) refl
  where
    go :
        (o : Option Error)
        → env.fault w.tick ≡ o
        → ((mark_published env id w).1.db.outbox ≡ w.db.outbox)
          ⊎ ((t : ℕ) × ((mark_published env id w).1.db.outbox
                ≡ update_rows
                    (pending_id id)
                    (λ r. record r { published_at = some t })
                    w.db.outbox))
    go (some x) e = inl (rw e refl)
    go none e =
        inr (env.clock (suc w.tick), rw e (ensured (any_row (pending_id id) w.db.outbox) _ _))

pub count_up-db : (on : Bool) (f : Counters → Counters) (w : World) → (count_up on f w).1.db ≡ w.db
unfolding count_up
count_up-db true f w = refl
count_up-db false f w = refl
