-- ===== src/Tables/Outbox/Order.antt =====
-- outbox_repository.go, FetchPending: the order of the rows, and the batch.
use mathlib.Core.List.{Perm}
use mathlib.Core.List.Perm
use gomsg.Prelude.{
  ℕ, ◌≤◌, Bool, true, false, List, [], ◌∷◌, ◌++◌, ◌≡◌, refl, sym, subst, ◌⊎◌, arith, ltb,
  if◌then◌else◌, All, All-map, take, length, length-take-le, rows_where, drop, take-drop,
  length-take,
}
use gomsg.Domain.{OutboxRow}
use gomsg.Tables.Outbox.{insert_by_id, by_id, is_pending}

-- No row stands behind one with a greater id.
abbrev pub IsAscending : List OutboxRow → Type 0
IsAscending [] = Unit
IsAscending (r ∷ rs) = All (λ x. ltb (OutboxRow.id x) r.id ≡ false) rs × IsAscending rs

All-insert_by_id :
    (P : OutboxRow → Type 0) (r : OutboxRow) (rs : List OutboxRow)
    → P r
    → All P rs
    → All P (insert_by_id r rs)
unfolding insert_by_id
All-insert_by_id P r [] p a = (p, tt)
All-insert_by_id P r (x ∷ rs) p a = go (ltb x.id r.id) (All-insert_by_id P r rs p a.1)
  where
    go :
        (b : Bool)
        → All P (insert_by_id r rs)
        → All P (if b then x ∷ insert_by_id r rs else r ∷ x ∷ rs)
    go true k = (a.0, k)
    go false k = (p, a)

pub All-by_id : (P : OutboxRow → Type 0) (rs : List OutboxRow) → All P rs → All P (by_id rs)
unfolding by_id
All-by_id P [] a = tt
All-by_id P (r ∷ rs) a = All-insert_by_id P r (by_id rs) a.0 (All-by_id P rs a.1)

insert_by_id-IsAscending :
    (r : OutboxRow) (rs : List OutboxRow) → IsAscending rs → IsAscending (insert_by_id r rs)
unfolding insert_by_id
insert_by_id-IsAscending r [] s = (tt, tt)
insert_by_id-IsAscending r (x ∷ rs) s = go (ltb x.id r.id) refl (insert_by_id-IsAscending r rs s.1)
  where
    go :
        (b : Bool)
        → ltb x.id r.id ≡ b
        → IsAscending (insert_by_id r rs)
        → IsAscending (if b then x ∷ insert_by_id r rs else r ∷ x ∷ rs)
    go true e k =
        (All-insert_by_id (λ y. ltb (OutboxRow.id y) x.id ≡ false) r rs (ground arith) s.0, k)
    go false e k = (
      (
        e,
        All-map (λ y. ltb (OutboxRow.id y) x.id ≡ false) (λ y. ltb (OutboxRow.id y) r.id ≡ false)
            (λ y l. ground arith) rs s.0,
      ),
      s,
    )

by_id-IsAscending : (rs : List OutboxRow) → IsAscending (by_id rs)
unfolding by_id
by_id-IsAscending [] = tt
by_id-IsAscending (r ∷ rs) = insert_by_id-IsAscending r (by_id rs) (by_id-IsAscending rs)

insert_by_id-perm : (r : OutboxRow) (rs : List OutboxRow) → Perm (insert_by_id r rs) (r ∷ rs)
unfolding insert_by_id
insert_by_id-perm r [] = Perm.refl _
insert_by_id-perm r (x ∷ rs) = go (ltb x.id r.id) (insert_by_id-perm r rs)
  where
    go :
        (b : Bool)
        → Perm (insert_by_id r rs) (r ∷ rs)
        → Perm (if b then x ∷ insert_by_id r rs else r ∷ x ∷ rs) (r ∷ x ∷ rs)
    go true k = Perm.trans (Perm.cons x k) (Perm.swap r x rs)
    go false k = Perm.refl _

by_id-perm : (rs : List OutboxRow) → Perm (by_id rs) rs
unfolding by_id
by_id-perm [] = Perm.refl _
by_id-perm (r ∷ rs) = Perm.trans (insert_by_id-perm r (by_id rs)) (Perm.cons r (by_id-perm rs))

-- The rows `rows` are the oldest `n` of the pending rows of the table, by id: with the others, `rest`,
-- they are all of them, in order, and they are `n`, or nothing is left.
pub record IsBatch (n : ℕ) (table rows : List OutboxRow) : Type 0 where
  pub rest : List OutboxRow
  pub ordered : IsAscending (rows ++ rest)
  pub all_rows : Perm (rows ++ rest) (rows_where is_pending table)
  pub filled : (length rows ≡ n) ⊎ (rest ≡ [])
  pub short : length rows ≤ n

pub take-IsBatch :
    (n : ℕ) (table : List OutboxRow)
    → IsBatch n table (take n (by_id (rows_where is_pending table)))
take-IsBatch n table = record {
  rest = drop n (by_id found);
  ordered = subst IsAscending (sym (take-drop n (by_id found))) (by_id-IsAscending found);
  all_rows = subst (λ xs. Perm xs found) (sym (take-drop n (by_id found))) (by_id-perm found);
  filled = length-take n (by_id found);
  short = length-take-le n (by_id found);
}
  where
    found : List OutboxRow
    found = rows_where is_pending table
