-- ===== src/Tables/Messages/Tail.antt =====
-- message_repository.go, GetChatMessages: what stands behind a page of the listing.
use gomsg.Prelude.{
  ℕ, zero, suc, ◌+◌, Bool, true, false, ◌&&◌, List, [], ◌∷◌, ◌++◌, ◌≡◌, refl, ap, sym, subst, arith,
  inl, inr, drop, All, All-map, All-rows_where, take, rows_where, any_row, Bool-cases,
  if◌then◌else◌, text_eq_iff,
}
use gomsg.Domain.{Message}
use gomsg.Tables.Messages.{older, has_id, insert_newest, newest_first}
use gomsg.Tables.Messages.Distinct.{HasDistinctIds, newest_first-HasDistinctIds}
use gomsg.Tables.Messages.Order.{
  IsNewestFirst, All-not_older, newest_first-IsNewestFirst, older_irrefl, older_antisymm,
}

-- Sorting and filtering commute.
insert_newest-first :
    (m : Message) (ms : List Message)
    → All (λ x. older m x ≡ false) ms
    → insert_newest m ms ≡ m ∷ ms
unfolding insert_newest
insert_newest-first m [] h = refl
insert_newest-first m (x ∷ ms) h = ground (arith, h.0)

rows_where-insert_newest :
    (q : Message → Bool) (m : Message) (ms : List Message)
    → IsNewestFirst ms
    → rows_where q (insert_newest m ms)
      ≡ (if q m then insert_newest m (rows_where q ms) else rows_where q ms)
unfolding rows_where insert_newest
rows_where-insert_newest q m [] s = refl
rows_where-insert_newest q m (x ∷ ms) s = elim (Bool-cases (older m x)) [
  | inl e ↦ ground (arith, rows_where-insert_newest q m ms s.1)
  | inr e ↦ ground (
    arith,
    insert_newest-first m (rows_where q ms) (
        All-map (λ y. (older m y ≡ false) × (q y ≡ true)) (λ y. older m y ≡ false) (λ y k. k.0)
          (rows_where q ms)
          (All-rows_where (λ y. older m y ≡ false) q ms (All-not_older m x ms e s.0))),
  )
]

pub newest_first-rows_where :
    (q : Message → Bool) (ms : List Message)
    → newest_first (rows_where q ms) ≡ rows_where q (newest_first ms)
unfolding rows_where newest_first
newest_first-rows_where q [] = refl
newest_first-rows_where q (m ∷ ms) = ground (
  arith,
  newest_first-rows_where q ms,
  rows_where-insert_newest q m (newest_first ms) (newest_first-IsNewestFirst ms),
)

pub rows_where-rows_where :
    (p q : Message → Bool) (ms : List Message)
    → rows_where q (rows_where p ms) ≡ rows_where (λ m. p m && q m) ms
unfolding rows_where
rows_where-rows_where p q [] = refl
rows_where-rows_where p q (m ∷ ms) = ground (arith, rows_where-rows_where p q ms)

take-nil : (k : ℕ) → take {A = Message} k [] ≡ []
take-nil zero = refl
take-nil (suc k) = refl

drop-nil : (k : ℕ) → drop {A = Message} k [] ≡ []
drop-nil zero = refl
drop-nil (suc k) = refl

-- A page and the page behind it are one longer page.
pub take-append-take :
    (n k : ℕ) (xs : List Message) → take n xs ++ take k (drop n xs) ≡ take (n + k) xs
take-append-take zero k xs = ground arith
take-append-take (suc n) k [] = ground (arith, take-nil k, take-nil (suc n + k))
take-append-take (suc n) k (x ∷ xs) =
    subst (λ j. x ∷ (take n xs ++ take k (drop n xs)) ≡ take j (x ∷ xs)) e
      (ap (λ ys. x ∷ ys) (take-append-take n k xs))
  where
    e : suc (n + k) ≡ suc n + k
    e = omega arith

-- Where rows are in order and have distinct ids, those older than the first are all the others.
older_tail :
    (a : Message) (ms : List Message)
    → All (λ x. older a x ≡ false) ms
    → any_row (has_id a.id) ms ≡ false
    → rows_where (λ m. older m a) ms ≡ ms
unfolding rows_where any_row
older_tail a [] h k = refl
older_tail a (x ∷ ms) h k =
    ground (arith, older_antisymm a x h.0, text_eq_iff x.id a.id, older_tail a ms h.1)

All-last :
    (P : Message → Type 0) (n : ℕ) (xs pre : List Message) (a : Message)
    → take n xs ≡ pre ++ a ∷ []
    → All P xs
    → P a
All-last P zero xs [] a e h = absurd (cc)
All-last P zero xs (p ∷ pre) a e h = absurd (cc)
All-last P (suc n) [] [] a e h = absurd (cc)
All-last P (suc n) [] (p ∷ pre) a e h = absurd (cc)
All-last P (suc n) (x ∷ xs) [] a e h = subst P (cc) h.0
All-last P (suc n) (x ∷ xs) (p ∷ pre) a e h = All-last P n xs pre a (cc) h.1

drop-empty_take : (n : ℕ) (xs : List Message) → take n xs ≡ [] → drop n xs ≡ xs
drop-empty_take zero xs e = refl
drop-empty_take (suc n) [] e = refl
drop-empty_take (suc n) (x ∷ xs) e = absurd (cc)

-- The rows older than the last row of a page are those behind the page.
older_rest :
    (n : ℕ) (xs pre : List Message) (a : Message)
    → IsNewestFirst xs
    → HasDistinctIds xs
    → take n xs ≡ pre ++ a ∷ []
    → rows_where (λ m. older m a) xs ≡ drop n xs
unfolding rows_where
older_rest zero xs [] a s d e = absurd (cc)
older_rest zero xs (p ∷ pre) a s d e = absurd (cc)
older_rest (suc n) [] [] a s d e = absurd (cc)
older_rest (suc n) [] (p ∷ pre) a s d e = absurd (cc)
older_rest (suc n) (x ∷ xs) [] a s d e =
    subst (λ y. rows_where (λ m. older m y) (x ∷ xs) ≡ drop n xs) x≡a
      (rw (older_irrefl x, older_tail x xs s.0 d.0, drop-empty_take n xs empty) refl)
  where
    x≡a : x ≡ a
    x≡a = cc

    empty : take n xs ≡ []
    empty = cc
older_rest (suc n) (x ∷ xs) (p ∷ pre) a s d e =
    rw (All-last (λ y. older x y ≡ false) n xs pre a (cc) s.0) (older_rest n xs pre a s.1 d.1 (cc))

-- The page behind the row `a` of a listing of `rows`.
pub page_behind :
    (n k : ℕ) (rows pre : List Message) (a : Message)
    → HasDistinctIds rows
    → take n (newest_first rows) ≡ pre ++ a ∷ []
    → (pre ++ a ∷ []) ++ take k (newest_first (rows_where (λ m. older m a) rows))
      ≡ take (n + k) (newest_first rows)
page_behind n k rows pre a d e =
    rw
      (
        sym e,
        newest_first-rows_where (λ m. older m a) rows,
        older_rest n (newest_first rows) pre a (newest_first-IsNewestFirst rows)
            (newest_first-HasDistinctIds rows d) e,
      )
      (take-append-take n k (newest_first rows))
