-- ===== src/Tables/Messages/Distinct.antt =====
-- message_repository.go, GetChatMessages: the listing keeps the ids of the messages distinct.
use gomsg.Prelude.{
  find_row, text_eq_comm, text_eq_refl, ℕ, zero, suc, Bool, true, false, ◌&&◌, ◌||◌, some, List, [],
  ◌∷◌, ◌++◌, ◌≡◌, refl, ap, sym, subst, ◌∙◌, arith, ◌⊎◌, inl, inr, take, rows_where, any_row,
  if◌then◌else◌,
}
use gomsg.Domain.{Message}
use gomsg.Tables.Messages.{older, has_id, insert_newest, newest_first}

-- No two messages have one id.
abbrev pub HasDistinctIds : List Message → Type 0
HasDistinctIds [] = Unit
HasDistinctIds (m ∷ ms) = (any_row (has_id m.id) ms ≡ false) × HasDistinctIds ms

any_row-rows_where :
    (p q : Message → Bool) (ms : List Message)
    → any_row p ms ≡ false
    → any_row p (rows_where q ms) ≡ false
unfolding any_row rows_where
any_row-rows_where p q [] h = refl
any_row-rows_where p q (m ∷ ms) h = ground (arith, any_row-rows_where p q ms)

pub rows_where-HasDistinctIds :
    (q : Message → Bool) (ms : List Message) → HasDistinctIds ms → HasDistinctIds (rows_where q ms)
unfolding rows_where
rows_where-HasDistinctIds q [] h = tt
rows_where-HasDistinctIds q (m ∷ ms) h = go (q m) (rows_where-HasDistinctIds q ms h.1)
  where
    go :
        (b : Bool)
        → HasDistinctIds (rows_where q ms)
        → HasDistinctIds (if b then m ∷ rows_where q ms else rows_where q ms)
    go true r = (any_row-rows_where (has_id m.id) q ms h.0, r)
    go false r = r

any_row-insert_newest :
    (p : Message → Bool) (m : Message) (ms : List Message)
    → any_row p (insert_newest m ms) ≡ (p m || any_row p ms)
unfolding any_row insert_newest
any_row-insert_newest p m [] = refl
any_row-insert_newest p m (x ∷ ms) = ground (arith, any_row-insert_newest p m ms)

any_row-newest_first :
    (p : Message → Bool) (ms : List Message) → any_row p (newest_first ms) ≡ any_row p ms
unfolding newest_first any_row
any_row-newest_first p [] = refl
any_row-newest_first p (m ∷ ms) =
    ground (arith, any_row-insert_newest p m (newest_first ms), any_row-newest_first p ms)

insert_newest-HasDistinctIds :
    (m : Message) (ms : List Message)
    → any_row (has_id m.id) ms ≡ false
    → HasDistinctIds ms
    → HasDistinctIds (insert_newest m ms)
unfolding insert_newest any_row
insert_newest-HasDistinctIds m [] h s = (refl, tt)
insert_newest-HasDistinctIds m (x ∷ ms) h s =
    go (older m x) (insert_newest-HasDistinctIds m ms (ground arith) s.1)
  where
    go :
        (b : Bool)
        → HasDistinctIds (insert_newest m ms)
        → HasDistinctIds (if b then x ∷ insert_newest m ms else m ∷ x ∷ ms)
    go true r =
        (any_row-insert_newest (has_id x.id) m ms ∙ ground (arith, s.0, text_eq_comm m.id x.id), r)
    go false r = (h, s)

pub newest_first-HasDistinctIds :
    (ms : List Message) → HasDistinctIds ms → HasDistinctIds (newest_first ms)
unfolding newest_first
newest_first-HasDistinctIds [] s = tt
newest_first-HasDistinctIds (m ∷ ms) s =
    insert_newest-HasDistinctIds m (newest_first ms) (any_row-newest_first (has_id m.id) ms ∙ s.0)
      (newest_first-HasDistinctIds ms s.1)

-- `a` is one of the rows.
abbrev pub In : Message → List Message → Type 0
In a [] = ⊥
In a (x ∷ xs) = (a ≡ x) ⊎ In a xs

pub In-take : (n : ℕ) (a : Message) (xs : List Message) → In a (take n xs) → In a xs
In-take zero a xs h = absurd h
In-take (suc n) a [] h = h
In-take (suc n) a (x ∷ xs) (inl e) = inl e
In-take (suc n) a (x ∷ xs) (inr h) = inr (In-take n a xs h)

pub In-append : (a : Message) (pre : List Message) → In a (pre ++ a ∷ [])
In-append a [] = inl refl
In-append a (x ∷ pre) = inr (In-append a pre)

In-insert_newest : (a m : Message) (ms : List Message) → In a (insert_newest m ms) → In a (m ∷ ms)
unfolding insert_newest
In-insert_newest a m [] h = h
In-insert_newest a m (x ∷ ms) h = go (older m x) (In-insert_newest a m ms) h
  where
    go :
        (b : Bool)
        → (In a (insert_newest m ms) → In a (m ∷ ms))
        → In a (if b then x ∷ insert_newest m ms else m ∷ x ∷ ms)
        → In a (m ∷ x ∷ ms)
    go true r (inl e) = inr (inl e)
    go true r (inr k) = swap (r k)
      where
        swap : In a (m ∷ ms) → In a (m ∷ x ∷ ms)
        swap (inl e) = inl e
        swap (inr j) = inr (inr j)
    go false r k = k

pub In-newest_first : (a : Message) (ms : List Message) → In a (newest_first ms) → In a ms
unfolding newest_first
In-newest_first a [] h = h
In-newest_first a (m ∷ ms) h = go (In-insert_newest a m (newest_first ms) h) (In-newest_first a ms)
  where
    go : In a (m ∷ newest_first ms) → (In a (newest_first ms) → In a ms) → In a (m ∷ ms)
    go (inl e) r = inl e
    go (inr k) r = inr (r k)

pub In-rows_where :
    (q : Message → Bool) (a : Message) (ms : List Message)
    → In a (rows_where q ms)
    → In a ms × (q a ≡ true)
unfolding rows_where
In-rows_where q a [] h = absurd h
In-rows_where q a (m ∷ ms) h = go (q m) refl (In-rows_where q a ms) h
  where
    go :
        (b : Bool)
        → q m ≡ b
        → (In a (rows_where q ms) → In a ms × (q a ≡ true))
        → In a (if b then m ∷ rows_where q ms else rows_where q ms)
        → In a (m ∷ ms) × (q a ≡ true)
    go true e r (inl k) = (inl k, ap q k ∙ e)
    go true e r (inr k) = (inr (r k).0, (r k).1)
    go false e r k = (inr (r k).0, (r k).1)

In-any_row :
    (p : Message → Bool) (a : Message) (ms : List Message)
    → In a ms
    → any_row p ms ≡ false
    → p a ≡ false
unfolding any_row
In-any_row p a [] h k = absurd h
In-any_row p a (x ∷ ms) (inl e) k = subst (λ y. p y ≡ false) (sym e) (ground arith)
In-any_row p a (x ∷ ms) (inr h) k = In-any_row p a ms h (ground arith)

-- Among rows with distinct ids, a row is found by its id.
pub In-find_row :
    (q : Message → Bool) (a : Message) (ms : List Message)
    → In a ms
    → HasDistinctIds ms
    → q a ≡ true
    → find_row (λ m. has_id a.id m && q m) ms ≡ some a
unfolding find_row
In-find_row q a [] h s k = absurd h
In-find_row q a (x ∷ ms) (inl e) s k =
    subst (λ y. find_row (λ m. has_id a.id m && q m) (y ∷ ms) ≡ some a) e
      (rw (text_eq_refl a.id, k) refl)
In-find_row q a (x ∷ ms) (inr h) s k =
    rw (text_eq_comm x.id a.id, In-any_row (has_id x.id) a ms h s.0) (In-find_row q a ms h s.1 k)
