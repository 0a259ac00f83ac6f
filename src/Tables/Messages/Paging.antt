-- ===== src/Tables/Messages/Paging.antt =====
-- message_repository.go, GetChatMessages: pages by the cursor `before_id`.
use gomsg.Prelude.{
  ℕ, ◌+◌, Text, true, false, ◌&&◌, Option, none, some, List, [], ◌∷◌, ◌++◌, ◌≡◌, refl, ap, sym,
  subst, ◌∙◌, arith, to_lower, find_row, take, rows_where, text_eq,
}
use mathlib.Core.Path.{fun_ext}
use gomsg.Result.{Result, ok, fail, ◌>>=◌}
use gomsg.Store.{Db}
use gomsg.Uuid.{cast_uuid}
use gomsg.Domain.{Message}
use gomsg.Tables.Messages.{
  older, has_id, newest_first, listed, cast_cursor, before_cursor, select_chat_messages,
}
use gomsg.Tables.Messages.Distinct.{
  HasDistinctIds, rows_where-HasDistinctIds, In, In-take, In-append, In-newest_first, In-rows_where,
  In-find_row,
}
use gomsg.Tables.Messages.Tail.{rows_where-rows_where, page_behind}

anchored :
    (c : Text) (a m : Message) (ms : List Message)
    → find_row (λ x. has_id a.id x && text_eq (Message.chat_id x) c) ms ≡ some a
    → before_cursor (some a.id) none c ms m ≡ older m a
unfolding before_cursor
anchored c a m ms e =
    subst (λ o. elim o [ none ↦ false | some b ↦ older m b ] ≡ older m a) (sym e) refl

cursor_rows :
    (c : Text) (a : Message) (ms : List Message)
    → find_row (λ x. has_id a.id x && text_eq (Message.chat_id x) c) ms ≡ some a
    → rows_where (listed c (some a.id) none ms) ms
      ≡ rows_where (λ m. older m a) (rows_where (listed c none none ms) ms)
unfolding before_cursor
cursor_rows c a ms e =
    ap (λ f. rows_where f ms) (fun_ext λ m. ground (arith, anchored c a m ms e))
    ∙ sym (rows_where-rows_where (listed c none none ms) (λ m. older m a) ms)

-- A row of a listing is the row of its id in its chat.
listed_row :
    (n : ℕ) (c : Text) (d : Db) (pre : List Message) (a : Message)
    → HasDistinctIds d.messages
    → take n (newest_first (rows_where (listed c none none d.messages) d.messages)) ≡ pre ++ a ∷ []
    → find_row (λ x. has_id a.id x && text_eq (Message.chat_id x) c) d.messages ≡ some a
unfolding before_cursor
listed_row n c d pre a h e =
    In-find_row (λ x. text_eq (Message.chat_id x) c) a d.messages found.0 h
      (ground (arith, found.1))
  where
    found : In a d.messages × (listed c none none d.messages a ≡ true)
    found =
        In-rows_where (listed c none none d.messages) a d.messages
          (In-newest_first a _ (In-take n a _ (subst (In a) (sym e) (In-append a pre))))

-- What the listing returns, where it returns.
pub record IsPage (chat : Text) (before : Option Text) (t : Option ℕ) (n : ℕ) (d : Db)
    (rows : List Message) : Type 0 where
  pub chat_id : Text
  pub before_id : Option Text
  pub chat_ok : cast_uuid chat ≡ ok chat_id
  pub before_ok : cast_cursor before ≡ ok before_id
  pub rows_eq :
      rows ≡ take n (newest_first (rows_where (listed chat_id before_id t d.messages) d.messages))

pub select_chat_messages-IsPage :
    (chat : Text) (before : Option Text) (t : Option ℕ) (n : ℕ) (d : Db) (rows : List Message)
    → select_chat_messages chat before t n d ≡ ok rows
    → IsPage chat before t n d rows
unfolding select_chat_messages
select_chat_messages-IsPage chat before t n d rows e =
    go (cast_uuid chat) (cast_cursor before) refl refl e
  where
    go :
        (c : Result Text) (b : Result (Option Text))
        → cast_uuid chat ≡ c
        → cast_cursor before ≡ b
        → (do
          chat_id ← c
          before_id ← b
          ok (
              take n
                (newest_first (rows_where (listed chat_id before_id t d.messages) d.messages))))
          ≡ ok rows
        → IsPage chat before t n d rows
    go (ok c) (ok b) ce be re = record {
      chat_id = c;
      before_id = b;
      chat_ok = ce;
      before_ok = be;
      rows_eq = cc;
    }
    go (ok c) (fail x) ce be re = absurd (cc)
    go (fail x) b ce be re = absurd (cc)

abbrev page : ℕ → Text → Option Text → List Message → List Message
page n c before ms = take n (newest_first (rows_where (listed c before none ms) ms))

cast_cursor-eq :
    (raw : Text) (b : Option Text) → cast_cursor (some raw) ≡ ok b → some (to_lower raw) ≡ b
unfolding cast_uuid
cast_cursor-eq raw b e = ground arith

cast_uuid_unique : (raw s t : Text) → cast_uuid raw ≡ ok s → cast_uuid raw ≡ ok t → s ≡ t
cast_uuid_unique raw s t e f = cc

pages-append :
    (n k : ℕ) (c : Text) (d : Db) (pre : List Message) (a : Message)
    → HasDistinctIds d.messages
    → pre ++ a ∷ [] ≡ page n c none d.messages
    → (pre ++ a ∷ []) ++ page k c (some a.id) d.messages ≡ page (n + k) c none d.messages
pages-append n k c d pre a h e =
    ap (λ r. (pre ++ a ∷ []) ++ take k (newest_first r))
      (cursor_rows c a d.messages (listed_row n c d pre a h (sym e)))
    ∙ page_behind n k (rows_where (listed c none none d.messages) d.messages) pre a
        (rows_where-HasDistinctIds (listed c none none d.messages) d.messages h) (sym e)

-- Where message ids are distinct and `a` has its id as PostgreSQL prints it: if a first page of `n`
-- rows ends with `a`, then with the page of `k` rows before `a` it is the first `n + k` rows of the
-- chat, in order, none twice and none left out.
pub select_chat_messages-append :
    (n k : ℕ) (chat : Text) (d : Db) (pre next : List Message) (a : Message)
    → HasDistinctIds d.messages
    → to_lower a.id ≡ a.id
    → select_chat_messages chat none none n d ≡ ok (pre ++ a ∷ [])
    → select_chat_messages chat (some a.id) none k d ≡ ok next
    → select_chat_messages chat none none (n + k) d ≡ ok ((pre ++ a ∷ []) ++ next)
unfolding select_chat_messages
select_chat_messages-append n k chat d pre next a h printed first second = rw p1.chat_ok (
    ap ok (
      sym (pages-append n k p1.chat_id d pre a h first_eq)
      ∙ ap (λ r. (pre ++ a ∷ []) ++ r) (sym second_eq)))
  where
    p1 : IsPage chat none none n d (pre ++ a ∷ [])
    p1 = select_chat_messages-IsPage chat none none n d _ first

    p2 : IsPage chat (some a.id) none k d next
    p2 = select_chat_messages-IsPage chat (some a.id) none k d _ second

    first_eq : pre ++ a ∷ [] ≡ page n p1.chat_id none d.messages
    first_eq =
        subst (λ b. pre ++ a ∷ [] ≡ page n p1.chat_id b d.messages) (cc (p1.before_ok)) p1.rows_eq

    second_eq : next ≡ page k p1.chat_id (some a.id) d.messages
    second_eq =
        p2.rows_eq
        ∙ ap (λ c. page k c p2.before_id d.messages)
            (cast_uuid_unique chat p2.chat_id p1.chat_id p2.chat_ok p1.chat_ok)
        ∙ ap (λ b. page k p1.chat_id b d.messages)
            (sym (cast_cursor-eq a.id p2.before_id p2.before_ok) ∙ ap some printed)
