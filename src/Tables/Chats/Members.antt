-- ===== src/Tables/Chats/Members.antt =====
-- chat_repository.go, GetChatMembers: the members of a chat, each once.
use gomsg.Prelude.{
  Text, Bool, true, false, ◌||◌, List, [], ◌∷◌, ◌≡◌, refl, subst, ◌∙◌, arith, text_eq, text_eq_iff,
  text_eq_comm, any_row, rows_where, if◌then◌else◌, ltb,
}
use gomsg.Result.{Result, ok, fail, ◌>>=◌}
use gomsg.Domain.{ChatMember}
use gomsg.Store.{Db}
use gomsg.Uuid.{cast_uuid}
use gomsg.Tables.Chats.{is_member_row, insert_joined, by_joined, select_members}

-- No user is in the list twice.
abbrev pub HasDistinctMembers : List ChatMember → Type 0
HasDistinctMembers [] = Unit
HasDistinctMembers (m ∷ ms) =
    (any_row (λ x. text_eq m.user_id (ChatMember.user_id x)) ms ≡ false) × HasDistinctMembers ms

-- The primary key of `chat_members`.
abbrev pub HasDistinctKeys : List ChatMember → Type 0
HasDistinctKeys [] = Unit
HasDistinctKeys (m ∷ ms) =
    (any_row (is_member_row m.chat_id m.user_id) ms ≡ false) × HasDistinctKeys ms

abbrev in_chat : Text → ChatMember → Bool
in_chat c m = text_eq (ChatMember.chat_id m) c

no_other :
    (c : Text) (m : ChatMember) (ms : List ChatMember)
    → in_chat c m ≡ true
    → any_row (is_member_row m.chat_id m.user_id) ms ≡ false
    → any_row (λ x. text_eq m.user_id (ChatMember.user_id x)) (rows_where (in_chat c) ms) ≡ false
unfolding any_row rows_where
no_other c m [] e h = refl
no_other c m (x ∷ ms) e h =
    ground (arith, no_other c m ms e, text_eq_iff m.chat_id c, text_eq_comm m.user_id x.user_id)

rows_where-HasDistinctMembers :
    (c : Text) (ms : List ChatMember)
    → HasDistinctKeys ms
    → HasDistinctMembers (rows_where (in_chat c) ms)
unfolding rows_where
rows_where-HasDistinctMembers c [] d = tt
rows_where-HasDistinctMembers c (m ∷ ms) d =
    go (in_chat c m) refl (rows_where-HasDistinctMembers c ms d.1)
  where
    go :
        (b : Bool)
        → in_chat c m ≡ b
        → HasDistinctMembers (rows_where (in_chat c) ms)
        → HasDistinctMembers
            (if b then m ∷ rows_where (in_chat c) ms else rows_where (in_chat c) ms)
    go true e k = (no_other c m ms e d.0, k)
    go false e k = k

any_row-insert_joined :
    (p : ChatMember → Bool) (m : ChatMember) (ms : List ChatMember)
    → any_row p (insert_joined m ms) ≡ (p m || any_row p ms)
unfolding any_row insert_joined
any_row-insert_joined p m [] = refl
any_row-insert_joined p m (x ∷ ms) = ground (arith, any_row-insert_joined p m ms)

any_row-by_joined :
    (p : ChatMember → Bool) (ms : List ChatMember) → any_row p (by_joined ms) ≡ any_row p ms
unfolding by_joined any_row
any_row-by_joined p [] = refl
any_row-by_joined p (m ∷ ms) =
    ground (arith, any_row-insert_joined p m (by_joined ms), any_row-by_joined p ms)

insert_joined-HasDistinctMembers :
    (m : ChatMember) (ms : List ChatMember)
    → any_row (λ x. text_eq m.user_id (ChatMember.user_id x)) ms ≡ false
    → HasDistinctMembers ms
    → HasDistinctMembers (insert_joined m ms)
unfolding insert_joined any_row
insert_joined-HasDistinctMembers m [] h s = (refl, tt)
insert_joined-HasDistinctMembers m (x ∷ ms) h s =
    go (ltb x.joined_at m.joined_at) (insert_joined-HasDistinctMembers m ms (ground arith) s.1)
  where
    go :
        (b : Bool)
        → HasDistinctMembers (insert_joined m ms)
        → HasDistinctMembers (if b then x ∷ insert_joined m ms else m ∷ x ∷ ms)
    go true r = (
      any_row-insert_joined (λ y. text_eq x.user_id (ChatMember.user_id y)) m ms
          ∙ ground (arith, s.0, text_eq_comm m.user_id x.user_id),
      r,
    )
    go false r = (h, s)

by_joined-HasDistinctMembers :
    (ms : List ChatMember) → HasDistinctMembers ms → HasDistinctMembers (by_joined ms)
unfolding by_joined
by_joined-HasDistinctMembers [] s = tt
by_joined-HasDistinctMembers (m ∷ ms) s =
    insert_joined-HasDistinctMembers m (by_joined ms)
      (any_row-by_joined (λ x. text_eq m.user_id (ChatMember.user_id x)) ms ∙ s.0)
      (by_joined-HasDistinctMembers ms s.1)

pub select_members-HasDistinctMembers :
    (chat : Text) (d : Db) (ms : List ChatMember)
    → HasDistinctKeys d.members
    → select_members chat d ≡ ok ms
    → HasDistinctMembers ms
unfolding select_members
select_members-HasDistinctMembers chat d ms h e = go (cast_uuid chat) refl e
  where
    go :
        (r : Result Text)
        → cast_uuid chat ≡ r
        → (do chat_id ← r; ok (by_joined (rows_where (in_chat chat_id) d.members))) ≡ ok ms
        → HasDistinctMembers ms
    go (ok c) ce k = subst HasDistinctMembers (cc) (
        by_joined-HasDistinctMembers (rows_where (in_chat c) d.members)
          (rows_where-HasDistinctMembers c d.members h))
    go (fail x) ce k = absurd (cc)
