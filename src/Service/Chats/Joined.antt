-- ===== src/Service/Chats/Joined.antt =====
-- chat_repository.go: the chats that ListMine lists, and the membership it shows each with.
use gomsg.Prelude.{
  Bool-cases, ◌⊎◌, inl, inr, any_row, any_row-found, rows_where, text_eq, not, ◌&&◌, ◌↔◌, Text,
  Bool, true, false, Option, none, some, List, [], ◌∷◌, map, ◌≡◌, refl, arith, find_row, All,
  if◌then◌else◌,
}
use gomsg.Domain.{Chat, ChatMember}
use gomsg.Store.{Db}
use gomsg.Tables.Chats.{is_member_row}
use gomsg.Tables.Chats.Summaries.{joined_chats}
use gomsg.Tables.Chats.Grown.{find_row-any}

-- A live chat of which the user is a member
abbrev pub IsMine : Text → Db → Chat → Type 0
IsMine user d c =
    (c.is_deleted ≡ false)
    × (any_row (λ m. text_eq (ChatMember.chat_id m) c.id && text_eq m.user_id user) d.members
        ≡ true)

-- A chat and the membership of the user in it
abbrev pub IsJoined : Text → Db → Chat × ChatMember → Type 0
IsJoined user d p =
    find_row (λ m. text_eq (ChatMember.chat_id m) (Chat.id p.0) && text_eq m.user_id user) d.members
    ≡ some p.1

pub joined_chats-IsJoined :
    (user : Text) (d : Db) (cs : List Chat) → All (IsJoined user d) (joined_chats user d.members cs)
unfolding joined_chats
joined_chats-IsJoined user d [] = tt
joined_chats-IsJoined user d (c ∷ cs) =
    go c.is_deleted (find_row (is_member_row c.id user) d.members) refl
      (joined_chats-IsJoined user d cs)
  where
    go :
        (b : Bool) (o : Option ChatMember)
        → find_row (is_member_row c.id user) d.members ≡ o
        → All (IsJoined user d) (joined_chats user d.members cs)
        → All (IsJoined user d) (
            if b then joined_chats user d.members cs else elim o [
              | none ↦ joined_chats user d.members cs
              | some m ↦ (c, m) ∷ joined_chats user d.members cs
            ])
    go true o f r = r
    go false none f r = r
    go false (some m) f r = (f, r)

abbrev pub is_mine : Text → List ChatMember → Chat → Bool
is_mine user ms c = not c.is_deleted && any_row (is_member_row c.id user) ms

pub is_mine_iff :
    (user : Text) (d : Db) (c : Chat) → (is_mine user d.members c ≡ true) ↔ IsMine user d c
is_mine_iff user d c = (λ h. (ground arith, ground arith), λ h. ground (arith, h.0, h.1))

pub joined_chats-rows :
    (user : Text) (ms : List ChatMember) (cs : List Chat)
    → map (λ p. p.0) (joined_chats user ms cs) ≡ rows_where (is_mine user ms) cs
unfolding joined_chats rows_where
joined_chats-rows user ms [] = refl
joined_chats-rows user ms (c ∷ cs) =
    go (find_row (is_member_row c.id user) ms) refl
      (Bool-cases (any_row (is_member_row c.id user) ms)) (joined_chats-rows user ms cs)
  where
    go :
        (o : Option ChatMember)
        → find_row (is_member_row c.id user) ms ≡ o
        → (any_row (is_member_row c.id user) ms ≡ true)
          ⊎ (any_row (is_member_row c.id user) ms ≡ false)
        → map (λ p. p.0) (joined_chats user ms cs) ≡ rows_where (is_mine user ms) cs
        → map (λ p. p.0) (joined_chats user ms (c ∷ cs)) ≡ rows_where (is_mine user ms) (c ∷ cs)
    go (some m) f (inl a) h = ground (arith, f, a, h)
    go none f (inr a) h = ground (arith, f, a, h)
    go (some m) f (inr a) h = let k = find_row-any (is_member_row c.id user) ms m f in absurd (cc)
    go none f (inl a) h = let (x, k) = any_row-found (is_member_row c.id user) ms a in absurd (cc)
