-- ===== src/Tables/Chats/Grown.antt =====
-- What an insertion of memberships adds, and that it keeps the others as they were.
use gomsg.Prelude.{
  ℕ, Text, Bool, true, false, some, List, [], ◌∷◌, ◌≡◌, refl, sym, subst, arith, text_eq_iff,
  to_lower, any_row, find_row, All, All-map, Any, ◌⊎◌, inl, inr, if◌then◌else◌,
}
use gomsg.Result.{Result, ok, fail}
use gomsg.Domain.{ChatMember, AddChatMember}
use gomsg.Store.{Db}
use gomsg.Uuid.{cast_uuid}
use gomsg.Tables.Messages.{cast_reply}
use gomsg.Tables.Chats.{is_member_row}
use gomsg.Tables.Chats.Creation.{
  insert_member, insert_members, cast_adds, added_members, new_member,
}
use gomsg.Tables.Chats.Added.{Within, step, added_members-Within, added_members-has}

-- The row of each membership that was there is as it was.
abbrev pub Unchanged : List ChatMember → List ChatMember → Type 0
Unchanged ms ns =
    (c u : Text) (m : ChatMember)
    → find_row (is_member_row c u) ms ≡ some m
    → find_row (is_member_row c u) ns ≡ some m

pub find_row-any :
    (p : ChatMember → Bool) (ms : List ChatMember) (m : ChatMember)
    → find_row p ms ≡ some m
    → any_row p ms ≡ true
unfolding find_row any_row
find_row-any p [] m h = absurd (cc)
find_row-any p (x ∷ ms) m h = ground (arith, find_row-any p ms m)

-- A row with a new key hides none.
pub Unchanged-new :
    (new : ChatMember) (ms : List ChatMember)
    → any_row (is_member_row new.chat_id new.user_id) ms ≡ false
    → Unchanged ms (new ∷ ms)
unfolding find_row
Unchanged-new new ms e c u m h = ground (
  arith,
  h,
  text_eq_iff new.chat_id c,
  text_eq_iff new.user_id u,
  find_row-any (is_member_row c u) ms m h,
)

module _ (c : Text) (now : ℕ) where
  added_members-Unchanged :
      (adds : List AddChatMember) (ms : List ChatMember)
      → Unchanged ms (added_members c now adds ms)
  unfolding added_members
  added_members-Unchanged [] ms x u m h = h
  added_members-Unchanged (a ∷ adds) ms x u m h =
      added_members-Unchanged adds (step c now a ms) x u m
        (go (any_row (is_member_row c a.user_id) ms) refl)
    where
      go :
          (b : Bool)
          → any_row (is_member_row c a.user_id) ms ≡ b
          → find_row (is_member_row x u) (if b then ms else new_member c a.user_id a.role now ∷ ms)
            ≡ some m
      go true e = h
      go false e = Unchanged-new (new_member c a.user_id a.role now) ms e x u m h

  added_members-All :
      (P : ChatMember → Type 0) (adds : List AddChatMember) (ms : List ChatMember)
      → All P ms
      → All (λ a. P (new_member c (AddChatMember.user_id a) a.role now)) adds
      → All P (added_members c now adds ms)
  unfolding added_members
  added_members-All P [] ms h k = h
  added_members-All P (a ∷ adds) ms h k =
      added_members-All P adds (step c now a ms) (go (any_row (is_member_row c a.user_id) ms)) k.1
    where
      go : (b : Bool) → All P (if b then ms else new_member c a.user_id a.role now ∷ ms)
      go true = h
      go false = (k.0, h)

-- A row that was there
abbrev pub IsOld : List ChatMember → ChatMember → Type 0
IsOld ms m = (p : ChatMember → Bool) → p m ≡ true → any_row p ms ≡ true

all-IsOld : (ms : List ChatMember) → All (IsOld ms) ms
unfolding any_row
all-IsOld [] = tt
all-IsOld (m ∷ ms) =
    (λ p h. ground (arith, h), All-map _ _ (λ x old p h. ground (arith, old p h)) ms (all-IsOld ms))

-- A membership of the chat, of one of the users that were to be added and with the role asked for him
abbrev pub IsAdded : Text → List AddChatMember → ChatMember → Type 0
IsAdded chat adds m =
    (m.chat_id ≡ to_lower chat)
    × Any (λ a. (m.user_id ≡ to_lower (AddChatMember.user_id a)) × (m.role ≡ a.role)) adds

abbrev pub is_member : Text → Text → Db → Bool
is_member chat user d = any_row (is_member_row (to_lower chat) (to_lower user)) d.members

-- What a successful statement has done: the chats are as they were, the memberships that were there
-- are as they were, each user that was to be added is a member, and no other membership is new.
pub record Grown (chat : Text) (adds : List AddChatMember) (d d' : Db) : Type 0 where
  pub chats : d'.chats ≡ d.chats
  pub within : Within d.members d'.members
  pub same : Unchanged d.members d'.members
  pub has : All (λ a. is_member chat (AddChatMember.user_id a) d' ≡ true) adds
  pub only : All (λ m. IsOld d.members m ⊎ IsAdded chat adds m) d'.members

-- The row for a user that was to be added, whose id is spelled as PostgreSQL prints it
abbrev pub IsRowOf : AddChatMember → AddChatMember → Type 0
IsRowOf r a = (r.user_id ≡ to_lower a.user_id) × (r.role ≡ a.role)

-- Each row that is stored comes from one that was asked for.
cast_adds-Any :
    (adds rows : List AddChatMember)
    → cast_adds adds ≡ ok rows
    → All (λ r. Any (IsRowOf r) adds) rows
unfolding cast_adds cast_uuid
cast_adds-Any [] rows e =
    let none_left : [] ≡ rows = ground arith in subst (All (λ r. Any (IsRowOf r) [])) none_left tt
cast_adds-Any (a ∷ adds) rows e = go (cast_adds adds) refl (cast_adds-Any adds) e
  where
    go :
        (r : Result (List AddChatMember))
        → cast_adds adds ≡ r
        → ((rest : List AddChatMember)
            → cast_adds adds ≡ ok rest
            → All (λ r. Any (IsRowOf r) adds) rest)
        → cast_adds (a ∷ adds) ≡ ok rows
        → All (λ r. Any (IsRowOf r) (a ∷ adds)) rows
    go (ok rest) c ih k =
        let eq : rows ≡ record a { user_id = to_lower a.user_id } ∷ rest = ground arith in
        subst (All (λ r. Any (IsRowOf r) (a ∷ adds))) (sym eq)
          (inl (refl, refl), All-map _ _ (λ x h. inr h) rest (ih rest c))
    go (fail x) c ih k = absurd (ground arith)

cast_adds-lower :
    (adds rows : List AddChatMember) (P : Text → Type 0)
    → cast_adds adds ≡ ok rows
    → All (λ a. P (AddChatMember.user_id a)) rows
    → All (λ a. P (to_lower (AddChatMember.user_id a))) adds
unfolding cast_adds cast_uuid
cast_adds-lower [] rows P e h = tt
cast_adds-lower (a ∷ adds) rows P e h =
    go (cast_adds adds) refl (λ rest. cast_adds-lower adds rest P) e
  where
    go :
        (r : Result (List AddChatMember))
        → cast_adds adds ≡ r
        → ((rest : List AddChatMember)
            → cast_adds adds ≡ ok rest
            → All (λ a. P (AddChatMember.user_id a)) rest
            → All (λ a. P (to_lower (AddChatMember.user_id a))) adds)
        → cast_adds (a ∷ adds) ≡ ok rows
        → P (to_lower a.user_id) × All (λ a. P (to_lower (AddChatMember.user_id a))) adds
    go (ok rest) c ih k =
        let eq : rows ≡ record a { user_id = to_lower a.user_id } ∷ rest = ground arith in
        let all = subst (All (λ x. P (AddChatMember.user_id x))) eq h in (all.0, ih rest c all.1)
    go (fail x) c ih k = absurd (ground arith)

pub insert_members-Grown :
    (chat : Text) (adds : List AddChatMember) (now : ℕ) (d : Db) (u : Unit {0}) (d' : Db)
    → insert_members chat adds now d ≡ ok (u, d')
    → Grown chat adds d d'
unfolding insert_members cast_uuid
insert_members-Grown chat adds now d u d' e = go (cast_adds adds) refl e
  where
    go :
        (r : Result (List AddChatMember))
        → cast_adds adds ≡ r
        → insert_members chat adds now d ≡ ok (u, d')
        → Grown chat adds d d'
    go (fail x) c h = absurd (ground arith)
    go (ok rows) c h =
        let eq : d' ≡ record d { members = added_members (to_lower chat) now rows d.members } =
          ground arith in
        subst (Grown chat adds d) (sym eq) (record {
          chats = refl;
          within = added_members-Within (to_lower chat) now rows d.members;
          same = added_members-Unchanged (to_lower chat) now rows d.members;
          has =
              cast_adds-lower adds rows
                (λ x.
                  any_row (is_member_row (to_lower chat) x)
                    (added_members (to_lower chat) now rows d.members)
                  ≡ true)
                c (added_members-has (to_lower chat) now rows d.members);
          only =
              added_members-All (to_lower chat) now (λ m. IsOld d.members m ⊎ IsAdded chat adds m)
                rows d.members (All-map _ _ (λ m h. inl h) d.members (all-IsOld d.members))
                (All-map _ _ (λ r h. inr (refl, h)) rows (cast_adds-Any adds rows c));
        })

-- The row that a plain insert stores
pub record InsertedMember (now : ℕ) (m : ChatMember) (d : Db) (row : ChatMember) (d' : Db)
    : Type 0 where
  pub chat_id : row.chat_id ≡ to_lower m.chat_id
  pub user_id : row.user_id ≡ to_lower m.user_id
  pub role : row.role ≡ m.role
  pub joined_at : row.joined_at ≡ now
  pub new : any_row (is_member_row row.chat_id row.user_id) d.members ≡ false
  pub stored : d' ≡ record d { members = row ∷ d.members }

pub insert_member-InsertedMember :
    (now : ℕ) (m : ChatMember) (d : Db) (row : ChatMember) (d' : Db)
    → insert_member now m d ≡ ok (row, d')
    → InsertedMember now m d row d'
unfolding insert_member cast_reply cast_uuid
insert_member-InsertedMember now m d row d' e = ground arith
