-- ===== src/Tables/Chats/Added.antt =====
-- chat_repository.go: what the statements that insert into `chat_members` add.
use gomsg.Prelude.{
  ℕ, Text, Bool, true, false, List, [], ◌∷◌, ◌≡◌, refl, sym, subst, arith, text_eq_refl, to_lower,
  to_lower-to_lower, any_row, All, if◌then◌else◌,
}
use gomsg.Result.{Result, ok, fail}
use gomsg.Domain.{ChatMember, Role, AddChatMember}
use gomsg.Store.{Db}
use gomsg.Uuid.{cast_uuid}
use gomsg.Tables.Messages.{cast_reply}
use gomsg.Tables.Chats.{is_member_row}
use gomsg.Tables.Chats.Members.{HasDistinctKeys}
use gomsg.Tables.Chats.Keys.{HasSoundChats, IsPlaced}
use gomsg.Tables.Chats.Creation.{
  insert_member, insert_members, cast_adds, added_members, adds_exist, new_member,
}

-- The user ids are spelled as PostgreSQL prints them.
abbrev pub ArePrinted : List AddChatMember → Type 0
ArePrinted = All (λ a. to_lower (AddChatMember.user_id a) ≡ AddChatMember.user_id a)

pub cast_adds-ArePrinted :
    (adds rows : List AddChatMember) → cast_adds adds ≡ ok rows → ArePrinted rows
unfolding cast_adds cast_uuid
cast_adds-ArePrinted [] rows e =
    let none_left : [] ≡ rows = ground arith in subst ArePrinted none_left tt
cast_adds-ArePrinted (a ∷ adds) rows e = go (cast_adds adds) refl (cast_adds-ArePrinted adds) e
  where
    go :
        (r : Result (List AddChatMember))
        → cast_adds adds ≡ r
        → ((rest : List AddChatMember) → cast_adds adds ≡ ok rest → ArePrinted rest)
        → cast_adds (a ∷ adds) ≡ ok rows
        → ArePrinted rows
    go (ok rest) c ih h =
        let e1 : rows ≡ record a { user_id = to_lower a.user_id } ∷ rest = ground arith in
        subst ArePrinted (sym e1) (to_lower-to_lower a.user_id, ih rest c)
    go (fail x) c ih h = absurd (ground arith)

-- Every row of the first list is in the second.
abbrev pub Within : List ChatMember → List ChatMember → Type 0
Within ms ns = (p : ChatMember → Bool) → any_row p ms ≡ true → any_row p ns ≡ true

pub record MembersKept (chat_id : Text) (d : Db) (ms : List ChatMember) : Type 0 where
  pub keys : HasDistinctKeys ms
  pub placed : All (IsPlaced d.chats d.users) ms
  pub within : Within d.members ms

module _ (chat_id : Text) (printed : to_lower chat_id ≡ chat_id) (now : ℕ) (d : Db) where
  add_one :
      (a : AddChatMember) (ms : List ChatMember)
      → to_lower a.user_id ≡ a.user_id
      → adds_exist chat_id (a ∷ []) d ≡ true
      → MembersKept chat_id d ms
      → any_row (is_member_row chat_id a.user_id) ms ≡ false
      → MembersKept chat_id d (new_member chat_id a.user_id a.role now ∷ ms)
  unfolding adds_exist any_row
  add_one a ms p x k new = record {
    keys = (new, k.keys);
    placed = (
      record {
        chat_printed = printed;
        user_printed = p;
        in_chat = ground (arith, k.within (is_member_row chat_id a.user_id));
        of_user = ground (arith, k.within (is_member_row chat_id a.user_id));
      },
      k.placed,
    );
    within = λ q h. ground (arith, k.within q h);
  }

  pub added_members-MembersKept :
      (adds : List AddChatMember) (ms : List ChatMember)
      → ArePrinted adds
      → adds_exist chat_id adds d ≡ true
      → MembersKept chat_id d ms
      → MembersKept chat_id d (added_members chat_id now adds ms)
  unfolding added_members
  added_members-MembersKept [] ms p x k = k
  added_members-MembersKept (a ∷ adds) ms p x k =
      added_members-MembersKept adds _ p.1 (rest a x)
        (go (any_row (is_member_row chat_id a.user_id) ms) refl)
    where
      rest :
          (a : AddChatMember)
          → adds_exist chat_id (a ∷ adds) d ≡ true
          → adds_exist chat_id adds d ≡ true
      rest a x = unfold adds_exist in ground arith

      go :
          (b : Bool)
          → any_row (is_member_row chat_id a.user_id) ms ≡ b
          → MembersKept chat_id d (if b then ms else new_member chat_id a.user_id a.role now ∷ ms)
      go true e = k
      go false e = add_one a ms p.0 (unfold adds_exist in ground arith) k e

-- The statement with ON CONFLICT DO NOTHING keeps the rows that were there and the keys.
pub insert_members-HasSoundChats :
    (chat : Text) (adds : List AddChatMember) (now : ℕ) (d : Db) (u : Unit {0}) (d' : Db)
    → HasSoundChats d
    → insert_members chat adds now d ≡ ok (u, d')
    → HasSoundChats d'
unfolding insert_members cast_uuid
insert_members-HasSoundChats chat adds now d u d' s e = go (cast_adds adds) refl e
  where
    go :
        (r : Result (List AddChatMember))
        → cast_adds adds ≡ r
        → insert_members chat adds now d ≡ ok (u, d')
        → HasSoundChats d'
    go (fail x) c h = absurd (ground arith)
    go (ok rows) c h =
        let x : adds_exist (to_lower chat) rows d ≡ true = ground arith in
        let eq : d' ≡ record d { members = added_members (to_lower chat) now rows d.members } =
          ground arith in
        let k =
          added_members-MembersKept (to_lower chat) (to_lower-to_lower chat) now d rows d.members
            (cast_adds-ArePrinted adds rows c) x
            (record { keys = s.members; placed = s.placed; within = λ p t. t }) in
        subst HasSoundChats (sym eq)
          (record { chats = s.chats; members = k.keys; placed = k.placed })

pub insert_member-HasSoundChats :
    (now : ℕ) (m : ChatMember) (d : Db) (row : ChatMember) (d' : Db)
    → HasSoundChats d
    → insert_member now m d ≡ ok (row, d')
    → HasSoundChats d'
unfolding insert_member cast_reply cast_uuid
insert_member-HasSoundChats now m d row d' s e =
    let eq : d' ≡ record d { members = row ∷ d.members } = ground arith in
    let new : any_row (is_member_row row.chat_id row.user_id) d.members ≡ false = ground arith in
    subst HasSoundChats (sym eq) (record {
      chats = s.chats;
      members = (new, s.members);
      placed = (
        record {
          chat_printed = ground (arith, to_lower-to_lower m.chat_id);
          user_printed = ground (arith, to_lower-to_lower m.user_id);
          in_chat = ground arith;
          of_user = ground arith;
        },
        s.placed,
      );
    })

is_member_row_refl :
    (c u : Text) (r : Role) (now : ℕ) → is_member_row c u (new_member c u r now) ≡ true
is_member_row_refl c u r now = ground (arith, text_eq_refl c, text_eq_refl u)

module _ (c : Text) (now : ℕ) where
  -- The rows before a step of the statement
  abbrev pub step : AddChatMember → List ChatMember → List ChatMember
  step a ms =
      if any_row (is_member_row c a.user_id) ms then ms else new_member c a.user_id a.role now ∷ ms

  step-Within : (a : AddChatMember) (ms : List ChatMember) → Within ms (step a ms)
  step-Within a ms p h = unfold any_row in ground (arith, h)

  step-has :
      (a : AddChatMember) (ms : List ChatMember)
      → any_row (is_member_row c a.user_id) (step a ms) ≡ true
  step-has a ms = unfold any_row in ground (arith, is_member_row_refl c a.user_id a.role now)

  pub added_members-Within :
      (adds : List AddChatMember) (ms : List ChatMember) → Within ms (added_members c now adds ms)
  unfolding added_members
  added_members-Within [] ms p h = h
  added_members-Within (a ∷ adds) ms p h =
      added_members-Within adds (step a ms) p (step-Within a ms p h)

  -- Each user that was to be added is a member.
  pub added_members-has :
      (adds : List AddChatMember) (ms : List ChatMember)
      → All
          (λ a.
            any_row (is_member_row c (AddChatMember.user_id a)) (added_members c now adds ms)
            ≡ true)
          adds
  unfolding added_members
  added_members-has [] ms = tt
  added_members-has (a ∷ adds) ms = (
    added_members-Within adds (step a ms) (is_member_row c a.user_id) (step-has a ms),
    added_members-has adds (step a ms),
  )
