-- ===== src/Service/Chats/Groups.antt =====
-- chat_service.go, CreateGroup: the group, its owner and its members.
use gomsg.Prelude.{
  Text, true, false, ◌||◌, Option, List, [], ◌∷◌, ◌≡◌, refl, ap, subst, arith, trim_space,
  text_eq_iff, to_lower, any_row, All, is_empty,
}
use gomsg.Result.{ok}
use gomsg.Domain.{Chat, AddChatMember}
use gomsg.Store.{Env, Db, World}
use gomsg.Store.Effects.{
  IsAtomic, IsAtomic-bind, IsAtomic-then, IsAtomic-on_error, IsAtomic-transaction, totals, reads,
}
use gomsg.Store.Outcome.{Yields, Yields-pure, Yields-bind, Yields-transaction, Yields-on_error}
use gomsg.Store.Steps.{Yields-ensure, Yields-lift}
use gomsg.Tables.Chats.{is_member_row}
use gomsg.Tables.Chats.Grown.{is_member, find_row-any}
use gomsg.Repository.Chats.{known, to_add, create_group_with_members}
use gomsg.Service.ChatParts.{ChatDetail, CreateGroupChatRequest, chat_detail, check_avatar}
use gomsg.Service.Chats.{create_group}
use gomsg.Service.Chats.Effects.{collect_users-ReadOnly}
use gomsg.Service.Chats.Collected.{Covers, AreIds, collect_users-Covers, added_in, to_add-has}
use gomsg.Service.Chats.Founding.{group_body-Founded, Founded}

-- What a successful CreateGroup leaves: the group that it answers with, which is new, and has the trimmed
-- title, the actor as its owner and each of the users of the request as a member.
pub record Grouped (actor : Text) (req : CreateGroupChatRequest) (d : Db) (out : ChatDetail)
    (d' : Db) : Type 0 where
  pub chat : Chat
  pub avatar : Option Text
  pub adds : List AddChatMember
  pub avatar_checked : check_avatar req.avatar_url ≡ ok avatar
  pub founded : Founded (trim_space req.title) avatar actor adds d chat d'
  pub detail : out ≡ chat_detail chat
  pub invited : All (λ raw. is_member chat.id (trim_space raw) d' ≡ true) req.member_ids

module _ (name : Text) (avatar : Option Text) (actor : Text) (others : List Text) (d : Db)
    (c : Chat) (d' : Db) (f : Founded name avatar actor (to_add (actor ∷ []) others) d c d') where
  added_is_member :
      (u : Text) (adds : List AddChatMember)
      → All (λ a. is_member c.id (AddChatMember.user_id a) d' ≡ true) adds
      → added_in adds u ≡ true
      → is_member c.id u d' ≡ true
  unfolding any_row
  added_is_member u [] h k = absurd (cc)
  added_is_member u (a ∷ adds) h k = ground (
    arith,
    text_eq_iff u a.user_id,
    added_is_member u adds h.1,
    h.0,
    λ (e : u ≡ a.user_id). ap (λ x. is_member c.id x d') e,
  )

  owner_is_member : is_member c.id actor d' ≡ true
  owner_is_member =
      let (m, e, r) = f.owner in
      find_row-any (is_member_row (to_lower c.id) (to_lower actor)) d'.members m e

  covered_is_member :
      (u : Text)
      → is_empty u ≡ false
      → (known u (actor ∷ []) || known u others) ≡ true
      → is_member c.id u d' ≡ true
  covered_is_member u e h =
      unfold known in
      ground (
        arith,
        text_eq_iff u actor,
        owner_is_member,
        added_is_member u (to_add (actor ∷ []) others) f.members,
        to_add-has (actor ∷ []) others u e,
        λ (q : u ≡ actor). ap (λ x. is_member c.id x d') q,
      )

  invited_are_members :
      (raws : List Text)
      → Covers (actor ∷ []) others raws
      → AreIds raws
      → All (λ raw. is_member c.id (trim_space raw) d' ≡ true) raws
  invited_are_members [] h v = tt
  invited_are_members (raw ∷ raws) h v = (
    covered_is_member (trim_space raw) (ground (arith, v.0)) h.0,
    invited_are_members raws h.1 v.1,
  )

module _ (env : Env) (actor : Text) (req : CreateGroupChatRequest) where
  create_group-Yields : (d : Db) → Yields d (Grouped actor req d) (create_group env actor req)
  unfolding create_group create_group_with_members
  create_group-Yields d = Yields-ensure _ _ _ λ _. Yields-ensure _ _ _ λ _. Yields-ensure _ _ _ λ _.
      Yields-lift _ _ λ avatar checked.
        Yields-bind _ _ _ (collect_users-Covers env _ d (actor ∷ []) req.member_ids) λ others d1 h.
          Yields-bind (Founded (trim_space req.title) avatar actor (to_add (actor ∷ []) others) d1)
            _ _
            (Yields-on_error _ _ (
              Yields-transaction env _
                λ now. group_body-Founded env (trim_space req.title) avatar actor others now d1))
            λ c d2 f. Yields-pure (chat_detail c) (
              subst (λ x. Grouped actor req x (chat_detail c) d2) h.0
                (record {
                  chat = c;
                  avatar = avatar;
                  adds = to_add (actor ∷ []) others;
                  avatar_checked = checked;
                  founded = f;
                  detail = refl;
                  invited =
                      invited_are_members (trim_space req.title) avatar actor others d1 c d2 f
                        req.member_ids h.1 h.2;
                }))

  -- A successful request for a group answers with a new group chat of the trimmed title, which the actor
  -- owns and of which each user of the request is a member; no other chat has changed, and the
  -- memberships that were there are as they were.
  pub create_group-Grouped :
      (w : World) (out : ChatDetail)
      → (create_group env actor req w).0 ≡ ok out
      → Grouped actor req w.db out (create_group env actor req w).1.db
  create_group-Grouped w out e = (create_group-Yields w.db).at w out refl e

  create_group_row-IsAtomic :
      (name : Text) (avatar : Option Text) (others : List Text)
      → IsAtomic (create_group_with_members env name avatar actor others)
  unfolding create_group_with_members
  create_group_row-IsAtomic name avatar others = IsAtomic-transaction env _

  -- A request for a group that fails, at whatever statement, has changed no table: no chat is left
  -- without its owner.
  pub create_group-IsAtomic : IsAtomic (create_group env actor req)
  unfolding create_group
  create_group-IsAtomic =
      search
        (
          IsAtomic-bind, IsAtomic-then, IsAtomic-on_error, create_group_row-IsAtomic,
          collect_users-ReadOnly, totals, reads,
        )
        depth 24
