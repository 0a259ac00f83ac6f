-- ===== src/Service/Chats/Founding.antt =====
-- chat_service.go, CreateGroup: a chat with its owner and its members, in one transaction.
use gomsg.Prelude.{
  ℕ, Text, true, false, Option, some, List, [], ◌∷◌, ◌≡◌, sym, ap, subst, ◌∙◌, arith, text_eq_refl,
  to_lower, any_row, find_row, All,
}
use gomsg.Domain.{Chat, ChatType, ChatMember, Role, AddChatMember}
use gomsg.Store.{Env, Db}
use gomsg.Store.Outcome.{Yields, Yields-pure, Yields-bind, Yields-exec-on_db}
use gomsg.Tables.Chats.{is_member_row}
use gomsg.Tables.Chats.Creation.{insert_chat, insert_member, insert_members, new_member}
use gomsg.Tables.Chats.Keys.{chat_id_in, InsertedChat, insert_chat-InsertedChat}
use gomsg.Tables.Chats.Grown.{
  Unchanged, Unchanged-new, is_member, Grown, insert_members-Grown, InsertedMember,
  insert_member-InsertedMember,
}
use gomsg.Repository.Chats.{to_add, group_chat, insert_others, group_body}

-- `u` has a membership with the role of an owner.
abbrev pub Owns : Text → Text → Db → Type 0
Owns chat u d =
    (m : ChatMember) × (find_row (is_member_row (to_lower chat) (to_lower u)) d.members ≡ some m)
    × (m.role ≡ Role.owner)

-- The group that CreateGroupWithMembers has stored: the chat is new, its creator owns it, each user of
-- `adds` is a member, and the memberships that were there are as they were.
pub record Founded (name : Text) (avatar : Option Text) (creator : Text) (adds : List AddChatMember)
    (d : Db) (c : Chat) (d' : Db) : Type 0 where
  pub type : c.type ≡ ChatType.group
  pub title : c.title ≡ some name
  pub avatar_url : c.avatar_url ≡ avatar
  pub unused : chat_id_in c.id d.chats ≡ false
  pub chats : d'.chats ≡ c ∷ d.chats
  pub owner : Owns c.id creator d'
  pub members : All (λ a. is_member c.id (AddChatMember.user_id a) d' ≡ true) adds
  pub same : Unchanged d.members d'.members

module _ (env : Env) (name : Text) (avatar : Option Text) (creator : Text) where
  insert_owner :
      (drawn : Text) (now : ℕ) (d : Db) (c : Chat) (d1 : Db) (m : ChatMember) (d2 : Db)
      → InsertedChat drawn now (group_chat name avatar creator) d c d1
      → InsertedMember now (new_member c.id creator Role.owner now) d1 m d2
      → Founded name avatar creator [] d c d2
  insert_owner drawn now d c d1 m d2 i j = record {
    type = i.type;
    title = i.title;
    avatar_url = i.avatar_url;
    unused = i.unused;
    chats = ap Db.chats j.stored ∙ ap Db.chats i.stored;
    owner = (m, owned, j.role);
    members = tt;
    same =
        subst (Unchanged d.members)
          (sym (ap Db.members j.stored ∙ ap (λ ms. m ∷ ms) (ap Db.members i.stored)))
          (Unchanged-new m d.members (
            subst (λ ms. any_row (is_member_row m.chat_id m.user_id) ms ≡ false)
              (ap Db.members i.stored) j.new));
  }
    where
      owned : find_row (is_member_row (to_lower c.id) (to_lower creator)) d2.members ≡ some m
      owned =
          unfold find_row in
          ground (
            arith,
            ap Db.members j.stored,
            j.chat_id,
            j.user_id,
            text_eq_refl (to_lower c.id),
            text_eq_refl (to_lower creator),
          )

  insert_more :
      (adds : List AddChatMember) (d : Db) (c : Chat) (d2 d3 : Db)
      → Founded name avatar creator [] d c d2
      → Grown c.id adds d2 d3
      → Founded name avatar creator adds d c d3
  insert_more adds d c d2 d3 f g = record {
    type = f.type;
    title = f.title;
    avatar_url = f.avatar_url;
    unused = f.unused;
    chats = g.chats ∙ f.chats;
    owner = let (m, e, r) = f.owner in (m, g.same (to_lower c.id) (to_lower creator) m e, r);
    members = g.has;
    same = λ x u m h. g.same x u m (f.same x u m h);
  }

  insert_others-Founded :
      (adds : List AddChatMember) (now : ℕ) (d : Db) (c : Chat) (d2 : Db)
      → Founded name avatar creator [] d c d2
      → Yields d2
          (λ _ d'. Founded name avatar creator adds d c d')
          (insert_others env c.id adds now)
  unfolding insert_others
  insert_others-Founded [] now d c d2 f = Yields-pure tt f
  insert_others-Founded (a ∷ adds) now d c d2 f =
      Yields-exec-on_db env (λ _. insert_members c.id (a ∷ adds) now)
        λ w u d3 e.
          insert_more (a ∷ adds) d c d2 d3 f (insert_members-Grown c.id (a ∷ adds) now d2 u d3 e)

  pub group_body-Founded :
      (others : List Text) (now : ℕ) (d : Db)
      → Yields d
          (Founded name avatar creator (to_add (creator ∷ []) others) d)
          (group_body env name avatar creator others now)
  unfolding group_body
  group_body-Founded others now d =
      Yields-bind
        (λ c d1. (drawn : Text) × InsertedChat drawn now (group_chat name avatar creator) d c d1) _
        _
        (Yields-exec-on_db env
          (λ w. insert_chat (env.uuid w.tick) now (group_chat name avatar creator))
          λ w c d1 e. (
            env.uuid w.tick,
            insert_chat-InsertedChat (env.uuid w.tick) now (group_chat name avatar creator) d c d1
                e,
          ))
        λ c d1 h.
          Yields-bind (λ m d2. InsertedMember now (new_member c.id creator Role.owner now) d1 m d2)
            _ _
            (Yields-exec-on_db env (λ _. insert_member now (new_member c.id creator Role.owner now))
              λ w m d2 e.
                insert_member-InsertedMember now (new_member c.id creator Role.owner now) d1 m d2 e)
            λ m d2 j.
              let (drawn, i) = h in
              Yields-bind _ _ _
                (insert_others-Founded (to_add (creator ∷ []) others) now d c d2
                  (insert_owner drawn now d c d1 m d2 i j))
                λ _ d3 f. Yields-pure c f
