-- ===== src/Service/Chats/Adding.antt =====
-- chat_service.go, AddMembers: who can add whom to a group.
use gomsg.Prelude.{
  Text, true, false, List, [], ◌∷◌, map, ◌≡◌, ◌≢◌, refl, ap, subst, arith, trim_space, text_eq_iff,
  All, All-map, Any, Any-map, ◌⊎◌, inl, inr, to_lower, ◌∙◌, is_nil,
}
use gomsg.Result.{ok}
use gomsg.Domain.{Chat, ChatMember, Role, AddChatMember}
use gomsg.Store.{Env, Db, World}
use gomsg.Store.Effects.{read-returns}
use gomsg.Store.Outcome.{
  Yields, Yields-pure, Yields-map, Yields-bind, Yields-on_error, Yields-unchanged,
}
use gomsg.Store.Steps.{Yields-ensure, Yields-lift, Yields-query_or}
use gomsg.Uuid.{parse_id}
use gomsg.Tables.Chats.{select_chat, select_membership}
use gomsg.Tables.Chats.Grown.{is_member, Grown, IsOld, IsAdded}
use gomsg.Repository.Chats.{known, get_chat, find_membership, add_members}
use gomsg.Service.Membership.{require_membership, is_group}
use gomsg.Service.ChatParts.{MemberDto, may_add}
use gomsg.Service.Chats.{check_adds, add_to_chat}
use gomsg.Service.Chats.Invariant.{check_adds-ReadOnly, members-ReadOnly}
use gomsg.Service.Chats.Collected.{Covers, AreDrawn, collect_users-Covers}
use gomsg.Service.Chats.Direct.{add_members-Grown}
use gomsg.Service.Messages.Reads.{not-true}

abbrev as_member : Text → AddChatMember
as_member u = record { user_id = u; role = Role.member }

-- What allows the actor to add the rows of `plan` to its chat: the chat is a live group, and he is an
-- owner or an admin of it; the rows are plain memberships, for each of the raw ids.
pub record MayAdd (actor chat_raw : Text) (raws : List Text) (d : Db)
    (plan : Text × List AddChatMember) : Type 0 where
  pub parsed : parse_id "invalid chat_id" chat_raw ≡ ok plan.0
  pub chat : Chat
  pub found : select_chat plan.0 d ≡ ok chat
  pub live : chat.is_deleted ≡ false
  pub group : is_group chat.type ≡ true
  pub actor_row : ChatMember
  pub actor_found : select_membership plan.0 actor d ≡ ok actor_row
  pub allowed : may_add actor_row.role ≡ true
  pub ids : List Text
  pub rows : plan.1 ≡ map as_member ids
  pub some_id : is_nil ids ≡ false
  pub covers : Covers [] ids raws
  pub drawn : AreDrawn raws ids

known-is_member :
    (chat u : Text) (ids : List Text) (d : Db)
    → All (λ a. is_member chat (AddChatMember.user_id a) d ≡ true) (map as_member ids)
    → known u ids ≡ true
    → is_member chat u d ≡ true
unfolding known
known-is_member chat u [] d h k = absurd (cc)
known-is_member chat u (x ∷ ids) d h k = ground (
  arith,
  text_eq_iff u x,
  known-is_member chat u ids d h.1,
  h.0,
  λ (e : u ≡ x). ap (λ y. is_member chat y d) e,
)

covered_are_members :
    (chat : Text) (raws ids : List Text) (d : Db)
    → All (λ a. is_member chat (AddChatMember.user_id a) d ≡ true) (map as_member ids)
    → Covers [] ids raws
    → All (λ raw. is_member chat (trim_space raw) d ≡ true) raws
unfolding known
covered_are_members chat [] ids d h c = tt
covered_are_members chat (raw ∷ raws) ids d h c =
    (known-is_member chat (trim_space raw) ids d h c.0, covered_are_members chat raws ids d h c.1)

-- A plain membership of the chat, of a user whose id is among the raw ids
abbrev pub IsInvited : Text → List Text → ChatMember → Type 0
IsInvited chat raws m =
    (m.chat_id ≡ to_lower chat)
    × (m.role ≡ Role.member)
    × Any (λ raw. m.user_id ≡ to_lower (trim_space raw)) raws

IsAdded-IsInvited :
    (chat : Text) (raws ids : List Text) (m : ChatMember)
    → AreDrawn raws ids
    → IsAdded chat (map as_member ids) m
    → IsInvited chat raws m
IsAdded-IsInvited chat raws ids m = go ids
  where
    go :
        (ids : List Text)
        → AreDrawn raws ids
        → IsAdded chat (map as_member ids) m
        → IsInvited chat raws m
    go [] h (c, a) = absurd a
    go (id ∷ ids) h (c, inl a) = (c, a.1, Any-map _ _ (λ raw e. a.0 ∙ ap to_lower e) raws h.0)
    go (id ∷ ids) h (c, inr a) = go ids h.1 (c, a)

-- What a successful AddMembers leaves.
pub record Enlarged (actor chat_raw : Text) (raws : List Text) (d d' : Db) : Type 0 where
  pub plan : Text × List AddChatMember
  pub may : MayAdd actor chat_raw raws d plan
  pub grown : Grown plan.0 plan.1 d d'
  pub invited : All (λ raw. is_member plan.0 (trim_space raw) d' ≡ true) raws
  pub only : All (λ m. IsOld d.members m ⊎ IsInvited plan.0 raws m) d'.members

enlarged :
    (actor chat_raw : Text) (raws : List Text) (d : Db) (plan : Text × List AddChatMember) (d' : Db)
    → MayAdd actor chat_raw raws d plan
    → Grown plan.0 plan.1 d d'
    → Enlarged actor chat_raw raws d d'
enlarged actor chat_raw raws d plan d' m g = record {
  plan = plan;
  may = m;
  grown = g;
  invited =
      covered_are_members plan.0 raws m.ids d'
        (subst (All (λ a. is_member plan.0 (AddChatMember.user_id a) d' ≡ true)) m.rows g.has)
        m.covers;
  only =
      All-map _ _
        (λ x h. elim h [
          | inl old ↦ inl old
          | inr new ↦ inr (
              IsAdded-IsInvited plan.0 raws m.ids x m.drawn
                (subst (λ adds. IsAdded plan.0 adds x) m.rows new))
        ])
        d'.members g.only;
}

module _ (env : Env) (actor chat_raw : Text) (raws : List Text) where
  check_adds-MayAdd :
      (d : Db)
      → Yields d
          (λ plan d'. (d' ≡ d) × MayAdd actor chat_raw raws d plan)
          (check_adds env actor chat_raw raws)
  unfolding check_adds get_chat require_membership find_membership
  check_adds-MayAdd d = Yields-ensure _ _ _ λ _. Yields-lift _ _ λ chat_id parsed.
      Yields-query_or _ env _ _ λ c found. Yields-ensure _ _ _ λ live. Yields-ensure _ _ _ λ group.
        Yields-query_or _ env _ _ λ a actor_found. Yields-ensure _ _ _ λ allowed.
          Yields-bind _ _ _ (collect_users-Covers env _ d [] raws) λ ids d1 h.
            Yields-ensure _ _ _ λ some_id.
              Yields-pure (chat_id, map as_member ids)
                (
                  h.0,
                  record {
                    parsed = parsed;
                    chat = c;
                    found = found;
                    live = not-true _ live;
                    group = group;
                    actor_row = a;
                    actor_found = actor_found;
                    allowed = allowed;
                    ids = ids;
                    rows = refl;
                    some_id = not-true _ some_id;
                    covers = h.1;
                    drawn = h.3;
                  },
                )

  -- A request to add members that changes the tables, whether it succeeds or fails after its write, is one
  -- of an owner or admin of the chat, which is a live group.
  pub add_to_chat-MayAdd :
      (w : World)
      → (add_to_chat env actor chat_raw raws w).1.db ≢ w.db
      → (plan : Text × List AddChatMember) × MayAdd actor chat_raw raws w.db plan
  unfolding add_to_chat
  add_to_chat-MayAdd w n =
      let (plan, e) = read-returns _ _ w (check_adds-ReadOnly env actor chat_raw raws) n in
      (plan, ((check_adds-MayAdd w.db).at w plan refl e).1)

  add_rows-Grown :
      (chat : Text) (adds : List AddChatMember) (ids : List Text) (d : Db)
      → adds ≡ map as_member ids
      → is_nil ids ≡ false
      → Yields d (λ _ d'. Grown chat adds d d') (add_members env chat adds)
  add_rows-Grown chat [] [] d e n = absurd (cc)
  add_rows-Grown chat [] (x ∷ ids) d e n = absurd (cc)
  add_rows-Grown chat (a ∷ adds) ids d e n = add_members-Grown env chat a adds d

  add_to_chat-Yields :
      (d : Db)
      → Yields d (λ _ d'. Enlarged actor chat_raw raws d d') (add_to_chat env actor chat_raw raws)
  unfolding add_to_chat
  add_to_chat-Yields d = Yields-bind _ _ _ (check_adds-MayAdd d) λ plan d1 h.
      Yields-bind (λ _ d2. Enlarged actor chat_raw raws d d2) _ _
        (Yields-on_error _ _ (
          Yields-map _ _
            (add_rows-Grown plan.0 plan.1 (MayAdd.ids h.1) d1 (MayAdd.rows h.1)
              (MayAdd.some_id h.1))
            λ _ d2 g.
              enlarged actor chat_raw raws d plan d2 h.1
                (subst (λ x. Grown plan.0 plan.1 x d2) h.0 g)))
        λ _ d2 e. Yields-unchanged _ (members-ReadOnly env actor chat_raw) λ _. e

  -- A successful request to add members is one of an owner or admin of the chat, which is a live group.
  -- Each user of the request is a member afterwards; the chats and the memberships that were there, with
  -- their roles, are as they were, and each other membership is a plain one of a user of the request in
  -- this chat.
  pub add_to_chat-Enlarged :
      (w : World) (out : List MemberDto)
      → (add_to_chat env actor chat_raw raws w).0 ≡ ok out
      → Enlarged actor chat_raw raws w.db (add_to_chat env actor chat_raw raws w).1.db
  add_to_chat-Enlarged w out e = (add_to_chat-Yields w.db).at w out refl e
