-- ===== src/Service/Membership/Removal.antt =====
-- chat_service.go, RemoveMember: who can remove whom, and what is left.
use gomsg.Prelude.{
  Text, Bool, true, false, none, List, [], ◌∷◌, ◌≡◌, ◌≢◌, refl, ap, ◌∙◌, ◌⊎◌, inl, inr, arith,
  to_lower, text_eq, text_eq_iff, find_row, delete_rows, if◌then◌else◌,
}
use gomsg.Errors.{forbidden_error}
use gomsg.Result.{ok}
use gomsg.Domain.{Chat, ChatMember, Role}
use gomsg.Store.{Env, Db, World, ensure, lift, ◌>>◌}
use gomsg.Store.Effects.{reads}
use gomsg.Store.Outcome.{
  Yields, Yields-map, Yields-unchanged, Yields-on_error, Yields-bind, Yields-exec-on_db,
}
use gomsg.Store.Steps.{Yields-ensure, Yields-lift, Yields-query_or}
use gomsg.Uuid.{parse_id, cast_uuid}
use gomsg.Tables.Chats.{is_member_row, select_chat, select_membership, delete_member}
use gomsg.Repository.Chats.{find_membership, get_chat, remove_member_row}
use gomsg.Service.Membership.{
  assert_kick_rules, is_group, require_membership, drop_member, remove_found, remove_member,
}
use gomsg.Service.Messages.Reads.{not-true}

-- Which roles can remove another member: an owner all but owners, an admin plain members.
abbrev pub Outranks : Role → Role → Type 0
Outranks Role.owner t = t ≢ Role.owner
Outranks Role.admin t = t ≡ Role.member
Outranks Role.member t = ⊥

assert_kick_rules-Outranks : (a t : Role) → assert_kick_rules a t ≡ ok tt → Outranks a t
unfolding assert_kick_rules
assert_kick_rules-Outranks Role.owner Role.owner e = absurd (cc)
assert_kick_rules-Outranks Role.owner Role.admin e = λ k. absurd (cc)
assert_kick_rules-Outranks Role.owner Role.member e = λ k. absurd (cc)
assert_kick_rules-Outranks Role.admin Role.owner e = absurd (cc)
assert_kick_rules-Outranks Role.admin Role.admin e = absurd (cc)
assert_kick_rules-Outranks Role.admin Role.member e = refl
assert_kick_rules-Outranks Role.member t e = absurd (cc)

-- The tables after the membership of the user in the chat is gone.
abbrev pub without_member : Text → Text → Db → Db
without_member chat_id user_id d = record d {
  members = delete_rows (is_member_row (to_lower chat_id) (to_lower user_id)) d.members;
}

pub delete_member-eq :
    (c u : Text) (d : Db) (b : Bool) (d' : Db)
    → delete_member c u d ≡ ok (b, d')
    → d' ≡ without_member c u d
unfolding delete_member cast_uuid
delete_member-eq c u d b d' h = ground arith

find_row-delete_rows :
    (q : ChatMember → Bool) (ms : List ChatMember) → find_row q (delete_rows q ms) ≡ none
unfolding find_row delete_rows
find_row-delete_rows q [] = refl
find_row-delete_rows q (m ∷ ms) = ground (arith, find_row-delete_rows q ms)

-- The removal of `target_raw` from `chat_raw` by `actor` has turned the tables `d` into `d'`.
pub record Removed (d : Db) (actor chat_raw target_raw : Text) (d' : Db) : Type 0 where
  pub chat_id : Text
  pub target_id : Text
  pub chat_parsed : parse_id "invalid chat_id" chat_raw ≡ ok chat_id
  pub target_parsed : parse_id "invalid user_id" target_raw ≡ ok target_id
  pub chat : Chat
  pub chat_found : select_chat chat_id d ≡ ok chat
  pub chat_live : chat.is_deleted ≡ false
  pub actor_row : ChatMember
  pub actor_found : select_membership chat_id actor d ≡ ok actor_row
  pub target_row : ChatMember
  pub target_found : select_membership chat_id target_id d ≡ ok target_row
  pub allowed :
      (actor ≡ target_id) ⊎ ((is_group chat.type ≡ true) × Outranks actor_row.role target_row.role)
  pub members : d' ≡ without_member chat_id target_id d
  pub gone : find_row (is_member_row (to_lower chat_id) (to_lower target_id)) d'.members ≡ none

module _ (env : Env) where
  drop_member-eq :
      (c u : Text) (d : Db) → Yields d (λ _ d'. d' ≡ without_member c u d) (drop_member env c u)
  unfolding drop_member remove_member_row
  drop_member-eq c u d = Yields-on_error _ _ (
      Yields-bind (λ _ d'. d' ≡ without_member c u d) _ _
        (Yields-exec-on_db env (λ _. delete_member c u) λ w b d' e. delete_member-eq c u d b d' e)
        λ b d' h. Yields-unchanged _ (search reads) λ _. h)

  remove_found-eq :
      (actor chat_id target_id : Text) (c : Chat) (a t : ChatMember) (d : Db)
      → Yields d
          (λ _ d'.
            ((actor ≡ target_id) ⊎ ((is_group c.type ≡ true) × Outranks a.role t.role))
            × (d' ≡ without_member chat_id target_id d))
          (remove_found env actor chat_id target_id c a t)
  unfolding remove_found
  remove_found-eq actor chat_id target_id c a t d = go (text_eq actor target_id) refl
    where
      go :
          (b : Bool)
          → text_eq actor target_id ≡ b
          → Yields d
              (λ _ d'.
                ((actor ≡ target_id) ⊎ ((is_group c.type ≡ true) × Outranks a.role t.role))
                × (d' ≡ without_member chat_id target_id d))
              (if b then drop_member env chat_id target_id else do
                ensure
                    (is_group c.type)
                    (forbidden_error "cannot remove other user from direct chat")
                lift (assert_kick_rules a.role t.role)
                drop_member env chat_id target_id)
      go true e =
          Yields-map _ _ (drop_member-eq chat_id target_id d)
            λ _ d' h. (inl (ground (arith, e, text_eq_iff actor target_id)), h)
      go false e = Yields-ensure _ _ _ λ group. Yields-lift _ _ λ _ rules.
          Yields-map _ _ (drop_member-eq chat_id target_id d)
            λ _ d' h. (inr (group, assert_kick_rules-Outranks a.role t.role rules), h)

  remove_member-Yields :
      (actor chat_raw target_raw : Text) (d : Db)
      → Yields d
          (λ _ d'. Removed d actor chat_raw target_raw d')
          (remove_member env actor chat_raw target_raw)
  unfolding remove_member get_chat require_membership find_membership
  remove_member-Yields actor chat_raw target_raw d = Yields-ensure _ _ _ λ _.
      Yields-lift _ _ λ chat_id chat_parsed. Yields-lift _ _ λ target_id target_parsed.
        Yields-query_or _ env _ _ λ c chat_found. Yields-ensure _ _ _ λ live.
          Yields-query_or _ env _ _ λ a actor_found. Yields-query_or _ env _ _ λ t target_found.
            Yields-map _ _ (remove_found-eq actor chat_id target_id c a t d) λ _ d' h. record {
              chat_id = chat_id;
              target_id = target_id;
              chat_parsed = chat_parsed;
              target_parsed = target_parsed;
              chat = c;
              chat_found = chat_found;
              chat_live = not-true _ live;
              actor_row = a;
              actor_found = actor_found;
              target_row = t;
              target_found = target_found;
              allowed = h.0;
              members = h.1;
              gone =
                  ap
                    (λ x.
                      find_row (is_member_row (to_lower chat_id) (to_lower target_id))
                        (Db.members x))
                    h.1
                  ∙ find_row-delete_rows (is_member_row (to_lower chat_id) (to_lower target_id))
                      d.members;
            }

-- A removal that succeeds is of a member of a live chat by a member of it, who removes himself, or, in
-- a group, as an owner removes one who is no owner, or as an admin a plain member. It deletes that
-- membership and nothing else.
pub remove_member-Removed :
    (env : Env) (w : World) (actor chat_raw target_raw : Text)
    → (remove_member env actor chat_raw target_raw w).0 ≡ ok tt
    → Removed w.db actor chat_raw target_raw (remove_member env actor chat_raw target_raw w).1.db
remove_member-Removed env w actor chat_raw target_raw e =
    (remove_member-Yields env actor chat_raw target_raw w.db).at w tt refl e
