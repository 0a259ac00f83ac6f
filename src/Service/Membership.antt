-- ===== src/Service/Membership.antt =====
-- backend/internal/service/chat_service.go: the membership tests and RemoveMember.
pub mod Removal
use gomsg.Prelude.{Text, Bool, not, is_empty, text_eq, if◌then◌else◌}
use gomsg.Errors.{Error, unauthorized_error, forbidden_error, not_found_error, internal_error}
use gomsg.Result.{Result, ok, fail}
use gomsg.Domain.{Chat, ChatType, ChatMember, Role}
use gomsg.Store.{Env, Go, lift, on_error, ensure, ◌>>=◌, ◌>>◌}
use gomsg.Uuid.{parse_id}
use gomsg.Repository.Chats.{find_membership, get_chat, remove_member_row}
use gomsg.Service.MessageParts.{unless_found}

-- assertKickRules
unfoldable pub assert_kick_rules : Role → Role → Result (Unit {0})
assert_kick_rules Role.owner Role.owner = fail (forbidden_error "cannot remove owner")
assert_kick_rules Role.owner Role.admin = ok tt
assert_kick_rules Role.owner Role.member = ok tt
assert_kick_rules Role.admin Role.owner = fail (forbidden_error "admins can only remove members")
assert_kick_rules Role.admin Role.admin = fail (forbidden_error "admins can only remove members")
assert_kick_rules Role.admin Role.member = ok tt
assert_kick_rules Role.member t = fail (forbidden_error "insufficient role")

abbrev pub is_group : ChatType → Bool
is_group ChatType.direct = Bool.false
is_group ChatType.group = Bool.true

module _ (env : Env) where
  -- requireMemberShip
  unfoldable pub require_membership : Text → Text → Go ChatMember
  require_membership chat_id user_id =
      on_error (unless_found (forbidden_error "not a chat member") "lookup membership")
        (find_membership env chat_id user_id)

  -- The call of RemoveMember on the repository, with its errors
  unfoldable pub drop_member : Text → Text → Go (Unit {0})
  drop_member chat_id user_id =
      on_error (unless_found (not_found_error "member not found") "remove member")
        (remove_member_row env chat_id user_id)

  -- What follows the lookups of RemoveMember
  unfoldable pub remove_found : Text → Text → Text → Chat → ChatMember → ChatMember → Go (Unit {0})
  unfolding drop_member
  remove_found actor chat_id target_id c actor_row target_row =
      if text_eq actor target_id then drop_member chat_id target_id else do
        ensure (is_group c.type) (forbidden_error "cannot remove other user from direct chat")
        lift (assert_kick_rules actor_row.role target_row.role)
        drop_member chat_id target_id

  -- RemoveMember
  unfoldable pub remove_member : Text → Text → Text → Go (Unit {0})
  remove_member actor chat_raw target_raw = do
    ensure (not (is_empty actor)) (unauthorized_error "missing user")
    chat_id ← lift (parse_id "invalid chat_id" chat_raw)
    target_id ← lift (parse_id "invalid user_id" target_raw)
    c ←
        on_error (unless_found (not_found_error "chat not found") "load chat")
          (get_chat env chat_id)
    ensure (not c.is_deleted) (not_found_error "chat not found")
    actor_row ← require_membership chat_id actor
    target_row ←
        on_error (unless_found (not_found_error "member not found") "lookup target member")
          (find_membership env chat_id target_id)
    remove_found actor chat_id target_id c actor_row target_row
