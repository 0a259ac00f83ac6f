-- ===== src/Service/Chats.antt =====
-- backend/internal/service/chat_service.go and dto/chat.go: creating, listing and reading chats, and
-- adding members. SHA-256 with hex is a parameter of the direct chats. RemoveMember is in
-- Service/Membership.
pub mod Effects
pub mod Invariant
pub mod Direct
pub mod Peers
pub mod Opening
pub mod Collected
pub mod Founding
pub mod Groups
pub mod Adding
pub mod Joined
pub mod Shown
pub mod Reading
use gomsg.Service.ChatParts.{
  ChatDetail, ChatSummary, MemberDto, CreateGroupChatRequest, chat_detail, is_unique_violation,
  direct_key, both, to_chat_summary, to_member_dto, clamp_chat_limit, clamp_offset, check_avatar,
  may_add,
}
use gomsg.Prelude.{
  ℕ, zero, suc, ℤ, pos, String, Text, true, false, not, ◌&&◌, some, List, [], ◌∷◌, map, leb,
  if◌then◌else◌, text_eq, is_empty, is_nil, trim_space, byte_len,
}
use gomsg.Errors.{
  unauthorized_error, forbidden_error, not_found_error, validation_error, conflict_error,
  internal_error, is_not_found,
}
use gomsg.Result.{Result, ok, fail}
use gomsg.Domain.{Chat, ChatType, Role, AddChatMember}
use gomsg.Store.{Env, Go, pure, raise, lift, on_error, caught, ensure, ◌>>=◌, ◌>>◌}
use gomsg.Uuid.{uuid_match, parse_id}
use gomsg.Repository.Chats.{
  get_chat, get_chat_members, get_direct_by_key, create_chat, add_members, blank_chat,
  create_group_with_members, list_user_chats_summary, known,
}
use gomsg.Repository.Users.{get_user}
use gomsg.Service.MessageParts.{unless_found}
use gomsg.Service.Membership.{require_membership, is_group}

-- What a loop over raw user ids answers for a malformed id, for a missing user and for a failed lookup
pub record LoopErrors : Type 0 where
  pub malformed : String
  pub missing : String
  pub lookup : String

module _ (env : Env) where
  -- requireMember
  unfoldable pub require_member : Text → Text → Go (Unit {0})
  require_member chat_id user_id = do require_membership env chat_id user_id; pure tt

  -- The body of the loops over raw user ids in CreateGroup and AddMembers, behind the ids `seen`: an id
  -- that was seen is skipped, and each other one is looked up
  unfoldable pub collect_users : LoopErrors → List Text → List Text → Go (List Text)
  collect_users errs seen [] = pure []
  collect_users errs seen (raw ∷ raws) = do
    let id = trim_space raw
    ensure (not (is_empty id) && uuid_match id) (validation_error errs.malformed)
    elim (known id seen) [
      | true ↦ collect_users errs seen raws
      | false ↦ do
        on_error (unless_found (not_found_error errs.missing) errs.lookup) (get_user env id)
        rest ← collect_users errs (id ∷ seen) raws
        pure (id ∷ rest)
    ]

  -- CreateGroup
  unfoldable pub create_group : Text → CreateGroupChatRequest → Go ChatDetail
  create_group actor req = do
    ensure (not (is_empty actor)) (unauthorized_error "missing user")
    let title = trim_space req.title
    ensure (not (is_empty title)) (validation_error "title is required")
    ensure (leb (byte_len title) 255) (validation_error "title too long")
    avatar ← lift (check_avatar req.avatar_url)
    others ←
        collect_users
          (record {
            malformed = "invalid member_ids entry";
            missing = "member user not found";
            lookup = "load member user";
          })
          (actor ∷ []) req.member_ids
    c ←
        on_error (internal_error "create group chat")
          (create_group_with_members env title avatar actor others)
    pure (chat_detail c)

  -- ListMine
  unfoldable pub list_mine : Text → ℤ → ℤ → Go (List ChatSummary)
  list_mine actor limit offset = do
    ensure (not (is_empty actor)) (unauthorized_error "missing user")
    rows ← on_error (internal_error "list chats") (
        list_user_chats_summary env actor
          (record { limit = pos (clamp_chat_limit limit); offset = pos (clamp_offset offset) }))
    pure (map to_chat_summary rows)

  -- Get
  unfoldable pub get_detail : Text → Text → Go ChatDetail
  get_detail actor chat_raw = do
    ensure (not (is_empty actor)) (unauthorized_error "missing user")
    chat_id ← lift (parse_id "invalid chat_id" chat_raw)
    require_member chat_id actor
    c ←
        on_error (unless_found (not_found_error "chat not found") "load chat")
          (get_chat env chat_id)
    ensure (not c.is_deleted) (not_found_error "chat not found")
    pure (chat_detail c)

  -- Members
  unfoldable pub members : Text → Text → Go (List MemberDto)
  members actor chat_raw = do
    ensure (not (is_empty actor)) (unauthorized_error "missing user")
    chat_id ← lift (parse_id "invalid chat_id" chat_raw)
    require_member chat_id actor
    ms ← on_error (internal_error "list members") (get_chat_members env chat_id)
    pure (map to_member_dto ms)

  -- AddMembers, up to its write: the chat and the rows to add
  unfoldable pub check_adds : Text → Text → List Text → Go (Text × List AddChatMember)
  check_adds actor chat_raw raws = do
    ensure (not (is_empty actor)) (unauthorized_error "missing user")
    chat_id ← lift (parse_id "invalid chat_id" chat_raw)
    c ←
        on_error (unless_found (not_found_error "chat not found") "load chat")
          (get_chat env chat_id)
    ensure (not c.is_deleted) (not_found_error "chat not found")
    ensure (is_group c.type) (forbidden_error "only group chats accept new members")
    actor_row ← require_membership env chat_id actor
    ensure (may_add actor_row.role) (forbidden_error "insufficient role to add members")
    ids ←
        collect_users
          (record {
            malformed = "invalid user_ids entry";
            missing = "user not found";
            lookup = "load user";
          })
          [] raws
    ensure (not (is_nil ids)) (validation_error "user_ids is required")
    pure (chat_id, map (λ u. record { user_id = u; role = Role.member }) ids)

  -- AddMembers
  unfoldable pub add_to_chat : Text → Text → List Text → Go (List MemberDto)
  add_to_chat actor chat_raw raws = do
    plan ← check_adds actor chat_raw raws
    on_error (internal_error "add members") (add_members env plan.0 plan.1)
    members actor chat_raw

module _ (env : Env) (hash : Text → Text) where
  -- The branch of CreateDirect where the chat exists
  unfoldable pub use_direct : Text → Text → Chat → Go ChatDetail
  use_direct actor peer c = do
    require_member env c.id actor
    caught (add_members env c.id (both actor peer))
    pure (chat_detail c)

  -- What follows CreateChat in CreateDirect; `again` is the next attempt
  unfoldable pub after_create : Text → Text → Go ChatDetail → Result Chat → Go ChatDetail
  after_create actor peer again (ok c) = do
    on_error (internal_error "add direct members") (add_members env c.id (both actor peer))
    pure (chat_detail c)
  after_create actor peer again (fail e) =
      if is_unique_violation e then again else raise (internal_error "create direct chat" e)

  -- What follows GetDirectByKey in CreateDirect
  unfoldable pub after_lookup : Text → Text → Text → Go ChatDetail → Result Chat → Go ChatDetail
  unfolding use_direct after_create
  after_lookup actor peer key again (ok c) = use_direct actor peer c
  after_lookup actor peer key again (fail e) =
      if is_not_found e
      then (do
        created ← caught (create_chat env (blank_chat ChatType.direct (some key)))
        after_create actor peer again created)
      else raise (internal_error "lookup direct chat" e)

  -- The loop of CreateDirect, with the attempts that are left
  unfoldable pub open_direct : ℕ → Text → Text → Text → Go ChatDetail
  unfolding after_lookup
  open_direct zero actor peer key = raise (conflict_error "could not create or resolve direct chat")
  open_direct (suc n) actor peer key = do
    found ← caught (get_direct_by_key env key)
    after_lookup actor peer key (open_direct n actor peer key) found

  -- CreateDirect
  unfoldable pub create_direct : Text → Text → Go ChatDetail
  create_direct actor raw = do
    ensure (not (is_empty actor)) (unauthorized_error "missing user")
    let peer = trim_space raw
    ensure (not (is_empty peer)) (validation_error "user_id is required")
    ensure (uuid_match peer) (validation_error "invalid user_id")
    ensure (not (text_eq peer actor)) (validation_error "cannot start direct chat with yourself")
    on_error (unless_found (not_found_error "user not found") "load peer user") (get_user env peer)
    key ← lift (direct_key hash actor peer)
    open_direct 3 actor peer key
