-- ===== src/Service/Chats/Invariant.antt =====
-- chat_service.go: every request keeps the chats and the memberships sound.
use gomsg.Prelude.{
  ℕ, zero, suc, Text, Bool, true, false, List, [], ◌∷◌, ◌≡◌, sym, subst, delete_rows,
  none-delete_rows, All, if◌then◌else◌,
}
use gomsg.Errors.{is_not_found}
use gomsg.Result.{Result, ok, fail}
use gomsg.Domain.{Chat, ChatMember}
use gomsg.Store.{Env, Db, Go}
use gomsg.Store.Effects.{ReadOnly, reads}
use gomsg.Store.Keeps.{Keeps, Keeps-on_db, Keeps-bind, Keeps-if, keeps_rules}
use gomsg.Tables.Chats.{is_member_row, delete_member}
use gomsg.Tables.Chats.Members.{HasDistinctKeys}
use gomsg.Tables.Chats.Keys.{HasSoundChats}
use gomsg.Repository.Chats.{
  create_group_with_members, remove_member_row, get_chat_members, find_membership,
  get_direct_by_key,
}
use gomsg.Service.Membership.{drop_member, remove_found, remove_member}
use gomsg.Service.Membership.Removal.{delete_member-eq}
use gomsg.Service.ChatParts.{CreateGroupChatRequest, ChatDetail, is_unique_violation}
use gomsg.Service.Chats.{
  create_group, check_adds, add_to_chat, members, use_direct, after_create, after_lookup,
  open_direct, create_direct,
}
use gomsg.Service.Chats.Effects.{
  create_chat-Keeps, add_members-Keeps, group_body-Keeps, get_user-ReadOnly,
  require_membership-ReadOnly, require_member-ReadOnly, collect_users-ReadOnly, get_chat-ReadOnly,
}

-- A deletion of memberships keeps the keys.
deleted-HasDistinctKeys :
    (q : ChatMember → Bool) (ms : List ChatMember)
    → HasDistinctKeys ms
    → HasDistinctKeys (delete_rows q ms)
unfolding delete_rows
deleted-HasDistinctKeys q [] k = tt
deleted-HasDistinctKeys q (m ∷ ms) k = go (q m) (deleted-HasDistinctKeys q ms k.1)
  where
    go :
        (b : Bool)
        → HasDistinctKeys (delete_rows q ms)
        → HasDistinctKeys (if b then delete_rows q ms else m ∷ delete_rows q ms)
    go true r = r
    go false r = (none-delete_rows (is_member_row m.chat_id m.user_id) q ms k.0, r)

All-delete_rows :
    (P : ChatMember → Type 0) (q : ChatMember → Bool) (ms : List ChatMember)
    → All P ms
    → All P (delete_rows q ms)
unfolding delete_rows
All-delete_rows P q [] a = tt
All-delete_rows P q (m ∷ ms) a = go (q m) (All-delete_rows P q ms a.1)
  where
    go :
        (b : Bool)
        → All P (delete_rows q ms)
        → All P (if b then delete_rows q ms else m ∷ delete_rows q ms)
    go true r = r
    go false r = (a.0, r)

delete_member-HasSoundChats :
    (c u : Text) (d : Db) (b : Bool) (d' : Db)
    → HasSoundChats d
    → delete_member c u d ≡ ok (b, d')
    → HasSoundChats d'
delete_member-HasSoundChats c u d b d' s e =
    subst HasSoundChats (sym (delete_member-eq c u d b d' e)) (record {
      chats = s.chats;
      members = deleted-HasDistinctKeys _ d.members s.members;
      placed = All-delete_rows _ _ d.members s.placed;
    })

module _ (env : Env) where
  remove_row-Keeps : (c u : Text) → Keeps HasSoundChats (remove_member_row env c u)
  unfolding remove_member_row
  remove_row-Keeps c u =
      Keeps-bind _ _
        (Keeps-on_db env (λ _. delete_member c u)
          λ w d b d' s e. delete_member-HasSoundChats c u d b d' s e)
        λ found. search keeps_rules

  remove_found-Keeps :
      (actor c t : Text) (chat : Chat) (a m : ChatMember)
      → Keeps HasSoundChats (remove_found env actor c t chat a m)
  unfolding remove_found drop_member
  remove_found-Keeps actor c t chat a m = search (keeps_rules, Keeps-if, remove_row-Keeps) depth 12

  find_membership-ReadOnly : (c u : Text) → ReadOnly (find_membership env c u)
  unfolding find_membership
  find_membership-ReadOnly c u = search reads

ruleset chat_rules = (
  keeps_rules, create_chat-Keeps, add_members-Keeps, group_body-Keeps, remove_found-Keeps,
  require_membership-ReadOnly, require_member-ReadOnly, collect_users-ReadOnly, get_chat-ReadOnly,
  get_user-ReadOnly, find_membership-ReadOnly,
)

module _ (env : Env) where
  pub create_group-Keeps :
      (actor : Text) (req : CreateGroupChatRequest)
      → Keeps HasSoundChats (create_group env actor req)
  unfolding create_group create_group_with_members
  create_group-Keeps actor req = search chat_rules depth 24

  remove_member-Keeps :
      (actor chat target : Text) → Keeps HasSoundChats (remove_member env actor chat target)
  unfolding remove_member
  remove_member-Keeps actor chat target = search chat_rules depth 24

  pub members-ReadOnly : (actor chat : Text) → ReadOnly (members env actor chat)
  unfolding members get_chat_members
  members-ReadOnly actor chat = search (reads, require_member-ReadOnly) depth 16

  pub check_adds-ReadOnly :
      (actor chat : Text) (raws : List Text) → ReadOnly (check_adds env actor chat raws)
  unfolding check_adds
  check_adds-ReadOnly actor chat raws =
      search (reads, require_membership-ReadOnly, get_chat-ReadOnly, collect_users-ReadOnly) depth
        24

  add_to_chat-Keeps :
      (actor chat : Text) (raws : List Text) → Keeps HasSoundChats (add_to_chat env actor chat raws)
  unfolding add_to_chat
  add_to_chat-Keeps actor chat raws =
      search (chat_rules, check_adds-ReadOnly, members-ReadOnly) depth 12

module _ (env : Env) (hash : Text → Text) where
  after_create-Keeps :
      (actor peer : Text) (again : Go ChatDetail) (r : Result Chat)
      → Keeps HasSoundChats again
      → Keeps HasSoundChats (after_create env hash actor peer again r)
  unfolding after_create
  after_create-Keeps actor peer again (ok c) h = search chat_rules depth 12
  after_create-Keeps actor peer again (fail e) h =
      Keeps-if (is_unique_violation e) _ _ h (search keeps_rules)

  after_lookup-Keeps :
      (actor peer key : Text) (again : Go ChatDetail) (r : Result Chat)
      → Keeps HasSoundChats again
      → Keeps HasSoundChats (after_lookup env hash actor peer key again r)
  unfolding after_lookup use_direct
  after_lookup-Keeps actor peer key again (ok c) h = search chat_rules depth 12
  after_lookup-Keeps actor peer key again (fail e) h =
      Keeps-if (is_not_found e) _ _
        (Keeps-bind _ _ (search chat_rules) λ r. after_create-Keeps actor peer again r h)
        (search keeps_rules)

  open_direct-Keeps :
      (n : ℕ) (actor peer key : Text) → Keeps HasSoundChats (open_direct env hash n actor peer key)
  unfolding open_direct get_direct_by_key
  open_direct-Keeps zero actor peer key = search keeps_rules
  open_direct-Keeps (suc n) actor peer key =
      Keeps-bind _ _ (search keeps_rules)
        λ r. after_lookup-Keeps actor peer key _ r (open_direct-Keeps n actor peer key)

  create_direct-Keeps : (actor raw : Text) → Keeps HasSoundChats (create_direct env hash actor raw)
  unfolding create_direct
  create_direct-Keeps actor raw = search (chat_rules, open_direct-Keeps) depth 24

  -- Every request that opens a direct chat, creates a group, adds members or removes one, whether it
  -- succeeds or fails and whatever statement fails, keeps the chats sound: distinct ids, one live direct
  -- chat for a key, no membership twice, and each membership of an existing user in an existing chat.
  pub chat_requests-HasSoundChats :
      (actor raw chat : Text) (req : CreateGroupChatRequest) (raws : List Text)
      → Keeps HasSoundChats (create_direct env hash actor raw)
        × Keeps HasSoundChats (create_group env actor req)
        × Keeps HasSoundChats (add_to_chat env actor chat raws)
        × Keeps HasSoundChats (remove_member env actor chat raw)
  chat_requests-HasSoundChats actor raw chat req raws = (
    create_direct-Keeps actor raw,
    create_group-Keeps env actor req,
    add_to_chat-Keeps env actor chat raws,
    remove_member-Keeps env actor chat raw,
  )
