-- ===== src/Service/Chats/Effects.antt =====
-- chat_service.go: what the calls of the requests read, and that the writes keep the chats sound.
use gomsg.Prelude.{ℕ, Text, Option, Bool, true, false, List, [], ◌∷◌, trim_space}
use gomsg.Errors.{not_found_error}
use gomsg.Domain.{Chat, ChatMember, Role, AddChatMember}
use gomsg.Store.{Env, pure, on_error, ◌>>=◌, ◌>>◌}
use gomsg.Store.Effects.{ReadOnly, ReadOnly-bind, ReadOnly-on_error, reads}
use gomsg.Service.MessageParts.{unless_found}
use gomsg.Store.Keeps.{Keeps, Keeps-on_db, Keeps-bind, keeps_rules}
use gomsg.Tables.Chats.Creation.{insert_chat, insert_member, insert_members, new_member}
use gomsg.Tables.Chats.Keys.{HasSoundChats, insert_chat-HasSoundChats, insert_chat-InsertedChat}
use gomsg.Tables.Chats.Added.{insert_members-HasSoundChats, insert_member-HasSoundChats}
use gomsg.Repository.Chats.{
  create_chat, add_members, insert_others, group_body, group_chat, find_membership, get_chat, known,
  create_member,
}
use gomsg.Repository.Users.{get_user}
use gomsg.Service.Membership.{require_membership}
use gomsg.Service.Chats.{LoopErrors, require_member, collect_users}

module _ (env : Env) where
  pub create_chat-Keeps : (c : Chat) → Keeps HasSoundChats (create_chat env c)
  unfolding create_chat
  create_chat-Keeps c =
      Keeps-on_db env (λ w. insert_chat (env.uuid w.tick) (env.clock w.tick) c)
        λ w d row d' s e.
          insert_chat-HasSoundChats (env.uuid w.tick) (env.clock w.tick) c d row d' s
            (insert_chat-InsertedChat (env.uuid w.tick) (env.clock w.tick) c d row d' e)

  create_member-Keeps : (m : ChatMember) → Keeps HasSoundChats (create_member env m)
  unfolding create_member
  create_member-Keeps m =
      Keeps-on_db env (λ w. insert_member (env.clock w.tick) m)
        λ w d row d' s e. insert_member-HasSoundChats (env.clock w.tick) m d row d' s e

  pub add_members-Keeps :
      (c : Text) (adds : List AddChatMember) → Keeps HasSoundChats (add_members env c adds)
  unfolding add_members
  add_members-Keeps c [] = search keeps_rules
  add_members-Keeps c (a ∷ adds) =
      Keeps-on_db env (λ w. insert_members c (a ∷ adds) (env.clock w.tick))
        λ w d u d' s e. insert_members-HasSoundChats c (a ∷ adds) (env.clock w.tick) d u d' s e

  insert_others-Keeps :
      (c : Text) (adds : List AddChatMember) (now : ℕ)
      → Keeps HasSoundChats (insert_others env c adds now)
  unfolding insert_others
  insert_others-Keeps c [] now = search keeps_rules
  insert_others-Keeps c (a ∷ adds) now =
      Keeps-on_db env (λ _. insert_members c (a ∷ adds) now)
        λ w d u d' s e. insert_members-HasSoundChats c (a ∷ adds) now d u d' s e

  pub group_body-Keeps :
      (title : Text) (avatar : Option Text) (creator : Text) (others : List Text) (now : ℕ)
      → Keeps HasSoundChats (group_body env title avatar creator others now)
  unfolding group_body
  group_body-Keeps title avatar creator others now =
      Keeps-bind _ _
        (Keeps-on_db env (λ w. insert_chat (env.uuid w.tick) now (group_chat title avatar creator))
          λ w d row d' s e.
            insert_chat-HasSoundChats (env.uuid w.tick) now (group_chat title avatar creator) d row
              d' s
              (insert_chat-InsertedChat (env.uuid w.tick) now (group_chat title avatar creator) d
                row d' e))
        λ c.
          Keeps-bind _ _
            (Keeps-on_db env (λ _. insert_member now (new_member c.id creator Role.owner now))
              λ w d m d' s e.
                insert_member-HasSoundChats now (new_member c.id creator Role.owner now) d m d' s e)
            λ m. search (keeps_rules, insert_others-Keeps)

  pub get_user-ReadOnly : (id : Text) → ReadOnly (get_user env id)
  unfolding get_user
  get_user-ReadOnly id = search reads

  pub require_membership-ReadOnly : (c u : Text) → ReadOnly (require_membership env c u)
  unfolding require_membership find_membership
  require_membership-ReadOnly c u = search reads depth 12

  pub require_member-ReadOnly : (c u : Text) → ReadOnly (require_member env c u)
  unfolding require_member
  require_member-ReadOnly c u = search (reads, require_membership-ReadOnly)

  -- The loops over raw user ids only read.
  pub collect_users-ReadOnly :
      (errs : LoopErrors) (seen raws : List Text) → ReadOnly (collect_users env errs seen raws)
  unfolding collect_users
  collect_users-ReadOnly errs seen [] = search reads
  collect_users-ReadOnly errs seen (raw ∷ raws) = ReadOnly-bind _ _ (search reads) λ _.
      go (known (trim_space raw) seen) (collect_users-ReadOnly errs seen raws)
        (collect_users-ReadOnly errs (trim_space raw ∷ seen) raws)
    where
      go :
          (b : Bool)
          → ReadOnly (collect_users env errs seen raws)
          → ReadOnly (collect_users env errs (trim_space raw ∷ seen) raws)
          → ReadOnly (elim b [
            | true ↦ collect_users env errs seen raws
            | false ↦ do
              on_error
                  (unless_found (not_found_error errs.missing) errs.lookup)
                  (get_user env (trim_space raw))
              rest ← collect_users env errs (trim_space raw ∷ seen) raws
              pure (trim_space raw ∷ rest)
          ])
      go true a b = a
      go false a b =
          ReadOnly-bind _ _ (ReadOnly-on_error _ _ (get_user-ReadOnly (trim_space raw)))
            λ _. ReadOnly-bind _ _ b λ rest. search reads

  pub get_chat-ReadOnly : (id : Text) → ReadOnly (get_chat env id)
  unfolding get_chat
  get_chat-ReadOnly id = search reads
