-- ===== src/Service/Chats/Opening.antt =====
-- chat_service.go, CreateDirect: it answers where nothing fails.
use gomsg.Prelude.{
  ℕ, suc, Text, true, false, none, some, [], ◌∷◌, ◌≡◌, ◌≢◌, refl, ap, ◌∙◌, arith, leb, length,
  trim_space, to_lower, text_eq, text_eq_iff, text_eq_refl, any_row, find_row, any_row-found,
  any_row-none, is_empty,
}
use gomsg.Errors.{err_not_found, is_not_found}
use gomsg.Result.{ok, fail}
use gomsg.Domain.{Chat, ChatType, User}
use gomsg.Store.{Env, Db, World, Go, pure}
use gomsg.Store.Runs.{
  later, run-ensure, run-lift, run-bind, run-on_error, run-query, run-query_fail, run-caught,
  run-exec,
}
use gomsg.Uuid.{uuid_match, cast_uuid}
use gomsg.Tables.Messages.{chat_exists, user_exists}
use gomsg.Tables.Users.{select_user}
use gomsg.Tables.Chats.Creation.{
  is_live_direct, select_direct, insert_chat, insert_members, cast_adds, added_members, adds_exist,
}
use gomsg.Repository.Chats.{blank_chat, get_direct_by_key, create_chat, add_members}
use gomsg.Repository.Users.{get_user}
use gomsg.Service.ChatParts.{ChatDetail, chat_detail, direct_key, pair_of, both}
use gomsg.Service.Chats.{after_create, after_lookup, open_direct, create_direct}

-- Nothing fails, and the ids that are drawn are new and spelled as PostgreSQL prints them.
pub record IsCalm (env : Env) (d : Db) : Type 0 where
  pub no_fault : (t : ℕ) → env.fault t ≡ none
  pub formed : (t : ℕ) → uuid_match (env.uuid t) ≡ true
  pub printed : (t : ℕ) → to_lower (env.uuid t) ≡ env.uuid t
  pub unused : (t : ℕ) → chat_exists (env.uuid t) d ≡ false

finds_user :
    (d : Db) (id : Text)
    → uuid_match id ≡ true
    → user_exists (to_lower id) d ≡ true
    → (u : User) × (select_user id d ≡ ok u)
unfolding select_user cast_uuid
finds_user d id m h =
    let (u, e) = any_row-found (λ u. text_eq (User.id u) (to_lower id)) d.users h in (u, ap₂ m e)
  where
    ap₂ :
        {u : User}
        → uuid_match id ≡ true
        → find_row (λ u. text_eq (User.id u) (to_lower id)) d.users ≡ some u
        → select_user id d ≡ ok u
    ap₂ m e = ground arith

-- The row of a new direct chat
abbrev new_direct : Text → Text → ℕ → Chat
new_direct id key now = record (blank_chat ChatType.direct (some key)) {
  id = id;
  created_at = now;
  updated_at = now;
}

inserts_chat :
    (id key : Text) (now : ℕ) (d : Db)
    → to_lower id ≡ id
    → leb (length key) 64 ≡ true
    → chat_exists id d ≡ false
    → any_row (is_live_direct key) d.chats ≡ false
    → insert_chat id now (blank_chat ChatType.direct (some key)) d
      ≡ ok (new_direct id key now, record d { chats = new_direct id key now ∷ d.chats })
unfolding insert_chat
inserts_chat id key now d l f u k = rw (l, f, u, k) refl

inserts_both :
    (id key actor peer : Text) (now at : ℕ) (d : Db)
    → uuid_match id ≡ true
    → to_lower id ≡ id
    → uuid_match actor ≡ true
    → uuid_match peer ≡ true
    → user_exists (to_lower actor) d ≡ true
    → user_exists (to_lower peer) d ≡ true
    → let d1 = record d { chats = new_direct id key now ∷ d.chats } in
      insert_members id (both actor peer) at d1
      ≡ ok (
        tt,
        record d1 {
          members = added_members id at (both (to_lower actor) (to_lower peer)) d.members;
        },
      )
unfolding insert_members cast_uuid cast_adds adds_exist any_row
inserts_both id key actor peer now at d m l ma mp ua up = ground (arith, text_eq_refl id)

module _ (env : Env) (hash : Text → Text) (actor peer key : Text) where
  -- The users, whose direct chat there is none of yet.
  pub record AreReady (d : Db) : Type 0 where
    pub actor_id : uuid_match actor ≡ true
    pub peer_id : uuid_match peer ≡ true
    pub actor_there : user_exists (to_lower actor) d ≡ true
    pub peer_there : user_exists (to_lower peer) d ≡ true
    pub no_chat : any_row (is_live_direct key) d.chats ≡ false

  created :
      (again : Go ChatDetail) (v : World) (r : AreReady v.db)
      → IsCalm env v.db
      → leb (length key) 64 ≡ true
      → let c = new_direct (env.uuid (suc v.tick)) key (env.clock (suc v.tick)) in
        (after_lookup env hash actor peer key again (fail err_not_found) v).0 ≡ ok (chat_detail c)
  unfolding after_lookup after_create create_chat add_members is_not_found pure
  created again v r calm short =
      ap (λ x. x.0)
        (run-bind _ _ v (ok c) v1 (
            run-caught _ v v1 (ok c) (
              run-exec env
                (λ w.
                  insert_chat (env.uuid w.tick) (env.clock w.tick)
                    (blank_chat ChatType.direct (some key)))
                v c v1.db (calm.no_fault v.tick)
                (inserts_chat id key now v.db (calm.printed (suc v.tick)) short
                  (calm.unused (suc v.tick)) r.no_chat)))
          ∙ run-bind _ _ v1 tt v2 (
              run-on_error _ _ v1 v2 tt (
                run-exec env (λ w. insert_members id (both actor peer) (env.clock w.tick)) v1 tt
                  v2.db (calm.no_fault v1.tick)
                  (inserts_both id key actor peer now (env.clock (suc v1.tick)) v.db
                    (calm.formed (suc v.tick)) (calm.printed (suc v.tick)) r.actor_id r.peer_id
                    r.actor_there r.peer_there))))
    where
      id : Text
      id = env.uuid (suc v.tick)

      now : ℕ
      now = env.clock (suc v.tick)

      c : Chat
      c = new_direct id key now

      v1 : World
      v1 = record (later v) { db = record v.db { chats = c ∷ v.db.chats } }

      v2 : World
      v2 = record (later v1) {
        db = record v1.db {
          members =
              added_members id (env.clock (suc v1.tick)) (both (to_lower actor) (to_lower peer))
                v.db.members;
        };
      }

  opens :
      (n : ℕ) (v : World)
      → AreReady v.db
      → IsCalm env v.db
      → leb (length key) 64 ≡ true
      → (out : ChatDetail) × ((open_direct env hash (suc n) actor peer key v).0 ≡ ok out)
  unfolding open_direct get_direct_by_key select_direct
  opens n v r calm short = (
    chat_detail (new_direct (env.uuid (suc (later v).tick)) key (env.clock (suc (later v).tick))),
    ap (λ x. x.0)
          (run-bind _ _ v (fail err_not_found) (later v) (
            run-caught _ v (later v) (fail err_not_found) (
              run-query_fail env (select_direct key) v err_not_found (calm.no_fault v.tick)
                (none_found v.db (any_row-none (is_live_direct key) v.db.chats r.no_chat)))))
        ∙ created (open_direct env hash n actor peer key) (later v) r calm short,
  )
    where
      none_found :
          (d : Db)
          → find_row (is_live_direct key) d.chats ≡ none
          → select_direct key d ≡ fail err_not_found
      none_found d e = ground arith

not_empty : (s : Text) → uuid_match s ≡ true → is_empty s ≡ false
unfolding uuid_match
not_empty [] h = absurd (cc)
not_empty (c ∷ s) h = refl

-- Where nothing fails, the drawn ids are new, and the key, of which there is no live chat, is at most 64
-- long, a user who asks for a direct chat with another one is answered with it. The ids have no white
-- space around them.
pub create_direct-answers :
    (env : Env) (hash : Text → Text) (actor peer : Text) (w : World)
    → IsCalm env w.db
    → AreReady env hash actor peer (hash (pair_of actor peer)) w.db
    → leb (length (hash (pair_of actor peer))) 64 ≡ true
    → trim_space peer ≡ peer
    → peer ≢ actor
    → (out : ChatDetail) × ((create_direct env hash actor peer w).0 ≡ ok out)
unfolding create_direct get_user
create_direct-answers env hash actor peer w calm r short trimmed other =
    let key = hash (pair_of actor peer) in
    let (u, found) = finds_user w.db peer r.peer_id r.peer_there in
    let (out, e) = opens env hash actor peer key 2 (later w) r calm short in
    (
      out,
      ap (λ x. x.0)
            (run-ensure _ _ _ w (rw (not_empty actor r.actor_id) refl)
              ∙ run-ensure _ _ _ w (rw (trimmed, not_empty peer r.peer_id) refl)
              ∙ run-ensure _ _ _ w (ap uuid_match trimmed ∙ r.peer_id)
              ∙ run-ensure _ _ _ w
                  (ground (arith, ap (λ t. text_eq t actor) trimmed, text_eq_iff peer actor, other))
              ∙ run-bind _ _ w u (later w) (
                  run-on_error _ _ w (later w) u (
                    run-query env (select_user (trim_space peer)) w u (calm.no_fault w.tick)
                      (ap (λ t. select_user t w.db) trimmed ∙ found)))
              ∙ run-lift _ key _ (later w) (keyed trimmed))
          ∙ ap (λ t. (open_direct env hash 3 actor t key (later w)).0) trimmed
          ∙ e,
    )
  where
    keyed :
        trim_space peer ≡ peer
        → direct_key hash actor (trim_space peer) ≡ ok (hash (pair_of actor peer))
    keyed t =
        ap (direct_key hash actor) t
        ∙ unfold direct_key in ground (arith, not_empty actor r.actor_id, not_empty peer r.peer_id)
