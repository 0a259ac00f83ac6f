-- ===== src/Tables/Chats/Keys.antt =====
-- migration/002_init_chats.sql: the keys of `chats` and `chat_members`, under the statements that insert
-- into them.
use gomsg.Prelude.{
  ℕ, Text, Bool, true, false, ◌&&◌, not, Option, none, some, List, [], ◌∷◌, ◌≡◌, refl, sym, ◌∙◌, ap,
  subst, arith, text_eq, to_lower, any_row, All, All-map,
}
use gomsg.Result.{ok}
use gomsg.Domain.{Chat, ChatMember, User}
use gomsg.Store.{Db}
use gomsg.Uuid.{cast_uuid}
use gomsg.Tables.Chats.Members.{HasDistinctKeys}
use gomsg.Tables.Chats.Creation.{is_direct, is_live_direct, key_taken, insert_chat}

abbrev pub chat_id_in : Text → List Chat → Bool
chat_id_in id = any_row (λ c. text_eq (Chat.id c) id)

-- Two live direct chats of one key
abbrev pub same_pair : Bool → Option Text → Chat → Bool
same_pair live none x = false
same_pair live (some k) x = live && is_live_direct k x

abbrev pub clashes : Chat → Chat → Bool
clashes c = same_pair (is_direct c.type && not c.is_deleted) c.direct_key

-- The primary key of `chats`, and uq_chats_direct_key
abbrev pub HasDistinctChats : List Chat → Type 0
HasDistinctChats [] = Unit
HasDistinctChats (c ∷ cs) =
    (chat_id_in c.id cs ≡ false) × (any_row (clashes c) cs ≡ false) × HasDistinctChats cs

-- A membership of an existing user in an existing chat, whose ids are spelled as PostgreSQL prints them
pub record IsPlaced (chats : List Chat) (users : List User) (m : ChatMember) : Type 0 where
  pub chat_printed : to_lower m.chat_id ≡ m.chat_id
  pub user_printed : to_lower m.user_id ≡ m.user_id
  pub in_chat : chat_id_in m.chat_id chats ≡ true
  pub of_user : any_row (λ u. text_eq (User.id u) m.user_id) users ≡ true

pub record HasSoundChats (d : Db) : Type 0 where
  pub chats : HasDistinctChats d.chats
  pub members : HasDistinctKeys d.members
  pub placed : All (IsPlaced d.chats d.users) d.members

-- The chat that insert_chat stores
pub record InsertedChat (drawn : Text) (now : ℕ) (c : Chat) (d : Db) (row : Chat) (d' : Db)
    : Type 0 where
  pub id : row.id ≡ to_lower drawn
  pub type : row.type ≡ c.type
  pub title : row.title ≡ c.title
  pub avatar_url : row.avatar_url ≡ c.avatar_url
  pub direct_key : row.direct_key ≡ c.direct_key
  pub created_at : row.created_at ≡ now
  pub live : row.is_deleted ≡ false
  pub unused : chat_id_in row.id d.chats ≡ false
  pub key_free : key_taken c.direct_key d ≡ false
  pub stored : d' ≡ record d { chats = row ∷ d.chats }

pub insert_chat-InsertedChat :
    (drawn : Text) (now : ℕ) (c : Chat) (d : Db) (row : Chat) (d' : Db)
    → insert_chat drawn now c d ≡ ok (row, d')
    → InsertedChat drawn now c d row d'
unfolding insert_chat cast_uuid
insert_chat-InsertedChat drawn now c d row d' h = ground arith

no_clash :
    (live : Bool) (k : Option Text) (d : Db)
    → key_taken k d ≡ false
    → any_row (same_pair live k) d.chats ≡ false
unfolding any_row
no_clash live none d h = go d.chats
  where
    go : (cs : List Chat) → any_row (same_pair live none) cs ≡ false
    go [] = refl
    go (c ∷ cs) = go cs
no_clash live (some k) d h = go live d.chats h
  where
    go :
        (b : Bool) (cs : List Chat)
        → any_row (is_live_direct k) cs ≡ false
        → any_row (same_pair b (some k)) cs ≡ false
    go b [] e = refl
    go b (c ∷ cs) e = ground (arith, go b cs, e)

-- A stored chat keeps the keys.
pub insert_chat-HasSoundChats :
    (drawn : Text) (now : ℕ) (c : Chat) (d : Db) (row : Chat) (d' : Db)
    → HasSoundChats d
    → InsertedChat drawn now c d row d'
    → HasSoundChats d'
unfolding any_row
insert_chat-HasSoundChats drawn now c d row d' s i = subst HasSoundChats (sym i.stored) (record {
  chats = (
    i.unused,
    no_clash _ row.direct_key d (ap (λ k. key_taken k d) i.direct_key ∙ i.key_free),
    s.chats,
  );
  members = s.members;
  placed =
      All-map (IsPlaced d.chats d.users) (IsPlaced (row ∷ d.chats) d.users)
        (λ m p. record {
          chat_printed = p.chat_printed;
          user_printed = p.user_printed;
          in_chat = ground (arith, p.in_chat);
          of_user = p.of_user;
        })
        d.members s.placed;
})
