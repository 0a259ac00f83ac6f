-- ===== src/Service/Chats/Shown.antt =====
-- chat_service.go and chat_repository.go: what a row of ListMine shows, in which order and how many.
use gomsg.Prelude.{
  ℕ, zero, suc, ◌<◌, ℤ, pos, negsuc, Text, Bool, true, false, ◌&&◌, not, Option, none, some, ltb,
  if◌then◌else◌, map, List, [], ◌∷◌, ◌≡◌, ◌↔◌, ◌⊎◌, inl, inr, refl, arith, text_eq, find_row,
  rows_where, length, is_some, IsClamped, Bool-cases, leb, text_eq_iff,
}
use gomsg.Domain.{Chat, ChatMember, Message}
use gomsg.Store.{Db}
use gomsg.Tables.Messages.{older}
use gomsg.Tables.Messages.Wanted.{IsOlder, IsAnchor, older_iff, and_iff, not_some_iff}
use gomsg.Tables.Chats.Summaries.{
  comes_after, is_past, is_unread, summary_row, list_row, preview_of, unread_count,
}
use gomsg.Repository.Writer.{type_name}
use gomsg.Service.ChatParts.{
  ChatSummary, LastMessagePreview, to_chat_summary, preview_dto, chat_type_name, clamp_chat_limit,
}

-- Behind in the list: with an older last message, or else with an older change; chats without a message
-- are behind those with one.
abbrev pub IsBehind : Option ℕ → Option ℕ → ℕ → ℕ → Type 0
IsBehind none none u v = u < v
IsBehind none (some t) u v = Unit
IsBehind (some s) none u v = ⊥
IsBehind (some s) (some t) u v = (s < t) ⊎ ((s ≡ t) × (u < v))

pub comes_after_iff :
    (a b : Chat)
    → (comes_after a b ≡ true)
      ↔ IsBehind a.last_message_at b.last_message_at a.updated_at b.updated_at
unfolding comes_after
comes_after_iff a b = go a.last_message_at b.last_message_at
  where
    go :
        (x y : Option ℕ)
        → (elim x [
          | none ↦ elim y [ none ↦ ltb a.updated_at b.updated_at | some t ↦ true ]
          | some s ↦ elim y [
            | none ↦ false
            | some t ↦
                if ltb s t then true else if ltb t s then false else ltb a.updated_at b.updated_at
          ]
        ]
            ≡ true)
          ↔ IsBehind x y a.updated_at b.updated_at
    go none none = (λ h. ground arith, λ h. ground (arith, h))
    go none (some t) = (λ h. tt, λ h. refl)
    go (some s) none = (λ h. absurd (cc), λ h. absurd h)
    go (some s) (some t) = (λ h. ground arith, λ h. ground (arith, h))

-- Newer than the message that the member has read last; each message is, where he has read none.
abbrev pub IsPast : Option Text → Text → List Message → Message → Type 0
IsPast none chat rows m = Unit
IsPast (some id) chat rows m = (a : Message) × IsAnchor chat id rows a × IsOlder a m

is_past_iff :
    (o : Option Text) (chat : Text) (rows : List Message) (m : Message)
    → (is_past o chat rows m ≡ true) ↔ IsPast o chat rows m
unfolding is_past
is_past_iff none chat rows m = (λ h. tt, λ h. refl)
is_past_iff (some id) chat rows m =
    go (find_row (λ x. text_eq (Message.id x) id && text_eq x.chat_id chat) rows)
  where
    go :
        (o : Option Message)
        → (elim o [ none ↦ false | some a ↦ older a m ] ≡ true)
          ↔ ((a : Message) × (o ≡ some a) × IsOlder a m)
    go none = (λ h. absurd (cc), λ (a, e, h). absurd (cc))
    go (some x) =
        (λ h. (x, refl, (older_iff x m).0 h), λ (a, e, h). ground (arith, e, (older_iff a m).1 h))

-- A live message of the chat that the member has not read
abbrev pub IsUnread : ChatMember → Text → List Message → Message → Type 0
IsUnread mem chat rows m =
    (m.chat_id ≡ chat) × (m.deleted_at ≡ none) × IsPast mem.last_read_message_id chat rows m

is_unread_iff :
    (mem : ChatMember) (chat : Text) (rows : List Message) (m : Message)
    → (is_unread mem chat rows m ≡ true) ↔ IsUnread mem chat rows m
is_unread_iff mem chat rows m = (
  λ h.
      let k = (and_iff _ _).0 h in
      let l = (and_iff _ _).0 k.0 in
      (
        (text_eq_iff m.chat_id chat).0 l.0,
        (not_some_iff m.deleted_at).0 l.1,
        (is_past_iff mem.last_read_message_id chat rows m).0 k.1,
      ),
  λ h. (and_iff _ _).1 (
    (and_iff _ _).1 ((text_eq_iff m.chat_id chat).1 h.0, (not_some_iff m.deleted_at).1 h.1),
    (is_past_iff mem.last_read_message_id chat rows m).1 h.2,
  ),
)

-- The live message with an id
abbrev pub IsLive : Text → List Message → Option Message → Type 0
IsLive id rows found =
    find_row (λ x. text_eq (Message.id x) id && not (is_some x.deleted_at)) rows ≡ found

-- The preview of a chat: its last message as it is stored, and nothing where there is none or it is deleted
abbrev pub IsPreview : Option Text → List Message → Option LastMessagePreview → Type 0
IsPreview none rows p = p ≡ none
IsPreview (some id) rows p =
    (IsLive id rows none × (p ≡ none))
    ⊎ ((m : Message) × IsLive id rows (some m)
        × (p
            ≡ some (record {
              id = id;
              sender_id = m.sender_id;
              type = type_name m.type;
              text = m.text;
              created_at = m.created_at;
            })))

-- What a row of the list shows of a chat and the user's membership in it.
pub record IsSummary (d : Db) (p : Chat × ChatMember) (s : ChatSummary) : Type 0 where
  pub id : s.id ≡ Chat.id p.0
  pub type : s.type ≡ chat_type_name (Chat.type p.0)
  pub title : s.title ≡ Chat.title p.0
  pub avatar_url : s.avatar_url ≡ Chat.avatar_url p.0
  pub created_at : s.created_at ≡ Chat.created_at p.0
  pub updated_at : s.updated_at ≡ Chat.updated_at p.0
  pub last_message : IsPreview (Chat.last_message_id p.0) d.messages s.last_message
  pub unread : Message → Bool
  pub means : (m : Message) → (unread m ≡ true) ↔ IsUnread p.1 (Chat.id p.0) d.messages m
  pub count : s.unread_count ≡ length (rows_where unread d.messages)

list_row-IsPreview :
    (c : Chat) (mem : ChatMember) (d : Db) (n : ℕ) (o : Option Text)
    → c.last_message_id ≡ o
    → IsPreview o d.messages (preview_dto (list_row c mem (preview_of o d) n))
unfolding preview_dto list_row preview_of
list_row-IsPreview c mem d n none e = ground (arith, e)
list_row-IsPreview c mem d n (some id) e =
    go (find_row (λ x. text_eq (Message.id x) id && not (is_some x.deleted_at)) d.messages) refl
  where
    go :
        (found : Option Message)
        → IsLive id d.messages found
        → IsPreview (some id) d.messages (preview_dto (list_row c mem found n))
    go none f = inl (f, ground (arith, e))
    go (some m) f = inr (m, f, ground (arith, e))

pub summary_row-IsSummary :
    (d : Db) (p : Chat × ChatMember) → IsSummary d p (to_chat_summary (summary_row d p))
unfolding to_chat_summary list_row unread_count
summary_row-IsSummary d p = record {
  id = refl;
  type = refl;
  title = refl;
  avatar_url = refl;
  created_at = refl;
  updated_at = refl;
  last_message =
      list_row-IsPreview p.0 p.1 d (unread_count p.1 (Chat.id p.0) d) (Chat.last_message_id p.0)
        refl;
  unread = is_unread p.1 (Chat.id p.0) d.messages;
  means = is_unread_iff p.1 (Chat.id p.0) d.messages;
  count = refl;
}

pub clamp-IsClamped : (i : ℤ) → IsClamped 30 100 i (clamp_chat_limit i)
unfolding clamp_chat_limit
clamp-IsClamped (pos zero) = inl (refl, refl)
clamp-IsClamped (pos (suc k)) = elim (Bool-cases (leb (suc k) 100)) [
  | inl e ↦ inr (inl (ground arith, ground arith, ground arith))
  | inr e ↦ inr (inr (ground arith, ground arith))
]
clamp-IsClamped (negsuc k) = refl

-- Each row of the answer shows the chat and the membership at its place.
abbrev pub Shows : Db → List (Chat × ChatMember) → List ChatSummary → Type 0
Shows d [] [] = Unit
Shows d [] (s ∷ out) = ⊥
Shows d (p ∷ rows) [] = ⊥
Shows d (p ∷ rows) (s ∷ out) = IsSummary d p s × Shows d rows out

pub summary_rows-Shows :
    (d : Db) (rows : List (Chat × ChatMember))
    → Shows d rows (map to_chat_summary (map (summary_row d) rows))
summary_rows-Shows d [] = tt
summary_rows-Shows d (p ∷ rows) = (summary_row-IsSummary d p, summary_rows-Shows d rows)
