-- ===== src/Tables/Chats/Summaries.antt =====
-- The listings of chat_repository.go: GetUserChats and ListUserChatsSummary.
use gomsg.Prelude.{
  ℕ, zero, suc, ℤ, pos, negsuc, Text, Bool, true, false, ◌&&◌, not, Option, none, some, List, [],
  ◌∷◌, ltb, is_some, if◌then◌else◌, text_eq, find_row, rows_where, take, drop, length, map, sort_by,
}
use gomsg.Result.{Result, ok, ◌>>=◌}
use gomsg.Domain.{Chat, ChatMember, Message, ChatListRow, Page}
use gomsg.Store.{Db}
use gomsg.Uuid.{cast_uuid}
use gomsg.Tables.Messages.{older, has_id, cast_cursor}
use gomsg.Tables.Chats.{is_member_row}

-- normPage
unfoldable pub norm_limit : ℤ → ℕ
norm_limit (negsuc n) = 50
norm_limit (pos zero) = 50
norm_limit (pos (suc n)) = if ltb 200 (suc n) then 200 else suc n

unfoldable pub norm_offset : ℤ → ℕ
norm_offset (negsuc n) = 0
norm_offset (pos n) = n

-- mem.last_read_message_id IS NULL OR EXISTS (SELECT 1 FROM messages anchor WHERE …): past the anchor,
-- where the anchor is a message of the chat
unfoldable pub is_past : Option Text → Text → List Message → Message → Bool
is_past none chat_id rows m = true
is_past (some id) chat_id rows m =
    elim (find_row (λ a. has_id id a && text_eq (Message.chat_id a) chat_id) rows) [
      | none ↦ false
      | some anchor ↦ older anchor m
    ]

abbrev pub is_unread : ChatMember → Text → List Message → Message → Bool
is_unread mem chat_id rows m =
    text_eq m.chat_id chat_id
    && not (is_some m.deleted_at)
    && is_past mem.last_read_message_id chat_id rows m

-- unread_count
unfoldable pub unread_count : ChatMember → Text → Db → ℕ
unread_count mem chat_id d = length (rows_where (is_unread mem chat_id d.messages) d.messages)

-- LEFT JOIN messages lm ON lm.id = c.last_message_id AND lm.deleted_at IS NULL
unfoldable pub preview_of : Option Text → Db → Option Message
preview_of none d = none
preview_of (some id) d =
    find_row (λ m. has_id id m && not (is_some (Message.deleted_at m))) d.messages

abbrev pub preview_text : Option Message → Option Text
preview_text none = none
preview_text (some m) = m.text

unfoldable pub list_row : Chat → ChatMember → Option Message → ℕ → ChatListRow
list_row c mem preview unread = record {
  chat = c;
  last_preview_text = preview_text preview;
  last_preview_type = elim preview [ none ↦ none | some m ↦ some (Message.type m) ];
  last_preview_sender = elim preview [ none ↦ none | some m ↦ some (Message.sender_id m) ];
  last_preview_at = elim preview [ none ↦ none | some m ↦ some (Message.created_at m) ];
  unread_count = unread;
}

-- last_message_at DESC NULLS LAST, updated_at DESC: whether `a` comes strictly after `b`
unfoldable pub comes_after : Chat → Chat → Bool
comes_after a b = elim a.last_message_at [
  | none ↦ elim b.last_message_at [ none ↦ ltb a.updated_at b.updated_at | some t ↦ true ]
  | some s ↦ elim b.last_message_at [
    | none ↦ false
    | some t ↦ if ltb s t then true else if ltb t s then false else ltb a.updated_at b.updated_at
  ]
]

abbrev pub pair_after : Chat × ChatMember → Chat × ChatMember → Bool
pair_after p q = comes_after p.0 q.0

abbrev pub recent_first : List (Chat × ChatMember) → List (Chat × ChatMember)
recent_first = sort_by pair_after

-- FROM chats c INNER JOIN chat_members mem ON mem.chat_id = c.id AND mem.user_id = $1
-- WHERE c.is_deleted = false; the primary key leaves one membership for each chat
unfoldable pub joined_chats : Text → List ChatMember → List Chat → List (Chat × ChatMember)
joined_chats user_id ms [] = []
joined_chats user_id ms (c ∷ cs) =
    let rest = joined_chats user_id ms cs in
    if c.is_deleted then rest else elim (find_row (is_member_row (Chat.id c) user_id) ms) [
      | none ↦ rest
      | some m ↦ (c, m) ∷ rest
    ]

abbrev pub page_of : {A : Type 0} → Page → List A → List A
page_of page xs = take (norm_limit page.limit) (drop (norm_offset page.offset) xs)

abbrev pub user_chats : Text → Page → Db → List (Chat × ChatMember)
user_chats user_id page d = page_of page (recent_first (joined_chats user_id d.members d.chats))

-- The statement of GetUserChats
unfoldable pub select_user_chats : Text → Page → Db → Result (List Chat)
unfolding joined_chats sort_by comes_after norm_limit norm_offset
select_user_chats user page d = do
  user_id ← cast_uuid user
  ok (map (λ p. p.0) (user_chats user_id page d))

abbrev pub summary_row : Db → Chat × ChatMember → ChatListRow
summary_row d p =
    list_row p.0 p.1 (preview_of (Chat.last_message_id p.0) d) (unread_count p.1 (Chat.id p.0) d)

-- The statement of ListUserChatsSummary
unfoldable pub select_summaries : Text → Page → Db → Result (List ChatListRow)
unfolding joined_chats sort_by comes_after norm_limit norm_offset list_row preview_of unread_count
select_summaries user page d = do
  user_id ← cast_uuid user
  ok (map (summary_row d) (user_chats user_id page d))

-- The statement of CountUnreadAfter (message_repository.go)
unfoldable pub count_after : Text → Option Text → Db → Result ℕ
unfolding is_past
count_after chat after d = do
  chat_id ← cast_uuid chat
  after_id ← cast_cursor after
  ok (
      length (
        rows_where
          (λ m.
            text_eq (Message.chat_id m) chat_id
            && not (is_some m.deleted_at)
            && is_past after_id chat_id d.messages m)
          d.messages))
