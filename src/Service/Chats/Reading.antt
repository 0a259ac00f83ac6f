-- ===== src/Service/Chats/Reading.antt =====
-- chat_service.go, ListMine, Get and Members: what a user is shown of his chats.
use gomsg.Prelude.{
  ℕ, rows_where, ◌↔◌, IsClamped, length-map, take, drop, zero, suc, ◌≤◌, ℤ, pos, negsuc, Text, Bool,
  true, false, List, map, ◌≡◌, refl, sym, ap, subst, arith, to_lower, length, All, IsPageFrom,
  take-IsPageFrom, sort_by,
}
use gomsg.Result.{ok}
use gomsg.Domain.{Chat, ChatListRow, ChatMember, Page}
use gomsg.Store.{Env, Db, World}
use gomsg.Store.Outcome.{Yields, Yields-pure, Yields-map, Yields-read}
use gomsg.Store.Steps.{Yields-ensure, Yields-lift, Yields-query_or}
use gomsg.Uuid.{parse_id, cast_uuid}
use gomsg.Tables.Chats.{select_chat, select_members}
use gomsg.Tables.Chats.Members.{
  HasDistinctKeys, HasDistinctMembers, select_members-HasDistinctMembers,
}
use gomsg.Tables.Chats.Summaries.{
  comes_after, pair_after, joined_chats, user_chats, summary_row, select_summaries, norm_limit,
  norm_offset,
}
use gomsg.Repository.Chats.{get_chat, get_chat_members, list_user_chats_summary}
use gomsg.Service.ChatParts.{
  MemberDto, to_member_dto, ChatDetail, ChatSummary, chat_detail, to_chat_summary, clamp_chat_limit,
  clamp_offset,
}
use gomsg.Service.Chats.{list_mine, get_detail, members}
use gomsg.Service.Chats.Effects.{require_member-ReadOnly}
use gomsg.Service.Chats.Direct.{require_member-finds}
use gomsg.Service.Messages.Reads.{not-true}
use gomsg.Tables.Chats.Grown.{is_member}
use gomsg.Service.Chats.Shown.{
  IsBehind, comes_after_iff, clamp-IsClamped, Shows, summary_rows-Shows,
}
use gomsg.Service.Chats.Joined.{
  IsMine, IsJoined, joined_chats-IsJoined, is_mine, is_mine_iff, joined_chats-rows,
}

-- The limit of a list: what was asked for, if it is from 1 to 100, and else 30 or 100.
clamp-le : (i : ℤ) → clamp_chat_limit i ≤ 100
unfolding clamp_chat_limit
clamp-le (pos zero) = omega arith
clamp-le (pos (suc n)) = ground arith
clamp-le (negsuc n) = omega arith

norm-clamp : (i : ℤ) → norm_limit (pos (clamp_chat_limit i)) ≡ clamp_chat_limit i
unfolding clamp_chat_limit norm_limit
norm-clamp (pos zero) = refl
norm-clamp (pos (suc n)) = ground arith
norm-clamp (negsuc n) = refl

comes_after_asymm : (a b : Chat) → comes_after a b ≡ true → comes_after b a ≡ false
unfolding comes_after
comes_after_asymm a b h = ground arith

comes_after_le_trans :
    (a b c : Chat) → comes_after a b ≡ false → comes_after b c ≡ false → comes_after a c ≡ false
unfolding comes_after
comes_after_le_trans a b c h k = ground arith

-- How many rows a page skips: none for a negative offset
abbrev pub IsSkip : ℤ → ℕ → Type 0
IsSkip (negsuc k) n = n ≡ 0
IsSkip (pos k) n = n ≡ k

clamp-IsSkip : (i : ℤ) → IsSkip i (clamp_offset i)
clamp-IsSkip (negsuc k) = refl
clamp-IsSkip (pos k) = refl

-- What a successful ListMine answers with.
pub record IsChatList (actor : Text) (limit offset : ℤ) (d : Db) (out : List ChatSummary)
    : Type 0 where
  pub mine : Chat → Bool
  pub mine_means : (c : Chat) → (mine c ≡ true) ↔ IsMine (to_lower actor) d c
  pub joined : List (Chat × ChatMember)
  pub every_chat : map (λ p. p.0) joined ≡ rows_where mine d.chats
  pub memberships : All (IsJoined (to_lower actor) d) joined
  pub behind : Chat → Chat → Bool
  pub behind_means :
      (a b : Chat)
      → (behind a b ≡ true) ↔ IsBehind a.last_message_at b.last_message_at a.updated_at b.updated_at
  pub size : ℕ
  pub clamped : IsClamped 30 100 limit size
  pub skip : ℕ
  pub skipped : IsSkip offset skip
  pub rows : List (Chat × ChatMember)
  pub page : IsPageFrom (λ p q. behind p.0 q.0) skip size joined rows
  pub shown : Shows d rows out
  pub bounded : length out ≤ 100

-- The chat that Get or Members is asked for, of which the actor is a member
pub record IsAsked (actor chat_raw : Text) (d : Db) (chat_id : Text) : Type 0 where
  pub parsed : parse_id "invalid chat_id" chat_raw ≡ ok chat_id
  pub member : is_member chat_id actor d ≡ true

module _ (env : Env) (actor : Text) where
  list_mine-Yields :
      (limit offset : ℤ) (d : Db)
      → Yields d (λ out _. IsChatList actor limit offset d out) (list_mine env actor limit offset)
  unfolding list_mine list_user_chats_summary select_summaries cast_uuid norm_offset
  list_mine-Yields limit offset d = Yields-ensure _ _ _ λ _. Yields-query_or _ env _ _ λ rs e.
      Yields-pure (map to_chat_summary rs) (
        let eq : rs ≡ map (summary_row d) (user_chats (to_lower actor) page d) = ground arith in
        answered rs eq)
    where
      page : Page
      page = record { limit = pos (clamp_chat_limit limit); offset = pos (clamp_offset offset) }

      answered :
          (rs : List ChatListRow)
          → rs ≡ map (summary_row d) (user_chats (to_lower actor) page d)
          → IsChatList actor limit offset d (map to_chat_summary rs)
      answered rs e = record {
        mine = is_mine (to_lower actor) d.members;
        mine_means = is_mine_iff (to_lower actor) d;
        joined = joined_chats (to_lower actor) d.members d.chats;
        every_chat = joined_chats-rows (to_lower actor) d.members d.chats;
        memberships = joined_chats-IsJoined (to_lower actor) d d.chats;
        behind = comes_after;
        behind_means = comes_after_iff;
        size = clamp_chat_limit limit;
        clamped = clamp-IsClamped limit;
        skip = clamp_offset offset;
        skipped = clamp-IsSkip offset;
        rows = user_chats (to_lower actor) page d;
        page = is_page;
        shown =
            subst (Shows d (user_chats (to_lower actor) page d)) (sym (ap (map to_chat_summary) e))
              (summary_rows-Shows d (user_chats (to_lower actor) page d));
        bounded = omega (
          arith,
          length-map to_chat_summary rs,
          ap length e,
          length-map (summary_row d) (user_chats (to_lower actor) page d),
          is_page.short,
          clamp-le limit,
        );
      }
        where
          is_page :
              IsPageFrom pair_after
                (clamp_offset offset)
                (clamp_chat_limit limit)
                (joined_chats (to_lower actor) d.members d.chats)
                (user_chats (to_lower actor) page d)
          is_page =
              subst
                (λ n.
                  IsPageFrom pair_after (clamp_offset offset) (clamp_chat_limit limit)
                    (joined_chats (to_lower actor) d.members d.chats)
                    (take n (
                      drop (clamp_offset offset)
                        (sort_by pair_after (joined_chats (to_lower actor) d.members d.chats)))))
                (sym (norm-clamp limit))
                (take-IsPageFrom pair_after (λ p q. comes_after_asymm p.0 q.0)
                  (λ p q r. comes_after_le_trans p.0 q.0 r.0) (clamp_offset offset)
                  (clamp_chat_limit limit) (joined_chats (to_lower actor) d.members d.chats))

  -- A successful list of chats is a page of the list of all live chats of which the actor is a member,
  -- in the order of their last message, newest first and those without one last, and then of their last
  -- change. The page starts at the offset and has as many chats as were asked for within 1 to 100 (30
  -- where nothing was asked for), or all that are left. Each is shown with the preview of its last
  -- message, if that is not deleted, and with the number of its messages that are not deleted and newer
  -- than the last one that the actor has read.
  pub list_mine-IsChatList :
      (limit offset : ℤ) (w : World) (out : List ChatSummary)
      → (list_mine env actor limit offset w).0 ≡ ok out
      → IsChatList actor limit offset w.db out
  list_mine-IsChatList limit offset w out e = (list_mine-Yields limit offset w.db).at w out refl e

  get_detail-Yields :
      (chat_raw : Text) (d : Db)
      → Yields d
          (λ out _.
            (chat_id : Text) × IsAsked actor chat_raw d chat_id
            × ((c : Chat) × (select_chat chat_id d ≡ ok c)
                × (c.is_deleted ≡ false)
                × (out ≡ chat_detail c)))
          (get_detail env actor chat_raw)
  unfolding get_detail get_chat
  get_detail-Yields chat_raw d = Yields-ensure _ _ _ λ _. Yields-lift _ _ λ chat_id parsed.
      Yields-read (λ _. is_member chat_id actor d ≡ true) _ _
        (require_member-ReadOnly env chat_id actor)
        (Yields-map _ _ (require_member-finds env chat_id actor d) λ _ d1 h. h.1)
        λ _ is_in. Yields-query_or _ env _ _ λ c found. Yields-ensure _ _ _ λ live.
          Yields-pure (chat_detail c)
            (chat_id, record { parsed = parsed; member = is_in }, (c, found, not-true _ live, refl))

  -- A successful request for the details of a chat is one of a member, and the chat is not deleted.
  pub get_detail-IsAsked :
      (chat_raw : Text) (w : World) (out : ChatDetail)
      → (get_detail env actor chat_raw w).0 ≡ ok out
      → (chat_id : Text) × IsAsked actor chat_raw w.db chat_id
        × ((c : Chat) × (select_chat chat_id w.db ≡ ok c)
            × (c.is_deleted ≡ false)
            × (out ≡ chat_detail c))
  get_detail-IsAsked chat_raw w out e = (get_detail-Yields chat_raw w.db).at w out refl e

  members-Yields :
      (chat_raw : Text) (d : Db)
      → Yields d
          (λ out _.
            (chat_id : Text) × IsAsked actor chat_raw d chat_id
            × ((ms : List ChatMember) × (select_members chat_id d ≡ ok ms)
                × (out ≡ map to_member_dto ms)))
          (members env actor chat_raw)
  unfolding members get_chat_members
  members-Yields chat_raw d = Yields-ensure _ _ _ λ _. Yields-lift _ _ λ chat_id parsed.
      Yields-read (λ _. is_member chat_id actor d ≡ true) _ _
        (require_member-ReadOnly env chat_id actor)
        (Yields-map _ _ (require_member-finds env chat_id actor d) λ _ d1 h. h.1)
        λ _ is_in. Yields-query_or _ env _ _ λ ms found.
          Yields-pure (map to_member_dto ms)
            (chat_id, record { parsed = parsed; member = is_in }, (ms, found, refl))

  -- A successful request for the members of a chat is one of a member of it, and answers with its
  -- memberships, no user twice where the keys of the table hold.
  pub members-IsAsked :
      (chat_raw : Text) (w : World) (out : List MemberDto)
      → HasDistinctKeys w.db.members
      → (members env actor chat_raw w).0 ≡ ok out
      → (chat_id : Text) × IsAsked actor chat_raw w.db chat_id
        × ((ms : List ChatMember) × (select_members chat_id w.db ≡ ok ms)
            × HasDistinctMembers ms
            × (out ≡ map to_member_dto ms))
  members-IsAsked chat_raw w out k e =
      let (c, a, (ms, f, o)) = (members-Yields chat_raw w.db).at w out refl e in
      (c, a, (ms, f, select_members-HasDistinctMembers c w.db ms k f, o))
