-- ===== src/Service/Messages/Listing.antt =====
-- message_service.go, ListByChat: the page that it answers with.
use mathlib.Core.List.{Perm}
use gomsg.Prelude.{
  length-map, ℕ, zero, suc, ◌≤◌, ℤ, pos, negsuc, Text, Bool, Option, List, [], ◌++◌, ◌≡◌, refl, sym,
  ap, subst, ◌∙◌, ◌⊎◌, arith, map, length, take, drop, take-drop, length-take, length-take-le,
  rows_where, ◌==◌, ◌↔◌, inl, inr, IsClamped, Bool-cases, ltb, true, to_lower,
}
use gomsg.Result.{ok}
use gomsg.Domain.{Message}
use gomsg.Store.{Env, Db}
use gomsg.Uuid.{parse_id, cast_uuid}
use gomsg.Store.Outcome.{Yields, Yields-pure}
use gomsg.Store.Steps.{Yields-ensure, Yields-lift, Yields-query_or}
use gomsg.Tables.Messages.{select_chat_messages, newest_first, listed}
use gomsg.Tables.Messages.Order.{newest_first-IsNewestFirst, newest_first-perm}
use gomsg.Tables.Messages.Wanted.{IsWanted, listed_iff, NoneOlder, IsNewestFirst-NoneOlder}
use gomsg.Tables.Messages.Paging.{IsPage, select_chat_messages-IsPage}
use gomsg.Repository.Messages.{get_chat_messages, norm_message_limit}
use gomsg.Service.MessageParts.{
  MessageListResponse, to_message_dto, clamp_list_limit, Layout, parse_before_cursor,
}
use gomsg.Service.Messages.{list_by_chat}
use gomsg.Service.Messages.Reads.{IsMember, Yields-member}
use gomsg.Service.Messages.Cursor.{IsCursor, parse_before_cursor-IsCursor}

-- The limit of a page: what was asked for, if it is from 1 to 200, and else 50 or 200.
pub clamp-le : (i : ℤ) → clamp_list_limit i ≤ 200
unfolding clamp_list_limit
clamp-le (pos zero) = omega arith
clamp-le (pos (suc n)) = ground arith
clamp-le (negsuc n) = omega arith

norm-clamp : (i : ℤ) → norm_message_limit (pos (clamp_list_limit i)) ≡ clamp_list_limit i
unfolding clamp_list_limit norm_message_limit
norm-clamp (pos zero) = refl
norm-clamp (pos (suc n)) = ground arith
norm-clamp (negsuc n) = refl

clamp-IsClamped : (i : ℤ) → IsClamped 50 200 i (clamp_list_limit i)
unfolding clamp_list_limit
clamp-IsClamped (pos zero) = inl (refl, refl)
clamp-IsClamped (pos (suc k)) = elim (Bool-cases (ltb 200 (suc k))) [
  | inl e ↦ inr (inr (ground arith, ground arith))
  | inr e ↦ inr (inl (ground arith, ground arith, ground arith))
]
clamp-IsClamped (negsuc k) = refl

-- The rows `rows` are a page of what `wanted` lets through: in order, newest first, and with the
-- others, `rest`, none of them newer than a row of the page. The page is full, or nothing is left.
pub record IsPageOf (wanted : Message → Bool) (table : List Message) (n : ℕ) (rows : List Message)
    : Type 0 where
  pub rest : List Message
  pub ordered : NoneOlder (rows ++ rest)
  pub all_rows : Perm (rows ++ rest) (rows_where wanted table)
  pub filled : (length rows ≡ n) ⊎ (rest ≡ [])
  pub short : length rows ≤ n

take-IsPageOf :
    (wanted : Message → Bool) (table : List Message) (n : ℕ)
    → IsPageOf wanted table n (take n (newest_first (rows_where wanted table)))
take-IsPageOf wanted table n = record {
  rest = drop n sorted;
  ordered =
      subst NoneOlder (sym (take-drop n sorted))
        (IsNewestFirst-NoneOlder _ (newest_first-IsNewestFirst found));
  all_rows = subst (λ xs. Perm xs found) (sym (take-drop n sorted)) (newest_first-perm found);
  filled = length-take n sorted;
  short = length-take-le n sorted;
}
  where
    found : List Message
    found = rows_where wanted table

    sorted : List Message
    sorted = newest_first found

cast-lower : (s t : Text) → cast_uuid s ≡ ok t → t ≡ to_lower s
unfolding cast_uuid
cast-lower s t h = ground arith

-- What an answer of ListByChat says of the tables.
pub record IsListing (parse_time : Layout → Text → Option ℕ) (actor chat_raw : Text) (limit : ℤ)
    (before_raw : Text) (d : Db) (r : MessageListResponse) : Type 0 where
  pub chat_id : Text
  pub before_id : Option Text
  pub before_time : Option ℕ
  pub size : ℕ
  pub wanted : Message → Bool
  pub rows : List Message
  pub parsed : parse_id "invalid chat_id" chat_raw ≡ ok chat_id
  pub member : IsMember d chat_id actor
  pub cursor : IsCursor parse_time before_raw before_id before_time
  pub clamped : IsClamped 50 200 limit size
  pub means :
      (m : Message)
      → (wanted m ≡ true) ↔ IsWanted (to_lower chat_id) before_id before_time d.messages m
  pub page : IsPageOf wanted d.messages size rows
  pub bounded : length rows ≤ 200
  pub answer : r.messages ≡ map to_message_dto rows
  pub more : (r.has_more ≡ true) ↔ (length rows ≡ size)

-- A list request that succeeds changes no table and is made by a member of the chat. It answers with a
-- page of the live messages of the chat behind the cursor: the newest ones, in order, as many as were
-- asked for within 1 to 200 (50 where nothing was asked for), or all that are left.
pub list_by_chat-IsListing :
    (env : Env) (parse_time : Layout → Text → Option ℕ) (actor chat_raw : Text) (limit : ℤ)
    (before_raw : Text) (d : Db)
    → Yields d
        (λ r d'. (d' ≡ d) × IsListing parse_time actor chat_raw limit before_raw d r)
        (list_by_chat env parse_time actor chat_raw limit before_raw)
unfolding list_by_chat get_chat_messages
list_by_chat-IsListing env parse_time actor chat_raw limit before_raw d = Yields-ensure _ _ _ λ _.
    Yields-lift _ _ λ chat_id parsed. Yields-member env _ _ _ λ member.
      Yields-lift _ _ λ cursor cursor_ok.
        Yields-query_or _ env _ _
          λ rows read. Yields-pure _ (refl, answer chat_id parsed member cursor cursor_ok rows read)
  where
    n : ℕ
    n = clamp_list_limit limit

    answer :
        (chat_id : Text)
        → parse_id "invalid chat_id" chat_raw ≡ ok chat_id
        → IsMember d chat_id actor
        → (cursor : Option Text × Option ℕ) → parse_before_cursor parse_time before_raw ≡ ok cursor
        → (rows : List Message)
        → select_chat_messages chat_id cursor.0 cursor.1 (norm_message_limit (pos n)) d ≡ ok rows
        → IsListing parse_time actor chat_raw limit before_raw d (record {
          messages = map to_message_dto rows;
          has_more = length (map to_message_dto rows) == n;
        })
    answer chat_id parsed member cursor cursor_ok rows read = record {
      chat_id = chat_id;
      before_id = p.before_id;
      before_time = cursor.1;
      size = n;
      wanted = listed p.chat_id p.before_id cursor.1 d.messages;
      rows = rows;
      parsed = parsed;
      member = member;
      cursor =
          parse_before_cursor-IsCursor parse_time before_raw cursor p.before_id cursor_ok
            p.before_ok;
      clamped = clamp-IsClamped limit;
      means = λ m.
          subst
            (λ c.
              (listed p.chat_id p.before_id cursor.1 d.messages m ≡ true)
              ↔ IsWanted c p.before_id cursor.1 d.messages m)
            (cast-lower chat_id p.chat_id p.chat_ok)
            (listed_iff p.chat_id p.before_id cursor.1 d.messages m);
      page = is_page;
      bounded = omega (arith, IsPageOf.short is_page, clamp-le limit);
      answer = refl;
      more = (
        λ h. ground (arith, h, length-map to_message_dto rows),
        λ h. ground (arith, h, length-map to_message_dto rows),
      );
    }
      where
        p : IsPage chat_id cursor.0 cursor.1 (norm_message_limit (pos n)) d rows
        p =
            select_chat_messages-IsPage chat_id cursor.0 cursor.1 (norm_message_limit (pos n)) d
              rows read

        is_page : IsPageOf (listed p.chat_id p.before_id cursor.1 d.messages) d.messages n rows
        is_page =
            subst (IsPageOf (listed p.chat_id p.before_id cursor.1 d.messages) d.messages n)
              (ap
                  (λ k. take k (
                    newest_first
                      (rows_where (listed p.chat_id p.before_id cursor.1 d.messages) d.messages)))
                  (sym (norm-clamp limit))
                ∙ sym p.rows_eq)
              (take-IsPageOf (listed p.chat_id p.before_id cursor.1 d.messages) d.messages n)
