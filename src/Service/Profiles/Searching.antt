-- ===== src/Service/Profiles/Searching.antt =====
-- user_service.go, Search: who is found.
use gomsg.Prelude.{
  ◌∙◌, length-map, map-map, ℕ, zero, suc, ◌≤◌, ℤ, pos, negsuc, Text, true, false, List, map, ◌≡◌,
  refl, sym, ap, subst, arith, ltb, trim_space, rows_where, length, IsPageFrom, take-IsPageFrom,
  take, drop, sort_by,
}
use gomsg.Result.{ok}
use gomsg.Domain.{User}
use gomsg.Store.{Env, Db, World}
use gomsg.Store.Outcome.{Yields, Yields-pure}
use gomsg.Store.Steps.{Yields-ensure, Yields-query_or}
use gomsg.Tables.Chats.Summaries.{norm_limit, norm_offset}
use gomsg.Tables.Users.{
  Collation, matches, search_users, search_pattern, registered_before, without_hash,
}
use gomsg.Repository.Users.{search_by}
use gomsg.Service.ChatParts.{clamp_offset}
use gomsg.Service.Profiles.{UserCard, to_user_card, clamp_user_limit, search_cards}

-- The limit of a search: what was asked for, if it is from 1 to 50, and else 20 or 50.
clamp-le : (i : ℤ) → clamp_user_limit i ≤ 50
unfolding clamp_user_limit
clamp-le (pos zero) = omega arith
clamp-le (pos (suc n)) = ground arith
clamp-le (negsuc n) = omega arith

norm-clamp : (i : ℤ) → norm_limit (pos (clamp_user_limit i)) ≡ clamp_user_limit i
unfolding clamp_user_limit norm_limit
norm-clamp (pos zero) = refl
norm-clamp (pos (suc n)) = ground arith
norm-clamp (negsuc n) = refl

-- What a successful Search answers with.
pub record IsFound (col : Collation) (q : Text) (limit offset : ℤ) (d : Db) (out : List UserCard)
    : Type 0 where
  pub rows : List User
  pub answer : out ≡ map to_user_card rows
  pub page :
      IsPageFrom registered_before
        (clamp_offset offset)
        (clamp_user_limit limit)
        (rows_where (matches col (search_pattern (trim_space q))) d.users)
        rows
  pub bounded : length out ≤ 50

ltb_asymm : (a b : ℕ) → ltb a b ≡ true → ltb b a ≡ false
ltb_asymm a b h = ground arith

ltb_le_trans : (a b c : ℕ) → ltb a b ≡ false → ltb b c ≡ false → ltb a c ≡ false
ltb_le_trans a b c h k = ground arith

module _ (env : Env) (col : Collation) where
  search_cards-Yields :
      (q : Text) (limit offset : ℤ) (d : Db)
      → Yields d (λ out _. IsFound col q limit offset d out) (search_cards env col q limit offset)
  unfolding search_cards search_by search_users norm_offset to_user_card
  search_cards-Yields q limit offset d =
      Yields-ensure _ _ _
        λ _. Yields-query_or _ env _ _ λ rs e. Yields-pure (map to_user_card rs) (answered rs (cc))
    where
      table : List User
      table = rows_where (matches col (search_pattern (trim_space q))) d.users

      page_rows : ℕ → List User
      page_rows n = take n (drop (clamp_offset offset) (sort_by registered_before table))

      shown : List User
      shown = page_rows (norm_limit (pos (clamp_user_limit limit)))

      is_page :
          IsPageFrom registered_before (clamp_offset offset) (clamp_user_limit limit) table shown
      is_page =
          subst
            (λ n.
              IsPageFrom registered_before (clamp_offset offset) (clamp_user_limit limit) table
                (page_rows n))
            (sym (norm-clamp limit))
            (take-IsPageFrom registered_before (λ a b. ltb_asymm a.created_at b.created_at)
              (λ a b c. ltb_le_trans a.created_at b.created_at c.created_at) (clamp_offset offset)
              (clamp_user_limit limit) table)

      answered :
          (rs : List User)
          → rs ≡ map without_hash shown
          → IsFound col q limit offset d (map to_user_card rs)
      answered rs e = record {
        rows = shown;
        answer = ap (map to_user_card) e ∙ map-map to_user_card without_hash shown;
        page = is_page;
        bounded = omega (
          arith,
          length-map to_user_card rs,
          length-map without_hash shown,
          ap length e,
          is_page.short,
          clamp-le limit,
        );
      }

  -- A successful search answers with a page of the active users whose names match the trimmed query, the
  -- latest registered first, and with at most 50 of them.
  pub search_cards-IsFound :
      (q : Text) (limit offset : ℤ) (w : World) (out : List UserCard)
      → (search_cards env col q limit offset w).0 ≡ ok out
      → IsFound col q limit offset w.db out
  search_cards-IsFound q limit offset w out e =
      (search_cards-Yields q limit offset w.db).at w out refl e
