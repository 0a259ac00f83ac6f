-- ===== src/Tables/Users.antt =====
-- The SQL of user_repository.go on the table `users`. PostgreSQL's `lower` and `ILIKE` depend on its
-- locale and are parameters.
use gomsg.Prelude.{
  ℕ, Text, Bool, ◌&&◌, ◌||◌, not, Option, none, some, List, [], ◌∷◌, ◌++◌, ltb, if◌then◌else◌,
  text_eq, to_lower, trim_space, is_empty, find_row, any_row, rows_where, update_rows, sort_by, map,
  true,
}
use gomsg.Errors.{pg_error, err_not_found}
use gomsg.Result.{Result, ok, ◌>>=◌, ◌>>◌, require, or_error}
use gomsg.Domain.{User, Page, UpdateUserProfileParams}
use gomsg.Store.{Db}
use gomsg.Uuid.{cast_uuid}
use gomsg.Tables.Messages.{user_exists}
use gomsg.Tables.Chats.Creation.{fits}
use gomsg.Tables.Chats.Summaries.{page_of, norm_limit, norm_offset}

pub record Collation : Type 0 where
  pub lower : Text → Text
  -- `ilike text pattern`
  pub ilike : Text → Text → Bool

-- The statement of GetByID
unfoldable pub select_user : Text → Db → Result User
select_user raw d = do
  id ← cast_uuid raw
  or_error (find_row (λ u. text_eq (User.id u) id) d.users) err_not_found

or_empty : Option Text → Text
or_empty none = []
or_empty (some t) = t

-- The pattern that Search builds
unfoldable pub search_pattern : Text → Text
search_pattern query =
    let q = trim_space query in if is_empty q then b'%' ∷ [] else b'%' ∷ q ++ b'%' ∷ []

module _ (col : Collation) where
  -- lower(email) = lower($1)
  abbrev pub has_email : Text → User → Bool
  has_email email u = text_eq (col.lower u.email) (col.lower email)

  abbrev pub has_nickname : Text → User → Bool
  has_nickname nickname u = text_eq (col.lower u.nickname) (col.lower nickname)

  -- The statement of GetByEmail
  unfoldable pub select_by_email : Text → Db → Result User
  select_by_email email d = or_error (find_row (has_email email) d.users) err_not_found

  -- The statement of GetByNickname
  unfoldable pub select_by_nickname : Text → Db → Result User
  select_by_nickname nickname d = or_error (find_row (has_nickname nickname) d.users) err_not_found

  -- INSERT INTO users … RETURNING …, with the widths, the primary key and uq_users_email_lower
  unfoldable pub insert_user : Text → ℕ → User → Db → Result (User × Db)
  insert_user drawn now u d = do
    let id = to_lower drawn
    require
        (fits 320 (some u.email)
          && fits 255 (some u.password_hash)
          && fits 64 (some u.nickname)
          && fits 100 u.first_name
          && fits 100 u.last_name)
        (pg_error "22001")
    require (not (user_exists id d)) (pg_error "23505")
    require (not (any_row (has_email u.email) d.users)) (pg_error "23505")
    let row : User = record u {
      id = id;
      created_at = now;
      updated_at = now;
      last_seen_at = none;
      is_active = true;
    }
    ok (row, record d { users = row ∷ d.users })

  -- The WHERE clause of Search
  abbrev pub matches : Text → User → Bool
  unfolding or_empty
  matches pattern u =
      u.is_active
      && (col.ilike u.nickname pattern
          || col.ilike (or_empty u.first_name) pattern
          || col.ilike (or_empty u.last_name) pattern)

-- ORDER BY created_at DESC
abbrev pub registered_before : User → User → Bool
registered_before a b = ltb a.created_at b.created_at

-- A row of Search, which has no password hash
abbrev pub without_hash : User → User
without_hash u = record u { password_hash = [] }

-- The statement of Search
unfoldable pub search_users : Collation → Text → Page → Db → List User
unfolding sort_by norm_limit norm_offset
search_users col pattern page d =
    map without_hash
      (page_of page (sort_by registered_before (rows_where (matches col pattern) d.users)))

-- COALESCE($2, nickname)
abbrev pub coalesce : Option Text → Option Text → Option Text
coalesce none old = old
coalesce (some t) old = some t

abbrev pub new_value : Option Text → Text → Text
new_value none old = old
new_value (some t) old = t

abbrev pub edited_user : UpdateUserProfileParams → ℕ → User → User
edited_user p now u = record u {
  nickname = new_value p.nickname u.nickname;
  first_name = coalesce p.first_name u.first_name;
  last_name = coalesce p.last_name u.last_name;
  avatar_url = coalesce p.avatar_url u.avatar_url;
  updated_at = now;
}

-- UPDATE users SET … WHERE id = $1::uuid, and whether it met a row
unfoldable pub update_profile_row : UpdateUserProfileParams → ℕ → Db → Result (Bool × Db)
update_profile_row p now d = do
  id ← cast_uuid p.user_id
  let found = any_row (λ u. text_eq (User.id u) id) d.users
  require (not found || (fits 64 p.nickname && fits 100 p.first_name && fits 100 p.last_name))
      (pg_error "22001")
  ok (
    found,
    record d { users = update_rows (λ u. text_eq (User.id u) id) (edited_user p now) d.users },
  )
