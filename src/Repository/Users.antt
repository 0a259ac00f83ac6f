-- ===== src/Repository/Users.antt =====
-- backend/internal/repository/postgres/user_repository.go
use gomsg.Prelude.{Text, List}
use gomsg.Errors.{err_not_found}
use gomsg.Result.{ok}
use gomsg.Domain.{User, Page, UpdateUserProfileParams}
use gomsg.Store.{Env, Go, query, exec, ensure, on_db, ◌>>=◌}
use gomsg.Tables.Users.{
  Collation, select_user, select_by_email, select_by_nickname, insert_user, search_pattern,
  search_users, update_profile_row,
}

-- GetByID
unfoldable pub get_user : Env → Text → Go User
get_user env id = query env (select_user id)

-- UpdateProfile
unfoldable pub update_profile : Env → UpdateUserProfileParams → Go (Unit {0})
update_profile env p = do
  found ← exec env (λ w. on_db (update_profile_row p (env.clock w.tick)) w)
  ensure found err_not_found

module _ (env : Env) (col : Collation) where
  -- Create, which writes the stored row back into its argument
  unfoldable pub create_user : User → Go User
  create_user u = exec env (λ w. on_db (insert_user col (env.uuid w.tick) (env.clock w.tick) u) w)

  -- GetByEmail
  unfoldable pub get_by_email : Text → Go User
  get_by_email email = query env (select_by_email col email)

  -- GetByNickname
  unfoldable pub get_by_nickname : Text → Go User
  get_by_nickname nickname = query env (select_by_nickname col nickname)

  -- Search
  unfoldable pub search_by : Text → Page → Go (List User)
  search_by q page = query env (λ d. ok (search_users col (search_pattern q) page d))
