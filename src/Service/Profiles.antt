-- ===== src/Service/Profiles.antt =====
-- backend/internal/service/user_service.go and dto/user.go: reading, searching and editing profiles.
pub mod Searching
pub mod Updating
use gomsg.Prelude.{
  ℕ, zero, suc, ℤ, pos, negsuc, String, Text, Bool, true, not, ◌&&◌, ◌||◌, Option, none, some, List,
  [], ◌∷◌, map, leb, ◌==◌, length, is_some, if◌then◌else◌, text_eq, is_empty, trim_space, byte_len,
}
use gomsg.Errors.{
  Error, unauthorized_error, not_found_error, validation_error, conflict_error, internal_error,
  is_not_found,
}
use gomsg.Result.{Result, ok, fail}
use gomsg.Domain.{User}
use gomsg.Store.{Env, Go, pure, lift, on_error, caught, ensure, ◌>>=◌, ◌>>◌}
use gomsg.Uuid.{parse_id}
use gomsg.Tables.Users.{Collation}
use gomsg.Repository.Users.{get_user, get_by_nickname, search_by, update_profile}
use gomsg.Service.MessageParts.{unless_found}
use gomsg.Service.ChatParts.{clamp_offset}

-- dto.UserSelf
pub record UserSelf : Type 0 where
  pub id : Text
  pub email : Text
  pub nickname : Text
  pub first_name : Option Text
  pub last_name : Option Text
  pub avatar_url : Option Text
  pub is_active : Bool
  pub created_at : ℕ
  pub updated_at : ℕ
  pub last_seen : Option ℕ

-- dto.UserCard
pub record UserCard : Type 0 where
  pub id : Text
  pub nickname : Text
  pub first_name : Option Text
  pub last_name : Option Text
  pub avatar_url : Option Text
  pub is_active : Bool

-- dto.PatchUserRequest
pub record PatchUserRequest : Type 0 where
  pub nickname : Option Text
  pub first_name : Option Text
  pub last_name : Option Text
  pub avatar_url : Option Text

-- toUserSelf, for a non-nil user
unfoldable pub to_user_self : User → UserSelf
to_user_self u = record {
  id = u.id;
  email = u.email;
  nickname = u.nickname;
  first_name = u.first_name;
  last_name = u.last_name;
  avatar_url = u.avatar_url;
  is_active = u.is_active;
  created_at = u.created_at;
  updated_at = u.updated_at;
  last_seen = u.last_seen_at;
}

-- toUserCard, for a non-nil user
unfoldable pub to_user_card : User → UserCard
to_user_card u = record {
  id = u.id;
  nickname = u.nickname;
  first_name = u.first_name;
  last_name = u.last_name;
  avatar_url = u.avatar_url;
  is_active = u.is_active;
}

abbrev pub is_letter : ℕ → Bool
is_letter c = (leb b'a' c && leb c b'z') || (leb b'A' c && leb c b'Z')

abbrev pub is_digit : ℕ → Bool
is_digit c = leb b'0' c && leb c b'9'

-- [a-zA-Z0-9_]
abbrev pub is_word : ℕ → Bool
is_word c = is_letter c || is_digit c || (c == b'_')

unfoldable pub all_chars : (ℕ → Bool) → Text → Bool
all_chars p [] = true
all_chars p (c ∷ s) = p c && all_chars p s

-- userNicknameRe and nicknameRe
unfoldable pub nickname_match : Text → Bool
unfolding all_chars
nickname_match s = leb 3 (length s) && leb (length s) 32 && all_chars is_word s

abbrev pub has_fields : PatchUserRequest → Bool
has_fields p =
    is_some p.nickname || is_some p.first_name || is_some p.last_name || is_some p.avatar_url

-- A field of UpdateMe that is trimmed and bounded
unfoldable pub check_field : String → ℕ → Option Text → Result (Option Text)
check_field message max none = ok none
check_field message max (some raw) =
    let v = trim_space raw in
    if leb (byte_len v) max then ok (some v) else fail (validation_error message)

-- The clamping of `limit` in Search
unfoldable pub clamp_user_limit : ℤ → ℕ
clamp_user_limit (negsuc n) = 20
clamp_user_limit (pos zero) = 20
clamp_user_limit (pos (suc n)) = if leb (suc n) 50 then suc n else 50

abbrev pub bad_nickname : Error
bad_nickname = validation_error "nickname must be 3-32 chars: letters, digits, underscore"

-- What follows GetByNickname in UpdateMe
unfoldable pub nickname_free : Text → Result User → Go (Unit {0})
nickname_free user_id (ok other) =
    ensure (text_eq other.id user_id) (conflict_error "nickname already taken")
nickname_free user_id (fail e) = ensure (is_not_found e) (internal_error "lookup nickname" e)

module _ (env : Env) where
  -- Me
  unfoldable pub me : Text → Go UserSelf
  me user_id = do
    ensure (not (is_empty user_id)) (unauthorized_error "missing user")
    u ←
        on_error (unless_found (not_found_error "user not found") "load user")
          (get_user env user_id)
    pure (to_user_self u)

  -- GetByID
  unfoldable pub get_card : Text → Go UserCard
  get_card raw = do
    id ← lift (parse_id "invalid user id" raw)
    u ← on_error (unless_found (not_found_error "user not found") "load user") (get_user env id)
    pure (to_user_card u)

module _ (env : Env) (col : Collation) where
  -- The nickname of UpdateMe
  unfoldable pub check_nickname : Text → Option Text → Go (Option Text)
  unfolding nickname_free
  check_nickname user_id none = pure none
  check_nickname user_id (some raw) = do
    let nick = trim_space raw
    ensure (nickname_match nick) bad_nickname
    other ← caught (get_by_nickname env col nick)
    nickname_free user_id other
    pure (some nick)

  -- UpdateMe
  unfoldable pub update_me : Text → PatchUserRequest → Go UserSelf
  update_me user_id req = do
    ensure (not (is_empty user_id)) (unauthorized_error "missing user")
    ensure (has_fields req) (validation_error "no fields to update")
    nickname ← check_nickname user_id req.nickname
    first_name ← lift (check_field "first_name too long" 100 req.first_name)
    last_name ← lift (check_field "last_name too long" 100 req.last_name)
    avatar_url ← lift (check_field "avatar_url too long" 2048 req.avatar_url)
    on_error (unless_found (not_found_error "user not found") "update profile") (
        update_profile env (record {
          user_id = user_id;
          nickname = nickname;
          first_name = first_name;
          last_name = last_name;
          avatar_url = avatar_url;
        }))
    u ← on_error (internal_error "reload user") (get_user env user_id)
    pure (to_user_self u)

  -- Search
  unfoldable pub search_cards : Text → ℤ → ℤ → Go (List UserCard)
  search_cards raw limit offset = do
    let q = trim_space raw
    ensure (not (is_empty q)) (validation_error "q is required")
    rows ← on_error (internal_error "search users") (
        search_by env col q
          (record { limit = pos (clamp_user_limit limit); offset = pos (clamp_offset offset) }))
    pure (map to_user_card rows)
