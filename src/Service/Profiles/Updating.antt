-- ===== src/Service/Profiles/Updating.antt =====
-- user_service.go, UpdateMe: what a successful update leaves.
use gomsg.Prelude.{
  ◌≤◌, length, byte_len, All, ◌⊎◌, ℕ, Text, true, false, Option, none, some, ◌≡◌, text_eq, to_lower,
  trim_space, update_rows,
}
use gomsg.Result.{Result, ok, fail}
use gomsg.Errors.{Error, is_not_found}
use gomsg.Domain.{User}
use gomsg.Store.{Env, Db}
use gomsg.Store.Outcome.{Either}
use gomsg.Tables.Users.{Collation, select_user, select_by_nickname}
use gomsg.Service.Profiles.{UserSelf, PatchUserRequest, to_user_self, nickname_free}

-- No statement fails with the error that stands for a missing row.
abbrev pub FaultsAreForeign : Env → Type 0
FaultsAreForeign env = (t : ℕ) (e : Error) → env.fault t ≡ some e → is_not_found e ≡ false

-- [a-zA-Z0-9_]
abbrev pub IsWordChar : ℕ → Type 0
IsWordChar c =
    ((b'a' ≤ c) × (c ≤ b'z'))
    ⊎ (((b'A' ≤ c) × (c ≤ b'Z')) ⊎ (((b'0' ≤ c) × (c ≤ b'9')) ⊎ (c ≡ b'_')))

-- The nickname of an edit is well-formed, and no other user has it.
pub record IsFree (col : Collation) (user_id : Text) (d : Db) (nick : Text) : Type 0 where
  pub least : 3 ≤ length nick
  pub most : length nick ≤ 32
  pub word : All IsWordChar nick
  pub own : (u : User) → select_by_nickname col nick d ≡ ok u → u.id ≡ user_id

abbrev FreeNickname : Collation → Text → Db → Option Text → Type 0
FreeNickname col user_id d none = Unit
FreeNickname col user_id d (some raw) = IsFree col user_id d (trim_space raw)

-- A field of the request, without the white space around it, is at most `max` bytes long.
abbrev pub Fits : ℕ → Option Text → Type 0
Fits max none = Unit
Fits max (some raw) = byte_len (trim_space raw) ≤ max

-- A column after an edit: as it was where the request has no such field, and else the trimmed field
abbrev pub Sets : Option Text → Option Text → Option Text → Type 0
Sets none old new = new ≡ old
Sets (some raw) old new = new ≡ some (trim_space raw)

-- The row `v` is the row `u` after the edit.
pub record IsEdited (req : PatchUserRequest) (now : ℕ) (u v : User) : Type 0 where
  pub id : v.id ≡ u.id
  pub email : v.email ≡ u.email
  pub password_hash : v.password_hash ≡ u.password_hash
  pub nickname : Sets req.nickname (some u.nickname) (some v.nickname)
  pub first_name : Sets req.first_name u.first_name v.first_name
  pub last_name : Sets req.last_name u.last_name v.last_name
  pub avatar_url : Sets req.avatar_url u.avatar_url v.avatar_url
  pub created_at : v.created_at ≡ u.created_at
  pub updated_at : v.updated_at ≡ now
  pub last_seen_at : v.last_seen_at ≡ u.last_seen_at
  pub is_active : v.is_active ≡ u.is_active

-- What a successful UpdateMe leaves: the fields of the request in the row of the user, and nothing else,
-- and what it answers with.
pub record Edited (col : Collation) (user_id : Text) (req : PatchUserRequest) (d : Db)
    (out : UserSelf) (d' : Db) : Type 0 where
  pub nickname_free : FreeNickname col user_id d req.nickname
  pub first_name_fits : Fits 100 req.first_name
  pub last_name_fits : Fits 100 req.last_name
  pub avatar_url_fits : Fits 2048 req.avatar_url
  pub now : ℕ
  pub edit : User → User
  pub edits : (u : User) → IsEdited req now u (edit u)
  pub stored :
      d'
      ≡ record d { users = update_rows (λ u. text_eq (User.id u) (to_lower user_id)) edit d.users }
  pub user : User
  pub reloaded : select_user user_id d' ≡ ok user
  pub shown : out ≡ to_user_self user

abbrev trimmed : Option Text → Option Text
trimmed none = none
trimmed (some t) = some (trim_space t)

module _ (env : Env) (foreign_faults : FaultsAreForeign env) (col : Collation) where
  abbrev Looked : Text → Db → Result User → Db → Type 0
  Looked n d =
      Either (λ u _. select_by_nickname col n d ≡ ok u)
        (λ e _. is_not_found e ≡ true → select_by_nickname col n d ≡ fail e)
