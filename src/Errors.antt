-- ===== src/Errors.antt =====
-- backend/internal/pkg/errors/errors.go and repository/errors.go: Go's `error` as the chain of causes
-- that `errors.Is` and `errors.As` walk, and the typed application error.
pub mod Http
pub mod Replies
use gomsg.Prelude.{ℕ, String, Bool, true, false, Option, none, some, if◌then◌else◌}
use gomsg.Json.{Json}

pub data Kind : Type 0 where
  unauthorized forbidden not_found validation_failed conflict internal : Kind
  other_kind : String → Kind

-- A non-nil `error`: the sentinel repository.ErrNotFound, a *pgconn.PgError with its SQLSTATE, an
-- error of another library, and *apperr.Error without and with a cause.
pub data Error : Type 0 where
  err_not_found : Error
  pg_error : String → Error
  foreign : String → Error
  app : Kind → String → Option Json → Error
  app_caused : Kind → String → Option Json → Error → Error

-- What a caller sees of an *apperr.Error.
pub record AppError : Type 0 where
  pub kind : Kind
  pub message : String
  pub details : Option Json

abbrev pub as_app : Error → Option AppError
as_app err_not_found = none
as_app (pg_error c) = none
as_app (foreign m) = none
as_app (app k m d) = some (record { kind = k; message = m; details = d })
as_app (app_caused k m d c) = some (record { kind = k; message = m; details = d })

-- errors.Is(err, repository.ErrNotFound)
unfoldable pub is_not_found : Error → Bool
is_not_found err_not_found = true
is_not_found (pg_error c) = false
is_not_found (foreign m) = false
is_not_found (app k m d) = false
is_not_found (app_caused k m d c) = is_not_found c

-- (*Error).HTTPStatus
unfoldable pub kind_status : Kind → ℕ
kind_status unauthorized = 401
kind_status forbidden = 403
kind_status not_found = 404
kind_status validation_failed = 422
kind_status conflict = 409
kind_status internal = 500
kind_status (other_kind k) = 500

-- HTTPStatus
unfoldable pub http_status : Option Error → ℕ
unfolding kind_status
http_status none = 200
http_status (some e) = elim (as_app e) [ none ↦ 500 | some a ↦ kind_status a.kind ]

-- WithDetails
unfoldable pub with_details : Error → Json → Error
with_details (app k m d) j = app k m (some j)
with_details (app_caused k m d c) j = app_caused k m (some j) c
with_details err_not_found j = err_not_found
with_details (pg_error c) j = pg_error c
with_details (foreign m) j = foreign m

abbrev pub unauthorized_error : String → Error
unauthorized_error m = app unauthorized m none

abbrev pub forbidden_error : String → Error
forbidden_error m = app forbidden m none

abbrev pub not_found_error : String → Error
not_found_error m = app not_found m none

abbrev pub validation_error : String → Error
validation_error m = app validation_failed m none

abbrev pub conflict_error : String → Error
conflict_error m = app conflict m none

abbrev pub internal_error : String → Error → Error
internal_error m c = app_caused internal m none c
