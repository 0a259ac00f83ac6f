-- ===== src/Errors/Replies.antt =====
-- response.go and errors.go: which parts of an error decide the reply.
use gomsg.Prelude.{ℕ, Option, none, some, ◌≡◌, refl, ap}
use gomsg.Json.{Json}
use gomsg.Errors.{
  Error, AppError, err_not_found, pg_error, foreign, app, app_caused, as_app, with_details,
  kind_status, http_status,
}
use gomsg.Errors.Http.{Reply, details_of, write_error, write_error_with_details, app_reply}

-- Two errors that are application errors with the same kind, message and details, or that both are
-- none, get the same reply, whatever their causes and texts.
pub write_error-as_app :
    (e f : Error) → as_app e ≡ as_app f → write_error (some e) ≡ write_error (some f)
unfolding write_error app_reply http_status
write_error-as_app e f h = ap reply h
  where
    status : Option AppError → ℕ
    status o = elim o [ none ↦ 500 | some a ↦ kind_status a.kind ]

    reply : Option AppError → Reply
    reply o = app_reply (status o) o (details_of o)

-- For an application error without details, WriteErrorWithDetails replies as WriteError does to the
-- error that WithDetails makes of it.
pub write_error_with_details-with_details :
    (e : Error) (a : AppError) (j : Json)
    → as_app e ≡ some a
    → a.details ≡ none
    → write_error_with_details e (some j) ≡ write_error (some (with_details e j))
unfolding write_error write_error_with_details with_details app_reply http_status
write_error_with_details-with_details err_not_found a j h k = absurd (cc)
write_error_with_details-with_details (pg_error c) a j h k = absurd (cc)
write_error_with_details-with_details (foreign m) a j h k = absurd (cc)
write_error_with_details-with_details (app q m none) a j h k = refl
write_error_with_details-with_details (app q m (some x)) a j h k = absurd (cc)
write_error_with_details-with_details (app_caused q m none c) a j h k = refl
write_error_with_details-with_details (app_caused q m (some x) c) a j h k = absurd (cc)
