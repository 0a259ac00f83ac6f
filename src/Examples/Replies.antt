-- ===== src/Examples/Replies.antt =====
-- Error replies.
use gomsg.Prelude.{none, some, ◌≡◌, refl}
use gomsg.Json.{empty_obj}
use gomsg.Errors.{conflict, foreign, pg_error, conflict_error, internal_error, with_details}
use gomsg.Errors.Http.{write_error, write_error_with_details}
use gomsg.Errors.Replies.{write_error-as_app, write_error_with_details-with_details}

write_error-as_app_example :
    write_error (some (internal_error "create message" (pg_error "23505")))
    ≡ write_error (some (internal_error "create message" (foreign "connection reset")))
write_error-as_app_example =
    write_error-as_app (internal_error "create message" (pg_error "23505"))
      (internal_error "create message" (foreign "connection reset")) refl

write_error_with_details-with_details_example :
    write_error_with_details (conflict_error "email already registered") (some empty_obj)
    ≡ write_error (some (with_details (conflict_error "email already registered") empty_obj))
write_error_with_details-with_details_example =
    write_error_with_details-with_details (conflict_error "email already registered")
      (record { kind = conflict; message = "email already registered"; details = none }) empty_obj
      refl refl
