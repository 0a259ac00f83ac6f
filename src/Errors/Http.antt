-- ===== src/Errors/Http.antt =====
-- backend/internal/pkg/response/response.go and observability/metrics/auth_kind.go: what of an error
-- reaches a client or a metric label.
use gomsg.Prelude.{ℕ, String, Bool, Option, none, some}
use gomsg.Json.{Json, empty_obj, bool, obj, field, end, word}
use gomsg.Errors.{
  Kind, Error, AppError, unauthorized, forbidden, not_found, validation_failed, conflict, internal,
  other_kind, as_app, http_status,
}

-- string(ae.Kind)
unfoldable pub kind_code : Kind → String
kind_code unauthorized = "unauthorized"
kind_code forbidden = "forbidden"
kind_code not_found = "not_found"
kind_code validation_failed = "validation_failed"
kind_code conflict = "conflict"
kind_code internal = "internal"
kind_code (other_kind k) = k

pub record Reply : Type 0 where
  pub status : ℕ
  pub body : Json

unfoldable pub normalize_details : Option Json → Json
normalize_details none = empty_obj
normalize_details (some d) = d

-- writeAPIError
unfoldable pub write_api_error : ℕ → String → String → Option Json → Reply
unfolding normalize_details
write_api_error status code message details = record {
  status = status;
  body = obj (
      field "error"
        (obj (
          field "code" (word code)
            (field "message" (word message) (field "details" (normalize_details details) end))))
        end);
}

-- The body of an error reply, for an error that is or is not an *apperr.Error.
unfoldable pub app_reply : ℕ → Option AppError → Option Json → Reply
unfolding write_api_error kind_code
app_reply status none details = write_api_error status "internal" "internal server error" details
app_reply status (some ae) details = write_api_error status (kind_code ae.kind) ae.message details

abbrev pub details_of : Option AppError → Option Json
details_of none = none
details_of (some ae) = ae.details

-- WriteError
unfoldable pub write_error : Option Error → Reply
unfolding app_reply http_status
write_error none = record { status = 200; body = obj (field "ok" (bool Bool.true) end) }
write_error (some e) = app_reply (http_status (some e)) (as_app e) (details_of (as_app e))

abbrev details_or : Option Json → Option Json → Option Json
details_or none d = d
details_or (some d) _ = some d

-- WriteErrorWithDetails, for a non-nil error
unfoldable pub write_error_with_details : Error → Option Json → Reply
unfolding app_reply http_status
write_error_with_details e details =
    app_reply (http_status (some e)) (as_app e) (details_or (details_of (as_app e)) details)

-- AuthFailureFromErr
unfoldable pub auth_failure_label : Error → String
auth_failure_label e = elim (as_app e) [ none ↦ "other" | some a ↦ label a.kind ]
  where
    label : Kind → String
    label unauthorized = "unauthorized"
    label forbidden = "forbidden"
    label not_found = "not_found"
    label validation_failed = "validation"
    label conflict = "conflict"
    label internal = "internal"
    label (other_kind k) = "other"
