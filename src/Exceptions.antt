-- ===== src/Exceptions.antt =====
-- The exception hierarchy of app/core/exceptions.py, and how app/main.py answers for each class.
use ops_pilot_be.Prelude.{ℕ, String, Option, none, some, ◌==◌, string_eq, if◌then◌else◌}

-- The classes that derive from `OpsPilotException`; `internal` is the base class itself.
pub data ErrorClass : Type 0 where
  internal bad_request validation unauthorized invalid_credentials token_expired : ErrorClass
  invalid_token forbidden insufficient_role not_found conflict duplicate_email : ErrorClass
  duplicate_slug rate_limit service_unavailable : ErrorClass

unfoldable pub status_code : ErrorClass → ℕ
status_code ErrorClass.internal = 500
status_code ErrorClass.bad_request = 400
status_code ErrorClass.validation = 422
status_code ErrorClass.unauthorized = 401
status_code ErrorClass.invalid_credentials = 401
status_code ErrorClass.token_expired = 401
status_code ErrorClass.invalid_token = 401
status_code ErrorClass.forbidden = 403
status_code ErrorClass.insufficient_role = 403
status_code ErrorClass.not_found = 404
status_code ErrorClass.conflict = 409
status_code ErrorClass.duplicate_email = 409
status_code ErrorClass.duplicate_slug = 409
status_code ErrorClass.rate_limit = 429
status_code ErrorClass.service_unavailable = 503

-- The class attribute `detail`.
abbrev pub default_detail : ErrorClass → String
default_detail ErrorClass.internal = "An unexpected error occurred."
default_detail ErrorClass.bad_request = "Bad request."
default_detail ErrorClass.validation = "Validation failed."
default_detail ErrorClass.unauthorized = "Authentication required."
default_detail ErrorClass.invalid_credentials = "Invalid email or password."
default_detail ErrorClass.token_expired = "Token has expired."
default_detail ErrorClass.invalid_token = "Invalid or malformed token."
default_detail ErrorClass.forbidden = "You do not have permission to perform this action."
default_detail ErrorClass.insufficient_role = "Insufficient role privileges."
default_detail ErrorClass.not_found = "Resource not found."
default_detail ErrorClass.conflict = "Resource already exists."
default_detail ErrorClass.duplicate_email = "An account with this email already exists."
default_detail ErrorClass.duplicate_slug = "A business with this slug already exists."
default_detail ErrorClass.rate_limit = "Too many requests. Please try again later."
default_detail ErrorClass.service_unavailable = "Service temporarily unavailable."

abbrev pub error_code : ErrorClass → String
error_code ErrorClass.internal = "INTERNAL_ERROR"
error_code ErrorClass.bad_request = "BAD_REQUEST"
error_code ErrorClass.validation = "VALIDATION_ERROR"
error_code ErrorClass.unauthorized = "UNAUTHORIZED"
error_code ErrorClass.invalid_credentials = "INVALID_CREDENTIALS"
error_code ErrorClass.token_expired = "TOKEN_EXPIRED"
error_code ErrorClass.invalid_token = "INVALID_TOKEN"
error_code ErrorClass.forbidden = "FORBIDDEN"
error_code ErrorClass.insufficient_role = "INSUFFICIENT_ROLE"
error_code ErrorClass.not_found = "NOT_FOUND"
error_code ErrorClass.conflict = "CONFLICT"
error_code ErrorClass.duplicate_email = "DUPLICATE_EMAIL"
error_code ErrorClass.duplicate_slug = "DUPLICATE_SLUG"
error_code ErrorClass.rate_limit = "RATE_LIMIT"
error_code ErrorClass.service_unavailable = "SERVICE_UNAVAILABLE"

-- What an operation may raise: an exception of the hierarchy with its detail, FastAPI's
-- `HTTPException`, Python's `ValueError` and `OverflowError`, and the two errors of the database
-- layer.
pub data Error : Type 0 where
  ops : ErrorClass → String → Error
  http_exception : ℕ → String → Error
  value_error : String → Error
  overflow_error integrity_error multiple_results : Error

-- `OpsPilotException.__init__`: an empty detail counts as none.
abbrev pub init : ErrorClass → Option String → Error
init c none = ops c (default_detail c)
init c (some detail) = if detail == "" then ops c (default_detail c) else ops c detail

-- A JSON error body (`error_response`) and its status.
pub record Response : Type 0 where
  pub status : ℕ
  pub message : String
  pub code : String

-- `opspilot_exception_handler` and `generic_exception_handler`; FastAPI answers for its own
-- `HTTPException`, with the status and detail that it carries.
unfoldable pub handle : Error → Response
unfolding status_code
handle (ops c detail) = record { status = status_code c; message = detail; code = error_code c }
handle (http_exception n detail) = record { status = n; message = detail; code = "" }
handle _ = record {
  status = 500;
  message = "An unexpected error occurred.";
  code = "INTERNAL_ERROR";
}
