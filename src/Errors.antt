-- ===== src/Errors.antt =====
-- src/utils/errors.js: the errors that the API is willing to describe, and what else can be thrown.
use smart_patents_storage_sy.Prelude.{ℕ, String, Bool, true}

pub record AppError : Type 0 where
  pub message : String
  pub status : ℕ
  pub code : String
  pub expose : Bool

-- What a handler can throw: an `AppError`, an error of the database client with its code, or any
-- other error with its message.
pub data Error : Type 0 where
  app : AppError → Error
  known : String → Error
  other : String → Error

abbrev app_error : String → ℕ → String → Error
app_error message status code =
    app (record { message = message; status = status; code = code; expose = true })

abbrev pub bad_request : String → Error
bad_request message = app_error message 400 "BAD_REQUEST"

abbrev pub unauthorized : String → Error
unauthorized message = app_error message 401 "UNAUTHORIZED"

abbrev pub forbidden : String → Error
forbidden message = app_error message 403 "FORBIDDEN"

abbrev pub not_found : String → Error
not_found message = app_error message 404 "NOT_FOUND"

abbrev pub conflict : String → Error
conflict message = app_error message 409 "CONFLICT"

abbrev pub too_many_requests : String → Error
too_many_requests message = app_error message 429 "TOO_MANY_REQUESTS"
