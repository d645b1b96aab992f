-- ===== src/Middlewares/ErrorHandler.antt =====
-- src/middlewares/index.js and src/utils/response.js: the response to an error. An error of the
-- database client has the text of its message left out, and is `known` with its code.
use smart_patents_storage_sy.Prelude.{ℕ, String, Option, none, some, str_eq, if◌then◌else◌, ◌==◌}
use smart_patents_storage_sy.Errors.{Error, app, known, other}

-- The body of a response, with the data as text.
pub data Body : Type 0 where
  empty : Body
  success : String → Body
  failure : String → String → Body

pub record Response : Type 0 where
  pub status : ℕ
  pub body : Body

abbrev pub send_success : ℕ → String → Response
send_success status content = record { status = status; body = success content }

abbrev pub send_error : ℕ → String → String → Response
send_error status code message = record { status = status; body = failure code message }

pub record Mapped : Type 0 where
  pub status : ℕ
  pub code : String
  pub message : String

abbrev mapped : ℕ → String → String → Option Mapped
mapped status code message = some (record { status = status; code = code; message = message })

unfoldable pub map_prisma_error : Error → Option Mapped
map_prisma_error (app e) = none
map_prisma_error (other message) = none
map_prisma_error (known code) =
    if str_eq code "P2002"
    then mapped 409 "CONFLICT" "A record with that value already exists"
    else if str_eq code "P2025"
    then mapped 404 "NOT_FOUND" "Resource not found"
    else if str_eq code "P2003"
    then mapped 409 "CONFLICT" "Operation violates a database constraint"
    else none

-- `err.status || 500`, where 0 counts as missing
abbrev or_500 : ℕ → ℕ
or_500 status = if status == 0 then 500 else status

abbrev or_code : String → ℕ → String
or_code code status =
    if str_eq code "" then (if status == 500 then "INTERNAL_ERROR" else "ERROR") else code

abbrev pub internal_error : Response
internal_error = send_error 500 "INTERNAL_ERROR" "Internal Server Error"

unfoldable pub error_handler : Error → Response
unfolding map_prisma_error
error_handler e = elim (map_prisma_error e) [
  | some m ↦ send_error m.status m.code m.message
  | none ↦ elim e [
    | app a ↦
        if a.expose
        then send_error (or_500 a.status) (or_code a.code (or_500 a.status)) a.message
        else send_error (or_500 a.status) "INTERNAL_ERROR" "Internal Server Error"
    | known code ↦ internal_error
    | other message ↦ internal_error
  ]
]
