-- ===== src/Middlewares/Idempotency.antt =====
-- src/middlewares/idempotency.js: replay protection for requests that change state. The state of the
-- other tables is the parameter `S`. The body of a request is given by its hash; a header that is
-- present is a text, and `length` of it counts its characters (a header holds no others than Latin-1).
pub mod Replays
use Prim.Native.String
use smart_patents_storage_sy.Prelude.{
  ℕ, suc, String, Bool, true, false, ◌&&◌, ◌||◌, not, Option, none, some, List, ◌==◌, ltb, leb,
  str_eq, if◌then◌else◌,
}
use smart_patents_storage_sy.Errors.{Error, app, known, other, conflict}
use smart_patents_storage_sy.Exec.{Exec, Result, ok, err}
use smart_patents_storage_sy.Middlewares.ErrorHandler.{Response, Body, empty, error_handler}
use smart_patents_storage_sy.Prisma.{Prisma, Table}

-- The number of characters of a text.
unfoldable pub text_length : String → ℕ
text_length String.[] = 0
text_length (String.◌∷◌ c s) = suc (text_length s)

pub record Request : Type 0 where
  pub key : Option String
  pub user_id : Option ℕ
  pub endpoint : String
  pub request_hash : String

-- The row of a reserved key.
pub record IdempotencyKey : Type 0 where
  pub user_id : ℕ
  pub endpoint : String
  pub key : String
  pub request_hash : String
  pub response_status : ℕ
  pub response_body : Body

abbrev pub in_flight : ℕ
in_flight = 0

-- `@@id([userId, endpoint, key])`
abbrev pub key_clash : IdempotencyKey → IdempotencyKey → Bool
key_clash a b = a.user_id == b.user_id && str_eq a.endpoint b.endpoint && str_eq a.key b.key

abbrev pub reservation : ℕ → String → Request → ℕ → IdempotencyKey
reservation user_id key r id = record {
  user_id = user_id;
  endpoint = r.endpoint;
  key = key;
  request_hash = r.request_hash;
  response_status = in_flight;
  response_body = empty;
}

abbrev pub is_key : ℕ → String → Request → IdempotencyKey → Bool
is_key user_id key r row =
    row.user_id == user_id && str_eq row.endpoint r.endpoint && str_eq row.key key

-- What the middleware does with a request: run the handler with no key, run it and settle the key,
-- answer with an error, or answer with a recorded response.
pub data Verdict : Type 0 where
  pass_on : Verdict
  granted : ℕ → String → Verdict
  refused : Error → Verdict
  replayed : Response → Verdict

abbrev pub is_unique_violation : Error → Bool
is_unique_violation (known code) = str_eq code "P2002"
is_unique_violation (app e) = false
is_unique_violation (other m) = false

abbrev pub with_outcome : Response → IdempotencyKey → IdempotencyKey
with_outcome response row = record row {
  response_status = response.status;
  response_body = response.body;
}

abbrev pub answer : Result Response → Response
answer (ok response) = response
answer (err e) = error_handler e

-- What the owner of a key leaves for a request that lost the insert.
unfoldable pub on_existing : Request → Option IdempotencyKey → Verdict
on_existing r none = pass_on
on_existing r (some row) =
    if not (str_eq row.request_hash r.request_hash)
    then refused (conflict "This Idempotency-Key was already used with a different request body")
    else if row.response_status == in_flight
    then refused
        (conflict "A request with this Idempotency-Key is still in progress; retry shortly")
    else replayed (record { status = row.response_status; body = row.response_body })

module _ (prisma : Prisma) where
  -- The insert that decides which request owns a key.
  unfoldable pub reserve :
      ℕ → String → Request → Table IdempotencyKey → Verdict × Table IdempotencyKey
  unfolding on_existing
  reserve user_id key r keys = elim (prisma.create key_clash (reservation user_id key r) keys) [
    | ok (_, t) ↦ (granted user_id key, t)
    | err e ↦
        if is_unique_violation e
        then (on_existing r (prisma.find_first (is_key user_id key r) keys), keys)
        else (refused e, keys)
  ]

  unfoldable pub admit : Request → Table IdempotencyKey → Verdict × Table IdempotencyKey
  unfolding reserve text_length
  admit r keys = elim r.key [
    | none ↦ (pass_on, keys)
    | some key ↦ if str_eq key "" then (pass_on, keys) else elim r.user_id [
      | none ↦ (pass_on, keys)
      | some user_id ↦
          if ltb 255 (text_length key)
          then (
            refused (conflict "Idempotency-Key must be a string of at most 255 characters"),
            keys,
          )
          else reserve user_id key r keys
    ]
  ]

  abbrev pub is_success : Response → Bool
  is_success response = leb 200 response.status && ltb response.status 300

  abbrev after_update :
      Table IdempotencyKey → Result (IdempotencyKey × Table IdempotencyKey) → Table IdempotencyKey
  after_update keys (ok (_, t)) = t
  after_update keys (err e) = keys

  -- A success is recorded, any other outcome releases the key. A failure of either is logged.
  unfoldable pub settle_key :
      ℕ → String → Request → Response → Table IdempotencyKey → Table IdempotencyKey
  settle_key user_id key r response keys =
      if is_success response
      then after_update keys
          (prisma.update key_clash (is_key user_id key r) (with_outcome response) keys)
      else (prisma.delete_many (is_key user_id key r) keys).1

  module _ {S : Type 0} where
    -- A request from the middleware to its response, with no other in between. An error of the
    -- handler is answered by the error handler, whose `res.json` is the one that settles the key.
    unfoldable pub serve :
        Exec S Response → Request → Table IdempotencyKey × S → Response × (Table IdempotencyKey × S)
    unfolding admit settle_key
    serve handler r (keys, s) = elim (admit r keys).0 [
      | pass_on ↦ (answer (handler s).0, ((admit r keys).1, (handler s).1))
      | refused e ↦ (error_handler e, ((admit r keys).1, s))
      | replayed response ↦ (response, ((admit r keys).1, s))
      | granted user_id key ↦ (
        answer (handler s).0,
        (settle_key user_id key r (answer (handler s).0) (admit r keys).1, (handler s).1),
      )
    ]
