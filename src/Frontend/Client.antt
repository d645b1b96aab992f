-- ===== src/Frontend/Client.antt =====
-- frontend/src/services: the tokens that the page keeps, and the requests that it makes with them,
-- one at a time. `fetch` and the servers behind it are an interface.
use smart_patents_storage_sy.Prelude.{
  ℕ, String, Bool, ◌&&◌, Option, none, some, ◌==◌, str_eq, is_some, if◌then◌else◌,
}
use smart_patents_storage_sy.Prelude.Decimal.{◌&◌}
use smart_patents_storage_sy.Prelude.Text.{between}
use smart_patents_storage_sy.Controllers.Reply.{Notice}
use smart_patents_storage_sy.Controllers.Users.{SessionDto}
use smart_patents_storage_sy.Dto.Reviews.{ProfileDto}
use smart_patents_storage_sy.Middlewares.Auth.{bearer}

pub record AuthTokens : Type 0 where
  pub access_token : String
  pub refresh_token : String

-- The two keys of `localStorage`. Other tabs of the browser write it as well: see Interleaved.
pub record TokenStore : Type 0 where
  pub access : Option String
  pub refresh : Option String

-- A text that JavaScript takes as true: null and the empty text are not.
abbrev pub given : Option String → Option String
given none = none
given (some t) = if str_eq t "" then none else some t

-- The JSON of a response: the envelope of the API, or something else.
pub data Envelope (A : Type 0) : Type 0 where
  success : A → Envelope A
  failure : String → String → Envelope A
  not_json : Envelope A

-- How `fetch` ends: an abort, a failure to reach the server, or a response.
pub data Fetched (A : Type 0) : Type 0 where
  aborted : Fetched A
  unreachable : Fetched A
  answered : ℕ → Envelope A → Fetched A

-- What a request of the page throws: an `ApiClientError`, an `AbortError`, or the error of `fetch`.
pub data Failure : Type 0 where
  api_error : ℕ → String → String → Failure
  abort_error : Failure
  type_error : Failure

pub data Outcome (A : Type 0) : Type 0 where
  done : A → Outcome A
  failed : Failure → Outcome A

-- The value of the header `Authorization`.
abbrev pub header_of : Option String → Option String
header_of none = none
header_of (some token) = some (bearer & token)

-- `fetch` at the paths of the session, over the state of what is behind it.
pub record Backend (N : Type 0) : Type 1 where
  pub post_signup : String → String → String → N → Fetched SessionDto × N
  pub post_login : String → String → N → Fetched SessionDto × N
  pub post_refresh : String → N → Fetched SessionDto × N
  pub post_logout : Option String → Option String → N → Fetched Notice × N
  pub get_me : Option String → N → Fetched ProfileDto × N

pub data AuthStatus : Type 0 where
  loading : AuthStatus
  authenticated : AuthStatus
  guest : AuthStatus

-- The page: the token store, the state of `AuthProvider`, and what is behind `fetch`.
pub record Page (N : Type 0) : Type 0 where
  pub store : TokenStore
  pub user : Option ProfileDto
  pub status : AuthStatus
  pub net : N

abbrev pub is_ok_status : ℕ → Bool
is_ok_status status = between 200 299 status

abbrev pub tokens_of : SessionDto → AuthTokens
tokens_of s = record {
  access_token = s.tokens.access_token;
  refresh_token = s.tokens.refresh_token;
}

-- `parse(res)`
abbrev pub parse : {A : Type 0} → ℕ → Envelope A → Outcome A
parse status (success a) =
    if is_ok_status status
    then done a
    else failed (api_error status "UNKNOWN" "Something went wrong.")
parse status (failure code message) = failed (api_error status code message)
parse status not_json =
    failed (api_error status "NETWORK" "The server returned an unexpected response.")

module _ {N : Type 0} where
  abbrev pub with_net : Page N → N → Page N
  with_net p n = record p { net = n }

  -- What `AuthProvider` does when the store tells it of a change.
  unfoldable pub on_tokens : Page N → Page N
  on_tokens p = elim (given p.store.refresh) [
    | none ↦ record p { user = none; status = guest }
    | some t ↦ p
  ]

  -- `tokenStore.set` and `tokenStore.clear`, which tell the listeners
  unfoldable pub set_tokens : AuthTokens → Page N → Page N
  unfolding on_tokens
  set_tokens tokens p = on_tokens (record p {
    store = record { access = some tokens.access_token; refresh = some tokens.refresh_token };
  })

  unfoldable pub clear_tokens : Page N → Page N
  unfolding on_tokens
  clear_tokens p = on_tokens (record p { store = record { access = none; refresh = none } })

  -- What a response leaves: the tokens only of a success.
  abbrev pub refreshed : Fetched SessionDto → Page N → Option AuthTokens × Page N
  refreshed (answered status (success s)) p =
      if is_ok_status status
      then (some (tokens_of s), set_tokens (tokens_of s) p)
      else (none, clear_tokens p)
  refreshed _ p = (none, clear_tokens p)

  module _ (backend : Backend N) where
    unfoldable pub run_refresh : Page N → Option AuthTokens × Page N
    unfolding set_tokens clear_tokens
    run_refresh p = elim (given p.store.refresh) [
      | none ↦ (none, p)
      | some token ↦
          refreshed (backend.post_refresh token p.net).0
            (with_net p (backend.post_refresh token p.net).1)
    ]

    module _ {A : Type 0} (do_fetch : Option String → N → Fetched A × N) where
      -- The retry stands outside the `try` of the first call.
      abbrev pub second : Fetched A → Page N → Outcome A × Page N
      second aborted p = (failed abort_error, p)
      second unreachable p = (failed type_error, p)
      second (answered status body) p = (parse status body, p)

      abbrev pub retry : ℕ → Envelope A → Option AuthTokens × Page N → Outcome A × Page N
      retry status body (none, p) = (parse status body, p)
      retry status body (some tokens, p) =
          let again = do_fetch (some (bearer & tokens.access_token)) p.net in
          second again.0 (with_net p again.1)

      abbrev pub first : Bool → Fetched A → Page N → Outcome A × Page N
      first auth aborted p = (failed abort_error, p)
      first auth unreachable p =
          (failed (api_error 0 "NETWORK" "Could not reach the server. Check your connection."), p)
      first auth (answered status body) p =
          if status == 401 && auth && is_some (given p.store.refresh)
          then retry status body (run_refresh p)
          else (parse status body, p)

      -- `request(path, { auth, allowRefresh: true })`, with the call of `fetch` for the path
      unfoldable pub request : Bool → Page N → Outcome A × Page N
      unfolding run_refresh
      request auth p =
          let call = do_fetch (if auth then header_of (given p.store.access) else none) p.net in
          first auth call.0 (with_net p call.1)
