-- ===== src/Frontend/Server.antt =====
-- The API of src/ behind the page: src/routes/users.js, as far as the session goes, with the handlers
-- of src/controllers/userController.js, at one time of the server. Requests to sign up, sign in and
-- refresh have passed the checks on their bodies and the rate limits; the check of the body of a logout
-- is an argument.
use smart_patents_storage_sy.Prelude.{String, Bool, Option, if◌then◌else◌}
use smart_patents_storage_sy.Exec.{Result, ok, err}
use smart_patents_storage_sy.Prisma.{Prisma}
use smart_patents_storage_sy.State.{State}
use smart_patents_storage_sy.Storage.{Config}
use smart_patents_storage_sy.Patents.Access.{Caller}
use smart_patents_storage_sy.Users.Crypto.{Crypto, Draw}
use smart_patents_storage_sy.Controllers.Reply.{Reply, sent, passed_on, Notice}
use smart_patents_storage_sy.Controllers.Users.{
  handle_signup_user, handle_login_user, handle_refresh_session, handle_logout_user,
  handle_get_my_profile,
}
use smart_patents_storage_sy.Middlewares.ErrorHandler.{Body, failure, error_handler}
use smart_patents_storage_sy.Middlewares.Auth.{Jwt, require_auth, require_user}
use smart_patents_storage_sy.Frontend.Client.{Backend, Fetched, answered, Envelope, not_json}
use smart_patents_storage_sy.Frontend.Client

module _ {B : Type 0} where
  abbrev pub envelope : Body → Envelope B
  envelope (failure code message) = Client.failure code message
  envelope _ = not_json

  abbrev pub response : Reply B → Fetched B
  response (sent status b) = answered status (Client.success b)
  response (passed_on e) = answered (error_handler e).status (envelope (error_handler e).body)

  abbrev pub respond : Reply B × State → Fetched B × State
  respond r = (response r.0, r.1)

  -- A handler behind a guard of src/middlewares/auth.js.
  abbrev pub guarded :
      Result Caller → (Caller → State → Fetched B × State) → State → Fetched B × State
  guarded (ok caller) handler s = handler caller s
  guarded (err e) handler s = (response (passed_on e), s)

module _ (prisma : Prisma) {crypto : Crypto} (jwt : Jwt crypto) (config : Config) (draw : Draw)
    (accepts_logout : Option String → Bool) where
  -- `logoutValidation`, then `logoutUser`
  abbrev pub checked_logout : Option String → Caller → State → Fetched Notice × State
  checked_logout refresh_token caller s =
      if accepts_logout refresh_token
      then respond (handle_logout_user prisma crypto config draw caller refresh_token s)
      else (answered 400 (Client.failure "VALIDATION_ERROR" "Validation failed"), s)

  unfoldable pub api : Backend State
  unfolding handle_signup_user handle_login_user handle_refresh_session handle_logout_user
      handle_get_my_profile require_auth require_user
  api = record {
    post_signup = λ name email password s.
        respond (handle_signup_user prisma crypto config draw name email password s);
    post_login =
        λ email password s. respond (handle_login_user prisma crypto config draw email password s);
    post_refresh = λ token s. respond (handle_refresh_session prisma crypto config draw token s);
    post_logout = λ header refresh_token.
        guarded (require_auth jwt draw.now header) (checked_logout refresh_token);
    get_me = λ header.
        guarded (require_user jwt draw.now header)
          (λ caller s. respond (handle_get_my_profile prisma crypto config draw caller s));
  }
