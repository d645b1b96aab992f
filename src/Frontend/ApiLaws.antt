-- ===== src/Frontend/ApiLaws.antt =====
-- The API gives out no empty token: what the page relies on.
use smart_patents_storage_sy.Prelude.{
  ℕ, ◌≡◌, refl, String, Bool, true, false, Option, str_eq, arith, Bool-cases, inl, inr,
}
use smart_patents_storage_sy.Exec.{Result, ok, err}
use smart_patents_storage_sy.Prisma.{Prisma}
use smart_patents_storage_sy.State.{State}
use smart_patents_storage_sy.Storage.{Config}
use smart_patents_storage_sy.Users.Crypto.{Crypto, Draw}
use smart_patents_storage_sy.Users.Sessions.{Session, refresh_session, issue_session, rotate_tx}
use smart_patents_storage_sy.Users.Reuse.{refresh_session-Used}
use smart_patents_storage_sy.Users.Accounts.{signup_user, login_user}
use smart_patents_storage_sy.Controllers.Reply.{shaped}
use smart_patents_storage_sy.Controllers.Users.{
  session_dto, handle_refresh_session, handle_login_user, handle_signup_user,
}
use smart_patents_storage_sy.Middlewares.Auth.{Jwt}
use smart_patents_storage_sy.Frontend.Client.{tokens_of, answered, is_ok_status}
use smart_patents_storage_sy.Frontend.Moved.{IsApi, full, full_session, granted}
use smart_patents_storage_sy.Frontend.Server.{api, response, envelope}
use smart_patents_storage_sy.Middlewares.ErrorHandler.{error_handler, Body, empty, success, failure}

refused_full :
    (status : ℕ) (body : Body) → full_session (granted (answered status (envelope body))) ≡ true
refused_full status empty = refl
refused_full status (success text) = refl
refused_full status (failure code message) = refl

module _ (prisma : Prisma) {crypto : Crypto} (jwt : Jwt crypto) (config : Config) (draw : Draw)
    (accepts_logout : Option String → Bool) where
  module _ (some_draw : str_eq draw.token "" ≡ false) where
    -- A session of this time: its tokens are signed and drawn.
    abbrev IsIssued : Session → Type 0
    IsIssued session =
        (session.tokens.access_token
          ≡ crypto.sign_access_token
              (record { user_id = session.user.id; role = session.user.role }) draw.now)
        × (session.tokens.refresh_token ≡ draw.token)

    issued_full :
        (session : Session) → IsIssued session → full (tokens_of (session_dto session)) ≡ true
    issued_full session issued =
        let text =
          jwt.some_text (record { user_id = session.user.id; role = session.user.role }) draw.now in
        rw (issued.0, issued.1, text, some_draw) refl

    response-full :
        (status : ℕ) (r : Result Session)
        → ((session : Session) → r ≡ ok session → IsIssued session)
        → full_session (granted (response (shaped status (λ s. ok (session_dto s)) r))) ≡ true
    response-full status (ok session) issued =
        let whole = issued_full session (issued session refl) in
        elim (Bool-cases (is_ok_status status)) [ inl good ↦ rw good whole | inr bad ↦ rw bad refl ]
    response-full status (err e) issued =
        refused_full (error_handler e).status (error_handler e).body

    signup_user-IsIssued :
        (name email password : String) (s : State) (session : Session)
        → (signup_user prisma crypto config draw name email password s).0 ≡ ok session
        → IsIssued session
    unfolding signup_user issue_session
    signup_user-IsIssued name email password s session h = (ground arith, ground arith)

    login_user-IsIssued :
        (email password : String) (s : State) (session : Session)
        → (login_user prisma crypto config draw email password s).0 ≡ ok session
        → IsIssued session
    unfolding login_user issue_session
    login_user-IsIssued email password s session h = (ground arith, ground arith)

    refresh_session-IsIssued :
        (token : String) (s : State) (session : Session)
        → (refresh_session prisma crypto config draw token s).0 ≡ ok session
        → IsIssued session
    unfolding rotate_tx issue_session
    refresh_session-IsIssued token s session h =
        let used = refresh_session-Used prisma crypto config draw token s session h in
        let done : (rotate_tx prisma crypto config draw used.stored used.user s).0 ≡ ok session =
          rw (used.ran) at h in
        (ground arith, ground arith)

    pub api-IsApi : IsApi (api prisma jwt config draw accepts_logout)
    unfolding api handle_login_user handle_signup_user handle_refresh_session
    api-IsApi = record {
      login_full = λ email password s.
          response-full 200 (login_user prisma crypto config draw email password s).0
            (login_user-IsIssued email password s);
      signup_full = λ name email password s.
          response-full 201 (signup_user prisma crypto config draw name email password s).0
            (signup_user-IsIssued name email password s);
      refresh_full = λ token s.
          response-full 200 (refresh_session prisma crypto config draw token s).0
            (refresh_session-IsIssued token s);
    }
