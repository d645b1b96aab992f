-- ===== src/Frontend/Logout.antt =====
-- Signing out of a page whose access token has expired.
use smart_patents_storage_sy.Prelude.{
  ◌<◌, ◌≡◌, refl, String, Bool, true, false, Option, some, str_eq, arith, Option-cases, inl, inr,
}
use smart_patents_storage_sy.Prelude.Decimal.{◌&◌}
use smart_patents_storage_sy.Errors.{unauthorized}
use smart_patents_storage_sy.Exec.{ok, err}
use smart_patents_storage_sy.Prisma.{Prisma}
use smart_patents_storage_sy.State.{State}
use smart_patents_storage_sy.Storage.{Config}
use smart_patents_storage_sy.Patents.Access.{Caller}
use smart_patents_storage_sy.Users.Crypto.{Crypto, Draw}
use smart_patents_storage_sy.Users.Sessions.{Session, refresh_session, logout_user}
use smart_patents_storage_sy.Users.Revocation.{HasUniqueTokens, has_live}
use smart_patents_storage_sy.Users.Stale.{logout_user-after_refresh, refresh_session-token}
use smart_patents_storage_sy.Controllers.Users.{
  SessionDto, session_dto, handle_refresh_session, handle_logout_user,
}
use smart_patents_storage_sy.Middlewares.ErrorHandler.{error_handler}
use smart_patents_storage_sy.Controllers.Reply.{Notice}
use smart_patents_storage_sy.Middlewares.Auth.{Jwt, require_auth, bearer}
use smart_patents_storage_sy.Middlewares.Auth.Tokens.{require_auth-sign}
use smart_patents_storage_sy.Frontend.Client.{
  Page, done, given, header_of, tokens_of, request, run_refresh, set_tokens, clear_tokens, with_net,
  answered, success, failure, Backend, AuthTokens, on_tokens,
}
use smart_patents_storage_sy.Frontend.Provider.{logout}
use smart_patents_storage_sy.Frontend.Server.{api}

module _ (prisma : Prisma) {crypto : Crypto} (jwt : Jwt crypto) (config : Config) (draw : Draw)
    (accepts_logout : Option String → Bool) where
  -- the answers of the API in the exchange
  expired_logout :
      (header refresh_token : Option String) (s : State) (message : String)
      → require_auth jwt draw.now header ≡ err (unauthorized message)
      → (api prisma jwt config draw accepts_logout).post_logout header refresh_token s
        ≡ (answered 401 (failure "UNAUTHORIZED" message), s)
  unfolding api error_handler
  expired_logout header refresh_token s message h = rw (h) refl

  refreshes :
      (token : String) (s : State) (session : Session)
      → (refresh_session prisma crypto config draw token s).0 ≡ ok session
      → (api prisma jwt config draw accepts_logout).post_refresh token s ≡ (
        answered 200 (success (session_dto session)),
        (refresh_session prisma crypto config draw token s).1,
      )
  unfolding api handle_refresh_session
  refreshes token s session h = rw (h) refl

  logs_out :
      (header : Option String) (caller : Caller) (token : String) (t : State)
      → require_auth jwt draw.now header ≡ ok caller
      → accepts_logout (some token) ≡ true
      → (logout_user prisma crypto config draw caller.user_id (some token) t).0 ≡ ok tt
      → (api prisma jwt config draw accepts_logout).post_logout header (some token) t ≡ (
        answered 200 (success (record { message = "Logged out" })),
        (logout_user prisma crypto config draw caller.user_id (some token) t).1,
      )
  unfolding api handle_logout_user
  logs_out header caller token t who accepted out = rw (who, accepted, out) refl

module _ {N : Type 0} where
  set_tokens-keeps_net : (tokens : AuthTokens) (p : Page N) → (set_tokens tokens p).net ≡ p.net
  unfolding set_tokens on_tokens
  set_tokens-keeps_net tokens p = elim (Option-cases (given (some tokens.refresh_token))) [
    | inl nothing ↦ rw (nothing, on_tokens) refl
    | inr (t, there) ↦ rw (there, on_tokens) refl
  ]

  -- A logout that is refused with 401, then a refresh, and the same call again.
  logout-renewed :
      (backend : Backend N) (p : Page N) (token code message : String) (n₁ n₂ n₃ : N)
      (dto : SessionDto) (notice : Notice)
      → given p.store.refresh ≡ some token
      → backend.post_logout (header_of (given p.store.access)) p.store.refresh p.net
        ≡ (answered 401 (failure code message), n₁)
      → backend.post_refresh token n₁ ≡ (answered 200 (success dto), n₂)
      → backend.post_logout (some (bearer & dto.tokens.access_token)) p.store.refresh n₂
        ≡ (answered 200 (success notice), n₃)
      → ((logout backend p).0 ≡ done tt) × ((logout backend p).1.net ≡ n₃)
  unfolding logout request run_refresh clear_tokens
  logout-renewed backend p token code message n₁ n₂ n₃ dto notice held refused renewed again =
      let kept = set_tokens-keeps_net (tokens_of dto) (with_net p n₂) in
      rw (refused, held, run_refresh, renewed, kept, again) (refl, refl)

module _ (prisma : Prisma) {crypto : Crypto} (jwt : Jwt crypto) (config : Config) (draw : Draw)
    (accepts_logout : Option String → Bool) where
  -- A page signs out with an access token that is no longer valid, and its refresh token is still good:
  -- the logout reports success, and the user has a live session left in the database. The server
  -- serves the exchange at one time; the check of the body is assumed to accept a text that is not
  -- empty.
  pub logout-leaves_live :
      (p : Page State) (token message : String) (session : Session)
      → HasUniqueTokens p.net
      → ((t : String) → str_eq t "" ≡ false → accepts_logout (some t) ≡ true)
      → 0 < jwt.ttl
      → p.store.refresh ≡ some token
      → str_eq token "" ≡ false
      → require_auth jwt draw.now (header_of (given p.store.access)) ≡ err (unauthorized message)
      → (refresh_session prisma crypto config draw token p.net).0 ≡ ok session
      → let out = logout (api prisma jwt config draw accepts_logout) p in
        (out.0 ≡ done tt) × (has_live session.user.id out.1.net ≡ true)
  logout-leaves_live p token message session u accepts fresh held full expired h =
      let backend = api prisma jwt config draw accepts_logout in
      let t = (refresh_session prisma crypto config draw token p.net).1 in
      let caller : Caller = record { user_id = session.user.id; role = session.user.role } in
      let out =
        logout_user-after_refresh prisma crypto config draw draw token p.net session u full h in
      let token_text = refresh_session-token prisma crypto config draw token p.net session h in
      let who : require_auth jwt draw.now (some (bearer & session.tokens.access_token))
          ≡ ok caller =
        rw (token_text) (
          require_auth-sign jwt (record { user_id = session.user.id; role = session.user.role })
            draw.now draw.now (omega arith)) in
      let refused =
        expired_logout prisma jwt config draw accepts_logout (header_of (given p.store.access))
          p.store.refresh p.net message expired in
      let renewed = refreshes prisma jwt config draw accepts_logout token p.net session h in
      let again =
        logs_out prisma jwt config draw accepts_logout (some (bearer & session.tokens.access_token))
          caller token t who (accepts token full) out.0 in
      let held' : given p.store.refresh ≡ some token = rw (held, full) refl in
      let end =
        logout-renewed backend p token "UNAUTHORIZED" message p.net t
          (logout_user prisma crypto config draw session.user.id (some token) t).1
          (session_dto session) (record { message = "Logged out" }) held' refused renewed
          (rw (held) again) in
      (end.0, rw (end.1) (out.1))
