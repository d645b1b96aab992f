-- ===== src/Middlewares/Auth/Tokens.antt =====
-- The access token of a session, sent back as a bearer token.
use smart_patents_storage_sy.Prelude.{
  ℕ, ◌+◌, ◌<◌, ◌≡◌, refl, String, true, false, not, some, str_eq, arith,
}
use smart_patents_storage_sy.Prelude.Decimal.{◌&◌}
use smart_patents_storage_sy.Prelude.Digits.{big_int-decimal, decimal-IsDigit, decimal-full}
use smart_patents_storage_sy.Prelude.Text.{
  all_chars, is_space, trim_of_plain, drop_chars, drop_chars-append, has_prefix-append,
}
use smart_patents_storage_sy.Exec.{ok}
use smart_patents_storage_sy.Prisma.{Prisma}
use smart_patents_storage_sy.Schema.{User}
use smart_patents_storage_sy.State.{State}
use smart_patents_storage_sy.Storage.{Config}
use smart_patents_storage_sy.Users.Crypto.{Crypto, Claims, Draw}
use smart_patents_storage_sy.Users.Sessions.{Session, Tokens, issue_session}
use smart_patents_storage_sy.Users.Accounts.{login_user}
use smart_patents_storage_sy.Middlewares.Auth.{
  Jwt, bearer, extract_bearer_token, caller_of, require_auth,
}

module _ {crypto : Crypto} (jwt : Jwt crypto) where
  extract-bearer :
      (token : String)
      → all_chars (λ c. not (is_space c)) token ≡ true
      → str_eq token "" ≡ false
      → extract_bearer_token (some (bearer & token)) ≡ ok token
  unfolding extract_bearer_token
  extract-bearer token plain full =
      let rest : drop_chars 7 (bearer & token) ≡ token = drop_chars-append bearer token in
      rw (has_prefix-append bearer token, rest, trim_of_plain token plain, full) refl

  pub require_auth-sign :
      (claims : Claims) (signed now : ℕ)
      → now < signed + jwt.ttl
      → require_auth jwt now (some (bearer & crypto.sign_access_token claims signed))
        ≡ ok (record { user_id = claims.user_id; role = claims.role })
  unfolding require_auth caller_of
  require_auth-sign claims signed now h =
      let token = crypto.sign_access_token claims signed in
      rw
        (
          extract-bearer token (jwt.plain claims signed) (jwt.some_text claims signed),
          jwt.verify_sign claims signed now h,
          decimal-full claims.user_id,
          decimal-IsDigit claims.user_id,
          big_int-decimal claims.user_id,
        )
        refl

  module _ (prisma : Prisma) (config : Config) (draw : Draw) where
    issue_session-token :
        (user : User) (s : State) (tokens : Tokens)
        → (issue_session prisma crypto config draw user s).0 ≡ ok tokens
        → tokens.access_token
          ≡ crypto.sign_access_token (record { user_id = user.id; role = user.role }) draw.now
    unfolding issue_session
    issue_session-token user s tokens h = ground arith

    login_user-token :
        (email password : String) (s : State) (session : Session)
        → (login_user prisma crypto config draw email password s).0 ≡ ok session
        → session.tokens.access_token
          ≡ crypto.sign_access_token
              (record { user_id = session.user.id; role = session.user.role })
              draw.now
    unfolding login_user issue_session
    login_user-token email password s session h = ground arith

    -- The access token that a login returns, sent back as a bearer token before it expires, makes the
    -- user of that login the caller, with the role that the account had.
    pub require_auth-login_user :
        (email password : String) (s : State) (session : Session) (now : ℕ)
        → (login_user prisma crypto config draw email password s).0 ≡ ok session
        → now < draw.now + jwt.ttl
        → require_auth jwt now (some (bearer & session.tokens.access_token))
          ≡ ok (record { user_id = session.user.id; role = session.user.role })
    require_auth-login_user email password s session now h fresh =
        rw (login_user-token email password s session h) (
          require_auth-sign (record { user_id = session.user.id; role = session.user.role })
            draw.now now fresh)
