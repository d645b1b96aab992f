-- ===== src/Frontend/Moved.antt =====
-- What a request does to the page that makes it.
use smart_patents_storage_sy.Prelude.{
  ℕ, ◌≡◌, refl, ◌∙◌, String, Bool, true, false, ◌&&◌, Option, none, some, is_some, arith,
  if◌then◌else◌, inl, inr, Option-cases, Bool-cases, ◌==◌,
}
use smart_patents_storage_sy.Prelude.Decimal.{◌&◌}
use smart_patents_storage_sy.Middlewares.Auth.{bearer}
use smart_patents_storage_sy.Controllers.Users.{SessionDto}
use smart_patents_storage_sy.Frontend.Client.{
  Page, Backend, Outcome, done, failed, given, tokens_of, request, run_refresh, set_tokens,
  on_tokens, clear_tokens, with_net, Fetched, aborted, unreachable, answered, AuthTokens,
  is_ok_status, Envelope, success, failure, not_json, header_of, parse, retry, refreshed, second,
  first,
}

abbrev pub granted : {A : Type 0} → Fetched A → Option A
granted (answered status (success a)) = if is_ok_status status then some a else none
granted _ = none

abbrev pub full : AuthTokens → Bool
full tokens =
    is_some (given (some tokens.access_token)) && is_some (given (some tokens.refresh_token))

abbrev pub full_session : Option SessionDto → Bool
full_session none = true
full_session (some s) = full (tokens_of s)

-- What the page relies on: no token of a session is the empty text.
pub record IsApi {N : Type 0} (backend : Backend N) : Type 0 where
  pub login_full :
      (email password : String) (n : N)
      → full_session (granted (backend.post_login email password n).0) ≡ true
  pub signup_full :
      (name email password : String) (n : N)
      → full_session (granted (backend.post_signup name email password n).0) ≡ true
  pub refresh_full :
      (token : String) (n : N) → full_session (granted (backend.post_refresh token n).0) ≡ true

abbrev pub is_done : {A : Type 0} → Outcome A → Bool
is_done (done a) = true
is_done (failed e) = false

parse-done :
    {A : Type 0} (status : ℕ) (body : Envelope A)
    → is_done (parse status body) ≡ is_some (granted (answered status body))
parse-done status (success a) = ground arith
parse-done status (failure code message) = refl
parse-done status not_json = refl

unauthorized_not_done : {A : Type 0} (body : Envelope A) → is_done (parse 401 body) ≡ false
unauthorized_not_done (success a) = refl
unauthorized_not_done (failure code message) = refl
unauthorized_not_done not_json = refl

module _ {N : Type 0} where
  -- What a request does to the page: nothing but to what is behind it, or it brings new tokens, or it
  -- fails and drops them.
  pub data Moved (succeeds : Bool) (p q : Page N) : Type 0 where
    kept : (n : N) → q ≡ with_net p n → Moved succeeds p q
    renewed :
        (tokens : AuthTokens) (n : N)
        → full tokens ≡ true
        → q ≡ set_tokens tokens (with_net p n)
        → Moved succeeds p q
    dropped : (n : N) → succeeds ≡ false → q ≡ clear_tokens (with_net p n) → Moved succeeds p q

  -- Tokens that are not empty sign nobody out.
  pub set_tokens-eq :
      (tokens : AuthTokens) (p : Page N)
      → full tokens ≡ true
      → set_tokens tokens p ≡ record p {
        store = record { access = some tokens.access_token; refresh = some tokens.refresh_token };
      }
  unfolding set_tokens on_tokens
  set_tokens-eq tokens p whole = elim (Option-cases (given (some tokens.refresh_token))) [
    | inl nothing ↦ absurd (ground arith)
    | inr (t, there) ↦ rw (there, on_tokens) refl
  ]

  set_tokens-net :
      (tokens : AuthTokens) (p : Page N) (n m : N)
      → full tokens ≡ true
      → with_net (set_tokens tokens (with_net p n)) m ≡ set_tokens tokens (with_net p m)
  set_tokens-net tokens p n m whole =
      rw (set_tokens-eq tokens (with_net p n) whole, set_tokens-eq tokens (with_net p m) whole) refl

  module _ (backend : Backend N) (api : IsApi backend) {A : Type 0}
      (do_fetch : Option String → N → Fetched A × N) where
    second-page : (f : Fetched A) (q : Page N) → (second backend do_fetch f q).1 ≡ q
    second-page aborted q = refl
    second-page unreachable q = refl
    second-page (answered status body) q = refl

    retry-Moved :
        (body : Envelope A) (p : Page N) (f : Fetched SessionDto) (n : N)
        → full_session (granted f) ≡ true
        → let r = retry backend do_fetch 401 body (refreshed f (with_net p n)) in
          Moved (is_done r.0) p r.1
    retry-Moved body p aborted n u = dropped n (unauthorized_not_done body) refl
    retry-Moved body p unreachable n u = dropped n (unauthorized_not_done body) refl
    retry-Moved body p (answered status (failure code message)) n u =
        dropped n (unauthorized_not_done body) refl
    retry-Moved body p (answered status not_json) n u = dropped n (unauthorized_not_done body) refl
    retry-Moved body p (answered status (success s)) n u = elim (Bool-cases (is_ok_status status)) [
      | inl good ↦
          let t = tokens_of s in
          let q = set_tokens t (with_net p n) in
          let again = do_fetch (some (bearer & t.access_token)) q.net in
          let whole : full t ≡ true = ground arith in
          rw (good) (
            renewed t again.1 whole
              (second-page again.0 (with_net q again.1) ∙ set_tokens-net t p n again.1 whole))
      | inr bad ↦ rw (bad) (dropped n (unauthorized_not_done body) refl)
    ]

    run_refresh-some :
        (p : Page N) (token : String)
        → given p.store.refresh ≡ some token
        → run_refresh backend p
          ≡ refreshed
              (backend.post_refresh token p.net).0
              (with_net p (backend.post_refresh token p.net).1)
    unfolding run_refresh
    run_refresh-some p token there = rw (there, run_refresh) refl

    first-Moved :
        (auth : Bool) (p : Page N) (f : Fetched A) (n : N)
        → let r = first backend do_fetch auth f (with_net p n) in Moved (is_done r.0) p r.1
    first-Moved auth p aborted n = kept n refl
    first-Moved auth p unreachable n = kept n refl
    first-Moved auth p (answered status body) n =
        elim (Bool-cases (status == 401 && auth && is_some (given p.store.refresh))) [
          | inl again ↦
              let q = with_net p n in
              elim (Option-cases (given p.store.refresh)) [
                | inl nothing ↦ absurd (ground arith)
                | inr (token, there) ↦
                    let call = backend.post_refresh token n in
                    let code : status ≡ 401 = ground arith in
                    rw (again, run_refresh-some q token there, code)
                      (retry-Moved body p call.0 call.1 (api.refresh_full token n))
              ]
          | inr ended ↦ rw (ended) (kept n refl)
        ]

    pub request-Moved :
        (auth : Bool) (p : Page N)
        → let r = request backend do_fetch auth p in Moved (is_done r.0) p r.1
    unfolding request
    request-Moved auth p =
        let call = do_fetch (if auth then header_of (given p.store.access) else none) p.net in
        first-Moved auth p call.0 call.1
