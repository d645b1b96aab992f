-- ===== src/Frontend/Reachable.antt =====
-- The states that the session of a page can reach while it makes its requests one after the other and
-- no other tab writes the store. Interleaved drops both conditions.
use smart_patents_storage_sy.Prelude.{
  ℕ, ◌≡◌, refl, String, Bool, true, false, Option, none, some, arith, inl, inr, Bool-cases, ◌==◌,
}
use smart_patents_storage_sy.Controllers.Users.{SessionDto}
use smart_patents_storage_sy.Dto.Reviews.{ProfileDto}
use smart_patents_storage_sy.Frontend.Client.{
  Page, Backend, loading, authenticated, guest, TokenStore, tokens_of, request, Fetched, first,
  parse, aborted, unreachable, answered, success, failure, not_json, Envelope, is_ok_status,
}
use smart_patents_storage_sy.Frontend.Provider.{
  login, signup, logout, refresh_profile, hydrate, after_auth, me, profile_of_user,
}
use smart_patents_storage_sy.Frontend.Moved.{request-Moved, full_session, granted, IsApi}
use smart_patents_storage_sy.Frontend.Consistent.{
  has_tokens, consistent, is_consistent, not_guest, set_tokens-signs_in, Moved-consistent,
  tokens_of_user, after_logout-consistent, after_profile-consistent, after_hydrate-consistent,
}

module _ {N : Type 0} where
  -- Requests of a page that stands, one after the other.
  pub data Step (backend : Backend N) (p : Page N) : Page N → Type 1 where
    hydrated :
        (cancelled : Bool) → p.status ≡ loading → Step backend p (hydrate backend cancelled p)
    logged_in :
        (email password : String)
        → p.status ≡ guest
        → Step backend p (login backend email password p).1
    signed_up :
        (name email password : String)
        → p.status ≡ guest
        → Step backend p (signup backend name email password p).1
    logged_out : p.status ≡ authenticated → Step backend p (logout backend p).1
    profile_read : p.status ≡ authenticated → Step backend p (refresh_profile backend p).1
    profile_set :
        (profile : ProfileDto)
        → p.status ≡ authenticated
        → Step backend p (record p { user = some profile })
    requested :
        {A : Type 0} (do_fetch : Option String → N → Fetched A × N)
        → p.status ≡ authenticated
        → Step backend p (request backend do_fetch true p).1

  pub data Reached (backend : Backend N) (p : Page N) : Page N → Type 1 where
    here : Reached backend p p
    after : {q r : Page N} → Reached backend p q → Step backend q r → Reached backend p r

  module _ (backend : Backend N) (api : IsApi backend) where
    hydrate-consistent :
        (cancelled : Bool) (p : Page N)
        → p.status ≡ loading
        → is_consistent p ≡ true
        → is_consistent (hydrate backend cancelled p) ≡ true
    unfolding hydrate
    hydrate-consistent cancelled p a h = elim (Bool-cases (has_tokens p.store)) [
      | inl held ↦ rw (held) (
          after_hydrate-consistent cancelled p (me backend p).0 (me backend p).1 a held h
            (request-Moved backend api (λ header n. backend.get_me header n) true p))
      | inr nothing ↦
          let here : consistent loading p.user p.store ≡ true = rw a at h in
          rw (nothing) (ground arith)
    ]

    public-first :
        (do_fetch : Option String → N → Fetched SessionDto × N) (status : ℕ)
        (body : Envelope SessionDto) (p : Page N)
        → first backend do_fetch false (answered status body) p ≡ (parse status body, p)
    public-first do_fetch status body p = elim (Bool-cases (status == 401)) [
      | inl e ↦ rw e refl
      | inr e ↦ rw e refl
    ]

    after_auth-consistent :
        (do_fetch : Option String → N → Fetched SessionDto × N) (f : Fetched SessionDto)
        (p : Page N)
        → is_consistent p ≡ true
        → full_session (granted f) ≡ true
        → is_consistent (after_auth (first backend do_fetch false f p)).1 ≡ true
    after_auth-consistent do_fetch aborted p h u = h
    after_auth-consistent do_fetch unreachable p h u = h
    after_auth-consistent do_fetch (answered status (failure code message)) p h u =
        rw (public-first do_fetch status (failure code message) p) h
    after_auth-consistent do_fetch (answered status not_json) p h u =
        rw (public-first do_fetch status not_json p) h
    after_auth-consistent do_fetch (answered status (success s)) p h u =
        elim (Bool-cases (is_ok_status status)) [
          | inl good ↦
              rw (public-first do_fetch status (success s) p, good)
                (set_tokens-signs_in (tokens_of s) p (profile_of_user s.user) (ground arith))
          | inr bad ↦ rw (public-first do_fetch status (success s) p, bad) h
        ]

    Step-consistent :
        (p q : Page N) → is_consistent p ≡ true → Step backend p q → is_consistent q ≡ true
    unfolding login signup logout refresh_profile request
    Step-consistent p q h (hydrated cancelled a) = hydrate-consistent cancelled p a h
    Step-consistent p q h (logged_in email password g) =
        after_auth-consistent (λ header n. backend.post_login email password n)
          (backend.post_login email password p.net).0 _ h (api.login_full email password p.net)
    Step-consistent p q h (signed_up name email password g) =
        after_auth-consistent (λ header n. backend.post_signup name email password n)
          (backend.post_signup name email password p.net).0 _ h
          (api.signup_full name email password p.net)
    Step-consistent p q h (logged_out a) = after_logout-consistent _
    Step-consistent p q h (profile_read a) =
        after_profile-consistent p (me backend p).0 (me backend p).1 a h
          (request-Moved backend api (λ header n. backend.get_me header n) true p)
    Step-consistent p q h (profile_set profile a) = rw (a) (tokens_of_user p a h)
    Step-consistent p q h (requested do_fetch a) =
        Moved-consistent _ p q (not_guest p.status (inr a)) h
          (request-Moved backend api do_fetch true p)

    -- Of a page whose operations run one after the other, each to its end, and whose store no other tab
    -- writes: in every state that it reaches from one that has just been loaded, whatever its store
    -- holds then, a page that is signed in has a user and a token, any other page has no user, and the
    -- page of a guest has no token. It is assumed that the API hands out no empty token.
    pub Reached-consistent :
        (store : TokenStore) (n : N) (q : Page N)
        → Reached backend (record { store = store; user = none; status = loading; net = n }) q
        → is_consistent q ≡ true
    Reached-consistent store n q here = refl
    Reached-consistent store n q (after steps step) =
        Step-consistent _ q (Reached-consistent store n _ steps) step
