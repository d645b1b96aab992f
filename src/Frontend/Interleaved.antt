-- ===== src/Frontend/Interleaved.antt =====
-- frontend/src/context/AuthContext.tsx: the callbacks of a page in any order, while other tabs write the
-- store that they share.
use smart_patents_storage_sy.Prelude.{
  ◌≡◌, ◌||◌, Bool, true, is_some, Option, none, some, inl, inr, Bool-cases, Option-cases,
}
use smart_patents_storage_sy.Controllers.Reply.{Notice}
use smart_patents_storage_sy.Controllers.Users.{SessionDto}
use smart_patents_storage_sy.Dto.Reviews.{ProfileDto}
use smart_patents_storage_sy.Frontend.Client.{
  Page, TokenStore, AuthStatus, loading, authenticated, guest, Fetched, answered, aborted,
  unreachable, success, failure, not_json, Outcome, done, failed, refreshed, with_net, given,
  on_tokens, set_tokens, clear_tokens, AuthTokens, is_ok_status, tokens_of,
}
use smart_patents_storage_sy.Frontend.Provider.{
  after_auth, after_hydrate, after_logout, after_profile, is_abort,
}

-- A page that is signed in has a user.
abbrev has_user : AuthStatus → Option ProfileDto → Bool
has_user authenticated user = is_some user
has_user _ user = true

has_user_of_some :
    (status : AuthStatus) (profile : ProfileDto) → has_user status (some profile) ≡ true
has_user_of_some loading profile = λ i. true
has_user_of_some authenticated profile = λ i. true
has_user_of_some guest profile = λ i. true

manned_user :
    (status : AuthStatus) (user : Option ProfileDto)
    → status ≡ authenticated
    → has_user status user ≡ true
    → is_some user ≡ true
manned_user status user a h = let here : has_user authenticated user ≡ true = rw a at h in here

module _ {N : Type 0} where
  -- What runs when an answer has come in, at any time and whatever the answer is; and a change of the
  -- store by another tab, of which the page is not told.
  pub data Callback (p : Page N) : Page N → Type 0 where
    net_moved : (n : N) → Callback p (with_net p n)
    refresh_settled : (f : Fetched SessionDto) → Callback p (refreshed f p).1
    hydrated :
        (cancelled : Bool) (r : Outcome ProfileDto) → Callback p (after_hydrate cancelled (r, p))
    no_tokens_found : Callback p (record p { status = guest })
    auth_settled : (r : Outcome SessionDto) → Callback p (after_auth (r, p)).1
    logout_settled : (r : Outcome Notice) → Callback p (after_logout (r, p)).1
    profile_settled : (r : Outcome ProfileDto) → Callback p (after_profile (r, p)).1
    profile_set : (profile : ProfileDto) → Callback p (record p { user = some profile })
    stored_elsewhere : (store : TokenStore) → Callback p (record p { store = store })

  pub data Interleaved (p : Page N) : Page N → Type 0 where
    start : Interleaved p p
    next : {q r : Page N} → Interleaved p q → Callback q r → Interleaved p r

  abbrev pub is_manned : Page N → Bool
  is_manned p = has_user p.status p.user

  on_tokens-manned : (p : Page N) → is_manned p ≡ true → is_manned (on_tokens p) ≡ true
  unfolding on_tokens
  on_tokens-manned p h = elim (Option-cases (given p.store.refresh)) [
    | inl nothing ↦ rw (nothing, on_tokens) (λ i. true)
    | inr (t, there) ↦ rw (there, on_tokens) h
  ]

  set_tokens-manned :
      (tokens : AuthTokens) (p : Page N)
      → is_manned p ≡ true
      → is_manned (set_tokens tokens p) ≡ true
  unfolding set_tokens
  set_tokens-manned tokens p h =
      on_tokens-manned
        (record p {
          store = record { access = some tokens.access_token; refresh = some tokens.refresh_token };
        })
        h

  clear_tokens-manned : (p : Page N) → is_manned (clear_tokens p) ≡ true
  unfolding clear_tokens
  clear_tokens-manned p = λ i. true

  refreshed-manned :
      (f : Fetched SessionDto) (p : Page N)
      → is_manned p ≡ true
      → is_manned (refreshed f p).1 ≡ true
  refreshed-manned aborted p h = clear_tokens-manned p
  refreshed-manned unreachable p h = clear_tokens-manned p
  refreshed-manned (answered status (failure code message)) p h = clear_tokens-manned p
  refreshed-manned (answered status not_json) p h = clear_tokens-manned p
  refreshed-manned (answered status (success s)) p h = elim (Bool-cases (is_ok_status status)) [
    | inl good ↦ rw good (set_tokens-manned (tokens_of s) p h)
    | inr bad ↦ rw bad (clear_tokens-manned p)
  ]

  Callback-manned : (p q : Page N) → is_manned p ≡ true → Callback p q → is_manned q ≡ true
  Callback-manned p q h (net_moved n) = h
  Callback-manned p q h (refresh_settled f) = refreshed-manned f p h
  Callback-manned p q h (hydrated cancelled (done profile)) = λ i. true
  Callback-manned p q h (hydrated cancelled (failed e)) =
      elim (Bool-cases (is_abort e || cancelled)) [
        | inl ignored ↦ rw ignored h
        | inr ended ↦ rw ended (λ i. true)
      ]
  Callback-manned p q h no_tokens_found = λ i. true
  Callback-manned p q h (auth_settled (done s)) = λ i. true
  Callback-manned p q h (auth_settled (failed e)) = h
  Callback-manned p q h (logout_settled (done n)) = λ i. true
  Callback-manned p q h (logout_settled (failed e)) = clear_tokens-manned p
  Callback-manned p q h (profile_settled (done profile)) = has_user_of_some p.status profile
  Callback-manned p q h (profile_settled (failed e)) = h
  Callback-manned p q h (profile_set profile) = has_user_of_some p.status profile
  Callback-manned p q h (stored_elsewhere store) = h

  Interleaved-manned : (p q : Page N) → is_manned p ≡ true → Interleaved p q → is_manned q ≡ true
  Interleaved-manned p q h start = h
  Interleaved-manned p q h (next {q = r} run last) =
      Callback-manned r q (Interleaved-manned p r h run) last

  -- In whatever order the callbacks of a page run, whatever the answers are, and whatever other tabs
  -- write to the store meanwhile: a page that has been loaded and is signed in now has a user.
  pub Interleaved-has_user :
      (store : TokenStore) (n : N) (q : Page N)
      → Interleaved (record { store = store; user = none; status = loading; net = n }) q
      → q.status ≡ authenticated
      → is_some q.user ≡ true
  Interleaved-has_user store n q run a = manned_user q.status q.user a (
      Interleaved-manned (record { store = store; user = none; status = loading; net = n }) q
        (λ i. true) run)
