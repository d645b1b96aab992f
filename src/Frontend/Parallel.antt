-- ===== src/Frontend/Parallel.antt =====
-- frontend/src/services/apiClient.ts: requests of one page in parallel share a refresh. The steps of the
-- event loop that touch the refresh token, one after the other.
use smart_patents_storage_sy.Prelude.{
  ◌≡◌, refl, String, Bool, true, ◌&&◌, ◌||◌, not, Option, none, some, List, [], ◌∷◌, any, str_eq,
  arith, is_some, Option-cases, and-eq-true, inl, inr, if◌then◌else◌, subst, ap, sym, ◌∙◌,
}
use smart_patents_storage_sy.Frontend.Client.{
  TokenStore, AuthTokens, given, tokens_of, Fetched, answered, success, is_ok_status,
}
use smart_patents_storage_sy.Controllers.Users.{SessionDto}

-- The tokens, the refresh token of the call that is in flight, and all that were ever presented.
pub record Traffic : Type 0 where
  pub store : TokenStore
  pub refresh_in_flight : Option String
  pub presented : List String

abbrev pub stored : AuthTokens → TokenStore
stored tokens = record { access = some tokens.access_token; refresh = some tokens.refresh_token }

abbrev pub no_tokens : TokenStore
no_tokens = record { access = none; refresh = none }

-- `refreshTokens()`: a call in flight is shared, else `runRefresh` presents the token.
abbrev start : Option String → Option String → Traffic → Traffic
start (some flying) held t = t
start none none t = t
start none (some token) t = record t {
  refresh_in_flight = some token;
  presented = token ∷ t.presented;
}

unfoldable pub refresh_tokens : Traffic → Traffic
refresh_tokens t = start t.refresh_in_flight (given t.store.refresh) t

-- The tokens that a response to the refresh leaves.
abbrev pub granted_store : Fetched SessionDto → TokenStore
granted_store (answered status (success s)) =
    if is_ok_status status then stored (tokens_of s) else no_tokens
granted_store _ = no_tokens

-- The end of `runRefresh`, and of the promise that the requests share.
abbrev pub settle_refresh : Fetched SessionDto → Traffic → Traffic
settle_refresh response t = record t { store = granted_store response; refresh_in_flight = none }

abbrev pub was_presented : Traffic → String → Bool
was_presented t token = any (str_eq token) t.presented

-- The store holds no refresh token that was presented.
abbrev pub unspent : Option String → List String → Bool
unspent none presented = true
unspent (some token) presented = not (any (str_eq token) presented)

abbrev pub is_fresh : TokenStore → List String → Bool
is_fresh store presented = unspent (given store.refresh) presented

pub data Step (t : Traffic) : Traffic → Type 0 where
  refused_with_401 : Step t (refresh_tokens t)
  refresh_settled :
      (token : String) (response : Fetched SessionDto)
      → t.refresh_in_flight ≡ some token
      → is_fresh (granted_store response) t.presented ≡ true
      → Step t (settle_refresh response t)
  signed_in :
      (tokens : AuthTokens)
      → is_fresh (stored tokens) t.presented ≡ true
      → Step t (record t { store = stored tokens })
  signed_out : Step t (record t { store = no_tokens })

pub data Run (t : Traffic) : Traffic → Type 0 where
  begun : Run t t
  followed : {u v : Traffic} → Run t u → Step u v → Run t v

abbrev pub distinct : List String → Bool
distinct [] = true
distinct (x ∷ xs) = not (any (str_eq x) xs) && distinct xs

-- While no refresh is in flight, the stored refresh token has not been presented.
abbrev is_orderly : Traffic → Bool
is_orderly t = distinct t.presented && (is_some t.refresh_in_flight || is_fresh t.store t.presented)

presentable :
    (t : Traffic) (token : String)
    → t.refresh_in_flight ≡ none
    → given t.store.refresh ≡ some token
    → is_orderly t ≡ true
    → (distinct (token ∷ t.presented) && true) ≡ true
presentable t token idle held h =
    let here : (distinct t.presented && not (any (str_eq token) t.presented)) ≡ true =
      rw (idle, held) at h in
    ground arith

refresh_tokens-is_orderly :
    (t : Traffic) → is_orderly t ≡ true → is_orderly (refresh_tokens t) ≡ true
unfolding refresh_tokens
refresh_tokens-is_orderly t h = elim (Option-cases t.refresh_in_flight) [
  | inr (token, flying) ↦
      subst (λ u. is_orderly u ≡ true) (ap (λ f. start f (given t.store.refresh) t) (sym flying)) h
  | inl idle ↦ elim (Option-cases (given t.store.refresh)) [
    | inl nothing ↦
        let same : t ≡ start t.refresh_in_flight (given t.store.refresh) t =
          ap (λ g. start none g t) (sym nothing)
          ∙ ap (λ f. start f (given t.store.refresh) t) (sym idle) in
        subst (λ u. is_orderly u ≡ true) same h
    | inr (token, held) ↦
        let begins : start none (some token) t
            ≡ start t.refresh_in_flight (given t.store.refresh) t =
          ap (λ g. start none g t) (sym held)
          ∙ ap (λ f. start f (given t.store.refresh) t) (sym idle) in
        subst (λ u. is_orderly u ≡ true) begins (presentable t token idle held h)
  ]
]

keeps_distinct : (t : Traffic) → is_orderly t ≡ true → distinct t.presented ≡ true
keeps_distinct t h =
    (and-eq-true (distinct t.presented)
      (is_some t.refresh_in_flight || is_fresh t.store t.presented) h).0

-- A fresh store keeps a page orderly, whatever is in flight.
fresh_is_enough :
    (flying : Option String) (store : TokenStore) (presented : List String)
    → distinct presented ≡ true
    → is_fresh store presented ≡ true
    → (distinct presented && (is_some flying || is_fresh store presented)) ≡ true
fresh_is_enough flying store presented d f = ground arith

Step-is_orderly : (t u : Traffic) → is_orderly t ≡ true → Step t u → is_orderly u ≡ true
Step-is_orderly t u h refused_with_401 = refresh_tokens-is_orderly t h
Step-is_orderly t u h (refresh_settled token response flying fresh) =
    fresh_is_enough none (granted_store response) t.presented (keeps_distinct t h) fresh
Step-is_orderly t u h (signed_in tokens fresh) =
    fresh_is_enough t.refresh_in_flight (stored tokens) t.presented (keeps_distinct t h) fresh
Step-is_orderly t u h signed_out =
    fresh_is_enough t.refresh_in_flight no_tokens t.presented (keeps_distinct t h) refl

nothing_presented : (store : TokenStore) → is_fresh store [] ≡ true
nothing_presented store = elim (Option-cases (given store.refresh)) [
  | inl nothing ↦ rw nothing refl
  | inr (token, held) ↦ rw held refl
]

Run-is_orderly : (t u : Traffic) → is_orderly t ≡ true → Run t u → is_orderly u ≡ true
Run-is_orderly t u h begun = h
Run-is_orderly t u h (followed steps step) = Step-is_orderly _ u (Run-is_orderly t _ h steps) step

-- However the requests of a page interleave, it presents no refresh token twice. It is assumed that the
-- tokens that the server gives out are none of those that the page has presented.
pub Run-distinct :
    (store : TokenStore) (t : Traffic)
    → Run (record { store = store; refresh_in_flight = none; presented = [] }) t
    → distinct t.presented ≡ true
Run-distinct store t run = keeps_distinct t (Run-is_orderly _ t (nothing_presented store) run)
