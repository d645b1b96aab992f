-- ===== src/Frontend/Examples.antt =====
-- Tests of the page, in front of the API on sample data.
use smart_patents_storage_sy.Prelude.{◌≡◌, refl, true, false, none, some, arith}
use smart_patents_storage_sy.Prelude.Decimal.{◌&◌, decimal}
use smart_patents_storage_sy.Exec.{ok, err}
use smart_patents_storage_sy.Errors.{unauthorized}
use smart_patents_storage_sy.Prelude.{ℕ, String, ◌↔◌, ◌≤◌, leb, is_some}
use smart_patents_storage_sy.Prelude.Text.{between, chars}
use smart_patents_storage_sy.Validation.Passwords.{Lengths, password_field}
use smart_patents_storage_sy.Frontend.Forms.{validate_password, password_strength}
use smart_patents_storage_sy.Frontend.Forms.Agreement.{
  password_field-validate_password, password_field-strength,
}
use smart_patents_storage_sy.Prelude.{[]}
use smart_patents_storage_sy.Controllers.Users.{SessionDto, session_dto}
use smart_patents_storage_sy.Frontend.Client.{Fetched, answered, success}
use smart_patents_storage_sy.Frontend.Parallel.{
  Traffic, Run, begun, followed, refused_with_401, refresh_settled, refresh_tokens, settle_refresh,
  granted_store, is_fresh, distinct, Run-distinct,
}
use smart_patents_storage_sy.Prisma.Memory.{memory}
use smart_patents_storage_sy.State.{State}
use smart_patents_storage_sy.Users.Revocation.{has_live}
use smart_patents_storage_sy.Users.Sessions.{refresh_session}
use smart_patents_storage_sy.Middlewares.Auth.{bearer, require_auth, extract_bearer_token}
use smart_patents_storage_sy.Middlewares.Auth.Examples.{spelling, jwt, session}
use smart_patents_storage_sy.Frontend.Client.{
  Page, Backend, loading, authenticated, guest, done, failed, abort_error, TokenStore, clear_tokens,
  on_tokens,
}
use smart_patents_storage_sy.Frontend.Provider.{
  logout, login, hydrate, profile_of_user, after_logout, after_profile,
}
use smart_patents_storage_sy.Dto.{to_user_dto}
use smart_patents_storage_sy.Dto.Reviews.{ProfileDto}
use smart_patents_storage_sy.Frontend.Interleaved.{
  Interleaved, start, next, stored_elsewhere, Interleaved-has_user,
}
use smart_patents_storage_sy.Frontend.Interleaved as Interleaving
use smart_patents_storage_sy.Frontend.Guards.{visit, destination, visit-destination, users}
use smart_patents_storage_sy.Frontend.Consistent.{is_consistent}
use smart_patents_storage_sy.Frontend.Reachable.{
  Reached, here, after, hydrated, logged_in, Reached-consistent,
}
use smart_patents_storage_sy.Frontend.Server.{api}
use smart_patents_storage_sy.Frontend.ApiLaws.{api-IsApi}
use smart_patents_storage_sy.Frontend.Logout.{logout-leaves_live}
use smart_patents_storage_sy.Samples.{config, ada, draw, signed_in}

guest_at_users : visit 1 guest true users ≡ destination guest true users
guest_at_users = visit-destination 0 guest true users

abbrev server : Backend State
server = api memory jwt config draw (λ token. true)

abbrev stale_page : Page State
stale_page = record {
  store = record { access = some "expired"; refresh = some "old" };
  user = none;
  status = authenticated;
  net = signed_in none;
}

expired : require_auth jwt 100 (some (bearer & "expired")) ≡ err (unauthorized "invalid token")
unfolding require_auth extract_bearer_token
expired = refl

refreshes : (refresh_session memory spelling config draw "old" (signed_in none)).0 ≡ ok session
unfolding refresh_session decimal
refreshes = refl

logout-leaves_live_example :
    ((logout server stale_page).0 ≡ done tt) × (has_live 5 (logout server stale_page).1.net ≡ true)
logout-leaves_live_example =
    logout-leaves_live memory jwt config draw (λ token. true) stale_page "old" "invalid token"
      session refl (λ t full. refl) (omega arith) refl refl expired refreshes

abbrev no_tokens : TokenStore
no_tokens = record { access = none; refresh = none }

abbrev loaded : Page State
loaded = record { store = no_tokens; user = none; status = loading; net = signed_in none }

signed_out : (hydrate server false loaded).status ≡ guest
unfolding hydrate
signed_out = refl

-- loaded, found to be a guest, and signed in
visited : Reached server loaded (login server ada.email "Passw0rd" (hydrate server false loaded)).1
visited = after (after here (hydrated false refl)) (logged_in ada.email "Passw0rd" signed_out)

Reached-consistent_example :
    is_consistent (login server ada.email "Passw0rd" (hydrate server false loaded)).1 ≡ true
Reached-consistent_example =
    Reached-consistent server (api-IsApi memory jwt config draw (λ token. true) refl) no_tokens
      (signed_in none) (login server ada.email "Passw0rd" (hydrate server false loaded)).1 visited

abbrev ada_profile : ProfileDto
ada_profile = profile_of_user (to_user_dto ada)

-- signed in by the first read of the profile, after which another tab signs out
abbrev elsewhere : Page State
elsewhere = record loaded { user = some ada_profile; status = authenticated }

Interleaved-has_user_example : is_some elsewhere.user ≡ true
Interleaved-has_user_example =
    Interleaved-has_user no_tokens (signed_in none) elsewhere
      (next (next start (Interleaving.hydrated false (done ada_profile)))
        (stored_elsewhere no_tokens))
      refl

-- A profile form that is answered after the page has signed out leaves a guest with a user.
abbrev left : Page State
left = (after_logout (failed abort_error, elsewhere)).1

late_profile :
    (left.status ≡ guest) × ((after_profile (done ada_profile, left)).1.user ≡ some ada_profile)
unfolding clear_tokens on_tokens
late_profile = (refl, refl)

long_enough : (low : ℕ) (s : String) → leb low (chars s) ≡ true → low ≤ chars s
long_enough low s h = ground arith

-- `isLength`, but for the variation selectors, which it counts
abbrev lengths : Lengths
lengths = record {
  is_length = λ low high s. between low high (chars s);
  is_length_lem = λ low high s h. refl;
  is_min_length = λ low s. leb low (chars s);
  is_min_length_lem = λ low s h. refl;
  is_min_length_holds = long_enough;
}

accepted : password_field lengths "Passw0rd" ≡ true
unfolding password_field
accepted = refl

password_field-validate_password_example :
    (password_field lengths "Passw0rd" ≡ true) ↔ (validate_password "Passw0rd" ≡ none)
password_field-validate_password_example = password_field-validate_password lengths "Passw0rd" refl

password_field-strength_example :
    (validate_password "Passw0rd" ≡ none)
    × (2 ≤ (password_strength "Passw0rd").0)
    × ((password_strength "Passw0rd").0 ≤ 4)
    × (is_some (password_strength "Passw0rd").1 ≡ true)
password_field-strength_example = password_field-strength lengths "Passw0rd" accepted

abbrev old_tokens : TokenStore
old_tokens = record { access = some "expired"; refresh = some "old" }

abbrev idle : Traffic
idle = record { store = old_tokens; refresh_in_flight = none; presented = [] }

abbrev new_session : Fetched SessionDto
new_session = answered 200 (success (session_dto session))

-- two requests that share a refresh, its end, and a refresh with the new token
abbrev shared : Traffic
shared = refresh_tokens (refresh_tokens idle)

flying : shared.refresh_in_flight ≡ some "old"
unfolding refresh_tokens
flying = refl

fresh : is_fresh (granted_store new_session) shared.presented ≡ true
unfolding refresh_tokens
fresh = refl

twice : Run idle (refresh_tokens (settle_refresh new_session shared))
twice =
    followed
      (followed (followed (followed begun refused_with_401) refused_with_401)
        (refresh_settled "old" new_session flying fresh))
      refused_with_401

Run-distinct_example :
    distinct (refresh_tokens (settle_refresh new_session shared)).presented ≡ true
Run-distinct_example =
    Run-distinct old_tokens (refresh_tokens (settle_refresh new_session shared)) twice
