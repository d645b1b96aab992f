-- ===== src/Frontend/Provider.antt =====
-- frontend/src/services/authService.ts and frontend/src/context/AuthContext.tsx: the operations on the
-- session of a page, each run to its end.
use smart_patents_storage_sy.Prelude.{
  String, Bool, true, false, ◌||◌, Option, none, some, if◌then◌else◌, is_some,
}
use smart_patents_storage_sy.Schema.{Role}
use smart_patents_storage_sy.Controllers.Reply.{Notice}
use smart_patents_storage_sy.Controllers.Users.{SessionDto}
use smart_patents_storage_sy.Dto.{UserDto}
use smart_patents_storage_sy.Dto.Reviews.{ProfileDto}
use smart_patents_storage_sy.Frontend.Client.{
  Page, Backend, Outcome, done, failed, Failure, abort_error, authenticated, guest, given,
  tokens_of, request, set_tokens, clear_tokens,
}

-- `{ ...authed, inventorProfile: null }`
abbrev pub profile_of_user : UserDto → ProfileDto
profile_of_user u = record { user = u; inventor_profile = none }

abbrev pub is_abort : Failure → Bool
is_abort abort_error = true
is_abort _ = false

module _ {N : Type 0} where
  abbrev pub as_guest : Page N → Page N
  as_guest p = record p { user = none; status = guest }

  abbrev pub as_user : ProfileDto → Page N → Page N
  as_user profile p = record p { user = some profile; status = authenticated }

  -- `authService.login` and `signup` keep the tokens; then `afterAuth`.
  abbrev pub after_auth : Outcome SessionDto × Page N → Outcome (Unit {0}) × Page N
  after_auth (done s, p) = (done tt, as_user (profile_of_user s.user) (set_tokens (tokens_of s) p))
  after_auth (failed e, p) = (failed e, p)

  abbrev pub after_logout : Outcome Notice × Page N → Outcome (Unit {0}) × Page N
  after_logout (done n, p) = (done tt, as_guest (clear_tokens p))
  after_logout (failed e, p) = (failed e, clear_tokens p)

  abbrev pub after_profile : Outcome ProfileDto × Page N → Outcome (Unit {0}) × Page N
  after_profile (done profile, p) = (done tt, record p { user = some profile })
  after_profile (failed e, p) = (failed e, p)

  -- `aborted`: the signal of the effect has been aborted meanwhile.
  abbrev pub after_hydrate : Bool → Outcome ProfileDto × Page N → Page N
  after_hydrate aborted (done profile, p) = as_user profile p
  after_hydrate aborted (failed e, p) =
      if is_abort e || aborted then p else as_guest (clear_tokens p)

  module _ (backend : Backend N) where
    unfoldable pub login : String → String → Page N → Outcome (Unit {0}) × Page N
    unfolding request set_tokens
    login email password p =
        after_auth (request backend (λ header n. backend.post_login email password n) false p)

    unfoldable pub signup : String → String → String → Page N → Outcome (Unit {0}) × Page N
    unfolding request set_tokens
    signup name email password p =
        after_auth (request backend (λ header n. backend.post_signup name email password n) false p)

    abbrev pub me : Page N → Outcome ProfileDto × Page N
    me p = request backend (λ header n. backend.get_me header n) true p

    -- `authService.logout`: the refresh token is read before the call.
    unfoldable pub logout : Page N → Outcome (Unit {0}) × Page N
    unfolding request clear_tokens
    logout p =
        after_logout
          (request backend (λ header n. backend.post_logout header p.store.refresh n) true p)

    unfoldable pub refresh_profile : Page N → Outcome (Unit {0}) × Page N
    unfolding request
    refresh_profile p = after_profile (me p)

    unfoldable pub hydrate : Bool → Page N → Page N
    unfolding request clear_tokens
    hydrate aborted p =
        if is_some (given p.store.access) || is_some (given p.store.refresh)
        then after_hydrate aborted (me p)
        else record p { status = guest }

abbrev pub role_of : Option ProfileDto → Option Role
role_of none = none
role_of (some profile) = some profile.user.role

abbrev pub is_admin_role : Option Role → Bool
is_admin_role (some Role.admin) = true
is_admin_role _ = false

-- `user?.role === 'admin'`
abbrev pub is_admin_page : {N : Type 0} → Page N → Bool
is_admin_page p = is_admin_role (role_of p.user)
