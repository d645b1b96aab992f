-- ===== src/Routes/Guarded.antt =====
-- What a handler may rely on when it runs.
use smart_patents_storage_sy.Prelude.{
  ℕ, ◌≡◌, refl, String, Bool, true, false, ◌&&◌, ◌||◌, not, Option, none, some, List, [], ◌∷◌, All,
  all, arith, Bool-cases, inl, inr, ◌⊎◌, is_some, Option-cases, subst,
}
use smart_patents_storage_sy.Exec.{Result, ok, err}
use smart_patents_storage_sy.Schema.{Role}
use smart_patents_storage_sy.Patents.Access.{Caller}
use smart_patents_storage_sy.Users.Crypto.{Crypto}
use smart_patents_storage_sy.Validation.Ids.{is_big_int_id}
use smart_patents_storage_sy.Middlewares.Auth.{
  Jwt, require_auth, require_user, require_admin, require_role, then_role,
}
use smart_patents_storage_sy.Routes.Entries.{
  Handler, get_patent_by_id, update_patent, delete_patent, submit_patent, get_document_url,
  list_reviews, approve_patent, decline_patent, signup_user, login_user, refresh_session,
  create_admin, get_all_users, get_user_by_id, get_inventor_by_id, update_inventor, delete_inventor,
  get_category_by_id, create_category, update_category, delete_category, Guard, open_to_all,
  signed_in, any_user, admin_only, Route,
}
use smart_patents_storage_sy.Routes.Table.{
  routes, Request, Express, Entered, entered, pass_guard, as_some, checked, enter,
}

-- The handlers that anyone may reach, those that act for an admin, and those that read `req.params.id`.
abbrev is_open : Handler → Bool
is_open signup_user = true
is_open login_user = true
is_open refresh_session = true
is_open _ = false

abbrev is_for_admin : Handler → Bool
is_for_admin approve_patent = true
is_for_admin decline_patent = true
is_for_admin create_admin = true
is_for_admin get_all_users = true
is_for_admin get_user_by_id = true
is_for_admin delete_inventor = true
is_for_admin create_category = true
is_for_admin update_category = true
is_for_admin delete_category = true
is_for_admin _ = false

abbrev reads_id : Handler → Bool
reads_id get_patent_by_id = true
reads_id update_patent = true
reads_id delete_patent = true
reads_id submit_patent = true
reads_id get_document_url = true
reads_id list_reviews = true
reads_id approve_patent = true
reads_id decline_patent = true
reads_id get_user_by_id = true
reads_id get_inventor_by_id = true
reads_id update_inventor = true
reads_id delete_inventor = true
reads_id get_category_by_id = true
reads_id update_category = true
reads_id delete_category = true
reads_id _ = false

abbrev is_admin_role : Role → Bool
is_admin_role Role.admin = true
is_admin_role Role.user = false

abbrev is_admin_caller : Option Caller → Bool
is_admin_caller none = false
is_admin_caller (some caller) = is_admin_role caller.role

-- Who may run a handler, and with which id.
abbrev pub allowed : Handler → Option Caller → String → Bool
allowed h caller id =
    (is_open h || is_some caller)
    && ((not (is_for_admin h) || is_admin_caller caller) && (not (reads_id h) || is_big_int_id id))

abbrev is_open_guard : Guard → Bool
is_open_guard open_to_all = true
is_open_guard _ = false

abbrev is_admin_guard : Guard → Bool
is_admin_guard admin_only = true
is_admin_guard _ = false

-- The route guards its handler as it must.
abbrev fits : Route → Bool
fits r =
    (is_open r.handler || not (is_open_guard r.guard))
    && ((not (is_for_admin r.handler) || is_admin_guard r.guard)
        && (not (reads_id r.handler) || r.id_checked))

All-of_all : (p : Route → Bool) (rs : List Route) → all p rs ≡ true → All (λ r. p r ≡ true) rs
All-of_all p [] h = tt
All-of_all p (r ∷ rs) h = (ground arith, All-of_all p rs (ground arith))

routes_fit : all fits routes ≡ true
unfolding routes
routes_fit = refl

require_role-passes :
    (roles : List Role) (r : Result Caller) (caller : Caller)
    → then_role roles r ≡ ok caller
    → r ≡ ok caller
unfolding require_role
require_role-passes roles (ok c) caller h = ground arith
require_role-passes roles (err e) caller h = cc

Role-cases : (r : Role) → (r ≡ Role.user) ⊎ (r ≡ Role.admin)
Role-cases Role.user = inl refl
Role-cases Role.admin = inr refl

require_role-admin :
    (r : Result Caller) (caller : Caller)
    → then_role (Role.admin ∷ []) r ≡ ok caller
    → is_admin_role caller.role ≡ true
unfolding require_role
require_role-admin (ok c) caller h = elim (Role-cases c.role) [
  | inl user ↦ absurd (ground arith)
  | inr admin ↦ ground arith
]
require_role-admin (err e) caller h = cc

-- The caller of a handler is the one that `requireAuth` has verified.
pub data IsVouched {crypto : Crypto} (jwt : Jwt crypto) (now : ℕ) (header : Option String)
    : Option Caller → Type 0 where
  nobody : IsVouched jwt now header none
  somebody :
      (caller : Caller)
      → require_auth jwt now header ≡ ok caller
      → IsVouched jwt now header (some caller)

module _ {crypto : Crypto} (jwt : Jwt crypto) (now : ℕ) (header : Option String) where
  -- What a guard lets through.
  record Passed (guard : Guard) (caller : Option Caller) : Type 0 where
    vouched : IsVouched jwt now header caller
    known : (is_open_guard guard || is_some caller) ≡ true
    admin : (not (is_admin_guard guard) || is_admin_caller caller) ≡ true

  known_caller :
      (r : Result Caller) (caller : Option Caller)
      → as_some r ≡ ok caller
      → (c : Caller) × (r ≡ ok c) × (caller ≡ some c)
  known_caller (ok c) caller h = (c, refl, ground arith)
  known_caller (err e) caller h = absurd (ground arith)

  pass_guard-Passed :
      (guard : Guard) (caller : Option Caller)
      → pass_guard jwt now guard header ≡ ok caller
      → Passed guard caller
  unfolding pass_guard require_user require_admin
  pass_guard-Passed open_to_all caller h =
      let same : caller ≡ none = ground arith in
      rw same (record { vouched = nobody; known = refl; admin = refl })
  pass_guard-Passed signed_in caller h =
      let (c, e, same) = known_caller (require_auth jwt now header) caller h in
      rw same (record { vouched = somebody c e; known = refl; admin = refl })
  pass_guard-Passed any_user caller h =
      let (c, e, same) = known_caller (require_user jwt now header) caller h in
      let e' =
        require_role-passes (Role.user ∷ Role.admin ∷ []) (require_auth jwt now header) c e in
      rw same (record { vouched = somebody c e'; known = refl; admin = refl })
  pass_guard-Passed admin_only caller h =
      let (c, e, same) = known_caller (require_admin jwt now header) caller h in
      let e' = require_role-passes (Role.admin ∷ []) (require_auth jwt now header) c e in
      rw same (record {
        vouched = somebody c e';
        known = refl;
        admin = require_role-admin (require_auth jwt now header) c e;
      })

  -- What is said of a request that has entered a handler.
  abbrev IsSound : Entered → Type 0
  IsSound (entered h caller id) = (allowed h caller id ≡ true) × IsVouched jwt now header caller
  IsSound _ = Unit

  checked-IsSound :
      (r : Route) (id : String) (g : Result (Option Caller))
      → fits r ≡ true
      → ((caller : Option Caller) → g ≡ ok caller → Passed r.guard caller)
      → IsSound (checked r id g)
  checked-IsSound r id (err e) f k = tt
  checked-IsSound r id (ok caller) f k =
      let passed = k caller refl in
      let known = passed.known in
      let admin = passed.admin in
      elim (Bool-cases (r.id_checked && not (is_big_int_id id))) [
        | inl bad ↦ rw bad tt
        | inr good ↦ rw good (ground arith, passed.vouched)
      ]

module _ {crypto : Crypto} (jwt : Jwt crypto) (now : ℕ) (express : Express) where
  -- Whichever routes the router picks: a request enters a handler only as it may. Only the handlers of
  -- signing up, signing in and refreshing run without a caller; those of admins run for an admin; those
  -- that read an id get one in range; and the caller is the one whom the token names.
  pub enter-allowed :
      (q : Request) (h : Handler) (caller : Option Caller) (id : String)
      → enter jwt now express q ≡ entered h caller id
      → (allowed h caller id ≡ true) × IsVouched jwt now q.authorization caller
  unfolding enter
  enter-allowed q h caller id e = elim (Option-cases (express.pick routes q)) [
    | inl nothing ↦ absurd (ground arith)
    | inr (r, picked) ↦
        let fit =
          express.pick_lem (λ r. fits r ≡ true) routes q r (All-of_all fits routes routes_fit)
            picked in
        let sound =
          checked-IsSound jwt now q.authorization r q.id
            (pass_guard jwt now r.guard q.authorization) fit
            (pass_guard-Passed jwt now q.authorization r.guard) in
        let met : checked r q.id (pass_guard jwt now r.guard q.authorization)
            ≡ entered h caller id =
          rw picked at e in
        subst (IsSound jwt now q.authorization) met sound
  ]
