-- ===== src/Routes/Table.antt =====
-- src/routes/index.js: the tables of routes put together, and the way of a request to a handler. Which
-- route a request meets is decided by Express, an interface.
use smart_patents_storage_sy.Prelude.{
  ℕ, ◌≡◌, String, ◌&&◌, not, Option, none, some, List, [], ◌∷◌, ◌++◌, map, All, if◌then◌else◌,
}
use smart_patents_storage_sy.Prelude.Decimal.{◌&◌}
use smart_patents_storage_sy.Errors.{Error}
use smart_patents_storage_sy.Exec.{Result, ok, err}
use smart_patents_storage_sy.Patents.Access.{Caller}
use smart_patents_storage_sy.Users.Crypto.{Crypto}
use smart_patents_storage_sy.Validation.Ids.{is_big_int_id}
use smart_patents_storage_sy.Routes.Entries.{
  Handler, Guard, open_to_all, signed_in, any_user, admin_only, Route, request_upload_route,
  create_patent_route, list_patents_route, get_patent_by_id_route, update_patent_route,
  delete_patent_route, submit_patent_route, get_document_url_route, list_reviews_route,
  approve_patent_route, decline_patent_route, signup_user_route, login_user_route,
  refresh_session_route, logout_user_route, get_my_profile_route, update_my_profile_route,
  change_my_password_route, create_admin_route, get_all_users_route, get_user_by_id_route,
  get_all_inventors_route, get_inventor_by_id_route, create_inventor_route, update_inventor_route,
  delete_inventor_route, get_all_categories_route, get_category_by_id_route, create_category_route,
  update_category_route, delete_category_route,
}
use smart_patents_storage_sy.Middlewares.Auth.{Jwt, require_auth, require_user, require_admin}

abbrev pub patent_routes : List Route
patent_routes =
    request_upload_route ∷ create_patent_route ∷ list_patents_route ∷ get_patent_by_id_route
    ∷ update_patent_route ∷ delete_patent_route ∷ submit_patent_route ∷ get_document_url_route
    ∷ list_reviews_route ∷ approve_patent_route ∷ decline_patent_route ∷ []

abbrev pub user_routes : List Route
user_routes =
    signup_user_route ∷ login_user_route ∷ refresh_session_route ∷ logout_user_route
    ∷ get_my_profile_route ∷ update_my_profile_route ∷ change_my_password_route ∷ create_admin_route
    ∷ get_all_users_route ∷ get_user_by_id_route ∷ []

abbrev pub inventor_routes : List Route
inventor_routes =
    get_all_inventors_route ∷ get_inventor_by_id_route ∷ create_inventor_route
    ∷ update_inventor_route ∷ delete_inventor_route ∷ []

abbrev pub category_routes : List Route
category_routes =
    get_all_categories_route ∷ get_category_by_id_route ∷ create_category_route
    ∷ update_category_route ∷ delete_category_route ∷ []

-- `router.use(prefix, routes)`
abbrev under : String → Route → Route
under prefix r = record r { path = prefix & r.path }

abbrev mounted : String → List Route → List Route
mounted prefix routes = map (under prefix) routes

unfoldable pub routes : List Route
routes =
    mounted "/patents" patent_routes
    ++ mounted "/users" user_routes
    ++ mounted "/inventors" inventor_routes
    ++ mounted "/categories" category_routes

-- A request, with the parameter `id` of its path where the route has one.
pub record Request : Type 0 where
  pub method : String
  pub path : String
  pub authorization : Option String
  pub id : String

-- The router picks a route of those it has been given, or none.
pub record Express : Type 1 where
  pub pick : List Route → Request → Option Route
  pub pick_lem :
      (P : Route → Type 0) (rs : List Route) (q : Request) (r : Route)
      → All P rs
      → pick rs q ≡ some r
      → P r

-- What becomes of a request: no route, an error, a request that does not pass `idParamValidation`, or a
-- handler with `req.user` and `req.params.id`.
pub data Entered : Type 0 where
  no_route : Entered
  refused : Error → Entered
  invalid_id : Entered
  entered : Handler → Option Caller → String → Entered

abbrev pub as_some : Result Caller → Result (Option Caller)
as_some (ok caller) = ok (some caller)
as_some (err e) = err e

abbrev pub checked : Route → String → Result (Option Caller) → Entered
checked r id (err e) = refused e
checked r id (ok caller) =
    if r.id_checked && not (is_big_int_id id) then invalid_id else entered r.handler caller id

module _ {crypto : Crypto} (jwt : Jwt crypto) (now : ℕ) where
  unfoldable pub pass_guard : Guard → Option String → Result (Option Caller)
  unfolding require_auth require_user require_admin
  pass_guard open_to_all header = ok none
  pass_guard signed_in header = as_some (require_auth jwt now header)
  pass_guard any_user header = as_some (require_user jwt now header)
  pass_guard admin_only header = as_some (require_admin jwt now header)

  abbrev pub through : Request → Option Route → Entered
  through q none = no_route
  through q (some r) = checked r q.id (pass_guard r.guard q.authorization)

  unfoldable pub enter : Express → Request → Entered
  unfolding routes pass_guard is_big_int_id
  enter express q = through q (express.pick routes q)
