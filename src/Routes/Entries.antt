-- ===== src/Routes/Entries.antt =====
-- src/routes: each route with the guards before its handler. The checks on bodies and queries, the rate
-- limits and the replay protection, which stand behind the guard, are left out.
use smart_patents_storage_sy.Prelude.{String, Bool, true, false}

-- The handlers of src/controllers.
pub data Handler : Type 0 where
  request_upload : Handler
  create_patent : Handler
  list_patents : Handler
  get_patent_by_id : Handler
  update_patent : Handler
  delete_patent : Handler
  submit_patent : Handler
  get_document_url : Handler
  list_reviews : Handler
  approve_patent : Handler
  decline_patent : Handler
  signup_user : Handler
  login_user : Handler
  refresh_session : Handler
  logout_user : Handler
  get_my_profile : Handler
  update_my_profile : Handler
  change_my_password : Handler
  create_admin : Handler
  get_all_users : Handler
  get_user_by_id : Handler
  get_all_inventors : Handler
  get_inventor_by_id : Handler
  create_inventor : Handler
  update_inventor : Handler
  delete_inventor : Handler
  get_all_categories : Handler
  get_category_by_id : Handler
  create_category : Handler
  update_category : Handler
  delete_category : Handler

pub data Guard : Type 0 where
  open_to_all : Guard
  signed_in : Guard
  any_user : Guard
  admin_only : Guard

-- A route, with the middlewares before its handler: the guard, and `idParamValidation` or not.
pub record Route : Type 0 where
  pub method : String
  pub path : String
  pub guard : Guard
  pub id_checked : Bool
  pub handler : Handler

abbrev pub route : String → String → Guard → Bool → Handler → Route
route method path guard id_checked handler = record {
  method = method;
  path = path;
  guard = guard;
  id_checked = id_checked;
  handler = handler;
}

abbrev pub request_upload_route : Route
request_upload_route = route "POST" "/uploads" any_user false request_upload

abbrev pub create_patent_route : Route
create_patent_route = route "POST" "/" any_user false create_patent

abbrev pub list_patents_route : Route
list_patents_route = route "GET" "/" any_user false list_patents

abbrev pub get_patent_by_id_route : Route
get_patent_by_id_route = route "GET" "/:id" any_user true get_patent_by_id

abbrev pub update_patent_route : Route
update_patent_route = route "PATCH" "/:id" any_user true update_patent

abbrev pub delete_patent_route : Route
delete_patent_route = route "DELETE" "/:id" any_user true delete_patent

abbrev pub submit_patent_route : Route
submit_patent_route = route "POST" "/:id/submit" any_user true submit_patent

abbrev pub get_document_url_route : Route
get_document_url_route = route "GET" "/:id/document" any_user true get_document_url

abbrev pub list_reviews_route : Route
list_reviews_route = route "GET" "/:id/reviews" any_user true list_reviews

abbrev pub approve_patent_route : Route
approve_patent_route = route "POST" "/:id/approve" admin_only true approve_patent

abbrev pub decline_patent_route : Route
decline_patent_route = route "POST" "/:id/decline" admin_only true decline_patent

abbrev pub signup_user_route : Route
signup_user_route = route "POST" "/signup" open_to_all false signup_user

abbrev pub login_user_route : Route
login_user_route = route "POST" "/login" open_to_all false login_user

abbrev pub refresh_session_route : Route
refresh_session_route = route "POST" "/refresh" open_to_all false refresh_session

abbrev pub logout_user_route : Route
logout_user_route = route "POST" "/logout" signed_in false logout_user

abbrev pub get_my_profile_route : Route
get_my_profile_route = route "GET" "/me" any_user false get_my_profile

abbrev pub update_my_profile_route : Route
update_my_profile_route = route "PATCH" "/me" any_user false update_my_profile

abbrev pub change_my_password_route : Route
change_my_password_route = route "PUT" "/me/password" any_user false change_my_password

abbrev pub create_admin_route : Route
create_admin_route = route "POST" "/admins" admin_only false create_admin

abbrev pub get_all_users_route : Route
get_all_users_route = route "GET" "/" admin_only false get_all_users

abbrev pub get_user_by_id_route : Route
get_user_by_id_route = route "GET" "/:id" admin_only true get_user_by_id

abbrev pub get_all_inventors_route : Route
get_all_inventors_route = route "GET" "/" any_user false get_all_inventors

abbrev pub get_inventor_by_id_route : Route
get_inventor_by_id_route = route "GET" "/:id" any_user true get_inventor_by_id

abbrev pub create_inventor_route : Route
create_inventor_route = route "POST" "/" any_user false create_inventor

abbrev pub update_inventor_route : Route
update_inventor_route = route "PATCH" "/:id" any_user true update_inventor

abbrev pub delete_inventor_route : Route
delete_inventor_route = route "DELETE" "/:id" admin_only true delete_inventor

abbrev pub get_all_categories_route : Route
get_all_categories_route = route "GET" "/" any_user false get_all_categories

abbrev pub get_category_by_id_route : Route
get_category_by_id_route = route "GET" "/:id" any_user true get_category_by_id

abbrev pub create_category_route : Route
create_category_route = route "POST" "/" admin_only false create_category

abbrev pub update_category_route : Route
update_category_route = route "PATCH" "/:id" admin_only true update_category

abbrev pub delete_category_route : Route
delete_category_route = route "DELETE" "/:id" admin_only true delete_category
