-- ===== src/Frontend/Guards.antt =====
-- frontend/src/App.tsx and frontend/src/routes: which page a path shows, and where it redirects.
use smart_patents_storage_sy.Prelude.{
  ℕ, zero, suc, ◌≡◌, refl, Bool, true, false, if◌then◌else◌, arith,
}
use smart_patents_storage_sy.Frontend.Client.{AuthStatus, loading, authenticated, guest}

-- The routes, as the router has matched the path.
pub data RoutePath : Type 0 where
  login : RoutePath
  signup : RoutePath
  dashboard : RoutePath
  patents : RoutePath
  profile : RoutePath
  design_system : RoutePath
  users : RoutePath
  user_detail : ℕ → RoutePath
  not_found : RoutePath
  anything_else : RoutePath

pub data View : Type 0 where
  loader : View
  page_of : RoutePath → View
  redirect : RoutePath → View

abbrev protected_route : AuthStatus → View → View
protected_route loading child = loader
protected_route guest child = redirect login
protected_route authenticated child = child

abbrev public_only_route : AuthStatus → View → View
public_only_route loading child = loader
public_only_route authenticated child = redirect dashboard
public_only_route guest child = child

abbrev admin_route : Bool → View → View
admin_route is_admin child = if is_admin then child else redirect dashboard

-- The tree of `Routes` in `App`.
unfoldable pub view : AuthStatus → Bool → RoutePath → View
view status is_admin login = public_only_route status (page_of login)
view status is_admin signup = public_only_route status (page_of signup)
view status is_admin dashboard = protected_route status (page_of dashboard)
view status is_admin patents = protected_route status (page_of patents)
view status is_admin profile = protected_route status (page_of profile)
view status is_admin design_system = protected_route status (page_of design_system)
view status is_admin users = protected_route status (admin_route is_admin (page_of users))
view status is_admin (user_detail id) =
    protected_route status (admin_route is_admin (page_of (user_detail id)))
view status is_admin not_found = page_of not_found
view status is_admin anything_else = redirect not_found

-- Where a visit ends, following at most so many redirects.
abbrev pub visit : ℕ → AuthStatus → Bool → RoutePath → View
visit zero status is_admin path = view status is_admin path
visit (suc n) status is_admin path = elim (view status is_admin path) [
  | loader ↦ loader
  | page_of shown ↦ page_of shown
  | redirect to ↦ visit n status is_admin to
]

-- What each visitor is meant to see.
abbrev is_for_guests : RoutePath → Bool
is_for_guests login = true
is_for_guests signup = true
is_for_guests _ = false

abbrev is_for_admins : RoutePath → Bool
is_for_admins users = true
is_for_admins (user_detail id) = true
is_for_admins _ = false

abbrev is_for_all : RoutePath → Bool
is_for_all not_found = true
is_for_all anything_else = true
is_for_all _ = false

abbrev pub destination : AuthStatus → Bool → RoutePath → View
destination status is_admin path = if is_for_all path then page_of not_found else elim status [
  | loading ↦ loader
  | guest ↦ if is_for_guests path then page_of path else page_of login
  | authenticated ↦
      if is_for_guests path
      then page_of dashboard
      else if is_for_admins path
      then (if is_admin then page_of path else page_of dashboard)
      else page_of path
]

visit-guest : (n : ℕ) (is_admin : Bool) → visit n guest is_admin login ≡ page_of login
unfolding view
visit-guest zero is_admin = refl
visit-guest (suc n) is_admin = refl

visit-dashboard :
    (n : ℕ) (is_admin : Bool) → visit n authenticated is_admin dashboard ≡ page_of dashboard
unfolding view
visit-dashboard zero is_admin = refl
visit-dashboard (suc n) is_admin = refl

visit-not_found :
    (n : ℕ) (status : AuthStatus) (is_admin : Bool)
    → visit n status is_admin not_found ≡ page_of not_found
unfolding view
visit-not_found zero status is_admin = refl
visit-not_found (suc n) status is_admin = refl

-- Following the redirects from any path ends after one of them at most: at the page of the path, or, in
-- place of a page that is not for this visitor, at the sign-in page for a guest and at the dashboard
-- for a user; unknown paths end at the page for them, and all others wait while the session loads.
pub visit-destination :
    (n : ℕ) (status : AuthStatus) (is_admin : Bool) (path : RoutePath)
    → visit (suc n) status is_admin path ≡ destination status is_admin path
unfolding view
visit-destination n status is_admin path =
    let guests = visit-guest n is_admin in
    let home = visit-dashboard n is_admin in
    let lost = visit-not_found n status is_admin in ground arith
