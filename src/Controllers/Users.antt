-- ===== src/Controllers/Users.antt =====
-- src/controllers/userController.js. The body and the query of a request have been read into
-- arguments.
use smart_patents_storage_sy.Prelude.{ℕ, String, Option, List, map}
use smart_patents_storage_sy.Prelude.Decimal.{big_int}
use smart_patents_storage_sy.Exec.{ok}
use smart_patents_storage_sy.Prisma.{Prisma}
use smart_patents_storage_sy.Schema.{Role, User}
use smart_patents_storage_sy.State.{State}
use smart_patents_storage_sy.Storage.{Config}
use smart_patents_storage_sy.Dto.{UserDto, AdminUserDto, to_user_dto, to_admin_user_dto}
use smart_patents_storage_sy.Dto.Reviews.{ProfileDto, to_profile_dto}
use smart_patents_storage_sy.Patents.Access.{Caller}
use smart_patents_storage_sy.Users.Crypto.{Crypto, Draw}
use smart_patents_storage_sy.Users.Sessions.{Session, Tokens, refresh_session, logout_user}
use smart_patents_storage_sy.Users.Accounts.{
  get_profile, update_profile, signup_user, login_user, change_password, create_admin,
}
use smart_patents_storage_sy.Users.Listing.{list_users}
use smart_patents_storage_sy.Controllers.Reply.{Reply, Notice, handle}

pub record SessionDto : Type 0 where
  pub user : UserDto
  pub tokens : Tokens

-- `{ user: toUserDto(user), ...tokens }`
abbrev pub session_dto : Session → SessionDto
session_dto s = record { user = to_user_dto s.user; tokens = s.tokens }

pub record UserListing : Type 0 where
  pub users : List AdminUserDto
  pub total : ℕ
  pub page : ℕ
  pub limit : ℕ
  pub total_pages : ℕ

module _ (prisma : Prisma) (crypto : Crypto) (config : Config) (draw : Draw) where
  unfoldable pub handle_signup_user : String → String → String → State → Reply SessionDto × State
  unfolding signup_user
  handle_signup_user name email password =
      handle 201 (λ s. ok (session_dto s))
        (signup_user prisma crypto config draw name email password)

  unfoldable pub handle_login_user : String → String → State → Reply SessionDto × State
  unfolding login_user
  handle_login_user email password =
      handle 200 (λ s. ok (session_dto s)) (login_user prisma crypto config draw email password)

  unfoldable pub handle_refresh_session : String → State → Reply SessionDto × State
  unfolding refresh_session
  handle_refresh_session refresh_token =
      handle 200 (λ s. ok (session_dto s)) (refresh_session prisma crypto config draw refresh_token)

  module _ (caller : Caller) where
    unfoldable pub handle_logout_user : Option String → State → Reply Notice × State
    unfolding logout_user
    handle_logout_user refresh_token =
        handle 200 (λ u. ok (record { message = "Logged out" }))
          (logout_user prisma crypto config draw caller.user_id refresh_token)

    unfoldable pub handle_get_my_profile : State → Reply ProfileDto × State
    unfolding get_profile to_profile_dto
    handle_get_my_profile =
        handle 200 (λ p. ok (to_profile_dto p)) (get_profile prisma caller.user_id)

    unfoldable pub handle_update_my_profile :
        Option String → Option String → State → Reply ProfileDto × State
    unfolding update_profile to_profile_dto
    handle_update_my_profile name email =
        handle 200 (λ p. ok (to_profile_dto p)) (update_profile prisma caller.user_id name email)

    unfoldable pub handle_change_my_password : String → String → State → Reply Notice × State
    unfolding change_password
    handle_change_my_password current_password new_password =
        handle 200 (λ u. ok (record { message = "Password changed; please log in again" }))
          (change_password prisma crypto config draw caller.user_id current_password new_password)

    unfoldable pub handle_create_admin :
        String → String → String → State → Reply AdminUserDto × State
    unfolding create_admin
    handle_create_admin name email password =
        handle 201 (λ u. ok (to_admin_user_dto u))
          (create_admin prisma crypto config draw name email password caller.user_id)

  unfoldable pub handle_get_all_users :
      (List User → List User)
      → ℕ
      → ℕ
      → Option Role
      → Option String
      → State
      → Reply UserListing × State
  unfolding list_users
  handle_get_all_users by_created page limit role search =
      handle 200
        (λ r. ok (record {
          users = map to_admin_user_dto r.users;
          total = r.total;
          page = r.page;
          limit = r.limit;
          total_pages = r.total_pages;
        }))
        (list_users prisma by_created page limit role search)

  -- `getUserById` of the service is `getProfile` under another name.
  unfoldable pub handle_get_user_by_id : String → State → Reply AdminUserDto × State
  unfolding get_profile
  handle_get_user_by_id id =
      handle 200 (λ p. ok (to_admin_user_dto p.user)) (get_profile prisma (big_int id))
