-- ===== src/Users/Listing.antt =====
-- src/services/userService.js: listing the accounts. They are ordered by their time of creation alone:
-- `by_created` is the order in which the database lists rows of equal times.
use smart_patents_storage_sy.Prelude.{
  ℕ, String, Bool, true, false, ◌&&◌, ◌||◌, Option, none, some, List, str_eq,
}
use smart_patents_storage_sy.Exec.{Exec, gets}
use smart_patents_storage_sy.Prisma.{Prisma}
use smart_patents_storage_sy.Schema.{Role, User}
use smart_patents_storage_sy.State.{State}
use smart_patents_storage_sy.Patents.Listing.{page_rows, total_pages}

pub record UserPage : Type 0 where
  pub users : List User
  pub total : ℕ
  pub page : ℕ
  pub limit : ℕ
  pub total_pages : ℕ

abbrev same_role : Role → Role → Bool
same_role Role.user Role.user = true
same_role Role.admin Role.admin = true
same_role _ _ = false

abbrev has_role : Option Role → User → Bool
has_role none u = true
has_role (some role) u = same_role u.role role

module _ (prisma : Prisma) where
  open prisma use {contains_insensitive}

  abbrev user_matches : Option String → User → Bool
  user_matches none u = true
  user_matches (some search) u =
      str_eq search "" || contains_insensitive u.name search || contains_insensitive u.email search

  unfoldable pub list_users :
      (List User → List User) → ℕ → ℕ → Option Role → Option String → Exec State UserPage
  unfolding page_rows total_pages
  list_users by_created page limit role search = gets (λ s.
      let wanted = λ (u : User). has_role role u && user_matches search u in
      let total = prisma.count wanted s.users in
      record {
        users = page_rows page limit (by_created (prisma.find_many wanted s.users));
        total = total;
        page = page;
        limit = limit;
        total_pages = total_pages total limit;
      })
