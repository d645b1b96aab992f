-- ===== src/Users/Accounts.antt =====
-- src/services/userService.js: signing up and in, profiles, passwords, admins.

use smart_patents_storage_sy.Prelude.{
  ℕ, String, Bool, false, not, Option, none, some, ◌==◌, str_eq, if◌then◌else◌, is_some,
}
use smart_patents_storage_sy.Errors.{unauthorized, conflict, not_found}
use smart_patents_storage_sy.Exec.{Exec, ok, err, pure, throw, gets, transaction, ◌>>=◌, ◌>>◌}
use smart_patents_storage_sy.Prisma.{Prisma}
use smart_patents_storage_sy.Schema.{Role, User, Inventor, user_clash}
use smart_patents_storage_sy.State.{State}
use smart_patents_storage_sy.Storage.{Config}
use smart_patents_storage_sy.Users.Crypto.{Crypto, Draw}
use smart_patents_storage_sy.Users.Sessions.{Session, issue_session, revoke_all}

pub record Profile : Type 0 where
  pub user : User
  pub inventor_profile : Option Inventor

abbrev pub has_email : String → User → Bool
has_email email u = str_eq u.email email

abbrev pub new_user : String → String → String → Role → Option ℕ → ℕ → ℕ → User
new_user name email password_hash role created_by now id = record {
  id = id;
  name = name;
  email = email;
  password_hash = password_hash;
  role = role;
  created_by = created_by;
  created_at = now;
}

-- `updates.email ? … : …`, where undefined and the empty text both count as not given
abbrev given_text : Option String → Option String
given_text none = none
given_text (some t) = if str_eq t "" then none else some t

abbrev pub given_or {ℓ} : {A : Type ℓ} → Option A → A → A
given_or none old = old
given_or (some new) old = new

abbrev pub with_profile : Option String → Option String → User → User
with_profile name email u = record u { name = given_or name u.name; email = given_or email u.email }

abbrev pub with_password : String → User → User
with_password hash u = record u { password_hash = hash }

abbrev is_other : Option User → ℕ → Bool
is_other none id = false
is_other (some u) id = not (u.id == id)

module _ (prisma : Prisma) where
  abbrev pub find_by_email : String → Exec State (Option User)
  find_by_email email = gets (λ s. prisma.find_first (has_email email) s.users)

  abbrev pub find_user : ℕ → Exec State (Option User)
  find_user id = gets (λ s. prisma.find_first (λ u. u.id == id) s.users)

  abbrev profile_of : State → User → Profile
  profile_of s u = record {
    user = u;
    inventor_profile =
        prisma.find_first (λ i. elim i.user_id [ none ↦ false | some owner ↦ owner == u.id ])
          s.inventors;
  }

  abbrev pub create_user : (ℕ → User) → Exec State User
  create_user mk s = elim (prisma.create user_clash mk s.users) [
    | ok (u, t) ↦ (ok u, record s { users = t })
    | err e ↦ (err e, s)
  ]

  abbrev pub update_user : ℕ → (User → User) → Exec State User
  update_user id f s = elim (prisma.update user_clash (λ u. u.id == id) f s.users) [
    | ok (u, t) ↦ (ok u, record s { users = t })
    | err e ↦ (err e, s)
  ]

  -- `getProfile` and `getUserById`
  unfoldable pub get_profile : ℕ → Exec State Profile
  get_profile id = do
    user ← find_user id
    elim user [ none ↦ throw (not_found "User not found") | some u ↦ gets (λ s. profile_of s u) ]

  unfoldable pub update_profile : ℕ → Option String → Option String → Exec State Profile
  update_profile id name email = do
    taken ← elim (given_text email) [ none ↦ pure none | some e ↦ find_by_email e ]
    if is_other taken id
        then throw (conflict "Email is already registered")
        else (do user ← update_user id (with_profile name email); gets (λ s. profile_of s user))

  module _ (crypto : Crypto) (config : Config) (draw : Draw) where
    -- Always a `user`: the caller has no say in the role.
    unfoldable pub signup_user : String → String → String → Exec State Session
    unfolding issue_session
    signup_user name email password = do
      existing ← find_by_email email
      if is_some existing then throw (conflict "Email is already registered") else (do
        user ←
            create_user (
              new_user name email (crypto.hash_password password draw.salt) Role.user none draw.now)
        tokens ← issue_session prisma crypto config draw user
        pure (record { user = user; tokens = tokens }))

    -- The comparison against a dummy hash only takes time.
    unfoldable pub login_user : String → String → Exec State Session
    unfolding issue_session
    login_user email password = do
      user ← find_by_email email
      elim user [
        | none ↦ throw (unauthorized "Invalid email or password")
        | some u ↦
            if not (crypto.verify_password password u.password_hash)
            then throw (unauthorized "Invalid email or password")
            else (do
              tokens ← issue_session prisma crypto config draw u
              pure (record { user = u; tokens = tokens }))
      ]

    unfoldable pub change_password : ℕ → String → String → Exec State (Unit {0})
    unfolding revoke_all
    change_password id current_password new_password = do
      user ← find_user id
      elim user [
        | none ↦ throw (not_found "User not found")
        | some u ↦
            if not (crypto.verify_password current_password u.password_hash)
            then throw (unauthorized "Current password is incorrect")
            else transaction (do
              update_user id (with_password (crypto.hash_password new_password draw.salt))
              revoke_all prisma draw.now id
              pure tt)
      ]

    unfoldable pub create_admin : String → String → String → ℕ → Exec State User
    create_admin name email password created_by = do
      existing ← find_by_email email
      if is_some existing
          then throw (conflict "Email is already registered")
          else create_user (
              new_user name email (crypto.hash_password password draw.salt) Role.admin
                (some created_by) draw.now)
