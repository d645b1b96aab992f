-- ===== src/Users/Admins.antt =====
-- Which operations on accounts make an admin.
use smart_patents_storage_sy.Prelude.{
  ℕ, ◌+◌, ◌≡◌, refl, String, Bool, false, Option, none, List, [], ◌∷◌, ◌++◌, map, keep, change,
  ◌==◌, arith,
}
use smart_patents_storage_sy.Prisma.{Prisma}
use smart_patents_storage_sy.Schema.{Role, User, user_clash}
use smart_patents_storage_sy.State.{State}
use smart_patents_storage_sy.Storage.{Config}
use smart_patents_storage_sy.Patents.Access.{is_admin_role}
use smart_patents_storage_sy.Users.Crypto.{Crypto, Draw}
use smart_patents_storage_sy.Users.Sessions.{issue_session, revoke_all}
use smart_patents_storage_sy.Users.Accounts.{
  signup_user, update_profile, change_password, new_user, with_profile, with_password, update_user,
}

-- The ids of the admins.
abbrev pub admin_ids : List User → List ℕ
admin_ids rows = map (λ u. u.id) (keep (λ u. is_admin_role u.role) rows)

admins-append :
    (rows : List User) (u : User)
    → is_admin_role u.role ≡ false
    → admin_ids (rows ++ u ∷ []) ≡ admin_ids rows
admins-append [] u h = ground arith
admins-append (v ∷ rows) u h = ground (arith, admins-append rows u h)

admins-map :
    (p : User → Bool) (f : User → User) (rows : List User)
    → ((u : User) → (f u).role ≡ u.role)
    → ((u : User) → (f u).id ≡ u.id)
    → admin_ids (map (change p f) rows) ≡ admin_ids rows
admins-map p f [] same ids = refl
admins-map p f (v ∷ rows) same ids = ground (arith, admins-map p f rows same ids, same v, ids v)

module _ (prisma : Prisma) where
  update_user-admins :
      (id : ℕ) (f : User → User) (s : State)
      → ((u : User) → (f u).role ≡ u.role)
      → ((u : User) → (f u).id ≡ u.id)
      → admin_ids (update_user prisma id f s).1.users.rows ≡ admin_ids s.users.rows
  update_user-admins id f s same ids =
      let written = prisma.update_lem user_clash (λ u. u.id == id) f s.users in
      let kept = admins-map (λ u. u.id == id) f s.users.rows same ids in ground arith

  module _ (crypto : Crypto) (config : Config) (draw : Draw) where
    issue_session-users :
        (u : User) (s : State) → (issue_session prisma crypto config draw u s).1.users ≡ s.users
    unfolding issue_session
    issue_session-users u s = ground arith

    signup_user-admins :
        (name email password : String) (s : State)
        → admin_ids (signup_user prisma crypto config draw name email password s).1.users.rows
          ≡ admin_ids s.users.rows
    unfolding signup_user
    signup_user-admins name email password s =
        let mk =
          new_user name email (crypto.hash_password password draw.salt) Role.user none draw.now in
        let made = prisma.create_lem user_clash mk s.users in
        let kept = admins-append s.users.rows (mk s.users.next) refl in
        let added = record s {
          users = record { next = s.users.next + 1; rows = s.users.rows ++ mk s.users.next ∷ [] };
        } in
        let session = issue_session-users (mk s.users.next) added in ground arith

    revoke_all-users : (id : ℕ) (s : State) → (revoke_all prisma draw.now id s).1.users ≡ s.users
    unfolding revoke_all
    revoke_all-users id s = ground arith

    change_password-admins :
        (id : ℕ) (current new : String) (s : State)
        → admin_ids (change_password prisma crypto config draw id current new s).1.users.rows
          ≡ admin_ids s.users.rows
    unfolding change_password
    change_password-admins id current new s =
        let hashed = with_password (crypto.hash_password new draw.salt) in
        let kept = update_user-admins id hashed s (λ u. refl) (λ u. refl) in
        let after = revoke_all-users id (update_user prisma id hashed s).1 in ground arith

    update_profile-admins :
        (id : ℕ) (name email : Option String) (s : State)
        → admin_ids (update_profile prisma id name email s).1.users.rows ≡ admin_ids s.users.rows
    unfolding update_profile
    update_profile-admins id name email s =
        let kept = update_user-admins id (with_profile name email) s (λ u. refl) (λ u. refl) in
        ground arith

    -- Neither signing up, nor editing a profile, nor changing a password makes or unmakes an admin,
    -- whatever the request holds and however it ends.
    pub accounts-keep_admins :
        (s : State) (id : ℕ) (name email password new_password : String)
        (new_name new_email : Option String)
        → (admin_ids (signup_user prisma crypto config draw name email password s).1.users.rows
            ≡ admin_ids s.users.rows)
          × (admin_ids (update_profile prisma id new_name new_email s).1.users.rows
              ≡ admin_ids s.users.rows)
          × (admin_ids
                (change_password prisma crypto config draw id password new_password s).1.users.rows
              ≡ admin_ids s.users.rows)
    accounts-keep_admins s id name email password new_password new_name new_email = (
      signup_user-admins name email password s,
      update_profile-admins id new_name new_email s,
      change_password-admins id password new_password s,
    )
