-- ===== src/Users/Seed.antt =====
-- prisma/seed.js: the first admin, from the environment. `toLowerCase` is an argument.
use smart_patents_storage_sy.Prelude.{
  ℕ, ◌≡◌, refl, ◌∙◌, String, not, Option, none, some, [], ◌∷◌, ◌++◌, map, ◌==◌, str_eq, ltb,
  if◌then◌else◌, arith, find, find-map, find-append-none, change, Option-cases, inl, inr, eq_iff,
  ◌⊎◌,
}
use smart_patents_storage_sy.Prelude.Decimal.{◌&◌, decimal}
use smart_patents_storage_sy.Prelude.Text.{trim, units, byte_length, matches_email}
use smart_patents_storage_sy.Errors.{other}
use smart_patents_storage_sy.Exec.{Exec, Result, ok, err, pure, lift, ◌>>=◌, ◌>>◌}
use smart_patents_storage_sy.Prisma.{Prisma}
use smart_patents_storage_sy.Schema.{Role, User, user_clash}
use smart_patents_storage_sy.State.{State}
use smart_patents_storage_sy.Users.Crypto.{Crypto, Draw, max_password_bytes}
use smart_patents_storage_sy.Users.Accounts.{
  find_by_email, update_user, create_user, new_user, has_email,
}

-- The variables `ADMIN_EMAIL`, `ADMIN_PASSWORD` and `ADMIN_NAME`.
pub record Environment : Type 0 where
  pub admin_email : Option String
  pub admin_password : Option String
  pub admin_name : Option String

pub record Credentials : Type 0 where
  pub email : String
  pub password : String
  pub name : String

abbrev or_empty : Option String → String
or_empty none = ""
or_empty (some t) = t

-- `name || 'Administrator'`
abbrev or_administrator : String → String
or_administrator name = if str_eq name "" then "Administrator" else name

abbrev missing : String → Result Credentials
missing names = err (
    other (
      "Cannot seed the admin account: " & names
      & " must be set.\nSet them in your .env (see .env.example) and re-run `npm run prisma:seed`."))

abbrev checked_credentials : String → String → String → Result Credentials
checked_credentials email password name =
    if not (matches_email email)
    then err (other ("ADMIN_EMAIL is not a valid email address: " & email))
    else if ltb (units password) 8
    then err (other "ADMIN_PASSWORD must be at least 8 characters long")
    else if ltb max_password_bytes (byte_length password)
    then err (other ("ADMIN_PASSWORD must be at most " & decimal max_password_bytes & " bytes"))
    else ok (record { email = email; password = password; name = name })

abbrev with_values : String → String → String → Result Credentials
with_values email password name =
    if str_eq email ""
    then (if str_eq password ""
        then missing "ADMIN_EMAIL and ADMIN_PASSWORD"
        else missing "ADMIN_EMAIL")
    else if str_eq password ""
    then missing "ADMIN_PASSWORD"
    else checked_credentials email password name

abbrev pub promoted : User → User
promoted u = record u { role = Role.admin }

Role-cases : (r : Role) → (r ≡ Role.user) ⊎ (r ≡ Role.admin)
Role-cases Role.user = inl refl
Role-cases Role.admin = inr refl

module _ (to_lower_case : String → String) where
  abbrev lowered : Option String → String
  lowered none = ""
  lowered (some t) = to_lower_case (trim t)

  unfoldable pub read_admin_credentials : Environment → Result Credentials
  unfolding matches_email units byte_length trim decimal
  read_admin_credentials env =
      with_values (lowered env.admin_email) (or_empty env.admin_password)
        (or_administrator (trim (or_empty env.admin_name)))

  module _ (prisma : Prisma) (crypto : Crypto) (draw : Draw) where
    abbrev promote : User → Exec State (Unit {0})
    promote u = elim u.role [
      | Role.admin ↦ pure tt
      | Role.user ↦ (do update_user prisma u.id promoted; pure tt)
    ]

    unfoldable pub seed_admin : Environment → Exec State (Unit {0})
    unfolding read_admin_credentials
    seed_admin env = do
      credentials ← lift (read_admin_credentials env)
      existing ← find_by_email prisma credentials.email
      elim existing [
        | some u ↦ promote u
        | none ↦ (do
          create_user prisma (
              new_user credentials.name credentials.email
                (crypto.hash_password credentials.password draw.salt) Role.admin none draw.now)
          pure tt)
      ]

    -- An admin has the address.
    pub record IsSeeded (email : String) (s : State) : Type 0 where
      pub user : User
      pub there : find (has_email email) s.users.rows ≡ some user
      pub admin : user.role ≡ Role.admin

    seed_again :
        (env : Environment) (credentials : Credentials) (t : State)
        → read_admin_credentials env ≡ ok credentials
        → IsSeeded credentials.email t
        → seed_admin env t ≡ (ok tt, t)
    unfolding seed_admin
    seed_again env credentials t read seeded =
        let search = prisma.find_first_lem (has_email credentials.email) t.users in
        let there = seeded.there in rw (read, search, there, seeded.admin) refl

    promote-IsSeeded :
        (email : String) (u : User) (s : State)
        → find (has_email email) s.users.rows ≡ some u
        → (promote u s).0 ≡ ok tt
        → IsSeeded email (promote u s).1
    promote-IsSeeded email u s found h = elim (Role-cases u.role) [
      | inr admin ↦ rw admin (record { user = u; there = found; admin = admin })
      | inl plain ↦
          let f = change (λ (v : User). v.id == u.id) promoted in
          let written = prisma.update_lem user_clash (λ v. v.id == u.id) promoted s.users in
          let moved = find-map (has_email email) f s.users.rows (λ v. ground arith) in
          let there : find (has_email email) (map f s.users.rows) ≡ some (promoted u) =
            moved ∙ rw found (ground arith) in
          let row : (promote u s).1.users.rows ≡ map f s.users.rows = ground arith in
          record { user = promoted u; there = rw row there; admin = refl }
    ]

    create-IsSeeded :
        (email : String) (mk : ℕ → User) (s : State)
        → ((id : ℕ) → (mk id).email ≡ email)
        → ((id : ℕ) → (mk id).role ≡ Role.admin)
        → find (has_email email) s.users.rows ≡ none
        → ((create_user prisma mk >> pure tt) s).0 ≡ ok tt
        → IsSeeded email ((create_user prisma mk >> pure tt) s).1
    create-IsSeeded email mk s named admin none_yet h =
        let new = mk s.users.next in
        let added = prisma.create_lem user_clash mk s.users in
        let rows : ((create_user prisma mk >> pure tt) s).1.users.rows ≡ s.users.rows ++ new ∷ [] =
          ground arith in
        let same = (eq_iff new.email email).1 (named s.users.next) in
        let there = find-append-none (has_email email) s.users.rows (new ∷ []) none_yet in
        record { user = new; there = rw rows (there ∙ rw same refl); admin = admin s.users.next }

    seed_admin-IsSeeded :
        (env : Environment) (credentials : Credentials) (s : State)
        → read_admin_credentials env ≡ ok credentials
        → (seed_admin env s).0 ≡ ok tt
        → IsSeeded credentials.email (seed_admin env s).1
    unfolding seed_admin
    seed_admin-IsSeeded env credentials s read h =
        let search = prisma.find_first_lem (has_email credentials.email) s.users in
        let mk =
          new_user credentials.name credentials.email
            (crypto.hash_password credentials.password draw.salt) Role.admin none draw.now in
        elim (Option-cases (find (has_email credentials.email) s.users.rows)) [
          | inl none_yet ↦
              let same : seed_admin env s ≡ (create_user prisma mk >> pure tt) s =
                rw (read, search, none_yet) refl in
              rw same (
                create-IsSeeded credentials.email mk s (λ id. refl) (λ id. refl) none_yet
                  (rw same at h))
          | inr (u, found) ↦
              let same : seed_admin env s ≡ promote u s = rw (read, search, found) refl in
              rw same (promote-IsSeeded credentials.email u s found (rw same at h))
        ]

    -- A seed that returns leaves an admin with the address of the environment, and seeding again changes
    -- nothing.
    pub seed_admin-twice :
        (env : Environment) (credentials : Credentials) (s : State)
        → read_admin_credentials env ≡ ok credentials
        → (seed_admin env s).0 ≡ ok tt
        → let t = (seed_admin env s).1 in
          IsSeeded credentials.email t × (seed_admin env t ≡ (ok tt, t))
    seed_admin-twice env credentials s read h =
        let seeded = seed_admin-IsSeeded env credentials s read h in
        (seeded, seed_again env credentials (seed_admin env s).1 read seeded)
