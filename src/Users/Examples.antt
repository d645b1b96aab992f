-- ===== src/Users/Examples.antt =====
-- Tests of the session handling on concrete states.
use smart_patents_storage_sy.Prelude.{◌≡◌, refl, arith, true, false, none, some}
use smart_patents_storage_sy.Errors.{unauthorized}
use smart_patents_storage_sy.Exec.{ok, err, is_ok}
use smart_patents_storage_sy.Prisma.Memory.{memory}
use smart_patents_storage_sy.State.{State}
use smart_patents_storage_sy.Users.Sessions.{
  Session, rotate_tx, logout_user, use_token, refresh_session,
}
use smart_patents_storage_sy.Users.Revocation.{
  all_revoked, has_live, IsSignedOut, logout_user-IsSignedOut, reused_token-revokes,
}
use smart_patents_storage_sy.Users.Reuse.{refresh_session-reuse}
use smart_patents_storage_sy.Users.Rotation.{rotate_tx-once, revoked_rotation-live}
use smart_patents_storage_sy.Users.Accounts.{signup_user, update_profile, change_password}
use smart_patents_storage_sy.Users.Admins.{admin_ids, accounts-keep_admins}
use smart_patents_storage_sy.Users.Seed.{
  Environment, Credentials, read_admin_credentials, seed_admin, seed_admin-twice, IsSeeded,
}
use smart_patents_storage_sy.Prelude.{String}
use smart_patents_storage_sy.Samples.{config, ada, crypto, draw, later_draw, token_with, signed_in}

logout_user-IsSignedOut_example :
    ((logout_user memory crypto config draw 5 none (signed_in none)).0 ≡ ok tt)
    × IsSignedOut 5
        (signed_in none)
        (logout_user memory crypto config draw 5 none (signed_in none)).1
logout_user-IsSignedOut_example =
    logout_user-IsSignedOut memory crypto config draw 5 (signed_in none) refl

reuse_ends_sessions :
    use_token memory crypto config draw (token_with (some 50)) ada (signed_in (some 50)) ≡ (
      err (unauthorized "Refresh token has already been used; all sessions have been revoked"),
      all_revoked 100 5 (signed_in (some 50)),
    )
reuse_ends_sessions =
    reused_token-revokes memory crypto config draw (token_with (some 50)) ada (signed_in (some 50))
      refl refl

abbrev session : Session
session = record { user = ada; tokens = record { access_token = "access"; refresh_token = "new" } }

rotates :
    (rotate_tx memory crypto config draw (token_with none) ada (signed_in none)).0 ≡ ok session
unfolding rotate_tx
rotates = refl

abbrev rotated_once : State
rotated_once = (rotate_tx memory crypto config draw (token_with none) ada (signed_in none)).1

rotate_tx-once_example :
    (is_ok (rotate_tx memory crypto config later_draw (token_with none) ada rotated_once).0 ≡ false)
    × ((rotate_tx memory crypto config later_draw (token_with none) ada rotated_once).1
        ≡ rotated_once)
rotate_tx-once_example =
    rotate_tx-once memory crypto config draw later_draw (token_with none) ada (signed_in none)
      session refl (ground arith, tt) rotates

rotates_revoked :
    (rotate_tx memory crypto config draw
      (token_with none)
      ada
      (all_revoked 99 5 (signed_in none))).0
    ≡ ok session
unfolding rotate_tx
rotates_revoked = refl

revoked_rotation-live_example :
    (has_live 5 (all_revoked 99 5 (signed_in none)) ≡ false)
    × (is_ok
          (rotate_tx memory crypto config draw
            (token_with none)
            ada
            (all_revoked 99 5 (signed_in none))).0
        ≡ true)
    × (has_live 5
          (rotate_tx memory crypto config draw
            (token_with none)
            ada
            (all_revoked 99 5 (signed_in none))).1
        ≡ true)
revoked_rotation-live_example =
    revoked_rotation-live memory crypto config draw 99 (token_with none) ada (signed_in none) refl
      (omega arith, tt) refl refl refl

accounts-keep_admins_example :
    (admin_ids
        (signup_user memory crypto config draw "Eve" "eve@x" "Passw0rd"
          (signed_in none)).1.users.rows
      ≡ admin_ids (signed_in none).users.rows)
    × (admin_ids (update_profile memory 5 (some "Eve") none (signed_in none)).1.users.rows
        ≡ admin_ids (signed_in none).users.rows)
    × (admin_ids
          (change_password memory crypto config draw 5 "Passw0rd" "N3wpassword"
            (signed_in none)).1.users.rows
        ≡ admin_ids (signed_in none).users.rows)
accounts-keep_admins_example =
    accounts-keep_admins memory crypto config draw (signed_in none) 5 "Eve" "eve@x" "Passw0rd"
      "N3wpassword" (some "Eve") none

abbrev refreshed : State
refreshed = (refresh_session memory crypto config draw "old" (signed_in none)).1

refreshes : (refresh_session memory crypto config draw "old" (signed_in none)).0 ≡ ok session
unfolding refresh_session
refreshes = refl

refresh_session-reuse_example :
    ((refresh_session memory crypto config later_draw "old" refreshed).0
      ≡ err (unauthorized "Refresh token has already been used; all sessions have been revoked"))
    × IsSignedOut 5 refreshed (refresh_session memory crypto config later_draw "old" refreshed).1
refresh_session-reuse_example =
    refresh_session-reuse memory crypto config draw later_draw "old" (signed_in none) session refl
      refreshes

abbrev environment : Environment
environment = record {
  admin_email = some " root@patents.org ";
  admin_password = some "Passw0rd";
  admin_name = none;
}

abbrev root : Credentials
root = record { email = "root@patents.org"; password = "Passw0rd"; name = "Administrator" }

-- `toLowerCase` of a text in lower case
abbrev same : String → String
same text = text

reads_root : read_admin_credentials same environment ≡ ok root
unfolding read_admin_credentials
reads_root = refl

abbrev seeded : State
seeded = (seed_admin same memory crypto draw environment (signed_in none)).1

seeds : (seed_admin same memory crypto draw environment (signed_in none)).0 ≡ ok tt
unfolding seed_admin
seeds = refl

seed_admin-twice_example :
    IsSeeded same memory crypto draw "root@patents.org" seeded
    × (seed_admin same memory crypto draw environment seeded ≡ (ok tt, seeded))
seed_admin-twice_example =
    seed_admin-twice same memory crypto draw environment root (signed_in none) reads_root seeds
