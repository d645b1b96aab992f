-- ===== src/Users/Sessions.antt =====
-- src/services/userService.js: issuing, rotating and revoking sessions. The transaction of
-- `refreshSession` is a definition of its own, since other requests run before it.
use smart_patents_storage_sy.Prelude.{
  ℕ, String, Bool, ◌&&◌, not, Option, none, some, ◌==◌, str_eq, leb, if◌then◌else◌, is_some,
}
use smart_patents_storage_sy.Errors.{unauthorized, other}
use smart_patents_storage_sy.Exec.{Exec, ok, err, pure, throw, gets, transaction, ◌>>=◌, ◌>>◌}
use smart_patents_storage_sy.Prisma.{Prisma}
use smart_patents_storage_sy.Schema.{User, RefreshToken, refresh_token_clash}
use smart_patents_storage_sy.State.{State}
use smart_patents_storage_sy.Storage.{Config}
use smart_patents_storage_sy.Users.Crypto.{Crypto, Draw, refresh_token_expiry}

pub record Tokens : Type 0 where
  pub access_token : String
  pub refresh_token : String

pub record Session : Type 0 where
  pub user : User
  pub tokens : Tokens

-- A condition of `refreshToken.updateMany`.
abbrev pub live_of : ℕ → RefreshToken → Bool
live_of user_id r = r.user_id == user_id && not (is_some r.revoked_at)

abbrev pub revoked : ℕ → RefreshToken → RefreshToken
revoked now r = record r { revoked_at = some now }

abbrev pub rotated : ℕ → RefreshToken → RefreshToken
rotated now r = record r { rotated_at = some now; revoked_at = some now }

abbrev pub unrotated_at : ℕ → RefreshToken → Bool
unrotated_at id r = r.id == id && not (is_some r.rotated_at)

abbrev pub has_hash : String → RefreshToken → Bool
has_hash hash r = str_eq r.token_hash hash

abbrev pub new_token : ℕ → String → ℕ → ℕ → RefreshToken
new_token user_id token_hash expires_at id = record {
  id = id;
  user_id = user_id;
  token_hash = token_hash;
  rotated_at = none;
  revoked_at = none;
  expires_at = expires_at;
}

module _ (prisma : Prisma) where
  abbrev pub create_token : (ℕ → RefreshToken) → Exec State RefreshToken
  create_token mk s = elim (prisma.create refresh_token_clash mk s.refresh_tokens) [
    | ok (r, t) ↦ (ok r, record s { refresh_tokens = t })
    | err e ↦ (err e, s)
  ]

  abbrev pub update_tokens : (RefreshToken → Bool) → (RefreshToken → RefreshToken) → Exec State ℕ
  update_tokens p f s = elim (prisma.update_many refresh_token_clash p f s.refresh_tokens) [
    | ok (n, t) ↦ (ok n, record s { refresh_tokens = t })
    | err e ↦ (err e, s)
  ]

  -- `updateMany({ where: { userId, revokedAt: null }, data: { revokedAt } })`
  unfoldable pub revoke_all : ℕ → ℕ → Exec State ℕ
  revoke_all now user_id = update_tokens (live_of user_id) (revoked now)

  module _ (crypto : Crypto) (config : Config) (draw : Draw) where
    unfoldable pub issue_session : User → Exec State Tokens
    unfolding refresh_token_expiry
    issue_session user = do
      create_token (
          new_token user.id (crypto.hash_refresh_token draw.token)
            (refresh_token_expiry config.refresh_token_ttl_days draw.now))
      pure (record {
        access_token =
            crypto.sign_access_token (record { user_id = user.id; role = user.role }) draw.now;
        refresh_token = draw.token;
      })

    unfoldable pub rotate_body : RefreshToken → User → Exec State Session
    unfolding issue_session
    rotate_body stored user = do
      count ← update_tokens (unrotated_at stored.id) (rotated draw.now)
      if count == 0
          then throw (unauthorized "Invalid refresh token")
          else (do tokens ← issue_session user; pure (record { user = user; tokens = tokens }))

    unfoldable pub rotate_tx : RefreshToken → User → Exec State Session
    unfolding rotate_body
    rotate_tx stored user = transaction (rotate_body stored user)

    -- The checks on the stored token, and the revocation that a reuse sets off.
    unfoldable pub use_token : RefreshToken → User → Exec State Session
    unfolding rotate_tx revoke_all
    use_token stored user =
        if is_some stored.rotated_at
        then (do
          revoke_all draw.now stored.user_id
          throw
              (unauthorized "Refresh token has already been used; all sessions have been revoked"))
        else if is_some stored.revoked_at
        then throw (unauthorized "Refresh token has been revoked")
        else if leb stored.expires_at draw.now
        then throw (unauthorized "Refresh token has expired")
        else rotate_tx stored user

    abbrev pub owner_of : RefreshToken → State → Option User
    owner_of stored s = prisma.find_first (λ u. u.id == stored.user_id) s.users

    -- `include: { user: true }` of a required relation: the foreign key cascades, so there is a user.
    unfoldable pub refresh_session : String → Exec State Session
    unfolding use_token
    refresh_session refresh_token = do
      stored ← gets (λ s.
          prisma.find_first (has_hash (crypto.hash_refresh_token refresh_token)) s.refresh_tokens)
      elim stored [
        | none ↦ throw (unauthorized "Invalid refresh token")
        | some token ↦ (do
          user ← gets (owner_of token)
          elim user [
            | none ↦
                throw (other "Inconsistent query result: Field user is required to return data")
            | some u ↦ use_token token u
          ])
      ]

    -- `where: { tokenHash, userId, revokedAt: null }`
    abbrev pub presented : String → ℕ → RefreshToken → Bool
    presented token user_id r = has_hash (crypto.hash_refresh_token token) r && live_of user_id r

    -- An empty text counts as no token.
    unfoldable pub logout_user : ℕ → Option String → Exec State (Unit {0})
    unfolding revoke_all
    logout_user user_id none = do revoke_all draw.now user_id; pure tt
    logout_user user_id (some token) =
        if str_eq token ""
        then (do revoke_all draw.now user_id; pure tt)
        else (do update_tokens (presented token user_id) (revoked draw.now); pure tt)
