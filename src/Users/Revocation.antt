-- ===== src/Users/Revocation.antt =====
-- Revoking every session of a user: logout without a token, a changed password, a reused token.
use smart_patents_storage_sy.Prelude.{
  ℕ, ◌≡◌, refl, Bool, true, false, not, none, List, [], ◌∷◌, map, ◌==◌, keep, any, length, change,
  arith, is_some,
}
use smart_patents_storage_sy.Errors.{unauthorized}
use smart_patents_storage_sy.Exec.{ok, err}
use smart_patents_storage_sy.Prisma.{Prisma, no_clash}
use smart_patents_storage_sy.Prisma.Unique.{no_clash-map}
use smart_patents_storage_sy.Schema.{User, RefreshToken, refresh_token_clash}
use smart_patents_storage_sy.State.{State}
use smart_patents_storage_sy.Storage.{Config}
use smart_patents_storage_sy.Users.Crypto.{Crypto, Draw}
use smart_patents_storage_sy.Users.Sessions.{live_of, revoked, revoke_all, logout_user, use_token}

abbrev pub HasUniqueTokens : State → Type 0
HasUniqueTokens s = no_clash refresh_token_clash s.refresh_tokens.rows ≡ true

-- The state in which a user has no live session left.
abbrev pub all_revoked : ℕ → ℕ → State → State
all_revoked now user_id s = record s {
  refresh_tokens = record s.refresh_tokens {
    rows = map (change (live_of user_id) (revoked now)) s.refresh_tokens.rows;
  };
}

-- The user has a token that is neither rotated nor revoked.
abbrev pub has_live : ℕ → State → Bool
has_live user_id s = any (live_of user_id) s.refresh_tokens.rows

-- The tokens of all other users.
abbrev pub others : ℕ → State → List RefreshToken
others user_id s = keep (λ r. not (r.user_id == user_id)) s.refresh_tokens.rows

revoked-live :
    (now user_id : ℕ) (rows : List RefreshToken)
    → any (live_of user_id) (map (change (live_of user_id) (revoked now)) rows) ≡ false
revoked-live now user_id [] = refl
revoked-live now user_id (r ∷ rs) = ground (arith, revoked-live now user_id rs)

revoked-others :
    (now user_id : ℕ) (rows : List RefreshToken)
    → keep (λ r. not (r.user_id == user_id)) (map (change (live_of user_id) (revoked now)) rows)
      ≡ keep (λ r. not (r.user_id == user_id)) rows
revoked-others now user_id [] = refl
revoked-others now user_id (r ∷ rs) = ground (arith, revoked-others now user_id rs)

pub record IsSignedOut (user_id : ℕ) (s t : State) : Type 0 where
  pub none_live : has_live user_id t ≡ false
  pub others_kept : others user_id t ≡ others user_id s

pub all_revoked-IsSignedOut :
    (now user_id : ℕ) (s : State) → IsSignedOut user_id s (all_revoked now user_id s)
all_revoked-IsSignedOut now user_id s = record {
  none_live = revoked-live now user_id s.refresh_tokens.rows;
  others_kept = revoked-others now user_id s.refresh_tokens.rows;
}

module _ (prisma : Prisma) where
  pub revoke_all-eq :
      (now user_id : ℕ) (s : State)
      → HasUniqueTokens s
      → revoke_all prisma now user_id s
        ≡ (ok (length (keep (live_of user_id) s.refresh_tokens.rows)), all_revoked now user_id s)
  unfolding revoke_all
  revoke_all-eq now user_id s u =
      let written =
        prisma.update_many_lem refresh_token_clash (live_of user_id) (revoked now)
          s.refresh_tokens in
      let free =
        no_clash-map refresh_token_clash (change (live_of user_id) (revoked now))
          s.refresh_tokens.rows (λ x y. ground arith) in
      ground arith

  module _ (crypto : Crypto) (config : Config) (draw : Draw) where
    -- Logging out without a token ends every session of the caller and no other.
    pub logout_user-IsSignedOut :
        (user_id : ℕ) (s : State)
        → HasUniqueTokens s
        → ((logout_user prisma crypto config draw user_id none s).0 ≡ ok tt)
          × IsSignedOut user_id s (logout_user prisma crypto config draw user_id none s).1
    unfolding logout_user
    logout_user-IsSignedOut user_id s u =
        rw (revoke_all-eq draw.now user_id s u) (refl, all_revoked-IsSignedOut draw.now user_id s)

    -- A token that was rotated before, presented again: the request fails, and every session of its
    -- owner is ended.
    pub reused_token-revokes :
        (stored : RefreshToken) (user : User) (s : State)
        → HasUniqueTokens s
        → is_some stored.rotated_at ≡ true
        → (use_token prisma crypto config draw stored user s ≡ (
          err (unauthorized "Refresh token has already been used; all sessions have been revoked"),
          all_revoked draw.now stored.user_id s,
        ))
    unfolding use_token
    reused_token-revokes stored user s u was =
        let ended = revoke_all-eq draw.now stored.user_id s u in ground arith
