-- ===== src/Users/Reuse.antt =====
-- A refresh token presented again after a refresh that has used it.
use smart_patents_storage_sy.Prelude.{
  ◌≡◌, refl, ◌∙◌, String, none, some, List, [], ◌∷◌, ◌++◌, map, ◌==◌, change, arith, inl, inr,
  Option-cases, find, find-map, find-append-some, find-passes,
}
use smart_patents_storage_sy.Errors.{unauthorized}
use smart_patents_storage_sy.Exec.{ok, err}
use smart_patents_storage_sy.Prisma.{Prisma}
use smart_patents_storage_sy.Prisma.Unique.{no_clash-map, no_clash-append}
use smart_patents_storage_sy.Schema.{User, RefreshToken, refresh_token_clash}
use smart_patents_storage_sy.State.{State}
use smart_patents_storage_sy.Storage.{Config}
use smart_patents_storage_sy.Users.Crypto.{Crypto, Draw}
use smart_patents_storage_sy.Users.Sessions.{
  rotated, unrotated_at, has_hash, rotate_tx, use_token, revoke_all, refresh_session, owner_of,
  Session,
}
use smart_patents_storage_sy.Users.Revocation.{
  HasUniqueTokens, IsSignedOut, reused_token-revokes, all_revoked-IsSignedOut,
}
use smart_patents_storage_sy.Users.Rotation.{rotate_tx-Rotated, issued}

module _ (prisma : Prisma) (crypto : Crypto) (config : Config) where
  -- What a refresh that returned has read.
  pub record Used (draw : Draw) (token : String) (s : State) : Type 0 where
    pub stored : RefreshToken
    pub user : User
    pub there :
        find (has_hash (crypto.hash_refresh_token token)) s.refresh_tokens.rows ≡ some stored
    pub owner : find (λ u. u.id == stored.user_id) s.users.rows ≡ some user
    pub unused : stored.rotated_at ≡ none
    pub ran :
        refresh_session prisma crypto config draw token s
        ≡ rotate_tx prisma crypto config draw stored user s

  use_token-ok :
      (draw : Draw) (stored : RefreshToken) (user : User) (s : State) (session : Session)
      → (use_token prisma crypto config draw stored user s).0 ≡ ok session
      → (stored.rotated_at ≡ none)
        × (use_token prisma crypto config draw stored user s
            ≡ rotate_tx prisma crypto config draw stored user s)
  unfolding use_token revoke_all
  use_token-ok draw stored user s session h = (ground arith, ground arith)

  pub refresh_session-Used :
      (draw : Draw) (token : String) (s : State) (session : Session)
      → (refresh_session prisma crypto config draw token s).0 ≡ ok session
      → Used draw token s
  unfolding refresh_session
  refresh_session-Used draw token s session h =
      let search =
        prisma.find_first_lem (has_hash (crypto.hash_refresh_token token)) s.refresh_tokens in
      elim (Option-cases
        (prisma.find_first (has_hash (crypto.hash_refresh_token token)) s.refresh_tokens)) [
          | inl missing ↦ absurd (ground arith)
          | inr (stored, found) ↦
              let owners = prisma.find_first_lem (λ u. u.id == stored.user_id) s.users in
              elim (Option-cases (owner_of prisma crypto config draw stored s)) [
                | inl orphan ↦ absurd (ground arith)
                | inr (user, owner) ↦
                    let used = use_token-ok draw stored user s session (ground arith) in
                    record {
                      stored = stored;
                      user = user;
                      there = ground arith;
                      owner = ground arith;
                      unused = used.0;
                      ran = ground arith;
                    }
              ]
        ]

  pub rotate_tx_unique :
      (draw : Draw) (stored : RefreshToken) (user : User) (s : State) (session : Session)
      → HasUniqueTokens s
      → (rotate_tx prisma crypto config draw stored user s).0 ≡ ok session
      → HasUniqueTokens (rotate_tx prisma crypto config draw stored user s).1
  unfolding rotate_tx
  rotate_tx_unique draw stored user s session u h =
      let f = change (unrotated_at stored.id) (rotated draw.now) in
      let written =
        prisma.update_many_lem refresh_token_clash (unrotated_at stored.id) (rotated draw.now)
          s.refresh_tokens in
      let new = issued prisma crypto config draw user in
      let t = record s.refresh_tokens { rows = map f s.refresh_tokens.rows } in
      let added = prisma.create_lem refresh_token_clash new t in
      let kept = no_clash-map refresh_token_clash f s.refresh_tokens.rows (λ x y. ground arith) in
      let joined =
        no_clash-append refresh_token_clash (map f s.refresh_tokens.rows)
          (new s.refresh_tokens.next) (kept ∙ u) in
      ground arith

  pub rotate_tx-user :
      (draw : Draw) (stored : RefreshToken) (user : User) (s : State) (session : Session)
      → (rotate_tx prisma crypto config draw stored user s).0 ≡ ok session
      → session.user ≡ user
  unfolding rotate_tx
  rotate_tx-user draw stored user s session h = ground arith

  -- What the second refresh finds: the row that the first has rotated, and its owner.
  refresh_session-of_used :
      (later : Draw) (token : String) (t : State) (row : RefreshToken) (user : User)
      → find (has_hash (crypto.hash_refresh_token token)) t.refresh_tokens.rows ≡ some row
      → find (λ u. u.id == row.user_id) t.users.rows ≡ some user
      → refresh_session prisma crypto config later token t
        ≡ use_token prisma crypto config later row user t
  unfolding refresh_session
  refresh_session-of_used later token t row user there owner =
      let search =
        prisma.find_first_lem (has_hash (crypto.hash_refresh_token token)) t.refresh_tokens in
      let owners = prisma.find_first_lem (λ u. u.id == row.user_id) t.users in ground arith

  -- The row that a rotation leaves for the text of its token.
  pub found-rotated :
      (draw : Draw) (hash : String) (stored : RefreshToken) (new : RefreshToken)
      (rows : List RefreshToken)
      → find (has_hash hash) rows ≡ some stored
      → stored.rotated_at ≡ none
      → find
          (has_hash hash)
          (map (change (unrotated_at stored.id) (rotated draw.now)) rows ++ new ∷ [])
        ≡ some (rotated draw.now stored)
  found-rotated draw hash stored new rows there unused =
      let f = change (unrotated_at stored.id) (rotated draw.now) in
      let mapped = find-map (has_hash hash) f rows (λ x. ground arith) in
      find-append-some (has_hash hash) (map f rows) (new ∷ []) (rotated draw.now stored)
        (mapped ∙ rw (there) (ground arith))

  reuse_after :
      (draw later : Draw) (token : String) (s : State) (session : Session)
      → HasUniqueTokens s
      → (used : Used draw token s)
      → (rotate_tx prisma crypto config draw used.stored used.user s).0 ≡ ok session
      → let t = (rotate_tx prisma crypto config draw used.stored used.user s).1 in
        ((refresh_session prisma crypto config later token t).0
          ≡ err
              (unauthorized "Refresh token has already been used; all sessions have been revoked"))
        × IsSignedOut session.user.id t (refresh_session prisma crypto config later token t).1
  reuse_after draw later token s session u used h =
      let stored = used.stored in
      let user = used.user in
      let t = (rotate_tx prisma crypto config draw stored user s).1 in
      let r = rotate_tx-Rotated prisma crypto config draw stored user s u session h in
      let hash = crypto.hash_refresh_token token in
      let there : find (has_hash hash) t.refresh_tokens.rows ≡ some (rotated draw.now stored) =
        rw (r.rows) (
          found-rotated draw hash stored
            (issued prisma crypto config draw user s.refresh_tokens.next) s.refresh_tokens.rows
            used.there used.unused) in
      let owner : find (λ x. x.id == stored.user_id) t.users.rows ≡ some user =
        rw (r.users) used.owner in
      let row = rotated draw.now stored in
      let ended =
        reused_token-revokes prisma crypto config later row user t
          (rotate_tx_unique draw stored user s session u h) refl in
      let out = all_revoked-IsSignedOut later.now stored.user_id t in
      let same : session.user.id ≡ stored.user_id =
        let owned = find-passes (λ x. x.id == stored.user_id) s.users.rows user used.owner in
        rw (rotate_tx-user draw stored user s session h) (ground arith) in
      rw (refresh_session-of_used later token t row user there owner, ended, same) (refl, out)

  -- A refresh token presented again after a refresh that returned: the request fails, and every
  -- session of its owner is ended, the one that the first refresh has opened included; the tokens of
  -- all others stay.
  pub refresh_session-reuse :
      (draw later : Draw) (token : String) (s : State) (session : Session)
      → HasUniqueTokens s
      → (refresh_session prisma crypto config draw token s).0 ≡ ok session
      → let t = (refresh_session prisma crypto config draw token s).1 in
        ((refresh_session prisma crypto config later token t).0
          ≡ err
              (unauthorized "Refresh token has already been used; all sessions have been revoked"))
        × IsSignedOut session.user.id t (refresh_session prisma crypto config later token t).1
  refresh_session-reuse draw later token s session u h =
      let used = refresh_session-Used draw token s session h in
      rw (used.ran) (reuse_after draw later token s session u used (rw (used.ran) at h))
