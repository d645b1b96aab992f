-- ===== src/Users/Rotation.antt =====
-- Rotating a refresh token: it works once, also under concurrency; and what a revocation in between
-- does not stop.
use smart_patents_storage_sy.Prelude.{
  ℕ, ◌≡◌, refl, ◌∙◌, true, false, not, Option, none, some, List, [], ◌∷◌, ◌++◌, map, ◌==◌, keep,
  any, length, change, arith, is_some, inl, inr, Option-cases, find, any-append,
}
use smart_patents_storage_sy.Exec.{ok, is_ok}
use smart_patents_storage_sy.Prisma.{Prisma, no_clash}
use smart_patents_storage_sy.Prisma.Unique.{no_clash-map, at_key, count-at_key, Below, find-fresh}
use smart_patents_storage_sy.Schema.{User, RefreshToken, refresh_token_clash}
use smart_patents_storage_sy.State.{State}
use smart_patents_storage_sy.Storage.{Config}
use smart_patents_storage_sy.Users.Crypto.{Crypto, Draw, refresh_token_expiry}
use smart_patents_storage_sy.Users.Sessions.{
  live_of, revoked, rotated, unrotated_at, new_token, rotate_tx, Session, has_hash,
}
use smart_patents_storage_sy.Users.Revocation.{
  HasUniqueTokens, all_revoked, has_live, all_revoked-IsSignedOut,
}

abbrev pub token_at : ℕ → State → Option RefreshToken
token_at id s = find (at_key (λ (r : RefreshToken). r.id) id) s.refresh_tokens.rows

token_keyed : (r t : RefreshToken) → refresh_token_clash r t ≡ false → (r.id == t.id) ≡ false
token_keyed r t h = ground arith

module _ (prisma : Prisma) (crypto : Crypto) (config : Config) (draw : Draw) where
  -- The token that a new session adds.
  abbrev pub issued : User → ℕ → RefreshToken
  issued user =
      new_token user.id (crypto.hash_refresh_token draw.token)
        (refresh_token_expiry config.refresh_token_ttl_days draw.now)

  pub record Rotated (stored : RefreshToken) (user : User) (s t : State) : Type 0 where
    pub row : RefreshToken
    pub there : token_at stored.id s ≡ some row
    pub unused : row.rotated_at ≡ none
    pub rows :
        t.refresh_tokens.rows
        ≡ map (change (unrotated_at stored.id) (rotated draw.now)) s.refresh_tokens.rows
          ++ issued user s.refresh_tokens.next ∷ []
    pub users : t.users ≡ s.users

  module _ (stored : RefreshToken) (user : User) (s : State) (u : HasUniqueTokens s) where
    pub rotate_tx-Rotated :
        (session : Session)
        → (rotate_tx prisma crypto config draw stored user s).0 ≡ ok session
        → Rotated stored user s (rotate_tx prisma crypto config draw stored user s).1
    unfolding rotate_tx refresh_token_expiry
    rotate_tx-Rotated session h =
        let written =
          prisma.update_many_lem refresh_token_clash (unrotated_at stored.id) (rotated draw.now)
            s.refresh_tokens in
        let t = record s.refresh_tokens {
          rows = map (change (unrotated_at stored.id) (rotated draw.now)) s.refresh_tokens.rows;
        } in
        let added = prisma.create_lem refresh_token_clash (issued user) t in
        let counted =
          count-at_key (λ (r : RefreshToken). r.id) refresh_token_clash token_keyed stored.id
            (λ r. not (is_some r.rotated_at)) s.refresh_tokens.rows u in
        elim (Option-cases (token_at stored.id s)) [
          | inl gone ↦ absurd (ground arith)
          | inr (row, there) ↦ record {
            row = row;
            there = there;
            unused = ground arith;
            rows = ground arith;
            users = ground arith;
          }
        ]

module _ (prisma : Prisma) (crypto : Crypto) (config : Config) where
  apart :
      (n id : ℕ) (rows : List RefreshToken) (row : RefreshToken)
      → find (at_key (λ (r : RefreshToken). r.id) n) rows ≡ none
      → find (at_key (λ (r : RefreshToken). r.id) id) rows ≡ some row
      → (n == id) ≡ false
  apart n id [] row fresh there = ground arith
  apart n id (r ∷ rs) row fresh there = ground (arith, apart n id rs row)

  spent :
      (id now : ℕ) (new : RefreshToken) (rows : List RefreshToken)
      → (new.id == id) ≡ false
      → length
          (keep (unrotated_at id) (map (change (unrotated_at id) (rotated now)) rows ++ new ∷ []))
        ≡ 0
  spent id now new [] h = ground arith
  spent id now new (r ∷ rs) h = ground (arith, spent id now new rs h)

  rotate_tx_of_spent :
      (draw : Draw) (stored : RefreshToken) (user : User) (t : State)
      → length (keep (unrotated_at stored.id) t.refresh_tokens.rows) ≡ 0
      → (is_ok (rotate_tx prisma crypto config draw stored user t).0 ≡ false)
        × ((rotate_tx prisma crypto config draw stored user t).1 ≡ t)
  unfolding rotate_tx
  rotate_tx_of_spent draw stored user t none_left =
      let written =
        prisma.update_many_lem refresh_token_clash (unrotated_at stored.id) (rotated draw.now)
          t.refresh_tokens in
      ground arith

  -- A refresh token rotates once, also when two requests have both read it as unused: once the
  -- transaction of one of them has been committed, that of the other fails and writes nothing.
  pub rotate_tx-once :
      (draw other : Draw) (stored : RefreshToken) (user : User) (s : State) (session : Session)
      → HasUniqueTokens s
      → Below (λ (r : RefreshToken). r.id) s.refresh_tokens.next s.refresh_tokens.rows
      → (rotate_tx prisma crypto config draw stored user s).0 ≡ ok session
      → let t = (rotate_tx prisma crypto config draw stored user s).1 in
        (is_ok (rotate_tx prisma crypto config other stored user t).0 ≡ false)
        × ((rotate_tx prisma crypto config other stored user t).1 ≡ t)
  rotate_tx-once draw other stored user s session u below h =
      let r = rotate_tx-Rotated prisma crypto config draw stored user s u session h in
      let fresh =
        find-fresh (λ (r : RefreshToken). r.id) s.refresh_tokens.next s.refresh_tokens.rows below in
      let there = r.there in
      let new : (s.refresh_tokens.next == stored.id) ≡ false =
        apart s.refresh_tokens.next stored.id s.refresh_tokens.rows r.row fresh there in
      rotate_tx_of_spent other stored user _ (
        rw (r.rows) (
          spent stored.id draw.now (issued prisma crypto config draw user s.refresh_tokens.next)
            s.refresh_tokens.rows new))

  issued-live :
      (user : User) (new : RefreshToken) (rows : List RefreshToken)
      → live_of user.id new ≡ true
      → any (live_of user.id) (rows ++ new ∷ []) ≡ true
  issued-live user new rows h = any-append (live_of user.id) rows (new ∷ []) ∙ ground arith

  -- The revocation of all sessions does not touch what the rotation looks at.
  unused_left :
      (id now user_id : ℕ) (rows : List RefreshToken) (row : RefreshToken)
      → find (at_key (λ (r : RefreshToken). r.id) id) rows ≡ some row
      → row.rotated_at ≡ none
      → (length (keep (unrotated_at id) (map (change (live_of user_id) (revoked now)) rows)) == 0)
        ≡ false
  unused_left id now user_id [] row there unused = ground arith
  unused_left id now user_id (r ∷ rs) row there unused =
      ground (arith, unused_left id now user_id rs row)

  -- A new hash and the next id conflict with no token, whatever is revoked or rotated.
  new_token-free :
      (id now later user_id : ℕ) (new : RefreshToken) (rows : List RefreshToken)
      → Below (λ (r : RefreshToken). r.id) new.id rows
      → any (has_hash new.token_hash) rows ≡ false
      → any
          (λ r. refresh_token_clash r new)
          (map
            (change (unrotated_at id) (rotated later))
            (map (change (live_of user_id) (revoked now)) rows))
        ≡ false
  new_token-free id now later user_id new [] below fresh = refl
  new_token-free id now later user_id new (r ∷ rs) (b, below) fresh =
      ground (arith, new_token-free id now later user_id new rs below)

  rotated_unique :
      (id now user_id : ℕ) (later : ℕ) (rows : List RefreshToken)
      → no_clash refresh_token_clash rows ≡ true
      → no_clash refresh_token_clash (
          map
            (change (unrotated_at id) (rotated later))
            (map (change (live_of user_id) (revoked now)) rows))
        ≡ true
  rotated_unique id now user_id later rows u =
      no_clash-map refresh_token_clash (change (unrotated_at id) (rotated later)) _
        (λ x y. ground arith)
      ∙ no_clash-map refresh_token_clash (change (live_of user_id) (revoked now)) rows
          (λ x y. ground arith)
      ∙ u

  -- A refresh that had read its token, not yet rotated, before every session of the user was revoked,
  -- and runs its transaction after: it succeeds, and the user, who had no live session left, has one
  -- again. The tokens have distinct ids and hashes, the ids are below the next one, and the hash of the
  -- new token is not in use.
  pub revoked_rotation-live :
      (draw : Draw) (now : ℕ) (stored : RefreshToken) (user : User) (s : State)
      → HasUniqueTokens s
      → Below (λ (r : RefreshToken). r.id) s.refresh_tokens.next s.refresh_tokens.rows
      → any (has_hash (crypto.hash_refresh_token draw.token)) s.refresh_tokens.rows ≡ false
      → token_at stored.id s ≡ some stored
      → stored.rotated_at ≡ none
      → let t = all_revoked now user.id s in
        (has_live user.id t ≡ false)
        × (is_ok (rotate_tx prisma crypto config draw stored user t).0 ≡ true)
        × (has_live user.id (rotate_tx prisma crypto config draw stored user t).1 ≡ true)
  unfolding rotate_tx refresh_token_expiry
  revoked_rotation-live draw now stored user s u below fresh there unused =
      let revoked_rows = map (change (live_of user.id) (revoked now)) s.refresh_tokens.rows in
      let table = record s.refresh_tokens { rows = revoked_rows } in
      let written =
        prisma.update_many_lem refresh_token_clash (unrotated_at stored.id) (rotated draw.now)
          table in
      let after_rotation = record s.refresh_tokens {
        rows = map (change (unrotated_at stored.id) (rotated draw.now)) revoked_rows;
      } in
      let new = issued prisma crypto config draw user s.refresh_tokens.next in
      let added =
        prisma.create_lem refresh_token_clash (issued prisma crypto config draw user)
          after_rotation in
      let left = unused_left stored.id now user.id s.refresh_tokens.rows stored there unused in
      let free =
        new_token-free stored.id now draw.now user.id new s.refresh_tokens.rows below fresh in
      let unique = rotated_unique stored.id now user.id draw.now s.refresh_tokens.rows u in
      let live = issued-live user new after_rotation.rows (ground arith) in
      ((all_revoked-IsSignedOut now user.id s).none_live, ground arith, ground arith)
