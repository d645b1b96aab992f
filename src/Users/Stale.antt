-- ===== src/Users/Stale.antt =====
-- Logging out with a refresh token that a refresh has already replaced.
use smart_patents_storage_sy.Prelude.{
  ℕ, ◌≡◌, refl, ◌∙◌, String, true, false, some, List, [], ◌∷◌, ◌++◌, map, any, change, arith, inl,
  inr, find, find-map, Bool, str_eq, any-append, eq_iff, Bool-cases, sym,
}
use smart_patents_storage_sy.Exec.{ok}
use smart_patents_storage_sy.Prisma.{Prisma, no_clash}
use smart_patents_storage_sy.Prisma.Unique.{no_clash-map}
use smart_patents_storage_sy.Schema.{User, RefreshToken, refresh_token_clash}
use smart_patents_storage_sy.State.{State}
use smart_patents_storage_sy.Storage.{Config}
use smart_patents_storage_sy.Users.Crypto.{Crypto, Draw}
use smart_patents_storage_sy.Users.Sessions.{
  rotated, revoked, live_of, unrotated_at, has_hash, presented, rotate_tx, refresh_session,
  logout_user, Session, issue_session,
}
use smart_patents_storage_sy.Users.Revocation.{HasUniqueTokens, has_live}
use smart_patents_storage_sy.Users.Rotation.{rotate_tx-Rotated, issued}
use smart_patents_storage_sy.Users.Reuse.{refresh_session-Used, rotate_tx_unique, rotate_tx-user}

-- A row that conflicts with none has another hash.
no_clash-hash :
    (hash : String) (rows : List RefreshToken) (new a : RefreshToken)
    → no_clash refresh_token_clash (rows ++ new ∷ []) ≡ true
    → find (has_hash hash) rows ≡ some a
    → has_hash hash new ≡ false
no_clash-hash hash [] new a free there = ground arith
no_clash-hash hash (r ∷ rs) new a free there = elim (Bool-cases (has_hash hash r)) [
  | inr other ↦ no_clash-hash hash rs new a (ground arith) (ground arith)
  | inl same ↦
      let apart = any-append (refresh_token_clash r) rs (new ∷ []) in
      let differ : str_eq r.token_hash new.token_hash ≡ false = ground arith in
      let text = (eq_iff r.token_hash hash).0 same in
      elim (Bool-cases (has_hash hash new)) [
        | inr other ↦ other
        | inl both ↦ absurd (
            let equal =
              (eq_iff r.token_hash new.token_hash).1
                (text ∙ sym ((eq_iff new.token_hash hash).0 both)) in
            ground arith)
      ]
]

find_in_changed :
    (draw : Draw) (hash : String) (stored : RefreshToken) (rows : List RefreshToken)
    → find (has_hash hash) rows ≡ some stored
    → find (has_hash hash) (map (change (unrotated_at stored.id) (rotated draw.now)) rows)
      ≡ some (change (unrotated_at stored.id) (rotated draw.now) stored)
find_in_changed draw hash stored rows there =
    find-map (has_hash hash) (change (unrotated_at stored.id) (rotated draw.now)) rows
      (λ x. ground arith)
    ∙ rw (there) refl

-- A revocation that passes a live row over leaves it live.
spared-live :
    (now user_id : ℕ) (p : RefreshToken → Bool) (rows : List RefreshToken) (new : RefreshToken)
    → p new ≡ false
    → live_of user_id new ≡ true
    → any (live_of user_id) (map (change p (revoked now)) (rows ++ new ∷ [])) ≡ true
spared-live now user_id p [] new h live = rw h (ground arith)
spared-live now user_id p (r ∷ rs) new h live =
    ground (arith, spared-live now user_id p rs new h live)

module _ (prisma : Prisma) (crypto : Crypto) (config : Config) (draw : Draw) where
  rotate_tx-token :
      (stored : RefreshToken) (user : User) (s : State) (session : Session)
      → (rotate_tx prisma crypto config draw stored user s).0 ≡ ok session
      → session.tokens.access_token
        ≡ crypto.sign_access_token
            (record { user_id = session.user.id; role = session.user.role })
            draw.now
  unfolding rotate_tx issue_session
  rotate_tx-token stored user s session h = ground arith

  pub refresh_session-token :
      (token : String) (s : State) (session : Session)
      → (refresh_session prisma crypto config draw token s).0 ≡ ok session
      → session.tokens.access_token
        ≡ crypto.sign_access_token
            (record { user_id = session.user.id; role = session.user.role })
            draw.now
  refresh_session-token token s session h =
      let used = refresh_session-Used prisma crypto config draw token s session h in
      rotate_tx-token used.stored used.user s session (rw (used.ran) at h)

  logout_with :
      (later : Draw) (user_id : ℕ) (token : String) (t : State)
      → HasUniqueTokens t
      → str_eq token "" ≡ false
      → logout_user prisma crypto config later user_id (some token) t ≡ (
        ok tt,
        record t {
          refresh_tokens = record t.refresh_tokens {
            rows =
                map
                  (change (presented prisma crypto config later token user_id) (revoked later.now))
                  t.refresh_tokens.rows;
          };
        },
      )
  unfolding logout_user
  logout_with later user_id token t u full =
      let p = presented prisma crypto config later token user_id in
      let written =
        prisma.update_many_lem refresh_token_clash p (revoked later.now) t.refresh_tokens in
      let free =
        no_clash-map refresh_token_clash (change p (revoked later.now)) t.refresh_tokens.rows
          (λ x y. ground arith) in
      rw (full) (ground arith)

  -- After a refresh, a logout with the token that it has replaced returns, and leaves the session that
  -- the refresh has opened live.
  pub logout_user-after_refresh :
      (later : Draw) (token : String) (s : State) (session : Session)
      → HasUniqueTokens s
      → str_eq token "" ≡ false
      → (refresh_session prisma crypto config draw token s).0 ≡ ok session
      → let t = (refresh_session prisma crypto config draw token s).1 in
        let out = logout_user prisma crypto config later session.user.id (some token) t in
        (out.0 ≡ ok tt) × (has_live session.user.id out.1 ≡ true)
  logout_user-after_refresh later token s session u full h =
      let used = refresh_session-Used prisma crypto config draw token s session h in
      let stored = used.stored in
      let user = used.user in
      let t = (rotate_tx prisma crypto config draw stored user s).1 in
      let h' : (rotate_tx prisma crypto config draw stored user s).0 ≡ ok session =
        rw (used.ran) at h in
      let r = rotate_tx-Rotated prisma crypto config draw stored user s u session h' in
      let u' = rotate_tx_unique prisma crypto config draw stored user s session u h' in
      let new = issued prisma crypto config draw user s.refresh_tokens.next in
      let same = rotate_tx-user prisma crypto config draw stored user s session h' in
      let free : no_clash refresh_token_clash (
            map (change (unrotated_at stored.id) (rotated draw.now)) s.refresh_tokens.rows
            ++ new ∷ [])
          ≡ true =
        rw (r.rows) at u' in
      let other = no_clash-hash (crypto.hash_refresh_token token) _ new _ free (
        find_in_changed draw (crypto.hash_refresh_token token) stored s.refresh_tokens.rows
          used.there) in
      rw (used.ran, logout_with later session.user.id token t u' full)
        (
          refl,
          rw (same, r.rows)
              (spared-live later.now user.id (presented prisma crypto config later token user.id)
                (map (change (unrotated_at stored.id) (rotated draw.now)) s.refresh_tokens.rows) new
                (ground (arith, other)) (ground arith)),
        )
