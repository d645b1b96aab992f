-- ===== src/Frontend/Consistent.antt =====
-- Pages whose user, status and tokens agree, and the operations that keep them so.
use smart_patents_storage_sy.Prelude.{
  ◌≡◌, ◌≢◌, refl, Bool, true, false, ◌||◌, ◌&&◌, not, Option, is_some, arith, ◌⊎◌, inl, inr,
  Bool-cases,
}
use smart_patents_storage_sy.Controllers.Reply.{Notice}
use smart_patents_storage_sy.Dto.Reviews.{ProfileDto}
use smart_patents_storage_sy.Frontend.Client.{
  Page, Outcome, done, failed, AuthStatus, loading, authenticated, guest, given, TokenStore,
  set_tokens, clear_tokens, with_net, AuthTokens,
}
use smart_patents_storage_sy.Frontend.Provider.{
  after_logout, after_profile, after_hydrate, as_user, is_abort,
}
use smart_patents_storage_sy.Frontend.Moved.{
  Moved, kept, renewed, dropped, set_tokens-eq, full, is_done,
}

abbrev pub has_tokens : TokenStore → Bool
has_tokens store = is_some (given store.access) || is_some (given store.refresh)

-- A signed-in page has a user and tokens, any other has no user, and a guest has no tokens.
abbrev pub consistent : AuthStatus → Option ProfileDto → TokenStore → Bool
consistent loading user store = not (is_some user)
consistent guest user store = not (is_some user) && not (has_tokens store)
consistent authenticated user store = is_some user && has_tokens store

abbrev pub is_consistent : {N : Type 0} → Page N → Bool
is_consistent p = consistent p.status p.user p.store

consistent_with :
    (status : AuthStatus) (user : Option ProfileDto) (old new : TokenStore)
    → status ≢ guest
    → has_tokens new ≡ true
    → consistent status user old ≡ true
    → consistent status user new ≡ true
consistent_with loading user old new h k c = c
consistent_with guest user old new h k c = absurd (h refl)
consistent_with authenticated user old new h k c = ground arith

pub not_guest :
    (status : AuthStatus) → (status ≡ loading) ⊎ (status ≡ authenticated) → status ≢ guest
not_guest status (inl e) g = ground arith
not_guest status (inr e) g = ground arith

module _ {N : Type 0} where
  pub set_tokens-signs_in :
      (tokens : AuthTokens) (p : Page N) (profile : ProfileDto)
      → full tokens ≡ true
      → is_consistent (as_user profile (set_tokens tokens p)) ≡ true
  set_tokens-signs_in tokens p profile whole = rw (set_tokens-eq tokens p whole) (ground arith)

  clear_tokens-consistent : (p : Page N) → is_consistent (clear_tokens p) ≡ true
  unfolding clear_tokens
  clear_tokens-consistent p = refl

  pub Moved-consistent :
      (b : Bool) (p q : Page N)
      → p.status ≢ guest
      → is_consistent p ≡ true
      → Moved b p q
      → is_consistent q ≡ true
  Moved-consistent b p q g h (kept n e) = rw e h
  Moved-consistent b p q g h (renewed tokens n whole e) =
      rw (e, set_tokens-eq tokens (with_net p n) whole)
        (consistent_with p.status p.user p.store _ g (ground arith) h)
  Moved-consistent b p q g h (dropped n fails e) = rw e (clear_tokens-consistent _)

  -- A request that succeeds leaves tokens where there were some.
  Moved-has_tokens :
      (p q : Page N) → has_tokens p.store ≡ true → Moved true p q → has_tokens q.store ≡ true
  Moved-has_tokens p q h (kept n e) = rw e h
  Moved-has_tokens p q h (renewed tokens n whole e) =
      rw (e, set_tokens-eq tokens (with_net p n) whole) (ground arith)
  Moved-has_tokens p q h (dropped n fails e) = absurd (ground arith)

  Moved-status : (p q : Page N) → Moved true p q → q.status ≡ p.status
  Moved-status p q (kept n e) = rw e refl
  Moved-status p q (renewed tokens n whole e) =
      rw (e, set_tokens-eq tokens (with_net p n) whole) refl
  Moved-status p q (dropped n fails e) = absurd (ground arith)

  pub tokens_of_user :
      (p : Page N) → p.status ≡ authenticated → is_consistent p ≡ true → has_tokens p.store ≡ true
  tokens_of_user p a h =
      let here : consistent authenticated p.user p.store ≡ true = rw a at h in ground arith

  pub after_logout-consistent :
      (r : Outcome Notice × Page N) → is_consistent (after_logout r).1 ≡ true
  unfolding clear_tokens
  after_logout-consistent (done n, q) = refl
  after_logout-consistent (failed e, q) = refl

  pub after_profile-consistent :
      (p : Page N) (r : Outcome ProfileDto) (q : Page N)
      → p.status ≡ authenticated
      → is_consistent p ≡ true
      → Moved (is_done r) p q
      → is_consistent (after_profile (r, q)).1 ≡ true
  after_profile-consistent p (failed e) q a h m =
      Moved-consistent false p q (not_guest p.status (inr a)) h m
  after_profile-consistent p (done profile) q a h m =
      let same = Moved-status p q m in
      let tokens = Moved-has_tokens p q (tokens_of_user p a h) m in rw (same, a) tokens

  pub after_hydrate-consistent :
      (cancelled : Bool) (p : Page N) (r : Outcome ProfileDto) (q : Page N)
      → p.status ≡ loading
      → has_tokens p.store ≡ true
      → is_consistent p ≡ true
      → Moved (is_done r) p q
      → is_consistent (after_hydrate cancelled (r, q)) ≡ true
  unfolding clear_tokens
  after_hydrate-consistent cancelled p (done profile) q a t h m = rw (Moved-has_tokens p q t m) refl
  after_hydrate-consistent cancelled p (failed e) q a t h m =
      elim (Bool-cases (is_abort e || cancelled)) [
        | inl ignored ↦ rw ignored (Moved-consistent false p q (not_guest p.status (inl a)) h m)
        | inr ended ↦ rw ended refl
      ]
