-- ===== src/Outbox/Claims.antt =====
-- src/services/outboxService.js: what `claimBatch` takes of the backlog, and what later claims may take.
use smart_patents_storage_sy.Prelude.{
  ℕ, zero, suc, ◌+◌, ◌≤◌, ◌<◌, ◌≡◌, refl, ◌∙◌, true, false, ◌&&◌, not, Option, none, some, List, [],
  ◌∷◌, ◌++◌, ◌==◌, leb, any, keep, take, length, change, arith, All, All-of_keep, All-of_keep-map,
  All-take, length-take-le, Bool, Bool-cases, ◌⊎◌, inl, inr,
}
use smart_patents_storage_sy.Prelude.Sort.{sort, insert, All-insert, All-sort, any-sort}
use smart_patents_storage_sy.State.{State, OutboxEvent}
use smart_patents_storage_sy.Outbox.Defs.{
  Engine, claimable, claim_is_free, next_batch, claim_batch, claim_at, has_id, claim_timeout_ms,
}

abbrev by_id : OutboxEvent → OutboxEvent → Bool
by_id a b = leb a.id b.id

abbrev IsAscending : List OutboxEvent → Type 0
IsAscending [] = Unit
IsAscending (e ∷ es) = All (λ x. e.id ≤ x.id) es × IsAscending es

abbrev at_id : ℕ → OutboxEvent → Bool
at_id id e = e.id == id

below_rest :
    (x e : OutboxEvent) (ys : List OutboxEvent)
    → x.id ≤ e.id
    → All (λ y. e.id ≤ y.id) ys
    → All (λ y. x.id ≤ y.id) ys
below_rest x e [] h k = tt
below_rest x e (y ∷ ys) h (k, ks) = (omega arith, below_rest x e ys h ks)

insert-IsAscending :
    (x : OutboxEvent) (ys : List OutboxEvent) → IsAscending ys → IsAscending (insert by_id x ys)
unfolding insert
insert-IsAscending x [] h = (tt, tt)
insert-IsAscending x (y ∷ ys) (below, h) = elim (Bool-cases (leb x.id y.id)) [
  | inl lower ↦ rw lower ((ground arith, below_rest x y ys (ground arith) below), (below, h))
  | inr higher ↦
      rw higher
        (All-insert by_id (λ z. y.id ≤ z.id) x ys (ground arith) below, insert-IsAscending x ys h)
]

sort-IsAscending : (xs : List OutboxEvent) → IsAscending (sort by_id xs)
unfolding sort
sort-IsAscending [] = tt
sort-IsAscending (x ∷ xs) = insert-IsAscending x (sort by_id xs) (sort-IsAscending xs)

below_member :
    (x : OutboxEvent) (id : ℕ) (xs : List OutboxEvent)
    → All (λ y. x.id ≤ y.id) xs
    → any (at_id id) xs ≡ true
    → x.id ≤ id
below_member x id [] h k = cc
below_member x id (y ∷ ys) (h, hs) k = ground (arith, below_member x id ys hs)

-- Of an ascending list, an initial part has the entry, or is full of lower ones.
take-first :
    (n id : ℕ) (xs : List OutboxEvent)
    → IsAscending xs
    → any (at_id id) xs ≡ true
    → (any (at_id id) (take n xs) ≡ true)
      ⊎ ((length (take n xs) ≡ n) × All (λ b. b.id ≤ id) (take n xs))
take-first zero id xs h k = inr (refl, tt)
take-first (suc n) id [] h k = cc
take-first (suc n) id (x ∷ xs) (below, h) k = elim (Bool-cases (x.id == id)) [
  | inl same ↦ inl (ground arith)
  | inr differs ↦
      let later : any (at_id id) xs ≡ true = ground arith in
      elim (take-first n id xs h later) [
        | inl taken ↦ inl (ground arith)
        | inr (full, lower) ↦ inr (omega arith, (below_member x id xs below later, lower))
      ]
]

any-keep_member :
    (p q : OutboxEvent → Bool) (before after : List OutboxEvent) (e : OutboxEvent)
    → p e ≡ true
    → q e ≡ true
    → any p (keep q (before ++ e ∷ after)) ≡ true
any-keep_member p q [] after e h k = ground arith
any-keep_member p q (x ∷ xs) after e h k = ground (arith, any-keep_member p q xs after e h k)

module _ (engine : Engine) (max_attempts : ℕ) where
  -- An event that a claim may take: not published, below the attempt limit, not claimed or claimed
  -- longer ago than the timeout, and not locked.
  pub record IsFree (now : ℕ) (e : OutboxEvent) : Type 0 where
    pub unpublished : e.published_at ≡ none
    pub tried : e.attempts < max_attempts
    pub unclaimed :
        (e.claimed_at ≡ none) ⊎ ((c : ℕ) × (e.claimed_at ≡ some c) × (c + claim_timeout_ms < now))
    pub unlocked : engine.locked e ≡ false

  free_claim :
      (now : ℕ) (claimed_at : Option ℕ)
      → claim_is_free now claimed_at ≡ true
      → (claimed_at ≡ none) ⊎ ((c : ℕ) × (claimed_at ≡ some c) × (c + claim_timeout_ms < now))
  free_claim now none h = inl refl
  free_claim now (some c) h = inr (c, refl, ground arith)

  abbrev takes : ℕ → OutboxEvent → Bool
  takes now e = claimable max_attempts now e && not (engine.locked e)

  takes-IsFree : (now : ℕ) (e : OutboxEvent) → takes now e ≡ true → IsFree now e
  takes-IsFree now e h = record {
    unpublished = ground arith;
    tried = ground arith;
    unclaimed = free_claim now e.claimed_at (ground arith);
    unlocked = ground arith;
  }

  IsFree-takes : (now : ℕ) (e : OutboxEvent) → IsFree now e → takes now e ≡ true
  IsFree-takes now e free =
      let sent = free.unpublished in
      let tried = free.tried in
      let open_row = free.unlocked in
      elim free.unclaimed [ inl never ↦ ground arith | inr (c, at, expired) ↦ ground arith ]

  module _ (batch_size : ℕ) where
    -- A batch takes the oldest events that are free. It has at most `batch_size` events, each of them
    -- free; and an event that is free is in the batch (by its id), unless the batch is full and all its
    -- ids are at most that of the event.
    pub next_batch-oldest :
        (now : ℕ) (before after : List OutboxEvent) (e : OutboxEvent)
        → IsFree now e
        → let batch = next_batch engine max_attempts now batch_size (before ++ e ∷ after) in
          (length batch ≤ batch_size)
          × All (IsFree now) batch
          × ((has_id batch e.id ≡ true)
              ⊎ ((length batch ≡ batch_size) × All (λ b. b.id ≤ e.id) batch))
    unfolding next_batch
    next_batch-oldest now before after e free =
        let free_rows = keep (takes now) (before ++ e ∷ after) in
        (
          length-take-le batch_size _,
          All-take _ batch_size _ (
              All-sort by_id _ _
                (All-of_keep _ (takes now) (before ++ e ∷ after) (takes-IsFree now))),
          take-first batch_size e.id (sort by_id free_rows) (sort-IsAscending free_rows) (
              any-sort by_id (at_id e.id) free_rows
              ∙ any-keep_member (at_id e.id) (takes now) before after e (ground arith)
                  (IsFree-takes now e free)),
        )

    -- Until the claim timeout has passed, a second claim that directly follows takes none of the events
    -- of the first.
    pub claims-disjoint :
        (other : Engine) (now db_now later : ℕ) (s : State)
        → later ≤ db_now + claim_timeout_ms
        → All
            (λ e. has_id (next_batch engine max_attempts now batch_size s.outbox.rows) e.id ≡ false)
            (next_batch other max_attempts later batch_size
              (claim_batch engine max_attempts now db_now batch_size s).1.outbox.rows)
    unfolding claim_batch
    claims-disjoint other now db_now later s h =
        let batch = next_batch engine max_attempts now batch_size s.outbox.rows in
        All-take _ batch_size _ (
          All-sort (λ a b. leb a.id b.id) _ _
            (All-of_keep-map _ (λ e. claimable max_attempts later e && not (other.locked e))
              (change (λ e. has_id batch e.id) (claim_at db_now)) s.outbox.rows
              λ e free. ground arith))
