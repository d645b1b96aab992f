-- ===== src/Outbox/Claimed.antt =====
-- The rows of the outbox after a claim.
use smart_patents_storage_sy.Prelude.{
  ℕ, ◌≡◌, refl, ◌∙◌, true, false, List, [], ◌∷◌, map, length, change, find-map, arith, Bool-cases,
  inl, inr, All,
}
use smart_patents_storage_sy.Prisma.Unique.{no_clash-map}
use smart_patents_storage_sy.State.{OutboxEvent, outbox_clash}
use smart_patents_storage_sy.Outbox.Defs.{has_id, claim_at}
use smart_patents_storage_sy.Outbox.Backlog.{backlog, HasUniqueIds, IsPending, IsReady, at_id}
use smart_patents_storage_sy.Outbox.Drain.{marked}

module _ (db_now : ℕ) where
  abbrev pub claimed : List OutboxEvent → List OutboxEvent → List OutboxEvent
  claimed batch rows = map (change (λ e. has_id batch e.id) (claim_at db_now)) rows

  pub claimed_unique :
      (batch rows : List OutboxEvent) → HasUniqueIds rows → HasUniqueIds (claimed batch rows)
  claimed_unique batch rows u =
      no_clash-map outbox_clash (change (λ e. has_id batch e.id) (claim_at db_now)) rows
        (λ x y. ground arith)
      ∙ u

  pub claimed-backlog :
      (batch rows : List OutboxEvent) → backlog (claimed batch rows) ≡ backlog rows
  claimed-backlog batch [] = refl
  claimed-backlog batch (r ∷ rs) = ground (arith, claimed-backlog batch rs)

  pub claimed-IsPending :
      (batch rows : List OutboxEvent) (e : OutboxEvent)
      → IsPending rows e
      → IsPending (claimed batch rows) (claim_at db_now e)
  claimed-IsPending batch rows e (r, there, unsent) =
      let f = change (λ x. has_id batch x.id) (claim_at db_now) in
      let moved = find-map (at_id e.id) f rows (λ x. ground arith) in
      (f r, moved ∙ rw (there) refl, ground arith)

  pub claimed_each :
      (batch rows es : List OutboxEvent)
      → All (IsPending rows) es
      → All (IsPending (claimed batch rows)) (map (claim_at db_now) es)
  claimed_each batch rows [] h = tt
  claimed_each batch rows (e ∷ es) (k, ks) =
      (claimed-IsPending batch rows e k, claimed_each batch rows es ks)

  pub has_id-claimed :
      (es : List OutboxEvent) (id : ℕ) → has_id (map (claim_at db_now) es) id ≡ has_id es id
  has_id-claimed [] id = refl
  has_id-claimed (e ∷ es) id = ground (arith, has_id-claimed es id)

  pub length-claimed : (es : List OutboxEvent) → length (map (claim_at db_now) es) ≡ length es
  length-claimed [] = refl
  length-claimed (e ∷ es) = omega (arith, length-claimed es)

  -- The rows of the batch are published, and the others are as they were.
  pub marked-IsReady :
      (now max_attempts : ℕ) (batch listed : List OutboxEvent)
      → ((id : ℕ) → has_id listed id ≡ has_id batch id)
      → (rows : List OutboxEvent) → IsReady max_attempts rows
      → IsReady max_attempts (marked now listed (claimed batch rows))
  marked-IsReady now max_attempts batch listed same [] h = refl
  marked-IsReady now max_attempts batch listed same (r ∷ rs) h =
      let rest = marked-IsReady now max_attempts batch listed same rs (ground arith) in
      elim (Bool-cases (has_id batch r.id)) [
        | inl chosen ↦
            let too : has_id listed r.id ≡ true = same r.id ∙ chosen in rw (chosen, too) rest
        | inr left ↦
            let too : has_id listed r.id ≡ false = same r.id ∙ left in rw (left, too) (ground arith)
      ]
