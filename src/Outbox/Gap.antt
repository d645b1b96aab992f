-- ===== src/Outbox/Gap.antt =====
-- A failed event is released at once, and the events claimed with it stay claimed: what the next pass
-- takes.
use smart_patents_storage_sy.Prelude.{
  ℕ, ◌+◌, ◌≤◌, ◌<◌, ◌≡◌, String, false, none, List, [], ◌∷◌, arith, ◌==◌,
}
use smart_patents_storage_sy.Prelude.Sort.{sort}
use smart_patents_storage_sy.Errors.{Error}
use smart_patents_storage_sy.Exec.{err}
use smart_patents_storage_sy.Prisma.{Prisma}
use smart_patents_storage_sy.State.{OutboxEvent, outbox_clash}
use smart_patents_storage_sy.Storage.{Config}
use smart_patents_storage_sy.Outbox.Defs.{
  Engine, next_batch, claim_batch, claim_at, claim_timeout_ms, mark_failed, failed_with,
}
use smart_patents_storage_sy.Outbox.Relay.{
  Broker, World, Pass, message_of, max_payload_bytes, publish_batch, publish_all, publish_one,
  try_publish, error_message,
}

-- An event that no relay has touched.
pub record IsFresh (engine : Engine) (e : OutboxEvent) : Type 0 where
  pub unpublished : e.published_at ≡ none
  pub unclaimed : e.claimed_at ≡ none
  pub untried : e.attempts ≡ 0
  pub unlocked : engine.locked e ≡ false

module _ (engine : Engine) (e₁ e₂ e₃ : OutboxEvent) (f₁ : IsFresh engine e₁)
    (f₂ : IsFresh engine e₂) (f₃ : IsFresh engine e₃) (below : e₁.id < e₂.id)
    (above : e₂.id < e₃.id) (max_attempts : ℕ) (some_attempts : 2 ≤ max_attempts) where
  -- the batch of size 2
  first_batch : (now : ℕ) → next_batch engine max_attempts now 2 (e₁ ∷ e₂ ∷ e₃ ∷ []) ≡ e₁ ∷ e₂ ∷ []
  unfolding next_batch sort
  first_batch now = ground (
    arith, f₁.unpublished, f₁.unclaimed, f₁.untried, f₁.unlocked, f₂.unpublished, f₂.unclaimed,
    f₂.untried, f₂.unlocked, f₃.unpublished, f₃.unclaimed, f₃.untried, f₃.unlocked,
  )

  -- the rows after the claim and the failure of the first event
  abbrev pub left : ℕ → String → List OutboxEvent
  left db_now error = failed_with error (claim_at db_now e₁) ∷ claim_at db_now e₂ ∷ e₃ ∷ []

  pub next_after :
      (other : Engine) (db_now later : ℕ) (error : String)
      → (other.locked (failed_with error (claim_at db_now e₁)) ≡ false)
      → other.locked e₃ ≡ false
      → later ≤ db_now + claim_timeout_ms
      → next_batch other max_attempts later 2 (left db_now error)
        ≡ failed_with error (claim_at db_now e₁) ∷ e₃ ∷ []
  unfolding next_batch sort
  next_after other db_now later error u₁ u₃ h =
      ground (arith, f₁.unpublished, f₁.untried, f₃.unpublished, f₃.unclaimed, f₃.untried)

  module _ (prisma : Prisma) (broker : Broker) (bytes : OutboxEvent → ℕ) (config : Config) where
    pub pass_rows :
        (pass : Pass) (w : World) (x : Error)
        → config.outbox_batch_size ≡ 2
        → config.outbox_max_attempts ≡ max_attempts
        → engine.returning (claim_at pass.db_now e₁ ∷ claim_at pass.db_now e₂ ∷ [])
          ≡ claim_at pass.db_now e₁ ∷ claim_at pass.db_now e₂ ∷ []
        → w.db.outbox.rows ≡ e₁ ∷ e₂ ∷ e₃ ∷ []
        → bytes (claim_at pass.db_now e₁) ≤ max_payload_bytes
        → (broker.send (message_of e₁) w.log).0 ≡ err x
        → (publish_batch prisma broker bytes engine config pass w).1.db.outbox.rows
          ≡ left pass.db_now (error_message x)
    unfolding claim_batch publish_all publish_one try_publish mark_failed publish_batch
    pass_rows pass w x size most listed rows fits fails =
        let t = pass.db_now in
        let table = record w.db.outbox { rows = claim_at t e₁ ∷ claim_at t e₂ ∷ e₃ ∷ [] } in
        let written =
          prisma.update_lem outbox_clash (λ e. e.id == e₁.id) (failed_with (error_message x))
            table in
        let batch = first_batch pass.now in rw (size, most, rows) (ground arith)

    pub pass-log :
        (pass : Pass) (w : World) (x : Error)
        → config.outbox_batch_size ≡ 2
        → config.outbox_max_attempts ≡ max_attempts
        → engine.returning (claim_at pass.db_now e₁ ∷ claim_at pass.db_now e₂ ∷ [])
          ≡ claim_at pass.db_now e₁ ∷ claim_at pass.db_now e₂ ∷ []
        → w.db.outbox.rows ≡ e₁ ∷ e₂ ∷ e₃ ∷ []
        → bytes (claim_at pass.db_now e₁) ≤ max_payload_bytes
        → (broker.send (message_of e₁) w.log).0 ≡ err x
        → (publish_batch prisma broker bytes engine config pass w).1.log
          ≡ (broker.send (message_of e₁) w.log).1
    unfolding claim_batch publish_all publish_one try_publish mark_failed publish_batch
    pass-log pass w x size most listed rows fits fails =
        let t = pass.db_now in
        let table = record w.db.outbox { rows = claim_at t e₁ ∷ claim_at t e₂ ∷ e₃ ∷ [] } in
        let written =
          prisma.update_lem outbox_clash (λ e. e.id == e₁.id) (failed_with (error_message x))
            table in
        let batch = first_batch pass.now in rw (size, most, rows) (ground arith)
