-- ===== src/Outbox/Overtaken.antt =====
-- src/workers/outboxRelay.js: the pass after a failure publishes a later event first.
use smart_patents_storage_sy.Prelude.{
  ℕ, ◌+◌, ◌≤◌, ◌<◌, ◌≡◌, ◌∙◌, String, false, List, [], ◌∷◌, ◌++◌, arith, map, change, ◌⊎◌, inl, inr,
}
use smart_patents_storage_sy.Errors.{Error}
use smart_patents_storage_sy.Exec.{ok, err}
use smart_patents_storage_sy.Prisma.{Prisma}
use smart_patents_storage_sy.State.{OutboxEvent}
use smart_patents_storage_sy.Storage.{Config}
use smart_patents_storage_sy.Outbox.Defs.{
  Engine, claim_batch, claim_at, claim_timeout_ms, failed_with, has_id,
}
use smart_patents_storage_sy.Outbox.Relay.{
  Broker, World, Pass, Message, message_of, max_payload_bytes, publish_batch, error_message,
}
use smart_patents_storage_sy.Outbox.Drain.{batch-Published, Published, with_rows}
use smart_patents_storage_sy.Outbox.Gap.{IsFresh, left, next_after, pass_rows, pass-log}

module _ (engine : Engine) (e₁ e₂ e₃ : OutboxEvent) (f₁ : IsFresh engine e₁)
    (f₂ : IsFresh engine e₂) (f₃ : IsFresh engine e₃) (below : e₁.id < e₂.id)
    (above : e₂.id < e₃.id) (max_attempts : ℕ) (some_attempts : 2 ≤ max_attempts) (prisma : Prisma)
    (bytes : OutboxEvent → ℕ) (config : Config)
    (fits : (e : OutboxEvent) → bytes e ≤ max_payload_bytes) (size : config.outbox_batch_size ≡ 2)
    (most : config.outbox_max_attempts ≡ max_attempts) where
  abbrev remaining : ℕ → String → List OutboxEvent
  remaining db_now error =
      left engine e₁ e₂ e₃ f₁ f₂ f₃ below above max_attempts some_attempts db_now error

  -- the claims of the second pass
  abbrev pub retaken : ℕ → ℕ → String → List OutboxEvent
  retaken db_now later error =
      claim_at later (failed_with error (claim_at db_now e₁)) ∷ claim_at later e₃ ∷ []

  abbrev rows_then : ℕ → ℕ → String → List OutboxEvent
  rows_then db_now later error =
      claim_at later (failed_with error (claim_at db_now e₁))
      ∷ claim_at db_now e₂
      ∷ claim_at later e₃
      ∷ []

  claimed_then :
      (db_now later : ℕ) (error : String)
      → map
          (change
            (λ e. has_id (failed_with error (claim_at db_now e₁) ∷ e₃ ∷ []) e.id)
            (claim_at later))
          (remaining db_now error)
        ≡ rows_then db_now later error
  claimed_then db_now later error = ground arith

  module _ (recovered : Broker)
      (takes : (m : Message) (log : List Message) → (recovered.send m log).0 ≡ ok tt) where
    retaken-Published :
        (db_now later now : ℕ) (error : String) (v : World)
        → Published prisma recovered bytes takes fits now
            (retaken db_now later error)
            0
            (with_rows v (rows_then db_now later error))
    retaken-Published db_now later now error v =
        batch-Published prisma recovered bytes takes fits now (retaken db_now later error) 0
          (with_rows v (rows_then db_now later error)) (ground arith) (ground arith)
          (
            (claim_at later (failed_with error (claim_at db_now e₁)), ground arith, f₁.unpublished),
            ((claim_at later e₃, ground arith, f₃.unpublished), tt),
          )

    second_pass-log :
        (other : Engine) (db_now : ℕ) (error : String) (next : Pass) (v : World)
        → v.db.outbox.rows ≡ remaining db_now error
        → other.locked (failed_with error (claim_at db_now e₁)) ≡ false
        → other.locked e₃ ≡ false
        → next.now ≤ db_now + claim_timeout_ms
        → other.returning (retaken db_now next.db_now error) ≡ retaken db_now next.db_now error
        → (publish_batch prisma recovered bytes other config next v).1.log
          ≡ v.log ++ message_of e₁ ∷ message_of e₃ ∷ []
    unfolding publish_batch claim_batch
    second_pass-log other db_now error next v rows u₁ u₃ soon listed =
        let taken =
          next_after engine e₁ e₂ e₃ f₁ f₂ f₃ below above max_attempts some_attempts other db_now
            next.now error u₁ u₃ soon in
        let sent = retaken-Published db_now next.db_now next.now error v in
        let claims = claimed_then db_now next.db_now error in
        rw (size, most, rows, taken, claims, listed, sent.counted) (sent.log)

    -- Three untouched events in the outbox with ascending ids, a batch size of 2, at least two attempts,
    -- and no event over the limit. The first send of a pass fails; the next pass begins within the claim
    -- timeout, no other transaction holds the rows that it takes, and the broker takes every message
    -- again. Then the next pass appends the messages of the first event and of the third to the topic
    -- and not that of the second; before that pass, the topic has grown by the first message at most.
    -- In both passes the database is taken to list the claimed rows in the order of their ids.
    pub failed_pass-overtakes :
        (broker : Broker) (pass next : Pass) (w : World) (x : Error) (other : Engine)
        → w.db.outbox.rows ≡ e₁ ∷ e₂ ∷ e₃ ∷ []
        → (broker.send (message_of e₁) w.log).0 ≡ err x
        → engine.returning (claim_at pass.db_now e₁ ∷ claim_at pass.db_now e₂ ∷ [])
          ≡ claim_at pass.db_now e₁ ∷ claim_at pass.db_now e₂ ∷ []
        → other.locked (failed_with (error_message x) (claim_at pass.db_now e₁)) ≡ false
        → other.locked e₃ ≡ false
        → next.now ≤ pass.db_now + claim_timeout_ms
        → other.returning (retaken pass.db_now next.db_now (error_message x))
          ≡ retaken pass.db_now next.db_now (error_message x)
        → let v = (publish_batch prisma broker bytes engine config pass w).1 in
          ((v.log ≡ w.log) ⊎ (v.log ≡ w.log ++ message_of e₁ ∷ []))
          × ((publish_batch prisma recovered bytes other config next v).1.log
              ≡ v.log ++ message_of e₁ ∷ message_of e₃ ∷ [])
    failed_pass-overtakes broker pass next w x other rows fails listed u₁ u₃ soon listed_too =
        let v = (publish_batch prisma broker bytes engine config pass w).1 in
        let left_rows =
          pass_rows engine e₁ e₂ e₃ f₁ f₂ f₃ below above max_attempts some_attempts prisma broker
            bytes config pass w x size most listed rows (fits (claim_at pass.db_now e₁)) fails in
        let grown =
          pass-log engine e₁ e₂ e₃ f₁ f₂ f₃ below above max_attempts some_attempts prisma broker
            bytes config pass w x size most listed rows (fits (claim_at pass.db_now e₁)) fails in
        (
          elim (broker.send_err (message_of e₁) w.log x fails) [
            | inl same ↦ inl (grown ∙ same)
            | inr more ↦ inr (grown ∙ more)
          ],
          second_pass-log other pass.db_now (error_message x) next v left_rows u₁ u₃ soon
              listed_too,
        )
