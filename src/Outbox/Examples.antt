-- ===== src/Outbox/Examples.antt =====
-- Tests of the relay on a backlog of three events.
use smart_patents_storage_sy.Prelude.{
  ℕ, ◌≤◌, ◌≡◌, refl, true, false, ◌∷◌, [], ◌++◌, length, All, arith, ◌⊎◌, inl,
}
use smart_patents_storage_sy.Prisma.Memory.{memory}
use smart_patents_storage_sy.Outbox.Defs.{next_batch, claim_batch, has_id}
use smart_patents_storage_sy.Outbox.Relay.{message_of, publish_batch, runs}
use smart_patents_storage_sy.Outbox.Claims.{IsFree, next_batch-oldest, claims-disjoint}
use smart_patents_storage_sy.Outbox.Gap.{IsFresh}
use smart_patents_storage_sy.Outbox.Overtaken.{failed_pass-overtakes}
use smart_patents_storage_sy.Outbox.Backlog
use smart_patents_storage_sy.Outbox.Delivery.{delivered, runs-delivered}
use smart_patents_storage_sy.Outbox.Passes.{runs-drains, IsQuiet}
use smart_patents_storage_sy.Samples.{
  config, engine, event_at, backlog, world, pass, working_broker, failing_broker, bytes, down,
}

next_batch-oldest_example :
    let batch = next_batch engine 10 1000 2 ((event_at 1 ∷ event_at 2 ∷ []) ++ event_at 3 ∷ []) in
    (length batch ≤ 2)
    × All (IsFree engine 10 1000) batch
    × ((has_id batch 3 ≡ true) ⊎ ((length batch ≡ 2) × All (λ b. b.id ≤ 3) batch))
next_batch-oldest_example =
    next_batch-oldest engine 10 2 1000 (event_at 1 ∷ event_at 2 ∷ []) [] (event_at 3)
      (record { unpublished = refl; tried = omega arith; unclaimed = inl refl; unlocked = refl })

claims-disjoint_example :
    All
      (λ e. has_id (next_batch engine 10 1000 2 backlog.outbox.rows) e.id ≡ false)
      (next_batch engine 10 2000 2 (claim_batch engine 10 1000 1000 2 backlog).1.outbox.rows)
claims-disjoint_example = claims-disjoint engine 10 2 engine 1000 1000 2000 backlog (omega arith)

fresh : (id : ℕ) → IsFresh engine (event_at id)
fresh id = record { unpublished = refl; unclaimed = refl; untried = refl; unlocked = refl }

failed_pass-overtakes_example :
    let v = (publish_batch memory failing_broker bytes engine config pass world).1 in
    ((v.log ≡ world.log) ⊎ (v.log ≡ world.log ++ message_of (event_at 1) ∷ []))
    × ((publish_batch memory working_broker bytes engine config pass v).1.log
        ≡ v.log ++ message_of (event_at 1) ∷ message_of (event_at 3) ∷ [])
failed_pass-overtakes_example =
    failed_pass-overtakes engine (event_at 1) (event_at 2) (event_at 3) (fresh 1) (fresh 2)
      (fresh 3) (omega arith) (omega arith) 10 (omega arith) memory bytes config (λ e. omega arith)
      refl refl working_broker (λ m log. refl) failing_broker pass pass world down engine refl refl
      refl refl refl (omega arith) refl

quiet : IsQuiet engine
quiet = record { unlocked = λ e. refl }

runs-drains_example :
    Backlog.backlog
      (runs memory working_broker bytes config 1000
        ((engine, pass) ∷ (engine, pass) ∷ [])
        world).db.outbox.rows
    ≡ 0
runs-drains_example =
    runs-drains memory working_broker bytes (λ m log. refl) (λ e. omega arith) config 1000
      ((engine, pass) ∷ (engine, pass) ∷ []) world (quiet, (quiet, tt))
      (record { unique = refl; ready = refl }) (omega arith)

runs-delivered_example :
    delivered
      (runs memory failing_broker bytes config 1000 ((engine, pass) ∷ (engine, pass) ∷ []) world)
    ≡ true
runs-delivered_example =
    runs-delivered memory failing_broker bytes config 1000 ((engine, pass) ∷ (engine, pass) ∷ [])
      world refl
