-- ===== src/Outbox/Defs.antt =====
-- src/services/outboxService.js: the rows of the outbox and the operations on them. The error that
-- `markFailed` records is kept whole.
use smart_patents_storage_sy.Prelude.{
  ℕ, ◌+◌, ◌*◌, String, Bool, true, ◌&&◌, not, Option, none, some, List, map, ◌==◌, ltb, leb, any,
  take, keep, length, change, is_some,
}
use mathlib.Core.List.{Permᴰ}
use smart_patents_storage_sy.Prelude.Sort.{sort}
use smart_patents_storage_sy.Exec.{Exec, ok, err}
use smart_patents_storage_sy.Prisma.{Prisma}
use smart_patents_storage_sy.Events.{PatentEvent}
use smart_patents_storage_sy.State.{State, OutboxEvent, outbox_clash}

abbrev pub claim_timeout_ms : ℕ
claim_timeout_ms = 5 * 60 * 1000

abbrev pub new_event : ℕ → String → ℕ → String → PatentEvent → ℕ → OutboxEvent
new_event now aggregate_type aggregate_id event_type payload id = record {
  id = id;
  aggregate_type = aggregate_type;
  aggregate_id = aggregate_id;
  event_type = event_type;
  payload = payload;
  created_at = now;
  published_at = none;
  claimed_at = none;
  attempts = 0;
  last_error = none;
}

-- What `claimBatch` selects: not published, below the attempt limit, and not claimed within the
-- timeout. `claimed_at < now - timeout` is written as a sum.
abbrev pub claim_is_free : ℕ → Option ℕ → Bool
claim_is_free now none = true
claim_is_free now (some claimed) = ltb (claimed + claim_timeout_ms) now

abbrev pub claimable : ℕ → ℕ → OutboxEvent → Bool
claimable max_attempts now e =
    not (is_some e.published_at) && ltb e.attempts max_attempts && claim_is_free now e.claimed_at

abbrev pub has_id : List OutboxEvent → ℕ → Bool
has_id batch id = any (λ e. e.id == id) batch

abbrev pub claim_at : ℕ → OutboxEvent → OutboxEvent
claim_at db_now e = record e { claimed_at = some db_now }

abbrev pub published_at_time : ℕ → OutboxEvent → OutboxEvent
published_at_time now e = record e { published_at = some now; last_error = none; claimed_at = none }

abbrev pub failed_with : String → OutboxEvent → OutboxEvent
failed_with error e = record e {
  attempts = e.attempts + 1;
  last_error = some error;
  claimed_at = none;
}

pub record Stats : Type 0 where
  pub pending : ℕ
  pub retrying : ℕ
  pub dead_lettered : ℕ

-- What the database decides in `claimBatch`: which rows other transactions hold locked (`SKIP
-- LOCKED`), and the order in which `RETURNING` lists the updated rows: each of them once, and no
-- order is promised.
pub record Engine : Type 0 where
  pub locked : OutboxEvent → Bool
  pub returning : List OutboxEvent → List OutboxEvent
  pub returning_lem : (es : List OutboxEvent) → Permᴰ (returning es) es

-- The rows of the subquery of `claimBatch`: `ORDER BY id LIMIT batch_size`.
unfoldable pub next_batch : Engine → ℕ → ℕ → ℕ → List OutboxEvent → List OutboxEvent
next_batch engine max_attempts now batch_size rows = take batch_size (
    sort (λ a b. leb a.id b.id)
      (keep (λ e. claimable max_attempts now e && not (engine.locked e)) rows))

-- `now` is the clock of the process, `db_now` that of the database.
unfoldable pub claim_batch : Engine → ℕ → ℕ → ℕ → ℕ → Exec State (List OutboxEvent)
unfolding next_batch
claim_batch engine max_attempts now db_now batch_size s =
    let batch = next_batch engine max_attempts now batch_size s.outbox.rows in
    (
      ok (engine.returning (map (claim_at db_now) batch)),
      record s {
        outbox = record s.outbox {
          rows = map (change (λ e. has_id batch e.id) (claim_at db_now)) s.outbox.rows;
        };
      },
    )

unfoldable pub stats : ℕ → State → Stats
stats max_attempts s =
    let backlog = keep (λ e. not (is_some e.published_at)) s.outbox.rows in
    record {
      pending = length backlog;
      retrying = length (keep (λ e. ltb 0 e.attempts) backlog);
      dead_lettered = length (keep (λ e. leb max_attempts e.attempts) backlog);
    }

module _ (prisma : Prisma) where
  abbrev pub enqueue : ℕ → String → ℕ → String → PatentEvent → Exec State OutboxEvent
  enqueue now aggregate_type aggregate_id event_type payload s =
      elim (prisma.create outbox_clash
        (new_event now aggregate_type aggregate_id event_type payload) s.outbox) [
          | ok (e, t) ↦ (ok e, record s { outbox = t })
          | err e ↦ (err e, s)
        ]

  abbrev pub update_event : ℕ → (OutboxEvent → OutboxEvent) → Exec State OutboxEvent
  update_event id f s = elim (prisma.update outbox_clash (λ e. e.id == id) f s.outbox) [
    | ok (e, t) ↦ (ok e, record s { outbox = t })
    | err e ↦ (err e, s)
  ]

  unfoldable pub mark_published : ℕ → ℕ → Exec State OutboxEvent
  mark_published now id = update_event id (published_at_time now)

  unfoldable pub mark_failed : ℕ → String → Exec State OutboxEvent
  mark_failed id error = update_event id (failed_with error)
