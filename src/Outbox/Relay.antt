-- ===== src/Outbox/Relay.antt =====
-- src/workers/outboxRelay.js: moving committed outbox rows onto Kafka. The broker is an interface;
-- the number of bytes of a serialised event is an argument.
use smart_patents_storage_sy.Prelude.{
  length, ℕ, ◌+◌, ◌*◌, String, Bool, true, false, List, [], ◌∷◌, ◌++◌, ltb, if◌then◌else◌, ◌≡◌, ◌⊎◌,
  ◌==◌,
}
use smart_patents_storage_sy.Prelude.Decimal.{◌&◌, decimal}
use smart_patents_storage_sy.Errors.{Error, app, known, other}
use smart_patents_storage_sy.Exec.{Exec, Result, ok, err, pure, throw, ◌>>=◌, ◌>>◌}
use smart_patents_storage_sy.Prisma.{Prisma}
use smart_patents_storage_sy.Events.{PatentEvent}
use smart_patents_storage_sy.State.{State, OutboxEvent}
use smart_patents_storage_sy.Storage.{Config}
use smart_patents_storage_sy.Outbox.Defs.{Engine, claim_batch, mark_published, mark_failed}

abbrev pub max_payload_bytes : ℕ
max_payload_bytes = 900 * 1024

-- The message for an event: the payload with the row id as `sequence`, keyed by the aggregate id.
pub record Message : Type 0 where
  pub key : ℕ
  pub payload : PatentEvent
  pub sequence : ℕ
  pub event_type : String
  pub aggregate_type : String

abbrev pub message_of : OutboxEvent → Message
message_of e = record {
  key = e.aggregate_id;
  payload = e.payload;
  sequence = e.id;
  event_type = e.event_type;
  aggregate_type = e.aggregate_type;
}

-- The producer. A send that is acknowledged has appended the message to the log of the topic; one
-- that fails has either appended it or not.
pub record Broker : Type 0 where
  pub send : Message → List Message → Result (Unit {0}) × List Message
  pub send_ok :
      (m : Message) (log : List Message) (u : Unit {0})
      → (send m log).0 ≡ ok u
      → (send m log).1 ≡ log ++ m ∷ []
  pub send_err :
      (m : Message) (log : List Message) (e : Error)
      → (send m log).0 ≡ err e
      → ((send m log).1 ≡ log) ⊎ ((send m log).1 ≡ log ++ m ∷ [])

-- The database and the topic.
pub record World : Type 0 where
  pub db : State
  pub log : List Message

abbrev pub on_db : {A : Type 0} → Exec State A → Exec World A
on_db m w = ((m w.db).0, record w { db = (m w.db).1 })

abbrev pub error_message : Error → String
error_message (app e) = e.message
error_message (known code) = code
error_message (other message) = message

-- The clocks of one pass.
pub record Pass : Type 0 where
  pub now : ℕ
  pub db_now : ℕ

module _ (prisma : Prisma) (broker : Broker) (bytes : OutboxEvent → ℕ) where
  abbrev send_message : Message → Exec World (Unit {0})
  send_message m w = ((broker.send m w.log).0, record w { log = (broker.send m w.log).1 })

  -- The body of `try`.
  unfoldable pub try_publish : ℕ → OutboxEvent → Exec World (Unit {0})
  unfolding mark_published
  try_publish now event =
      if ltb max_payload_bytes (bytes event)
      then throw (
          other (
            "Event payload is "
            & decimal (bytes event)
            & " bytes, over the "
            & decimal max_payload_bytes
            & " limit"))
      else (do send_message (message_of event); on_db (mark_published prisma now event.id); pure tt)

  -- What `try`/`catch` leaves: whether the event was published, or what `markFailed` threw.
  abbrev pub settle : OutboxEvent → Result (Unit {0}) → Exec World Bool
  settle event (ok _) = pure true
  settle event (err e) = do on_db (mark_failed prisma event.id (error_message e)); pure false

  unfoldable pub publish_one : ℕ → OutboxEvent → Exec World Bool
  unfolding try_publish mark_failed
  publish_one now event w = settle event (try_publish now event w).0 (try_publish now event w).1

  -- The loop over the claimed events; `published` counts, and a failure stops the batch.
  unfoldable pub publish_all : ℕ → List OutboxEvent → ℕ → Exec World ℕ
  unfolding publish_one
  publish_all now [] published = pure published
  publish_all now (event ∷ events) published = do
    done ← publish_one now event
    if done then publish_all now events (published + 1) else pure published

  -- Returns the numbers of events claimed and published.
  unfoldable pub publish_batch : Engine → Config → Pass → Exec World (ℕ × ℕ)
  unfolding publish_all claim_batch
  publish_batch engine config pass = do
    events ← on_db (
        claim_batch engine config.outbox_max_attempts pass.now pass.db_now config.outbox_batch_size)
    published ← publish_all pass.now events 0
    pure (length events, published)

  -- How long the loop sleeps after a pass that published so many.
  unfoldable pub next_delay : Config → ℕ → ℕ → ℕ
  next_delay config poll_interval_ms published =
      if published == config.outbox_batch_size then 0 else poll_interval_ms

  abbrev delay_after : Config → ℕ → Result (ℕ × ℕ) → ℕ
  delay_after config poll_interval_ms (ok (claimed, published)) =
      next_delay config poll_interval_ms published
  delay_after config poll_interval_ms (err e) = poll_interval_ms

  -- One run of `loop`: a pass whose failure is caught, and the delay until the next.
  unfoldable pub loop : Config → ℕ → Engine → Pass → World → ℕ × World
  unfolding publish_batch next_delay
  loop config poll_interval_ms engine pass w =
      let r = publish_batch engine config pass w in (delay_after config poll_interval_ms r.0, r.1)

  -- The runs of `loop` that the timer sets off until the relay is stopped, at their times.
  unfoldable pub runs : Config → ℕ → List (Engine × Pass) → World → World
  unfolding loop
  runs config poll_interval_ms [] w = w
  runs config poll_interval_ms ((engine, pass) ∷ rest) w =
      runs config poll_interval_ms rest (loop config poll_interval_ms engine pass w).1
