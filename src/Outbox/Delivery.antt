-- ===== src/Outbox/Delivery.antt =====
-- The events that are marked as published, and the topic.
use smart_patents_storage_sy.Prelude.{
  ℕ, ◌≡◌, refl, String, Bool, true, false, ◌||◌, not, List, [], ◌∷◌, ◌++◌, map, ◌==◌, any, all,
  change, is_some, length, arith, Bool-cases, inl, inr, ◌+◌, any-append, if◌then◌else◌,
}
use smart_patents_storage_sy.Exec.{Result, ok, err, Exec, continue}
use smart_patents_storage_sy.Prisma.{Prisma}
use smart_patents_storage_sy.State.{State, OutboxEvent, outbox_clash}
use smart_patents_storage_sy.Storage.{Config}
use smart_patents_storage_sy.Outbox.Defs.{
  Engine, next_batch, claim_batch, claim_at, has_id, published_at_time, failed_with, mark_published,
  mark_failed,
}
use smart_patents_storage_sy.Outbox.Order.{send-cases}
use smart_patents_storage_sy.Outbox.Relay.{
  Broker, Message, World, Pass, message_of, try_publish, publish_one, publish_all, publish_batch,
  settle, loop, runs, error_message,
}

abbrev pub is_sent : List Message → ℕ → Bool
is_sent log id = any (λ (m : Message). m.sequence == id) log

abbrev pub is_delivered : List Message → OutboxEvent → Bool
is_delivered log e = not (is_some e.published_at) || is_sent log e.id

abbrev pub delivered : World → Bool
delivered w = all (is_delivered w.log) w.db.outbox.rows

is_sent-append :
    (log new : List Message) (id : ℕ) → is_sent log id ≡ true → is_sent (log ++ new) id ≡ true
is_sent-append log new id h =
    let both = any-append (λ (m : Message). m.sequence == id) log new in ground arith

is_sent-last : (log : List Message) (m : Message) → is_sent (log ++ m ∷ []) m.sequence ≡ true
is_sent-last log m =
    let both = any-append (λ (n : Message). n.sequence == m.sequence) log (m ∷ []) in ground arith

grown :
    (log new : List Message) (rows : List OutboxEvent)
    → all (is_delivered log) rows ≡ true
    → all (is_delivered (log ++ new)) rows ≡ true
grown log new [] h = refl
grown log new (r ∷ rs) h = elim (Bool-cases (is_sent log r.id)) [
  | inl sent ↦ ground (arith, grown log new rs, is_sent-append log new r.id sent)
  | inr unsent ↦ ground (arith, grown log new rs)
]

-- Marking an event that was sent, and a change that publishes nothing.
marked :
    (log : List Message) (now id : ℕ) (rows : List OutboxEvent)
    → is_sent log id ≡ true
    → all (is_delivered log) rows ≡ true
    → all (is_delivered log) (map (change (λ r. r.id == id) (published_at_time now)) rows) ≡ true
marked log now id [] s h = refl
marked log now id (r ∷ rs) s h = elim (Bool-cases (r.id == id)) [
  | inl here ↦
      let same : id ≡ r.id = ground arith in
      let sent : is_sent log r.id ≡ true = rw (same) at s in ground (arith, marked log now id rs s)
  | inr other ↦ ground (arith, marked log now id rs s)
]

kept :
    (log : List Message) (p : OutboxEvent → Bool) (f : OutboxEvent → OutboxEvent)
    (rows : List OutboxEvent)
    → ((e : OutboxEvent) → is_delivered log (f e) ≡ is_delivered log e)
    → all (is_delivered log) rows ≡ true
    → all (is_delivered log) (map (change p f) rows) ≡ true
kept log p f [] same h = refl
kept log p f (r ∷ rs) same h = ground (arith, kept log p f rs same, same r)

-- A block that ends in a value leaves the world as its last action has left it.
ending-delivered :
    {A B : Type 0} (r : Result A) (g : A → B) (w : World)
    → delivered w ≡ true
    → delivered (continue {B = B} r (λ a v. (ok (g a), v)) w).1 ≡ true
ending-delivered (ok a) g w h = h
ending-delivered (err e) g w h = h

after-delivered :
    (r : Result Bool) (rest : Exec World ℕ) (published : ℕ) (w : World)
    → delivered w ≡ true
    → delivered (rest w).1 ≡ true
    → delivered (continue r (λ done. if done then rest else (λ v. (ok published, v))) w).1 ≡ true
after-delivered (ok true) rest published w h k = k
after-delivered (ok false) rest published w h k = h
after-delivered (err e) rest published w h k = h

module _ (prisma : Prisma) (broker : Broker) (bytes : OutboxEvent → ℕ) where
  failed-delivered :
      (id : ℕ) (error : String) (s : State) (log : List Message)
      → all (is_delivered log) s.outbox.rows ≡ true
      → all (is_delivered log) (mark_failed prisma id error s).1.outbox.rows ≡ true
  unfolding mark_failed
  failed-delivered id error s log h =
      let written = prisma.update_lem outbox_clash (λ e. e.id == id) (failed_with error) s.outbox in
      let same = kept log (λ e. e.id == id) (failed_with error) s.outbox.rows (λ e. refl) h in
      ground arith

  published-delivered :
      (now id : ℕ) (s : State) (log : List Message)
      → is_sent log id ≡ true
      → all (is_delivered log) s.outbox.rows ≡ true
      → all (is_delivered log) (mark_published prisma now id s).1.outbox.rows ≡ true
  unfolding mark_published
  published-delivered now id s log sent h =
      let written =
        prisma.update_lem outbox_clash (λ e. e.id == id) (published_at_time now) s.outbox in
      let same = marked log now id s.outbox.rows sent h in ground arith

  try_publish-delivered :
      (now : ℕ) (e : OutboxEvent) (w : World)
      → delivered w ≡ true
      → delivered (try_publish prisma broker bytes now e w).1 ≡ true
  unfolding try_publish
  try_publish-delivered now e w h =
      let m = message_of e in
      let longer = grown w.log (m ∷ []) w.db.outbox.rows h in
      let there = is_sent-last w.log m in
      let done = published-delivered now e.id w.db (w.log ++ m ∷ []) there longer in
      elim (send-cases prisma broker bytes m w.log) [
        | inl sent ↦ ground arith
        | inr (same, lost) ↦ ground arith
      ]

  settle-delivered :
      (e : OutboxEvent) (r : Result (Unit {0})) (w : World)
      → delivered w ≡ true
      → delivered (settle prisma broker bytes e r w).1 ≡ true
  settle-delivered e (ok u) w h = h
  settle-delivered e (err x) w h =
      let done = failed-delivered e.id (error_message x) w.db w.log h in
      let out = mark_failed prisma e.id (error_message x) w.db in
      ending-delivered out.0 (λ v. false) (record w { db = out.1 }) done

  publish_all-delivered :
      (now : ℕ) (es : List OutboxEvent) (published : ℕ) (w : World)
      → delivered w ≡ true
      → delivered (publish_all prisma broker bytes now es published w).1 ≡ true
  unfolding publish_all publish_one
  publish_all-delivered now [] published w h = h
  publish_all-delivered now (e ∷ es) published w h =
      let one = publish_one prisma broker bytes now e w in
      let kept_one : delivered one.1 ≡ true =
        settle-delivered e (try_publish prisma broker bytes now e w).0
          (try_publish prisma broker bytes now e w).1 (try_publish-delivered now e w h) in
      after-delivered one.0 (publish_all prisma broker bytes now es (published + 1)) published one.1
        kept_one (publish_all-delivered now es (published + 1) one.1 kept_one)

  publish_batch-delivered :
      (engine : Engine) (config : Config) (pass : Pass) (w : World)
      → delivered w ≡ true
      → delivered (publish_batch prisma broker bytes engine config pass w).1 ≡ true
  unfolding publish_batch claim_batch
  publish_batch-delivered engine config pass w h =
      let batch =
        next_batch engine config.outbox_max_attempts pass.now config.outbox_batch_size
          w.db.outbox.rows in
      let es = engine.returning (map (claim_at pass.db_now) batch) in
      let claimed : World = record w {
        db = record w.db {
          outbox = record w.db.outbox {
            rows = map (change (λ e. has_id batch e.id) (claim_at pass.db_now)) w.db.outbox.rows;
          };
        };
      } in
      let start : delivered claimed ≡ true =
        kept w.log (λ e. has_id batch e.id) (claim_at pass.db_now) w.db.outbox.rows (λ e. refl) h in
      let all = publish_all prisma broker bytes pass.now es 0 claimed in
      ending-delivered all.0 (λ published. (length es, published)) all.1
        (publish_all-delivered pass.now es 0 claimed start)

  -- With any broker, any locks and any failures, and however often the relay wakes up: if every event
  -- that was marked as published had its message, with its id as the sequence, on the topic before, then
  -- so has every event after.
  pub runs-delivered :
      (config : Config) (poll_interval_ms : ℕ) (passes : List (Engine × Pass)) (w : World)
      → delivered w ≡ true
      → delivered (runs prisma broker bytes config poll_interval_ms passes w) ≡ true
  unfolding runs loop
  runs-delivered config poll_interval_ms [] w h = h
  runs-delivered config poll_interval_ms ((engine, pass) ∷ rest) w h =
      runs-delivered config poll_interval_ms rest
        (publish_batch prisma broker bytes engine config pass w).1
        (publish_batch-delivered engine config pass w h)
