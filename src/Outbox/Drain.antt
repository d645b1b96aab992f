-- ===== src/Outbox/Drain.antt =====
-- Passes of the relay while the broker takes every message.
use smart_patents_storage_sy.Prelude.{
  ℕ, ◌+◌, ◌≤◌, ◌≡◌, refl, sym, ap, ◌∙◌, true, false, List, [], ◌∷◌, ◌++◌, map, ◌==◌, any, length,
  change, find-passes, arith, ltb, Bool-cases, inl, inr, All,
}
use mathlib.Core.List.{append-nil, append_assoc}
use smart_patents_storage_sy.Exec.{ok}
use smart_patents_storage_sy.Prisma.{Prisma}
use smart_patents_storage_sy.Prisma.Unique.{no_clash-map, find-change}
use smart_patents_storage_sy.State.{OutboxEvent, outbox_clash}
use smart_patents_storage_sy.Outbox.Defs.{has_id, published_at_time, mark_published}
use smart_patents_storage_sy.Outbox.Relay.{
  Broker, Message, World, message_of, max_payload_bytes, publish_all, publish_one, try_publish,
}
use smart_patents_storage_sy.Outbox.Backlog.{
  backlog, HasUniqueIds, IsPending, at_id, backlog-published,
}

abbrev pub with_rows : World → List OutboxEvent → World
with_rows w rows = record w { db = record w.db { outbox = record w.db.outbox { rows = rows } } }

module _ (now : ℕ) where
  abbrev mark : ℕ → List OutboxEvent → List OutboxEvent
  mark id rows = map (change (at_id id) (published_at_time now)) rows

  mark_unique : (id : ℕ) (rows : List OutboxEvent) → HasUniqueIds rows → HasUniqueIds (mark id rows)
  mark_unique id rows u =
      no_clash-map outbox_clash (change (at_id id) (published_at_time now)) rows
        (λ x y. ground arith)
      ∙ u

  mark-IsPending :
      (id : ℕ) (rows : List OutboxEvent) (e : OutboxEvent)
      → (e.id == id) ≡ false
      → IsPending rows e
      → IsPending (mark id rows) e
  mark-IsPending id rows e other (r, there, unsent) =
      let moved =
        find-change (λ (x : OutboxEvent). x.id) (at_id id) (published_at_time now) e.id rows
          (λ x. refl) in
      let same = find-passes (at_id e.id) rows r there in
      let kept : (r.id == id) ≡ false = ground arith in (r, moved ∙ rw (there, kept) refl, unsent)

  abbrev pub marked : List OutboxEvent → List OutboxEvent → List OutboxEvent
  marked es rows = map (change (λ r. has_id es r.id) (published_at_time now)) rows

  marked-mark :
      (e : OutboxEvent) (es rows : List OutboxEvent)
      → marked es (mark e.id rows) ≡ marked (e ∷ es) rows
  marked-mark e es [] = refl
  marked-mark e es (r ∷ rs) = elim (Bool-cases (has_id es r.id)) [
    | inl more ↦ ground (arith, marked-mark e es rs)
    | inr gone ↦ ground (arith, marked-mark e es rs)
  ]

module _ (prisma : Prisma) (broker : Broker) (bytes : OutboxEvent → ℕ)
    (takes : (m : Message) (log : List Message) → (broker.send m log).0 ≡ ok tt)
    (fits : (e : OutboxEvent) → bytes e ≤ max_payload_bytes) where
  publish_one-works :
      (now : ℕ) (e : OutboxEvent) (w : World)
      → HasUniqueIds w.db.outbox.rows
      → IsPending w.db.outbox.rows e
      → publish_one prisma broker bytes now e w ≡ (
        ok true,
        record (with_rows w (mark now e.id w.db.outbox.rows)) { log = w.log ++ message_of e ∷ [] },
      )
  unfolding publish_one try_publish mark_published
  publish_one-works now e w u (r, there, unsent) =
      let sent = takes (message_of e) w.log in
      let grown = broker.send_ok (message_of e) w.log tt sent in
      let small : ltb max_payload_bytes (bytes e) ≡ false = ground (arith, fits e) in
      let unique = mark_unique now e.id w.db.outbox.rows u in
      let written =
        prisma.update_lem outbox_clash (λ x. x.id == e.id) (published_at_time now) w.db.outbox in
      ground arith

  rest-IsPending :
      (now : ℕ) (e : OutboxEvent) (es rows : List OutboxEvent)
      → any (outbox_clash e) es ≡ false
      → All (IsPending rows) es
      → All (IsPending (mark now e.id rows)) es
  rest-IsPending now e [] rows h k = tt
  rest-IsPending now e (f ∷ fs) rows h (k, ks) = (
    mark-IsPending now e.id rows f (ground arith) k,
    rest-IsPending now e fs rows (ground arith) ks,
  )

  -- Every event of the batch is sent and marked, in the order of the batch.
  pub record Published (now : ℕ) (es : List OutboxEvent) (published : ℕ) (w : World) : Type 0 where
    pub counted :
        (publish_all prisma broker bytes now es published w).0 ≡ ok (published + length es)
    pub rows :
        (publish_all prisma broker bytes now es published w).1.db.outbox.rows
        ≡ marked now es w.db.outbox.rows
    pub log :
        (publish_all prisma broker bytes now es published w).1.log ≡ w.log ++ map message_of es
    pub fewer : backlog w.db.outbox.rows ≡ backlog (marked now es w.db.outbox.rows) + length es

  marked-nil : (now : ℕ) (rows : List OutboxEvent) → marked now [] rows ≡ rows
  marked-nil now [] = refl
  marked-nil now (r ∷ rs) = ap (λ l. r ∷ l) (marked-nil now rs)

  pub batch-Published :
      (now : ℕ) (es : List OutboxEvent) (published : ℕ) (w : World)
      → HasUniqueIds w.db.outbox.rows
      → HasUniqueIds es
      → All (IsPending w.db.outbox.rows) es
      → Published now es published w
  unfolding publish_all
  batch-Published now [] published w u d h = record {
    counted = ground arith;
    rows = sym (marked-nil now w.db.outbox.rows);
    log = sym (append-nil w.log);
    fewer = rw (marked-nil now w.db.outbox.rows) (omega arith);
  }
  batch-Published now (e ∷ es) published w u d (k, ks) =
      let one = publish_one-works now e w u k in
      let next = (publish_one prisma broker bytes now e w).1 in
      let marked_rows = mark now e.id w.db.outbox.rows in
      let v : World = record (with_rows w marked_rows) { log = w.log ++ message_of e ∷ [] } in
      let rest =
        batch-Published now es (published + 1) v (mark_unique now e.id w.db.outbox.rows u)
          (ground arith) (rest-IsPending now e es w.db.outbox.rows (ground arith) ks) in
      let step = backlog-published now e.id w.db.outbox.rows k.0 u k.1 k.2 in
      record {
        counted = rw (one) (rest.counted ∙ ap (λ n. ok n) (omega arith));
        rows = rw (one) (rest.rows ∙ marked-mark now e es w.db.outbox.rows);
        log = rw (one) (rest.log ∙ append_assoc w.log (message_of e ∷ []) (map message_of es));
        fewer = step ∙ rw (rest.fewer, marked-mark now e es w.db.outbox.rows) (omega arith);
      }
