-- ===== src/Outbox/Passes.antt =====
-- Draining the outbox: what each pass of a relay leaves of the backlog, when nothing fails.
use smart_patents_storage_sy.Prelude.{
  ℕ, suc, ◌+◌, ◌*◌, ◌≤◌, ◌≡◌, ◌==◌, refl, sym, ◌∙◌, false, List, [], ◌∷◌, map, length, change,
  arith, leb, Bool-cases, inl, inr, All, if◌then◌else◌, ◌⊎◌,
}
use smart_patents_storage_sy.Exec.{ok}
use smart_patents_storage_sy.Prisma.{Prisma}
use smart_patents_storage_sy.Prisma.Unique.{no_clash-map}
use smart_patents_storage_sy.Prisma.Shuffle.{
  All-shuffle, any-shuffle, length-shuffle, no_clash-shuffle,
}
use mathlib.Core.List.Permᴰ
use smart_patents_storage_sy.State.{OutboxEvent, outbox_clash}
use smart_patents_storage_sy.Storage.{Config}
use smart_patents_storage_sy.Outbox.Defs.{
  Engine, next_batch, claim_batch, has_id, claim_at, published_at_time,
}
use smart_patents_storage_sy.Outbox.Relay.{
  Broker, Message, World, Pass, max_payload_bytes, publish_batch, loop, runs,
}
use smart_patents_storage_sy.Outbox.Backlog.{
  backlog, HasUniqueIds, IsReady, next_batch_unique, next_batch-IsPending, length-next_batch,
}
use smart_patents_storage_sy.Outbox.Drain.{marked, Published, batch-Published, with_rows}
use smart_patents_storage_sy.Outbox.Claimed.{
  claimed, claimed_unique, claimed-backlog, claimed_each, length-claimed, marked-IsReady,
  has_id-claimed,
}

left_over :
    (size n a b c : ℕ)
    → c + n * size ≡ b
    → a ≡ b + (if leb size a then size else a)
    → (c ≡ 0) ⊎ (c + suc n * size ≡ a)
left_over size n a b c h k = elim (Bool-cases (leb size a)) [
  | inl enough ↦ let full : a ≡ b + size = rw enough at k in inr (omega arith)
  | inr less ↦ let none_left : a ≡ b + a = rw less at k in inl (omega arith)
]

-- No transaction holds a row locked.
pub record IsQuiet (engine : Engine) : Type 0 where
  pub unlocked : (e : OutboxEvent) → engine.locked e ≡ false

module _ (prisma : Prisma) (broker : Broker) (bytes : OutboxEvent → ℕ)
    (takes : (m : Message) (log : List Message) → (broker.send m log).0 ≡ ok tt)
    (fits : (e : OutboxEvent) → bytes e ≤ max_payload_bytes) (config : Config) where
  -- The outbox that passes without failures find and leave.
  pub record IsOrderly (w : World) : Type 0 where
    pub unique : HasUniqueIds w.db.outbox.rows
    pub ready : IsReady config.outbox_max_attempts w.db.outbox.rows

  abbrev pub share : ℕ → ℕ
  share pending = if leb config.outbox_batch_size pending then config.outbox_batch_size else pending

  record Drained (w v : World) : Type 0 where
    orderly : IsOrderly v
    fewer : backlog w.db.outbox.rows ≡ backlog v.db.outbox.rows + share (backlog w.db.outbox.rows)

  module _ (engine : Engine) (pass : Pass) (w : World) (quiet : IsQuiet engine)
      (tidy : IsOrderly w) where
    abbrev batch : List OutboxEvent
    batch =
        next_batch engine config.outbox_max_attempts pass.now config.outbox_batch_size
          w.db.outbox.rows

    abbrev claims : List OutboxEvent
    claims = map (claim_at pass.db_now) batch

    -- as the database lists them
    abbrev listed : List OutboxEvent
    listed = engine.returning claims

    abbrev sent_rows : List OutboxEvent
    sent_rows = marked pass.now listed (claimed pass.db_now batch w.db.outbox.rows)

    abbrev start : World
    start = with_rows w (claimed pass.db_now batch w.db.outbox.rows)

    all_sent : Published prisma broker bytes takes fits pass.now listed 0 start
    all_sent =
        let same = engine.returning_lem claims in
        batch-Published prisma broker bytes takes fits pass.now listed 0 start
          (claimed_unique pass.db_now batch w.db.outbox.rows tidy.unique)
          (no_clash-shuffle outbox_clash (λ x y. ground arith) same
            ∙ no_clash-map outbox_clash (claim_at pass.db_now) batch (λ x y. refl)
            ∙ next_batch_unique engine quiet.unlocked config.outbox_max_attempts pass.now
                config.outbox_batch_size w.db.outbox.rows tidy.unique)
          (All-shuffle _ (Permᴰ.symm same) (
            claimed_each pass.db_now batch w.db.outbox.rows batch (
              next_batch-IsPending engine quiet.unlocked config.outbox_max_attempts pass.now
                config.outbox_batch_size w.db.outbox.rows tidy.unique)))

    publish_batch-rows :
        (publish_batch prisma broker bytes engine config pass w).1.db.outbox.rows ≡ sent_rows
    unfolding publish_batch claim_batch
    publish_batch-rows = rw (all_sent.counted) (all_sent.rows)

    publish_batch-Drained : Drained w (publish_batch prisma broker bytes engine config pass w).1
    publish_batch-Drained =
        let size =
          length-next_batch engine quiet.unlocked config.outbox_max_attempts pass.now
            config.outbox_batch_size w.db.outbox.rows tidy.unique tidy.ready in
        record {
          orderly = record {
            unique = rw (publish_batch-rows) (
                no_clash-map outbox_clash
                  (change (λ r. has_id listed r.id) (published_at_time pass.now))
                  (claimed pass.db_now batch w.db.outbox.rows) (λ x y. ground arith)
                ∙ claimed_unique pass.db_now batch w.db.outbox.rows tidy.unique);
            ready = rw (publish_batch-rows) (
                marked-IsReady pass.db_now pass.now config.outbox_max_attempts batch listed
                  (λ id.
                    any-shuffle (λ e. e.id == id) (engine.returning_lem claims)
                    ∙ has_id-claimed pass.db_now batch id)
                  w.db.outbox.rows tidy.ready);
          };
          fewer =
              sym (claimed-backlog pass.db_now batch w.db.outbox.rows)
              ∙ all_sent.fewer
              ∙ rw
                  (
                    publish_batch-rows,
                    length-shuffle (engine.returning_lem claims),
                    length-claimed pass.db_now batch,
                    size,
                  )
                  refl;
        }

  runs-Drained :
      (poll_interval_ms : ℕ) (passes : List (Engine × Pass)) (w : World)
      → All (λ p. IsQuiet p.0) passes
      → IsOrderly w
      → let v = runs prisma broker bytes config poll_interval_ms passes w in
        IsOrderly v
        × ((backlog v.db.outbox.rows ≡ 0)
            ⊎ (backlog v.db.outbox.rows + length passes * config.outbox_batch_size
                ≡ backlog w.db.outbox.rows))
  unfolding runs loop
  runs-Drained poll_interval_ms [] w h tidy = (tidy, inr (omega arith))
  runs-Drained poll_interval_ms ((engine, pass) ∷ rest) w (q, qs) tidy =
      let one = publish_batch-Drained engine pass w q tidy in
      let v = (publish_batch prisma broker bytes engine config pass w).1 in
      let (end, left) = runs-Drained poll_interval_ms rest v qs one.orderly in
      let fewer = one.fewer in
      (
        end,
        elim left [
          | inl empty ↦ inl empty
          | inr some_left ↦
              left_over config.outbox_batch_size (length rest) (backlog w.db.outbox.rows)
                (backlog v.db.outbox.rows) _ some_left fewer
        ],
      )

  -- Enough passes empty the outbox: with n passes and a backlog of at most n batches, nothing is left
  -- unpublished. The broker is assumed to take every message and every event to fit the limit; no row
  -- is locked, the ids are distinct, and no unpublished event is claimed or dead-lettered when the
  -- passes begin. In each pass the database may list the claimed rows in any order.
  pub runs-drains :
      (poll_interval_ms : ℕ) (passes : List (Engine × Pass)) (w : World)
      → All (λ p. IsQuiet p.0) passes
      → IsOrderly w
      → backlog w.db.outbox.rows ≤ length passes * config.outbox_batch_size
      → backlog (runs prisma broker bytes config poll_interval_ms passes w).db.outbox.rows ≡ 0
  runs-drains poll_interval_ms passes w quiet tidy enough =
      elim (runs-Drained poll_interval_ms passes w quiet tidy).1 [
        | inl empty ↦ empty
        | inr left ↦ omega arith
      ]
