-- ===== src/Corpus/Edits.antt =====
-- Creating, editing and deleting a patent, and the relay's marks, keep the projection in agreement
-- with the statuses.
use smart_patents_storage_sy.Prelude.{
  ℕ, ◌+◌, String, ◌≡◌, refl, ◌∙◌, Bool, false, Option, List, [], ◌∷◌, ◌++◌, map, any, keep, not,
  arith, Option-cases, inl, inr, ◌⊎◌, change, ◌==◌, ==_iff, All-append, All-keep, find-append-none,
  find-append-some,
}
use smart_patents_storage_sy.Exec.{transaction_keeps}
use smart_patents_storage_sy.Prisma.{Prisma}
use smart_patents_storage_sy.Prisma.Unique.{
  at_key, find-change, Below-map, Below-suc, find-remove, no_clash-keep, no_clash-append,
}
use smart_patents_storage_sy.Schema.{Patent, draft, patent_clash}
use smart_patents_storage_sy.State.{State, OutboxEvent, outbox_clash}
use smart_patents_storage_sy.Outbox.Defs.{
  Engine, claim_batch, mark_published, mark_failed, update_event, published_at_time, failed_with,
}
use smart_patents_storage_sy.Patents.Lifecycle.{same_status}
use smart_patents_storage_sy.Patents.Lifecycle.Applied.{IsUnique, patent_at, patent_keyed}
use smart_patents_storage_sy.Patents.Relations.{ResolvedLink}
use smart_patents_storage_sy.Patents.Review.{delete_tx, delete_body, is_draft_of}
use smart_patents_storage_sy.Patents.Editing.{
  CreateInput, Updates, new_patent, create_tx, create_body,
}
use smart_patents_storage_sy.Patents.Updating.{update_tx, update_body, is_editable_at, edited}
use smart_patents_storage_sy.Corpus.Defs.{IsConsistent}
use smart_patents_storage_sy.Corpus.Lists.{project-map}

abbrev id_of : Patent → ℕ
id_of p = p.id

-- What depends on the two tables alone.
pub elsewhere-IsConsistent :
    (s t : State) → t.patents ≡ s.patents → t.outbox ≡ s.outbox → IsConsistent s → IsConsistent t
elsewhere-IsConsistent s t p o c = record {
  unique = rw p c.unique;
  fresh = rw p c.fresh;
  agree = λ j. rw (p, o) (c.agree j);
}

-- The relay's marks.
marked-IsConsistent :
    (f : OutboxEvent → OutboxEvent) (s : State)
    → ((e : OutboxEvent) → (f e).aggregate_id ≡ e.aggregate_id)
    → ((e : OutboxEvent) → (f e).payload ≡ e.payload)
    → IsConsistent s
    → IsConsistent (record s { outbox = record s.outbox { rows = map f s.outbox.rows } })
marked-IsConsistent f s k p c = record {
  unique = c.unique;
  fresh = c.fresh;
  agree = λ j. project-map f j false s.outbox.rows k p ∙ c.agree j;
}

pub claim_batch-IsConsistent :
    (engine : Engine) (max_attempts now db_now batch_size : ℕ) (s : State)
    → IsConsistent s
    → IsConsistent (claim_batch engine max_attempts now db_now batch_size s).1
unfolding claim_batch
claim_batch-IsConsistent engine max_attempts now db_now batch_size s c =
    marked-IsConsistent _ s (λ e. ground arith) (λ e. ground arith) c

update_event-cases :
    (prisma : Prisma) (id : ℕ) (f : OutboxEvent → OutboxEvent) (s : State)
    → ((update_event prisma id f s).1 ≡ s)
      ⊎ ((update_event prisma id f s).1 ≡ record s {
        outbox = record s.outbox { rows = map (change (λ e. e.id == id) f) s.outbox.rows };
      })
update_event-cases prisma id f s =
    let written = prisma.update_lem outbox_clash (λ e. e.id == id) f s.outbox in ground arith

-- The three ways in which the patents table changes outside the state machine.
module _ (s t : State) (c : IsConsistent s) (outbox : t.outbox ≡ s.outbox) where
  removed-IsConsistent :
      (id : ℕ)
      → t.patents ≡ record s.patents { rows = keep (λ p. not (is_draft_of id p)) s.patents.rows }
      → IsConsistent t
  removed-IsConsistent id e = record {
    unique =
        rw e (no_clash-keep patent_clash (λ p. not (is_draft_of id p)) s.patents.rows c.unique);
    fresh = rw e (All-keep _ (λ p. not (is_draft_of id p)) s.patents.rows c.fresh);
    agree = λ j.
        let gone =
          find-remove id_of patent_clash patent_keyed id j (λ p. same_status p.status draft)
            s.patents.rows c.unique in
        rw (e, outbox) (ground (arith, c.agree j, ==_iff j id));
  }

  edited-IsConsistent :
      (id : ℕ) (updates : Updates) (changed : Bool)
      → t.patents ≡ record s.patents {
        rows = map (change (is_editable_at id) (edited updates changed)) s.patents.rows;
      }
      → IsUnique t
      → IsConsistent t
  edited-IsConsistent id updates changed e unique = record {
    unique = unique;
    fresh = rw e (
        Below-map id_of (change (is_editable_at id) (edited updates changed)) s.patents.next
          s.patents.rows (λ r. ground arith) c.fresh);
    agree = λ j.
        let seen =
          find-change id_of (is_editable_at id) (edited updates changed) j s.patents.rows
            (λ r. ground arith) in
        rw (e, outbox) (ground (arith, c.agree j));
  }

  added-IsConsistent :
      (p : Patent)
      → p.id ≡ s.patents.next
      → p.status ≡ draft
      → any (λ r. patent_clash r p) s.patents.rows ≡ false
      → t.patents ≡ record { next = s.patents.next + 1; rows = s.patents.rows ++ p ∷ [] }
      → IsConsistent t
  added-IsConsistent p new is_draft free e = record {
    unique = rw e (no_clash-append patent_clash s.patents.rows p c.unique free);
    fresh = rw e (
        All-append _ s.patents.rows (p ∷ []) (Below-suc id_of s.patents.next s.patents.rows c.fresh)
          (omega arith, tt));
    agree = λ j. elim (Option-cases (patent_at j s)) [
      | inl gone ↦
          let last = find-append-none (at_key id_of j) s.patents.rows (p ∷ []) gone in
          rw (e, outbox) (ground (arith, c.agree j))
      | inr (row, there) ↦
          let kept = find-append-some (at_key id_of j) s.patents.rows (p ∷ []) row there in
          rw (e, outbox) (ground (arith, c.agree j))
    ];
  }

module _ (prisma : Prisma) (s : State) (c : IsConsistent s) where
  update_event-IsConsistent :
      (id : ℕ) (f : OutboxEvent → OutboxEvent)
      → ((e : OutboxEvent) → (f e).aggregate_id ≡ e.aggregate_id)
      → ((e : OutboxEvent) → (f e).payload ≡ e.payload)
      → IsConsistent (update_event prisma id f s).1
  update_event-IsConsistent id f k p = elim (update_event-cases prisma id f s) [
    | inl same ↦ rw same c
    | inr marked ↦ rw marked (
        marked-IsConsistent (change (λ e. e.id == id) f) s (λ e. ground (arith, k e))
          (λ e. ground (arith, p e)) c)
  ]

  pub mark_published-IsConsistent : (now id : ℕ) → IsConsistent (mark_published prisma now id s).1
  unfolding mark_published
  mark_published-IsConsistent now id =
      update_event-IsConsistent id (published_at_time now) (λ e. refl) (λ e. refl)

  pub mark_failed-IsConsistent :
      (id : ℕ) (error : String) → IsConsistent (mark_failed prisma id error s).1
  unfolding mark_failed
  mark_failed-IsConsistent id error =
      update_event-IsConsistent id (failed_with error) (λ e. refl) (λ e. refl)

  pub delete_tx-IsConsistent : (id : ℕ) → IsConsistent (delete_tx prisma id s).1
  unfolding delete_tx
  delete_tx-IsConsistent id =
      let written = prisma.delete_many_lem (is_draft_of id) s.patents in
      transaction_keeps IsConsistent (delete_body prisma id) s c
        λ d ok_d. removed-IsConsistent s _ c (ground arith) id (ground arith)

  pub update_tx-IsConsistent :
      (id : ℕ) (updates : Updates) (changed : Bool) (links : Option (List ResolvedLink))
      (categories : Option (List ℕ))
      → IsConsistent (update_tx prisma id updates changed links categories s).1
  unfolding update_tx
  update_tx-IsConsistent id updates changed links categories =
      let written =
        prisma.update_many_lem patent_clash (is_editable_at id) (edited updates changed)
          s.patents in
      transaction_keeps IsConsistent (update_body prisma id updates changed links categories) s c
        λ d ok_d.
          edited-IsConsistent s _ c (ground arith) id updates changed (ground arith) (ground arith)

  pub create_tx-IsConsistent :
      (now : ℕ) (input : CreateInput) (submitted_by : ℕ) (categories : List ℕ)
      (links : List ResolvedLink)
      → IsConsistent (create_tx prisma (new_patent now input submitted_by) categories links s).1
  unfolding create_tx new_patent
  create_tx-IsConsistent now input submitted_by categories links =
      let mk = new_patent now input submitted_by in
      let written = prisma.create_lem patent_clash mk s.patents in
      transaction_keeps IsConsistent (create_body prisma mk categories links) s c λ d ok_d.
        added-IsConsistent s _ c (ground arith) (mk s.patents.next) refl refl (ground arith)
          (ground arith)
