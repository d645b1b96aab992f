-- ===== src/Corpus/Moves.antt =====
-- The transitions of the state machine keep the projection in agreement with the statuses.
use smart_patents_storage_sy.Prelude.{
  ℕ, String, ◌≡◌, refl, ◌∙◌, sym, true, false, Option, some, arith, Option-cases, Bool-cases, inl,
  inr, change, if◌then◌else◌, ◌==◌, find-passes, ==_iff,
}
use mathlib.Core.List.{append-nil}
use smart_patents_storage_sy.Outbox.Defs.{new_event}
use smart_patents_storage_sy.Exec.{transaction_keeps}
use smart_patents_storage_sy.Prisma.{Prisma}
use smart_patents_storage_sy.Prisma.Unique.{at_key, find-change, Below-map}
use smart_patents_storage_sy.Schema.{Patent, ReviewDecision, approved}
use smart_patents_storage_sy.State.{State}
use smart_patents_storage_sy.Events.{
  aggregate_type, patent_version_upserted, patent_version_withdrawn,
}
use smart_patents_storage_sy.Patents.Lifecycle.{
  Action, same_status, includes, rule_from, rule_to, apply_transition,
}
use smart_patents_storage_sy.Patents.Lifecycle.Applied.{
  apply_transition-Applied, IsUnique, moved_patents, patent_at, moved, selected,
}
use smart_patents_storage_sy.Patents.Review.{
  Moment, submit_tx, review_tx, review_body, stamp_submitted, stamp_reviewed, approve_event,
  decline_event, status_of,
}
use smart_patents_storage_sy.Patents.Review.Effects.{review_body-Reviewed}
use smart_patents_storage_sy.Corpus.Defs.{IsConsistent, in_corpus, is_approved}
use smart_patents_storage_sy.Corpus.Lists.{project-append}

abbrev id_of : Patent → ℕ
id_of p = p.id

module _ (id : ℕ) (action : Action) (stamp : Patent → Patent) (row : Patent) (s t : State)
    (keyed : (p : Patent) → (stamp p).id ≡ p.id)
    (status : (p : Patent) → (stamp p).status ≡ p.status) (there : patent_at id s ≡ some row)
    (legal : includes (rule_from action) row.status ≡ true)
    (patents : t.patents ≡ (moved_patents id action stamp s).patents) where
  moved_at :
      (j : ℕ)
      → is_approved (patent_at j t)
        ≡ (if id == j then same_status (rule_to action) approved else is_approved (patent_at j s))
  moved_at j =
      let step =
        find-change id_of (selected id action) (moved action stamp) j s.patents.rows
          (λ p. keyed (record p { status = rule_to action })) in
      let here = find-passes (at_key id_of id) s.patents.rows row there in
      let same = status (record row { status = rule_to action }) in
      elim (Option-cases (patent_at j s)) [
        | inl gone ↦ rw patents (ground arith)
        | inr (found, at_j) ↦
            let passed = find-passes (at_key id_of j) s.patents.rows found at_j in
            rw patents (ground arith)
      ]

  -- A transition with events that say what it did.
  pub moved-IsConsistent :
      IsUnique t
      → ((j : ℕ)
          → in_corpus j t
            ≡ (if id == j then same_status (rule_to action) approved else in_corpus j s))
      → IsConsistent s
      → IsConsistent t
  moved-IsConsistent unique said c = record {
    unique = unique;
    fresh = rw patents (
        Below-map id_of (change (selected id action) (moved action stamp)) s.patents.next
          s.patents.rows (λ r. ground (arith, keyed (record r { status = rule_to action })))
          c.fresh);
    agree = λ j. said j ∙ (rw (c.agree j)) ∙ sym (moved_at j);
  }

module _ (prisma : Prisma) (s : State) (c : IsConsistent s) where
  pub submit_tx-IsConsistent : (id : ℕ) (m : Moment) → IsConsistent (submit_tx prisma id m s).1
  unfolding submit_tx
  submit_tx-IsConsistent id m =
      transaction_keeps IsConsistent
        (apply_transition prisma id Action.submit (stamp_submitted m.now)) s c
        λ d ok_d.
          let a =
            apply_transition-Applied prisma id Action.submit (stamp_submitted m.now) s (λ p. refl)
              c.unique d ok_d in
          rw a.after (
            moved-IsConsistent id Action.submit (stamp_submitted m.now) a.row s
              (moved_patents id Action.submit (stamp_submitted m.now) s) (λ p. refl) (λ p. refl)
              a.there a.legal refl a.kept (λ j. ground (arith, c.agree j, c.agree id, ==_iff id j))
              c)

  pub approve-IsConsistent :
      (id : ℕ) (comments : Option String) (admin_id : ℕ) (m : Moment)
      → IsConsistent
          (review_tx prisma id Action.approve ReviewDecision.pass comments admin_id
            (approve_event m)
            m
            s).1
  unfolding review_tx patent_version_upserted
  approve-IsConsistent id comments admin_id m =
      transaction_keeps IsConsistent
        (λ w.
          review_body prisma id Action.approve ReviewDecision.pass comments admin_id
            (approve_event m) m (status_of prisma id w) w)
        s c
        λ d ok_d.
          let r =
            review_body-Reviewed prisma id Action.approve ReviewDecision.pass comments admin_id
              (approve_event m) m (status_of prisma id s) s c.unique d ok_d in
          moved-IsConsistent id Action.approve (stamp_reviewed m.now) r.row s _ (λ p. refl)
            (λ p. refl) r.there r.legal r.patents r.kept
            (λ j. rw r.events (project-append j false s.outbox.rows _)) c

  pub decline-IsConsistent :
      (id : ℕ) (comments : Option String) (admin_id : ℕ) (m : Moment)
      → IsConsistent
          (review_tx prisma id Action.decline ReviewDecision.fail comments admin_id
            (decline_event m)
            m
            s).1
  unfolding review_tx patent_version_withdrawn
  decline-IsConsistent id comments admin_id m =
      transaction_keeps IsConsistent
        (λ w.
          review_body prisma id Action.decline ReviewDecision.fail comments admin_id
            (decline_event m) m (status_of prisma id w) w)
        s c
        λ d ok_d.
          let r =
            review_body-Reviewed prisma id Action.decline ReviewDecision.fail comments admin_id
              (decline_event m) m (status_of prisma id s) s c.unique d ok_d in
          let read = prisma.find_first_lem (at_key id_of id) s.patents in
          let current : r.status ≡ r.row.status = ground (arith, r.seen, r.there) in
          moved-IsConsistent id Action.decline (stamp_reviewed m.now) r.row s _ (λ p. refl)
            (λ p. refl) r.there r.legal r.patents r.kept
            (λ j. rw r.events (elim (Bool-cases (same_status r.status approved)) [
              | inl was ↦ rw was (
                  project-append j false s.outbox.rows (
                    new_event m.now aggregate_type id "PatentVersionWithdrawn"
                      (patent_version_withdrawn m.uuid m.now d "declined") s.outbox.next))
              | inr was_not ↦
                  rw (was_not, append-nil)
                    (ground (arith, c.agree j, c.agree id, ==_iff id j, r.there, r.legal))
            ]))
            c
