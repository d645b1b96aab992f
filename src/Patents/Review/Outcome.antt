-- ===== src/Patents/Review/Outcome.antt =====
-- What approving and declining return, for every patent and every status.

use smart_patents_storage_sy.Prelude.{
  ℕ, ◌+◌, String, ◌≡◌, refl, ◌∙◌, true, Option, none, some, [], ◌∷◌, ◌++◌, arith, Option-cases,
  Bool-cases, inl, inr, change, if◌then◌else◌, find-passes,
}
use smart_patents_storage_sy.Errors.{not_found}
use smart_patents_storage_sy.Exec.{ok, err}
use smart_patents_storage_sy.Prisma.{Prisma, Table}
use smart_patents_storage_sy.Prisma.Unique.{at_key, find-change, no_clash-map, free-next, Below}
use smart_patents_storage_sy.Schema.{
  Patent, PatentDetail, PatentReview, ReviewDecision, review_clash, patent_clash,
}
use smart_patents_storage_sy.State.{State, OutboxEvent, outbox_clash}
use smart_patents_storage_sy.Events.{PatentEvent, aggregate_type, event_type}
use smart_patents_storage_sy.Outbox.Defs.{new_event}
use smart_patents_storage_sy.Patents.Rows.{load_detail}
use smart_patents_storage_sy.Patents.Lifecycle.{
  Action, includes, rule_from, apply_transition, assert_transition, transition_conflict,
  status_text,
}
use smart_patents_storage_sy.Patents.Lifecycle.Applied.{
  IsUnique, patent_at, moved, moved_patents, selected, count-selected,
}
use smart_patents_storage_sy.Patents.Access.{Caller}
use smart_patents_storage_sy.Patents.Review.{
  Moment, BuildEvent, review_row, review_tx, review, stamp_reviewed,
}

-- The id sequences of the tables that a review writes to are ahead of their rows.
pub record IsReady (s : State) : Type 0 where
  pub unique : IsUnique s
  pub reviews : Below (λ (r : PatentReview). r.id) s.patent_reviews.next s.patent_reviews.rows
  pub events : Below (λ (e : OutboxEvent). e.id) s.outbox.next s.outbox.rows

-- A transition meets no constraint.
pub moved-IsUnique :
    (id : ℕ) (action : Action) (now : ℕ) (s : State)
    → IsUnique s
    → IsUnique (moved_patents id action (stamp_reviewed now) s)
moved-IsUnique id action now s u =
    no_clash-map patent_clash (change (selected id action) (moved action (stamp_reviewed now)))
      s.patents.rows (λ p q. ground arith)
    ∙ u

module _ (prisma : Prisma) where
  open prisma use {find_first_lem, create_lem, update_many_lem}

  apply_transition_of_legal :
      (id : ℕ) (action : Action) (now : ℕ) (s : State) (row : Patent)
      → IsUnique s
      → patent_at id s ≡ some row
      → includes (rule_from action) row.status ≡ true
      → apply_transition prisma id action (stamp_reviewed now) s ≡ (
        ok (
            some (
              load_detail prisma
                (moved_patents id action (stamp_reviewed now) s)
                (moved action (stamp_reviewed now) row))),
        moved_patents id action (stamp_reviewed now) s,
      )
  unfolding apply_transition
  apply_transition_of_legal id action now s row u there legal =
      let t = moved_patents id action (stamp_reviewed now) s in
      let counted = count-selected id action s u in
      let written =
        update_many_lem patent_clash (selected id action) (moved action (stamp_reviewed now))
          s.patents in
      let free = moved-IsUnique id action now s u in
      let read = find_first_lem (at_key (λ (p : Patent). p.id) id) t.patents in
      let seen =
        find-change (λ (p : Patent). p.id) (selected id action) (moved action (stamp_reviewed now))
          id s.patents.rows (λ r. refl) in
      let here = find-passes (at_key (λ (p : Patent). p.id) id) s.patents.rows row there in
      let arrived : patent_at id t ≡ some (moved action (stamp_reviewed now) row) = ground arith in
      ground arith

-- The outbox with the event that was built, if any.
abbrev pub with_event : ℕ → Moment → Option PatentEvent → Table OutboxEvent → Table OutboxEvent
with_event id m none t = t
with_event id m (some event) t = record {
  next = t.next + 1;
  rows = t.rows ++ new_event m.now aggregate_type id (event_type event) event t.next ∷ [];
}

-- The state after a decision on the patent with this id: its status, one review row and the event.
abbrev pub decided :
    ℕ → Action → ReviewDecision → Option String → ℕ → Option PatentEvent → Moment → State → State
decided id action decision comments reviewer_id event m s =
    record (moved_patents id action (stamp_reviewed m.now) s) {
      patent_reviews = record {
        next = s.patent_reviews.next + 1;
        rows =
            s.patent_reviews.rows
            ++ review_row id decision comments reviewer_id m.now s.patent_reviews.next ∷ [];
      };
      outbox = with_event id m event s.outbox;
    }

module _ (prisma : Prisma) where
  open prisma use {find_first_lem, create_lem}

  -- The patent that a decision returns.
  abbrev pub decided_detail : ℕ → Action → Moment → State → Patent → PatentDetail
  decided_detail id action m s row =
      load_detail prisma (moved_patents id action (stamp_reviewed m.now) s)
        (moved action (stamp_reviewed m.now) row)

  module _ (id : ℕ) (action : Action) (decision : ReviewDecision) (comments : Option String)
      (build_event : BuildEvent) (m : Moment) (s : State) (ready : IsReady s) where
    review_tx_of_legal :
        (reviewer_id : ℕ) (row : Patent)
        → patent_at id s ≡ some row
        → includes (rule_from action) row.status ≡ true
        → review_tx prisma id action decision comments reviewer_id build_event m s ≡ (
          ok (decided_detail id action m s row),
          decided id action decision comments reviewer_id
              (build_event (decided_detail id action m s row) row.status)
              m
              s,
        )
    unfolding review_tx
    review_tx_of_legal reviewer_id row there legal =
        let read = find_first_lem (at_key (λ (p : Patent). p.id) id) s.patents in
        let mv = apply_transition_of_legal prisma id action m.now s row ready.unique there legal in
        let written =
          create_lem review_clash (review_row id decision comments reviewer_id m.now)
            s.patent_reviews in
        let free =
          free-next review_clash (λ r. r.id)
            (review_row id decision comments reviewer_id m.now s.patent_reviews.next)
            s.patent_reviews.rows (λ r. refl) ready.reviews in
        elim (Option-cases (build_event (decided_detail id action m s row) row.status)) [
          | inl silent ↦ ground arith
          | inr (event, built) ↦
              let made = new_event m.now aggregate_type id (event_type event) event in
              let queued = create_lem outbox_clash made s.outbox in
              let room =
                free-next outbox_clash (λ e. e.id) (made s.outbox.next) s.outbox.rows (λ e. refl)
                  ready.events in
              ground arith
        ]

    -- What `review` does for every patent and status, run with no other request in between: a
    -- missing patent is a 404 and an illegal action a 409, both with no effect; a legal action moves
    -- the status, adds one review row, and adds the event that was built from the old status.
    pub review-eq :
        (examiner : Caller)
        → review prisma id action decision comments examiner build_event m s
          ≡ elim (patent_at id s) [
            | none ↦ (err (not_found "Patent not found"), s)
            | some row ↦
                if includes (rule_from action) row.status
                then (
                  ok (decided_detail id action m s row),
                  decided id action decision comments examiner.user_id
                      (build_event (decided_detail id action m s row) row.status)
                      m
                      s,
                )
                else (err (transition_conflict action (status_text row.status)), s)
          ]
    unfolding review assert_transition load_detail
    review-eq examiner =
        let read = find_first_lem (at_key (λ (p : Patent). p.id) id) s.patents in
        elim (Option-cases (patent_at id s)) [
          | inl gone ↦ ground arith
          | inr (row, there) ↦ elim (Bool-cases (includes (rule_from action) row.status)) [
            | inl legal ↦
                let ran = review_tx_of_legal examiner.user_id row there legal in ground arith
            | inr illegal ↦ ground arith
          ]
        ]
