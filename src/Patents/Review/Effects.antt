-- ===== src/Patents/Review/Effects.antt =====
-- What the transaction of a review has written when it returns: the moved patent, one review row,
-- and the event that was built, if any.
use mathlib.Core.List.{append-nil}
use smart_patents_storage_sy.Prelude.{
  ℕ, String, ◌≡◌, refl, ap, ◌∙◌, true, Option, none, some, List, [], ◌∷◌, ◌++◌, arith, Option-cases,
  inl, inr,
}
use smart_patents_storage_sy.Exec.{ok, >>=-eq-ok}
use smart_patents_storage_sy.Prisma.{Prisma}
use smart_patents_storage_sy.Schema.{
  Patent, PatentDetail, PatentStatus, ReviewDecision, review_clash,
}
use smart_patents_storage_sy.State.{State, OutboxEvent, outbox_clash}
use smart_patents_storage_sy.Events.{PatentEvent, aggregate_type, event_type}
use smart_patents_storage_sy.Outbox.Defs.{new_event}
use smart_patents_storage_sy.Patents.Lifecycle.{Action, includes, rule_from, apply_transition}
use smart_patents_storage_sy.Patents.Lifecycle.Applied.{
  apply_transition-Applied, IsUnique, moved_patents, patent_at, moved,
}
use smart_patents_storage_sy.Patents.Review.{
  Moment, BuildEvent, review_row, review_body, stamp_reviewed,
}

-- The outbox rows that a built event becomes.
abbrev pub event_rows : ℕ → Moment → ℕ → Option PatentEvent → List OutboxEvent
event_rows id m next none = []
event_rows id m next (some event) =
    new_event m.now aggregate_type id (event_type event) event next ∷ []

pub record Reviewed (id : ℕ) (action : Action) (decision : ReviewDecision)
    (comments : Option String) (reviewer_id : ℕ) (build_event : BuildEvent) (m : Moment)
    (before : Option PatentStatus) (s t : State) (d : PatentDetail) : Type 0 where
  pub row : Patent
  pub there : patent_at id s ≡ some row
  pub legal : includes (rule_from action) row.status ≡ true
  pub kept : IsUnique t
  pub status : PatentStatus
  pub seen : before ≡ some status
  pub patent : d.patent ≡ moved action (stamp_reviewed m.now) row
  pub patents : t.patents ≡ (moved_patents id action (stamp_reviewed m.now) s).patents
  pub reviews :
      t.patent_reviews.rows
      ≡ s.patent_reviews.rows
        ++ review_row id decision comments reviewer_id m.now s.patent_reviews.next ∷ []
  pub events : t.outbox.rows ≡ s.outbox.rows ++ event_rows id m s.outbox.next (build_event d status)

module _ (prisma : Prisma) where
  open prisma use {create_lem}

  module _ (id : ℕ) (action : Action) (decision : ReviewDecision) (comments : Option String)
      (reviewer_id : ℕ) (build_event : BuildEvent) (m : Moment) (before : Option PatentStatus)
      (s : State) (u : IsUnique s) where
    pub review_body-Reviewed :
        (d : PatentDetail)
        → (review_body prisma id action decision comments reviewer_id build_event m before s).0
          ≡ ok d
        → Reviewed id action decision comments reviewer_id build_event m before s
            (review_body prisma id action decision comments reviewer_id build_event m before s).1
            d
    unfolding review_body
    review_body-Reviewed d h =
        let (moved_to, t, ran, rest) =
          >>=-eq-ok (apply_transition prisma id action (stamp_reviewed m.now)) _ s d h in
        let a =
          apply_transition-Applied prisma id action (stamp_reviewed m.now) s (λ p. refl) u moved_to
            (ground arith) in
        let reviewed =
          create_lem review_clash (review_row id decision comments reviewer_id m.now)
            s.patent_reviews in
        elim (Option-cases before) [
          | inl unseen ↦ absurd (ground arith)
          | inr (status, seen) ↦ elim (Option-cases (build_event a.detail status)) [
            | inl silent ↦
                let same : d ≡ a.detail = ground arith in
                record {
                  row = a.row;
                  there = a.there;
                  legal = a.legal;
                  kept = ground arith;
                  status = status;
                  seen = seen;
                  patent = ap (λ (x : PatentDetail). x.patent) same ∙ a.detail_patent;
                  patents = ground arith;
                  reviews = ground arith;
                  events = ground (arith, append-nil s.outbox.rows);
                }
            | inr (event, built) ↦
                let queued =
                  create_lem outbox_clash
                    (new_event m.now aggregate_type id (event_type event) event) s.outbox in
                let same : d ≡ a.detail = ground arith in
                record {
                  row = a.row;
                  there = a.there;
                  legal = a.legal;
                  kept = ground arith;
                  status = status;
                  seen = seen;
                  patent = ap (λ (x : PatentDetail). x.patent) same ∙ a.detail_patent;
                  patents = ground arith;
                  reviews = ground arith;
                  events = ground arith;
                }
          ]
        ]
