-- ===== src/Patents/Review.antt =====
-- src/services/patentService.js: submitting, deciding and deleting. What runs inside a database
-- transaction is a definition of its own, since other requests run between the reads before it and
-- the transaction.
pub mod Effects
pub mod Outcome
use smart_patents_storage_sy.Prelude.{
  ℕ, String, Bool, ◌&&◌, not, Option, none, some, ◌==◌, str_eq, if◌then◌else◌,
}
use smart_patents_storage_sy.Prelude.Decimal.{◌&◌}
use smart_patents_storage_sy.Errors.{other, conflict, not_found}
use smart_patents_storage_sy.Exec.{Exec, ok, err, pure, throw, gets, lift, transaction, ◌>>=◌, ◌>>◌}
use smart_patents_storage_sy.Prisma.{Prisma}
use smart_patents_storage_sy.Schema.{
  PatentStatus, approved, draft, Patent, PatentDetail, PatentReview, ReviewDecision, admin_review,
  review_clash,
}
use smart_patents_storage_sy.State.{State}
use smart_patents_storage_sy.Events.{
  PatentEvent, patent_version_upserted, patent_version_withdrawn, aggregate_type, event_type,
}
use smart_patents_storage_sy.Outbox.Defs.{enqueue}
use smart_patents_storage_sy.Storage.{ObjectStorage, delete_object}
use smart_patents_storage_sy.Patents.Rows.{find_detail, delete_patents}
use smart_patents_storage_sy.Patents.Lifecycle.{
  Action, assert_transition, apply_transition, same_status, status_text,
}
use smart_patents_storage_sy.Patents.Access.{Caller, find_owned_patent}

-- What varies in a request: the clock and the random id.
pub record Moment : Type 0 where
  pub now : ℕ
  pub uuid : String

abbrev pub null_property : String → String
null_property name = "Cannot read properties of null (reading '" & name & "')"

-- `comments || null`
abbrev pub or_null : Option String → Option String
or_null none = none
or_null (some c) = if str_eq c "" then none else some c

abbrev pub stamp_submitted : ℕ → Patent → Patent
stamp_submitted now p = record p { submitted_at = some now }

abbrev pub stamp_reviewed : ℕ → Patent → Patent
stamp_reviewed now p = record p { reviewed_at = some now }

-- `current?.status` inside a template
abbrev pub status_or_undefined : Option Patent → String
status_or_undefined none = "undefined"
status_or_undefined (some p) = status_text p.status

abbrev pub draft_only : String → String
draft_only status = "Only a draft can be deleted; this patent is \"" & status & "\""

-- `buildEvent` of a review: from the updated patent and the status read before the write
abbrev pub BuildEvent : Type 0
BuildEvent = PatentDetail → PatentStatus → Option PatentEvent

-- The row of `patentReview.create`.
abbrev pub review_row : ℕ → ReviewDecision → Option String → ℕ → ℕ → ℕ → PatentReview
review_row patent_id decision comments reviewer_id now id = record {
  id = id;
  patent_id = patent_id;
  reviewer_id = some reviewer_id;
  review_stage = admin_review;
  decision = some decision;
  comments = or_null comments;
  created_at = now;
}

abbrev pub approve_event : Moment → BuildEvent
approve_event m patent status = some (patent_version_upserted m.uuid m.now patent)

abbrev pub decline_event : Moment → BuildEvent
decline_event m patent previous_status =
    if same_status previous_status approved
    then some (patent_version_withdrawn m.uuid m.now patent "declined")
    else none

-- The condition of `patent.deleteMany` in `deletePatent`.
abbrev pub is_draft_of : ℕ → Patent → Bool
is_draft_of id p = p.id == id && same_status p.status draft

module _ (prisma : Prisma) where
  unfoldable pub submit_tx : ℕ → Moment → Exec State (Option PatentDetail)
  submit_tx id m = transaction (apply_transition prisma id Action.submit (stamp_submitted m.now))

  unfoldable pub submit_for_review : ℕ → Caller → Moment → Exec State (Option PatentDetail)
  unfolding submit_tx
  submit_for_review id caller m = do
    patent ← find_owned_patent prisma id caller
    lift (assert_transition patent.patent Action.submit)
    elim patent.document_key [
      | none ↦ throw (conflict "A patent cannot be submitted without an uploaded document")
      | some _ ↦ submit_tx id m
    ]

  abbrev pub create_review : (ℕ → PatentReview) → Exec State PatentReview
  create_review mk s = elim (prisma.create review_clash mk s.patent_reviews) [
    | ok (r, t) ↦ (ok r, record s { patent_reviews = t })
    | err e ↦ (err e, s)
  ]

  abbrev pub enqueue_event : ℕ → Moment → Option PatentEvent → Exec State (Unit {0})
  enqueue_event id m none = pure tt
  enqueue_event id m (some event) = do
    enqueue prisma m.now aggregate_type id (event_type event) event
    pure tt

  -- The body of the transaction after the status has been re-read as `before`.
  unfoldable pub review_body :
      ℕ
      → Action
      → ReviewDecision
      → Option String
      → ℕ
      → BuildEvent
      → Moment
      → Option PatentStatus
      → Exec State PatentDetail
  review_body id action decision comments reviewer_id build_event m before = do
    updated ← apply_transition prisma id action (stamp_reviewed m.now)
    create_review (review_row id decision comments reviewer_id m.now)
    elim before [
      | none ↦ throw (other (null_property "status"))
      | some status ↦ elim updated [
        | none ↦ throw (other (null_property "id"))
        | some patent ↦ (do enqueue_event id m (build_event patent status); pure patent)
      ]
    ]

  abbrev pub status_of : ℕ → State → Option PatentStatus
  status_of id s = elim (prisma.find_first (λ p. p.id == id) s.patents) [
    | none ↦ none
    | some p ↦ some p.status
  ]

  unfoldable pub review_tx :
      ℕ
      → Action
      → ReviewDecision
      → Option String
      → ℕ
      → BuildEvent
      → Moment
      → Exec State PatentDetail
  unfolding review_body
  review_tx id action decision comments reviewer_id build_event m = transaction (do
    before ← gets (status_of id)
    review_body id action decision comments reviewer_id build_event m before)

  unfoldable pub review :
      ℕ
      → Action
      → ReviewDecision
      → Option String
      → Caller
      → BuildEvent
      → Moment
      → Exec State PatentDetail
  review id action decision comments examiner build_event m = do
    patent ← find_detail prisma id
    elim patent [
      | none ↦ throw (not_found "Patent not found")
      | some p ↦ (do
        lift (assert_transition p.patent action)
        review_tx id action decision comments examiner.user_id build_event m)
    ]

  unfoldable pub approve_patent : ℕ → Option String → Caller → Moment → Exec State PatentDetail
  unfolding review
  approve_patent id comments examiner m =
      review id Action.approve ReviewDecision.pass comments examiner (approve_event m) m

  unfoldable pub decline_patent : ℕ → Option String → Caller → Moment → Exec State PatentDetail
  unfolding review
  decline_patent id comments examiner m =
      review id Action.decline ReviewDecision.fail comments examiner (decline_event m) m

  unfoldable pub delete_body : ℕ → Exec State (Unit {0})
  delete_body id = do
    count ← delete_patents prisma (is_draft_of id)
    if count == 0
        then (do
          current ← gets (λ s. prisma.find_first (λ p. p.id == id) s.patents)
          throw (conflict (draft_only (status_or_undefined current))))
        else pure tt

  unfoldable pub delete_tx : ℕ → Exec State (Unit {0})
  unfolding delete_body
  delete_tx id = transaction (delete_body id)

  unfoldable pub delete_patent : ObjectStorage → ℕ → Caller → Exec State (Unit {0})
  unfolding delete_tx delete_object
  delete_patent storage id caller = do
    patent ← find_owned_patent prisma id caller
    if not (same_status patent.status draft)
        then throw (conflict (draft_only (status_text patent.status)))
        else (do delete_tx id; delete_object storage patent.document_key)
