-- ===== src/Corpus/Examples.antt =====
-- Tests of the corpus on a patent that is created, submitted, approved and declined.
use smart_patents_storage_sy.Prelude.{◌≡◌, refl, true, false, none, some, []}
use smart_patents_storage_sy.Prelude.Sort.{sort}
use smart_patents_storage_sy.Exec.{ok}
use smart_patents_storage_sy.Prisma.Memory.{memory}
use smart_patents_storage_sy.Schema.{
  pending_admin, approved, declined, Patent, PatentDetail, ReviewDecision,
}
use smart_patents_storage_sy.State.{State}
use smart_patents_storage_sy.Patents.Rows.{load_detail}
use smart_patents_storage_sy.Patents.Lifecycle.{Action, apply_transition}
use smart_patents_storage_sy.Patents.Lifecycle.Applied.{patent_at}
use smart_patents_storage_sy.Patents.Review.{
  submit_tx, review_tx, review_body, approve_event, decline_event,
}
use smart_patents_storage_sy.Patents.Editing.{new_patent, create_tx}
use smart_patents_storage_sy.Corpus.Defs.{Step, Reach, in_corpus, is_approved}
use smart_patents_storage_sy.Corpus.Consistency.{
  corpus-eq-approved, Reach-IsConsistent, empty-IsConsistent,
}
use smart_patents_storage_sy.Corpus.Race.{stale_decline-keeps_corpus}
use smart_patents_storage_sy.Samples.{empty_state, moment, input}

abbrev drafted : State
drafted = (create_tx memory (new_patent 90 input 5) [] [] empty_state).1

abbrev pending : State
pending = (submit_tx memory 1 moment drafted).1

abbrev published : State
published =
    (review_tx memory 1 Action.approve ReviewDecision.pass none 9 (approve_event moment) moment
      pending).1

life : Reach memory empty_state published
life =
    Reach.next
      (Reach.next (Reach.next Reach.here (Step.created 90 input 5 [] [])) (Step.submitted 1 moment))
      (Step.approve 1 none 9 moment)

corpus-eq-approved_example : in_corpus 1 published ≡ is_approved (patent_at 1 published)
corpus-eq-approved_example = corpus-eq-approved memory empty_state published refl refl life 1

abbrev approved_row : Patent
approved_row = record {
  id = 1;
  title = "T";
  abstract = "A";
  specification = "S";
  document_key = some "patents/5/a";
  version = 1;
  publication_number = none;
  jurisdiction = none;
  status = approved;
  submitted_by = 5;
  submitted_at = some 100;
  reviewed_at = some 100;
  created_at = 90;
}

abbrev declined_detail : PatentDetail
declined_detail = record {
  patent = record approved_row { status = declined };
  submitter = none;
  categories = [];
  inventors = [];
}

published_row : patent_at 1 published ≡ some approved_row
unfolding create_tx submit_tx review_tx new_patent load_detail apply_transition
published_row = refl

stale_ok :
    (review_body memory 1 Action.decline ReviewDecision.fail none 9
      (decline_event moment)
      moment
      (some pending_admin)
      published).0
    ≡ ok declined_detail
unfolding create_tx submit_tx review_tx new_patent load_detail review_body apply_transition sort
stale_ok = refl

abbrev left_behind : State
left_behind =
    (review_body memory 1 Action.decline ReviewDecision.fail none 9 (decline_event moment) moment
      (some pending_admin) published).1

stale_decline-keeps_corpus_example :
    (in_corpus 1 left_behind ≡ true) × (is_approved (patent_at 1 left_behind) ≡ false)
stale_decline-keeps_corpus_example =
    stale_decline-keeps_corpus memory 1 none 9 moment published approved_row declined_detail
      (Reach-IsConsistent memory life (empty-IsConsistent empty_state refl refl)) published_row refl
      stale_ok
