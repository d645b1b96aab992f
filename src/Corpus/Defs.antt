-- ===== src/Corpus/Defs.antt =====
-- The consumer's view of the outbox, the invariant that ties it to the statuses, and the steps
-- between states that the service and the relay take.
use smart_patents_storage_sy.Prelude.{
  ℕ, String, ◌≡◌, Bool, true, false, Option, none, some, List, [], ◌∷◌, ◌==◌, if◌then◌else◌,
}
use smart_patents_storage_sy.Prisma.{Prisma}
use smart_patents_storage_sy.Prisma.Unique.{Below}
use smart_patents_storage_sy.Schema.{approved, Patent, ReviewDecision}
use smart_patents_storage_sy.Events.{PatentEvent, upserted, withdrawn}
use smart_patents_storage_sy.State.{State, OutboxEvent}
use smart_patents_storage_sy.Outbox.Defs.{Engine, claim_batch, mark_published, mark_failed}
use smart_patents_storage_sy.Patents.Lifecycle.{Action, same_status}
use smart_patents_storage_sy.Patents.Lifecycle.Applied.{patent_at, IsUnique}
use smart_patents_storage_sy.Patents.Relations.{ResolvedLink}
use smart_patents_storage_sy.Patents.Review.{
  Moment, submit_tx, review_tx, delete_tx, approve_event, decline_event,
}
use smart_patents_storage_sy.Patents.Editing.{CreateInput, Updates, new_patent, create_tx}
use smart_patents_storage_sy.Patents.Updating.{update_tx}

abbrev pub adds : PatentEvent → Bool
adds (upserted _) = true
adds (withdrawn _) = false

-- A consumer that starts with `held` and applies the events in the order of the outbox.
unfoldable pub project : ℕ → Bool → List OutboxEvent → Bool
project id held [] = held
project id held (e ∷ es) = project id (if e.aggregate_id == id then adds e.payload else held) es

abbrev pub in_corpus : ℕ → State → Bool
in_corpus id s = project id false s.outbox.rows

abbrev pub is_approved : Option Patent → Bool
is_approved none = false
is_approved (some p) = same_status p.status approved

pub record IsConsistent (s : State) : Type 0 where
  pub unique : IsUnique s
  pub fresh : Below (λ (p : Patent). p.id) s.patents.next s.patents.rows
  pub agree : (id : ℕ) → in_corpus id s ≡ is_approved (patent_at id s)

module _ (prisma : Prisma) where
  -- One transaction of the service, or one write of the relay. The arguments that a handler reads
  -- before its transaction (`changed`, the links, the time) are arbitrary: they may be stale.
  pub data Step (s : State) : State → Type 0 where
    created :
        (now : ℕ) (input : CreateInput) (submitted_by : ℕ) (categories : List ℕ)
        (links : List ResolvedLink)
        → Step s (create_tx prisma (new_patent now input submitted_by) categories links s).1
    updated :
        (id : ℕ) (updates : Updates) (changed : Bool) (links : Option (List ResolvedLink))
        (categories : Option (List ℕ))
        → Step s (update_tx prisma id updates changed links categories s).1
    submitted : (id : ℕ) (m : Moment) → Step s (submit_tx prisma id m s).1
    approve :
        (id : ℕ) (comments : Option String) (admin_id : ℕ) (m : Moment)
        → Step s
            (review_tx prisma id Action.approve ReviewDecision.pass comments admin_id
              (approve_event m)
              m
              s).1
    decline :
        (id : ℕ) (comments : Option String) (admin_id : ℕ) (m : Moment)
        → Step s
            (review_tx prisma id Action.decline ReviewDecision.fail comments admin_id
              (decline_event m)
              m
              s).1
    deleted : (id : ℕ) → Step s (delete_tx prisma id s).1
    claimed :
        (engine : Engine) (max_attempts now db_now batch_size : ℕ)
        → Step s (claim_batch engine max_attempts now db_now batch_size s).1
    marked_published : (now id : ℕ) → Step s (mark_published prisma now id s).1
    marked_failed : (id : ℕ) (error : String) → Step s (mark_failed prisma id error s).1
    -- a write to other tables or to the bucket
    elsewhere : (t : State) → t.patents ≡ s.patents → t.outbox ≡ s.outbox → Step s t

  pub data Reach (s : State) : State → Type 0 where
    here : Reach s s
    next : {t u : State} → Reach s t → Step t u → Reach s u
