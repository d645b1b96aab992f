-- ===== src/Corpus/Consistency.antt =====
-- The projection and the statuses agree after any interleaving of transactions.
use smart_patents_storage_sy.Prelude.{ℕ, ◌≡◌, refl, []}
use smart_patents_storage_sy.Prisma.{Prisma}
use smart_patents_storage_sy.State.{State}
use smart_patents_storage_sy.Patents.Lifecycle.Applied.{patent_at}
use smart_patents_storage_sy.Corpus.Defs.{
  IsConsistent, Step, Reach, in_corpus, is_approved, project,
}
use smart_patents_storage_sy.Corpus.Moves.{
  submit_tx-IsConsistent, approve-IsConsistent, decline-IsConsistent,
}
use smart_patents_storage_sy.Corpus.Edits.{
  elsewhere-IsConsistent, claim_batch-IsConsistent, mark_published-IsConsistent,
  mark_failed-IsConsistent, delete_tx-IsConsistent, update_tx-IsConsistent, create_tx-IsConsistent,
}

module _ (prisma : Prisma) where
  -- Whatever transaction or relay write comes next, with whatever arguments, it keeps the patent ids
  -- unique and below the next one, and the consumer's projection equal to the approved patents.
  pub Step-IsConsistent : {s t : State} → Step prisma s t → IsConsistent s → IsConsistent t
  Step-IsConsistent {s} (Step.created now input by categories links) c =
      create_tx-IsConsistent prisma s c now input by categories links
  Step-IsConsistent {s} (Step.updated id updates changed links categories) c =
      update_tx-IsConsistent prisma s c id updates changed links categories
  Step-IsConsistent {s} (Step.submitted id m) c = submit_tx-IsConsistent prisma s c id m
  Step-IsConsistent {s} (Step.approve id comments admin_id m) c =
      approve-IsConsistent prisma s c id comments admin_id m
  Step-IsConsistent {s} (Step.decline id comments admin_id m) c =
      decline-IsConsistent prisma s c id comments admin_id m
  Step-IsConsistent {s} (Step.deleted id) c = delete_tx-IsConsistent prisma s c id
  Step-IsConsistent {s} (Step.claimed engine most now db_now size) c =
      claim_batch-IsConsistent engine most now db_now size s c
  Step-IsConsistent {s} (Step.marked_published now id) c =
      mark_published-IsConsistent prisma s c now id
  Step-IsConsistent {s} (Step.marked_failed id error) c =
      mark_failed-IsConsistent prisma s c id error
  Step-IsConsistent {s} {t} (Step.elsewhere _ p o) c = elsewhere-IsConsistent s t p o c

  pub Reach-IsConsistent : {s t : State} → Reach prisma s t → IsConsistent s → IsConsistent t
  Reach-IsConsistent Reach.here c = c
  Reach-IsConsistent (Reach.next r step) c = Step-IsConsistent step (Reach-IsConsistent r c)

-- A database with no patent and no event.
pub empty-IsConsistent : (s : State) → s.patents.rows ≡ [] → s.outbox.rows ≡ [] → IsConsistent s
unfolding project
empty-IsConsistent s p o = record {
  unique = rw p refl;
  fresh = rw p tt;
  agree = λ id. rw (p, o) refl;
}

-- From a database with no patent and no event, after any sequence of the service's transactions and
-- the relay's writes, each running as a whole, a consumer that applies the outbox in order holds a
-- patent exactly when its status is approved.
pub corpus-eq-approved :
    (prisma : Prisma) (s t : State)
    → s.patents.rows ≡ []
    → s.outbox.rows ≡ []
    → Reach prisma s t
    → (id : ℕ) → in_corpus id t ≡ is_approved (patent_at id t)
corpus-eq-approved prisma s t p o r = (Reach-IsConsistent prisma r (empty-IsConsistent s p o)).agree
