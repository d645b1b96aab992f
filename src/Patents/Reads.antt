-- ===== src/Patents/Reads.antt =====
-- src/services/patentService.js: the reads by id besides the patent itself.
use mathlib.Core.Option
use smart_patents_storage_sy.Prelude.{ℕ, Option, none, some, List, map, ◌==◌}
use smart_patents_storage_sy.Exec.{Exec, gets, ◌>>=◌, ◌>>◌}
use smart_patents_storage_sy.Prisma.{Prisma}
use smart_patents_storage_sy.Schema.{PatentReview, Party}
use smart_patents_storage_sy.State.{State}
use smart_patents_storage_sy.Storage.{Config, ObjectStorage}
use smart_patents_storage_sy.Patents.Rows.{party}
use smart_patents_storage_sy.Patents.Access.{Caller, find_visible_patent, find_owned_patent}
use smart_patents_storage_sy.Patents.Documents.{Download, presign_download}

-- A review with `include: { reviewer }`.
pub record ReviewDetail : Type 0 where
  pub review : PatentReview
  pub reviewer : Option Party

module _ (prisma : Prisma) where
  abbrev load_review : State → PatentReview → ReviewDetail
  load_review s r = record {
    review = r;
    reviewer = elim r.reviewer_id [
      | none ↦ none
      | some id ↦ Option.map party (prisma.find_first (λ u. u.id == id) s.users)
    ];
  }

  -- `orderBy: { createdAt: 'desc' }`; `by_created` is the order of the database for equal times.
  unfoldable pub list_reviews :
      (List PatentReview → List PatentReview) → ℕ → Caller → Exec State (List ReviewDetail)
  unfolding find_owned_patent
  list_reviews by_created id caller = do
    find_owned_patent prisma id caller
    gets (λ s.
        map (load_review s)
          (by_created (prisma.find_many (λ r. r.patent_id == id) s.patent_reviews)))

  unfoldable pub get_document_url : ObjectStorage → Config → ℕ → ℕ → Caller → Exec State Download
  unfolding find_visible_patent presign_download
  get_document_url storage config now id caller = do
    patent ← find_visible_patent prisma id caller
    presign_download prisma storage config now patent
