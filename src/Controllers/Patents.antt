-- ===== src/Controllers/Patents.antt =====
-- src/controllers/patentController.js. The id of a path is a text of digits, which the validation has
-- checked; the body and the query of a request have been read into records.
use smart_patents_storage_sy.Prelude.{ℕ, String, Option, some, List, map}
use smart_patents_storage_sy.Prelude.Decimal.{big_int}
use smart_patents_storage_sy.Exec.{ok}
use smart_patents_storage_sy.Prisma.{Prisma}
use smart_patents_storage_sy.Prisma.Ordered.{OrderBy}
use smart_patents_storage_sy.Schema.{PatentReview}
use smart_patents_storage_sy.State.{State}
use smart_patents_storage_sy.Storage.{Config, ObjectStorage, Upload}
use smart_patents_storage_sy.Storage.Filename.{presign_upload}
use smart_patents_storage_sy.Dto.{PatentDto, PatentDetailDto, to_patent_dto, to_patent_detail_dto}
use smart_patents_storage_sy.Dto.Reviews.{ReviewDto, to_patent_review_dto}
use smart_patents_storage_sy.Patents.Access.{Caller, Filters, find_visible_patent}
use smart_patents_storage_sy.Patents.Documents.{Download}
use smart_patents_storage_sy.Patents.Review.{
  Moment, submit_for_review, approve_patent, decline_patent, delete_patent,
}
use smart_patents_storage_sy.Patents.Editing.{CreateInput, Updates, create_patent}
use smart_patents_storage_sy.Patents.Updating.{update_patent}
use smart_patents_storage_sy.Patents.Listing.{list_patents, newest_first}
use smart_patents_storage_sy.Patents.Reads.{list_reviews, get_document_url}
use smart_patents_storage_sy.Controllers.Reply.{
  Reply, Notice, handle, with_detail, with_optional_detail,
}

pub record PatentListing : Type 0 where
  pub patents : List PatentDto
  pub total : ℕ
  pub page : ℕ
  pub limit : ℕ
  pub total_pages : ℕ

pub record ReviewListing : Type 0 where
  pub reviews : List ReviewDto

module _ (prisma : Prisma) (storage : ObjectStorage) (config : Config) (caller : Caller)
    (m : Moment) where
  unfoldable pub handle_request_upload : String → String → State → Reply Upload × State
  unfolding presign_upload
  handle_request_upload filename content_type =
      handle 201 ok
        (presign_upload storage config m.now m.uuid caller.user_id filename content_type)

  unfoldable pub handle_create_patent : CreateInput → State → Reply PatentDetailDto × State
  unfolding create_patent to_patent_detail_dto
  handle_create_patent input =
      handle 201 (with_detail caller) (create_patent prisma storage config input caller m)

  -- `order` is the order in which the database lists the rows of this request.
  unfoldable pub handle_list_patents :
      OrderBy newest_first → ℕ → ℕ → Filters → State → Reply PatentListing × State
  unfolding list_patents to_patent_dto
  handle_list_patents order page limit filters =
      handle 200
        (λ r. ok (record {
          patents = map (λ p. to_patent_dto p (some caller)) r.patents;
          total = r.total;
          page = r.page;
          limit = r.limit;
          total_pages = r.total_pages;
        }))
        (list_patents prisma order page limit filters caller)

  unfoldable pub handle_get_patent_by_id : String → State → Reply PatentDetailDto × State
  handle_get_patent_by_id id =
      handle 200 (with_detail caller) (find_visible_patent prisma (big_int id) caller)

  unfoldable pub handle_update_patent : String → Updates → State → Reply PatentDetailDto × State
  unfolding update_patent to_patent_detail_dto
  handle_update_patent id updates =
      handle 200 (with_optional_detail caller)
        (update_patent prisma storage config (big_int id) updates caller)

  unfoldable pub handle_submit_patent : String → State → Reply PatentDetailDto × State
  unfolding submit_for_review to_patent_detail_dto
  handle_submit_patent id =
      handle 200 (with_optional_detail caller) (submit_for_review prisma (big_int id) caller m)

  unfoldable pub handle_approve_patent :
      String → Option String → State → Reply PatentDetailDto × State
  unfolding approve_patent to_patent_detail_dto
  handle_approve_patent id comments =
      handle 200 (with_detail caller) (approve_patent prisma (big_int id) comments caller m)

  unfoldable pub handle_decline_patent :
      String → Option String → State → Reply PatentDetailDto × State
  unfolding decline_patent to_patent_detail_dto
  handle_decline_patent id comments =
      handle 200 (with_detail caller) (decline_patent prisma (big_int id) comments caller m)

  unfoldable pub handle_delete_patent : String → State → Reply Notice × State
  unfolding delete_patent
  handle_delete_patent id =
      handle 200 (λ u. ok (record { message = "Patent deleted" }))
        (delete_patent prisma storage (big_int id) caller)

  unfoldable pub handle_list_reviews :
      (List PatentReview → List PatentReview) → String → State → Reply ReviewListing × State
  unfolding list_reviews to_patent_review_dto
  handle_list_reviews by_created id =
      handle 200
        (λ rs. ok (record { reviews = map (λ r. to_patent_review_dto r (some caller)) rs }))
        (list_reviews prisma by_created (big_int id) caller)

  unfoldable pub handle_get_document_url : String → State → Reply Download × State
  unfolding get_document_url
  handle_get_document_url id =
      handle 200 ok (get_document_url prisma storage config m.now (big_int id) caller)
