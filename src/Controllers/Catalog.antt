-- ===== src/Controllers/Catalog.antt =====
-- src/controllers/inventorController.js and src/controllers/categoryController.js.
use mathlib.Core.Option
use smart_patents_storage_sy.Prelude.{
  ℕ, String, Bool, true, false, Option, none, some, List, map, ◌==◌,
}
use smart_patents_storage_sy.Prelude.Decimal.{big_int}
use smart_patents_storage_sy.Exec.{Result, ok}
use smart_patents_storage_sy.Prisma.{Prisma}
use smart_patents_storage_sy.Schema.{Inventor, Category, Party}
use smart_patents_storage_sy.State.{State}
use smart_patents_storage_sy.Patents.Access.{Caller}
use smart_patents_storage_sy.Patents.Rows.{party}
use smart_patents_storage_sy.Dto.{
  CategoryDto, InventorDetailDto, to_category_dto, to_inventor_detail_dto,
}
use smart_patents_storage_sy.Catalog.Categories.{
  create_category, list_categories, get_category_by_id, update_category, delete_category,
}
use smart_patents_storage_sy.Catalog.Inventors.{
  InventorInput, InventorUpdates, create_inventor, get_inventor_by_id, update_inventor,
  delete_inventor,
}
use smart_patents_storage_sy.Catalog.Listing.{list_inventors}
use smart_patents_storage_sy.Controllers.Reply.{Reply, Notice, handle}

pub record InventorListing : Type 0 where
  pub inventors : List InventorDetailDto
  pub total : ℕ
  pub page : ℕ
  pub limit : ℕ
  pub total_pages : ℕ

pub record CategoryListing : Type 0 where
  pub categories : List CategoryDto

module _ (prisma : Prisma) where
  unfoldable pub handle_create_category : String → State → Reply CategoryDto × State
  unfolding create_category
  handle_create_category name =
      handle 201 (λ c. ok (to_category_dto c)) (create_category prisma name)

  unfoldable pub handle_get_all_categories :
      (List Category → List Category) → Option String → State → Reply CategoryListing × State
  unfolding list_categories
  handle_get_all_categories by_name search =
      handle 200 (λ cs. ok (record { categories = map to_category_dto cs }))
        (list_categories prisma by_name search)

  unfoldable pub handle_get_category_by_id : String → State → Reply CategoryDto × State
  unfolding get_category_by_id
  handle_get_category_by_id id =
      handle 200 (λ c. ok (to_category_dto c)) (get_category_by_id prisma (big_int id))

  unfoldable pub handle_update_category : String → String → State → Reply CategoryDto × State
  unfolding update_category
  handle_update_category id name =
      handle 200 (λ c. ok (to_category_dto c)) (update_category prisma (big_int id) name)

  unfoldable pub handle_delete_category : String → State → Reply Notice × State
  unfolding delete_category
  handle_delete_category id =
      handle 200 (λ u. ok (record { message = "Category deleted" }))
        (delete_category prisma (big_int id))

  -- `include: INVENTOR_INCLUDE`
  abbrev linked_user : State → Inventor → Option Party
  linked_user s i = elim i.user_id [
    | none ↦ none
    | some id ↦ Option.map party (prisma.find_first (λ u. u.id == id) s.users)
  ]

  module _ (caller : Caller) where
    abbrev shown : State → Bool → Inventor → Result InventorDetailDto
    shown s include_email i =
        ok (to_inventor_detail_dto i (linked_user s i) (some caller) include_email)

    unfoldable pub handle_create_inventor :
        ℕ → InventorInput → State → Reply InventorDetailDto × State
    unfolding create_inventor to_inventor_detail_dto
    handle_create_inventor now input s =
        handle 201 (shown s true) (create_inventor prisma now input caller) s

    unfoldable pub handle_get_all_inventors :
        (List Inventor → List Inventor)
        → ℕ
        → ℕ
        → Option String
        → State
        → Reply InventorListing × State
    unfolding list_inventors to_inventor_detail_dto
    handle_get_all_inventors by_name page limit search s =
        handle 200
          (λ r. ok (record {
            inventors =
                map (λ i. to_inventor_detail_dto i (linked_user s i) (some caller) false)
                  r.inventors;
            total = r.total;
            page = r.page;
            limit = r.limit;
            total_pages = r.total_pages;
          }))
          (list_inventors prisma by_name page limit search) s

    unfoldable pub handle_get_inventor_by_id : String → State → Reply InventorDetailDto × State
    unfolding get_inventor_by_id to_inventor_detail_dto
    handle_get_inventor_by_id id s =
        handle 200 (shown s false) (get_inventor_by_id prisma (big_int id)) s

    unfoldable pub handle_update_inventor :
        String → InventorUpdates → State → Reply InventorDetailDto × State
    unfolding update_inventor to_inventor_detail_dto
    handle_update_inventor id updates s =
        handle 200 (shown s false) (update_inventor prisma (big_int id) updates caller) s

  unfoldable pub handle_delete_inventor : String → State → Reply Notice × State
  unfolding delete_inventor
  handle_delete_inventor id =
      handle 200 (λ u. ok (record { message = "Inventor deleted" }))
        (delete_inventor prisma (big_int id))
