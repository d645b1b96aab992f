-- ===== src/Patents/Listing.antt =====
-- src/services/patentService.js: listing the patents page by page.
pub mod Pages
pub mod Newest
use smart_patents_storage_sy.Prelude.{
  ℕ, ◌+◌, ◌*◌, ◌-◌, ◌/◌, Bool, ◌&&◌, ◌||◌, Option, List, map, take, drop, length, ltb, leb, ◌==◌,
  if◌then◌else◌,
}
use smart_patents_storage_sy.Exec.{Exec, gets}
use smart_patents_storage_sy.Prisma.{Prisma}
use smart_patents_storage_sy.Prisma.Ordered.{OrderBy}
use smart_patents_storage_sy.Schema.{Patent, PatentDetail}
use smart_patents_storage_sy.State.{State}
use smart_patents_storage_sy.Patents.Rows.{load_detail}
use smart_patents_storage_sy.Patents.Access.{Caller, Filters, build_list_filter}

-- `{ skip: (page - 1) * limit, take: limit }`; a page below 1 is refused by the validation.
unfoldable pub page_rows {ℓ} : {A : Type ℓ} → ℕ → ℕ → List A → List A
page_rows page limit rows = take limit (drop ((page - 1) * limit) rows)

-- `Math.ceil(total / limit) || 1`; a limit below 1 is refused by the validation.
unfoldable pub total_pages : ℕ → ℕ → ℕ
total_pages total limit =
    let pages = (total + (limit - 1)) / limit in if pages == 0 then 1 else pages

-- `orderBy: [{ createdAt: 'desc' }, { id: 'desc' }]`
abbrev pub newest_first : Patent → Patent → Bool
newest_first p q = ltb q.created_at p.created_at || p.created_at == q.created_at && leb q.id p.id

pub record PatentPage : Type 0 where
  pub patents : List PatentDetail
  pub total : ℕ
  pub page : ℕ
  pub limit : ℕ
  pub total_pages : ℕ

module _ (prisma : Prisma) (order : OrderBy newest_first) where
  -- The patents that the caller may see and that pass the filters, as the query lists them.
  abbrev pub listed_patents : Filters → Caller → State → List Patent
  listed_patents f caller s =
      order.listed (prisma.find_many (build_list_filter prisma f caller s) s.patents)

  -- Both queries of the transaction are over one state. `order` is the order in which the database
  -- lists the rows of this request.
  unfoldable pub list_patents : ℕ → ℕ → Filters → Caller → Exec State PatentPage
  unfolding page_rows total_pages
  list_patents page limit f caller = gets (λ s.
      let total = prisma.count (build_list_filter prisma f caller s) s.patents in
      record {
        patents = map (load_detail prisma s) (page_rows page limit (listed_patents f caller s));
        total = total;
        page = page;
        limit = limit;
        total_pages = total_pages total limit;
      })
