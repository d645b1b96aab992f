-- ===== src/Catalog/Listing.antt =====
-- src/services/inventorService.js: listing the inventors. They are ordered by their names alone:
-- `by_name` is the order of the database.
use smart_patents_storage_sy.Prelude.{
  ℕ, String, Bool, true, false, ◌||◌, Option, none, some, List, str_eq,
}
use smart_patents_storage_sy.Exec.{Exec, gets}
use smart_patents_storage_sy.Prisma.{Prisma}
use smart_patents_storage_sy.Schema.{Inventor}
use smart_patents_storage_sy.State.{State}
use smart_patents_storage_sy.Patents.Listing.{page_rows, total_pages}

pub record InventorPage : Type 0 where
  pub inventors : List Inventor
  pub total : ℕ
  pub page : ℕ
  pub limit : ℕ
  pub total_pages : ℕ

module _ (prisma : Prisma) where
  open prisma use {contains_insensitive}

  abbrev organization_contains : Option String → String → Bool
  organization_contains none search = false
  organization_contains (some o) search = contains_insensitive o search

  abbrev inventor_matches : Option String → Inventor → Bool
  inventor_matches none i = true
  inventor_matches (some search) i =
      str_eq search ""
      || contains_insensitive i.full_name search
      || contains_insensitive i.email search
      || organization_contains i.organization search

  unfoldable pub list_inventors :
      (List Inventor → List Inventor) → ℕ → ℕ → Option String → Exec State InventorPage
  unfolding page_rows total_pages
  list_inventors by_name page limit search = gets (λ s.
      let total = prisma.count (inventor_matches search) s.inventors in
      record {
        inventors =
            page_rows page limit (by_name (prisma.find_many (inventor_matches search) s.inventors));
        total = total;
        page = page;
        limit = limit;
        total_pages = total_pages total limit;
      })
