-- ===== src/Catalog/Examples.antt =====
-- Tests of the catalogue.
use smart_patents_storage_sy.Prelude.{◌≡◌, refl, false, none, some, ◌∷◌, []}
use smart_patents_storage_sy.Prelude.Int.{pos}
use smart_patents_storage_sy.Exec.{is_ok}
use smart_patents_storage_sy.Prisma.Memory.{memory}
use smart_patents_storage_sy.State.{State}
use smart_patents_storage_sy.Catalog.Categories.{create_category}
use smart_patents_storage_sy.Catalog.Inventors.{delete_inventor, update_inventor, InventorUpdates}
use smart_patents_storage_sy.Catalog.Laws.{
  delete_inventor-keeps_credits, HasDistinctNames, create_category-HasDistinctNames,
  update_inventor-refused,
}
use smart_patents_storage_sy.Patents.Access.{Caller}
use smart_patents_storage_sy.Schema.{Role}
use smart_patents_storage_sy.Samples.{with_inventor}

abbrev credited : State
credited = record with_inventor {
  patent_inventors = record {
    next = 1;
    rows = record { patent_id = 1; inventor_id = 3; inventor_order = pos 1 } ∷ [];
  };
  categories = record { next = 2; rows = record { id = 1; name = "Software" } ∷ [] };
}

delete_inventor-keeps_credits_example :
    (delete_inventor memory 3 credited).1.patent_inventors.rows ≡ credited.patent_inventors.rows
delete_inventor-keeps_credits_example = delete_inventor-keeps_credits memory 3 credited

create_category-HasDistinctNames_example :
    HasDistinctNames memory (create_category memory "Optics" credited).1
create_category-HasDistinctNames_example =
    create_category-HasDistinctNames memory "Optics" credited refl

abbrev stranger : Caller
stranger = record { user_id = 8; role = Role.user }

abbrev renamed : InventorUpdates
renamed = record { full_name = some "Eve"; email = none; organization = none }

edit_by_a_stranger :
    (is_ok (update_inventor memory 3 renamed stranger credited).0 ≡ false)
    × ((update_inventor memory 3 renamed stranger credited).1 ≡ credited)
edit_by_a_stranger = update_inventor-refused memory 3 renamed stranger credited refl refl
