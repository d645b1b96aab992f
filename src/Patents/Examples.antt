-- ===== src/Patents/Examples.antt =====
-- Tests of the patent service on concrete states.

use smart_patents_storage_sy.Prelude.{
  map, ◌≡◌, ◌↔◌, refl, arith, true, false, not, none, some, List, ◌∷◌, [], if◌then◌else◌,
}
use smart_patents_storage_sy.Prelude.Int.{pos}
use smart_patents_storage_sy.Prelude.Decimal.{big_int}
use smart_patents_storage_sy.Prelude.Sort.{sort}
use smart_patents_storage_sy.Errors.{not_found}
use smart_patents_storage_sy.Exec.{ok, err}
use smart_patents_storage_sy.Prisma.Memory.{memory}
use smart_patents_storage_sy.Schema.{pending_admin, draft, PatentDetail, ReviewDecision}
use smart_patents_storage_sy.State.{State}
use smart_patents_storage_sy.Patents.Rows.{load_detail}
use smart_patents_storage_sy.Patents.Lifecycle.{Action}
use smart_patents_storage_sy.Patents.Access.{
  Filters, visibility_where, build_list_filter, find_visible_patent, find_owned_patent,
  list_conditions,
}
use smart_patents_storage_sy.Patents.Access.Visibility.{
  MaySee, build_list_filter-MaySee, find_visible_patent-eq,
}
use smart_patents_storage_sy.Patents.Relations.{
  InventorEntry, ResolvedLink, resolve_inventor_links, find_duplicates, not_empty, contiguous,
  links_from, orders_from,
}
use smart_patents_storage_sy.Patents.Relations.Duplicates.{distinct, find_duplicates-distinct}
use smart_patents_storage_sy.Patents.Relations.Credits.{
  IsCredited, resolve_inventor_links-IsCredited,
}
use smart_patents_storage_sy.Patents.Review.{review, approve_event}
use smart_patents_storage_sy.Patents.Review.Outcome.{IsReady, review-eq, decided, decided_detail}
use smart_patents_storage_sy.Patents.Editing.{Updates, with_scalars, content_changed}
use smart_patents_storage_sy.Patents.Listing.{total_pages, listed_patents}
use smart_patents_storage_sy.Patents.Listing.Newest.{by_insertion}
use smart_patents_storage_sy.Patents.Listing.Pages.{first_pages, list_patents-covers}
use smart_patents_storage_sy.Patents.Updating.{update_tx}
use smart_patents_storage_sy.Patents.Updating.Versions.{
  SameContent, IsEdited, content_changed_iff, update_tx-IsEdited,
}
use smart_patents_storage_sy.Samples.{moment, owner, boss, patent_with, state_with, with_inventor}

ready : IsReady (state_with pending_admin)
ready = record { unique = refl; reviews = tt; events = tt }

review-eq_example :
    review memory 1 Action.approve ReviewDecision.pass none boss
      (approve_event moment)
      moment
      (state_with pending_admin)
    ≡ (
      ok (
          decided_detail memory 1 Action.approve moment
            (state_with pending_admin)
            (patent_with pending_admin)),
      decided 1 Action.approve ReviewDecision.pass none 9
          (approve_event moment
            (decided_detail memory 1 Action.approve moment
              (state_with pending_admin)
              (patent_with pending_admin))
            pending_admin)
          moment
          (state_with pending_admin),
    )
review-eq_example =
    review-eq memory 1 Action.approve ReviewDecision.pass none (approve_event moment) moment
      (state_with pending_admin) ready boss

abbrev all_patents : Filters
all_patents = record {
  status = none;
  category_id = none;
  submitted_by = none;
  jurisdiction = none;
  search = none;
}

listed : build_list_filter memory all_patents owner (state_with draft) (patent_with draft) ≡ true
unfolding build_list_filter list_conditions
listed = refl

build_list_filter-MaySee_example : MaySee owner (patent_with draft)
build_list_filter-MaySee_example =
    build_list_filter-MaySee memory all_patents owner (state_with draft) (patent_with draft) listed

find_visible_patent-eq_example : find_visible_patent memory 1 owner (state_with draft) ≡ (
    if visibility_where owner (patent_with draft)
    then (ok (load_detail memory (state_with draft) (patent_with draft)), state_with draft)
    else (err (not_found "Patent not found"), state_with draft))
find_visible_patent-eq_example = find_visible_patent-eq memory 1 owner (state_with draft) refl

owned :
    find_owned_patent memory 1 owner (state_with draft)
    ≡ (ok (load_detail memory (state_with draft) (patent_with draft)), state_with draft)
unfolding find_owned_patent load_detail
owned = refl

abbrev credits : List InventorEntry
credits = record { inventor_id = "3"; order = none } ∷ []

abbrev credit_links : List ResolvedLink
credit_links = record { inventor_id = 3; inventor_order = pos 1 } ∷ []

accepted : (resolve_inventor_links memory credits with_inventor).0 ≡ ok credit_links
unfolding resolve_inventor_links find_duplicates big_int contiguous sort orders_from links_from
accepted = refl

resolve_inventor_links-IsCredited_example : IsCredited credits credit_links
resolve_inventor_links-IsCredited_example =
    resolve_inventor_links-IsCredited memory credits with_inventor credit_links accepted

-- Two texts of one id pass the check on duplicates.
abbrev repeated : List InventorEntry
repeated =
    record { inventor_id = "3"; order = none } ∷ record { inventor_id = "03"; order = none } ∷ []

inventor_twice :
    (resolve_inventor_links memory repeated with_inventor).0
    ≡ ok (
        record { inventor_id = 3; inventor_order = pos 1 }
        ∷ record { inventor_id = 3; inventor_order = pos 2 }
        ∷ [])
unfolding resolve_inventor_links find_duplicates big_int contiguous sort orders_from links_from
inventor_twice = refl

find_duplicates-distinct_example :
    not_empty (find_duplicates ("1" ∷ "2" ∷ "1" ∷ [])) ≡ not (distinct ("1" ∷ "2" ∷ "1" ∷ []))
find_duplicates-distinct_example = find_duplicates-distinct ("1" ∷ "2" ∷ "1" ∷ [])

abbrev retitled : Updates
retitled = record {
  title = some "T2";
  abstract = none;
  specification = none;
  document_key = none;
  publication_number = none;
  jurisdiction = none;
  category_ids = none;
  inventors = none;
}

content_changed_iff_example :
    (content_changed retitled (patent_with draft) ≡ false)
    ↔ SameContent (patent_with draft) (with_scalars retitled (patent_with draft))
content_changed_iff_example = content_changed_iff retitled (patent_with draft)

abbrev edited_state : State
edited_state =
    (update_tx memory 1 retitled (content_changed retitled (patent_with draft)) none none
      (state_with draft)).1

abbrev retitled_detail : PatentDetail
retitled_detail = record {
  patent = record (patent_with draft) { title = "T2"; version = 2 };
  submitter = none;
  categories = [];
  inventors = [];
}

edit_ok :
    (update_tx memory 1 retitled
      (content_changed retitled (patent_with draft))
      none
      none
      (state_with draft)).0
    ≡ ok (some retitled_detail)
unfolding update_tx content_changed load_detail sort
edit_ok = refl

update_tx-IsEdited_example : IsEdited 1 retitled (state_with draft) edited_state (patent_with draft)
update_tx-IsEdited_example =
    update_tx-IsEdited memory 1 retitled none none (state_with draft) (patent_with draft)
      (some retitled_detail) refl refl edit_ok

list_patents-covers_example :
    first_pages memory
      (λ k. by_insertion)
      1
      all_patents
      owner
      (state_with draft)
      (total_pages
        (memory.count
          (build_list_filter memory all_patents owner (state_with draft))
          (state_with draft).patents)
        1)
    ≡ map
        (load_detail memory (state_with draft))
        (listed_patents memory by_insertion all_patents owner (state_with draft))
list_patents-covers_example =
    list_patents-covers memory (λ k. by_insertion) 1 all_patents owner (state_with draft)
      by_insertion refl (omega arith)
