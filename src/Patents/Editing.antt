-- ===== src/Patents/Editing.antt =====
-- src/services/patentService.js: creating and editing. What runs inside a database transaction is a
-- definition of its own, since other requests run between the reads before it and the transaction.
-- A field of `Updates` is `none` where the request leaves it undefined; the two nullable fields hold
-- a further `Option`.
use smart_patents_storage_sy.Prelude.{
  ℕ, ◌+◌, String, Bool, true, false, ◌&&◌, ◌||◌, not, Option, none, some, List, map, str_eq,
  same_some, if◌then◌else◌,
}
use smart_patents_storage_sy.Prelude.Decimal.{◌&◌}
use smart_patents_storage_sy.Errors.{conflict}
use smart_patents_storage_sy.Exec.{Exec, ok, err, pure, throw, gets, transaction, ◌>>=◌, ◌>>◌}
use smart_patents_storage_sy.Prisma.{Prisma}
use smart_patents_storage_sy.Schema.{
  draft, Patent, PatentDetail, PatentInventor, PatentCategory, patent_clash, patent_inventor_clash,
  patent_category_clash,
}
use smart_patents_storage_sy.State.{State}
use smart_patents_storage_sy.Storage.{Config, ObjectStorage}
use smart_patents_storage_sy.Patents.Rows.{load_detail}
use smart_patents_storage_sy.Patents.Access.{Caller}
use smart_patents_storage_sy.Patents.Relations.{
  InventorEntry, ResolvedLink, resolve_inventor_links, resolve_category_ids,
}
use smart_patents_storage_sy.Patents.Documents.{verify_document, taken_by_other}
use smart_patents_storage_sy.Patents.Review.{Moment, or_null}

pub record CreateInput : Type 0 where
  pub title : String
  pub abstract : String
  pub specification : String
  pub document_key : String
  pub publication_number : Option String
  pub jurisdiction : Option String
  pub category_ids : List String
  pub inventors : List InventorEntry

pub record Updates : Type 0 where
  pub title : Option String
  pub abstract : Option String
  pub specification : Option String
  pub document_key : Option String
  pub publication_number : Option (Option String)
  pub jurisdiction : Option (Option String)
  pub category_ids : Option (List String)
  pub inventors : Option (List InventorEntry)

abbrev pub publication_is : String → Patent → Bool
publication_is n p = same_some str_eq p.publication_number (some n)

-- `updates[field] !== undefined ? updates[field] : patent[field]`
abbrev pub given_or {ℓ} : {A : Type ℓ} → Option A → A → A
given_or none old = old
given_or (some new) old = new

-- `data` of the write, without the version
abbrev pub with_scalars : Updates → Patent → Patent
with_scalars u p = record p {
  title = given_or u.title p.title;
  abstract = given_or u.abstract p.abstract;
  specification = given_or u.specification p.specification;
  document_key = elim u.document_key [ none ↦ p.document_key | some k ↦ some k ];
  publication_number = given_or u.publication_number p.publication_number;
  jurisdiction = given_or u.jurisdiction p.jurisdiction;
}

-- `updates[field] !== undefined && updates[field] !== patent[field]`
abbrev pub differs : Option String → String → Bool
differs none old = false
differs (some new) old = not (str_eq new old)

abbrev pub key_differs : Option String → Option String → Bool
key_differs none old = false
key_differs (some new) old = not (same_some str_eq (some new) old)

unfoldable pub content_changed : Updates → Patent → Bool
content_changed u p =
    differs u.title p.title
    || differs u.abstract p.abstract
    || differs u.specification p.specification
    || key_differs u.document_key p.document_key

-- `updates.documentKey && updates.documentKey !== patent.documentKey`
unfoldable pub replacing_document : Updates → Patent → Bool
replacing_document u p = elim u.document_key [
  | none ↦ false
  | some k ↦ not (str_eq k "") && not (same_some str_eq (some k) p.document_key)
]

abbrev pub bumped : Bool → Patent → Patent
bumped true p = record p { version = p.version + 1 }
bumped false p = p

abbrev pub not_editable : String → String
not_editable status = "A patent with status \"" & status & "\" cannot be edited"

abbrev pub category_row : ℕ → ℕ → PatentCategory
category_row patent_id category_id = record { patent_id = patent_id; category_id = category_id }

abbrev pub inventor_row : ℕ → ResolvedLink → PatentInventor
inventor_row patent_id link = record {
  patent_id = patent_id;
  inventor_id = link.inventor_id;
  inventor_order = link.inventor_order;
}

-- The row of a new patent, for the id that the database gives it.
unfoldable pub new_patent : ℕ → CreateInput → ℕ → ℕ → Patent
new_patent now i submitted_by id = record {
  id = id;
  title = i.title;
  abstract = i.abstract;
  specification = i.specification;
  document_key = some i.document_key;
  version = 1;
  publication_number = or_null i.publication_number;
  jurisdiction = or_null i.jurisdiction;
  status = draft;
  submitted_by = submitted_by;
  submitted_at = none;
  reviewed_at = none;
  created_at = now;
}

module _ (prisma : Prisma) where
  unfoldable pub assert_publication_number_free : Option String → Option ℕ → Exec State (Unit {0})
  assert_publication_number_free none except_id = pure tt
  assert_publication_number_free (some n) except_id = if str_eq n "" then pure tt else (do
    clash ← gets (λ s. prisma.find_first (publication_is n) s.patents)
    if taken_by_other clash except_id
        then throw (conflict "A patent with that publication number already exists")
        else pure tt)

  abbrev pub create_patent_row : (ℕ → Patent) → Exec State Patent
  create_patent_row mk s = elim (prisma.create patent_clash mk s.patents) [
    | ok (p, t) ↦ (ok p, record s { patents = t })
    | err e ↦ (err e, s)
  ]

  abbrev pub create_categories : List PatentCategory → Exec State (Unit {0})
  create_categories rows s =
      elim (prisma.create_many patent_category_clash rows s.patent_categories) [
        | ok t ↦ (ok tt, record s { patent_categories = t })
        | err e ↦ (err e, s)
      ]

  abbrev pub create_inventors : List PatentInventor → Exec State (Unit {0})
  create_inventors rows s =
      elim (prisma.create_many patent_inventor_clash rows s.patent_inventors) [
        | ok t ↦ (ok tt, record s { patent_inventors = t })
        | err e ↦ (err e, s)
      ]

  -- `patent.create` with nested creates: one atomic write.
  unfoldable pub create_body : (ℕ → Patent) → List ℕ → List ResolvedLink → Exec State PatentDetail
  create_body mk category_ids inventor_links = do
    p ← create_patent_row mk
    create_categories (map (category_row p.id) category_ids)
    create_inventors (map (inventor_row p.id) inventor_links)
    gets (λ s. load_detail prisma s p)

  unfoldable pub create_tx : (ℕ → Patent) → List ℕ → List ResolvedLink → Exec State PatentDetail
  unfolding create_body
  create_tx mk category_ids inventor_links =
      transaction (create_body mk category_ids inventor_links)

  module _ (storage : ObjectStorage) (config : Config) where
    unfoldable pub create_patent : CreateInput → Caller → Moment → Exec State PatentDetail
    unfolding create_tx new_patent verify_document assert_publication_number_free
    create_patent input caller m = do
      verify_document prisma storage config input.document_key caller.user_id none
      inventor_links ← resolve_inventor_links prisma input.inventors
      category_ids ← resolve_category_ids prisma input.category_ids
      assert_publication_number_free input.publication_number none
      create_tx (new_patent m.now input caller.user_id) category_ids inventor_links
