-- ===== src/Events.antt =====
-- src/events/patentEvents.js: the events that this service publishes about patents. The random
-- event id and the time are arguments; the categories and the inventors are those of the loaded
-- relations.
use smart_patents_storage_sy.Prelude.{ℕ, String, Option, List, map}
use smart_patents_storage_sy.Prelude.Int.{ℤ, leb_ℤ}
use smart_patents_storage_sy.Prelude.Sort.{sort}
use smart_patents_storage_sy.Schema.{PatentDetail, InventorLink}

pub record EventInventor : Type 0 where
  pub id : ℕ
  pub full_name : String
  pub organization : Option String
  pub order : ℤ

pub record Upserted : Type 0 where
  pub event_id : String
  pub patent_id : ℕ
  pub version : ℕ
  pub title : String
  pub abstract : String
  pub specification : String
  pub publication_number : Option String
  pub jurisdiction : Option String
  pub categories : List String
  pub inventors : List EventInventor
  pub document_key : Option String
  pub submitted_by : ℕ
  pub occurred_at : ℕ

pub record Withdrawn : Type 0 where
  pub event_id : String
  pub patent_id : ℕ
  pub version : ℕ
  pub reason : String
  pub occurred_at : ℕ

-- The two shapes of a payload, told apart by `event_type`.
pub data PatentEvent : Type 0 where
  upserted : Upserted → PatentEvent
  withdrawn : Withdrawn → PatentEvent

abbrev pub aggregate_type : String
aggregate_type = "patent"

abbrev pub event_type : PatentEvent → String
event_type (upserted _) = "PatentVersionUpserted"
event_type (withdrawn _) = "PatentVersionWithdrawn"

event_inventor : InventorLink → EventInventor
event_inventor link = record {
  id = link.inventor.id;
  full_name = link.inventor.full_name;
  organization = link.inventor.organization;
  order = link.inventor_order;
}

unfoldable pub patent_version_upserted : String → ℕ → PatentDetail → PatentEvent
unfolding event_inventor
patent_version_upserted uuid now patent = upserted (record {
  event_id = uuid;
  patent_id = patent.id;
  version = patent.version;
  title = patent.title;
  abstract = patent.abstract;
  specification = patent.specification;
  publication_number = patent.publication_number;
  jurisdiction = patent.jurisdiction;
  categories = map (λ c. c.name) patent.categories;
  inventors =
      map event_inventor (sort (λ a b. leb_ℤ a.inventor_order b.inventor_order) patent.inventors);
  document_key = patent.document_key;
  submitted_by = patent.submitted_by;
  occurred_at = now;
})

unfoldable pub patent_version_withdrawn : String → ℕ → PatentDetail → String → PatentEvent
patent_version_withdrawn uuid now patent reason = withdrawn (record {
  event_id = uuid;
  patent_id = patent.id;
  version = patent.version;
  reason = reason;
  occurred_at = now;
})
