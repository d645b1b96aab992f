-- ===== src/State.antt =====
-- The state that the handlers share: the tables of the database and the objects of the bucket.
use smart_patents_storage_sy.Prelude.{ℕ, String, Bool, Option, List, ◌==◌}
use smart_patents_storage_sy.Prisma.{Table}
use smart_patents_storage_sy.Schema.{
  User, RefreshToken, Patent, PatentReview, Inventor, PatentInventor, Category, PatentCategory,
}
use smart_patents_storage_sy.Events.{PatentEvent}

pub record OutboxEvent : Type 0 where
  pub id : ℕ
  pub aggregate_type : String
  pub aggregate_id : ℕ
  pub event_type : String
  pub payload : PatentEvent
  pub created_at : ℕ
  pub published_at : Option ℕ
  pub claimed_at : Option ℕ
  pub attempts : ℕ
  pub last_error : Option String

abbrev pub outbox_clash : OutboxEvent → OutboxEvent → Bool
outbox_clash e f = e.id == f.id

-- An object of the bucket, as a HEAD request reports it.
pub record StoredObject : Type 0 where
  pub key : String
  pub size : ℕ
  pub content_type : String

pub record State : Type 0 where
  pub users : Table User
  pub refresh_tokens : Table RefreshToken
  pub patents : Table Patent
  pub patent_reviews : Table PatentReview
  pub inventors : Table Inventor
  pub patent_inventors : Table PatentInventor
  pub categories : Table Category
  pub patent_categories : Table PatentCategory
  pub outbox : Table OutboxEvent
  pub bucket : List StoredObject
