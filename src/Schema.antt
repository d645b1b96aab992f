-- ===== src/Schema.antt =====
-- prisma/schema.prisma: the enumerations, the rows of the tables, the unique constraints, and the
-- state that all handlers share. Ids are BIGINT, times are milliseconds; a nullable column is an
-- `Option`.
use smart_patents_storage_sy.Prelude.{
  ℕ, String, Bool, ◌&&◌, ◌||◌, Option, List, ◌==◌, str_eq, same_some,
}
use smart_patents_storage_sy.Prelude.Int.{ℤ}

pub data Role : Type 0 where
  user admin : Role

pub data PatentStatus : Type 0 where
  pending_ai pending_admin approved declined draft : PatentStatus

pub data ReviewStage : Type 0 where
  ai_filter admin_review : ReviewStage

pub data ReviewDecision : Type 0 where
  pass fail flagged : ReviewDecision

pub record User : Type 0 where
  pub id : ℕ
  pub name : String
  pub email : String
  pub password_hash : String
  pub role : Role
  pub created_by : Option ℕ
  pub created_at : ℕ

pub record RefreshToken : Type 0 where
  pub id : ℕ
  pub user_id : ℕ
  pub token_hash : String
  pub rotated_at : Option ℕ
  pub revoked_at : Option ℕ
  pub expires_at : ℕ

pub record Patent : Type 0 where
  pub id : ℕ
  pub title : String
  pub abstract : String
  pub specification : String
  pub document_key : Option String
  pub version : ℕ
  pub publication_number : Option String
  pub jurisdiction : Option String
  pub status : PatentStatus
  pub submitted_by : ℕ
  pub submitted_at : Option ℕ
  pub reviewed_at : Option ℕ
  pub created_at : ℕ

pub record PatentReview : Type 0 where
  pub id : ℕ
  pub patent_id : ℕ
  pub reviewer_id : Option ℕ
  pub review_stage : ReviewStage
  pub decision : Option ReviewDecision
  pub comments : Option String
  pub created_at : ℕ

pub record Inventor : Type 0 where
  pub id : ℕ
  pub user_id : Option ℕ
  pub full_name : String
  pub email : String
  pub organization : Option String
  pub created_at : ℕ

pub record PatentInventor : Type 0 where
  pub patent_id : ℕ
  pub inventor_id : ℕ
  pub inventor_order : ℤ

pub record Category : Type 0 where
  pub id : ℕ
  pub name : String

pub record PatentCategory : Type 0 where
  pub patent_id : ℕ
  pub category_id : ℕ

-- `@unique` columns and `@id`s of the tables.
abbrev pub patent_clash : Patent → Patent → Bool
patent_clash p q =
    p.id == q.id
    || same_some str_eq p.document_key q.document_key
    || same_some str_eq p.publication_number q.publication_number

abbrev pub review_clash : PatentReview → PatentReview → Bool
review_clash r t = r.id == t.id

abbrev pub patent_inventor_clash : PatentInventor → PatentInventor → Bool
patent_inventor_clash r t = r.patent_id == t.patent_id && r.inventor_id == t.inventor_id

abbrev pub patent_category_clash : PatentCategory → PatentCategory → Bool
patent_category_clash r t = r.patent_id == t.patent_id && r.category_id == t.category_id

abbrev pub user_clash : User → User → Bool
user_clash u v = u.id == v.id || str_eq u.email v.email

abbrev pub refresh_token_clash : RefreshToken → RefreshToken → Bool
refresh_token_clash r t = r.id == t.id || str_eq r.token_hash t.token_hash

-- A patent with the relations of `PATENT_INCLUDE` (src/services/patents/access.js).
pub record Party : Type 0 where
  pub id : ℕ
  pub name : String
  pub email : String

pub record InventorLink : Type 0 where
  pub inventor : Inventor
  pub inventor_order : ℤ

pub record PatentDetail : Type 0 where
  pub patent : Patent
  pub open patent use *
  pub submitter : Option Party
  pub categories : List Category
  pub inventors : List InventorLink
