-- ===== src/Dto.antt =====
-- src/utils/dto.js: what of a row a response shows to a viewer. A field that an object leaves out is
-- `none`. `updatedAt` is left out throughout.
pub mod Privacy
pub mod Reviews
pub mod Examples
use mathlib.Core.Option
use smart_patents_storage_sy.Prelude.{
  ℕ, String, Bool, true, false, ◌||◌, Option, none, some, List, map, ◌==◌, is_some, if◌then◌else◌,
}
use smart_patents_storage_sy.Prelude.Int.{ℤ}
use smart_patents_storage_sy.Prelude.Decimal.{decimal}
use smart_patents_storage_sy.Schema.{
  Role, User, Inventor, Category, Party, InventorLink, PatentDetail, PatentStatus,
}
use smart_patents_storage_sy.Patents.Access.{Caller, is_admin}

pub record UserDto : Type 0 where
  pub id : String
  pub name : String
  pub email : String
  pub role : Role
  pub created_at : ℕ

abbrev pub to_user_dto : User → UserDto
to_user_dto u = record {
  id = decimal u.id;
  name = u.name;
  email = u.email;
  role = u.role;
  created_at = u.created_at;
}

pub record AdminUserDto : Type 0 where
  pub user : UserDto
  pub open user use *
  pub created_by : Option String

abbrev pub to_admin_user_dto : User → AdminUserDto
to_admin_user_dto u = record { user = to_user_dto u; created_by = Option.map decimal u.created_by }

pub record InventorDto : Type 0 where
  pub id : String
  pub full_name : String
  pub email : Option String
  pub organization : Option String

abbrev pub to_inventor_dto : Inventor → InventorDto
to_inventor_dto i = record {
  id = decimal i.id;
  full_name = i.full_name;
  email = some i.email;
  organization = i.organization;
}

pub record PartyDto : Type 0 where
  pub id : String
  pub name : String
  pub email : Option String

pub record CategoryDto : Type 0 where
  pub id : String
  pub name : String

abbrev pub to_category_dto : Category → CategoryDto
to_category_dto c = record { id = decimal c.id; name = c.name }

-- `viewer` is `req.user`; none means no viewer.
unfoldable pub can_see_email_of : Option Caller → Option ℕ → Bool
can_see_email_of none subject = false
can_see_email_of (some viewer) none = is_admin viewer
can_see_email_of (some viewer) (some subject) = is_admin viewer || viewer.user_id == subject

unfoldable pub party_dto : Option Caller → Party → PartyDto
unfolding can_see_email_of
party_dto viewer p = record {
  id = decimal p.id;
  name = p.name;
  email = if can_see_email_of viewer (some p.id) then some p.email else none;
}

pub record InventorDetailDto : Type 0 where
  pub inventor : InventorDto
  pub linked_user : Option PartyDto
  pub created_at : ℕ

-- `user` is the linked account.
unfoldable pub to_inventor_detail_dto :
    Inventor → Option Party → Option Caller → Bool → InventorDetailDto
unfolding party_dto can_see_email_of
to_inventor_detail_dto i user viewer include_email = record {
  inventor = record (to_inventor_dto i) {
    email = if include_email || can_see_email_of viewer i.user_id then some i.email else none;
  };
  linked_user = Option.map (party_dto viewer) user;
  created_at = i.created_at;
}

pub record PatentInventorDto : Type 0 where
  pub inventor : InventorDto
  pub order : ℤ

abbrev pub to_patent_inventor_dto : InventorLink → PatentInventorDto
to_patent_inventor_dto l = record {
  inventor = to_inventor_dto l.inventor;
  order = l.inventor_order;
}

pub record PatentDto : Type 0 where
  pub id : String
  pub title : String
  pub abstract : String
  pub status : PatentStatus
  pub version : ℕ
  pub publication_number : Option String
  pub jurisdiction : Option String
  pub submitted_by : String
  pub submitter : Option PartyDto
  pub categories : List CategoryDto
  pub inventors : List PatentInventorDto
  pub has_document : Bool
  pub submitted_at : Option ℕ
  pub reviewed_at : Option ℕ
  pub created_at : ℕ

-- A document key is never the empty text.
unfoldable pub to_patent_dto : PatentDetail → Option Caller → PatentDto
unfolding party_dto
to_patent_dto p viewer = record {
  id = decimal p.id;
  title = p.title;
  abstract = p.abstract;
  status = p.status;
  version = p.version;
  publication_number = p.publication_number;
  jurisdiction = p.jurisdiction;
  submitted_by = decimal p.submitted_by;
  submitter = Option.map (party_dto viewer) p.submitter;
  categories = map to_category_dto p.categories;
  inventors = map to_patent_inventor_dto p.inventors;
  has_document = is_some p.document_key;
  submitted_at = p.submitted_at;
  reviewed_at = p.reviewed_at;
  created_at = p.created_at;
}

pub record PatentDetailDto : Type 0 where
  pub patent : PatentDto
  pub specification : String
  pub document_key : Option String

unfoldable pub to_patent_detail_dto : PatentDetail → Option Caller → PatentDetailDto
unfolding to_patent_dto
to_patent_detail_dto p viewer = record {
  patent = to_patent_dto p viewer;
  specification = p.specification;
  document_key = p.document_key;
}
