-- ===== src/Dto/Reviews.antt =====
-- src/utils/dto.js: the review history and the profile. The score of the AI stage is left out.
use mathlib.Core.Option
use smart_patents_storage_sy.Prelude.{ℕ, String, Option}
use smart_patents_storage_sy.Prelude.Decimal.{decimal}
use smart_patents_storage_sy.Schema.{ReviewStage, ReviewDecision}
use smart_patents_storage_sy.Patents.Access.{Caller}
use smart_patents_storage_sy.Patents.Reads.{ReviewDetail}
use smart_patents_storage_sy.Users.Accounts.{Profile}
use smart_patents_storage_sy.Dto.{
  UserDto, InventorDto, PartyDto, to_user_dto, to_inventor_dto, party_dto,
}

pub record ReviewDto : Type 0 where
  pub id : String
  pub patent_id : String
  pub stage : ReviewStage
  pub decision : Option ReviewDecision
  pub comments : Option String
  pub reviewer : Option PartyDto
  pub created_at : ℕ

unfoldable pub to_patent_review_dto : ReviewDetail → Option Caller → ReviewDto
unfolding party_dto
to_patent_review_dto r viewer = record {
  id = decimal r.review.id;
  patent_id = decimal r.review.patent_id;
  stage = r.review.review_stage;
  decision = r.review.decision;
  comments = r.review.comments;
  reviewer = Option.map (party_dto viewer) r.reviewer;
  created_at = r.review.created_at;
}

pub record ProfileDto : Type 0 where
  pub user : UserDto
  pub inventor_profile : Option InventorDto

unfoldable pub to_profile_dto : Profile → ProfileDto
to_profile_dto p = record {
  user = to_user_dto p.user;
  inventor_profile = Option.map to_inventor_dto p.inventor_profile;
}
