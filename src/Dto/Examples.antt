-- ===== src/Dto/Examples.antt =====
-- Tests of what a response shows.
use smart_patents_storage_sy.Prelude.{◌≡◌, refl, some, map, ◌∷◌, []}
use smart_patents_storage_sy.Prelude.Int.{pos}
use smart_patents_storage_sy.Schema.{Role, PatentDetail, approved}
use smart_patents_storage_sy.Patents.Access.{Caller}
use smart_patents_storage_sy.Dto.{to_patent_dto, to_patent_detail_dto}
use smart_patents_storage_sy.Dto.Privacy.{
  with_submitter_email, to_patent_detail_dto-hides_submitter,
}
use smart_patents_storage_sy.Samples.{patent_with, inventor}

abbrev detail : PatentDetail
detail = record {
  patent = patent_with approved;
  submitter = some (record { id = 5; name = "Ada"; email = "ada@x" });
  categories = [];
  inventors = record { inventor = inventor; inventor_order = pos 1 } ∷ [];
}

abbrev reader : Caller
reader = record { user_id = 8; role = Role.user }

to_patent_detail_dto-hides_submitter_example :
    to_patent_detail_dto (with_submitter_email "other@x" detail) (some reader)
    ≡ to_patent_detail_dto detail (some reader)
to_patent_detail_dto-hides_submitter_example =
    to_patent_detail_dto-hides_submitter detail reader "other@x" refl refl

inventor_shown :
    map (λ l. l.inventor.email) (to_patent_dto detail (some reader)).inventors ≡ some "ada@x" ∷ []
unfolding to_patent_dto
inventor_shown = refl
