-- ===== src/Dto/Privacy.antt =====
-- Which email addresses a response about a patent tells its reader.
use mathlib.Core.Option
use smart_patents_storage_sy.Prelude.{
  ℕ, ◌≡◌, refl, String, Bool, false, Option, none, some, ◌==◌, arith,
}
use smart_patents_storage_sy.Schema.{Party, PatentDetail}
use smart_patents_storage_sy.Patents.Access.{Caller, is_admin}
use smart_patents_storage_sy.Dto.{can_see_email_of, party_dto, to_patent_dto, to_patent_detail_dto}

-- The patent with another email address of its submitter.
abbrev pub with_submitter_email : String → PatentDetail → PatentDetail
with_submitter_email email p = record p {
  submitter = Option.map (λ (u : Party). record u { email = email }) p.submitter;
}

abbrev pub submitter_is : ℕ → Option Party → Bool
submitter_is id none = false
submitter_is id (some u) = id == u.id

hidden :
    (viewer : Caller) (email : String) (o : Option Party)
    → is_admin viewer ≡ false
    → submitter_is viewer.user_id o ≡ false
    → Option.map
        (party_dto (some viewer))
        (Option.map (λ (u : Party). record u { email = email }) o)
      ≡ Option.map (party_dto (some viewer)) o
unfolding party_dto can_see_email_of
hidden viewer email none plain other = refl
hidden viewer email (some u) plain other = ground arith

-- The detail of a patent shows the submitter's email address to an admin and to the submitter only:
-- for any other viewer the response is the same whatever that address is.
pub to_patent_detail_dto-hides_submitter :
    (p : PatentDetail) (viewer : Caller) (email : String)
    → is_admin viewer ≡ false
    → submitter_is viewer.user_id p.submitter ≡ false
    → to_patent_detail_dto (with_submitter_email email p) (some viewer)
      ≡ to_patent_detail_dto p (some viewer)
unfolding to_patent_detail_dto to_patent_dto
to_patent_detail_dto-hides_submitter p viewer email plain other =
    rw (hidden viewer email p.submitter plain other) refl
