-- ===== src/Controllers/Reply.antt =====
-- What a handler of src/controllers does with the result of a service: `sendSuccess`, or `next(error)`.
use smart_patents_storage_sy.Prelude.{ℕ, String, Option, none, some}
use smart_patents_storage_sy.Errors.{Error, other}
use smart_patents_storage_sy.Exec.{Exec, Result, ok, err}
use smart_patents_storage_sy.State.{State}
use smart_patents_storage_sy.Schema.{PatentDetail}
use smart_patents_storage_sy.Patents.Access.{Caller}
use smart_patents_storage_sy.Patents.Review.{null_property}
use smart_patents_storage_sy.Dto.{PatentDetailDto, to_patent_detail_dto}

pub data Reply (B : Type 0) : Type 0 where
  sent : ℕ → B → Reply B
  passed_on : Error → Reply B

-- The body of a response that only says what was done.
pub record Notice : Type 0 where
  pub message : String

abbrev pub replied : {B : Type 0} → ℕ → Result B → Reply B
replied status (ok b) = sent status b
replied status (err e) = passed_on e

module _ {A B : Type 0} where
  abbrev pub shaped : ℕ → (A → Result B) → Result A → Reply B
  shaped status shape (ok a) = replied status (shape a)
  shaped status shape (err e) = passed_on e

  -- `try { ...; sendSuccess(res, status, shape(result)) } catch (error) { next(error) }`
  abbrev pub handle : ℕ → (A → Result B) → Exec State A → State → Reply B × State
  handle status shape service s = (shaped status shape (service s).0, (service s).1)

abbrev pub with_detail : Caller → PatentDetail → Result PatentDetailDto
with_detail caller p = ok (to_patent_detail_dto p (some caller))

-- The mapper reads `id` first, also of a null.
abbrev pub with_optional_detail : Caller → Option PatentDetail → Result PatentDetailDto
with_optional_detail caller none = err (other (null_property "id"))
with_optional_detail caller (some p) = with_detail caller p
