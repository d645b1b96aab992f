-- ===== src/Controllers/Examples.antt =====
-- Tests of the handlers.
use smart_patents_storage_sy.Prelude.{◌≡◌, refl, true}
use smart_patents_storage_sy.Prelude.Decimal.{big_int}
use smart_patents_storage_sy.Errors.{not_found}
use smart_patents_storage_sy.Prisma.Memory.{memory}
use smart_patents_storage_sy.Schema.{Role, draft}
use smart_patents_storage_sy.Patents.Access.{Caller, visibility_where}
use smart_patents_storage_sy.Patents.Lifecycle.Applied.{patent_at}
use smart_patents_storage_sy.Controllers.Reply.{passed_on}
use smart_patents_storage_sy.Controllers.Patents.{handle_get_patent_by_id, handle_get_document_url}
use smart_patents_storage_sy.Controllers.Privacy.{unseen, get_patent_by_id-hides}
use smart_patents_storage_sy.Samples.{config, moment, state_with, quiet_storage}

abbrev stranger : Caller
stranger = record { user_id = 8; role = Role.user }

hidden_draft : unseen stranger (patent_at (big_int "1") (state_with draft)) ≡ true
unfolding visibility_where big_int
hidden_draft = refl

get_patent_by_id-hides_example :
    (handle_get_patent_by_id memory quiet_storage config stranger moment "1" (state_with draft)
      ≡ (passed_on (not_found "Patent not found"), state_with draft))
    × (handle_get_document_url memory quiet_storage config stranger moment "1" (state_with draft)
        ≡ (passed_on (not_found "Patent not found"), state_with draft))
get_patent_by_id-hides_example =
    get_patent_by_id-hides memory quiet_storage config stranger moment "1" (state_with draft) refl
      hidden_draft
