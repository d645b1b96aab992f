-- ===== src/Controllers/Privacy.antt =====
-- What the responses of the patent handlers tell about patents that a caller may not see.

use smart_patents_storage_sy.Prelude.{
  ℕ, ◌≡◌, refl, String, Bool, true, false, Option, none, some, arith, if◌then◌else◌, Option-cases,
  inl, inr,
}
use smart_patents_storage_sy.Prelude.Decimal.{big_int}
use smart_patents_storage_sy.Errors.{not_found}
use smart_patents_storage_sy.Exec.{err}
use smart_patents_storage_sy.Prisma.{Prisma}
use smart_patents_storage_sy.Schema.{Patent}
use smart_patents_storage_sy.State.{State}
use smart_patents_storage_sy.Storage.{Config, ObjectStorage}
use smart_patents_storage_sy.Patents.Access.{Caller, visibility_where, find_visible_patent}
use smart_patents_storage_sy.Patents.Access.Visibility.{find_visible_patent-eq}
use smart_patents_storage_sy.Patents.Lifecycle.Applied.{IsUnique, patent_at}
use smart_patents_storage_sy.Patents.Review.{Moment}
use smart_patents_storage_sy.Patents.Reads.{get_document_url}
use smart_patents_storage_sy.Controllers.Reply.{passed_on}
use smart_patents_storage_sy.Controllers.Patents.{handle_get_patent_by_id, handle_get_document_url}

-- The caller sees no patent with this id: there is none, or it is hidden.
abbrev pub unseen : Caller → Option Patent → Bool
unseen caller none = true
unseen caller (some p) = if visibility_where caller p then false else true

module _ (prisma : Prisma) (storage : ObjectStorage) (config : Config) (caller : Caller)
    (m : Moment) where
  hidden_read :
      (id : ℕ) (s : State)
      → IsUnique s
      → unseen caller (patent_at id s) ≡ true
      → find_visible_patent prisma id caller s ≡ (err (not_found "Patent not found"), s)
  hidden_read id s u h =
      let seen = find_visible_patent-eq prisma id caller s u in
      elim (Option-cases (patent_at id s)) [
        | inl gone ↦ ground arith
        | inr (p, there) ↦ ground arith
      ]

  -- Both reads of a patent by id, its detail and its document, give a caller who may not see it the
  -- 404 that a missing patent gives, and change nothing.
  pub get_patent_by_id-hides :
      (id : String) (s : State)
      → IsUnique s
      → unseen caller (patent_at (big_int id) s) ≡ true
      → (handle_get_patent_by_id prisma storage config caller m id s
          ≡ (passed_on (not_found "Patent not found"), s))
        × (handle_get_document_url prisma storage config caller m id s
            ≡ (passed_on (not_found "Patent not found"), s))
  unfolding handle_get_patent_by_id handle_get_document_url get_document_url
  get_patent_by_id-hides id s u h =
      let read = hidden_read (big_int id) s u h in (rw read refl, rw read refl)
