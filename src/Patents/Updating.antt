-- ===== src/Patents/Updating.antt =====
-- src/services/patentService.js: `updatePatent`.
pub mod Versions
use smart_patents_storage_sy.Prelude.{
  ℕ, String, Bool, ◌&&◌, not, Option, none, some, List, map, ◌==◌, if◌then◌else◌,
}
use smart_patents_storage_sy.Errors.{conflict}
use smart_patents_storage_sy.Exec.{Exec, pure, throw, gets, transaction, ◌>>=◌, ◌>>◌}
use smart_patents_storage_sy.Prisma.{Prisma}
use smart_patents_storage_sy.Schema.{Patent, PatentDetail}
use smart_patents_storage_sy.State.{State}
use smart_patents_storage_sy.Storage.{Config, ObjectStorage, delete_object}
use smart_patents_storage_sy.Patents.Rows.{
  find_detail, update_patents, delete_category_links, delete_inventor_links,
}
use smart_patents_storage_sy.Patents.Lifecycle.{includes, editable_statuses, status_text}
use smart_patents_storage_sy.Patents.Access.{Caller, find_owned_patent}
use smart_patents_storage_sy.Patents.Relations.{
  ResolvedLink, resolve_inventor_links, resolve_category_ids,
}
use smart_patents_storage_sy.Patents.Documents.{verify_document}
use smart_patents_storage_sy.Patents.Review.{status_or_undefined}
use smart_patents_storage_sy.Patents.Editing.{
  Updates, with_scalars, bumped, content_changed, replacing_document, not_editable, category_row,
  inventor_row, create_categories, create_inventors, assert_publication_number_free,
}

-- `updates.publicationNumber`, where undefined and null both count as not given
abbrev flat : Option (Option String) → Option String
flat none = none
flat (some o) = o

-- `value !== undefined ? await f(value) : null`
abbrev when_given : {A B : Type 0} → (A → Exec State B) → Option A → Exec State (Option B)
when_given f none = pure none
when_given f (some a) = do b ← f a; pure (some b)

-- The condition and the data of `patent.updateMany`.
abbrev pub is_editable_at : ℕ → Patent → Bool
is_editable_at id p = p.id == id && includes editable_statuses p.status

abbrev pub edited : Updates → Bool → Patent → Patent
edited updates changed p = bumped changed (with_scalars updates p)

module _ (prisma : Prisma) where
  abbrev replace_categories : ℕ → Option (List ℕ) → Exec State (Unit {0})
  replace_categories id none = pure tt
  replace_categories id (some ids) = do
    delete_category_links prisma id
    create_categories prisma (map (category_row id) ids)

  abbrev replace_inventors : ℕ → Option (List ResolvedLink) → Exec State (Unit {0})
  replace_inventors id none = pure tt
  replace_inventors id (some links) = do
    delete_inventor_links prisma id
    create_inventors prisma (map (inventor_row id) links)

  -- `changed` was decided on the patent that was read before the transaction.
  unfoldable pub update_body :
      ℕ
      → Updates
      → Bool
      → Option (List ResolvedLink)
      → Option (List ℕ)
      → Exec State (Option PatentDetail)
  update_body id updates changed inventor_links category_ids = do
    count ← update_patents prisma (is_editable_at id) (edited updates changed)
    if count == 0
        then (do
          current ← gets (λ s. prisma.find_first (λ p. p.id == id) s.patents)
          throw (conflict (not_editable (status_or_undefined current))))
        else (do
          replace_categories id category_ids
          replace_inventors id inventor_links
          find_detail prisma id)

  unfoldable pub update_tx :
      ℕ
      → Updates
      → Bool
      → Option (List ResolvedLink)
      → Option (List ℕ)
      → Exec State (Option PatentDetail)
  unfolding update_body
  update_tx id updates changed inventor_links category_ids =
      transaction (update_body id updates changed inventor_links category_ids)

  module _ (storage : ObjectStorage) (config : Config) where
    abbrev verify_replacement : Updates → PatentDetail → Caller → Exec State (Unit {0})
    verify_replacement updates patent caller = elim updates.document_key [
      | none ↦ pure tt
      | some key ↦
          if replacing_document updates patent.patent
          then (do
            verify_document prisma storage config key caller.user_id (some patent.id)
            pure tt)
          else pure tt
    ]

    unfoldable pub update_patent : ℕ → Updates → Caller → Exec State (Option PatentDetail)
    unfolding update_tx content_changed replacing_document verify_document
        assert_publication_number_free delete_object
    update_patent id updates caller = do
      patent ← find_owned_patent prisma id caller
      if not (includes editable_statuses patent.status)
          then throw (conflict (not_editable (status_text patent.status)))
          else (do
            verify_replacement updates patent caller
            assert_publication_number_free prisma (flat updates.publication_number) (some id)
            inventor_links ← when_given (resolve_inventor_links prisma) updates.inventors
            category_ids ← when_given (resolve_category_ids prisma) updates.category_ids
            updated ←
                update_tx id updates (content_changed updates patent.patent) inventor_links
                  category_ids
            if replacing_document updates patent.patent
                then (do delete_object storage patent.document_key; pure updated)
                else pure updated)
