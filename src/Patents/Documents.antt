-- ===== src/Patents/Documents.antt =====
-- src/services/patents/documents.js: the document side of a patent.
use smart_patents_storage_sy.Prelude.{
  ℕ, ◌+◌, ◌*◌, String, Bool, true, false, not, Option, none, some, ◌==◌, str_eq, ltb, if◌then◌else◌,
}
use smart_patents_storage_sy.Prelude.Decimal.{◌&◌, decimal}
use smart_patents_storage_sy.Errors.{bad_request, conflict, not_found}
use smart_patents_storage_sy.Exec.{Exec, pure, throw, gets, ◌>>=◌, ◌>>◌}
use smart_patents_storage_sy.Prisma.{Prisma}
use smart_patents_storage_sy.Schema.{Patent, PatentDetail}
use smart_patents_storage_sy.State.{State, StoredObject}
use smart_patents_storage_sy.Storage.{
  Config, ObjectStorage, key_belongs_to_user, head_object, delete_object,
}

abbrev pub has_key : String → Patent → Bool
has_key object_key p = elim p.document_key [ none ↦ false | some k ↦ str_eq k object_key ]

-- `attached && attached.id !== allowPatentId`
abbrev pub taken_by_other : Option Patent → Option ℕ → Bool
taken_by_other none allowed = false
taken_by_other (some p) none = true
taken_by_other (some p) (some id) = not (p.id == id)

pub record Download : Type 0 where
  pub download_url : String
  pub expires_at : ℕ

module _ (prisma : Prisma) (storage : ObjectStorage) (config : Config) where
  check_size : String → StoredObject → Exec State StoredObject
  check_size object_key head =
      if ltb config.max_upload_bytes head.size
      then (do
        delete_object storage (some object_key)
        throw (
            bad_request (
              "Uploaded document is "
              & decimal head.size
              & " bytes; the maximum is "
              & decimal config.max_upload_bytes)))
      else pure head

  unfoldable pub verify_document : String → ℕ → Option ℕ → Exec State StoredObject
  unfolding check_size head_object delete_object
  verify_document object_key user_id allow_patent_id =
      if not (key_belongs_to_user object_key user_id)
      then throw
          (bad_request "documentKey was not issued to you; request one from POST /patents/uploads")
      else (do
        attached ← gets (λ s. prisma.find_first (has_key object_key) s.patents)
        if taken_by_other attached allow_patent_id
            then throw (conflict "That document is already attached to another patent")
            else (do
              head ← head_object storage object_key
              elim head [
                | none ↦ throw (bad_request "No uploaded document found for that documentKey")
                | some o ↦ check_size object_key o
              ]))

  unfoldable pub presign_download : ℕ → PatentDetail → Exec State Download
  presign_download now patent = elim patent.document_key [
    | none ↦ throw (not_found "This patent has no attached document")
    | some key ↦ pure (record {
      download_url = storage.sign_download key;
      expires_at = now + config.download_url_ttl_seconds * 1000;
    })
  ]
