-- ===== src/Storage.antt =====
-- src/services/storageService.js: object keys and the calls of the object storage, which is an
-- interface (`@aws-sdk/client-s3`).
use smart_patents_storage_sy.Prelude.{ℕ, String, Bool, Option, none, some, List}
pub mod Filename
pub mod Examples
use text.Mathlib.Text.{starts_with}
use smart_patents_storage_sy.Prelude.Decimal.{◌&◌, decimal}
use smart_patents_storage_sy.Errors.{other}
use smart_patents_storage_sy.Exec.{Exec, Result, ok, err}
use smart_patents_storage_sy.State.{State, StoredObject}

-- The part of src/config/env.js that the services read.
pub record Config : Type 0 where
  pub max_upload_bytes : ℕ
  pub upload_url_ttl_seconds : ℕ
  pub download_url_ttl_seconds : ℕ
  pub allowed_upload_types : List String
  pub outbox_batch_size : ℕ
  pub outbox_max_attempts : ℕ
  pub refresh_token_ttl_days : ℕ

-- A HEAD request finds the object, does not find it (404), or fails with a message.
pub data Head : Type 0 where
  found : StoredObject → Head
  missing : Head
  fault : String → Head

-- A HEAD request finds the bucket, does not find it (404 or `NotFound`), or fails with a message.
pub data HeadBucket : Type 0 where
  present : HeadBucket
  absent : HeadBucket
  bucket_fault : String → HeadBucket

-- A DELETE request gives the bucket that it leaves, or fails.
pub record ObjectStorage : Type 0 where
  pub head : String → List StoredObject → Head
  pub delete : String → List StoredObject → Option (List StoredObject)
  pub head_bucket : List StoredObject → HeadBucket
  pub create_bucket : List StoredObject → Result (Unit {0})
  pub sign_upload : String → String → String
  pub sign_download : String → String

unfoldable pub object_prefix : ℕ → String
object_prefix user_id = "patents/" & decimal user_id & "/"

unfoldable pub build_object_key : ℕ → String → String → String
unfolding object_prefix
build_object_key user_id uuid name = object_prefix user_id & uuid & "/" & name

unfoldable pub key_belongs_to_user : String → ℕ → Bool
unfolding object_prefix
key_belongs_to_user object_key user_id = starts_with object_key (object_prefix user_id)

pub record Upload : Type 0 where
  pub upload_url : String
  pub object_key : String
  pub content_type : String
  pub max_bytes : ℕ
  pub expires_at : ℕ

module _ (storage : ObjectStorage) where
  -- A new bucket holds no object, and before it is there no object is stored: the objects stay as they
  -- are.
  unfoldable pub ensure_bucket : Exec State (Unit {0})
  ensure_bucket s = elim (storage.head_bucket s.bucket) [
    | present ↦ (ok tt, s)
    | absent ↦ (storage.create_bucket s.bucket, s)
    | bucket_fault message ↦ (err (other message), s)
  ]

  unfoldable pub head_object : String → Exec State (Option StoredObject)
  head_object object_key s = elim (storage.head object_key s.bucket) [
    | found o ↦ (ok (some o), s)
    | missing ↦ (ok none, s)
    | fault message ↦ (err (other message), s)
  ]

  -- A failed delete is logged and forgotten.
  unfoldable pub delete_object : Option String → Exec State (Unit {0})
  delete_object none s = (ok tt, s)
  delete_object (some object_key) s = elim (storage.delete object_key s.bucket) [
    | none ↦ (ok tt, s)
    | some bucket ↦ (ok tt, record s { bucket = bucket })
  ]
