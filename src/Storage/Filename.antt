-- ===== src/Storage/Filename.antt =====
-- src/services/storageService.js: a client's file name as the last part of an object key, and the
-- presigned upload.
pub mod Safe
use Prim.Native.Char.{Char, code}
use Prim.Native.String
use smart_patents_storage_sy.Prelude.{
  ℕ, suc, zero, ◌+◌, ◌*◌, String, Bool, true, false, ◌&&◌, ◌||◌, not, Option, none, some, List, any,
  str_eq, leb, ltb, ◌==◌, if◌then◌else◌,
}
use smart_patents_storage_sy.Prelude.Decimal.{◌&◌, join}
use smart_patents_storage_sy.Errors.{bad_request}
use smart_patents_storage_sy.Exec.{Exec, lift, pure, throw, ◌>>=◌, ◌>>◌}
use smart_patents_storage_sy.State.{State}
use smart_patents_storage_sy.Storage.{
  Config, ObjectStorage, Upload, build_object_key, ensure_bucket,
}

abbrev pub slash : ℕ
slash = 47

abbrev pub dot : ℕ
dot = 46

abbrev pub within : ℕ → ℕ → ℕ → Bool
within low high n = leb low n && leb n high

abbrev pub underscore : Char
underscore = Char.char 95 tt

-- `[A-Za-z0-9._-]`
abbrev pub allowed : Char → Bool
allowed c =
    within 65 90 (code c)
    || within 97 122 (code c)
    || within 48 57 (code c)
    || code c == 46
    || code c == 95
    || code c == 45

-- The last part of the path that is not empty, from the part read so far and the last one before it.
unfoldable pub last_part : String → String → String → String
last_part current last String.[] = if str_eq current "" then last else current
last_part current last (String.◌∷◌ c s) =
    if code c == slash
    then last_part "" (if str_eq current "" then last else current) s
    else last_part (current & String.◌∷◌ c "") last s

-- `path.basename`
unfoldable pub basename : String → String
unfolding last_part
basename s = last_part "" "" s

-- `.replace(/[^A-Za-z0-9._-]/g, underscore)` works on UTF-16 code units: a character outside the basic plane
-- is two.
unfoldable pub clean : String → String
clean String.[] = ""
clean (String.◌∷◌ c s) =
    let rest = clean s in
    if allowed c
    then String.◌∷◌ c rest
    else if ltb 65535 (code c)
    then String.◌∷◌ underscore (String.◌∷◌ underscore rest)
    else String.◌∷◌ underscore rest

-- `.replace(/^\.+/, '')`
unfoldable pub drop_dots : String → String
drop_dots String.[] = ""
drop_dots (String.◌∷◌ c s) =
    let rest = drop_dots s in if code c == dot then rest else String.◌∷◌ c s

-- `.slice(0, n)` of a text of ASCII characters
unfoldable pub slice : ℕ → String → String
slice zero s = ""
slice (suc n) String.[] = ""
slice (suc n) (String.◌∷◌ c s) = String.◌∷◌ c (slice n s)

abbrev pub or_document : String → String
or_document s = if str_eq s "" then "document" else s

unfoldable pub sanitise_filename : String → String
unfolding basename clean drop_dots slice
sanitise_filename filename =
    slice 120 (or_document (drop_dots (clean (basename (or_document filename)))))

module _ (storage : ObjectStorage) (config : Config) where
  unfoldable pub presign_upload : ℕ → String → ℕ → String → String → Exec State Upload
  unfolding sanitise_filename build_object_key ensure_bucket
  presign_upload now uuid user_id filename content_type =
      if not (any (str_eq content_type) config.allowed_upload_types)
      then throw (
          bad_request (
            "Unsupported content type \""
            & content_type
            & "\". Allowed: "
            & join ", " config.allowed_upload_types))
      else (do
        ensure_bucket storage
        let object_key = build_object_key user_id uuid (sanitise_filename filename)
        pure (record {
          upload_url = storage.sign_upload object_key content_type;
          object_key = object_key;
          content_type = content_type;
          max_bytes = config.max_upload_bytes;
          expires_at = now + config.upload_url_ttl_seconds * 1000;
        }))
