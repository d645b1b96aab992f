-- ===== src/Middlewares/Auth.antt =====
-- src/middlewares/auth.js: who the caller is, and which roles pass. `jwt.verify` is an interface over
-- the secret with which `signAccessToken` of src/utils/helpers.js signs.
pub mod Examples
pub mod Tokens
use smart_patents_storage_sy.Prelude.{
  ℕ, ◌+◌, ◌<◌, ◌≡◌, String, Bool, true, false, ◌&&◌, ◌||◌, not, Option, none, some, List, [], ◌∷◌,
  any, str_eq, if◌then◌else◌,
}
use smart_patents_storage_sy.Prelude.Decimal.{decimal, big_int}
use smart_patents_storage_sy.Prelude.Text.{
  all_chars, is_digit, is_space, chars, trim, drop_chars, has_prefix,
}
use smart_patents_storage_sy.Errors.{unauthorized, forbidden}
use smart_patents_storage_sy.Exec.{Result, ok, err}
use smart_patents_storage_sy.Schema.{Role}
use smart_patents_storage_sy.Patents.Access.{Caller}
use smart_patents_storage_sy.Users.Crypto.{Crypto, Claims}

-- The claims of a verified token; a claim may be missing.
pub record Decoded : Type 0 where
  pub sub : Option String
  pub role : Option Role

pub data Verified : Type 0 where
  decoded : Decoded → Verified
  rejected : String → Verified

-- `jwt.verify` at a time: it accepts what was signed until it expires, and only that; so a subject is
-- a text of digits. A signed token is a text without white space that is not empty.
pub record Jwt (crypto : Crypto) : Type 0 where
  pub ttl : ℕ
  pub verify_access_token : String → ℕ → Verified
  pub verify_sign :
      (claims : Claims) (signed now : ℕ)
      → now < signed + ttl
      → verify_access_token (crypto.sign_access_token claims signed) now
        ≡ decoded (record { sub = some (decimal claims.user_id); role = some claims.role })
  pub digits :
      (token sub : String) (now : ℕ) (d : Decoded)
      → verify_access_token token now ≡ decoded d
      → d.sub ≡ some sub
      → all_chars is_digit sub ≡ true
  pub plain :
      (claims : Claims) (signed : ℕ)
      → all_chars (λ c. not (is_space c)) (crypto.sign_access_token claims signed) ≡ true
  pub some_text :
      (claims : Claims) (signed : ℕ) → str_eq (crypto.sign_access_token claims signed) "" ≡ false

-- `req.headers.authorization || ''`
abbrev or_empty : Option String → String
or_empty none = ""
or_empty (some header) = header

abbrev pub bearer : String
bearer = "Bearer "

unfoldable pub extract_bearer_token : Option String → Result String
unfolding trim
extract_bearer_token authorization =
    if not (has_prefix (or_empty authorization) bearer)
    then err (unauthorized "Bearer token is required")
    else if str_eq (trim (drop_chars 7 (or_empty authorization))) ""
    then err (unauthorized "Bearer token is required")
    else ok (trim (drop_chars 7 (or_empty authorization)))

-- `BigInt(sub)` of a text of digits; `Jwt.digits` says that there is no other.
abbrev pub subject : String → Option ℕ
subject sub = if all_chars is_digit sub then some (big_int sub) else none

abbrev missing_claims : Result Caller
missing_claims = err (unauthorized "Token is missing required claims")

-- `decoded.sub` and `decoded.role` as `req.user`
unfoldable pub caller_of : Decoded → Result Caller
unfolding big_int
caller_of d = elim d.sub [
  | none ↦ missing_claims
  | some sub ↦ elim d.role [
    | none ↦ missing_claims
    | some role ↦ if str_eq sub "" then missing_claims else elim (subject sub) [
      | none ↦ err (unauthorized "Token subject is not a valid user id")
      | some user_id ↦ ok (record { user_id = user_id; role = role })
    ]
  ]
]

abbrev same_role : Role → Role → Bool
same_role Role.user Role.user = true
same_role Role.admin Role.admin = true
same_role _ _ = false

-- `requireRole(...allowedRoles)`, on `req.user`
unfoldable pub require_role : List Role → Option Caller → Result Caller
require_role allowed none = err (unauthorized "Authentication is required")
require_role allowed (some caller) =
    if any (same_role caller.role) allowed
    then ok caller
    else err (forbidden "You do not have permission to perform this action")

abbrev pub then_role : List Role → Result Caller → Result Caller
then_role allowed (ok caller) = require_role allowed (some caller)
then_role allowed (err e) = err e

module _ {crypto : Crypto} (jwt : Jwt crypto) where
  abbrev verified : Verified → Result Caller
  verified (decoded d) = caller_of d
  verified (rejected message) = err (unauthorized message)

  abbrev from_token : ℕ → Result String → Result Caller
  from_token now (ok token) = verified (jwt.verify_access_token token now)
  from_token now (err e) = err e

  unfoldable pub require_auth : ℕ → Option String → Result Caller
  unfolding extract_bearer_token caller_of
  require_auth now authorization = from_token now (extract_bearer_token authorization)

  unfoldable pub require_admin : ℕ → Option String → Result Caller
  unfolding require_auth require_role
  require_admin now authorization = then_role (Role.admin ∷ []) (require_auth now authorization)

  unfoldable pub require_user : ℕ → Option String → Result Caller
  unfolding require_auth require_role
  require_user now authorization =
      then_role (Role.user ∷ Role.admin ∷ []) (require_auth now authorization)
