-- ===== src/Users/Crypto.antt =====
-- src/utils/helpers.js: what it takes from bcrypt, jsonwebtoken and the crypto module, as an
-- interface, and its own constants.
use smart_patents_storage_sy.Prelude.{ℕ, ◌+◌, ◌*◌, ◌≡◌, String, Bool, true}
use smart_patents_storage_sy.Schema.{Role}

-- The claims of an access token.
pub record Claims : Type 0 where
  pub user_id : ℕ
  pub role : Role

-- bcrypt hashes with a random salt, and accepts a password against its own hash. `jwt.sign` makes a
-- token of the claims. The digest of a refresh token is SHA-256.
pub record Crypto : Type 0 where
  pub hash_password : String → String → String
  pub verify_password : String → String → Bool
  pub sign_access_token : Claims → ℕ → String
  pub hash_refresh_token : String → String
  pub verify-hash : (plain salt : String) → verify_password plain (hash_password plain salt) ≡ true

-- What a request draws: the time, a random refresh token and a random salt.
pub record Draw : Type 0 where
  pub now : ℕ
  pub token : String
  pub salt : String

abbrev pub max_password_bytes : ℕ
max_password_bytes = 72

unfoldable pub refresh_token_expiry : ℕ → ℕ → ℕ
refresh_token_expiry ttl_days now = now + ttl_days * 24 * 60 * 60 * 1000
