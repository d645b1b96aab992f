-- ===== src/Middlewares/Requests.antt =====
-- src/middlewares/requestContext.js and the key of src/middlewares/rateLimit.js.
use smart_patents_storage_sy.Prelude.{
  ℕ, ◌≡◌, String, Bool, true, ◌&&◌, ◌||◌, not, Option, none, some, leb, ◌==◌, str_eq, if◌then◌else◌,
  Bool-cases, inl, inr,
}
use smart_patents_storage_sy.Prelude.Decimal.{◌&◌}
use smart_patents_storage_sy.Prelude.Text.{all_chars, units, is_lower, is_upper, is_digit, trim}

-- `/^[A-Za-z0-9._-]+$/`
abbrev is_id_char : ℕ → Bool
is_id_char c = is_lower c || is_upper c || is_digit c || c == 46 || c == 95 || c == 45

unfoldable pub is_request_id : String → Bool
unfolding units
is_request_id id = leb (units id) 128 && (all_chars is_id_char id && not (str_eq id ""))

-- The id of a request, from the header `X-Request-Id` or a random UUID.
unfoldable pub request_context : String → Option String → String
unfolding is_request_id
request_context uuid none = uuid
request_context uuid (some inbound) = if is_request_id inbound then inbound else uuid

-- An id that goes into a header and the log has at most 128 characters, all of them plain.
pub request_context-is_request_id :
    (uuid : String) (inbound : Option String)
    → is_request_id uuid ≡ true
    → is_request_id (request_context uuid inbound) ≡ true
unfolding request_context
request_context-is_request_id uuid none h = h
request_context-is_request_id uuid (some inbound) h = elim (Bool-cases (is_request_id inbound)) [
  | inl fine ↦ rw (fine) fine
  | inr odd ↦ rw (odd) h
]

-- `loginRateLimitKey`: an address that is no text counts as empty.
module _ (ip_key_generator to_lower_case : String → String) where
  abbrev email_part : Option String → String
  email_part none = ""
  email_part (some email) = trim (to_lower_case email)

  unfoldable pub login_rate_limit_key : String → Option String → String
  unfolding trim
  login_rate_limit_key ip email = ip_key_generator ip & ":" & email_part email
