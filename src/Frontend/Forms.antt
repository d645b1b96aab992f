-- ===== src/Frontend/Forms.antt =====
-- frontend/src/utils/validation.ts: the checks of the forms; a message, or none.
pub mod Agreement
use smart_patents_storage_sy.Prelude.{
  ℕ, ◌+◌, ◌≤◌, ◌≡◌, refl, String, Bool, true, false, ◌&&◌, ◌||◌, not, Option, none, some, List, [],
  ◌∷◌, ltb, leb, ◌==◌, str_eq, if◌then◌else◌, arith, zero, suc,
}
use smart_patents_storage_sy.Prelude.Decimal.{◌&◌}
use smart_patents_storage_sy.Prelude.Text.{
  any_char, units, byte_length, is_lower, is_upper, is_digit, trim, matches_email,
}
use smart_patents_storage_sy.Users.Crypto.{max_password_bytes}

unfoldable pub validate_name : String → Option String
unfolding trim units
validate_name name =
    if str_eq (trim name) ""
    then some "Name is required"
    else if ltb (units (trim name)) 2
    then some "Name must be at least 2 characters"
    else if ltb 255 (units (trim name))
    then some "Name must be at most 255 characters"
    else none

unfoldable pub validate_email : String → Option String
unfolding trim units matches_email
validate_email email =
    if str_eq (trim email) ""
    then some "Email is required"
    else if not (matches_email (trim email))
    then some "Enter a valid email address"
    else if ltb 255 (units (trim email))
    then some "Email must be at most 255 characters"
    else none

unfoldable pub validate_password : String → Option String
unfolding units byte_length
validate_password password =
    if str_eq password ""
    then some "Password is required"
    else if ltb (units password) 8
    then some "Password must be at least 8 characters"
    else if ltb max_password_bytes (byte_length password)
    then some "Password is too long"
    else if not (any_char is_lower password)
    then some "Add a lowercase letter"
    else if not (any_char is_upper password)
    then some "Add an uppercase letter"
    else if not (any_char is_digit password)
    then some "Add a number"
    else none

unfoldable pub validate_required : String → String → Option String
unfolding trim
validate_required label value =
    if str_eq (trim value) "" then some (label & " is required") else none

-- The score of the password meter.
abbrev point : Bool → ℕ
point b = if b then 1 else 0

-- `/[^A-Za-z0-9]/`
abbrev pub is_special : ℕ → Bool
is_special c = not (is_lower c || is_upper c || is_digit c)

unfoldable pub password_score : String → ℕ
unfolding units
password_score password =
    if str_eq password ""
    then 0
    else point (leb 8 (units password))
      + point (leb 12 (units password))
      + point (any_char is_lower password && any_char is_upper password)
      + point (any_char is_digit password && any_char is_special password)

-- `labels[score]`: an index out of range gives undefined.
abbrev pub nth : List String → ℕ → Option String
nth [] n = none
nth (x ∷ xs) zero = some x
nth (x ∷ xs) (suc n) = nth xs n

abbrev pub labels : List String
labels = "Very weak" ∷ "Weak" ∷ "Fair" ∷ "Good" ∷ "Strong" ∷ []

unfoldable pub password_strength : String → ℕ × Option String
unfolding password_score
password_strength password =
    if str_eq password ""
    then (0, some "Empty")
    else (password_score password, nth labels (password_score password))
