-- ===== src/Validation/Passwords.antt =====
-- src/utils/validation/shared.js: the rules on a password and on a name, as far as a request passes them.
-- `isLength` of express-validator is an interface.
use smart_patents_storage_sy.Prelude.{
  ℕ, ◌≤◌, ◌≡◌, String, Bool, true, not, ◌&&◌, ◌||◌, leb, ◌==◌, if◌then◌else◌,
}
use smart_patents_storage_sy.Prelude.Text.{
  any_char, all_chars, chars, byte_length, is_lower, is_upper, is_digit, trim, between,
}
use smart_patents_storage_sy.Users.Crypto.{max_password_bytes}
use Prim.Native.Char.{code}

-- The characters that `.` of a pattern does not match.
abbrev pub ends_line : ℕ → Bool
ends_line c = c == 10 || c == 13 || c == 8232 || c == 8233

-- What `.*` reaches from the start.
abbrev pub first_line : String → String
first_line String.[] = ""
first_line (String.◌∷◌ c s) =
    let rest = first_line s in if ends_line (code c) then "" else String.◌∷◌ c rest

-- U+FE0E and U+FE0F, which say how the character before is shown.
abbrev pub is_selector : ℕ → Bool
is_selector c = c == 65038 || c == 65039

abbrev pub no_selector : ℕ → Bool
no_selector c = not (is_selector c)

-- `isLength`, which counts a surrogate pair as one and does not count a variation selector: so it
-- never counts more than the characters, and counts them all where no selector is among them.
pub record Lengths : Type 0 where
  pub is_length : ℕ → ℕ → String → Bool
  pub is_length_lem :
      (low high : ℕ) (s : String)
      → all_chars no_selector s ≡ true
      → is_length low high s ≡ between low high (chars s)
  pub is_min_length : ℕ → String → Bool
  pub is_min_length_lem :
      (low : ℕ) (s : String)
      → all_chars no_selector s ≡ true
      → is_min_length low s ≡ leb low (chars s)
  pub is_min_length_holds : (low : ℕ) (s : String) → is_min_length low s ≡ true → low ≤ chars s

-- `/^(?=.*[a-z])(?=.*[A-Z])(?=.*\d)/`
abbrev pub matches_password : String → Bool
matches_password value =
    any_char is_lower (first_line value)
    && any_char is_upper (first_line value)
    && any_char is_digit (first_line value)

module _ (lengths : Lengths) where
  -- `passwordField`
  unfoldable pub password_field : String → Bool
  unfolding byte_length
  password_field value =
      lengths.is_min_length 8 value
      && leb (byte_length value) max_password_bytes
      && matches_password value

  -- `nameField`
  unfoldable pub name_field : String → Bool
  unfolding trim
  name_field value = lengths.is_length 2 255 (trim value)
