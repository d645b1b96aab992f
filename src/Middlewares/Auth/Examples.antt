-- ===== src/Middlewares/Auth/Examples.antt =====
-- Tests of the authentication: tokens that spell their claims.
use Prim.Native.Char.{Char}
use Prim.Native.String.{String}
use text.Mathlib.TextLemmas.{cons-append, nil-append}
use smart_patents_storage_sy.Prelude.{
  ℕ, ◌≡◌, ◌≤◌, ◌+◌, refl, true, false, not, some, none, arith, if◌then◌else◌, str_eq, Bool-cases,
  inl, inr,
}
use smart_patents_storage_sy.Prelude.Decimal.{◌&◌, decimal}
use smart_patents_storage_sy.Prelude.Digits.{decimal-IsDigit}
use smart_patents_storage_sy.Prelude.Text.{
  all_chars, all_chars-append, is_digit, is_space, drop_chars, drop_chars-append, has_prefix,
  has_prefix-append, chars, chars-append, str_eq_of_some,
}
use smart_patents_storage_sy.Exec.{ok}
use smart_patents_storage_sy.Prisma.Memory.{memory}
use smart_patents_storage_sy.Schema.{Role}
use smart_patents_storage_sy.Users.Crypto.{Crypto, Claims}
use smart_patents_storage_sy.Users.Sessions.{Session}
use smart_patents_storage_sy.Users.Accounts.{login_user}
use smart_patents_storage_sy.Middlewares.Auth.{
  Jwt, Decoded, Verified, decoded, rejected, bearer, require_auth,
}
use smart_patents_storage_sy.Middlewares.Auth.Tokens.{require_auth-login_user}
use smart_patents_storage_sy.Samples.{config, ada, draw, signed_in}

abbrev pub letter : Role → String
letter Role.user = "u"
letter Role.admin = "a"

abbrev pub spelled : Claims → String
spelled claims = letter claims.role & decimal claims.user_id

abbrev pub spelling : Crypto
spelling = record {
  hash_password = λ plain salt. plain;
  verify_password = λ plain hash. true;
  sign_access_token = λ claims now. spelled claims;
  hash_refresh_token = λ token. token;
  verify-hash = λ plain salt. refl;
}

abbrev pub read_claims : String → Role → Verified
read_claims token role =
    if all_chars is_digit (drop_chars 1 token)
    then decoded (record { sub = some (drop_chars 1 token); role = some role })
    else rejected "invalid token"

abbrev pub read_token : String → Verified
read_token token =
    if has_prefix token "u" then read_claims token Role.user else read_claims token Role.admin

digits_are_plain :
    (s : String) → all_chars is_digit s ≡ true → all_chars (λ c. not (is_space c)) s ≡ true
unfolding is_space
digits_are_plain String.[] h = refl
digits_are_plain (String.◌∷◌ c s) h = let rest = digits_are_plain s in ground arith

letter_is_plain : (role : Role) → all_chars (λ c. not (is_space c)) (letter role) ≡ true
unfolding is_space
letter_is_plain Role.user = refl
letter_is_plain Role.admin = refl

pub spelled-plain : (claims : Claims) → all_chars (λ c. not (is_space c)) (spelled claims) ≡ true
spelled-plain claims =
    rw
      (
        all_chars-append (λ c. not (is_space c)) (letter claims.role) (decimal claims.user_id),
        letter_is_plain claims.role,
        digits_are_plain (decimal claims.user_id) (decimal-IsDigit claims.user_id),
      )
      refl

one_letter : (role : Role) (n : ℕ) → 1 ≤ chars (letter role) + chars (decimal n)
one_letter Role.user n = omega arith
one_letter Role.admin n = omega arith

pub spelled-full : (role : Role) (n : ℕ) → str_eq (letter role & decimal n) "" ≡ false
spelled-full role n =
    str_eq_of_some (letter role & decimal n)
      (rw (chars-append (letter role) (decimal n)) (one_letter role n))

pub read-spelled :
    (role : Role) (n : ℕ)
    → read_token (letter role & decimal n)
      ≡ decoded (record { sub = some (decimal n); role = some role })
read-spelled Role.user n =
    let rest : drop_chars 1 ("u" & decimal n) ≡ decimal n = drop_chars-append "u" (decimal n) in
    rw (has_prefix-append "u" (decimal n), rest, decimal-IsDigit n) refl
read-spelled Role.admin n =
    rw (cons-append (Char.char 97 tt) "" (decimal n), nil-append (decimal n), decimal-IsDigit n)
      refl

read_claims-digits :
    (token sub : String) (role : Role) (d : Decoded)
    → read_claims token role ≡ decoded d
    → d.sub ≡ some sub
    → all_chars is_digit sub ≡ true
read_claims-digits token sub role d h e =
    elim (Bool-cases (all_chars is_digit (drop_chars 1 token))) [
      | inl read ↦ (ground arith)
      | inr other ↦ (ground arith)
    ]

pub read_token-digits :
    (token sub : String) (d : Decoded)
    → read_token token ≡ decoded d
    → d.sub ≡ some sub
    → all_chars is_digit sub ≡ true
read_token-digits token sub d h e = elim (Bool-cases (has_prefix token "u")) [
  | inl marked ↦ read_claims-digits token sub Role.user d (ground arith) e
  | inr unmarked ↦ read_claims-digits token sub Role.admin d (ground arith) e
]

abbrev pub jwt : Jwt spelling
jwt = record {
  ttl = 900000;
  verify_access_token = λ token now. read_token token;
  verify_sign = λ claims signed now h. read-spelled claims.role claims.user_id;
  digits = λ token sub now d h e. read_token-digits token sub d h e;
  plain = λ claims signed. spelled-plain claims;
  some_text = λ claims signed. spelled-full claims.role claims.user_id;
}

abbrev pub session : Session
session = record { user = ada; tokens = record { access_token = "u5"; refresh_token = "new" } }

logs_in :
    (login_user memory spelling config draw ada.email "Passw0rd" (signed_in none)).0 ≡ ok session
unfolding login_user decimal
logs_in = refl

require_auth-login_user_example :
    require_auth jwt 200 (some (bearer & "u5")) ≡ ok (record { user_id = 5; role = Role.user })
require_auth-login_user_example =
    require_auth-login_user jwt memory config draw ada.email "Passw0rd" (signed_in none) session 200
      logs_in (omega arith)
