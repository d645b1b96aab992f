-- ===== src/Prelude/Text.antt =====
-- Texts by their characters: what JavaScript's `length`, `trim`, `slice` and the character classes of
-- the source's patterns say of them. A lone surrogate is no character here.
use Prim.Native.Char.{code}
use Prim.Native.String.{String}
use Prim.Native.Nat.{ℕ, zero, suc, ◌+◌, ◌≤◌}
use mathlib.Core.Path.{◌≡◌, refl, ap}
use mathlib.Core.Logic.{inl, inr}
use mathlib.Core.Bool.{Bool, true, false, ◌&&◌, ◌||◌, not}
use native.Mathlib.Omega.{arith}
use text.Mathlib.TextLemmas.{cons-append, nil-append}
use text.Mathlib.TextEquality.{eq_iff}
use smart_patents_storage_sy.Prelude.Tests.{if◌then◌else◌, ltb, leb, ◌==◌, str_eq, Bool-cases}
use smart_patents_storage_sy.Prelude.Decimal.{◌&◌}

abbrev pub all_chars : (ℕ → Bool) → String → Bool
all_chars p String.[] = true
all_chars p (String.◌∷◌ c s) = p (code c) && all_chars p s

abbrev pub any_char : (ℕ → Bool) → String → Bool
any_char p String.[] = false
any_char p (String.◌∷◌ c s) = p (code c) || any_char p s

-- The number of characters.
abbrev pub chars : String → ℕ
chars String.[] = 0
chars (String.◌∷◌ c s) = suc (chars s)

-- `s.length`: the number of UTF-16 code units
abbrev pub units_of : ℕ → ℕ
units_of c = if ltb 65535 c then 2 else 1

unfoldable pub units : String → ℕ
units String.[] = 0
units (String.◌∷◌ c s) = units_of (code c) + units s

-- `Buffer.byteLength(s, 'utf8')`
abbrev pub bytes_of : ℕ → ℕ
bytes_of c = if ltb c 128 then 1 else if ltb c 2048 then 2 else if ltb c 65536 then 3 else 4

unfoldable pub byte_length : String → ℕ
byte_length String.[] = 0
byte_length (String.◌∷◌ c s) = bytes_of (code c) + byte_length s

abbrev pub between : ℕ → ℕ → ℕ → Bool
between low high c = leb low c && leb c high

abbrev pub is_digit : ℕ → Bool
is_digit c = between 48 57 c

abbrev pub is_lower : ℕ → Bool
is_lower c = between 97 122 c

abbrev pub is_upper : ℕ → Bool
is_upper c = between 65 90 c

-- the white space and the line ends of JavaScript
unfoldable pub is_space : ℕ → Bool
is_space c =
    between 9 13 c
    || c == 32
    || c == 160
    || c == 5760
    || between 8192 8202 c
    || c == 8232
    || c == 8233
    || c == 8239
    || c == 8287
    || c == 12288
    || c == 65279

unfoldable pub trim_start : String → String
trim_start String.[] = ""
trim_start (String.◌∷◌ c s) =
    let rest = trim_start s in if is_space (code c) then rest else String.◌∷◌ c s

unfoldable pub trim_end : String → String
trim_end String.[] = ""
trim_end (String.◌∷◌ c s) =
    let rest = trim_end s in if str_eq rest "" && is_space (code c) then "" else String.◌∷◌ c rest

-- `s.trim()`
unfoldable pub trim : String → String
unfolding trim_start trim_end is_space
trim s = trim_end (trim_start s)

-- `s.slice(n)`, where the first `n` code units are characters of one unit
abbrev pub drop_chars : ℕ → String → String
drop_chars zero s = s
drop_chars (suc n) String.[] = ""
drop_chars (suc n) (String.◌∷◌ c s) = drop_chars n s

pub all_chars-append :
    (p : ℕ → Bool) (s t : String) → all_chars p (s & t) ≡ (all_chars p s && all_chars p t)
all_chars-append p String.[] t = rw (nil-append t) refl
all_chars-append p (String.◌∷◌ c s) t =
    rw (cons-append c s t) (ground (arith, all_chars-append p s t))

pub chars-append : (s t : String) → chars (s & t) ≡ chars s + chars t
chars-append String.[] t = rw (nil-append t) (omega arith)
chars-append (String.◌∷◌ c s) t = rw (cons-append c s t) (omega (arith, chars-append s t))

trim_start_of_plain : (s : String) → all_chars (λ c. not (is_space c)) s ≡ true → trim_start s ≡ s
unfolding trim_start
trim_start_of_plain String.[] h = refl
trim_start_of_plain (String.◌∷◌ c s) h = ground arith

trim_end_of_plain : (s : String) → all_chars (λ c. not (is_space c)) s ≡ true → trim_end s ≡ s
unfolding trim_end
trim_end_of_plain String.[] h = refl
trim_end_of_plain (String.◌∷◌ c s) h = let rest = trim_end_of_plain s in ground arith

-- A text with no white space stays as it is.
pub trim_of_plain : (s : String) → all_chars (λ c. not (is_space c)) s ≡ true → trim s ≡ s
unfolding trim
trim_of_plain s h = rw (trim_start_of_plain s h) (trim_end_of_plain s h)

-- `s.startsWith(p)`, with the text first
abbrev pub has_prefix : String → String → Bool
has_prefix s String.[] = true
has_prefix String.[] (String.◌∷◌ d p) = false
has_prefix (String.◌∷◌ c s) (String.◌∷◌ d p) = code c == code d && has_prefix s p

pub has_prefix-append : (p s : String) → has_prefix (p & s) p ≡ true
has_prefix-append String.[] s = refl
has_prefix-append (String.◌∷◌ c p) s =
    rw (cons-append c p s) (ground (arith, has_prefix-append p s))

pub drop_chars-append : (p s : String) → drop_chars (chars p) (p & s) ≡ s
drop_chars-append String.[] s = nil-append s
drop_chars-append (String.◌∷◌ c p) s = rw (cons-append c p s) (drop_chars-append p s)

-- A text with a character is not the empty text.
pub str_eq_of_some : (s : String) → 1 ≤ chars s → str_eq s "" ≡ false
str_eq_of_some s h = elim (Bool-cases (str_eq s "")) [
  | inr full ↦ full
  | inl blank ↦ absurd (let gone : chars s ≡ 0 = ap chars ((eq_iff s "").0 blank) in omega arith)
]

-- `/^[^\s@]+@[^\s@]+\.[^\s@]+$/`
abbrev plain_char : ℕ → Bool
plain_char c = not (is_space c) && not (c == 64)

abbrev has_inner_dot : String → Bool
has_inner_dot String.[] = false
has_inner_dot (String.◌∷◌ c s) = code c == 46 && not (str_eq s "") || has_inner_dot s

abbrev domain_tail : String → Bool
domain_tail String.[] = false
domain_tail (String.◌∷◌ c s) = has_inner_dot s

abbrev after_local : String → Bool
after_local String.[] = false
after_local (String.◌∷◌ c s) =
    let rest = after_local s in
    if code c == 64 then all_chars plain_char s && domain_tail s else plain_char (code c) && rest

unfoldable pub matches_email : String → Bool
unfolding is_space
matches_email String.[] = false
matches_email (String.◌∷◌ c s) = plain_char (code c) && after_local s

email_matches : matches_email "a.b@c.de" ≡ true
unfolding matches_email
email_matches = refl

no_dot_no_match : matches_email "a@c" ≡ false
unfolding matches_email
no_dot_no_match = refl
