-- ===== src/Frontend/Forms/Agreement.antt =====
-- The rule on passwords in the form and in the API.
use Prim.Native.Char.{code}
use smart_patents_storage_sy.Prelude.{
  ℕ, ◌≤◌, ◌≡◌, refl, ◌∙◌, String, Bool, true, false, ◌&&◌, ◌||◌, not, Option, none, some, ltb, leb,
  str_eq, if◌then◌else◌, arith, Bool-cases, inl, inr, is_some, and-eq-true, ap, sym, eq_iff, ◌↔◌,
  zero, suc,
}
use smart_patents_storage_sy.Prelude.Text.{
  any_char, all_chars, chars, units, units_of, byte_length, is_lower, is_upper, is_digit,
  str_eq_of_some,
}
use smart_patents_storage_sy.Users.Crypto.{max_password_bytes}
use smart_patents_storage_sy.Validation.Passwords.{
  Lengths, first_line, ends_line, password_field, no_selector,
}
use smart_patents_storage_sy.Frontend.Forms.{
  validate_password, password_strength, password_score, nth, labels,
}

chars-le-units : (s : String) → chars s ≤ units s
unfolding units
chars-le-units String.[] = omega arith
chars-le-units (String.◌∷◌ c s) = ground (arith, chars-le-units s)

any-first_line :
    (p : ℕ → Bool) (s : String) → any_char p (first_line s) ≡ true → any_char p s ≡ true
any-first_line p String.[] h = cc
any-first_line p (String.◌∷◌ c s) h = elim (Bool-cases (ends_line (code c))) [
  | inl ends ↦ absurd (let none_left : false ≡ true = rw ends at h in cc)
  | inr goes ↦
      let here : (p (code c) || any_char p (first_line s)) ≡ true = rw goes at h in
      ground (arith, any-first_line p s)
]

-- A text on one line, of characters of one UTF-16 unit, without variation selectors.
abbrev pub is_plain : ℕ → Bool
is_plain c = not (ends_line c) && (leb c 65535 && no_selector c)

units_of_plain : (s : String) → all_chars is_plain s ≡ true → units s ≡ chars s
unfolding units
units_of_plain String.[] h = refl
units_of_plain (String.◌∷◌ c s) h =
    let both = and-eq-true (is_plain (code c)) (all_chars is_plain s) h in
    let one : units_of (code c) ≡ 1 =
      let gap : ltb 65535 (code c) ≡ false = ground arith in rw gap refl in
    rw (one, units_of_plain s both.1) (omega arith)

no_selector_of_plain : (s : String) → all_chars is_plain s ≡ true → all_chars no_selector s ≡ true
no_selector_of_plain String.[] h = refl
no_selector_of_plain (String.◌∷◌ c s) h = ground (arith, no_selector_of_plain s)

first_line_of_plain : (s : String) → all_chars is_plain s ≡ true → first_line s ≡ s
first_line_of_plain String.[] h = refl
first_line_of_plain (String.◌∷◌ c s) h =
    let both = and-eq-true (is_plain (code c)) (all_chars is_plain s) h in
    let stays : ends_line (code c) ≡ false = ground arith in
    rw (stays, first_line_of_plain s both.1) refl

abbrev is_fine : Option String → Bool
is_fine message = not (is_some message)

fine_if :
    (b : Bool) (message : String) (rest : Option String) (x : Bool)
    → is_fine rest ≡ x
    → is_fine (if b then some message else rest) ≡ (not b && x)
fine_if true message rest x h = refl
fine_if false message rest x h = h

not-ltb : (a b : ℕ) → not (ltb a b) ≡ leb b a
not-ltb a b = ground arith

not_twice : (b : Bool) → (not (not b)) ≡ b
not_twice true = refl
not_twice false = refl

and_true : (b : Bool) → (b && true) ≡ b
and_true true = refl
and_true false = refl

-- The form without its messages.
validate_password-eq :
    (s : String)
    → is_fine (validate_password s) ≡ (
        not (str_eq s "")
        && (leb 8 (units s)
            && (leb (byte_length s) max_password_bytes
                && (any_char is_lower s && (any_char is_upper s && any_char is_digit s)))))
unfolding validate_password
validate_password-eq s =
    fine_if (str_eq s "") _ _ _ (
      fine_if (ltb (units s) 8) _ _ _ (
        fine_if (ltb max_password_bytes (byte_length s)) _ _ _ (
          fine_if (not (any_char is_lower s)) _ _ _ (
            fine_if (not (any_char is_upper s)) _ _ _
              (fine_if (not (any_char is_digit s)) _ _ true refl)))))
    ∙ rw
        (
          not-ltb (units s) 8,
          not-ltb max_password_bytes (byte_length s),
          not_twice (any_char is_lower s),
          not_twice (any_char is_upper s),
          not_twice (any_char is_digit s),
          and_true (any_char is_digit s),
        )
        refl

fine_none : (o : Option String) → is_fine o ≡ true → o ≡ none
fine_none none h = refl
fine_none (some m) h = cc

-- Every score has a label.
labelled : (n : ℕ) → n ≤ 4 → is_some (nth labels n) ≡ true
labelled zero h = refl
labelled (suc zero) h = refl
labelled (suc (suc zero)) h = refl
labelled (suc (suc (suc zero))) h = refl
labelled (suc (suc (suc (suc zero)))) h = refl
labelled (suc (suc (suc (suc (suc n))))) h = absurd (omega arith)

password_strength-eq :
    (s : String)
    → str_eq s "" ≡ false
    → password_strength s ≡ (password_score s, nth labels (password_score s))
unfolding password_strength
password_strength-eq s full = rw (full) refl

score-bounds :
    (s : String)
    → str_eq s "" ≡ false
    → leb 8 (units s) ≡ true
    → any_char is_lower s ≡ true
    → any_char is_upper s ≡ true
    → (2 ≤ password_score s) × (password_score s ≤ 4)
unfolding password_score
score-bounds s full long low up = rw (full, low, up, long) (ground arith)

module _ (lengths : Lengths) where
  -- What the API takes, the form takes.
  password_field-fits :
      (s : String) → password_field lengths s ≡ true → is_fine (validate_password s) ≡ true
  unfolding password_field
  password_field-fits s h =
      let count = lengths.is_min_length_holds 8 s in
      let size = chars-le-units s in
      let some_text = str_eq_of_some s (ground arith) in
      let low = any-first_line is_lower s (ground arith) in
      let up = any-first_line is_upper s (ground arith) in
      let number = any-first_line is_digit s (ground arith) in
      validate_password-eq s ∙ rw (some_text, low, up, number) (ground arith)

  -- On plain texts, and the form takes what the API takes.
  password_field-plain :
      (s : String)
      → all_chars is_plain s ≡ true
      → password_field lengths s ≡ is_fine (validate_password s)
  unfolding password_field
  password_field-plain s plain =
      let same = units_of_plain s plain in
      let line = first_line_of_plain s plain in
      let count = lengths.is_min_length_lem 8 s (no_selector_of_plain s plain) in
      let form = validate_password-eq s in
      elim (Bool-cases (str_eq s "")) [
        | inl blank ↦
            let nothing : chars s ≡ 0 = ap chars ((eq_iff s "").0 blank) in
            let short : leb 8 (chars s) ≡ false = ground arith in
            rw (count, form, blank, short) refl
        | inr full ↦ rw (count, line, form, full, same) (ground arith)
      ]

  -- Of passwords on one line, without characters beyond U+FFFF and without the variation selectors
  -- U+FE0E and U+FE0F, the API takes exactly those that the form takes.
  pub password_field-validate_password :
      (s : String)
      → all_chars is_plain s ≡ true
      → ((password_field lengths s ≡ true) ↔ (validate_password s ≡ none))
  password_field-validate_password s plain =
      let same = password_field-plain s plain in
      (λ h. fine_none (validate_password s) (sym same ∙ h), λ h. same ∙ rw h refl)

  -- A password that the API takes passes the form, and the meter gives it a score from 2 to 4 with a
  -- label.
  pub password_field-strength :
      (s : String)
      → password_field lengths s ≡ true
      → (validate_password s ≡ none)
        × (2 ≤ (password_strength s).0)
        × ((password_strength s).0 ≤ 4)
        × (is_some (password_strength s).1 ≡ true)
  unfolding password_field
  password_field-strength s h =
      let count = lengths.is_min_length_holds 8 s in
      let size = chars-le-units s in
      let some_text = str_eq_of_some s (ground arith) in
      let low = any-first_line is_lower s (ground arith) in
      let up = any-first_line is_upper s (ground arith) in
      let long : leb 8 (units s) ≡ true = ground arith in
      let score = score-bounds s some_text long low up in
      rw (password_strength-eq s some_text) (
        fine_none (validate_password s) (password_field-fits s h),
        score.0,
        score.1,
        labelled (password_score s) score.1,
      )
