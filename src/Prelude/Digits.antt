-- ===== src/Prelude/Digits.antt =====
-- Printing a number and reading it back.
use Prim.Native.Char.{code}
use text.Mathlib.TextLemmas.{cons-append, nil-append}
use native.Mathlib.Nat.{pow-succ'}
use mathlib.Core.Path.{◌≡◌, refl, ap, ◌∙◌}
use mathlib.Core.Logic.{inl, inr}
use mathlib.Core.Bool.{true, false}
use native.Mathlib.Omega.{arith}
use Prim.Native.Nat.{ℕ, zero, suc, ◌+◌, ◌-◌, ◌*◌, ◌/◌, ◌%◌, ◌^◌, ◌≤◌, ◌<◌}
use Prim.Native.String.{String}
use text.Mathlib.TextEquality.{eq_iff}
use smart_patents_storage_sy.Prelude.Tests.{str_eq, ltb, Bool-cases}
use smart_patents_storage_sy.Prelude.Decimal.{
  ◌&◌, digit, decimal_from, decimal, digits_from, big_int,
}
use smart_patents_storage_sy.Prelude.Text.{
  all_chars, all_chars-append, chars, chars-append, is_digit,
}

digits_from-append :
    (acc : ℕ) (s t : String) → digits_from acc (s & t) ≡ digits_from (digits_from acc s) t
unfolding digits_from
digits_from-append acc String.[] t = rw (nil-append t) refl
digits_from-append acc (String.◌∷◌ c s) t =
    rw (cons-append c s t) (digits_from-append (acc * 10 + (code c - 48)) s t)

-- What the ten digits have in common.
digit_cases {ℓ} :
    (P : ℕ → String → Type ℓ)
    → P 0 "0"
    → P 1 "1"
    → P 2 "2"
    → P 3 "3"
    → P 4 "4"
    → P 5 "5"
    → P 6 "6"
    → P 7 "7"
    → P 8 "8"
    → P 9 "9"
    → (d : ℕ) → d < 10
    → P d (digit d)
unfolding digit
digit_cases P a b c d e f g h i j zero k = a
digit_cases P a b c d e f g h i j (suc zero) k = b
digit_cases P a b c d e f g h i j (suc (suc zero)) k = c
digit_cases P a b c d e f g h i j (suc (suc (suc zero))) k = d
digit_cases P a b c d e f g h i j (suc (suc (suc (suc zero)))) k = e
digit_cases P a b c d e f g h i j (suc (suc (suc (suc (suc zero))))) k = f
digit_cases P a b c d e f g h i j (suc (suc (suc (suc (suc (suc zero)))))) k = g
digit_cases P a b c d e f g h i j (suc (suc (suc (suc (suc (suc (suc zero))))))) k = h
digit_cases P a b c d e f g h i j (suc (suc (suc (suc (suc (suc (suc (suc zero)))))))) k = i
digit_cases P a b c d e f g h i j (suc (suc (suc (suc (suc (suc (suc (suc (suc zero))))))))) k = j
digit_cases P a b c d e f g h i j (suc (suc (suc (suc (suc (suc (suc (suc (suc (suc n)))))))))) k =
    absurd (omega arith)

record DigitText (d : ℕ) (s : String) : Type 0 where
  pub value : (acc : ℕ) → digits_from acc s ≡ acc * 10 + d
  pub one : chars s ≡ 1
  pub digits : all_chars is_digit s ≡ true

digit-DigitText : (d : ℕ) → d < 10 → DigitText d (digit d)
unfolding digits_from
digit-DigitText =
    digit_cases DigitText (record { value = λ acc. omega arith; one = refl; digits = refl })
      (record { value = λ acc. omega arith; one = refl; digits = refl })
      (record { value = λ acc. omega arith; one = refl; digits = refl })
      (record { value = λ acc. omega arith; one = refl; digits = refl })
      (record { value = λ acc. omega arith; one = refl; digits = refl })
      (record { value = λ acc. omega arith; one = refl; digits = refl })
      (record { value = λ acc. omega arith; one = refl; digits = refl })
      (record { value = λ acc. omega arith; one = refl; digits = refl })
      (record { value = λ acc. omega arith; one = refl; digits = refl })
      (record { value = λ acc. omega arith; one = refl; digits = refl })

digits_from-decimal_from : (fuel n : ℕ) → n < fuel → digits_from 0 (decimal_from fuel n) ≡ n
unfolding decimal_from
digits_from-decimal_from zero n h = absurd (omega arith)
digits_from-decimal_from (suc fuel) n h = elim (Bool-cases (ltb n 10)) [
  | inl small ↦ rw small ((digit-DigitText n (grind arith)).value 0 ∙ omega arith)
  | inr large ↦
      rw
        (
          large,
          digits_from-append 0 (decimal_from fuel (n / 10)) (digit (n % 10)),
          digits_from-decimal_from fuel (n / 10) (grind arith),
        )
        ((digit-DigitText (n % 10) (omega arith)).value (n / 10) ∙ omega arith)
]

-- `BigInt(String(n))` is `n`.
pub big_int-decimal : (n : ℕ) → big_int (decimal n) ≡ n
unfolding big_int decimal
big_int-decimal n = digits_from-decimal_from (suc n) n (omega arith)

digits-decimal_from : (fuel n : ℕ) → all_chars is_digit (decimal_from fuel n) ≡ true
unfolding decimal_from
digits-decimal_from zero n = refl
digits-decimal_from (suc fuel) n = elim (Bool-cases (ltb n 10)) [
  | inl small ↦ rw small (digit-DigitText n (grind arith)).digits
  | inr large ↦
      rw
        (
          large,
          all_chars-append is_digit (decimal_from fuel (n / 10)) (digit (n % 10)),
          digits-decimal_from fuel (n / 10),
          (digit-DigitText (n % 10) (omega arith)).digits,
        )
        refl
]

pub decimal-IsDigit : (n : ℕ) → all_chars is_digit (decimal n) ≡ true
unfolding decimal
decimal-IsDigit n = digits-decimal_from (suc n) n

tenth : (n k : ℕ) → n < 10 ^ suc (suc k) → n / 10 < 10 ^ suc k
tenth n k h = let power : 10 ^ suc (suc k) ≡ 10 * 10 ^ suc k = pow-succ' 10 (suc k) in omega arith

longer :
    (size n k : ℕ)
    → 10 ≤ n
    → n < 10 ^ suc k
    → ((j : ℕ) → n / 10 < 10 ^ suc j → (1 ≤ size) × (size ≤ suc j))
    → (1 ≤ size + 1) × (size + 1 ≤ suc k)
longer size n zero h m fewer = absurd (omega arith)
longer size n (suc k) h m fewer = let bound = fewer k (tenth n k m) in (omega arith, omega arith)

chars-decimal_from :
    (fuel n k : ℕ)
    → n < fuel
    → n < 10 ^ suc k
    → (1 ≤ chars (decimal_from fuel n)) × (chars (decimal_from fuel n) ≤ suc k)
unfolding decimal_from
chars-decimal_from zero n k h m = absurd (omega arith)
chars-decimal_from (suc fuel) n k h m = elim (Bool-cases (ltb n 10)) [
  | inl small ↦ rw (small, (digit-DigitText n (grind arith)).one) (omega arith, omega arith)
  | inr large ↦
      let one = (digit-DigitText (n % 10) (omega arith)).one in
      rw (large, chars-append (decimal_from fuel (n / 10)) (digit (n % 10)), one)
        (longer (chars (decimal_from fuel (n / 10))) n k (grind arith) m
          (λ j b. chars-decimal_from fuel (n / 10) j (grind arith) b))
]

-- A number below ten to the `k` has 1 to `k` digits.
pub chars-decimal :
    (n k : ℕ) → n < 10 ^ suc k → (1 ≤ chars (decimal n)) × (chars (decimal n) ≤ suc k)
unfolding decimal
chars-decimal n k h = chars-decimal_from (suc n) n k (omega arith) h

-- A printed number has a first digit.
pub decimal-full : (n : ℕ) → str_eq (decimal n) "" ≡ false
unfolding decimal decimal_from
decimal-full n = elim (Bool-cases (str_eq (decimal n) "")) [
  | inr full ↦ full
  | inl blank ↦ absurd (elim (Bool-cases (ltb n 10)) [
    | inl small ↦
        let one = (digit-DigitText n (grind arith)).one in
        let gone : chars (decimal n) ≡ 0 = ap chars ((eq_iff (decimal n) "").0 blank) in
        let here : chars (decimal n) ≡ 1 = rw small one in omega arith
    | inr large ↦
        let one = (digit-DigitText (n % 10) (omega arith)).one in
        let gone : chars (decimal n) ≡ 0 = ap chars ((eq_iff (decimal n) "").0 blank) in
        let here : chars (decimal n) ≡ chars (decimal_from n (n / 10)) + 1 =
          rw (large, chars-append (decimal_from n (n / 10)) (digit (n % 10)), one) refl in
        omega arith
  ])
]
