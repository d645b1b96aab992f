-- ===== src/Prelude/Decimal.antt =====
-- `String(n)` of a BigInt and `BigInt(s)` of a text of digits.
use mathlib.Core.Path.{◌≡◌, refl}
use native.Mathlib.Omega.{arith}
use Prim.Native.Nat.{◌<◌, ℕ, zero, suc, ◌+◌, ◌-◌, ◌*◌, ◌/◌, ◌%◌}
use Prim.Native.Char.{code}
use Prim.Native.String
use Prim.Native.String.{String}
use mathlib.Core.List.{List, [], ◌∷◌}
use smart_patents_storage_sy.Prelude.Tests.{if◌then◌else◌, ltb, ◌==◌, Bool-cases}
use mathlib.Core.Logic.{inl, inr}

infixr 65 ◌&◌
abbrev pub ◌&◌ : String → String → String
s & t = String.◌++◌ s t

unfoldable pub digit : ℕ → String
digit n =
    if n == 0
    then "0"
    else if n == 1
    then "1"
    else if n == 2
    then "2"
    else if n == 3
    then "3"
    else if n == 4
    then "4"
    else if n == 5
    then "5"
    else if n == 6
    then "6"
    else if n == 7
    then "7"
    else if n == 8
    then "8"
    else "9"

-- The fuel is above the number, so it outlasts the digits.
unfoldable pub decimal_from : ℕ → ℕ → String
unfolding digit
decimal_from zero n = ""
decimal_from (suc fuel) n =
    let rest = decimal_from fuel (n / 10) in if ltb n 10 then digit n else rest & digit (n % 10)

unfoldable pub decimal : ℕ → String
unfolding decimal_from
decimal n = decimal_from (suc n) n

unfoldable pub digits_from : ℕ → String → ℕ
digits_from acc String.[] = acc
digits_from acc (String.◌∷◌ c s) = digits_from (acc * 10 + (code c - 48)) s

unfoldable pub big_int : String → ℕ
unfolding digits_from
big_int s = digits_from 0 s

-- `Array.prototype.join`
unfoldable pub join : String → List String → String
join sep [] = ""
join sep (s ∷ []) = s
join sep (s ∷ t ∷ rest) = s & sep & join sep (t ∷ rest)

-- Any fuel above the number prints the same digits: `decimal` never runs out.
decimal_from-enough :
    (fuel more n : ℕ) → n < fuel → n < more → decimal_from fuel n ≡ decimal_from more n
unfolding decimal_from
decimal_from-enough zero more n h k = absurd (omega arith)
decimal_from-enough (suc fuel) zero n h k = absurd (omega arith)
decimal_from-enough (suc fuel) (suc more) n h k = elim (Bool-cases (ltb n 10)) [
  | inl small ↦ rw small refl
  | inr large ↦ rw (decimal_from-enough fuel more (n / 10) (grind arith) (grind arith)) refl
]
