-- ===== src/Validation/Ids.antt =====
-- src/utils/validation/shared.js: ids in requests are texts of digits in the range of a BIGINT.
use smart_patents_storage_sy.Prelude.{ℕ, ◌≤◌, ◌≡◌, String, Bool, true, ◌&&◌, ltb, leb, arith}
use smart_patents_storage_sy.Prelude.Decimal.{decimal, big_int}
use smart_patents_storage_sy.Prelude.Digits.{big_int-decimal, decimal-IsDigit, chars-decimal}
use smart_patents_storage_sy.Prelude.Text.{all_chars, chars, is_digit, between}

abbrev pub max_bigint : ℕ
max_bigint = 9223372036854775807

-- `/^\d{1,19}$/.test(value)`, and the bounds of `BigInt(value)`
unfoldable pub is_big_int_id : String → Bool
is_big_int_id value =
    all_chars is_digit value
    && between 1 19 (chars value)
    && ltb 0 (big_int value)
    && leb (big_int value) max_bigint

-- Every id of a row, from 1 to the greatest BIGINT, is printed as a text that the check accepts and
-- that is read back as that id.
pub is_big_int_id-decimal :
    (id : ℕ)
    → 1 ≤ id
    → id ≤ max_bigint
    → (is_big_int_id (decimal id) ≡ true) × (big_int (decimal id) ≡ id)
unfolding is_big_int_id
is_big_int_id-decimal id low high =
    let back = big_int-decimal id in
    let digits = decimal-IsDigit id in
    let size = chars-decimal id 18 (omega arith) in (rw (back, digits) (ground arith), back)

-- What the check accepts is read as a number in that range.
pub big_int_of_id :
    (value : String)
    → is_big_int_id value ≡ true
    → (1 ≤ big_int value) × (big_int value ≤ max_bigint)
unfolding is_big_int_id
big_int_of_id value h = ground arith
