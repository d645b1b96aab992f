-- ===== src/Validation/Examples.antt =====
-- Tests of the checks on requests.
use smart_patents_storage_sy.Prelude.{◌≡◌, true, arith}
use smart_patents_storage_sy.Prelude.Decimal.{decimal, big_int}
use smart_patents_storage_sy.Validation.Ids.{is_big_int_id, is_big_int_id-decimal}

is_big_int_id-decimal_example : (is_big_int_id (decimal 42) ≡ true) × (big_int (decimal 42) ≡ 42)
is_big_int_id-decimal_example = is_big_int_id-decimal 42 (omega arith) (omega arith)
