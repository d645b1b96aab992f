-- ===== src/Prisma/Defs.antt =====
-- The database client that the services call (`@prisma/client` over Postgres), as an interface.
--
-- A table is its rows, in the order in which the database lists them, and the next value of its id
-- sequence. The laws state the documented behaviour of the client. A write that would leave two
-- rows in conflict with a unique constraint of prisma/schema.prisma is refused with the code P2002,
-- a single-row write that matches nothing with P2025. The gaps that a refused insert leaves in an
-- id sequence are not modelled.
use smart_patents_storage_sy.Prelude.{String, ℕ, ◌≡◌, Bool, Option, List, find, keep, length, not}
use smart_patents_storage_sy.Exec.{Result}
use smart_patents_storage_sy.Prisma.Rows.{Table, created, created_many, updated_many, updated_one}

pub record Prisma : Type 1 where
  pub find_first : {R : Type 0} → (R → Bool) → Table R → Option R
  pub find_many : {R : Type 0} → (R → Bool) → Table R → List R
  pub count : {R : Type 0} → (R → Bool) → Table R → ℕ
  -- `create` is given the unique constraints and the row for each id
  pub create : {R : Type 0} → (R → R → Bool) → (ℕ → R) → Table R → Result (R × Table R)
  pub create_many : {R : Type 0} → (R → R → Bool) → List R → Table R → Result (Table R)
  pub update_many :
      {R : Type 0} → (R → R → Bool) → (R → Bool) → (R → R) → Table R → Result (ℕ × Table R)
  pub update : {R : Type 0} → (R → R → Bool) → (R → Bool) → (R → R) → Table R → Result (R × Table R)
  pub delete_many : {R : Type 0} → (R → Bool) → Table R → ℕ × Table R
  -- `contains` with `mode: 'insensitive'`, and `equals` with it
  pub contains_insensitive : String → String → Bool
  pub equals_insensitive : String → String → Bool
  pub find_first_lem : {R : Type 0} (p : R → Bool) (t : Table R) → find_first p t ≡ find p t.rows
  pub find_many_lem : {R : Type 0} (p : R → Bool) (t : Table R) → find_many p t ≡ keep p t.rows
  pub count_lem : {R : Type 0} (p : R → Bool) (t : Table R) → count p t ≡ length (keep p t.rows)
  pub create_lem :
      {R : Type 0} (clash : R → R → Bool) (mk : ℕ → R) (t : Table R)
      → create clash mk t ≡ created clash mk t
  pub create_many_lem :
      {R : Type 0} (clash : R → R → Bool) (new : List R) (t : Table R)
      → create_many clash new t ≡ created_many clash new t
  pub update_many_lem :
      {R : Type 0} (clash : R → R → Bool) (p : R → Bool) (f : R → R) (t : Table R)
      → update_many clash p f t ≡ updated_many clash p f t
  pub update_lem :
      {R : Type 0} (clash : R → R → Bool) (p : R → Bool) (f : R → R) (t : Table R)
      → update clash p f t ≡ updated_one clash p f t
  pub delete_many_lem :
      {R : Type 0} (p : R → Bool) (t : Table R)
      → delete_many p t ≡ (length (keep p t.rows), record t { rows = keep (λ r. not (p r)) t.rows })
