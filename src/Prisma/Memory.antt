-- ===== src/Prisma/Memory.antt =====
-- A client that keeps its tables in memory: the laws of the interface can be met.
-- Its text search looks at the start of a text, case included.
use text.Mathlib.Text.{starts_with}
use smart_patents_storage_sy.Prelude.{str_eq, refl, not, find, keep, length}
use smart_patents_storage_sy.Prisma.Defs.{Prisma}
use smart_patents_storage_sy.Prisma.Rows.{created, created_many, updated_many, updated_one}

abbrev pub memory : Prisma
memory = record {
  find_first = λ p t. find p t.rows;
  find_many = λ p t. keep p t.rows;
  count = λ p t. length (keep p t.rows);
  create = created;
  create_many = created_many;
  contains_insensitive = starts_with;
  equals_insensitive = str_eq;
  update_many = updated_many;
  update = updated_one;
  delete_many = λ p t. (length (keep p t.rows), record t { rows = keep (λ r. not (p r)) t.rows });
  find_first_lem = λ p t. refl;
  find_many_lem = λ p t. refl;
  count_lem = λ p t. refl;
  create_lem = λ c mk t. refl;
  create_many_lem = λ c new t. refl;
  update_many_lem = λ c p f t. refl;
  update_lem = λ c p f t. refl;
  delete_many_lem = λ p t. refl;
}
