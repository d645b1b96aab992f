-- ===== src/Catalog/Categories.antt =====
-- src/services/categoryService.js. The order of a listing is the database's.
use smart_patents_storage_sy.Prelude.{
  ℕ, String, Bool, true, ◌&&◌, ◌||◌, not, Option, none, some, List, ◌==◌, str_eq, if◌then◌else◌,
  is_some,
}
use smart_patents_storage_sy.Errors.{conflict, not_found}
use smart_patents_storage_sy.Exec.{Exec, ok, err, pure, throw, gets, ◌>>=◌, ◌>>◌}
use smart_patents_storage_sy.Prisma.{Prisma, record_missing}
use smart_patents_storage_sy.Schema.{Category}
use smart_patents_storage_sy.State.{State}

-- `id` and `name` are unique.
abbrev pub category_clash : Category → Category → Bool
category_clash c d = c.id == d.id || str_eq c.name d.name

abbrev pub category_exists : String
category_exists = "A category with that name already exists"

abbrev pub is_not : Option ℕ → ℕ → Bool
is_not none id = true
is_not (some excluded) id = not (id == excluded)

module _ (prisma : Prisma) where
  abbrev pub same_name : String → Option ℕ → Category → Bool
  same_name name exclude_id c = prisma.equals_insensitive c.name name && is_not exclude_id c.id

  abbrev pub find_by_name : String → Option ℕ → Exec State (Option Category)
  find_by_name name exclude_id =
      gets (λ s. prisma.find_first (same_name name exclude_id) s.categories)

  abbrev pub find_category : ℕ → Exec State (Option Category)
  find_category id = gets (λ s. prisma.find_first (λ c. c.id == id) s.categories)

  unfoldable pub create_category : String → Exec State Category
  create_category name = do
    existing ← find_by_name name none
    if is_some existing then throw (conflict category_exists) else λ s.
        elim (prisma.create category_clash (λ id. record { id = id; name = name }) s.categories) [
          | ok (c, t) ↦ (ok c, record s { categories = t })
          | err e ↦ (err e, s)
        ]

  unfoldable pub list_categories :
      (List Category → List Category) → Option String → Exec State (List Category)
  list_categories by_name none = gets (λ s. by_name (prisma.find_many (λ c. true) s.categories))
  list_categories by_name (some search) = gets (λ s. by_name (
      prisma.find_many (λ c. str_eq search "" || prisma.contains_insensitive c.name search)
        s.categories))

  unfoldable pub get_category_by_id : ℕ → Exec State Category
  get_category_by_id id = do
    category ← find_category id
    elim category [ none ↦ throw (not_found "Category not found") | some c ↦ pure c ]

  unfoldable pub update_category : ℕ → String → Exec State Category
  unfolding get_category_by_id
  update_category id name = do
    get_category_by_id id
    existing ← find_by_name name (some id)
    if is_some existing then throw (conflict category_exists) else λ s.
        elim (prisma.update category_clash (λ c. c.id == id) (λ c. record c { name = name })
          s.categories) [ ok (c, t) ↦ (ok c, record s { categories = t }) | err e ↦ (err e, s) ]

  -- `category.delete`: the links to patents cascade.
  unfoldable pub delete_category : ℕ → Exec State (Unit {0})
  unfolding get_category_by_id
  delete_category id = do
    get_category_by_id id
    λ s.
        let (n, t) = prisma.delete_many (λ c. c.id == id) s.categories in
        if n == 0 then (err record_missing, s) else (
          ok tt,
          record s {
            categories = t;
            patent_categories =
                (prisma.delete_many (λ l. l.category_id == id) s.patent_categories).1;
          },
        )
