-- ===== src/Patents/Relations.antt =====
-- src/services/patents/relations.js: the id lists of a request as link rows.
pub mod Orders
pub mod Duplicates
pub mod Credits
use smart_patents_storage_sy.Prelude.{
  ℕ, suc, ◌+◌, String, Bool, true, false, ◌&&◌, not, Option, none, some, List, [], ◌∷◌, ◌++◌, map,
  ◌==◌, str_eq, any, keep, length, if◌then◌else◌, is_some,
}
use smart_patents_storage_sy.Prelude.Int.{ℤ, pos, leb_ℤ, eq_ℤ}
use smart_patents_storage_sy.Prelude.Sort.{sort}
use smart_patents_storage_sy.Prelude.Decimal.{◌&◌, join, big_int, decimal}
use smart_patents_storage_sy.Errors.{bad_request}
use smart_patents_storage_sy.Exec.{Exec, pure, throw, gets, ◌>>=◌, ◌>>◌}
use smart_patents_storage_sy.Prisma.{Prisma}
use smart_patents_storage_sy.Schema.{Inventor, Category}
use smart_patents_storage_sy.State.{State}

-- An entry of `inventors`: the id as text, and the order, if it is given.
pub record InventorEntry : Type 0 where
  pub inventor_id : String
  pub order : Option ℤ

pub record ResolvedLink : Type 0 where
  pub inventor_id : ℕ
  pub inventor_order : ℤ

abbrev pub has : List String → String → Bool
has xs x = any (str_eq x) xs

-- `Set.add` keeps the first place of a value.
abbrev add : List String → String → List String
add xs x = if has xs x then xs else xs ++ x ∷ []

-- The loop of `findDuplicates`, over the two sets.
duplicates_from : List String → List String → List String → List String
duplicates_from seen duplicates [] = duplicates
duplicates_from seen duplicates (v ∷ values) =
    duplicates_from (if has seen v then seen else seen ++ v ∷ [])
      (if has seen v then add duplicates v else duplicates) values

unfoldable pub find_duplicates : List String → List String
unfolding duplicates_from
find_duplicates values = duplicates_from [] [] values

-- The requested ids that `known` does not hold, as texts. Texts of BigInts are equal exactly when
-- the numbers are.
abbrev pub missing_from : List ℕ → List ℕ → List String
missing_from known ids = map decimal (keep (λ id. not (any (λ k. k == id) known)) ids)

abbrev pub refuse : Bool → String → Exec State (Unit {0})
refuse bad message = if bad then throw (bad_request message) else pure tt

abbrev pub not_empty {ℓ} : {A : Type ℓ} → List A → Bool
not_empty [] = false
not_empty (_ ∷ _) = true

-- `entry.order ?? index + 1`, for the entries from `index` on
unfoldable pub orders_from : ℕ → List InventorEntry → List ℤ
orders_from index [] = []
orders_from index (e ∷ es) =
    elim e.order [ none ↦ pos (index + 1) | some o ↦ o ] ∷ orders_from (index + 1) es

-- `every((value, index) => value === index + 1)`, from `index` on
unfoldable pub counts_up : ℕ → List ℤ → Bool
counts_up index [] = true
counts_up index (v ∷ values) = eq_ℤ v (pos (index + 1)) && counts_up (index + 1) values

unfoldable pub contiguous : List ℤ → Bool
unfolding counts_up
contiguous orders = counts_up 0 (sort leb_ℤ orders)

abbrev int_text : ℤ → String
int_text (pos n) = decimal n
int_text (ℤ.negsuc n) = "-" & decimal (suc n)

unfoldable pub links_from : ℕ → List InventorEntry → List ResolvedLink
links_from index [] = []
links_from index (e ∷ es) =
    record {
      inventor_id = big_int e.inventor_id;
      inventor_order = elim e.order [ none ↦ pos (index + 1) | some o ↦ o ];
    }
    ∷ links_from (index + 1) es

abbrev pub explicit_count : List InventorEntry → ℕ
explicit_count entries = length (keep (λ e. is_some e.order) entries)

module _ (prisma : Prisma) where
  open prisma use {find_many}

  abbrev missing_inventors : List ℕ → State → List String
  missing_inventors ids s =
      missing_from
        (map (λ r. r.id) (find_many (λ (r : Inventor). any (λ i. i == r.id) ids) s.inventors)) ids

  abbrev missing_categories : List ℕ → State → List String
  missing_categories ids s =
      missing_from
        (map (λ r. r.id) (find_many (λ (r : Category). any (λ i. i == r.id) ids) s.categories)) ids

  unfoldable pub resolve_inventor_links : List InventorEntry → Exec State (List ResolvedLink)
  resolve_inventor_links [] = pure []
  resolve_inventor_links (e ∷ es) = do
    let entries = e ∷ es
    let ids = map (λ e. e.inventor_id) entries
    let duplicate_ids = find_duplicates ids
    refuse (not_empty duplicate_ids)
        ("The same inventor cannot be listed twice on a patent: " & join ", " duplicate_ids)
    missing ← gets (missing_inventors (map big_int ids))
    refuse (not_empty missing) ("Unknown inventor id(s): " & join ", " missing)
    let explicit = explicit_count entries
    refuse (not (explicit == 0) && not (explicit == length entries))
        "Either give every inventor an explicit order, or none of them"
    let orders = orders_from 0 entries
    refuse (not (contiguous orders)) (
        "inventor order must be a contiguous sequence starting at 1, got: "
        & join ", " (map int_text orders))
    pure (links_from 0 entries)

  unfoldable pub resolve_category_ids : List String → Exec State (List ℕ)
  resolve_category_ids [] = pure []
  resolve_category_ids (c ∷ cs) = do
    let ids = c ∷ cs
    let duplicates = find_duplicates ids
    refuse (not_empty duplicates) ("Duplicate category id(s): " & join ", " duplicates)
    missing ← gets (missing_categories (map big_int ids))
    refuse (not_empty missing) ("Unknown category id(s): " & join ", " missing)
    pure (map big_int ids)
