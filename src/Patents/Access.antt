-- ===== src/Patents/Access.antt =====
-- src/services/patents/access.js: who may see and touch which patents.
pub mod Visibility
use mathlib.Core.Option
use smart_patents_storage_sy.Prelude.{
  ℕ, String, Bool, true, false, ◌&&◌, ◌||◌, not, Option, none, some, List, [], ◌∷◌, ◌++◌, ◌==◌,
  str_eq, all, if◌then◌else◌, is_some,
}
use smart_patents_storage_sy.Errors.{forbidden, not_found}
use smart_patents_storage_sy.Exec.{Exec, pure, throw, gets, ◌>>=◌}
use smart_patents_storage_sy.Prisma.{Prisma}
use smart_patents_storage_sy.Schema.{
  Role, PatentStatus, approved, Patent, PatentDetail, PatentCategory,
}
use smart_patents_storage_sy.State.{State}
use smart_patents_storage_sy.Patents.Rows.{load_detail, find_detail}
use smart_patents_storage_sy.Patents.Lifecycle.{same_status}

-- `req.user`, which the authentication middleware attaches.
pub record Caller : Type 0 where
  pub user_id : ℕ
  pub role : Role

abbrev pub is_admin_role : Role → Bool
is_admin_role Role.admin = true
is_admin_role Role.user = false

abbrev pub is_admin : Caller → Bool
is_admin caller = is_admin_role caller.role

-- A `where` object is the test that it puts to a row; `{}` accepts every row.
unfoldable pub visibility_where : Caller → Patent → Bool
visibility_where caller p =
    if is_admin caller
    then true
    else p.submitted_by == caller.user_id || same_status p.status approved

pub record Filters : Type 0 where
  pub status : Option PatentStatus
  pub category_id : Option ℕ
  pub submitted_by : Option ℕ
  pub jurisdiction : Option String
  pub search : Option String

-- `...(value ? [condition] : [])`
abbrev clause {ℓ} : {A : Type ℓ} → Option A → (A → Patent → Bool) → List (Patent → Bool)
clause none test = []
clause (some a) test = test a ∷ []

abbrev text_clause : Option String → (String → Patent → Bool) → List (Patent → Bool)
text_clause none test = []
text_clause (some t) test = if str_eq t "" then [] else test t ∷ []

abbrev opt_test : (String → Bool) → Option String → Bool
opt_test test none = false
opt_test test (some t) = test t

abbrev has_value : String → Option String → Bool
has_value t none = false
has_value t (some u) = str_eq u t

module _ (prisma : Prisma) where
  open prisma use {find_first, contains_insensitive}

  abbrev in_category : State → ℕ → Patent → Bool
  in_category s c p = is_some (
      find_first (λ (l : PatentCategory). l.patent_id == p.id && l.category_id == c)
        s.patent_categories)

  -- The conditions of `AND`.
  unfoldable pub list_conditions : Filters → Caller → State → List (Patent → Bool)
  unfolding visibility_where
  list_conditions f caller s =
      visibility_where caller
      ∷ (clause f.status (λ status p. same_status p.status status)
          ++ (text_clause f.jurisdiction (λ j p. has_value j p.jurisdiction)
              ++ (clause f.submitted_by (λ u p. p.submitted_by == u)
                  ++ (clause f.category_id (in_category s)
                      ++ text_clause f.search (λ t p.
                        contains_insensitive p.title t
                        || contains_insensitive p.abstract t
                        || opt_test (λ n. contains_insensitive n t) p.publication_number)))))

  unfoldable pub build_list_filter : Filters → Caller → State → Patent → Bool
  build_list_filter f caller s p = all (λ test. test p) (list_conditions f caller s)

  unfoldable pub find_visible_patent : ℕ → Caller → Exec State PatentDetail
  find_visible_patent id caller = do
    patent ← gets (λ s.
        Option.map (load_detail prisma s)
          (find_first (λ p. p.id == id && visibility_where caller p) s.patents))
    elim patent [ none ↦ throw (not_found "Patent not found") | some p ↦ pure p ]

  unfoldable pub find_owned_patent : ℕ → Caller → Exec State PatentDetail
  find_owned_patent id caller = do
    patent ← find_detail prisma id
    elim patent [
      | none ↦ throw (not_found "Patent not found")
      | some p ↦
          if not (p.submitted_by == caller.user_id) && not (is_admin caller)
          then throw (forbidden "You can only modify patents you submitted")
          else pure p
    ]
