-- ===== src/Patents/Rows.antt =====
-- Queries and writes on the patent tables through the database client, and the relations that
-- `PATENT_INCLUDE` loads (src/services/patents/access.js).
use mathlib.Core.Option
use smart_patents_storage_sy.Prelude.{any, ◌&&◌, ℕ, Bool, Option, none, some, List, [], ◌∷◌, ◌==◌}
use smart_patents_storage_sy.Prelude.Int.{leb_ℤ}
use smart_patents_storage_sy.Prelude.Sort.{sort}
use smart_patents_storage_sy.Exec.{Exec, ok, err, gets}
use smart_patents_storage_sy.Prisma.{Prisma}
use smart_patents_storage_sy.Schema.{
  User, Patent, PatentDetail, Party, InventorLink, patent_clash, PatentInventor, Inventor,
}
use smart_patents_storage_sy.State.{State}

-- the links whose other end is there
collect {ℓ κ} : {A : Type ℓ} {B : Type κ} → (A → Option B) → List A → List B
collect f [] = []
collect f (x ∷ xs) = elim (f x) [ none ↦ collect f xs | some y ↦ y ∷ collect f xs ]

abbrev pub party : User → Party
party u = record { id = u.id; name = u.name; email = u.email }

module _ (prisma : Prisma) where
  open prisma use {find_first, find_many, update_many}

  abbrev load_link : State → PatentInventor → Option InventorLink
  load_link s l =
      Option.map (λ i. record { inventor = i; inventor_order = l.inventor_order })
        (find_first (λ (i : Inventor). i.id == l.inventor_id) s.inventors)

  unfoldable pub load_detail : State → Patent → PatentDetail
  unfolding collect
  load_detail s p = record {
    patent = p;
    submitter = Option.map party (find_first (λ u. u.id == p.submitted_by) s.users);
    categories =
        collect (λ l. find_first (λ c. c.id == l.category_id) s.categories)
          (find_many (λ l. l.patent_id == p.id) s.patent_categories);
    inventors = collect (load_link s) (
        sort (λ a b. leb_ℤ a.inventor_order b.inventor_order)
          (find_many (λ l. l.patent_id == p.id) s.patent_inventors));
  }

  -- `patent.findUnique({ where: { id }, include: PATENT_INCLUDE })`
  abbrev pub find_detail : ℕ → Exec State (Option PatentDetail)
  find_detail id = gets (λ s. Option.map (load_detail s) (find_first (λ p. p.id == id) s.patents))

  -- `patent.updateMany`
  abbrev pub update_patents : (Patent → Bool) → (Patent → Patent) → Exec State ℕ
  update_patents p f s = elim (update_many patent_clash p f s.patents) [
    | ok (n, t) ↦ (ok n, record s { patents = t })
    | err e ↦ (err e, s)
  ]

  -- `patent.deleteMany`: the links and the reviews of a deleted patent cascade.
  abbrev pub delete_patents : (Patent → Bool) → Exec State ℕ
  delete_patents p s =
      let (n, t) = prisma.delete_many p s.patents in
      let gone = λ (id : ℕ). any (λ q. q.id == id && p q) s.patents.rows in
      (
        ok n,
        record s {
          patents = t;
          patent_reviews = (prisma.delete_many (λ r. gone r.patent_id) s.patent_reviews).1;
          patent_inventors = (prisma.delete_many (λ l. gone l.patent_id) s.patent_inventors).1;
          patent_categories = (prisma.delete_many (λ l. gone l.patent_id) s.patent_categories).1;
        },
      )

  -- `patentCategory.deleteMany` and `patentInventor.deleteMany`
  abbrev pub delete_category_links : ℕ → Exec State ℕ
  delete_category_links id s =
      let (n, t) = prisma.delete_many (λ l. l.patent_id == id) s.patent_categories in
      (ok n, record s { patent_categories = t })

  abbrev pub delete_inventor_links : ℕ → Exec State ℕ
  delete_inventor_links id s =
      let (n, t) = prisma.delete_many (λ l. l.patent_id == id) s.patent_inventors in
      (ok n, record s { patent_inventors = t })
