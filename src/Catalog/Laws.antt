-- ===== src/Catalog/Laws.antt =====
-- What the catalogue keeps: distinct names, and the credits of patents.
use smart_patents_storage_sy.Prelude.{
  ℕ, ◌≡◌, refl, String, Bool, true, false, ◌&&◌, not, none, some, List, [], ◌∷◌, ◌==◌, ltb, keep,
  find, any, length, arith, Option-cases, inl, inr,
}
use smart_patents_storage_sy.Exec.{is_ok}
use smart_patents_storage_sy.Prisma.{Prisma, no_clash}
use smart_patents_storage_sy.Prisma.Unique.{no_clash-append}
use smart_patents_storage_sy.Schema.{Inventor, PatentInventor, Category}
use smart_patents_storage_sy.State.{State}
use smart_patents_storage_sy.Patents.Access.{Caller, is_admin}
use smart_patents_storage_sy.Catalog.Categories.{create_category, category_clash, same_name}
use smart_patents_storage_sy.Catalog.Inventors.{
  delete_inventor, update_inventor, is_credit_of, is_linked_to, InventorUpdates,
}

none_deleted :
    (id : ℕ) (rows : List PatentInventor)
    → ltb 0 (length (keep (is_credit_of id) rows)) ≡ false
    → keep (λ l. not (is_credit_of id l)) rows ≡ rows
none_deleted id [] h = refl
none_deleted id (l ∷ ls) h = ground (arith, none_deleted id ls)

any-none :
    (p q : Category → Bool) (rows : List Category)
    → ((c : Category) → p c ≡ q c)
    → find p rows ≡ none
    → any q rows ≡ false
any-none p q [] same h = refl
any-none p q (c ∷ cs) same h = ground (arith, same c, any-none p q cs same)

unlinked_row :
    (id user_id : ℕ) (rows : List Inventor) (row : Inventor)
    → any (λ (i : Inventor). i.id == id && is_linked_to user_id i) rows ≡ false
    → find (λ (i : Inventor). i.id == id) rows ≡ some row
    → is_linked_to user_id row ≡ false
unlinked_row id user_id [] row h there = ground arith
unlinked_row id user_id (i ∷ is) row h there = ground (arith, unlinked_row id user_id is row)

module _ (prisma : Prisma) where
  -- Deleting an inventor, with no other request in between, never takes a credit of a patent away: the
  -- cascade meets no row, whatever the outcome.
  pub delete_inventor-keeps_credits :
      (id : ℕ) (s : State)
      → (delete_inventor prisma id s).1.patent_inventors.rows ≡ s.patent_inventors.rows
  unfolding delete_inventor
  delete_inventor-keeps_credits id s =
      let counted = prisma.count_lem (is_credit_of id) s.patent_inventors in
      let gone = prisma.delete_many_lem (is_credit_of id) s.patent_inventors in
      let kept = none_deleted id s.patent_inventors.rows in ground arith

  -- No two categories have the same name up to case.
  abbrev pub HasDistinctNames : State → Type 0
  HasDistinctNames s =
      no_clash (λ (c d : Category). prisma.equals_insensitive c.name d.name) s.categories.rows
      ≡ true

  -- Creating a category, with no other request in between, keeps the names distinct up to case.
  pub create_category-HasDistinctNames :
      (name : String) (s : State)
      → HasDistinctNames s
      → HasDistinctNames (create_category prisma name s).1
  unfolding create_category
  create_category-HasDistinctNames name s h =
      let clash = λ (c d : Category). prisma.equals_insensitive c.name d.name in
      let new : Category = record { id = s.categories.next; name = name } in
      let read = prisma.find_first_lem (same_name prisma name none) s.categories in
      let made =
        prisma.create_lem category_clash (λ id. record { id = id; name = name }) s.categories in
      let free =
        any-none (same_name prisma name none) (λ c. clash c new) s.categories.rows
          (λ c. ground arith) in
      let kept = no_clash-append clash s.categories.rows new h in ground arith

  -- Only an admin or the user that an inventor is linked to changes the inventors: for any other
  -- caller an edit fails and writes nothing.
  pub update_inventor-refused :
      (id : ℕ) (u : InventorUpdates) (caller : Caller) (s : State)
      → is_admin caller ≡ false
      → any (λ (i : Inventor). i.id == id && is_linked_to caller.user_id i) s.inventors.rows ≡ false
      → (is_ok (update_inventor prisma id u caller s).0 ≡ false)
        × ((update_inventor prisma id u caller s).1 ≡ s)
  unfolding update_inventor
  update_inventor-refused id u caller s plain unlinked =
      let read = prisma.find_first_lem (λ (i : Inventor). i.id == id) s.inventors in
      elim (Option-cases (find (λ (i : Inventor). i.id == id) s.inventors.rows)) [
        | inl gone ↦ ground arith
        | inr (row, there) ↦
            let foreign = unlinked_row id caller.user_id s.inventors.rows row unlinked there in
            ground arith
      ]
