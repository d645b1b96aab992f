-- ===== src/Patents/Access/Visibility.antt =====
-- Who sees a patent: by id, and in a listing.

use smart_patents_storage_sy.Prelude.{
  ℕ, ◌≡◌, true, ◌&&◌, none, some, ◌==◌, arith, if◌then◌else◌, ◌⊎◌,
}
use smart_patents_storage_sy.Errors.{not_found}
use smart_patents_storage_sy.Exec.{ok, err}
use smart_patents_storage_sy.Prisma.{Prisma}
use smart_patents_storage_sy.Prisma.Unique.{find-at_key}
use smart_patents_storage_sy.Schema.{Role, Patent, approved, patent_clash}
use smart_patents_storage_sy.State.{State}
use smart_patents_storage_sy.Patents.Rows.{load_detail}
use smart_patents_storage_sy.Patents.Lifecycle.Applied.{IsUnique, patent_at, patent_keyed}
use smart_patents_storage_sy.Patents.Access.{
  Caller, visibility_where, Filters, build_list_filter, list_conditions, find_visible_patent,
}

-- Why a caller may see a patent.
abbrev pub MaySee : Caller → Patent → Type 0
MaySee caller p =
    (caller.role ≡ Role.admin) ⊎ (p.submitted_by ≡ caller.user_id) ⊎ (p.status ≡ approved)

pub visible-MaySee :
    (caller : Caller) (p : Patent) → visibility_where caller p ≡ true → MaySee caller p
unfolding visibility_where
visible-MaySee caller p h = ground arith

module _ (prisma : Prisma) where
  -- Whatever the filters of a listing, each patent that passes them is visible to the caller: an admin
  -- asks, or the caller submitted it, or it is approved.
  pub build_list_filter-MaySee :
      (f : Filters) (caller : Caller) (s : State) (p : Patent)
      → build_list_filter prisma f caller s p ≡ true
      → MaySee caller p
  unfolding build_list_filter list_conditions
  build_list_filter-MaySee f caller s p h = visible-MaySee caller p (ground arith)

  -- Reading a patent by id: a missing patent and one that the caller may not see give the same 404,
  -- and a visible one is returned. Nothing is written.
  pub find_visible_patent-eq :
      (id : ℕ) (caller : Caller) (s : State)
      → IsUnique s
      → find_visible_patent prisma id caller s ≡ elim (patent_at id s) [
        | none ↦ (err (not_found "Patent not found"), s)
        | some p ↦
            if visibility_where caller p
            then (ok (load_detail prisma s p), s)
            else (err (not_found "Patent not found"), s)
      ]
  unfolding find_visible_patent
  find_visible_patent-eq id caller s u =
      let read = prisma.find_first_lem (λ p. p.id == id && visibility_where caller p) s.patents in
      let found =
        find-at_key (λ (p : Patent). p.id) patent_clash patent_keyed id (visibility_where caller)
          s.patents.rows u in
      ground arith
