-- ===== src/Patents/Updating/Versions.antt =====
-- What an edit does to a patent, and when it counts as a new version.

use smart_patents_storage_sy.Prelude.{
  ℕ, ◌+◌, ◌≡◌, refl, ◌↔◌, String, true, false, Option, none, some, List, arith, if◌then◌else◌,
  Bool-cases, inl, inr, find-passes, eq_iff,
}
use smart_patents_storage_sy.Exec.{ok}
use smart_patents_storage_sy.Prisma.{Prisma}
use smart_patents_storage_sy.Prisma.Unique.{at_key, count-at_key, find-change}
use smart_patents_storage_sy.Schema.{Patent, PatentDetail, patent_clash}
use smart_patents_storage_sy.State.{State}
use smart_patents_storage_sy.Patents.Lifecycle.{includes, editable_statuses}
use smart_patents_storage_sy.Patents.Lifecycle.Applied.{IsUnique, patent_at, patent_keyed}
use smart_patents_storage_sy.Patents.Relations.{ResolvedLink}
use smart_patents_storage_sy.Patents.Editing.{
  Updates, content_changed, with_scalars, differs, key_differs,
}
use smart_patents_storage_sy.Patents.Updating.{update_tx, is_editable_at, edited}

-- The fields that `CONTENT_FIELDS` names are the same.
pub record SameContent (p q : Patent) : Type 0 where
  pub title : p.title ≡ q.title
  pub abstract : p.abstract ≡ q.abstract
  pub specification : p.specification ≡ q.specification
  pub document_key : p.document_key ≡ q.document_key

differs-false :
    (u : Option String) (old : String)
    → differs u old ≡ false
    → elim u [ none ↦ old | some new ↦ new ] ≡ old
differs-false none old h = refl
differs-false (some new) old h = (eq_iff new old).0 (ground arith)

differs_iff :
    (u : Option String) (old : String)
    → (differs u old ≡ false) ↔ (old ≡ elim u [ none ↦ old | some new ↦ new ])
differs_iff none old = ground arith
differs_iff (some new) old = ground (arith, eq_iff new old)

key_differs_iff :
    (u : Option String) (old : Option String)
    → (key_differs u old ≡ false) ↔ (old ≡ elim u [ none ↦ old | some new ↦ some new ])
key_differs_iff none old = ground arith
key_differs_iff (some new) none = ground arith
key_differs_iff (some new) (some old) = ground (arith, eq_iff new old)

-- `contentChanged` tells whether the written row differs in content from the row that was read.
pub content_changed_iff :
    (u : Updates) (p : Patent) → (content_changed u p ≡ false) ↔ SameContent p (with_scalars u p)
unfolding content_changed
content_changed_iff u p = ground (
  arith,
  differs_iff u.title p.title,
  differs_iff u.abstract p.abstract,
  differs_iff u.specification p.specification,
  key_differs_iff u.document_key p.document_key,
)

pub record IsEdited (id : ℕ) (u : Updates) (s t : State) (row : Patent) : Type 0 where
  pub legal : includes editable_statuses row.status ≡ true
  pub new : Patent
  pub there : patent_at id t ≡ some new
  pub status : new.status ≡ row.status
  pub submitter : new.submitted_by ≡ row.submitted_by
  pub same : SameContent row new ↔ (new.version ≡ row.version)
  pub version : new.version ≡ row.version + (if content_changed u row then 1 else 0)

edited_same :
    (u : Updates) (row : Patent)
    → SameContent row (edited u (content_changed u row) row)
      ↔ ((edited u (content_changed u row) row).version ≡ row.version)
edited_same u row = elim (Bool-cases (content_changed u row)) [
  | inl changed ↦ rw changed (
    (λ same. absurd (
        ground (
          arith,
          (content_changed_iff u row).1 record {
            title = same.title;
            abstract = same.abstract;
            specification = same.specification;
            document_key = same.document_key;
          },
        ))),
    (λ e. absurd (ground arith)),
  )
  | inr kept ↦ rw kept ((λ same. refl), (λ e. (content_changed_iff u row).0 kept))
]

module _ (prisma : Prisma) where
  -- An edit that is committed, its `contentChanged` decided on the row that it meets: the patent was a
  -- draft or declined, and keeps its status and its submitter; the version goes up by one if one of
  -- title, abstract, specification and document key changed, and stays the same exactly if none did.
  pub update_tx-IsEdited :
      (id : ℕ) (u : Updates) (links : Option (List ResolvedLink)) (categories : Option (List ℕ))
      (s : State) (row : Patent) (d : Option PatentDetail)
      → IsUnique s
      → patent_at id s ≡ some row
      → (update_tx prisma id u (content_changed u row) links categories s).0 ≡ ok d
      → IsEdited id u s (update_tx prisma id u (content_changed u row) links categories s).1 row
  unfolding update_tx
  update_tx-IsEdited id u links categories s row d unique there h =
      let changed = content_changed u row in
      let written =
        prisma.update_many_lem patent_clash (is_editable_at id) (edited u changed) s.patents in
      let counted =
        count-at_key (λ (p : Patent). p.id) patent_clash patent_keyed id
          (λ p. includes editable_statuses p.status) s.patents.rows unique in
      let seen =
        find-change (λ (p : Patent). p.id) (is_editable_at id) (edited u changed) id s.patents.rows
          (λ r. ground arith) in
      let here = find-passes (at_key (λ (p : Patent). p.id) id) s.patents.rows row there in
      let allowed : includes editable_statuses row.status ≡ true = ground arith in
      record {
        legal = allowed;
        new = edited u changed row;
        there = ground arith;
        status = ground arith;
        submitter = ground arith;
        same = edited_same u row;
        version = ground arith;
      }
