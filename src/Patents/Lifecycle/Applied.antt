-- ===== src/Patents/Lifecycle/Applied.antt =====
-- What `applyTransition` has done when it returns, and when it throws.

use smart_patents_storage_sy.Prelude.{
  ℕ, ◌≡◌, refl, find-passes, Bool, true, false, ◌&&◌, Option, none, some, map, ◌==◌, if◌then◌else◌,
  find, keep, length, change, arith, inl, inr, Option-cases,
}
use smart_patents_storage_sy.Exec.{Result, ok}
use smart_patents_storage_sy.Prisma.{Prisma, no_clash}
use smart_patents_storage_sy.Prisma.Unique.{at_key, count-at_key, find-change}
use smart_patents_storage_sy.Schema.{Patent, PatentDetail, patent_clash}
use smart_patents_storage_sy.State.{State}
use smart_patents_storage_sy.Patents.Rows.{load_detail}
use smart_patents_storage_sy.Patents.Lifecycle.{
  Action, includes, rule_from, rule_to, apply_transition,
}

-- The row after the write.
abbrev pub moved : Action → (Patent → Patent) → Patent → Patent
moved action stamp p = stamp (record p { status = rule_to action })

abbrev pub selected : ℕ → Action → Patent → Bool
selected id action p = p.id == id && includes (rule_from action) p.status

-- The patents table after the write.
abbrev pub moved_patents : ℕ → Action → (Patent → Patent) → State → State
moved_patents id action stamp s = record s {
  patents = record s.patents {
    rows = map (change (selected id action) (moved action stamp)) s.patents.rows;
  };
}

abbrev pub patent_at : ℕ → State → Option Patent
patent_at id s = find (at_key (λ (p : Patent). p.id) id) s.patents.rows

abbrev pub IsUnique : State → Type 0
IsUnique s = no_clash patent_clash s.patents.rows ≡ true

pub patent_keyed : (p q : Patent) → patent_clash p q ≡ false → (p.id == q.id) ≡ false
patent_keyed p q h = ground arith

pub count-selected :
    (id : ℕ) (action : Action) (s : State)
    → IsUnique s
    → length (keep (selected id action) s.patents.rows) ≡ elim (patent_at id s) [
      | none ↦ 0
      | some p ↦ if includes (rule_from action) p.status then 1 else 0
    ]
count-selected id action s u =
    count-at_key (λ (p : Patent). p.id) patent_clash patent_keyed id
      (λ p. includes (rule_from action) p.status) s.patents.rows u

pub record Applied (id : ℕ) (action : Action) (stamp : Patent → Patent) (s : State)
    (r : Result (Option PatentDetail) × State) : Type 0 where
  pub row : Patent
  pub there : patent_at id s ≡ some row
  pub legal : includes (rule_from action) row.status ≡ true
  pub detail : PatentDetail
  pub detail_patent : detail.patent ≡ moved action stamp row
  pub after : r ≡ (ok (some detail), moved_patents id action stamp s)
  pub kept : IsUnique (moved_patents id action stamp s)

module _ (prisma : Prisma) where
  open prisma use {find_first_lem, update_many_lem}

  pub apply_transition-Applied :
      (id : ℕ) (action : Action) (stamp : Patent → Patent) (s : State)
      → ((p : Patent) → (stamp p).id ≡ p.id)
      → IsUnique s
      → (d : Option PatentDetail) → (apply_transition prisma id action stamp s).0 ≡ ok d
      → Applied id action stamp s (apply_transition prisma id action stamp s)
  unfolding apply_transition
  apply_transition-Applied id action stamp s keyed u d h =
      let counted = count-selected id action s u in
      let written =
        update_many_lem patent_clash (selected id action) (moved action stamp) s.patents in
      let t = moved_patents id action stamp s in
      let read = find_first_lem (at_key (λ (p : Patent). p.id) id) t.patents in
      let seen =
        find-change (λ (p : Patent). p.id) (selected id action) (moved action stamp) id
          s.patents.rows (λ r. keyed (record r { status = rule_to action })) in
      elim (Option-cases (patent_at id s)) [
        | inl gone ↦ absurd (ground arith)
        | inr (row, there) ↦
            let here = find-passes (at_key (λ (p : Patent). p.id) id) s.patents.rows row there in
            let allowed : includes (rule_from action) row.status ≡ true = ground arith in
            let arrived : patent_at id t ≡ some (moved action stamp row) = ground arith in
            record {
              row = row;
              there = there;
              legal = allowed;
              detail = load_detail prisma t (moved action stamp row);
              detail_patent = unfold load_detail in refl;
              after = ground arith;
              kept = ground arith;
            }
      ]
