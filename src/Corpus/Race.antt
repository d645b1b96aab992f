-- ===== src/Corpus/Race.antt =====
-- Two reviews of one patent whose statements interleave: the status re-read at the start of the
-- transaction of `review` is not the one that the write finds.
use smart_patents_storage_sy.Prelude.{
  ℕ, String, ◌≡◌, refl, ◌∙◌, true, false, Option, some, arith, find-passes,
}
use mathlib.Core.List.{append-nil}
use smart_patents_storage_sy.Exec.{ok}
use smart_patents_storage_sy.Prisma.{Prisma}
use smart_patents_storage_sy.Prisma.Unique.{at_key, find-change}
use smart_patents_storage_sy.Schema.{Patent, PatentDetail, approved, pending_admin, ReviewDecision}
use smart_patents_storage_sy.State.{State}
use smart_patents_storage_sy.Patents.Lifecycle.{Action}
use smart_patents_storage_sy.Patents.Lifecycle.Applied.{patent_at, selected, moved}
use smart_patents_storage_sy.Patents.Review.{Moment, review_body, decline_event, stamp_reviewed}
use smart_patents_storage_sy.Patents.Review.Effects.{review_body-Reviewed}
use smart_patents_storage_sy.Corpus.Defs.{IsConsistent, in_corpus, is_approved}

module _ (prisma : Prisma) (id : ℕ) (comments : Option String) (admin_id : ℕ) (m : Moment)
    (s : State) where
  -- A decline that has read `pending_admin`, while an approval was committed before its write: if it
  -- returns, the patent is no longer approved, and the consumer still holds it.
  pub stale_decline-keeps_corpus :
      (row : Patent) (d : PatentDetail)
      → IsConsistent s
      → patent_at id s ≡ some row
      → row.status ≡ approved
      → (review_body prisma id Action.decline ReviewDecision.fail comments admin_id
          (decline_event m)
          m
          (some pending_admin)
          s).0
        ≡ ok d
      → let t =
          (review_body prisma id Action.decline ReviewDecision.fail comments admin_id
            (decline_event m)
            m
            (some pending_admin)
            s).1 in
        (in_corpus id t ≡ true) × (is_approved (patent_at id t) ≡ false)
  stale_decline-keeps_corpus row d c there was h =
      let r =
        review_body-Reviewed prisma id Action.decline ReviewDecision.fail comments admin_id
          (decline_event m) m (some pending_admin) s c.unique d h in
      let seen : r.status ≡ pending_admin = ground (arith, r.seen) in
      let here = find-passes (at_key (λ (p : Patent). p.id) id) s.patents.rows row there in
      let step =
        find-change (λ (p : Patent). p.id) (selected id Action.decline)
          (moved Action.decline (stamp_reviewed m.now)) id s.patents.rows (λ p. refl) in
      (
        rw (r.events, seen, append-nil) (c.agree id ∙ (rw (there, was) refl)),
        rw (r.patents) (ground arith),
      )
