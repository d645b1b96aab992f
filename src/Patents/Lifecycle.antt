-- ===== src/Patents/Lifecycle.antt =====
-- src/services/patents/lifecycle.js: the patent state machine.
pub mod Applied
use smart_patents_storage_sy.Prelude.{
  ℕ, String, Bool, true, false, ◌&&◌, Option, none, some, List, [], ◌∷◌, map, ◌==◌, if◌then◌else◌,
  any,
}
use smart_patents_storage_sy.Prelude.Decimal.{◌&◌, join}
use smart_patents_storage_sy.Errors.{Error, conflict}
use smart_patents_storage_sy.Exec.{Exec, Result, ok, err, throw, gets, ◌>>=◌}
use smart_patents_storage_sy.Prisma.{Prisma}
use smart_patents_storage_sy.Schema.{
  PatentStatus, pending_ai, pending_admin, approved, declined, draft, Patent, PatentDetail,
}
use smart_patents_storage_sy.State.{State}
use smart_patents_storage_sy.Patents.Rows.{update_patents, find_detail}

pub data Action : Type 0 where
  submit approve decline : Action

-- `===` on statuses
abbrev pub same_status : PatentStatus → PatentStatus → Bool
same_status pending_ai pending_ai = true
same_status pending_admin pending_admin = true
same_status approved approved = true
same_status declined declined = true
same_status draft draft = true
same_status _ _ = false

abbrev pub includes : List PatentStatus → PatentStatus → Bool
includes statuses status = any (same_status status) statuses

abbrev pub status_text : PatentStatus → String
status_text pending_ai = "pending_ai"
status_text pending_admin = "pending_admin"
status_text approved = "approved"
status_text declined = "declined"
status_text draft = "draft"

abbrev pub action_text : Action → String
action_text submit = "submit"
action_text approve = "approve"
action_text decline = "decline"

-- The table `TRANSITIONS`.
abbrev pub rule_from : Action → List PatentStatus
rule_from submit = draft ∷ declined ∷ []
rule_from approve = pending_admin ∷ []
rule_from decline = pending_admin ∷ approved ∷ []

abbrev pub rule_to : Action → PatentStatus
rule_to submit = pending_admin
rule_to approve = approved
rule_to decline = declined

abbrev pub editable_statuses : List PatentStatus
editable_statuses = draft ∷ declined ∷ []

unfoldable pub transition_conflict : Action → String → Error
transition_conflict action status = conflict (
    "Cannot "
    & action_text action
    & " a patent with status \""
    & status
    & "\"; expected one of: "
    & join ", " (map status_text (rule_from action)))

unfoldable pub assert_transition : Patent → Action → Result PatentStatus
assert_transition patent action =
    if includes (rule_from action) patent.status
    then ok (rule_to action)
    else err (transition_conflict action (status_text patent.status))

abbrev pub status_or_unknown : Option Patent → String
status_or_unknown none = "unknown"
status_or_unknown (some p) = status_text p.status

module _ (prisma : Prisma) where
  -- The expected statuses stand in the condition of the write. `stamp` is the rest of `data`.
  unfoldable pub apply_transition :
      ℕ → Action → (Patent → Patent) → Exec State (Option PatentDetail)
  apply_transition id action stamp = do
    count ←
        update_patents prisma (λ p. p.id == id && includes (rule_from action) p.status)
          (λ p. stamp (record p { status = rule_to action }))
    if count == 0
        then (do
          current ← gets (λ s. prisma.find_first (λ p. p.id == id) s.patents)
          throw (transition_conflict action (status_or_unknown current)))
        else find_detail prisma id
