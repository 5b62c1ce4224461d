-- ===== src/Disputes/Lifecycle.antt =====
-- The life of a dispute (domain.go), against its status diagram.
use konumlu.Base.{ℕ, Bool, true, false, not, some, List, if◌then◌else◌, ok, err}
use konumlu.Disputes.Domain.{
  invalid_transition, invalid_resolution, conflict, Status, under_review, resolved, closed,
  withdrawn, is_open, is_under_review, is_resolved, is_closed, is_withdrawn, valid_resolution,
  has_code, Dispute, Change, start_review, resolve, close, withdraw,
}

-- The operations; a resolution has its code.
pub data Op : Type 0 where
  review_op close_op withdraw_op : Op
  resolve_op : List ℕ → Op

unfoldable pub step : Op → Dispute → ℕ → Change
step review_op = start_review
step (resolve_op code) = resolve code
step close_op = close
step withdraw_op = withdraw

-- Whether the dispute is already where the operation leads.
abbrev pub reached : Op → Status → Bool
reached review_op = is_under_review
reached (resolve_op _) = is_resolved
reached close_op = is_closed
reached withdraw_op = is_withdrawn

-- Whether it got there by the same resolution, and whether the operation names a resolution.
abbrev pub same_outcome : Op → Dispute → Bool
same_outcome (resolve_op code) d = has_code d.resolution_code code
same_outcome _ d = true

abbrev pub named : Op → Bool
named (resolve_op code) = valid_resolution code
named _ = true

-- The edges of the status diagram.
abbrev pub admits : Op → Status → Bool
admits review_op = is_open
admits (resolve_op _) = is_under_review
admits close_op = is_resolved
admits withdraw_op = is_open

abbrev pub written : Op → Dispute → ℕ → Dispute
written review_op d now = record d { status = under_review; updated_at = now }
written (resolve_op code) d now = record d {
  status = resolved;
  updated_at = now;
  resolved_at = some now;
  resolution_code = some code;
}
written close_op d now = record d { status = closed; updated_at = now }
written withdraw_op d now = record d { status = withdrawn; updated_at = now }

-- The status diagram.
unfoldable pub expected : Op → Dispute → ℕ → Change
expected op d now =
    if not (named op)
    then err invalid_resolution
    else if reached op d.status
    then (if same_outcome op d then ok (d, false) else err conflict)
    else if admits op d.status
    then ok (written op d now, true)
    else err invalid_transition
