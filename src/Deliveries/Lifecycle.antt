-- ===== src/Deliveries/Lifecycle.antt =====
-- The life of a delivery (domain.go), against its status diagram.
use konumlu.Base.{
  ℕ, ◌≡◌, ◌≤◌, Bool, true, false, not, ◌&&◌, ◌||◌, none, some, arith, if◌then◌else◌, ok, err,
}
use konumlu.Deliveries.Domain.{
  invalid_transition, Status, ready, in_transit, delivered, cancelled, is_pending, is_ready,
  is_in_transit, is_delivered, is_cancelled, terminal, valid, skips_in_transit, Delivery, validate,
  Change, mark_ready, mark_in_transit, mark_delivered, cancel,
}

pub data Op : Type 0 where
  ready_op transit_op deliver_op cancel_op : Op

unfoldable pub step : Op → Delivery → ℕ → Change
step ready_op = mark_ready
step transit_op = mark_in_transit
step deliver_op = mark_delivered
step cancel_op = cancel

-- Whether the delivery is already where the operation leads.
abbrev pub reached : Op → Status → Bool
reached ready_op = is_ready
reached transit_op = is_in_transit
reached deliver_op = is_delivered
reached cancel_op = is_cancelled

-- The edges of the status diagram: a delivery by hand is handed over from where it is ready, and any
-- other one is on its way before it is delivered.
abbrev pub admits : Op → Delivery → Bool
admits ready_op d = is_pending d.status
admits transit_op d = is_ready d.status && not (skips_in_transit d.method)
admits deliver_op d =
    (is_ready d.status && skips_in_transit d.method)
    || (is_in_transit d.status && not (skips_in_transit d.method))
admits cancel_op d = not (terminal d.status)

abbrev pub written : Op → Delivery → ℕ → Delivery
written ready_op d now = record d { status = ready; updated_at = now }
written transit_op d now = record d {
  status = in_transit;
  updated_at = now;
  dispatched_at = some now;
}
written deliver_op d now = record d {
  status = delivered;
  updated_at = now;
  delivered_at = some now;
}
written cancel_op d now = record d { status = cancelled; updated_at = now; cancelled_at = some now }

-- The status diagram.
unfoldable pub expected : Op → Delivery → ℕ → Change
expected op d now =
    if reached op d.status
    then ok (d, false)
    else if admits op d
    then ok (written op d now, true)
    else err invalid_transition

-- The time of the last stamp, which an operation must not precede: the dispatch, or else the creation.
abbrev pub last_stamp : Delivery → ℕ
last_stamp d = elim d.dispatched_at [ some at ↦ at | none ↦ d.created_at ]

pub written-valid :
    (op : Op) (d : Delivery) (now : ℕ)
    → validate d ≡ ok tt
    → d.created_at ≤ now
    → last_stamp d ≤ now
    → admits op d ≡ true
    → validate (written op d now) ≡ ok tt
unfolding validate
written-valid ready_op d now v le ge a = ground arith
written-valid transit_op d now v le ge a = ground arith
written-valid deliver_op d now v le ge a = ground arith
written-valid cancel_op d now v le ge a = ground arith

valid-status : (d : Delivery) → validate d ≡ ok tt → valid d.status ≡ true
unfolding validate
valid-status d v = ground arith

-- On a valid delivery, at a time that is not before its creation and its dispatch, MarkReady,
-- MarkInTransit, MarkDelivered and Cancel do exactly what the status diagram says, where a
-- handoff or a pickup goes from ready to delivered and any other delivery is in transit in
-- between: the validation of the result never refuses it.
pub step_delivery-expected :
    (op : Op) (d : Delivery) (now : ℕ)
    → validate d ≡ ok tt
    → d.created_at ≤ now
    → last_stamp d ≤ now
    → step op d now ≡ expected op d now
unfolding step mark_ready mark_in_transit mark_delivered cancel expected
step_delivery-expected ready_op d now v le ge = ground (arith, written-valid ready_op d now v le ge)
step_delivery-expected transit_op d now v le ge =
    ground (arith, written-valid transit_op d now v le ge)
step_delivery-expected deliver_op d now v le ge =
    ground (arith, written-valid deliver_op d now v le ge, valid-status d v)
step_delivery-expected cancel_op d now v le ge =
    ground (arith, written-valid cancel_op d now v le ge, valid-status d v)

-- An operation that changes a delivery keeps its identity, its transaction and its parties, and has not
-- found it at its end.
pub step-same :
    (op : Op) (d d' : Delivery) (now : ℕ)
    → step op d now ≡ ok (d', true)
    → (d'.id ≡ d.id)
      × (d'.transaction_id ≡ d.transaction_id)
      × (d'.requester_user_id ≡ d.requester_user_id)
      × (d'.provider_user_id ≡ d.provider_user_id)
      × (terminal d.status ≡ false)
unfolding step mark_ready mark_in_transit mark_delivered cancel
step-same ready_op d d' now h = ground arith
step-same transit_op d d' now h = ground arith
step-same deliver_op d d' now h = ground arith
step-same cancel_op d d' now h = ground arith
