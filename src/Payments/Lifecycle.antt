-- ===== src/Payments/Lifecycle.antt =====
-- The life of a payment (domain.go), against its status diagram.
use konumlu.Base.{
  ℕ, ◌≡◌, ◌≤◌, Bool, true, false, Option, none, some, List, arith, if◌then◌else◌, ok, err,
}
use konumlu.Text.{trim_space_idem}
use konumlu.Payments.Domain.{
  invalid_transition, Status, authorized, captured, failed, cancelled, is_pending, is_authorized,
  is_captured, is_failed, is_cancelled, active_intent, Payment, validate, blank, validate_provider,
  ProviderSignal, signalled, apply_signal, Change, authorize, capture, cancel, fail,
}

pub data Op : Type 0 where
  authorize_op capture_op cancel_op fail_op : Op

unfoldable pub step : Op → ProviderSignal → Payment → ℕ → Change
unfolding authorize capture cancel fail
step authorize_op = authorize
step capture_op = capture
step cancel_op = cancel
step fail_op = fail

-- Whether the payment is already where the operation leads.
abbrev pub reached : Op → Status → Bool
reached authorize_op = is_authorized
reached capture_op = is_captured
reached cancel_op = is_cancelled
reached fail_op = is_failed

-- The statuses from which the operation may lead.
abbrev pub admits : Op → Status → Bool
admits authorize_op = is_pending
admits capture_op = is_authorized
admits cancel_op = active_intent
admits fail_op = active_intent

-- The payment that the operation writes, before the signal.
abbrev pub written : Op → Payment → ℕ → Payment
written authorize_op p now = record p {
  status = authorized;
  updated_at = now;
  authorized_at = some now;
}
written capture_op p now = record p { status = captured; updated_at = now; captured_at = some now }
written cancel_op p now = record p { status = cancelled; updated_at = now; cancelled_at = some now }
written fail_op p now = record p { status = failed; updated_at = now; failed_at = some now }

-- The status diagram.
unfoldable pub expected : Op → ProviderSignal → Payment → ℕ → Change
expected op signal p now =
    if reached op p.status
    then ok (p, false)
    else if admits op p.status
    then ok (apply_signal signal (written op p now), true)
    else err invalid_transition

-- A signal never leaves a blank text where there was none.
signalled_set : (new old : Option (List ℕ)) → blank old ≡ false → blank (signalled new old) ≡ false
signalled_set none old h = h
signalled_set (some s) old h = ground (arith, trim_space_idem s)

-- The time of the last change, which an operation must not precede: the authorization, or else the
-- creation.
abbrev pub last_change : Payment → ℕ
last_change p = elim p.authorized_at [ some at ↦ at | none ↦ p.created_at ]

step-valid :
    (op : Op) (signal : ProviderSignal) (p : Payment) (now : ℕ)
    → validate p ≡ ok tt
    → p.created_at ≤ now
    → last_change p ≤ now
    → admits op p.status ≡ true
    → validate (apply_signal signal (written op p now)) ≡ ok tt
unfolding validate validate_provider apply_signal
step-valid authorize_op signal p now v le ge a = ground (
  arith,
  signalled_set signal.provider p.provider,
  signalled_set signal.provider_reference p.provider_reference,
)
step-valid capture_op signal p now v le ge a = ground (
  arith,
  signalled_set signal.provider p.provider,
  signalled_set signal.provider_reference p.provider_reference,
)
step-valid cancel_op signal p now v le ge a = ground (
  arith,
  signalled_set signal.provider p.provider,
  signalled_set signal.provider_reference p.provider_reference,
)
step-valid fail_op signal p now v le ge a = ground (
  arith,
  signalled_set signal.provider p.provider,
  signalled_set signal.provider_reference p.provider_reference,
)

-- On a valid payment, not before its creation and its authorization, Authorize, Capture, Cancel
-- and Fail do exactly what the status diagram says, whatever the provider signals: the validation
-- of the result never refuses it.
pub step-expected :
    (op : Op) (signal : ProviderSignal) (p : Payment) (now : ℕ)
    → validate p ≡ ok tt
    → p.created_at ≤ now
    → last_change p ≤ now
    → step op signal p now ≡ expected op signal p now
unfolding step authorize capture cancel fail expected
step-expected authorize_op signal p now v le ge =
    ground (arith, step-valid authorize_op signal p now v le ge)
step-expected capture_op signal p now v le ge =
    ground (arith, step-valid capture_op signal p now v le ge)
step-expected cancel_op signal p now v le ge =
    ground (arith, step-valid cancel_op signal p now v le ge)
step-expected fail_op signal p now v le ge = ground (arith, step-valid fail_op signal p now v le ge)

-- An operation that changes a payment keeps its identity, its transaction, its parties and its amount.
pub step-same :
    (op : Op) (signal : ProviderSignal) (p p' : Payment) (now : ℕ)
    → step op signal p now ≡ ok (p', true)
    → (p'.id ≡ p.id)
      × (p'.transaction_id ≡ p.transaction_id)
      × (p'.payer_user_id ≡ p.payer_user_id)
      × (p'.payee_user_id ≡ p.payee_user_id)
      × (p'.amount ≡ p.amount)
      × (p'.created_at ≡ p.created_at)
unfolding step authorize capture cancel fail apply_signal
step-same authorize_op signal p p' now h = ground arith
step-same capture_op signal p p' now h = ground arith
step-same cancel_op signal p p' now h = ground arith
step-same fail_op signal p p' now h = ground arith
