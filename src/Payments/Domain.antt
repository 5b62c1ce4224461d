-- ===== src/Payments/Domain.antt =====
-- domain.go and gateway.go: the payment, its validation and its status changes. An instant is the number
-- of nanoseconds since Go's zero time; the clones of a payment are values here.
use konumlu.Base.{
  ℕ, Bool, true, false, not, ◌&&◌, ◌||◌, Option, none, some, List, ltb, ◌==◌, if◌then◌else◌,
  is_some, is_empty, Result, ok, err, ◌>>=◌, ◌>>◌, refuse, or_err,
}
use konumlu.Text.{trim_space}
use konumlu.Money.{Price, money_normalized}
use konumlu.Ids.{is_zero, new_id}

-- The package's errors, the context's (`canceled`), those of the database that the package maps, and
-- any other.
pub data Err : Type 0 where
  zero_id invalid_payment invalid_status invalid_transition invalid_amount store_required : Err
  unavailable not_found forbidden conflict not_priced not_payable : Err
  canceled db_no_rows db_conflict db_unavailable foreign : Err

-- A status text; `other` is one that the package does not name.
pub data Status : Type 0 where
  pending authorized captured failed cancelled : Status
  other : List ℕ → Status

-- `(s Status) valid`
abbrev pub valid : Status → Bool
valid (other _) = false
valid _ = true

abbrev pub is_pending : Status → Bool
is_pending pending = true
is_pending _ = false

abbrev pub is_authorized : Status → Bool
is_authorized authorized = true
is_authorized _ = false

abbrev pub is_captured : Status → Bool
is_captured captured = true
is_captured _ = false

abbrev pub is_failed : Status → Bool
is_failed failed = true
is_failed _ = false

abbrev pub is_cancelled : Status → Bool
is_cancelled cancelled = true
is_cancelled _ = false

-- `(s Status) Terminal` and `(s Status) ActiveIntent`
abbrev pub terminal : Status → Bool
terminal s = is_captured s || is_failed s || is_cancelled s

abbrev pub active_intent : Status → Bool
active_intent s = is_pending s || is_authorized s

pub record Payment : Type 0 where
  pub id : ℕ
  pub transaction_id : ℕ
  pub payer_user_id : ℕ
  pub payee_user_id : ℕ
  pub amount : Price
  pub status : Status
  pub provider : Option (List ℕ)
  pub provider_reference : Option (List ℕ)
  pub created_at : ℕ
  pub updated_at : ℕ
  pub authorized_at : Option ℕ
  pub captured_at : Option ℕ
  pub cancelled_at : Option ℕ
  pub failed_at : Option ℕ

-- A text that is set and blank.
abbrev pub blank : Option (List ℕ) → Bool
blank none = false
blank (some s) = is_empty (trim_space s)

-- validateProviderFields
unfoldable pub validate_provider : Option (List ℕ) → Option (List ℕ) → Result Err (Unit {0})
validate_provider provider ref = do
  refuse (blank provider) invalid_payment
  refuse (blank ref) invalid_payment

-- A time that is missing, or before another.
abbrev pub unset_or_before : ℕ → Option ℕ → Bool
unset_or_before t none = true
unset_or_before t (some at) = ltb at t

-- Whether the stamps are not those of the status: the switch at the end of Validate.
abbrev pub bad_stamps : Payment → Status → Bool
bad_stamps p pending =
    is_some p.authorized_at
    || is_some p.captured_at
    || is_some p.cancelled_at
    || is_some p.failed_at
bad_stamps p authorized =
    is_some p.captured_at
    || is_some p.cancelled_at
    || is_some p.failed_at
    || unset_or_before p.created_at p.authorized_at
bad_stamps p captured =
    is_some p.cancelled_at
    || is_some p.failed_at
    || elim p.authorized_at [ none ↦ true | some at ↦ unset_or_before at p.captured_at ]
bad_stamps p cancelled =
    is_some p.captured_at || is_some p.failed_at || unset_or_before p.created_at p.cancelled_at
bad_stamps p failed =
    is_some p.captured_at || is_some p.cancelled_at || unset_or_before p.created_at p.failed_at
bad_stamps p (other _) = false

-- `(p Payment) Validate`
unfoldable pub validate : Payment → Result Err (Unit {0})
validate p = do
  refuse
      (is_zero p.id
        || is_zero p.transaction_id
        || is_zero p.payer_user_id
        || is_zero p.payee_user_id)
      zero_id
  refuse (p.payer_user_id == p.payee_user_id) invalid_payment
  refuse (not (valid p.status)) invalid_status
  money_normalized invalid_amount p.amount
  refuse (is_zero p.created_at || ltb p.updated_at p.created_at) invalid_payment
  validate_provider p.provider p.provider_reference
  refuse (bad_stamps p p.status) invalid_payment

-- `(p Payment) Participant`
abbrev pub participant : Payment → ℕ → Bool
participant p user =
    if is_zero user then false else p.payer_user_id == user || p.payee_user_id == user

pub record CreateCommand : Type 0 where
  pub transaction_id : ℕ
  pub payer_user_id : ℕ
  pub payee_user_id : ℕ
  pub amount : Price

-- The value that CreatePending makes, before it is validated.
abbrev pub pending_from : ℕ → CreateCommand → Price → ℕ → Payment
pending_from id cmd amount now = record {
  id = id;
  transaction_id = cmd.transaction_id;
  payer_user_id = cmd.payer_user_id;
  payee_user_id = cmd.payee_user_id;
  amount = amount;
  status = pending;
  provider = none;
  provider_reference = none;
  created_at = now;
  updated_at = now;
  authorized_at = none;
  captured_at = none;
  cancelled_at = none;
  failed_at = none;
}

-- CreatePending, over the random bytes of the identifier
unfoldable pub create_pending : Option ℕ → CreateCommand → ℕ → Result Err Payment
create_pending rand cmd now = do
  refuse (is_zero cmd.transaction_id || is_zero cmd.payer_user_id || is_zero cmd.payee_user_id)
      zero_id
  refuse (is_zero now) invalid_payment
  amount ← money_normalized invalid_amount cmd.amount
  id ← or_err (new_id rand) unavailable
  let p = pending_from id cmd amount now
  validate p
  ok p

-- ProviderSignal
pub record ProviderSignal : Type 0 where
  pub provider : Option (List ℕ)
  pub provider_reference : Option (List ℕ)

-- A signal's text in its trimmed form, or what was there where it is missing or blank.
abbrev pub signalled : Option (List ℕ) → Option (List ℕ) → Option (List ℕ)
signalled none old = old
signalled (some s) old = if is_empty (trim_space s) then old else some (trim_space s)

-- applySignal
unfoldable pub apply_signal : ProviderSignal → Payment → Payment
apply_signal signal p = record p {
  provider = signalled signal.provider p.provider;
  provider_reference = signalled signal.provider_reference p.provider_reference;
}

-- A status change returns the payment and whether it has changed.
abbrev pub Change : Type 0
Change = Result Err (Payment × Bool)

-- applySignal and Validate, at the end of each status change
abbrev pub changed : ProviderSignal → Payment → Change
changed signal next = let p = apply_signal signal next in validate p >> ok (p, true)

-- `(p Payment) Authorize`
unfoldable pub authorize : ProviderSignal → Payment → ℕ → Change
authorize signal p now =
    if is_authorized p.status
    then ok (p, false)
    else if not (is_pending p.status)
    then err invalid_transition
    else changed signal
        (record p { status = authorized; updated_at = now; authorized_at = some now })

-- `(p Payment) Capture`
unfoldable pub capture : ProviderSignal → Payment → ℕ → Change
capture signal p now =
    if is_captured p.status
    then ok (p, false)
    else if not (is_authorized p.status)
    then err invalid_transition
    else changed signal (record p { status = captured; updated_at = now; captured_at = some now })

-- `(p Payment) Cancel`
unfoldable pub cancel : ProviderSignal → Payment → ℕ → Change
cancel signal p now =
    if is_cancelled p.status
    then ok (p, false)
    else if not (is_pending p.status) && not (is_authorized p.status)
    then err invalid_transition
    else changed signal (record p { status = cancelled; updated_at = now; cancelled_at = some now })

-- `(p Payment) Fail`
unfoldable pub fail : ProviderSignal → Payment → ℕ → Change
fail signal p now =
    if is_failed p.status
    then ok (p, false)
    else if not (is_pending p.status) && not (is_authorized p.status)
    then err invalid_transition
    else changed signal (record p { status = failed; updated_at = now; failed_at = some now })
