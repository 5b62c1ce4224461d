-- ===== src/Transactions/Domain.antt =====
-- domain.go: the transaction, its validation and its status changes. An instant is the number of
-- nanoseconds since Go's zero time, which is 0; UTC() keeps the instant. Copies (cloneTxn) are values
-- here.
use konumlu.Base.{
  ℕ, Bool, true, false, not, ◌&&◌, ◌||◌, Option, none, some, List, ltb, ◌==◌, if◌then◌else◌,
  is_some, Result, ok, err, ◌>>=◌, ◌>>◌, refuse, or_err,
}
use konumlu.Money.{Price, normalized}
use konumlu.Ids.{is_zero, new_id}

-- The package's errors, the context's (`canceled`), those of the database and the outbox that the
-- package maps, and any other.
pub data Err : Type 0 where
  zero_id invalid_txn invalid_status invalid_transition invalid_price store_required : Err
  unavailable not_found forbidden conflict not_accepted : Err
  need_draft need_cancelled need_expired need_fulfilled : Err
  canceled db_no_rows db_conflict db_unavailable : Err
  outbox_conflict outbox_unavailable outbox_invalid_event outbox_sensitive_payload foreign : Err

-- A status text; `other` is one that the package does not name.
pub data Status : Type 0 where
  pending active completed cancelled : Status
  other : List ℕ → Status

-- `(s Status) valid`
abbrev pub valid : Status → Bool
valid pending = true
valid active = true
valid completed = true
valid cancelled = true
valid (other _) = false

abbrev pub is_pending : Status → Bool
is_pending pending = true
is_pending _ = false

abbrev pub is_active : Status → Bool
is_active active = true
is_active _ = false

abbrev pub is_completed : Status → Bool
is_completed completed = true
is_completed _ = false

abbrev pub is_cancelled : Status → Bool
is_cancelled cancelled = true
is_cancelled _ = false

-- `(s Status) Terminal`
abbrev pub terminal : Status → Bool
terminal s = is_completed s || is_cancelled s

pub record Transaction : Type 0 where
  pub id : ℕ
  pub offer_id : ℕ
  pub need_id : ℕ
  pub requester_user_id : ℕ
  pub provider_user_id : ℕ
  pub provider_business_id : ℕ
  pub service_id : ℕ
  pub price : Option Price
  pub status : Status
  pub created_at : ℕ
  pub updated_at : ℕ
  pub completed_at : Option ℕ
  pub cancelled_at : Option ℕ

-- `(p *Price) normalized`
abbrev pub price_normalized : Option Price → Result Err (Option Price)
price_normalized = normalized invalid_price

-- One of the two stamps is set, not before the creation, and the other is not.
abbrev pub stamped : ℕ → Option ℕ → Option ℕ → Result Err (Unit {0})
stamped created (some at) none = refuse (ltb at created) invalid_txn
stamped created (some at) (some _) = err invalid_txn
stamped created none _ = err invalid_txn

-- The switch on the status at the end of Validate.
abbrev pub check_stamps : Status → ℕ → Option ℕ → Option ℕ → Result Err (Unit {0})
check_stamps completed created done gone = stamped created done gone
check_stamps cancelled created done gone = stamped created gone done
check_stamps _ created done gone = refuse (is_some done || is_some gone) invalid_txn

-- `(t Transaction) Validate`
unfoldable pub validate : Transaction → Result Err (Unit {0})
validate t = do
  refuse
      (is_zero t.id
        || is_zero t.offer_id
        || is_zero t.need_id
        || is_zero t.requester_user_id
        || is_zero t.provider_user_id
        || is_zero t.provider_business_id
        || is_zero t.service_id)
      zero_id
  refuse (t.requester_user_id == t.provider_user_id) invalid_txn
  refuse (not (valid t.status)) invalid_status
  price_normalized t.price
  refuse (is_zero t.created_at || ltb t.updated_at t.created_at) invalid_txn
  check_stamps t.status t.created_at t.completed_at t.cancelled_at

-- `(t Transaction) Participant`
abbrev pub participant : Transaction → ℕ → Bool
participant t user =
    if is_zero user then false else t.requester_user_id == user || t.provider_user_id == user

pub record AcceptedSource : Type 0 where
  pub offer_id : ℕ
  pub need_id : ℕ
  pub requester_user_id : ℕ
  pub provider_user_id : ℕ
  pub provider_business_id : ℕ
  pub service_id : ℕ
  pub price : Option Price

-- The value that CreatePending makes, before it is validated.
abbrev pub pending_from : ℕ → AcceptedSource → Option Price → ℕ → Transaction
pending_from id src price now = record {
  id = id;
  offer_id = src.offer_id;
  need_id = src.need_id;
  requester_user_id = src.requester_user_id;
  provider_user_id = src.provider_user_id;
  provider_business_id = src.provider_business_id;
  service_id = src.service_id;
  price = price;
  status = pending;
  created_at = now;
  updated_at = now;
  completed_at = none;
  cancelled_at = none;
}

-- `if err := next.Validate(); err != nil { return err }`, and the value
abbrev pub validated : Transaction → Result Err Transaction
validated t = validate t >>= λ _. ok t

-- CreatePending, over the random bytes of the identifier
unfoldable pub create_pending : Option ℕ → AcceptedSource → ℕ → Result Err Transaction
create_pending rand src now = do
  refuse
      (is_zero src.offer_id
        || is_zero src.need_id
        || is_zero src.requester_user_id
        || is_zero src.provider_user_id
        || is_zero src.provider_business_id
        || is_zero src.service_id)
      zero_id
  refuse (is_zero now) invalid_txn
  price ← price_normalized src.price
  id ← or_err (new_id rand) unavailable
  validated (pending_from id src price now)

-- `withStatus`
abbrev pub with_status : Transaction → Status → ℕ → Transaction
with_status t next now = record t { status = next; updated_at = now }

-- A status change returns the transaction and whether it has changed.
abbrev pub Change : Type 0
Change = Result Err (Transaction × Bool)

abbrev pub changed : Transaction → Change
changed t = validate t >>= λ _. ok (t, true)

-- `(t Transaction) Start`
unfoldable pub start : Transaction → ℕ → Change
start t now =
    if is_active t.status
    then ok (t, false)
    else if not (is_pending t.status)
    then err invalid_transition
    else changed (with_status t active now)

-- `(t Transaction) Complete`
unfoldable pub complete : Transaction → ℕ → Change
complete t now =
    if is_completed t.status
    then ok (t, false)
    else if not (is_active t.status)
    then err invalid_transition
    else changed (record t { status = completed; updated_at = now; completed_at = some now })

-- `(t Transaction) Cancel`
unfoldable pub cancel : Transaction → ℕ → Change
cancel t now =
    if is_cancelled t.status
    then ok (t, false)
    else if not (is_pending t.status) && not (is_active t.status)
    then err invalid_transition
    else changed (record t { status = cancelled; updated_at = now; cancelled_at = some now })
