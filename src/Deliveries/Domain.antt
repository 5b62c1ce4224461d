-- ===== src/Deliveries/Domain.antt =====
-- domain.go: the delivery, its validation and its status changes. The clones of a delivery are values
-- here.
use konumlu.Base.{
  ℕ, Bool, true, false, not, ◌&&◌, ◌||◌, Option, none, some, List, ltb, ◌==◌, if◌then◌else◌,
  is_some, is_empty, length, Result, ok, err, ◌>>=◌, ◌>>◌, refuse, or_err,
}
use konumlu.Text.{codes, text_eq, trim_space}
use konumlu.Ids.{is_zero, new_id}

-- The package's errors, the context's (`canceled`), those of the database and of the outbox that the
-- package maps, and any other.
pub data Err : Type 0 where
  zero_id invalid_delivery invalid_status invalid_transition invalid_method invalid_note : Err
  invalid_eligibility store_required unavailable not_found forbidden conflict not_eligible : Err
  canceled db_no_rows db_conflict db_unavailable outbox_conflict foreign : Err

abbrev pub max_note_runes : ℕ
max_note_runes = 500

-- EligibilityRequired and EligibilityNone
abbrev pub eligibility_required : List ℕ
eligibility_required = codes "delivery_required"

abbrev pub eligibility_none : List ℕ
eligibility_none = codes "no_delivery_required"

-- A status text; `other` is one that the package does not name.
pub data Status : Type 0 where
  pending ready in_transit delivered cancelled : Status
  other : List ℕ → Status

-- `(s Status) valid` and Terminal
abbrev pub valid : Status → Bool
valid (other _) = false
valid _ = true

abbrev pub is_pending : Status → Bool
is_pending pending = true
is_pending _ = false

abbrev pub is_ready : Status → Bool
is_ready ready = true
is_ready _ = false

abbrev pub is_in_transit : Status → Bool
is_in_transit in_transit = true
is_in_transit _ = false

abbrev pub is_delivered : Status → Bool
is_delivered delivered = true
is_delivered _ = false

abbrev pub is_cancelled : Status → Bool
is_cancelled cancelled = true
is_cancelled _ = false

abbrev pub terminal : Status → Bool
terminal s = is_delivered s || is_cancelled s

-- A method text; `unnamed` is one that the package does not name.
pub data Method : Type 0 where
  handoff courier pickup : Method
  unnamed : List ℕ → Method

-- `(m Method) valid` and skipsInTransit
abbrev pub valid_method : Method → Bool
valid_method (unnamed _) = false
valid_method _ = true

abbrev pub skips : Method → Bool
skips handoff = true
skips pickup = true
skips _ = false

pub record Delivery : Type 0 where
  pub id : ℕ
  pub transaction_id : ℕ
  pub requester_user_id : ℕ
  pub provider_user_id : ℕ
  pub eligibility : List ℕ
  pub status : Status
  pub method : Option Method
  pub note : Option (List ℕ)
  pub created_at : ℕ
  pub updated_at : ℕ
  pub dispatched_at : Option ℕ
  pub delivered_at : Option ℕ
  pub cancelled_at : Option ℕ

-- `(d Delivery) skipsInTransit`
abbrev pub skips_in_transit : Option Method → Bool
skips_in_transit none = false
skips_in_transit (some m) = skips m

-- normalizeNote
unfoldable pub normalize_note : List ℕ → Result Err (List ℕ)
normalize_note s =
    let v = trim_space s in
    if is_empty v
    then err invalid_note
    else if ltb max_note_runes (length v)
    then err invalid_note
    else ok v

-- cloneNormalizedNote
abbrev pub clone_normalized_note : Option (List ℕ) → Result Err (Option (List ℕ))
clone_normalized_note none = ok none
clone_normalized_note (some s) = normalize_note s >>= λ v. ok (some v)

-- The note of a delivery is normalized, for its error.
abbrev pub check_note : Option (List ℕ) → Result Err (Unit {0})
check_note none = ok tt
check_note (some s) = normalize_note s >> ok tt

abbrev pub bad_method : Option Method → Bool
bad_method none = false
bad_method (some m) = not (valid_method m)

-- A time that is missing, or before another.
abbrev pub unset_or_before : ℕ → Option ℕ → Bool
unset_or_before t none = true
unset_or_before t (some at) = ltb at t

-- The dispatch of what has been delivered.
abbrev pub bad_dispatch : Bool → Option ℕ → Option ℕ → Bool
bad_dispatch true dispatched at = is_some dispatched
bad_dispatch false none at = true
bad_dispatch false (some d) at = unset_or_before d at

-- Whether the stamps are not those of the status: the switch at the end of Validate.
abbrev pub bad_stamps : Delivery → Status → Bool
bad_stamps d pending = is_some d.dispatched_at || is_some d.delivered_at || is_some d.cancelled_at
bad_stamps d ready = is_some d.dispatched_at || is_some d.delivered_at || is_some d.cancelled_at
bad_stamps d in_transit =
    is_some d.delivered_at
    || is_some d.cancelled_at
    || unset_or_before d.created_at d.dispatched_at
    || skips_in_transit d.method
bad_stamps d delivered =
    is_some d.cancelled_at
    || unset_or_before d.created_at d.delivered_at
    || bad_dispatch (skips_in_transit d.method) d.dispatched_at d.delivered_at
bad_stamps d cancelled = is_some d.delivered_at || unset_or_before d.created_at d.cancelled_at
bad_stamps d (other _) = false

-- `(d Delivery) Validate`
unfoldable pub validate : Delivery → Result Err (Unit {0})
validate d = do
  refuse
      (is_zero d.id
        || is_zero d.transaction_id
        || is_zero d.requester_user_id
        || is_zero d.provider_user_id)
      zero_id
  refuse (d.requester_user_id == d.provider_user_id) invalid_delivery
  refuse (not (text_eq d.eligibility eligibility_required)) invalid_eligibility
  refuse (not (valid d.status)) invalid_status
  refuse (bad_method d.method) invalid_method
  check_note d.note
  refuse (is_zero d.created_at || ltb d.updated_at d.created_at) invalid_delivery
  refuse (bad_stamps d d.status) invalid_delivery

-- `(d Delivery) Participant` and Provider
abbrev pub participant : Delivery → ℕ → Bool
participant d user =
    if is_zero user then false else d.requester_user_id == user || d.provider_user_id == user

abbrev pub provider : Delivery → ℕ → Bool
provider d user = not (is_zero user) && d.provider_user_id == user

-- CreateCommand; a method is a text here
pub record CreateCommand : Type 0 where
  pub transaction_id : ℕ
  pub requester_user_id : ℕ
  pub provider_user_id : ℕ
  pub eligibility : List ℕ
  pub method : Option (List ℕ)
  pub note : Option (List ℕ)

-- The method of a text
unfoldable pub method_of : List ℕ → Method
method_of s =
    if text_eq s (codes "handoff")
    then handoff
    else if text_eq s (codes "courier")
    then courier
    else if text_eq s (codes "pickup")
    then pickup
    else unnamed s

-- normalizeMethod
unfoldable pub normalize_method : Option (List ℕ) → Result Err (Option Method)
normalize_method none = ok none
normalize_method (some s) =
    let v = trim_space s in
    if is_empty v
    then ok none
    else if not (valid_method (method_of v))
    then err invalid_method
    else ok (some (method_of v))

-- The eligibility that CreatePending asks for.
unfoldable pub check_eligibility : List ℕ → Result Err (Unit {0})
check_eligibility raw = do
  let e = trim_space raw
  refuse (text_eq e eligibility_none) not_eligible
  refuse (not (is_empty e) && not (text_eq e eligibility_required)) invalid_eligibility

-- The value that CreatePending makes, before it is validated.
abbrev pub pending_from : ℕ → CreateCommand → Option Method → Option (List ℕ) → ℕ → Delivery
pending_from id cmd method note now = record {
  id = id;
  transaction_id = cmd.transaction_id;
  requester_user_id = cmd.requester_user_id;
  provider_user_id = cmd.provider_user_id;
  eligibility = eligibility_required;
  status = pending;
  method = method;
  note = note;
  created_at = now;
  updated_at = now;
  dispatched_at = none;
  delivered_at = none;
  cancelled_at = none;
}

-- CreatePending, over the random bytes of the identifier
unfoldable pub create_pending : Option ℕ → CreateCommand → ℕ → Result Err Delivery
create_pending rand cmd now = do
  refuse
      (is_zero cmd.transaction_id || is_zero cmd.requester_user_id || is_zero cmd.provider_user_id)
      zero_id
  refuse (is_zero now) invalid_delivery
  check_eligibility cmd.eligibility
  method ← normalize_method cmd.method
  note ← clone_normalized_note cmd.note
  id ← or_err (new_id rand) unavailable
  let d = pending_from id cmd method note now
  validate d
  ok d

-- A status change returns the delivery and whether it has changed.
abbrev pub Change : Type 0
Change = Result Err (Delivery × Bool)

-- Validate, at the end of each status change
abbrev pub changed : Delivery → Change
changed next = validate next >> ok (next, true)

-- `(d Delivery) MarkReady`, MarkInTransit, MarkDelivered and Cancel, with withStatus
unfoldable pub mark_ready : Delivery → ℕ → Change
mark_ready d now =
    if is_ready d.status
    then ok (d, false)
    else if not (is_pending d.status)
    then err invalid_transition
    else changed (record d { status = ready; updated_at = now })

unfoldable pub mark_in_transit : Delivery → ℕ → Change
mark_in_transit d now =
    if is_in_transit d.status
    then ok (d, false)
    else if skips_in_transit d.method
    then err invalid_transition
    else if not (is_ready d.status)
    then err invalid_transition
    else changed (record d { status = in_transit; updated_at = now; dispatched_at = some now })

-- Whether a delivery stands right before its end, which depends on its method.
abbrev pub before_delivered : Delivery → Bool
before_delivered d = if skips_in_transit d.method then is_ready d.status else is_in_transit d.status

unfoldable pub mark_delivered : Delivery → ℕ → Change
mark_delivered d now =
    if is_delivered d.status
    then ok (d, false)
    else if not (before_delivered d)
    then err invalid_transition
    else changed (record d { status = delivered; updated_at = now; delivered_at = some now })

unfoldable pub cancel : Delivery → ℕ → Change
cancel d now =
    if is_cancelled d.status
    then ok (d, false)
    else if not (is_pending d.status) && not (is_ready d.status) && not (is_in_transit d.status)
    then err invalid_transition
    else changed (record d { status = cancelled; updated_at = now; cancelled_at = some now })
