-- ===== src/Disputes/Domain.antt =====
-- domain.go: the dispute, its validation and its status changes. Reasons, resolutions and roles are texts,
-- as they are in the source; the clones of a dispute are values here.
use konumlu.Base.{
  ℕ, Bool, true, false, not, ◌||◌, Option, none, some, List, [], ltb, ◌==◌, if◌then◌else◌, is_some,
  is_empty, length, Result, ok, err, ◌>>=◌, ◌>>◌, refuse, or_err,
}
use konumlu.Text.{codes, text_eq, trim_space}
use konumlu.Ids.{is_zero, new_id}

-- The package's errors, the context's (`canceled`), those of the database and of the outbox that the
-- package maps, and any other.
pub data Err : Type 0 where
  zero_id invalid_dispute invalid_status invalid_transition invalid_reason invalid_statement : Err
  invalid_resolution invalid_evidence invalid_policy : Err
  store_required unavailable not_found forbidden conflict : Err
  not_eligible concluded window_closed : Err
  canceled db_no_rows db_conflict db_unavailable outbox_conflict foreign : Err

abbrev pub max_statement_runes : ℕ
max_statement_runes = 2000

-- A status text; `other` is one that the package does not name.
pub data Status : Type 0 where
  open_status under_review resolved closed withdrawn : Status
  other : List ℕ → Status

-- `(s Status) valid`, Active and Concluded
abbrev pub valid : Status → Bool
valid (other _) = false
valid _ = true

abbrev pub is_open : Status → Bool
is_open open_status = true
is_open _ = false

abbrev pub is_under_review : Status → Bool
is_under_review under_review = true
is_under_review _ = false

abbrev pub is_resolved : Status → Bool
is_resolved resolved = true
is_resolved _ = false

abbrev pub is_closed : Status → Bool
is_closed closed = true
is_closed _ = false

abbrev pub is_withdrawn : Status → Bool
is_withdrawn withdrawn = true
is_withdrawn _ = false

abbrev pub active : Status → Bool
active s = is_open s || is_under_review s

abbrev pub is_concluded : Status → Bool
is_concluded s = is_resolved s || is_closed s

-- `(r ReasonCode) valid` and `(r ResolutionCode) valid`
unfoldable pub valid_reason : List ℕ → Bool
valid_reason r =
    text_eq r (codes "item_or_service_not_as_described")
    || text_eq r (codes "non_delivery")
    || text_eq r (codes "damaged_or_incomplete")
    || text_eq r (codes "payment_issue")
    || text_eq r (codes "cancellation_issue")
    || text_eq r (codes "other")

unfoldable pub valid_resolution : List ℕ → Bool
valid_resolution r =
    text_eq r (codes "no_action")
    || text_eq r (codes "buyer_favored")
    || text_eq r (codes "provider_favored")
    || text_eq r (codes "mutual_resolution")
    || text_eq r (codes "insufficient_evidence")
    || text_eq r (codes "other")

-- normalizeOptionalText and cloneNormalizedOptional
unfoldable pub normalize_optional_text : List ℕ → ℕ → Err → Result Err (List ℕ)
normalize_optional_text s max invalid =
    let v = trim_space s in
    if is_empty v then err invalid else if ltb max (length v) then err invalid else ok v

abbrev pub clone_normalized_optional : Option (List ℕ) → ℕ → Err → Result Err (Option (List ℕ))
clone_normalized_optional none max invalid = ok none
clone_normalized_optional (some s) max invalid =
    normalize_optional_text s max invalid >>= λ v. ok (some v)

-- A text that is set has a normal form.
abbrev pub check_text : Option (List ℕ) → ℕ → Err → Result Err (Unit {0})
check_text none max invalid = ok tt
check_text (some s) max invalid = normalize_optional_text s max invalid >> ok tt

pub record Dispute : Type 0 where
  pub id : ℕ
  pub transaction_id : ℕ
  pub requester_user_id : ℕ
  pub provider_user_id : ℕ
  pub opened_by_user_id : ℕ
  pub reason_code : List ℕ
  pub statement : Option (List ℕ)
  pub status : Status
  pub resolution_code : Option (List ℕ)
  pub created_at : ℕ
  pub updated_at : ℕ
  pub resolved_at : Option ℕ

-- `(d Dispute) Participant`
abbrev pub participant : Dispute → ℕ → Bool
participant d user =
    if is_zero user then false else d.requester_user_id == user || d.provider_user_id == user

-- RoleOf
abbrev pub role_of : Dispute → ℕ → List ℕ
role_of d user =
    if d.requester_user_id == user
    then codes "requester"
    else if d.provider_user_id == user
    then codes "provider"
    else []

-- What a resolved or closed dispute must hold.
abbrev pub check_outcome : ℕ → Option ℕ → Option (List ℕ) → Result Err (Unit {0})
check_outcome created (some at) (some code) =
    refuse (not (valid_resolution code)) invalid_resolution
    >> refuse (ltb at created) invalid_dispute
check_outcome created _ _ = err invalid_dispute

-- The switch at the end of Validate.
abbrev pub check_status : Dispute → Status → Result Err (Unit {0})
check_status d resolved = check_outcome d.created_at d.resolved_at d.resolution_code
check_status d closed = check_outcome d.created_at d.resolved_at d.resolution_code
check_status d (other _) = ok tt
check_status d _ = refuse (is_some d.resolved_at || is_some d.resolution_code) invalid_dispute

-- `(d Dispute) Validate`
unfoldable pub validate : Dispute → Result Err (Unit {0})
validate d = do
  refuse
      (is_zero d.id
        || is_zero d.transaction_id
        || is_zero d.requester_user_id
        || is_zero d.provider_user_id
        || is_zero d.opened_by_user_id)
      zero_id
  refuse (d.requester_user_id == d.provider_user_id) invalid_dispute
  refuse (not (participant d d.opened_by_user_id)) invalid_dispute
  refuse (not (valid_reason d.reason_code)) invalid_reason
  check_text d.statement max_statement_runes invalid_statement
  refuse (not (valid d.status)) invalid_status
  refuse (is_zero d.created_at || ltb d.updated_at d.created_at) invalid_dispute
  check_status d d.status

-- CreateCommand
pub record CreateCommand : Type 0 where
  pub transaction_id : ℕ
  pub requester_user_id : ℕ
  pub provider_user_id : ℕ
  pub opened_by_user_id : ℕ
  pub reason_code : List ℕ
  pub statement : Option (List ℕ)

-- The value that CreateOpen makes, before it is validated.
abbrev pub open_from : ℕ → CreateCommand → Option (List ℕ) → ℕ → Dispute
open_from id cmd statement now = record {
  id = id;
  transaction_id = cmd.transaction_id;
  requester_user_id = cmd.requester_user_id;
  provider_user_id = cmd.provider_user_id;
  opened_by_user_id = cmd.opened_by_user_id;
  reason_code = cmd.reason_code;
  statement = statement;
  status = open_status;
  resolution_code = none;
  created_at = now;
  updated_at = now;
  resolved_at = none;
}

-- CreateOpen, over the random bytes of the identifier
unfoldable pub create_open : Option ℕ → CreateCommand → ℕ → Result Err Dispute
create_open rand cmd now = do
  refuse
      (is_zero cmd.transaction_id
        || is_zero cmd.requester_user_id
        || is_zero cmd.provider_user_id
        || is_zero cmd.opened_by_user_id)
      zero_id
  refuse (is_zero now) invalid_dispute
  statement ← clone_normalized_optional cmd.statement max_statement_runes invalid_statement
  id ← or_err (new_id rand) unavailable
  let d = open_from id cmd statement now
  validate d
  ok d

-- A status change returns the dispute and whether it has changed.
abbrev pub Change : Type 0
Change = Result Err (Dispute × Bool)

-- Validate, at the end of each status change
abbrev pub changed : Dispute → Change
changed next = validate next >> ok (next, true)

-- `(d Dispute) StartReview`, Resolve, Close and Withdraw, with withStatus
unfoldable pub start_review : Dispute → ℕ → Change
start_review d now =
    if is_under_review d.status
    then ok (d, false)
    else if not (is_open d.status)
    then err invalid_transition
    else changed (record d { status = under_review; updated_at = now })

abbrev pub has_code : Option (List ℕ) → List ℕ → Bool
has_code none code = false
has_code (some c) code = text_eq c code

unfoldable pub resolve : List ℕ → Dispute → ℕ → Change
resolve code d now =
    if not (valid_resolution code)
    then err invalid_resolution
    else if is_resolved d.status
    then (if has_code d.resolution_code code then ok (d, false) else err conflict)
    else if not (is_under_review d.status)
    then err invalid_transition
    else changed (record d {
      status = resolved;
      updated_at = now;
      resolved_at = some now;
      resolution_code = some code;
    })

unfoldable pub close : Dispute → ℕ → Change
close d now =
    if is_closed d.status
    then ok (d, false)
    else if not (is_resolved d.status)
    then err invalid_transition
    else changed (record d { status = closed; updated_at = now })

unfoldable pub withdraw : Dispute → ℕ → Change
withdraw d now =
    if is_withdrawn d.status
    then ok (d, false)
    else if not (is_open d.status)
    then err invalid_transition
    else changed (record d { status = withdrawn; updated_at = now })

-- AcceptsEvidence
abbrev pub accepts_evidence : Dispute → Bool
accepts_evidence d = is_open d.status || is_under_review d.status
