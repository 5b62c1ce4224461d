-- ===== src/Needs/Fulfillment.antt =====
-- fulfillment.go and lookup.go: what the other packages are given of needs.
pub mod Settled
pub mod Invariant
use konumlu.Base.{
  ℕ, Bool, true, false, not, ◌||◌, Option, none, some, List, [], ◌==◌, if◌then◌else◌, Result, ok,
  err, ◌>>=◌, ◌>>◌, refuse, map_err,
}
use konumlu.Text.{codes}
use konumlu.Ids.{is_zero}
use konumlu.Contracts
use konumlu.Contracts.{
  NeedRef, FulfillmentCommand, FulfillmentResult, Outcome, fulfilled_now, already_fulfilled,
  not_fulfillable,
}
use konumlu.Needs.Content.{Err, zero_id, not_found, forbidden, conflict, canceled, Floats}
use konumlu.Needs.Domain.{
  Status, draft, opened, fulfilled, cancelled, expired, other, Need, apply_completed,
}
use konumlu.Needs.Service.{Setup, World, get, save}

-- The text of a status
abbrev pub status_text : Status → List ℕ
status_text draft = codes "draft"
status_text opened = codes "open"
status_text fulfilled = codes "fulfilled"
status_text cancelled = codes "cancelled"
status_text expired = codes "expired"
status_text (other s) = s

-- mapNeedFulfillmentErr
abbrev pub map_fulfillment_err : Err → Contracts.Err
map_fulfillment_err zero_id = Contracts.zero_id
map_fulfillment_err not_found = Contracts.not_found
map_fulfillment_err forbidden = Contracts.forbidden
map_fulfillment_err conflict = Contracts.conflict
map_fulfillment_err canceled = Contracts.canceled
map_fulfillment_err _ = Contracts.unavailable

-- mapNeedLookupErr
abbrev pub map_lookup_err : Err → Contracts.Err
map_lookup_err zero_id = Contracts.zero_id
map_lookup_err not_found = Contracts.not_found
map_lookup_err forbidden = Contracts.forbidden
map_lookup_err canceled = Contracts.canceled
map_lookup_err _ = Contracts.unavailable

abbrev pub answer : {F : Type 0} → Outcome → Need F → FulfillmentResult
answer o n = record { outcome = o; status = status_text n.status }

module _ {F : Type 0} where
  -- toNeedRef
  unfoldable pub to_need_ref : Need F → NeedRef
  to_need_ref n = record {
    id = n.id;
    requester_user_id = n.requester_user_id;
    status = status_text n.status;
  }

  -- GetNeed
  unfoldable pub get_need : Setup → World F → ℕ → Result Contracts.Err NeedRef
  get_need s w id = elim (get s id w) [ ok n ↦ ok (to_need_ref n) | err e ↦ err (map_lookup_err e) ]

  -- AssertOwnedBy
  unfoldable pub assert_owned_by : Setup → World F → ℕ → ℕ → Result Contracts.Err (Unit {0})
  assert_owned_by s w id user = do
    refuse (is_zero id || is_zero user) Contracts.zero_id
    ref ← get_need s w id
    refuse (not (ref.requester_user_id == user)) Contracts.not_found

-- The answer where the need cannot be read.
abbrev pub unread : Err → Result Contracts.Err FulfillmentResult
unread not_found = ok (record { outcome = not_fulfillable; status = [] })
unread e = err (map_fulfillment_err e)

-- The checks of FulfillFromCompletedTransaction.
unfoldable pub may_fulfill : Setup → FulfillmentCommand → Result Contracts.Err (Unit {0})
may_fulfill s cmd = do
  refuse (not s.store_set) Contracts.unavailable
  refuse (is_zero cmd.need_id || is_zero cmd.requester_user_id || is_zero cmd.transaction_id)
      Contracts.zero_id

module _ {F : Type 0} (fl : Floats F) (s : Setup) (between : World F → World F) where
  abbrev pub Fulfilled : Type 0
  Fulfilled = Result Contracts.Err FulfillmentResult × World F

  -- The write of a fulfilment, where there is one.
  unfoldable pub settle : Need F → Result Err (Need F × Outcome) → World F → Fulfilled
  settle n (err e) w = (err (map_fulfillment_err e), w)
  settle n (ok (next, fulfilled_now)) w =
      let (r, w') = save fl s between n next w in
      (map_err map_fulfillment_err r >> ok (answer fulfilled_now next), w')
  settle n (ok (next, o)) w = (ok (answer o n), w)

  -- FulfillFromCompletedTransaction, for a command whose identifiers are set
  unfoldable pub fulfill_read : FulfillmentCommand → ℕ → World F → Fulfilled
  fulfill_read cmd now w = elim (get s cmd.need_id w) [
    | err e ↦ (unread e, w)
    | ok n ↦
        if not (n.requester_user_id == cmd.requester_user_id)
        then (ok (answer not_fulfillable n), w)
        else settle n (apply_completed fl n now) w
  ]

  -- FulfillFromCompletedTransaction
  unfoldable pub fulfill_from_completed_transaction : FulfillmentCommand → ℕ → World F → Fulfilled
  fulfill_from_completed_transaction cmd now w = elim (may_fulfill s cmd) [
    | err e ↦ (err e, w)
    | ok _ ↦ fulfill_read cmd now w
  ]
