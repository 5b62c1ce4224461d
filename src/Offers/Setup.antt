-- ===== src/Offers/Setup.antt =====
-- service.go: what the service is built from, its error mappings and its guards on needs and businesses.
-- The lookups of other packages answer alike throughout one request.
use konumlu.Base.{
  ℕ, Bool, true, false, not, ◌||◌, Option, Result, ok, ◌>>=◌, ◌>>◌, refuse, or_err, map_err,
}
use konumlu.Text.{codes, text_eq}
use konumlu.Ids.{is_zero}
use konumlu.Contracts
use konumlu.Contracts.{NeedRef}
use konumlu.Outbox.Writer.{NewEvent}
use konumlu.Offers.Domain.{
  Err, zero_id, unavailable, not_found, conflict, not_eligible, canceled, db_no_rows, db_conflict,
  db_unavailable, outbox_conflict, outbox_unavailable, outbox_invalid_event,
  outbox_sensitive_payload, foreign,
}
use konumlu.Offers.Memory.{Store}

-- mapNeedErr and mapBizErr, which are alike
abbrev pub map_need_err : Contracts.Err → Err
map_need_err Contracts.zero_id = zero_id
map_need_err Contracts.not_found = not_found
map_need_err Contracts.forbidden = not_found
map_need_err Contracts.canceled = canceled
map_need_err _ = unavailable

abbrev pub map_biz_err : Contracts.Err → Err
map_biz_err Contracts.zero_id = zero_id
map_biz_err Contracts.not_found = not_found
map_biz_err Contracts.forbidden = not_found
map_biz_err Contracts.canceled = canceled
map_biz_err _ = unavailable

-- The end of assertEligible: a service that is no candidate is not eligible.
abbrev pub map_eligible_err : Contracts.Err → Err
map_eligible_err Contracts.not_found = not_eligible
map_eligible_err e = map_biz_err e

-- mapStoreErr
abbrev pub map_store_err : Err → Err
map_store_err db_no_rows = not_found
map_store_err db_conflict = conflict
map_store_err db_unavailable = unavailable
map_store_err outbox_conflict = unavailable
map_store_err outbox_unavailable = unavailable
map_store_err outbox_invalid_event = unavailable
map_store_err outbox_sensitive_payload = unavailable
map_store_err foreign = unavailable
map_store_err e = e

abbrev pub is_conflict : Err → Bool
is_conflict conflict = true
is_conflict _ = false

abbrev pub is_not_found : Err → Bool
is_not_found not_found = true
is_not_found _ = false

-- needcontracts.Lookup
pub record Needs : Type 0 where
  pub get_need : ℕ → Result Contracts.Err NeedRef
  pub assert_owned_by : ℕ → ℕ → Result Contracts.Err (Unit {0})

-- The parts of Service that stay fixed. A nil lookup is `none`; `store_set` says that the service and
-- its store are not nil. `businesses` is AssertOwnedBy; `eligibility` is CheckServiceCandidate over the
-- place, radius and category of the need, a business and a service.
pub record Setup (Queue : Type 0) : Type 0 where
  pub store_set : Bool
  pub needs : Option Needs
  pub eligibility : Option (NeedRef → ℕ → ℕ → Result Contracts.Err (Unit {0}))
  pub businesses : Option (ℕ → ℕ → Result Contracts.Err (Unit {0}))
  pub outbox : Option (NewEvent → Queue → Result Err Queue)
  pub has_tx : Bool

-- What a request meets: the store and the outbox, the context's error, whether the context carries a
-- database transaction, and the errors of Begin and Commit.
pub record World (Queue : Type 0) : Type 0 where
  pub store : Store
  pub queue : Queue
  pub ctx : Option Err
  pub in_tx : Bool
  pub begin_err : Option Err
  pub commit_err : Option Err

abbrev pub mapped : {A : Type 0} → Result Err A → Result Err A
mapped {A} = map_err map_store_err

module _ {Queue : Type 0} (s : Setup Queue) where
  -- getNeed
  unfoldable pub get_need : ℕ → Result Err NeedRef
  get_need id = do
    lookup ← or_err s.needs unavailable
    refuse (is_zero id) zero_id
    map_err map_need_err (lookup.get_need id)

  -- requireOpenNeed
  unfoldable pub require_open_need : ℕ → Result Err NeedRef
  require_open_need id = do
    need ← get_need id
    refuse (not (text_eq need.status (codes "open"))) not_found
    ok need

  -- assertNeedOwner
  unfoldable pub assert_need_owner : ℕ → ℕ → Result Err (Unit {0})
  assert_need_owner need user = do
    lookup ← or_err s.needs unavailable
    refuse (is_zero need || is_zero user) zero_id
    map_err map_need_err (lookup.assert_owned_by need user)

  -- assertBusinessOwner
  unfoldable pub assert_business_owner : ℕ → ℕ → Result Err (Unit {0})
  assert_business_owner business user = do
    assert_owned_by ← or_err s.businesses unavailable
    map_err map_biz_err (assert_owned_by business user)

  -- assertEligible
  unfoldable pub assert_eligible : NeedRef → ℕ → ℕ → Result Err (Unit {0})
  assert_eligible need business service = do
    check ← or_err s.eligibility unavailable
    map_err map_eligible_err (check need business service)
