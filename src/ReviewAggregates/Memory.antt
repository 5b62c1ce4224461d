-- ===== src/ReviewAggregates/Memory.antt =====
-- memory.go: the projection, with the events that it has taken. The mutex makes each method one step.
pub mod Tally
use konumlu.Base.{
  ℕ, suc, ◌+◌, Bool, true, false, Option, none, some, List, [], if◌then◌else◌, is_some, Table,
  lookup, insert, Result, ok, err, ◌>>=◌, ◌>>◌, refuse, raise, or_err,
}
use konumlu.Ids.{is_zero}
use konumlu.ReviewAggregates.Domain.{
  Err, zero_id, not_found, RatingSummary, zero_summary, validate_summary, VerifiedReview, validate,
}

pub record Store : Type 0 where
  pub processed : Table (Unit {0})
  pub listings : Table RatingSummary
  pub providers : Table RatingSummary
  pub fail : Option Err

-- NewMemoryStore
abbrev pub new_store : Store
new_store = record { processed = []; listings = []; providers = []; fail = none }

abbrev pub or_zero : Option RatingSummary → RatingSummary
or_zero none = zero_summary
or_zero (some s) = s

-- A rating more.
abbrev pub bumped : ℕ → ℕ → RatingSummary → RatingSummary
bumped rating now s = record {
  review_count = suc s.review_count;
  rating_sum = s.rating_sum + rating;
  updated_at = now;
}

-- bumpLocked
unfoldable pub bump : ℕ → ℕ → ℕ → Table RatingSummary → Result Err (Table RatingSummary)
bump key rating now dest = do
  let row = bumped rating now (or_zero (lookup key dest))
  validate_summary row
  ok (insert key row dest)

-- The checks of ApplyVerified.
unfoldable pub may_apply : Option Err → VerifiedReview → Store → Result Err (Unit {0})
may_apply ctx event m = do raise ctx; validate event; raise m.fail

-- The writes of ApplyVerified: the mark is set first, and stays where a bump fails.
unfoldable pub take_event : VerifiedReview → ℕ → Store → Result Err (Unit {0}) × Store
take_event event now m =
    let m1 = record m { processed = insert event.event_id tt m.processed } in
    elim (bump event.listing_id event.listing_accuracy now m.listings) [
      | err e ↦ (err e, m1)
      | ok ls ↦
          let m2 = record m1 { listings = ls } in
          elim (bump event.provider_user_id event.provider_service now m.providers) [
            | err e ↦ (err e, m2)
            | ok ps ↦ (ok tt, record m2 { providers = ps })
          ]
    ]

-- MemoryStore.ApplyVerified
unfoldable pub apply_verified :
    Option Err → VerifiedReview → ℕ → Store → Result Err (Unit {0}) × Store
apply_verified ctx event now m = elim (may_apply ctx event m) [
  | err e ↦ (err e, m)
  | ok _ ↦
      if is_some (lookup event.event_id m.processed) then (ok tt, m) else take_event event now m
]

-- `(m *MemoryStore) get`
unfoldable pub get : Option Err → Table RatingSummary → ℕ → Store → Result Err RatingSummary
get ctx src id m = do
  raise ctx
  refuse (is_zero id) zero_id
  raise m.fail
  or_err (lookup id src) not_found

-- MemoryStore.GetListingAccuracy and GetProviderService
unfoldable pub get_listing_accuracy : Option Err → ℕ → Store → Result Err RatingSummary
get_listing_accuracy ctx id m = get ctx m.listings id m

unfoldable pub get_provider_service : Option Err → ℕ → Store → Result Err RatingSummary
get_provider_service ctx id m = get ctx m.providers id m
