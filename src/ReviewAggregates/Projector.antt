-- ===== src/ReviewAggregates/Projector.antt =====
-- projector.go and service.go: the projector over the store. `set` says that the projector and its store
-- are not nil.
pub mod Refinement
use konumlu.Base.{
  ℕ, Bool, true, false, not, Option, none, some, Result, ok, err, ◌>>=◌, ◌>>◌, refuse, map_err,
}
use konumlu.Ids.{is_zero}
use konumlu.ReviewAggregates.Domain.{
  Err, zero_id, store_required, unavailable, not_found, foreign, RatingSummary, zero_summary,
  VerifiedReview, validate,
}
use konumlu.ReviewAggregates.Memory.{
  Store, apply_verified, get_listing_accuracy, get_provider_service,
}

-- mapStoreErr
abbrev pub map_store_err : Err → Err
map_store_err foreign = unavailable
map_store_err e = e

-- `(p *Projector) Apply`
unfoldable pub apply :
    Bool → Option Err → VerifiedReview → ℕ → Store → Result Err (Unit {0}) × Store
apply set ctx event now m = elim (refuse (not set) store_required >> validate event) [
  | err e ↦ (err e, m)
  | ok _ ↦ let (r, m') = apply_verified ctx event now m in (map_err map_store_err r, m')
]

-- A summary that the store does not have is that of no review.
abbrev pub or_zero_summary : Result Err RatingSummary → Result Err RatingSummary
or_zero_summary (ok s) = ok s
or_zero_summary (err not_found) = ok zero_summary
or_zero_summary (err e) = err (map_store_err e)

-- `(p *Projector) ListingAccuracy`
unfoldable pub listing_accuracy : Bool → Option Err → ℕ → Store → Result Err RatingSummary
listing_accuracy set ctx id m = do
  refuse (not set) store_required
  refuse (is_zero id) zero_id
  or_zero_summary (get_listing_accuracy ctx id m)

-- `(p *Projector) ProviderService`
unfoldable pub provider_service : Bool → Option Err → ℕ → Store → Result Err RatingSummary
provider_service set ctx id m = do
  refuse (not set) store_required
  refuse (is_zero id) zero_id
  or_zero_summary (get_provider_service ctx id m)
