-- ===== src/ReviewAggregates/Domain.antt =====
-- domain.go: the rating summary and the event that is projected. Counts, sums and ratings are naturals.
use konumlu.Base.{
  ℕ, ◌*◌, Bool, not, ◌&&◌, ◌||◌, ltb, ◌==◌, if◌then◌else◌, Result, ok, err, ◌>>◌, refuse,
}
use konumlu.Ids.{is_zero}

-- The package's errors, the context's (`canceled`) and any other.
pub data Err : Type 0 where
  zero_id invalid_event invalid_rating store_required unavailable not_found invalid_summary : Err
  canceled foreign : Err

abbrev pub min_rating : ℕ
min_rating = 1

abbrev pub max_rating : ℕ
max_rating = 5

pub record RatingSummary : Type 0 where
  pub review_count : ℕ
  pub rating_sum : ℕ
  pub updated_at : ℕ

-- ZeroSummary
abbrev pub zero_summary : RatingSummary
zero_summary = record { review_count = 0; rating_sum = 0; updated_at = 0 }

-- `(s RatingSummary) Validate`
unfoldable pub validate_summary : RatingSummary → Result Err (Unit {0})
validate_summary s =
    if s.review_count == 0
    then (if not (s.rating_sum == 0) then err invalid_summary else ok tt)
    else if ltb s.rating_sum (s.review_count * min_rating)
        || ltb (s.review_count * max_rating) s.rating_sum
    then err invalid_summary
    else if is_zero s.updated_at
    then err invalid_summary
    else ok tt

-- validRating
abbrev pub valid_rating : ℕ → Bool
valid_rating v = not (ltb v min_rating) && not (ltb max_rating v)

-- VerifiedReview
pub record VerifiedReview : Type 0 where
  pub event_id : ℕ
  pub review_id : ℕ
  pub verified_interaction_id : ℕ
  pub listing_id : ℕ
  pub reviewer_user_id : ℕ
  pub provider_user_id : ℕ
  pub listing_accuracy : ℕ
  pub provider_service : ℕ
  pub created_at : ℕ

-- `(e VerifiedReview) Validate`
unfoldable pub validate : VerifiedReview → Result Err (Unit {0})
validate e = do
  refuse
      (is_zero e.event_id
        || is_zero e.review_id
        || is_zero e.verified_interaction_id
        || is_zero e.listing_id
        || is_zero e.reviewer_user_id
        || is_zero e.provider_user_id)
      zero_id
  refuse (e.reviewer_user_id == e.provider_user_id) invalid_event
  refuse (not (valid_rating e.listing_accuracy) || not (valid_rating e.provider_service))
      invalid_rating
  refuse (is_zero e.created_at) invalid_event
