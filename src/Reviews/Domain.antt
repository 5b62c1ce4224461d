-- ===== src/Reviews/Domain.antt =====
-- domain.go: the review, its validation and the window in which it may be written. A rating is a natural,
-- since the code refuses a negative one, and so is the window, in nanoseconds.
use konumlu.Base.{
  ℕ, ◌+◌, Bool, false, ◌||◌, Option, none, some, List, ltb, ◌==◌, if◌then◌else◌, is_empty, Result,
  ok, err, ◌>>◌, refuse,
}
use konumlu.Text.{trim_space, byte_length}
use konumlu.Ids.{is_zero}

-- The package's errors, the context's (`canceled`) and any other.
pub data Err : Type 0 where
  zero_id store_required unavailable not_found verified_required outbox_required : Err
  invalid_body invalid_rating invalid_policy invalid_review not_eligible conflict : Err
  self_review listings_required invalid_query canceled foreign : Err

abbrev pub max_body_bytes : ℕ
max_body_bytes = 4000

abbrev pub max_reviews : ℕ
max_reviews = 50

abbrev pub max_public_reviews : ℕ
max_public_reviews = 20

abbrev pub min_rating : ℕ
min_rating = 1

abbrev pub max_rating : ℕ
max_rating = 5

-- Policy
pub record Policy : Type 0 where
  pub creation_window : ℕ

-- `(p Policy) Validate`
unfoldable pub policy_validate : Policy → Result Err (Unit {0})
policy_validate p = refuse (p.creation_window == 0) invalid_policy

-- DefaultPolicy: 24 hours
abbrev pub default_policy : Policy
default_policy = record { creation_window = 86400000000000 }

pub record Review : Type 0 where
  pub id : ℕ
  pub verified_interaction_id : ℕ
  pub listing_id : ℕ
  pub reviewer_user_id : ℕ
  pub provider_user_id : ℕ
  pub body : Option (List ℕ)
  pub listing_accuracy : ℕ
  pub provider_service : ℕ
  pub created_at : ℕ
  pub updated_at : ℕ

-- PublicReview, without the reviewer, the provider and the interaction
pub record PublicReview : Type 0 where
  pub id : ℕ
  pub body : Option (List ℕ)
  pub listing_accuracy : ℕ
  pub provider_service : ℕ
  pub created_at : ℕ

-- PublicListQuery and PublicListingPage
pub record PublicListQuery : Type 0 where
  pub listing_id : ℕ
  pub cursor : List ℕ
  pub limit : ℕ

pub record PublicListingPage : Type 0 where
  pub reviews : List PublicReview
  pub next_cursor : List ℕ

-- toPublicReview
abbrev pub to_public_review : Review → PublicReview
to_public_review r = record {
  id = r.id;
  body = r.body;
  listing_accuracy = r.listing_accuracy;
  provider_service = r.provider_service;
  created_at = r.created_at;
}

-- ValidateRating
unfoldable pub validate_rating : ℕ → Result Err (Unit {0})
validate_rating n = refuse (ltb n min_rating || ltb max_rating n) invalid_rating

-- NormalizeBody: the limit counts bytes
unfoldable pub normalize_body : List ℕ → Result Err (Option (List ℕ))
normalize_body raw =
    let body = trim_space raw in
    if is_empty body
    then ok none
    else if ltb max_body_bytes (byte_length body)
    then err invalid_body
    else ok (some body)

-- The body of a review that has one is normalized, for its error.
abbrev pub check_body : Option (List ℕ) → Result Err (Unit {0})
check_body none = ok tt
check_body (some s) = normalize_body s >> ok tt

-- `(r Review) Validate`
unfoldable pub validate : Review → Result Err (Unit {0})
validate r = do
  refuse
      (is_zero r.id
        || is_zero r.verified_interaction_id
        || is_zero r.listing_id
        || is_zero r.reviewer_user_id
        || is_zero r.provider_user_id)
      zero_id
  refuse (r.reviewer_user_id == r.provider_user_id) self_review
  validate_rating r.listing_accuracy
  validate_rating r.provider_service
  check_body r.body
  refuse (is_zero r.created_at || is_zero r.updated_at) invalid_review

pub record Eligibility : Type 0 where
  pub eligible : Bool
  pub expires_at : Option ℕ
  pub already_reviewed : Bool

pub record CreateInput : Type 0 where
  pub verified_interaction_id : ℕ
  pub body : List ℕ
  pub listing_accuracy : ℕ
  pub provider_service : ℕ

-- `(p Policy) ExpiresAt`
abbrev pub expires_at : Policy → ℕ → ℕ
expires_at p verified_at = verified_at + p.creation_window

-- `(p Policy) WithinWindow`
unfoldable pub within_window : Policy → ℕ → ℕ → Bool
within_window p verified_at now =
    if is_zero verified_at then false else ltb now (expires_at p verified_at)
