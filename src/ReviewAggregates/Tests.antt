-- ===== src/ReviewAggregates/Tests.antt =====
-- The projection at two reviews of one listing, of which one is delivered twice.
use konumlu.Base.{ℕ, ◌+◌, ◌-◌, ◌≡◌, refl, ap, true, Option, none, some, List, [], ◌∷◌, arith, ok}
use konumlu.Text.{trim_space_plain, is_space}
use konumlu.Outbox.Event.{Value, Fields, end, field, Event}
use konumlu.Transactions.Events.{text_field}
use konumlu.Reviews
use konumlu.Reviews.Domain.{Review}
use konumlu.Reviews.Contracts.{VerifiedCreatedPayload, marshal_payload, verified_created_type}
use konumlu.Reviews.Events.{encode_verified_created}
use konumlu.ReviewAggregates.Domain.{RatingSummary, VerifiedReview, validate, validate_summary}
use konumlu.ReviewAggregates.Memory.{
  new_store, apply_verified, may_apply, take_event, bump, get, get_listing_accuracy,
}
use konumlu.ReviewAggregates.Memory.Tally.{of_id, IsTally}
use konumlu.ReviewAggregates.Projector.{apply, listing_accuracy, provider_service}
use konumlu.ReviewAggregates.Projector.Refinement.{deliver, counted, IsOnce, deliver-counted}
use konumlu.ReviewAggregates.Handler.{Parsers, verified_from_outbox}
use konumlu.ReviewAggregates.Handler.Roundtrip.{IsReader, verified_from_outbox-encode}

abbrev one : VerifiedReview
one = record {
  event_id = 1;
  review_id = 11;
  verified_interaction_id = 21;
  listing_id = 9;
  reviewer_user_id = 4;
  provider_user_id = 5;
  listing_accuracy = 5;
  provider_service = 3;
  created_at = 100;
}

abbrev two : VerifiedReview
two = record one {
  event_id = 2;
  review_id = 12;
  verified_interaction_id = 22;
  listing_accuracy = 2;
}

abbrev deliveries : List (VerifiedReview × ℕ)
deliveries = (one, 200) ∷ (two, 300) ∷ (one, 400) ∷ []

delivered :
    listing_accuracy true none 9 (deliver deliveries new_store)
    ≡ ok (record { review_count = 2; rating_sum = 7; updated_at = 300 })
unfolding listing_accuracy deliver apply apply_verified may_apply take_event bump validate
    validate_summary get get_listing_accuracy
delivered = refl

deliver-counted_example :
    ((s : RatingSummary) × (listing_accuracy true none 9 (deliver deliveries new_store) ≡ ok s)
      × IsTally (λ e. e.listing_accuracy) (of_id (λ e. e.listing_id) 9 (counted deliveries [])) s)
    × ((s : RatingSummary) × (provider_service true none 9 (deliver deliveries new_store) ≡ ok s)
        × IsTally
            (λ e. e.provider_service)
            (of_id (λ e. e.provider_user_id) 9 (counted deliveries []))
            s)
    × IsOnce (counted deliveries [])
deliver-counted_example = deliver-counted deliveries 9 refl (omega arith)

-- A parser of the fields in the order in which they are written.
abbrev read_fields : Fields → Option VerifiedCreatedPayload
read_fields
      (field _ (Value.text a) (
        field _ (Value.text b) (
          field _ (Value.text c) (
            field _ (Value.text d) (
              field _
                (Value.text e)
                (field _ (Value.number f) (field _ (Value.number g) end))))))) =
    some (record {
      review_id = a;
      verified_interaction_id = b;
      listing_id = c;
      reviewer_user_id = d;
      provider_user_id = e;
      listing_accuracy = f;
      provider_service = g;
      created_at = [];
    })
read_fields
      (field _ (Value.text a) (
        field _ (Value.text b) (
          field _ (Value.text c) (
            field _ (Value.text d) (
              field _ (Value.text e) (
                field _
                  (Value.number f)
                  (field _ (Value.number g) (field _ (Value.text h) end)))))))) =
    some (record {
      review_id = a;
      verified_interaction_id = b;
      listing_id = c;
      reviewer_user_id = d;
      provider_user_id = e;
      listing_accuracy = f;
      provider_service = g;
      created_at = h;
    })
read_fields _ = none

abbrev read_value : Value → Option VerifiedCreatedPayload
read_value (Value.object fs) = read_fields fs
read_value _ = none

abbrev time_text : ℕ → List ℕ
time_text t = (t + 20000) ∷ []

abbrev time_of : List ℕ → Option ℕ
time_of (c ∷ []) = some (c - 20000)
time_of _ = none

abbrev parsers : Parsers
parsers = record { unmarshal = read_value; parse_seconds = time_of; parse_nano = time_of }

read-marshal : (x : VerifiedCreatedPayload) → read_value (marshal_payload x) ≡ some x
unfolding marshal_payload text_field
read-marshal x =
    elim x.created_at
      as (λ s.
        read_value (marshal_payload (record x { created_at = s }))
        ≡ some (record x { created_at = s })) [ [] ↦ refl | ◌∷◌ c s ↦ refl ]

parsers-IsReader : IsReader parsers time_text (λ t. t)
unfolding is_space
parsers-IsReader = record {
  fields = read-marshal;
  time = λ t. ap some (omega arith);
  plain = λ t. trim_space_plain (time_text t) (ground arith);
  filled = λ t. refl;
}

abbrev review : Review
review = record {
  id = 11;
  verified_interaction_id = 21;
  listing_id = 9;
  reviewer_user_id = 4;
  provider_user_id = 5;
  body = none;
  listing_accuracy = 5;
  provider_service = 3;
  created_at = 100;
  updated_at = 100;
}

abbrev event : Event
event = record {
  id = 1;
  event_type = verified_created_type;
  event_version = 1;
  aggregate_type = none;
  aggregate_id = none;
  payload = (encode_verified_created time_text review).payload;
  idempotency_key = none;
  correlation_id = none;
  created_at = 101;
  available_at = 101;
  claimed_at = none;
  claim_until = none;
  completed_at = none;
  attempts = 0;
  last_error_class = none;
}

verified_from_outbox-encode_example : verified_from_outbox parsers event ≡ ok one
unfolding encode_verified_created Reviews.Domain.validate Reviews.Domain.validate_rating
    Reviews.Domain.normalize_body
verified_from_outbox-encode_example =
    verified_from_outbox-encode parsers time_text (λ t. t) parsers-IsReader review
      (omega arith, omega arith) (omega arith, omega arith) (omega arith, omega arith)
      (omega arith, omega arith) (omega arith, omega arith) event (omega arith) refl refl refl refl
