-- ===== src/Reviews/Contracts.antt =====
-- contracts/events.go: the payload of the event of a new review, for the packages that read it.
-- json.Unmarshal is a parameter, from the tree of a message to the fields.
use konumlu.Base.{
  ℕ, ◌||◌, Option, List, ltb, if◌then◌else◌, is_empty, Result, ok, ◌>>=◌, ◌>>◌, refuse, or_err,
}
use konumlu.Text.{codes, text_eq, trim_space}
use konumlu.Outbox.Event.{Value, Raw, end, field}
use konumlu.Transactions.Events.{text_field}

abbrev pub verified_created_type : List ℕ
verified_created_type = codes "reviews.verified.created"

abbrev pub event_version : ℕ
event_version = 1

pub record VerifiedCreatedPayload : Type 0 where
  pub review_id : List ℕ
  pub verified_interaction_id : List ℕ
  pub listing_id : List ℕ
  pub reviewer_user_id : List ℕ
  pub provider_user_id : List ℕ
  pub listing_accuracy : ℕ
  pub provider_service : ℕ
  pub created_at : List ℕ

-- json.Marshal: created_at is left out where it is empty
unfoldable pub marshal_payload : VerifiedCreatedPayload → Value
marshal_payload p = Value.object (
    text_field "review_id" p.review_id (
      text_field "verified_interaction_id" p.verified_interaction_id (
        text_field "listing_id" p.listing_id (
          text_field "reviewer_user_id" p.reviewer_user_id (
            text_field "provider_user_id" p.provider_user_id (
              field (codes "listing_accuracy") (Value.number p.listing_accuracy) (
                field (codes "provider_service") (Value.number p.provider_service) (
                  if is_empty p.created_at
                  then end
                  else text_field "created_at" p.created_at end))))))))

-- The payload with its texts trimmed.
abbrev pub trimmed : VerifiedCreatedPayload → VerifiedCreatedPayload
trimmed p = record p {
  review_id = trim_space p.review_id;
  verified_interaction_id = trim_space p.verified_interaction_id;
  listing_id = trim_space p.listing_id;
  reviewer_user_id = trim_space p.reviewer_user_id;
  provider_user_id = trim_space p.provider_user_id;
  created_at = trim_space p.created_at;
}

module _ {E : Type 0} (invalid : E) where
  -- The checks of DecodeVerifiedCreated.
  unfoldable pub check_payload : VerifiedCreatedPayload → Result E (Unit {0})
  check_payload p = do
    refuse
        (is_empty p.review_id
          || is_empty p.verified_interaction_id
          || is_empty p.listing_id
          || is_empty p.reviewer_user_id
          || is_empty p.provider_user_id
          || is_empty p.created_at)
        invalid
    refuse (text_eq p.reviewer_user_id p.provider_user_id) invalid
    refuse
        (ltb p.listing_accuracy 1
          || ltb 5 p.listing_accuracy
          || ltb p.provider_service 1
          || ltb 5 p.provider_service)
        invalid

  -- DecodeVerifiedCreated
  unfoldable pub decode_verified_created :
      (Value → Option VerifiedCreatedPayload) → Raw → Result E VerifiedCreatedPayload
  decode_verified_created unmarshal raw = do
    v ← or_err raw invalid
    p ← or_err (unmarshal v) invalid
    check_payload (trimmed p)
    ok (trimmed p)
