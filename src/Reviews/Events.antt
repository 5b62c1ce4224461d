-- ===== src/Reviews/Events.antt =====
-- events.go: the event of a new review. json.Marshal of this struct cannot fail; the RFC 3339 text of a
-- time is a parameter.
use konumlu.Base.{ℕ, List, [], some}
use konumlu.Text.{codes}
use konumlu.Ids.{id_string}
use konumlu.Outbox.Writer.{NewEvent}
use konumlu.Transactions.Events.{colon}
use konumlu.Reviews.Contracts.{
  VerifiedCreatedPayload, verified_created_type, event_version, marshal_payload,
}
use konumlu.Reviews.Domain.{Review}

abbrev pub payload_of : (ℕ → List ℕ) → Review → VerifiedCreatedPayload
payload_of rfc3339 r = record {
  review_id = id_string r.id;
  verified_interaction_id = id_string r.verified_interaction_id;
  listing_id = id_string r.listing_id;
  reviewer_user_id = id_string r.reviewer_user_id;
  provider_user_id = id_string r.provider_user_id;
  listing_accuracy = r.listing_accuracy;
  provider_service = r.provider_service;
  created_at = rfc3339 r.created_at;
}

-- encodeVerifiedCreated
unfoldable pub encode_verified_created : (ℕ → List ℕ) → Review → NewEvent
encode_verified_created rfc3339 r = record {
  event_type = verified_created_type;
  event_version = event_version;
  aggregate_type = codes "review";
  aggregate_id = id_string r.id;
  payload = some (marshal_payload (payload_of rfc3339 r));
  idempotency_key = colon verified_created_type (id_string r.verified_interaction_id);
  correlation_id = [];
}
