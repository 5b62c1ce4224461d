-- ===== src/ReviewAggregates/Handler.antt =====
-- projector.go and handler.go: the event of the outbox that the projection takes. json.Unmarshal and the
-- two formats of time.Parse are parameters.
pub mod Roundtrip
use konumlu.Base.{
  ℕ, Bool, not, ◌&&◌, ◌||◌, Option, none, some, List, [], ◌==◌, if◌then◌else◌, is_empty, Result, ok,
  err, ◌>>=◌, ◌>>◌, refuse, or_err,
}
use konumlu.Text.{text_eq}
use konumlu.Ids.{is_zero, parse_id}
use konumlu.Outbox.Event.{Value, Event}
use konumlu.Reviews.Contracts.{
  VerifiedCreatedPayload, verified_created_type, event_version, decode_verified_created,
}
use konumlu.ReviewAggregates.Domain.{Err, invalid_event, store_required, VerifiedReview}
use konumlu.ReviewAggregates.Memory.{Store}
use konumlu.ReviewAggregates.Projector.{apply}

pub record Parsers : Type 0 where
  pub unmarshal : Value → Option VerifiedCreatedPayload
  pub parse_seconds : List ℕ → Option ℕ
  pub parse_nano : List ℕ → Option ℕ

-- parseCreatedAt
unfoldable pub parse_created_at : Parsers → List ℕ → ℕ → Result Err ℕ
parse_created_at p raw fallback =
    if is_empty raw
    then (if is_zero fallback then err invalid_event else ok fallback)
    else elim (p.parse_seconds raw) [
      | some t ↦ ok t
      | none ↦ or_err (p.parse_nano raw) invalid_event
    ]

-- ParseID, with the error of verifiedFromOutbox
abbrev pub id_of : List ℕ → Result Err ℕ
id_of s = parse_id invalid_event invalid_event s

-- verifiedFromOutbox
unfoldable pub verified_from_outbox : Parsers → Event → Result Err VerifiedReview
verified_from_outbox p event = do
  refuse
      (not (text_eq event.event_type verified_created_type)
        || not (event.event_version == event_version))
      invalid_event
  refuse (is_zero event.id) invalid_event
  payload ← decode_verified_created invalid_event p.unmarshal event.payload
  review ← id_of payload.review_id
  interaction ← id_of payload.verified_interaction_id
  listing ← id_of payload.listing_id
  reviewer ← id_of payload.reviewer_user_id
  provider ← id_of payload.provider_user_id
  created ← parse_created_at p payload.created_at event.created_at
  ok (record {
    event_id = event.id;
    review_id = review;
    verified_interaction_id = interaction;
    listing_id = listing;
    reviewer_user_id = reviewer;
    provider_user_id = provider;
    listing_accuracy = payload.listing_accuracy;
    provider_service = payload.provider_service;
    created_at = created;
  })

-- `(h *ProjectionHandler) Handle`; `set` says that the handler and what it holds are not nil
unfoldable pub handle :
    Parsers → Bool → Option Err → Event → ℕ → Store → Result Err (Unit {0}) × Store
handle p set ctx event now m =
    elim (refuse (not set) store_required >> verified_from_outbox p event) [
      | err e ↦ (err e, m)
      | ok verified ↦ apply set ctx verified now m
    ]

-- KnownReviewAggregateEvent
abbrev pub known_review_aggregate_event : List ℕ → ℕ → Bool
known_review_aggregate_event ty version =
    text_eq ty verified_created_type && version == event_version
