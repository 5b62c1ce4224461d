-- ===== src/ReviewAggregates/Handler/Roundtrip.antt =====
-- The event that Create of internal/reviews sends, read by the projection.
use konumlu.Base.{
  ℕ, ◌<◌, ◌≡◌, ◌≢◌, refl, Bool-cases, inl, inr, false, some, List, arith, is_empty, ok,
  ok-injective, sym, ◌∙◌, ap,
}
use konumlu.Text.{text_eq, text_eq→eq, trim_space}
use konumlu.Ids.{id_limit, id_string}
use konumlu.Ids.Roundtrip.{parse_id-id_string, is_empty-id_string, id_string-plain}
use konumlu.Outbox.Event.{Event}
use konumlu.Reviews
use konumlu.Reviews.Domain.{Review}
use konumlu.Reviews.Contracts.{
  VerifiedCreatedPayload, marshal_payload, check_payload, decode_verified_created, trimmed,
}
use konumlu.Reviews.Events.{payload_of, encode_verified_created}
use konumlu.ReviewAggregates.Domain.{invalid_event, VerifiedReview}
use konumlu.ReviewAggregates.Handler.{Parsers, verified_from_outbox, parse_created_at, id_of}

-- What the code relies on: json.Unmarshal reads back the fields that json.Marshal wrote, and time.Parse
-- reads the text of a time back to the second, a text without white space at its ends.
pub record IsReader (p : Parsers) (rfc3339 : ℕ → List ℕ) (seconds : ℕ → ℕ) : Type 0 where
  pub fields : (x : VerifiedCreatedPayload) → p.unmarshal (marshal_payload x) ≡ some x
  pub time : (t : ℕ) → p.parse_seconds (rfc3339 t) ≡ some (seconds t)
  pub plain : (t : ℕ) → trim_space (rfc3339 t) ≡ rfc3339 t
  pub filled : (t : ℕ) → is_empty (rfc3339 t) ≡ false

id_string_ne :
    (i j : ℕ)
    → i ≢ 0
    → i < id_limit
    → j ≢ 0
    → j < id_limit
    → i ≢ j
    → text_eq (id_string i) (id_string j) ≡ false
id_string_ne i j a b c d n = elim (Bool-cases (text_eq (id_string i) (id_string j))) [
  | inr e ↦ e
  | inl e ↦
      let same = text_eq→eq (id_string i) (id_string j) e in
      absurd (
        n (
          ok-injective (
            sym (parse_id-id_string invalid_event invalid_event i a b)
            ∙ ap (id_of) same
            ∙ parse_id-id_string invalid_event invalid_event j c d)))
]

-- An identifier as it stands in 16 bytes that are not all zero.
abbrev IsId : ℕ → Type 0
IsId i = (i ≢ 0) × (i < id_limit)

module _ (p : Parsers) (rfc3339 : ℕ → List ℕ) (seconds : ℕ → ℕ) (law : IsReader p rfc3339 seconds)
    (r : Review) (a : IsId r.id) (b : IsId r.verified_interaction_id) (c : IsId r.listing_id)
    (d : IsId r.reviewer_user_id) (f : IsId r.provider_user_id) where
  trimmed-payload_of : trimmed (payload_of rfc3339 r) ≡ payload_of rfc3339 r
  trimmed-payload_of =
      rw
        (
          id_string-plain r.id,
          id_string-plain r.verified_interaction_id,
          id_string-plain r.listing_id,
          id_string-plain r.reviewer_user_id,
          id_string-plain r.provider_user_id,
          law.plain r.created_at,
        )
        refl

  check-payload_of :
      Reviews.Domain.validate r ≡ ok tt → check_payload invalid_event (payload_of rfc3339 r) ≡ ok tt
  unfolding check_payload Reviews.Domain.validate Reviews.Domain.validate_rating
  check-payload_of v =
      rw
        (
          is_empty-id_string r.id,
          is_empty-id_string r.verified_interaction_id,
          is_empty-id_string r.listing_id,
          is_empty-id_string r.reviewer_user_id,
          is_empty-id_string r.provider_user_id,
          law.filled r.created_at,
          id_string_ne r.reviewer_user_id r.provider_user_id d.0 d.1 f.0 f.1 (ground (arith, v)),
        )
        (ground (arith, v))

  -- What the projection takes from an event that carries the review.
  abbrev projected : ℕ → VerifiedReview
  projected event = record {
    event_id = event;
    review_id = r.id;
    verified_interaction_id = r.verified_interaction_id;
    listing_id = r.listing_id;
    reviewer_user_id = r.reviewer_user_id;
    provider_user_id = r.provider_user_id;
    listing_accuracy = r.listing_accuracy;
    provider_service = r.provider_service;
    created_at = seconds r.created_at;
  }

  decode-payload_of :
      Reviews.Domain.validate r ≡ ok tt
      → decode_verified_created invalid_event p.unmarshal
          (some (marshal_payload (payload_of rfc3339 r)))
        ≡ ok (payload_of rfc3339 r)
  unfolding decode_verified_created
  decode-payload_of v =
      rw (law.fields (payload_of rfc3339 r), trimmed-payload_of, check-payload_of v) refl

  -- An outbox event with an identifier, and with the type, the version and the payload that a
  -- valid review with identifiers of 128 bits is encoded to, is read by the projection as that
  -- review, made at the time that is left of the text of its time, where the parsers read back
  -- what was written.
  pub verified_from_outbox-encode :
      (event : Event)
      → event.id ≢ 0
      → event.event_type ≡ (encode_verified_created rfc3339 r).event_type
      → event.event_version ≡ (encode_verified_created rfc3339 r).event_version
      → event.payload ≡ (encode_verified_created rfc3339 r).payload
      → Reviews.Domain.validate r ≡ ok tt
      → verified_from_outbox p event ≡ ok (projected event.id)
  unfolding verified_from_outbox encode_verified_created parse_created_at
  verified_from_outbox-encode event n t e y v =
      rw (t, e, y, decode-payload_of v)
        (rw
          (
            parse_id-id_string invalid_event invalid_event r.id a.0 a.1,
            parse_id-id_string invalid_event invalid_event r.verified_interaction_id b.0 b.1,
            parse_id-id_string invalid_event invalid_event r.listing_id c.0 c.1,
            parse_id-id_string invalid_event invalid_event r.reviewer_user_id d.0 d.1,
            parse_id-id_string invalid_event invalid_event r.provider_user_id f.0 f.1,
          )
          (ground (arith, n, law.filled r.created_at, law.time r.created_at)))
