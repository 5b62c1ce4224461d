-- ===== src/ReviewAggregates/Projector/Refinement.antt =====
-- The projector after any sequence of deliveries, which may repeat an event.
use konumlu.Base.{
  ℕ, ◌≡◌, ◌≢◌, refl, ◌∙◌, true, false, not, ◌&&◌, none, List, [], ◌∷◌, arith, ◌==◌, if◌then◌else◌,
  is_some, any, all, lookup, ok, is_ok, Result-cases, Bool-cases, inl, inr,
}
use konumlu.ReviewAggregates.Domain.{RatingSummary, VerifiedReview, validate}
use konumlu.ReviewAggregates.Memory.{
  Store, new_store, or_zero, take_event, apply_verified, may_apply, get, get_listing_accuracy,
  get_provider_service,
}
use konumlu.ReviewAggregates.Memory.Tally.{
  of_id, IsTally, IsProjection, new_store-IsProjection, take_event-IsProjection,
}
use konumlu.ReviewAggregates.Projector.{apply, listing_accuracy, provider_service}

-- The events that count, of those delivered: the valid ones, each identifier once.
unfoldable pub counted : List (VerifiedReview × ℕ) → List VerifiedReview → List VerifiedReview
counted [] es = es
counted ((e, _) ∷ ds) es =
    counted ds
      (if is_ok (validate e) && not (any (λ x. x.event_id == e.event_id) es) then e ∷ es else es)

abbrev pub IsOnce : List VerifiedReview → Type 0
IsOnce [] = Unit {0}
IsOnce (e ∷ es) = (any (λ x. x.event_id == e.event_id) es ≡ false) × IsOnce es

pub counted-IsOnce :
    (ds : List (VerifiedReview × ℕ)) (es : List VerifiedReview) → IsOnce es → IsOnce (counted ds es)
unfolding counted
counted-IsOnce [] es h = h
counted-IsOnce ((e, _) ∷ ds) es h =
    elim (Bool-cases (is_ok (validate e) && not (any (λ x. x.event_id == e.event_id) es))) [
      | inl c ↦ rw c (counted-IsOnce ds (e ∷ es) (ground arith, h))
      | inr c ↦ rw c (counted-IsOnce ds es h)
    ]

-- Deliveries, each with the time at which it is applied.
unfoldable pub deliver : List (VerifiedReview × ℕ) → Store → Store
deliver [] m = m
deliver ((e, now) ∷ ds) m = deliver ds (apply true none e now m).1

passes :
    (e : VerifiedReview) (m : Store)
    → validate e ≡ ok tt
    → m.fail ≡ none
    → may_apply none e m ≡ ok tt
unfolding may_apply
passes e m v f = ground (arith, v, f)

apply-known :
    (e : VerifiedReview) (now : ℕ) (m : Store)
    → validate e ≡ ok tt
    → m.fail ≡ none
    → is_some (lookup e.event_id m.processed) ≡ true
    → (apply true none e now m).1 ≡ m
unfolding apply apply_verified
apply-known e now m v f k = rw (v, apply) (rw (passes e m v f, apply_verified) (rw k refl))

apply-new :
    (e : VerifiedReview) (now : ℕ) (m : Store)
    → validate e ≡ ok tt
    → m.fail ≡ none
    → is_some (lookup e.event_id m.processed) ≡ false
    → (apply true none e now m).1 ≡ (take_event e now m).1
unfolding apply apply_verified
apply-new e now m v f k = rw (v, apply) (rw (passes e m v f, apply_verified) (rw k refl))

applied :
    (es : List VerifiedReview) (m : Store) (e : VerifiedReview) (now : ℕ)
    → IsProjection es m
    → now ≢ 0
    → IsProjection
        (if is_ok (validate e) && not (any (λ x. x.event_id == e.event_id) es) then e ∷ es else es)
        (apply true none e now m).1
unfolding apply
applied es m e now h n = elim (Result-cases (validate e)) [
  | inr (x, f) ↦ rw (f, apply) h
  | inl (_, f) ↦ elim (Bool-cases (any (λ x. x.event_id == e.event_id) es)) [
    | inl c ↦ rw (f, c, apply-known e now m f h.working (h.marked e.event_id ∙ c)) h
    | inr c ↦
        rw (f, c, apply-new e now m f h.working (h.marked e.event_id ∙ c))
          ((take_event-IsProjection es m e now h f n).1)
  ]
]

pub deliver-IsProjection :
    (ds : List (VerifiedReview × ℕ)) (es : List VerifiedReview) (m : Store)
    → IsProjection es m
    → all (λ d. not (d.1 == 0)) ds ≡ true
    → IsProjection (counted ds es) (deliver ds m)
unfolding counted deliver
deliver-IsProjection [] es m h n = h
deliver-IsProjection ((e, now) ∷ ds) es m h n =
    deliver-IsProjection ds _ (apply true none e now m).1 (applied es m e now h (ground arith))
      (ground arith)

-- From an empty projection, after any sequence of deliveries at times that are not zero, in which
-- events may be invalid or repeated, the summaries that the projector answers for a listing and
-- for a provider count and sum exactly the ratings of the valid events about them, each event
-- identifier once, and are valid summaries.
pub deliver-counted :
    (ds : List (VerifiedReview × ℕ)) (id : ℕ)
    → all (λ d. not (d.1 == 0)) ds ≡ true
    → id ≢ 0
    → ((s : RatingSummary) × (listing_accuracy true none id (deliver ds new_store) ≡ ok s)
        × IsTally (λ e. e.listing_accuracy) (of_id (λ e. e.listing_id) id (counted ds [])) s)
      × ((s : RatingSummary) × (provider_service true none id (deliver ds new_store) ≡ ok s)
          × IsTally
              (λ e. e.provider_service)
              (of_id (λ e. e.provider_user_id) id (counted ds []))
              s)
      × IsOnce (counted ds [])
unfolding listing_accuracy provider_service get get_listing_accuracy get_provider_service
deliver-counted ds id n nz =
    let m = deliver ds new_store in
    let p = deliver-IsProjection ds [] new_store new_store-IsProjection n in
    (
      (or_zero (lookup id m.listings), ground (arith, p.working), p.listings id),
      (or_zero (lookup id m.providers), ground (arith, p.working), p.providers id),
      counted-IsOnce ds [] tt,
    )
