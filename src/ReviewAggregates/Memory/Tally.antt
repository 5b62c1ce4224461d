-- ===== src/ReviewAggregates/Memory/Tally.antt =====
-- What the projection is a tally of: the reviews whose events it has taken.
use konumlu.Base.{
  subst, ℕ, ◌+◌, ◌≡◌, ◌≢◌, refl, true, none, List, [], ◌∷◌, arith, ◌==◌, is_some, any, keep, length,
  Table, lookup, insert, lookup-insert, ok, Bool-cases, inl, inr,
}
use konumlu.ReviewAggregates.Domain.{
  RatingSummary, validate_summary, VerifiedReview, validate, valid_rating,
}
use konumlu.ReviewAggregates.Memory.{Store, bump, bumped, or_zero, take_event, new_store}

abbrev pub total : (VerifiedReview → ℕ) → List VerifiedReview → ℕ
total f [] = 0
total f (e ∷ es) = f e + total f es

-- The reviews that concern `id`.
abbrev pub of_id : (VerifiedReview → ℕ) → ℕ → List VerifiedReview → List VerifiedReview
of_id f id es = keep (λ e. f e == id) es

-- Whether a summary counts and sums the given reviews.
pub record IsTally (rating : VerifiedReview → ℕ) (es : List VerifiedReview) (s : RatingSummary)
    : Type 0 where
  pub count : s.review_count ≡ length es
  pub sum : s.rating_sum ≡ total rating es
  pub valid : validate_summary s ≡ ok tt

-- What stands in a table of summaries is the tally of the reviews of each key.
abbrev pub IsTable :
    (VerifiedReview → ℕ) → (VerifiedReview → ℕ) → List VerifiedReview → Table RatingSummary → Type 0
IsTable key rating es t = (id : ℕ) → IsTally rating (of_id key id es) (or_zero (lookup id t))

bumped-valid :
    (s : RatingSummary) (rating now : ℕ)
    → validate_summary s ≡ ok tt
    → valid_rating rating ≡ true
    → now ≢ 0
    → validate_summary (bumped rating now s) ≡ ok tt
unfolding validate_summary
bumped-valid s rating now h v n = ground arith

bumped-IsTally :
    (rating : VerifiedReview → ℕ) (es : List VerifiedReview) (s : RatingSummary)
    (e : VerifiedReview) (now : ℕ)
    → IsTally rating es s
    → valid_rating (rating e) ≡ true
    → now ≢ 0
    → IsTally rating (e ∷ es) (bumped (rating e) now s)
bumped-IsTally rating es s e now h v n = record {
  count = omega (arith, h.count);
  sum = omega (arith, h.sum);
  valid = bumped-valid s (rating e) now h.valid v n;
}

pub bump-IsTable :
    (key rating : VerifiedReview → ℕ) (es : List VerifiedReview) (t : Table RatingSummary)
    (e : VerifiedReview) (now : ℕ)
    → IsTable key rating es t
    → valid_rating (rating e) ≡ true
    → now ≢ 0
    → (u : Table RatingSummary) × (bump (key e) (rating e) now t ≡ ok u)
      × IsTable key rating (e ∷ es) u
unfolding bump
bump-IsTable key rating es t e now h v n =
    let old = or_zero (lookup (key e) t) in
    let row = bumped (rating e) now old in
    let k = bumped-IsTally rating (of_id key (key e) es) old e now (h (key e)) v n in
    (
      insert (key e) row t,
      rw k.valid refl,
      λ id. rw (lookup-insert (key e) id row t) (elim (Bool-cases (key e == id)) [
        | inr c ↦ rw c (h id)
        | inl c ↦
            let same : key e ≡ id = ground arith in
            rw c (subst (λ (i : ℕ). IsTally rating (e ∷ of_id key i es) row) same k)
      ]),
    )

-- The projection is a tally of `es`, whose events it has marked.
pub record IsProjection (es : List VerifiedReview) (m : Store) : Type 0 where
  pub marked : (i : ℕ) → is_some (lookup i m.processed) ≡ any (λ e. e.event_id == i) es
  pub listings : IsTable (λ e. e.listing_id) (λ e. e.listing_accuracy) es m.listings
  pub providers : IsTable (λ e. e.provider_user_id) (λ e. e.provider_service) es m.providers
  pub working : m.fail ≡ none

pub new_store-IsProjection : IsProjection [] new_store
unfolding validate_summary
new_store-IsProjection = record {
  marked = λ i. refl;
  listings = λ id. record { count = refl; sum = refl; valid = refl };
  providers = λ id. record { count = refl; sum = refl; valid = refl };
  working = refl;
}

rated :
    (e : VerifiedReview)
    → validate e ≡ ok tt
    → (valid_rating e.listing_accuracy ≡ true) × (valid_rating e.provider_service ≡ true)
unfolding validate
rated e h = (ground arith, ground arith)

pub take_event-IsProjection :
    (es : List VerifiedReview) (m : Store) (e : VerifiedReview) (now : ℕ)
    → IsProjection es m
    → validate e ≡ ok tt
    → now ≢ 0
    → ((take_event e now m).0 ≡ ok tt) × IsProjection (e ∷ es) (take_event e now m).1
unfolding take_event
take_event-IsProjection es m e now h v n =
    let (a, b) = rated e v in
    let (ls, f, ts) =
      bump-IsTable (λ x. x.listing_id) (λ x. x.listing_accuracy) es m.listings e now h.listings a
        n in
    let (ps, g, us) =
      bump-IsTable (λ x. x.provider_user_id) (λ x. x.provider_service) es m.providers e now
        h.providers b n in
    rw (f, take_event)
      (rw g (
        refl,
        record {
          marked = λ i. ground (arith, lookup-insert e.event_id i tt m.processed, h.marked i);
          listings = ts;
          providers = us;
          working = h.working;
        },
      ))
