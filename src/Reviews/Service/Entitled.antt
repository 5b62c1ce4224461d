-- ===== src/Reviews/Service/Entitled.antt =====
-- Who may review: Eligibility and Create of service.go.
use konumlu.Base.{
  subst, ok-injective, ℕ, ◌+◌, ◌<◌, ◌≡◌, ◌≢◌, refl, ◌⊎◌, ◌&&◌, ◌==◌, inl, inr, true, false, not,
  Option, none, some, List, arith, is_ok, Result-cases, Option-cases, Result, ok, lookup,
}
use konumlu.Text.{codes, text_eq→eq, trim_space, trim_space_idem}
use konumlu.Ids.{new_id, stamp_bits, stamp_bits_bounds}
use konumlu.Contracts
use konumlu.Contracts.{InteractionRef}
use konumlu.Reviews.Domain.{
  Review, CreateInput, Eligibility, check_body, validate, validate_rating, normalize_body,
  within_window,
}
use konumlu.Reviews.Events.{encode_verified_created}
use konumlu.Reviews.Memory.{World, insert_review, added}
use konumlu.Reviews.Service.Create.{insert_review-ok}
use konumlu.Reviews.Memory.Index.{IsFair}
use konumlu.Reviews.Service.{
  Setup, eligibility, may_create, review_from, prepare, create, reviewable,
  require_requester_interaction,
}

module _ {Q : Type 0} (s : Setup Q) where
  -- What Create stores of a body is normalized.
  check_body-normalize_body :
      (raw : List ℕ) (body : Option (List ℕ))
      → normalize_body raw ≡ ok body
      → check_body body ≡ ok tt
  unfolding normalize_body
  check_body-normalize_body raw none h = refl
  check_body-normalize_body raw (some s) h =
      let same : trim_space raw ≡ s = ground arith in
      let again : trim_space s ≡ s = rw (← same) (trim_space_idem raw) in
      ground (arith, again, same)

  validate-review_from :
      (id reviewer : ℕ) (inp : CreateInput) (ref : InteractionRef) (body : Option (List ℕ))
      (now : ℕ)
      → id ≢ 0
      → now ≢ 0
      → reviewer ≢ 0
      → reviewable ref ≡ true
      → validate_rating inp.listing_accuracy ≡ ok tt
      → validate_rating inp.provider_service ≡ ok tt
      → normalize_body inp.body ≡ ok body
      → is_ok (validate (review_from s id reviewer inp ref body now))
        ≡ not (reviewer == ref.provider_user_id)
  unfolding validate reviewable
  validate-review_from id reviewer inp ref body now i n r k a b c =
      ground (arith, check_body-normalize_body inp.body body c)

  -- What the checks of Create answer where Eligibility has answered.
  may_create_eligible :
      (reviewer : ℕ) (inp : CreateInput) (body : Option (List ℕ)) (now : ℕ) (w : World Q)
      (ref : InteractionRef) (e : Eligibility)
      → require_requester_interaction s reviewer inp.verified_interaction_id ≡ ok ref
      → eligibility s reviewer inp.verified_interaction_id now w ≡ ok e
      → validate_rating inp.listing_accuracy ≡ ok tt
      → validate_rating inp.provider_service ≡ ok tt
      → normalize_body inp.body ≡ ok body
      → ((e.eligible ≡ true)
          × (may_create s reviewer inp now w ≡ ok (ref, body))
          × (reviewer ≢ 0)
          × (reviewable ref ≡ true))
        ⊎ ((e.eligible ≡ false) × (is_ok (may_create s reviewer inp now w) ≡ false))
  unfolding eligibility may_create
  may_create_eligible reviewer inp body now w ref e q h a b c = ground arith

  -- Where the interaction is one that the reviewer requested, Eligibility answers, the ratings
  -- and the body are valid, the random source gives bytes and the second reading of the clock
  -- is not zero, Create at the same time comes to a review to insert exactly if the answer was
  -- that the reviewer is eligible and the reviewer is not the provider of the interaction: the
  -- validation of the review that it makes refuses nothing else.
  pub eligibility-prepare :
      (reviewer : ℕ) (inp : CreateInput) (body : Option (List ℕ)) (r now now' : ℕ) (w : World Q)
      (ref : InteractionRef) (e : Eligibility)
      → require_requester_interaction s reviewer inp.verified_interaction_id ≡ ok ref
      → eligibility s reviewer inp.verified_interaction_id now w ≡ ok e
      → validate_rating inp.listing_accuracy ≡ ok tt
      → validate_rating inp.provider_service ≡ ok tt
      → normalize_body inp.body ≡ ok body
      → now' ≢ 0
      → is_ok (prepare s reviewer inp (some r) now now' w)
        ≡ (e.eligible && not (reviewer == ref.provider_user_id))
  unfolding prepare new_id
  eligibility-prepare reviewer inp body r now now' w ref e q h a b c nz =
      let (drawn, _) = stamp_bits_bounds r in
      elim (may_create_eligible reviewer inp body now w ref e q h a b c) [
        | inl (able, may, known, fit) ↦ ground (
          arith,
          able,
          may,
          validate-review_from (stamp_bits r) reviewer inp ref body now' (ground arith) nz known fit
              a b c,
        )
        | inr (unable, refused) ↦ ground (arith, unable, refused)
      ]

  -- What entitles a user to review an interaction at a time: an inspection of a listing that the lookup
  -- of interactions knows as theirs, verified less than the window ago.
  pub record IsEntitled (reviewer interaction now : ℕ) (ref : InteractionRef) : Type 0 where
    pub get : ℕ → Result Contracts.Err InteractionRef
    pub source : s.verified ≡ some get
    pub found : get interaction ≡ ok ref
    pub requester : ref.requester_user_id ≡ reviewer
    pub inspection : ref.interaction_type ≡ codes "listing_inspection"
    pub recent : (0 < ref.verified_at) × (now < ref.verified_at + s.policy.creation_window)

  require-ok :
      (reviewer interaction : ℕ) (ref : InteractionRef)
      → require_requester_interaction s reviewer interaction ≡ ok ref
      → (get : ℕ → Result Contracts.Err InteractionRef) × (s.verified ≡ some get)
        × (get interaction ≡ ok ref)
        × (ref.requester_user_id ≡ reviewer)
  unfolding require_requester_interaction
  require-ok reviewer interaction ref h = elim (Option-cases s.verified) [
    | inl e ↦ absurd (ground (arith, rw e at h))
    | inr (get, e) ↦ let k = rw e at h in (get, e, ground (arith, k), ground (arith, k))
  ]

  checked-IsEntitled :
      (reviewer interaction now : ℕ) (ref : InteractionRef)
      → require_requester_interaction s reviewer interaction ≡ ok ref
      → reviewable ref ≡ true
      → within_window s.policy ref.verified_at now ≡ true
      → IsEntitled reviewer interaction now ref
  unfolding reviewable within_window
  checked-IsEntitled reviewer interaction now ref h k l =
      let (get, a, b, c) = require-ok reviewer interaction ref h in
      record {
        get = get;
        source = a;
        found = b;
        requester = c;
        inspection = text_eq→eq ref.interaction_type (codes "listing_inspection") (ground arith);
        recent = (ground arith, ground arith);
      }

  may_create-ok :
      (reviewer : ℕ) (inp : CreateInput) (now : ℕ) (w : World Q) (ref : InteractionRef)
      (body : Option (List ℕ))
      → may_create s reviewer inp now w ≡ ok (ref, body)
      → IsEntitled reviewer inp.verified_interaction_id now ref
  unfolding may_create
  may_create-ok reviewer inp now w ref body h =
      checked-IsEntitled reviewer inp.verified_interaction_id now ref (ground arith) (ground arith)
        (ground arith)

  prepare-ok :
      (reviewer : ℕ) (inp : CreateInput) (rand : Option ℕ) (now now' : ℕ) (w : World Q) (r : Review)
      → prepare s reviewer inp rand now now' w ≡ ok r
      → (ref : InteractionRef) × IsEntitled reviewer inp.verified_interaction_id now ref
        × (r.verified_interaction_id ≡ ref.id)
        × (r.reviewer_user_id ≡ reviewer)
        × (r.listing_id ≡ ref.listing_id)
  unfolding prepare
  prepare-ok reviewer inp rand now now' w r h =
      elim (Result-cases (may_create s reviewer inp now w)) [
        | inr (x, e) ↦ absurd (ground (arith, rw e at h))
        | inl ((ref, body), e) ↦
            let k = rw e at h in
            (
              ref,
              may_create-ok reviewer inp now w ref body e,
              ground (arith, k),
              ground (arith, k),
              ground (arith, k),
            )
      ]

  -- Where Create answers with a review and its enqueue runs only fair requests, the caller is
  -- the requester of a verified listing inspection that the lookup knows, less than the
  -- creation window ago; the review is about that interaction and its listing, the interaction
  -- had no review, the review is stored, and its event was accepted by the outbox.
  pub create-ok :
      (between : World Q → World Q) (reviewer : ℕ) (inp : CreateInput) (rand : Option ℕ)
      (now now' : ℕ) (w : World Q) (r : Review)
      → ((e : Review) → IsFair (λ v. (s.outbox (encode_verified_created s.rfc3339 e) v).1))
      → (create s between reviewer inp rand now now' w).0 ≡ ok r
      → (ref : InteractionRef) × IsEntitled reviewer inp.verified_interaction_id now ref
        × (r.verified_interaction_id ≡ ref.id)
        × (r.reviewer_user_id ≡ reviewer)
        × (r.listing_id ≡ ref.listing_id)
        × (lookup ref.id (between w).store.by_interaction ≡ none)
        × (lookup r.id (create s between reviewer inp rand now now' w).1.store.by_id ≡ some r)
        × ((s.outbox
              (encode_verified_created s.rfc3339 r)
              (record (between w) { store = added r (between w).store })).0
            ≡ ok tt)
  unfolding create
  create-ok between reviewer inp rand now now' w r fo h =
      elim (Result-cases (prepare s reviewer inp rand now now' w)) [
        | inr (x, e) ↦ absurd (ground (arith, rw (e, create) at h))
        | inl (row, e) ↦
            let enqueue = s.outbox (encode_verified_created s.rfc3339 row) in
            elim (Result-cases (insert_review row (some enqueue) (between w)).0) [
              | inr (x, g) ↦ absurd (ground (arith, rw g at (rw (e, create) at h)))
              | inl (_, g) ↦
                  let same : row ≡ r = ok-injective (rw g at (rw (e, create) at h)) in
                  let (ref, k, a, b, c) = prepare-ok reviewer inp rand now now' w row e in
                  let (n, l, q) = insert_review-ok enqueue row (between w) (fo row) g in
                  rw (← same) (
                    rw (e, create)
                      (rw g (
                        ref,
                        k,
                        a,
                        b,
                        c,
                        subst (λ (i : ℕ). lookup i (between w).store.by_interaction ≡ none) a n,
                        l,
                        q,
                      )))
            ]
      ]
