-- ===== src/Reviews/Service.antt =====
-- service.go: the requests on reviews. What other requests do between the checks of Create and its insert
-- is a function on the world; the clock gives Create two readings. The lookups of interactions and
-- of listings answer alike throughout one request.
pub mod Paging
pub mod Create
pub mod Entitled
use konumlu.Base.{
  ℕ, suc, ◌-◌, ◌≡◌, Bool, true, false, not, ◌&&◌, ◌||◌, Option, none, some, List, [], ltb, ◌==◌,
  if◌then◌else◌, is_some, is_empty, length, map, take, nth, Result, ok, err, ◌>>=◌, ◌>>◌, refuse,
  or_err, map_err,
}
use konumlu.Text.{codes, text_eq, trim_space}
use konumlu.Ids.{is_zero, new_id}
use konumlu.Contracts
use konumlu.Contracts.{InteractionRef, ListingRef}
use konumlu.Outbox.Writer.{NewEvent}
use konumlu.Reviews.Domain.{
  Err, zero_id, store_required, unavailable, not_found, verified_required, outbox_required,
  invalid_policy, not_eligible, conflict, listings_required, canceled, foreign, Policy,
  policy_validate, Review, PublicListQuery, PublicListingPage, to_public_review, Eligibility,
  CreateInput, validate_rating, normalize_body, validate, expires_at, within_window, max_reviews,
}
use konumlu.Reviews.Cursor.{
  Codec, ListingCursor, encode_public_cursor, decode_public_cursor, normalize_public_limit,
}
use konumlu.Reviews.Events.{encode_verified_created}
use konumlu.Reviews.Memory
use konumlu.Reviews.Memory.{Store, World, insert_review}

-- mapStoreErr
abbrev pub map_store_err : Err → Err
map_store_err verified_required = unavailable
map_store_err outbox_required = unavailable
map_store_err invalid_policy = unavailable
map_store_err canceled = unavailable
map_store_err foreign = unavailable
map_store_err e = e

-- mapVerifiedErr
abbrev pub map_verified_err : Contracts.Err → Err
map_verified_err Contracts.zero_id = zero_id
map_verified_err Contracts.not_found = not_found
map_verified_err _ = unavailable

-- The parts of Service that stay fixed, over a queue of any type. `store_set` says that the service and
-- its store are not nil; `codec` and `rfc3339` stand for the encodings of the standard library.
pub record Setup (Q : Type 0) : Type 0 where
  pub store_set : Bool
  pub verified : Option (ℕ → Result Contracts.Err InteractionRef)
  pub listings : Option (ℕ → Result Contracts.Err ListingRef)
  pub outbox : NewEvent → World Q → Result Err (Unit {0}) × World Q
  pub policy : Policy
  pub codec : Codec
  pub rfc3339 : ℕ → List ℕ

abbrev pub mapped : {A : Type 0} → Result Err A → Result Err A
mapped {A} = map_err map_store_err

-- The answer of ResolveListingOwner in requirePublishedListing
abbrev pub map_listing_err : Contracts.Err → Err
map_listing_err Contracts.not_found = not_found
map_listing_err Contracts.forbidden = not_found
map_listing_err Contracts.zero_id = zero_id
map_listing_err _ = unavailable

-- reviewable
unfoldable pub reviewable : InteractionRef → Bool
reviewable ref =
    if is_zero ref.id
      || is_zero ref.listing_id
      || is_zero ref.requester_user_id
      || is_zero ref.provider_user_id
    then false
    else if is_zero ref.verified_at
    then false
    else text_eq ref.interaction_type (codes "listing_inspection")

module _ {Q : Type 0} (s : Setup Q) where
  -- requirePublishedListing
  unfoldable pub require_published_listing : ℕ → Result Err (Unit {0})
  require_published_listing listing = do
    resolve ← or_err s.listings listings_required
    ref ← map_err map_listing_err (resolve listing)
    refuse (not (text_eq ref.status (codes "published"))) not_found

  -- The cursor of a query, where it has one.
  unfoldable pub read_cursor : PublicListQuery → Result Err (Option ListingCursor)
  read_cursor q =
      let raw = trim_space q.cursor in
      if is_empty raw
      then ok none
      else do c ← decode_public_cursor s.codec raw q.listing_id; ok (some c)

  -- The page that ListPublicForListing makes of one row more than it shows. The row before the last
  -- one is there: there are more than `limit` of them.
  unfoldable pub page_of : ℕ → ℕ → List Review → Result Err PublicListingPage
  page_of listing limit rows =
      if ltb limit (length rows)
      then (do
        last ← or_err (nth (limit - 1) (take limit rows)) unavailable
        next ← encode_public_cursor s.codec listing (to_public_review last)
        ok (record { reviews = map to_public_review (take limit rows); next_cursor = next }))
      else ok (record { reviews = map to_public_review rows; next_cursor = [] })

  -- `ListPublicForListing`
  unfoldable pub list_public_for_listing : PublicListQuery → World Q → Result Err PublicListingPage
  list_public_for_listing q w = do
    refuse (not s.store_set) store_required
    refuse (is_zero q.listing_id) zero_id
    limit ← normalize_public_limit q.limit
    cursor ← read_cursor q
    require_published_listing q.listing_id
    rows ← mapped (Memory.list_for_listing w.ctx q.listing_id cursor (suc limit) w.store)
    page_of q.listing_id limit rows

  -- requireRequesterInteraction
  unfoldable pub require_requester_interaction : ℕ → ℕ → Result Err InteractionRef
  require_requester_interaction reviewer interaction = do
    get ← or_err s.verified verified_required
    ref ← map_err map_verified_err (get interaction)
    refuse (not (ref.requester_user_id == reviewer)) not_found
    ok ref

  -- alreadyReviewed
  unfoldable pub already_reviewed : ℕ → World Q → Result Err Bool
  already_reviewed interaction w = elim (Memory.get_by_interaction w.ctx interaction w.store) [
    | ok _ ↦ ok true
    | err not_found ↦ ok false
    | err e ↦ err (map_store_err e)
  ]

  -- `Eligibility`
  unfoldable pub eligibility : ℕ → ℕ → ℕ → World Q → Result Err Eligibility
  eligibility reviewer interaction now w = do
    refuse (not s.store_set) store_required
    refuse (is_zero reviewer || is_zero interaction) zero_id
    ref ← require_requester_interaction reviewer interaction
    already ← already_reviewed interaction w
    ok (record {
      eligible = not already && reviewable ref && within_window s.policy ref.verified_at now;
      expires_at = some (expires_at s.policy ref.verified_at);
      already_reviewed = already;
    })

  -- The checks of Create, up to the identifier that it draws.
  unfoldable pub may_create :
      ℕ → CreateInput → ℕ → World Q → Result Err (InteractionRef × Option (List ℕ))
  may_create reviewer inp now w = do
    refuse (not s.store_set) store_required
    refuse (is_zero reviewer || is_zero inp.verified_interaction_id) zero_id
    validate_rating inp.listing_accuracy
    validate_rating inp.provider_service
    body ← normalize_body inp.body
    ref ← require_requester_interaction reviewer inp.verified_interaction_id
    refuse (not (reviewable ref) || not (within_window s.policy ref.verified_at now)) not_eligible
    already ← already_reviewed inp.verified_interaction_id w
    refuse already conflict
    ok (ref, body)

  -- The review that Create makes.
  abbrev pub review_from : ℕ → ℕ → CreateInput → InteractionRef → Option (List ℕ) → ℕ → Review
  review_from id reviewer inp ref body now = record {
    id = id;
    verified_interaction_id = ref.id;
    listing_id = ref.listing_id;
    reviewer_user_id = reviewer;
    provider_user_id = ref.provider_user_id;
    body = body;
    listing_accuracy = inp.listing_accuracy;
    provider_service = inp.provider_service;
    created_at = now;
    updated_at = now;
  }

  -- The review that a request may insert.
  unfoldable pub prepare : ℕ → CreateInput → Option ℕ → ℕ → ℕ → World Q → Result Err Review
  prepare reviewer inp rand now now' w = do
    (ref, body) ← may_create reviewer inp now w
    id ← or_err (new_id rand) unavailable
    let row = review_from id reviewer inp ref body now'
    validate row
    ok row

  -- `Create`
  unfoldable pub create :
      (World Q → World Q)
      → ℕ
      → CreateInput
      → Option ℕ
      → ℕ
      → ℕ
      → World Q
      → Result Err Review × World Q
  create between reviewer inp rand now now' w = elim (prepare reviewer inp rand now now' w) [
    | err e ↦ (err e, w)
    | ok row ↦
        let (r, v) =
          insert_review row (some (s.outbox (encode_verified_created s.rfc3339 row))) (between w) in
        elim r [ ok _ ↦ (ok row, v) | err e ↦ (err (map_store_err e), v) ]
  ]

  -- `ListMine`
  unfoldable pub list_mine : ℕ → World Q → Result Err (List Review)
  list_mine reviewer w = do
    refuse (not s.store_set) store_required
    refuse (is_zero reviewer) zero_id
    mapped (Memory.list_for_reviewer w.ctx reviewer max_reviews w.store)

-- NewService, over the parts that it checks: the store, the two lookups and the outbox.
unfoldable pub new_service : {Q : Type 0} → Setup Q → Bool → Result Err (Setup Q)
new_service s outbox_set = do
  refuse (not s.store_set) store_required
  or_err s.verified verified_required
  or_err s.listings listings_required
  refuse (not outbox_set) outbox_required
  policy_validate s.policy
  ok s
