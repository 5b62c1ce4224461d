-- ===== src/Reviews/Memory.antt =====
-- memory.go: the store of reviews, with its index by verified interaction. The mutex makes each locked
-- part one step; InsertReview enqueues its event outside the lock, so the enqueue function acts on the
-- whole world, in which other requests may run meanwhile.
pub mod Sorted
pub mod Index
use konumlu.Base.{
  ℕ, Bool, true, false, not, ◌&&◌, Option, none, some, List, [], ◌∷◌, ltb, ◌==◌, if◌then◌else◌,
  is_some, keep, take, Table, lookup, insert, delete, values, Result, ok, err, ◌>>=◌, ◌>>◌, refuse,
  raise, or_err,
}
use konumlu.Ids.{is_zero}
use konumlu.Reviews.Domain.{
  Err, zero_id, not_found, conflict, Review, validate, max_reviews, max_public_reviews,
}
use konumlu.Reviews.Cursor.{ListingCursor, after_listing_cursor, compare_listing_reviews}

pub record Store : Type 0 where
  pub by_id : Table Review
  pub by_interaction : Table ℕ
  pub fail : Option Err

-- NewMemoryStore
abbrev pub new_store : Store
new_store = record { by_id = []; by_interaction = []; fail = none }

-- What a request meets: the store, the queue of the outbox, and the context's error.
pub record World (Q : Type 0) : Type 0 where
  pub store : Store
  pub queue : Q
  pub ctx : Option Err

-- The checks of InsertReview.
unfoldable pub may_insert : Option Err → Review → Store → Result Err (Unit {0})
may_insert ctx row m = do
  raise ctx
  validate row
  raise m.fail
  refuse (is_some (lookup row.verified_interaction_id m.by_interaction)) conflict
  refuse (is_some (lookup row.id m.by_id)) conflict

abbrev pub added : Review → Store → Store
added row m = record m {
  by_id = insert row.id row m.by_id;
  by_interaction = insert row.verified_interaction_id row.id m.by_interaction;
}

abbrev pub removed : Review → Store → Store
removed row m = record m {
  by_id = delete row.id m.by_id;
  by_interaction = delete row.verified_interaction_id m.by_interaction;
}

module _ {Q : Type 0} where
  -- The enqueue of InsertReview, once the row stands: an error takes the row away again.
  unfoldable pub enqueued :
      Review
      → Option (World Q → Result Err (Unit {0}) × World Q)
      → World Q
      → Result Err (Unit {0}) × World Q
  enqueued row none w = (ok tt, w)
  enqueued row (some enqueue) w =
      let (r, v) = enqueue w in
      elim r [ ok _ ↦ (ok tt, v) | err e ↦ (err e, record v { store = removed row v.store }) ]

  -- MemoryStore.InsertReview
  unfoldable pub insert_review :
      Review
      → Option (World Q → Result Err (Unit {0}) × World Q)
      → World Q
      → Result Err (Unit {0}) × World Q
  insert_review row enqueue w = elim (may_insert w.ctx row w.store) [
    | err e ↦ (err e, w)
    | ok _ ↦ enqueued row enqueue (record w { store = added row w.store })
  ]

-- Go's zero Review, which reading a missing key of `byID` gives.
abbrev pub or_zero : Option Review → Review
or_zero (some r) = r
or_zero none = record {
  id = 0;
  verified_interaction_id = 0;
  listing_id = 0;
  reviewer_user_id = 0;
  provider_user_id = 0;
  body = none;
  listing_accuracy = 0;
  provider_service = 0;
  created_at = 0;
  updated_at = 0;
}

-- MemoryStore.GetByInteraction
unfoldable pub get_by_interaction : Option Err → ℕ → Store → Result Err Review
get_by_interaction ctx interaction m = do
  raise ctx
  raise m.fail
  id ← or_err (lookup interaction m.by_interaction) not_found
  ok (or_zero (lookup id m.by_id))

unfoldable pub place : Review → List Review → List Review
unfolding compare_listing_reviews
place r [] = r ∷ []
place r (x ∷ xs) =
    let rest = place r xs in if compare_listing_reviews x r then x ∷ rest else r ∷ (x ∷ xs)

-- sort.Slice by compareListingReviews, which is total on distinct identifiers, so that every sort gives one
-- list. ListForReviewer compares the texts of the identifiers, which order as the identifiers do.
unfoldable pub sorted : List Review → List Review
unfolding place
sorted [] = []
sorted (x ∷ xs) = place x (sorted xs)

-- MemoryStore.ListForReviewer
unfoldable pub list_for_reviewer : Option Err → ℕ → ℕ → Store → Result Err (List Review)
unfolding sorted
list_for_reviewer ctx reviewer limit m = do
  raise ctx
  raise m.fail
  let n = if limit == 0 then max_reviews else limit
  ok (take n (sorted (keep (λ r. r.reviewer_user_id == reviewer) (values m.by_id))))

-- MemoryStore.ListForListing
unfoldable pub list_for_listing :
    Option Err → ℕ → Option ListingCursor → ℕ → Store → Result Err (List Review)
unfolding sorted
list_for_listing ctx listing cursor limit m = do
  raise ctx
  raise m.fail
  refuse (is_zero listing) zero_id
  let n = if limit == 0 then max_public_reviews else limit
  ok (
      take n (
        sorted
          (keep (λ r. r.listing_id == listing && after_listing_cursor r cursor) (values m.by_id))))
