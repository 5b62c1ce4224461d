-- ===== src/Contracts.antt =====
-- The read surfaces between the packages: offers/contracts, needs/contracts, transactions/contracts,
-- verified/contracts and listings/contracts.
-- A status crosses them as its text. Coordinates, budgets and texts of a need, which the callers
-- modelled here never branch on, are left out of NeedRef.
use konumlu.Base.{ℕ, Bool, false, ◌||◌, Option, none, some, List, ◌==◌, if◌then◌else◌}
use konumlu.Text.{codes, text_eq}
use konumlu.Ids.{is_zero}
use konumlu.Money.{Price}

-- The errors of a contract; `canceled` is the context's.
pub data Err : Type 0 where
  zero_id not_found forbidden unavailable conflict canceled foreign : Err

pub record OfferRef : Type 0 where
  pub id : ℕ
  pub need_id : ℕ
  pub provider_business_id : ℕ
  pub service_id : ℕ
  pub provider_user_id : ℕ
  pub price : Option Price
  pub status : List ℕ

pub record NeedRef : Type 0 where
  pub id : ℕ
  pub requester_user_id : ℕ
  pub status : List ℕ

pub record TransactionRef : Type 0 where
  pub id : ℕ
  pub requester_user_id : ℕ
  pub provider_user_id : ℕ
  pub price : Option Price
  pub status : List ℕ
  pub created_at : ℕ
  pub completed_at : Option ℕ

-- TransactionFulfillmentCommand, and the outcomes of a fulfilment, which are texts in the source.
pub record FulfillmentCommand : Type 0 where
  pub need_id : ℕ
  pub requester_user_id : ℕ
  pub transaction_id : ℕ

pub data Outcome : Type 0 where
  fulfilled_now already_fulfilled not_fulfillable : Outcome

pub record FulfillmentResult : Type 0 where
  pub outcome : Outcome
  pub status : List ℕ

-- InteractionRef, of a completed interaction
pub record InteractionRef : Type 0 where
  pub id : ℕ
  pub listing_id : ℕ
  pub requester_user_id : ℕ
  pub provider_user_id : ℕ
  pub interaction_type : List ℕ
  pub verified_at : ℕ

pub record ListingRef : Type 0 where
  pub id : ℕ
  pub owner_user_id : ℕ
  pub status : List ℕ
  pub moderation_state : List ℕ

-- `(r TransactionRef) MayCreateDelivery`
unfoldable pub may_create_delivery : TransactionRef → Bool
may_create_delivery r = text_eq r.status (codes "pending") || text_eq r.status (codes "active")

-- `(r TransactionRef) Participant`
unfoldable pub participant : TransactionRef → ℕ → Bool
participant r user =
    if is_zero user then false else r.requester_user_id == user || r.provider_user_id == user

-- `(r TransactionRef) MayOpenDispute`
unfoldable pub may_open_dispute : TransactionRef → Bool
may_open_dispute r =
    text_eq r.status (codes "pending")
    || text_eq r.status (codes "active")
    || text_eq r.status (codes "completed")

-- `*r.CompletedAt`, where it is set and not the zero time
set_time : Option ℕ → Option ℕ
set_time none = none
set_time (some t) = if t == 0 then none else some t

-- `(r TransactionRef) DisputeAnchor`
unfoldable pub dispute_anchor : TransactionRef → ℕ
unfolding set_time
dispute_anchor r =
    if text_eq r.status (codes "completed")
    then elim (set_time r.completed_at) [ some t ↦ t | none ↦ r.created_at ]
    else r.created_at
