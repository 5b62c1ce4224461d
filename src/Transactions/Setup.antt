-- ===== src/Transactions/Setup.antt =====
-- service.go: what the service is built from, its error mappings and its tests of the source need. The
-- lookups of other packages answer alike throughout one request.
use konumlu.Base.{
  ℕ, Bool, true, false, not, ◌||◌, Option, List, ◌==◌, if◌then◌else◌, Result, ok, err, ◌>>=◌, ◌>>◌,
  refuse, or_err, map_err,
}
use konumlu.Text.{codes, text_eq}
use konumlu.Contracts
use konumlu.Contracts.{OfferRef, NeedRef}
use konumlu.Outbox.Writer.{NewEvent}
use konumlu.Transactions.Domain.{
  Err, zero_id, invalid_transition, unavailable, not_found, conflict, need_draft, need_cancelled,
  need_expired, need_fulfilled, canceled, db_no_rows, db_conflict, db_unavailable, outbox_conflict,
  outbox_unavailable, outbox_invalid_event, outbox_sensitive_payload, foreign, Transaction,
}
use konumlu.Transactions.Memory.{Store}

-- mapOfferErr and mapNeedErr
abbrev pub map_offer_err : Contracts.Err → Err
map_offer_err Contracts.zero_id = zero_id
map_offer_err Contracts.not_found = not_found
map_offer_err Contracts.canceled = canceled
map_offer_err _ = unavailable

abbrev pub map_need_err : Contracts.Err → Err
map_need_err Contracts.zero_id = zero_id
map_need_err Contracts.not_found = not_found
map_need_err Contracts.forbidden = not_found
map_need_err Contracts.canceled = canceled
map_need_err _ = unavailable

-- mapStoreErr
abbrev pub map_store_err : Err → Err
map_store_err db_no_rows = not_found
map_store_err db_conflict = conflict
map_store_err db_unavailable = unavailable
map_store_err outbox_conflict = unavailable
map_store_err outbox_unavailable = unavailable
map_store_err outbox_invalid_event = unavailable
map_store_err outbox_sensitive_payload = unavailable
map_store_err foreign = unavailable
map_store_err e = e

abbrev pub is_conflict : Err → Bool
is_conflict conflict = true
is_conflict _ = false

abbrev pub is_not_found : Err → Bool
is_not_found not_found = true
is_not_found _ = false

-- requireNeedOpen
unfoldable pub require_need_open : List ℕ → Result Err (Unit {0})
require_need_open s =
    if text_eq s (codes "open")
    then ok tt
    else if text_eq s (codes "draft")
    then err need_draft
    else if text_eq s (codes "cancelled")
    then err need_cancelled
    else if text_eq s (codes "expired")
    then err need_expired
    else if text_eq s (codes "fulfilled")
    then err need_fulfilled
    else err invalid_transition

-- requireNeedCompletable
unfoldable pub require_need_completable : List ℕ → Result Err (Unit {0})
require_need_completable s =
    if text_eq s (codes "open") || text_eq s (codes "fulfilled")
    then ok tt
    else if text_eq s (codes "draft")
    then err need_draft
    else if text_eq s (codes "cancelled")
    then err need_cancelled
    else if text_eq s (codes "expired")
    then err need_expired
    else err invalid_transition

-- The parts of Service that stay fixed. A nil lookup is `none`; `store_set` says that the service and
-- its store are not nil. `enqueue` is the enqueuer of SetOutbox, over the outbox that it writes.
pub record Setup (Queue : Type 0) : Type 0 where
  pub store_set : Bool
  pub offers : Option (ℕ → Result Contracts.Err OfferRef)
  pub needs : Option (ℕ → Result Contracts.Err NeedRef)
  pub outbox : Option (NewEvent → Queue → Result Err Queue)
  pub has_tx : Bool
  pub rfc3339 : ℕ → List ℕ

-- What a request meets: the store and the outbox, the context's error, whether the context carries a
-- database transaction, and the errors of Begin and Commit.
pub record World (Queue : Type 0) : Type 0 where
  pub store : Store
  pub queue : Queue
  pub ctx : Option Err
  pub in_tx : Bool
  pub begin_err : Option Err
  pub commit_err : Option Err

-- What a request without a mapped store error says.
abbrev pub mapped : {A : Type 0} → Result Err A → Result Err A
mapped {A} = map_err map_store_err

-- Offers and needs, through the lookups.
unfoldable pub get_offer : {Queue : Type 0} → Setup Queue → ℕ → Result Err OfferRef
get_offer s id = do get ← or_err s.offers unavailable; map_err map_offer_err (get id)

unfoldable pub get_need : {Queue : Type 0} → Setup Queue → ℕ → Result Err NeedRef
get_need s id = do get ← or_err s.needs unavailable; map_err map_need_err (get id)

-- sourceNeed: the need of a transaction, which must still be its requester's
unfoldable pub source_need : {Queue : Type 0} → Setup Queue → Transaction → Result Err NeedRef
source_need s t = do
  need ← get_need s t.need_id
  refuse (not (need.id == t.need_id) || not (need.requester_user_id == t.requester_user_id))
      not_found
  ok need

-- requireNeedOpenForTxn and requireNeedCompletableForTxn
unfoldable pub require_open_for :
    {Queue : Type 0} → Setup Queue → Transaction → Result Err (Unit {0})
require_open_for s t = source_need s t >>= λ need. require_need_open need.status

unfoldable pub require_completable_for :
    {Queue : Type 0} → Setup Queue → Transaction → Result Err (Unit {0})
require_completable_for s t = source_need s t >>= λ need. require_need_completable need.status
