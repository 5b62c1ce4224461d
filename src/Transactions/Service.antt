-- ===== src/Transactions/Service.antt =====
-- service.go: the requests on transactions. A request reads, decides and commits; what other requests
-- do to the world in between is a function: `between` before the commit and `later` before the second
-- read after a conflict. Begin, Commit and Rollback are PostgreSQL's: a commit that fails and a
-- rollback leave what was there before.
pub mod Access
pub mod Offered
pub mod Sent
pub mod Atomic
pub mod Invariant
use konumlu.Base.{
  ℕ, ◌≡◌, Bool, true, false, not, ◌&&◌, ◌||◌, Option, none, some, List, [], ◌∷◌, arith, ◌==◌,
  if◌then◌else◌, Result, ok, err, is_some, ◌>>=◌, ◌>>◌, refuse, or_err, map_err,
}
use konumlu.Text.{codes, text_eq}
use konumlu.Ids.{is_zero}
use konumlu.Contracts.{OfferRef, NeedRef}
use konumlu.Outbox.Writer.{NewEvent}
use konumlu.Transactions.Domain
use konumlu.Transactions.Domain.{
  Err, zero_id, store_required, not_found, conflict, not_accepted, outbox_conflict, Transaction,
  AcceptedSource, create_pending, Change, is_pending, is_active, participant,
}
use konumlu.Transactions.Memory
use konumlu.Transactions.Memory.{Store}
use konumlu.Transactions.Events.{created_type, cancelled_type, encode_completed, encode_lifecycle}
use konumlu.Transactions.Setup.{
  Setup, World, mapped, map_store_err, is_conflict, is_not_found, get_offer, get_need,
  require_need_open, require_open_for, require_completable_for,
}

module _ {Queue : Type 0} (s : Setup Queue) where
  -- `get` and `Get`
  unfoldable pub get : ℕ → World Queue → Result Err Transaction
  get id w = do
    refuse (not s.store_set) store_required
    refuse (is_zero id) zero_id
    mapped (Memory.get w.ctx id w.store)

  unfoldable pub get_for : ℕ → ℕ → World Queue → Result Err Transaction
  get_for user id w = do t ← get id w; refuse (not (participant t user)) not_found; ok t

  -- `ListMine`
  unfoldable pub list_mine : ℕ → World Queue → Result Err (List Transaction)
  list_mine user w = do
    refuse (not s.store_set) store_required
    refuse (is_zero user) zero_id
    mapped (Memory.list_for_participant w.ctx user w.store)

  -- The end of enqueueCompleted and enqueueLifecycle: an event that is there already is no error.
  unfoldable pub emit : Result Err NewEvent → World Queue → Result Err (Unit {0}) × World Queue
  emit ev w = elim s.outbox [
    | none ↦ (ok tt, w)
    | some enqueue ↦ elim ev [
      | err e ↦ (err e, w)
      | ok n ↦ elim (enqueue n w.queue) [
        | ok q ↦ (ok tt, record w { queue = q })
        | err outbox_conflict ↦ (ok tt, w)
        | err e ↦ (err (map_store_err e), w)
      ]
    ]
  ]

  -- runMaybeTx
  unfoldable pub run_maybe_tx :
      (World Queue → Result Err (Unit {0}) × World Queue)
      → World Queue
      → Result Err (Unit {0}) × World Queue
  run_maybe_tx fn w =
      if is_some s.outbox && s.has_tx && not w.in_tx
      then elim w.begin_err [
        | some e ↦ (err (map_store_err e), w)
        | none ↦
            let (r, w') = fn w in
            elim r [
              | err e ↦ (err e, w)
              | ok _ ↦ elim w.commit_err [
                | some e ↦ (err (map_store_err e), w)
                | none ↦ (ok tt, w')
              ]
            ]
      ]
      else fn w

  -- The closure that `apply` commits: the guarded update, then the event.
  unfoldable pub commit_update :
      Transaction
      → ℕ
      → Option (Result Err NewEvent)
      → World Queue
      → Result Err (Unit {0}) × World Queue
  commit_update next seen ev w =
      let (r, st) = Memory.update w.ctx next seen w.store in
      let w' = record w { store = st } in
      elim r [
        | err e ↦ (err (map_store_err e), w')
        | ok _ ↦ elim ev [ none ↦ (ok tt, w') | some n ↦ emit n w' ]
      ]

  -- The second read of `apply`, after a conflict.
  unfoldable pub reread :
      ℕ → ℕ → (Transaction → ℕ → Change) → ℕ → World Queue → Result Err Transaction
  reread user id fn now w = do
    latest ← get_for user id w
    (_, again) ← fn latest now
    if not again then ok latest else err conflict

  -- The part of `apply` that commits a change, and reads again where that was a conflict.
  unfoldable pub commit_change :
      (World Queue → World Queue)
      → (World Queue → World Queue)
      → (Transaction → ℕ → Change)
      → Option (Result Err NewEvent)
      → ℕ
      → ℕ
      → ℕ
      → Transaction
      → Transaction
      → World Queue
      → Result Err Transaction × World Queue
  commit_change between later fn ev user id now' current next w =
      let (r, w') = run_maybe_tx (commit_update next current.updated_at ev) (between w) in
      elim r [
        | ok _ ↦ (ok next, w')
        | err e ↦
            if not (is_conflict e)
            then (err e, w')
            else (reread user id fn now' (later w'), later w')
      ]

  -- `apply`: `now` and `now'` are the two readings of the clock, `event` what is emitted for the result.
  unfoldable pub apply :
      (World Queue → World Queue)
      → (World Queue → World Queue)
      → (Transaction → ℕ → Change)
      → (Transaction → Option (Result Err NewEvent))
      → ℕ
      → ℕ
      → ℕ
      → ℕ
      → World Queue
      → Result Err Transaction × World Queue
  apply between later fn event user id now now' w = elim (get_for user id w) [
    | err e ↦ (err e, w)
    | ok current ↦ elim (fn current now) [
      | err e ↦ (err e, w)
      | ok (next, false) ↦ (ok current, w)
      | ok (next, true) ↦ commit_change between later fn (event next) user id now' current next w
    ]
  ]

  -- The closures of Start, Complete and Cancel.
  unfoldable pub start_fn : Transaction → ℕ → Change
  start_fn t now =
      if is_pending t.status then require_open_for s t >> Domain.start t now else Domain.start t now

  unfoldable pub complete_fn : Transaction → ℕ → Change
  complete_fn t now =
      if is_active t.status
      then require_completable_for s t >> Domain.complete t now
      else Domain.complete t now

  -- The events of the three requests.
  abbrev pub no_event : Transaction → Option (Result Err NewEvent)
  no_event next = none

  abbrev pub completed_event : ℕ → Transaction → Option (Result Err NewEvent)
  completed_event user next = some (encode_completed s.rfc3339 next user)

  abbrev pub cancelled_event : ℕ → Transaction → Option (Result Err NewEvent)
  cancelled_event user next = some (encode_lifecycle cancelled_type (codes "cancelled") next user)

  module _ (between later : World Queue → World Queue) (user id now now' : ℕ) where
    -- `Start`, `Complete` and `Cancel`
    unfoldable pub start : World Queue → Result Err Transaction × World Queue
    start = apply between later start_fn no_event user id now now'

    unfoldable pub complete : World Queue → Result Err Transaction × World Queue
    complete = apply between later complete_fn (completed_event user) user id now now'

    unfoldable pub cancel : World Queue → Result Err Transaction × World Queue
    cancel = apply between later Domain.cancel (cancelled_event user) user id now now'

  -- The source that CreateFromAcceptedOffer copies from the offer and the need.
  abbrev pub source_of : OfferRef → NeedRef → AcceptedSource
  source_of offer need = record {
    offer_id = offer.id;
    need_id = offer.need_id;
    requester_user_id = need.requester_user_id;
    provider_user_id = offer.provider_user_id;
    provider_business_id = offer.provider_business_id;
    service_id = offer.service_id;
    price = offer.price;
  }

  -- CreateFromAcceptedOffer up to the search for an existing transaction.
  unfoldable pub accepted_offer : ℕ → ℕ → Result Err (OfferRef × NeedRef)
  accepted_offer user offer_id = do
    refuse (not s.store_set) store_required
    refuse (is_zero user || is_zero offer_id) zero_id
    offer ← get_offer s offer_id
    need ← get_need s offer.need_id
    refuse (not (need.requester_user_id == user) || not (need.id == offer.need_id)) not_found
    refuse (not (text_eq offer.status (codes "accepted"))) not_accepted
    ok (offer, need)

  -- The closure that CreateFromAcceptedOffer commits.
  unfoldable pub commit_create : Transaction → ℕ → World Queue → Result Err (Unit {0}) × World Queue
  commit_create t user w =
      let (r, st) = Memory.create w.ctx t w.store in
      let w' = record w { store = st } in
      elim r [
        | err e ↦ (err (map_store_err e), w')
        | ok _ ↦ emit (encode_lifecycle created_type (codes "created") t user) w'
      ]

  -- The rest of it, where no transaction of the offer was found.
  unfoldable pub create_new :
      (World Queue → World Queue)
      → (World Queue → World Queue)
      → ℕ
      → Option ℕ
      → ℕ
      → OfferRef
      → NeedRef
      → World Queue
      → Result Err Transaction × World Queue
  create_new between later user rand now offer need w =
      elim (require_need_open need.status >>= λ _. create_pending rand (source_of offer need) now) [
        | err e ↦ (err e, w)
        | ok t ↦
            let (r, w') = run_maybe_tx (commit_create t user) (between w) in
            elim r [
              | ok _ ↦ (ok t, w')
              | err e ↦
                  if not (is_conflict e)
                  then (err e, w')
                  else elim (Memory.get_by_offer (later w').ctx offer.id (later w').store) [
                    | ok existing ↦ (ok existing, later w')
                    | err _ ↦ (err conflict, later w')
                  ]
            ]
      ]

  -- `CreateFromAcceptedOffer`
  unfoldable pub create_from_accepted_offer :
      (World Queue → World Queue)
      → (World Queue → World Queue)
      → ℕ
      → ℕ
      → Option ℕ
      → ℕ
      → World Queue
      → Result Err Transaction × World Queue
  create_from_accepted_offer between later user offer_id rand now w =
      elim (accepted_offer user offer_id) [
        | err e ↦ (err e, w)
        | ok (offer, need) ↦ elim (Memory.get_by_offer w.ctx offer.id w.store) [
          | ok existing ↦ (ok existing, w)
          | err e ↦
              if not (is_not_found e)
              then (err (map_store_err e), w)
              else create_new between later user rand now offer need w
        ]
      ]
