-- ===== src/Deliveries/Service.antt =====
-- service.go: the requests on deliveries. A request reads, decides and commits; what other requests do to
-- the world in between is a function: `between` before the commit and `later` before the second read
-- after a conflict. Begin, Commit and Rollback are PostgreSQL's: a commit that fails and a rollback leave
-- what was there before. The transaction lookup answers alike throughout one request.
pub mod Guard
pub mod Moved
pub mod Invariant
use konumlu.Base.{
  ℕ, Bool, true, false, not, ◌&&◌, ◌||◌, Option, none, some, List, if◌then◌else◌, Result, ok, err,
  is_some, ◌>>◌, refuse, or_err, map_err, ◌>>=◌,
}
use konumlu.Text.{codes, text_eq}
use konumlu.Ids.{is_zero}
use konumlu.Contracts
use konumlu.Contracts.{TransactionRef, may_create_delivery}
use konumlu.Deliveries.Domain
use konumlu.Deliveries.Domain.{
  Err, zero_id, store_required, unavailable, not_found, conflict, not_eligible, outbox_conflict,
  Delivery, create_pending, Change, participant, provider,
}
use konumlu.Deliveries.Memory
use konumlu.Deliveries.Memory.{Store}
use konumlu.Deliveries.Events.{encode_status_changed}
use konumlu.Deliveries.Setup.{
  CreateInput, Setup, World, command_of, is_conflict, is_not_found, map_store_err, map_txn_err,
}

module _ {Queue : Type 0} (s : Setup Queue) where
  -- `get`, authorizeParticipant (which is Get) and ListMine
  unfoldable pub get : ℕ → World Queue → Result Err Delivery
  get id w = do
    refuse (not s.store_set) store_required
    refuse (is_zero id) zero_id
    map_err map_store_err (Memory.get w.ctx id w.store)

  unfoldable pub get_for : ℕ → ℕ → World Queue → Result Err Delivery
  get_for user id w = do d ← get id w; refuse (not (participant d user)) not_found; ok d

  unfoldable pub list_mine : ℕ → World Queue → Result Err (List Delivery)
  list_mine user w = do
    refuse (not s.store_set) store_required
    refuse (is_zero user) zero_id
    map_err map_store_err (Memory.list_for_participant w.ctx user w.store)

  -- getTransaction and refuseIfTransactionCancelled
  unfoldable pub get_transaction : ℕ → Result Err TransactionRef
  get_transaction id = do find ← or_err s.txns unavailable; map_err map_txn_err (find id)

  unfoldable pub refuse_if_transaction_cancelled : ℕ → Result Err (Unit {0})
  refuse_if_transaction_cancelled id = do
    ref ← get_transaction id
    refuse (text_eq ref.status (codes "cancelled")) not_eligible

  -- enqueueStatus: an event that is there already is no error.
  unfoldable pub enqueue_status : Delivery → ℕ → World Queue → Result Err (Unit {0}) × World Queue
  enqueue_status d actor w = elim s.outbox [
    | none ↦ (ok tt, w)
    | some enqueue ↦ elim (encode_status_changed d actor) [
      | err e ↦ (err e, w)
      | ok n ↦ elim (enqueue n w.queue) [
        | ok q ↦ (ok tt, record w { queue = q })
        | err outbox_conflict ↦ (ok tt, w)
        | err e ↦ (err (map_store_err e), w)
      ]
    ]
  ]

  -- runMaybeTx
  unfoldable pub run_maybe_tx :
      (World Queue → Result Err (Unit {0}) × World Queue)
      → World Queue
      → Result Err (Unit {0}) × World Queue
  run_maybe_tx fn w =
      if is_some s.outbox && s.has_tx && not w.in_tx
      then elim w.begin_err [
        | some e ↦ (err (map_store_err e), w)
        | none ↦
            let (r, w') = fn w in
            elim r [
              | err e ↦ (err e, w)
              | ok _ ↦ elim w.commit_err [
                | some e ↦ (err (map_store_err e), w)
                | none ↦ (ok tt, w')
              ]
            ]
      ]
      else fn w

  -- The end of the closures that are committed: the write, then the event.
  unfoldable pub then_event :
      Result Err (Unit {0}) × Store
      → Delivery
      → ℕ
      → World Queue
      → Result Err (Unit {0}) × World Queue
  then_event (err e, st) d actor w = (err (map_store_err e), record w { store = st })
  then_event (ok _, st) d actor w = enqueue_status d actor (record w { store = st })

  -- The closure that `apply` commits.
  unfoldable pub commit_update :
      Delivery → ℕ → ℕ → World Queue → Result Err (Unit {0}) × World Queue
  commit_update next seen actor w = then_event (Memory.update w.ctx next seen w.store) next actor w

  -- The second read of `apply`, after a conflict.
  unfoldable pub reread : ℕ → (Delivery → ℕ → Change) → ℕ → World Queue → Result Err Delivery
  reread id fn now w = do
    latest ← get id w
    (_, again) ← fn latest now
    if not again then ok latest else err conflict

  -- The check of `apply` that only the provider's requests make.
  unfoldable pub check_transaction : Bool → ℕ → Result Err (Unit {0})
  check_transaction refuse_cancelled txn =
      if refuse_cancelled then refuse_if_transaction_cancelled txn else ok tt

  -- CreateForTransaction up to the search for an existing delivery.
  unfoldable pub party_transaction : ℕ → ℕ → Result Err TransactionRef
  party_transaction user txn = do
    refuse (not s.store_set) store_required
    refuse (is_zero user || is_zero txn) zero_id
    ref ← get_transaction txn
    refuse (not (Contracts.participant ref user)) not_found
    ok ref

  -- The delivery that it makes, over the random bytes of the identifier.
  unfoldable pub drafted : TransactionRef → CreateInput → Option ℕ → ℕ → Result Err Delivery
  drafted ref input rand now =
      refuse (not (may_create_delivery ref)) not_eligible
      >> create_pending rand (command_of ref input) now

  -- The closure that CreateForTransaction commits.
  unfoldable pub commit_create : Delivery → ℕ → World Queue → Result Err (Unit {0}) × World Queue
  commit_create d actor w = then_event (Memory.create w.ctx d w.store) d actor w

  module _ (between later : World Queue → World Queue) where
    -- The part of `apply` that commits a change, and reads again where that was a conflict.
    unfoldable pub commit_change :
        (Delivery → ℕ → Change)
        → ℕ
        → ℕ
        → Delivery
        → Delivery
        → World Queue
        → Result Err Delivery × World Queue
    commit_change fn user now' current next w =
        let (r, w') = run_maybe_tx (commit_update next current.updated_at user) (between w) in
        elim r [
          | ok _ ↦ (ok next, w')
          | err e ↦
              if not (is_conflict e)
              then (err e, w')
              else (reread current.id fn now' (later w'), later w')
        ]

    -- `apply`: `now` and `now'` are the two readings of the clock.
    unfoldable pub apply :
        Bool
        → (Delivery → ℕ → Change)
        → ℕ
        → ℕ
        → ℕ
        → Delivery
        → World Queue
        → Result Err Delivery × World Queue
    apply refuse_cancelled fn user now now' current w = elim (fn current now) [
      | err e ↦ (err e, w)
      | ok (next, false) ↦ (ok current, w)
      | ok (next, true) ↦ elim (check_transaction refuse_cancelled current.transaction_id) [
        | err e ↦ (err e, w)
        | ok _ ↦ commit_change fn user now' current next w
      ]
    ]

    -- applyProvider and applyParticipant
    unfoldable pub apply_provider :
        (Delivery → ℕ → Change) → ℕ → ℕ → ℕ → ℕ → World Queue → Result Err Delivery × World Queue
    apply_provider fn user id now now' w = elim (get_for user id w) [
      | err e ↦ (err e, w)
      | ok current ↦
          if not (provider current user)
          then (err not_found, w)
          else apply true fn user now now' current w
    ]

    unfoldable pub apply_participant :
        (Delivery → ℕ → Change) → ℕ → ℕ → ℕ → ℕ → World Queue → Result Err Delivery × World Queue
    apply_participant fn user id now now' w = elim (get_for user id w) [
      | err e ↦ (err e, w)
      | ok current ↦ apply false fn user now now' current w
    ]

    -- MarkReady, MarkInTransit, MarkDelivered and Cancel
    module _ (user id now now' : ℕ) where
      unfoldable pub mark_ready : World Queue → Result Err Delivery × World Queue
      mark_ready = apply_provider Domain.mark_ready user id now now'

      unfoldable pub mark_in_transit : World Queue → Result Err Delivery × World Queue
      mark_in_transit = apply_provider Domain.mark_in_transit user id now now'

      unfoldable pub mark_delivered : World Queue → Result Err Delivery × World Queue
      mark_delivered = apply_provider Domain.mark_delivered user id now now'

      unfoldable pub cancel : World Queue → Result Err Delivery × World Queue
      cancel = apply_participant Domain.cancel user id now now'

    -- The end of it, where no delivery of the transaction was found.
    unfoldable pub create_new : ℕ → ℕ → Delivery → World Queue → Result Err Delivery × World Queue
    create_new user txn d w =
        let (r, w') = run_maybe_tx (commit_create d user) (between w) in
        elim r [
          | ok _ ↦ (ok d, w')
          | err e ↦
              if not (is_conflict e)
              then (err e, w')
              else elim (Memory.get_by_transaction (later w').ctx txn (later w').store) [
                | ok existing ↦ (ok existing, later w')
                | err _ ↦ (err conflict, later w')
              ]
        ]

    -- CreateForTransaction
    unfoldable pub create_for_transaction :
        ℕ → ℕ → CreateInput → Option ℕ → ℕ → World Queue → Result Err Delivery × World Queue
    create_for_transaction user txn input rand now w = elim (party_transaction user txn) [
      | err e ↦ (err e, w)
      | ok ref ↦ elim (Memory.get_by_transaction w.ctx txn w.store) [
        | ok existing ↦ (ok existing, w)
        | err e ↦
            if not (is_not_found e)
            then (err (map_store_err e), w)
            else elim (drafted ref input rand now) [
              | err e ↦ (err e, w)
              | ok d ↦ create_new user txn d w
            ]
      ]
    ]
