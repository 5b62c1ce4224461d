-- ===== src/Disputes/Service.antt =====
-- service.go: the requests on disputes. A request reads, decides and commits; what other requests do to
-- the world in between is a function: `between` before the commit and `later` before the second read
-- after a conflict. Begin, Commit and Rollback are PostgreSQL's: a commit that fails and a rollback leave
-- what was there before. The transaction lookup answers alike throughout one request.
pub mod Fair
pub mod Invariant
pub mod Opening
use konumlu.Base.{
  ℕ, true, false, not, ◌&&◌, ◌||◌, Option, none, some, List, if◌then◌else◌, ltb, Result, ok, err,
  is_some, is_empty, ◌>>◌, refuse, or_err, map_err, ◌>>=◌,
}
use konumlu.Ids.{is_zero}
use konumlu.Contracts
use konumlu.Contracts.{TransactionRef, may_open_dispute, dispute_anchor}
use konumlu.Disputes.Domain
use konumlu.Disputes.Domain.{
  Err, zero_id, store_required, unavailable, not_found, conflict, not_eligible, concluded,
  window_closed, outbox_conflict, Dispute, create_open, Change, participant,
}
use konumlu.Disputes.Memory
use konumlu.Disputes.Memory.{Store}
use konumlu.Disputes.Events.{encode_updated}
use konumlu.Disputes.Setup.{
  CreateInput, Setup, World, command_of, is_conflict, is_not_found, map_store_err, map_txn_err,
  since,
}

module _ {Queue : Type 0} (s : Setup Queue) where
  -- `get`, authorizeParticipant (which is Get) and ListMine
  unfoldable pub get : ℕ → World Queue → Result Err Dispute
  get id w = do
    refuse (not s.store_set) store_required
    refuse (is_zero id) zero_id
    map_err map_store_err (Memory.get w.ctx id w.store)

  unfoldable pub get_for : ℕ → ℕ → World Queue → Result Err Dispute
  get_for user id w = do d ← get id w; refuse (not (participant d user)) not_found; ok d

  unfoldable pub list_mine : ℕ → World Queue → Result Err (List Dispute)
  list_mine user w = do
    refuse (not s.store_set) store_required
    refuse (is_zero user) zero_id
    map_err map_store_err (Memory.list_for_participant w.ctx user w.store)

  -- getTransaction and assertWindow
  unfoldable pub get_transaction : ℕ → Result Err TransactionRef
  get_transaction id = do find ← or_err s.txns unavailable; map_err map_txn_err (find id)

  unfoldable pub assert_window : TransactionRef → ℕ → Result Err (Unit {0})
  assert_window ref now = do
    refuse (is_zero (dispute_anchor ref)) not_eligible
    refuse (ltb s.window (since now (dispute_anchor ref))) window_closed

  -- enqueueUpdated: an event that is there already is no error.
  unfoldable pub enqueue_updated : Dispute → ℕ → World Queue → Result Err (Unit {0}) × World Queue
  enqueue_updated d actor w = elim s.outbox [
    | none ↦ (ok tt, w)
    | some enqueue ↦ elim (encode_updated d actor) [
      | err e ↦ (err e, w)
      | ok n ↦ elim (enqueue n w.queue) [
        | ok q ↦ (ok tt, record w { queue = q })
        | err outbox_conflict ↦ (ok tt, w)
        | err e ↦ (err (map_store_err e), w)
      ]
    ]
  ]

  -- runMaybeTx
  unfoldable pub run_maybe_tx :
      (World Queue → Result Err (Unit {0}) × World Queue)
      → World Queue
      → Result Err (Unit {0}) × World Queue
  run_maybe_tx fn w =
      if is_some s.outbox && s.has_tx && not w.in_tx
      then elim w.begin_err [
        | some e ↦ (err (map_store_err e), w)
        | none ↦
            let (r, w') = fn w in
            elim r [
              | err e ↦ (err e, w)
              | ok _ ↦ elim w.commit_err [
                | some e ↦ (err (map_store_err e), w)
                | none ↦ (ok tt, w')
              ]
            ]
      ]
      else fn w

  -- The end of the closures that are committed: the write, then the event.
  unfoldable pub then_event :
      Result Err (Unit {0}) × Store
      → Dispute
      → ℕ
      → World Queue
      → Result Err (Unit {0}) × World Queue
  then_event (err e, st) d actor w = (err (map_store_err e), record w { store = st })
  then_event (ok _, st) d actor w = enqueue_updated d actor (record w { store = st })

  -- The closure that `apply` commits.
  unfoldable pub commit_update : Dispute → ℕ → ℕ → World Queue → Result Err (Unit {0}) × World Queue
  commit_update next seen actor w = then_event (Memory.update w.ctx next seen w.store) next actor w

  -- The second read of `apply`, after a conflict.
  unfoldable pub reread : ℕ → (Dispute → ℕ → Change) → ℕ → World Queue → Result Err Dispute
  reread id fn now w = do
    latest ← get id w
    (_, again) ← fn latest now
    if not again then ok latest else err conflict

  -- CreateForTransaction up to the search for an active dispute.
  unfoldable pub party_transaction : ℕ → ℕ → Result Err TransactionRef
  party_transaction user txn = do
    refuse (not s.store_set) store_required
    refuse (is_zero user || is_zero txn) zero_id
    ref ← get_transaction txn
    refuse (not (Contracts.participant ref user)) not_found
    ok ref

  -- Whether a dispute about the transaction may be opened now.
  unfoldable pub may_open : TransactionRef → ℕ → ℕ → World Queue → Result Err (Unit {0})
  may_open ref txn now w = do
    done ← map_err map_store_err (Memory.list_concluded w.ctx txn w.store)
    refuse (not (is_empty done)) concluded
    refuse (not (may_open_dispute ref)) not_eligible
    assert_window ref now

  -- The dispute that it makes, over the random bytes of the identifier. What observeDelivery reads is
  -- dropped in the source.
  unfoldable pub drafted : ℕ → TransactionRef → CreateInput → Option ℕ → ℕ → Result Err Dispute
  drafted user ref input rand now = create_open rand (command_of user ref input) now

  -- The closure that CreateForTransaction commits.
  unfoldable pub commit_create : Dispute → ℕ → World Queue → Result Err (Unit {0}) × World Queue
  commit_create d actor w = then_event (Memory.create w.ctx d w.store) d actor w

  module _ (between later : World Queue → World Queue) where
    -- The part of `apply` that commits a change, and reads again where that was a conflict.
    unfoldable pub commit_change :
        (Dispute → ℕ → Change)
        → ℕ
        → ℕ
        → Dispute
        → Dispute
        → World Queue
        → Result Err Dispute × World Queue
    commit_change fn user now' current next w =
        let (r, w') = run_maybe_tx (commit_update next current.updated_at user) (between w) in
        elim r [
          | ok _ ↦ (ok next, w')
          | err e ↦
              if not (is_conflict e)
              then (err e, w')
              else (reread current.id fn now' (later w'), later w')
        ]

    -- `apply`: `now` and `now'` are the two readings of the clock.
    unfoldable pub apply :
        (Dispute → ℕ → Change)
        → ℕ
        → ℕ
        → ℕ
        → Dispute
        → World Queue
        → Result Err Dispute × World Queue
    apply fn user now now' current w = elim (fn current now) [
      | err e ↦ (err e, w)
      | ok (next, false) ↦ (ok current, w)
      | ok (next, true) ↦ commit_change fn user now' current next w
    ]

    -- The requests of staff, who are no actor, and applyParticipant
    unfoldable pub apply_staff :
        (Dispute → ℕ → Change) → ℕ → ℕ → ℕ → World Queue → Result Err Dispute × World Queue
    apply_staff fn id now now' w = elim (get id w) [
      | err e ↦ (err e, w)
      | ok current ↦ apply fn 0 now now' current w
    ]

    unfoldable pub apply_participant :
        (Dispute → ℕ → Change) → ℕ → ℕ → ℕ → ℕ → World Queue → Result Err Dispute × World Queue
    apply_participant fn user id now now' w = elim (get_for user id w) [
      | err e ↦ (err e, w)
      | ok current ↦ apply fn user now now' current w
    ]

    -- StartReview, Resolve, Close and Withdraw
    module _ (id now now' : ℕ) where
      unfoldable pub start_review : World Queue → Result Err Dispute × World Queue
      start_review = apply_staff Domain.start_review id now now'

      unfoldable pub resolve : List ℕ → World Queue → Result Err Dispute × World Queue
      resolve code = apply_staff (Domain.resolve code) id now now'

      unfoldable pub close : World Queue → Result Err Dispute × World Queue
      close = apply_staff Domain.close id now now'

      unfoldable pub withdraw : ℕ → World Queue → Result Err Dispute × World Queue
      withdraw user = apply_participant Domain.withdraw user id now now'

    -- The end of it, where no active dispute of the transaction was found.
    unfoldable pub create_new : ℕ → ℕ → Dispute → World Queue → Result Err Dispute × World Queue
    create_new user txn d w =
        let (r, w') = run_maybe_tx (commit_create d user) (between w) in
        elim r [
          | ok _ ↦ (ok d, w')
          | err e ↦
              if not (is_conflict e)
              then (err e, w')
              else elim (Memory.get_active (later w').ctx txn (later w').store) [
                | ok existing ↦ (ok existing, later w')
                | err _ ↦ (err conflict, later w')
              ]
        ]

    -- CreateForTransaction: `opened` is the reading of the clock for the window.
    unfoldable pub create_for_transaction :
        ℕ → ℕ → CreateInput → Option ℕ → ℕ → ℕ → World Queue → Result Err Dispute × World Queue
    create_for_transaction user txn input rand opened now w = elim (party_transaction user txn) [
      | err e ↦ (err e, w)
      | ok ref ↦ elim (Memory.get_active w.ctx txn w.store) [
        | ok existing ↦ (ok existing, w)
        | err e ↦
            if not (is_not_found e)
            then (err (map_store_err e), w)
            else elim (may_open ref txn opened w >> drafted user ref input rand now) [
              | err x ↦ (err x, w)
              | ok d ↦ create_new user txn d w
            ]
      ]
    ]
