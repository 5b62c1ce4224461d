-- ===== src/Deliveries/Service/Moved.antt =====
-- What a request on a delivery does where nothing stands in its way (service.go).
use konumlu.Base.{ℕ, ◌≡◌, refl, ◌≤◌, Bool, true, false, none, some, arith, Result, ok, lookup}
use konumlu.Text.{codes, text_eq}
use konumlu.Contracts.{TransactionRef}
use konumlu.Deliveries.Domain
use konumlu.Deliveries.Domain.{Err, Delivery, Change, validate, participant, provider}
use konumlu.Deliveries.Lifecycle.{
  Op, ready_op, transit_op, deliver_op, cancel_op, step, admits, written, last_stamp, expected,
  written-valid, step_delivery-expected,
}
use konumlu.Deliveries.Memory
use konumlu.Deliveries.Memory.{Store, stored}
use konumlu.Deliveries.Memory.Index.{IsIndexed}
use konumlu.Deliveries.Setup.{Setup, World}
use konumlu.Deliveries.Service.{
  get, get_for, get_transaction, refuse_if_transaction_cancelled, check_transaction, enqueue_status,
  then_event, run_maybe_tx, commit_update, commit_change, apply, apply_provider, apply_participant,
  mark_ready, mark_in_transit, mark_delivered, cancel,
}
use konumlu.Deliveries.Service.Guard.{apply_provider-provider}

-- An edge of the status diagram is what the operation does.
step-written :
    (op : Op) (d : Delivery) (now : ℕ)
    → validate d ≡ ok tt
    → d.created_at ≤ now
    → last_stamp d ≤ now
    → admits op d ≡ true
    → step op d now ≡ ok (written op d now, true)
unfolding expected
step-written ready_op d now v le ge a =
    ground (arith, step_delivery-expected ready_op d now v le ge, a)
step-written transit_op d now v le ge a =
    ground (arith, step_delivery-expected transit_op d now v le ge, a)
step-written deliver_op d now v le ge a =
    ground (arith, step_delivery-expected deliver_op d now v le ge, a)
step-written cancel_op d now v le ge a =
    ground (arith, step_delivery-expected cancel_op d now v le ge, a)

written-id : (op : Op) (d : Delivery) (now : ℕ) → (written op d now).id ≡ d.id
written-id ready_op d now = refl
written-id transit_op d now = refl
written-id deliver_op d now = refl
written-id cancel_op d now = refl

update-stored :
    {Queue : Type 0} (s : Setup Queue) (id : ℕ) (w : World Queue) (d next : Delivery)
    → get s id w ≡ ok d
    → d.id ≡ id
    → next.id ≡ d.id
    → validate next ≡ ok tt
    → Memory.update w.ctx next d.updated_at w.store ≡ (ok tt, stored next w.store)
unfolding get Memory.get Memory.update Memory.may_update
update-stored s id w d next found own same v = ground (arith, found, own, same, v)

module _ {Queue : Type 0} (s : Setup Queue) (between later : World Queue → World Queue) where
  -- The four requests on a delivery, by their operation.
  abbrev pub request : Op → ℕ → ℕ → ℕ → ℕ → World Queue → Result Err Delivery × World Queue
  request ready_op = mark_ready s between later
  request transit_op = mark_in_transit s between later
  request deliver_op = mark_delivered s between later
  request cancel_op = cancel s between later

  -- The provider of a delivery whose transaction is found and not cancelled.
  abbrev pub MayMark : ℕ → Delivery → Type 0
  MayMark user d =
      (provider d user ≡ true)
      × ((ref : TransactionRef) × (get_transaction s d.transaction_id ≡ ok ref)
          × (text_eq ref.status (codes "cancelled") ≡ false))

  -- Who may make a request: either party may cancel.
  abbrev pub MayMove : Op → ℕ → Delivery → Type 0
  MayMove ready_op user d = MayMark user d
  MayMove transit_op user d = MayMark user d
  MayMove deliver_op user d = MayMark user d
  MayMove cancel_op user d = participant d user ≡ true

  run_maybe_tx-ok :
      (fn : World Queue → Result Err (Unit {0}) × World Queue) (w w' : World Queue)
      → w.begin_err ≡ none
      → w.commit_err ≡ none
      → fn w ≡ (ok tt, w')
      → run_maybe_tx s fn w ≡ (ok tt, w')
  unfolding run_maybe_tx
  run_maybe_tx-ok fn w w' b c e = ground (arith, b, c, e)

  commit_update-ok :
      (d next : Delivery) (user : ℕ) (w w' : World Queue)
      → Memory.update w.ctx next d.updated_at w.store ≡ (ok tt, stored next w.store)
      → enqueue_status s next user (record w { store = stored next w.store }) ≡ (ok tt, w')
      → commit_update s next d.updated_at user w ≡ (ok tt, w')
  unfolding commit_update then_event
  commit_update-ok d next user w w' u q = ground (arith, u, q)

  commit_change-ok :
      (fn : Delivery → ℕ → Change) (user now' : ℕ) (d next : Delivery) (w w' : World Queue)
      → run_maybe_tx s (commit_update s next d.updated_at user) (between w) ≡ (ok tt, w')
      → commit_change s between later fn user now' d next w ≡ (ok next, w')
  unfolding commit_change
  commit_change-ok fn user now' d next w w' e = ground (arith, e)

  apply-ok :
      (refuse_cancelled : Bool) (fn : Delivery → ℕ → Change) (user now now' : ℕ) (d next : Delivery)
      (w w' : World Queue)
      → fn d now ≡ ok (next, true)
      → check_transaction s refuse_cancelled d.transaction_id ≡ ok tt
      → run_maybe_tx s (commit_update s next d.updated_at user) (between w) ≡ (ok tt, w')
      → apply s between later refuse_cancelled fn user now now' d w ≡ (ok next, w')
  unfolding apply
  apply-ok refuse_cancelled fn user now now' d next w w' f c r =
      ground (arith, f, c, commit_change-ok fn user now' d next w w' r)

  open-checked :
      (txn : ℕ) (ref : TransactionRef)
      → get_transaction s txn ≡ ok ref
      → text_eq ref.status (codes "cancelled") ≡ false
      → check_transaction s true txn ≡ ok tt
  unfolding check_transaction refuse_if_transaction_cancelled
  open-checked txn ref e c = ground (arith, e, c)

  unchecked : (txn : ℕ) → check_transaction s false txn ≡ ok tt
  unfolding check_transaction
  unchecked txn = refl

  get_for-party :
      (user id : ℕ) (w : World Queue) {d : Delivery}
      → get s id w ≡ ok d
      → participant d user ≡ true
      → get_for s user id w ≡ ok d
  unfolding get_for
  get_for-party user id w found p = ground (arith, found, p)

  cancel-apply :
      (user id now now' : ℕ) (w : World Queue) {d : Delivery}
      → get s id w ≡ ok d
      → participant d user ≡ true
      → cancel s between later user id now now' w
        ≡ apply s between later false Domain.cancel user now now' d w
  unfolding cancel apply_participant
  cancel-apply user id now now' w found p = ground (arith, get_for-party user id w found p)

  mark-ok :
      (fn : Delivery → ℕ → Change) (user id now now' : ℕ) (w w' : World Queue) {d next : Delivery}
      → get s id w ≡ ok d
      → MayMark user d
      → fn d now ≡ ok (next, true)
      → run_maybe_tx s (commit_update s next d.updated_at user) (between w) ≡ (ok tt, w')
      → apply_provider s between later fn user id now now' w ≡ (ok next, w')
  mark-ok fn user id now now' w w' {d} {next} found (p, (ref, e, live)) f r =
      rw (apply_provider-provider s between later fn user id now now' w found p)
        (apply-ok true fn user now now' d next w w' f (open-checked d.transaction_id ref e live) r)

  request-ok :
      (op : Op) (user id now now' : ℕ) (w w' : World Queue) {d next : Delivery}
      → get s id w ≡ ok d
      → MayMove op user d
      → step op d now ≡ ok (next, true)
      → run_maybe_tx s (commit_update s next d.updated_at user) (between w) ≡ (ok tt, w')
      → request op user id now now' w ≡ (ok next, w')
  unfolding step mark_ready mark_in_transit mark_delivered
  request-ok ready_op user id now now' w w' found m f r =
      mark-ok Domain.mark_ready user id now now' w w' found m f r
  request-ok transit_op user id now now' w w' found m f r =
      mark-ok Domain.mark_in_transit user id now now' w w' found m f r
  request-ok deliver_op user id now now' w w' found m f r =
      mark-ok Domain.mark_delivered user id now now' w w' found m f r
  request-ok cancel_op user id now now' w w' {d} {next} found m f r =
      rw (cancel-apply user id now now' w found m)
        (apply-ok false Domain.cancel user now now' d next w w' f (unchecked d.transaction_id) r)

  get-found :
      (id : ℕ) (w : World Queue) {d : Delivery}
      → get s id w ≡ ok d
      → lookup id w.store.by_id ≡ some d
  unfolding get Memory.get
  get-found id w h = ground arith

  -- Where the store keeps its invariant, the requests that run before the commit leave the
  -- delivery and the access to it as they were, the transaction begins and commits and the
  -- event is enqueued, a request of a party that the status diagram admits at a time after the
  -- creation and the dispatch answers with the delivery as the diagram changes it, and leaves
  -- the world in which that delivery is stored and its event is enqueued. For MarkReady,
  -- MarkInTransit and MarkDelivered the party is the provider and the transaction is found and
  -- not cancelled; either party may cancel, whatever the transaction.
  pub request-written :
      (op : Op) (user id now now' : ℕ) (w w' : World Queue) {d : Delivery}
      → IsIndexed w.store
      → get s id w ≡ ok d
      → get s id (between w) ≡ ok d
      → MayMove op user d
      → admits op d ≡ true
      → d.created_at ≤ now
      → last_stamp d ≤ now
      → (between w).begin_err ≡ none
      → (between w).commit_err ≡ none
      → enqueue_status s
          (written op d now)
          user
          (record (between w) { store = stored (written op d now) (between w).store })
        ≡ (ok tt, w')
      → request op user id now now' w ≡ (ok (written op d now), w')
  request-written op user id now now' w w' {d} h found again m a le ge b c q =
      let (own, v) = h.keyed id d (get-found id w found) in
      let next = written op d now in
      request-ok op user id now now' w w' found m (step-written op d now v le ge a) (
        run_maybe_tx-ok (commit_update s next d.updated_at user) (between w) w' b c (
          commit_update-ok d next user (between w) w'
            (update-stored s id (between w) d next again own (written-id op d now)
              (written-valid op d now v le ge a))
            q))
