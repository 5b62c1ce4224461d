-- ===== src/Needs/Completed.antt =====
-- The completion handler of internal/transactions on the needs service: its fulfilment is that of
-- internal/needs.
use konumlu.Base.{
  ℕ, ◌≡◌, ◌∙◌, refl, true, false, ◌||◌, Option, none, some, arith, lookup, ok, Result, Result-cases,
  inl, inr,
}
use konumlu.Ids.{is_zero}
use konumlu.Contracts
use konumlu.Contracts.{FulfillmentCommand, FulfillmentResult}
use konumlu.Outbox.Event.{Value, Event}
use konumlu.Transactions
use konumlu.Transactions.Domain.{Transaction}
use konumlu.Transactions.Completion.{
  CompletedPayload, named, handle, settle, forwarded, command_of, is_completed,
  map_need_fulfill_err,
}
use konumlu.Needs.Content.{Floats}
use konumlu.Needs.Domain.{Need, is_open}
use konumlu.Needs.Memory.Index.{IsKeyed}
use konumlu.Needs.Service.{Setup, World, get}
use konumlu.Needs.Fulfillment.{fulfill_from_completed_transaction, may_fulfill}
use konumlu.Needs.Fulfillment.Settled.{
  fulfill_from-read, fulfill_read-settled, fulfill_read-closed, get-found,
}

-- Where an event names a completed transaction, the handler forwards it.
handle-forwarded :
    {W : Type 0} (f : FulfillmentCommand → W → Result Contracts.Err FulfillmentResult × W)
    (unmarshal : Value → Option CompletedPayload) (event : Event) (txns : Transactions.Memory.Store)
    (id : ℕ) (t : Transaction) (w : W)
    → named unmarshal event ≡ ok id
    → lookup id txns.by_id ≡ some t
    → txns.fail ≡ none
    → is_completed t.status ≡ true
    → handle f true unmarshal none event txns w ≡ forwarded f t w
unfolding handle settle Transactions.Memory.get
handle-forwarded f unmarshal event txns id t w n l g c =
    let found : Transactions.Memory.get none id txns ≡ ok t = ground (arith, l, g) in
    rw (n, handle) (rw (found, settle) (rw c refl))

module _ {F : Type 0} (fl : Floats F) (s : Setup) (between : World F → World F) where
  -- The fulfilment at a time.
  abbrev pub at_time :
      ℕ → FulfillmentCommand → World F → Result Contracts.Err FulfillmentResult × World F
  at_time now cmd w = fulfill_from_completed_transaction fl s between cmd now w

  -- A fulfilment that answers was given identifiers that are set.
  answered :
      (cmd : FulfillmentCommand) (now : ℕ) (w : World F) (r : FulfillmentResult)
      → (at_time now cmd w).0 ≡ ok r
      → (is_zero cmd.need_id || is_zero cmd.requester_user_id || is_zero cmd.transaction_id) ≡ false
  unfolding fulfill_from_completed_transaction may_fulfill
  answered cmd now w r h = ground (arith, h)

  forwarded-ok :
      (t : Transaction) (now : ℕ) (w : World F)
      → (forwarded (at_time now) t w).0 ≡ ok tt
      → (r : FulfillmentResult) × ((at_time now (command_of t) w).0 ≡ ok r)
  forwarded-ok t now w h = elim (Result-cases (at_time now (command_of t) w).0) [
    | inl (r, e) ↦ (r, e)
    | inr (x, e) ↦ absurd (ground (arith, rw e at h))
  ]

  forwarded-answer :
      (t : Transaction) (now : ℕ) (w : World F) (r : FulfillmentResult)
      → at_time now (command_of t) w ≡ (ok r, w)
      → forwarded (at_time now) t w ≡ (ok tt, w)
  forwarded-answer t now w r e = rw e refl

  module _ (unmarshal : Value → Option CompletedPayload) (event : Event)
      (txns : Transactions.Memory.Store) where
    -- The handler at a time.
    abbrev pub handled : ℕ → World F → Result Transactions.Completion.Err (Unit {0}) × World F
    handled now w = handle (at_time now) true unmarshal none event txns w

    -- Where an event names a completed transaction, the stores and the context have no error
    -- and the store of needs keeps its invariant, then once the completion handler has
    -- answered without an error, a need that it leaves under the transaction's need and with
    -- its requester is not open, and handling the event again, at any time, answers without
    -- an error and changes nothing.
    pub handle-settled :
        (id : ℕ) (t : Transaction) (now now' : ℕ) (w : World F) (n : Need F)
        → named unmarshal event ≡ ok id
        → lookup id txns.by_id ≡ some t
        → txns.fail ≡ none
        → is_completed t.status ≡ true
        → s.store_set ≡ true
        → w.ctx ≡ none
        → w.store.fail ≡ none
        → IsKeyed fl w.store
        → (handled now w).0 ≡ ok tt
        → (handled now w).1.ctx ≡ none
        → (handled now w).1.store.fail ≡ none
        → lookup t.need_id (handled now w).1.store.by_id ≡ some n
        → n.requester_user_id ≡ t.requester_user_id
        → (is_open n.status ≡ false) × (handled now' (handled now w).1 ≡ (ok tt, (handled now w).1))
    handle-settled id t now now' w n a l g c set live working k h live' working' found owner =
        let e = handle-forwarded (at_time now) unmarshal event txns id t w a l g c in
        let (r, q) = forwarded-ok t now w (rw e at h) in
        let ids = answered (command_of t) now w r q in
        let read = fulfill_from-read fl s between (command_of t) now w set ids in
        let closed : is_open n.status ≡ false =
          fulfill_read-settled fl s between (command_of t) now w r n set (ground (arith, ids)) live
            working k (rw read at q) (rw read at (rw e at found)) owner in
        let w' = (handled now w).1 in
        let again : get s t.need_id w' ≡ ok n =
          get-found fl s between t.need_id w' set (ground (arith, ids)) live' working'
          ∙ rw found refl in
        let (r', q') = fulfill_read-closed fl s between (command_of t) now' w' n again closed in
        (
          closed,
          handle-forwarded (at_time now') unmarshal event txns id t w' a l g c
              ∙ forwarded-answer t now' w' r'
                  (fulfill_from-read fl s between (command_of t) now' w' set ids ∙ q'),
        )
