-- ===== src/Transactions/Service/Access.antt =====
-- Who may act on a transaction, and what an operation needs of the source need.
use konumlu.Base.{
  ℕ, ◌≡◌, ◌≢◌, true, false, Option, arith, Result, ok, err, ◌⊎◌, inl, inr, Result-cases,
}
use konumlu.Text.{codes, text_eq}
use konumlu.Outbox.Writer.{NewEvent}
use konumlu.Contracts.{OfferRef, NeedRef}
use konumlu.Transactions.Domain
use konumlu.Transactions.Domain.{
  Err, not_found, Transaction, Change, participant, pending, active, completed,
}
use konumlu.Transactions.Setup.{
  Setup, World, get_offer, get_need, source_need, require_need_open, require_need_completable,
  require_open_for, require_completable_for,
}
use konumlu.Transactions.Service.{get, get_for, apply, start_fn, complete_fn, accepted_offer}

module _ {Queue : Type 0} (s : Setup Queue) where
  -- A user who is no party of a stored transaction that the request finds is told that it is
  -- not found, whatever the operation, and nothing happens.
  pub apply-outsider :
      (between later : World Queue → World Queue) (fn : Transaction → ℕ → Change)
      (event : Transaction → Option (Result Err NewEvent)) (user id now now' : ℕ) (w : World Queue)
      (t : Transaction)
      → get s id w ≡ ok t
      → participant t user ≡ false
      → apply s between later fn event user id now now' w ≡ (err not_found, w)
  unfolding apply get_for
  apply-outsider between later fn event user id now now' w t found outside = ground arith

  -- A transaction is returned to one of its parties only.
  pub get_for-participant :
      (user id : ℕ) (w : World Queue) {t : Transaction}
      → get_for s user id w ≡ ok t
      → (participant t user ≡ true) × (get s id w ≡ ok t)
  unfolding get_for
  get_for-participant user id w h = ground arith

  -- Completing changes a transaction only while its need is its requester's and is open or
  -- fulfilled.
  pub complete_fn-need :
      (t : Transaction) (now : ℕ) {t' : Transaction}
      → complete_fn s t now ≡ ok (t', true)
      → (need : NeedRef) × (source_need s t ≡ ok need)
        × ((text_eq need.status (codes "open") ≡ true)
            ⊎ (text_eq need.status (codes "fulfilled") ≡ true))
  unfolding complete_fn Domain.complete require_completable_for require_need_completable
  complete_fn-need t now h = elim (Result-cases (source_need s t)) [
    | inl (need, e) ↦ (need, e, ground (arith, e))
    | inr (x, e) ↦ absurd (ground (arith, e))
  ]

  -- Starting changes a transaction only while its need is its requester's and open.
  pub start_fn-need :
      (t : Transaction) (now : ℕ) {t' : Transaction}
      → start_fn s t now ≡ ok (t', true)
      → (need : NeedRef) × (source_need s t ≡ ok need) × (text_eq need.status (codes "open") ≡ true)
  unfolding start_fn Domain.start require_open_for require_need_open
  start_fn-need t now h = elim (Result-cases (source_need s t)) [
    | inl (need, e) ↦ (need, e, ground (arith, e))
    | inr (x, e) ↦ absurd (ground (arith, e))
  ]

  -- A request to create passes its first checks only for the owner of the need and for an
  -- accepted offer that names that need.
  pub accepted_offer-owner :
      (user offer_id : ℕ) {offer : OfferRef} {need : NeedRef}
      → accepted_offer s user offer_id ≡ ok (offer, need)
      → (get_offer s offer_id ≡ ok offer)
        × (get_need s offer.need_id ≡ ok need)
        × (need.requester_user_id ≡ user)
        × (need.id ≡ offer.need_id)
        × (text_eq offer.status (codes "accepted") ≡ true)
        × (user ≢ 0)
  unfolding accepted_offer
  accepted_offer-owner user offer_id h = ground arith
