-- ===== src/Transactions/Service/Offered.antt =====
-- The transaction service on the offer service: the lookup of offers is GetOffer of internal/offers.
use konumlu.Base.{ℕ, ◌≡◌, sym, ◌∙◌, true, some, lookup, arith, ok, Result-cases, inl, inr}
use konumlu.Contracts.{OfferRef, NeedRef}
use konumlu.Offers.Domain.{Offer, is_accepted}
use konumlu.Offers.Memory.Exclusive.{IsExclusive}
use konumlu.Offers
use konumlu.Offers.Lookup.{to_offer_ref, to_offer_ref-accepted, get_offer-stored}
use konumlu.Transactions.Setup.{Setup, get_offer}
use konumlu.Transactions.Service.{accepted_offer}
use konumlu.Transactions.Service.Access.{accepted_offer-owner}

module _ {Queue Sent : Type 0} (t : Setup Queue) (s : Offers.Setup.Setup Sent)
    (w : Offers.Setup.World Sent) where
  -- The transaction service whose offers are those of the offer service.
  abbrev pub over_offers : Setup Queue
  over_offers = record t { offers = some (Offers.Lookup.get_offer s w) }

  looked_up :
      (id : ℕ) (ref : OfferRef)
      → get_offer over_offers id ≡ ok ref
      → Offers.Lookup.get_offer s w id ≡ ok ref
  unfolding get_offer
  looked_up id ref h = elim (Result-cases (Offers.Lookup.get_offer s w id)) [
    | inl (r, e) ↦ ground (arith, e)
    | inr (x, e) ↦ absurd (ground (arith, e))
  ]

  -- A request to create a transaction passes its first checks only for an offer that the store of offers
  -- holds as accepted.
  pub accepted_offer-stored :
      (user id : ℕ) (ref : OfferRef) (need : NeedRef)
      → IsExclusive w.store.by_id
      → accepted_offer over_offers user id ≡ ok (ref, need)
      → (o : Offer) × (lookup id w.store.by_id ≡ some o)
        × (ref ≡ to_offer_ref o)
        × (is_accepted o.status ≡ true)
  accepted_offer-stored user id ref need ex h =
      let (g, _, _, _, acc, _) = accepted_offer-owner over_offers user id h in
      let (o, l, r) = get_offer-stored s w id ref (looked_up id ref g) in
      let (_, v) = ex.keyed id o l in (o, l, r, sym (to_offer_ref-accepted o v) ∙ rw r at acc)

  -- With the offer service behind the lookup and its invariant held, two requests to create a
  -- transaction on one need that pass their first checks are for one and the same offer.
  pub accepted_offer_unique :
      (user user' id id' : ℕ) (ref ref' : OfferRef) (need need' : NeedRef)
      → IsExclusive w.store.by_id
      → accepted_offer over_offers user id ≡ ok (ref, need)
      → accepted_offer over_offers user' id' ≡ ok (ref', need')
      → ref.need_id ≡ ref'.need_id
      → id ≡ id'
  unfolding to_offer_ref
  accepted_offer_unique user user' id id' ref ref' need need' ex h h' same =
      let (o, l, r, a) = accepted_offer-stored user id ref need ex h in
      let (o', l', r', a') = accepted_offer-stored user' id' ref' need' ex h' in
      ground (arith, ex.one_accepted id id' o o' l l', r, r')
