-- ===== src/Offers/Lookup.antt =====
-- lookup.go: what other packages are told of an offer.
use konumlu.Base.{ℕ, ◌≡◌, List, arith, lookup, Result, ok, err, Result-cases, inl, inr, some}
use konumlu.Text.{codes, text_eq}
use konumlu.Contracts
use konumlu.Contracts.{OfferRef}
use konumlu.Offers.Domain.{
  Err, zero_id, not_found, canceled, Status, submitted, withdrawn, accepted, rejected, expired,
  other, is_accepted, Offer, validate,
}
use konumlu.Offers.Memory
use konumlu.Offers.Setup.{Setup, World}
use konumlu.Offers.Work.{get}

-- `string(o.Status)`
unfoldable pub status_text : Status → List ℕ
status_text submitted = codes "submitted"
status_text withdrawn = codes "withdrawn"
status_text accepted = codes "accepted"
status_text rejected = codes "rejected"
status_text expired = codes "expired"
status_text (other s) = s

-- toOfferRef
unfoldable pub to_offer_ref : Offer → OfferRef
unfolding status_text
to_offer_ref o = record {
  id = o.id;
  need_id = o.need_id;
  provider_business_id = o.provider_business_id;
  service_id = o.service_id;
  provider_user_id = o.provider_user_id;
  price = o.price;
  status = status_text o.status;
}

-- mapOfferLookupErr
unfoldable pub map_lookup_err : Err → Contracts.Err
map_lookup_err zero_id = Contracts.zero_id
map_lookup_err not_found = Contracts.not_found
map_lookup_err canceled = Contracts.canceled
map_lookup_err _ = Contracts.unavailable

-- GetOffer
unfoldable pub get_offer :
    {Queue : Type 0} → Setup Queue → World Queue → ℕ → Result Contracts.Err OfferRef
unfolding to_offer_ref map_lookup_err
get_offer s w id = elim (get s id w) [ ok o ↦ ok (to_offer_ref o) | err e ↦ err (map_lookup_err e) ]

-- The text of a valid offer's status is "accepted" exactly if the offer is.
pub to_offer_ref-accepted :
    (o : Offer)
    → validate o ≡ ok tt
    → text_eq (to_offer_ref o).status (codes "accepted") ≡ is_accepted o.status
unfolding to_offer_ref validate
to_offer_ref-accepted o v = ground arith

-- A reference that GetOffer gives is that of the stored offer.
pub get_offer-stored :
    {Queue : Type 0} (s : Setup Queue) (w : World Queue) (id : ℕ) (ref : OfferRef)
    → get_offer s w id ≡ ok ref
    → (o : Offer) × (lookup id w.store.by_id ≡ some o) × (ref ≡ to_offer_ref o)
unfolding get_offer get Memory.get
get_offer-stored s w id ref h = elim (Result-cases (get s id w)) [
  | inr (e, q) ↦ absurd (ground (arith, q))
  | inl (o, q) ↦ (o, ground (arith, q), ground (arith, q))
]
