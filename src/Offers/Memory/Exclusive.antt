-- ===== src/Offers/Memory/Exclusive.antt =====
-- The invariant of the store of offers: every offer stands under its own identifier and is valid, a need
-- has at most one accepted offer, and a need and a service have at most one submitted offer.
use konumlu.Base.{
  ℕ, ◌≡◌, Bool, true, false, Option, some, [], ◌∷◌, arith, any, Table, lookup, insert, values,
  lookup-insert, Result-cases, inl, inr, ok, refl,
}
use konumlu.Offers.Domain.{Err, Offer, validate, is_submitted, is_accepted}
use konumlu.Offers.Memory.{
  Store, new_store, create, may_create, update, may_update, submitted_on, accepted_on,
}

pub record IsExclusive (t : Table Offer) : Type 0 where
  pub keyed : (i : ℕ) (o : Offer) → lookup i t ≡ some o → (o.id ≡ i) × (validate o ≡ ok tt)
  pub one_accepted :
      (i j : ℕ) (a b : Offer)
      → lookup i t ≡ some a
      → lookup j t ≡ some b
      → accepted_on b.need_id a ≡ true
      → is_accepted b.status ≡ true
      → i ≡ j
  pub one_submitted :
      (i j : ℕ) (a b : Offer)
      → lookup i t ≡ some a
      → lookup j t ≡ some b
      → submitted_on b.need_id b.service_id a ≡ true
      → is_submitted b.status ≡ true
      → i ≡ j

pub new_store-IsExclusive : IsExclusive new_store.by_id
new_store-IsExclusive = record {
  keyed = λ i o h. absurd (cc);
  one_accepted = λ i j a b h. absurd (cc);
  one_submitted = λ i j a b h. absurd (cc);
}

pub any-lookup :
    (p : Offer → Bool) (t : Table Offer) (i : ℕ) (o : Offer)
    → any p (values t) ≡ false
    → lookup i t ≡ some o
    → p o ≡ false
any-lookup p [] i o h l = absurd (cc)
any-lookup p ((j, x) ∷ t) i o h l = ground (arith, any-lookup p t i o)

module _ (k : ℕ) (x : Offer) (t : Table Offer) (w : IsExclusive t) (same : x.id ≡ k)
    (v : validate x ≡ ok tt)
    (na : is_accepted x.status ≡ true → any (accepted_on x.need_id) (values t) ≡ false)
    (ns : is_submitted x.status ≡ true
      → any (submitted_on x.need_id x.service_id) (values t) ≡ false) where
  -- Writing a valid offer keeps the invariant where the offer is not accepted beside an accepted
  -- one, and not submitted beside a submitted one.
  pub insert-IsExclusive : IsExclusive (insert k x t)
  insert-IsExclusive = record {
    keyed = λ i o h. ground (arith, lookup-insert k i x t, w.keyed i o);
    one_accepted = λ i j a b h l s u. ground (
      arith,
      lookup-insert k i x t,
      lookup-insert k j x t,
      w.one_accepted i j a b,
      na,
      any-lookup (accepted_on x.need_id) t i a,
      any-lookup (accepted_on x.need_id) t j b,
    );
    one_submitted = λ i j a b h l s u. ground (
      arith,
      lookup-insert k i x t,
      lookup-insert k j x t,
      w.one_submitted i j a b,
      ns,
      any-lookup (submitted_on x.need_id x.service_id) t i a,
      any-lookup (submitted_on x.need_id x.service_id) t j b,
    );
  }

created :
    (ctx : Option Err) (o : Offer) (m : Store)
    → may_create ctx o m ≡ ok tt
    → (validate o ≡ ok tt)
      × (is_accepted o.status ≡ true → any (accepted_on o.need_id) (values m.by_id) ≡ false)
      × (is_submitted o.status ≡ true
          → any (submitted_on o.need_id o.service_id) (values m.by_id) ≡ false)
unfolding may_create
created ctx o m h = (ground arith, λ s. ground arith, λ s. ground arith)

update_checked :
    (ctx : Option Err) (o : Offer) (seen : ℕ) (m : Store)
    → may_update ctx o seen m ≡ ok tt
    → validate o ≡ ok tt
unfolding may_update
update_checked ctx o seen m h = ground arith

-- A create keeps the invariant, whatever its result.
pub create-IsExclusive :
    (ctx : Option Err) (o : Offer) (m : Store)
    → IsExclusive m.by_id
    → IsExclusive (create ctx o m).1.by_id
unfolding create
create-IsExclusive ctx o m w = elim (Result-cases (may_create ctx o m)) [
  | inl (_, e) ↦
      let (v, na, ns) = created ctx o m e in
      rw (e, create) (insert-IsExclusive o.id o m.by_id w refl v na ns)
  | inr (x, e) ↦ rw (e, create) w
]

-- An update to an offer that is neither submitted nor accepted keeps the invariant, whatever its result.
pub update-IsExclusive :
    (ctx : Option Err) (o : Offer) (seen : ℕ) (m : Store)
    → IsExclusive m.by_id
    → is_accepted o.status ≡ false
    → is_submitted o.status ≡ false
    → IsExclusive (update ctx o seen m).1.by_id
unfolding update
update-IsExclusive ctx o seen m w a s = elim (Result-cases (may_update ctx o seen m)) [
  | inl (_, e) ↦
      rw (e, update)
        (insert-IsExclusive o.id o m.by_id w refl (update_checked ctx o seen m e) (λ h. cc)
          (λ h. cc))
  | inr (x, e) ↦ rw (e, update) w
]
