-- ===== src/Deliveries/Lookup.antt =====
-- lookup.go: what other packages read of deliveries (deliveries/contracts).
use konumlu.Base.{
  ℕ, ◌≡◌, not, Option, none, arith, List, Result, ok, ◌>>=◌, ◌>>◌, refuse, map_err, lookup, some,
  sym, subst, false, inl, inr, Option-cases, Result-cases,
}
use konumlu.Text.{codes}
use konumlu.Ids.{is_zero}
use konumlu.Contracts
use konumlu.Deliveries.Domain.{
  Err, zero_id, not_found, canceled, Method, handoff, courier, pickup, unnamed, Delivery, validate,
}
use konumlu.Deliveries.Memory
use konumlu.Deliveries.Memory.Index.{IsIndexed}
use konumlu.Deliveries.Events.{status_text}
use konumlu.Deliveries.Setup.{Setup, World, map_store_err}
use konumlu.Deliveries.Service.{get}

-- DeliveryRef
pub record DeliveryRef : Type 0 where
  pub id : ℕ
  pub transaction_id : ℕ
  pub eligibility : List ℕ
  pub status : List ℕ
  pub method : Option (List ℕ)

-- The text of a method
abbrev pub method_text : Method → List ℕ
method_text handoff = codes "handoff"
method_text courier = codes "courier"
method_text pickup = codes "pickup"
method_text (unnamed s) = s

-- The method of a reference, where the delivery has one.
abbrev pub method_ref : Option Method → Option (List ℕ)
method_ref none = none
method_ref (some m) = some (method_text m)

-- mapDeliveryLookupErr
abbrev pub map_lookup_err : Err → Contracts.Err
map_lookup_err zero_id = Contracts.zero_id
map_lookup_err not_found = Contracts.not_found
map_lookup_err canceled = Contracts.canceled
map_lookup_err _ = Contracts.unavailable

-- toDeliveryRef
unfoldable pub to_delivery_ref : Delivery → DeliveryRef
to_delivery_ref d = record {
  id = d.id;
  transaction_id = d.transaction_id;
  eligibility = d.eligibility;
  status = status_text d.status;
  method = method_ref d.method;
}

module _ {Queue : Type 0} (s : Setup Queue) where
  -- GetDelivery
  unfoldable pub get_delivery : ℕ → World Queue → Result Contracts.Err DeliveryRef
  get_delivery id w = map_err map_lookup_err (get s id w) >>= λ d. ok (to_delivery_ref d)

  -- GetDeliveryByTransaction
  unfoldable pub get_delivery_by_transaction : ℕ → World Queue → Result Contracts.Err DeliveryRef
  get_delivery_by_transaction txn w = do
    refuse (not s.store_set) Contracts.unavailable
    refuse (is_zero txn) Contracts.zero_id
    d ←
        map_err (λ e. map_lookup_err (map_store_err e))
          (Memory.get_by_transaction w.ctx txn w.store)
    ok (to_delivery_ref d)

  -- A store with the invariant that finds a delivery by its transaction.
  found_by-transaction :
      (txn : ℕ) (w : World Queue) {d : Delivery}
      → IsIndexed w.store
      → Memory.get_by_transaction w.ctx txn w.store ≡ ok d
      → (d.transaction_id ≡ txn) × (lookup d.id w.store.by_id ≡ some d) × (validate d ≡ ok tt)
  unfolding Memory.get_by_transaction
  found_by-transaction txn w {d} h e = elim (Option-cases (lookup txn w.store.by_txn)) [
    | inl n ↦ absurd (ground (arith, e, n))
    | inr (i, l) ↦
        let (c, k, t) = h.named txn i l in
        let (own, v) = h.keyed i c k in
        let same : c ≡ d = ground (arith, e, l, k) in
        rw (sym same) (t, subst (λ n. lookup n w.store.by_id ≡ some c) (sym own) k, v)
  ]

  valid-id : (d : Delivery) → validate d ≡ ok tt → is_zero d.id ≡ false
  unfolding validate
  valid-id d v = ground arith

  -- Where the store of deliveries keeps its invariant, what GetDeliveryByTransaction answers
  -- for a transaction names that transaction, and GetDelivery answers the same for the
  -- identifier in it.
  pub get_delivery_by_transaction-get_delivery :
      (txn : ℕ) (w : World Queue) {ref : DeliveryRef}
      → IsIndexed w.store
      → get_delivery_by_transaction txn w ≡ ok ref
      → (ref.transaction_id ≡ txn) × (get_delivery ref.id w ≡ ok ref)
  unfolding get_delivery_by_transaction get_delivery get Memory.get Memory.get_by_transaction
      to_delivery_ref
  get_delivery_by_transaction-get_delivery txn w {ref} h e =
      elim (Result-cases (Memory.get_by_transaction w.ctx txn w.store)) [
        | inr (x, f) ↦ absurd (ground (arith, e, f))
        | inl (d, f) ↦
            let (t, k, v) = found_by-transaction txn w h f in
            let same : to_delivery_ref d ≡ ref = ground (arith, e, f) in
            rw (sym same) (t, ground (arith, e, f, k, valid-id d v))
      ]
