-- ===== src/Deliveries/Memory/Index.antt =====
-- The invariant of the store of deliveries: every delivery stands under its own identifier, is valid, and
-- holds the place of its transaction, and each place is held by a delivery of that transaction.
use konumlu.Base.{
  ℕ, ◌≡◌, Option, none, some, arith, ◌==◌, Result-cases, Bool-cases, inl, inr, lookup,
  lookup-insert, ok,
}
use konumlu.Deliveries.Domain.{Err, Delivery, validate}
use konumlu.Deliveries.Memory.{
  Store, new_store, create, may_create, may_update, update, added, stored,
}

pub record IsIndexed (m : Store) : Type 0 where
  pub keyed : (i : ℕ) (d : Delivery) → lookup i m.by_id ≡ some d → (d.id ≡ i) × (validate d ≡ ok tt)
  pub indexed :
      (i : ℕ) (d : Delivery) → lookup i m.by_id ≡ some d → lookup d.transaction_id m.by_txn ≡ some i
  pub named :
      (txn i : ℕ)
      → lookup txn m.by_txn ≡ some i
      → (d : Delivery) × (lookup i m.by_id ≡ some d) × (d.transaction_id ≡ txn)

pub new_store-IsIndexed : IsIndexed new_store
new_store-IsIndexed = record {
  keyed = λ i d h. absurd (cc);
  indexed = λ i d h. absurd (cc);
  named = λ txn i h. absurd (cc);
}

-- A transaction has at most one delivery.
pub one_per_transaction :
    (m : Store) (i j : ℕ) (p q : Delivery)
    → IsIndexed m
    → lookup i m.by_id ≡ some p
    → lookup j m.by_id ≡ some q
    → p.transaction_id ≡ q.transaction_id
    → i ≡ j
one_per_transaction m i j p q w a b e =
    ground (arith, w.indexed i p a, rw e at (w.indexed i p a), w.indexed j q b)

created :
    (ctx : Option Err) (d : Delivery) (m : Store)
    → may_create ctx d m ≡ ok tt
    → (validate d ≡ ok tt)
      × (lookup d.id m.by_id ≡ none)
      × (lookup d.transaction_id m.by_txn ≡ none)
unfolding may_create
created ctx d m h = (ground arith, ground arith, ground arith)

added-named :
    (d : Delivery) (m : Store) (txn i : ℕ)
    → IsIndexed m
    → lookup d.id m.by_id ≡ none
    → lookup txn (added d m).by_txn ≡ some i
    → (c : Delivery) × (lookup i (added d m).by_id ≡ some c) × (c.transaction_id ≡ txn)
added-named d m txn i w n h = elim (Bool-cases (txn == d.transaction_id)) [
  | inl e ↦ (
    d,
    ground
        (arith, lookup-insert d.transaction_id txn d.id m.by_txn, lookup-insert d.id i d m.by_id),
    ground (arith, e),
  )
  | inr ne ↦
      let old : lookup txn m.by_txn ≡ some i =
        ground (arith, lookup-insert d.transaction_id txn d.id m.by_txn) in
      let (c, l, e) = w.named txn i old in (c, ground (arith, lookup-insert d.id i d m.by_id), e)
]

added-IsIndexed :
    (d : Delivery) (m : Store)
    → IsIndexed m
    → validate d ≡ ok tt
    → lookup d.id m.by_id ≡ none
    → lookup d.transaction_id m.by_txn ≡ none
    → IsIndexed (added d m)
added-IsIndexed d m w v n o = record {
  keyed = λ i x h. ground (arith, lookup-insert d.id i d m.by_id, w.keyed i x);
  indexed = λ i x h. ground (
    arith,
    lookup-insert d.id i d m.by_id,
    lookup-insert d.transaction_id x.transaction_id d.id m.by_txn,
    w.indexed i x,
  );
  named = λ txn i h. added-named d m txn i w n h;
}

-- A create keeps the invariant, whatever its result.
pub create-IsIndexed :
    (ctx : Option Err) (d : Delivery) (m : Store) → IsIndexed m → IsIndexed (create ctx d m).1
unfolding create
create-IsIndexed ctx d m w = elim (Result-cases (may_create ctx d m)) [
  | inl (_, e) ↦ let (v, n, o) = created ctx d m e in rw (e, create) (added-IsIndexed d m w v n o)
  | inr (x, e) ↦ rw (e, create) w
]

updated :
    (ctx : Option Err) (d : Delivery) (seen : ℕ) (m : Store) (c : Delivery)
    → may_update ctx d seen m ≡ ok c
    → (validate d ≡ ok tt) × (lookup d.id m.by_id ≡ some c)
unfolding may_update
updated ctx d seen m c h = (ground arith, ground arith)

stored-named :
    (d c : Delivery) (m : Store) (txn i : ℕ)
    → IsIndexed m
    → lookup d.id m.by_id ≡ some c
    → c.transaction_id ≡ d.transaction_id
    → lookup txn m.by_txn ≡ some i
    → (x : Delivery) × (lookup i (stored d m).by_id ≡ some x) × (x.transaction_id ≡ txn)
stored-named d c m txn i w l same h =
    let (x, k, e) = w.named txn i h in
    elim (Bool-cases (i == d.id)) [
      | inl f ↦
          (d, ground (arith, f, lookup-insert d.id i d m.by_id), ground (arith, f, k, l, e, same))
      | inr nf ↦ (x, ground (arith, lookup-insert d.id i d m.by_id), e)
    ]

-- An update that keeps the transaction of the stored delivery keeps the invariant, whatever its result.
pub update-IsIndexed :
    (ctx : Option Err) (d c : Delivery) (seen : ℕ) (m : Store)
    → IsIndexed m
    → lookup d.id m.by_id ≡ some c
    → c.transaction_id ≡ d.transaction_id
    → IsIndexed (update ctx d seen m).1
unfolding update
update-IsIndexed ctx d c seen m w l same = elim (Result-cases (may_update ctx d seen m)) [
  | inr (x, e) ↦ rw (e, update) w
  | inl (y, e) ↦
      let (v, _) = updated ctx d seen m y e in
      rw (e, update)
        (record {
          keyed = λ i x h. ground (arith, lookup-insert d.id i d m.by_id, w.keyed i x);
          indexed = λ i x h.
              ground (arith, lookup-insert d.id i d m.by_id, w.indexed i x, w.indexed d.id c l);
          named = λ txn i h. stored-named d c m txn i w l same h;
        })
]
