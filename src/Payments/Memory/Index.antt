-- ===== src/Payments/Memory/Index.antt =====
-- The invariant of the store of payments: every payment stands under its own identifier and is valid, and
-- the index by transaction holds it.
use konumlu.Base.{
  ℕ, ◌≡◌, Option, none, some, arith, Bool-cases, Result-cases, inl, inr, lookup, lookup-insert, ok,
}
use konumlu.Payments.Domain.{Err, Payment, validate}
use konumlu.Payments.Memory.{
  Store, new_store, create, may_create, may_update, update, added, released, owned_by_other,
}

pub record IsIndexed (m : Store) : Type 0 where
  pub keyed : (i : ℕ) (p : Payment) → lookup i m.by_id ≡ some p → (p.id ≡ i) × (validate p ≡ ok tt)
  pub indexed :
      (i : ℕ) (p : Payment) → lookup i m.by_id ≡ some p → lookup p.transaction_id m.by_txn ≡ some i

pub new_store-IsIndexed : IsIndexed new_store
new_store-IsIndexed = record { keyed = λ i p h. absurd (cc); indexed = λ i p h. absurd (cc) }

-- There is at most one payment for a transaction.
pub one_per_transaction :
    (m : Store) (i j : ℕ) (p q : Payment)
    → IsIndexed m
    → lookup i m.by_id ≡ some p
    → lookup j m.by_id ≡ some q
    → p.transaction_id ≡ q.transaction_id
    → i ≡ j
one_per_transaction m i j p q w a b e =
    ground (arith, w.indexed i p a, rw e at (w.indexed i p a), w.indexed j q b)

created :
    (ctx : Option Err) (p : Payment) (m : Store)
    → may_create ctx p m ≡ ok tt
    → (validate p ≡ ok tt)
      × (lookup p.id m.by_id ≡ none)
      × (lookup p.transaction_id m.by_txn ≡ none)
unfolding may_create
created ctx p m h = (ground arith, ground arith, ground arith)

added-IsIndexed :
    (p : Payment) (m : Store)
    → IsIndexed m
    → validate p ≡ ok tt
    → lookup p.id m.by_id ≡ none
    → lookup p.transaction_id m.by_txn ≡ none
    → IsIndexed (added p m)
added-IsIndexed p m w v n o = record {
  keyed = λ i x h. ground (arith, lookup-insert p.id i p m.by_id, w.keyed i x);
  indexed = λ i x h. ground (
    arith,
    lookup-insert p.id i p m.by_id,
    lookup-insert p.transaction_id x.transaction_id p.id m.by_txn,
    w.indexed i x,
  );
}

-- A create keeps the invariant, whatever its result.
pub create-IsIndexed :
    (ctx : Option Err) (p : Payment) (m : Store) → IsIndexed m → IsIndexed (create ctx p m).1
unfolding create
create-IsIndexed ctx p m w = elim (Result-cases (may_create ctx p m)) [
  | inl (_, e) ↦ let (v, n, o) = created ctx p m e in rw (e, create) (added-IsIndexed p m w v n o)
  | inr (x, e) ↦ rw (e, create) w
]

updated :
    (ctx : Option Err) (p : Payment) (seen : ℕ) (m : Store) (c : Payment)
    → may_update ctx p seen m ≡ ok c
    → (validate p ≡ ok tt) × (lookup p.id m.by_id ≡ some c)
unfolding may_update
updated ctx p seen m c h = (ground arith, ground arith)

-- An update that keeps the transaction of the stored payment keeps the invariant, whatever its result.
pub update-IsIndexed :
    (ctx : Option Err) (p c : Payment) (seen : ℕ) (m : Store)
    → IsIndexed m
    → lookup p.id m.by_id ≡ some c
    → c.transaction_id ≡ p.transaction_id
    → IsIndexed (update ctx p seen m).1
unfolding update
update-IsIndexed ctx p c seen m w l same = elim (Result-cases (may_update ctx p seen m)) [
  | inr (x, e) ↦ rw (e, update) w
  | inl (d, e) ↦
      let (v, _) = updated ctx p seen m d e in
      let t = released d.provider_reference m.by_provider in
      elim (Bool-cases (owned_by_other p.provider_reference p.id t)) [
        | inl o ↦ rw (e, update) (rw o (record { keyed = w.keyed; indexed = w.indexed }))
        | inr o ↦
            rw (e, update)
              (rw o (record {
                keyed = λ i x h. ground (arith, lookup-insert p.id i p m.by_id, w.keyed i x);
                indexed = λ i x h.
                    ground
                      (arith, lookup-insert p.id i p m.by_id, w.indexed i x, w.indexed p.id c l);
              }))
      ]
]
