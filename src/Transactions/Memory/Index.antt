-- ===== src/Transactions/Memory/Index.antt =====
-- The invariant of the store: every transaction stands under its own identifier and is valid, and the
-- index by offer has one entry for each transaction, and no other.
use konumlu.Base.{
  ℕ, ◌≡◌, ◌≢◌, Option, none, some, arith, ◌==◌, Bool-cases, Result-cases, inl, inr, lookup, insert,
  lookup-insert, ok, err,
}
use konumlu.Transactions.Domain.{Err, conflict, Transaction, validate}
use konumlu.Transactions.Memory.{
  Store, new_store, create, may_create, may_update, get, get_by_offer, update, added,
}

pub record IsIndexed (m : Store) : Type 0 where
  pub keyed :
      (i : ℕ) (t : Transaction) → lookup i m.by_id ≡ some t → (t.id ≡ i) × (validate t ≡ ok tt)
  pub indexed :
      (i : ℕ) (t : Transaction) → lookup i m.by_id ≡ some t → lookup t.offer_id m.by_offer ≡ some i
  pub found :
      (o i : ℕ)
      → lookup o m.by_offer ≡ some i
      → (t : Transaction) × (lookup i m.by_id ≡ some t) × (t.offer_id ≡ o)

pub new_store-IsIndexed : IsIndexed new_store
new_store-IsIndexed = record {
  keyed = λ i t h. cc;
  indexed = λ i t h. cc;
  found = λ o i h. absurd (cc);
}

added-found :
    (t : Transaction) (m : Store)
    → IsIndexed m
    → lookup t.id m.by_id ≡ none
    → (p i : ℕ) → lookup p (insert t.offer_id t.id m.by_offer) ≡ some i
    → (x : Transaction) × (lookup i (insert t.id t m.by_id) ≡ some x) × (x.offer_id ≡ p)
added-found t m w n p i h = elim (Bool-cases (t.offer_id == p)) [
  | inl e ↦ (
    t,
    ground (arith, lookup-insert t.offer_id p t.id m.by_offer, lookup-insert t.id i t m.by_id),
    ground arith,
  )
  | inr e ↦
      let (x, l, o) = w.found p i (ground (arith, lookup-insert t.offer_id p t.id m.by_offer)) in
      (x, ground (arith, lookup-insert t.id i t m.by_id), o)
]

updated-found :
    (t c : Transaction) (m : Store)
    → IsIndexed m
    → lookup t.id m.by_id ≡ some c
    → c.offer_id ≡ t.offer_id
    → (p i : ℕ) → lookup p m.by_offer ≡ some i
    → (x : Transaction) × (lookup i (insert t.id t m.by_id) ≡ some x) × (x.offer_id ≡ p)
updated-found t c m w l same p i h = elim (Bool-cases (t.id == i)) [
  | inl e ↦
      let (x, lx, o) = w.found p i h in
      (t, ground (arith, lookup-insert t.id i t m.by_id), ground arith)
  | inr e ↦ let (x, lx, o) = w.found p i h in (x, ground (arith, lookup-insert t.id i t m.by_id), o)
]

-- What a passed check says.
created :
    (ctx : Option Err) (t : Transaction) (m : Store)
    → may_create ctx t m ≡ ok tt
    → (validate t ≡ ok tt) × (lookup t.id m.by_id ≡ none) × (lookup t.offer_id m.by_offer ≡ none)
unfolding may_create
created ctx t m h = ground arith

update_checked :
    (ctx : Option Err) (t : Transaction) (seen : ℕ) (m : Store)
    → may_update ctx t seen m ≡ ok tt
    → validate t ≡ ok tt
unfolding may_update
update_checked ctx t seen m h = ground arith

-- Adding a valid transaction under a new identifier and for a new offer keeps the invariant.
added-IsIndexed :
    (t : Transaction) (m : Store)
    → IsIndexed m
    → validate t ≡ ok tt
    → lookup t.id m.by_id ≡ none
    → lookup t.offer_id m.by_offer ≡ none
    → IsIndexed (added t m)
added-IsIndexed t m w v n o = record {
  keyed = λ i x h. ground (arith, lookup-insert t.id i t m.by_id, w.keyed i x);
  indexed = λ i x h. ground (
    arith,
    lookup-insert t.id i t m.by_id,
    lookup-insert t.offer_id x.offer_id t.id m.by_offer,
    w.indexed i x,
  );
  found = λ p i h. added-found t m w n p i h;
}

-- A create keeps the invariant, whatever its result.
pub create-IsIndexed :
    (ctx : Option Err) (t : Transaction) (m : Store) → IsIndexed m → IsIndexed (create ctx t m).1
unfolding create
create-IsIndexed ctx t m w = elim (Result-cases (may_create ctx t m)) [
  | inl (_, e) ↦ let (v, n, o) = created ctx t m e in rw (e, create) (added-IsIndexed t m w v n o)
  | inr (x, e) ↦ rw (e, create) w
]

create-added :
    (ctx : Option Err) (t : Transaction) (m m' : Store)
    → create ctx t m ≡ (ok tt, m')
    → (m' ≡ added t m) × (m.fail ≡ none)
unfolding create may_create
create-added ctx t m m' h = ground arith

-- After a create the transaction is found by its identifier and by its offer, no other entry has
-- changed, and a further valid transaction for the offer is a conflict.
pub create_lem :
    (ctx : Option Err) (t : Transaction) (m m' : Store)
    → create ctx t m ≡ (ok tt, m')
    → (get none t.id m' ≡ ok t)
      × (get_by_offer none t.offer_id m' ≡ ok t)
      × ((i : ℕ) → i ≢ t.id → lookup i m'.by_id ≡ lookup i m.by_id)
      × ((x : Transaction)
          → x.offer_id ≡ t.offer_id
          → validate x ≡ ok tt
          → create none x m' ≡ (err conflict, m'))
unfolding create may_create get get_by_offer
create_lem ctx t m m' h =
    let (e, nf) = create-added ctx t m m' h in
    let by_id = λ (i : ℕ). lookup-insert t.id i t m.by_id in
    let by_offer = lookup-insert t.offer_id t.offer_id t.id m.by_offer in
    (
      rw e (ground (arith, by_id t.id)),
      rw e (ground (arith, by_id t.id, by_offer)),
      λ i ne. rw e (ground (arith, by_id i)),
      λ x o v. rw e (ground (arith, by_id x.id, rw (← o) at by_offer, o)),
    )

-- There is at most one transaction for an offer.
pub one_per_offer :
    (m : Store) (i j : ℕ) (t x : Transaction)
    → IsIndexed m
    → lookup i m.by_id ≡ some t
    → lookup j m.by_id ≡ some x
    → t.offer_id ≡ x.offer_id
    → i ≡ j
one_per_offer m i j t x w a b e =
    ground (arith, w.indexed i t a, rw e at (w.indexed i t a), w.indexed j x b)

updated-IsIndexed :
    (t c : Transaction) (m : Store)
    → IsIndexed m
    → validate t ≡ ok tt
    → lookup t.id m.by_id ≡ some c
    → c.offer_id ≡ t.offer_id
    → IsIndexed (record m { by_id = insert t.id t m.by_id })
updated-IsIndexed t c m w v l same = record {
  keyed = λ i x h. ground (arith, lookup-insert t.id i t m.by_id, w.keyed i x);
  indexed =
      λ i x h. ground (arith, lookup-insert t.id i t m.by_id, w.indexed i x, w.indexed t.id c l);
  found = λ p i h. updated-found t c m w l same p i h;
}

-- An update that keeps the offer of the stored transaction keeps the invariant, whatever its result.
pub update-IsIndexed :
    (ctx : Option Err) (t c : Transaction) (seen : ℕ) (m : Store)
    → IsIndexed m
    → lookup t.id m.by_id ≡ some c
    → c.offer_id ≡ t.offer_id
    → IsIndexed (update ctx t seen m).1
unfolding update
update-IsIndexed ctx t c seen m w l same = elim (Result-cases (may_update ctx t seen m)) [
  | inl (_, e) ↦ rw (e, update) (updated-IsIndexed t c m w (update_checked ctx t seen m e) l same)
  | inr (x, e) ↦ rw (e, update) w
]

-- Of two valid updates of a transaction that have seen the same version, where the first succeeds
-- and moves the update time, the second, its context being live, is a conflict and writes nothing.
pub update-update_stale :
    (ctx : Option Err) (t x : Transaction) (seen : ℕ) (m m' : Store)
    → update ctx t seen m ≡ (ok tt, m')
    → t.updated_at ≢ seen
    → x.id ≡ t.id
    → validate x ≡ ok tt
    → update none x seen m' ≡ (err conflict, m')
unfolding update may_update
update-update_stale ctx t x seen m m' h moved same v =
    ground (arith, lookup-insert t.id t.id t m.by_id, lookup-insert t.id x.id t m.by_id)
