-- ===== src/Reviews/Memory/Index.antt =====
-- The invariant of the store of reviews: every review stands under its own identifier, is valid and
-- holds the place of its interaction.
use konumlu.Base.{
  ℕ, ◌<◌, ◌≡◌, refl, Option, none, some, arith, Result-cases, inl, inr, lookup, lookup-insert,
  lookup-delete, IsFunctional, insert-IsFunctional, delete-IsFunctional, delete-insert, ok, Result,
}
use konumlu.Ids.{id_limit}
use konumlu.Reviews.Domain.{Err, Review, validate}
use konumlu.Reviews.Memory.{
  Store, World, new_store, may_insert, added, removed, insert_review, enqueued,
}

pub record IsIndexed (m : Store) : Type 0 where
  pub keyed : (i : ℕ) (r : Review) → lookup i m.by_id ≡ some r → (r.id ≡ i) × (validate r ≡ ok tt)
  pub bounded : (i : ℕ) (r : Review) → lookup i m.by_id ≡ some r → r.id < id_limit
  pub indexed :
      (i : ℕ) (r : Review)
      → lookup i m.by_id ≡ some r
      → lookup r.verified_interaction_id m.by_interaction ≡ some i
  pub functional : IsFunctional m.by_id

pub new_store-IsIndexed : IsIndexed new_store
new_store-IsIndexed = record {
  keyed = λ i r h. absurd (cc);
  bounded = λ i r h. absurd (cc);
  indexed = λ i r h. absurd (cc);
  functional = tt;
}

-- An interaction has at most one review.
pub one_per_interaction :
    (m : Store) (i j : ℕ) (p q : Review)
    → IsIndexed m
    → lookup i m.by_id ≡ some p
    → lookup j m.by_id ≡ some q
    → p.verified_interaction_id ≡ q.verified_interaction_id
    → i ≡ j
one_per_interaction m i j p q w a b e =
    ground (arith, w.indexed i p a, rw e at (w.indexed i p a), w.indexed j q b)

pub inserts :
    (ctx : Option Err) (r : Review) (m : Store)
    → may_insert ctx r m ≡ ok tt
    → (validate r ≡ ok tt)
      × (lookup r.id m.by_id ≡ none)
      × (lookup r.verified_interaction_id m.by_interaction ≡ none)
unfolding may_insert
inserts ctx r m h = (ground arith, ground arith, ground arith)

pub added-IsIndexed :
    (r : Review) (m : Store)
    → IsIndexed m
    → r.id < id_limit
    → validate r ≡ ok tt
    → lookup r.id m.by_id ≡ none
    → lookup r.verified_interaction_id m.by_interaction ≡ none
    → IsIndexed (added r m)
added-IsIndexed r m w b v n o = record {
  keyed = λ i x h. ground (arith, lookup-insert r.id i r m.by_id, w.keyed i x);
  bounded = λ i x h. ground (arith, lookup-insert r.id i r m.by_id, w.bounded i x);
  indexed = λ i x h. ground (
    arith,
    lookup-insert r.id i r m.by_id,
    lookup-insert r.verified_interaction_id x.verified_interaction_id r.id m.by_interaction,
    w.indexed i x,
  );
  functional = insert-IsFunctional r.id r m.by_id w.functional;
}

-- Taking a stored review away again keeps the invariant.
pub removed-IsIndexed :
    (r : Review) (m : Store) → IsIndexed m → lookup r.id m.by_id ≡ some r → IsIndexed (removed r m)
removed-IsIndexed r m w l = record {
  keyed = λ i x h. ground (arith, lookup-delete r.id i m.by_id, w.keyed i x);
  bounded = λ i x h. ground (arith, lookup-delete r.id i m.by_id, w.bounded i x);
  indexed = λ i x h. ground (
    arith,
    lookup-delete r.id i m.by_id,
    lookup-delete r.verified_interaction_id x.verified_interaction_id m.by_interaction,
    w.indexed i x,
    w.indexed r.id r l,
  );
  functional = delete-IsFunctional r.id m.by_id w.functional;
}

-- ... and where nothing has happened meanwhile, it gives the store back as it was.
pub removed-added :
    (r : Review) (m : Store)
    → lookup r.id m.by_id ≡ none
    → lookup r.verified_interaction_id m.by_interaction ≡ none
    → removed r (added r m) ≡ m
removed-added r m n o =
    rw
      (
        delete-insert r.id r m.by_id n,
        delete-insert r.verified_interaction_id r.id m.by_interaction o,
      )
      refl

-- What an enqueue that is run between the insert and its end may do to the world: it keeps the
-- invariant, and a review that is stored stays as it is.
pub record IsFair {Q : Type 0} (f : World Q → World Q) : Type 0 where
  pub keeps : (w : World Q) → IsIndexed w.store → IsIndexed (f w).store
  pub persists :
      (w : World Q) (i : ℕ) (r : Review)
      → lookup i w.store.by_id ≡ some r
      → lookup i (f w).store.by_id ≡ some r

module _ {Q : Type 0} (enqueue : World Q → Result Err (Unit {0}) × World Q) where
  -- An insert keeps the invariant, whatever its result.
  pub insert_review-IsIndexed :
      (r : Review) (w : World Q)
      → IsFair (λ v. (enqueue v).1)
      → r.id < id_limit
      → IsIndexed w.store
      → IsIndexed (insert_review r (some enqueue) w).1.store
  unfolding insert_review enqueued
  insert_review-IsIndexed r w fair lt h = elim (Result-cases (may_insert w.ctx r w.store)) [
    | inr (x, e) ↦ rw (e, insert_review) h
    | inl (_, e) ↦
        let (v, n, o) = inserts w.ctx r w.store e in
        let w' : World Q = record w { store = added r w.store } in
        let k = fair.keeps w' (added-IsIndexed r w.store h lt v n o) in
        elim (Result-cases (enqueue w').0) [
          | inl (_, g) ↦ rw (e, insert_review) (rw (g, enqueued) k)
          | inr (x, g) ↦
              rw (e, insert_review)
                (rw (g, enqueued)
                  (removed-IsIndexed r (enqueue w').1.store k (
                    fair.persists w' r.id r
                      (ground (arith, lookup-insert r.id r.id r w.store.by_id)))))
        ]
  ]
