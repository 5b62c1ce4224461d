-- ===== src/Reviews/Service/Create.antt =====
-- Create of service.go and the store: the invariant, and what a refused request leaves.
use konumlu.Base.{
  lookup-insert_self, ℕ, ◌<◌, ◌≡◌, refl, ◌⊎◌, inl, inr, Option, none, some, arith, Result-cases,
  Result, ok, err, lookup,
}
use konumlu.Ids.{id_limit, new_id, stamp_bits_bounds}
use konumlu.Outbox.Writer.{NewEvent}
use konumlu.Reviews.Domain.{Err, Review, CreateInput}
use konumlu.Reviews.Events.{encode_verified_created}
use konumlu.Reviews.Memory.{World, may_insert, insert_review, enqueued, added}
use konumlu.Reviews.Memory.Index.{
  IsIndexed, IsFair, insert_review-IsIndexed, inserts, removed-added,
}
use konumlu.Reviews.Service.{Setup, prepare, create}

module _ {Q : Type 0} where
  -- A refused insert leaves the world as it was, where a failing enqueue does.
  pub insert_review-error :
      (enqueue : World Q → Result Err (Unit {0}) × World Q) (r : Review) (w : World Q) (e : Err)
      → ((v : World Q) (x : Err) → (enqueue v).0 ≡ err x → (enqueue v).1 ≡ v)
      → (insert_review r (some enqueue) w).0 ≡ err e
      → (insert_review r (some enqueue) w).1 ≡ w
  unfolding insert_review enqueued
  insert_review-error enqueue r w e atomic h = elim (Result-cases (may_insert w.ctx r w.store)) [
    | inr (x, f) ↦ rw (f, insert_review) refl
    | inl (_, f) ↦
        let (_, n, o) = inserts w.ctx r w.store f in
        let w' : World Q = record w { store = added r w.store } in
        elim (Result-cases (enqueue w').0) [
          | inl (_, g) ↦
              ground (
                arith,
                rw (f, insert_review) at h,
                rw (g, enqueued) at (rw (f, insert_review) at h),
              )
          | inr (x, g) ↦
              rw (f, insert_review)
                (rw (g, enqueued) (rw (atomic w' x g, removed-added r w.store n o) refl))
        ]
  ]

  pub insert_review-ok :
      (enqueue : World Q → Result Err (Unit {0}) × World Q) (r : Review) (w : World Q)
      → IsFair (λ v. (enqueue v).1)
      → (insert_review r (some enqueue) w).0 ≡ ok tt
      → (lookup r.verified_interaction_id w.store.by_interaction ≡ none)
        × (lookup r.id (insert_review r (some enqueue) w).1.store.by_id ≡ some r)
        × ((enqueue (record w { store = added r w.store })).0 ≡ ok tt)
  unfolding insert_review enqueued
  insert_review-ok enqueue r w fair h = elim (Result-cases (may_insert w.ctx r w.store)) [
    | inr (x, f) ↦ absurd (ground (arith, rw (f, insert_review) at h))
    | inl (_, f) ↦
        let (_, n, o) = inserts w.ctx r w.store f in
        let w' : World Q = record w { store = added r w.store } in
        elim (Result-cases (enqueue w').0) [
          | inl (_, g) ↦ (
            o,
            rw (f, insert_review)
                (rw (g, enqueued)
                  (fair.persists w' r.id r (lookup-insert_self r.id r w.store.by_id))),
            g,
          )
          | inr (x, g) ↦ absurd (ground (arith, rw (g, enqueued) at (rw (f, insert_review) at h)))
        ]
  ]

module _ {Q : Type 0} (s : Setup Q) where
  prepare-bounded :
      (reviewer : ℕ) (inp : CreateInput) (rand : Option ℕ) (now now' : ℕ) (w : World Q) (r : Review)
      → prepare s reviewer inp rand now now' w ≡ ok r
      → r.id < id_limit
  unfolding prepare new_id
  prepare-bounded reviewer inp none now now' w r h = ground arith
  prepare-bounded reviewer inp (some x) now now' w r h = ground (arith, stamp_bits_bounds x)

  module _ (between : World Q → World Q) where
    -- Create keeps the invariant of the store of reviews (every review valid, under its own
    -- identifier and in the index by interaction, so that an interaction has at most one
    -- review), whatever fair requests run before its insert and between the insert and the
    -- end of its enqueue.
    pub create_review-IsIndexed :
        (reviewer : ℕ) (inp : CreateInput) (rand : Option ℕ) (now now' : ℕ) (w : World Q)
        → IsFair between
        → ((e : Review) → IsFair (λ v. (s.outbox (encode_verified_created s.rfc3339 e) v).1))
        → IsIndexed w.store
        → IsIndexed (create s between reviewer inp rand now now' w).1.store
    unfolding create
    create_review-IsIndexed reviewer inp rand now now' w fb fo h =
        elim (Result-cases (prepare s reviewer inp rand now now' w)) [
          | inr (x, e) ↦ rw (e, create) h
          | inl (row, e) ↦
              let enqueue = s.outbox (encode_verified_created s.rfc3339 row) in
              let done =
                insert_review-IsIndexed enqueue row (between w) (fo row)
                  (prepare-bounded reviewer inp rand now now' w row e) (fb.keeps w h) in
              elim (Result-cases (insert_review row (some enqueue) (between w)).0) [
                | inl (_, g) ↦ rw (e, create) (rw g done)
                | inr (x, g) ↦ rw (e, create) (rw g done)
              ]
        ]

    -- Where a failing enqueue leaves the world alone, a Create that answers with an error
    -- leaves the world as the request or its insert has met it: the row that it had written
    -- is taken away again.
    pub create_review-error :
        (reviewer : ℕ) (inp : CreateInput) (rand : Option ℕ) (now now' : ℕ) (w : World Q) (e : Err)
        → ((n : NewEvent) (v : World Q) (x : Err) → (s.outbox n v).0 ≡ err x → (s.outbox n v).1 ≡ v)
        → (create s between reviewer inp rand now now' w).0 ≡ err e
        → ((create s between reviewer inp rand now now' w).1 ≡ w)
          ⊎ ((create s between reviewer inp rand now now' w).1 ≡ between w)
    unfolding create
    create_review-error reviewer inp rand now now' w e atomic h =
        elim (Result-cases (prepare s reviewer inp rand now now' w)) [
          | inr (x, f) ↦ inl (rw (f, create) refl)
          | inl (row, f) ↦
              let n = encode_verified_created s.rfc3339 row in
              elim (Result-cases (insert_review row (some (s.outbox n)) (between w)).0) [
                | inl (_, g) ↦ absurd (ground (arith, rw g at (rw (f, create) at h)))
                | inr (x, g) ↦ inr (
                    rw (f, create)
                      (rw g (insert_review-error (s.outbox n) row (between w) x (atomic n) g)))
              ]
        ]
