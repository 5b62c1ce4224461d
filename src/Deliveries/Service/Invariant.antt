-- ===== src/Deliveries/Service/Invariant.antt =====
-- The store's invariant under the requests on deliveries (service.go), whatever other requests do in
-- between.
use konumlu.Base.{
  ℕ, ◌≡◌, sym, ◌∙◌, Bool, true, false, Option, some, arith, lookup, Result, ok, err, ◌⊎◌, inl, inr,
  Result-cases, Bool-cases,
}
use konumlu.Deliveries.Domain
use konumlu.Deliveries.Domain.{Err, Delivery, Change, provider}
use konumlu.Deliveries.Memory
use konumlu.Deliveries.Memory.{Store}
use konumlu.Deliveries.Memory.Index.{IsIndexed, update-IsIndexed, create-IsIndexed}
use konumlu.Deliveries.Setup.{Setup, World, CreateInput, is_not_found}
use konumlu.Deliveries.Service.{
  get, get_for, enqueue_status, run_maybe_tx, then_event, commit_update, commit_change,
  check_transaction, apply, apply_provider, apply_participant, mark_ready, mark_in_transit,
  mark_delivered, cancel, party_transaction, commit_create, create_new, drafted,
  create_for_transaction,
}

-- What other requests may do to the world: they keep the invariant, and a delivery that is stored
-- stays stored for the same transaction.
pub record IsFair {Queue : Type 0} (f : World Queue → World Queue) : Type 0 where
  pub keeps : (w : World Queue) → IsIndexed w.store → IsIndexed (f w).store
  pub persists :
      (w : World Queue) (i : ℕ) (d : Delivery)
      → lookup i w.store.by_id ≡ some d
      → (c : Delivery) × (lookup i (f w).store.by_id ≡ some c)
        × (c.transaction_id ≡ d.transaction_id)

-- An operation that keeps the identity and the transaction of the delivery that it changes.
abbrev pub KeepsIdentity : (Delivery → ℕ → Change) → Type 0
KeepsIdentity fn =
    (d d' : Delivery) (now : ℕ)
    → fn d now ≡ ok (d', true)
    → (d'.id ≡ d.id) × (d'.transaction_id ≡ d.transaction_id)

mark_ready-KeepsIdentity : KeepsIdentity Domain.mark_ready
unfolding Domain.mark_ready
mark_ready-KeepsIdentity d d' now h = ground arith

mark_in_transit-KeepsIdentity : KeepsIdentity Domain.mark_in_transit
unfolding Domain.mark_in_transit
mark_in_transit-KeepsIdentity d d' now h = ground arith

mark_delivered-KeepsIdentity : KeepsIdentity Domain.mark_delivered
unfolding Domain.mark_delivered
mark_delivered-KeepsIdentity d d' now h = ground arith

cancel-KeepsIdentity : KeepsIdentity Domain.cancel
unfolding Domain.cancel
cancel-KeepsIdentity d d' now h = ground arith

module _ {Queue : Type 0} (s : Setup Queue) where
  enqueue_status-store :
      (d : Delivery) (actor : ℕ) (w : World Queue) → (enqueue_status s d actor w).1.store ≡ w.store
  unfolding enqueue_status
  enqueue_status-store d actor w = ground arith

  then_event-store :
      (r : Result Err (Unit {0}) × Store) (d : Delivery) (actor : ℕ) (w : World Queue)
      → (then_event s r d actor w).1.store ≡ r.1
  unfolding then_event
  then_event-store (err e, st) d actor w = ground arith
  then_event-store (ok _, st) d actor w = enqueue_status-store d actor (record w { store = st })

  run_maybe_tx-world :
      (fn : World Queue → Result Err (Unit {0}) × World Queue) (w : World Queue)
      → ((run_maybe_tx s fn w).1 ≡ w) ⊎ ((run_maybe_tx s fn w).1 ≡ (fn w).1)
  unfolding run_maybe_tx
  run_maybe_tx-world fn w = ground arith

  run_maybe_tx-IsIndexed :
      (fn : World Queue → Result Err (Unit {0}) × World Queue) (w : World Queue)
      → IsIndexed w.store
      → IsIndexed (fn w).1.store
      → IsIndexed (run_maybe_tx s fn w).1.store
  run_maybe_tx-IsIndexed fn w a b = elim (run_maybe_tx-world fn w) [
    | inl e ↦ rw e a
    | inr e ↦ rw e b
  ]

  commit_update-IsIndexed :
      (next c : Delivery) (seen actor : ℕ) (w : World Queue)
      → IsIndexed w.store
      → lookup next.id w.store.by_id ≡ some c
      → c.transaction_id ≡ next.transaction_id
      → IsIndexed (commit_update s next seen actor w).1.store
  unfolding commit_update
  commit_update-IsIndexed next c seen actor w h l same =
      rw (then_event-store (Memory.update w.ctx next seen w.store) next actor w)
        (update-IsIndexed w.ctx next c seen w.store h l same)

  commit_create-IsIndexed :
      (d : Delivery) (actor : ℕ) (w : World Queue)
      → IsIndexed w.store
      → IsIndexed (commit_create s d actor w).1.store
  unfolding commit_create
  commit_create-IsIndexed d actor w h =
      rw (then_event-store (Memory.create w.ctx d w.store) d actor w)
        (create-IsIndexed w.ctx d w.store h)

  -- What a request finds is the stored delivery of that identifier.
  pub get_for-lookup :
      (user id : ℕ) (w : World Queue) {d : Delivery}
      → get_for s user id w ≡ ok d
      → lookup id w.store.by_id ≡ some d
  unfolding get_for get Memory.get
  get_for-lookup user id w h = ground arith

  module _ (between later : World Queue → World Queue) where
    commit_change-world :
        (fn : Delivery → ℕ → Change) (user now' : ℕ) (current next : Delivery) (w : World Queue)
        → let run = run_maybe_tx s (commit_update s next current.updated_at user) (between w) in
          let w' = (commit_change s between later fn user now' current next w).1 in
          (w' ≡ run.1) ⊎ (w' ≡ later run.1)
    unfolding commit_change
    commit_change-world fn user now' current next w = ground arith

    module _ (fb : IsFair between) (fl : IsFair later) where
      commit_change-IsIndexed :
          (fn : Delivery → ℕ → Change) (user now' : ℕ) (current next c : Delivery) (w : World Queue)
          → IsIndexed w.store
          → lookup next.id (between w).store.by_id ≡ some c
          → c.transaction_id ≡ next.transaction_id
          → IsIndexed (commit_change s between later fn user now' current next w).1.store
      commit_change-IsIndexed fn user now' current next c w h l same =
          let seen = current.updated_at in
          let done =
            run_maybe_tx-IsIndexed (commit_update s next seen user) (between w) (fb.keeps w h)
              (commit_update-IsIndexed next c seen user (between w) (fb.keeps w h) l same) in
          elim (commit_change-world fn user now' current next w) [
            | inl e ↦ rw e done
            | inr e ↦ rw e (fl.keeps _ done)
          ]

      apply-IsIndexed :
          (refuse_cancelled : Bool) (fn : Delivery → ℕ → Change) (user id now now' : ℕ)
          (d : Delivery) (w : World Queue)
          → KeepsIdentity fn
          → IsIndexed w.store
          → lookup id w.store.by_id ≡ some d
          → IsIndexed (apply s between later refuse_cancelled fn user now now' d w).1.store
      unfolding apply
      apply-IsIndexed refuse_cancelled fn user id now now' d w k h l =
          elim (Result-cases (fn d now)) [
            | inr (x, f) ↦ rw (f, apply) h
            | inl ((next, false), f) ↦ rw (f, apply) h
            | inl ((next, true), f) ↦
                elim (Result-cases (check_transaction s refuse_cancelled d.transaction_id)) [
                  | inr (x, e) ↦ rw (f, apply) (rw e h)
                  | inl (_, e) ↦
                      let (c, m, o) = fb.persists w id d l in
                      let (same_id, same_txn) = k d next now f in
                      rw (f, apply)
                        (rw e (
                          commit_change-IsIndexed fn user now' d next c w h
                            (rw (same_id ∙ (h.keyed id d l).0) m) (o ∙ sym same_txn)))
                ]
          ]

      apply_provider-IsIndexed :
          (fn : Delivery → ℕ → Change) (user id now now' : ℕ) (w : World Queue)
          → KeepsIdentity fn
          → IsIndexed w.store
          → IsIndexed (apply_provider s between later fn user id now now' w).1.store
      unfolding apply_provider
      apply_provider-IsIndexed fn user id now now' w k h =
          elim (Result-cases (get_for s user id w)) [
            | inr (x, e) ↦ rw (e, apply_provider) h
            | inl (d, e) ↦ elim (Bool-cases (provider d user)) [
              | inl p ↦
                  rw (e, apply_provider)
                    (rw p (
                      apply-IsIndexed true fn user id now now' d w k h
                        (get_for-lookup user id w e)))
              | inr p ↦ rw (e, apply_provider) (rw p h)
            ]
          ]

      apply_participant-IsIndexed :
          (fn : Delivery → ℕ → Change) (user id now now' : ℕ) (w : World Queue)
          → KeepsIdentity fn
          → IsIndexed w.store
          → IsIndexed (apply_participant s between later fn user id now now' w).1.store
      unfolding apply_participant
      apply_participant-IsIndexed fn user id now now' w k h =
          elim (Result-cases (get_for s user id w)) [
            | inr (x, e) ↦ rw (e, apply_participant) h
            | inl (d, e) ↦
                rw (e, apply_participant)
                  (apply-IsIndexed false fn user id now now' d w k h (get_for-lookup user id w e))
          ]

      create_new-world :
          (user txn : ℕ) (d : Delivery) (w : World Queue)
          → let run = run_maybe_tx s (commit_create s d user) (between w) in
            let w' = (create_new s between later user txn d w).1 in
            (w' ≡ run.1) ⊎ (w' ≡ later run.1)
      unfolding create_new
      create_new-world user txn d w = ground arith

      create_new-IsIndexed :
          (user txn : ℕ) (d : Delivery) (w : World Queue)
          → IsIndexed w.store
          → IsIndexed (create_new s between later user txn d w).1.store
      create_new-IsIndexed user txn d w h =
          let done =
            run_maybe_tx-IsIndexed (commit_create s d user) (between w) (fb.keeps w h)
              (commit_create-IsIndexed d user (between w) (fb.keeps w h)) in
          elim (create_new-world user txn d w) [
            | inl e ↦ rw e done
            | inr e ↦ rw e (fl.keeps _ done)
          ]

      create_for_transaction-world :
          (user txn : ℕ) (input : CreateInput) (rand : Option ℕ) (now : ℕ) (w : World Queue)
          → let w' = (create_for_transaction s between later user txn input rand now w).1 in
            (w' ≡ w) ⊎ ((d : Delivery) × (w' ≡ (create_new s between later user txn d w).1))
      unfolding create_for_transaction
      create_for_transaction-world user txn input rand now w =
          elim (Result-cases (party_transaction s user txn)) [
            | inr (x, e) ↦ inl (ground (arith, e))
            | inl (ref, e) ↦ elim (Result-cases (drafted s ref input rand now)) [
              | inr (x, f) ↦ inl (ground (arith, e, f))
              | inl (d, f) ↦ elim (Result-cases (Memory.get_by_transaction w.ctx txn w.store)) [
                | inl (x, g) ↦ inl (ground (arith, e, g))
                | inr (x, g) ↦ elim (Bool-cases (is_not_found x)) [
                  | inl y ↦ inr (d, ground (arith, e, f, g, y))
                  | inr y ↦ inl (ground (arith, e, g, y))
                ]
              ]
            ]
          ]

      create_for_transaction-IsIndexed :
          (user txn : ℕ) (input : CreateInput) (rand : Option ℕ) (now : ℕ) (w : World Queue)
          → IsIndexed w.store
          → IsIndexed (create_for_transaction s between later user txn input rand now w).1.store
      create_for_transaction-IsIndexed user txn input rand now w h =
          elim (create_for_transaction-world user txn input rand now w) [
            | inl e ↦ rw e h
            | inr (d, e) ↦ rw e (create_new-IsIndexed user txn d w h)
          ]

  -- CreateForTransaction, MarkReady, MarkInTransit, MarkDelivered and Cancel keep the store of
  -- deliveries (every delivery valid and under its own identifier, the index of transactions
  -- naming exactly the deliveries of them, so never two deliveries for a transaction), whatever
  -- fair requests run before their commits and before their second reads: fair requests keep
  -- the same, and leave a stored delivery stored for the same transaction.
  pub delivery_requests-IsIndexed :
      (between later : World Queue → World Queue) (user id : ℕ) (input : CreateInput)
      (rand : Option ℕ) (now now' : ℕ) (w : World Queue)
      → IsFair between
      → IsFair later
      → IsIndexed w.store
      → IsIndexed (create_for_transaction s between later user id input rand now w).1.store
        × IsIndexed (mark_ready s between later user id now now' w).1.store
        × IsIndexed (mark_in_transit s between later user id now now' w).1.store
        × IsIndexed (mark_delivered s between later user id now now' w).1.store
        × IsIndexed (cancel s between later user id now now' w).1.store
  unfolding mark_ready mark_in_transit mark_delivered cancel
  delivery_requests-IsIndexed between later user id input rand now now' w fb fl h = (
    create_for_transaction-IsIndexed between later fb fl user id input rand now w h,
    apply_provider-IsIndexed between later fb fl Domain.mark_ready user id now now' w
        mark_ready-KeepsIdentity h,
    apply_provider-IsIndexed between later fb fl Domain.mark_in_transit user id now now' w
        mark_in_transit-KeepsIdentity h,
    apply_provider-IsIndexed between later fb fl Domain.mark_delivered user id now now' w
        mark_delivered-KeepsIdentity h,
    apply_participant-IsIndexed between later fb fl Domain.cancel user id now now' w
        cancel-KeepsIdentity h,
  )
